-- ===== src/Tree/Rows.antt =====
-- The loop of syncMT4YoungestTwig makes every row the hashes of the row below.
use mathlib.Core.List.{Memᴰ}
use mathlib.Core.List.Memᴰ.{head, tail}
use mathlib.Core.List.Memᴰ
use mathlib.Core.List.Permᴰ
use onvakv.Base.{
  ℕ, zero, suc, ◌+◌, ◌*◌, ◌/◌, ◌%◌, ◌<◌, ◌≤◌, ◌≡◌, ◌≢◌, refl, sym, subst, ◌∙◌, ap, arith, ◌⊎◌, inl,
  inr, Bool, true, false, ◌&&◌, List, [], ◌∷◌, ltb, leb, ◌==◌, if◌then◌else◌, Bool-cases,
}
use onvakv.Types.{Bytes}
use onvakv.Tree.Hasher.{HashJob, hash2, hashed}
use onvakv.Tree.Jobs.{AreSeparate, run-hashed}
use onvakv.Tree.Youngest.{Array, array_memory, index_cases, row_jobs, sync_row}

-- The job of the nodes 2p and 2p + 1 of the row from `base` = 2h on.
abbrev pair_job : (level h p : ℕ) → HashJob array_memory
pair_job level h p = record {
  target = (2 * h + 2 * p) / 2;
  level = level;
  src_a = 2 * h + 2 * p;
  src_b = 2 * h + 2 * p + 1;
}

-- The list where the test of the loop is decided, and its rest at the next pair.
opened :
    (b : Bool) (rounds level h p end_round : ℕ) (j : HashJob array_memory)
    → (leb (2 * p) end_round && ltb (2 * p + 1) (2 * h)) ≡ b
    → row_jobs (suc rounds) level (2 * h) (2 * p) end_round ≡ (
        if b
        then pair_job level h p ∷ row_jobs rounds level (2 * h) (2 * (p + 1)) end_round
        else [])
unfolding row_jobs
opened b rounds level h p end_round j e =
    (let n : 2 * p + 2 ≡ 2 * (p + 1) = omega arith in rw (e, n) refl)

-- Every job is one of a pair in the row.
of_row_jobs :
    (rounds level h p end_round : ℕ) (j : HashJob array_memory)
    → Memᴰ j (row_jobs rounds level (2 * h) (2 * p) end_round)
    → (q : ℕ) × (q < h) × (j ≡ pair_job level h q)
of_row_jobs zero level h p end_round j i = unfold row_jobs in (elim i [ ])
of_row_jobs (suc rounds) level h p end_round j i =
    elim (Bool-cases (leb (2 * p) end_round && ltb (2 * p + 1) (2 * h))) [
      | inl t ↦
          elim (Memᴰ.cases_cons
            (subst (λ l. Memᴰ j l) (opened true rounds level h p end_round j t) i)) [
              | inl e ↦ (p, ground (arith, t), e)
              | inr r ↦ of_row_jobs rounds level h (p + 1) end_round j r
            ]
      | inr f ↦ elim (subst (λ l. Memᴰ j l) (opened false rounds level h p end_round j f) i) [ ]
    ]

-- Every pair that begins in the range has a job.
in_row_jobs :
    (rounds level h p end_round q : ℕ)
    → p ≤ q
    → q < h
    → q < p + rounds
    → 2 * q ≤ end_round
    → Memᴰ (pair_job level h q) (row_jobs rounds level (2 * h) (2 * p) end_round)
in_row_jobs zero level h p end_round q a b c d = absurd (omega arith)
in_row_jobs (suc rounds) level h p end_round q a b c d =
    (let t : (leb (2 * p) end_round && ltb (2 * p + 1) (2 * h)) ≡ true = ground arith in
      subst (λ l. Memᴰ (pair_job level h q) l)
        (sym (opened true rounds level h p end_round (pair_job level h p) t))
        (elim (index_cases q p) [
          | inl e ↦ head (ap (λ x. pair_job level h x) e)
          | inr n ↦
              tail (in_row_jobs rounds level h (p + 1) end_round q (omega arith) b (omega arith) d)
        ]))

same_pair : (h q r : ℕ) → (2 * h + 2 * q) / 2 ≡ (2 * h + 2 * r) / 2 → q ≡ r
same_pair h q r e = omega arith

pub row_jobs-AreSeparate :
    (rounds level h p end_round : ℕ)
    → AreSeparate array_memory (row_jobs rounds level (2 * h) (2 * p) end_round)
row_jobs-AreSeparate rounds level h p end_round = record {
  no_source = λ j k ij ik.
      let (q, b, e) = of_row_jobs rounds level h p end_round j ij in
      let (r, c, g) = of_row_jobs rounds level h p end_round k ik in
      (
        λ x. omega (arith, b, sym (ap (λ y. y.target) e) ∙ x ∙ ap (λ y. y.src_a) g),
        λ x. omega (arith, b, sym (ap (λ y. y.target) e) ∙ x ∙ ap (λ y. y.src_b) g),
      );
  one_job = λ j k ij ik t.
      let (q, b, e) = of_row_jobs rounds level h p end_round j ij in
      let (r, c, g) = of_row_jobs rounds level h p end_round k ik in
      e
      ∙ ap (λ x. pair_job level h x)
          (same_pair h q r (sym (ap (λ y. y.target) e) ∙ t ∙ ap (λ y. y.target) g))
      ∙ sym g;
}

-- Is the location the target of a job?
target_cases :
    (jobs : List (HashJob array_memory)) (l : ℕ)
    → ((j : HashJob array_memory) × Memᴰ j jobs × (j.target ≡ l))
      ⊎ ((j : HashJob array_memory) → Memᴰ j jobs → j.target ≢ l)
target_cases [] l = inr (λ j i. elim i [ ])
target_cases (k ∷ jobs) l = elim (index_cases k.target l) [
  | inl e ↦ inl (k, head refl, e)
  | inr n ↦ elim (target_cases jobs l) [
    | inl (j, i, e) ↦ inl (j, tail i, e)
    | inr h ↦ inr (λ j i. elim (Memᴰ.cases_cons i) [
      | inl e ↦ λ x. n (sym (ap (λ y. y.target) e) ∙ x)
      | inr r ↦ h j r
    ])
  ]
]

module _ (sha256 : Bytes → Bytes) where
  -- The node p of the row above is the hash of its children.
  abbrev pub IsParent : (level h p : ℕ) → (above below : Array Bytes) → Type 0
  IsParent level h p above below =
      above (h + p) ≡ hash2 sha256 level (below (2 * h + 2 * p)) (below (2 * h + 2 * p + 1))

  module _ (h level start end_ : ℕ) (mt : Array Bytes) where
    rounded : ℕ
    rounded = if end_ % 2 == 1 then end_ + 1 else end_

    jobs : List (HashJob array_memory)
    jobs = row_jobs h level (2 * h) (2 * (start / 2)) rounded

    ran :
        ((j : HashJob array_memory)
          → Memᴰ j jobs
          → sync_row sha256 h level start end_ mt j.target ≡ hashed sha256 array_memory mt j)
        × ((l : ℕ)
            → ((j : HashJob array_memory) → Memᴰ j jobs → j.target ≢ l)
            → sync_row sha256 h level start end_ mt l ≡ mt l)
    unfolding sync_row jobs rounded
    ran =
        run-hashed sha256 array_memory jobs jobs mt
          (row_jobs-AreSeparate h level h (start / 2) rounded) (Permᴰ.refl jobs)

    of_pair :
        (p i : ℕ)
        → (2 * h + 2 * p) / 2 ≡ i
        → Memᴰ (pair_job level h p) jobs
        → sync_row sha256 h level start end_ mt i
          ≡ hash2 sha256 level (mt (2 * h + 2 * p)) (mt (2 * h + 2 * p + 1))
    unfolding hash2
    of_pair p i e m =
        subst
          (λ x.
            sync_row sha256 h level start end_ mt x
            ≡ hashed sha256 array_memory mt (pair_job level h p))
          e (ran.0 (pair_job level h p) m)

    -- What the round hashes, and what it leaves.
    pub sync_row-IsParent :
        (p : ℕ)
        → p < h
        → start / 2 ≤ p
        → p ≤ end_ / 2
        → IsParent level h p (sync_row sha256 h level start end_ mt) mt
    unfolding jobs rounded
    sync_row-IsParent p a b c =
        of_pair p (h + p) (omega arith)
          (in_row_jobs h level h (start / 2) rounded p b a (omega arith) (ground arith))

    pub sync_row_cases :
        (i : ℕ)
        → ((p : ℕ) × (p < h)
            × (i ≡ h + p)
            × IsParent level h p (sync_row sha256 h level start end_ mt) mt)
          ⊎ (sync_row sha256 h level start end_ mt i ≡ mt i)
    unfolding jobs
    sync_row_cases i = elim (target_cases jobs i) [
      | inl (j, m, e) ↦
          (let (p, a, g) = of_row_jobs h level h (start / 2) rounded j m in
            inl (
              p,
              a,
              sym e ∙ ap (λ y. y.target) g ∙ omega arith,
              of_pair p (h + p) (omega arith) (subst (λ y. Memᴰ y jobs) g m),
            ))
      | inr n ↦ inr (ran.1 i n)
    ]
