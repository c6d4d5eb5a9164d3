-- ===== src/Tree/Appended.antt =====
-- appendEntry keeps the invariant of the youngest twig, also where a twig becomes full.
use onvakv.Base.{
  ℕ, zero, suc, ◌+◌, ◌*◌, ◌/◌, ◌%◌, ◌<◌, ◌≤◌, ◌≡◌, refl, sym, ap, subst, ◌∙◌, arith, ◌⊎◌, inl, inr,
  true, false, Option, none, some, some-injective, none-ne-some, Option-cases, if-eq, ◌&&◌, ltb,
  leb, ◌==◌,
}
use onvakv.Base.Result.{ok, bind-eq-ok, ok-injective}
use onvakv.Types.{Bytes}
use onvakv.EntryStore.{append_record}
use onvakv.TwigFile.Operations.{append_twig}
use onvakv.Tree.Hasher.{hash2}
use onvakv.Tree.Youngest.{Array, write_at, write_at_ne, index_cases, width}
use onvakv.Tree.Synced.{AreRows}
use onvakv.Tree.Twig.{set_bit, fill_row, fill_rows, null_twig, null_mt4_twig}
use onvakv.Tree.State.{
  Tree, get_twig, put_twig, touch, set_entry_activiation, activiate_entry, sync_mt4_youngest_twig,
  close_twig, with_leaf, at_edges, append_entry_bytes,
}
use onvakv.Tree.Kept.{HasTree, sync_mt4_youngest_twig-IsSynced}

module _ (sha256 : Bytes → Bytes) where
  fill_row-in :
      (n : ℕ) (b : Bytes) (mt : Array Bytes) (p : ℕ) → p < n → fill_row sha256 n b mt (n + p) ≡ b
  unfolding fill_row
  fill_row-in n b mt p l =
      (let t : (leb n (n + p) && ltb (n + p) (2 * n)) ≡ true = ground arith in rw t refl)

  fill_row-out :
      (n : ℕ) (b : Bytes) (mt : Array Bytes) (i : ℕ) → 2 * n ≤ i → fill_row sha256 n b mt i ≡ mt i
  unfolding fill_row
  fill_row-out n b mt i l = (let t : (leb n i && ltb i (2 * n)) ≡ false = ground arith in rw t refl)

  fill_rows-out :
      (c level : ℕ) (b : Bytes) (mt : Array Bytes) (i : ℕ)
      → 2 * width c ≤ i
      → fill_rows sha256 c level b mt i ≡ mt i
  unfolding fill_rows
  fill_rows-out zero level b mt i l = fill_row-out 1 b mt i l
  fill_rows-out (suc c) level b mt i l =
      fill_rows-out c (level + 1) (hash2 sha256 level b b) (fill_row sha256 (width (suc c)) b mt) i
        (omega arith)
      ∙ fill_row-out (width (suc c)) b mt i l

  fill_rows-in :
      (c level : ℕ) (b : Bytes) (mt : Array Bytes) (p : ℕ)
      → p < width c
      → fill_rows sha256 c level b mt (width c + p) ≡ b
  unfolding fill_rows
  fill_rows-in zero level b mt p l = fill_row-in 1 b mt p l
  fill_rows-in (suc c) level b mt p l =
      fill_rows-out c (level + 1) (hash2 sha256 level b b) (fill_row sha256 (width (suc c)) b mt)
        (width (suc c) + p) (omega arith)
      ∙ fill_row-in (width (suc c)) b mt p l

  fill_rows-AreRows :
      (c level : ℕ) (b : Bytes) (mt : Array Bytes)
      → AreRows sha256 c level (fill_rows sha256 c level b mt)
  unfolding fill_rows
  fill_rows-AreRows zero level b mt = tt
  fill_rows-AreRows (suc c) level b mt =
      (let h = width c in
        let final = fill_rows sha256 (suc c) level b mt in
        let child : (q : ℕ) → q < 2 * h → b ≡ final (2 * h + q) =
          λ q l. sym (fill_rows-in (suc c) level b mt q l) in
        let right : (p : ℕ) → b ≡ final (2 * h + (2 * p + 1)) → final (2 * h + 2 * p + 1) ≡ b =
          λ p e. subst (λ x. final x ≡ b) (omega arith) (sym e) in
        (
          λ p l.
              fill_rows-in c (level + 1) (hash2 sha256 level b b) (fill_row sha256 (2 * h) b mt) p l
              ∙ rw
                  (
                    sym (child (2 * p) (omega (arith, l))),
                    right p (child (2 * p + 1) (omega (arith, l))),
                  )
                  refl,
          fill_rows-AreRows c (level + 1) (hash2 sha256 level b b) (fill_row sha256 (2 * h) b mt),
        ))

  pub null_mt4_twig-AreRows : AreRows sha256 11 0 (null_mt4_twig sha256)
  unfolding null_mt4_twig
  null_mt4_twig-AreRows = fill_rows-AreRows 11 0 _ _

  -- The fields of the youngest twig's hashes are the same.
  abbrev IsAlike : Tree → Tree → Type 0
  IsAlike t t' =
      (t'.mtree4_youngest_twig ≡ t.mtree4_youngest_twig)
      × (t'.leave4_youngest_twig ≡ t.leave4_youngest_twig)
      × (t'.mtree4_yt_change_start ≡ t.mtree4_yt_change_start)
      × (t'.mtree4_yt_change_end ≡ t.mtree4_yt_change_end)

  HasTree-alike : (t t' : Tree) → IsAlike t t' → HasTree sha256 t → HasTree sha256 t'
  HasTree-alike t t' (a, b, c, d) h = record {
    rows = subst (λ f. AreRows sha256 11 0 f) (sym a) h.rows;
    waiting = λ i l. elim (h.waiting i l) [
      | inl e ↦ inl (ap (λ f. f i) b ∙ e)
      | inr (s, e, x, y) ↦ inr (s, c ∙ e, x, omega (arith, y, d))
    ];
    ordered = λ s e. omega (arith, h.ordered s (sym c ∙ e), d);
  }

  activiate_entry-IsAlike : (t t' : Tree) (sn : ℕ) → activiate_entry t sn ≡ ok t' → IsAlike t t'
  unfolding activiate_entry set_entry_activiation touch put_twig
  activiate_entry-IsAlike t t' sn e =
      (let (twig, e₁, e₂) = bind-eq-ok (get_twig t (sn / 2048)) _ e in
        let (t₁, e₃, e₄) = bind-eq-ok _ _ e₂ in
        let (twig', e₅, e₆) = bind-eq-ok (set_bit twig (sn % 2048)) _ e₃ in (cc, cc, cc, cc))

  abbrev started : Option ℕ → ℕ → Option ℕ
  started o position = elim o [ none ↦ some position | some start ↦ some start ]

  -- The new leaf waits, and the range of changes reaches up to it.
  module _ (t t₂ : Tree) (position : ℕ) (leaf : Bytes × Bytes) (h : HasTree sha256 t)
      (fits : (t.mtree4_yt_change_start ≡ none) ⊎ (t.mtree4_yt_change_end ≤ position))
      (em : t₂.mtree4_youngest_twig ≡ t.mtree4_youngest_twig)
      (el : t₂.leave4_youngest_twig ≡ write_at t.leave4_youngest_twig position (some leaf))
      (es : t₂.mtree4_yt_change_start ≡ started t.mtree4_yt_change_start position)
      (ee : t₂.mtree4_yt_change_end ≡ position) where
    before : (s : ℕ) → t.mtree4_yt_change_start ≡ some s → s ≤ position
    before s e = elim fits [
      | inl n ↦ absurd (none-ne-some s (sym n ∙ e))
      | inr l ↦ omega (arith, h.ordered s e, l)
    ]

    start_after :
        (s : ℕ) × (t₂.mtree4_yt_change_start ≡ some s)
        × (s ≤ position)
        × ((q : ℕ) → t.mtree4_yt_change_start ≡ some q → s ≡ q)
    start_after = elim (Option-cases t.mtree4_yt_change_start) [
      | inl n ↦ (
        position,
        es ∙ ap (λ o. started o position) n,
        omega arith,
        λ q e. absurd (none-ne-some q (sym n ∙ e)),
      )
      | inr (s, x) ↦ (
        s,
        es ∙ ap (λ o. started o position) x,
        before s x,
        λ q e. some-injective s q (sym x ∙ e),
      )
    ]

    HasTree-append : HasTree sha256 t₂
    HasTree-append =
        (let (s, x, l, old) = start_after in
          record {
            rows = subst (λ f. AreRows sha256 11 0 f) (sym em) h.rows;
            waiting = λ i il. elim (index_cases position i) [
              | inl e ↦ inr (s, x, omega (arith, e, l), omega (arith, e, ee))
              | inr n ↦ elim (h.waiting i il) [
                | inl w ↦ inl (
                    ap (λ f. f i) el
                    ∙ write_at_ne t.leave4_youngest_twig position i (some leaf) n
                    ∙ w)
                | inr (q, e, a, b) ↦ inr (
                  s,
                  x,
                  omega (arith, old q e, a),
                  elim fits [
                    | inl none_yet ↦ absurd (none-ne-some q (sym none_yet ∙ e))
                    | inr m ↦ omega (arith, b, m, ee)
                  ],
                )
              ]
            ];
            ordered = λ q e. omega (arith, l, some-injective s q (sym x ∙ e), ee);
          })

  close_twig-HasTree :
      (meow : Bytes → Bytes) (t t' : Tree) (sn : ℕ)
      → HasTree sha256 t
      → close_twig sha256 meow t sn ≡ ok t'
      → HasTree sha256 t'
  unfolding close_twig touch put_twig
  close_twig-HasTree meow t t' sn h e =
      (let (t₁, e₁, e₂) = bind-eq-ok (sync_mt4_youngest_twig sha256 t) _ e in
        let (twig, e₃, e₄) = bind-eq-ok (get_twig t₁ (sn / 2048)) _ e₂ in
        let (tf, e₅, e₆) = bind-eq-ok (append_twig meow _ _ _) _ e₄ in
        let (new, e₇, e₈) = bind-eq-ok (null_twig sha256) _ e₆ in
        let synced = sync_mt4_youngest_twig-IsSynced sha256 t t₁ h e₁ in
        let back = ok-injective e₈ in
        record {
          rows =
              subst (λ f. AreRows sha256 11 0 f) (ap (λ x. x.mtree4_youngest_twig) back)
                null_mt4_twig-AreRows;
          waiting =
              λ i l. inl (ap (λ x. x.leave4_youngest_twig i) (sym back) ∙ synced.none_waits i l);
          ordered = λ s x.
              absurd (
                none-ne-some s (sym synced.no_start ∙ ap (λ y. y.mtree4_yt_change_start) back ∙ x));
        })

  at_edges-HasTree :
      (meow : Bytes → Bytes) (t t' : Tree) (sn at : ℕ)
      → HasTree sha256 t
      → at_edges sha256 meow t sn at ≡ ok t'
      → HasTree sha256 t'
  unfolding at_edges put_twig
  at_edges-HasTree meow t t' sn at h e = elim (if-eq (sn % 2048 == 0) e) [
    | inl (_, x) ↦
        (let (twig, x₁, x₂) = bind-eq-ok (get_twig t (sn / 2048)) _ x in
          HasTree-alike t t' (cc, cc, cc, cc) h)
    | inr (_, x) ↦ elim (if-eq (sn % 2048 == 2047) x) [
      | inl (_, y) ↦ close_twig-HasTree meow t t' sn h y
      | inr (_, y) ↦ subst (λ u. HasTree sha256 u) (ok-injective y) h
    ]
  ]

  -- appendEntry that succeeds keeps the invariant of the youngest twig, where its place is not in front of
  -- the last change: the hashes are in order after an entry at the start, within or at the end of a twig.
  pub append_entry_bytes-HasTree :
      (meow : Bytes → Bytes) (t t' : Tree) (b0 b1 : Bytes) (sn at : ℕ)
      → HasTree sha256 t
      → (t.mtree4_yt_change_start ≡ none) ⊎ (t.mtree4_yt_change_end ≤ sn % 2048)
      → append_entry_bytes sha256 meow t b0 b1 sn ≡ ok (t', at)
      → HasTree sha256 t'
  unfolding append_entry_bytes with_leaf
  append_entry_bytes-HasTree meow t t' b0 b1 sn at h fits e =
      (let (t₁, e₁, e₂) =
          bind-eq-ok (activiate_entry (record t { youngest_twig_id = sn / 2048 }) sn) _ e in
        let ((ef, p), e₃, e₄) = bind-eq-ok (append_record t₁.entry_file b0 b1) _ e₂ in
        let t₂ = with_leaf sha256 meow t₁ ef (sn % 2048) (b0, b1) in
        let (t₃, e₅, e₆) = bind-eq-ok (at_edges sha256 meow t₂ sn p) _ e₄ in
        let alike = activiate_entry-IsAlike (record t { youngest_twig_id = sn / 2048 }) t₁ sn e₁ in
        let h₁ = HasTree-alike t t₁ alike h in
        let fits₁ : (t₁.mtree4_yt_change_start ≡ none) ⊎ (t₁.mtree4_yt_change_end ≤ sn % 2048) =
          elim fits [ inl n ↦ inl (alike.2 ∙ n) | inr l ↦ inr (omega (arith, l, alike.3)) ] in
        let h₂ = HasTree-append t₁ t₂ (sn % 2048) (b0, b1) h₁ fits₁ refl refl refl refl in
        subst (λ u. HasTree sha256 u) (ap (λ u. u.0) (ok-injective e₆))
          (at_edges-HasTree meow t₂ t₃ sn p h₂ e₅))
