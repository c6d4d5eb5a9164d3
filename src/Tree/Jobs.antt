-- ===== src/Tree/Jobs.antt =====
-- Jobs that read no target of one another give the same memory in every order.
use mathlib.Core.List.{Memᴰ, Permᴰ}
use mathlib.Core.List.Memᴰ.{head, tail}
use mathlib.Core.List.Permᴰ.{nil, cons, swap, trans, symm}
use onvakv.Base.{
  ◌≡◌, ◌≢◌, refl, sym, subst, ◌∙◌, ap, ◌⊎◌, inl, inr, List, [], ◌∷◌, length, ltb, Bool-cases,
}
use onvakv.Types.{Bytes}
use onvakv.Tree.Hasher.{Memory, HashJob, hashed, run_job, run_all, run, minimum_jobs_in_goroutine}

-- No target is a source, and two jobs with one target are the same.
pub record AreSeparate (M : Memory) (jobs : List (HashJob M)) : Type 0 where
  pub no_source :
      (j k : HashJob M) → Memᴰ j jobs → Memᴰ k jobs → (j.target ≢ k.src_a) × (j.target ≢ k.src_b)
  pub one_job : (j k : HashJob M) → Memᴰ j jobs → Memᴰ k jobs → j.target ≡ k.target → j ≡ k

pub mem_of_perm : {A : Type 0} {a : A} {xs ys : List A} → Permᴰ xs ys → Memᴰ a xs → Memᴰ a ys
mem_of_perm nil i = elim i [ ]
mem_of_perm (cons e p) (head h) = head (h ∙ e)
mem_of_perm (cons e p) (tail i) = tail (mem_of_perm p i)
mem_of_perm (swap e₁ e₂) (head h) = tail (head (h ∙ e₁))
mem_of_perm (swap e₁ e₂) (tail (head h)) = head (h ∙ e₂)
mem_of_perm (swap e₁ e₂) (tail (tail i)) = tail (tail i)
mem_of_perm (trans p q) i = mem_of_perm q (mem_of_perm p i)

module _ (sha256 : Bytes → Bytes) (M : Memory) where
  -- A location that no job has for its target.
  pub run_all_elsewhere :
      (jobs : List (HashJob M)) (m : M.State) (l : M.Loc)
      → ((j : HashJob M) → Memᴰ j jobs → j.target ≢ l)
      → M.read (run_all sha256 M jobs m) l ≡ M.read m l
  unfolding run_all run_job
  run_all_elsewhere [] m l h = refl
  run_all_elsewhere (j ∷ jobs) m l h =
      run_all_elsewhere jobs _ l (λ k i. h k (tail i))
      ∙ M.read-write_ne m j.target l _ (h j (head refl))

  module _ (jobs : List (HashJob M)) (s : AreSeparate M jobs) where
    hashed-run_job :
        (k j : HashJob M) (m : M.State)
        → Memᴰ k jobs
        → Memᴰ j jobs
        → hashed sha256 M (run_job sha256 M k m) j ≡ hashed sha256 M m j
    unfolding run_job
    hashed-run_job k j m ik ij =
        (let (na, nb) = s.no_source k j ik ij in
          rw
            (
              M.read-write_ne m k.target j.src_a (hashed sha256 M m k) na,
              M.read-write_ne m k.target j.src_b (hashed sha256 M m k) nb,
            )
            refl)

    still :
        (k : HashJob M) (order : List (HashJob M)) (j : HashJob M) {m m₁ : M.State}
        → k.target ≢ j.target
        → Memᴰ j (k ∷ order) ⊎ (M.read m j.target ≡ hashed sha256 M m j)
        → M.read m₁ j.target ≡ M.read m j.target
        → hashed sha256 M m₁ j ≡ hashed sha256 M m j
        → Memᴰ j order ⊎ (M.read m₁ j.target ≡ hashed sha256 M m₁ j)
    still k order j n (inl (head e)) r same = absurd (n (ap (λ x. x.target) (sym e)))
    still k order j n (inl (tail i)) r same = inl i
    still k order j n (inr e) r same = inr (r ∙ e ∙ sym same)

    -- A job that is still to run, or whose target has its hash already.
    run_all_part :
        (order : List (HashJob M)) (j : HashJob M) (m : M.State)
        → ((k : HashJob M) → Memᴰ k order → Memᴰ k jobs)
        → Memᴰ j jobs
        → Memᴰ j order ⊎ (M.read m j.target ≡ hashed sha256 M m j)
        → M.read (run_all sha256 M order m) j.target ≡ hashed sha256 M m j
    unfolding run_all run_job
    run_all_part [] j m sub ij (inl i) = elim i [ ]
    run_all_part [] j m sub ij (inr e) = e
    run_all_part (k ∷ order) j m sub ij h =
        (let m₁ = run_job sha256 M k m in
          let ik = sub k (head refl) in
          let same = hashed-run_job k j m ik ij in
          let again = run_all_part order j m₁ (λ x i. sub x (tail i)) ij in
          elim (M.loc_cases k.target j.target) [
            | inl e ↦
                again (
                  inr (
                    subst (λ x. M.read m₁ x.target ≡ hashed sha256 M m x) (s.one_job k j ik ij e)
                      (M.read-write_self m k.target (hashed sha256 M m k))
                    ∙ sym same))
                ∙ same
            | inr n ↦
                again (
                  still k order j {m = m} {m₁ = m₁} n h
                    (M.read-write_ne m k.target j.target (hashed sha256 M m k) n) same)
                ∙ same
          ])

  hashed-run_all :
      (jobs : List (HashJob M))
      → AreSeparate M jobs
      → (j : HashJob M) (m : M.State) → Memᴰ j jobs
      → hashed sha256 M (run_all sha256 M jobs m) j ≡ hashed sha256 M m j
  hashed-run_all jobs s j m ij =
      rw
        (
          run_all_elsewhere jobs m j.src_a (λ k i. (s.no_source k j i ij).0),
          run_all_elsewhere jobs m j.src_b (λ k i. (s.no_source k j i ij).1),
        )
        refl

  -- Run on jobs that read no target of one another gives every target the hash of its two sources as they
  -- were before, and leaves every other location, in whichever order the workers write.
  pub run-hashed :
      (order jobs : List (HashJob M)) (m : M.State)
      → AreSeparate M jobs
      → Permᴰ order jobs
      → ((j : HashJob M)
          → Memᴰ j jobs
          → M.read (run sha256 M order jobs m) j.target ≡ hashed sha256 M m j)
        × ((l : M.Loc)
            → ((j : HashJob M) → Memᴰ j jobs → j.target ≢ l)
            → M.read (run sha256 M order jobs m) l ≡ M.read m l)
  unfolding run
  run-hashed order jobs m s p =
      (let m₁ = run_all sha256 M jobs m in
        let sub = λ (k : HashJob M) (i : Memᴰ k order). mem_of_perm p i in
        elim (Bool-cases (ltb (length jobs) minimum_jobs_in_goroutine)) [
          | inl t ↦ (
            λ j ij. rw t (
                run_all_part jobs s order j m₁ sub ij (inl (mem_of_perm (symm p) ij))
                ∙ hashed-run_all jobs s j m ij),
            λ l h. rw t (
                run_all_elsewhere order m₁ l (λ j i. h j (mem_of_perm p i))
                ∙ run_all_elsewhere jobs m l h),
          )
          | inr f ↦ (
            λ j ij. rw f (run_all_part jobs s order j m sub ij (inl (mem_of_perm (symm p) ij))),
            λ l h. rw f (run_all_elsewhere order m l (λ j i. h j (mem_of_perm p i))),
          )
        ])
