-- ===== src/Rabbit/Counts.antt =====
-- The loops over passbyNum, as what they do to each cell.
use onvakv.Base.{
  ℕ, zero, suc, ◌+◌, ◌-◌, ◌%◌, ◌^◌, ◌≤◌, ◌<◌, true, false, ◌&&◌, Bool-cases, Option, none, some,
  List, [], ◌∷◌, All, ◌≡◌, inl, inr, refl, sym, ap, subst, ◌∙◌, arith, if◌then◌else◌, ◌==◌,
}
use onvakv.ByteSlices.{bytes_eq, bytes_eq_sound, bytes_eq_refl}
use onvakv.Types.{Bytes}
use onvakv.Store.Cache.{Value, Serializable, BTree}
use onvakv.Store.Layers.{RootStore}
use onvakv.Rabbit.Cached.{CachedValue}
use onvakv.Rabbit.Multi.{SimpleMultiStore}
use onvakv.Rabbit.Operations.{incr_passby_num, decr_passby_num, passed_less}
use onvakv.Rabbit.Cells.{Cell, cell_of, kept_cell, cells, in_cache, IsReadable, Moved}
use onvakv.Rabbit.Fetched.{must_get_cached_value-eq, set_cached_value-Moved}
use onvakv.Rabbit.Walk.{Moved-trans, Moved-same}

-- How often a short key stands in a list.
unfoldable pub times : Bytes → List Bytes → ℕ
times k [] = 0
times k (j ∷ js) = (if bytes_eq j k then 1 else 0) + times k js

pub All_imp {ℓ κ μ} :
    {A : Type ℓ} {P : A → Type κ} {Q : A → Type μ} (xs : List A)
    → ((a : A) → P a → Q a)
    → All P xs
    → All Q xs
All_imp [] f h = tt
All_imp (x ∷ xs) f h = (f x h.0, All_imp xs f h.1)

module _ {O : Type 0} where
  abbrev pub raise : ℕ → Option (Cell O) → Option (Cell O)
  raise n none = none
  raise n (some c) = some (record c { passby_num = c.passby_num + n })

  -- A slot that holds no key and that nothing passes by any more is given up.
  abbrev pub lower : ℕ → Option (Cell O) → Option (Cell O)
  lower zero o = o
  lower (suc n) none = none
  lower (suc n) (some c) =
      if c.passby_num - suc n == 0 && c.is_empty
      then none
      else some (record c { passby_num = c.passby_num - suc n })

  abbrev pub MayRaise : ℕ → Option (Cell O) → Type 0
  MayRaise n none = n ≡ 0
  MayRaise n (some c) = c.passby_num + n < 2 ^ 64

  abbrev pub MayLower : ℕ → Option (Cell O) → Type 0
  MayLower n none = n ≡ 0
  MayLower n (some c) = (n ≤ c.passby_num) × (c.passby_num < 2 ^ 64)

  pub no_raise : (o : Option (Cell O)) → raise 0 o ≡ o
  no_raise none = refl
  no_raise (some c) = ap (λ n. some (record c { passby_num = n })) (omega arith)

  raise_first :
      (n : ℕ) (c : Cell O) (p : ℕ)
      → MayRaise (suc n) (some c)
      → p ≡ (c.passby_num + 1) % 2 ^ 64
      → MayRaise n (some (record c { passby_num = p }))
        × (raise n (some (record c { passby_num = p })) ≡ raise (suc n) (some c))
  raise_first n c p m e =
      (omega (arith, m, e), ap (λ q. some (record c { passby_num = q })) (omega (arith, m, e)))

  -- One round of the loop of Delete on its cell.
  abbrev less : Cell O → Option (Cell O)
  less c =
      if c.passby_num - 1 == 0 && c.is_empty
      then none
      else some (record c { passby_num = c.passby_num - 1 })

  lower_first :
      (n : ℕ) (c : Cell O)
      → MayLower (suc n) (some c)
      → MayLower n (less c) × (lower n (less c) ≡ lower (suc n) (some c))
  lower_first zero c m = elim (Bool-cases (c.passby_num - 1 == 0 && c.is_empty)) [
    | inl e ↦ rw e (refl, refl)
    | inr e ↦ rw e (omega (arith, m), refl)
  ]
  lower_first (suc n) c m =
      (let more : (c.passby_num - 1 == 0 && c.is_empty) ≡ false = ground (arith, m) in
        rw more (omega (arith, m), rw (same_rest (omega (arith))) refl))
    where
      same_rest : 1 ≤ c.passby_num → c.passby_num - 1 - suc n ≡ c.passby_num - suc (suc n)
      same_rest l = omega (arith, l)

  pub MayLower-times : (n : ℕ) (o : Option (Cell O)) → MayLower n o → (o ≡ none) → n ≡ 0
  MayLower-times n none m e = m
  MayLower-times n (some c) m e = cc

  pub present_of_raise :
      (n : ℕ) (o : Option (Cell O)) → MayRaise (suc n) o → (c : Cell O) × (o ≡ some c)
  present_of_raise n none m = absurd (omega (arith, m))
  present_of_raise n (some c) m = (c, refl)

  pub present_of_lower :
      (n : ℕ) (o : Option (Cell O)) → MayLower (suc n) o → (c : Cell O) × (o ≡ some c)
  present_of_lower n none m = absurd (omega (arith, m))
  present_of_lower n (some c) m = (c, refl)

pub times_first : (k : Bytes) (ks : List Bytes) → times k (k ∷ ks) ≡ suc (times k ks)
unfolding times
times_first k ks = rw (bytes_eq_refl k) (omega arith)

pub times_rest :
    (j k : Bytes) (ks : List Bytes) → bytes_eq k j ≡ false → times j (k ∷ ks) ≡ times j ks
unfolding times
times_rest j k ks e = rw e (omega arith)

module _ (sha256 : Bytes → Bytes) (S : Serializable) (B : BTree (Value S.Obj))
    (R : RootStore S) where
  -- Setting a cell and going on, against a description that takes the first short key off.
  first_set :
      (P : ℕ → Option (Cell S.Obj) → Type 0) (s : SimpleMultiStore S B R) (k : Bytes)
      (ks : List Bytes) (o : Option (Cell S.Obj)) (c : Cell S.Obj)
      → cells S B R s k ≡ some c
      → P (times k ks) o
      → ((j : Bytes) → P (times j (k ∷ ks)) (cells S B R s j))
      → (j : Bytes) → P (times j ks) (if bytes_eq k j then o else cells S B R s j)
  first_set P s k ks o c here p m j = elim (Bool-cases (bytes_eq k j)) [
    | inl e ↦ rw (e, sym (bytes_eq_sound k j e)) p
    | inr e ↦ rw e (subst (λ n. P n (cells S B R s j)) (times_rest j k ks e) (m j))
  ]

  first_eq :
      (go : ℕ → Option (Cell S.Obj) → Option (Cell S.Obj)) (s : SimpleMultiStore S B R) (k : Bytes)
      (ks : List Bytes) (o : Option (Cell S.Obj)) (c : Cell S.Obj)
      → cells S B R s k ≡ some c
      → go (times k ks) o ≡ go (suc (times k ks)) (some c)
      → (j : Bytes)
      → go (times j ks) (if bytes_eq k j then o else cells S B R s j)
        ≡ go (times j (k ∷ ks)) (cells S B R s j)
  first_eq go s k ks o c here p j = elim (Bool-cases (bytes_eq k j)) [
    | inl e ↦ rw (e, sym (bytes_eq_sound k j e), here, times_first k ks) p
    | inr e ↦ rw (e, times_rest j k ks e) refl
  ]

  pub incr_passby_num-Moved :
      (ks : List Bytes) (s : SimpleMultiStore S B R)
      → IsReadable S B R s
      → All (λ k. in_cache S B R s k ≡ true) ks
      → ((j : Bytes) → MayRaise (times j ks) (cells S B R s j))
      → (s' : SimpleMultiStore S B R) × (incr_passby_num sha256 S B R ks s ≡ some s')
        × Moved S B R s (λ j. raise (times j ks) (cells S B R s j)) s'
  unfolding incr_passby_num times
  incr_passby_num-Moved [] s r i m = (
    s,
    refl,
    record { readable = r; viewed = λ j. sym (no_raise (cells S B R s j)); cached = λ j e. e },
  )
  incr_passby_num-Moved (k ∷ ks) s r i m =
      (let here = subst (λ n. MayRaise n (cells S B R s k)) (times_first k ks) (m k) in
        let (c, e) = present_of_raise (times k ks) (cells S B R s k) here in
        let (cv, got, p) = must_get_cached_value-eq S B R s k c i.0 e in
        let new = record cv { passby_num = (cv.passby_num + 1) % 2 ^ 64 } in
        let (s₁, set₁, m₁) = set_cached_value-Moved S B R s k new r in
        let one =
          raise_first (times k ks) (cell_of cv) ((cv.passby_num + 1) % 2 ^ 64)
            (subst (MayRaise (suc (times k ks))) (e ∙ p.0) here) refl in
        let kn : kept_cell new
            ≡ some (record (cell_of cv) { passby_num = (cv.passby_num + 1) % 2 ^ 64 }) =
          rw p.1 refl in
        let rest : (j : Bytes) → MayRaise (times j ks) (cells S B R s₁ j) = (λ j.
          subst (MayRaise (times j ks)) (sym (m₁.viewed j)) (
            first_set MayRaise s k ks (kept_cell new) c e
              (subst (MayRaise (times k ks)) (sym kn) one.0) m j)) in
        let ih = incr_passby_num-Moved ks s₁ m₁.readable (All_imp ks m₁.cached i.1) rest in
        (
          ih.0,
          rw (got, set₁) ih.1,
          Moved-trans S B R (λ j. if bytes_eq k j then kept_cell new else cells S B R s j)
              (λ j. raise (times j (k ∷ ks)) (cells S B R s j)) m₁
              (Moved-same S B R (λ j. raise (times j ks) (cells S B R s₁ j))
                (λ j. raise (times j (k ∷ ks)) (cells S B R s j)) ih.2
                (λ j.
                  ap (raise (times j ks)) (m₁.viewed j)
                  ∙ first_eq raise s k ks (kept_cell new) c e
                      (ap (raise (times k ks)) kn ∙ one.1 ∙ ap (raise (suc (times k ks))) (sym p.0))
                      j)),
        ))

  less-kept :
      (cv : CachedValue S.Obj)
      → cv.is_deleted ≡ false
      → 1 ≤ cv.passby_num
      → cv.passby_num < 2 ^ 64
      → kept_cell (passed_less sha256 S B R cv) ≡ less (cell_of cv)
  unfolding passed_less
  less-kept cv d l u =
      (let n : (cv.passby_num + (2 ^ 64 - 1)) % 2 ^ 64 ≡ cv.passby_num - 1 = omega (arith, l, u) in
        rw (passed_less, n)
          (elim (Bool-cases (cv.passby_num - 1 == 0 && cv.is_empty)) [
            | inl e ↦ rw e refl
            | inr e ↦ rw (e, d) refl
          ]))

  pub decr_passby_num-Moved :
      (ks : List Bytes) (s : SimpleMultiStore S B R)
      → IsReadable S B R s
      → All (λ k. in_cache S B R s k ≡ true) ks
      → ((j : Bytes) → MayLower (times j ks) (cells S B R s j))
      → (s' : SimpleMultiStore S B R) × (decr_passby_num sha256 S B R ks s ≡ some s')
        × Moved S B R s (λ j. lower (times j ks) (cells S B R s j)) s'
  unfolding decr_passby_num times
  decr_passby_num-Moved [] s r i m =
      (s, refl, record { readable = r; viewed = λ j. refl; cached = λ j e. e })
  decr_passby_num-Moved (k ∷ ks) s r i m =
      (let here = subst (λ n. MayLower n (cells S B R s k)) (times_first k ks) (m k) in
        let (c, e) = present_of_lower (times k ks) (cells S B R s k) here in
        let (cv, got, p) = must_get_cached_value-eq S B R s k c i.0 e in
        let (s₁, set₁, m₁) = set_cached_value-Moved S B R s k (passed_less sha256 S B R cv) r in
        let may : MayLower (suc (times k ks)) (some (cell_of cv)) =
          subst (MayLower (suc (times k ks))) (e ∙ p.0) here in
        let one = lower_first (times k ks) (cell_of cv) may in
        let kn = less-kept cv p.1 (omega (arith, may.0)) may.1 in
        let rest : (j : Bytes) → MayLower (times j ks) (cells S B R s₁ j) = (λ j.
          subst (MayLower (times j ks)) (sym (m₁.viewed j)) (
            first_set MayLower s k ks (kept_cell (passed_less sha256 S B R cv)) c e
              (subst (MayLower (times k ks)) (sym kn) one.0) m j)) in
        let ih = decr_passby_num-Moved ks s₁ m₁.readable (All_imp ks m₁.cached i.1) rest in
        (
          ih.0,
          rw (got, set₁) ih.1,
          Moved-trans S B R
              (λ j.
                if bytes_eq k j then kept_cell (passed_less sha256 S B R cv) else cells S B R s j)
              (λ j. lower (times j (k ∷ ks)) (cells S B R s j)) m₁
              (Moved-same S B R (λ j. lower (times j ks) (cells S B R s₁ j))
                (λ j. lower (times j (k ∷ ks)) (cells S B R s j)) ih.2
                (λ j.
                  ap (lower (times j ks)) (m₁.viewed j)
                  ∙ first_eq lower s k ks (kept_cell (passed_less sha256 S B R cv)) c e
                      (ap (lower (times k ks)) kn ∙ one.1 ∙ ap (lower (suc (times k ks))) (sym p.0))
                      j)),
        ))
