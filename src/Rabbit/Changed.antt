-- ===== src/Rabbit/Changed.antt =====
-- Cells that change under a Set represent the changed keys.
use onvakv.Base.{
  ℕ, suc, ◌+◌, ◌*◌, ◌^◌, ◌<◌, true, false, Bool-cases, Option, none, some, some-injective, List, [],
  ◌∷◌, length, All, ◌≡◌, ◌⊎◌, inl, inr, refl, sym, ap, subst, ◌∙◌, arith,
}
use onvakv.ByteSlices.{bytes_eq, bytes_eq_sound, bytes_eq_refl}
use onvakv.Types.{Bytes}
use onvakv.Rabbit.Cells.{Cell}
use onvakv.Rabbit.Counts.{times, raise, MayRaise}
use onvakv.Rabbit.Live.{
  Live, without, Absent-without, HasDistinctKeys-without, length-without, without-Any, home, way,
  count,
}
use onvakv.Rabbit.Represents.{IsPlaced, IsCounted, Represents, Survives, without-IsPlaced}

module _ (sha256 : Bytes → Bytes) {O : Type 0} where
  module _ (f g : Bytes → Option (Cell O)) (es : List (Live O)) (e : Live O) (c : Cell O)
      (more : Bytes → ℕ) (r : Represents sha256 f es) (few : 100 * suc (length es) < 2 ^ 64)
      (near : e.depth < 100) (cell_key : c.key ≡ e.key) (cell_obj : c.obj ≡ e.obj)
      (cell_full : c.is_empty ≡ false)
      (cell_count : c.passby_num
        ≡ times (home sha256 e) (way sha256 e) + count sha256 (home sha256 e) (without e.key es))
      (on_way : All
        (λ k. (x : Cell O) × (f k ≡ some x) × (bytes_eq x.key e.key ≡ false))
        (way sha256 e))
      (own : (x : Cell O) → f (home sha256 e) ≡ some x → bytes_eq x.key e.key ≡ true)
      (alone : (k : Bytes) (x : Cell O)
        → f k ≡ some x
        → x.is_empty ≡ false
        → bytes_eq (home sha256 e) k ≡ false
        → bytes_eq x.key e.key ≡ false)
      (new : g (home sha256 e) ≡ some c)
      (old : (k : Bytes) → bytes_eq (home sha256 e) k ≡ false → g k ≡ raise (more k) (f k))
      (may : (k : Bytes) → bytes_eq (home sha256 e) k ≡ false → MayRaise (more k) (f k))
      (counts : (k : Bytes)
        → bytes_eq (home sha256 e) k ≡ false
        → times k (way sha256 e) + count sha256 k (without e.key es)
          ≡ more k + count sha256 k es) where
    raised-Survives :
        (k : Bytes) (x : Cell O)
        → bytes_eq (home sha256 e) k ≡ false
        → f k ≡ some x
        → Survives sha256 e.key x (g k)
    raised-Survives k x ne h = (
      record x { passby_num = x.passby_num + more k },
      old k ne ∙ ap (raise (more k)) h,
      refl,
      λ _. (refl, refl),
    )

    set-Survives :
        (k : Bytes) (x : Cell O)
        → f k ≡ some x
        → (0 < count sha256 k (without e.key es))
          ⊎ ((x.is_empty ≡ false) × (bytes_eq x.key e.key ≡ false))
        → Survives sha256 e.key x (g k)
    set-Survives k x h q = elim (Bool-cases (bytes_eq (home sha256 e) k)) [
      | inl b ↦
          (let h' : f (home sha256 e) ≡ some x = ap f (bytes_eq_sound (home sha256 e) k b) ∙ h in
            let k' = own x h' in
            (
              c,
              ap g (sym (bytes_eq_sound (home sha256 e) k b)) ∙ new,
              cell_key ∙ sym (bytes_eq_sound x.key e.key k'),
              λ n. cc (n, k'),
            ))
      | inr b ↦ raised-Survives k x b h
    ]

    set_others :
        (ks : List Bytes)
        → All (λ k. (x : Cell O) × (f k ≡ some x) × (bytes_eq x.key e.key ≡ false)) ks
        → All (λ k. (x : Cell O) × (g k ≡ some x) × (bytes_eq x.key e.key ≡ false)) ks
    set_others [] a = tt
    set_others (k ∷ ks) a = (
      elim (Bool-cases (bytes_eq (home sha256 e) k)) [
        | inl b ↦ cc (a.0.2, own a.0.0 (ap f (bytes_eq_sound (home sha256 e) k b) ∙ a.0.1))
        | inr b ↦
            (let v = raised-Survives k a.0.0 b a.0.1 in
              (v.0, v.1, ap (λ t. bytes_eq t e.key) v.2 ∙ a.0.2))
      ],
      set_others ks a.1,
    )

    set-IsCounted :
        (k : Bytes) (o : Option (Cell O))
        → bytes_eq (home sha256 e) k ≡ false
        → f k ≡ o
        → IsCounted sha256 k o (count sha256 k es) es
        → MayRaise (more k) o
        → IsCounted sha256 k (raise (more k) o) (more k + count sha256 k es) (e ∷ without e.key es)
    set-IsCounted k none ne h i m = omega (arith, i, m)
    set-IsCounted k (some x) ne h i m = (
      omega (arith, i.0),
      λ y. omega (arith, i.1 y),
      λ y.
          inr (
            without-Any e.key es (λ z p. ap (λ t. bytes_eq t e.key) p.0 ∙ alone k x h y ne)
              (i.2 y)),
    )

    set_slot :
        (k : Bytes)
        → IsCounted sha256 k (g k) (count sha256 k (e ∷ without e.key es)) (e ∷ without e.key es)
    unfolding count
    set_slot k = elim (Bool-cases (bytes_eq (home sha256 e) k)) [
      | inl b ↦
          subst
            (λ j.
              IsCounted sha256 j (g j) (count sha256 j (e ∷ without e.key es))
                (e ∷ without e.key es))
            (bytes_eq_sound (home sha256 e) k b)
            (subst
              (λ o.
                IsCounted sha256 (home sha256 e) o
                  (count sha256 (home sha256 e) (e ∷ without e.key es)) (e ∷ without e.key es))
              (sym new) (cell_count, (λ y. cc (y, cell_full)), λ y. inl (sym cell_key, refl)))
      | inr b ↦
          subst
            (λ o.
              IsCounted sha256 k o (count sha256 k (e ∷ without e.key es)) (e ∷ without e.key es))
            (sym (old k b))
            (subst (λ n. IsCounted sha256 k (raise (more k) (f k)) n (e ∷ without e.key es))
              (sym (counts k b)) (set-IsCounted k (f k) b refl (r.slots k) (may k b)))
    ]

    pub set_Represents : Represents sha256 g (e ∷ without e.key es)
    set_Represents = record {
      few = omega (arith, few, length-without e.key es);
      distinct = (Absent-without e.key es, HasDistinctKeys-without e.key es r.distinct);
      placed = (
        record {
          near = near;
          cell = c;
          here = new;
          same_key = cell_key;
          full = cell_full;
          same_obj = cell_obj;
          others = set_others (way sha256 e) on_way;
        },
        without-IsPlaced sha256 f g e.key es set-Survives r.placed,
      );
      slots = set_slot;
    }

  pub IsPlaced-own :
      (f : Bytes → Option (Cell O)) (e : Live O) (p : IsPlaced sha256 f e) (x : Cell O)
      → f (home sha256 e) ≡ some x
      → bytes_eq x.key e.key ≡ true
  IsPlaced-own f e p x o =
      ap (λ z. bytes_eq z.key e.key) (some-injective x p.cell (sym o ∙ p.here))
      ∙ ap (λ z. bytes_eq z e.key) p.same_key
      ∙ bytes_eq_refl e.key

  -- The slot of a key is not among those in front of it.
  pub times-home :
      (f : Bytes → Option (Cell O)) (h key : Bytes) (ks : List Bytes)
      → ((x : Cell O) → f h ≡ some x → bytes_eq x.key key ≡ true)
      → All (λ k. (x : Cell O) × (f k ≡ some x) × (bytes_eq x.key key ≡ false)) ks
      → times h ks ≡ 0
  unfolding times
  times-home f h key [] own a = refl
  times-home f h key (k ∷ ks) own a = elim (Bool-cases (bytes_eq k h)) [
    | inl b ↦ cc (a.0.2, own a.0.0 (sym (ap f (bytes_eq_sound k h b)) ∙ a.0.1))
    | inr b ↦ rw b (omega (arith, times-home f h key ks own a.1))
  ]
