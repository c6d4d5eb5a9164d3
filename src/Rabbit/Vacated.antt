-- ===== src/Rabbit/Vacated.antt =====
-- Cells that change under a Delete represent the keys that are left.
use onvakv.Base.{
  ℕ, zero, suc, ◌+◌, ◌-◌, ◌<◌, true, false, ◌&&◌, Bool-cases, Option, none, some, some-injective,
  List, ◌≡◌, ◌⊎◌, inl, inr, refl, sym, ap, subst, ◌∙◌, arith, if◌then◌else◌, ◌==◌,
}
use onvakv.ByteSlices.{bytes_eq, bytes_eq_sound, bytes_eq_refl}
use onvakv.Types.{Bytes}
use onvakv.Rabbit.Cells.{Cell}
use onvakv.Rabbit.Counts.{times, lower}
use onvakv.Rabbit.Live.{
  Live, Any, without, Member, HasDistinctKeys-without, length-without, without-Any, home, way,
  count, count-without, Any-Member, Member-eq,
}
use onvakv.Rabbit.Represents.{IsPlaced, IsCounted, Represents, Survives, without-IsPlaced}
use onvakv.Rabbit.Changed.{IsPlaced-own, times-home}

module _ (sha256 : Bytes → Bytes) {O : Type 0} where
  lower-none : (n : ℕ) → lower {O = O} n none ≡ none
  lower-none zero = refl
  lower-none (suc n) = refl

  -- What Delete makes of the slot of the key.
  abbrev pub vacated : Cell O → Option (Cell O)
  vacated c = if c.passby_num == 0 then none else some (record c { is_empty = true })

  module _ (f g : Bytes → Option (Cell O)) (es : List (Live O)) (e : Live O)
      (r : Represents sha256 f es) (m : Member e es) (p : IsPlaced sha256 f e)
      (new : g (home sha256 e) ≡ vacated p.cell)
      (old : (k : Bytes)
        → bytes_eq (home sha256 e) k ≡ false
        → g k ≡ lower (times k (way sha256 e)) (f k)) where
    homeless : times (home sha256 e) (way sha256 e) ≡ 0
    homeless =
        times-home sha256 f (home sha256 e) e.key (way sha256 e) (IsPlaced-own sha256 f e p)
          p.others

    home-count : p.cell.passby_num ≡ count sha256 (home sha256 e) (without e.key es)
    home-count =
        (let counted : IsCounted sha256 (home sha256 e) (some p.cell)
              (count sha256 (home sha256 e) es) es =
            subst (λ o. IsCounted sha256 (home sha256 e) o (count sha256 (home sha256 e) es) es)
              p.here (r.slots (home sha256 e)) in
          omega
            (arith, counted.0, count-without sha256 (home sha256 e) es e r.distinct m, homeless))

    -- A slot that holds a key keeps it, and one that is still passed by stays.
    lowered-Survives :
        (k : Bytes) (x : Cell O) (n : ℕ)
        → g k ≡ lower n (some x)
        → x.passby_num ≡ n + count sha256 k (without e.key es)
        → (0 < count sha256 k (without e.key es))
          ⊎ ((x.is_empty ≡ false) × (bytes_eq x.key e.key ≡ false))
        → Survives sha256 e.key x (g k)
    lowered-Survives k x zero h i q = (x, h, refl, λ _. (refl, refl))
    lowered-Survives k x (suc n) h i q =
        (let stays : (x.passby_num - suc n == 0 && x.is_empty) ≡ false = ground (arith, i, q) in
          (
            record x { passby_num = x.passby_num - suc n },
            h ∙ rw stays refl,
            refl,
            λ _. (refl, refl),
          ))

    split :
        (k : Bytes) (x : Cell O)
        → f k ≡ some x
        → x.passby_num ≡ times k (way sha256 e) + count sha256 k (without e.key es)
    split k x h =
        (let counted : IsCounted sha256 k (some x) (count sha256 k es) es =
            subst (λ o. IsCounted sha256 k o (count sha256 k es) es) h (r.slots k) in
          counted.0 ∙ count-without sha256 k es e r.distinct m)

    vacated-Survives :
        (x : Cell O)
        → x ≡ p.cell
        → (0 < count sha256 (home sha256 e) (without e.key es))
          ⊎ ((x.is_empty ≡ false) × (bytes_eq x.key e.key ≡ false))
        → Survives sha256 e.key x (g (home sha256 e))
    vacated-Survives x s (inl l) =
        (let used : (p.cell.passby_num == 0) ≡ false = ground (arith, home-count, l) in
          (
            record p.cell { is_empty = true },
            new ∙ rw used refl,
            ap (λ c. c.key) (sym s),
            λ n. cc (
              n,
              ap (λ c. bytes_eq c.key e.key) s,
              ap (λ t. bytes_eq t e.key) p.same_key,
              bytes_eq_refl e.key,
            ),
          ))
    vacated-Survives x s (inr q) = cc (
      q.1,
      ap (λ c. bytes_eq c.key e.key) s,
      ap (λ t. bytes_eq t e.key) p.same_key,
      bytes_eq_refl e.key,
    )

    delete-Survives :
        (k : Bytes) (x : Cell O)
        → f k ≡ some x
        → (0 < count sha256 k (without e.key es))
          ⊎ ((x.is_empty ≡ false) × (bytes_eq x.key e.key ≡ false))
        → Survives sha256 e.key x (g k)
    delete-Survives k x h q = elim (Bool-cases (bytes_eq (home sha256 e) k)) [
      | inl b ↦
          subst
            (λ j.
              (f j ≡ some x)
              → (0 < count sha256 j (without e.key es))
                ⊎ ((x.is_empty ≡ false) × (bytes_eq x.key e.key ≡ false))
              → Survives sha256 e.key x (g j))
            (bytes_eq_sound (home sha256 e) k b)
            (λ h' q'. vacated-Survives x (some-injective x p.cell (sym h' ∙ p.here)) q') h q
      | inr b ↦
          lowered-Survives k x (times k (way sha256 e))
            (old k b ∙ ap (lower (times k (way sha256 e))) h) (split k x h) q
    ]

    vacated-IsCounted :
        (n : ℕ)
        → p.cell.passby_num ≡ n
        → IsCounted sha256 (home sha256 e) (vacated p.cell) n (without e.key es)
    vacated-IsCounted n i = elim (Bool-cases (p.cell.passby_num == 0)) [
      | inl z ↦ rw z (ground (arith, z, i))
      | inr z ↦ rw z (i, (λ y. ground (arith, z, i)), λ y. cc)
    ]

    -- The slots whose key is another one.
    stays_owned :
        (k : Bytes) (x : Cell O)
        → f k ≡ some x
        → bytes_eq (home sha256 e) k ≡ false
        → Any (λ y. (y.key ≡ x.key) × (home sha256 y ≡ k)) es
        → Any (λ y. (y.key ≡ x.key) × (home sha256 y ≡ k)) (without e.key es)
    stays_owned k x h ne a =
        (let other : bytes_eq x.key e.key ≡ false = elim (Bool-cases (bytes_eq x.key e.key)) [
          | inl b ↦
              (let (y, my, q) = Any-Member es a in
                let same = Member-eq es y e r.distinct my m (q.0 ∙ bytes_eq_sound x.key e.key b) in
                cc
                  (ne, ap (λ t. bytes_eq t k) (sym (ap (home sha256) same) ∙ q.1), bytes_eq_refl k))
          | inr b ↦ b
        ] in
          without-Any e.key es (λ y q. ap (λ t. bytes_eq t e.key) q.0 ∙ other) a)

    lowered-IsCounted :
        (k : Bytes) (x : Cell O) (n : ℕ)
        → f k ≡ some x
        → bytes_eq (home sha256 e) k ≡ false
        → x.passby_num ≡ n + count sha256 k (without e.key es)
        → IsCounted sha256 k (some x) (count sha256 k es) es
        → IsCounted sha256 k
            (lower n (some x))
            (count sha256 k (without e.key es))
            (without e.key es)
    lowered-IsCounted k x zero h ne i c =
        (omega (arith, i), (λ y. omega (arith, i, c.0, c.1 y)), λ y. stays_owned k x h ne (c.2 y))
    lowered-IsCounted k x (suc n) h ne i c =
        elim (Bool-cases (x.passby_num - suc n == 0 && x.is_empty)) [
          | inl z ↦ rw z (ground (arith, z, i))
          | inr z ↦
              rw z (
                omega (arith, i),
                (λ y. ground (arith, z, i, y)),
                λ y. stays_owned k x h ne (c.2 y),
              )
        ]

    delete_slot :
        (k : Bytes) (o : Option (Cell O))
        → f k ≡ o
        → bytes_eq (home sha256 e) k ≡ false
        → IsCounted sha256 k o (count sha256 k es) es
        → IsCounted sha256 k
            (lower (times k (way sha256 e)) o)
            (count sha256 k (without e.key es))
            (without e.key es)
    delete_slot k none h ne i =
        subst (λ o. IsCounted sha256 k o (count sha256 k (without e.key es)) (without e.key es))
          (sym (lower-none (times k (way sha256 e))))
          (omega (arith, i, count-without sha256 k es e r.distinct m))
    delete_slot k (some x) h ne i =
        lowered-IsCounted k x (times k (way sha256 e)) h ne (split k x h) i

    pub delete_Represents : Represents sha256 g (without e.key es)
    delete_Represents = record {
      few = omega (arith, r.few, length-without e.key es);
      distinct = HasDistinctKeys-without e.key es r.distinct;
      placed = without-IsPlaced sha256 f g e.key es delete-Survives r.placed;
      slots = λ k. elim (Bool-cases (bytes_eq (home sha256 e) k)) [
        | inl b ↦
            subst
              (λ j. IsCounted sha256 j (g j) (count sha256 j (without e.key es)) (without e.key es))
              (bytes_eq_sound (home sha256 e) k b)
              (subst
                (λ o.
                  IsCounted sha256 (home sha256 e) o
                    (count sha256 (home sha256 e) (without e.key es)) (without e.key es))
                (sym new)
                (vacated-IsCounted (count sha256 (home sha256 e) (without e.key es)) home-count))
        | inr b ↦
            subst (λ o. IsCounted sha256 k o (count sha256 k (without e.key es)) (without e.key es))
              (sym (old k b)) (delete_slot k (f k) refl b (r.slots k))
      ];
    }
