-- ===== src/Rabbit/Represents.antt =====
-- How the cells of a rabbit store represent its keys, and why a change of the cells keeps it.
use onvakv.Base.{
  ℕ, ◌*◌, ◌^◌, ◌≤◌, ◌<◌, true, false, Option, none, some, List, [], ◌∷◌, length, All, ◌≡◌, ◌⊎◌, inl,
  inr, ap, ◌∙◌, arith,
}
use onvakv.ByteSlices.{bytes_eq}
use onvakv.Types.{Bytes}
use onvakv.Rabbit.Cells.{Cell}
use onvakv.Rabbit.Counts.{times}
use onvakv.Rabbit.Live.{
  Live, Any, without, HasDistinctKeys, Member, without-All, Absent-without, All_with_Member, home,
  way, count, times-le-count, times_of_elements,
}

module _ (sha256 : Bytes → Bytes) {O : Type 0} where
  -- A key stands in its slot, and each slot in front of it holds another key.
  pub record IsPlaced (f : Bytes → Option (Cell O)) (e : Live O) : Type 0 where
    pub near : e.depth < 100
    pub cell : Cell O
    pub here : f (home sha256 e) ≡ some cell
    pub same_key : cell.key ≡ e.key
    pub full : cell.is_empty ≡ false
    pub same_obj : cell.obj ≡ e.obj
    pub others :
        All (λ k. (c : Cell O) × (f k ≡ some c) × (bytes_eq c.key e.key ≡ false)) (way sha256 e)

  -- A slot counts the keys that pass by it; one that holds no key is passed by, and one that holds a key
  -- is the slot of that key.
  abbrev pub IsCounted : Bytes → Option (Cell O) → ℕ → List (Live O) → Type 0
  IsCounted k none n es = n ≡ 0
  IsCounted k (some c) n es =
      (c.passby_num ≡ n)
      × (c.is_empty ≡ true → 0 < n)
      × (c.is_empty ≡ false → Any (λ e. (e.key ≡ c.key) × (home sha256 e ≡ k)) es)

  pub record Represents (f : Bytes → Option (Cell O)) (es : List (Live O)) : Type 0 where
    pub few : 100 * length es < 2 ^ 64
    pub distinct : HasDistinctKeys es
    pub placed : All (IsPlaced f) es
    pub slots : (k : Bytes) → IsCounted k (f k) (count sha256 k es) es

  -- What a change on account of `key` leaves of a cell.
  abbrev pub Survives : Bytes → Cell O → Option (Cell O) → Type 0
  Survives key c o =
      (c' : Cell O) × (o ≡ some c')
      × (c'.key ≡ c.key)
      × (bytes_eq c.key key ≡ false → (c'.is_empty ≡ c.is_empty) × (c'.obj ≡ c.obj))

  module _ (f g : Bytes → Option (Cell O)) (key : Bytes) (es : List (Live O))
      (survives : (k : Bytes) (c : Cell O)
        → f k ≡ some c
        → (0 < count sha256 k (without key es))
          ⊎ ((c.is_empty ≡ false) × (bytes_eq c.key key ≡ false))
        → Survives key c (g k)) where
    IsPlaced-after :
        (e : Live O)
        → Member e (without key es)
        → (bytes_eq e.key key ≡ false) × IsPlaced f e
        → IsPlaced g e
    IsPlaced-after e m (ne, p) =
        (let other : bytes_eq p.cell.key key ≡ false = ap (λ t. bytes_eq t key) p.same_key ∙ ne in
          let v = survives (home sha256 e) p.cell p.here (inr (p.full, other)) in
          record {
            near = p.near;
            cell = v.0;
            here = v.1;
            same_key = v.2 ∙ p.same_key;
            full = (v.3 other).0 ∙ p.full;
            same_obj = (v.3 other).1 ∙ p.same_obj;
            others =
                on_way (way sha256 e)
                  (λ k l. omega (arith, l, times-le-count sha256 k (without key es) e m))
                  (times_of_elements (way sha256 e)) p.others;
          })
      where
        on_way :
            (ks : List Bytes)
            → ((k : Bytes) → 1 ≤ times k (way sha256 e) → 0 < count sha256 k (without key es))
            → All (λ k. 1 ≤ times k (way sha256 e)) ks
            → All (λ k. (c : Cell O) × (f k ≡ some c) × (bytes_eq c.key e.key ≡ false)) ks
            → All (λ k. (c : Cell O) × (g k ≡ some c) × (bytes_eq c.key e.key ≡ false)) ks
        on_way [] h l a = tt
        on_way (k ∷ ks) h l a =
            (let v = survives k a.0.0 a.0.1 (inl (h k l.0)) in
              ((v.0, v.1, ap (λ t. bytes_eq t e.key) v.2 ∙ a.0.2), on_way ks h l.1 a.1))

    both :
        (P Q : Live O → Type 0) (xs : List (Live O)) → All P xs → All Q xs → All (λ e. P e × Q e) xs
    both P Q [] a b = tt
    both P Q (x ∷ xs) a b = ((a.0, b.0), both P Q xs a.1 b.1)

    pub without-IsPlaced : All (IsPlaced f) es → All (IsPlaced g) (without key es)
    without-IsPlaced a = All_with_Member (without key es) IsPlaced-after (
        both (λ e. bytes_eq e.key key ≡ false) (IsPlaced f) (without key es) (Absent-without key es)
          (without-All (IsPlaced f) key es a))
