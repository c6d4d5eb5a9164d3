-- ===== src/Store/Sorted.antt =====
-- Lists of items sorted by key, in the direction of an iterator, and what is found in them.
use onvakv.Base.{
  ◌<◌, ◌≡◌, ◌⊎◌, refl, ap, subst, ◌∙◌, arith, inl, inr, Bool, Bool-cases, ltb, true, false, Option,
  none, some, List, [], ◌∷◌, All, if◌then◌else◌,
}
use onvakv.ByteSlices.{bytes_eq, bytes_eq_sound}
use onvakv.Types.{Bytes}
use onvakv.Store.Merge.{Order, before, same, behind, compare_bytes, opposite, compare_in}
use onvakv.Store.Skipped.{compare_bytes-opposite, compare_in-opposite}

-- The lexicographic order.
abbrev pub Lt : Bytes → Bytes → Type 0
Lt [] [] = ⊥
Lt [] (y ∷ ys) = Unit
Lt (x ∷ xs) [] = ⊥
Lt (x ∷ xs) (y ∷ ys) = (x < y) ⊎ ((x ≡ y) × Lt xs ys)

-- `a` comes before `b` in an ascending or a descending iteration.
abbrev pub Precedes : Bool → Bytes → Bytes → Type 0
Precedes true a b = Lt a b
Precedes false a b = Lt b a

abbrev pub IsSorted : {A : Type 0} → Bool → List (Bytes × A) → Type 0
IsSorted t [] = Unit
IsSorted t (x ∷ xs) = All (λ y. Precedes t x.0 y.0) xs × IsSorted t xs

unfoldable pub lookup : {A : Type 0} → Bytes → List (Bytes × A) → Option A
lookup k [] = none
lookup k (x ∷ xs) = let rest = lookup k xs in if bytes_eq x.0 k then some x.1 else rest

Lt-trans : (a b c : Bytes) → Lt a b → Lt b c → Lt a c
Lt-trans [] [] c l m = absurd l
Lt-trans [] (y ∷ ys) [] l m = absurd m
Lt-trans [] (y ∷ ys) (z ∷ zs) l m = tt
Lt-trans (x ∷ xs) [] c l m = absurd l
Lt-trans (x ∷ xs) (y ∷ ys) [] l m = absurd m
Lt-trans (x ∷ xs) (y ∷ ys) (z ∷ zs) (inl l) (inl m) = inl (omega (arith, l, m))
Lt-trans (x ∷ xs) (y ∷ ys) (z ∷ zs) (inl l) (inr m) = inl (omega (arith, l, m.0))
Lt-trans (x ∷ xs) (y ∷ ys) (z ∷ zs) (inr l) (inl m) = inl (omega (arith, l.0, m))
Lt-trans (x ∷ xs) (y ∷ ys) (z ∷ zs) (inr l) (inr m) =
    inr (omega (arith, l.0, m.0), Lt-trans xs ys zs l.1 m.1)

Lt-irrefl : (a : Bytes) → Lt a a → ⊥
Lt-irrefl [] l = l
Lt-irrefl (x ∷ xs) (inl l) = omega (arith, l)
Lt-irrefl (x ∷ xs) (inr l) = Lt-irrefl xs l.1

compare_bytes-Lt : (a b : Bytes) → compare_bytes a b ≡ before → Lt a b
unfolding compare_bytes
compare_bytes-Lt [] [] e = cc
compare_bytes-Lt [] (y ∷ ys) e = tt
compare_bytes-Lt (x ∷ xs) [] e = cc
compare_bytes-Lt (x ∷ xs) (y ∷ ys) e = elim (Bool-cases (ltb x y)) [
  | inl l ↦ inl (ground (arith, l))
  | inr n ↦ elim (Bool-cases (ltb y x)) [
    | inl l ↦ absurd (ground (arith, n, l, e))
    | inr m ↦ inr (ground (arith, n, m), compare_bytes-Lt xs ys (ground (arith, n, m, e)))
  ]
]

flipped : (o : Order) → opposite o ≡ before → o ≡ behind
unfolding opposite
flipped before e = cc
flipped same e = cc
flipped behind e = refl

pub compare_in-before : (t : Bool) (a b : Bytes) → compare_in t a b ≡ before → Precedes t a b
unfolding compare_in opposite
compare_in-before true a b e = compare_bytes-Lt a b e
compare_in-before false a b e =
    compare_bytes-Lt b a (compare_bytes-opposite a b ∙ ap opposite (flipped (compare_bytes a b) e))

pub compare_in-behind : (t : Bool) (a b : Bytes) → compare_in t a b ≡ behind → Precedes t b a
unfolding opposite
compare_in-behind t a b e = compare_in-before t b a (compare_in-opposite t a b ∙ ap opposite e)

pub Precedes-trans : (t : Bool) (a b c : Bytes) → Precedes t a b → Precedes t b c → Precedes t a c
Precedes-trans true a b c l m = Lt-trans a b c l m
Precedes-trans false a b c l m = Lt-trans c b a m l

Precedes-irrefl : (t : Bool) (a : Bytes) → Precedes t a a → ⊥
Precedes-irrefl true a l = Lt-irrefl a l
Precedes-irrefl false a l = Lt-irrefl a l

-- A key that comes before another is not that key.
pub Precedes-ne : (t : Bool) (a b : Bytes) → Precedes t a b → bytes_eq b a ≡ false
Precedes-ne t a b l = elim (Bool-cases (bytes_eq b a)) [
  | inr n ↦ n
  | inl e ↦ absurd (Precedes-irrefl t a (subst (λ i. Precedes t a i) (bytes_eq_sound b a e) l))
]

pub All_after :
    {A : Type 0} (t : Bool) (a b : Bytes) (xs : List (Bytes × A))
    → Precedes t a b
    → All (λ y. Precedes t b y.0) xs
    → All (λ y. Precedes t a y.0) xs
All_after t a b [] l h = tt
All_after t a b (x ∷ xs) l (h, hs) = (Precedes-trans t a b x.0 l h, All_after t a b xs l hs)

-- What comes before every item is not among them.
pub lookup-none :
    {A : Type 0} (t : Bool) (k : Bytes) (xs : List (Bytes × A))
    → All (λ y. Precedes t k y.0) xs
    → lookup k xs ≡ none
unfolding lookup
lookup-none t k [] h = refl
lookup-none t k (x ∷ xs) (h, hs) = rw (Precedes-ne t k x.0 h) (lookup-none t k xs hs)
