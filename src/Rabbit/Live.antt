-- ===== src/Rabbit/Live.antt =====
-- The keys that a rabbit store holds, as a list of their own, and what it says of the cells.
use onvakv.Base.{
  ℕ, zero, suc, ◌+◌, ◌*◌, ◌≤◌, ◌<◌, false, Bool-cases, Option, List, [], ◌∷◌, length, All, ◌≡◌, ◌⊎◌,
  inl, inr, refl, sym, ap, subst, ◌∙◌, arith, if◌then◌else◌,
}
use onvakv.ByteSlices.{bytes_eq, bytes_eq_sound, bytes_eq_refl}
use onvakv.Types.{Bytes}
use onvakv.Rabbit.Cached.{Held}
use onvakv.Rabbit.Counts.{times, times_first, All_imp}
use onvakv.Rabbit.Walk.{slot, passed}

-- A key with the depth at which find meets it. An object that is lent out is none.
pub record Live (O : Type 0) : Type 0 where
  pub key : Bytes
  pub depth : ℕ
  pub obj : Option (Held O)

abbrev pub Any : {A : Type 0} → (A → Type 0) → List A → Type 0
Any P [] = ⊥
Any P (x ∷ xs) = P x ⊎ Any P xs

pub times-passed :
    (sha256 : Bytes → Bytes) (k : Bytes) (d : ℕ) (h : Bytes) → times k (passed sha256 d h) ≤ d
unfolding times passed
times-passed sha256 k zero h = omega arith
times-passed sha256 k (suc d) h = ground (arith, times-passed sha256 k d (sha256 h))

module _ {O : Type 0} where
  unfoldable pub without : Bytes → List (Live O) → List (Live O)
  without key [] = []
  without key (e ∷ es) = if bytes_eq e.key key then without key es else e ∷ without key es

  abbrev pub Absent : Bytes → List (Live O) → Type 0
  Absent key = All (λ e. bytes_eq e.key key ≡ false)

  abbrev pub HasDistinctKeys : List (Live O) → Type 0
  HasDistinctKeys [] = Unit
  HasDistinctKeys (e ∷ es) = Absent e.key es × HasDistinctKeys es

  abbrev pub Member : Live O → List (Live O) → Type 0
  Member e = Any (λ x. x ≡ e)

  pub without-All :
      (P : Live O → Type 0) (key : Bytes) (es : List (Live O)) → All P es → All P (without key es)
  unfolding without
  without-All P key [] a = tt
  without-All P key (e ∷ es) a = elim (Bool-cases (bytes_eq e.key key)) [
    | inl b ↦ rw b (without-All P key es a.1)
    | inr b ↦ rw b (a.0, without-All P key es a.1)
  ]

  pub Absent-without : (key : Bytes) (es : List (Live O)) → Absent key (without key es)
  unfolding without
  Absent-without key [] = tt
  Absent-without key (e ∷ es) = elim (Bool-cases (bytes_eq e.key key)) [
    | inl b ↦ rw b (Absent-without key es)
    | inr b ↦ rw b (b, Absent-without key es)
  ]

  pub HasDistinctKeys-without :
      (key : Bytes) (es : List (Live O)) → HasDistinctKeys es → HasDistinctKeys (without key es)
  unfolding without
  HasDistinctKeys-without key [] d = tt
  HasDistinctKeys-without key (e ∷ es) d = elim (Bool-cases (bytes_eq e.key key)) [
    | inl b ↦ rw b (HasDistinctKeys-without key es d.1)
    | inr b ↦ rw b (
      without-All (λ x. bytes_eq x.key e.key ≡ false) key es d.0,
      HasDistinctKeys-without key es d.1,
    )
  ]

  pub without-Absent : (key : Bytes) (es : List (Live O)) → Absent key es → without key es ≡ es
  unfolding without
  without-Absent key [] a = refl
  without-Absent key (e ∷ es) a = rw a.0 (ap (λ t. e ∷ t) (without-Absent key es a.1))

  pub length-without : (key : Bytes) (es : List (Live O)) → length (without key es) ≤ length es
  unfolding without
  length-without key [] = omega arith
  length-without key (e ∷ es) = elim (Bool-cases (bytes_eq e.key key)) [
    | inl b ↦ rw b (omega (arith, length-without key es))
    | inr b ↦ rw b (omega (arith, length-without key es))
  ]

  pub without-Any :
      {P : Live O → Type 0} (key : Bytes) (es : List (Live O))
      → ((e : Live O) → P e → bytes_eq e.key key ≡ false)
      → Any P es
      → Any P (without key es)
  unfolding without
  without-Any key [] f a = absurd a
  without-Any key (e ∷ es) f (inl p) = rw (f e p) (inl p)
  without-Any key (e ∷ es) f (inr a) = elim (Bool-cases (bytes_eq e.key key)) [
    | inl b ↦ rw b (without-Any key es f a)
    | inr b ↦ rw b (inr (without-Any key es f a))
  ]

  -- A key is on the list or not.
  pub Absent-cases :
      (key : Bytes) (es : List (Live O))
      → ((e : Live O) × (e.key ≡ key) × Member e es) ⊎ Absent key es
  Absent-cases key [] = inr tt
  Absent-cases key (e ∷ es) = elim (Bool-cases (bytes_eq e.key key)) [
    | inl b ↦ inl (e, bytes_eq_sound e.key key b, inl refl)
    | inr b ↦ elim (Absent-cases key es) [ inl (x, s, m) ↦ inl (x, s, inr m) | inr a ↦ inr (b, a) ]
  ]

  pub All_Member :
      (P : Live O → Type 0) (es : List (Live O)) (e : Live O) → Member e es → All P es → P e
  All_Member P [] e m a = absurd m
  All_Member P (x ∷ es) e (inl s) a = subst P s a.0
  All_Member P (x ∷ es) e (inr m) a = All_Member P es e m a.1

  pub All_with_Member :
      {P Q : Live O → Type 0} (es : List (Live O))
      → ((e : Live O) → Member e es → P e → Q e)
      → All P es
      → All Q es
  All_with_Member [] f a = tt
  All_with_Member (x ∷ es) f a = (f x (inl refl) a.0, All_with_Member es (λ e m. f e (inr m)) a.1)

  pub Any-Member :
      {P : Live O → Type 0} (es : List (Live O)) → Any P es → (e : Live O) × Member e es × P e
  Any-Member [] a = absurd a
  Any-Member (x ∷ es) (inl p) = (x, inl refl, p)
  Any-Member (x ∷ es) (inr a) = (let (e, m, p) = Any-Member es a in (e, inr m, p))

  Absent-ne :
      (key : Bytes) (es : List (Live O)) (e : Live O)
      → Absent key es
      → Member e es
      → bytes_eq e.key key ≡ false
  Absent-ne key es e a m = All_Member (λ x. bytes_eq x.key key ≡ false) es e m a

  -- Under one key there is one entry.
  pub Member-eq :
      (es : List (Live O)) (e x : Live O)
      → HasDistinctKeys es
      → Member e es
      → Member x es
      → e.key ≡ x.key
      → e ≡ x
  Member-eq [] e x d m n k = absurd m
  Member-eq (y ∷ es) e x d (inl a) (inl b) k = sym a ∙ b
  Member-eq (y ∷ es) e x d (inl a) (inr n) k = cc (
    Absent-ne y.key es x d.0 n,
    ap (λ t. bytes_eq x.key t.key) a,
    ap (bytes_eq x.key) k,
    bytes_eq_refl x.key,
  )
  Member-eq (y ∷ es) e x d (inr m) (inl b) k = cc (
    Absent-ne y.key es e d.0 m,
    ap (λ t. bytes_eq e.key t.key) b,
    ap (bytes_eq e.key) k,
    bytes_eq_refl e.key,
  )
  Member-eq (y ∷ es) e x d (inr m) (inr n) k = Member-eq es e x d.1 m n k

  module _ (sha256 : Bytes → Bytes) where
    -- The slot of a key, and the slots that find passes by in front of it.
    abbrev pub home : Live O → Bytes
    home e = slot sha256 e.depth (sha256 e.key)

    abbrev pub way : Live O → List Bytes
    way e = passed sha256 e.depth (sha256 e.key)

    -- How many of the keys pass by a slot.
    unfoldable pub count : Bytes → List (Live O) → ℕ
    count k [] = 0
    count k (e ∷ es) = times k (way e) + count k es

    pub times-le-count :
        (k : Bytes) (es : List (Live O)) (e : Live O) → Member e es → times k (way e) ≤ count k es
    unfolding count
    times-le-count k [] e m = absurd m
    times-le-count k (x ∷ es) e (inl s) = rw (sym s) (omega arith)
    times-le-count k (x ∷ es) e (inr m) = omega (arith, times-le-count k es e m)

    pub count-without :
        (k : Bytes) (es : List (Live O)) (e : Live O)
        → HasDistinctKeys es
        → Member e es
        → count k es ≡ times k (way e) + count k (without e.key es)
    unfolding count without
    count-without k [] e d m = absurd m
    count-without k (x ∷ es) e d (inl s) =
        subst (λ y. count k (x ∷ es) ≡ times k (way y) + count k (without y.key (x ∷ es))) s
          (rw (bytes_eq_refl x.key, without-Absent x.key es d.0) refl)
    count-without k (x ∷ es) e d (inr m) =
        (let other : bytes_eq x.key e.key ≡ false = elim (Bool-cases (bytes_eq x.key e.key)) [
          | inl b ↦
              cc (Absent-ne x.key es e d.0 m, bytes_eq_sound x.key e.key b, bytes_eq_refl x.key)
          | inr b ↦ b
        ] in
          rw other (omega (arith, count-without k es e d.1 m)))

    pub count-le-length :
        (k : Bytes) (es : List (Live O))
        → All (λ e. e.depth < 100) es
        → count k es ≤ 100 * length es
    unfolding count
    count-le-length k [] a = omega arith
    count-le-length k (e ∷ es) a =
        omega (arith, a.0, times-passed sha256 k e.depth (sha256 e.key), count-le-length k es a.1)

-- Each element of a list stands in it.
pub times_of_elements : (ks : List Bytes) → All (λ k. 1 ≤ times k ks) ks
unfolding times
times_of_elements [] = tt
times_of_elements (k ∷ ks) = (
  rw (times_first k ks) (omega arith),
  All_imp ks (λ j l. omega (arith, l)) (times_of_elements ks),
)
