-- ===== src/Store/Skipped.antt =====
-- What the loop of the merging iterator skips, and the cache over the parent.
use onvakv.Base.{
  ℕ, zero, suc, ◌+◌, ◌<◌, ◌≤◌, ◌≡◌, ◌⊎◌, refl, ap, subst, ◌∙◌, arith, inl, inr, Bool, Bool-cases,
  true, false, Option, none, some, List, [], ◌∷◌, length,
}
use onvakv.Types.{Bytes}
use onvakv.Store.Merge.{
  Order, before, same, behind, compare_bytes, opposite, compare_in, is_before, skip_cache_deletes,
  skip_loop,
}

pub compare_bytes-opposite : (a b : Bytes) → compare_bytes b a ≡ opposite (compare_bytes a b)
unfolding compare_bytes opposite
compare_bytes-opposite [] [] = refl
compare_bytes-opposite [] (y ∷ ys) = refl
compare_bytes-opposite (x ∷ xs) [] = refl
compare_bytes-opposite (x ∷ xs) (y ∷ ys) = ground (arith, compare_bytes-opposite xs ys)

pub compare_in-opposite : (t : Bool) (a b : Bytes) → compare_in t b a ≡ opposite (compare_in t a b)
unfolding compare_in
compare_in-opposite true a b = compare_bytes-opposite a b
compare_in-opposite false a b = ap opposite (compare_bytes-opposite a b)

compare_bytes-same : (a b : Bytes) → compare_bytes a b ≡ same → a ≡ b
unfolding compare_bytes
compare_bytes-same [] [] e = refl
compare_bytes-same [] (y ∷ ys) e = cc
compare_bytes-same (x ∷ xs) [] e = cc
compare_bytes-same (x ∷ xs) (y ∷ ys) e = ground (arith, compare_bytes-same xs ys, e)

pub compare_in-same : (t : Bool) (a b : Bytes) → compare_in t a b ≡ same → a ≡ b
unfolding compare_in
compare_in-same true a b e = compare_bytes-same a b e
compare_in-same false a b e = compare_bytes-same a b (unflipped (compare_bytes a b) e)
  where
    unflipped : (o : Order) → opposite o ≡ same → o ≡ same
    unflipped before e = unfold opposite in cc
    unflipped same e = refl
    unflipped behind e = unfold opposite in cc

pub Order-cases : (o : Order) → (o ≡ before) ⊎ ((o ≡ same) ⊎ (o ≡ behind))
Order-cases before = inl refl
Order-cases same = inr (inl refl)
Order-cases behind = inr (inr refl)

module _ (V : Type 0) where
  abbrev pub put : Bytes → Option V → List (Bytes × Option V) → List (Bytes × Option V)
  put k none rest = rest
  put k (some v) rest = (k, some v) ∷ rest

  -- The cache over the parent: of two items with one key that of the cache counts, and what it has deleted
  -- is left out.
  unfoldable pub overlay :
      Bool → List (Bytes × V) → List (Bytes × Option V) → List (Bytes × Option V)
  overlay ascending [] [] = []
  overlay ascending [] (c ∷ cs) = put c.0 c.1 (overlay ascending [] cs)
  overlay ascending (p ∷ ps) [] = (p.0, some p.1) ∷ overlay ascending ps []
  overlay ascending (p ∷ ps) (c ∷ cs) =
      let parent_first = overlay ascending ps (c ∷ cs) in
      let both = overlay ascending ps cs in
      let cache_first = overlay ascending (p ∷ ps) cs in
      elim (compare_in ascending p.0 c.0) [
        | before ↦ (p.0, some p.1) ∷ parent_first
        | same ↦ put c.0 c.1 both
        | behind ↦ put c.0 c.1 cache_first
      ]

  -- Deleted items of the cache in front of the parent's item are before it.
  behind_of : (t : Bool) (k u : Bytes) → is_before V t k (some u) ≡ true → compare_in t u k ≡ behind
  unfolding is_before
  behind_of t k u e = elim (Order-cases (compare_in t k u)) [
    | inl b ↦ compare_in-opposite t k u ∙ ap opposite b ∙ (unfold opposite in refl)
    | inr (inl b) ↦ absurd (
        not_true (subst (λ o. elim o [ before ↦ true | same ↦ false | behind ↦ false ] ≡ true) b e))
    | inr (inr b) ↦ absurd (
        not_true (subst (λ o. elim o [ before ↦ true | same ↦ false | behind ↦ false ] ≡ true) b e))
  ]
    where
      not_true : false ≡ true → ⊥
      not_true x = cc

  is_before_of :
      (t : Bool) (k u : Bytes) → compare_in t u k ≡ behind → is_before V t k (some u) ≡ true
  unfolding is_before
  is_before_of t k u e =
      (let b : compare_in t k u ≡ before =
          compare_in-opposite t u k ∙ ap opposite e ∙ (unfold opposite in refl) in
        rw (is_before, b) refl)

  dropped :
      (t : Bool) (p : Bytes × V) (ps : List (Bytes × V)) (k : Bytes) (cs : List (Bytes × Option V))
      → compare_in t p.0 k ≡ behind
      → overlay t (p ∷ ps) cs ≡ overlay t (p ∷ ps) ((k, none) ∷ cs)
  unfolding overlay
  dropped t p ps k cs e = rw (e, overlay) refl

  overlay-skip :
      (t : Bool) (p : Bytes × V) (ps : List (Bytes × V)) (cs : List (Bytes × Option V))
      → overlay t (p ∷ ps) (skip_cache_deletes V t (some p.0) cs) ≡ overlay t (p ∷ ps) cs
  unfolding skip_cache_deletes
  overlay-skip t p ps [] = refl
  overlay-skip t p ps ((k, some v) ∷ cs) = refl
  overlay-skip t p ps ((k, none) ∷ cs) = elim (Bool-cases (is_before V t k (some p.0))) [
    | inl y ↦ rw y (overlay-skip t p ps cs ∙ dropped t p ps k cs (behind_of t k p.0 y))
    | inr y ↦ rw y refl
  ]

  overlay-skip_all :
      (t : Bool) (cs : List (Bytes × Option V))
      → overlay t [] (skip_cache_deletes V t none cs) ≡ overlay t [] cs
  unfolding skip_cache_deletes is_before overlay
  overlay-skip_all t [] = refl
  overlay-skip_all t ((k, some v) ∷ cs) = refl
  overlay-skip_all t ((k, none) ∷ cs) = overlay-skip_all t cs

  length-skip :
      (t : Bool) (u : Option Bytes) (cs : List (Bytes × Option V))
      → length (skip_cache_deletes V t u cs) ≤ length cs
  unfolding skip_cache_deletes
  length-skip t u [] = omega arith
  length-skip t u ((k, some v) ∷ cs) = omega arith
  length-skip t u ((k, none) ∷ cs) = elim (Bool-cases (is_before V t k u)) [
    | inl y ↦ rw y (omega (arith, length-skip t u cs))
    | inr y ↦ rw y (omega arith)
  ]

  -- A place at which the iterator stays: the item that counts is not deleted.
  abbrev pub Settled : Bool → List (Bytes × V) → List (Bytes × Option V) → Type 0
  Settled t [] [] = Unit
  Settled t [] ((k, none) ∷ cs) = ⊥
  Settled t [] ((k, some v) ∷ cs) = Unit
  Settled t (p ∷ ps) [] = Unit
  Settled t (p ∷ ps) ((k, none) ∷ cs) = compare_in t p.0 k ≡ before
  Settled t (p ∷ ps) ((k, some v) ∷ cs) = Unit

  pub record Skipped (t : Bool) (ps : List (Bytes × V)) (cs : List (Bytes × Option V))
      (q : List (Bytes × V) × List (Bytes × Option V)) : Type 0 where
    pub as_before : overlay t q.0 q.1 ≡ overlay t ps cs
    pub settled : Settled t q.0 q.1
    pub fewer : length q.0 + length q.1 ≤ length ps + length cs

  skip_all-Settled :
      (t : Bool) (cs : List (Bytes × Option V)) → Settled t [] (skip_cache_deletes V t none cs)
  unfolding skip_cache_deletes is_before
  skip_all-Settled t [] = tt
  skip_all-Settled t ((k, some v) ∷ cs) = tt
  skip_all-Settled t ((k, none) ∷ cs) = skip_all-Settled t cs

  both_dropped :
      (t : Bool) (p : Bytes × V) (ps : List (Bytes × V)) (k : Bytes) (cs : List (Bytes × Option V))
      → compare_in t p.0 k ≡ same
      → overlay t ps cs ≡ overlay t (p ∷ ps) ((k, none) ∷ cs)
  unfolding overlay
  both_dropped t p ps k cs e = rw (e, overlay) refl

  pub skip_loop-Skipped :
      (rounds : ℕ) (t : Bool) (ps : List (Bytes × V)) (cs : List (Bytes × Option V))
      → length ps + length cs < rounds
      → Skipped t ps cs (skip_loop V rounds t ps cs)
  unfolding skip_loop skip_cache_deletes
  skip_loop-Skipped zero t ps cs l = absurd (omega (arith, l))
  skip_loop-Skipped (suc rounds) t [] cs l = record {
    as_before = overlay-skip_all t cs;
    settled = skip_all-Settled t cs;
    fewer = omega (arith, length-skip t none cs);
  }
  skip_loop-Skipped (suc rounds) t (p ∷ ps) [] l = record {
    as_before = refl;
    settled = tt;
    fewer = omega arith;
  }
  skip_loop-Skipped (suc rounds) t (p ∷ ps) ((k, some v) ∷ cs) l = record {
    as_before = refl;
    settled = tt;
    fewer = omega arith;
  }
  skip_loop-Skipped (suc rounds) t (p ∷ ps) ((k, none) ∷ cs) l =
      (let n = length-skip t (some p.0) cs in
        let r₁ = skip_loop-Skipped rounds t ps cs (omega (arith, l)) in
        elim (Order-cases (compare_in t p.0 k)) [
          | inl e ↦
              rw (skip_loop, e) (record { as_before = refl; settled = e; fewer = omega arith })
          | inr (inl e) ↦
              rw (skip_loop, e)
                (record {
                  as_before = r₁.as_before ∙ both_dropped t p ps k cs e;
                  settled = r₁.settled;
                  fewer = omega (arith, r₁.fewer);
                })
          | inr (inr e) ↦
              (let opened : skip_cache_deletes V t (some p.0) ((k, none) ∷ cs)
                    ≡ skip_cache_deletes V t (some p.0) cs =
                  rw (is_before_of t k p.0 e) refl in
                let r₂ =
                  skip_loop-Skipped rounds t (p ∷ ps) (skip_cache_deletes V t (some p.0) cs)
                    (omega (arith, l, n)) in
                rw (skip_loop, e, opened)
                  (record {
                    as_before = r₂.as_before ∙ overlay-skip t p ps cs ∙ dropped t p ps k cs e;
                    settled = r₂.settled;
                    fewer = omega (arith, r₂.fewer, n);
                  }))
        ])
