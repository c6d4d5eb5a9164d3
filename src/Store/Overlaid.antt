-- ===== src/Store/Overlaid.antt =====
-- What a loop over the merging iterator sees of a sorted parent and a sorted cache.
use onvakv.Base.{
  ℕ, ◌+◌, ◌<◌, ◌≡◌, refl, sym, ap, subst, ◌∙◌, inl, inr, Bool, Bool-cases, true, false, Option,
  none, some, List, [], ◌∷◌, length, All,
}
use onvakv.Base.Result.{ok}
use onvakv.ByteSlices.{bytes_eq, bytes_eq_sound}
use onvakv.Types.{Bytes}
use onvakv.Store.Merge.{compare_in, MergeIterator, drain}
use onvakv.Store.Skipped.{overlay, put, Order-cases, compare_in-same}
use onvakv.Store.Sorted.{
  Precedes, IsSorted, lookup, compare_in-before, compare_in-behind, All_after, lookup-none,
}
use onvakv.Store.Merged.{drain-overlay}

module _ (V : Type 0) where
  -- What counts of an item of the cache and one of the parent.
  unfoldable pub pick : Option (Option V) → Option V → Option (Option V)
  pick (some (some v)) p = some (some v)
  pick (some none) p = none
  pick none (some v) = some (some v)
  pick none none = none

  module _ (t : Bool) where
    All-put :
        (a k : Bytes) (v : Option V) (rest : List (Bytes × Option V))
        → Precedes t a k
        → All (λ y. Precedes t a y.0) rest
        → All (λ y. Precedes t a y.0) (put V k v rest)
    All-put a k none rest l h = h
    All-put a k (some v) rest l h = (l, h)

    All-overlay :
        (a : Bytes) (ps : List (Bytes × V)) (cs : List (Bytes × Option V))
        → All (λ y. Precedes t a y.0) ps
        → All (λ y. Precedes t a y.0) cs
        → All (λ y. Precedes t a y.0) (overlay V t ps cs)
    unfolding overlay
    All-overlay a [] [] hp hc = tt
    All-overlay a [] (c ∷ cs) hp hc = All-put a c.0 c.1 _ hc.0 (All-overlay a [] cs tt hc.1)
    All-overlay a (p ∷ ps) [] hp hc = (hp.0, All-overlay a ps [] hp.1 tt)
    All-overlay a (p ∷ ps) (c ∷ cs) hp hc = elim (Order-cases (compare_in t p.0 c.0)) [
      | inl e ↦ rw (e, overlay) (hp.0, All-overlay a ps (c ∷ cs) hp.1 hc)
      | inr (inl e) ↦ rw (e, overlay) (All-put a c.0 c.1 _ hc.0 (All-overlay a ps cs hp.1 hc.1))
      | inr (inr e) ↦ rw (e, overlay) (All-put a c.0 c.1 _ hc.0 (All-overlay a (p ∷ ps) cs hp hc.1))
    ]

    IsSorted-put :
        (k : Bytes) (v : Option V) (rest : List (Bytes × Option V))
        → All (λ y. Precedes t k y.0) rest
        → IsSorted t rest
        → IsSorted t (put V k v rest)
    IsSorted-put k none rest h s = s
    IsSorted-put k (some v) rest h s = (h, s)

    -- All items of the other list come behind the first of this one.
    all_behind :
        {A : Type 0} (a : Bytes) (x : Bytes × A) (xs : List (Bytes × A))
        → Precedes t a x.0
        → IsSorted t (x ∷ xs)
        → All (λ y. Precedes t a y.0) (x ∷ xs)
    all_behind a x xs l s = (l, All_after t a x.0 xs l s.0)

    IsSorted-overlay :
        (ps : List (Bytes × V)) (cs : List (Bytes × Option V))
        → IsSorted t ps
        → IsSorted t cs
        → IsSorted t (overlay V t ps cs)
    unfolding overlay
    IsSorted-overlay [] [] hp hc = tt
    IsSorted-overlay [] (c ∷ cs) hp hc =
        IsSorted-put c.0 c.1 _ (All-overlay c.0 [] cs tt hc.0) (IsSorted-overlay [] cs tt hc.1)
    IsSorted-overlay (p ∷ ps) [] hp hc =
        (All-overlay p.0 ps [] hp.0 tt, IsSorted-overlay ps [] hp.1 tt)
    IsSorted-overlay (p ∷ ps) (c ∷ cs) hp hc = elim (Order-cases (compare_in t p.0 c.0)) [
      | inl e ↦
          rw (e, overlay)
            (
              All-overlay p.0 ps (c ∷ cs) hp.0
                  (all_behind p.0 c cs (compare_in-before t p.0 c.0 e) hc),
              IsSorted-overlay ps (c ∷ cs) hp.1 hc,
            )
      | inr (inl e) ↦
          rw (e, overlay)
            (IsSorted-put c.0 c.1 _
              (All-overlay c.0 ps cs
                (subst (λ k. All (λ y. Precedes t k y.0) ps) (compare_in-same t p.0 c.0 e) hp.0)
                hc.0)
              (IsSorted-overlay ps cs hp.1 hc.1))
      | inr (inr e) ↦
          rw (e, overlay)
            (IsSorted-put c.0 c.1 _
              (All-overlay c.0 (p ∷ ps) cs (all_behind c.0 p ps (compare_in-behind t p.0 c.0 e) hp)
                hc.0)
              (IsSorted-overlay (p ∷ ps) cs hp hc.1))
    ]

    module _ (k : Bytes) where
      lookup-put_other :
          (j : Bytes) (v : Option V) (rest : List (Bytes × Option V))
          → bytes_eq j k ≡ false
          → lookup k (put V j v rest) ≡ lookup k rest
      unfolding lookup
      lookup-put_other j none rest e = refl
      lookup-put_other j (some v) rest e = rw e refl

      lookup-put_self :
          (j : Bytes) (v : Option V) (rest : List (Bytes × Option V)) (q : Option V)
          → bytes_eq j k ≡ true
          → All (λ y. Precedes t k y.0) rest
          → lookup k (put V j v rest) ≡ pick (some v) q
      unfolding lookup pick
      lookup-put_self j none rest q e h = lookup-none t k rest h
      lookup-put_self j (some v) rest q e h = rw e refl

      lookup_head :
          {A : Type 0} (x : Bytes × A) (xs : List (Bytes × A))
          → bytes_eq x.0 k ≡ true
          → lookup k (x ∷ xs) ≡ some x.1
      unfolding lookup
      lookup_head x xs e = rw e refl

      lookup_tail :
          {A : Type 0} (x : Bytes × A) (xs : List (Bytes × A))
          → bytes_eq x.0 k ≡ false
          → lookup k (x ∷ xs) ≡ lookup k xs
      unfolding lookup
      lookup_tail x xs e = rw e refl

      -- The item of the cache comes first, or under the same key.
      put-pick :
          (c : Bytes × Option V) (cs : List (Bytes × Option V)) (ps ps' : List (Bytes × V))
          (rest : List (Bytes × Option V))
          → All (λ y. Precedes t c.0 y.0) rest
          → (bytes_eq c.0 k ≡ false → lookup k ps ≡ lookup k ps')
          → lookup k rest ≡ pick (lookup k cs) (lookup k ps')
          → lookup k (put V c.0 c.1 rest) ≡ pick (lookup k (c ∷ cs)) (lookup k ps)
      put-pick c cs ps ps' rest h other below = elim (Bool-cases (bytes_eq c.0 k)) [
        | inl e ↦
            lookup-put_self c.0 c.1 rest (lookup k ps) e
              (subst (λ j. All (λ y. Precedes t j y.0) rest) (bytes_eq_sound c.0 k e) h)
            ∙ ap (λ x. pick x (lookup k ps)) (sym (lookup_head c cs e))
        | inr n ↦
            lookup-put_other c.0 c.1 rest n
            ∙ below
            ∙ ap (pick (lookup k cs)) (sym (other n))
            ∙ ap (λ x. pick x (lookup k ps)) (sym (lookup_tail c cs n))
      ]

      -- The item of the parent comes first.
      parent-pick :
          (p : Bytes × V) (ps : List (Bytes × V)) (cs : List (Bytes × Option V))
          (rest : List (Bytes × Option V))
          → All (λ y. Precedes t p.0 y.0) cs
          → lookup k rest ≡ pick (lookup k cs) (lookup k ps)
          → lookup k ((p.0, some p.1) ∷ rest) ≡ pick (lookup k cs) (lookup k (p ∷ ps))
      unfolding pick
      parent-pick p ps cs rest h below = elim (Bool-cases (bytes_eq p.0 k)) [
        | inl e ↦
            let missing : lookup k cs ≡ none =
              lookup-none t k cs
                (subst (λ j. All (λ y. Precedes t j y.0) cs) (bytes_eq_sound p.0 k e) h) in
            lookup_head (p.0, some p.1) rest e
            ∙ sym
                (ap (λ x. pick x (lookup k (p ∷ ps))) missing ∙ ap (pick none) (lookup_head p ps e))
        | inr n ↦
            lookup_tail (p.0, some p.1) rest n
            ∙ below
            ∙ ap (pick (lookup k cs)) (sym (lookup_tail p ps n))
      ]

      lookup-overlay :
          (ps : List (Bytes × V)) (cs : List (Bytes × Option V))
          → IsSorted t ps
          → IsSorted t cs
          → lookup k (overlay V t ps cs) ≡ pick (lookup k cs) (lookup k ps)
      unfolding overlay
      lookup-overlay [] [] hp hc = unfold lookup pick in refl
      lookup-overlay [] (c ∷ cs) hp hc =
          put-pick c cs [] [] _ (All-overlay c.0 [] cs tt hc.0) (λ n. refl)
            (lookup-overlay [] cs tt hc.1)
      lookup-overlay (p ∷ ps) [] hp hc = parent-pick p ps [] _ tt (lookup-overlay ps [] hp.1 tt)
      lookup-overlay (p ∷ ps) (c ∷ cs) hp hc = elim (Order-cases (compare_in t p.0 c.0)) [
        | inl e ↦
            rw (e, overlay)
              (parent-pick p ps (c ∷ cs) _ (all_behind p.0 c cs (compare_in-before t p.0 c.0 e) hc)
                (lookup-overlay ps (c ∷ cs) hp.1 hc))
        | inr (inl e) ↦
            let same_key = compare_in-same t p.0 c.0 e in
            rw (e, overlay)
              (put-pick c cs (p ∷ ps) ps _
                (All-overlay c.0 ps cs (subst (λ j. All (λ y. Precedes t j y.0) ps) same_key hp.0)
                  hc.0)
                (λ n. lookup_tail p ps (ap (λ j. bytes_eq j k) same_key ∙ n))
                (lookup-overlay ps cs hp.1 hc.1))
        | inr (inr e) ↦
            rw (e, overlay)
              (put-pick c cs (p ∷ ps) (p ∷ ps) _
                (All-overlay c.0 (p ∷ ps) cs
                  (all_behind c.0 p ps (compare_in-behind t p.0 c.0 e) hp) hc.0)
                (λ n. refl) (lookup-overlay (p ∷ ps) cs hp hc.1))
      ]

  -- A loop over the merging iterator, with more rounds than there are items and with the parent and the
  -- cache sorted in its direction by the lexicographic order of keys, does not panic and ends by itself.
  -- The items it sees are sorted in that direction, and under each key they have the value of the cache,
  -- nothing where the cache has deleted the key, and the value of the parent where the cache has nothing.
  pub drain-lookup :
      (rounds : ℕ) (it : MergeIterator V)
      → length it.parent + length it.cache < rounds
      → IsSorted it.ascending it.parent
      → IsSorted it.ascending it.cache
      → (out : List (Bytes × Option V)) × (drain V rounds it ≡ ok out)
        × IsSorted it.ascending out
        × ((k : Bytes) → lookup k out ≡ pick (lookup k it.cache) (lookup k it.parent))
  drain-lookup rounds it l hp hc = (
    overlay V it.ascending it.parent it.cache,
    drain-overlay V rounds it l,
    IsSorted-overlay it.ascending it.parent it.cache hp hc,
    λ k. lookup-overlay it.ascending k it.parent it.cache hp hc,
  )
