-- ===== src/Store/Merged.antt =====
-- What the merging iterator goes through.
use onvakv.Base.{
  ℕ, zero, suc, ◌+◌, ◌<◌, ◌≡◌, refl, ap, ◌∙◌, arith, inl, inr, Bool, true, Option, none, some, List,
  [], ◌∷◌, length,
}
use onvakv.Base.Result.{ok}
use onvakv.Types.{Bytes}
use onvakv.Store.Skipped.{overlay, Settled, skip_loop-Skipped, compare_in-same, Order-cases}
use onvakv.Store.Merge.{
  Order, before, same, behind, compare_in, MergeIterator, skip_loop, skip_until_exists_or_invalid,
  place, place_of, Place, in_parent, in_cache, in_both, nowhere, is_somewhere, key_at, value_at,
  next_at, valid, key, value_of, next, drain,
}

module _ (V : Type 0) where
  overlay-before :
      (t : Bool) (p : Bytes × V) (ps : List (Bytes × V)) (c : Bytes × Option V)
      (cs : List (Bytes × Option V))
      → compare_in t p.0 c.0 ≡ before
      → (p.0, some p.1) ∷ overlay V t ps (c ∷ cs) ≡ overlay V t (p ∷ ps) (c ∷ cs)
  unfolding overlay
  overlay-before t p ps c cs e = rw (e, overlay) refl

  overlay-same :
      (t : Bool) (p : Bytes × V) (ps : List (Bytes × V)) (k : Bytes) (v : V)
      (cs : List (Bytes × Option V))
      → compare_in t p.0 k ≡ same
      → (k, some v) ∷ overlay V t ps cs ≡ overlay V t (p ∷ ps) ((k, some v) ∷ cs)
  unfolding overlay
  overlay-same t p ps k v cs e = rw (e, overlay) refl

  overlay-behind :
      (t : Bool) (p : Bytes × V) (ps : List (Bytes × V)) (k : Bytes) (v : V)
      (cs : List (Bytes × Option V))
      → compare_in t p.0 k ≡ behind
      → (k, some v) ∷ overlay V t (p ∷ ps) cs ≡ overlay V t (p ∷ ps) ((k, some v) ∷ cs)
  unfolding overlay
  overlay-behind t p ps k v cs e = rw (e, overlay) refl

  place-eq :
      (t : Bool) (p : Bytes × V) (ps : List (Bytes × V)) (c : Bytes × Option V)
      (cs : List (Bytes × Option V)) (o : Order)
      → compare_in t p.0 c.0 ≡ o
      → place V t (p ∷ ps) (c ∷ cs)
        ≡ elim o [ before ↦ in_parent p | same ↦ in_both p c | behind ↦ in_cache c ]
  unfolding place
  place-eq t p ps c cs o e = rw (e, place) refl

  drain-stop :
      (rounds : ℕ) (it : MergeIterator V)
      → place_of V it ≡ nowhere
      → drain V (suc rounds) it ≡ ok []
  unfolding drain valid is_somewhere
  drain-stop rounds it e = rw e refl

  drain-step :
      (rounds : ℕ) (it it' : MergeIterator V) (P : Place V) {k : Bytes} {v : Option V}
      {rest : List (Bytes × Option V)}
      → place_of V it ≡ P
      → is_somewhere V P ≡ true
      → key_at V P ≡ ok k
      → value_at V P ≡ ok v
      → next_at V P (skip_until_exists_or_invalid V it) ≡ ok it'
      → drain V rounds it' ≡ ok rest
      → drain V (suc rounds) it ≡ ok ((k, v) ∷ rest)
  unfolding drain valid key value_of next
  drain-step rounds it it' P {k = k} {v = v} {rest = rest} e a b c d f = rw (e, a, b, c, d, f) refl

  -- One round of a loop over the iterator, at a place where it stays.
  module _ (rounds : ℕ) (it : MergeIterator V)
      (again : (ps : List (Bytes × V)) (cs : List (Bytes × Option V))
        → length ps + length cs < rounds
        → drain V rounds (record it { parent = ps; cache = cs })
          ≡ ok (overlay V it.ascending ps cs)) where
    drain-settled :
        (ps : List (Bytes × V)) (cs : List (Bytes × Option V))
        → skip_until_exists_or_invalid V it ≡ record it { parent = ps; cache = cs }
        → Settled V it.ascending ps cs
        → length ps + length cs < suc rounds
        → drain V (suc rounds) it ≡ ok (overlay V it.ascending ps cs)
    unfolding place_of place is_somewhere key_at value_at next_at overlay
    drain-settled [] [] e s l =
        drain-stop rounds it (ap (λ x. place V x.ascending x.parent x.cache) e)
    drain-settled [] ((k, some v) ∷ cs) e s l =
        drain-step rounds it (record it { parent = []; cache = cs }) (in_cache (k, some v))
          (ap (λ x. place V x.ascending x.parent x.cache) e) refl refl refl (rw e refl)
          (again [] cs (omega (arith, l)))
    drain-settled [] ((k, none) ∷ cs) e s l = absurd s
    drain-settled (p ∷ ps) [] e s l =
        drain-step rounds it (record it { parent = ps; cache = [] }) (in_parent p)
          (ap (λ x. place V x.ascending x.parent x.cache) e) refl refl refl (rw e refl)
          (again ps [] (omega (arith, l)))
    drain-settled (p ∷ ps) ((k, none) ∷ cs) e s l =
        drain-step rounds it (record it { parent = ps; cache = (k, none) ∷ cs }) (in_parent p)
          (ap (λ x. place V x.ascending x.parent x.cache) e
            ∙ place-eq it.ascending p ps (k, none) cs before s)
          refl refl refl (rw e refl) (again ps ((k, none) ∷ cs) (omega (arith, l)))
        ∙ ap ok (overlay-before it.ascending p ps (k, none) cs s)
    drain-settled (p ∷ ps) ((k, some v) ∷ cs) e s l =
        elim (Order-cases (compare_in it.ascending p.0 k)) [
          | inl b ↦
              drain-step rounds it (record it { parent = ps; cache = (k, some v) ∷ cs })
                (in_parent p)
                (ap (λ x. place V x.ascending x.parent x.cache) e
                  ∙ place-eq it.ascending p ps (k, some v) cs before b)
                refl refl refl (rw e refl) (again ps ((k, some v) ∷ cs) (omega (arith, l)))
              ∙ ap ok (overlay-before it.ascending p ps (k, some v) cs b)
          | inr (inl b) ↦
              drain-step rounds it (record it { parent = ps; cache = cs }) (in_both p (k, some v))
                (ap (λ x. place V x.ascending x.parent x.cache) e
                  ∙ place-eq it.ascending p ps (k, some v) cs same b)
                refl (ap ok (compare_in-same it.ascending p.0 k b)) refl (rw e refl)
                (again ps cs (omega (arith, l)))
              ∙ ap ok (overlay-same it.ascending p ps k v cs b)
          | inr (inr b) ↦
              drain-step rounds it (record it { parent = p ∷ ps; cache = cs })
                (in_cache (k, some v))
                (ap (λ x. place V x.ascending x.parent x.cache) e
                  ∙ place-eq it.ascending p ps (k, some v) cs behind b)
                refl refl refl (rw e refl) (again (p ∷ ps) cs (omega (arith, l)))
              ∙ ap ok (overlay-behind it.ascending p ps k v cs b)
        ]

  -- A loop over the merging iterator, in either direction, with more rounds than there are items, does not
  -- panic and ends by itself: it sees the cache over the parent, where of two items with one key that of the
  -- cache counts and what the cache has deleted is left out.
  pub drain-overlay :
      (rounds : ℕ) (it : MergeIterator V)
      → length it.parent + length it.cache < rounds
      → drain V rounds it ≡ ok (overlay V it.ascending it.parent it.cache)
  unfolding skip_until_exists_or_invalid
  drain-overlay zero it l = absurd (omega (arith, l))
  drain-overlay (suc rounds) it l =
      (let q =
          skip_loop V (length it.parent + length it.cache + 1) it.ascending it.parent it.cache in
        let s =
          skip_loop-Skipped V (length it.parent + length it.cache + 1) it.ascending it.parent
            it.cache (omega arith) in
        drain-settled rounds it
          (λ ps cs m. drain-overlay rounds (record it { parent = ps; cache = cs }) m) q.0 q.1 refl
          s.settled (omega (arith, l, s.fewer))
        ∙ ap ok s.as_before)
