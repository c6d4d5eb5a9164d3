-- ===== src/Store/Merge.antt =====
-- store/mergeiter.go: the iterator over a cache and over what lies below it. An iterator is the list of the
-- items that are left, and it is valid where there is one; a deleted item of the cache has no value.
use onvakv.Base.{
  ℕ, zero, suc, ◌+◌, Bool, true, false, Option, none, some, List, [], ◌∷◌, length, ltb,
  if◌then◌else◌,
}
use onvakv.Base.Result.{Result, ok, panic, ◌>>=◌}
use onvakv.Types.{Bytes}

-- What bytes.Compare answers: -1, 0 and 1.
pub data Order : Type 0 where
  before : Order
  same : Order
  behind : Order

unfoldable pub compare_bytes : Bytes → Bytes → Order
compare_bytes [] [] = same
compare_bytes [] (y ∷ ys) = before
compare_bytes (x ∷ xs) [] = behind
compare_bytes (x ∷ xs) (y ∷ ys) =
    let rest = compare_bytes xs ys in if ltb x y then before else if ltb y x then behind else rest

unfoldable pub opposite : Order → Order
opposite before = behind
opposite same = same
opposite behind = before

-- compare
unfoldable pub compare_in : Bool → Bytes → Bytes → Order
compare_in ascending a b = if ascending then compare_bytes a b else opposite (compare_bytes a b)

module _ (V : Type 0) where
  pub record MergeIterator : Type 0 where
    pub parent : List (Bytes × V)
    pub cache : List (Bytes × Option V)
    pub ascending : Bool

  -- `until == nil || iter.compare(key, until) < 0`
  unfoldable pub is_before : Bool → Bytes → Option Bytes → Bool
  is_before ascending key none = true
  is_before ascending key (some until) = elim (compare_in ascending key until) [
    | before ↦ true
    | same ↦ false
    | behind ↦ false
  ]

  unfoldable pub skip_cache_deletes :
      Bool → Option Bytes → List (Bytes × Option V) → List (Bytes × Option V)
  skip_cache_deletes ascending until [] = []
  skip_cache_deletes ascending until ((k, some v) ∷ cs) = (k, some v) ∷ cs
  skip_cache_deletes ascending until ((k, none) ∷ cs) =
      let rest = skip_cache_deletes ascending until cs in
      if is_before ascending k until then rest else (k, none) ∷ cs

  -- The loop of skipUntilExistsOrInvalid. Every round but the last takes an item off, so that the count of
  -- the items is enough fuel.
  unfoldable pub skip_loop :
      (rounds : ℕ)
      → Bool
      → List (Bytes × V)
      → List (Bytes × Option V)
      → List (Bytes × V) × List (Bytes × Option V)
  skip_loop zero ascending ps cs = (ps, cs)
  skip_loop (suc rounds) ascending [] cs = ([], skip_cache_deletes ascending none cs)
  skip_loop (suc rounds) ascending (p ∷ ps) [] = (p ∷ ps, [])
  skip_loop (suc rounds) ascending (p ∷ ps) ((k, some v) ∷ cs) = (p ∷ ps, (k, some v) ∷ cs)
  skip_loop (suc rounds) ascending (p ∷ ps) ((k, none) ∷ cs) =
      let both = skip_loop rounds ascending ps cs in
      let over =
        skip_loop rounds ascending (p ∷ ps)
          (skip_cache_deletes ascending (some p.0) ((k, none) ∷ cs)) in
      elim (compare_in ascending p.0 k) [
        | before ↦ (p ∷ ps, (k, none) ∷ cs)
        | same ↦ both
        | behind ↦ over
      ]

  -- skipUntilExistsOrInvalid
  unfoldable pub skip_until_exists_or_invalid : MergeIterator → MergeIterator
  skip_until_exists_or_invalid it =
      let (ps, cs) =
        skip_loop (length it.parent + length it.cache + 1) it.ascending it.parent it.cache in
      record it { parent = ps; cache = cs }

  -- Where Key, Value and Next of an iterator that has skipped find the item: in the parent, in the cache, or
  -- under one key in both.
  pub data Place : Type 0 where
    nowhere : Place
    in_parent : (Bytes × V) → Place
    in_cache : (Bytes × Option V) → Place
    in_both : (Bytes × V) → (Bytes × Option V) → Place

  unfoldable pub place : Bool → List (Bytes × V) → List (Bytes × Option V) → Place
  place ascending [] [] = nowhere
  place ascending [] (c ∷ cs) = in_cache c
  place ascending (p ∷ ps) [] = in_parent p
  place ascending (p ∷ ps) (c ∷ cs) = elim (compare_in ascending p.0 c.0) [
    | before ↦ in_parent p
    | same ↦ in_both p c
    | behind ↦ in_cache c
  ]

  unfoldable pub place_of : MergeIterator → Place
  place_of it =
      let it' = skip_until_exists_or_invalid it in place it'.ascending it'.parent it'.cache

  unfoldable pub is_somewhere : Place → Bool
  is_somewhere nowhere = false
  is_somewhere _ = true

  unfoldable pub key_at : Place → Result Bytes
  key_at nowhere = panic
  key_at (in_parent p) = ok p.0
  key_at (in_cache c) = ok c.0
  key_at (in_both p c) = ok p.0

  -- A value that is nil is none.
  unfoldable pub value_at : Place → Result (Option V)
  value_at nowhere = panic
  value_at (in_parent p) = ok (some p.1)
  value_at (in_cache c) = ok c.1
  value_at (in_both p c) = ok c.1

  abbrev pub rest_of : {A : Type 0} → List A → List A
  rest_of [] = []
  rest_of (x ∷ xs) = xs

  unfoldable pub next_at : Place → MergeIterator → Result MergeIterator
  next_at nowhere it = panic
  next_at (in_parent p) it = ok (record it { parent = rest_of it.parent })
  next_at (in_cache c) it = ok (record it { cache = rest_of it.cache })
  next_at (in_both p c) it = ok (record it { parent = rest_of it.parent; cache = rest_of it.cache })

  unfoldable pub valid : MergeIterator → Bool
  valid it = is_somewhere (place_of it)

  unfoldable pub key : MergeIterator → Result Bytes
  key it = key_at (place_of it)

  unfoldable pub value_of : MergeIterator → Result (Option V)
  value_of it = value_at (place_of it)

  unfoldable pub next : MergeIterator → Result MergeIterator
  next it = next_at (place_of it) (skip_until_exists_or_invalid it)

  -- What a loop over the iterator sees: Key and Value, then Next, while it is valid.
  unfoldable pub drain : (rounds : ℕ) → MergeIterator → Result (List (Bytes × Option V))
  drain zero it = ok []
  drain (suc rounds) it =
      if valid it
      then (do
        k ← key it
        v ← value_of it
        it' ← next it
        rest ← drain rounds it'
        ok ((k, v) ∷ rest))
      else ok []
