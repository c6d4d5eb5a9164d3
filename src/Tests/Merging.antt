-- ===== src/Tests/Merging.antt =====
-- The merging iterator on concrete inputs.
use onvakv.Base.{ℕ, List, Option, inl, ◌≡◌, refl, arith, true, false, none, some, [], ◌∷◌}
use onvakv.Base.Result.{ok}
use onvakv.Types.{Bytes}
use onvakv.Store.Merge.{
  MergeIterator, drain, place_of, place, skip_until_exists_or_invalid, skip_loop,
  skip_cache_deletes, is_before, compare_in, compare_bytes, opposite, is_somewhere, valid, key,
  key_at, value_of, value_at, next, next_at,
}
use onvakv.Store.Sorted.{IsSorted, lookup}
use onvakv.Store.Overlaid.{pick, drain-lookup}

-- The cache has deleted 1, replaced 3 and added 5; it has also deleted 2, which the parent has not.
abbrev small_iterator : MergeIterator ℕ
small_iterator = record {
  parent = (1 ∷ [], 10) ∷ (3 ∷ [], 30) ∷ (4 ∷ [], 40) ∷ [];
  cache = (1 ∷ [], none) ∷ (2 ∷ [], none) ∷ (3 ∷ [], some 31) ∷ (5 ∷ [], some 50) ∷ [];
  ascending = true;
}

drain_small :
    drain ℕ 8 small_iterator ≡ ok ((3 ∷ [], some 31) ∷ (4 ∷ [], some 40) ∷ (5 ∷ [], some 50) ∷ [])
unfolding drain place_of place skip_until_exists_or_invalid skip_loop skip_cache_deletes is_before
    compare_in compare_bytes opposite is_somewhere valid key key_at value_of value_at next next_at
drain_small = refl

-- A loop from the last key to the first.
abbrev backward_iterator : MergeIterator ℕ
backward_iterator = record {
  parent = (4 ∷ [], 40) ∷ (3 ∷ [], 30) ∷ [];
  cache = (5 ∷ [], some 50) ∷ (3 ∷ [], none) ∷ (2 ∷ [], none) ∷ [];
  ascending = false;
}

drain_backward : drain ℕ 6 backward_iterator ≡ ok ((5 ∷ [], some 50) ∷ (4 ∷ [], some 40) ∷ [])
unfolding drain place_of place skip_until_exists_or_invalid skip_loop skip_cache_deletes is_before
    compare_in compare_bytes opposite is_somewhere valid key key_at value_of value_at next next_at
drain_backward = refl

small-IsSorted : IsSorted true (small_iterator.parent)
small-IsSorted = ((inl (omega arith), (inl (omega arith), tt)), ((inl (omega arith), tt), (tt, tt)))

small_cache-IsSorted : IsSorted true (small_iterator.cache)
small_cache-IsSorted = (
  (inl (omega arith), (inl (omega arith), (inl (omega arith), tt))),
  ((inl (omega arith), (inl (omega arith), tt)), ((inl (omega arith), tt), (tt, tt))),
)

merged_small :
    (out : List (Bytes × Option ℕ)) × (drain ℕ 8 small_iterator ≡ ok out)
    × IsSorted true out
    × ((k : Bytes)
        → lookup k out
          ≡ pick ℕ (lookup k (small_iterator.cache)) (lookup k (small_iterator.parent)))
merged_small = drain-lookup ℕ 8 small_iterator (omega arith) small-IsSorted small_cache-IsSorted
