-- ===== src/Tree/Leaves.antt =====
-- syncMT4YoungestTwig on the waiting leaves of the youngest twig.
use onvakv.Base.{
  ℕ, zero, suc, ◌+◌, ◌<◌, ◌≤◌, ◌≡◌, ◌≢◌, refl, subst, ◌∙◌, arith, inl, inr, Option, none, some,
  ◌++◌,
}
use onvakv.Types.{Bytes}
use onvakv.Tree.Youngest.{write_at_self, write_at_ne, index_cases, Hashing, hash_leaf, hash_leaves}

module _ (sha256 : Bytes → Bytes) where
  -- What stands for a leaf once it is hashed.
  abbrev pub leaf_hash : Option (Bytes × Bytes) → Bytes → Bytes
  leaf_hash none h = h
  leaf_hash (some (a, b)) h = sha256 (a ++ b)

  hash_leaf-leave_self :
      (idx : ℕ) (s : Hashing) (o : Option (Bytes × Bytes))
      → s.1 idx ≡ o
      → (hash_leaf sha256 idx s o).1 idx ≡ none
  unfolding hash_leaf
  hash_leaf-leave_self idx s none e = e
  hash_leaf-leave_self idx (m, l) (some (a, b)) e = write_at_self l idx none

  hash_leaf-leave_ne :
      (idx j : ℕ) (s : Hashing) (o : Option (Bytes × Bytes))
      → idx ≢ j
      → (hash_leaf sha256 idx s o).1 j ≡ s.1 j
  unfolding hash_leaf
  hash_leaf-leave_ne idx j s none n = refl
  hash_leaf-leave_ne idx j (m, l) (some (a, b)) n = write_at_ne l idx j none n

  hash_leaf-mt_self :
      (idx : ℕ) (s : Hashing) (o : Option (Bytes × Bytes))
      → (hash_leaf sha256 idx s o).0 (2048 + idx) ≡ leaf_hash o (s.0 (2048 + idx))
  unfolding hash_leaf
  hash_leaf-mt_self idx s none = refl
  hash_leaf-mt_self idx (m, l) (some (a, b)) = write_at_self m (2048 + idx) (sha256 (a ++ b))

  hash_leaf-mt_ne :
      (idx i : ℕ) (s : Hashing) (o : Option (Bytes × Bytes))
      → 2048 + idx ≢ i
      → (hash_leaf sha256 idx s o).0 i ≡ s.0 i
  unfolding hash_leaf
  hash_leaf-mt_ne idx i s none n = refl
  hash_leaf-mt_ne idx i (m, l) (some (a, b)) n = write_at_ne m (2048 + idx) i (sha256 (a ++ b)) n

  module _ (s : Hashing) where
    hash_leaves-leave_from : (count j : ℕ) → count ≤ j → (hash_leaves sha256 count s).1 j ≡ s.1 j
    unfolding hash_leaves
    hash_leaves-leave_from zero j l = refl
    hash_leaves-leave_from (suc count) j l =
        (let s' = hash_leaves sha256 count s in
          hash_leaf-leave_ne count j s' (s'.1 count) (λ e. omega (arith, l, e))
          ∙ hash_leaves-leave_from count j (omega (arith, l)))

    pub hash_leaves-leave : (count j : ℕ) → j < count → (hash_leaves sha256 count s).1 j ≡ none
    unfolding hash_leaves
    hash_leaves-leave zero j l = absurd (omega (arith, l))
    hash_leaves-leave (suc count) j l =
        (let s' = hash_leaves sha256 count s in
          elim (index_cases count j) [
            | inl e ↦
                subst (λ x. (hash_leaf sha256 count s' (s'.1 count)).1 x ≡ none) e
                  (hash_leaf-leave_self count s' (s'.1 count) refl)
            | inr n ↦
                hash_leaf-leave_ne count j s' (s'.1 count) n
                ∙ hash_leaves-leave count j (omega (arith, l, n))
          ])

    -- Away from the leaves nothing changes.
    pub hash_leaves-mt_away :
        (count i : ℕ)
        → ((idx : ℕ) → idx < count → 2048 + idx ≢ i)
        → (hash_leaves sha256 count s).0 i ≡ s.0 i
    unfolding hash_leaves
    hash_leaves-mt_away zero i h = refl
    hash_leaves-mt_away (suc count) i h =
        (let s' = hash_leaves sha256 count s in
          hash_leaf-mt_ne count i s' (s'.1 count) (h count (omega arith))
          ∙ hash_leaves-mt_away count i (λ idx l. h idx (omega (arith, l))))

    pub hash_leaves-mt :
        (count idx : ℕ)
        → idx < count
        → (hash_leaves sha256 count s).0 (2048 + idx) ≡ leaf_hash (s.1 idx) (s.0 (2048 + idx))
    unfolding hash_leaves
    hash_leaves-mt zero idx l = absurd (omega (arith, l))
    hash_leaves-mt (suc count) idx l =
        (let s' = hash_leaves sha256 count s in
          elim (index_cases count idx) [
            | inl e ↦
                subst
                  (λ x.
                    (hash_leaf sha256 count s' (s'.1 count)).0 (2048 + x)
                    ≡ leaf_hash (s.1 x) (s.0 (2048 + x)))
                  e
                  (hash_leaf-mt_self count s' (s'.1 count)
                    ∙ rw
                        (
                          hash_leaves-leave_from count count (omega arith),
                          hash_leaves-mt_away count (2048 + count) (λ i k e. omega (arith, k, e)),
                        )
                        refl)
            | inr n ↦
                hash_leaf-mt_ne count (2048 + idx) s' (s'.1 count) (λ e. n (omega (arith, e)))
                ∙ hash_leaves-mt count idx (omega (arith, l, n))
          ])
