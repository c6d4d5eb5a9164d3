-- ===== src/Tree/Youngest.antt =====
-- The Merkle tree of the youngest twig in datatree/tree.go: an array of 4096 hashes with the root at 1,
-- the children of i at 2i and 2i + 1, and the leaves from 2048 on. An array is a function from its
-- indices: none that the loops reach is out of range.
use onvakv.Base.{
  ℕ, zero, suc, ◌+◌, ◌*◌, ◌/◌, ◌%◌, ◌≡◌, ◌≢◌, arith, ◌⊎◌, ◌&&◌, Option, none, some, List, [], ◌∷◌,
  ◌++◌, ltb, leb, ◌==◌, if◌then◌else◌,
}
use onvakv.Types.{Bytes}
use onvakv.Tree.Hasher.{Memory, HashJob, run}

abbrev pub Array : Type 0 → Type 0
Array A = ℕ → A

unfoldable pub write_at : {A : Type 0} → Array A → ℕ → A → Array A
write_at a i v j = if j == i then v else a j

pub write_at_self : {A : Type 0} (a : Array A) (i : ℕ) (v : A) → write_at a i v i ≡ v
unfolding write_at
write_at_self a i v = ground arith

pub write_at_ne : {A : Type 0} (a : Array A) (i j : ℕ) (v : A) → i ≢ j → write_at a i v j ≡ a j
unfolding write_at
write_at_ne a i j v n = ground arith

pub index_cases : (i j : ℕ) → (i ≡ j) ⊎ (i ≢ j)
index_cases i j = ground arith

-- The array as the memory of the jobs.
abbrev pub array_memory : Memory
array_memory = record {
  State = Array Bytes;
  Loc = ℕ;
  read = λ m i. m i;
  write = λ m i b. write_at m i b;
  loc_cases = index_cases;
  read-write_self = λ m i b. write_at_self m i b;
  read-write_ne = λ m i j b n. write_at_ne m i j b n;
}

abbrev pub leaf_count_in_twig : ℕ
leaf_count_in_twig = 2048

-- `2 ^ c`
abbrev pub width : ℕ → ℕ
width zero = 1
width (suc c) = 2 * width c

-- The inner loop of syncMT4YoungestTwig; half of `base` rounds are enough.
unfoldable pub row_jobs : (rounds level base j end_round : ℕ) → List (HashJob array_memory)
row_jobs zero level base j end_round = []
row_jobs (suc rounds) level base j end_round =
    if leb j end_round && ltb (j + 1) base
    then record { target = (base + j) / 2; level = level; src_a = base + j; src_b = base + j + 1 }
      ∷ row_jobs rounds level base (j + 2) end_round
    else []

-- The arrays of the hashes and of the leaves that wait to be hashed.
abbrev pub Hashing : Type 0
Hashing = Array Bytes × Array (Option (Bytes × Bytes))

-- A leaf that waits is hashed, and does not wait any more.
unfoldable pub hash_leaf : (Bytes → Bytes) → ℕ → Hashing → Option (Bytes × Bytes) → Hashing
hash_leaf sha256 idx s none = s
hash_leaf sha256 idx (mt, leave) (some (a, b)) =
    (write_at mt (leaf_count_in_twig + idx) (sha256 (a ++ b)), write_at leave idx none)

-- The workers take the indices one after the other; each reads and writes only its own.
unfoldable pub hash_leaves : (Bytes → Bytes) → ℕ → Hashing → Hashing
hash_leaves sha256 zero s = s
hash_leaves sha256 (suc idx) s =
    let s' = hash_leaves sha256 idx s in hash_leaf sha256 idx s' (s'.1 idx)

module _ (sha256 : Bytes → Bytes) where
  -- One round of the outer loop: the nodes of the row from `base` on are hashed into the row above.
  unfoldable pub sync_row : (half level start end_ : ℕ) → Array Bytes → Array Bytes
  sync_row half level start end_ mt =
      let end_round = if end_ % 2 == 1 then end_ + 1 else end_ in
      let jobs = row_jobs half level (2 * half) (2 * (start / 2)) end_round in
      run sha256 array_memory jobs jobs mt

  -- The outer loop, with `base` = 2 ^ c down to 2.
  unfoldable pub sync_rows : (c level start end_ : ℕ) → Array Bytes → Array Bytes
  sync_rows zero level start end_ mt = mt
  sync_rows (suc c) level start end_ mt =
      sync_rows c (level + 1) (start / 2) (end_ / 2) (sync_row (width c) level start end_ mt)
