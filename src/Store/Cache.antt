-- ===== src/Store/Cache.antt =====
-- CacheStore of store/cache.go over a B-tree (store/b/btree.go, a copy of a library) that is a
-- parameter.
use onvakv.Base.{false, Option, none, some, List, [], ◌∷◌, ◌≡◌, if◌then◌else◌, ◌>>=◌, All}
use onvakv.ByteSlices.{bytes_eq}
use onvakv.Types.{Bytes}

-- b.Value: raw bytes or an object, the nil value of an object that is lent out, or a deletion.
pub data Value (O : Type 0) : Type 0 where
  raw_bytes : Bytes → Value O
  serializable : O → Value O
  nil_value : Value O
  deleted_value : Value O

-- types.CacheStatus, with what was hit.
pub data CacheStatus (A : Type 0) : Type 0 where
  missed : CacheStatus A
  just_deleted : CacheStatus A
  hit : A → CacheStatus A

-- types.Serializable
pub record Serializable : Type 1 where
  pub Obj : Type 0
  pub to_bytes : Obj → Bytes
  pub from_bytes : Bytes → Obj
  pub deep_copy : Obj → Obj

abbrev pub lookup : {V : Type 0} → List (Bytes × V) → Bytes → Option V
lookup [] k = none
lookup ((j, v) ∷ kvs) k = if bytes_eq j k then some v else lookup kvs k

-- No key of the list is `k`; no key stands twice.
abbrev pub Misses : {V : Type 0} → Bytes → List (Bytes × V) → Type 0
Misses k = All (λ kv. bytes_eq kv.0 k ≡ false)

abbrev pub HasDistinctEntryKeys : {V : Type 0} → List (Bytes × V) → Type 0
HasDistinctEntryKeys [] = Unit
HasDistinctEntryKeys ((k, v) ∷ kvs) = Misses k kvs × HasDistinctEntryKeys kvs

-- The calls of the B-tree. `entries` is what an enumerator runs over, from SeekFirst on.
pub record BTree (V : Type 0) : Type 1 where
  pub Tree : Type 0
  pub tree_new : Tree
  pub get : Tree → Bytes → Option V
  pub set : Tree → Bytes → V → Tree
  pub delete : Tree → Bytes → Tree
  pub entries : Tree → List (Bytes × V)
  pub get-tree_new : (k : Bytes) → get tree_new k ≡ none
  pub get-set :
      (t : Tree) (k j : Bytes) (v : V)
      → get (set t k v) j ≡ (if bytes_eq k j then some v else get t j)
  pub get-delete :
      (t : Tree) (k j : Bytes) → get (delete t k) j ≡ (if bytes_eq k j then none else get t j)
  pub get-entries : (t : Tree) (k : Bytes) → get t k ≡ lookup (entries t) k
  pub entries-HasDistinctEntryKeys : (t : Tree) → HasDistinctEntryKeys (entries t)

module _ (S : Serializable) (B : BTree (Value S.Obj)) where
  -- Get. An object that is lent out has no bytes: the type assertion panics.
  unfoldable pub cache_get : B.Tree → Bytes → Option (CacheStatus Bytes)
  cache_get bt k = elim (B.get bt k) [
    | none ↦ some missed
    | some (raw_bytes b) ↦ some (hit b)
    | some (serializable o) ↦ some (hit (S.to_bytes o))
    | some nil_value ↦ none
    | some deleted_value ↦ some just_deleted
  ]

  -- GetObj: an object leaves the cache, and a nil value takes its place.
  unfoldable pub cache_get_obj : B.Tree → Bytes → Option (B.Tree × CacheStatus S.Obj)
  cache_get_obj bt k = elim (B.get bt k) [
    | none ↦ some (bt, missed)
    | some (raw_bytes b) ↦ some (bt, hit (S.from_bytes b))
    | some (serializable o) ↦ some (B.set bt k nil_value, hit o)
    | some nil_value ↦ none
    | some deleted_value ↦ some (bt, just_deleted)
  ]

  unfoldable pub cache_get_obj_copy : B.Tree → Bytes → Option (CacheStatus S.Obj)
  cache_get_obj_copy bt k = elim (B.get bt k) [
    | none ↦ some missed
    | some (raw_bytes b) ↦ some (hit (S.from_bytes b))
    | some (serializable o) ↦ some (hit (S.deep_copy o))
    | some nil_value ↦ none
    | some deleted_value ↦ some just_deleted
  ]

  unfoldable pub cache_get_read_only_obj : B.Tree → Bytes → Option (CacheStatus S.Obj)
  cache_get_read_only_obj bt k = elim (B.get bt k) [
    | none ↦ some missed
    | some (raw_bytes b) ↦ some (hit (S.from_bytes b))
    | some (serializable o) ↦ some (hit o)
    | some nil_value ↦ none
    | some deleted_value ↦ some just_deleted
  ]

  unfoldable pub cache_set : B.Tree → Bytes → Bytes → B.Tree
  cache_set bt k v = B.set bt k (raw_bytes v)

  unfoldable pub cache_set_obj : B.Tree → Bytes → S.Obj → B.Tree
  cache_set_obj bt k o = B.set bt k (serializable o)

  unfoldable pub cache_real_delete : B.Tree → Bytes → B.Tree
  cache_real_delete bt k = B.delete bt k

  unfoldable pub cache_delete : B.Tree → Bytes → B.Tree
  cache_delete bt k = B.set bt k deleted_value

  -- ScanAllEntries, with a state that the callback changes: `on_delete`, `on_obj` and `on_bytes` are its
  -- three cases. A nil value panics.
  unfoldable pub scan_entries :
      {A : Type 0}
      → (A → Bytes → Option A)
      → (A → Bytes → S.Obj → Option A)
      → (A → Bytes → Bytes → Option A)
      → List (Bytes × Value S.Obj)
      → A
      → Option A
  scan_entries on_delete on_obj on_bytes [] s = some s
  scan_entries on_delete on_obj on_bytes ((k, raw_bytes b) ∷ kvs) s = do
    s' ← on_bytes s k b
    scan_entries on_delete on_obj on_bytes kvs s'
  scan_entries on_delete on_obj on_bytes ((k, serializable o) ∷ kvs) s = do
    s' ← on_obj s k o
    scan_entries on_delete on_obj on_bytes kvs s'
  scan_entries on_delete on_obj on_bytes ((k, nil_value) ∷ kvs) s = none
  scan_entries on_delete on_obj on_bytes ((k, deleted_value) ∷ kvs) s = do
    s' ← on_delete s k
    scan_entries on_delete on_obj on_bytes kvs s'
