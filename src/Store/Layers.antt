-- ===== src/Store/Layers.antt =====
-- TrunkStore of store/trunk.go and MultiStore of store/multi.go. A panic is `none`; a nil result and a
-- nil object are the inner `none`.
use onvakv.Base.{ℕ, Bool, true, false, Option, none, some, ◌==◌, if◌then◌else◌, ◌>>=◌, ◌≡◌}
use onvakv.Types.{Bytes}
use onvakv.Store.Cache.{
  Value, missed, just_deleted, hit, Serializable, BTree, cache_get, cache_get_obj,
  cache_get_obj_copy, cache_get_read_only_obj, cache_set, cache_set_obj, cache_delete, scan_entries,
}

-- The calls of types.RootStoreI. GetReadOnlyObj and GetObjCopy may fill the root's object cache.
pub record RootStore (S : Serializable) : Type 1 where
  pub Root : Type 0
  pub get : Root → Bytes → Option Bytes
  pub has : Root → Bytes → Bool
  pub get_obj_copy : Root → Bytes → Root × Option S.Obj
  pub get_read_only_obj : Root → Bytes → Root × Option S.Obj
  pub prepare_for_update : Root → Bytes → Root
  pub prepare_for_deletion : Root → Bytes → Root
  pub begin_write : Root → Root
  pub set : Root → Bytes → Bytes → Root
  pub set_obj : Root → Bytes → S.Obj → Root
  pub delete : Root → Bytes → Root
  pub end_write : Root → Root
  pub get-prepare_for_update : (r : Root) (k j : Bytes) → get (prepare_for_update r k) j ≡ get r j
  pub get-prepare_for_deletion :
      (r : Root) (k j : Bytes) → get (prepare_for_deletion r k) j ≡ get r j

module _ (S : Serializable) (B : BTree (Value S.Obj)) (R : RootStore S) where
  pub record TrunkStore : Type 0 where
    pub cache : B.Tree
    pub root : R.Root
    pub is_writing : ℕ

  -- `if ts.isWriting != 0 { panic }` in front of every operation.
  abbrev pub when_idle : {A : Type 0} → TrunkStore → Option A → Option A
  when_idle ts a = if ts.is_writing == 0 then a else none

  unfoldable pub trunk_has : TrunkStore → Bytes → Option Bool
  trunk_has ts k = when_idle ts (elim (cache_get S B ts.cache k) [
    | none ↦ none
    | some missed ↦ some (R.has ts.root k)
    | some just_deleted ↦ some false
    | some (hit b) ↦ some true
  ])

  unfoldable pub trunk_get : TrunkStore → Bytes → Option (Option Bytes)
  trunk_get ts k = when_idle ts (elim (cache_get S B ts.cache k) [
    | none ↦ none
    | some missed ↦ some (R.get ts.root k)
    | some just_deleted ↦ some none
    | some (hit b) ↦ some (some b)
  ])

  unfoldable pub trunk_get_obj_copy : TrunkStore → Bytes → Option (TrunkStore × Option S.Obj)
  trunk_get_obj_copy ts k = when_idle ts (elim (cache_get_obj_copy S B ts.cache k) [
    | none ↦ none
    | some missed ↦ let (r, o) = R.get_obj_copy ts.root k in some (record ts { root = r }, o)
    | some just_deleted ↦ some (ts, none)
    | some (hit o) ↦ some (ts, some o)
  ])

  unfoldable pub trunk_get_read_only_obj : TrunkStore → Bytes → Option (TrunkStore × Option S.Obj)
  trunk_get_read_only_obj ts k = when_idle ts (elim (cache_get_read_only_obj S B ts.cache k) [
    | none ↦ none
    | some missed ↦ let (r, o) = R.get_read_only_obj ts.root k in some (record ts { root = r }, o)
    | some just_deleted ↦ some (ts, none)
    | some (hit o) ↦ some (ts, some o)
  ])

  unfoldable pub trunk_prepare_for_update : TrunkStore → Bytes → Option TrunkStore
  trunk_prepare_for_update ts k =
      when_idle ts (some (record ts { root = R.prepare_for_update ts.root k }))

  unfoldable pub trunk_prepare_for_deletion : TrunkStore → Bytes → Option TrunkStore
  trunk_prepare_for_deletion ts k =
      when_idle ts (some (record ts { root = R.prepare_for_deletion ts.root k }))

  -- writeBack: a second call while one is running panics.
  unfoldable pub trunk_write_back : TrunkStore → Option TrunkStore
  trunk_write_back ts =
      if ts.is_writing == 0
      then (do
        r ←
            scan_entries S B (λ r k. some (R.delete r k)) (λ r k o. some (R.set_obj r k o))
              (λ r k b. some (R.set r k b)) (B.entries ts.cache) (R.begin_write ts.root)
        some (record ts { root = R.end_write r }))
      else none

  -- MultiStore. The trunk is the only one that refers to it here.
  pub record MultiStore : Type 0 where
    pub cache : B.Tree
    pub trunk : TrunkStore

  -- Cached
  unfoldable pub cached : TrunkStore → MultiStore
  cached ts = record { cache = B.tree_new; trunk = ts }

  unfoldable pub multi_has : MultiStore → Bytes → Option Bool
  multi_has ms k = elim (cache_get S B ms.cache k) [
    | none ↦ none
    | some missed ↦ trunk_has ms.trunk k
    | some just_deleted ↦ some false
    | some (hit b) ↦ some true
  ]

  unfoldable pub multi_get : MultiStore → Bytes → Option (Option Bytes)
  multi_get ms k = elim (cache_get S B ms.cache k) [
    | none ↦ none
    | some missed ↦ trunk_get ms.trunk k
    | some just_deleted ↦ some none
    | some (hit b) ↦ some (some b)
  ]

  unfoldable pub multi_get_obj : MultiStore → Bytes → Option (MultiStore × Option S.Obj)
  multi_get_obj ms k = elim (cache_get_obj S B ms.cache k) [
    | none ↦ none
    | some (c, missed) ↦ (do
      (ts, o) ← trunk_get_obj_copy ms.trunk k
      some (record ms { trunk = ts }, o))
    | some (c, just_deleted) ↦ some (record ms { cache = c }, none)
    | some (c, hit o) ↦ some (record ms { cache = c }, some o)
  ]

  unfoldable pub multi_get_read_only_obj : MultiStore → Bytes → Option (MultiStore × Option S.Obj)
  multi_get_read_only_obj ms k = elim (cache_get_read_only_obj S B ms.cache k) [
    | none ↦ none
    | some missed ↦ (do
      (ts, o) ← trunk_get_read_only_obj ms.trunk k
      some (record ms { trunk = ts }, o))
    | some just_deleted ↦ some (ms, none)
    | some (hit o) ↦ some (ms, some o)
  ]

  unfoldable pub multi_set : MultiStore → Bytes → Bytes → Option MultiStore
  multi_set ms k v = do
    ts ← trunk_prepare_for_update ms.trunk k
    some (record { cache = cache_set S B ms.cache k v; trunk = ts })

  unfoldable pub multi_set_obj : MultiStore → Bytes → S.Obj → Option MultiStore
  multi_set_obj ms k o = do
    ts ← trunk_prepare_for_update ms.trunk k
    some (record { cache = cache_set_obj S B ms.cache k o; trunk = ts })

  unfoldable pub multi_delete : MultiStore → Bytes → Option MultiStore
  multi_delete ms k = do
    ts ← trunk_prepare_for_deletion ms.trunk k
    some (record { cache = cache_delete S B ms.cache k; trunk = ts })

  -- writeBack into the cache of the trunk.
  unfoldable pub multi_write_back : MultiStore → Option TrunkStore
  multi_write_back ms = when_idle ms.trunk (do
    c ←
        scan_entries S B (λ c k. some (cache_delete S B c k))
          (λ c k o. some (cache_set_obj S B c k o)) (λ c k b. some (cache_set S B c k b))
          (B.entries ms.cache) ms.trunk.cache
    some (record ms.trunk { cache = c }))
