-- ===== src/Rabbit/Multi.antt =====
-- SimpleCacheStore of store/rabbit/simple_cache.go, and SimpleMultiStore of
-- store/rabbit/simple_multi.go over a trunk. A panic is `none`.
use onvakv.Base.{
  Bool, true, false, not, ◌&&◌, Option, none, some, List, [], ◌∷◌, if◌then◌else◌, ◌>>=◌,
}
use onvakv.ByteSlices.{bytes_eq}
use onvakv.Types.{Bytes}
use onvakv.Store.Cache.{
  Value, CacheStatus, missed, just_deleted, hit, Serializable, lookup, BTree, cache_set,
  cache_delete,
}
use onvakv.Store.Layers.{
  RootStore, TrunkStore, when_idle, trunk_get, trunk_prepare_for_update, trunk_prepare_for_deletion,
}
use onvakv.Rabbit.Cached.{CachedValue, bytes_to_cached_value, cached_value_to_bytes}

-- An assignment to a map's entry. The order of the entries is the one in which `range` meets them.
unfoldable pub put_entry : {V : Type 0} → List (Bytes × V) → Bytes → V → List (Bytes × V)
put_entry [] k v = (k, v) ∷ []
put_entry ((j, w) ∷ m) k v = if bytes_eq j k then (j, v) ∷ m else (j, w) ∷ put_entry m k v

unfoldable pub is_none : {A : Type 0} → Option A → Bool
is_none none = true
is_none (some a) = false

module _ (S : Serializable) where
  -- The map of SimpleCacheStore: a pointer may be nil.
  abbrev pub CacheMap : Type 0
  CacheMap = List (Bytes × Option (CachedValue S.Obj))

  -- SimpleCacheStore.GetValue by what the map has. A nil pointer panics.
  unfoldable pub status_of :
      Option (Option (CachedValue S.Obj)) → Option (CacheStatus (CachedValue S.Obj))
  status_of none = some missed
  status_of (some none) = none
  status_of (some (some v)) = some (if v.is_deleted then just_deleted else hit v)

  unfoldable pub cache_get_value : CacheMap → Bytes → Option (CacheStatus (CachedValue S.Obj))
  cache_get_value m key = status_of (lookup m key)

  unfoldable pub cache_set_value : CacheMap → Bytes → Option (CachedValue S.Obj) → CacheMap
  cache_set_value m key value = put_entry m key value

  -- One round of ScanAllEntries, with a state that the callback changes.
  unfoldable pub scan_entry :
      {A : Type 0}
      → (A → Bytes → Bytes → Bool → A)
      → Bytes
      → Option (CachedValue S.Obj)
      → A
      → Option A
  scan_entry fn key none a = none
  scan_entry fn key (some cv) a =
      if is_none cv.obj && (not cv.is_deleted && not cv.is_empty)
      then none
      else if not cv.is_dirty
      then some a
      else (do bz ← cached_value_to_bytes S cv; some (fn a key bz cv.is_deleted))

  -- SimpleCacheStore.ScanAllEntries
  unfoldable pub scan_all_entries :
      {A : Type 0} → (A → Bytes → Bytes → Bool → A) → CacheMap → A → Option A
  scan_all_entries fn [] a = some a
  scan_all_entries fn ((key, cv) ∷ m) a = do a' ← scan_entry fn key cv a; scan_all_entries fn m a'

  module _ (B : BTree (Value S.Obj)) (R : RootStore S) where
    pub record SimpleMultiStore : Type 0 where
      pub cache : CacheMap
      pub trunk : TrunkStore S B R

    unfoldable pub new_simple_multi_store : TrunkStore S B R → SimpleMultiStore
    new_simple_multi_store trunk = record { cache = []; trunk = trunk }

    -- GetCachedValue where the cache has missed, by what the trunk has.
    unfoldable pub load_cached_value :
        SimpleMultiStore → Bytes → Option Bytes → SimpleMultiStore × Option (CachedValue S.Obj)
    load_cached_value sms key none = (sms, none)
    load_cached_value sms key (some bz) =
        let cv = bytes_to_cached_value S bz in
        (record sms { cache = cache_set_value sms.cache key cv }, cv)

    unfoldable pub get_by_status :
        SimpleMultiStore
        → Bytes
        → Option (CacheStatus (CachedValue S.Obj))
        → Option (SimpleMultiStore × Option (CachedValue S.Obj))
    get_by_status sms key none = none
    get_by_status sms key (some just_deleted) = some (sms, none)
    get_by_status sms key (some missed) = do
      bz ← trunk_get S B R sms.trunk key
      some (load_cached_value sms key bz)
    get_by_status sms key (some (hit cv)) = some (sms, some cv)

    unfoldable pub get_cached_value :
        SimpleMultiStore → Bytes → Option (SimpleMultiStore × Option (CachedValue S.Obj))
    get_cached_value sms key = get_by_status sms key (cache_get_value sms.cache key)

    unfoldable pub must_hit : Option (CacheStatus (CachedValue S.Obj)) → Option (CachedValue S.Obj)
    must_hit (some (hit cv)) = some cv
    must_hit _ = none

    unfoldable pub must_get_cached_value : SimpleMultiStore → Bytes → Option (CachedValue S.Obj)
    must_get_cached_value sms key = must_hit (cache_get_value sms.cache key)

    unfoldable pub set_cached_value :
        SimpleMultiStore → Bytes → CachedValue S.Obj → Option SimpleMultiStore
    set_cached_value sms key cv = do
      trunk ←
          (if cv.is_deleted
            then trunk_prepare_for_deletion S B R sms.trunk key
            else trunk_prepare_for_update S B R sms.trunk key)
      some (record {
        cache = cache_set_value sms.cache key (some (record cv { is_dirty = true }));
        trunk = trunk;
      })

    -- The callback of writeBack.
    unfoldable pub write_entry : B.Tree → Bytes → Bytes → Bool → B.Tree
    write_entry cache key value is_deleted =
        if is_deleted then cache_delete S B cache key else cache_set S B cache key value

    unfoldable pub simple_write_back : SimpleMultiStore → Option (TrunkStore S B R)
    simple_write_back sms = when_idle S B R sms.trunk (do
      cache ← scan_all_entries write_entry sms.cache sms.trunk.cache
      some (record sms.trunk { cache = cache }))

    -- Close
    unfoldable pub simple_close : SimpleMultiStore → Bool → Option (TrunkStore S B R)
    simple_close sms write_back = if write_back then simple_write_back sms else some sms.trunk
