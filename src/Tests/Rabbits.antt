-- ===== src/Tests/Rabbits.antt =====
-- Rabbit stores on concrete inputs, over a hash under which many keys have one short key.
use onvakv.Base.{◌+◌, ◌≡◌, refl, arith, true, false, none, some, Option, [], ◌∷◌, List, ◌>>=◌}
use onvakv.ByteSlices.{bytes_eq}
use onvakv.Types.{Bytes}
use onvakv.Store.Cache.{Value, cache_get}
use onvakv.Store.Layers.{
  TrunkStore, trunk_get, trunk_prepare_for_update, trunk_prepare_for_deletion,
}
use onvakv.Rabbit.Cached.{CachedValue, object, cached_value_to_bytes, bytes_to_cached_value}
use onvakv.Rabbit.Multi.{simple_close, simple_write_back, scan_all_entries, scan_entry, is_none}
use onvakv.Rabbit.Operations.{rabbit_get_obj, get_obj_helper, lend_found, lend, held_object}
use onvakv.Rabbit.Closed.{all_fit}
use onvakv.Rabbit.Reopened.{all_short}
use onvakv.Rabbit.Reloaded.{reloaded, cached_value_to_bytes-bytes_to_cached_value}
use onvakv.Rabbit.Persisted.{simple_close-rabbit_get}
use onvakv.Base.{inr}
use onvakv.Tests.Stores.{byte_objects, list_tree, map_root}
use onvakv.Rabbit.Multi.{
  SimpleMultiStore, new_simple_multi_store, put_entry, status_of, cache_get_value, cache_set_value,
  load_cached_value, get_by_status, get_cached_value, must_hit, must_get_cached_value,
  set_cached_value,
}
use onvakv.Rabbit.Cached.{held_bytes, get_value}
use onvakv.Rabbit.Operations.{
  is_exists, force_bit, short_key, last_of, init_of, stop_at, find_round, find_loop, find,
  value_bytes, get_found, rabbit_get, incr_passby_num, set_found, set_helper, rabbit_set,
  rabbit_set_obj, passed_less, decr_passby_num, emptied, delete_found, rabbit_delete,
}
use onvakv.Rabbit.Cells.{cells}
use onvakv.Rabbit.Located.{has_free}
use onvakv.Rabbit.Holds.{has_room}
use onvakv.Rabbit.Refined.{
  RabbitWrite, set_bytes, set_object, delete_key, replay, write, run_writes, HasRooms,
}
use onvakv.Rabbit.Runs.{run_writes-rabbit_get}

-- The keys 2 and 3 have the short keys 5, 7, 9 and so on.
abbrev count_up : Bytes → Bytes
count_up [] = 1 ∷ []
count_up (b ∷ bs) = (b + 2) ∷ []

abbrev vacant_trunk : TrunkStore byte_objects (list_tree (Value Bytes)) map_root
vacant_trunk = record { cache = ([], tt); root = λ k. none; is_writing = 0 }

vacant :
    (k : Bytes)
    → trunk_get byte_objects (list_tree (Value Bytes)) map_root vacant_trunk k ≡ some none
unfolding trunk_get cache_get
vacant k = refl

abbrev colliding_writes : List (RabbitWrite Bytes)
colliding_writes =
    set_bytes (2 ∷ []) (20 ∷ [])
    ∷ set_object (3 ∷ []) (30 ∷ [])
    ∷ delete_key (2 ∷ [])
    ∷ set_bytes (3 ∷ []) (31 ∷ [])
    ∷ []

-- The second key is found behind the slot that the first one has left.
get_behind_empty :
    (run_writes byte_objects count_up
        (list_tree (Value Bytes))
        map_root
        colliding_writes
        (new_simple_multi_store byte_objects (list_tree (Value Bytes)) map_root vacant_trunk)
      >>= (λ s. rabbit_get count_up byte_objects (list_tree (Value Bytes)) map_root s (3 ∷ []))
      >>= (λ r. some r.1))
    ≡ some (some (31 ∷ []))
unfolding run_writes write rabbit_get rabbit_set set_helper find find_loop get_cached_value
    get_by_status cache_get_value status_of new_simple_multi_store trunk_get cache_get find_round
    stop_at load_cached_value last_of set_found set_cached_value bytes_eq get_value held_bytes
    cache_set_value must_get_cached_value must_hit put_entry decr_passby_num delete_found emptied
    force_bit get_found incr_passby_num init_of is_exists passed_less rabbit_delete rabbit_set_obj
    short_key value_bytes trunk_prepare_for_deletion trunk_prepare_for_update
get_behind_empty = refl

colliding_rooms :
    HasRooms byte_objects count_up
      (list_tree (Value Bytes))
      map_root
      colliding_writes
      (new_simple_multi_store byte_objects (list_tree (Value Bytes)) map_root vacant_trunk)
unfolding HasRooms has_room has_free cells run_writes write rabbit_get rabbit_set set_helper find
    find_loop get_cached_value get_by_status cache_get_value status_of new_simple_multi_store
    trunk_get cache_get find_round stop_at load_cached_value last_of set_found set_cached_value
    bytes_eq get_value held_bytes cache_set_value must_get_cached_value must_hit put_entry
    decr_passby_num delete_found emptied force_bit get_found incr_passby_num init_of is_exists
    passed_less rabbit_delete rabbit_set_obj short_key value_bytes trunk_prepare_for_deletion
    trunk_prepare_for_update
colliding_rooms = (refl, (refl, (refl, (refl, tt))))

run_colliding :
    (s : SimpleMultiStore byte_objects (list_tree (Value Bytes)) map_root) × (run_writes
        byte_objects count_up
        (list_tree (Value Bytes))
        map_root
        colliding_writes
        (new_simple_multi_store byte_objects (list_tree (Value Bytes)) map_root vacant_trunk)
      ≡ some s)
    × ((key : Bytes)
        → has_room count_up byte_objects (list_tree (Value Bytes)) map_root s key ≡ true
        → (s' : SimpleMultiStore byte_objects (list_tree (Value Bytes)) map_root) × (rabbit_get
              count_up byte_objects
              (list_tree (Value Bytes))
              map_root
              s
              key
            ≡ some (s', replay byte_objects colliding_writes (λ _. none) key)))
run_colliding =
    run_writes-rabbit_get byte_objects count_up (list_tree (Value Bytes)) map_root colliding_writes
      vacant_trunk refl (λ k. vacant k) (omega arith) colliding_rooms

abbrev value : {A : Type 0} → Option A → A → A
value none a = a
value (some b) a = b

abbrev colliding_store : SimpleMultiStore byte_objects (list_tree (Value Bytes)) map_root
colliding_store =
    value
      (run_writes byte_objects count_up (list_tree (Value Bytes)) map_root colliding_writes
        (new_simple_multi_store byte_objects (list_tree (Value Bytes)) map_root vacant_trunk))
      (new_simple_multi_store byte_objects (list_tree (Value Bytes)) map_root vacant_trunk)

colliding_run :
    run_writes byte_objects count_up
      (list_tree (Value Bytes))
      map_root
      colliding_writes
      (new_simple_multi_store byte_objects (list_tree (Value Bytes)) map_root vacant_trunk)
    ≡ some colliding_store
unfolding run_writes write rabbit_get rabbit_set set_helper find find_loop get_cached_value
    get_by_status cache_get_value status_of new_simple_multi_store trunk_get cache_get find_round
    stop_at load_cached_value last_of set_found set_cached_value bytes_eq get_value held_bytes
    cache_set_value must_get_cached_value must_hit put_entry decr_passby_num delete_found emptied
    force_bit get_found incr_passby_num init_of is_exists passed_less rabbit_delete rabbit_set_obj
    short_key value_bytes trunk_prepare_for_deletion trunk_prepare_for_update
colliding_run = refl

colliding_fit : all_fit byte_objects colliding_store.cache ≡ true
unfolding is_none run_writes write rabbit_get rabbit_set set_helper find find_loop get_cached_value
    get_by_status cache_get_value status_of new_simple_multi_store trunk_get cache_get find_round
    stop_at load_cached_value last_of set_found set_cached_value bytes_eq get_value held_bytes
    cache_set_value must_get_cached_value must_hit put_entry decr_passby_num delete_found emptied
    force_bit get_found incr_passby_num init_of is_exists passed_less rabbit_delete rabbit_set_obj
    short_key value_bytes trunk_prepare_for_deletion trunk_prepare_for_update
colliding_fit = refl

colliding_short : all_short byte_objects colliding_store.cache ≡ true
unfolding run_writes write rabbit_get rabbit_set set_helper find find_loop get_cached_value
    get_by_status cache_get_value status_of new_simple_multi_store trunk_get cache_get find_round
    stop_at load_cached_value last_of set_found set_cached_value bytes_eq get_value held_bytes
    cache_set_value must_get_cached_value must_hit put_entry decr_passby_num delete_found emptied
    force_bit get_found incr_passby_num init_of is_exists passed_less rabbit_delete rabbit_set_obj
    short_key value_bytes trunk_prepare_for_deletion trunk_prepare_for_update
colliding_short = refl

close_colliding :
    (ts : TrunkStore byte_objects (list_tree (Value Bytes)) map_root) × (simple_close byte_objects
        (list_tree (Value Bytes))
        map_root
        colliding_store
        true
      ≡ some ts)
    × ((key : Bytes)
        → has_room count_up byte_objects
            (list_tree (Value Bytes))
            map_root
            (new_simple_multi_store byte_objects (list_tree (Value Bytes)) map_root ts)
            key
          ≡ true
        → (s' : SimpleMultiStore byte_objects (list_tree (Value Bytes)) map_root) × (rabbit_get
              count_up byte_objects
              (list_tree (Value Bytes))
              map_root
              (new_simple_multi_store byte_objects (list_tree (Value Bytes)) map_root ts)
              key
            ≡ some (s', replay byte_objects colliding_writes (λ _. none) key)))
close_colliding =
    simple_close-rabbit_get count_up byte_objects (list_tree (Value Bytes)) map_root
      colliding_writes vacant_trunk colliding_store refl (λ k. vacant k) (omega arith)
      colliding_rooms colliding_run colliding_fit colliding_short

-- An object that is taken out by GetObj, and whose key is then deleted, makes Close panic.
close_after_lent_and_deleted :
    (run_writes byte_objects count_up
        (list_tree (Value Bytes))
        map_root
        (set_object (2 ∷ []) (20 ∷ []) ∷ [])
        (new_simple_multi_store byte_objects (list_tree (Value Bytes)) map_root vacant_trunk)
      >>= (λ s. rabbit_get_obj count_up byte_objects (list_tree (Value Bytes)) map_root s (2 ∷ []))
      >>= (λ r. rabbit_delete count_up byte_objects (list_tree (Value Bytes)) map_root r.0 (2 ∷ []))
      >>= (λ s. simple_close byte_objects (list_tree (Value Bytes)) map_root s true))
    ≡ none
unfolding rabbit_get_obj get_obj_helper lend_found lend held_object simple_close simple_write_back
    scan_all_entries scan_entry is_none cached_value_to_bytes run_writes write rabbit_get rabbit_set
    set_helper find find_loop get_cached_value get_by_status cache_get_value status_of
    new_simple_multi_store trunk_get cache_get find_round stop_at load_cached_value last_of
    set_found set_cached_value bytes_eq get_value held_bytes cache_set_value must_get_cached_value
    must_hit put_entry decr_passby_num delete_found emptied force_bit get_found incr_passby_num
    init_of is_exists passed_less rabbit_delete rabbit_set_obj short_key value_bytes
    trunk_prepare_for_deletion trunk_prepare_for_update
close_after_lent_and_deleted = refl

abbrev object_value : CachedValue Bytes
object_value = record {
  passby_num = 258;
  key = 7 ∷ 8 ∷ [];
  obj = some (object (9 ∷ []));
  is_empty = false;
  is_deleted = false;
  is_dirty = true;
}

cached_value_back :
    (bz : Bytes) × (cached_value_to_bytes byte_objects object_value ≡ some bz)
    × (bytes_to_cached_value byte_objects bz ≡ some (reloaded byte_objects object_value))
cached_value_back =
    cached_value_to_bytes-bytes_to_cached_value byte_objects object_value (omega arith)
      (omega arith) (inr (object (9 ∷ []), refl))
