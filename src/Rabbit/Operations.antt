-- ===== src/Rabbit/Operations.antt =====
-- RabbitStore of store/rabbit/rabbit.go. The hash function is a parameter, and a panic is `none`.
use onvakv.Base.{
  ℕ, zero, suc, ◌+◌, ◌-◌, ◌%◌, ◌^◌, Bool, true, false, ◌&&◌, Option, none, some, List, [], ◌∷◌,
  take, ◌==◌, if◌then◌else◌, ◌>>=◌,
}
use onvakv.ByteSlices.{bytes_eq}
use onvakv.Types.{Bytes}
use onvakv.Store.Cache.{Value, Serializable, BTree}
use onvakv.Store.Layers.{RootStore}
use onvakv.Rabbit.Cached.{Held, raw, object, CachedValue, get_value}
use onvakv.Rabbit.Multi.{
  SimpleMultiStore, cache_set_value, get_cached_value, must_get_cached_value, set_cached_value,
}

abbrev pub max_find_depth : ℕ
max_find_depth = 100

-- NotFount, EmptySlot and Exists
pub data Status : Type 0 where
  not_found empty_slot exists : Status

unfoldable pub is_exists : Status → Bool
is_exists exists = true
is_exists _ = false

-- `k[0] = k[0] | 0x1`
unfoldable pub force_bit : Bytes → Bytes
force_bit [] = []
force_bit (b ∷ bs) = (if b % 2 == 0 then b + 1 else b) ∷ bs

-- The short key of a hash, of KeySize bytes.
unfoldable pub short_key : Bytes → Bytes
short_key hash = force_bit (take 8 hash)

-- `path[len(path)-1]` and `path[:len(path)-1]`
unfoldable pub last_of : List Bytes → Option Bytes
last_of [] = none
last_of (k ∷ []) = some k
last_of (k ∷ j ∷ ks) = last_of (j ∷ ks)

unfoldable pub init_of : List Bytes → List Bytes
init_of [] = []
init_of (k ∷ []) = []
init_of (k ∷ j ∷ ks) = k ∷ init_of (j ∷ ks)

module _ (sha256 : Bytes → Bytes) (S : Serializable) (B : BTree (Value S.Obj))
    (R : RootStore S) where
  -- What a round of find answers, if it ends the loop.
  unfoldable pub stop_at : Bytes → Bool → Option (CachedValue S.Obj) → Option Status
  stop_at key early_exit none = some not_found
  stop_at key early_exit (some cv) =
      if bytes_eq cv.key key
      then some (if cv.is_empty then empty_slot else exists)
      else if early_exit && cv.passby_num == 0
      then some not_found
      else none

  -- The store after a find, which has loaded short keys, with the results.
  pub record Found : Type 0 where
    pub store : SimpleMultiStore S B R
    pub cv : Option (CachedValue S.Obj)
    pub path : List Bytes
    pub status : Status

  unfoldable pub find_round :
      SimpleMultiStore S B R
      → Option (CachedValue S.Obj)
      → Bytes
      → Option Status
      → Option Found
      → Option Found
  find_round sms cv k (some status) rest =
      some (record { store = sms; cv = cv; path = k ∷ []; status = status })
  find_round sms cv k none rest = do found ← rest; some (record found { path = k ∷ found.path })

  -- The loop of find: `hash` is the hash of the next round.
  unfoldable pub find_loop :
      (rounds : ℕ) → SimpleMultiStore S B R → Bytes → Bool → Bytes → Option Found
  find_loop zero sms key early_exit hash = none
  find_loop (suc rounds) sms key early_exit hash = do
    (sms', cv) ← get_cached_value S B R sms (short_key hash)
    let rest = find_loop rounds sms' key early_exit (sha256 hash)
    find_round sms' cv (short_key hash) (stop_at key early_exit cv) rest

  unfoldable pub find : SimpleMultiStore S B R → Bytes → Bool → Option Found
  find sms key early_exit = find_loop max_find_depth sms key early_exit (sha256 key)

  unfoldable pub rabbit_has :
      SimpleMultiStore S B R → Bytes → Option (SimpleMultiStore S B R × Bool)
  rabbit_has sms key = do found ← find sms key true; some (found.store, is_exists found.status)

  unfoldable pub get_short_key_path :
      SimpleMultiStore S B R → Bytes → Option (SimpleMultiStore S B R × List Bytes × Bool)
  get_short_key_path sms key = do
    found ← find sms key true
    some (found.store, found.path, is_exists found.status)

  -- `cv.obj` as bytes. A nil pointer or a nil object panics.
  unfoldable pub value_bytes : Option (CachedValue S.Obj) → Option Bytes
  value_bytes none = none
  value_bytes (some cv) = get_value S cv.obj

  unfoldable pub get_found : Found → Option (SimpleMultiStore S B R × Option Bytes)
  get_found found =
      if is_exists found.status
      then (do bz ← value_bytes found.cv; some (found.store, some bz))
      else some (found.store, none)

  unfoldable pub rabbit_get :
      SimpleMultiStore S B R → Bytes → Option (SimpleMultiStore S B R × Option Bytes)
  rabbit_get sms key = do found ← find sms key true; get_found found

  unfoldable pub held_object : Held S.Obj → S.Obj
  held_object (raw bz) = S.from_bytes bz
  held_object (object o) = o

  -- The store where the object of the value that was found is lent out.
  unfoldable pub lend :
      Bool → SimpleMultiStore S B R → CachedValue S.Obj → Bytes → SimpleMultiStore S B R
  lend readonly sms cv k =
      if readonly
      then sms
      else record sms { cache = cache_set_value S sms.cache k (some (record cv { obj = none })) }

  unfoldable pub lend_found : Bool → Found → Option (SimpleMultiStore S B R × Option S.Obj)
  lend_found readonly found =
      if is_exists found.status
      then (do
        cv ← found.cv
        h ← cv.obj
        k ← last_of found.path
        some (lend readonly found.store cv k, some (held_object h)))
      else some (found.store, none)

  unfoldable pub get_obj_helper :
      SimpleMultiStore S B R → Bool → Bytes → Option (SimpleMultiStore S B R × Option S.Obj)
  get_obj_helper sms readonly key = do found ← find sms key true; lend_found readonly found

  unfoldable pub rabbit_get_obj :
      SimpleMultiStore S B R → Bytes → Option (SimpleMultiStore S B R × Option S.Obj)
  rabbit_get_obj sms key = get_obj_helper sms false key

  unfoldable pub rabbit_get_read_only_obj :
      SimpleMultiStore S B R → Bytes → Option (SimpleMultiStore S B R × Option S.Obj)
  rabbit_get_read_only_obj sms key = get_obj_helper sms true key

  -- The loop of setHelper that increments passbyNum, a uint64.
  unfoldable pub incr_passby_num :
      List Bytes → SimpleMultiStore S B R → Option (SimpleMultiStore S B R)
  incr_passby_num [] sms = some sms
  incr_passby_num (k ∷ ks) sms = do
    cv ← must_get_cached_value S B R sms k
    sms' ← set_cached_value S B R sms k (record cv { passby_num = (cv.passby_num + 1) % 2 ^ 64 })
    incr_passby_num ks sms'

  -- setHelper behind find, where `k` is the last short key of the path.
  unfoldable pub set_found :
      Status
      → Bytes
      → Held S.Obj
      → Bytes
      → List Bytes
      → SimpleMultiStore S B R
      → Option (SimpleMultiStore S B R)
  set_found exists key obj k passed sms = do
    cv ← must_get_cached_value S B R sms k
    set_cached_value S B R sms k (record cv { obj = some obj })
  set_found empty_slot key obj k passed sms = do
    cv ← must_get_cached_value S B R sms k
    sms' ← set_cached_value S B R sms k (record cv { key = key; obj = some obj; is_empty = false })
    incr_passby_num passed sms'
  set_found not_found key obj k passed sms = do
    sms' ← set_cached_value S B R sms k (record {
      passby_num = 0;
      key = key;
      obj = some obj;
      is_empty = false;
      is_deleted = false;
      is_dirty = false;
    })
    incr_passby_num passed sms'

  unfoldable pub set_helper :
      SimpleMultiStore S B R → Bytes → Held S.Obj → Option (SimpleMultiStore S B R)
  set_helper sms key obj = do
    found ← find sms key false
    k ← last_of found.path
    set_found found.status key obj k (init_of found.path) found.store

  unfoldable pub rabbit_set :
      SimpleMultiStore S B R → Bytes → Bytes → Option (SimpleMultiStore S B R)
  rabbit_set sms key bz = set_helper sms key (raw bz)

  unfoldable pub rabbit_set_obj :
      SimpleMultiStore S B R → Bytes → S.Obj → Option (SimpleMultiStore S B R)
  rabbit_set_obj sms key o = set_helper sms key (object o)

  -- The loop of Delete that decrements passbyNum, a uint64.
  unfoldable pub passed_less : CachedValue S.Obj → CachedValue S.Obj
  passed_less cv =
      let n = (cv.passby_num + (2 ^ 64 - 1)) % 2 ^ 64 in
      if n == 0 && cv.is_empty
      then record cv { passby_num = n; is_deleted = true }
      else record cv { passby_num = n }

  unfoldable pub decr_passby_num :
      List Bytes → SimpleMultiStore S B R → Option (SimpleMultiStore S B R)
  decr_passby_num [] sms = some sms
  decr_passby_num (k ∷ ks) sms = do
    cv ← must_get_cached_value S B R sms k
    sms' ← set_cached_value S B R sms k (passed_less cv)
    decr_passby_num ks sms'

  -- The deletion itself: a slot that others pass by is only marked.
  unfoldable pub emptied : CachedValue S.Obj → CachedValue S.Obj
  emptied cv =
      if cv.passby_num == 0 then record cv { is_deleted = true } else record cv { is_empty = true }

  unfoldable pub delete_found :
      Bytes → List Bytes → SimpleMultiStore S B R → Option (SimpleMultiStore S B R)
  delete_found k passed sms = do
    cv ← must_get_cached_value S B R sms k
    sms' ← set_cached_value S B R sms k (emptied cv)
    decr_passby_num passed sms'

  unfoldable pub rabbit_delete : SimpleMultiStore S B R → Bytes → Option (SimpleMultiStore S B R)
  rabbit_delete sms key = do
    found ← find sms key true
    k ← last_of found.path
    (if is_exists found.status
        then delete_found k (init_of found.path) found.store
        else some found.store)
