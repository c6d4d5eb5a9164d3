-- ===== src/Rabbit/Cached.antt =====
-- CachedValue of store/rabbit/simple_cache.go, and its bytes.
use onvakv.Base.{
  ℕ, ◌%◌, ◌^◌, Bool, true, false, Option, none, some, [], ◌∷◌, ◌++◌, length, take, drop, ltb, ◌==◌,
  if◌then◌else◌, ◌>>=◌,
}
use onvakv.Base.Words.{put_le, get_le}
use onvakv.Types.{Bytes}
use onvakv.Store.Cache.{Serializable}

-- What the field obj of type interface{} holds when it is not nil.
pub data Held (O : Type 0) : Type 0 where
  raw : Bytes → Held O
  object : O → Held O

pub record CachedValue (O : Type 0) : Type 0 where
  pub passby_num : ℕ
  pub key : Bytes
  pub obj : Option (Held O)
  pub is_empty : Bool
  pub is_deleted : Bool
  pub is_dirty : Bool

-- KeyLenStart and KeyStart
abbrev pub key_len_start : ℕ
key_len_start = 9

abbrev pub key_start : ℕ
key_start = 13

module _ (S : Serializable) where
  unfoldable pub held_bytes : Held S.Obj → Bytes
  held_bytes (raw b) = b
  held_bytes (object o) = S.to_bytes o

  -- GetValue: the type assertion on a nil interface panics.
  unfoldable pub get_value : Option (Held S.Obj) → Option Bytes
  get_value none = none
  get_value (some h) = some (held_bytes h)

  -- The three fields in front of the value.
  unfoldable pub value_header : ℕ → CachedValue S.Obj → Bytes
  value_header marker v =
      marker ∷ put_le 8 v.passby_num ++ put_le 4 (length v.key % 2 ^ 32) ++ v.key

  -- ToBytes
  unfoldable pub cached_value_to_bytes : CachedValue S.Obj → Option Bytes
  cached_value_to_bytes v =
      if v.is_empty
      then some (value_header 1 v)
      else (do value ← get_value v.obj; some (value_header 0 v ++ value))

  unfoldable pub value_with_marker : ℕ → ℕ → Bytes → Bytes → CachedValue S.Obj
  value_with_marker marker passby_num key value =
      if marker == 0
      then record {
        passby_num = passby_num;
        key = key;
        obj = some (raw value);
        is_empty = false;
        is_deleted = false;
        is_dirty = false;
      }
      else record {
        passby_num = passby_num;
        key = key;
        obj = none;
        is_empty = true;
        is_deleted = false;
        is_dirty = false;
      }

  -- BytesToCachedValue behind the first check of the length.
  unfoldable pub parse_cached_value : Bytes → Option (CachedValue S.Obj)
  parse_cached_value [] = none
  parse_cached_value (marker ∷ rest) =
      let key_len = get_le (take 4 (drop 8 rest)) in
      let tail = drop 12 rest in
      if ltb (length tail) key_len
      then none
      else some
          (value_with_marker marker (get_le (take 8 rest)) (take key_len tail) (drop key_len tail))

  -- BytesToCachedValue
  unfoldable pub bytes_to_cached_value : Bytes → Option (CachedValue S.Obj)
  bytes_to_cached_value buf = if ltb (length buf) key_start then none else parse_cached_value buf
