-- ===== src/EntryFile/Payload.antt =====
-- Reading the parts of a payload back.
use onvakv.Base.{
  ℕ, ◌^◌, ◌<◌, ◌≡◌, refl, sym, some, List, [], ◌∷◌, ◌++◌, length, take-append, drop-append,
  length-append, arith, All,
}
use onvakv.Base.Int.{ℤ, IsI64, to_u64, from_u64-to_u64, to_u64-lt}
use onvakv.Base.Words.{put_le, get_le, length-put_le, get_le-put_le_32, get_le-put_le_64}
use onvakv.Types.{Bytes, Entry}
use onvakv.EntryFile.Encode.{
  put_bytes, sn_list_to_bytes, entry_strings, entry_numbers, write_entry_payload,
}
use onvakv.EntryFile.Decode.{
  read_bytes, read_le, read_i64, read_string, read_sn_list, entry_from_bytes,
}

-- An entry whose parts fit their Go types, and whose strings have 32-bit lengths.
pub record IsEntry (e : Entry) : Type 0 where
  pub key_fits : length e.key < 2 ^ 32
  pub value_fits : length e.value < 2 ^ 32
  pub next_fits : length e.next_key < 2 ^ 32
  pub height_fits : IsI64 e.height
  pub last_fits : IsI64 e.last_height
  pub serial_fits : IsI64 e.serial_num

pub read_bytes-append :
    (s rest : Bytes) (n : ℕ) → n ≡ length s → read_bytes n (s ++ rest) ≡ some (s, rest)
unfolding read_bytes
read_bytes-append s rest n h =
    rw (take-append s rest n h, drop-append s rest n h) (ground (arith, length-append s rest))

pub read_le-put_le :
    (k n : ℕ) (rest : Bytes)
    → get_le (put_le k n) ≡ n
    → read_le k (put_le k n ++ rest) ≡ some (n, rest)
unfolding read_le
read_le-put_le k n rest h =
    rw (read_bytes-append (put_le k n) rest k (sym (length-put_le k n))) (cc h)

pub read_i64_lem :
    (x : ℤ) (rest : Bytes) → IsI64 x → read_i64 (put_le 8 (to_u64 x) ++ rest) ≡ some (x, rest)
unfolding read_i64
read_i64_lem x rest h =
    rw (read_le-put_le 8 (to_u64 x) rest (get_le-put_le_64 (to_u64 x) (to_u64-lt x)))
      (cc (from_u64-to_u64 x h))

pub read_string_lem :
    (s rest : Bytes) → length s < 2 ^ 32 → read_string (put_bytes s rest) ≡ some (s, rest)
unfolding read_string
read_string_lem s rest h =
    rw (read_le-put_le 4 (length s) (s ++ rest) (get_le-put_le_32 (length s) h))
      (read_bytes-append s rest (length s) refl)

pub read_sn_list_lem :
    (sns : List ℤ) → All IsI64 sns → read_sn_list (length sns) (sn_list_to_bytes sns) ≡ some sns
unfolding read_sn_list sn_list_to_bytes
read_sn_list_lem [] h = refl
read_sn_list_lem (sn ∷ sns) h =
    rw (read_i64_lem sn (sn_list_to_bytes sns) h.0) (rw (read_sn_list_lem sns h.1))

-- Reading a payload gives the entry, and as many of the serial numbers as are asked for.
pub read_payload :
    (e : Entry) (sns : List ℤ) (n : ℕ) {out : List ℤ}
    → IsEntry e
    → read_sn_list n (sn_list_to_bytes sns) ≡ some out
    → entry_from_bytes (write_entry_payload e sns) n ≡ some (e, out)
unfolding entry_from_bytes write_entry_payload entry_strings entry_numbers
read_payload e sns n v h = rw (
  read_string_lem e.key _ v.key_fits,
  read_string_lem e.value _ v.value_fits,
  read_string_lem e.next_key _ v.next_fits,
  read_i64_lem e.height _ v.height_fits,
  read_i64_lem e.last_height _ v.last_fits,
  read_i64_lem e.serial_num _ v.serial_fits,
  h,
)
