-- ===== src/EntryFile/File.antt =====
-- EntryFile of datatree/entryfile.go: records in a file. The file is read through `read_at`, which
-- takes the flag `withBuf`, an offset and a count of bytes.
use onvakv.Base.{
  ℕ, ◌+◌, ◌-◌, ◌*◌, ◌%◌, Bool, true, false, Option, none, some, List, [], ◌∷◌, length, take, drop,
  replicate, ltb, leb, ◌==◌, if◌then◌else◌, ◌>>=◌,
}
use onvakv.Base.Int.{ℤ}
use onvakv.ByteSlices.{bytes_eq}
use onvakv.Types.{Bytes, Entry}
use onvakv.EntryFile.Encode.{magic_bytes, max_entry_bytes}
use onvakv.EntryFile.Decode.{get_uint24, recover_magic_bytes, entry_from_bytes}

unfoldable pub get_padding_size : ℕ → ℕ
get_padding_size length = let rem = length % 8 in if rem == 0 then 0 else 8 - rem

unfoldable pub get_next_pos : ℕ → ℕ → ℕ
get_next_pos off length = let len = length + 12 in off + (len + get_padding_size len)

-- The buffers that `Append` hands to the file: the record is these, one behind the other.
unfoldable pub record_buffers : Bytes → Bytes → List Bytes
record_buffers b0 b1 =
    magic_bytes ∷ b0 ∷ b1 ∷ replicate (get_padding_size (length b0 + length b1)) 0 ∷ []

-- The count of serial numbers, and the length of what is before them.
unfoldable pub parse_length : Bytes → Option (ℕ × ℕ)
parse_length [] = none
parse_length (count ∷ rest) =
    let len = get_uint24 rest in if leb max_entry_bytes len then none else some (len, count)

-- `n := recoverMagicBytes(b)` and `b[n:length]`
unfoldable pub restored : ℕ → Bytes → Option Bytes
restored len b = do
  (b', n) ← recover_magic_bytes b
  if ltb len n then none else some (take (len - n) (drop n b'))

module _ (read_at : Bool → ℕ → ℕ → Option Bytes) where
  unfoldable pub read_magic_bytes_and_length : ℕ → Bool → Option (ℕ × ℕ)
  read_magic_bytes_and_length off with_buf = do
    buf ← read_at with_buf off 12
    if bytes_eq (take 8 buf) magic_bytes then parse_length (drop 8 buf) else none

  -- The bytes, the count of serial numbers among them, and where the next record begins.
  unfoldable pub read_entry_bytes : ℕ → Bool → Bool → Bool → Option (Bytes × ℕ × ℕ)
  read_entry_bytes off with_sn_list use_raw with_buf = do
    (len, count) ← read_magic_bytes_and_length off with_buf
    let next_pos = get_next_pos off (len + 8 * count)
    let len' = if with_sn_list then len + 8 * count else len
    let count' = if with_sn_list then count else 0
    b ← read_at with_buf off (12 + len')
    if use_raw
        then some (drop 8 b, count', next_pos)
        else (do bz ← restored len' (drop 12 b); some (bz, count', next_pos))

  unfoldable pub read_entry_and_sn_list : ℕ → Option (Entry × List ℤ × ℕ)
  read_entry_and_sn_list off = do
    (bz, count, next_pos) ← read_entry_bytes off true false true
    (e, sns) ← entry_from_bytes bz count
    some (e, sns, next_pos)

  unfoldable pub read_entry : ℕ → Option (Entry × ℕ)
  read_entry off = do
    (bz, count, next_pos) ← read_entry_bytes off false false false
    (e, sns) ← entry_from_bytes bz count
    some (e, next_pos)

  unfoldable pub read_entry_raw_bytes : ℕ → Option (Bytes × ℕ)
  read_entry_raw_bytes off = do
    (bz, count, next_pos) ← read_entry_bytes off false true true
    some (bz, next_pos)
