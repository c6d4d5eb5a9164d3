-- ===== src/EntryFile/Encode.antt =====
-- The writing half of datatree/entryfile.go: EntryToBytes and what it calls.
use onvakv.Base.{
  ℕ, zero, suc, ◌+◌, ◌-◌, ◌*◌, ◌^◌, ◌%◌, Bool, true, false, ◌&&◌, Option, none, some, List, [], ◌∷◌,
  ◌++◌, length, take, drop, replicate, ltb, ◌==◌, if◌then◌else◌,
}
use onvakv.Base.Int.{ℤ, negsuc, to_u64}
use onvakv.Base.Words.{put_le}
use onvakv.Types.{Bytes, Entry}
use mathlib.Core.Option

abbrev pub max_entry_bytes : ℕ
max_entry_bytes = 2 ^ 24 - 1

abbrev pub magic_bytes : Bytes
magic_bytes = 255 ∷ 254 ∷ 253 ∷ 252 ∷ 252 ∷ 253 ∷ 254 ∷ 255 ∷ []

abbrev pub dummy : Bytes
dummy = b'd' ∷ b'u' ∷ b'm' ∷ b'm' ∷ b'y' ∷ []

unfoldable pub dummy_entry : ℤ → Entry
dummy_entry sn = record {
  key = dummy;
  value = dummy;
  next_key = dummy;
  height = negsuc 1;
  last_height = negsuc 1;
  serial_num = sn;
}

unfoldable pub null_entry : Entry
null_entry = record {
  key = [];
  value = [];
  next_key = [];
  height = negsuc 0;
  last_height = negsuc 0;
  serial_num = negsuc 0;
}

unfoldable pub put_uint24 : ℕ → Bytes
put_uint24 n = put_le 3 n

unfoldable pub sn_list_to_bytes : List ℤ → Bytes
sn_list_to_bytes [] = []
sn_list_to_bytes (sn ∷ sns) = put_le 8 (to_u64 sn) ++ sn_list_to_bytes sns

-- Every part is written where the one before it ends.
abbrev pub put_bytes : Bytes → Bytes → Bytes
put_bytes s rest = put_le 4 (length s) ++ (s ++ rest)

-- The three strings, in front of the three numbers.
unfoldable pub entry_strings : Entry → Bytes → Bytes
entry_strings e rest = put_bytes e.key (put_bytes e.value (put_bytes e.next_key rest))

unfoldable pub entry_numbers : Entry → List ℤ → Bytes
entry_numbers e sns =
    put_le 8 (to_u64 e.height)
    ++ (put_le 8 (to_u64 e.last_height) ++ (put_le 8 (to_u64 e.serial_num) ++ sn_list_to_bytes sns))

unfoldable pub write_entry_payload : Entry → List ℤ → Bytes
write_entry_payload e sns = entry_strings e (entry_numbers e sns)

-- bytes.HasPrefix and bytes.Index; `none` is the answer -1.
unfoldable pub has_prefix : Bytes → Bytes → Bool
has_prefix s [] = true
has_prefix [] (c ∷ cs) = false
has_prefix (b ∷ bs) (c ∷ cs) = b == c && has_prefix bs cs

unfoldable pub index : Bytes → Bytes → Option ℕ
index [] sep = if has_prefix [] sep then some 0 else none
index (b ∷ bs) sep =
    let rest = index bs sep in if has_prefix (b ∷ bs) sep then some 0 else Option.map suc rest

-- The loop of getAllPos, with `start` in `s`. The fuel is more than the rounds that are left.
unfoldable pub get_all_pos_loop : ℕ → Bytes → Bytes → ℕ → List ℕ
get_all_pos_loop zero s sep start = []
get_all_pos_loop (suc fuel) s sep start =
    if ltb (start + length sep) (length s)
    then elim (index (drop start s) sep) [
      | none ↦ []
      | some p ↦ (p + start) ∷ get_all_pos_loop fuel s sep (start + p + length sep)
    ]
    else []

unfoldable pub get_all_pos : Bytes → Bytes → List ℕ
get_all_pos s sep = get_all_pos_loop (suc (length s)) s sep 0

-- `copy(b[p:p+len(new)], new)` at an offset where it fits.
unfoldable pub overwrite : ℕ → Bytes → Bytes → Bytes
overwrite zero [] b = b
overwrite zero (c ∷ cs) [] = []
overwrite zero (c ∷ cs) (x ∷ b) = c ∷ overwrite zero cs b
overwrite (suc p) new [] = []
overwrite (suc p) new (x ∷ b) = x ∷ overwrite p new b

-- Over-write the occurrences of the magic bytes with zeros.
unfoldable pub zero_out : List ℕ → Bytes → Bytes
zero_out [] b = b
zero_out (p ∷ ps) b = zero_out ps (overwrite p (replicate 8 0) b)

unfoldable pub put_pos_list : ℕ → List ℕ → Bytes
put_pos_list bytes_added [] = []
put_pos_list bytes_added (p ∷ ps) = put_le 4 (p + bytes_added) ++ put_pos_list bytes_added ps

abbrev pub no_pos : ℕ
no_pos = 2 ^ 32 - 1

-- b[1:4] leaves out the serial numbers and the first four bytes. The code returns earlier when nothing
-- is found: then there is no place to list and nothing to zero, and the bytes are the same.
unfoldable pub entry_to_bytes : Entry → List ℤ → Bytes
entry_to_bytes e sns =
    let payload = write_entry_payload e sns in
    let size = length payload in
    let len = 8 + size in
    let stop = size - length sns * 8 - 3 * 8 in
    let found = get_all_pos (take stop payload) magic_bytes in
    let added = 4 * length found in
    ((length sns % 256) ∷ put_uint24 (len + added - 4 - length sns * 8))
    ++ (put_pos_list added found ++ (put_le 4 no_pos ++ zero_out found payload))
