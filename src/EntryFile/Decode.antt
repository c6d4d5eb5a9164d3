-- ===== src/EntryFile/Decode.antt =====
-- The reading half of datatree/entryfile.go: EntryFromBytes, recoverMagicBytes and the accessors of
-- raw entry bytes.
use Prim.Native.Nat.{bit_and}
use onvakv.Base.{
  ℕ, zero, suc, ◌+◌, ◌-◌, Bool, Option, none, some, List, [], ◌∷◌, ◌++◌, length, take, drop, ltb,
  leb, ◌==◌, if◌then◌else◌, ◌>>=◌,
}
use onvakv.Base.Int.{ℤ, to_u64, from_u64}
use onvakv.Base.Words.{put_le, get_le}
use onvakv.Types.{Bytes, Entry}
use onvakv.EntryFile.Encode.{magic_bytes, max_entry_bytes, no_pos, overwrite}

-- The three bytes are disjoint bit ranges, so their union is their sum.
unfoldable pub get_uint24 : Bytes → ℕ
get_uint24 b = get_le (take 3 b)

-- `b[:n]` and `b[n:]`
unfoldable pub read_bytes : ℕ → Bytes → Option (Bytes × Bytes)
read_bytes n b = if ltb (length b) n then none else some (take n b, drop n b)

unfoldable pub read_le : ℕ → Bytes → Option (ℕ × Bytes)
read_le k b = do (x, rest) ← read_bytes k b; some (get_le x, rest)

unfoldable pub read_i64 : Bytes → Option (ℤ × Bytes)
read_i64 b = do (w, rest) ← read_le 8 b; some (from_u64 w, rest)

-- A length, and as many bytes.
unfoldable pub read_string : Bytes → Option (Bytes × Bytes)
read_string b = do (len, rest) ← read_le 4 b; read_bytes len rest

unfoldable pub read_sn_list : ℕ → Bytes → Option (List ℤ)
read_sn_list zero b = some []
read_sn_list (suc n) b = do (sn, rest) ← read_i64 b; sns ← read_sn_list n rest; some (sn ∷ sns)

-- With no serial numbers the second result is nil, which is the empty list here.
unfoldable pub entry_from_bytes : Bytes → ℕ → Option (Entry × List ℤ)
entry_from_bytes b number_of_sn = do
  (k, b) ← read_string b
  (v, b) ← read_string b
  (nk, b) ← read_string b
  (h, b) ← read_i64 b
  (lh, b) ← read_i64 b
  (sn, b) ← read_i64 b
  sns ← read_sn_list number_of_sn b
  some (
    record { key = k; value = v; next_key = nk; height = h; last_height = lh; serial_num = sn },
    sns,
  )

-- The loop of recoverMagicBytes, over `b` and `n`; `b` has no capacity behind its length. It returns the changed `b` beside `n`. Each round
-- adds 4 to `n`, so the length of `b` is fuel enough.
unfoldable pub recover_loop : ℕ → Bytes → ℕ → Option (Bytes × ℕ)
recover_loop zero b n = none
recover_loop (suc fuel) b n =
    let p = get_le (take 4 (drop n b)) in
    let rest = recover_loop fuel (overwrite (p + 4) magic_bytes b) (n + 4) in
    if ltb (n + 4) (length b)
    then (if p == no_pos
        then some (b, n + 4)
        else if leb max_entry_bytes p
        then none
        else if ltb (length b) (p + 12)
        then none
        else rest)
    else some (b, n)

unfoldable pub recover_magic_bytes : Bytes → Option (Bytes × ℕ)
recover_magic_bytes b = recover_loop (suc (length b)) b 0

-- `(bb[0]&bb[1]&bb[2]&bb[3]) == 0xFF`
unfoldable pub no_magic_mark : Bytes → Option Bool
no_magic_mark (a ∷ b ∷ c ∷ d ∷ rest) = some (bit_and (bit_and (bit_and a b) c) d == 0xff)
no_magic_mark _ = none

unfoldable pub extract_key_from_raw_bytes : Bytes → Option Bytes
extract_key_from_raw_bytes b = do
  let bb = drop 4 b
  plain ← no_magic_mark bb
  if plain
      then (do (k, rest) ← read_string (drop 4 bb); some k)
      else (do (bb', n) ← recover_magic_bytes bb; (k, rest) ← read_string (drop n bb'); some k)

unfoldable pub entry_from_raw_bytes : Bytes → Option Entry
entry_from_raw_bytes b = do
  let bb = drop 4 b
  plain ← no_magic_mark bb
  if plain then (do (e, sns) ← entry_from_bytes (drop 4 bb) 0; some e) else (do
    (bb', n) ← recover_magic_bytes bb
    (e, sns) ← entry_from_bytes (drop (n + 4) bb') 0
    some e)

-- The last eight bytes.
unfoldable pub extract_serial_num : Bytes → Option ℤ
extract_serial_num b =
    if ltb (length b) 8 then none else some (from_u64 (get_le (drop (length b - 8) b)))

unfoldable pub update_serial_num : Bytes → ℤ → Option Bytes
update_serial_num b sn =
    if ltb (length b) 8 then none else some (take (length b - 8) b ++ put_le 8 (to_u64 sn))
