-- ===== src/EntryFile/Raw.antt =====
-- The accessors of raw entry bytes, on what ReadEntryRawBytes returns.
use Prim.Native.Nat.{bit_and, digits, min, bit_and-bitwise}
use onvakv.Base.{
  ℕ, zero, suc, ◌+◌, ◌*◌, ◌/◌, ◌%◌, ◌^◌, ◌<◌, ◌≡◌, ◌≢◌, refl, sym, ap, ◌∙◌, true, false, some, List,
  [], ◌∷◌, ◌++◌, append-nil, length, drop, length-append, arith, ◌>>=◌, bind-eq-some, length-drop,
}
use onvakv.Base.Words.{put_le, length-put_le}
use onvakv.Types.{Bytes, Entry}
use onvakv.EntryFile.Encode.{
  put_uint24, sn_list_to_bytes, write_entry_payload, put_pos_list, entry_strings, entry_numbers,
  put_bytes, zero_out,
}
use onvakv.EntryFile.Decode.{
  no_magic_mark, extract_key_from_raw_bytes, entry_from_raw_bytes, recover_magic_bytes, read_string,
  entry_from_bytes,
}
use onvakv.EntryFile.Payload.{IsEntry, read_string_lem, read_payload}
use onvakv.EntryFile.Takes.{entry_from_bytes_takes}
use onvakv.EntryFile.Positions.{drop-drop}
use onvakv.EntryFile.Recover.{marked}
use onvakv.EntryFile.Split.{places, body, length-body, places-Places, length-write_entry_payload}
use onvakv.EntryFile.RoundTrip.{IsWritable, recover_body, drop-marked, no_sns}

-- `&` with a zero byte, from the digits that the native operation stands for.
and_zero_fuel : (n a : ℕ) → digits (λ b. zero) min n a 0 ≡ 0
and_zero_fuel zero a = refl
and_zero_fuel (suc n) zero = refl
and_zero_fuel (suc n) (suc a) = omega (arith, and_zero_fuel n (suc a / 2))

bit_and-zero : (a : ℕ) → bit_and a 0 ≡ 0
bit_and-zero zero = refl
bit_and-zero (suc a) = bit_and-bitwise (suc a) 0 ∙ and_zero_fuel (suc a) (suc a)

-- The mark that no magic bytes are to be recovered stands exactly where none were found.
mark_plain : (added : ℕ) (z : Bytes) → no_magic_mark (marked added [] z) ≡ some true
unfolding no_magic_mark put_pos_list put_le
mark_plain added z = refl

mark_places :
    (added p : ℕ) (ps : List ℕ) (z : Bytes)
    → p + added < 2 ^ 24
    → no_magic_mark (marked added (p ∷ ps) z) ≡ some false
unfolding no_magic_mark put_pos_list put_le
mark_places added p ps z h =
    let top : (p + added) / 256 / 256 / 256 % 256 ≡ 0 = omega arith in rw (top, bit_and-zero _)

-- The bytes of an entry as ReadEntryRawBytes returns them, `count` being the first of them.
abbrev pub raw_bytes : ℕ → Entry → Bytes
raw_bytes count e = (count ∷ put_uint24 (length (body e))) ++ body e

drop-marked_more :
    (added : ℕ) (ps : List ℕ) (z : Bytes)
    → drop (4 * length ps + 4 + 4) (marked added ps z) ≡ drop 4 z
drop-marked_more added ps z =
    let e : 4 * length ps + 4 + 4 ≡ 4 + (4 * length ps + 4) = omega arith in
    rw (e, ← drop-drop 4 (4 * length ps + 4) (marked added ps z), drop-marked added ps z)

length-entry_strings :
    (e : Entry)
    → length (entry_strings e []) ≡ length e.key + length e.value + length e.next_key + 12
unfolding entry_strings
length-entry_strings e = omega (
  arith,
  length-append (put_le 4 (length e.key)) (e.key ++ put_bytes e.value (put_bytes e.next_key [])),
  length-append e.key (put_bytes e.value (put_bytes e.next_key [])),
  length-append (put_le 4 (length e.value)) (e.value ++ put_bytes e.next_key []),
  length-append e.value (put_bytes e.next_key []),
  length-append (put_le 4 (length e.next_key)) (e.next_key ++ []),
  length-append e.next_key [],
  length-put_le 4 (length e.key),
  length-put_le 4 (length e.value),
  length-put_le 4 (length e.next_key),
)

read_key :
    (e : Entry)
    → IsEntry e
    → read_string (write_entry_payload e [])
      ≡ some (e.key, put_bytes e.value (put_bytes e.next_key (entry_numbers e [])))
unfolding write_entry_payload entry_strings
read_key e v = read_string_lem e.key _ v.key_fits

module _ (e : Entry) (count : ℕ) (v : IsEntry e) (w : IsWritable e []) where
  -- The bytes behind the length, with no place and with places.
  raw_tail : drop 4 (raw_bytes count e) ≡ body e
  unfolding put_uint24 put_le
  raw_tail = refl

  recovered :
      recover_magic_bytes (body e)
      ≡ some (
        marked (4 * length (places e)) (places e) (write_entry_payload e []),
        4 * length (places e) + 4,
      )
  unfolding sn_list_to_bytes
  recovered = ap recover_magic_bytes (sym (append-nil (body e))) ∙ recover_body e [] w

  body_as :
      (ps : List ℕ)
      → places e ≡ ps
      → body e ≡ marked (4 * length ps) ps (zero_out ps (write_entry_payload e []))
  unfolding body
  body_as ps h = rw h

  mark_body_plain : places e ≡ [] → no_magic_mark (body e) ≡ some true
  mark_body_plain h = ap no_magic_mark (body_as [] h) ∙ mark_plain _ _

  mark_body-places : (p : ℕ) (ps : List ℕ) → places e ≡ p ∷ ps → no_magic_mark (body e) ≡ some false
  mark_body-places p ps h =
      let inside = rw h at (places-Places e []) in
      ap no_magic_mark (body_as (p ∷ ps) h)
      ∙ mark_places _ p ps _ (
          omega
            (arith, inside.1, w.short, length-body e, length-write_entry_payload e [], ap length h))

  body_plain : places e ≡ [] → drop 4 (body e) ≡ write_entry_payload e []
  unfolding put_pos_list zero_out put_le
  body_plain h = ap (drop 4) (body_as [] h)

  key_cases :
      (ps : List ℕ) → places e ≡ ps → extract_key_from_raw_bytes (raw_bytes count e) ≡ some e.key
  unfolding extract_key_from_raw_bytes
  key_cases [] h = rw (raw_tail, mark_body_plain h, body_plain h) (rw (read_key e v))
  key_cases (p ∷ ps) h =
      rw (raw_tail, mark_body-places p ps h, recovered, drop-marked _ (places e) _)
        (rw (read_key e v))

  -- The key that is extracted from the raw bytes of an entry is the entry's, whether or not the
  -- magic bytes occur in its strings.
  pub extract_key_from_raw_bytes-raw_bytes :
      extract_key_from_raw_bytes (raw_bytes count e) ≡ some e.key
  extract_key_from_raw_bytes-raw_bytes = key_cases (places e) refl

  -- Without an occurrence of the magic bytes EntryFromRawBytes returns the entry.
  pub entry_from_raw_bytes_plain : places e ≡ [] → entry_from_raw_bytes (raw_bytes count e) ≡ some e
  unfolding entry_from_raw_bytes
  entry_from_raw_bytes_plain h =
      rw (raw_tail, mark_body_plain h, body_plain h, read_payload e [] 0 {out = []} v no_sns)

  entry_from_raw_bytes-places :
      (p : ℕ) (ps : List ℕ)
      → places e ≡ p ∷ ps
      → entry_from_raw_bytes (raw_bytes count e)
        ≡ (do (x, sns) ← entry_from_bytes (drop 4 (write_entry_payload e [])) 0; some x)
  unfolding entry_from_raw_bytes
  entry_from_raw_bytes-places p ps h =
      rw (raw_tail, mark_body-places p ps h, recovered)
        (ap (λ t. do (x, sns) ← entry_from_bytes t 0; some x)
          (drop-marked_more _ (places e) (write_entry_payload e [])))

  -- EntryFromRawBytes skips four bytes too many behind the restored list of places, so it never
  -- returns an entry whose strings hold the magic bytes.
  pub entry_from_raw_bytes-ne : places e ≢ [] → entry_from_raw_bytes (raw_bytes count e) ≢ some e
  entry_from_raw_bytes-ne some_place h = cases (places e) refl
    where
      too_short : (p : ℕ) (ps : List ℕ) → places e ≡ p ∷ ps → ⊥
      too_short p ps eq =
          let ((x, sns), read, same) =
            bind-eq-some (entry_from_bytes (drop 4 (write_entry_payload e [])) 0) _
              (sym (entry_from_raw_bytes-places p ps eq) ∙ h) in
          ground (
            arith,
            same,
            entry_from_bytes_takes (drop 4 (write_entry_payload e [])) 0 x sns read,
            length-drop 4 (write_entry_payload e []),
            length-write_entry_payload e [],
            length-entry_strings e,
          )

      cases : (ps : List ℕ) → places e ≡ ps → ⊥
      cases [] eq = some_place eq
      cases (p ∷ ps) eq = too_short p ps eq
