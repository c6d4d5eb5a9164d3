-- ===== src/EntryFile/Reencode.antt =====
-- Moving an entry to the end of the file: its raw bytes get a new serial number and new deactivated
-- serial numbers, as EndWrite and AppendEntryRawBytes do.
use onvakv.Base.{
  ℕ, ◌+◌, ◌-◌, ◌*◌, ◌%◌, ◌≡◌, refl, sym, ap, ◌∙◌, some, List, [], ◌∷◌, ◌++◌, append_assoc,
  append-nil, length, take, take-append, drop-append, length-append, arith, take_all, ltb, false,
}
use onvakv.Base.Int.{ℤ, IsI64, to_u64, from_u64-to_u64, to_u64-lt}
use onvakv.Base.Words.{put_le, length-put_le, get_le-put_le_64}
use onvakv.Types.{Bytes, Entry}
use onvakv.EntryFile.Encode.{
  put_uint24, sn_list_to_bytes, entry_strings, entry_numbers, write_entry_payload, entry_to_bytes,
  zero_out,
}
use onvakv.EntryFile.Decode.{extract_serial_num, update_serial_num}
use onvakv.EntryFile.Overwrite.{Places}
use onvakv.EntryFile.Positions.{get_all_pos-Places}
use onvakv.EntryFile.Recover.{marked, Places-fit}
use onvakv.EntryFile.Split.{
  places, body, length-body, zero_out-append, entry_to_bytes-split, write_entry_payload-strings,
}
use onvakv.EntryFile.Raw.{raw_bytes}

strings_Places : (e : Entry) → Places (entry_strings e []) 0 (places e)
unfolding places
strings_Places e =
    rw (take_all (entry_strings e []) (length (entry_strings e [])) refl) at
      (get_all_pos-Places (length (entry_strings e [])) (entry_strings e []))

-- Everything in front of the serial number.
front : ℕ → Entry → Bytes
front count e =
    (count ∷ put_uint24 (4 * length (places e) + 28 + length (entry_strings e [])))
    ++ (marked (4 * length (places e)) (places e) (zero_out (places e) (entry_strings e []))
        ++ (put_le 8 (to_u64 e.height) ++ put_le 8 (to_u64 e.last_height)))

zeroed_payload :
    (e : Entry)
    → zero_out (places e) (write_entry_payload e [])
      ≡ zero_out (places e) (entry_strings e []) ++ entry_numbers e []
zeroed_payload e =
    ap (zero_out (places e)) (write_entry_payload-strings e [])
    ∙ zero_out-append (places e) (entry_strings e []) (entry_numbers e []) _ refl
        (Places-fit (entry_strings e []) 0 (places e) (strings_Places e))

raw_bytes-front :
    (count : ℕ) (e : Entry) → raw_bytes count e ≡ front count e ++ put_le 8 (to_u64 e.serial_num)
unfolding front body entry_numbers sn_list_to_bytes
raw_bytes-front count e = rw (length-body e, zeroed_payload e) (simp (append_assoc, append-nil))

length-front : (count : ℕ) (e : Entry) → length (raw_bytes count e) - 8 ≡ length (front count e)
length-front count e = omega (
  arith,
  ap length (raw_bytes-front count e),
  length-append (front count e) (put_le 8 (to_u64 e.serial_num)),
  length-put_le 8 (to_u64 e.serial_num),
)

not_short : (count : ℕ) (e : Entry) → ltb (length (raw_bytes count e)) 8 ≡ false
not_short count e = ground (
  arith,
  ap length (raw_bytes-front count e),
  length-append (front count e) (put_le 8 (to_u64 e.serial_num)),
  length-put_le 8 (to_u64 e.serial_num),
)

-- Nothing in front of the serial number depends on it.
front-record :
    (count : ℕ) (e : Entry) (sn : ℤ) → front count (record e { serial_num = sn }) ≡ front count e
unfolding front places entry_strings
front-record count e sn = refl

-- ExtractSerialNum finds the serial number of the entry at the end of its raw bytes.
pub extract_serial_num-raw_bytes :
    (count : ℕ) (e : Entry)
    → IsI64 e.serial_num
    → extract_serial_num (raw_bytes count e) ≡ some e.serial_num
unfolding extract_serial_num
extract_serial_num-raw_bytes count e h =
    rw (not_short count e, length-front count e, raw_bytes-front count e)
      (rw (
        drop-append (front count e) (put_le 8 (to_u64 e.serial_num)) _ refl,
        get_le-put_le_64 (to_u64 e.serial_num) (to_u64-lt e.serial_num),
        from_u64-to_u64 e.serial_num h,
      ))

-- UpdateSerialNum gives the raw bytes of the entry with the new serial number.
pub update_serial_num-raw_bytes :
    (count : ℕ) (e : Entry) (sn : ℤ)
    → update_serial_num (raw_bytes count e) sn
      ≡ some (raw_bytes count (record e { serial_num = sn }))
unfolding update_serial_num
update_serial_num-raw_bytes count e sn =
    rw (not_short count e, length-front count e)
      (ap some (
        ap (λ t. t ++ put_le 8 (to_u64 sn))
          (ap (take (length (front count e))) (raw_bytes-front count e)
            ∙ take-append (front count e) (put_le 8 (to_u64 e.serial_num)) _ refl
            ∙ sym (front-record count e sn))
        ∙ sym (raw_bytes-front count (record e { serial_num = sn }))))

-- With the count in its first byte and the serial numbers behind it, this is what EntryToBytes
-- writes.
pub raw_bytes-append :
    (e : Entry) (sns : List ℤ)
    → raw_bytes (length sns % 256) e ++ sn_list_to_bytes sns ≡ entry_to_bytes e sns
raw_bytes-append e sns = simp append_assoc (sym (entry_to_bytes-split e sns))

-- `entryBz[0] = byte(count)`
abbrev pub set_first : ℕ → Bytes → Bytes
set_first count [] = []
set_first count (x ∷ b) = count ∷ b

-- An entry moved to the end of the file: UpdateSerialNum on its raw bytes gives bytes which, with the
-- count of the new serial numbers in the first of them and the numbers behind, are what EntryToBytes
-- writes for the entry with the new serial number.
pub update_serial_num-entry_to_bytes :
    (count : ℕ) (e : Entry) (sn : ℤ) (sns : List ℤ)
    → (b : Bytes) × (update_serial_num (raw_bytes count e) sn ≡ some b)
      × (set_first (length sns % 256) b ++ sn_list_to_bytes sns
          ≡ entry_to_bytes (record e { serial_num = sn }) sns)
update_serial_num-entry_to_bytes count e sn sns = (
  raw_bytes count (record e { serial_num = sn }),
  update_serial_num-raw_bytes count e sn,
  raw_bytes-append (record e { serial_num = sn }) sns,
)
