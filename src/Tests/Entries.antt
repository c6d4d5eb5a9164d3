-- ===== src/Tests/Entries.antt =====
-- Entries on concrete bytes: datatree/entryfile.go.
use onvakv.Base.{
  ℕ, ◌%◌, ◌≡◌, ◌≢◌, refl, Bool, Option, some, List, [], ◌∷◌, ◌++◌, length, take, drop, arith,
}
use onvakv.Base.Int.{ℤ, pos, negsuc}
use onvakv.Base.Words.{put_le}
use onvakv.Types.{Bytes, Entry}
use onvakv.EntryFile.Encode.{
  magic_bytes, put_uint24, sn_list_to_bytes, entry_strings, entry_numbers, write_entry_payload,
  has_prefix, index, get_all_pos_loop, get_all_pos, overwrite, zero_out, put_pos_list,
  entry_to_bytes,
}
use onvakv.EntryFile.Decode.{
  extract_key_from_raw_bytes, entry_from_raw_bytes, extract_serial_num, update_serial_num,
  recover_magic_bytes,
}
use onvakv.EntryFile.File.{read_entry_and_sn_list, read_entry, read_entry_raw_bytes}
use onvakv.EntryFile.Payload.{IsEntry}
use onvakv.EntryFile.Split.{places, body}
use onvakv.EntryFile.Positions.{get_all_pos-Places}
use onvakv.EntryFile.Overwrite.{Places}
use onvakv.EntryFile.Recover.{marked, recover_marked}
use onvakv.EntryFile.RoundTrip.{
  IsWritable, Reads, record_end, read_entry_and_sn_list-entry_to_bytes, read_entry-entry_to_bytes,
  read_raw,
}
use onvakv.EntryFile.Raw.{
  raw_bytes, extract_key_from_raw_bytes-raw_bytes, entry_from_raw_bytes_plain,
  entry_from_raw_bytes-ne,
}
use onvakv.EntryFile.Reencode.{
  extract_serial_num-raw_bytes, update_serial_num-entry_to_bytes, set_first,
}

-- An entry whose key is the magic bytes.
abbrev pub odd : Entry
odd = record {
  key = magic_bytes;
  value = 1 ∷ 2 ∷ [];
  next_key = 9 ∷ [];
  height = pos 5;
  last_height = negsuc 0;
  serial_num = pos 7;
}

abbrev pub one_sn : List ℤ
one_sn = pos 3 ∷ []

abbrev pub plain : Entry
plain = record odd { key = 8 ∷ [] }

pub odd-IsWritable : IsWritable odd one_sn
unfolding body places entry_strings entry_numbers sn_list_to_bytes write_entry_payload get_all_pos
    get_all_pos_loop index has_prefix put_pos_list zero_out overwrite put_le
odd-IsWritable = record { short = omega arith; few = omega arith }

pub odd-IsEntry : IsEntry odd
odd-IsEntry = record {
  key_fits = omega arith;
  value_fits = omega arith;
  next_fits = omega arith;
  height_fits = omega arith;
  last_fits = omega arith;
  serial_fits = omega arith;
}

-- A file that holds one record.
abbrev one_record : Bool → ℕ → ℕ → Option Bytes
one_record with_buf off n = some (take n (drop off (magic_bytes ++ entry_to_bytes odd one_sn)))

one_record-Reads : Reads one_record 0 (magic_bytes ++ entry_to_bytes odd one_sn)
one_record-Reads = record { at = λ with_buf n h. refl }

read_entry_and_sn_list-odd :
    read_entry_and_sn_list one_record 0 ≡ some (odd, one_sn, record_end 0 odd one_sn)
read_entry_and_sn_list-odd =
    read_entry_and_sn_list-entry_to_bytes one_record 0 odd one_sn odd-IsWritable one_record-Reads
      odd-IsEntry (omega arith, tt)

read_entry-odd : read_entry one_record 0 ≡ some (odd, record_end 0 odd one_sn)
read_entry-odd =
    read_entry-entry_to_bytes one_record 0 odd one_sn odd-IsWritable one_record-Reads odd-IsEntry

read_raw_odd :
    read_entry_raw_bytes one_record 0
    ≡ some (
      ((length one_sn % 256) ∷ put_uint24 (length (body odd))) ++ body odd,
      record_end 0 odd one_sn,
    )
read_raw_odd = read_raw one_record 0 odd one_sn odd-IsWritable one_record-Reads

-- The magic bytes and one more byte, restored from zeros.
recover_marked_one :
    recover_magic_bytes (marked 4 (0 ∷ []) (zero_out (0 ∷ []) (magic_bytes ++ (1 ∷ []))))
    ≡ some (marked 4 (0 ∷ []) (magic_bytes ++ (1 ∷ [])), 8)
unfolding has_prefix
recover_marked_one =
    recover_marked (magic_bytes ++ (1 ∷ [])) (0 ∷ []) (omega arith, omega arith, refl, tt)
      (omega arith) (omega arith)

get_all_pos_two :
    Places
      (magic_bytes ++ (magic_bytes ++ (0 ∷ [])))
      0
      (get_all_pos (take 17 (magic_bytes ++ (magic_bytes ++ (0 ∷ [])))) magic_bytes)
get_all_pos_two = get_all_pos-Places 17 (magic_bytes ++ (magic_bytes ++ (0 ∷ [])))

pub odd_alone : IsWritable odd []
odd_alone = record { short = omega (arith, odd-IsWritable.short); few = omega arith }

extract_key_odd : extract_key_from_raw_bytes (raw_bytes 1 odd) ≡ some magic_bytes
extract_key_odd = extract_key_from_raw_bytes-raw_bytes odd 1 odd-IsEntry odd_alone

plain-IsWritable : IsWritable plain []
unfolding body places entry_strings entry_numbers sn_list_to_bytes write_entry_payload get_all_pos
    get_all_pos_loop index has_prefix put_pos_list zero_out overwrite put_le
plain-IsWritable = record { short = omega arith; few = omega arith }

plain-IsEntry : IsEntry plain
plain-IsEntry = record {
  key_fits = omega arith;
  value_fits = omega arith;
  next_fits = omega arith;
  height_fits = omega arith;
  last_fits = omega arith;
  serial_fits = omega arith;
}

plain-places : places plain ≡ []
unfolding places entry_strings get_all_pos get_all_pos_loop index has_prefix put_le
plain-places = refl

odd-places : places odd ≡ 4 ∷ []
unfolding places entry_strings get_all_pos get_all_pos_loop index has_prefix put_le
odd-places = refl

some_place : places odd ≢ []
some_place e = absurd (cc (odd-places, e))

entry_from_raw_bytes_of_plain : entry_from_raw_bytes (raw_bytes 0 plain) ≡ some plain
entry_from_raw_bytes_of_plain =
    entry_from_raw_bytes_plain plain 0 plain-IsEntry plain-IsWritable plain-places

entry_from_raw_bytes_of_odd : entry_from_raw_bytes (raw_bytes 0 odd) ≢ some odd
entry_from_raw_bytes_of_odd = entry_from_raw_bytes-ne odd 0 odd-IsEntry odd_alone some_place

extract_serial_num-odd : extract_serial_num (raw_bytes 1 odd) ≡ some (pos 7)
extract_serial_num-odd = extract_serial_num-raw_bytes 1 odd (omega arith)

update_serial_num-odd :
    (b : Bytes) × (update_serial_num (raw_bytes 0 odd) (pos 9) ≡ some b)
    × (set_first (length one_sn % 256) b ++ sn_list_to_bytes one_sn
        ≡ entry_to_bytes (record odd { serial_num = pos 9 }) one_sn)
update_serial_num-odd = update_serial_num-entry_to_bytes 0 odd (pos 9) one_sn
