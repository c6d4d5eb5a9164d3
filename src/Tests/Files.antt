-- ===== src/Tests/Files.antt =====
-- Small files: datatree/hpfile.go, and datatree/entryfile.go on top of it.
use onvakv.Base.{
  ◌<◌, ℕ, ◌+◌, ◌*◌, ◌%◌, ◌≤◌, ◌≡◌, refl, none, some, [], ◌∷◌, append-nil, length, take, drop, arith,
}
use onvakv.Base.Words.{put_le}
use onvakv.Base.Result.{err, ok, panic}
use onvakv.Types.{Bytes}
use onvakv.EntryFile.Encode.{
  put_uint24, sn_list_to_bytes, entry_strings, entry_numbers, write_entry_payload, has_prefix,
  index, get_all_pos_loop, get_all_pos, overwrite, zero_out, put_pos_list, entry_to_bytes,
}
use onvakv.EntryFile.File.{read_entry_and_sn_list, read_entry, record_buffers, get_padding_size}
use onvakv.EntryFile.RoundTrip.{record_end}
use onvakv.HpFile.Disk.{
  File, HpFile, put_file, flush, append, truncate, file_read_at, read_at, size,
}
use onvakv.HpFile.View.{IsOpen}
use onvakv.HpFile.Append.{Holds, IsReady, joined}
use onvakv.HpFile.Roll.{flush-read_at}
use onvakv.HpFile.Appended.{append-Holds}
use onvakv.HpFile.Truncated.{truncate-loses_append}
use onvakv.HpFile.PreReader.{PreReader, is_file, read_file_with_buf, pre_read_buf_size}
use onvakv.HpFile.ReadAhead.{Knows, read_file_with_buf-file_read_at, read_file_with_buf-panic}
use onvakv.EntryStore.{append_record, reader, IsRight, append_record-read}
use onvakv.Tests.Entries.{odd, one_sn, odd-IsWritable, odd-IsEntry}

-- A new file with blocks of 256 bytes and a buffer of 128.
abbrev pub empty_file : HpFile
empty_file = record {
  file_map = put_file (λ j. none) 0 (some (record { content = []; offset = 0 }));
  block_size = 256;
  largest_id = 0;
  latest_file_size = 0;
  buffer_size = 128;
  buffer = [];
}

pub empty_file-IsReady : IsReady empty_file
empty_file-IsReady = record {
  opened = record {
    latest = record { content = []; offset = 0 };
    at_latest = refl;
    at_end = refl;
    sized = refl;
    room = omega arith;
  };
  not_full = omega arith;
  buffer_fits = omega arith;
  last = λ j past. ground (arith, past);
}

append_two :
    (h' : HpFile) × (append empty_file ((1 ∷ 2 ∷ []) ∷ (3 ∷ []) ∷ []) ≡ ok (h', size empty_file))
    × IsReady h'
    × Holds h' (size empty_file) (1 ∷ 2 ∷ 3 ∷ [])
    × ((off : ℕ) (b : Bytes) → Holds empty_file off b → Holds h' off b)
append_two = append-Holds empty_file ((1 ∷ 2 ∷ []) ∷ (3 ∷ []) ∷ []) empty_file-IsReady (omega arith)

-- Two bytes in the file and two in the buffer.
abbrev half_written : HpFile
half_written = record empty_file {
  file_map = put_file (λ j. none) 0 (some (record { content = 5 ∷ 6 ∷ []; offset = 2 }));
  latest_file_size = 4;
  buffer = 7 ∷ 8 ∷ [];
}

half_written-IsOpen : IsOpen half_written
half_written-IsOpen = record {
  latest = record { content = 5 ∷ 6 ∷ []; offset = 2 };
  at_latest = refl;
  at_end = refl;
  sized = refl;
  room = omega arith;
}

flush-half_written :
    (h' : HpFile) × (flush half_written ≡ ok h')
    × (h'.buffer ≡ [])
    × ((off : ℕ) (b : Bytes) → Holds half_written off b → read_at h' off (length b) ≡ ok b)
flush-half_written = flush-read_at half_written half_written-IsOpen

abbrev written : File
written = record { content = 5 ∷ 6 ∷ 7 ∷ 8 ∷ []; offset = 4 }

truncate_written :
    (h₁ : HpFile) × (h₂ : HpFile) × (h₃ : HpFile) × (truncate
        (record empty_file {
          file_map = put_file (λ j. none) 0 (some written);
          latest_file_size = 4;
        })
        (0 * 256 + 2)
      ≡ ok h₁)
    × (append h₁ ((9 ∷ []) ∷ []) ≡ ok (h₂, 0 * 256 + 2))
    × (flush h₂ ≡ ok h₃)
    × (read_at h₃ (0 * 256 + 2) 1 ≡ err)
    × (read_at h₃ (0 * 256 + 0) 1 ≡ ok (9 ∷ []))
truncate_written =
    truncate-loses_append
      (record empty_file { file_map = put_file (λ j. none) 0 (some written); latest_file_size = 4 })
      written 2 (9 ∷ []) refl refl (omega arith) (omega arith) (omega arith) (omega arith)

-- A read-ahead buffer with the bytes from 1 on.
abbrev ahead : PreReader
ahead = record { buf = 6 ∷ 7 ∷ 8 ∷ []; file_id = some 0; start = 1; end_ = 4 }

ahead-Knows : Knows ahead 0 written
ahead-Knows e = record { ordered = omega arith; inside = omega arith; same = refl }

read_ahead_two :
    (b : Bytes) × (pr' : PreReader) × (read_file_with_buf 256 ahead written 0 1 2 ≡ ok (b, pr'))
    × (file_read_at written 1 2 ≡ ok b)
    × Knows pr' 0 written
read_ahead_two = read_file_with_buf-file_read_at 256 ahead written 0 1 2 ahead-Knows (omega arith)

read_ahead_at_end :
    (read_file_with_buf 256 ahead written 0 2 2 ≡ panic)
    × (file_read_at written 2 2 ≡ ok (take 2 (drop 2 (written.content))))
unfolding pre_read_buf_size
read_ahead_at_end =
    read_file_with_buf-panic 256 ahead written 0 2 2 ahead-Knows refl (omega arith) (omega arith)

odd_fits : length (joined (record_buffers (entry_to_bytes odd one_sn) [])) ≤ 128
unfolding record_buffers entry_to_bytes get_padding_size put_uint24 entry_strings entry_numbers
    sn_list_to_bytes write_entry_payload get_all_pos get_all_pos_loop index has_prefix put_pos_list
    zero_out overwrite put_le
odd_fits = omega arith

aligned : size empty_file % 8 ≡ 0
unfolding size
aligned = refl

-- The read-ahead buffer that nothing was read through.
abbrev fresh_buffer : PreReader
fresh_buffer = record { buf = []; file_id = none; start = 0; end_ = 0 }

fresh-IsRight : (x : HpFile) → IsRight x fresh_buffer
unfolding is_file
fresh-IsRight x id f found e = cc

odd_padded : 0 < get_padding_size (length (entry_to_bytes odd one_sn) + 0)
unfolding entry_to_bytes get_padding_size put_uint24 entry_strings entry_numbers sn_list_to_bytes
    write_entry_payload get_all_pos get_all_pos_loop index has_prefix put_pos_list zero_out
    overwrite put_le
odd_padded = omega arith

append_record-odd :
    (h₁ : HpFile) × (h₂ : HpFile) × (append_record empty_file (entry_to_bytes odd one_sn) []
      ≡ ok (h₁, size empty_file))
    × IsReady h₁
    × (flush h₁ ≡ ok h₂)
    × (read_entry_and_sn_list (reader h₂ fresh_buffer) (size empty_file)
        ≡ some (odd, one_sn, record_end (size empty_file) odd one_sn))
    × (read_entry (reader h₂ fresh_buffer) (size empty_file)
        ≡ some (odd, record_end (size empty_file) odd one_sn))
append_record-odd =
    append_record-read empty_file (entry_to_bytes odd one_sn) [] odd one_sn (λ x. fresh_buffer)
      (append-nil (entry_to_bytes odd one_sn)) empty_file-IsReady aligned odd_fits odd-IsWritable
      odd-IsEntry (omega arith, tt) odd_padded fresh-IsRight
