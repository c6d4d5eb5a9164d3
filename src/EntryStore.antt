-- ===== src/EntryStore.antt =====
-- Append of datatree/entryfile.go on the HPFile of datatree/hpfile.go, and reading back from there.
use onvakv.Base.{
  ℕ, ◌+◌, ◌%◌, ◌/◌, ◌≤◌, ◌<◌, ◌≡◌, refl, sym, ap, subst, ◌∙◌, Bool, true, false, Bool-cases,
  Option-cases, inl, inr, Option, none, some, List, [], ◌++◌, append_assoc, length, take, drop,
  replicate, ◌==◌, if◌then◌else◌, arith, All, length-take, take-append-drop, length-append,
  length-replicate,
}
use onvakv.Base.Int.{ℤ, IsI64}
use onvakv.Base.Result.{Result, err, ok, panic}
use onvakv.Types.{Bytes, Entry}
use onvakv.EntryFile.Encode.{magic_bytes, entry_to_bytes}
use onvakv.EntryFile.File.{get_padding_size, record_buffers, read_entry_and_sn_list, read_entry}
use onvakv.EntryFile.Payload.{IsEntry}
use onvakv.EntryFile.RoundTrip.{
  IsWritable, Reads, record_end, length-record, read_entry_and_sn_list-entry_to_bytes,
  read_entry-entry_to_bytes,
}
use onvakv.HpFile.Disk.{File, HpFile, append, flush, file_read_at, read_at, size}
use onvakv.HpFile.PreReader.{PreReader, read_at_with_buf}
use onvakv.HpFile.ReadAhead.{Knows, read_file_with_buf-file_read_at}
use onvakv.HpFile.Append.{Holds, IsReady, joined}
use onvakv.HpFile.Roll.{read_at-found, flush-read_at}
use onvakv.HpFile.Appended.{append-Holds}

-- EntryFile.Append
unfoldable pub append_record : HpFile → Bytes → Bytes → Result (HpFile × ℕ)
append_record h b0 b1 = elim (append h (record_buffers b0 b1)) [
  | ok (h', at) ↦ if at % 8 == 0 then ok (h', at) else panic
  | err ↦ panic
  | panic ↦ panic
]

-- An error and a panic of ReadAt are panics of the entry file.
unfoldable pub bytes_of : Result (Bytes × PreReader) → Option Bytes
bytes_of (ok (b, pr)) = some b
bytes_of err = none
bytes_of panic = none

unfoldable pub buffer_after : PreReader → Result (Bytes × PreReader) → PreReader
buffer_after pr (ok (b, pr')) = pr'
buffer_after pr err = pr
buffer_after pr panic = pr

-- ReadAt as readEntry calls it, with the read-ahead buffer `pr` at the start: it reads 12 bytes and then
-- the whole record, which is longer, at the same offset. With `with_buf` both reads go through the
-- buffer, the second through what the first has left.
unfoldable pub reader : HpFile → PreReader → Bool → ℕ → ℕ → Option Bytes
reader h pr false off n = elim (read_at h off n) [ ok b ↦ some b | err ↦ none | panic ↦ none ]
reader h pr true off n =
    let first = read_at_with_buf h pr off 12 in
    if n == 12 then bytes_of first else bytes_of (read_at_with_buf h (buffer_after pr first) off n)

-- What the read-ahead buffer says of the files is so.
abbrev pub IsRight : HpFile → PreReader → Type 0
IsRight h pr = (id : ℕ) (f : File) → h.file_map id ≡ some f → Knows pr id f

read_at-inside :
    (h : HpFile) (off n : ℕ) (b : Bytes)
    → read_at h off n ≡ ok b
    → (f : File) × (h.file_map (off / h.block_size) ≡ some f)
      × (off % h.block_size + n ≤ length f.content)
unfolding read_at file_read_at
read_at-inside h off n b e = elim (Option-cases (h.file_map (off / h.block_size))) [
  | inl missing ↦ absurd (ground (arith, e, missing))
  | inr (f, found) ↦ (f, found, ground (arith, e, found))
]

read_at_with_buf-read_at :
    (h : HpFile) (pr : PreReader) (f : File) (off n : ℕ) (b : Bytes)
    → h.file_map (off / h.block_size) ≡ some f
    → Knows pr (off / h.block_size) f
    → off % h.block_size + n < length f.content
    → read_at h off n ≡ ok b
    → (pr' : PreReader) × (read_at_with_buf h pr off n ≡ ok (b, pr'))
      × Knows pr' (off / h.block_size) f
unfolding read_at_with_buf
read_at_with_buf-read_at h pr f off n b e knows inside read =
    let (c, pr', done, direct, knows') =
      read_file_with_buf-file_read_at h.block_size pr f (off / h.block_size) (off % h.block_size) n
        knows inside in
    let same : c ≡ b = ground (arith, sym direct ∙ sym (read_at-found h f off n e) ∙ read) in
    (pr', rw (e, read_at_with_buf) (done ∙ ap (λ x. ok (x, pr')) same), knows')

-- A part of what is held, from its beginning, is held.
Holds-front : (h : HpFile) (off : ℕ) (b c : Bytes) → Holds h off (b ++ c) → Holds h off b
Holds-front h off b c k = record {
  front = k.front;
  rest = c ++ k.rest;
  block = k.block ∙ ap (λ t. some (k.front ++ t)) (append_assoc b c k.rest);
  starts = k.starts;
}

Holds-take : (h : HpFile) (off n : ℕ) (b : Bytes) → Holds h off b → Holds h off (take n b)
Holds-take h off n b k = Holds-front h off (take n b) (drop n b) (rw (take-append-drop n b) k)

-- The reads of a record that ends before its file does.
Reads-read_at :
    (h : HpFile) (pr : PreReader) (f : File) (off : ℕ) (b : Bytes)
    → h.file_map (off / h.block_size) ≡ some f
    → Knows pr (off / h.block_size) f
    → off % h.block_size + length b < length f.content
    → 12 ≤ length b
    → ((n : ℕ) → n ≤ length b → read_at h off n ≡ ok (take n b))
    → Reads (reader h pr) off b
unfolding reader bytes_of buffer_after
Reads-read_at h pr f off b e knows inside long read =
    let (pr', first, knows') =
      read_at_with_buf-read_at h pr f off 12 (take 12 b) e knows (omega arith) (read 12 long) in
    record {
      at = λ with_buf n le. elim (Bool-cases with_buf) [
        | inr direct ↦ rw (direct, read n le, reader) refl
        | inl buffered ↦ elim (Bool-cases (n == 12)) [
          | inl head ↦
              let twelve : n ≡ 12 = ground (arith, head) in
              rw (buffered, first, reader, head) (ap (λ i. some (take i b)) (sym twelve))
          | inr whole ↦
              let (pr'', second, _) =
                read_at_with_buf-read_at h pr' f off n (take n b) e knows' (omega arith)
                  (read n le) in
              rw (buffered, first, reader, whole) (rw second refl)
        ]
      ];
    }

Holds-record :
    (h : HpFile) (off : ℕ) (b0 b1 : Bytes)
    → Holds h off (joined (record_buffers b0 b1))
    → Holds h off (magic_bytes ++ (b0 ++ b1))
unfolding record_buffers
Holds-record h off b0 b1 k =
    let pad = replicate (get_padding_size (length b0 + length b1)) 0 ++ [] in
    Holds-front h off (magic_bytes ++ (b0 ++ b1)) pad
      (rw (append_assoc magic_bytes (b0 ++ b1) pad, append_assoc b0 b1 pad) k)

append_record-done :
    (h h' : HpFile) (b0 b1 : Bytes)
    → append h (record_buffers b0 b1) ≡ ok (h', size h)
    → size h % 8 ≡ 0
    → append_record h b0 b1 ≡ ok (h', size h)
unfolding append_record
append_record-done h h' b0 b1 e aligned = rw (e, append_record, aligned) refl

length_front : (n : ℕ) (b : Bytes) → n ≤ length b → length (take n b) ≡ n
length_front n b le = omega (arith, length-take n b)

length-joined-record_buffers :
    (b0 b1 : Bytes)
    → length (joined (record_buffers b0 b1))
      ≡ length (magic_bytes ++ (b0 ++ b1)) + get_padding_size (length b0 + length b1)
unfolding record_buffers
length-joined-record_buffers b0 b1 = simp (length-append, length-replicate) (omega arith)

-- An entry that is added to a file that is ready and aligned, in one piece or as raw bytes with the
-- serial numbers behind them, and whose record is padded, is added without a panic at the old size, and
-- the file is ready for the next Append. Once it is flushed, ReadEntryAndSNList at that position, through
-- the read-ahead buffer that `buffer_of` gives and that may hold anything that is right about the files,
-- returns the entry and the serial numbers, and ReadEntry, which goes past the buffer, the entry.
pub append_record-read :
    (h : HpFile) (b0 b1 : Bytes) (e : Entry) (sns : List ℤ) (buffer_of : HpFile → PreReader)
    → b0 ++ b1 ≡ entry_to_bytes e sns
    → IsReady h
    → size h % 8 ≡ 0
    → length (joined (record_buffers b0 b1)) ≤ h.buffer_size
    → IsWritable e sns
    → IsEntry e
    → All IsI64 sns
    → 0 < get_padding_size (length b0 + length b1)
    → ((x : HpFile) → IsRight x (buffer_of x))
    → (h₁ : HpFile) × (h₂ : HpFile) × (append_record h b0 b1 ≡ ok (h₁, size h))
      × IsReady h₁
      × (flush h₁ ≡ ok h₂)
      × (read_entry_and_sn_list (reader h₂ (buffer_of h₂)) (size h)
          ≡ some (e, sns, record_end (size h) e sns))
      × (read_entry (reader h₂ (buffer_of h₂)) (size h) ≡ some (e, record_end (size h) e sns))
append_record-read h b0 b1 e sns buffer_of whole ready aligned fits w v i padded right =
    let (h₁, done, ready₁, held, _) = append-Holds h (record_buffers b0 b1) ready fits in
    let (h₂, flushed, _, read) = flush-read_at h₁ ready₁.opened in
    let content = magic_bytes ++ entry_to_bytes e sns in
    let kept : Holds h₁ (size h) content =
      subst (λ t. Holds h₁ (size h) (magic_bytes ++ t)) whole
        (Holds-record h₁ (size h) b0 b1 held) in
    let (f, found, inside) =
      read_at-inside h₂ (size h) (length (joined (record_buffers b0 b1)))
        (joined (record_buffers b0 b1)) (read (size h) (joined (record_buffers b0 b1)) held) in
    let longer : length (joined (record_buffers b0 b1))
        ≡ length content + get_padding_size (length b0 + length b1) =
      length-joined-record_buffers b0 b1
      ∙ ap (λ t. length (magic_bytes ++ t) + get_padding_size (length b0 + length b1)) whole in
    let r : Reads (reader h₂ (buffer_of h₂)) (size h) content =
      Reads-read_at h₂ (buffer_of h₂) f (size h) content found
        (right h₂ (size h / h₂.block_size) f found) (omega (arith, inside, longer, padded))
        (length-record e sns)
        (λ n le.
          ap (read_at h₂ (size h)) (sym (length_front n content le))
          ∙ read (size h) (take n content) (Holds-take h₁ (size h) n content kept)) in
    (
      h₁,
      h₂,
      append_record-done h h₁ b0 b1 done aligned,
      ready₁,
      flushed,
      read_entry_and_sn_list-entry_to_bytes (reader h₂ (buffer_of h₂)) (size h) e sns w r v i,
      read_entry-entry_to_bytes (reader h₂ (buffer_of h₂)) (size h) e sns w r v,
    )
