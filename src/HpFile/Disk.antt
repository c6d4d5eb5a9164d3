-- ===== src/HpFile/Disk.antt =====
-- HPFile of datatree/hpfile.go over the files of its directory. Opening, writing and removing a file
-- succeed; what the code itself refuses is `err`, and where it panics is `panic`.
use onvakv.Base.{
  ℕ, zero, suc, ◌+◌, ◌-◌, ◌*◌, ◌/◌, ◌%◌, Option, none, some, List, [], ◌∷◌, ◌++◌, length, take,
  drop, replicate, ltb, ◌==◌, if◌then◌else◌,
}
use onvakv.Base.Result.{Result, err, ok, panic, ◌>>=◌}
use onvakv.Types.{Bytes}

-- An open file: what it holds, and where the next Write goes.
pub record File : Type 0 where
  pub content : Bytes
  pub offset : ℕ

-- File.Write; a gap in front of the offset reads as zeros.
unfoldable pub write : File → Bytes → File
write f b = record {
  content =
      take f.offset f.content
      ++ (replicate (f.offset - length f.content) 0 ++ (b ++ drop (f.offset + length b) f.content));
  offset = f.offset + length b;
}

-- File.ReadAt reads in full, or reports the end of the file. No caller asks for no bytes, which Go answers
-- behind the end as well.
unfoldable pub file_read_at : File → ℕ → ℕ → Result Bytes
file_read_at f p n = if ltb (length f.content) (p + n) then err else ok (take n (drop p f.content))

-- File.Truncate cuts or grows the file and leaves the offset alone.
unfoldable pub file_truncate : File → ℕ → File
file_truncate f n = record f { content = take n f.content ++ replicate (n - length f.content) 0 }

pub record HpFile : Type 0 where
  pub file_map : ℕ → Option File
  pub block_size : ℕ
  pub largest_id : ℕ
  pub latest_file_size : ℕ
  pub buffer_size : ℕ
  pub buffer : Bytes

abbrev pub put_file : (ℕ → Option File) → ℕ → Option File → ℕ → Option File
put_file m id f j = if j == id then f else m j

-- NewHPFile on an empty directory.
unfoldable pub new_hp_file : ℕ → ℕ → Result HpFile
new_hp_file buffer_size block_size =
    if block_size % buffer_size == 0
    then ok (record {
      file_map = put_file (λ j. none) 0 (some (record { content = []; offset = 0 }));
      block_size = block_size;
      largest_id = 0;
      latest_file_size = 0;
      buffer_size = buffer_size;
      buffer = [];
    })
    else panic

unfoldable pub size : HpFile → ℕ
size h = h.largest_id * h.block_size + h.latest_file_size

-- `hpf.fileMap[hpf.largestID].Write(b)`; a nil file is no file to write to.
unfoldable pub write_latest : HpFile → Bytes → Result HpFile
write_latest h b = elim (h.file_map h.largest_id) [
  | none ↦ err
  | some f ↦ ok (record h { file_map = put_file h.file_map h.largest_id (some (write f b)) })
]

-- Flush: what is in the buffer goes to the file. A failing Write panics.
unfoldable pub flush : HpFile → Result HpFile
flush h = if length h.buffer == 0 then ok h else elim (write_latest h h.buffer) [
  | ok h' ↦ ok (record h' { buffer = [] })
  | err ↦ panic
  | panic ↦ panic
]

-- One round of the loop of Append.
unfoldable pub append_buf : HpFile → Bytes → Result HpFile
append_buf h buf =
    if ltb h.buffer_size (length buf)
    then panic
    else let h' = record h { latest_file_size = h.latest_file_size + length buf } in
      if ltb h.buffer_size (length h.buffer + length buf)
      then (let extra = length h.buffer + length buf - h.buffer_size in
          let room = length buf - extra in
          do
            h'' ← write_latest h' (h.buffer ++ take room buf)
            ok (record h'' { buffer = drop room buf }))
      else ok (record h' { buffer = h.buffer ++ buf })

unfoldable pub append_bufs : HpFile → List Bytes → Result HpFile
append_bufs h [] = ok h
append_bufs h (b ∷ bs) = do h' ← append_buf h b; append_bufs h' bs

-- The change to a new file. What is over the block's size is a count of zeros in the new buffer,
-- which has `bufferSize` bytes of room.
unfoldable pub roll_over : HpFile → Result HpFile
roll_over h = if ltb h.latest_file_size h.block_size then ok h else (do
  h' ← flush h
  let overflow = h.latest_file_size - h.block_size
  if ltb h.buffer_size overflow
      then panic
      else ok (record h' {
        largest_id = h.largest_id + 1;
        file_map =
            put_file h'.file_map (h.largest_id + 1) (some (record { content = []; offset = 0 }));
        buffer = replicate overflow 0;
        latest_file_size = overflow;
      }))

unfoldable pub append : HpFile → List Bytes → Result (HpFile × ℕ)
append h bufs = do h' ← append_bufs h bufs; h'' ← roll_over h'; ok (h'', size h)

-- ReadAt without the read-ahead buffer.
unfoldable pub read_at : HpFile → ℕ → ℕ → Result Bytes
read_at h off n = elim (h.file_map (off / h.block_size)) [
  | none ↦ err
  | some f ↦ file_read_at f (off % h.block_size) n
]

unfoldable pub prune_head : HpFile → ℕ → HpFile
prune_head h off = record h {
  file_map = λ j. if ltb j (off / h.block_size) then none else h.file_map j;
}

-- Truncate: files behind the new end are removed, from the last one down.
unfoldable pub drop_files : ℕ → HpFile → ℕ → Result HpFile
drop_files zero h size = ok h
drop_files (suc rounds) h size =
    let rest =
      drop_files rounds
        (record h {
          file_map = put_file h.file_map h.largest_id none;
          largest_id = h.largest_id - 1;
        })
        size in
    if ltb size (h.largest_id * h.block_size)
    then elim (h.file_map h.largest_id) [ none ↦ err | some f ↦ rest ]
    else ok h

-- The file that is then the last one is opened again, so that its offset is 0.
unfoldable pub truncate : HpFile → ℕ → Result HpFile
truncate h size = do
  h' ← drop_files h.largest_id h size
  let size' = size - h'.largest_id * h'.block_size
  elim (h'.file_map h'.largest_id) [
    | none ↦ err
    | some f ↦ ok (record h' {
      latest_file_size = size';
      file_map =
          put_file h'.file_map h'.largest_id (some (file_truncate (record f { offset = 0 }) size'));
    })
  ]
