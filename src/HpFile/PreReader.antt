-- ===== src/HpFile/PreReader.antt =====
-- PreReader of datatree/hpfile.go and readAtWithBuf, which reads through it.
use onvakv.Base.{
  ℕ, ◌+◌, ◌-◌, ◌/◌, ◌%◌, Bool, false, ◌&&◌, ◌||◌, Option, none, some, ◌++◌, length, take, drop,
  replicate, ltb, leb, ◌==◌, if◌then◌else◌,
}
use onvakv.Base.Result.{Result, err, ok, panic, ◌>>=◌}
use onvakv.Types.{Bytes}
use onvakv.HpFile.Disk.{File, HpFile, file_read_at}

unfoldable pub pre_read_buf_size : ℕ
pre_read_buf_size = 262144

-- A file id of -1 is `none`.
pub record PreReader : Type 0 where
  pub buf : Bytes
  pub file_id : Option ℕ
  pub start : ℕ
  pub end_ : ℕ

-- Init; `start` and `end` are what they were.
unfoldable pub init : PreReader → PreReader
init pr = record pr { buf = replicate pre_read_buf_size 0; file_id = none }

unfoldable pub is_file : Option ℕ → ℕ → Bool
is_file none id = false
is_file (some i) id = id == i

unfoldable pub try_read : PreReader → ℕ → ℕ → ℕ → Option Bytes
try_read pr id start n =
    if is_file pr.file_id id && (leb pr.start start && ltb (start + n) pr.end_)
    then some (take n (drop (start - pr.start) pr.buf))
    else none

-- GetToFill and the ReadAt into it: what is read is the buffer's new front, and at the end of the file
-- `end` is moved to where the data ends.
unfoldable pub fill : PreReader → File → ℕ → ℕ → PreReader
fill pr f id pos =
    let part = take pre_read_buf_size (drop pos f.content) in
    record {
      buf = part ++ drop (length part) pr.buf;
      file_id = some id;
      start = pos;
      end_ =
          if ltb (length part) pre_read_buf_size
          then pos + length part
          else pos + pre_read_buf_size;
    }

-- readAtWithBuf, with the file found.
unfoldable pub read_file_with_buf : ℕ → PreReader → File → ℕ → ℕ → ℕ → Result (Bytes × PreReader)
read_file_with_buf block_size pr f id pos n = elim (try_read pr id pos n) [
  | some b ↦ ok (b, pr)
  | none ↦
      if leb pre_read_buf_size n || ltb block_size (pos + n)
      then (do b ← file_read_at f pos n; ok (b, pr))
      else elim (try_read (fill pr f id pos) id pos n) [
        | some b ↦ ok (b, fill pr f id pos)
        | none ↦ panic
      ]
]

unfoldable pub read_at_with_buf : HpFile → PreReader → ℕ → ℕ → Result (Bytes × PreReader)
read_at_with_buf h pr off n = elim (h.file_map (off / h.block_size)) [
  | none ↦ err
  | some f ↦ read_file_with_buf h.block_size pr f (off / h.block_size) (off % h.block_size) n
]
