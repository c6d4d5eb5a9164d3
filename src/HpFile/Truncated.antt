-- ===== src/HpFile/Truncated.antt =====
-- Truncate opens the latest file again and leaves its offset at the start.
use native.Mathlib.Nat.{mul-add-div_right, mul-add-mod_self_right, mod-eq_of_lt, div-eq_of_lt}
use onvakv.Base.{
  ℕ, zero, suc, ◌+◌, ◌-◌, ◌*◌, ◌/◌, ◌%◌, ◌≤◌, ◌<◌, ◌≡◌, refl, ap, ◌∙◌, some, [], ◌∷◌, ◌++◌, length,
  take, drop, replicate, arith, take-append, length-append, length-replicate, length-take,
  length-drop,
}
use onvakv.Base.Result.{err, ok}
use onvakv.Types.{Bytes}
use onvakv.HpFile.Disk.{
  File, HpFile, file_truncate, write, put_file, flush, append_bufs, append_buf, roll_over, append,
  drop_files, truncate, write_latest, file_read_at, read_at, size,
}
use onvakv.HpFile.View.{put_file_self}
use onvakv.HpFile.Roll.{read_at-found}

-- No file is removed when the new end is in the last one.
drop_files-none :
    (rounds : ℕ) (h : HpFile) (n : ℕ) → drop_files rounds h (h.largest_id * h.block_size + n) ≡ ok h
unfolding drop_files
drop_files-none zero h n = refl
drop_files-none (suc rounds) h n = ground arith

-- The file that was opened again, with what is left in it.
abbrev cut : File → ℕ → File
cut f n = record { content = take n f.content ++ replicate (n - length f.content) 0; offset = 0 }

abbrev reopened : HpFile → File → ℕ → HpFile
reopened h f n = record h {
  latest_file_size = n;
  file_map = put_file h.file_map h.largest_id (some (cut f n));
}

truncate-reopened :
    (h : HpFile) (f : File) (n : ℕ)
    → h.file_map h.largest_id ≡ some f
    → truncate h (h.largest_id * h.block_size + n) ≡ ok (reopened h f n)
unfolding truncate file_truncate
truncate-reopened h f n e =
    let left : h.largest_id * h.block_size + n - h.largest_id * h.block_size ≡ n = omega arith in
    rw (drop_files-none h.largest_id h n, e, left)

-- The file after one buffer was added to it, which stays in the write buffer.
abbrev buffered : HpFile → Bytes → HpFile
buffered h b = record h { latest_file_size = h.latest_file_size + length b; buffer = h.buffer ++ b }

append-buffered :
    (h : HpFile) (b : Bytes)
    → length h.buffer + length b ≤ h.buffer_size
    → h.latest_file_size + length b < h.block_size
    → append h (b ∷ []) ≡ ok (buffered h b, size h)
unfolding append append_bufs append_buf roll_over
append-buffered h b fits below = ground arith

flush-write :
    (h : HpFile) (f : File)
    → h.file_map h.largest_id ≡ some f
    → 0 < length h.buffer
    → flush h
      ≡ ok (record h {
        file_map = put_file h.file_map h.largest_id (some (write f h.buffer));
        buffer = [];
      })
unfolding flush write_latest
flush-write h f e some_bytes = rw e (ground arith)

-- Writing `b` at the start keeps the length of a file that is longer.
length-write :
    (f : File) (b : Bytes)
    → f.offset ≡ 0
    → length b ≤ length f.content
    → length (write f b).content ≡ length f.content
unfolding write
length-write f b e fits =
    simp (length-append, length-drop, length-take, length-replicate) (rw e (omega (arith, fits)))

read_at-block :
    (h : HpFile) (f : File) (id n k : ℕ)
    → n < h.block_size
    → h.file_map id ≡ some f
    → read_at h (id * h.block_size + n) k ≡ file_read_at f n k
read_at-block h f id n k small e =
    let block : (id * h.block_size + n) / h.block_size ≡ id =
      mul-add-div_right (omega (arith, small)) id n
      ∙ ap (λ m. id + m) (div-eq_of_lt small)
      ∙ omega arith in
    let pos : (id * h.block_size + n) % h.block_size ≡ n =
      mul-add-mod_self_right id h.block_size n ∙ mod-eq_of_lt small in
    read_at-found h f (id * h.block_size + n) k (ap h.file_map block ∙ e)
    ∙ ap (λ m. file_read_at f m k) pos

read_past : (f : File) (n k : ℕ) → length f.content < n + k → file_read_at f n k ≡ err
unfolding file_read_at
read_past f n k past = ground (arith, past)

-- What was written at the start is read there.
read-write : (f : File) (b : Bytes) → f.offset ≡ 0 → file_read_at (write f b) 0 (length b) ≡ ok b
unfolding file_read_at write
read-write f b e =
    let gap : 0 - length f.content ≡ 0 = omega arith in
    let end : 0 + length b ≡ length b = omega arith in
    let content : (write f b).content ≡ b ++ drop (length b) f.content = rw (e, gap, end) refl in
    let fits : length b ≤ length (write f b).content =
      rw content (omega (arith, length-append b (drop (length b) f.content))) in
    let front : take (length b) (write f b).content ≡ b =
      rw content (take-append b (drop (length b) f.content) (length b) refl) in
    ground (arith, fits, front)

length-cut : (f : File) (n : ℕ) → length (cut f n).content ≡ n
length-cut f n = simp (length-append, length-take, length-replicate) (omega arith)

-- After Truncate to `n` bytes in the last block, a record `b` that is no longer than what was left is
-- answered the position `n` by Append, but the write that follows goes to the start of the file: a
-- reader of that position meets the end of the file, and the record is found at the start of the last
-- block.
pub truncate-loses_append :
    (h : HpFile) (f : File) (n : ℕ) (b : Bytes)
    → h.file_map h.largest_id ≡ some f
    → h.buffer ≡ []
    → 0 < length b
    → length b ≤ n
    → length b ≤ h.buffer_size
    → n + length b < h.block_size
    → (h₁ : HpFile) × (h₂ : HpFile) × (h₃ : HpFile) × (truncate h (h.largest_id * h.block_size + n)
        ≡ ok h₁)
      × (append h₁ (b ∷ []) ≡ ok (h₂, h.largest_id * h.block_size + n))
      × (flush h₂ ≡ ok h₃)
      × (read_at h₃ (h.largest_id * h.block_size + n) (length b) ≡ err)
      × (read_at h₃ (h.largest_id * h.block_size + 0) (length b) ≡ ok b)
unfolding size
truncate-loses_append h f n b e none_left some_bytes short fits below =
    let h₁ = reopened h f n in
    let h₂ = buffered h₁ b in
    let g = write (cut f n) h₂.buffer in
    let h₃ : HpFile = record h₂ {
      file_map = put_file h₂.file_map h₂.largest_id (some g);
      buffer = [];
    } in
    let joint : length h₂.buffer ≡ length b = rw none_left refl in
    let alone : h₂.buffer ≡ b = rw none_left refl in
    let placed : h₃.file_map h.largest_id ≡ some g =
      put_file_self h₂.file_map h.largest_id (some g) in
    let same : length g.content ≡ n =
      length-write (cut f n) h₂.buffer refl (omega (arith, joint, length-cut f n, short))
      ∙ length-cut f n in
    (
      h₁,
      h₂,
      h₃,
      truncate-reopened h f n e,
      append-buffered h₁ b (rw none_left (omega (arith, fits))) below,
      flush-write h₂ (cut f n) (put_file_self h.file_map h.largest_id (some (cut f n)))
          (omega (arith, joint, some_bytes)),
      read_at-block h₃ g h.largest_id n (length b) (omega (arith, below)) placed
          ∙ read_past g n (length b) (omega (arith, same, some_bytes)),
      read_at-block h₃ g h.largest_id 0 (length b) (omega (arith, below)) placed
          ∙ ap (λ c. file_read_at (write (cut f n) c) 0 (length b)) alone
          ∙ read-write (cut f n) b refl,
    )
