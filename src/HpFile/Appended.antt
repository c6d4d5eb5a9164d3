-- ===== src/HpFile/Appended.antt =====
-- Append as a whole: the new record stands where Size was, and nothing that was there is lost.
use native.Mathlib.Nat.{mul-add-div_right, mul-add-mod_self_right, mod-eq_of_lt, div-eq_of_lt}
use onvakv.Base.{
  ℕ, ◌+◌, ◌-◌, ◌/◌, ◌%◌, ◌≤◌, ◌<◌, ◌≡◌, refl, sym, ap, ◌∙◌, true, false, none, some, none-ne-some,
  List, [], ◌∷◌, ◌++◌, append-nil, length, replicate, ltb, ◌==◌, arith, length-append,
  length-replicate, All, Bool-cases, inl, inr, ltb→lt,
}
use onvakv.Base.Result.{ok}
use onvakv.Types.{Bytes}
use onvakv.HpFile.Disk.{HpFile, put_file, flush, roll_over, append, size}
use onvakv.HpFile.View.{IsOpen, Grown, put_file_self, put_file_ne}
use onvakv.HpFile.Append.{
  view, view-latest, Extends, Holds, Holds-Extends, IsReady, joined, Grown-Extends,
  append_bufs-Grown,
}
use onvakv.HpFile.Roll.{Flushed, flush-Flushed, in_file, seen, unseen}

-- What is asked of a file before the change to the next one.
record IsFilled (h : HpFile) : Type 0 where
  opened : IsOpen h
  over : h.latest_file_size < h.block_size + h.buffer_size
  buffer_fits : h.buffer_size ≤ h.block_size
  last : (j : ℕ) → ltb h.largest_id j ≡ true → h.file_map j ≡ none

-- The file as Append leaves it when a block is full.
abbrev next_file : HpFile → HpFile
next_file h = record h {
  largest_id = h.largest_id + 1;
  file_map = put_file h.file_map (h.largest_id + 1) (some (record { content = []; offset = 0 }));
  buffer = replicate (h.latest_file_size - h.block_size) 0;
  latest_file_size = h.latest_file_size - h.block_size;
}

roll_over-next_file :
    (h h' : HpFile) (v : IsFilled h)
    → ltb h.latest_file_size h.block_size ≡ false
    → flush h ≡ ok h'
    → Flushed h v.opened h'
    → roll_over h ≡ ok (next_file h')
unfolding roll_over
roll_over-next_file h h' v full e f =
    rw (full, e, f.largest_id, f.latest_file_size, f.block_size) (ground (arith, v.over, full))

next_file-IsReady :
    (h h' : HpFile) (v : IsFilled h)
    → ltb h.latest_file_size h.block_size ≡ false
    → Flushed h v.opened h'
    → IsReady (next_file h')
next_file-IsReady h h' v full f =
    let over : length (next_file h').buffer ≡ h'.latest_file_size - h'.block_size =
      length-replicate (h'.latest_file_size - h'.block_size) 0 in
    record {
      opened = record {
        latest = record { content = []; offset = 0 };
        at_latest =
            put_file_self h'.file_map (h'.largest_id + 1)
              (some (record { content = []; offset = 0 }));
        at_end = refl;
        sized = ground (arith, over);
        room = ground (arith, over, full, f.latest_file_size, f.block_size, f.buffer_size, v.over);
      };
      not_full =
          ground
            (arith, full, f.latest_file_size, f.block_size, f.buffer_size, v.over, v.buffer_fits);
      buffer_fits = omega (arith, f.buffer_size, f.block_size, v.buffer_fits);
      last = λ j past.
          let later : h.largest_id + 1 < j = ground (arith, past, f.largest_id) in
          put_file_ne h'.file_map (h'.largest_id + 1) j (some (record { content = []; offset = 0 }))
            (ground (arith, later, f.largest_id))
          ∙ f.others j (ground (arith, later))
          ∙ v.last j (ground (arith, later));
    }

next_file-Extends :
    (h h' : HpFile) (v : IsFilled h) → Flushed h v.opened h' → Extends h (next_file h')
next_file-Extends h h' v f j c k = elim (Bool-cases (j == h.largest_id + 1)) [
  | inl e ↦ absurd (none-ne-some c (sym (unseen h j (v.last j (ground (arith, e)))) ∙ k))
  | inr e ↦
      let (g, at, same) = in_file h h' v.opened f j c k in
      let ne : (j == h'.largest_id + 1) ≡ false = ground (arith, e, f.largest_id) in
      (
        [],
        seen (next_file h') j g
              (put_file_ne h'.file_map (h'.largest_id + 1) j
                  (some (record { content = []; offset = 0 })) ne
                ∙ at)
              ne
            ∙ ap some (same ∙ sym (append-nil c)),
      )
]

roll_over-IsReady :
    (h : HpFile)
    → IsFilled h
    → (h' : HpFile) × (roll_over h ≡ ok h')
      × IsReady h'
      × (h'.block_size ≡ h.block_size)
      × (h'.buffer_size ≡ h.buffer_size)
      × Extends h h'
roll_over-IsReady h v = elim (Bool-cases (ltb h.latest_file_size h.block_size)) [
  | inl small ↦ (
    h,
    unfold roll_over in rw small,
    record {
      opened = v.opened;
      not_full = ltb→lt h.latest_file_size h.block_size small;
      buffer_fits = v.buffer_fits;
      last = v.last;
    },
    refl,
    refl,
    λ j c k. ([], k ∙ ap some (sym (append-nil c))),
  )
  | inr full ↦
      let (h', e, f) = flush-Flushed h v.opened in
      (
        next_file h',
        roll_over-next_file h h' v full e f,
        next_file-IsReady h h' v full f,
        f.block_size,
        f.buffer_size,
        next_file-Extends h h' v f,
      )
]

length-joined :
    (bufs : List Bytes) (n : ℕ) → length (joined bufs) ≤ n → All (λ b. length b ≤ n) bufs
length-joined [] n le = tt
length-joined (b ∷ bs) n le =
    let both = length-append b (joined bs) in
    (omega (arith, both, le), length-joined bs n (omega (arith, both, le)))

Grown-IsFilled :
    (h h' : HpFile) (v : IsReady h) (b : Bytes)
    → length b ≤ h.buffer_size
    → Grown h v.opened b h'
    → IsFilled h'
Grown-IsFilled h h' v b fits g =
    let n : length (g.opened.latest.content ++ h'.buffer)
        ≡ length ((v.opened.latest.content ++ h.buffer) ++ b) =
      ap length g.tail in
    record {
      opened = g.opened;
      over = omega (
        arith,
        n,
        fits,
        v.not_full,
        v.opened.sized,
        g.opened.sized,
        g.block_size,
        g.buffer_size,
        length-append g.opened.latest.content h'.buffer,
        length-append (v.opened.latest.content ++ h.buffer) b,
        length-append v.opened.latest.content h.buffer,
      );
      buffer_fits = omega (arith, v.buffer_fits, g.block_size, g.buffer_size);
      last = λ j past.
          g.others j (ground (arith, past, g.largest_id))
          ∙ v.last j (ground (arith, past, g.largest_id));
    }

size-div : (h : HpFile) → IsReady h → size h / h.block_size ≡ h.largest_id
unfolding size
size-div h v =
    mul-add-div_right (omega (arith, v.not_full)) h.largest_id h.latest_file_size
    ∙ ap (λ n. h.largest_id + n) (div-eq_of_lt v.not_full)
    ∙ omega arith

size-mod : (h : HpFile) → IsReady h → size h % h.block_size ≡ h.latest_file_size
unfolding size
size-mod h v =
    mul-add-mod_self_right h.largest_id h.block_size h.latest_file_size ∙ mod-eq_of_lt v.not_full

-- The bytes that were added stand at the old end.
Grown-Holds :
    (h h' : HpFile) (v : IsReady h) (b : Bytes) → Grown h v.opened b h' → Holds h' (size h) b
Grown-Holds h h' v b g = record {
  front = v.opened.latest.content ++ h.buffer;
  rest = [];
  block =
      ap (λ n. view h' n) (ap (λ n. size h / n) g.block_size ∙ size-div h v ∙ sym g.largest_id)
      ∙ view-latest h' g.opened
      ∙ ap some
          (g.tail ∙ ap (λ t. (v.opened.latest.content ++ h.buffer) ++ t) (sym (append-nil b)));
  starts =
      length-append v.opened.latest.content h.buffer
      ∙ sym v.opened.sized
      ∙ sym (size-mod h v)
      ∙ ap (λ n. size h % n) (sym g.block_size);
}

-- Append of buffers that are together no larger than the write buffer, on a file that is ready, is
-- done without an error or a panic: it answers the size that the file had, the buffers then stand
-- there, whatever was held before is held still, and the file is ready again.
pub append-Holds :
    (h : HpFile) (bufs : List Bytes)
    → IsReady h
    → length (joined bufs) ≤ h.buffer_size
    → (h' : HpFile) × (append h bufs ≡ ok (h', size h))
      × IsReady h'
      × Holds h' (size h) (joined bufs)
      × ((off : ℕ) (b : Bytes) → Holds h off b → Holds h' off b)
append-Holds h bufs v fits =
    let (h₁, e₁, g) = append_bufs-Grown bufs h v.opened (length-joined bufs h.buffer_size fits) in
    let (h₂, e₂, ready, bs, _, more) =
      roll_over-IsReady h₁ (Grown-IsFilled h h₁ v (joined bufs) fits g) in
    (
      h₂,
      unfold append in rw e₁ (rw e₂ refl),
      ready,
      Holds-Extends more bs (size h) (joined bufs) (Grown-Holds h h₁ v (joined bufs) g),
      λ off b k.
          Holds-Extends more bs off b
            (Holds-Extends (Grown-Extends v.opened g) g.block_size off b k),
    )
