-- ===== src/HpFile/Sized.antt =====
-- What Append adds to the size of an HPFile, whatever state the file is in.
use onvakv.Base.{
  ℕ, ◌+◌, ◌-◌, ◌*◌, ◌≡◌, refl, ap, subst, ◌∙◌, arith, inl, inr, false, if-eq, Option, none, some,
  List, [], ◌∷◌, length, length-append, ltb, ◌==◌,
}
use onvakv.Base.Result.{Result, ok, err, panic, bind-eq-ok}
use onvakv.Types.{Bytes}
use onvakv.HpFile.Disk.{
  File, HpFile, write_latest, flush, append_buf, append_bufs, roll_over, append, size, put_file,
  write,
}
use onvakv.HpFile.Append.{joined}

-- `h'` is `h` with `n` bytes more, and the same sizes of buffer and block.
pub record GrowsBy (n : ℕ) (h h' : HpFile) : Type 0 where
  pub size_after : size h' ≡ size h + n
  pub buffer_size_kept : h'.buffer_size ≡ h.buffer_size
  pub block_size_kept : h'.block_size ≡ h.block_size

-- Only the files have changed.
abbrev SameSizes : HpFile → HpFile → Type 0
SameSizes h h' =
    (h'.latest_file_size ≡ h.latest_file_size)
    × (h'.largest_id ≡ h.largest_id)
    × (h'.block_size ≡ h.block_size)
    × (h'.buffer_size ≡ h.buffer_size)

write_latest-SameSizes :
    (h : HpFile) (b : Bytes) {h' : HpFile} → write_latest h b ≡ ok h' → SameSizes h h'
unfolding write_latest
write_latest-SameSizes h b e = written (h.file_map h.largest_id) e
  where
    written :
        (o : Option File) {h' : HpFile}
        → elim o [
          | none ↦ err
          | some f ↦
              ok (record h { file_map = put_file h.file_map h.largest_id (some (write f b)) })
        ]
          ≡ ok h'
        → SameSizes h h'
    written none e = cc
    written (some f) e = (cc, cc, cc, cc)

flush-SameSizes : (h : HpFile) {h' : HpFile} → flush h ≡ ok h' → SameSizes h h'
unfolding flush
flush-SameSizes h e = elim (if-eq (length h.buffer == 0) e) [
  | inl (t, x) ↦ (cc, cc, cc, cc)
  | inr (t, x) ↦ flushed (write_latest h h.buffer) (λ h₁ w. write_latest-SameSizes h h.buffer w) x
]
  where
    flushed :
        (r : Result HpFile) {h' : HpFile}
        → ((h₁ : HpFile) → r ≡ ok h₁ → SameSizes h h₁)
        → elim r [ ok h' ↦ ok (record h' { buffer = [] }) | err ↦ panic | panic ↦ panic ] ≡ ok h'
        → SameSizes h h'
    flushed (ok h₁) same x = (let (a, b, c, d) = same h₁ refl in (cc, cc, cc, cc))
    flushed err same x = cc
    flushed panic same x = cc

of_fields :
    (n : ℕ) (h h' : HpFile)
    → h'.latest_file_size ≡ h.latest_file_size + n
    → h'.largest_id ≡ h.largest_id
    → h'.block_size ≡ h.block_size
    → h'.buffer_size ≡ h.buffer_size
    → GrowsBy n h h'
unfolding size
of_fields n h h' a b c d = record {
  size_after = rw (a, b, c) (omega arith);
  buffer_size_kept = d;
  block_size_kept = c;
}

append_buf-GrowsBy :
    (h : HpFile) (b : Bytes) {h' : HpFile} → append_buf h b ≡ ok h' → GrowsBy (length b) h h'
unfolding append_buf
append_buf-GrowsBy h b {h' = h'} e = elim (if-eq (ltb h.buffer_size (length b)) e) [
  | inl (t, x) ↦ absurd cc
  | inr (t, x) ↦ elim (if-eq (ltb h.buffer_size (length h.buffer + length b)) x) [
    | inl (u, y) ↦
        (let (h₁, w, z) = bind-eq-ok (write_latest _ _) _ y in
          let (c₁, c₂, c₃, c₄) = write_latest-SameSizes _ _ w in
          of_fields (length b) h h' (cc) (cc) (cc) (cc))
    | inr (u, y) ↦ of_fields (length b) h h' (cc) (cc) (cc) (cc)
  ]
]

append_bufs-GrowsBy :
    (h : HpFile) (bufs : List Bytes) {h' : HpFile}
    → append_bufs h bufs ≡ ok h'
    → GrowsBy (length (joined bufs)) h h'
unfolding append_bufs
append_bufs-GrowsBy h [] {h' = h'} e =
    (let same : h ≡ h' = cc in
      of_fields 0 h h' (omega (arith, ap (λ x. x.latest_file_size) same)) (cc) (cc) (cc))
append_bufs-GrowsBy h (b ∷ bs) {h' = h'} e =
    (let (h₁, x, y) = bind-eq-ok (append_buf h b) _ e in
      let g = append_buf-GrowsBy h b x in
      let k = append_bufs-GrowsBy h₁ bs {h' = h'} y in
      record {
        size_after = omega (arith, g.size_after, k.size_after, length-append b (joined bs));
        buffer_size_kept = k.buffer_size_kept ∙ g.buffer_size_kept;
        block_size_kept = k.block_size_kept ∙ g.block_size_kept;
      })

rolled : (l b n : ℕ) → ltb n b ≡ false → (l + 1) * b + (n - b) ≡ l * b + n + 0
rolled l b n t = grind (arith, t)

roll_over-GrowsBy : (h : HpFile) {h' : HpFile} → roll_over h ≡ ok h' → GrowsBy 0 h h'
unfolding roll_over size
roll_over-GrowsBy h {h' = h'} e = elim (if-eq (ltb h.latest_file_size h.block_size) e) [
  | inl (t, x) ↦
      (let same : h ≡ h' = cc in
        of_fields 0 h h' (omega (arith, ap (λ x. x.latest_file_size) same)) (cc) (cc) (cc))
  | inr (t, x) ↦
      (let (h₁, f, y) = bind-eq-ok (flush h) _ x in
        let (c₁, c₂, c₃, c₄) = flush-SameSizes h f in
        elim (if-eq (ltb h.buffer_size (h.latest_file_size - h.block_size)) y) [
          | inl (u, z) ↦ absurd cc
          | inr (u, z) ↦
              (let l : h'.largest_id ≡ h.largest_id + 1 = cc in
                let b : h'.block_size ≡ h.block_size = cc in
                let n : h'.latest_file_size ≡ h.latest_file_size - h.block_size = cc in
                record {
                  size_after = rw (l, b, n) (rolled h.largest_id h.block_size h.latest_file_size t);
                  buffer_size_kept = cc;
                  block_size_kept = b;
                })
        ])
]

-- Append that succeeds, in any state of the file, answers the size that the file had, adds just the
-- bytes of the buffers to it, also where a new block begins, and leaves the sizes of blocks and buffer.
pub append-GrowsBy :
    (h : HpFile) (bufs : List Bytes) {h' : HpFile} {at : ℕ}
    → append h bufs ≡ ok (h', at)
    → (at ≡ size h) × GrowsBy (length (joined bufs)) h h'
unfolding append
append-GrowsBy h bufs {h' = h'} {at = at} e =
    (let (h₁, x, y) = bind-eq-ok (append_bufs h bufs) _ e in
      let (h₂, z, w) = bind-eq-ok (roll_over h₁) _ y in
      let g = append_bufs-GrowsBy h bufs x in
      let k = roll_over-GrowsBy h₁ z in
      let same : h₂ ≡ h' = cc in
      (
        cc,
        subst (λ t. GrowsBy (length (joined bufs)) h t) same
            (record {
              size_after = omega (arith, g.size_after, k.size_after);
              buffer_size_kept = k.buffer_size_kept ∙ g.buffer_size_kept;
              block_size_kept = k.block_size_kept ∙ g.block_size_kept;
            }),
      ))
