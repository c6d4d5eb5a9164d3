-- ===== src/HpFile/Roll.antt =====
-- Flush, the change to a new file, and Append as a whole: the record stands where Size was.
use onvakv.Base.{
  ℕ, ◌/◌, ◌%◌, ◌≡◌, refl, sym, ap, ◌∙◌, true, false, none, some, some-injective, none-ne-some, [],
  ◌∷◌, ◌++◌, append-nil, length, ◌==◌, arith, take-append, drop-append, length-append, Bool-cases,
  inl, inr, Option-cases,
}
use onvakv.Base.Result.{ok}
use onvakv.Types.{Bytes}
use onvakv.HpFile.Disk.{File, HpFile, put_file, flush, file_read_at, read_at}
use onvakv.HpFile.View.{IsOpen, longer, write_latest_at_end, put_file_self, put_file_ne}
use onvakv.HpFile.Append.{view, view-latest, Extends, Holds}

-- What Flush leaves.
pub record Flushed (h : HpFile) (v : IsOpen h) (h' : HpFile) : Type 0 where
  pub latest : File
  pub at_latest : h'.file_map h.largest_id ≡ some latest
  pub content : latest.content ≡ v.latest.content ++ h.buffer
  pub at_end : latest.offset ≡ length latest.content
  pub emptied : h'.buffer ≡ []
  pub block_size : h'.block_size ≡ h.block_size
  pub buffer_size : h'.buffer_size ≡ h.buffer_size
  pub largest_id : h'.largest_id ≡ h.largest_id
  pub latest_file_size : h'.latest_file_size ≡ h.latest_file_size
  pub others : (j : ℕ) → (j == h.largest_id) ≡ false → h'.file_map j ≡ h.file_map j

empty : (b : Bytes) → (length b == 0) ≡ true → b ≡ []
empty [] e = refl
empty (x ∷ b) e = absurd (ground (arith, e))

pub flush-Flushed : (h : HpFile) (v : IsOpen h) → (h' : HpFile) × (flush h ≡ ok h') × Flushed h v h'
flush-Flushed h v = elim (Bool-cases (length h.buffer == 0)) [
  | inl e ↦ (
    h,
    unfold flush in rw e,
    record {
      latest = v.latest;
      at_latest = v.at_latest;
      content =
          sym (ap (λ t. v.latest.content ++ t) (empty h.buffer e) ∙ append-nil v.latest.content);
      at_end = v.at_end;
      emptied = empty h.buffer e;
      block_size = refl;
      buffer_size = refl;
      largest_id = refl;
      latest_file_size = refl;
      others = λ j n. refl;
    },
  )
  | inr e ↦ (
    record h {
      file_map = put_file h.file_map h.largest_id (some (longer v.latest h.buffer));
      buffer = [];
    },
    unfold flush in rw (e, write_latest_at_end h v.latest h.buffer v.at_latest v.at_end),
    record {
      latest = longer v.latest h.buffer;
      at_latest = put_file_self h.file_map h.largest_id (some (longer v.latest h.buffer));
      content = refl;
      at_end = sym (length-append v.latest.content h.buffer);
      emptied = refl;
      block_size = refl;
      buffer_size = refl;
      largest_id = refl;
      latest_file_size = refl;
      others = λ j n. put_file_ne h.file_map h.largest_id j (some (longer v.latest h.buffer)) n;
    },
  )
]

pub unseen : (h : HpFile) (j : ℕ) → h.file_map j ≡ none → view h j ≡ none
unfolding view
unseen h j e = rw (e, view)

pub seen :
    (h : HpFile) (j : ℕ) (g : File)
    → h.file_map j ≡ some g
    → (j == h.largest_id) ≡ false
    → view h j ≡ some g.content
unfolding view
seen h j g e n = rw (e, view) (ground (arith, n))

-- After Flush the files hold what the view showed.
pub in_file :
    (h h' : HpFile) (v : IsOpen h)
    → Flushed h v h'
    → (j : ℕ) (c : Bytes) → view h j ≡ some c
    → (f : File) × (h'.file_map j ≡ some f) × (f.content ≡ c)
in_file h h' v f j c k = elim (Bool-cases (j == h.largest_id)) [
  | inl e ↦
      let here : j ≡ h.largest_id = ground (arith, e) in
      (
        f.latest,
        ap h'.file_map here ∙ f.at_latest,
        f.content
            ∙ some-injective (v.latest.content ++ h.buffer) c
                (sym (view-latest h v) ∙ ap (λ i. view h i) (sym here) ∙ k),
      )
  | inr e ↦ elim (Option-cases (h.file_map j)) [
    | inl none_there ↦ absurd (none-ne-some c (sym (unseen h j none_there) ∙ k))
    | inr (g, there) ↦
        (g, f.others j e ∙ there, some-injective g.content c (sym (seen h j g there e) ∙ k))
  ]
]

view-content :
    (h : HpFile) (j : ℕ) (g : File)
    → h.file_map j ≡ some g
    → h.buffer ≡ []
    → view h j ≡ some g.content
unfolding view
view-content h j g e b = rw (e, view, b, append-nil g.content) (ground arith)

pub read_at-found :
    (h : HpFile) (g : File) (off n : ℕ)
    → h.file_map (off / h.block_size) ≡ some g
    → read_at h off n ≡ file_read_at g (off % h.block_size) n
unfolding read_at
read_at-found h g off n e = rw (e, read_at)

Flushed-Extends : (h h' : HpFile) (v : IsOpen h) → Flushed h v h' → Extends h h'
Flushed-Extends h h' v f j c k =
    let (g, e, same) = in_file h h' v f j c k in
    ([], view-content h' j g e f.emptied ∙ ap some (same ∙ sym (append-nil c)))

file_read_at-within :
    (f : File) (front b rest : Bytes)
    → f.content ≡ front ++ (b ++ rest)
    → file_read_at f (length front) (length b) ≡ ok b
unfolding file_read_at
file_read_at-within f front b rest e =
    rw
      (
        e,
        length-append front (b ++ rest),
        length-append b rest,
        drop-append front (b ++ rest),
        take-append b rest,
      )
      (ground arith)

-- Flush of an open file is done without an error, it empties the buffer, and every byte string that
-- was held is then read at its offset.
pub flush-read_at :
    (h : HpFile)
    → IsOpen h
    → (h' : HpFile) × (flush h ≡ ok h')
      × (h'.buffer ≡ [])
      × ((off : ℕ) (b : Bytes) → Holds h off b → read_at h' off (length b) ≡ ok b)
flush-read_at h v =
    let (h', e, f) = flush-Flushed h v in
    (
      h',
      e,
      f.emptied,
      λ off b k.
          let (g, at, same) =
            in_file h h' v f (off / h.block_size) (k.front ++ (b ++ k.rest)) k.block in
          read_at-found h' g off (length b) (ap (λ n. h'.file_map (off / n)) f.block_size ∙ at)
          ∙ ap (λ n. file_read_at g (off % n) (length b)) f.block_size
          ∙ ap (λ n. file_read_at g n (length b)) (sym k.starts)
          ∙ file_read_at-within g k.front b k.rest same,
    )
