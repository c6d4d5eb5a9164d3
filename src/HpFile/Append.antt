-- ===== src/HpFile/Append.antt =====
-- Append writes one record where `size` was, and what was there before stays.
use onvakv.Base.{
  ℕ, ◌/◌, ◌%◌, ◌≤◌, ◌<◌, ◌≡◌, refl, sym, ap, subst, ◌∙◌, true, false, Option, none, some,
  some-injective, List, [], ◌∷◌, ◌++◌, append_assoc, append-nil, length, ltb, ◌==◌, if◌then◌else◌,
  arith, All, Bool-cases, inl, inr,
}
use onvakv.Base.Result.{ok}
use onvakv.Types.{Bytes}
use onvakv.HpFile.Disk.{HpFile, append_bufs, size}
use onvakv.HpFile.View.{IsOpen, Grown, append_buf-Grown}

-- The bytes of a list of buffers, one behind the other.
abbrev pub joined : List Bytes → Bytes
joined [] = []
joined (b ∷ bs) = b ++ joined bs

Grown-refl : (h : HpFile) (v : IsOpen h) → Grown h v [] h
Grown-refl h v = record {
  opened = v;
  block_size = refl;
  buffer_size = refl;
  largest_id = refl;
  tail = sym (append-nil (v.latest.content ++ h.buffer));
  others = λ j e. refl;
}

Grown-trans :
    {h h' h'' : HpFile} (v : IsOpen h) (b c : Bytes) (g : Grown h v b h')
    → Grown h' g.opened c h''
    → Grown h v (b ++ c) h''
Grown-trans {h} v b c g k = record {
  opened = k.opened;
  block_size = k.block_size ∙ g.block_size;
  buffer_size = k.buffer_size ∙ g.buffer_size;
  largest_id = k.largest_id ∙ g.largest_id;
  tail = k.tail ∙ ap (λ t. t ++ c) g.tail ∙ append_assoc (v.latest.content ++ h.buffer) b c;
  others = λ j e. k.others j (ap (λ t. j == t) g.largest_id ∙ e) ∙ g.others j e;
}

pub append_bufs-Grown :
    (bufs : List Bytes) (h : HpFile) (v : IsOpen h)
    → All (λ b. length b ≤ h.buffer_size) bufs
    → (h' : HpFile) × (append_bufs h bufs ≡ ok h') × Grown h v (joined bufs) h'
unfolding append_bufs
append_bufs-Grown [] h v fits = (h, refl, Grown-refl h v)
append_bufs-Grown (b ∷ bs) h v (fit, fits) =
    let (h', e, g) = append_buf-Grown h v b fit in
    let (h'', e', g') =
      append_bufs-Grown bs h' g.opened
        (subst (λ n. All (λ c. length c ≤ n) bs) (sym g.buffer_size) fits) in
    (h'', rw e e', Grown-trans v b (joined bs) g g')

-- The block as it will be when the buffer is written.
unfoldable pub view : HpFile → ℕ → Option Bytes
view h id = elim (h.file_map id) [
  | none ↦ none
  | some f ↦ some (if id == h.largest_id then f.content ++ h.buffer else f.content)
]

-- `b` can be read at `off` once the buffer is written.
pub record Holds (h : HpFile) (off : ℕ) (b : Bytes) : Type 0 where
  pub front : Bytes
  pub rest : Bytes
  pub block : view h (off / h.block_size) ≡ some (front ++ (b ++ rest))
  pub starts : length front ≡ off % h.block_size

-- A file that is ready for Append.
pub record IsReady (h : HpFile) : Type 0 where
  pub opened : IsOpen h
  pub not_full : h.latest_file_size < h.block_size
  pub buffer_fits : h.buffer_size ≤ h.block_size
  pub last : (j : ℕ) → ltb h.largest_id j ≡ true → h.file_map j ≡ none

pub view-latest :
    (h : HpFile) (v : IsOpen h) → view h h.largest_id ≡ some (v.latest.content ++ h.buffer)
unfolding view
view-latest h v = rw (v.at_latest, view) (ground arith)

pub view-other :
    (h h' : HpFile) (j : ℕ)
    → (j == h.largest_id) ≡ false
    → (j == h'.largest_id) ≡ false
    → h'.file_map j ≡ h.file_map j
    → view h' j ≡ view h j
unfolding view
view-other h h' j e e' f = ground (arith, e, e', f)

-- Every block is still there, possibly with more behind it.
abbrev pub Extends : HpFile → HpFile → Type 0
Extends h h' = (j : ℕ) (c : Bytes) → view h j ≡ some c → (r : Bytes) × (view h' j ≡ some (c ++ r))

pub Holds-Extends :
    {h h' : HpFile}
    → Extends h h'
    → h'.block_size ≡ h.block_size
    → (off : ℕ) (b : Bytes) → Holds h off b
    → Holds h' off b
Holds-Extends {h} {h'} more size off b k =
    let (r, e) = more (off / h.block_size) (k.front ++ (b ++ k.rest)) k.block in
    record {
      front = k.front;
      rest = k.rest ++ r;
      block =
          ap (λ n. view h' (off / n)) size
          ∙ e
          ∙ ap some (
              append_assoc k.front (b ++ k.rest) r
              ∙ ap (λ t. k.front ++ t) (append_assoc b k.rest r));
      starts = k.starts ∙ ap (λ n. off % n) (sym size);
    }

pub same-block :
    (h h' : HpFile) (j : ℕ)
    → view h' j ≡ view h j
    → (c : Bytes) → view h j ≡ some c
    → (r : Bytes) × (view h' j ≡ some (c ++ r))
same-block h h' j e c k = ([], e ∙ k ∙ ap some (sym (append-nil c)))

pub Grown-Extends : {h h' : HpFile} (v : IsOpen h) {b : Bytes} → Grown h v b h' → Extends h h'
Grown-Extends {h} {h'} v {b} g j c k = elim (Bool-cases (j == h.largest_id)) [
  | inl e ↦
      let here : j ≡ h.largest_id = ground (arith, e) in
      let was : c ≡ v.latest.content ++ h.buffer =
        some-injective c (v.latest.content ++ h.buffer)
          (sym k ∙ ap (λ i. view h i) here ∙ view-latest h v) in
      (
        b,
        ap (λ i. view h' i) (here ∙ sym g.largest_id)
            ∙ view-latest h' g.opened
            ∙ ap some (g.tail ∙ ap (λ t. t ++ b) (sym was)),
      )
  | inr e ↦
      same-block h h' j (view-other h h' j e (ap (λ t. j == t) g.largest_id ∙ e) (g.others j e)) c k
]
