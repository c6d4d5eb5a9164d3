-- ===== src/TwigFile/Written.antt =====
-- A twig that AppendTwig wrote is read back once the file is flushed.
use onvakv.Base.{
  ℕ, zero, suc, ◌+◌, ◌-◌, ◌*◌, ◌^◌, ◌<◌, ◌≤◌, ◌≡◌, refl, sym, subst, ◌∙◌, arith, false, ◌||◌, not,
  List, [], ◌∷◌, ◌++◌, append-nil, none-ne-some, some-injective, some, All, length, take-append,
  drop-append, length-append, get_elem?, leb, ◌==◌,
}
use onvakv.Base.Int.{pos, to_u64, from_u64-to_u64, to_u64-lt}
use onvakv.Base.Words.{put_le, length-put_le, get_le-put_le_64}
use onvakv.Base.Result.{ok}
use onvakv.Types.{Bytes}
use onvakv.ByteSlices.{bytes_eq_refl}
use onvakv.HpFile.Disk.{HpFile, append, flush, read_at, size}
use onvakv.HpFile.Append.{Holds, IsReady, joined}
use onvakv.HpFile.Roll.{flush-read_at}
use onvakv.HpFile.Appended.{append-Holds}
use onvakv.HpFile.Sized.{append-GrowsBy}
use onvakv.TwigFile.Operations.{
  twig_mt_entry_count, twig_mt_size, must, append_hashes, append_twig, get_first_entry_pos,
  get_hash_node,
}

-- What a run of appends leaves: everything held before, and `n` bytes more.
record Appended (n : ℕ) (h h' : HpFile) : Type 0 where
  ready : IsReady h'
  size_after : size h' ≡ size h + n
  buffer_size_kept : h'.buffer_size ≡ h.buffer_size
  kept : (off : ℕ) (b : Bytes) → Holds h off b → Holds h' off b

append-Appended :
    (h : HpFile) (bufs : List Bytes)
    → IsReady h
    → length (joined bufs) ≤ h.buffer_size
    → (h' : HpFile) × (append h bufs ≡ ok (h', size h))
      × Holds h' (size h) (joined bufs)
      × Appended (length (joined bufs)) h h'
append-Appended h bufs v fits =
    (let (h', e, ready, held, kept) = append-Holds h bufs v fits in
      let (at, g) = append-GrowsBy h bufs e in
      (
        h',
        e,
        held,
        record {
          ready = ready;
          size_after = g.size_after;
          buffer_size_kept = g.buffer_size_kept;
          kept = kept;
        },
      ))

nth_held :
    (h h₁ h₂ : HpFile) (m : Bytes) (ms : List Bytes)
    → Holds h₂ (size h) m
    → size h₁ ≡ size h + 32
    → ((i : ℕ) (c : Bytes) → get_elem? ms i ≡ some c → Holds h₂ (size h₁ + 32 * i) c)
    → (i : ℕ) (c : Bytes) → get_elem? (m ∷ ms) i ≡ some c
    → Holds h₂ (size h + 32 * i) c
nth_held h h₁ h₂ m ms held e rest zero c x =
    (let z : size h ≡ size h + 32 * 0 = omega arith in
      subst (λ t. Holds h₂ (size h + 32 * 0) t) (some-injective m c x)
        (subst (λ n. Holds h₂ n m) z held))
nth_held h h₁ h₂ m ms held e rest (suc i) c x =
    (let z : size h₁ + 32 * i ≡ size h + 32 * suc i = omega (arith, e) in
      subst (λ n. Holds h₂ n c) z (rest i c x))

append_hashes-Appended :
    (h : HpFile) (ms : List Bytes)
    → IsReady h
    → 32 ≤ h.buffer_size
    → All (λ m. length m ≡ 32) ms
    → (h' : HpFile) × (append_hashes h ms ≡ ok h')
      × Appended (32 * length ms) h h'
      × ((i : ℕ) (m : Bytes) → get_elem? ms i ≡ some m → Holds h' (size h + 32 * i) m)
unfolding append_hashes must
append_hashes-Appended h [] v room lens = (
  h,
  refl,
  record { ready = v; size_after = omega arith; buffer_size_kept = refl; kept = λ off b k. k },
  λ i m e. absurd (none-ne-some m e),
)
append_hashes-Appended h (m ∷ ms) v room (len, lens) =
    (let (h₁, e, held, a) =
        append-Appended h (m ∷ []) v (omega (arith, room, len, length-append m [])) in
      let (h₂, e', b, hs) =
        append_hashes-Appended h₁ ms a.ready (omega (arith, room, a.buffer_size_kept)) lens in
      let n : length (m ++ []) ≡ 32 = omega (arith, len, length-append m []) in
      (
        h₂,
        rw (e, e') refl,
        record {
          ready = b.ready;
          size_after = omega (arith, a.size_after, b.size_after, n);
          buffer_size_kept = b.buffer_size_kept ∙ a.buffer_size_kept;
          kept = λ off c k. b.kept off c (a.kept off c k);
        },
        λ i c x.
            nth_held h h₁ h₂ m ms
              (b.kept (size h) m (subst (λ t. Holds h₁ (size h) t) (append-nil m) held))
              (omega (arith, a.size_after, n)) hs i c x,
      ))

get_elem?-lt {ℓ} :
    {A : Type ℓ} (xs : List A) (i : ℕ) {a : A} → get_elem? xs i ≡ some a → i < length xs
get_elem?-lt [] i e = absurd (none-ne-some _ e)
get_elem?-lt (x ∷ xs) zero e = omega arith
get_elem?-lt (x ∷ xs) (suc i) e = omega (arith, get_elem?-lt xs i e)

All-get_elem? {ℓ} :
    {A : Type ℓ} (P : A → Type 0) (xs : List A) (i : ℕ) {a : A}
    → All P xs
    → get_elem? xs i ≡ some a
    → P a
All-get_elem? P [] i h e = absurd (none-ne-some _ e)
All-get_elem? P (x ∷ xs) zero {a = a} (p, h) e = subst P (some-injective x a e) p
All-get_elem? P (x ∷ xs) (suc i) (p, h) e = All-get_elem? P xs i h e

get_hash_node-of :
    (h : HpFile) (twig_id i : ℕ) (m : Bytes)
    → i < 4095
    → read_at h (twig_id * twig_mt_size + 12 + 32 * i) 32 ≡ ok m
    → get_hash_node h twig_id (i + 1) ≡ ok m
unfolding get_hash_node must
get_hash_node-of h twig_id i m l e =
    (let t : (leb (i + 1) 0 || leb 4096 (i + 1)) ≡ false = ground arith in
      let z : twig_id * twig_mt_size + 12 + (i + 1 - 1) * 32
          ≡ twig_id * twig_mt_size + 12 + 32 * i =
        omega arith in
      rw (t, z, e) refl)

module _ (meow : Bytes → Bytes) where
  abbrev header : ℕ → Bytes
  header n = put_le 8 (to_u64 (pos n)) ++ (meow (put_le 8 (to_u64 (pos n))) ++ [])

  length-header : (n : ℕ) → ((b : Bytes) → length (meow b) ≡ 4) → length (header n) ≡ 12
  length-header n four =
      (let buf = put_le 8 (to_u64 (pos n)) in
        omega (
          arith,
          length-append buf (meow buf ++ []),
          length-append (meow buf) [],
          length-put_le 8 (to_u64 (pos n)),
          four buf,
        ))

  get_first_entry_pos-of :
      (h : HpFile) (twig_id n : ℕ)
      → n < 2 ^ 63
      → read_at h (twig_id * twig_mt_size) 12 ≡ ok (header n)
      → get_first_entry_pos meow h twig_id ≡ ok (pos n)
  unfolding get_first_entry_pos must
  get_first_entry_pos-of h twig_id n l e =
      (let w = to_u64 (pos n) in
        let buf = put_le 8 w in
        rw
          (
            e,
            take-append buf (meow buf ++ []) 8 (sym (length-put_le 8 w)),
            drop-append buf (meow buf ++ []) 8 (sym (length-put_le 8 w)),
            append-nil (meow buf),
            bytes_eq_refl (meow buf),
            get_le-put_le_64 w (to_u64-lt (pos n)),
            from_u64-to_u64 (pos n) l,
          )
          refl)

  append_twig-of :
      (h h₀ h₁ : HpFile) (mtree : List Bytes) (n at : ℕ)
      → length mtree ≡ twig_mt_entry_count
      → append h (put_le 8 (to_u64 (pos n)) ∷ meow (put_le 8 (to_u64 (pos n))) ∷ []) ≡ ok (h₀, at)
      → append_hashes h₀ mtree ≡ ok h₁
      → append_twig meow h mtree (pos n) ≡ ok h₁
  unfolding append_twig must
  append_twig-of h h₀ h₁ mtree n at c e e' =
      (let t : not (length mtree == twig_mt_entry_count) ≡ false = ground (arith, c) in
        rw (t, e, e') refl)

  -- AppendTwig of 4095 hashes with a position that is not negative, on a file that is ready and ends
  -- where the twig is to stand, is done without a panic and the file ends where the next twig is to stand.
  -- Once it is flushed, GetFirstEntryPos returns the position, GetHashNode every hash under its number,
  -- counted from 1, and whatever was held before is read as before.
  pub append_twig-read :
      (h : HpFile) (mtree : List Bytes) (n twig_id : ℕ)
      → IsReady h
      → size h ≡ twig_id * twig_mt_size
      → 32 ≤ h.buffer_size
      → ((b : Bytes) → length (meow b) ≡ 4)
      → n < 2 ^ 63
      → length mtree ≡ twig_mt_entry_count
      → All (λ m. length m ≡ 32) mtree
      → (h₁ : HpFile) × (h₂ : HpFile) × (append_twig meow h mtree (pos n) ≡ ok h₁)
        × IsReady h₁
        × (size h₁ ≡ (twig_id + 1) * twig_mt_size)
        × (flush h₁ ≡ ok h₂)
        × (get_first_entry_pos meow h₂ twig_id ≡ ok (pos n))
        × ((i : ℕ) (m : Bytes)
            → get_elem? mtree i ≡ some m
            → get_hash_node h₂ twig_id (i + 1) ≡ ok m)
        × ((off : ℕ) (b : Bytes) → Holds h off b → read_at h₂ off (length b) ≡ ok b)
  append_twig-read h mtree n twig_id v at room four small count lens =
      (let buf = put_le 8 (to_u64 (pos n)) in
        let twelve = length-header n four in
        let (h₀, e, held, a) =
          append-Appended h (buf ∷ meow buf ∷ []) v (omega (arith, room, twelve)) in
        let (h₁, e', b, hs) =
          append_hashes-Appended h₀ mtree a.ready (omega (arith, room, a.buffer_size_kept)) lens in
        let (h₂, fl, _, read) = flush-read_at h₁ b.ready.opened in
        let start : size h₀ ≡ twig_id * twig_mt_size + 12 =
          omega (arith, a.size_after, at, twelve) in
        (
          h₁,
          h₂,
          append_twig-of h h₀ h₁ mtree n (size h) count e e',
          b.ready,
          unfold twig_mt_size twig_mt_entry_count in
              omega (arith, b.size_after, a.size_after, at, twelve, count),
          fl,
          get_first_entry_pos-of h₂ twig_id n small (
              subst (λ x. read_at h₂ x 12 ≡ ok (header n)) at
                (subst (λ x. read_at h₂ (size h) x ≡ ok (header n)) twelve
                  (read (size h) (header n) (b.kept (size h) (header n) held)))),
          λ i m x.
              get_hash_node-of h₂ twig_id i m
                (unfold twig_mt_entry_count in omega (arith, get_elem?-lt mtree i x, count))
                (subst (λ y. read_at h₂ (y + 32 * i) 32 ≡ ok m) start
                  (subst (λ y. read_at h₂ (size h₀ + 32 * i) y ≡ ok m)
                    (All-get_elem? (λ c. length c ≡ 32) mtree i lens x)
                    (read (size h₀ + 32 * i) m (hs i m x)))),
          λ off c k. read off c (b.kept off c (a.kept off c k)),
        ))
