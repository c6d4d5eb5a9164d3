-- ===== src/HpFile/ReadAhead.antt =====
-- Reading through the read-ahead buffer gives what the file holds, short of its last byte.
use onvakv.Base.{
  ℕ, zero, suc, ◌+◌, ◌-◌, ◌≤◌, ◌<◌, ◌≡◌, refl, sym, ap, ◌∙◌, Bool, true, false, ◌&&◌, ◌||◌, none,
  some, some-injective, none-ne-some, List, [], ◌∷◌, length, take, drop, ltb, leb, if◌then◌else◌,
  arith, take-append, length-take, length-drop, Bool-cases, Option-cases, inl, inr,
}
use onvakv.Base.Result.{ok, panic}
use onvakv.Types.{Bytes}
use onvakv.HpFile.Disk.{File, file_read_at}
use onvakv.HpFile.PreReader.{
  pre_read_buf_size, PreReader, is_file, try_read, fill, read_file_with_buf,
}

take-drop-take {ℓ} :
    {A : Type ℓ} (xs : List A) (m k n : ℕ)
    → k + n ≤ m
    → take n (drop k (take m xs)) ≡ take n (drop k xs)
take-drop-take [] zero zero n h = refl
take-drop-take [] zero (suc k) n h = refl
take-drop-take [] (suc m) zero n h = refl
take-drop-take [] (suc m) (suc k) n h = refl
take-drop-take (x ∷ xs) zero zero zero h = refl
take-drop-take (x ∷ xs) zero zero (suc n) h = absurd (omega arith)
take-drop-take (x ∷ xs) zero (suc k) n h = absurd (omega arith)
take-drop-take (x ∷ xs) (suc m) zero zero h = refl
take-drop-take (x ∷ xs) (suc m) zero (suc n) h =
    ap (λ t. x ∷ t) (take-drop-take xs m zero n (omega arith))
take-drop-take (x ∷ xs) (suc m) (suc k) n h = take-drop-take xs m k n (omega arith)

drop-nil {ℓ} : {A : Type ℓ} (n : ℕ) → drop {A = A} n [] ≡ []
drop-nil zero = refl
drop-nil (suc n) = refl

drop-drop {ℓ} : {A : Type ℓ} (xs : List A) (m k : ℕ) → drop k (drop m xs) ≡ drop (m + k) xs
drop-drop [] m k = rw (drop-nil m, drop-nil k, drop-nil (m + k)) refl
drop-drop (x ∷ xs) zero k = let e : k ≡ 0 + k = omega arith in ap (λ i. drop i (x ∷ xs)) e
drop-drop (x ∷ xs) (suc m) k =
    let e : suc (m + k) ≡ suc m + k = omega arith in drop-drop xs m k ∙ ap (λ i. drop i (x ∷ xs)) e

take_taken {ℓ} : {A : Type ℓ} (xs : List A) (n : ℕ) → take (length (take n xs)) xs ≡ take n xs
take_taken [] zero = refl
take_taken [] (suc n) = refl
take_taken (x ∷ xs) zero = refl
take_taken (x ∷ xs) (suc n) = ap (λ t. x ∷ t) (take_taken xs n)

-- What the buffer says of the file is so.
pub record Caches (pr : PreReader) (f : File) : Type 0 where
  pub ordered : pr.start ≤ pr.end_
  pub inside : pr.end_ ≤ length f.content
  pub same : take (pr.end_ - pr.start) pr.buf ≡ take (pr.end_ - pr.start) (drop pr.start f.content)

part : File → ℕ → Bytes
part f pos = take pre_read_buf_size (drop pos f.content)

length-part :
    (f : File) (pos : ℕ)
    → pos ≤ length f.content
    → (length (part f pos) ≤ pre_read_buf_size)
      × (pos + length (part f pos) ≤ length f.content)
      × (length (part f pos) < pre_read_buf_size → pos + length (part f pos) ≡ length f.content)
unfolding part
length-part f pos le =
    let taken = length-take pre_read_buf_size (drop pos f.content) in
    let dropped = length-drop pos f.content in
    (
      omega (arith, taken),
      omega (arith, taken, dropped, le),
      λ short. omega (arith, taken, dropped, le, short),
    )

fill-end :
    (pr : PreReader) (f : File) (id pos : ℕ)
    → pos ≤ length f.content
    → (fill pr f id pos).end_ ≡ pos + length (part f pos)
unfolding fill part
fill-end pr f id pos le = let (most, _, _) = length-part f pos le in ground (arith, most)

fill-Caches :
    (pr : PreReader) (f : File) (id pos : ℕ) → pos ≤ length f.content → Caches (fill pr f id pos) f
unfolding fill part
fill-Caches pr f id pos le =
    let ends = fill-end pr f id pos le in
    let (_, within, _) = length-part f pos le in
    record {
      ordered = omega (arith, ends);
      inside = omega (arith, ends, within);
      same =
          let count : (fill pr f id pos).end_ - pos ≡ length (part f pos) = omega (arith, ends) in
          ap (λ k. take k (fill pr f id pos).buf) count
          ∙ take-append (part f pos) (drop (length (part f pos)) pr.buf) (length (part f pos)) refl
          ∙ sym (take_taken (drop pos f.content) pre_read_buf_size)
          ∙ ap (λ k. take k (drop pos f.content)) (sym count);
    }

-- The buffer is right about file `id`.
abbrev pub Knows : PreReader → ℕ → File → Type 0
Knows pr id f = is_file pr.file_id id ≡ true → Caches pr f

hit-content :
    (pr : PreReader) (f : File) (pos n : ℕ)
    → Caches pr f
    → pr.start ≤ pos
    → pos + n < pr.end_
    → take n (drop (pos - pr.start) pr.buf) ≡ take n (drop pos f.content)
hit-content pr f pos n c low high =
    let m = pr.end_ - pr.start in
    let k = pos - pr.start in
    let fits : k + n ≤ m = omega (arith, low, high) in
    sym (take-drop-take pr.buf m k n fits)
    ∙ ap (λ t. take n (drop k t)) c.same
    ∙ take-drop-take (drop pr.start f.content) m k n fits
    ∙ ap (take n) (drop-drop f.content pr.start k)
    ∙ ap (λ i. take n (drop i f.content)) (omega (arith, low))

file_read_at-within :
    (f : File) (pos n : ℕ)
    → pos + n ≤ length f.content
    → file_read_at f pos n ≡ ok (take n (drop pos f.content))
unfolding file_read_at
file_read_at-within f pos n h = ground (arith, h)

and-true : (a b : Bool) → (a && b) ≡ true → (a ≡ true) × (b ≡ true)
and-true true b h = (refl, h)
and-true false b h = absurd (cc)

-- What TryRead gives is what the file holds.
try_read-hit :
    (pr : PreReader) (f : File) (id pos n : ℕ) (b : Bytes)
    → Knows pr id f
    → try_read pr id pos n ≡ some b
    → (b ≡ take n (drop pos f.content)) × (pos + n < length f.content)
unfolding try_read
try_read-hit pr f id pos n b k h =
    elim (Bool-cases (is_file pr.file_id id && (leb pr.start pos && ltb (pos + n) pr.end_))) [
      | inr miss ↦ absurd (
          none-ne-some b (
            sym (ap (λ t. if t then some (take n (drop (pos - pr.start) pr.buf)) else none) miss)
            ∙ h))
      | inl found ↦
          let (here, bounds) =
            and-true (is_file pr.file_id id) (leb pr.start pos && ltb (pos + n) pr.end_) found in
          let (low, high) = and-true (leb pr.start pos) (ltb (pos + n) pr.end_) bounds in
          let c = k here in
          let high' : pos + n < pr.end_ = ground (arith, high) in
          let hit : some (take n (drop (pos - pr.start) pr.buf)) ≡ some b =
            sym (ap (λ t. if t then some (take n (drop (pos - pr.start) pr.buf)) else none) found)
            ∙ h in
          (
            sym (some-injective (take n (drop (pos - pr.start) pr.buf)) b hit)
                ∙ hit-content pr f pos n c (ground (arith, low)) high',
            omega (arith, high', c.inside),
          )
    ]

try_read-in :
    (pr : PreReader) (id pos n : ℕ)
    → is_file pr.file_id id ≡ true
    → pr.start ≤ pos
    → pos + n < pr.end_
    → try_read pr id pos n ≡ some (take n (drop (pos - pr.start) pr.buf))
unfolding try_read
try_read-in pr id pos n here low high = rw here (ground (arith, low, high))

try_read-out : (pr : PreReader) (id pos n : ℕ) → pr.end_ ≤ pos + n → try_read pr id pos n ≡ none
unfolding try_read
try_read-out pr id pos n h = ground (arith, h)

is_file-fill :
    (pr : PreReader) (f : File) (id pos : ℕ) → is_file (fill pr f id pos).file_id id ≡ true
unfolding is_file fill
is_file-fill pr f id pos = ground arith

start-fill : (pr : PreReader) (f : File) (id pos : ℕ) → (fill pr f id pos).start ≡ pos
unfolding fill
start-fill pr f id pos = refl

fill-hit :
    (pr : PreReader) (f : File) (id pos n : ℕ)
    → pos + n < length f.content
    → n < pre_read_buf_size
    → (b : Bytes) × (try_read (fill pr f id pos) id pos n ≡ some b)
fill-hit pr f id pos n inside small =
    let ends = fill-end pr f id pos (omega (arith, inside)) in
    let (_, _, short) = length-part f pos (omega (arith, inside)) in
    let past : pos + n < (fill pr f id pos).end_ = ground (arith, ends, short, inside, small) in
    (
      take n (drop (pos - (fill pr f id pos).start) (fill pr f id pos).buf),
      try_read-in (fill pr f id pos) id pos n (is_file-fill pr f id pos)
          (omega (arith, start-fill pr f id pos)) past,
    )

fill-miss :
    (pr : PreReader) (f : File) (id pos n : ℕ)
    → pos + n ≡ length f.content
    → try_read (fill pr f id pos) id pos n ≡ none
fill-miss pr f id pos n at_end =
    let ends = fill-end pr f id pos (omega (arith, at_end)) in
    let (_, within, _) = length-part f pos (omega (arith, at_end)) in
    try_read-out (fill pr f id pos) id pos n (omega (arith, ends, within, at_end))

-- A read through a buffer that is right, of bytes that end before the file does, gives what ReadAt
-- without the buffer gives, and leaves the buffer right.
pub read_file_with_buf-file_read_at :
    (block_size : ℕ) (pr : PreReader) (f : File) (id pos n : ℕ)
    → Knows pr id f
    → pos + n < length f.content
    → (b : Bytes) × (pr' : PreReader) × (read_file_with_buf block_size pr f id pos n ≡ ok (b, pr'))
      × (file_read_at f pos n ≡ ok b)
      × Knows pr' id f
unfolding read_file_with_buf
read_file_with_buf-file_read_at block_size pr f id pos n k inside =
    let direct = file_read_at-within f pos n (omega (arith, inside)) in
    let b = take n (drop pos f.content) in
    elim (Option-cases (try_read pr id pos n)) [
      | inr (c, hit) ↦
          let (same, _) = try_read-hit pr f id pos n c k hit in
          (b, pr, rw (hit, read_file_with_buf, same) refl, direct, k)
      | inl miss ↦ elim (Bool-cases (leb pre_read_buf_size n || ltb block_size (pos + n))) [
        | inl long ↦ (b, pr, rw (miss, read_file_with_buf, long, direct) refl, direct, k)
        | inr short ↦
            let small : n < pre_read_buf_size = ground (arith, short) in
            let (c, hit) = fill-hit pr f id pos n inside small in
            let knows : Knows (fill pr f id pos) id f =
              λ _. fill-Caches pr f id pos (omega (arith, inside)) in
            let (same, _) = try_read-hit (fill pr f id pos) f id pos n c knows hit in
            (
              b,
              fill pr f id pos,
              rw (miss, read_file_with_buf, short, hit, same) refl,
              direct,
              knows,
            )
      ]
    ]

try_read-at_end :
    (pr : PreReader) (f : File) (id pos n : ℕ)
    → Knows pr id f
    → pos + n ≡ length f.content
    → try_read pr id pos n ≡ none
try_read-at_end pr f id pos n k at_end = elim (Option-cases (try_read pr id pos n)) [
  | inl miss ↦ miss
  | inr (c, hit) ↦ let (_, inside) = try_read-hit pr f id pos n c k hit in absurd (omega arith)
]

-- Whatever right buffer it goes through, a read of less than 256 KB within a block that ends where
-- the file ends panics, where ReadAt without the buffer gives the bytes.
pub read_file_with_buf-panic :
    (block_size : ℕ) (pr : PreReader) (f : File) (id pos n : ℕ)
    → Knows pr id f
    → pos + n ≡ length f.content
    → n < pre_read_buf_size
    → pos + n ≤ block_size
    → (read_file_with_buf block_size pr f id pos n ≡ panic)
      × (file_read_at f pos n ≡ ok (take n (drop pos f.content)))
unfolding read_file_with_buf
read_file_with_buf-panic block_size pr f id pos n k at_end small fits =
    let short : (leb pre_read_buf_size n || ltb block_size (pos + n)) ≡ false =
      ground (arith, small, fits) in
    (
      rw
          (
            try_read-at_end pr f id pos n k at_end,
            read_file_with_buf,
            short,
            fill-miss pr f id pos n at_end,
          )
          refl,
      file_read_at-within f pos n (omega (arith, at_end)),
    )
