-- ===== src/Tree/Bits.antt =====
-- The active bits of a twig in datatree/tree.go: bit `offset` stands in byte `offset >> 3` at place
-- `offset & 7`.
use onvakv.Base.{
  ℕ, zero, suc, ◌+◌, ◌*◌, ◌/◌, ◌%◌, ◌<◌, ◌≡◌, ◌≢◌, refl, sym, ap, subst, ◌∙◌, arith, inl, inr, Bool,
  true, false, none, some, List, [], ◌∷◌, length, get_elem?, set, length-set, get_elem?-set_self,
  get_elem?-set_ne, Bool-cases, ltb, ◌==◌, if◌then◌else◌,
}
use onvakv.Base.Result.{Result, ok, panic}
use onvakv.Types.{Bytes}

-- `b & (1 << k) != 0`, `b | (1 << k)` and `b &^ (1 << k)`, from the lowest bit up.
unfoldable pub digit : ℕ → ℕ → Bool
digit zero b = b % 2 == 1
digit (suc k) b = digit k (b / 2)

unfoldable pub put_digit : Bool → ℕ → ℕ → ℕ
put_digit v zero b = 2 * (b / 2) + (if v then 1 else 0)
put_digit v (suc k) b = 2 * put_digit v k (b / 2) + b % 2

digit-put_self : (v : Bool) (k b : ℕ) → digit k (put_digit v k b) ≡ v
unfolding digit put_digit
digit-put_self true zero b = ground arith
digit-put_self false zero b = ground arith
digit-put_self v (suc k) b = ap (digit k) (omega arith) ∙ digit-put_self v k (b / 2)

digit-put_ne : (v : Bool) (k j b : ℕ) → k ≢ j → digit j (put_digit v k b) ≡ digit j b
unfolding digit put_digit
digit-put_ne v zero zero b n = absurd (n refl)
digit-put_ne true zero (suc j) b n = ap (digit j) (omega arith)
digit-put_ne false zero (suc j) b n = ap (digit j) (omega arith)
digit-put_ne v (suc k) zero b n = ap (λ t. t == 1) (omega arith)
digit-put_ne v (suc k) (suc j) b n =
    ap (digit j) (omega arith) ∙ digit-put_ne v k j (b / 2) (λ e. n (ap suc e))

-- setBit (`v` is true), clearBit and getBit. An offset of 2048 passes the guard, and its byte is then out
-- of range.
unfoldable pub write_bit : Bool → Bytes → ℕ → Result Bytes
write_bit v bits offset = if ltb 2048 offset then panic else elim (get_elem? bits (offset / 8)) [
  | none ↦ panic
  | some b ↦ ok (set bits (offset / 8) (put_digit v (offset % 8) b))
]

unfoldable pub get_bit : Bytes → ℕ → Result Bool
get_bit bits offset =
    if ltb 2048 offset
    then panic
    else elim (get_elem? bits (offset / 8)) [ none ↦ panic | some b ↦ ok (digit (offset % 8) b) ]

get_elem?-some {ℓ} :
    {A : Type ℓ} (xs : List A) (i : ℕ) → i < length xs → (a : A) × (get_elem? xs i ≡ some a)
get_elem?-some [] i h = absurd (omega arith)
get_elem?-some (x ∷ xs) zero h = (x, refl)
get_elem?-some (x ∷ xs) (suc i) h = get_elem?-some xs i (omega arith)

get_bit-found :
    (bits : Bytes) (j b : ℕ)
    → j < 2048
    → get_elem? bits (j / 8) ≡ some b
    → get_bit bits j ≡ ok (digit (j % 8) b)
unfolding get_bit
get_bit-found bits j b l e = (let t : ltb 2048 j ≡ false = ground arith in rw (t, e) refl)

other_bit :
    (v : Bool) (bits : Bytes) (i j b : ℕ)
    → j < 2048
    → length bits ≡ 256
    → get_elem? bits (i / 8) ≡ some b
    → i ≢ j
    → get_bit (set bits (i / 8) (put_digit v (i % 8) b)) j ≡ get_bit bits j
other_bit v bits i j b l n e ne = elim (Bool-cases (i / 8 == j / 8)) [
  | inl t ↦
      (let same : i / 8 ≡ j / 8 = ground (arith, t) in
        let at : get_elem? bits (j / 8) ≡ some b = subst (λ x. get_elem? bits x ≡ some b) same e in
        get_bit-found _ j (put_digit v (i % 8) b) l (
          subst
            (λ x.
              get_elem? (set bits (i / 8) (put_digit v (i % 8) b)) x ≡ some (put_digit v (i % 8) b))
            same
            (get_elem?-set_self bits (i / 8) (put_digit v (i % 8) b) (omega (arith, l, n, same))))
        ∙ ap ok (digit-put_ne v (i % 8) (j % 8) b (λ x. ne (omega (arith, x, same))))
        ∙ sym (get_bit-found bits j b l at))
  | inr t ↦
      (let apart : i / 8 ≢ j / 8 = ground (arith, t) in
        let (c, at) = get_elem?-some bits (j / 8) (omega (arith, l, n)) in
        get_bit-found _ j c l (get_elem?-set_ne bits (put_digit v (i % 8) b) apart ∙ at)
        ∙ sym (get_bit-found bits j c l at))
]

-- Setting or clearing a bit below 2048 is done without a panic, the bit then reads as it was written,
-- every other bit below 2048 as before, and the count of bytes stays.
pub write_bit-get_bit :
    (v : Bool) (bits : Bytes) (i : ℕ)
    → length bits ≡ 256
    → i < 2048
    → (bits' : Bytes) × (write_bit v bits i ≡ ok bits')
      × (length bits' ≡ 256)
      × (get_bit bits' i ≡ ok v)
      × ((j : ℕ) → j < 2048 → i ≢ j → get_bit bits' j ≡ get_bit bits j)
unfolding write_bit
write_bit-get_bit v bits i n l =
    (let t : ltb 2048 i ≡ false = ground arith in
      let (b, at) = get_elem?-some bits (i / 8) (omega (arith, l, n)) in
      let b' = put_digit v (i % 8) b in
      (
        set bits (i / 8) b',
        rw (t, at) refl,
        length-set bits (i / 8) b' ∙ n,
        get_bit-found (set bits (i / 8) b') i b' l
              (get_elem?-set_self bits (i / 8) b' (omega (arith, l, n)))
            ∙ ap ok (digit-put_self v (i % 8) b),
        λ j m ne. other_bit v bits i j b m n at ne,
      ))
