-- ===== src/EntryFile/Overwrite.antt =====
-- Laws of `overwrite`, and how a list of places is zeroed and restored.
use onvakv.Base.{
  ℕ, zero, suc, ◌+◌, ◌≤◌, ◌≡◌, refl, sym, ap, ◌∙◌, true, List, [], ◌∷◌, ◌++◌, length, drop,
  replicate, arith,
}
use onvakv.Types.{Bytes}
use onvakv.EntryFile.Encode.{has_prefix, magic_bytes, overwrite, zero_out}

pub length-overwrite : (p : ℕ) (new b : Bytes) → length (overwrite p new b) ≡ length b
unfolding overwrite
length-overwrite zero [] b = refl
length-overwrite zero (c ∷ cs) [] = refl
length-overwrite zero (c ∷ cs) (x ∷ b) = ap suc (length-overwrite zero cs b)
length-overwrite (suc p) new [] = refl
length-overwrite (suc p) new (x ∷ b) = ap suc (length-overwrite p new b)

pub overwrite_again :
    (p : ℕ) (new old b : Bytes)
    → length new ≡ length old
    → overwrite p new (overwrite p old b) ≡ overwrite p new b
unfolding overwrite
overwrite_again zero [] [] b h = refl
overwrite_again zero [] (d ∷ ds) b h = absurd (omega arith)
overwrite_again zero (c ∷ cs) [] b h = absurd (omega arith)
overwrite_again zero (c ∷ cs) (d ∷ ds) [] h = refl
overwrite_again zero (c ∷ cs) (d ∷ ds) (x ∷ b) h =
    ap (λ t. c ∷ t) (overwrite_again zero cs ds b (omega arith))
overwrite_again (suc p) new old [] h = refl
overwrite_again (suc p) new old (x ∷ b) h = ap (λ t. x ∷ t) (overwrite_again p new old b h)

pub overwrite_comm :
    (p q : ℕ) (new other b : Bytes)
    → p + length new ≤ q
    → overwrite q other (overwrite p new b) ≡ overwrite p new (overwrite q other b)
unfolding overwrite
overwrite_comm zero q [] other b h = refl
overwrite_comm zero zero (c ∷ cs) other b h = absurd (omega arith)
overwrite_comm zero (suc q) (c ∷ cs) other [] h = refl
overwrite_comm zero (suc q) (c ∷ cs) other (x ∷ b) h =
    ap (λ t. c ∷ t) (overwrite_comm zero q cs other b (omega arith))
overwrite_comm (suc p) zero new other b h = absurd (omega arith)
overwrite_comm (suc p) (suc q) new other [] h = refl
overwrite_comm (suc p) (suc q) new other (x ∷ b) h =
    ap (λ t. x ∷ t) (overwrite_comm p q new other b (omega arith))

-- Writing what stands there already.
pub overwrite_same :
    (p : ℕ) (new b : Bytes) → has_prefix (drop p b) new ≡ true → overwrite p new b ≡ b
unfolding overwrite has_prefix
overwrite_same zero [] b h = refl
overwrite_same zero (c ∷ cs) [] h = refl
overwrite_same zero (c ∷ cs) (x ∷ b) h = ground (arith, overwrite_same zero cs b)
overwrite_same (suc p) new [] h = refl
overwrite_same (suc p) new (x ∷ b) h = ap (λ t. x ∷ t) (overwrite_same p new b h)

pub overwrite-append :
    (front : Bytes) (n p : ℕ) (new b : Bytes)
    → n ≡ length front + p
    → overwrite n new (front ++ b) ≡ front ++ overwrite p new b
unfolding overwrite
overwrite-append [] n p new b h = let e : n ≡ p = omega arith in ap (λ t. overwrite t new b) e
overwrite-append (x ∷ front) zero p new b h = absurd (omega arith)
overwrite-append (x ∷ front) (suc n) p new b h =
    ap (λ t. x ∷ t) (overwrite-append front n p new b (omega arith))

pub length-zero_out : (ps : List ℕ) (b : Bytes) → length (zero_out ps b) ≡ length b
unfolding zero_out
length-zero_out [] b = refl
length-zero_out (p ∷ ps) b =
    length-zero_out ps (overwrite p (replicate 8 0) b) ∙ length-overwrite p (replicate 8 0) b

-- What recoverMagicBytes does to the payload.
unfoldable pub restore : List ℕ → Bytes → Bytes
restore [] b = b
restore (p ∷ ps) b = restore ps (overwrite p magic_bytes b)

-- Places in ascending order, that do not overlap, each holding the magic bytes.
abbrev pub Places : Bytes → ℕ → List ℕ → Type 0
Places b start [] = Unit
Places b start (p ∷ ps) =
    (start ≤ p)
    × (p + 8 ≤ length b)
    × (has_prefix (drop p b) magic_bytes ≡ true)
    × Places b (p + 8) ps

zero_out_comm :
    (ps : List ℕ) (s : Bytes) (start p : ℕ) (b : Bytes)
    → p + 8 ≤ start
    → Places s start ps
    → zero_out ps (overwrite p magic_bytes b) ≡ overwrite p magic_bytes (zero_out ps b)
unfolding zero_out
zero_out_comm [] s start p b h w = refl
zero_out_comm (q ∷ ps) s start p b h (le, fits, here, w) =
    ap (zero_out ps) (overwrite_comm p q magic_bytes (replicate 8 0) b (omega arith))
    ∙ zero_out_comm ps s (q + 8) p (overwrite q (replicate 8 0) b) (omega arith) w

-- Restoring the places that were zeroed gives back what stood there.
pub restore-zero_out :
    (ps : List ℕ) (start : ℕ) (b : Bytes) → Places b start ps → restore ps (zero_out ps b) ≡ b
unfolding restore zero_out
restore-zero_out [] start b w = refl
restore-zero_out (p ∷ ps) start b (le, fits, here, w) =
    ap (restore ps) (swap ∙ again) ∙ restore-zero_out ps (p + 8) b w
  where
    swap :
        overwrite p magic_bytes (zero_out ps (overwrite p (replicate 8 0) b))
        ≡ zero_out ps (overwrite p magic_bytes (overwrite p (replicate 8 0) b))
    swap = sym (zero_out_comm ps b (p + 8) p (overwrite p (replicate 8 0) b) (omega arith) w)

    again : zero_out ps (overwrite p magic_bytes (overwrite p (replicate 8 0) b)) ≡ zero_out ps b
    again =
        ap (zero_out ps) (
          overwrite_again p magic_bytes (replicate 8 0) b refl
          ∙ overwrite_same p magic_bytes b here)
