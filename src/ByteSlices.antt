-- ===== src/ByteSlices.antt =====
-- Equality of byte slices, as package bytes of Go's library decides it.
use onvakv.Base.{Bool, true, false, ◌&&◌, [], ◌∷◌, ◌==◌, ◌≡◌, refl, arith}
use onvakv.Types.{Bytes}

-- bytes.Equal
unfoldable pub bytes_eq : Bytes → Bytes → Bool
bytes_eq [] [] = true
bytes_eq (x ∷ xs) (y ∷ ys) = x == y && bytes_eq xs ys
bytes_eq _ _ = false

pub bytes_eq_refl : (b : Bytes) → bytes_eq b b ≡ true
unfolding bytes_eq
bytes_eq_refl [] = refl
bytes_eq_refl (x ∷ xs) = ground (arith, bytes_eq_refl xs)

pub bytes_eq_symm : (a b : Bytes) → bytes_eq a b ≡ bytes_eq b a
unfolding bytes_eq
bytes_eq_symm [] [] = refl
bytes_eq_symm [] (y ∷ ys) = refl
bytes_eq_symm (x ∷ xs) [] = refl
bytes_eq_symm (x ∷ xs) (y ∷ ys) = ground (arith, bytes_eq_symm xs ys)

pub bytes_eq_sound : (a b : Bytes) → bytes_eq a b ≡ true → a ≡ b
unfolding bytes_eq
bytes_eq_sound [] [] e = refl
bytes_eq_sound [] (y ∷ ys) e = cc
bytes_eq_sound (x ∷ xs) [] e = cc
bytes_eq_sound (x ∷ xs) (y ∷ ys) e = ground (arith, bytes_eq_sound xs ys)
