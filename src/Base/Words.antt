-- ===== src/Base/Words.antt =====
-- encoding/binary.LittleEndian: a number in a fixed count of bytes, lowest first.
use onvakv.Base.{
  ℕ, zero, suc, ◌+◌, ◌*◌, ◌/◌, ◌%◌, ◌^◌, ◌<◌, ◌≡◌, refl, arith, List, [], ◌∷◌, length, ap,
}

unfoldable pub put_le : ℕ → ℕ → List ℕ
put_le zero n = []
put_le (suc k) n = (n % 256) ∷ put_le k (n / 256)

unfoldable pub get_le : List ℕ → ℕ
get_le [] = 0
get_le (b ∷ bs) = b + 256 * get_le bs

pub length-put_le : (k n : ℕ) → length (put_le k n) ≡ k
unfolding put_le
length-put_le zero n = refl
length-put_le (suc k) n = ap suc (length-put_le k (n / 256))

pub get_le-put_le_32 : (n : ℕ) → n < 2 ^ 32 → get_le (put_le 4 n) ≡ n
unfolding put_le get_le
get_le-put_le_32 n h = omega arith

pub get_le-put_le_24 : (n : ℕ) → n < 2 ^ 24 → get_le (put_le 3 n) ≡ n
unfolding put_le get_le
get_le-put_le_24 n h = omega arith

pub get_le-put_le_64 : (n : ℕ) → n < 2 ^ 64 → get_le (put_le 8 n) ≡ n
unfolding put_le get_le
get_le-put_le_64 n h = omega arith
