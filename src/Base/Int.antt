-- ===== src/Base/Int.antt =====
-- Go's int64 as an integer, and its conversion to and from uint64.
use onvakv.Base.{ℕ, ◌-◌, ◌%◌, ◌^◌, ◌<◌, ◌≡◌, arith, ltb, if◌then◌else◌}

-- `negsuc n` is -(n + 1).
pub data ℤ : Type 0 where
  pos : ℕ → ℤ
  negsuc : ℕ → ℤ

-- The range of int64.
abbrev pub IsI64 : ℤ → Type 0
IsI64 (pos n) = n < 2 ^ 63
IsI64 (negsuc n) = n < 2 ^ 63

-- `uint64(x)` and `int64(w)`: two's complement.
unfoldable pub to_u64 : ℤ → ℕ
to_u64 (pos n) = n % 2 ^ 64
to_u64 (negsuc n) = 2 ^ 64 - 1 - n % 2 ^ 64

unfoldable pub from_u64 : ℕ → ℤ
from_u64 w = if ltb w (2 ^ 63) then pos w else negsuc (2 ^ 64 - w - 1)

pub from_u64-to_u64 : (x : ℤ) → IsI64 x → from_u64 (to_u64 x) ≡ x
unfolding from_u64 to_u64
from_u64-to_u64 (pos n) h = ground arith
from_u64-to_u64 (negsuc n) h = ground arith

pub to_u64-lt : (x : ℤ) → to_u64 x < 2 ^ 64
unfolding to_u64
to_u64-lt (pos n) = omega arith
to_u64-lt (negsuc n) = omega arith
