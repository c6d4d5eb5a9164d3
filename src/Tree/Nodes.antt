-- ===== src/Tree/Nodes.antt =====
-- The nodes above the twigs in datatree/tree.go. Their numbers are below 2 ^ 56, so that a level and a
-- number fit into one position.
use onvakv.Base.{
  ℕ, zero, suc, ◌+◌, ◌-◌, ◌*◌, ◌/◌, ◌%◌, ◌^◌, Option, none, some, ◌==◌, if◌then◌else◌,
}
use onvakv.Base.Result.{Result, ok, panic}
use onvakv.Types.{Bytes}
use onvakv.Tree.Twig.{Twig}
use onvakv.Tree.State.{Tree}

unfoldable pub or_else {ℓ} : {A : Type ℓ} → Option A → A → A
or_else none a = a
or_else (some b) a = b

-- `n ^ 1`: the other child of the same parent.
unfoldable pub flip : ℕ → ℕ
flip n = if n % 2 == 0 then n + 1 else n - 1

unfoldable pub pos : (level n : ℕ) → ℕ
pos level n = level * 2 ^ 56 + n

-- `n >> k`
unfoldable pub shift_right : ℕ → ℕ → ℕ
shift_right n zero = n
shift_right n (suc k) = shift_right (n / 2) k

-- The count of bits of a number below 2 ^ `bits`, `64 - bits.LeadingZeros64(n)`.
unfoldable pub bit_length : (bits n : ℕ) → ℕ
bit_length zero n = 0
bit_length (suc bits) n = let rest = bit_length bits (n / 2) in if n == 0 then 0 else 1 + rest

-- calcMaxLevel; FirstLevelAboveTwig is 13.
unfoldable pub calc_max_level : ℕ → ℕ
calc_max_level youngest_twig_id = 12 + bit_length 64 youngest_twig_id

unfoldable pub root_or : Option Twig → Option Bytes → Option Bytes
root_or (some twig) stored = some twig.twig_root
root_or none stored = stored

unfoldable pub get_twig_root : Tree → ℕ → Option Bytes
get_twig_root tree n = root_or (tree.active_twigs n) (tree.nodes (pos 12 n))

-- `*tree.nodes[p]`; a nil pointer panics.
unfoldable pub get_node : Tree → ℕ → Result Bytes
get_node tree p = elim (tree.nodes p) [ none ↦ panic | some b ↦ ok b ]
