-- ===== src/Tree/Twig.antt =====
-- A twig of datatree/tree.go with its 2048 active bits and the hashes over them. A batch of jobs at one
-- level of twigs reads nothing that the batch writes, so here a job has run when it was added.
use onvakv.Base.{
  ℕ, zero, suc, ◌+◌, ◌*◌, true, false, [], take, drop, replicate, ltb, leb, ◌&&◌, if◌then◌else◌,
}
use onvakv.Base.Int.{ℤ, negsuc}
use onvakv.Base.Result.{Result, ok, panic, ◌>>=◌}
use onvakv.Types.{Bytes}
use onvakv.EntryFile.Encode.{entry_to_bytes, null_entry}
use onvakv.Tree.Hasher.{hash, hash2}
use onvakv.Tree.Youngest.{Array, width, write_at}
use onvakv.Tree.Bits.{write_bit}

pub record Twig : Type 0 where
  pub active_bits : Bytes
  pub active_bits_mtl1 : Array Bytes
  pub active_bits_mtl2 : Array Bytes
  pub active_bits_mtl3 : Bytes
  pub left_root : Bytes
  pub twig_root : Bytes
  pub first_entry_pos : ℤ

-- `twig.activeBits[32*k:32*(k+1)]`
unfoldable pub bits_slice : Twig → ℕ → Bytes
bits_slice twig k = take 32 (drop (32 * k) twig.active_bits)

unfoldable pub set_bit : Twig → ℕ → Result Twig
set_bit twig offset = do
  bits ← write_bit true twig.active_bits offset
  ok (record twig { active_bits = bits })

unfoldable pub clear_bit : Twig → ℕ → Result Twig
clear_bit twig offset = do
  bits ← write_bit false twig.active_bits offset
  ok (record twig { active_bits = bits })

module _ (sha256 : Bytes → Bytes) where
  unfoldable pub sync_l1 : ℕ → Twig → Result Twig
  sync_l1 p twig =
      if ltb p 4
      then ok (record twig {
        active_bits_mtl1 =
            write_at twig.active_bits_mtl1 p
              (hash2 sha256 8 (bits_slice twig (2 * p)) (bits_slice twig (2 * p + 1)));
      })
      else panic

  unfoldable pub sync_l2 : ℕ → Twig → Result Twig
  sync_l2 p twig =
      if ltb p 2
      then ok (record twig {
        active_bits_mtl2 =
            write_at twig.active_bits_mtl2 p
              (hash2 sha256 9 (twig.active_bits_mtl1 (2 * p)) (twig.active_bits_mtl1 (2 * p + 1)));
      })
      else panic

  unfoldable pub sync_l3 : Twig → Twig
  sync_l3 twig = record twig {
    active_bits_mtl3 = hash2 sha256 10 (twig.active_bits_mtl2 0) (twig.active_bits_mtl2 1);
  }

  unfoldable pub sync_top : Twig → Twig
  sync_top twig = record twig { twig_root = hash2 sha256 11 twig.left_root twig.active_bits_mtl3 }

  -- The loops of init that fill the tree of a twig without entries, from the row of 2 ^ c nodes up.
  unfoldable pub fill_row : (stripe : ℕ) → Bytes → Array Bytes → Array Bytes
  fill_row stripe null mt i = if leb stripe i && ltb i (2 * stripe) then null else mt i

  unfoldable pub fill_rows : (c level : ℕ) → Bytes → Array Bytes → Array Bytes
  fill_rows zero level null mt = fill_row 1 null mt
  fill_rows (suc c) level null mt =
      fill_rows c (level + 1) (hash2 sha256 level null null) (fill_row (width (suc c)) null mt)

  -- NullMT4Twig
  unfoldable pub null_mt4_twig : Array Bytes
  null_mt4_twig = fill_rows 11 0 (hash sha256 (entry_to_bytes null_entry [])) (λ i. replicate 32 0)

  -- NullTwig
  unfoldable pub null_twig : Result Twig
  null_twig = do
    t₀ ← sync_l1 0 (record {
      active_bits = replicate 256 0;
      active_bits_mtl1 = λ i. replicate 32 0;
      active_bits_mtl2 = λ i. replicate 32 0;
      active_bits_mtl3 = replicate 32 0;
      left_root = replicate 32 0;
      twig_root = replicate 32 0;
      first_entry_pos = negsuc 0;
    })
    t₁ ← sync_l1 1 t₀
    t₂ ← sync_l1 2 t₁
    t₃ ← sync_l1 3 t₂
    u₀ ← sync_l2 0 t₃
    u₁ ← sync_l2 1 u₀
    ok (sync_top (record (sync_l3 u₁) { left_root = null_mt4_twig 1 }))

  -- NullNodeInHigherTree, at level 13 + k
  unfoldable pub null_node : Bytes → ℕ → Bytes
  null_node twig_root zero = hash2 sha256 12 twig_root twig_root
  null_node twig_root (suc k) =
      hash2 sha256 (13 + k) (null_node twig_root k) (null_node twig_root k)
