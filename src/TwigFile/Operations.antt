-- ===== src/TwigFile/Operations.antt =====
-- The operations of TwigMtFile over the checksum of a third-party package. Size, Truncate, Flush and
-- PruneHead are those of the HPFile.
use onvakv.Base.{
  ℕ, ◌+◌, ◌-◌, ◌*◌, ◌||◌, not, List, [], ◌∷◌, length, take, drop, leb, ◌==◌, if◌then◌else◌,
}
use onvakv.Base.Int.{ℤ, pos, negsuc, to_u64, from_u64}
use onvakv.Base.Words.{put_le, get_le}
use onvakv.Base.Result.{Result, ok, err, panic, ◌>>=◌}
use onvakv.Types.{Bytes}
use onvakv.ByteSlices.{bytes_eq}
use onvakv.HpFile.Disk.{HpFile, append, read_at}

unfoldable pub twig_mt_entry_count : ℕ
twig_mt_entry_count = 4095

unfoldable pub twig_mt_size : ℕ
twig_mt_size = 12 + 4095 * 32

-- A caller that panics on an error.
unfoldable pub must {ℓ} : {A : Type ℓ} → Result A → Result A
must (ok a) = ok a
must err = panic
must panic = panic

unfoldable pub append_hashes : HpFile → List Bytes → Result HpFile
append_hashes h [] = ok h
append_hashes h (m ∷ ms) = do (h', at) ← must (append h (m ∷ [])); append_hashes h' ms

module _ (meow : Bytes → Bytes) where
  unfoldable pub append_twig : HpFile → List Bytes → ℤ → Result HpFile
  append_twig h mtree (negsuc n) = panic
  append_twig h mtree (pos n) =
      let buf = put_le 8 (to_u64 (pos n)) in
      if not (length mtree == twig_mt_entry_count)
      then panic
      else do (h', at) ← must (append h (buf ∷ meow buf ∷ [])); append_hashes h' mtree

  unfoldable pub get_first_entry_pos : HpFile → ℕ → Result ℤ
  get_first_entry_pos h twig_id = do
    buf ← must (read_at h (twig_id * twig_mt_size) 12)
    if bytes_eq (drop 8 buf) (meow (take 8 buf)) then ok (from_u64 (get_le (take 8 buf))) else panic

unfoldable pub get_hash_node : HpFile → ℕ → ℕ → Result Bytes
get_hash_node h twig_id hash_id =
    if leb hash_id 0 || leb 4096 hash_id
    then panic
    else must (read_at h (twig_id * twig_mt_size + 12 + (hash_id - 1) * 32) 32)
