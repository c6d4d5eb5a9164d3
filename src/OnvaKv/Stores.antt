-- ===== src/OnvaKv/Stores.antt =====
-- The stores behind the interfaces IndexTree and DataTree of types/types.go, as `update` uses them.
-- The laws are what onvakv.go relies on.
use onvakv.Base.{ℕ, ◌+◌, ◌≤◌, Option, none, some, ◌≡◌, if◌then◌else◌}
use onvakv.Base.Int.{ℤ, pos}
use onvakv.ByteSlices.{bytes_eq}
use onvakv.Types.{Bytes, Entry}
use onvakv.EntryFile.Encode.{dummy_entry}

-- Set, Get and Delete. Deleting a key that is not there panics.
pub record IndexTree : Type 1 where
  pub Tree : Type 0
  pub get : Tree → Bytes → Option ℕ
  pub set : Tree → Bytes → ℕ → Tree
  pub delete : Tree → Bytes → Option Tree
  pub get-set :
      (t : Tree) (k j : Bytes) (v : ℕ)
      → get (set t k v) j ≡ (if bytes_eq k j then some v else get t j)
  pub delete_present :
      (t : Tree) (k : Bytes) (v : ℕ) → get t k ≡ some v → (t' : Tree) × (delete t k ≡ some t')
  pub get-delete :
      (t t' : Tree) (k j : Bytes)
      → delete t k ≡ some t'
      → get t' j ≡ (if bytes_eq k j then none else get t j)

-- DeactivedSNListMaxLen
abbrev pub deactived_sn_list_max_len : ℕ
deactived_sn_list_max_len = 64

-- AppendEntry, with the position that it returns, and DeactiviateEntry, with the count of deactivations
-- that wait for the next entry; a panic is `none`. `written t p` is the entry whose record AppendEntry
-- put at `p`: it goes through the write buffer of the file, so that ReadEntry finds it there once the
-- end of the block has flushed the file. `IsReady t n k` says that the tree takes the entry with serial
-- number `n` next, and that `k` deactivations wait; `IsKnown t sn` that the twig of `sn` is among the
-- active ones; `Fits` that the strings of an entry are short enough for a record of the entry file.
pub record DataTree : Type 1 where
  pub Tree : Type 0
  pub append : Tree → Entry → Option (Tree × ℕ)
  pub deactivate : Tree → ℤ → Option (Tree × ℕ)
  pub written : Tree → ℕ → Option Entry
  pub IsReady : Tree → ℕ → ℕ → Type 0
  pub IsKnown : Tree → ℤ → Type 0
  pub Fits : Bytes → Bytes → Bytes → Type 0
  pub fits_dummy : (sn : ℤ) → let e = dummy_entry sn in Fits e.key e.value e.next_key
  pub append_ready :
      (t : Tree) (n k : ℕ) (e : Entry)
      → IsReady t n k
      → k ≤ deactived_sn_list_max_len + 1
      → Fits e.key e.value e.next_key
      → e.serial_num ≡ pos n
      → (t' : Tree) × (p : ℕ) × (append t e ≡ some (t', p))
        × IsReady t' (n + 1) 0
        × (written t' p ≡ some e)
        × ((q : ℕ) (x : Entry) → written t q ≡ some x → written t' q ≡ some x)
        × IsKnown t' e.serial_num
        × ((sn : ℤ) → IsKnown t sn → IsKnown t' sn)
  pub deactivate_ready :
      (t : Tree) (n k : ℕ) (sn : ℤ)
      → IsReady t n k
      → k ≤ deactived_sn_list_max_len
      → IsKnown t sn
      → (t' : Tree) × (deactivate t sn ≡ some (t', k + 1))
        × IsReady t' n (k + 1)
        × ((q : ℕ) → written t' q ≡ written t q)
        × ((i : ℤ) → IsKnown t i → IsKnown t' i)
