-- ===== src/Proof/Check.antt =====
-- Check of datatree/proof.go, over the hash function of a third-party package.
use onvakv.Base.{ℕ, ◌+◌, ◌-◌, ◌%◌, Bool, List, [], ◌∷◌, if◌then◌else◌}
use onvakv.Base.Result.{Result, ok, err, panic, ◌>>=◌}
use onvakv.Types.{Bytes}
use onvakv.ByteSlices.{bytes_eq}
use onvakv.Tree.Hasher.{hash2}
use onvakv.Proof.Path.{ProofNode, ProofPath, first_level_above_twig}

module _ (sha256 : Bytes → Bytes) where
  -- The hash of the parent of a node, at a level that is cut to a byte.
  unfoldable pub parent_hash : ℕ → ProofNode → Bytes
  parent_hash level n =
      if n.peer_at_left
      then hash2 sha256 (level % 256) n.peer_hash n.self_hash
      else hash2 sha256 (level % 256) n.self_hash n.peer_hash

  -- The hash goes into the next node, or has to be there.
  unfoldable pub expect : Bool → Bytes → ProofNode → Result ProofNode
  expect complete res n =
      if complete
      then ok (record n { self_hash = res })
      else if bytes_eq res n.self_hash
      then ok n
      else err

  -- The loop along a path from the node `n` on. It gives the hash behind the last node, and the path.
  unfoldable pub check_path :
      Bool → ℕ → ProofNode → List ProofNode → Result (Bytes × List ProofNode)
  check_path complete level n [] = ok (parent_hash level n, n ∷ [])
  check_path complete level n (m ∷ rest) = do
    m' ← expect complete (parent_hash level n) m
    (h, ms) ← check_path complete (level + 1) m' rest
    ok (h, n ∷ ms)

  unfoldable pub check_array : Bool → ℕ → List ProofNode → Result (Bytes × List ProofNode)
  check_array complete level [] = panic
  check_array complete level (n ∷ ns) = check_path complete level n ns

  -- The upper path begins with the root of the twig; where it is empty, `UpperPath[0]` panics.
  unfoldable pub check_upper : Bool → Bytes → List ProofNode → Result (Bytes × List ProofNode)
  check_upper complete twig_root [] = panic
  check_upper complete twig_root (n ∷ ns) = do
    n' ← expect complete twig_root n
    check_path complete (first_level_above_twig - 1) n' ns

  -- Check, with the path as it is afterwards.
  unfoldable pub check : ProofPath → Bool → Result ProofPath
  check pp complete = do
    (leaf_mt_root, left) ← check_array complete 0 pp.left_of_twig
    (active_bits_mtl3, right) ← check_array complete 8 pp.right_of_twig
    (res, upper) ←
        check_upper complete (hash2 sha256 11 leaf_mt_root active_bits_mtl3) pp.upper_path
    if bytes_eq res pp.root
        then ok (record pp { left_of_twig = left; right_of_twig = right; upper_path = upper })
        else err
