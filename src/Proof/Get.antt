-- ===== src/Proof/Get.antt =====
-- GetProof of datatree/proof.go on the tree.
use onvakv.Base.{
  ℕ, zero, suc, ◌+◌, ◌-◌, ◌/◌, ◌%◌, not, Option, none, some, List, [], ◌∷◌, ltb, ◌==◌,
  if◌then◌else◌,
}
use onvakv.Base.Int as Int
use onvakv.Base.Result.{Result, ok, panic, ◌>>=◌}
use onvakv.Types.{Bytes}
use onvakv.Tree.Youngest.{width}
use onvakv.Tree.Twig.{Twig, bits_slice, null_twig}
use onvakv.Tree.State.{Tree}
use onvakv.Tree.Nodes.{or_else, flip, pos, calc_max_level, get_twig_root, get_node}
use onvakv.TwigFile.Operations.{get_hash_node}
use onvakv.Proof.Path.{ProofNode, ProofPath}

-- The loop of getLeftPath, with `stripe` = 2 ^ c and `self` = n >> level.
unfoldable pub get_left_path : (ℕ → Result Bytes) → (c self : ℕ) → Result (List ProofNode)
get_left_path get_hash zero self = ok []
get_left_path get_hash (suc c) self = do
  self_hash ← get_hash (width (suc c) + self)
  peer_hash ← get_hash (width (suc c) + flip self)
  rest ← get_left_path get_hash c (self / 2)
  ok (
      record { self_hash = self_hash; peer_hash = peer_hash; peer_at_left = flip self % 2 == 0 }
      ∷ rest)

unfoldable pub get_right_path : Twig → ℕ → List ProofNode
get_right_path twig sn =
    let n = sn % 2048 in
    record {
      self_hash = bits_slice twig (n / 256);
      peer_hash = bits_slice twig (flip (n / 256));
      peer_at_left = flip (n / 256) % 2 == 0;
    }
    ∷ record {
      self_hash = twig.active_bits_mtl1 (n / 512);
      peer_hash = twig.active_bits_mtl1 (flip (n / 512));
      peer_at_left = flip (n / 512) % 2 == 0;
    }
    ∷ record {
      self_hash = twig.active_bits_mtl2 (n / 1024);
      peer_hash = twig.active_bits_mtl2 (flip (n / 1024));
      peer_at_left = flip (n / 1024) % 2 == 0;
    }
    ∷ []

-- Where the left path of a twig is read: getLeftPathInMem and getLeftPathOnDisk.
unfoldable pub left_hash : Tree → ℕ → ℕ → Result Bytes
left_hash tree twig_id i =
    if twig_id == tree.youngest_twig_id
    then ok (tree.mtree4_youngest_twig i)
    else get_hash_node tree.twig_mt_file twig_id i

-- The loop of getUpperPathAndRoot, from `level` on for `count` levels.
unfoldable pub upper_nodes : Tree → (count level n : ℕ) → Result (List ProofNode)
upper_nodes tree zero level n = ok []
upper_nodes tree (suc count) level n = do
  self_hash ← get_node tree (pos level n)
  peer_hash ← get_node tree (pos level (flip n))
  rest ← upper_nodes tree count (level + 1) (n / 2)
  ok (
      record { self_hash = self_hash; peer_hash = peer_hash; peer_at_left = not (n % 2 == 0) }
      ∷ rest)

module _ (sha256 : Bytes → Bytes) where
  unfoldable pub get_upper_path_and_root : Tree → ℕ → Result (Option (List ProofNode × Bytes))
  get_upper_path_and_root tree twig_id = do
    null ← null_twig sha256
    let max_level = calc_max_level tree.youngest_twig_id
    let peer_hash = or_else (get_twig_root tree (flip twig_id)) null.twig_root
    elim (get_twig_root tree twig_id) [
      | none ↦ ok none
      | some self_hash ↦ (do
        rest ← upper_nodes tree (max_level - 13) 13 (twig_id / 2)
        root ← get_node tree (pos max_level 0)
        ok (
            some (
              record {
                self_hash = self_hash;
                peer_hash = peer_hash;
                peer_at_left = not (twig_id % 2 == 0);
              }
                  ∷ rest,
              root,
            )))
    ]

  -- GetProof; there is no proof for a twig whose root is not known.
  unfoldable pub get_proof : Tree → ℕ → Result (Option ProofPath)
  get_proof tree sn =
      let twig_id = sn / 2048 in
      if ltb tree.youngest_twig_id twig_id then panic else do
        upper ← get_upper_path_and_root tree twig_id
        elim upper [
          | none ↦ ok none
          | some (path, root) ↦ (do
            left ← get_left_path (left_hash tree twig_id) 11 (sn % 2048)
            null ← null_twig sha256
            let twig = or_else (tree.active_twigs twig_id) null
            ok (
                some (record {
                  left_of_twig = left;
                  right_of_twig = get_right_path twig sn;
                  upper_path = path;
                  serial_num = Int.pos sn;
                  root = root;
                })))
        ]
