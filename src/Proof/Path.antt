-- ===== src/Proof/Path.antt =====
-- ProofPath of datatree/proof.go as bytes and back. The arrays LeftOfTwig and RightOfTwig are lists of
-- 11 and 3 nodes; a hash is a list of 32 bytes.
use onvakv.Base.{
  ℕ, zero, suc, ◌+◌, ◌-◌, ◌/◌, ◌%◌, Bool, not, ◌||◌, List, [], ◌∷◌, ◌++◌, length, take, drop,
  replicate, ltb, ◌==◌, if◌then◌else◌,
}
use onvakv.Base.Int.{ℤ, pos, negsuc, to_u64, from_u64}
use onvakv.Base.Words.{put_le, get_le}
use onvakv.Base.Result.{Result, ok, err}
use onvakv.Types.{Bytes}
use onvakv.Tree.Nodes.{shift_right}

pub record ProofNode : Type 0 where
  pub self_hash : Bytes
  pub peer_hash : Bytes
  pub peer_at_left : Bool

pub record ProofPath : Type 0 where
  pub left_of_twig : List ProofNode
  pub right_of_twig : List ProofNode
  pub upper_path : List ProofNode
  pub serial_num : ℤ
  pub root : Bytes

abbrev pub first_level_above_twig : ℕ
first_level_above_twig = 13

-- `1 + 11 + 1 + 3 + 1`
abbrev pub other_node_count : ℕ
other_node_count = 17

-- `((sn >> k) & 1) == 1`; the shift keeps the sign, and `negsuc n` has the flipped bits of `n`.
unfoldable pub bit : ℤ → ℕ → Bool
bit (pos n) k = shift_right n k % 2 == 1
bit (negsuc n) k = not (shift_right n k % 2 == 1)

unfoldable pub first_self : List ProofNode → Bytes
first_self [] = []
first_self (n ∷ ns) = n.self_hash

unfoldable pub peers : List ProofNode → Bytes
peers [] = []
peers (n ∷ ns) = n.peer_hash ++ peers ns

unfoldable pub to_bytes : ProofPath → Bytes
to_bytes pp =
    put_le 8 (to_u64 pp.serial_num)
    ++ (first_self pp.left_of_twig
        ++ (peers pp.left_of_twig
            ++ (first_self pp.right_of_twig
                ++ (peers pp.right_of_twig ++ (peers pp.upper_path ++ pp.root)))))

-- The loops that read peer hashes: `count` nodes, of which the first stands at bit `k` of the serial
-- number. The hash of the node itself stays zero.
unfoldable pub read_nodes : ℤ → ℕ → ℕ → Bytes → List ProofNode × Bytes
read_nodes sn zero k bz = ([], bz)
read_nodes sn (suc count) k bz =
    let (ns, rest) = read_nodes sn count (k + 1) (drop 32 bz) in
    (
      record { self_hash = replicate 32 0; peer_hash = take 32 bz; peer_at_left = bit sn k } ∷ ns,
      rest,
    )

unfoldable pub set_first_self : Bytes → List ProofNode → List ProofNode
set_first_self h [] = []
set_first_self h (n ∷ ns) = record n { self_hash = h } ∷ ns

-- Behind the test of the length every slice is within the bytes.
unfoldable pub bytes_to_proof_path : Bytes → Result ProofPath
bytes_to_proof_path bz =
    let n = length bz - 8 in
    if ltb (length bz) 8 || (not (n % 32 == 0) || ltb (n / 32) other_node_count)
    then err
    else (let upper_count = n / 32 - other_node_count in
        let sn = from_u64 (get_le (take 8 bz)) in
        let b₁ = drop 8 bz in
        let (left, b₂) = read_nodes sn 11 0 (drop 32 b₁) in
        let (right, b₃) = read_nodes sn 3 8 (drop 32 b₂) in
        let (upper, b₄) = read_nodes sn upper_count (first_level_above_twig - 2) b₃ in
        ok (record {
          left_of_twig = set_first_self (take 32 b₁) left;
          right_of_twig = set_first_self (take 32 b₂) right;
          upper_path = upper;
          serial_num = sn;
          root = take 32 b₄;
        }))
