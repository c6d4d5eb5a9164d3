-- ===== src/Tests/Proofs.antt =====
-- Proof paths under a small hash function.
use onvakv.Base.{
  ℕ, zero, suc, ◌+◌, ◌*◌, ◌%◌, ◌≡◌, refl, List, [], ◌∷◌, true, false, replicate, arith,
}
use onvakv.Base.Int.{ℤ, pos}
use onvakv.Base.Result.{ok, ◌>>=◌}
use onvakv.Types.{Bytes}
use onvakv.ByteSlices.{bytes_eq}
use onvakv.Tree.Nodes.{shift_right}
use onvakv.Proof.Path.{ProofNode, ProofPath, bit, first_self, to_bytes, bytes_to_proof_path}
use onvakv.Tree.Hasher.{hash2}
use onvakv.Proof.Check.{parent_hash, expect, check_path, check_array, check_upper, check}
use onvakv.Proof.Decoded.{IsAlong, IsOfNumber, check-bytes_to_proof_path}

abbrev pub sum : Bytes → ℕ
sum [] = 0
sum (b ∷ bs) = b + sum bs

-- The sum of the bytes, 32 times.
abbrev pub small_hash : Bytes → Bytes
small_hash b = replicate 32 (sum b % 256)

-- A path from a node of hash `s`, all peers of which have the hash 1.
abbrev small_path : ℤ → ℕ → ℕ → ℕ → ℕ → List ProofNode
small_path sn k level s zero = []
small_path sn k level s (suc count) =
    record { self_hash = replicate 32 s; peer_hash = replicate 32 1; peer_at_left = bit sn k }
    ∷ small_path sn (k + 1) (level + 1) ((level + 32 + 32 * s) % 256) count

-- Entry 2053 = 2048 + 5.
abbrev small_proof : ProofPath
small_proof = record {
  left_of_twig = small_path (pos 2053) 0 0 7 11;
  right_of_twig = small_path (pos 2053) 8 8 3 3;
  upper_path = small_path (pos 2053) 11 12 139 2;
  serial_num = pos 2053;
  root = replicate 32 173;
}

small_path-IsAlong : (sn : ℤ) (k level s count : ℕ) → IsAlong sn k (small_path sn k level s count)
small_path-IsAlong sn k level s zero = tt
small_path-IsAlong sn k level s (suc count) =
    (refl, refl, small_path-IsAlong sn (k + 1) (level + 1) ((level + 32 + 32 * s) % 256) count)

small_proof-IsOfNumber : IsOfNumber small_proof
unfolding first_self
small_proof-IsOfNumber = record {
  number = omega arith;
  left = refl;
  left_along = small_path-IsAlong (pos 2053) 0 0 7 11;
  left_leaf = refl;
  right = refl;
  right_along = small_path-IsAlong (pos 2053) 8 8 3 3;
  right_leaf = refl;
  upper_along = small_path-IsAlong (pos 2053) 11 12 139 2;
  root_length = refl;
}

small_proof-checks : check small_hash small_proof false ≡ ok small_proof
unfolding check check_path check_array check_upper expect parent_hash hash2 bytes_eq bit shift_right
small_proof-checks = refl

sent_and_checked :
    (bytes_to_proof_path (to_bytes small_proof) >>= λ q. check small_hash q true) ≡ ok small_proof
sent_and_checked =
    check-bytes_to_proof_path small_hash small_proof small_proof-IsOfNumber small_proof-checks
