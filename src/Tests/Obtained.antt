-- ===== src/Tests/Obtained.antt =====
-- A proof for an entry of the second twig of a tree of two twigs without active bits.
use onvakv.Base.{
  false, inl, inr, some-injective, none-ne-some, subst, if-eq, List, [], ℕ, zero, suc, ◌+◌, ◌*◌,
  ◌%◌, ◌<◌, ◌≡◌, refl, arith, none, some, replicate, ◌++◌, ◌∷◌, ◌==◌, if◌then◌else◌,
}
use onvakv.Base.Int as Int
use onvakv.Base.Result.{ok}
use onvakv.Types.{Bytes}
use onvakv.Tree.Hasher.{hash2}
use onvakv.Tree.Twig.{Twig, bits_slice, null_twig, null_mt4_twig, sync_l1, sync_l2}
use onvakv.Tree.State.{Tree, get_twig, put_twig}
use onvakv.Tree.Nodes.{or_else, flip, pos, bit_length, calc_max_level, root_or, get_twig_root}
use onvakv.Tree.Appended.{null_mt4_twig-AreRows}
use onvakv.Proof.Path.{ProofPath, first_self}
use onvakv.Proof.Check.{check}
use onvakv.Proof.Get.{left_hash, get_proof}
use onvakv.Proof.Along.{Rows}
use onvakv.Tree.Active.{IsTouched, HasHashes}
use onvakv.Tree.InOrder.{HasTouched, sync_mt4_active_bits-HasHashes}
use onvakv.Tree.Upper.{halves, halves_after, for_twigs, sync_mt4_active_bits}
use onvakv.Proof.Obtained.{IsInTree, get_proof-check}
use onvakv.Tests.Proofs.{small_hash}
use onvakv.Tests.Trees.{small_twig, small_tree, value}

abbrev zeros : Bytes
zeros = replicate 32 0

abbrev bits_1 : Bytes
bits_1 = small_hash (8 ∷ (zeros ++ zeros))

abbrev bits_2 : Bytes
bits_2 = small_hash (9 ∷ (bits_1 ++ bits_1))

abbrev bits_3 : Bytes
bits_3 = small_hash (10 ∷ (bits_2 ++ bits_2))

abbrev root_of_twig : Bytes
root_of_twig = hash2 small_hash 11 (null_mt4_twig small_hash 1) bits_3

abbrev quiet_twig : Twig
quiet_twig = record small_twig {
  active_bits_mtl1 = λ i. bits_1;
  active_bits_mtl2 = λ i. bits_2;
  active_bits_mtl3 = bits_3;
  left_root = null_mt4_twig small_hash 1;
  twig_root = root_of_twig;
}

quiet_twig-HasHashes : HasHashes small_hash quiet_twig
quiet_twig-HasHashes = record {
  mtl1 = over_slices;
  mtl2 = λ k l. unfold hash2 in refl;
  mtl3 = unfold hash2 in refl;
  top = refl;
}
  where
    over_slices :
        (k : ℕ)
        → k < 4
        → bits_1
          ≡ hash2 small_hash 8 (bits_slice quiet_twig (2 * k)) (bits_slice quiet_twig (2 * k + 1))
    over_slices zero l = unfold hash2 bits_slice in refl
    over_slices (suc zero) l = unfold hash2 bits_slice in refl
    over_slices (suc (suc zero)) l = unfold hash2 bits_slice in refl
    over_slices (suc (suc (suc zero))) l = unfold hash2 bits_slice in refl
    over_slices (suc (suc (suc (suc k)))) l = absurd (omega (arith, l))

-- The root above the twigs, and the twigs' roots.
abbrev two_rows : Rows
two_rows zero i = hash2 small_hash 12 root_of_twig root_of_twig
two_rows (suc c) i = root_of_twig

abbrev two_twigs : Tree
two_twigs = record small_tree {
  youngest_twig_id = 1;
  nodes = λ p. if p == pos 13 0 then some (two_rows 0 0) else none;
  active_twigs = λ i. if i == 0 then some quiet_twig else if i == 1 then some quiet_twig else none;
}

entry-IsInTree : IsInTree small_hash two_twigs 2053 (null_mt4_twig small_hash) quiet_twig two_rows 0
unfolding left_hash or_else calc_max_level bit_length get_twig_root root_or flip pos
entry-IsInTree = record {
  known = omega arith;
  null = value (null_twig small_hash) small_twig;
  null_made = unfold null_twig sync_l1 sync_l2 in refl;
  leaves = λ i a b. refl;
  rows = null_mt4_twig-AreRows small_hash;
  twig_found = refl;
  bits = quiet_twig-HasHashes;
  height = refl;
  low = omega arith;
  below = omega arith;
  root_found = refl;
  twig_root = refl;
  peer_root = refl;
  stands = tt;
  climbs = (refl, tt);
  root = refl;
}

proof_of_entry :
    (pp : ProofPath) × (get_proof small_hash two_twigs 2053 ≡ ok (some pp))
    × (check small_hash pp false ≡ ok pp)
    × (pp.serial_num ≡ Int.pos 2053)
    × (first_self pp.left_of_twig ≡ null_mt4_twig small_hash (2048 + 2053 % 2048))
    × (pp.root ≡ two_rows 0 0)
proof_of_entry =
    get_proof-check small_hash two_twigs 2053 (null_mt4_twig small_hash) quiet_twig two_rows 0
      entry-IsInTree

-- The first quarter of the second twig is touched.
abbrev touched_tree : Tree
touched_tree = record two_twigs { touched_pos_of_512b = 4 ∷ [] }

all_quiet : (n : ℕ) (w : Twig) → touched_tree.active_twigs n ≡ some w → quiet_twig ≡ w
all_quiet n w e = elim (if-eq (n == 0) e) [
  | inl (_, x) ↦ some-injective quiet_twig w x
  | inr (_, y) ↦ elim (if-eq (n == 1) y) [
    | inl (_, x) ↦ some-injective quiet_twig w x
    | inr (_, x) ↦ absurd (none-ne-some w x)
  ]
]

touched_tree-HasTouched : HasTouched small_hash touched_tree
touched_tree-HasTouched = record {
  touched = λ n w e.
      subst
        (λ x.
          IsTouched small_hash (4 ∷ []) (halves (4 ∷ [])) (halves (halves (4 ∷ [])))
            (halves (halves (4 ∷ []))) n x)
        (all_quiet n w e)
        (record {
          mtl1 = λ k l. inr (quiet_twig-HasHashes.mtl1 k l);
          mtl2 = λ k l. inr (quiet_twig-HasHashes.mtl2 k l);
          mtl3 = inr quiet_twig-HasHashes.mtl3;
          top = inr quiet_twig-HasHashes.top;
        });
}

abbrev bits_synced : Tree × List ℕ
bits_synced = value (sync_mt4_active_bits small_hash touched_tree) (touched_tree, [])

bits_were_synced : sync_mt4_active_bits small_hash touched_tree ≡ ok (bits_synced.0, bits_synced.1)
unfolding sync_mt4_active_bits for_twigs get_twig sync_l1 halves halves_after put_twig sync_l2
bits_were_synced = refl

abbrev second_twig : Twig
second_twig = elim (bits_synced.0.active_twigs 1) [ none ↦ small_twig | some w ↦ w ]

second_twig_stands : bits_synced.0.active_twigs 1 ≡ some second_twig
unfolding sync_mt4_active_bits for_twigs get_twig sync_l1 halves halves_after put_twig sync_l2
second_twig_stands = refl

second_twig_in_order : HasHashes small_hash second_twig
second_twig_in_order =
    sync_mt4_active_bits-HasHashes small_hash touched_tree bits_synced.0 bits_synced.1
      touched_tree-HasTouched bits_were_synced 1 second_twig second_twig_stands
