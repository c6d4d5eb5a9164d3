-- ===== src/Proof/Obtained.antt =====
-- The proof that GetProof gives out is one that Check accepts.
use onvakv.Base.{
  ℕ, zero, suc, ◌+◌, ◌-◌, ◌*◌, ◌/◌, ◌%◌, ◌<◌, ◌≤◌, ◌≡◌, refl, sym, ap, subst, ◌∙◌, arith, inl, inr,
  false, Bool-cases, some, ltb, ◌==◌,
}
use onvakv.Base.Int as Int
use onvakv.Base.Result.{Result, ok}
use onvakv.Types.{Bytes}
use onvakv.ByteSlices.{bytes_eq_refl}
use onvakv.Tree.Hasher.{hash2}
use onvakv.Tree.Youngest.{Array, width}
use onvakv.Tree.Synced.{AreRows}
use onvakv.Tree.Twig.{Twig, bits_slice, null_twig}
use onvakv.Tree.State.{Tree}
use onvakv.Tree.Active.{HasHashes}
use onvakv.Tree.Nodes.{or_else, flip, pos, calc_max_level, get_twig_root, get_node}
use onvakv.Proof.Path.{ProofPath, first_self}
use onvakv.Proof.Check.{check, check_array, check_upper}
use onvakv.Proof.Get.{
  get_left_path, get_right_path, left_hash, upper_nodes, get_upper_path_and_root, get_proof,
}
use onvakv.Proof.Along.{
  Rows, node_of, path_nodes, flip_side, Climbs, check_path_through, expect_right,
}

-- The rows of the tree of a twig's leaves, and of its active bits.
leaf_rows : Array Bytes → Rows
leaf_rows mt c i = mt (width c + i)

bit_rows : Twig → Rows
bit_rows twig zero i = twig.active_bits_mtl3
bit_rows twig (suc zero) i = twig.active_bits_mtl2 i
bit_rows twig (suc (suc zero)) i = twig.active_bits_mtl1 i
bit_rows twig (suc (suc (suc c))) i = bits_slice twig i

flip-lt : (n h : ℕ) → n < 2 * h → flip n < 2 * h
unfolding flip
flip-lt n h l = elim (Bool-cases (n % 2 == 0)) [
  | inl e ↦ rw e (ground (arith, l, e))
  | inr e ↦ rw e (omega (arith, l))
]

get_left_path-nodes :
    (get_hash : ℕ → Result Bytes) (mt : Array Bytes) (c self : ℕ)
    → ((i : ℕ) → 1 ≤ i → i < 2 * width c → get_hash i ≡ ok (mt i))
    → self < width c
    → get_left_path get_hash c self ≡ ok (path_nodes (leaf_rows mt) c self)
unfolding get_left_path leaf_rows
get_left_path-nodes get_hash mt zero self h l = refl
get_left_path-nodes get_hash mt (suc c) self h l =
    rw
      (
        h (width (suc c) + self) (omega (arith, l)) (omega (arith, l)),
        h (width (suc c) + flip self) (omega (arith, l)) (omega (arith, flip-lt self (width c) l)),
        get_left_path-nodes get_hash mt c (self / 2) (λ i a b. h i a (omega (arith, b)))
            (omega (arith, l)),
      )
      refl

module _ (sha256 : Bytes → Bytes) where
  leaf_rows-Climbs :
      (mt : Array Bytes) (c level self : ℕ)
      → AreRows sha256 c level mt
      → self < width c
      → Climbs sha256 (leaf_rows mt) c level self
  unfolding leaf_rows
  leaf_rows-Climbs mt zero level self h l = tt
  leaf_rows-Climbs mt (suc c) level self (r, h) l = (
    r (self / 2) (omega (arith, l))
        ∙ ap (λ i. hash2 sha256 level (mt (2 * width c + 2 * (self / 2))) (mt i)) (omega arith),
    leaf_rows-Climbs mt c (level + 1) (self / 2) h (omega (arith, l)),
  )

  bit_rows-Climbs :
      (twig : Twig) (n : ℕ) → HasHashes sha256 twig → n < 8 → Climbs sha256 (bit_rows twig) 3 8 n
  unfolding bit_rows
  bit_rows-Climbs twig n h l =
      (let z : n / 2 / 2 / 2 ≡ 0 = omega (arith, l) in
        let up : twig.active_bits_mtl3
            ≡ hash2 sha256 10 (twig.active_bits_mtl2 (2 * (n / 2 / 2 / 2)))
                (twig.active_bits_mtl2 (2 * (n / 2 / 2 / 2) + 1)) =
          subst
            (λ k.
              twig.active_bits_mtl3
              ≡ hash2 sha256 10 (twig.active_bits_mtl2 (2 * k)) (twig.active_bits_mtl2 (2 * k + 1)))
            (sym z) h.mtl3 in
        (h.mtl1 (n / 2) (omega (arith, l)), (h.mtl2 (n / 2 / 2) (omega (arith, l)), (up, tt))))

  -- The nodes of the path from the level on stand in the tree.
  abbrev pub Stands : Tree → Rows → (c level n : ℕ) → Type 0
  Stands t r zero level n = Unit
  Stands t r (suc c) level n =
      (t.nodes (pos level n) ≡ some (r (suc c) n))
      × (t.nodes (pos level (flip n)) ≡ some (r (suc c) (flip n)))
      × Stands t r c (level + 1) (n / 2)

  get_node-some : (t : Tree) (p : ℕ) (b : Bytes) → t.nodes p ≡ some b → get_node t p ≡ ok b
  unfolding get_node
  get_node-some t p b e = rw (get_node, e) refl

  upper_nodes-nodes :
      (t : Tree) (r : Rows) (c level n : ℕ)
      → Stands t r c level n
      → upper_nodes t c level n ≡ ok (path_nodes r c n)
  unfolding upper_nodes
  upper_nodes-nodes t r zero level n s = refl
  upper_nodes-nodes t r (suc c) level n (a, b, s) =
      rw
        (
          get_node-some t (pos level n) (r (suc c) n) a,
          get_node-some t (pos level (flip n)) (r (suc c) (flip n)) b,
          upper_nodes-nodes t r c (level + 1) (n / 2) s,
          flip_side n,
        )
        refl

  -- The entry `sn` is in a tree whose hashes are in order, from its leaf to the root: `mt` is the tree of its
  -- twig's leaves, on disk or in memory, `twig` its bits, and `r` the rows above, with c + 1 below the root.
  pub record IsInTree (t : Tree) (sn : ℕ) (mt : Array Bytes) (twig : Twig) (r : Rows) (c : ℕ)
      : Type 0 where
    pub known : sn / 2048 ≤ t.youngest_twig_id
    pub null : Twig
    pub null_made : null_twig sha256 ≡ ok null
    pub leaves : (i : ℕ) → 1 ≤ i → i < 4096 → left_hash t (sn / 2048) i ≡ ok (mt i)
    pub rows : AreRows sha256 11 0 mt
    pub twig_found : or_else (t.active_twigs (sn / 2048)) null ≡ twig
    pub bits : HasHashes sha256 twig
    pub height : calc_max_level t.youngest_twig_id ≡ 13 + c
    pub low : c < 64
    pub below : sn / 2048 < width (suc c)
    pub root_found : get_twig_root t (sn / 2048) ≡ some (r (suc c) (sn / 2048))
    pub twig_root : r (suc c) (sn / 2048) ≡ hash2 sha256 11 (mt 1) twig.active_bits_mtl3
    pub peer_root :
        or_else (get_twig_root t (flip (sn / 2048))) null.twig_root ≡ r (suc c) (flip (sn / 2048))
    pub stands : Stands t r c 13 (sn / 2048 / 2)
    pub climbs : Climbs sha256 r (suc c) 12 (sn / 2048)
    pub root : t.nodes (pos (13 + c) 0) ≡ some (r 0 0)

  module _ (t : Tree) (sn : ℕ) (mt : Array Bytes) (twig : Twig) (r : Rows) (c : ℕ)
      (h : IsInTree t sn mt twig r c) where
    abbrev obtained : ProofPath
    obtained = record {
      left_of_twig = path_nodes (leaf_rows mt) 11 (sn % 2048);
      right_of_twig = path_nodes (bit_rows twig) 3 (sn % 2048 / 256);
      upper_path = path_nodes r (suc c) (sn / 2048);
      serial_num = Int.pos sn;
      root = r 0 0;
    }

    upper_found :
        get_upper_path_and_root sha256 t (sn / 2048)
        ≡ ok (some (path_nodes r (suc c) (sn / 2048), r 0 0))
    unfolding get_upper_path_and_root
    upper_found =
        (let count : 13 + c - 13 ≡ c = omega arith in
          rw
            (
              h.null_made,
              h.root_found,
              h.height,
              count,
              upper_nodes-nodes t r c 13 (sn / 2048 / 2) h.stands,
              get_node-some t (pos (13 + c) 0) (r 0 0) h.root,
              h.peer_root,
              flip_side (sn / 2048),
            )
            refl)

    right_found : get_right_path twig sn ≡ path_nodes (bit_rows twig) 3 (sn % 2048 / 256)
    unfolding get_right_path bit_rows
    right_found =
        (let a : sn % 2048 / 512 ≡ sn % 2048 / 256 / 2 = omega arith in
          let b : sn % 2048 / 1024 ≡ sn % 2048 / 256 / 2 / 2 = omega arith in rw (a, b) refl)

    found : get_proof sha256 t sn ≡ ok (some obtained)
    unfolding get_proof
    found =
        (let old : ltb t.youngest_twig_id (sn / 2048) ≡ false = ground (arith, h.known) in
          rw
            (
              old,
              upper_found,
              get_left_path-nodes (left_hash t (sn / 2048)) mt 11 (sn % 2048) h.leaves
                  (omega arith),
              h.null_made,
              h.twig_found,
              right_found,
            )
            refl)

    left_checked :
        check_array sha256 false 0 obtained.left_of_twig ≡ ok (mt 1, obtained.left_of_twig)
    unfolding check_array leaf_rows
    left_checked =
        check_path_through sha256 (leaf_rows mt) 10 0 (sn % 2048) (omega arith) (omega arith)
          (leaf_rows-Climbs mt 11 0 (sn % 2048) h.rows (omega arith))

    right_checked :
        check_array sha256 false 8 obtained.right_of_twig
        ≡ ok (twig.active_bits_mtl3, obtained.right_of_twig)
    unfolding check_array bit_rows
    right_checked =
        check_path_through sha256 (bit_rows twig) 2 8 (sn % 2048 / 256) (omega arith) (omega arith)
          (bit_rows-Climbs twig (sn % 2048 / 256) h.bits (omega arith))

    upper_checked :
        check_upper sha256 false (hash2 sha256 11 (mt 1) twig.active_bits_mtl3) obtained.upper_path
        ≡ ok (r 0 0, obtained.upper_path)
    unfolding check_upper
    upper_checked =
        rw (sym h.twig_root, expect_right sha256 (node_of (r (suc c)) (sn / 2048)))
          (check_path_through sha256 r c 12 (sn / 2048) (omega (arith, h.low)) h.below h.climbs)

  -- GetProof of an entry in a tree whose hashes are in order returns a proof for its serial number: the
  -- proof starts with the hash of its leaf, ends with the root of the tree, and Check accepts it.
  pub get_proof-check :
      (t : Tree) (sn : ℕ) (mt : Array Bytes) (twig : Twig) (r : Rows) (c : ℕ)
      → IsInTree t sn mt twig r c
      → (pp : ProofPath) × (get_proof sha256 t sn ≡ ok (some pp))
        × (check sha256 pp false ≡ ok pp)
        × (pp.serial_num ≡ Int.pos sn)
        × (first_self pp.left_of_twig ≡ mt (2048 + sn % 2048))
        × (pp.root ≡ r 0 0)
  unfolding check first_self leaf_rows
  get_proof-check t sn mt twig r c h = (
    obtained t sn mt twig r c h,
    found t sn mt twig r c h,
    rw
        (
          left_checked t sn mt twig r c h,
          right_checked t sn mt twig r c h,
          upper_checked t sn mt twig r c h,
          bytes_eq_refl (r 0 0),
        )
        refl,
    refl,
    refl,
    refl,
  )
