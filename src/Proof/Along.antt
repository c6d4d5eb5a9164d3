-- ===== src/Proof/Along.antt =====
-- Check along a path through the rows of a Merkle tree.
use onvakv.Base.{
  ℕ, zero, suc, ◌+◌, ◌*◌, ◌/◌, ◌%◌, ◌<◌, ◌≡◌, refl, sym, ap, ◌∙◌, arith, inl, inr, true, false, not,
  List, [], ◌∷◌, Bool-cases, ◌==◌,
}
use onvakv.Base.Result.{ok}
use onvakv.Types.{Bytes}
use onvakv.ByteSlices.{bytes_eq_refl}
use onvakv.Tree.Hasher.{hash2}
use onvakv.Tree.Youngest.{width}
use onvakv.Tree.Nodes.{flip}
use onvakv.Proof.Path.{ProofNode}
use onvakv.Proof.Check.{parent_hash, expect, check_path}

-- Row `c + 1` holds the children of row `c`.
abbrev pub Rows : Type 0
Rows = ℕ → ℕ → Bytes

-- The node `n` of a row as a path has it.
abbrev pub node_of : (ℕ → Bytes) → ℕ → ProofNode
node_of row n = record {
  self_hash = row n;
  peer_hash = row (flip n);
  peer_at_left = flip n % 2 == 0;
}

abbrev pub path_nodes : Rows → (c n : ℕ) → List ProofNode
path_nodes r zero n = []
path_nodes r (suc c) n = node_of (r (suc c)) n ∷ path_nodes r c (n / 2)

-- The number in row 0 that the node `n` of row `c` is below.
abbrev pub top : (c n : ℕ) → ℕ
top zero n = n
top (suc c) n = top c (n / 2)

pub top-zero : (c n : ℕ) → n < width c → top c n ≡ 0
top-zero zero n l = omega (arith, l)
top-zero (suc c) n l = top-zero c (n / 2) (omega (arith, l))

flip_even : (n : ℕ) → (n % 2 == 0) ≡ true → (flip n ≡ 2 * (n / 2) + 1) × (n ≡ 2 * (n / 2))
unfolding flip
flip_even n e = (rw e (ground (arith, e)), ground (arith, e))

flip_odd : (n : ℕ) → (n % 2 == 0) ≡ false → (flip n ≡ 2 * (n / 2)) × (n ≡ 2 * (n / 2) + 1)
unfolding flip
flip_odd n e = (rw e (ground (arith, e)), ground (arith, e))

pub flip_side : (n : ℕ) → not (n % 2 == 0) ≡ (flip n % 2 == 0)
flip_side n = elim (Bool-cases (n % 2 == 0)) [
  | inl e ↦ (let f = flip_even n e in ground (arith, f.0, e))
  | inr e ↦ (let f = flip_odd n e in ground (arith, f.0, e))
]

module _ (sha256 : Bytes → Bytes) where
  parent_hash-node_of :
      (row : ℕ → Bytes) (level n : ℕ)
      → level < 256
      → parent_hash sha256 level (node_of row n)
        ≡ hash2 sha256 level (row (2 * (n / 2))) (row (2 * (n / 2) + 1))
  unfolding parent_hash
  parent_hash-node_of row level n l =
      (let m : level % 256 ≡ level = omega (arith, l) in
        elim (Bool-cases (n % 2 == 0)) [
          | inl e ↦
              (let (f, g) = flip_even n e in
                rw (sym (flip_side n) ∙ ap not e, m)
                  (ap (λ x. hash2 sha256 level (row x) (row (flip n))) g
                    ∙ ap (λ x. hash2 sha256 level (row (2 * (n / 2))) (row x)) f))
          | inr e ↦
              (let (f, g) = flip_odd n e in
                rw (sym (flip_side n) ∙ ap not e, m)
                  (ap (λ x. hash2 sha256 level (row x) (row n)) f
                    ∙ ap (λ x. hash2 sha256 level (row (2 * (n / 2))) (row x)) g))
        ])

  -- Every parent on the way from the node `n` of row `c` is the hash of its children.
  abbrev pub Climbs : Rows → (c level n : ℕ) → Type 0
  Climbs r zero level n = Unit
  Climbs r (suc c) level n =
      (r c (n / 2) ≡ hash2 sha256 level (r (suc c) (2 * (n / 2))) (r (suc c) (2 * (n / 2) + 1)))
      × Climbs r c (level + 1) (n / 2)

  pub expect_right : (n : ProofNode) → expect sha256 false n.self_hash n ≡ ok n
  unfolding expect
  expect_right n = rw (bytes_eq_refl n.self_hash) refl

  check_path-path_nodes :
      (r : Rows) (c level n : ℕ)
      → level + c < 256
      → Climbs r (suc c) level n
      → check_path sha256 false level (node_of (r (suc c)) n) (path_nodes r c (n / 2))
        ≡ ok (r 0 (top (suc c) n), path_nodes r (suc c) n)
  unfolding check_path
  check_path-path_nodes r zero level n l (e, _) =
      ap (λ h. ok (h, node_of (r 1) n ∷ []))
        (parent_hash-node_of (r 1) level n (omega (arith, l)) ∙ sym e)
  check_path-path_nodes r (suc c) level n l (e, es) =
      (let h : parent_hash sha256 level (node_of (r (suc (suc c))) n) ≡ r (suc c) (n / 2) =
          parent_hash-node_of (r (suc (suc c))) level n (omega (arith, l)) ∙ sym e in
        rw
          (
            h,
            expect_right (node_of (r (suc c)) (n / 2)),
            check_path-path_nodes r c (level + 1) (n / 2) (omega (arith, l)) es,
          )
          refl)

  -- A path through the rows, from the node `n` of row `c + 1` on.
  pub check_path_through :
      (r : Rows) (c level n : ℕ)
      → level + c < 256
      → n < width (suc c)
      → Climbs r (suc c) level n
      → check_path sha256 false level (node_of (r (suc c)) n) (path_nodes r c (n / 2))
        ≡ ok (r 0 0, path_nodes r (suc c) n)
  check_path_through r c level n l w es =
      check_path-path_nodes r c level n l es
      ∙ ap (λ t. ok (r 0 t, path_nodes r (suc c) n)) (top-zero (suc c) n w)
