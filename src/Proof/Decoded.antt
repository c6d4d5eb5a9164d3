-- ===== src/Proof/Decoded.antt =====
-- A proof path that is sent as bytes: what BytesToProofPath reads, and Check on it.
use onvakv.Base.{
  ℕ, zero, suc, ◌+◌, ◌-◌, ◌*◌, ◌/◌, ◌%◌, ◌≡◌, refl, sym, ◌∙◌, arith, inl, inr, Bool, true, false,
  not, ◌||◌, subst, List, [], ◌∷◌, ◌++◌, map, length, replicate, length-append, take-append,
  drop-append, take_all, append_assoc, Bool-cases, if◌then◌else◌, ltb, ◌==◌,
}
use onvakv.Base.Int.{ℤ, IsI64, to_u64, from_u64-to_u64, to_u64-lt}
use onvakv.Base.Words.{put_le, length-put_le, get_le-put_le_64}
use onvakv.Base.Result.{ok, err, ◌>>=◌, bind-eq-ok}
use onvakv.Types.{Bytes}
use onvakv.ByteSlices.{bytes_eq, bytes_eq_sound}
use onvakv.Proof.Path.{
  ProofNode, ProofPath, bit, first_self, peers, to_bytes, read_nodes, set_first_self,
  bytes_to_proof_path,
}
use onvakv.Tree.Hasher.{hash2}
use onvakv.Proof.Check.{parent_hash, expect, check_path, check_array, check_upper, check}

-- Node `i` of the list has a peer of 32 bytes, on the side that bit `k + i` of the serial number says.
abbrev pub IsAlong : ℤ → ℕ → List ProofNode → Type 0
IsAlong sn k [] = Unit
IsAlong sn k (n ∷ ns) =
    (length n.peer_hash ≡ 32) × (n.peer_at_left ≡ bit sn k) × IsAlong sn (k + 1) ns

-- The arrays have Go's lengths, and the sides are those of the serial number.
pub record IsOfNumber (pp : ProofPath) : Type 0 where
  pub number : IsI64 pp.serial_num
  pub left : length pp.left_of_twig ≡ 11
  pub left_along : IsAlong pp.serial_num 0 pp.left_of_twig
  pub left_leaf : length (first_self pp.left_of_twig) ≡ 32
  pub right : length pp.right_of_twig ≡ 3
  pub right_along : IsAlong pp.serial_num 8 pp.right_of_twig
  pub right_leaf : length (first_self pp.right_of_twig) ≡ 32
  pub upper_along : IsAlong pp.serial_num 11 pp.upper_path
  pub root_length : length pp.root ≡ 32

unfoldable blank : ProofNode → ProofNode
blank n = record n { self_hash = replicate 32 0 }

length-peers :
    (sn : ℤ) (k : ℕ) (ns : List ProofNode) → IsAlong sn k ns → length (peers ns) ≡ 32 * length ns
unfolding peers
length-peers sn k [] h = refl
length-peers sn k (n ∷ ns) (e, _, h) =
    length-append n.peer_hash (peers ns) ∙ omega (arith, e, length-peers sn (k + 1) ns h)

read_nodes-peers :
    (sn : ℤ) (count k : ℕ) (ns : List ProofNode) (rest : Bytes)
    → count ≡ length ns
    → IsAlong sn k ns
    → read_nodes sn count k (peers ns ++ rest) ≡ (map blank ns, rest)
unfolding peers read_nodes blank
read_nodes-peers sn zero k [] rest c h = refl
read_nodes-peers sn zero k (n ∷ ns) rest c h = absurd (omega arith)
read_nodes-peers sn (suc count) k [] rest c h = absurd (omega arith)
read_nodes-peers sn (suc count) k (n ∷ ns) rest c (e, s, h) =
    rw
      (
        append_assoc n.peer_hash (peers ns) rest,
        drop-append n.peer_hash (peers ns ++ rest) 32 (sym e),
        take-append n.peer_hash (peers ns ++ rest) 32 (sym e),
        read_nodes-peers sn count (k + 1) ns rest (omega arith) h,
        s,
      )
      refl

-- What is read again: the hashes on the way are zero.
unfoldable as_read : ProofPath → ProofPath
as_read pp = record pp {
  left_of_twig = set_first_self (first_self pp.left_of_twig) (map blank pp.left_of_twig);
  right_of_twig = set_first_self (first_self pp.right_of_twig) (map blank pp.right_of_twig);
  upper_path = map blank pp.upper_path;
}

length-to_bytes :
    (pp : ProofPath) → IsOfNumber pp → length (to_bytes pp) ≡ 8 + 32 * (17 + length pp.upper_path)
unfolding to_bytes
length-to_bytes pp h =
    (let sn = pp.serial_num in
      let fl = first_self pp.left_of_twig in
      let l = peers pp.left_of_twig in
      let fr = first_self pp.right_of_twig in
      let r = peers pp.right_of_twig in
      let u = peers pp.upper_path in
      omega (
        arith,
        length-append (put_le 8 (to_u64 sn)) (fl ++ (l ++ (fr ++ (r ++ (u ++ pp.root))))),
        length-put_le 8 (to_u64 sn),
        length-append fl (l ++ (fr ++ (r ++ (u ++ pp.root)))),
        length-append l (fr ++ (r ++ (u ++ pp.root))),
        length-append fr (r ++ (u ++ pp.root)),
        length-append r (u ++ pp.root),
        length-append u pp.root,
        length-peers sn 0 pp.left_of_twig h.left_along,
        length-peers sn 8 pp.right_of_twig h.right_along,
        length-peers sn 11 pp.upper_path h.upper_along,
        h.left,
        h.left_leaf,
        h.right,
        h.right_leaf,
        h.root_length,
      ))

-- The test of the length.
fits :
    (n u : ℕ)
    → n ≡ 8 + 32 * (17 + u)
    → ((ltb n 8 || (not ((n - 8) % 32 == 0) || ltb ((n - 8) / 32) 17)) ≡ false)
      × (((n - 8) / 32 - 17) ≡ u)
fits n u h = (ground arith, omega arith)

bytes_to_proof_path-to_bytes :
    (pp : ProofPath) → IsOfNumber pp → bytes_to_proof_path (to_bytes pp) ≡ ok (as_read pp)
unfolding as_read bytes_to_proof_path to_bytes
bytes_to_proof_path-to_bytes pp h =
    (let sn = pp.serial_num in
      let w = to_u64 sn in
      let fl = first_self pp.left_of_twig in
      let l = peers pp.left_of_twig in
      let fr = first_self pp.right_of_twig in
      let r = peers pp.right_of_twig in
      let u = peers pp.upper_path in
      let f = fits (length (to_bytes pp)) (length pp.upper_path) (length-to_bytes pp h) in
      rw
        (
          f.0,
          f.1,
          take-append (put_le 8 w) (fl ++ (l ++ (fr ++ (r ++ (u ++ pp.root))))) 8
              (sym (length-put_le 8 w)),
          drop-append (put_le 8 w) (fl ++ (l ++ (fr ++ (r ++ (u ++ pp.root))))) 8
              (sym (length-put_le 8 w)),
          get_le-put_le_64 w (to_u64-lt sn),
          from_u64-to_u64 sn h.number,
          take-append fl (l ++ (fr ++ (r ++ (u ++ pp.root)))) 32 (sym h.left_leaf),
          drop-append fl (l ++ (fr ++ (r ++ (u ++ pp.root)))) 32 (sym h.left_leaf),
          read_nodes-peers sn 11 0 pp.left_of_twig (fr ++ (r ++ (u ++ pp.root))) (sym h.left)
              h.left_along,
          take-append fr (r ++ (u ++ pp.root)) 32 (sym h.right_leaf),
          drop-append fr (r ++ (u ++ pp.root)) 32 (sym h.right_leaf),
          read_nodes-peers sn 3 8 pp.right_of_twig (u ++ pp.root) (sym h.right) h.right_along,
          read_nodes-peers sn (length pp.upper_path) 11 pp.upper_path pp.root refl h.upper_along,
          take_all pp.root 32 (sym h.root_length),
        )
        refl)

was_true : {A : Type 0} (t : Bool) (a : A) {b : A} → (if t then ok a else err) ≡ ok b → t ≡ true
was_true true a e = refl
was_true false a e = cc

module _ (sha256 : Bytes → Bytes) where
  -- Where the hash that is there is right, it is also what completes the node.
  expect-blank :
      (res : Bytes) (m : ProofNode) {m' : ProofNode}
      → expect sha256 false res m ≡ ok m'
      → (m' ≡ m) × (expect sha256 true res (blank m) ≡ ok m)
  unfolding expect blank
  expect-blank res m {m' = m'} e = elim (Bool-cases (bytes_eq res m.self_hash)) [
    | inl y ↦ (cc, rw (bytes_eq_sound res m.self_hash y) refl)
    | inr y ↦ cc
  ]

  -- Where the path with all hashes is accepted, the path with the first hash only is completed to it.
  check_path-blank :
      (level : ℕ) (n : ProofNode) (rest : List ProofNode) {h : Bytes} {ms : List ProofNode}
      → check_path sha256 false level n rest ≡ ok (h, ms)
      → (ms ≡ n ∷ rest) × (check_path sha256 true level n (map blank rest) ≡ ok (h, n ∷ rest))
  unfolding check_path
  check_path-blank level n [] {h = h} {ms = ms} e = (cc, cc)
  check_path-blank level n (m ∷ rest) {h = h} {ms = ms} e =
      (let (m', e₁, e₂) = bind-eq-ok (expect sha256 false (parent_hash sha256 level n) m) _ e in
        let (p₁, p₂) = expect-blank (parent_hash sha256 level n) m e₁ in
        let ((h', ms'), e₃, e₄) = bind-eq-ok (check_path sha256 false (level + 1) m' rest) _ e₂ in
        let (q₁, q₂) =
          check_path-blank (level + 1) m rest {h = h'} {ms = ms'}
            (subst (λ x. check_path sha256 false (level + 1) x rest ≡ ok (h', ms')) p₁ e₃) in
        (cc, rw (p₂, q₂) cc))

  check_array-blank :
      (level : ℕ) (ns : List ProofNode) {h : Bytes} {ms : List ProofNode}
      → check_array sha256 false level ns ≡ ok (h, ms)
      → (ms ≡ ns)
        × (check_array sha256 true level (set_first_self (first_self ns) (map blank ns))
            ≡ ok (h, ns))
  unfolding check_array set_first_self first_self blank
  check_array-blank level [] e = cc
  check_array-blank level (n ∷ ns) e = check_path-blank level n ns e

  check_upper-blank :
      (root : Bytes) (ns : List ProofNode) {h : Bytes} {ms : List ProofNode}
      → check_upper sha256 false root ns ≡ ok (h, ms)
      → (ms ≡ ns) × (check_upper sha256 true root (map blank ns) ≡ ok (h, ns))
  unfolding check_upper
  check_upper-blank root [] e = cc
  check_upper-blank root (n ∷ ns) {h = h} {ms = ms} e =
      (let (n', e₁, e₂) = bind-eq-ok (expect sha256 false root n) _ e in
        let (p₁, p₂) = expect-blank root n e₁ in
        let (q₁, q₂) =
          check_path-blank 12 n ns {h = h} {ms = ms}
            (subst (λ x. check_path sha256 false 12 x ns ≡ ok (h, ms)) p₁ e₂) in
        (q₁, rw (p₂, q₂) refl))

  -- A path with all hashes that Check accepts, sent as bytes and read again, is accepted and completed to
  -- the same path. The arrays have their lengths, and every peer stands on the side of the serial number.
  pub check-bytes_to_proof_path :
      (pp : ProofPath)
      → IsOfNumber pp
      → check sha256 pp false ≡ ok pp
      → (bytes_to_proof_path (to_bytes pp) >>= λ q. check sha256 q true) ≡ ok pp
  unfolding check as_read
  check-bytes_to_proof_path pp h e =
      (let ((hl, ls), e₁, e₂) = bind-eq-ok (check_array sha256 false 0 pp.left_of_twig) _ e in
        let (p₁, p₂) = check_array-blank 0 pp.left_of_twig {h = hl} {ms = ls} e₁ in
        let ((hr, rs), e₃, e₄) = bind-eq-ok (check_array sha256 false 8 pp.right_of_twig) _ e₂ in
        let (q₁, q₂) = check_array-blank 8 pp.right_of_twig {h = hr} {ms = rs} e₃ in
        let twig_root = hash2 sha256 11 hl hr in
        let ((hu, us), e₅, e₆) =
          bind-eq-ok (check_upper sha256 false twig_root pp.upper_path) _ e₄ in
        let (r₁, r₂) = check_upper-blank twig_root pp.upper_path {h = hu} {ms = us} e₅ in
        rw (bytes_to_proof_path-to_bytes pp h, p₂, q₂, r₂, was_true (bytes_eq hu pp.root) _ e₆)
          refl)
