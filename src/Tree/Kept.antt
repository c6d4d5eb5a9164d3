-- ===== src/Tree/Kept.antt =====
-- The invariant of the youngest twig, through syncMT4YoungestTwig and appendEntry.
use onvakv.Base.{
  ℕ, ◌+◌, ◌*◌, ◌/◌, ◌<◌, ◌≤◌, ◌≡◌, sym, ap, subst, ◌∙◌, arith, ◌⊎◌, inl, inr, Option, none, some,
  some-injective, none-ne-some, Option-cases,
}
use onvakv.Base.Result.{ok, bind-eq-ok, ok-injective}
use onvakv.Types.{Bytes}
use onvakv.Tree.Youngest.{Array, Hashing, hash_leaves, sync_rows}
use onvakv.Tree.Synced.{
  IsOutside, AreRows, AreRows-agree, IsParent-agree, sync_rows-AreRows, sync_rows_below,
}
use onvakv.Tree.Leaves.{leaf_hash, hash_leaves-leave, hash_leaves-mt, hash_leaves-mt_away}
use onvakv.Tree.State.{Tree, get_twig, put_twig, sync_changed, sync_mt4_youngest_twig}

-- A leaf that waits lies between the start and the end of the changes.
abbrev pub IsChanged : Tree → ℕ → Type 0
IsChanged t i =
    (s : ℕ) × (t.mtree4_yt_change_start ≡ some s) × (s ≤ i) × (i ≤ t.mtree4_yt_change_end)

module _ (sha256 : Bytes → Bytes) where
  -- Each node over the leaves is the hash of its children, and the leaves that wait are among the changes,
  -- which do not end before they start.
  pub record HasTree (t : Tree) : Type 0 where
    pub rows : AreRows sha256 11 0 t.mtree4_youngest_twig
    pub waiting : (i : ℕ) → i < 2048 → (t.leave4_youngest_twig i ≡ none) ⊎ IsChanged t i
    pub ordered : (s : ℕ) → t.mtree4_yt_change_start ≡ some s → s ≤ t.mtree4_yt_change_end

  -- A range of leaves is hashed, and the rows above are made anew.
  hashed_rows :
      (mt : Array Bytes) (leave : Array (Option (Bytes × Bytes))) (start end_ : ℕ)
      → AreRows sha256 11 0 mt
      → ((i : ℕ) → i < 2048 → (leave i ≡ none) ⊎ ((start ≤ i) × (i ≤ end_)))
      → AreRows sha256 11 0
          (sync_rows sha256 11 0 start end_ (hash_leaves sha256 2048 (mt, leave)).0)
  hashed_rows mt leave start end_ (r, x) h =
      (let m = (hash_leaves sha256 2048 (mt, leave)).0 in
        let upper : (i : ℕ) → i < 2048 → m i ≡ mt i =
          λ i l. hash_leaves-mt_away sha256 (mt, leave) 2048 i (λ idx k e. omega (arith, l, e)) in
        let leaf : (i : ℕ) → i < 2048 → leave i ≡ none → m (2048 + i) ≡ mt (2048 + i) = λ i l e.
          hash_leaves-mt sha256 (mt, leave) 2048 i l
          ∙ ap (λ o. leaf_hash sha256 o (mt (2048 + i))) e in
        let quiet : (i : ℕ) → i < 2048 → IsOutside start end_ (i / 2) → leave i ≡ none =
          λ i l o. elim (h i l) [ inl e ↦ e | inr (a, b) ↦ absurd (ground (arith, a, b, o)) ] in
        let same : (i p : ℕ)
            → i < 2048
            → i / 2 ≡ p
            → IsOutside start end_ p
            → mt (2048 + i) ≡ m (2048 + i) =
          λ i p l e o. sym (leaf i l (quiet i l (subst (λ x. IsOutside start end_ x) (sym e) o))) in
        sync_rows-AreRows sha256 10 0 start end_ m
          (λ p l out.
            IsParent-agree sha256 0 1024 p mt mt m m (sym (upper (1024 + p) (omega (arith, l))))
              (same (2 * p) p (omega (arith, l)) (omega arith) out)
              (subst (λ x. mt x ≡ m x) (omega arith)
                (same (2 * p + 1) p (omega (arith, l)) (omega arith) out))
              (r p l))
          (AreRows-agree sha256 10 1 mt m (λ i l. sym (upper i l)) x))

  -- What syncMT4YoungestTwig leaves in a tree with the invariant.
  pub record IsSynced (t t' : Tree) : Type 0 where
    pub has_tree : HasTree t'
    pub no_start : t'.mtree4_yt_change_start ≡ none
    pub none_waits : (i : ℕ) → i < 2048 → t'.leave4_youngest_twig i ≡ none
    pub leaf :
        (i : ℕ)
        → i < 2048
        → t'.mtree4_youngest_twig (2048 + i)
          ≡ leaf_hash sha256 (t.leave4_youngest_twig i) (t.mtree4_youngest_twig (2048 + i))

  after_hashing :
      (t t' : Tree) (start : ℕ)
      → HasTree t
      → t.mtree4_yt_change_start ≡ some start
      → t'.mtree4_youngest_twig
        ≡ sync_rows sha256 11 0 start t.mtree4_yt_change_end
            (hash_leaves sha256 2048 (t.mtree4_youngest_twig, t.leave4_youngest_twig)).0
      → t'.leave4_youngest_twig
        ≡ (hash_leaves sha256 2048 (t.mtree4_youngest_twig, t.leave4_youngest_twig)).1
      → t'.mtree4_yt_change_start ≡ none
      → IsSynced t t'
  after_hashing t t' start h st em el es =
      (let s : Hashing = (t.mtree4_youngest_twig, t.leave4_youngest_twig) in
        let m = (hash_leaves sha256 2048 s).0 in
        let none_waits : (i : ℕ) → i < 2048 → t'.leave4_youngest_twig i ≡ none =
          λ i l. ap (λ f. f i) el ∙ hash_leaves-leave sha256 s 2048 i l in
        let waits : (i : ℕ)
            → i < 2048
            → (t.leave4_youngest_twig i ≡ none) ⊎ ((start ≤ i) × (i ≤ t.mtree4_yt_change_end)) =
          λ i l. elim (h.waiting i l) [
            | inl e ↦ inl e
            | inr (q, e, a, b) ↦ inr (subst (λ x. x ≤ i) (some-injective q start (sym e ∙ st)) a, b)
          ] in
        record {
          has_tree = record {
            rows =
                subst (λ f. AreRows sha256 11 0 f) (sym em)
                  (hashed_rows t.mtree4_youngest_twig t.leave4_youngest_twig start
                    t.mtree4_yt_change_end h.rows waits);
            waiting = λ i l. inl (none_waits i l);
            ordered = λ s e. absurd (none-ne-some s (sym es ∙ e));
          };
          no_start = es;
          none_waits = none_waits;
          leaf = λ i l.
              ap (λ f. f (2048 + i)) em
              ∙ sync_rows_below sha256 11 0 start t.mtree4_yt_change_end m (2048 + i) (omega arith)
              ∙ hash_leaves-mt sha256 s 2048 i l;
        })

  changed :
      (t t' : Tree) (start : ℕ)
      → HasTree t
      → t.mtree4_yt_change_start ≡ some start
      → sync_changed sha256 t start ≡ ok t'
      → IsSynced t t'
  unfolding sync_changed put_twig
  changed t t' start h st e =
      (let (twig, e₁, e₂) = bind-eq-ok (get_twig t t.youngest_twig_id) _ e in
        after_hashing t t' start h st (ap (λ x. x.mtree4_youngest_twig) (sym (ok-injective e₂)))
          (ap (λ x. x.leave4_youngest_twig) (sym (ok-injective e₂)))
          (ap (λ x. x.mtree4_yt_change_start) (sym (ok-injective e₂))))

  unchanged : (t : Tree) → HasTree t → t.mtree4_yt_change_start ≡ none → IsSynced t t
  unchanged t h n =
      (let quiet : (i : ℕ) → i < 2048 → t.leave4_youngest_twig i ≡ none = λ i l.
          elim (h.waiting i l) [
            | inl e ↦ e
            | inr (s, e, a, b) ↦ absurd (none-ne-some s (sym n ∙ e))
          ] in
        record {
          has_tree = h;
          no_start = n;
          none_waits = quiet;
          leaf = λ i l.
              sym (ap (λ o. leaf_hash sha256 o (t.mtree4_youngest_twig (2048 + i))) (quiet i l));
        })

  -- syncMT4YoungestTwig that succeeds on a tree with the invariant hashes every waiting leaf into its place,
  -- leaves none waiting, and every node over the leaves is the hash of its children again.
  pub sync_mt4_youngest_twig-IsSynced :
      (t t' : Tree) → HasTree t → sync_mt4_youngest_twig sha256 t ≡ ok t' → IsSynced t t'
  unfolding sync_mt4_youngest_twig
  sync_mt4_youngest_twig-IsSynced t t' h e = elim (Option-cases t.mtree4_yt_change_start) [
    | inl n ↦
        (let x : ok t ≡ ok t' =
            subst (λ o. elim o [ none ↦ ok t | some s ↦ sync_changed sha256 t s ] ≡ ok t') n e in
          subst (λ y. IsSynced t y) (ok-injective x) (unchanged t h n))
    | inr (s, st) ↦
        changed t t' s h st
          (subst (λ o. elim o [ none ↦ ok t | some s ↦ sync_changed sha256 t s ] ≡ ok t') st e)
  ]
