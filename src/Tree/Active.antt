-- ===== src/Tree/Active.antt =====
-- syncMT4ActiveBits brings the hashes over the active bits in order.
use mathlib.Core.List.{Memᴰ}
use mathlib.Core.List.Memᴰ
use onvakv.Base.{
  ℕ, ◌+◌, ◌*◌, ◌/◌, ◌%◌, ◌<◌, ◌≡◌, ◌≢◌, ◌⊎◌, refl, sym, subst, ◌∙◌, arith, inl, inr, List, [], ◌∷◌,
  ltb, if-eq,
}
use onvakv.Base.Result.{ok, panic, ok-injective}
use onvakv.Types.{Bytes}
use onvakv.Tree.Hasher.{hash2}
use onvakv.Tree.Youngest.{write_at, write_at_self, write_at_ne, index_cases}
use onvakv.Tree.Twig.{Twig, bits_slice, sync_l1, sync_l2, sync_l3, sync_top}

module _ (sha256 : Bytes → Bytes) where
  abbrev pub HasL1 : Twig → ℕ → Type 0
  HasL1 w k =
      w.active_bits_mtl1 k ≡ hash2 sha256 8 (bits_slice w (2 * k)) (bits_slice w (2 * k + 1))

  abbrev pub HasL2 : Twig → ℕ → Type 0
  HasL2 w k =
      w.active_bits_mtl2 k
      ≡ hash2 sha256 9 (w.active_bits_mtl1 (2 * k)) (w.active_bits_mtl1 (2 * k + 1))

  abbrev pub HasL3 : Twig → Type 0
  HasL3 w = w.active_bits_mtl3 ≡ hash2 sha256 10 (w.active_bits_mtl2 0) (w.active_bits_mtl2 1)

  abbrev pub HasTop : Twig → Type 0
  HasTop w = w.twig_root ≡ hash2 sha256 11 w.left_root w.active_bits_mtl3

  -- The hashes of the twig `n` are in order, except over what the lists name: the quarters of its bits,
  -- the pairs of these, and the twigs.
  pub record IsTouched (l1 l2 l3 tops : List ℕ) (n : ℕ) (w : Twig) : Type 0 where
    pub mtl1 : (k : ℕ) → k < 4 → Memᴰ (4 * n + k) l1 ⊎ HasL1 w k
    pub mtl2 : (k : ℕ) → k < 2 → Memᴰ (2 * n + k) l2 ⊎ HasL2 w k
    pub mtl3 : Memᴰ n l3 ⊎ HasL3 w
    pub top : Memᴰ n tops ⊎ HasTop w

  -- sync_l1 as a change of the record.
  sync_l1-eq :
      (p : ℕ) (w w' : Twig)
      → sync_l1 sha256 p w ≡ ok w'
      → w' ≡ record w {
        active_bits_mtl1 =
            write_at w.active_bits_mtl1 p
              (hash2 sha256 8 (bits_slice w (2 * p)) (bits_slice w (2 * p + 1)));
      }
  unfolding sync_l1
  sync_l1-eq p w w' e = elim (if-eq (ltb p 4) e) [
    | inl (_, x) ↦ sym (ok-injective x)
    | inr (_, x) ↦ absurd (no_panic x)
  ]
    where
      no_panic : {v : Twig} → panic ≡ ok v → ⊥
      no_panic x = cc

  -- A quarter that has been hashed, and its pair, which is then to be hashed.
  pub sync_l1-IsTouched :
      (i : ℕ) (is l2 l3 tops : List ℕ) (w w' : Twig)
      → Memᴰ (i / 2) l2
      → sync_l1 sha256 (i % 4) w ≡ ok w'
      → IsTouched (i ∷ is) l2 l3 tops (i / 4) w
      → IsTouched is l2 l3 tops (i / 4) w'
  unfolding bits_slice
  sync_l1-IsTouched i is l2 l3 tops w w' m e h =
      (let p = i % 4 in
        let b = hash2 sha256 8 (bits_slice w (2 * p)) (bits_slice w (2 * p + 1)) in
        let v : Twig = record w { active_bits_mtl1 = write_at w.active_bits_mtl1 p b } in
        subst (λ x. IsTouched is l2 l3 tops (i / 4) x) (sym (sync_l1-eq p w w' e))
          (record {
            mtl1 = λ k l. elim (index_cases p k) [
              | inl s ↦ inr (subst (λ y. HasL1 v y) s (write_at_self w.active_bits_mtl1 p b))
              | inr ne ↦ elim (h.mtl1 k l) [
                | inl q ↦ elim (Memᴰ.cases_cons q) [
                  | inl x ↦ absurd (ne (omega (arith, x, l)))
                  | inr r ↦ inl r
                ]
                | inr x ↦ inr (write_at_ne w.active_bits_mtl1 p k b ne ∙ x)
              ]
            ];
            mtl2 = λ k l. elim (index_cases (p / 2) k) [
              | inl s ↦ inl (subst (λ y. Memᴰ y l2) (omega (arith, s)) m)
              | inr ne ↦ elim (h.mtl2 k l) [
                | inl q ↦ inl q
                | inr x ↦ inr (
                    x
                    ∙ rw
                        (
                          sym (
                              write_at_ne w.active_bits_mtl1 p (2 * k) b
                                (λ y. ne (omega (arith, y)))),
                          sym (
                              write_at_ne w.active_bits_mtl1 p (2 * k + 1) b
                                (λ y. ne (omega (arith, y)))),
                        )
                        refl)
              ]
            ];
            mtl3 = h.mtl3;
            top = h.top;
          }))

  sync_l2-eq :
      (p : ℕ) (w w' : Twig)
      → sync_l2 sha256 p w ≡ ok w'
      → w' ≡ record w {
        active_bits_mtl2 =
            write_at w.active_bits_mtl2 p
              (hash2 sha256 9 (w.active_bits_mtl1 (2 * p)) (w.active_bits_mtl1 (2 * p + 1)));
      }
  unfolding sync_l2
  sync_l2-eq p w w' e = elim (if-eq (ltb p 2) e) [
    | inl (_, x) ↦ sym (ok-injective x)
    | inr (_, x) ↦ absurd (no_panic x)
  ]
    where
      no_panic : {v : Twig} → panic ≡ ok v → ⊥
      no_panic x = cc

  pub sync_l2-IsTouched :
      (i : ℕ) (is l3 tops : List ℕ) (w w' : Twig)
      → Memᴰ (i / 2) l3
      → sync_l2 sha256 (i % 2) w ≡ ok w'
      → IsTouched [] (i ∷ is) l3 tops (i / 2) w
      → IsTouched [] is l3 tops (i / 2) w'
  unfolding bits_slice
  sync_l2-IsTouched i is l3 tops w w' m e h =
      (let p = i % 2 in
        let b = hash2 sha256 9 (w.active_bits_mtl1 (2 * p)) (w.active_bits_mtl1 (2 * p + 1)) in
        let v : Twig = record w { active_bits_mtl2 = write_at w.active_bits_mtl2 p b } in
        subst (λ x. IsTouched [] is l3 tops (i / 2) x) (sym (sync_l2-eq p w w' e))
          (record {
            mtl1 = h.mtl1;
            mtl2 = λ k l. elim (index_cases p k) [
              | inl s ↦ inr (subst (λ y. HasL2 v y) s (write_at_self w.active_bits_mtl2 p b))
              | inr ne ↦ elim (h.mtl2 k l) [
                | inl q ↦ elim (Memᴰ.cases_cons q) [
                  | inl x ↦ absurd (ne (omega (arith, x, l)))
                  | inr r ↦ inl r
                ]
                | inr x ↦ inr (write_at_ne w.active_bits_mtl2 p k b ne ∙ x)
              ]
            ];
            mtl3 = inl m;
            top = h.top;
          }))

  pub sync_l3-IsTouched :
      (i : ℕ) (is tops : List ℕ) (w : Twig)
      → Memᴰ i tops
      → IsTouched [] [] (i ∷ is) tops i w
      → IsTouched [] [] is tops i (sync_l3 sha256 w)
  unfolding sync_l3 bits_slice
  sync_l3-IsTouched i is tops w m h = record {
    mtl1 = h.mtl1;
    mtl2 = h.mtl2;
    mtl3 = inr refl;
    top = inl m;
  }

  pub sync_top-IsTouched :
      (i : ℕ) (is : List ℕ) (w : Twig)
      → IsTouched [] [] [] (i ∷ is) i w
      → IsTouched [] [] [] is i (sync_top sha256 w)
  unfolding sync_top bits_slice
  sync_top-IsTouched i is w h = record {
    mtl1 = h.mtl1;
    mtl2 = h.mtl2;
    mtl3 = h.mtl3;
    top = inr refl;
  }

  -- An item that is another twig's.
  pub not_head : {A : Type 0} (j i : ℕ) (is : List ℕ) → j ≢ i → Memᴰ j (i ∷ is) ⊎ A → Memᴰ j is ⊎ A
  not_head j i is ne (inl m) = elim (Memᴰ.cases_cons m) [ inl e ↦ absurd (ne e) | inr r ↦ inl r ]
  not_head j i is ne (inr a) = inr a

  -- The hashes of the twig over its bits, up to its root, are in order.
  pub record HasHashes (w : Twig) : Type 0 where
    pub mtl1 : (k : ℕ) → k < 4 → HasL1 w k
    pub mtl2 : (k : ℕ) → k < 2 → HasL2 w k
    pub mtl3 : HasL3 w
    pub top : HasTop w

  pub untouched : (n : ℕ) (w : Twig) → IsTouched [] [] [] [] n w → HasHashes w
  untouched n w h = record {
    mtl1 = λ k l. done (h.mtl1 k l);
    mtl2 = λ k l. done (h.mtl2 k l);
    mtl3 = done h.mtl3;
    top = done h.top;
  }
    where
      done : {A : Type 0} {j : ℕ} → Memᴰ j [] ⊎ A → A
      done (inl m) = elim m [ ]
      done (inr a) = a
