-- ===== src/Tree/InOrder.antt =====
-- The four loops of syncMT4ActiveBits, one behind the other.
use mathlib.Core.List.{Memᴰ}
use mathlib.Core.List.Memᴰ.{head, tail}
use onvakv.Base.{ℕ, ◌+◌, ◌*◌, ◌/◌, ◌%◌, ◌≡◌, refl, sym, ap, subst, ◌∙◌, arith, some, List, [], ◌∷◌}
use onvakv.Base.Result.{ok, bind-eq-ok, ok-injective}
use onvakv.Types.{Bytes}
use onvakv.Tree.Twig.{Twig, sync_l1, sync_l2, sync_l3, sync_top}
use onvakv.Tree.State.{Tree}
use onvakv.Tree.Upper.{halves, for_twigs, sync_mt4_active_bits}
use onvakv.Tree.Touched.{halves-parent, for_twigs-track}
use onvakv.Tree.Active.{
  IsTouched, HasHashes, sync_l1-IsTouched, sync_l2-IsTouched, sync_l3-IsTouched, sync_top-IsTouched,
  not_head, untouched,
}

-- Every item of the first list has its parent on the second one.
abbrev HaveParents : List ℕ → List ℕ → Type 0
HaveParents is js = (i : ℕ) → Memᴰ i is → Memᴰ (i / 2) js

module _ (sha256 : Bytes → Bytes) (n : ℕ) where
  -- A twig after the loops that are to leave nothing on the first list.
  first_loop :
      (is l2 l3 tops : List ℕ) (t t' : Tree)
      → HaveParents is l2
      → for_twigs (λ i. i / 4) (λ i. sync_l1 sha256 (i % 4)) is t ≡ ok t'
      → ((w : Twig) → t.active_twigs n ≡ some w → IsTouched sha256 is l2 l3 tops n w)
      → (w : Twig) → t'.active_twigs n ≡ some w
      → IsTouched sha256 [] l2 l3 tops n w
  first_loop is l2 l3 tops t t' up e h w a =
      (for_twigs-track (λ i. i / 4) (λ i. sync_l1 sha256 (i % 4)) n
        (λ js v. HaveParents js l2 × IsTouched sha256 js l2 l3 tops n v)
        (λ i js v v' s x (p, k). (
          λ j m. p j (tail m),
          subst (λ y. IsTouched sha256 js l2 l3 tops y v') s
              (sync_l1-IsTouched sha256 i js l2 l3 tops v v' (p i (head refl)) x
                (subst (λ y. IsTouched sha256 (i ∷ js) l2 l3 tops y v) (sym s) k)),
        ))
        (λ i js v ne (p, k). (
          λ j m. p j (tail m),
          record {
            mtl1 = λ q l.
                not_head sha256 (4 * n + q) i js (λ y. ne (omega (arith, y, l))) (k.mtl1 q l);
            mtl2 = k.mtl2;
            mtl3 = k.mtl3;
            top = k.top;
          },
        ))
        is t t' e (λ v b. (up, h v b)) w a).1

  second_loop :
      (is l3 tops : List ℕ) (t t' : Tree)
      → HaveParents is l3
      → for_twigs (λ i. i / 2) (λ i. sync_l2 sha256 (i % 2)) is t ≡ ok t'
      → ((w : Twig) → t.active_twigs n ≡ some w → IsTouched sha256 [] is l3 tops n w)
      → (w : Twig) → t'.active_twigs n ≡ some w
      → IsTouched sha256 [] [] l3 tops n w
  second_loop is l3 tops t t' up e h w a =
      (for_twigs-track (λ i. i / 2) (λ i. sync_l2 sha256 (i % 2)) n
        (λ js v. HaveParents js l3 × IsTouched sha256 [] js l3 tops n v)
        (λ i js v v' s x (p, k). (
          λ j m. p j (tail m),
          subst (λ y. IsTouched sha256 [] js l3 tops y v') s
              (sync_l2-IsTouched sha256 i js l3 tops v v' (p i (head refl)) x
                (subst (λ y. IsTouched sha256 [] (i ∷ js) l3 tops y v) (sym s) k)),
        ))
        (λ i js v ne (p, k). (
          λ j m. p j (tail m),
          record {
            mtl1 = k.mtl1;
            mtl2 = λ q l.
                not_head sha256 (2 * n + q) i js (λ y. ne (omega (arith, y, l))) (k.mtl2 q l);
            mtl3 = k.mtl3;
            top = k.top;
          },
        ))
        is t t' e (λ v b. (up, h v b)) w a).1

  third_loop :
      (is tops : List ℕ) (t t' : Tree)
      → ((i : ℕ) → Memᴰ i is → Memᴰ i tops)
      → for_twigs (λ i. i) (λ i v. ok (sync_l3 sha256 v)) is t ≡ ok t'
      → ((w : Twig) → t.active_twigs n ≡ some w → IsTouched sha256 [] [] is tops n w)
      → (w : Twig) → t'.active_twigs n ≡ some w
      → IsTouched sha256 [] [] [] tops n w
  third_loop is tops t t' up e h w a =
      (for_twigs-track (λ i. i) (λ i v. ok (sync_l3 sha256 v)) n
        (λ js v. ((i : ℕ) → Memᴰ i js → Memᴰ i tops) × IsTouched sha256 [] [] js tops n v)
        (λ i js v v' s x (p, k). (
          λ j m. p j (tail m),
          subst (λ y. IsTouched sha256 [] [] js tops n y) (ok-injective x)
              (subst (λ y. IsTouched sha256 [] [] js tops y (sync_l3 sha256 v)) s
                (sync_l3-IsTouched sha256 i js tops v (p i (head refl))
                  (subst (λ y. IsTouched sha256 [] [] (i ∷ js) tops y v) (sym s) k))),
        ))
        (λ i js v ne (p, k). (
          λ j m. p j (tail m),
          record {
            mtl1 = k.mtl1;
            mtl2 = k.mtl2;
            mtl3 = not_head sha256 n i js (λ y. ne (sym y)) k.mtl3;
            top = k.top;
          },
        ))
        is t t' e (λ v b. (up, h v b)) w a).1

  fourth_loop :
      (is : List ℕ) (t t' : Tree)
      → for_twigs (λ i. i) (λ i v. ok (sync_top sha256 v)) is t ≡ ok t'
      → ((w : Twig) → t.active_twigs n ≡ some w → IsTouched sha256 [] [] [] is n w)
      → (w : Twig) → t'.active_twigs n ≡ some w
      → IsTouched sha256 [] [] [] [] n w
  fourth_loop is t t' e h w a =
      for_twigs-track (λ i. i) (λ i v. ok (sync_top sha256 v)) n
        (λ js v. IsTouched sha256 [] [] [] js n v)
        (λ i js v v' s x k.
          subst (λ y. IsTouched sha256 [] [] [] js n y) (ok-injective x)
            (subst (λ y. IsTouched sha256 [] [] [] js y (sync_top sha256 v)) s
              (sync_top-IsTouched sha256 i js v
                (subst (λ y. IsTouched sha256 [] [] [] (i ∷ js) y v) (sym s) k))))
        (λ i js v ne k. record {
          mtl1 = k.mtl1;
          mtl2 = k.mtl2;
          mtl3 = k.mtl3;
          top = not_head sha256 n i js (λ y. ne (sym y)) k.top;
        })
        is t t' e h w a

-- The hashes of every active twig are in order, except above the quarters that were touched.
pub record HasTouched (sha256 : Bytes → Bytes) (t : Tree) : Type 0 where
  pub touched :
      (n : ℕ) (w : Twig)
      → t.active_twigs n ≡ some w
      → IsTouched sha256 t.touched_pos_of_512b
          (halves t.touched_pos_of_512b)
          (halves (halves t.touched_pos_of_512b))
          (halves (halves t.touched_pos_of_512b))
          n
          w

-- syncMT4ActiveBits that succeeds on a tree whose twigs are in order, except above the touched quarters of
-- their bits, leaves every active twig with all its hashes in order, from the bits to the twig's root.
pub sync_mt4_active_bits-HasHashes :
    (sha256 : Bytes → Bytes) (t t' : Tree) (n_list : List ℕ)
    → HasTouched sha256 t
    → sync_mt4_active_bits sha256 t ≡ ok (t', n_list)
    → (n : ℕ) (w : Twig) → t'.active_twigs n ≡ some w
    → HasHashes sha256 w
unfolding sync_mt4_active_bits
sync_mt4_active_bits-HasHashes sha256 t t' n_list h e n w a =
    (let l1 = t.touched_pos_of_512b in
      let l2 = halves l1 in
      let ids = halves l2 in
      let (t₁, e₁, f₁) =
        bind-eq-ok (for_twigs (λ i. i / 4) (λ i. sync_l1 sha256 (i % 4)) l1 t) _ e in
      let (t₂, e₂, f₂) =
        bind-eq-ok (for_twigs (λ i. i / 2) (λ i. sync_l2 sha256 (i % 2)) l2 t₁) _ f₁ in
      let (t₃, e₃, f₃) =
        bind-eq-ok (for_twigs (λ i. i) (λ i v. ok (sync_l3 sha256 v)) ids t₂) _ f₂ in
      let (t₄, e₄, f₄) =
        bind-eq-ok (for_twigs (λ i. i) (λ i v. ok (sync_top sha256 v)) ids t₃) _ f₃ in
      let found : t₄.active_twigs n ≡ some w = ap (λ u. u.0.active_twigs n) (ok-injective f₄) ∙ a in
      let h₁ = first_loop sha256 n l1 l2 ids ids t t₁ (halves-parent l1) e₁ (h.touched n) in
      let h₂ = second_loop sha256 n l2 ids ids t₁ t₂ (halves-parent l2) e₂ h₁ in
      let h₃ = third_loop sha256 n ids ids t₂ t₃ (λ i m. m) e₃ h₂ in
      untouched sha256 n w (fourth_loop sha256 n ids t₃ t₄ e₄ h₃ w found))
