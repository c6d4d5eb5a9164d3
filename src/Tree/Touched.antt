-- ===== src/Tree/Touched.antt =====
-- The loops of syncMT4ActiveBits over the touched twigs.
use mathlib.Core.List.{Memᴰ}
use mathlib.Core.List.Memᴰ.{head, tail}
use onvakv.Base.{
  ℕ, ◌/◌, ◌≡◌, ◌≢◌, ◌⊎◌, refl, sym, ap, subst, ◌∙◌, arith, inl, inr, true, false, Option, none,
  some, some-injective, none-ne-some, List, [], ◌∷◌, Bool-cases, ◌==◌,
}
use onvakv.Base.Result.{Result, ok, bind-eq-ok, ok-injective}
use onvakv.Tree.Youngest.{index_cases}
use onvakv.Tree.Twig.{Twig}
use onvakv.Tree.State.{Tree, get_twig, put_twig}
use onvakv.Tree.Upper.{halves_after, halves, for_twigs}
use onvakv.Tree.Evicted.{get_twig-some}

-- A parent behind the head of the list, or that of the head.
placed :
    (is : List ℕ) (i j : ℕ) (o : Option ℕ)
    → Memᴰ (i / 2) (halves_after (some (j / 2)) is) ⊎ (j / 2 ≡ i / 2)
    → Memᴰ (i / 2) (halves_after o (j ∷ is)) ⊎ (o ≡ some (i / 2))
unfolding halves_after
placed is i j none (inl n) = inl (tail n)
placed is i j none (inr e) = inl (head (sym e))
placed is i j (some l) b = elim (Bool-cases (l == j / 2)) [
  | inl t ↦ elim b [
    | inl n ↦ inl (rw t n)
    | inr e ↦ (let same : l ≡ i / 2 = ground (arith, t, e) in inr (ap some same))
  ]
  | inr t ↦ elim b [ inl n ↦ inl (rw t (tail n)) | inr e ↦ inl (rw t (head (sym e))) ]
]

-- Every parent is on the list, or it is the last one that was put there.
halves_after-parent :
    (is : List ℕ) (last : Option ℕ) (i : ℕ)
    → Memᴰ i is
    → Memᴰ (i / 2) (halves_after last is) ⊎ (last ≡ some (i / 2))
halves_after-parent [] last i m = elim m [ ]
halves_after-parent (j ∷ is) last i (head e) = placed is i j last (inr (ap (λ x. x / 2) (sym e)))
halves_after-parent (j ∷ is) last i (tail m) =
    placed is i j last (elim (halves_after-parent is (some (j / 2)) i m) [
      | inl n ↦ inl n
      | inr e ↦ inr (some-injective (j / 2) (i / 2) e)
    ])

pub halves-parent : (is : List ℕ) (i : ℕ) → Memᴰ i is → Memᴰ (i / 2) (halves is)
unfolding halves
halves-parent is i m = elim (halves_after-parent is none i m) [
  | inl n ↦ n
  | inr e ↦ absurd (none-ne-some (i / 2) e)
]

put_twig_self : (t : Tree) (n : ℕ) (w : Twig) → (put_twig t n w).active_twigs n ≡ some w
unfolding put_twig
put_twig_self t n w = (let y : (n == n) ≡ true = ground arith in rw y refl)

put_twig_ne :
    (t : Tree) (n m : ℕ) (w : Twig) → n ≢ m → (put_twig t n w).active_twigs m ≡ t.active_twigs m
unfolding put_twig
put_twig_ne t n m w ne = (let y : (m == n) ≡ false = ground arith in rw y refl)

-- What holds of a twig and of the items that remain, step by step, holds at the end of a loop.
module _ (id : ℕ → ℕ) (f : ℕ → Twig → Result Twig) (n : ℕ) (R : List ℕ → Twig → Type 0)
    (mine : (i : ℕ) (is : List ℕ) (w w' : Twig) → id i ≡ n → f i w ≡ ok w' → R (i ∷ is) w → R is w')
    (other : (i : ℕ) (is : List ℕ) (w : Twig) → id i ≢ n → R (i ∷ is) w → R is w) where
  pub for_twigs-track :
      (is : List ℕ) (t t' : Tree)
      → for_twigs id f is t ≡ ok t'
      → ((w : Twig) → t.active_twigs n ≡ some w → R is w)
      → (w : Twig) → t'.active_twigs n ≡ some w
      → R [] w
  unfolding for_twigs
  for_twigs-track [] t t' e r w a = r w (ap (λ u. u.active_twigs n) (ok-injective e) ∙ a)
  for_twigs-track (i ∷ is) t t' e r w a =
      (let (w₀, e₁, e₂) = bind-eq-ok (get_twig t (id i)) _ e in
        let (w₁, e₃, e₄) = bind-eq-ok (f i w₀) _ e₂ in
        for_twigs-track is (put_twig t (id i) w₁) t' e₄
          (λ v b. elim (index_cases (id i) n) [
            | inl s ↦
                (let same : w₁ ≡ v = some-injective w₁ v (
                    sym (put_twig_self t (id i) w₁)
                    ∙ ap (put_twig t (id i) w₁).active_twigs s
                    ∙ b) in
                  subst (λ x. R is x) same
                    (mine i is w₀ w₁ s e₃
                      (r w₀ (ap t.active_twigs (sym s) ∙ get_twig-some t (id i) e₁))))
            | inr ne ↦ other i is v ne (r v (sym (put_twig_ne t (id i) n w₁ ne) ∙ b))
          ])
          w a)
