-- ===== src/Tree/Evicted.antt =====
-- The roots of the twigs through the deletion of inactive twigs at the end of a block.
use onvakv.Base.{
  ℕ, ◌+◌, ◌*◌, ◌^◌, ◌≡◌, refl, sym, ap, subst, ◌∙◌, arith, inl, inr, true, false, none, some, List,
  [], ◌∷◌, Option-cases, ◌==◌,
}
use onvakv.Base.Result.{ok, panic, bind-eq-ok, ok-injective}
use onvakv.Tree.Youngest.{index_cases}
use onvakv.Tree.Twig.{Twig}
use onvakv.Tree.State.{Tree, get_twig}
use onvakv.Tree.Nodes.{pos, root_or, get_twig_root}
use onvakv.Tree.Upper.{put_node}
use onvakv.Tree.EndBlock.{delete_twig, delete_twigs}

pub get_twig-some :
    (t : Tree) (id : ℕ) {twig : Twig} → get_twig t id ≡ ok twig → t.active_twigs id ≡ some twig
unfolding get_twig
get_twig-some t id {twig = twig} e = elim (Option-cases (t.active_twigs id)) [
  | inl n ↦ absurd (not_panic (subst (λ o. elim o [ none ↦ panic | some w ↦ ok w ] ≡ ok twig) n e))
  | inr (w, s) ↦
      s
      ∙ ap some (ok-injective (subst (λ o. elim o [ none ↦ panic | some w ↦ ok w ] ≡ ok twig) s e))
]
  where
    not_panic : {w : Twig} → panic ≡ ok w → ⊥
    not_panic e = cc

get_twig_root-delete_twig :
    (t : Tree) (id : ℕ) (twig : Twig) (n : ℕ)
    → t.active_twigs id ≡ some twig
    → get_twig_root (delete_twig t id twig.twig_root) n ≡ get_twig_root t n
unfolding get_twig_root delete_twig put_node pos root_or
get_twig_root-delete_twig t id twig n e = elim (index_cases n id) [
  | inl s ↦
      (let y : (n == id) ≡ true = ground arith in
        let z : (12 * 2 ^ 56 + n == 12 * 2 ^ 56 + id) ≡ true = ground arith in
        rw (y, z, ap t.active_twigs s ∙ e, root_or) refl)
  | inr ne ↦
      (let y : (n == id) ≡ false = ground arith in
        let z : (12 * 2 ^ 56 + n == 12 * 2 ^ 56 + id) ≡ false = ground arith in
        elim (Option-cases (t.active_twigs n)) [
          | inl x ↦ rw (y, x, z) refl
          | inr (w, x) ↦ rw (y, x) refl
        ])
]

-- The deletion of the evicted twigs, where it succeeds, leaves every twig's root as it was found before,
-- of the deleted twigs and of the others.
pub delete_twigs-get_twig_root :
    (ids : List ℕ) (t t' : Tree) (n : ℕ)
    → delete_twigs ids t ≡ ok t'
    → get_twig_root t' n ≡ get_twig_root t n
unfolding delete_twigs
delete_twigs-get_twig_root [] t t' n e =
    ap (λ u. get_twig_root u n) (sym (ok-injective e)) ∙ (unfold get_twig_root in refl)
delete_twigs-get_twig_root (id ∷ ids) t t' n e =
    (let (twig, e₁, e₂) = bind-eq-ok (get_twig t id) _ e in
      delete_twigs-get_twig_root ids (delete_twig t id twig.twig_root) t' n e₂
      ∙ get_twig_root-delete_twig t id twig n (get_twig-some t id e₁))
