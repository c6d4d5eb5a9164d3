-- ===== src/Tree/Upper.antt =====
-- The nodes above the touched twigs in datatree/tree.go.
use onvakv.Base.{
  ℕ, zero, suc, ◌+◌, ◌-◌, ◌*◌, ◌/◌, ◌%◌, ◌||◌, Option, none, some, List, [], ◌∷◌, ◌==◌,
  if◌then◌else◌,
}
use onvakv.Base.Result.{Result, ok, panic, ◌>>=◌}
use onvakv.Types.{Bytes}
use onvakv.Tree.Hasher.{hash2}
use onvakv.Tree.Twig.{Twig, sync_l1, sync_l2, sync_l3, sync_top, null_node}
use onvakv.Tree.State.{Tree, get_twig, put_twig}
use onvakv.Tree.Nodes.{or_else, pos, shift_right, get_twig_root, get_node}

-- The numbers of the parents, each once: the list is in ascending order, so that equal ones are neighbours.
unfoldable pub halves_after : Option ℕ → List ℕ → List ℕ
halves_after last [] = []
halves_after last (i ∷ is) =
    let rest = halves_after (some (i / 2)) is in
    elim last [ none ↦ i / 2 ∷ rest | some l ↦ if l == i / 2 then rest else i / 2 ∷ rest ]

unfoldable pub halves : List ℕ → List ℕ
halves is = halves_after none is

-- One loop over a list: the job `f i` of the twig `id i` for every `i`.
unfoldable pub for_twigs : (ℕ → ℕ) → (ℕ → Twig → Result Twig) → List ℕ → Tree → Result Tree
for_twigs id f [] tree = ok tree
for_twigs id f (i ∷ is) tree = do
  twig ← get_twig tree (id i)
  twig' ← f i twig
  for_twigs id f is (put_twig tree (id i) twig')

-- maxNAtLevel: the last number at the level below.
unfoldable pub max_n_at_level : (youngest_twig_id level : ℕ) → ℕ
max_n_at_level youngest_twig_id level = shift_right youngest_twig_id (level - 13)

unfoldable pub put_node : Tree → ℕ → Bytes → Tree
put_node tree p b = record tree { nodes = λ q. if q == p then some b else tree.nodes q }

module _ (sha256 : Bytes → Bytes) where
  unfoldable pub sync_mt4_active_bits : Tree → Result (Tree × List ℕ)
  sync_mt4_active_bits tree =
      let l2_list = halves tree.touched_pos_of_512b in
      let ids = halves l2_list in
      do
        tree₁ ← for_twigs (λ i. i / 4) (λ i. sync_l1 sha256 (i % 4)) tree.touched_pos_of_512b tree
        tree₂ ← for_twigs (λ i. i / 2) (λ i. sync_l2 sha256 (i % 2)) l2_list tree₁
        tree₃ ← for_twigs (λ i. i) (λ i twig. ok (sync_l3 sha256 twig)) ids tree₂
        tree₄ ← for_twigs (λ i. i) (λ i twig. ok (sync_top sha256 twig)) ids tree₃
        ok (tree₄, halves ids)

  module _ (null_root : Bytes) where
    -- One node of the first level above the twigs.
    unfoldable pub sync_first_node : Tree → ℕ → Result Tree
    sync_first_node tree i = elim (get_twig_root tree (2 * i)) [
      | none ↦ panic
      | some left ↦
          (let right = or_else (get_twig_root tree (2 * i + 1)) null_root in
            ok (put_node tree (pos 13 i) (hash2 sha256 12 left right)))
    ]

    -- One node of a higher level. A missing right child is made, from the null node of this level.
    unfoldable pub sync_upper_node : Tree → (level i : ℕ) → Result Tree
    sync_upper_node tree level i =
        let max_n = max_n_at_level tree.youngest_twig_id level in
        do
          left ← get_node tree (pos (level - 1) (2 * i))
          elim (tree.nodes (pos (level - 1) (2 * i + 1))) [
            | some right ↦
                ok (put_node tree (pos level i) (hash2 sha256 ((level - 1) % 256) left right))
            | none ↦
                (let null = null_node sha256 null_root (level - 13) in
                  let tree' = put_node tree (pos (level - 1) (2 * i + 1)) null in
                  if 2 * i == max_n || 2 * i + 1 == max_n
                  then ok
                      (put_node tree' (pos level i) (hash2 sha256 ((level - 1) % 256) left null))
                  else panic)
          ]

    unfoldable pub sync_nodes : (level : ℕ) → List ℕ → Tree → Result Tree
    sync_nodes level [] tree = ok tree
    sync_nodes level (i ∷ is) tree = do
      tree' ← (if level == 13 then sync_first_node tree i else sync_upper_node tree level i)
      sync_nodes level is tree'

    -- syncNodesByLevel
    unfoldable pub sync_nodes_by_level : (level : ℕ) → List ℕ → Tree → Result (Tree × List ℕ)
    sync_nodes_by_level level n_list tree = do
      tree' ← sync_nodes level n_list tree
      ok (tree', halves n_list)

    -- syncUpperNodes, from `level` on for `count` levels.
    unfoldable pub sync_levels : (count level : ℕ) → List ℕ → Tree → Result Tree
    sync_levels zero level n_list tree = ok tree
    sync_levels (suc count) level n_list tree = do
      (tree', n_list') ← sync_nodes_by_level level n_list tree
      sync_levels count (level + 1) n_list' tree'
