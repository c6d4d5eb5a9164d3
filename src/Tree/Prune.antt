-- ===== src/Tree/Prune.antt =====
-- Pruning of old twigs in datatree/tree.go, and the sizes of the files.
use onvakv.Base.{
  ℕ, zero, suc, ◌+◌, ◌-◌, ◌/◌, ◌%◌, Bool, true, false, not, ◌&&◌, none, some, List, [], ◌∷◌, ltb,
  leb, ◌==◌, if◌then◌else◌,
}
use onvakv.Base.Result.{Result, ok, panic, ◌>>=◌}
use onvakv.Types.{Bytes}
use onvakv.HpFile.Disk.{size, truncate}
use onvakv.TwigFile.Operations.{must}
use onvakv.Tree.State.{Tree}
use onvakv.Tree.Nodes as Nodes
use onvakv.Tree.Nodes.{calc_max_level}

pub record EdgeNode : Type 0 where
  pub pos : ℕ
  pub value : Bytes

unfoldable pub twig_can_be_pruned : Tree → ℕ → Bool
twig_can_be_pruned tree twig_id = elim (tree.active_twigs twig_id) [
  | none ↦ true
  | some twig ↦ false
]

unfoldable pub get_file_sizes : Tree → ℕ × ℕ
get_file_sizes tree = (size tree.entry_file, size tree.twig_mt_file)

unfoldable pub truncate_files : Tree → (entry_file_size twig_mt_file_size : ℕ) → Result Tree
truncate_files tree entry_file_size twig_mt_file_size = do
  ef ← must (truncate tree.entry_file entry_file_size)
  tf ← must (truncate tree.twig_mt_file twig_mt_file_size)
  ok (record tree { entry_file = ef; twig_mt_file = tf })

-- `endRound`: an odd end is rounded down above the level of the twigs.
unfoldable pub end_round : (level end_ : ℕ) → ℕ
end_round level end_ = if not (end_ % 2 == 0) && not (level == 12) then end_ - 1 else end_

-- The nodes from start - 1 to before the rounded end of a level are removed. Where start is 0, the number
-- -1 is among them, and there is no such node.
unfoldable pub remove_level : Tree → (level start end_ : ℕ) → Tree
remove_level tree level start end_ = record tree {
  nodes = λ p.
      if leb (Nodes.pos level (start - 1)) p && ltb p (Nodes.pos level (end_round level end_))
      then none
      else tree.nodes p;
}

unfoldable pub remove_levels : Tree → (count level start end_ : ℕ) → Tree
remove_levels tree zero level start end_ = tree
remove_levels tree (suc count) level start end_ =
    remove_levels (remove_level tree level start end_) count (level + 1) (start / 2) (end_ / 2)

unfoldable pub remove_useless_nodes : Tree → (start end_ : ℕ) → Tree
remove_useless_nodes tree start end_ =
    remove_levels tree (calc_max_level tree.youngest_twig_id - 11) 12 start end_

unfoldable pub edge_nodes : Tree → (count level end_ : ℕ) → Result (List EdgeNode)
edge_nodes tree zero level end_ = ok []
edge_nodes tree (suc count) level end_ =
    let p = Nodes.pos level (end_round level end_) in
    elim (tree.nodes p) [
      | none ↦ panic
      | some hash ↦ (do
        rest ← edge_nodes tree count (level + 1) (end_ / 2)
        ok (record { pos = p; value = hash } ∷ rest))
    ]

unfoldable pub get_edge_nodes : Tree → (end_ : ℕ) → Result (List EdgeNode)
get_edge_nodes tree end_ = edge_nodes tree (calc_max_level tree.youngest_twig_id - 11) 12 end_
