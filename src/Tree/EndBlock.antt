-- ===== src/Tree/EndBlock.antt =====
-- The end of a block in datatree/tree.go.
use onvakv.Base.{ℕ, ◌-◌, none, List, [], ◌∷◌, ◌++◌, ◌==◌, if◌then◌else◌}
use onvakv.Base.Result.{Result, ok, ◌>>=◌}
use onvakv.Types.{Bytes}
use onvakv.HpFile.Disk.{flush}
use onvakv.Tree.Twig.{null_twig}
use onvakv.Tree.State.{Tree, get_twig, sync_mt4_youngest_twig}
use onvakv.Tree.Nodes.{pos, calc_max_level, get_node}
use onvakv.Tree.Upper.{put_node, sync_mt4_active_bits, sync_levels}

unfoldable pub evict_twig : Tree → ℕ → Tree
evict_twig tree twig_id = record tree {
  twigs_to_be_deleted = tree.twigs_to_be_deleted ++ (twig_id ∷ []);
}

unfoldable pub delete_twig : Tree → ℕ → Bytes → Tree
delete_twig tree id root =
    let tree' = put_node tree (pos 12 id) root in
    record tree' { active_twigs = λ i. if i == id then none else tree'.active_twigs i }

-- The twigs of the list are deleted, and their roots kept among the nodes.
unfoldable pub delete_twigs : List ℕ → Tree → Result Tree
delete_twigs [] tree = ok (record tree { twigs_to_be_deleted = [] })
delete_twigs (id ∷ ids) tree = do
  twig ← get_twig tree id
  delete_twigs ids (delete_twig tree id twig.twig_root)

module _ (sha256 : Bytes → Bytes) where
  -- syncUpperNodes
  unfoldable pub sync_upper_nodes : List ℕ → Tree → Result Tree
  sync_upper_nodes n_list tree = do
    null ← null_twig sha256
    sync_levels sha256 null.twig_root (calc_max_level tree.youngest_twig_id - 12) 13 n_list tree

  -- syncMT, with the root.
  unfoldable pub sync_mt : Tree → Result (Tree × Bytes)
  sync_mt tree = do
    tree₁ ← sync_mt4_youngest_twig sha256 tree
    (tree₂, n_list) ← sync_mt4_active_bits sha256 tree₁
    tree₃ ← sync_upper_nodes n_list tree₂
    hash ← get_node tree₃ (pos (calc_max_level tree.youngest_twig_id) 0)
    ok (record tree₃ { touched_pos_of_512b = [] }, hash)

  -- EndBlock. FlushAsync is Flush: whoever comes next waits for its lock.
  unfoldable pub end_block : Tree → Result (Tree × Bytes)
  end_block tree = do
    (tree₁, root_hash) ← sync_mt tree
    tree₂ ← delete_twigs tree₁.twigs_to_be_deleted tree₁
    ef ← flush tree₂.entry_file
    tf ← flush tree₂.twig_mt_file
    ok (record tree₂ { entry_file = ef; twig_mt_file = tf }, root_hash)
