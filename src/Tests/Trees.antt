-- ===== src/Tests/Trees.antt =====
-- Twigs and their files with a few entries.
use mathlib.Core.List.{Memᴰ}
use mathlib.Core.List.Permᴰ
use onvakv.Base.{
  List, ℕ, zero, suc, ◌+◌, ◌*◌, ◌%◌, ◌==◌, if◌then◌else◌, ◌<◌, ◌≡◌, ◌≢◌, refl, inl, [], ◌∷◌, true,
  none, some, none-ne-some, length, replicate, length-replicate, All, get_elem?, arith,
}
use onvakv.Base.Int.{pos, negsuc}
use onvakv.Base.Result.{◌>>=◌, Result, ok, err, panic}
use onvakv.Types.{Bytes}
use onvakv.HpFile.Disk.{HpFile, append, append_bufs, append_buf, roll_over, flush, read_at, size}
use onvakv.HpFile.Append.{Holds, IsReady}
use onvakv.HpFile.Sized.{GrowsBy, append-GrowsBy}
use onvakv.TwigFile.Operations.{
  twig_mt_size, twig_mt_entry_count, append_twig, get_first_entry_pos, get_hash_node,
}
use onvakv.TwigFile.Written.{append_twig-read}
use onvakv.Tree.Hasher.{hashed, run}
use onvakv.Tree.Jobs.{run-hashed}
use onvakv.Tree.Youngest.{array_memory, row_jobs}
use onvakv.Tree.Rows.{row_jobs-AreSeparate}
use onvakv.Tree.Bits.{write_bit, get_bit, write_bit-get_bit}
use onvakv.Tree.Twig.{Twig, set_bit, null_mt4_twig}
use onvakv.Tree.State.{
  Tree, activiate_entry, set_entry_activiation, get_twig, put_twig, touch, at_edges, with_leaf,
  sync_changed, sync_mt4_youngest_twig, append_entry_bytes,
}
use onvakv.Tree.Kept.{HasTree, IsSynced, sync_mt4_youngest_twig-IsSynced}
use onvakv.Tree.Appended.{null_mt4_twig-AreRows, append_entry_bytes-HasTree}
use onvakv.Tree.Nodes.{get_twig_root}
use onvakv.Tree.EndBlock.{delete_twig, delete_twigs}
use onvakv.Tree.Evicted.{delete_twigs-get_twig_root}
use onvakv.Tree.Prune.{EdgeNode}
use onvakv.Tree.EdgeNodes.{
  edge_nodes_to_bytes, bytes_to_edge_nodes, edge_nodes_to_bytes-bytes_to_edge_nodes,
}
use onvakv.EntryStore.{append_record}
use onvakv.EntryFile.File.{record_buffers, get_padding_size}
use onvakv.Tests.Files.{empty_file, empty_file-IsReady}
use onvakv.Tests.Proofs.{sum, small_hash}

abbrev pub no_bits : Bytes
no_bits = replicate 256 0

abbrev one_hash : Bytes
one_hash = replicate 32 1

write_bit_nine :
    (bits : Bytes) × (write_bit true no_bits 9 ≡ ok bits)
    × (length bits ≡ 256)
    × (get_bit bits 9 ≡ ok true)
    × ((j : ℕ) → j < 2048 → 9 ≢ j → get_bit bits j ≡ get_bit no_bits j)
write_bit_nine = write_bit-get_bit true no_bits 9 refl (omega arith)

three_added :
    append empty_file ((1 ∷ 2 ∷ []) ∷ (3 ∷ []) ∷ [])
    ≡ ok (record empty_file { latest_file_size = 3; buffer = 1 ∷ 2 ∷ 3 ∷ [] }, 0)
unfolding append append_bufs append_buf roll_over size
three_added = refl

append_three :
    (0 ≡ size empty_file)
    × GrowsBy 3 empty_file (record empty_file { latest_file_size = 3; buffer = 1 ∷ 2 ∷ 3 ∷ [] })
append_three = append-GrowsBy empty_file ((1 ∷ 2 ∷ []) ∷ (3 ∷ []) ∷ []) three_added

abbrev small_sum : Bytes → Bytes
small_sum b = (sum b % 256) ∷ 0 ∷ 0 ∷ 0 ∷ []

replicate-All : (n : ℕ) → All (λ (m : Bytes). length m ≡ 32) (replicate n one_hash)
replicate-All zero = tt
replicate-All (suc n) = (refl, replicate-All n)

append_twig_of_ones :
    (h₁ : HpFile) × (h₂ : HpFile) × (append_twig small_sum empty_file
        (replicate 4095 one_hash)
        (pos 24)
      ≡ ok h₁)
    × IsReady h₁
    × (size h₁ ≡ (0 + 1) * twig_mt_size)
    × (flush h₁ ≡ ok h₂)
    × (get_first_entry_pos small_sum h₂ 0 ≡ ok (pos 24))
    × ((i : ℕ) (m : Bytes)
        → get_elem? (replicate 4095 one_hash) i ≡ some m
        → get_hash_node h₂ 0 (i + 1) ≡ ok m)
    × ((off : ℕ) (b : Bytes) → Holds empty_file off b → read_at h₂ off (length b) ≡ ok b)
append_twig_of_ones =
    append_twig-read small_sum empty_file (replicate 4095 one_hash) 24 0 empty_file-IsReady
      (unfold size twig_mt_size in refl) (omega arith) (λ b. refl) (omega arith)
      (unfold twig_mt_entry_count in length-replicate 4095 one_hash) (replicate-All 4095)

run_two :
    ((j : _)
      → Memᴰ j (row_jobs 2 0 4 0 3)
      → run small_hash array_memory (row_jobs 2 0 4 0 3) (row_jobs 2 0 4 0 3) (λ i. i ∷ []) j.target
        ≡ hashed small_hash array_memory (λ i. i ∷ []) j)
    × ((l : ℕ)
        → ((j : _) → Memᴰ j (row_jobs 2 0 4 0 3) → j.target ≢ l)
        → run small_hash array_memory (row_jobs 2 0 4 0 3) (row_jobs 2 0 4 0 3) (λ i. i ∷ []) l
          ≡ l ∷ [])
run_two =
    run-hashed small_hash array_memory (row_jobs 2 0 4 0 3) (row_jobs 2 0 4 0 3) (λ i. i ∷ [])
      (row_jobs-AreSeparate 2 0 2 0 3) (Permᴰ.refl (row_jobs 2 0 4 0 3))

abbrev pub small_twig : Twig
small_twig = record {
  active_bits = no_bits;
  active_bits_mtl1 = λ i. replicate 32 0;
  active_bits_mtl2 = λ i. replicate 32 0;
  active_bits_mtl3 = replicate 32 0;
  left_root = replicate 32 0;
  twig_root = replicate 32 0;
  first_entry_pos = negsuc 0;
}

abbrev pub small_tree : Tree
small_tree = record {
  entry_file = empty_file;
  twig_mt_file = empty_file;
  nodes = λ p. none;
  youngest_twig_id = 0;
  active_twigs = λ i. if i == 0 then some small_twig else none;
  mtree4_youngest_twig = null_mt4_twig small_hash;
  leave4_youngest_twig = λ i. none;
  mtree4_yt_change_start = none;
  mtree4_yt_change_end = 0;
  twigs_to_be_deleted = [];
  touched_pos_of_512b = [];
  deactived_sn_list = [];
}

small_tree-HasTree : HasTree small_hash small_tree
small_tree-HasTree = record {
  rows = null_mt4_twig-AreRows small_hash;
  waiting = λ i l. inl refl;
  ordered = λ s e. absurd (none-ne-some s e);
}

abbrev pub value {ℓ} : {A : Type ℓ} → Result A → A → A
value (ok a) b = a
value err b = b
value panic b = b

abbrev eight_bytes : Bytes
eight_bytes = 0 ∷ 1 ∷ 2 ∷ 3 ∷ 4 ∷ 5 ∷ 6 ∷ 7 ∷ []

-- After the entry with serial number 5.
abbrev tree_with_entry : Tree
tree_with_entry =
    (value (append_entry_bytes small_hash small_sum small_tree eight_bytes [] 5) (small_tree, 1)).0

entry_appended :
    append_entry_bytes small_hash small_sum small_tree eight_bytes [] 5 ≡ ok (tree_with_entry, 0)
unfolding append_entry_bytes activiate_entry set_entry_activiation get_twig set_bit write_bit
    append_record append append_bufs record_buffers append_buf touch put_twig get_padding_size
    roll_over size at_edges
entry_appended = refl

tree_with_entry-HasTree : HasTree small_hash tree_with_entry
tree_with_entry-HasTree =
    append_entry_bytes-HasTree small_hash small_sum small_tree tree_with_entry eight_bytes [] 5 0
      small_tree-HasTree (inl refl) entry_appended

append_entry_at_five : HasTree small_hash tree_with_entry
append_entry_at_five =
    append_entry_bytes-HasTree small_hash small_sum small_tree tree_with_entry eight_bytes [] 5 0
      small_tree-HasTree (inl refl) entry_appended

abbrev synced_tree : Tree
synced_tree = value (sync_mt4_youngest_twig small_hash tree_with_entry) tree_with_entry

tree_synced : sync_mt4_youngest_twig small_hash tree_with_entry ≡ ok synced_tree
unfolding sync_mt4_youngest_twig sync_changed get_twig put_twig append_entry_bytes activiate_entry
    set_entry_activiation set_bit write_bit append_record append append_bufs record_buffers
    append_buf touch get_padding_size roll_over size at_edges with_leaf
tree_synced = refl

sync_with_entry : IsSynced small_hash tree_with_entry synced_tree
sync_with_entry =
    sync_mt4_youngest_twig-IsSynced small_hash tree_with_entry synced_tree tree_with_entry-HasTree
      tree_synced

-- The first twig is deleted.
abbrev without_twig : Tree
without_twig = delete_twig small_tree 0 small_twig.twig_root

twig_deleted :
    delete_twigs (0 ∷ []) small_tree ≡ ok (record without_twig { twigs_to_be_deleted = [] })
unfolding delete_twigs get_twig
twig_deleted = refl

root_of_deleted :
    get_twig_root (record without_twig { twigs_to_be_deleted = [] }) 0 ≡ get_twig_root small_tree 0
root_of_deleted =
    delete_twigs-get_twig_root (0 ∷ []) small_tree
      (record without_twig { twigs_to_be_deleted = [] }) 0 twig_deleted

abbrev two_nodes : List EdgeNode
two_nodes = record { pos = 12; value = one_hash } ∷ record { pos = 300; value = one_hash } ∷ []

two_nodes_back : (edge_nodes_to_bytes two_nodes >>= bytes_to_edge_nodes) ≡ ok two_nodes
two_nodes_back =
    edge_nodes_to_bytes-bytes_to_edge_nodes two_nodes
      ((refl, omega arith), ((refl, omega arith), tt))
