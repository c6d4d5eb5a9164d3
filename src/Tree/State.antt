-- ===== src/Tree/State.antt =====
-- The tree of datatree/tree.go and the operations on it within a block. Serial numbers and twig ids that
-- reach the tree are not negative. A map is a function from its keys; looking up a twig that is not there
-- gives a nil pointer, and using it panics.
use onvakv.Base.{
  ℕ, zero, suc, ◌+◌, ◌/◌, ◌%◌, Bool, true, false, Option, none, some, List, [], ◌∷◌, ◌++◌, length,
  ltb, ◌==◌, if◌then◌else◌,
}
use onvakv.Base.Int.{ℤ, pos, negsuc}
use onvakv.Base.Result.{Result, ok, panic, ◌>>=◌}
use onvakv.Types.{Bytes, Entry}
use onvakv.EntryFile.Encode.{entry_to_bytes, sn_list_to_bytes}
use onvakv.EntryStore.{append_record}
use onvakv.HpFile.Disk.{HpFile}
use onvakv.TwigFile.Operations.{append_twig}
use onvakv.Tree.Youngest.{Array, write_at, leaf_count_in_twig, hash_leaves, sync_rows}
use onvakv.Tree.Bits.{get_bit}
use onvakv.Tree.Twig.{Twig, set_bit, clear_bit, null_twig, null_mt4_twig}

-- mtree4YTChangeStart is `none` where it is -1 in the code; mtree4YTChangeEnd is read only where there is a
-- start.
pub record Tree : Type 0 where
  pub entry_file : HpFile
  pub twig_mt_file : HpFile
  pub nodes : ℕ → Option Bytes
  pub youngest_twig_id : ℕ
  pub active_twigs : ℕ → Option Twig
  pub mtree4_youngest_twig : Array Bytes
  pub leave4_youngest_twig : Array (Option (Bytes × Bytes))
  pub mtree4_yt_change_start : Option ℕ
  pub mtree4_yt_change_end : ℕ
  pub twigs_to_be_deleted : List ℕ
  pub touched_pos_of_512b : List ℕ
  pub deactived_sn_list : List ℤ

unfoldable pub get_twig : Tree → ℕ → Result Twig
get_twig tree id = elim (tree.active_twigs id) [ none ↦ panic | some twig ↦ ok twig ]

unfoldable pub put_twig : Tree → ℕ → Twig → Tree
put_twig tree id twig = record tree {
  active_twigs = λ i. if i == id then some twig else tree.active_twigs i;
}

-- The keys of a set, in the order in which the code sorts them before it uses them.
unfoldable pub insert : ℕ → List ℕ → List ℕ
insert p [] = p ∷ []
insert p (q ∷ qs) =
    let rest = insert p qs in if ltb p q then p ∷ (q ∷ qs) else if p == q then q ∷ qs else q ∷ rest

unfoldable pub touch : Tree → ℕ → Tree
touch tree p = record tree { touched_pos_of_512b = insert p tree.touched_pos_of_512b }

unfoldable pub get_active_bit : Tree → ℕ → Result Bool
get_active_bit tree sn = do
  twig ← get_twig tree (sn / leaf_count_in_twig)
  get_bit twig.active_bits (sn % leaf_count_in_twig)

unfoldable pub set_entry_activiation : Tree → ℕ → Bool → Result Tree
set_entry_activiation tree sn active =
    let twig_id = sn / leaf_count_in_twig in
    let offset = sn % leaf_count_in_twig in
    do
      twig ← get_twig tree twig_id
      tree' ←
          (if active
            then (do twig' ← set_bit twig offset; ok (put_twig tree twig_id twig'))
            else (do
              twig' ← clear_bit twig offset
              ok (record (put_twig tree twig_id twig') {
                deactived_sn_list = tree.deactived_sn_list ++ (pos sn ∷ []);
              })))
      ok (touch tree' (sn / 512))

unfoldable pub activiate_entry : Tree → ℕ → Result Tree
activiate_entry tree sn = set_entry_activiation tree sn true

-- DeactiviateEntry, with the length of the list.
unfoldable pub deactiviate_entry : Tree → ℕ → Result (Tree × ℕ)
deactiviate_entry tree sn = do
  tree' ← set_entry_activiation tree sn false
  ok (tree', length tree'.deactived_sn_list)

module _ (sha256 : Bytes → Bytes) where
  -- syncMT4YoungestTwig, where something has changed.
  unfoldable pub sync_changed : Tree → ℕ → Result Tree
  sync_changed tree start =
      let s =
        hash_leaves sha256 leaf_count_in_twig
          (tree.mtree4_youngest_twig, tree.leave4_youngest_twig) in
      let mt = sync_rows sha256 11 0 start tree.mtree4_yt_change_end s.0 in
      do
        twig ← get_twig tree tree.youngest_twig_id
        ok (
            put_twig
              (record tree {
                mtree4_youngest_twig = mt;
                leave4_youngest_twig = s.1;
                mtree4_yt_change_start = none;
                mtree4_yt_change_end = 0;
              })
              tree.youngest_twig_id (record twig { left_root = mt 1 }))

  unfoldable pub sync_mt4_youngest_twig : Tree → Result Tree
  sync_mt4_youngest_twig tree = elim tree.mtree4_yt_change_start [
    | none ↦ ok tree
    | some start ↦ sync_changed tree start
  ]

  -- `mt[from], mt[from + 1], …`
  unfoldable pub elements : Array Bytes → (from count : ℕ) → List Bytes
  elements mt from zero = []
  elements mt from (suc count) = mt from ∷ elements mt (from + 1) count

  module _ (meow : Bytes → Bytes) where
    -- What appendEntry does behind the last entry of a twig.
    unfoldable pub close_twig : Tree → ℕ → Result Tree
    close_twig tree sn = do
      tree₁ ← sync_mt4_youngest_twig tree
      twig ← get_twig tree₁ (sn / leaf_count_in_twig)
      tf ←
          append_twig meow tree₁.twig_mt_file (elements tree₁.mtree4_youngest_twig 1 4095)
            twig.first_entry_pos
      let id = tree₁.youngest_twig_id + 1
      new ← null_twig sha256
      ok (
          touch
            (put_twig
              (record tree₁ {
                twig_mt_file = tf;
                youngest_twig_id = id;
                mtree4_youngest_twig = null_mt4_twig sha256;
              })
              id new)
            ((sn + 1) / 512))

    -- The record of the change and of the leaf in appendEntry.
    unfoldable pub with_leaf : Tree → HpFile → ℕ → Bytes × Bytes → Tree
    with_leaf tree ef position leaf = record tree {
      entry_file = ef;
      mtree4_yt_change_start = elim tree.mtree4_yt_change_start [
        | none ↦ some position
        | some start ↦ some start
      ];
      mtree4_yt_change_end = position;
      leave4_youngest_twig = write_at tree.leave4_youngest_twig position (some leaf);
    }

    -- What appendEntry does at the first and at the last place of a twig.
    unfoldable pub at_edges : Tree → (sn at : ℕ) → Result Tree
    at_edges tree sn at =
        if sn % leaf_count_in_twig == 0
        then (do
          twig ← get_twig tree (sn / leaf_count_in_twig)
          ok (put_twig tree (sn / leaf_count_in_twig) (record twig { first_entry_pos = pos at })))
        else if sn % leaf_count_in_twig == 2047
        then close_twig tree sn
        else ok tree

    -- appendEntry
    unfoldable pub append_entry_bytes : Tree → Bytes → Bytes → ℕ → Result (Tree × ℕ)
    append_entry_bytes tree b0 b1 sn = do
      tree₁ ← activiate_entry (record tree { youngest_twig_id = sn / leaf_count_in_twig }) sn
      (ef, at) ← append_record tree₁.entry_file b0 b1
      tree₃ ← at_edges (with_leaf tree₁ ef (sn % leaf_count_in_twig) (b0, b1)) sn at
      ok (tree₃, at)

    -- AppendEntry: the list of deactivated serial numbers goes into the entry.
    unfoldable pub append_tree_entry : Tree → Entry → Result (Tree × ℕ)
    append_tree_entry tree entry = elim entry.serial_num [
      | negsuc n ↦ panic
      | pos sn ↦
          append_entry_bytes (record tree { deactived_sn_list = [] })
            (entry_to_bytes entry tree.deactived_sn_list) [] sn
    ]

    -- AppendEntryRawBytes: the first byte becomes the length of the list.
    unfoldable pub append_entry_raw_bytes : Tree → Bytes → ℕ → Result (Tree × ℕ)
    append_entry_raw_bytes tree [] sn = panic
    append_entry_raw_bytes tree (b ∷ entry_bz) sn =
        append_entry_bytes (record tree { deactived_sn_list = [] })
          ((length tree.deactived_sn_list % 256) ∷ entry_bz)
          (sn_list_to_bytes tree.deactived_sn_list) sn
