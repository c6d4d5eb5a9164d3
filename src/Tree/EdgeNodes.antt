-- ===== src/Tree/EdgeNodes.antt =====
-- Edge nodes as bytes and back, in datatree/load_dump.go, and pruning with them.
use onvakv.Base.{
  true, ℕ, zero, suc, ◌+◌, ◌*◌, ◌/◌, ◌%◌, ◌^◌, ◌<◌, ◌≡◌, refl, sym, ap, ◌∙◌, arith, List, [], ◌∷◌,
  ◌++◌, All, length, take, drop, take-append, drop-append, length-append, append_assoc, ltb, ◌==◌,
  if◌then◌else◌,
}
use onvakv.Base.Int as Int
use onvakv.Base.Words.{put_le, get_le, length-put_le, get_le-put_le_64}
use onvakv.Base.Result.{Result, ok, panic, ◌>>=◌}
use onvakv.Types.{Bytes}
use onvakv.HpFile.Disk.{HpFile, prune_head}
use onvakv.TwigFile.Operations.{twig_mt_size, get_first_entry_pos}
use onvakv.Tree.State.{Tree}
use onvakv.Tree.Prune.{EdgeNode, get_edge_nodes, remove_useless_nodes}

unfoldable pub edge_nodes_to_bytes : List EdgeNode → Result Bytes
edge_nodes_to_bytes [] = ok []
edge_nodes_to_bytes (node ∷ nodes) =
    if length node.value == 32
    then (do rest ← edge_nodes_to_bytes nodes; ok (put_le 8 node.pos ++ (node.value ++ rest)))
    else panic

unfoldable pub read_edge_nodes : (count : ℕ) → Bytes → List EdgeNode
read_edge_nodes zero bz = []
read_edge_nodes (suc count) bz =
    record { pos = get_le (take 8 bz); value = take 32 (drop 8 bz) }
    ∷ read_edge_nodes count (drop 40 bz)

unfoldable pub bytes_to_edge_nodes : Bytes → Result (List EdgeNode)
bytes_to_edge_nodes bz =
    if length bz % 40 == 0 then ok (read_edge_nodes (length bz / 40) bz) else panic

-- ReapNodes
unfoldable pub reap_nodes : Tree → (start end_ : ℕ) → Result (Tree × Bytes)
reap_nodes tree start end_ =
    let tree' = remove_useless_nodes tree start end_ in
    do nodes ← get_edge_nodes tree' end_; bz ← edge_nodes_to_bytes nodes; ok (tree', bz)

-- A negative position prunes nothing.
unfoldable pub prune_before : HpFile → Int.ℤ → HpFile
prune_before file (Int.pos off) = prune_head file off
prune_before file (Int.negsuc n) = file

-- PruneTwigs
unfoldable pub prune_twigs : (Bytes → Bytes) → Tree → (start_id end_id : ℕ) → Result (Tree × Bytes)
prune_twigs meow tree start_id end_id = if ltb end_id (start_id + 2) then panic else do
  first ← get_first_entry_pos meow tree.twig_mt_file end_id
  let ef = prune_before tree.entry_file first
  reap_nodes
      (record tree {
        entry_file = ef;
        twig_mt_file = prune_head tree.twig_mt_file (end_id * twig_mt_size);
      })
      start_id end_id

-- A node whose hash has 32 bytes and whose position fits into 64 bits.
abbrev pub IsNode : EdgeNode → Type 0
IsNode node = (length node.value ≡ 32) × (node.pos < 2 ^ 64)

written : List EdgeNode → Bytes
written [] = []
written (node ∷ nodes) = put_le 8 node.pos ++ (node.value ++ written nodes)

edge_nodes_to_bytes-written :
    (nodes : List EdgeNode) → All IsNode nodes → edge_nodes_to_bytes nodes ≡ ok (written nodes)
unfolding edge_nodes_to_bytes written
edge_nodes_to_bytes-written [] h = refl
edge_nodes_to_bytes-written (node ∷ nodes) ((l, _), h) =
    (let t : (length node.value == 32) ≡ true = ground (arith, l) in
      rw (t, edge_nodes_to_bytes-written nodes h) refl)

length-written :
    (nodes : List EdgeNode) → All IsNode nodes → length (written nodes) ≡ 40 * length nodes
unfolding written
length-written [] h = refl
length-written (node ∷ nodes) ((l, _), h) = omega (
  arith,
  length-append (put_le 8 node.pos) (node.value ++ written nodes),
  length-put_le 8 node.pos,
  length-append node.value (written nodes),
  l,
  length-written nodes h,
)

drop_node : (a b c : Bytes) → length a ≡ 8 → length b ≡ 32 → drop 40 (a ++ (b ++ c)) ≡ c
drop_node a b c la lb =
    ap (drop 40) (sym (append_assoc a b c))
    ∙ drop-append (a ++ b) c 40 (omega (arith, length-append a b, la, lb))

read_edge_nodes-written :
    (nodes : List EdgeNode)
    → All IsNode nodes
    → read_edge_nodes (length nodes) (written nodes) ≡ nodes
unfolding written read_edge_nodes
read_edge_nodes-written [] h = refl
read_edge_nodes-written (node ∷ nodes) ((l, p), h) =
    (let w = put_le 8 node.pos in
      rw
        (
          take-append w (node.value ++ written nodes) 8 (sym (length-put_le 8 node.pos)),
          drop-append w (node.value ++ written nodes) 8 (sym (length-put_le 8 node.pos)),
          take-append node.value (written nodes) 32 (sym l),
          get_le-put_le_64 node.pos p,
          drop_node w node.value (written nodes) (length-put_le 8 node.pos) l,
          read_edge_nodes-written nodes h,
        )
        refl)

-- Edge nodes whose hashes have 32 bytes and whose positions have 64 bits are written without a panic, and
-- BytesToEdgeNodes gives them back.
pub edge_nodes_to_bytes-bytes_to_edge_nodes :
    (nodes : List EdgeNode)
    → All IsNode nodes
    → (edge_nodes_to_bytes nodes >>= bytes_to_edge_nodes) ≡ ok nodes
unfolding bytes_to_edge_nodes
edge_nodes_to_bytes-bytes_to_edge_nodes nodes h =
    (let n = length-written nodes h in
      let t : (length (written nodes) % 40 == 0) ≡ true = ground (arith, n) in
      let c : length (written nodes) / 40 ≡ length nodes = omega (arith, n) in
      rw (edge_nodes_to_bytes-written nodes h, t, c, read_edge_nodes-written nodes h) refl)
