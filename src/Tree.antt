-- ===== src/Tree.antt =====
-- datatree/tree.go and datatree/hasher.go: the Merkle tree of twigs.
pub mod Hasher
pub mod Jobs
pub mod Youngest
pub mod Rows
pub mod Synced
pub mod Bits
pub mod Twig
pub mod State
pub mod Leaves
pub mod Kept
pub mod Appended
pub mod Nodes
pub mod Upper
pub mod EndBlock
pub mod Prune
pub mod Evicted
pub mod EdgeNodes
pub mod Touched
pub mod Active
pub mod InOrder
