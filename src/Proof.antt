-- ===== src/Proof.antt =====
-- datatree/proof.go: the path from an entry to the root of the Merkle tree.
pub mod Path
pub mod Check
pub mod Decoded
pub mod Get
pub mod Along
pub mod Obtained
