-- ===== src/Tests.antt =====
-- Examples on concrete inputs.
pub mod Entries
pub mod Files
pub mod Blocks
pub mod Stores
pub mod Layered
pub mod Numbers
pub mod Proofs
pub mod Trees
pub mod Obtained
pub mod Merging
pub mod Rabbits
