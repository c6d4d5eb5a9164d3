-- ===== src/Store.antt =====
-- The layered stores of store/: a cache over a tree, the trunk of a block over the root, the store of a
-- transaction over the trunk, and stores with a prefix.
pub mod Cache
pub mod Layers
pub mod Written
pub mod Transaction
pub mod Prefix
pub mod Merge
pub mod Skipped
pub mod Sorted
pub mod Merged
pub mod Overlaid
