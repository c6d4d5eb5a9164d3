-- ===== src/OnvaKv.antt =====
-- onvakv.go: the block update of the key-value store.
pub mod Link
pub mod Linked
pub mod Chain
pub mod Stores
pub mod Apply
pub mod Stored
pub mod Run
pub mod Update
