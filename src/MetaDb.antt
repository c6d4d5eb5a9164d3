-- ===== src/MetaDb.antt =====
-- metadb/metadb.go: the numbers that describe the state of the database.
pub mod Fields
pub mod Reload
