-- ===== src/Rabbit.antt =====
-- store/rabbit: a store of keys of any length over short keys of eight bytes, which are found by hashing.
pub mod Cached
pub mod Multi
pub mod Operations
pub mod Cells
pub mod Walk
pub mod Counts
pub mod Live
pub mod Represents
pub mod Changed
pub mod Located
pub mod Holds
pub mod Writes
pub mod Refined
pub mod Reloaded
pub mod Closed
pub mod Reopened
pub mod Persisted
pub mod Filled
pub mod Inserted
pub mod Deleted
pub mod Runs
pub mod Vacated
pub mod Fetched
