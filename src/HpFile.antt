-- ===== src/HpFile.antt =====
-- HPFile of datatree/hpfile.go: one append-only file in blocks that can be dropped from the head.
pub mod Disk
pub mod View
pub mod Append
pub mod Roll
pub mod Appended
pub mod Truncated
pub mod PreReader
pub mod ReadAhead
pub mod Sized
