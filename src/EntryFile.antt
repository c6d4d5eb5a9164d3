-- ===== src/EntryFile.antt =====
-- datatree/entryfile.go: how an entry is written to bytes and read back.
-- Offsets into a buffer are kept by passing on the bytes from that offset on. A slice expression or
-- an index out of range panics, which is `none`.
pub mod Encode
pub mod Decode
pub mod Overwrite
pub mod Positions
pub mod Payload
pub mod Recover
pub mod Split
pub mod File
pub mod RoundTrip
pub mod Takes
pub mod Raw
pub mod Reencode
