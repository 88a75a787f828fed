-- ===== src/Wal.antt =====
-- src/pipeline/wal.rs: the write-ahead log of captured batches.
pub mod Batch
pub mod Codec
pub mod Frame
pub mod Scan
pub mod Writer
pub mod Layout
pub mod Open
pub mod Recovery
pub mod Cursor
pub mod Reader
mod Samples
mod Tests
