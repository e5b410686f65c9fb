-- ===== src/Bytes.antt =====
-- src/bytes.rs, and the part of src/lib.rs that codes a `Vec<u8>` with it.
pub mod Zstd
pub mod Header
pub mod Vec
pub mod ReadLoop
pub mod Packed
pub mod EncodeVec
pub mod DecodeVec
pub mod Trimmer
mod Examples
