-- ===== src/Diff.antt =====
-- src/diff.rs: differences between successive versions of a keyed byte blob.
pub mod Patches
pub mod PatchLaws
pub mod ComputePatches
pub mod Xor
pub mod Blobs
pub mod Encoder
pub mod Decoder
pub mod Buffers
pub mod Apply
pub mod Sync
pub mod EncodeBlob
pub mod DecodeModes
pub mod DecodeBlob
pub mod Session
pub mod Errors
pub mod Choice
mod Examples
