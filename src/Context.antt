-- ===== src/Context.antt =====
-- src/context.rs: what an encoder or a decoder carries beside its writer or reader.
pub mod Encoder
pub mod Decoder
pub mod Sync
