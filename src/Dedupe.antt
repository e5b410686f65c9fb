-- ===== src/Dedupe.antt =====
-- src/dedupe.rs: the encoder that replaces repeated values by ids, and its decoder.
pub mod Values
pub mod Encoder
pub mod Decoder
pub mod Sync
pub mod Vec
pub mod RoundTrip
pub mod VecRoundTrip
pub mod Memory
pub mod Errors
pub mod Flags
mod Examples
pub use Values.*
