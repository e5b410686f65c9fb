-- ===== src/Pack.antt =====
-- src/pack.rs: the layout of a value without a context, which deduplication stores.
pub mod Blocks
pub mod BlockLaws
pub mod Words
pub mod Packings
pub mod PackingLaws
pub mod ArrayLaws
mod Examples
