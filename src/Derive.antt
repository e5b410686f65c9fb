-- ===== src/Derive.antt =====
-- macros/src/lib.rs: what the derive macros generate.
pub mod Attributes
pub mod Enums
pub mod Discriminants
pub mod StructLaws
pub mod EnumLaws
pub mod Memory
pub mod Packs
pub mod PackLaws
mod Examples
