-- ===== src/Io.antt =====
-- src/io.rs and src/io/cursor.rs: errors, the traits of readers and writers, and their
-- implementations.
mod Error
mod Traits
pub mod Cursor
pub mod CursorLaws
pub mod MemoryLaws
pub mod Store
pub mod Context
pub mod Memory
pub mod VecWriter
pub mod Stream
pub use Error.*
pub use Traits.*
