-- ===== src/Varint.antt =====
-- src/varint.rs and src/varint/lencode.rs: the variable-length integers.
pub mod Bytes
pub mod Fixed
mod Payload
pub mod Encoding
pub mod Generic
pub mod Agreement
pub mod Errors
pub mod Faults
pub mod Zigzag
pub mod DecodeGeneric
pub mod Encode
pub mod Decode
pub mod DecodeU128
pub mod Bool
pub mod Signed
pub mod Memory
mod Examples
unfoldable pub use Bytes.*
