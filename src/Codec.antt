-- ===== src/Codec.antt =====
-- src/lib.rs, src/context.rs and src/tuples.rs: the traits `Encode` and `Decode`, the contexts, and
-- the implementations for the types of the standard library.
pub mod Traits
pub mod Laws
pub mod Plain
pub mod Sequences
pub mod Items
pub mod Lists
pub mod Vecs
pub mod Primitives
pub mod PrimitiveLaws
pub mod SignedLaws
pub mod OtherPrimitives
pub mod Options
pub mod OptionLaws
pub mod Products
pub mod Tuples
pub mod TupleLaws
pub mod PairLaws
pub mod RangeLaws
pub mod Collections
pub mod CollectionLaws
pub mod TreeLaws
pub mod HashLaws
pub mod Deduped
pub mod DedupedLaws
pub mod Blobs
pub mod Strings
pub mod BlobLaws
pub mod ByteLaws
pub mod ByteArrayLaws
pub mod Shapes
pub mod ShapeLaws
pub mod Memory
pub mod Errors
mod Examples
mod ShapeExamples
mod ErrorExamples
pub mod EmptySlices
