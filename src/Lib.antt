-- ===== src/Lib.antt =====
-- lencode, a library that encodes data compactly: variable-length integers, repeated values
-- replaced by ids, and successive versions of a blob as differences. This is a model of its core
-- and the proofs about it. Paths are from the repository's root.
--
-- The parts, from the bottom up:
--   Prelude       Boolean tests, lists, slices, powers and bit facts that the others share.
--   Io            src/io.rs and src/io/cursor.rs. `Read` and `Write` are records of operations,
--                 and a call is a function of the state behind `&mut` that returns the state and
--                 a result: a value, an `Error`, or a fault, where the Rust code panics or has
--                 undefined behaviour. `ReadLaws` and `WriteLaws` say what the codecs rely on;
--                 CursorLaws and MemoryLaws prove them of `Cursor`, of `VecWriter`, and of
--                 `std::io` readers and writers of memory. Context adds a context beside the
--                 reader or writer, and Memory goes from a new `VecWriter` into a new `Cursor`.
--   Varint        src/varint.rs and src/varint/lencode.rs. Fixed holds the encoders and decoders
--                 of one width (`encode_varint_u16` and so on, which repeat one text), Generic
--                 those over any unsigned type and the Booleans, Zigzag and Signed the signed
--                 ones. Encoding is the wire format in plain arithmetic, which they are proved
--                 to write and to read.
--   Dedupe        src/dedupe.rs: Encoder and Decoder are `DedupeEncoder` and `DedupeDecoder`,
--                 Vec the part of src/lib.rs that sends a vector through them. The Rust code
--                 stores values of any type as `dyn Any`: here one type holds the values of all
--                 types, each with its type's id, behind the interface Values. Sync is the
--                 invariant between the two sides.
--   Bytes         src/bytes.rs, and the part of src/lib.rs that codes a `Vec<u8>` without a
--                 context. Header is the flagged length and the entropy check, Vec the codec, raw
--                 or compressed, and ReadLoop is about its loop at readers that answer a call with
--                 a part of what it asks for.
--   Diff          src/diff.rs. Patches is `compute_patches`, Xor `compute_xor` and its inverse,
--                 Encoder and Decoder are `DiffEncoder` and `DiffDecoder`. PatchLaws says what
--                 patches describe, Sync is the invariant between the two sides, Session a whole
--                 exchange.
--   Pack          src/pack.rs: Packings is the trait, PackingLaws what it promises, and Blocks are
--                 `pack` and `unpack` of numbers and of `[u8; N]`, and the floats and one-byte
--                 numbers that src/lib.rs and src/varint/lencode.rs write the same way.
--   Context       src/context.rs: Encoder and Decoder are `EncoderContext` and `DecoderContext`,
--                 each with its deduplication and its differences or neither. Sync is the
--                 invariant between the two sides: part by part, those of Dedupe and Diff.
--   Codec         src/lib.rs, src/tuples.rs and the implementations of src/dedupe.rs. Traits are
--                 `Encode` and `Decode`: a `Coding` has what each type has to write, a `Codec`
--                 also `encode_slice` and `decode_vec`. Each type is a function from the codings
--                 of its parts: Primitives, Strings, Blobs (bytes, with the difference coder of
--                 the context or without), Deduped (with its deduplication), Options, Sequences,
--                 Products (tuples and ranges) and Collections. Laws is the interface that their
--                 theorems fill: the bytes of a value, the contexts behind it, and that the two
--                 sides stay in step. Shapes are the types built so from one another, with any
--                 types of keys for their trees, and ShapeLaws the laws of them all, on which
--                 Memory stands. Hash collections, heaps and `VecDeque<u8>`, whose iterators and
--                 slices the bytes depend on, have theorems of their own and are not among them.
--   Derive        macros/src/lib.rs: Attributes reads `repr`, Enums and Packs are the implementations
--                 that the macros generate, as functions of the fields and variants of the item.
--                 A variant's discriminant is the compiler's, a pattern of bits of the `repr` type.
--
-- Numbers are natural numbers with the width written out: `usize` has 64 bits, a signed value is
-- its two's-complement pattern, and a byte is a number whose bound a theorem states where it needs
-- one. Loops are structural recursion, but for two: the count of a number's bytes has eight rounds,
-- enough for a `usize`, and the loop that fills a payload has as many rounds as the payload has
-- bytes, enough for a reader that never answers with nothing while it has bytes; where it does, the
-- loop of the source does not end, which is a fault of its own here. The laws of the codecs are for
-- readers that answer with all that a call asks for. The stores of the difference coder are
-- association lists: the order of their keys is not said. Targets are little-endian; sums of
-- `usize` wrap.
--
-- The crate zstd_safe is a parameter, with the laws that what it compressed it decompresses,
-- that its frames declare their content's size, and that they are not empty. The
-- buffers of `DiffEncoder` are vectors whose `Write` is that of the build without `std`, the code
-- of `VecWriter`; in a build with `std` the same bytes go through `write`.
--
-- A hash map, a hash set and a heap are known by the laws of their operations alone, and what
-- their iterators give is any list of their entries. The trees keep a sorted list. UTF-8 is read by
-- the automaton of `String::from_utf8`, and a float is its pattern of bits.
--
-- Not modelled: memory estimates and the failure of an allocation, the branches for big-endian
-- targets, text for people, the overrides of `decode_len` that panic, `U256` of an external
-- crate, the Solana types of one (src/solana.rs), and of the derive macros the syntax trees of
-- another, the bounds on type parameters and the path of the crate.
pub mod Prelude
pub mod Io
pub mod Varint
pub mod Dedupe
pub mod Bytes
pub mod Diff
pub mod Pack
pub mod Context
pub mod Codec
pub mod Derive
