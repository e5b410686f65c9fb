-- ===== src/Codec/Shapes.antt =====
-- The types that the implementations of src/lib.rs, src/tuples.rs and src/dedupe.rs build from one
-- another, and the implementation of each.
use Prim.Native.Nat.{Ordering}
use lencode.Prelude.{ℕ, List, [], ◌∷◌}
use lencode.Bytes.Zstd.{Zstd}
use lencode.Dedupe.Values.{Values}
use lencode.Context.Encoder.{EncoderContext}
use lencode.Context.Decoder.{DecoderContext}
use lencode.Codec.Traits.{Coding, Codec, by_item}
use lencode.Codec.Plain.{plain}
use lencode.Codec.Primitives
use lencode.Codec.Options
use lencode.Codec.Products
use lencode.Codec.Sequences
use lencode.Codec.Collections
use lencode.Codec.Deduped
use lencode.Codec.Blobs
use lencode.Codec.Strings

-- The numbers but `u8`, which the sequences treat on its own.
pub data NumberType : Type 0 where
  u16 u32 u64 u128 usize i8 i16 i32 i64 i128 isize f32 f64 : NumberType

mutual
  pub data Shape : Type 0 where
    u8 : Shape
    other : Other → Shape

  -- A deduplicated type by its id and its size; the keys of a tree by their number.
  pub data Other : Type 0 where
    num : NumberType → Other
    nonzero_u8 : Other
    nonzero : NumberType → Other
    bool unit range_full phantom_data string byte_vec : Other
    byte_array : ℕ → Other
    deduped : ℕ → ℕ → Other
    option cow range range_inclusive range_from range_to range_to_inclusive : Shape → Other
    linked_list : Shape → Other
    result : Shape → Shape → Other
    tuple : Shapes → Other
    vec vec_deque : Other → Other
    array : ℕ → Other → Other
    btree_map : ℕ → Shape → Other
    btree_set : ℕ → Other

  pub data Shapes : Type 0 where
    nil : Shapes
    cons : Shape → Shapes → Shapes

abbrev pub number_of : NumberType → Primitives.Number
number_of u16 = Primitives.u16
number_of u32 = Primitives.u32
number_of u64 = Primitives.u64
number_of u128 = Primitives.u128
number_of usize = Primitives.usize
number_of i8 = Primitives.i8
number_of i16 = Primitives.i16
number_of i32 = Primitives.i32
number_of i64 = Primitives.i64
number_of i128 = Primitives.i128
number_of isize = Primitives.isize
number_of f32 = Primitives.f32
number_of f64 = Primitives.f64

-- A type of keys and its order, the `Ord` of the source.
pub record Keyed (V : Values) : Type 1 where
  pub coding : Coding (EncoderContext V) (DecoderContext V)
  pub cmp : coding.Value → coding.Value → Ordering

-- The types of the keys of trees, by number.
module _ (V : Values) (Z : Zstd) (keys : ℕ → Keyed V) where
  -- A type that replaces neither `encode_slice` nor `decode_vec`.
  abbrev pub AnyCodec : Type 1
  AnyCodec = Codec (EncoderContext V) (DecoderContext V)

  abbrev pub AnyCoding : Type 1
  AnyCoding = Coding (EncoderContext V) (DecoderContext V)

  unfoldable mutual
    pub codec : Shape → AnyCodec
    codec u8 = by_item (plain (Primitives.number Primitives.u8))
    codec (other t) = codec_of t

    pub codec_of : Other → AnyCodec
    codec_of (num n) = by_item (plain (Primitives.number (number_of n)))
    codec_of nonzero_u8 = by_item (plain (Primitives.nonzero Primitives.u8))
    codec_of (nonzero n) = by_item (plain (Primitives.nonzero (number_of n)))
    codec_of bool = by_item (plain Primitives.bool)
    codec_of unit = by_item (plain Primitives.unit)
    codec_of range_full = by_item (plain Primitives.range_full)
    codec_of phantom_data = by_item (plain Primitives.phantom_data)
    codec_of string = by_item (plain (Strings.string Z))
    codec_of byte_vec = by_item (Blobs.byte_vec V Z)
    codec_of (byte_array n) = Blobs.byte_array V Z n
    codec_of (deduped t size) = Deduped.deduped V t size
    codec_of (option t) = by_item (Options.option (codec t).coding)
    codec_of (cow t) = by_item (Products.cow (codec t).coding)
    codec_of (range t) = by_item (Products.range (codec t).coding)
    codec_of (range_inclusive t) = by_item (Products.range_inclusive (codec t).coding)
    codec_of (range_from t) = by_item (Products.range_from (codec t).coding)
    codec_of (range_to t) = by_item (Products.range_to (codec t).coding)
    codec_of (range_to_inclusive t) = by_item (Products.range_to_inclusive (codec t).coding)
    codec_of (linked_list t) = by_item (Sequences.linked_list (codec t).coding)
    codec_of (result t err) = by_item (Options.result (codec t).coding (codec err).coding)
    codec_of (tuple ts) = by_item (Products.tuple (codings ts))
    codec_of (vec t) = by_item (Sequences.vec (codec_of t))
    codec_of (vec_deque t) = by_item (Sequences.vec_deque (codec_of t).coding)
    codec_of (array n t) = by_item (Sequences.array n (codec_of t))
    codec_of (btree_map k t) =
        by_item (Collections.btree_map (keys k).coding (codec t).coding (keys k).cmp)
    codec_of (btree_set k) = by_item (Collections.btree_set (keys k).coding (keys k).cmp)

    pub codings : Shapes → List AnyCoding
    codings nil = []
    codings (cons t ts) = (codec t).coding ∷ codings ts
