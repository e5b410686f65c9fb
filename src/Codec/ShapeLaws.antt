-- ===== src/Codec/ShapeLaws.antt =====
-- Every type of Shapes keeps the promise of `Encode` and `Decode` (src/lib.rs).
use lencode.Prelude.{ℕ}
use lencode.Bytes.Zstd.{Zstd, ZstdLaws}
use lencode.Dedupe.Values.{Values, PackLaws}
use lencode.Context.Sync.{ContextSync}
use lencode.Context.Encoder.{EncoderContext}
use lencode.Context.Decoder.{DecoderContext}
use lencode.Codec.Traits.{Coding, Codec, by_item}
use lencode.Codec.Laws.{CodingLaws, CodecLaws, by_item-CodecLaws}
use lencode.Codec.Plain.{plain-CodingLaws}
use lencode.Codec.Primitives
use lencode.Codec.PrimitiveLaws
use lencode.Codec.SignedLaws
use lencode.Codec.PrimitiveLaws.{NumberLaws, number-PlainLaws}
use lencode.Codec.OtherPrimitives
use lencode.Codec.OtherPrimitives.{
  nonzero-PlainLaws, bool-PlainLaws, unit-PlainLaws, range_full-PlainLaws, phantom_data-PlainLaws,
}
use lencode.Codec.OptionLaws.{option-CodingLaws, result-CodingLaws}
use lencode.Codec.TupleLaws.{FieldLaws, tuple-CodingLaws}
use lencode.Codec.RangeLaws.{
  range-CodingLaws, range_inclusive-CodingLaws, range_from-CodingLaws, range_to-CodingLaws,
  range_to_inclusive-CodingLaws, cow-CodingLaws,
}
use lencode.Codec.Lists.{linked_list-CodingLaws, vec_deque-CodingLaws}
use lencode.Codec.Vecs.{vec-CodingLaws, array-CodingLaws}
use lencode.Codec.TreeLaws.{btree_map-CodingLaws, btree_set-CodingLaws}
use lencode.Codec.DedupedLaws.{deduped-CodecLaws}
use lencode.Codec.ByteLaws.{byte_vec-CodingLaws, string-PlainLaws}
use lencode.Codec.ByteArrayLaws.{byte_array-CodecLaws}
use lencode.Codec.Shapes.{
  Keyed, NumberType, Shape, Other, Shapes, number_of, codec, codec_of, codings,
}
use lencode.Codec.Shapes.{u16, u32, u64, u128, usize, i8, i16, i32, i64, i128, isize, f32, f64}
use lencode.Codec.Shapes.{
  u8, other, num, nonzero_u8, nonzero, bool, unit, range_full, phantom_data, string, byte_vec,
  byte_array, deduped, option, cow, range, range_inclusive, range_from, range_to,
  range_to_inclusive, linked_list, result, tuple, vec, vec_deque, array, btree_map, btree_set, nil,
  cons,
}

abbrev pub number_laws : (n : NumberType) → NumberLaws (number_of n)
number_laws u16 = PrimitiveLaws.u16-NumberLaws
number_laws u32 = PrimitiveLaws.u32-NumberLaws
number_laws u64 = PrimitiveLaws.u64-NumberLaws
number_laws u128 = PrimitiveLaws.u128-NumberLaws
number_laws usize = PrimitiveLaws.usize-NumberLaws
number_laws i8 = PrimitiveLaws.i8-NumberLaws
number_laws i16 = SignedLaws.i16-NumberLaws
number_laws i32 = SignedLaws.i32-NumberLaws
number_laws i64 = SignedLaws.i64-NumberLaws
number_laws i128 = SignedLaws.i128-NumberLaws
number_laws isize = SignedLaws.isize-NumberLaws
number_laws f32 = OtherPrimitives.f32-NumberLaws
number_laws f64 = OtherPrimitives.f64-NumberLaws

module _ (V : Values) (P : PackLaws V) (Z : Zstd) (zstd : ZstdLaws Z) (keys : ℕ → Keyed V)
    (key_laws : (k : ℕ) → CodingLaws (ContextSync V) (keys k).coding) where
  abbrev pub LawsOf : Codec (EncoderContext V) (DecoderContext V) → Type 1
  LawsOf C = CodecLaws (ContextSync V) C

  abbrev pub by_default :
      {C : Coding (EncoderContext V) (DecoderContext V)}
      → CodingLaws (ContextSync V) C
      → LawsOf (by_item C)
  by_default {C} L = by_item-CodecLaws (ContextSync V) C L

  abbrev S : EncoderContext V → DecoderContext V → Type 0
  S = ContextSync V

  unfoldable mutual
    unfolding codec codec_of codings

    pub codec_laws : (t : Shape) → LawsOf (codec V Z keys t)
    codec_laws u8 = by_default (plain-CodingLaws S (number-PlainLaws PrimitiveLaws.u8-NumberLaws))
    codec_laws (other t) = codec_of_laws t

    pub codec_of_laws : (t : Other) → LawsOf (codec_of V Z keys t)
    codec_of_laws (num n) = by_default (plain-CodingLaws S (number-PlainLaws (number_laws n)))
    codec_of_laws nonzero_u8 =
        by_default
          (plain-CodingLaws S (nonzero-PlainLaws Primitives.u8 PrimitiveLaws.u8-NumberLaws))
    codec_of_laws (nonzero n) =
        by_default (plain-CodingLaws S (nonzero-PlainLaws (number_of n) (number_laws n)))
    codec_of_laws bool = by_default (plain-CodingLaws S bool-PlainLaws)
    codec_of_laws unit = by_default (plain-CodingLaws S unit-PlainLaws)
    codec_of_laws range_full = by_default (plain-CodingLaws S range_full-PlainLaws)
    codec_of_laws phantom_data = by_default (plain-CodingLaws S phantom_data-PlainLaws)
    codec_of_laws string = by_default (plain-CodingLaws S (string-PlainLaws Z zstd))
    codec_of_laws byte_vec = by_default (byte_vec-CodingLaws V Z zstd)
    codec_of_laws (byte_array n) = byte_array-CodecLaws V Z zstd n
    codec_of_laws (deduped t size) = deduped-CodecLaws V P t size
    codec_of_laws (option t) =
        by_default (option-CodingLaws S (codec V Z keys t).coding (codec_laws t).item)
    codec_of_laws (cow t) =
        by_default (cow-CodingLaws S (codec V Z keys t).coding (codec_laws t).item)
    codec_of_laws (range t) =
        by_default (range-CodingLaws S (codec V Z keys t).coding (codec_laws t).item)
    codec_of_laws (range_inclusive t) =
        by_default (range_inclusive-CodingLaws S (codec V Z keys t).coding (codec_laws t).item)
    codec_of_laws (range_from t) =
        by_default (range_from-CodingLaws S (codec V Z keys t).coding (codec_laws t).item)
    codec_of_laws (range_to t) =
        by_default (range_to-CodingLaws S (codec V Z keys t).coding (codec_laws t).item)
    codec_of_laws (range_to_inclusive t) =
        by_default (range_to_inclusive-CodingLaws S (codec V Z keys t).coding (codec_laws t).item)
    codec_of_laws (linked_list t) =
        by_default (linked_list-CodingLaws S (codec V Z keys t).coding (codec_laws t).item)
    codec_of_laws (result t err) = by_default (
        result-CodingLaws S (codec V Z keys t).coding (codec V Z keys err).coding
          (codec_laws t).item (codec_laws err).item)
    codec_of_laws (tuple ts) = by_default (tuple-CodingLaws S (codings V Z keys ts) (field_laws ts))
    codec_of_laws (vec t) = by_default (vec-CodingLaws S (codec_of V Z keys t) (codec_of_laws t))
    codec_of_laws (vec_deque t) =
        by_default (vec_deque-CodingLaws S (codec_of V Z keys t).coding (codec_of_laws t).item)
    codec_of_laws (array n t) =
        by_default (array-CodingLaws S (codec_of V Z keys t) (codec_of_laws t) n)
    codec_of_laws (btree_map k t) = by_default (
        btree_map-CodingLaws S (keys k).coding (codec V Z keys t).coding (key_laws k)
          (codec_laws t).item (keys k).cmp)
    codec_of_laws (btree_set k) =
        by_default (btree_set-CodingLaws S (keys k).coding (key_laws k) (keys k).cmp)

    pub field_laws : (ts : Shapes) → FieldLaws S (codings V Z keys ts)
    field_laws nil = tt
    field_laws (cons t ts) = ((codec_laws t).item, field_laws ts)
