-- ===== src/Derive/StructLaws.antt =====
-- Derived implementations of a struct (macros/src/lib.rs) keep the promise of the fields' types.
use lencode.Prelude.{◌<◌, ℕ, ◌+◌, ◌≡◌, Option, List, [], ◌++◌, length}
use lencode.Io.{Read, Write, ReadLaws, WriteLaws}
use lencode.Io.Context.{AppendsWith, ReadsWith}
use lencode.Context.Sync.{InStep}
use lencode.Codec.Laws.{CodingLaws}
use lencode.Codec.Products.{Fields, encode_fields, decode_fields}
use lencode.Codec.TupleLaws.{
  FieldLaws, fields_coded, FieldsCodable, after_fields, after_fields_read, after_fields-InStep,
  encode_fields-Appends, decode_fields-Reads,
}
use lencode.Derive.Enums.{
  VariantFields, named, unnamed, unit, field_types, encode_struct, decode_struct, derived_struct,
}

module _ {X Y : Type 0} (S : X → Y → Type 0) where
  pub encode_struct-Appends :
      (fields : VariantFields X Y) (Ls : FieldLaws S (field_types fields)) {W : Type 0}
      ⦃io : Write W⦄ (laws : WriteLaws io) (e : Option X) (d : Option Y)
      (vs : Fields (field_types fields)) (m : ℕ) (w : W)
      → InStep S e d
      → FieldsCodable S (field_types fields) Ls e vs
      → laws.Room w (length (fields_coded S (field_types fields) Ls e vs) + m)
      → 0 < m
      → AppendsWith laws
          (encode_struct fields vs)
          e
          w
          (fields_coded S (field_types fields) Ls e vs)
          (after_fields S (field_types fields) Ls e vs)
          m
  unfolding encode_struct encode_fields
  encode_struct-Appends (named Cs) Ls laws e d vs m w s fits room more =
      encode_fields-Appends S Cs Ls laws e d vs m w s fits room more
  encode_struct-Appends (unnamed Cs) Ls laws e d vs m w s fits room more =
      encode_fields-Appends S Cs Ls laws e d vs m w s fits room more
  encode_struct-Appends unit Ls laws e d vs m w s fits room more =
      encode_fields-Appends S [] Ls laws e d vs m w s fits room more

  pub decode_struct-Reads :
      (fields : VariantFields X Y) (Ls : FieldLaws S (field_types fields)) {R : Type 0}
      ⦃io : Read R⦄ (laws : ReadLaws io) (e : Option X) (d : Option Y)
      (vs : Fields (field_types fields)) (rest : List ℕ) (r : R)
      → InStep S e d
      → FieldsCodable S (field_types fields) Ls e vs
      → laws.IsValid r
      → laws.remaining r ≡ fields_coded S (field_types fields) Ls e vs ++ rest
      → ReadsWith laws
          (decode_struct fields)
          d
          r
          vs
          (after_fields_read S (field_types fields) Ls e d vs)
          rest
  unfolding decode_struct decode_fields
  decode_struct-Reads (named Cs) Ls laws e d vs rest r s fits valid left =
      decode_fields-Reads S Cs Ls laws e d vs rest r s fits valid left
  decode_struct-Reads (unnamed Cs) Ls laws e d vs rest r s fits valid left =
      decode_fields-Reads S Cs Ls laws e d vs rest r s fits valid left
  decode_struct-Reads unit Ls laws e d vs rest r s fits valid left =
      decode_fields-Reads S [] Ls laws e d vs rest r s fits valid left

  abbrev pub derived_struct-CodingLaws :
      (fields : VariantFields X Y) (size_of : ℕ)
      → FieldLaws S (field_types fields)
      → CodingLaws S (derived_struct fields size_of).coding
  derived_struct-CodingLaws fields size_of Ls = record {
    coded = fields_coded S (field_types fields) Ls;
    IsCodable = FieldsCodable S (field_types fields) Ls;
    after = after_fields S (field_types fields) Ls;
    after_read = after_fields_read S (field_types fields) Ls;
    after-InStep = after_fields-InStep S (field_types fields) Ls;
    encode-Appends = λ laws e d vs m w s fits room more.
        encode_struct-Appends fields Ls laws e d vs m w s fits room more;
    decode-Reads = λ laws e d vs rest r s fits valid left.
        decode_struct-Reads fields Ls laws e d vs rest r s fits valid left;
  }
