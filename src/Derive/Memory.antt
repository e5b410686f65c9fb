-- ===== src/Derive/Memory.antt =====
-- Values of a derived enum (macros/src/lib.rs) from a new `VecWriter` into a new `Cursor`, and the
-- discriminants that the decoder does not know.
use lencode.Prelude.{
  ℕ, ◌^◌, ◌<◌, ◌≡◌, ◌≢◌, refl, arith, suc, ◌==◌, false, Option, List, [], ◌∷◌, ◌++◌, All,
}
use lencode.Io.{err, invalid_data, Read, ReadLaws}
use lencode.Io.Cursor.{cursor_read}
use lencode.Io.VecWriter.{vec_write}
use lencode.Io.Memory.{Transmits}
use lencode.Varint.Encoding.{encoding}
use lencode.Context.Sync.{InStep}
use lencode.Varint.Decode.{decode_word-Reads}
use lencode.Varint.Fixed.{decode_varint_u64}
use lencode.Codec.Traits.{decode_discriminant}
use lencode.Codec.Memory.{transmits}
use lencode.Derive.Attributes.{Repr}
use lencode.Codec.Products.{Fields}
use lencode.Codec.TupleLaws.{
  FieldLaws, FieldsCodable, after_fields, after_fields_read, after_fields-InStep,
}
use lencode.Derive.StructLaws.{derived_struct-CodingLaws}
use lencode.Derive.Enums.{
  VariantFields, field_types, encode_struct, decode_struct, derived_struct, Variant, EnumItem,
  numeric_repr, disc_of, Chosen, decode_variant, encode_enum, decode_enum, derived_enum,
}
use lencode.Derive.Discriminants.{discs, IsEnum}
use lencode.Derive.EnumLaws.{
  VariantLaws, ChosenCodable, after_chosen, after_chosen_read, after_chosen-InStep,
  derived_enum-CodingLaws,
}

module _ {X Y : Type 0} (S : X → Y → Type 0) (E : EnumItem X Y) where
  -- For an enum with fewer than 2 ^ 64 variants, whose discriminants, where they are written, are
  -- patterns of the `repr` type and all different, fields whose types keep the interface
  -- CodingLaws, a variant with fields within their bounds, and contexts in step or none: the
  -- derived `encode_ext` succeeds on a new vector and returns the number of its bytes; from these
  -- the derived `decode_ext` returns the variant with its fields and consumes all of them; and the
  -- contexts are in step again.
  pub decode_enum-encode_enum :
      (Ls : VariantLaws S E.variants) (e : Option X) (d : Option Y) (chosen : Chosen E.variants)
      → IsEnum E
      → InStep S e d
      → ChosenCodable S E.variants Ls e chosen
      → Transmits
          (encode_enum E chosen)
          e
          (after_chosen S E.variants Ls e chosen)
          (decode_enum E)
          d
          (after_chosen_read S E.variants Ls e d chosen)
          chosen
        × InStep S
            (after_chosen S E.variants Ls e chosen)
            (after_chosen_read S E.variants Ls e d chosen)
  decode_enum-encode_enum Ls e d chosen is s fits = (
    transmits S (derived_enum E).coding (derived_enum-CodingLaws S E is Ls) e d chosen s fits,
    after_chosen-InStep S E.variants Ls e d chosen s fits,
  )

module _ {X Y : Type 0} (S : X → Y → Type 0) where
  -- For a struct whose fields' types keep the interface CodingLaws, fields within their bounds, and
  -- contexts in step or none: the derived `encode_ext` succeeds on a new vector and returns the
  -- number of its bytes; from these the derived `decode_ext` returns the fields and consumes all of
  -- them; and the contexts are in step again.
  pub decode_struct-encode_struct :
      (fields : VariantFields X Y) (Ls : FieldLaws S (field_types fields)) (e : Option X)
      (d : Option Y) (vs : Fields (field_types fields))
      → InStep S e d
      → FieldsCodable S (field_types fields) Ls e vs
      → Transmits
          (encode_struct fields vs)
          e
          (after_fields S (field_types fields) Ls e vs)
          (decode_struct fields)
          d
          (after_fields_read S (field_types fields) Ls e d vs)
          vs
        × InStep S
            (after_fields S (field_types fields) Ls e vs)
            (after_fields_read S (field_types fields) Ls e d vs)
  decode_struct-encode_struct fields Ls e d vs s fits = (
    transmits S (derived_struct fields 0).coding (derived_struct-CodingLaws S fields 0 Ls) e d vs s
        fits,
    after_fields-InStep S (field_types fields) Ls e d vs s fits,
  )

module _ {X Y : Type 0} where
  no_variant :
      (R : Option Repr) (idx n : ℕ) (vs : List (Variant X Y)) {R' : Type 0} ⦃io : Read R'⦄
      (d : Option Y) (r : R')
      → All (λ m. m ≢ n) (discs R idx vs)
      → decode_variant R idx vs n (d, r) ≡ ((d, r), err invalid_data)
  unfolding decode_variant
  no_variant R idx n [] d r unlike = refl
  no_variant R idx n (v ∷ vs) d r (differs, unlike) =
      let other : n == disc_of R idx v ≡ false = ground arith in
      rw (other, no_variant R (suc idx) n vs d r unlike)

  -- From a valid reader whose next bytes are those of a number below 2 ^ 64 that is the
  -- discriminant of no variant: the derived `decode_ext` fails with `InvalidData`, the number is
  -- consumed, and the context stays as it was.
  pub decode_unknown_variant :
      (E : EnumItem X Y) {R : Type 0} ⦃io : Read R⦄ (laws : ReadLaws io) (d : Option Y) (n : ℕ)
      (rest : List ℕ) (r : R)
      → n < 2 ^ 64
      → All (λ m. m ≢ n) (discs (numeric_repr E) 0 E.variants)
      → laws.IsValid r
      → laws.remaining r ≡ encoding 8 n ++ rest
      → (r' : R) × (decode_enum E (d, r) ≡ ((d, r'), err invalid_data))
        × laws.IsValid r'
        × (laws.remaining r' ≡ rest)
  unfolding decode_enum decode_discriminant decode_varint_u64
  decode_unknown_variant E laws d n rest r small unlike valid left =
      let (r', h, valid', left') =
        decode_word-Reads laws 8 n rest r (omega arith) small valid left in
      (r', rw (h, no_variant (numeric_repr E) 0 n E.variants d r' unlike), valid', left')
