-- ===== src/Derive/Enums.antt =====
-- macros/src/lib.rs, `derive_encode_impl` and `derive_decode_impl`: the implementations that they
-- generate for a struct or an enum, as a function of its fields and variants.
use lencode.Prelude.{
  ℕ, suc, ◌==◌, ◌⊎◌, inl, inr, ◌&&◌, Bool, true, false, if◌then◌else◌, Option, none, some, List, [],
  ◌∷◌,
}
use lencode.Io.{M, pure, throw, ◌>>=◌, ◌⊕◌, invalid_data, Read, Write}
use lencode.Io.Context.{on_right}
use lencode.Codec.Traits.{Coding, Codec, by_item, encode_discriminant, decode_discriminant}
use lencode.Codec.Products.{Fields, encode_fields, decode_fields}
use lencode.Derive.Attributes.{ReprMeta, Repr, enum_repr_ty, as_usize}

-- The fields of a struct or of a variant, each by the implementation of its type.
pub data VariantFields (X Y : Type 0) : Type 1 where
  named : List (Coding X Y) → VariantFields X Y
  unnamed : List (Coding X Y) → VariantFields X Y
  unit : VariantFields X Y

-- A variant, with the discriminant that the compiler gives it, a pattern of bits.
pub record Variant (X Y : Type 0) : Type 1 where
  pub fields : VariantFields X Y
  pub discriminant : ℕ

-- `size_of` is the compiler's choice.
pub record EnumItem (X Y : Type 0) : Type 1 where
  pub attrs : List ReprMeta
  pub variants : List (Variant X Y)
  pub size_of : ℕ

module _ {X Y : Type 0} where
  abbrev pub field_types : VariantFields X Y → List (Coding X Y)
  field_types (named Cs) = Cs
  field_types (unnamed Cs) = Cs
  field_types unit = []

  abbrev pub is_unit : VariantFields X Y → Bool
  is_unit (named Cs) = false
  is_unit (unnamed Cs) = false
  is_unit unit = true

  abbrev pub is_c_like : List (Variant X Y) → Bool
  is_c_like [] = true
  is_c_like (v ∷ vs) = is_unit v.fields && is_c_like vs

  -- The type whose numbers are written, if they are.
  abbrev pub numeric_repr : EnumItem X Y → Option Repr
  numeric_repr E = if is_c_like E.variants then enum_repr_ty E.attrs else none

  -- What is written for the variant with an index.
  abbrev pub variant_disc : Option Repr → ℕ → ℕ → VariantFields X Y → ℕ
  variant_disc R idx number (named Cs) = idx
  variant_disc R idx number (unnamed Cs) = idx
  variant_disc (some R) idx number unit = as_usize R number
  variant_disc none idx number unit = idx

  abbrev pub disc_of : Option Repr → ℕ → Variant X Y → ℕ
  disc_of R idx v = variant_disc R idx v.discriminant v.fields

  -- A variant of the list, and its fields.
  abbrev pub Chosen : List (Variant X Y) → Type 0
  Chosen [] = ⊥
  Chosen (v ∷ vs) = Fields (field_types v.fields) ⊎ Chosen vs

  -- `match self { ... }`, from the variant with the index on.
  unfoldable pub encode_variant :
      Option Repr
      → ℕ
      → (vs : List (Variant X Y)) {W : Type 0} ⦃io : Write W⦄ → Chosen vs
      → M (Option X × W) ℕ
  unfolding encode_discriminant encode_fields
  encode_variant R idx [] chosen = absurd chosen
  encode_variant R idx (v ∷ vs) (inl fields) =
      on_right (encode_discriminant (disc_of R idx v)) ⊕ encode_fields (field_types v.fields) fields
  encode_variant R idx (v ∷ vs) (inr chosen) = encode_variant R (suc idx) vs chosen

  -- `match variant_idx { ... }`
  unfoldable pub decode_variant :
      Option Repr
      → ℕ
      → (vs : List (Variant X Y)) {R : Type 0} ⦃io : Read R⦄ → ℕ
      → M (Option Y × R) (Chosen vs)
  unfolding decode_fields
  decode_variant R idx [] variant_idx = throw invalid_data
  decode_variant R idx (v ∷ vs) variant_idx =
      if variant_idx == disc_of R idx v
      then (decode_fields (field_types v.fields) >>= λ fields. pure (inl fields))
      else (decode_variant R (suc idx) vs variant_idx >>= λ chosen. pure (inr chosen))

  unfoldable pub encode_enum :
      (E : EnumItem X Y) {W : Type 0} ⦃io : Write W⦄ → Chosen E.variants → M (Option X × W) ℕ
  unfolding encode_variant
  encode_enum E chosen = encode_variant (numeric_repr E) 0 E.variants chosen

  unfoldable pub decode_enum :
      (E : EnumItem X Y) {R : Type 0} ⦃io : Read R⦄ → M (Option Y × R) (Chosen E.variants)
  unfolding decode_variant decode_discriminant
  decode_enum E = on_right decode_discriminant >>= decode_variant (numeric_repr E) 0 E.variants

  -- A struct: its fields in the order of their declaration.
  unfoldable pub encode_struct :
      (fields : VariantFields X Y) {W : Type 0} ⦃io : Write W⦄
      → Fields (field_types fields)
      → M (Option X × W) ℕ
  unfolding encode_fields
  encode_struct (named Cs) values = encode_fields Cs values
  encode_struct (unnamed Cs) values = encode_fields Cs values
  encode_struct unit values = pure 0

  unfoldable pub decode_struct :
      (fields : VariantFields X Y) {R : Type 0} ⦃io : Read R⦄
      → M (Option Y × R) (Fields (field_types fields))
  unfolding decode_fields
  decode_struct (named Cs) = decode_fields Cs
  decode_struct (unnamed Cs) = decode_fields Cs
  decode_struct unit = pure tt

  -- Both have the other methods by default.
  abbrev pub derived_struct : VariantFields X Y → ℕ → Codec X Y
  derived_struct fields size_of = by_item (record {
    Value = Fields (field_types fields);
    size_of = size_of;
    encode_ext = encode_struct fields;
    decode_ext = decode_struct fields;
  })

  abbrev pub derived_enum : EnumItem X Y → Codec X Y
  derived_enum E = by_item (record {
    Value = Chosen E.variants;
    size_of = E.size_of;
    encode_ext = encode_enum E;
    decode_ext = decode_enum E;
  })
