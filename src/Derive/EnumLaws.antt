-- ===== src/Derive/EnumLaws.antt =====
-- Derived implementations of an enum (macros/src/lib.rs) keep the promise of the fields' types.
use lencode.Prelude.{
  ℕ, ◌+◌, suc, ◌^◌, ◌<◌, ◌≡◌, ◌≢◌, refl, arith, ◌==◌, inl, inr, false, eq→==, Option, List, [], ◌∷◌,
  ◌++◌, length,
}
use lencode.Io.{Read, Write, ReadLaws, WriteLaws}
use lencode.Io.Context.{AppendsWith, ReadsWith}
use lencode.Varint.Encoding.{encoding}
use lencode.Codec.Traits.{encode_len, decode_len, encode_discriminant, decode_discriminant}
use lencode.Context.Sync.{InStep}
use lencode.Codec.Laws.{CodingLaws}
use lencode.Codec.Products.{encode_fields, decode_fields}
use lencode.Codec.Lists.{len-chain-Appends, len-bind-Reads}
use lencode.Codec.OptionLaws.{wrapped-Reads}
use lencode.Codec.TupleLaws.{
  FieldLaws, fields_coded, FieldsCodable, after_fields, after_fields_read, after_fields-InStep,
  encode_fields-Appends, decode_fields-Reads,
}
use lencode.Derive.Attributes.{Repr}
use lencode.Derive.Enums.{
  Variant, EnumItem, field_types, numeric_repr, disc_of, Chosen, encode_variant, decode_variant,
  encode_enum, decode_enum, derived_enum,
}
use lencode.Derive.Discriminants.{
  AllDifferent, discs, disc_at, disc_at-All, IsEnum, discs-AllDifferent,
}

module _ {X Y : Type 0} (S : X → Y → Type 0) where
  abbrev pub VariantLaws : List (Variant X Y) → Type 1
  VariantLaws [] = Unit
  VariantLaws (v ∷ vs) = FieldLaws S (field_types v.fields) × VariantLaws vs

  abbrev pub chosen_coded :
      (vs : List (Variant X Y)) → VariantLaws vs → Option X → Chosen vs → List ℕ
  chosen_coded [] Ls e chosen = absurd chosen
  chosen_coded (v ∷ vs) (L, Ls) e (inl fields) = fields_coded S (field_types v.fields) L e fields
  chosen_coded (v ∷ vs) (L, Ls) e (inr chosen) = chosen_coded vs Ls e chosen

  abbrev pub ChosenCodable :
      (vs : List (Variant X Y)) → VariantLaws vs → Option X → Chosen vs → Type 0
  ChosenCodable [] Ls e chosen = absurd chosen
  ChosenCodable (v ∷ vs) (L, Ls) e (inl fields) = FieldsCodable S (field_types v.fields) L e fields
  ChosenCodable (v ∷ vs) (L, Ls) e (inr chosen) = ChosenCodable vs Ls e chosen

  abbrev pub after_chosen :
      (vs : List (Variant X Y)) → VariantLaws vs → Option X → Chosen vs → Option X
  after_chosen [] Ls e chosen = absurd chosen
  after_chosen (v ∷ vs) (L, Ls) e (inl fields) = after_fields S (field_types v.fields) L e fields
  after_chosen (v ∷ vs) (L, Ls) e (inr chosen) = after_chosen vs Ls e chosen

  abbrev pub after_chosen_read :
      (vs : List (Variant X Y)) → VariantLaws vs → Option X → Option Y → Chosen vs → Option Y
  after_chosen_read [] Ls e d chosen = absurd chosen
  after_chosen_read (v ∷ vs) (L, Ls) e d (inl fields) =
      after_fields_read S (field_types v.fields) L e d fields
  after_chosen_read (v ∷ vs) (L, Ls) e d (inr chosen) = after_chosen_read vs Ls e d chosen

  pub after_chosen-InStep :
      (vs : List (Variant X Y)) (Ls : VariantLaws vs) (e : Option X) (d : Option Y)
      (chosen : Chosen vs)
      → InStep S e d
      → ChosenCodable vs Ls e chosen
      → InStep S (after_chosen vs Ls e chosen) (after_chosen_read vs Ls e d chosen)
  after_chosen-InStep [] Ls e d chosen s fits = absurd chosen
  after_chosen-InStep (v ∷ vs) (L, Ls) e d (inl fields) s fits =
      after_fields-InStep S (field_types v.fields) L e d fields s fits
  after_chosen-InStep (v ∷ vs) (L, Ls) e d (inr chosen) s fits =
      after_chosen-InStep vs Ls e d chosen s fits

  encode_variant-Appends :
      (R : Option Repr) (idx : ℕ) (vs : List (Variant X Y)) (Ls : VariantLaws vs) {W : Type 0}
      ⦃io : Write W⦄ (laws : WriteLaws io) (e : Option X) (d : Option Y) (chosen : Chosen vs)
      (m : ℕ) (w : W)
      → InStep S e d
      → disc_at R idx vs chosen < 2 ^ 64
      → ChosenCodable vs Ls e chosen
      → laws.Room w
          (length (encoding 8 (disc_at R idx vs chosen) ++ chosen_coded vs Ls e chosen) + m)
      → 0 < m
      → AppendsWith laws
          (encode_variant R idx vs chosen)
          e
          w
          (encoding 8 (disc_at R idx vs chosen) ++ chosen_coded vs Ls e chosen)
          (after_chosen vs Ls e chosen)
          m
  unfolding encode_variant encode_discriminant encode_len
  encode_variant-Appends R idx [] Ls laws e d chosen m w s small fits room more = absurd chosen
  encode_variant-Appends R idx (v ∷ vs) (L, Ls) laws e d (inl fields) m w s small fits room more =
      let Cs = field_types v.fields in
      len-chain-Appends laws (disc_of R idx v) (encode_fields Cs fields) e
        (after_fields S Cs L e fields) (fields_coded S Cs L e fields) m w small room
        (λ w' room'. encode_fields-Appends S Cs L laws e d fields m w' s fits room' more)
  encode_variant-Appends R idx (v ∷ vs) (L, Ls) laws e d (inr chosen) m w s small fits room more =
      encode_variant-Appends R (suc idx) vs Ls laws e d chosen m w s small fits room more

  decode_variant-Reads :
      (R : Option Repr) (idx : ℕ) (vs : List (Variant X Y)) (Ls : VariantLaws vs) {R' : Type 0}
      ⦃io : Read R'⦄ (laws : ReadLaws io) (e : Option X) (d : Option Y) (chosen : Chosen vs)
      (rest : List ℕ) (r : R')
      → InStep S e d
      → AllDifferent (discs R idx vs)
      → ChosenCodable vs Ls e chosen
      → laws.IsValid r
      → laws.remaining r ≡ chosen_coded vs Ls e chosen ++ rest
      → ReadsWith laws
          (decode_variant R idx vs (disc_at R idx vs chosen))
          d
          r
          chosen
          (after_chosen_read vs Ls e d chosen)
          rest
  unfolding decode_variant
  decode_variant-Reads R idx [] Ls laws e d chosen rest r s different fits valid left =
      absurd chosen
  decode_variant-Reads R idx (v ∷ vs) (L, Ls) laws e d (inl fields) rest r s different fits valid
        left =
      let Cs = field_types v.fields in
      rw (eq→== (disc_of R idx v) (disc_of R idx v) refl) (
        wrapped-Reads laws (decode_fields Cs) inl d (after_fields_read S Cs L e d fields) r fields
          rest (decode_fields-Reads S Cs L laws e d fields rest r s fits valid left))
  decode_variant-Reads R idx (v ∷ vs) (L, Ls) laws e d (inr chosen) rest r s (unlike, different)
        fits valid left =
      let n = disc_at R (suc idx) vs chosen in
      let no : n ≢ disc_of R idx v =
        disc_at-All (λ m. m ≢ disc_of R idx v) R (suc idx) vs chosen unlike in
      let other : n == disc_of R idx v ≡ false = ground arith in
      rw other (
        wrapped-Reads laws (decode_variant R (suc idx) vs n) inr d
          (after_chosen_read vs Ls e d chosen) r chosen rest
          (decode_variant-Reads R (suc idx) vs Ls laws e d chosen rest r s different fits valid
            left))

  module _ (E : EnumItem X Y) (is : IsEnum E) (Ls : VariantLaws E.variants) where
    abbrev enum_coded : Option X → Chosen E.variants → List ℕ
    enum_coded e chosen =
        encoding 8 (disc_at (numeric_repr E) 0 E.variants chosen)
        ++ chosen_coded E.variants Ls e chosen

    disc_at-lt :
        (chosen : Chosen E.variants) → disc_at (numeric_repr E) 0 E.variants chosen < 2 ^ 64
    disc_at-lt chosen =
        disc_at-All (λ n. n < 2 ^ 64) (numeric_repr E) 0 E.variants chosen
          (discs-AllDifferent E is).1

    pub encode_enum-Appends :
        {W : Type 0} ⦃io : Write W⦄ (laws : WriteLaws io) (e : Option X) (d : Option Y)
        (chosen : Chosen E.variants) (m : ℕ) (w : W)
        → InStep S e d
        → ChosenCodable E.variants Ls e chosen
        → laws.Room w (length (enum_coded e chosen) + m)
        → 0 < m
        → AppendsWith laws
            (encode_enum E chosen)
            e
            w
            (enum_coded e chosen)
            (after_chosen E.variants Ls e chosen)
            m
    unfolding encode_enum
    encode_enum-Appends laws e d chosen m w s fits room more =
        encode_variant-Appends (numeric_repr E) 0 E.variants Ls laws e d chosen m w s
          (disc_at-lt chosen) fits room more

    pub decode_enum-Reads :
        {R : Type 0} ⦃io : Read R⦄ (laws : ReadLaws io) (e : Option X) (d : Option Y)
        (chosen : Chosen E.variants) (rest : List ℕ) (r : R)
        → InStep S e d
        → ChosenCodable E.variants Ls e chosen
        → laws.IsValid r
        → laws.remaining r ≡ enum_coded e chosen ++ rest
        → ReadsWith laws
            (decode_enum E)
            d
            r
            chosen
            (after_chosen_read E.variants Ls e d chosen)
            rest
    unfolding decode_enum decode_discriminant decode_len
    decode_enum-Reads laws e d chosen rest r s fits valid left =
        len-bind-Reads laws (disc_at (numeric_repr E) 0 E.variants chosen)
          (decode_variant (numeric_repr E) 0 E.variants) d
          (after_chosen_read E.variants Ls e d chosen) (chosen_coded E.variants Ls e chosen) rest r
          chosen (disc_at-lt chosen) valid left
          (λ r' valid' left'.
            decode_variant-Reads (numeric_repr E) 0 E.variants Ls laws e d chosen rest r' s
              (discs-AllDifferent E is).0 fits valid' left')

    abbrev pub derived_enum-CodingLaws : CodingLaws S (derived_enum E).coding
    derived_enum-CodingLaws = record {
      coded = enum_coded;
      IsCodable = ChosenCodable E.variants Ls;
      after = after_chosen E.variants Ls;
      after_read = after_chosen_read E.variants Ls;
      after-InStep = after_chosen-InStep E.variants Ls;
      encode-Appends =
          λ laws e d v m w s fits room more. encode_enum-Appends laws e d v m w s fits room more;
      decode-Reads = λ laws e d v rest r s fits valid left.
          decode_enum-Reads laws e d v rest r s fits valid left;
    }
