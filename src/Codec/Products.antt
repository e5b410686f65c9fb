-- ===== src/Codec/Products.antt =====
-- src/tuples.rs, and `Encode` and `Decode` for the ranges of src/lib.rs: the fields in order.
use lencode.Prelude.{ℕ, ◌+◌, Bool, false, Option, List, [], ◌∷◌}
use lencode.Io.{M, Read, Write, pure, ◌>>=◌, ◌⊕◌}
use lencode.Codec.Traits.{Coding}

pub record Range (T : Type 0) : Type 0 where
  pub start : T
  pub end : T

-- The standard library's `RangeInclusive` keeps whether an iterator has used it up.
pub record RangeInclusive (T : Type 0) : Type 0 where
  pub start : T
  pub end : T
  pub exhausted : Bool

abbrev pub inclusive_new : {T : Type 0} → T → T → RangeInclusive T
inclusive_new start end = record { start = start; end = end; exhausted = false }

pub record RangeFrom (T : Type 0) : Type 0 where
  pub start : T

pub record RangeTo (T : Type 0) : Type 0 where
  pub end : T

pub record RangeToInclusive (T : Type 0) : Type 0 where
  pub end : T

module _ {X Y : Type 0} where
  -- The values of a tuple.
  abbrev pub Fields : List (Coding X Y) → Type 0
  Fields [] = Unit
  Fields (C ∷ Cs) = C.Value × Fields Cs

  -- `total_written += self.0.encode_ext(writer, ctx.as_deref_mut())?;`, and so on.
  unfoldable pub encode_fields :
      (Cs : List (Coding X Y)) {W : Type 0} ⦃io : Write W⦄ → Fields Cs → M (Option X × W) ℕ
  encode_fields [] fields = pure 0
  encode_fields (C ∷ Cs) (field, fields) = C.encode_ext field ⊕ encode_fields Cs fields

  unfoldable pub decode_fields :
      (Cs : List (Coding X Y)) {R : Type 0} ⦃io : Read R⦄ → M (Option Y × R) (Fields Cs)
  decode_fields [] = pure tt
  decode_fields (C ∷ Cs) =
      C.decode_ext >>= λ field. decode_fields Cs >>= λ fields. pure (field, fields)

  abbrev size_of_fields : List (Coding X Y) → ℕ
  size_of_fields [] = 0
  size_of_fields (C ∷ Cs) = C.size_of + size_of_fields Cs

  abbrev pub tuple : List (Coding X Y) → Coding X Y
  tuple Cs = record {
    Value = Fields Cs;
    size_of = size_of_fields Cs;
    encode_ext = encode_fields Cs;
    decode_ext = decode_fields Cs;
  }

  module _ (C : Coding X Y) where
    unfoldable pub encode_range : {W : Type 0} ⦃io : Write W⦄ → Range C.Value → M (Option X × W) ℕ
    encode_range v = C.encode_ext v.start ⊕ C.encode_ext v.end

    unfoldable pub decode_range : {R : Type 0} ⦃io : Read R⦄ → M (Option Y × R) (Range C.Value)
    decode_range =
        C.decode_ext >>= λ start. C.decode_ext >>= λ end. pure (record { start = start; end = end })

    abbrev pub range : Coding X Y
    range = record {
      Value = Range C.Value;
      size_of = C.size_of + C.size_of;
      encode_ext = encode_range;
      decode_ext = decode_range;
    }

    unfoldable pub encode_range_inclusive :
        {W : Type 0} ⦃io : Write W⦄ → RangeInclusive C.Value → M (Option X × W) ℕ
    encode_range_inclusive v = C.encode_ext v.start ⊕ C.encode_ext v.end

    unfoldable pub decode_range_inclusive :
        {R : Type 0} ⦃io : Read R⦄ → M (Option Y × R) (RangeInclusive C.Value)
    decode_range_inclusive =
        C.decode_ext >>= λ start. C.decode_ext >>= λ end. pure (inclusive_new start end)

    abbrev pub range_inclusive : Coding X Y
    range_inclusive = record {
      Value = RangeInclusive C.Value;
      size_of = C.size_of + C.size_of + 1;
      encode_ext = encode_range_inclusive;
      decode_ext = decode_range_inclusive;
    }

    abbrev pub range_from : Coding X Y
    range_from = record {
      Value = RangeFrom C.Value;
      size_of = C.size_of;
      encode_ext = λ v. C.encode_ext v.start;
      decode_ext = C.decode_ext >>= λ start. pure (record { start = start });
    }

    abbrev pub range_to : Coding X Y
    range_to = record {
      Value = RangeTo C.Value;
      size_of = C.size_of;
      encode_ext = λ v. C.encode_ext v.end;
      decode_ext = C.decode_ext >>= λ end. pure (record { end = end });
    }

    abbrev pub range_to_inclusive : Coding X Y
    range_to_inclusive = record {
      Value = RangeToInclusive C.Value;
      size_of = C.size_of;
      encode_ext = λ v. C.encode_ext v.end;
      decode_ext = C.decode_ext >>= λ end. pure (record { end = end });
    }

    -- `Cow<'_, T>`: borrowed or owned, the value is what it encodes, and what is decoded is owned.
    abbrev pub cow : Coding X Y
    cow = record {
      Value = C.Value;
      size_of = C.size_of;
      encode_ext = λ v. C.encode_ext v;
      decode_ext = C.decode_ext >>= λ owned. pure owned;
    }
