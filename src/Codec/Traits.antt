-- ===== src/Codec/Traits.antt =====
-- src/lib.rs, the traits `Encode` and `Decode`, with the methods that they give.
use lencode.Prelude.{ℕ, zero, suc, Option, none, List, [], ◌∷◌}
use lencode.Io.{M, Result, Read, Write, pure, ◌>>=◌, ◌⊕◌}
use lencode.Varint.Fixed.{encode_varint_u64, decode_varint_u64}

-- The outcome of a call without the context that it was given.
abbrev outcome : {X S A : Type 0} → (Option X × S) × Result A → S × Result A
outcome ((ctx, s), a) = (s, a)

-- A call with `None` for the context.
abbrev pub without : {X S A : Type 0} → M (Option X × S) A → M S A
without act s = outcome (act (none, s))

-- What an implementation has to write: `encode_ext` and `decode_ext`, with the context
-- `Option<&mut EncoderContext>` or `Option<&mut DecoderContext>` beside the writer or reader.
-- `size_of` is the size of the type in memory.
pub record Coding (X Y : Type 0) : Type 1 where
  pub Value : Type 0
  pub size_of : ℕ
  pub encode_ext : {W : Type 0} ⦃io : Write W⦄ → Value → M (Option X × W) ℕ
  pub decode_ext : {R : Type 0} ⦃io : Read R⦄ → M (Option Y × R) Value

-- `encode_slice` and `decode_vec` are methods that an implementation may replace.
pub record Codec (X Y : Type 0) : Type 1 where
  pub coding : Coding X Y
  pub open coding use *
  pub encode_slice : {W : Type 0} ⦃io : Write W⦄ → List Value → M W ℕ
  pub decode_vec : {R : Type 0} ⦃io : Read R⦄ → ℕ → M R (List Value)

module _ {W : Type 0} ⦃io : Write W⦄ where
  unfoldable pub encode_len : ℕ → M W ℕ
  encode_len len = encode_varint_u64 len

  unfoldable pub encode_discriminant : ℕ → M W ℕ
  encode_discriminant discriminant = encode_varint_u64 discriminant

module _ {R : Type 0} ⦃io : Read R⦄ where
  unfoldable pub decode_len : M R ℕ
  decode_len = decode_varint_u64

  unfoldable pub decode_discriminant : M R ℕ
  decode_discriminant = decode_varint_u64

module _ {X Y : Type 0} where
  -- `Encode::encode` and `Decode::decode`.
  unfoldable pub encode : (C : Coding X Y) {W : Type 0} ⦃io : Write W⦄ → C.Value → M W ℕ
  encode C v = without (C.encode_ext v)

  unfoldable pub decode : (C : Coding X Y) {R : Type 0} ⦃io : Read R⦄ → M R C.Value
  decode C = without C.decode_ext

  -- `for item in items { total += item.encode_ext(writer, None)?; }`
  unfoldable pub encode_each : (C : Coding X Y) {W : Type 0} ⦃io : Write W⦄ → List C.Value → M W ℕ
  encode_each C [] = pure 0
  encode_each C (item ∷ items) = without (C.encode_ext item) ⊕ encode_each C items

  -- `for _ in 0..count { vec.push(Self::decode_ext(reader, None)?); }`
  unfoldable pub decode_each : (C : Coding X Y) {R : Type 0} ⦃io : Read R⦄ → ℕ → M R (List C.Value)
  decode_each C zero = pure []
  decode_each C (suc count) =
      without C.decode_ext >>= λ item. decode_each C count >>= λ items. pure (item ∷ items)

  -- The methods by default.
  abbrev pub by_item : Coding X Y → Codec X Y
  by_item C = record { coding = C; encode_slice = encode_each C; decode_vec = decode_each C }
