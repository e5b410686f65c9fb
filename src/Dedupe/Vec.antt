-- ===== src/Dedupe/Vec.antt =====
-- src/lib.rs, `Encode` and `Decode` for `Vec<T>` at a type that src/dedupe.rs makes encodable, with
-- a deduplication context: the length, then each item through the encoder or decoder.
use lencode.Prelude.{ℕ, zero, suc, ◌+◌, List, [], ◌∷◌, length}
use lencode.Io.{M, Read, Write, pure, ◌>>=◌}
use lencode.Io.Context.{on_right}
use lencode.Varint.Fixed.{encode_varint_u64, decode_varint_u64}
use lencode.Dedupe.Values.{Values}
use lencode.Dedupe.Encoder.{DedupeEncoder, encode}
use lencode.Dedupe.Decoder.{DedupeDecoder, decode}

module _ (V : Values) where
  -- `for item in self { total_written += item.encode_ext(writer, ctx)?; }`
  unfoldable pub encode_items :
      {W : Type 0} ⦃io : Write W⦄ → List V.Value → M (DedupeEncoder V × W) ℕ
  encode_items [] = pure 0
  encode_items (v ∷ vs) = encode V v >>= λ a. encode_items vs >>= λ b. pure (a + b)

  unfoldable pub encode_vec : {W : Type 0} ⦃io : Write W⦄ → List V.Value → M (DedupeEncoder V × W) ℕ
  unfolding encode_items
  encode_vec vs =
      on_right (encode_varint_u64 (length vs)) >>= λ a. encode_items vs >>= λ b. pure (a + b)

  -- `for _ in 0..len { vec.push(T::decode_ext(reader, ctx)?); }`, at the type with id `t`.
  unfoldable pub decode_items :
      {R : Type 0} ⦃io : Read R⦄ → ℕ → ℕ → M (DedupeDecoder V × R) (List V.Value)
  decode_items t zero = pure []
  decode_items t (suc len) = decode V t >>= λ v. decode_items t len >>= λ vs. pure (v ∷ vs)

  unfoldable pub decode_vec :
      {R : Type 0} ⦃io : Read R⦄ → ℕ → M (DedupeDecoder V × R) (List V.Value)
  unfolding decode_items
  decode_vec t = on_right decode_varint_u64 >>= decode_items t
