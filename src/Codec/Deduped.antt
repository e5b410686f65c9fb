-- ===== src/Codec/Deduped.antt =====
-- src/dedupe.rs, `Encode` and `Decode` for the types that are `DedupeEncodeable` and
-- `DedupeDecodeable`: through the context's deduplication, or packed where there is none.
use lencode.Prelude.{ℕ, Option, none, some}
use lencode.Io.{M, Result, Read, Write}
use lencode.Io.Context.{beside}
use lencode.Dedupe.Values.{Values}
use lencode.Dedupe.Encoder as Dedupe
use lencode.Dedupe.Decoder as Undedupe
use lencode.Context.Encoder.{EncoderContext}
use lencode.Context.Decoder.{DecoderContext}
use lencode.Codec.Traits.{Codec}

-- The outcome of a call on a part of a context, with the part put back.
abbrev pub within : {P E S A : Type 0} → (P → E) → (P × S) × Result A → (E × S) × Result A
within put_back ((part, s), a) = ((put_back part, s), a)

module _ (V : Values) where
  abbrev pub put_dedupe : EncoderContext V → Dedupe.DedupeEncoder V → Option (EncoderContext V)
  put_dedupe ctx encoder = some (record ctx { dedupe = some encoder })

  abbrev pub put_undedupe : DecoderContext V → Undedupe.DedupeDecoder V → Option (DecoderContext V)
  put_undedupe ctx decoder = some (record ctx { dedupe = some decoder })

  -- `ctx.dedupe.as_mut()`
  abbrev pub encode_with :
      {W : Type 0} ⦃io : Write W⦄
      → V.Value
      → EncoderContext V
      → Option (Dedupe.DedupeEncoder V)
      → W
      → (Option (EncoderContext V) × W) × Result ℕ
  encode_with v ctx (some encoder) w = within (put_dedupe ctx) (Dedupe.encode V v (encoder, w))
  encode_with v ctx none w = beside (some ctx) (V.pack v w)

  unfoldable pub encode_deduped :
      {W : Type 0} ⦃io : Write W⦄ → V.Value → M (Option (EncoderContext V) × W) ℕ
  encode_deduped v (some ctx, w) = encode_with v ctx ctx.dedupe w
  encode_deduped v (none, w) = beside none (V.pack v w)

  abbrev pub decode_with :
      {R : Type 0} ⦃io : Read R⦄
      → ℕ
      → DecoderContext V
      → Option (Undedupe.DedupeDecoder V)
      → R
      → (Option (DecoderContext V) × R) × Result V.Value
  decode_with t ctx (some decoder) r = within (put_undedupe ctx) (Undedupe.decode V t (decoder, r))
  decode_with t ctx none r = beside (some ctx) (V.unpack t r)

  -- At the type with id `t`.
  unfoldable pub decode_deduped :
      {R : Type 0} ⦃io : Read R⦄ → ℕ → M (Option (DecoderContext V) × R) V.Value
  decode_deduped t (some ctx, r) = decode_with t ctx ctx.dedupe r
  decode_deduped t (none, r) = beside none (V.unpack t r)

  -- `encode_slice` is the type's `pack_slice`, and `decode_vec` its `unpack_vec`.
  abbrev pub deduped : (t size : ℕ) → Codec (EncoderContext V) (DecoderContext V)
  deduped t size = record {
    coding = record {
      Value = V.Value;
      size_of = size;
      encode_ext = encode_deduped;
      decode_ext = decode_deduped t;
    };
    encode_slice = V.pack_slice t;
    decode_vec = V.unpack_vec t;
  }
