-- ===== src/Codec/Errors.antt =====
-- What the decoders of src/lib.rs refuse.
use lencode.Prelude.{
  ℕ, ◌^◌, ◌<◌, ◌≡◌, ◌≢◌, refl, ap, ◌∙◌, arith, ◌==◌, false, some, List, ◌++◌, length,
}
use lencode.Prelude.Pow.{pow2_pos}
use lencode.Io.{Result, after, M, err, ◌>>=◌, invalid_data, incorrect_length, Read, ReadLaws}
use lencode.Bytes.Zstd.{Zstd, ZstdLaws}
use lencode.Dedupe.Values.{Values}
use lencode.Diff.Encoder.{DiffEncoder}
use lencode.Diff.Decoder.{DiffDecoder}
use lencode.Diff.Sync as DiffSync
use lencode.Diff.DecodeBlob.{decode_blob-coded}
use lencode.Pack.Blocks.{read_block}
use lencode.Context.Decoder.{DecoderContext}
use lencode.Codec.Primitives.{Number, nonzero_new}
use lencode.Codec.PrimitiveLaws.{NumberLaws}
use lencode.Codec.Strings.{is_utf8, checked_utf8, decode_string}
use lencode.Codec.Deduped.{within}
use lencode.Codec.Blobs.{
  decode_byte_array, decode_or, decode_diff, decode_keyed, of_length, put_undiff,
}
use lencode.Codec.ByteLaws.{Packable, packed_bytes, packed-Reads}

module _ {R : Type 0} ⦃io : Read R⦄ (laws : ReadLaws io) where
  -- The call answers `x`, and leaves the bytes `rest`.
  abbrev pub Answers : {A : Type 0} → M R A → R → Result A → List ℕ → Type 0
  Answers act r x rest = (r' : R) × (act r ≡ (r', x)) × laws.IsValid r' × (laws.remaining r' ≡ rest)

  -- From a valid reader whose next bytes are those of a zero, the decoder of the numbers of the
  -- type that are not zero fails with `InvalidData`, and the bytes of the zero are consumed.
  pub decode_nonzero_of_zero :
      (N : Number) (L : NumberLaws N) (rest : List ℕ) (r : R)
      → laws.IsValid r
      → laws.remaining r ≡ L.bytes 0 ++ rest
      → Answers (N.decode >>= nonzero_new) r (err invalid_data) rest
  unfolding nonzero_new
  decode_nonzero_of_zero N L rest r valid left =
      let pos : 0 < 2 ^ L.bits = pow2_pos L.bits in
      let (r', h, valid', left') = L.decode-Reads laws 0 rest r pos valid left in
      (r', rw h, valid', left')

  -- Given what zstd promises: from a valid reader whose next bytes are those of bytes that are not
  -- UTF-8, shorter than 2 ^ 63 by more than 9 and no failure of the compressor, the
  -- decoder of a string fails with `InvalidData`, and they are consumed.
  pub decode_string_not_utf8 :
      (Z : Zstd) (zstd : ZstdLaws Z) (bytes rest : List ℕ) (r : R)
      → Packable Z bytes
      → is_utf8 bytes ≡ false
      → laws.IsValid r
      → laws.remaining r ≡ packed_bytes Z bytes ++ rest
      → Answers (decode_string Z) r (err invalid_data) rest
  unfolding decode_string checked_utf8
  decode_string_not_utf8 Z zstd bytes rest r fits bad valid left =
      let (r', h, valid', left') = packed-Reads Z zstd bytes fits laws rest r valid left in
      (r', rw (h, bad), valid', left')

  -- Given what zstd promises: in a context with a key active, in step with the encoder's, and from
  -- a valid reader whose next bytes are those of a blob of another length than `n`: `decode_ext` of
  -- `[u8; N]` fails with `IncorrectLength`, the blob is consumed, and it is stored under the key
  -- all the same.
  pub decode_byte_array_of_other_length :
      (V : Values) (Z : Zstd) (zstd : ZstdLaws Z) (n key : ℕ) (ctx : DecoderContext V)
      (e : DiffEncoder) (d : DiffDecoder) (blob rest : List ℕ) (r : R)
      → ctx.diff ≡ some d
      → d.current_key ≡ some key
      → DiffSync.Sync e d
      → length blob < 2 ^ 64
      → length blob ≢ n
      → laws.IsValid r
      → laws.remaining r ≡ DiffSync.coded Z e blob ++ rest
      → (r' : R) × (decode_byte_array V Z n (some ctx, r) ≡ (
        (some (record ctx { diff = some (DiffSync.after_read_blob d blob) }), r'),
        err incorrect_length,
      ))
        × laws.IsValid r'
        × (laws.remaining r' ≡ rest)
  unfolding decode_byte_array decode_or of_length
  decode_byte_array_of_other_length V Z zstd n key ctx e d blob rest r has active s small other
        valid left =
      let (r', h, valid', left') =
        decode_blob-coded laws Z zstd e d blob rest r s small valid left in
      let differs : length blob == n ≡ false = ground arith in
      let check = of_length V Z n in
      (
        r',
        ap (λ o. decode_diff V Z check (read_block n) ctx o r) has
            ∙ ap (λ k. decode_keyed V Z check (read_block n) ctx d k r) active
            ∙ ap (λ x. after check (within (put_undiff V Z ctx) x)) h
            ∙ rw differs refl,
        valid',
        left',
      )
