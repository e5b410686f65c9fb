-- ===== src/Codec/Blobs.antt =====
-- src/lib.rs, `Encode` and `Decode` for the sequences of bytes: `&[u8]`, `Vec<u8>`, `VecDeque<u8>`
-- and `[u8; N]`. With a difference encoder that has a key active, each is a blob of src/diff.rs.
use lencode.Prelude.{
  ℕ, ◌*◌, ◌%◌, ◌/◌, ◌^◌, ◌==◌, if◌then◌else◌, Option, none, some, List, ◌++◌, length,
}
use mathlib.Core.List.{flatten}
use lencode.Io.{M, Result, Read, Write, after, pure, throw, ◌>>=◌, incorrect_length}
use lencode.Io.Context.{beside}
use lencode.Bytes.Zstd.{Zstd}
use lencode.Bytes.Vec.{encode_bytes, decode_bytes, read_loop, decompressed}
use lencode.Dedupe.Values.{Values}
use lencode.Diff.Encoder.{DiffEncoder, encode_blob}
use lencode.Diff.Decoder.{DiffDecoder, decode_blob}
use lencode.Pack.Packings.{chunks}
use lencode.Pack.Blocks.{write_block, read_block}
use lencode.Context.Encoder.{EncoderContext}
use lencode.Context.Decoder.{DecoderContext}
use lencode.Codec.Traits.{Coding, Codec, decode_len}
use lencode.Codec.Deduped.{within}

module _ (V : Values) (Z : Zstd) where
  abbrev pub put_diff : EncoderContext V → DiffEncoder → Option (EncoderContext V)
  put_diff ctx diff = some (record ctx { diff = some diff })

  abbrev pub put_undiff : DecoderContext V → DiffDecoder → Option (DecoderContext V)
  put_undiff ctx diff = some (record ctx { diff = some diff })

  module _ {W : Type 0} ⦃io : Write W⦄ where
    -- With a key active, through the difference encoder, and else as `plain` does.
    abbrev pub encode_keyed :
        List ℕ
        → M W ℕ
        → EncoderContext V
        → DiffEncoder
        → Option ℕ
        → W
        → (Option (EncoderContext V) × W) × Result ℕ
    encode_keyed bytes plain ctx diff (some key) w =
        within (put_diff ctx) (encode_blob Z bytes (diff, w))
    encode_keyed bytes plain ctx diff none w = beside (some ctx) (plain w)

    abbrev pub encode_diff :
        List ℕ
        → M W ℕ
        → EncoderContext V
        → Option DiffEncoder
        → W
        → (Option (EncoderContext V) × W) × Result ℕ
    encode_diff bytes plain ctx (some diff) w = encode_keyed bytes plain ctx diff diff.current_key w
    encode_diff bytes plain ctx none w = beside (some ctx) (plain w)

    unfoldable pub encode_or : List ℕ → M W ℕ → M (Option (EncoderContext V) × W) ℕ
    encode_or bytes plain (some ctx, w) = encode_diff bytes plain ctx ctx.diff w
    encode_or bytes plain (none, w) = beside none (plain w)

    -- `&[u8]`, and `Vec<u8>`, which repeats its text.
    unfoldable pub encode_byte_slice : List ℕ → M (Option (EncoderContext V) × W) ℕ
    unfolding encode_or
    encode_byte_slice bytes = encode_or bytes (encode_bytes Z bytes)

    -- `VecDeque<u8>`: its two slices are put together first.
    unfoldable pub encode_byte_deque : List ℕ × List ℕ → M (Option (EncoderContext V) × W) ℕ
    unfolding encode_or
    encode_byte_deque (a, b) = encode_or (a ++ b) (encode_bytes Z (a ++ b))

    -- `[u8; N]`
    unfoldable pub encode_byte_array : List ℕ → M (Option (EncoderContext V) × W) ℕ
    unfolding encode_or
    encode_byte_array bytes = encode_or bytes (write_block bytes)

    -- `encode_slice` of `[u8; N]`: one call of `write` for all.
    unfoldable pub encode_byte_arrays : List (List ℕ) → M W ℕ
    encode_byte_arrays items = io.write (flatten items)

  module _ {R : Type 0} ⦃io : Read R⦄ where
    -- With a key active, a blob, which `check` may refuse.
    abbrev pub decode_keyed :
        (List ℕ → M (Option (DecoderContext V) × R) (List ℕ))
        → M R (List ℕ)
        → DecoderContext V
        → DiffDecoder
        → Option ℕ
        → R
        → (Option (DecoderContext V) × R) × Result (List ℕ)
    decode_keyed check plain ctx diff (some key) r =
        after check (within (put_undiff ctx) (decode_blob Z (diff, r)))
    decode_keyed check plain ctx diff none r = beside (some ctx) (plain r)

    abbrev pub decode_diff :
        (List ℕ → M (Option (DecoderContext V) × R) (List ℕ))
        → M R (List ℕ)
        → DecoderContext V
        → Option DiffDecoder
        → R
        → (Option (DecoderContext V) × R) × Result (List ℕ)
    decode_diff check plain ctx (some diff) r = decode_keyed check plain ctx diff diff.current_key r
    decode_diff check plain ctx none r = beside (some ctx) (plain r)

    unfoldable pub decode_or :
        (List ℕ → M (Option (DecoderContext V) × R) (List ℕ))
        → M R (List ℕ)
        → M (Option (DecoderContext V) × R) (List ℕ)
    decode_or check plain (some ctx, r) = decode_diff check plain ctx ctx.diff r
    decode_or check plain (none, r) = beside none (plain r)

    -- `Vec<u8>`
    unfoldable pub decode_byte_vec : M (Option (DecoderContext V) × R) (List ℕ)
    unfolding decode_or
    decode_byte_vec = decode_or pure (decode_bytes Z)

    -- A deque's payload is read by the loop, also where the reader lends it.
    unfoldable pub deque_payload : M R (List ℕ)
    unfolding decode_len read_loop decompressed
    deque_payload = decode_len >>= λ header.
        if header % 2 == 1
        then (read_loop (header / 2 ^ 1) (header / 2 ^ 1) >>= decompressed Z)
        else (read_loop (header / 2 ^ 1) (header / 2 ^ 1) >>= pure)

    -- `VecDeque<u8>`: the bytes that the deque is extended by.
    unfoldable pub decode_byte_deque : M (Option (DecoderContext V) × R) (List ℕ)
    unfolding decode_or
    decode_byte_deque = decode_or pure deque_payload

    -- A blob of another length than the array is an error.
    unfoldable pub of_length : ℕ → List ℕ → M (Option (DecoderContext V) × R) (List ℕ)
    of_length n out = if length out == n then pure out else throw incorrect_length

    -- `[u8; N]`
    unfoldable pub decode_byte_array : ℕ → M (Option (DecoderContext V) × R) (List ℕ)
    unfolding decode_or of_length read_block
    decode_byte_array n = decode_or (of_length n) (read_block n)

    -- `decode_vec` of `[u8; N]`: all the bytes at once.
    unfoldable pub decode_byte_arrays : ℕ → ℕ → M R (List (List ℕ))
    unfolding chunks read_block
    decode_byte_arrays n count = read_block (n * count) >>= λ bytes. pure (chunks n count bytes)

  abbrev pub byte_vec : Coding (EncoderContext V) (DecoderContext V)
  byte_vec = record {
    Value = List ℕ;
    size_of = 24;
    encode_ext = encode_byte_slice;
    decode_ext = decode_byte_vec;
  }

  abbrev pub byte_array : ℕ → Codec (EncoderContext V) (DecoderContext V)
  byte_array n = record {
    coding = record {
      Value = List ℕ;
      size_of = n;
      encode_ext = encode_byte_array;
      decode_ext = decode_byte_array n;
    };
    encode_slice = encode_byte_arrays;
    decode_vec = decode_byte_arrays n;
  }
