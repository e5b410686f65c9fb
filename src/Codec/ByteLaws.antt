-- ===== src/Codec/ByteLaws.antt =====
-- `Vec<u8>`, `VecDeque<u8>`, `[u8; N]` and `String` of src/lib.rs keep the promise of `Encode` and
-- `Decode`.
use lencode.Prelude.{
  ℕ, ◌+◌, ◌^◌, ◌<◌, ◌≡◌, refl, sym, ap, ◌∙◌, arith, true, Option, List, [], ◌++◌, length,
}
use mathlib.Core.Path.{subst}
use lencode.Io.{
  Result, ok, err, fault, pure, ◌>>=◌, Read, Write, ReadLaws, WriteLaws, Appends, Reads,
}
use lencode.Io.Context.{AppendsWith, ReadsWith, Reads-bind}
use lencode.Bytes.Zstd.{Zstd, ZstdLaws}
use lencode.Bytes.Vec.{compressed_payload, encode_bytes, decode_bytes, read_loop}
use lencode.Bytes.Packed.{packed_as}
use lencode.Bytes.EncodeVec.{encode_bytes-Appends}
use lencode.Bytes.DecodeVec.{decode_bytes-Reads, flagged_by-Reads, looped-Reads}
use lencode.Dedupe.Values.{Values}
use lencode.Context.Sync.{InStep, ContextSync}
use lencode.Codec.Traits.{decode_len}
use lencode.Codec.Laws.{CodingLaws}
use lencode.Codec.Plain.{PlainLaws}
use lencode.Codec.Strings.{encode_str, is_utf8, checked_utf8, decode_string, string}
use lencode.Codec.Blobs.{
  encode_byte_slice, encode_byte_deque, deque_payload, decode_byte_vec, decode_byte_deque, byte_vec,
}
use lencode.Codec.BlobLaws.{
  Ctx, Dtx, blob_coded, after_blob_in, after_blob_read_in, after_blob-InStep, encode_or-Appends,
  decode_or-Reads,
}

-- The bytes for a vector, as the compressor answers.
abbrev pub packed_with : List ℕ → Result (Option (List ℕ)) → List ℕ
packed_with bytes (ok o) = packed_as bytes o
packed_with bytes (err e) = []
packed_with bytes (fault x) = []

abbrev pub packed_bytes : Zstd → List ℕ → List ℕ
packed_bytes Z bytes = packed_with bytes (compressed_payload Z bytes)

-- Bytes with a length of 63 bits behind its flag, which the compressor, where it is asked, does not
-- refuse.
pub record Packable (Z : Zstd) (bytes : List ℕ) : Type 0 where
  pub small : length bytes + 9 < 2 ^ 63
  pub chosen : Option (List ℕ)
  pub is_chosen : compressed_payload Z bytes ≡ ok chosen

module _ (Z : Zstd) (zstd : ZstdLaws Z) (bytes : List ℕ) (fits : Packable Z bytes) where
  packed : packed_bytes Z bytes ≡ packed_as bytes fits.chosen
  packed = ap (packed_with bytes) fits.is_chosen

  pub packed-Appends :
      {W : Type 0} ⦃io : Write W⦄ (laws : WriteLaws io) (m : ℕ) (w : W)
      → laws.Room w (length (packed_bytes Z bytes) + m)
      → 0 < m
      → Appends laws (encode_bytes Z bytes) w (packed_bytes Z bytes) m
  packed-Appends laws m w room more =
      subst (λ bs. Appends laws (encode_bytes Z bytes) w bs m) (sym packed)
        (encode_bytes-Appends laws Z zstd bytes fits.chosen m w fits.is_chosen (omega arith)
          fits.small (subst (λ bs. laws.Room w (length bs + m)) packed room))

  pub packed-Reads :
      {R : Type 0} ⦃io : Read R⦄ (laws : ReadLaws io) (rest : List ℕ) (r : R)
      → laws.IsValid r
      → laws.remaining r ≡ packed_bytes Z bytes ++ rest
      → Reads laws (decode_bytes Z) r bytes rest
  packed-Reads laws rest r valid left =
      decode_bytes-Reads laws Z zstd bytes fits.chosen rest r fits.is_chosen fits.small valid
        (left ∙ ap (λ bs. bs ++ rest) packed)

  pub deque_payload-Reads :
      (V : Values) {R : Type 0} ⦃io : Read R⦄ (laws : ReadLaws io) (rest : List ℕ) (r : R)
      → laws.IsValid r
      → laws.remaining r ≡ packed_bytes Z bytes ++ rest
      → Reads laws (deque_payload V Z) r bytes rest
  unfolding deque_payload decode_len
  deque_payload-Reads V laws rest r valid left =
      flagged_by-Reads laws (λ n use_payload. read_loop n n >>= use_payload) Z zstd bytes
        fits.chosen rest r (looped-Reads laws) fits.is_chosen fits.small valid
        (left ∙ ap (λ bs. bs ++ rest) packed)

module _ (V : Values) (Z : Zstd) (zstd : ZstdLaws Z) where
  pub encode_byte_slice-Appends :
      {W : Type 0} ⦃io : Write W⦄ (laws : WriteLaws io) (e : Ctx V Z) (d : Dtx V Z) (bytes : List ℕ)
      (m : ℕ) (w : W)
      → InStep (ContextSync V) e d
      → Packable Z bytes
      → laws.Room w (length (blob_coded V Z (packed_bytes Z bytes) e bytes) + m)
      → 0 < m
      → AppendsWith laws
          (encode_byte_slice V Z bytes)
          e
          w
          (blob_coded V Z (packed_bytes Z bytes) e bytes)
          (after_blob_in V Z e bytes)
          m
  unfolding encode_byte_slice
  encode_byte_slice-Appends laws e d bytes m w s fits room more =
      encode_or-Appends V Z laws bytes (packed_bytes Z bytes) (encode_bytes Z bytes) m
        (λ w room. packed-Appends Z zstd bytes fits laws m w room more) more
        (omega (arith, fits.small)) e d w s room

  pub decode_byte_vec-Reads :
      {R : Type 0} ⦃io : Read R⦄ (laws : ReadLaws io) (e : Ctx V Z) (d : Dtx V Z)
      (bytes rest : List ℕ) (r : R)
      → InStep (ContextSync V) e d
      → Packable Z bytes
      → laws.IsValid r
      → laws.remaining r ≡ blob_coded V Z (packed_bytes Z bytes) e bytes ++ rest
      → ReadsWith laws (decode_byte_vec V Z) d r bytes (after_blob_read_in V Z d bytes) rest
  unfolding decode_byte_vec
  decode_byte_vec-Reads laws e d bytes rest r s fits valid left =
      decode_or-Reads V Z laws zstd bytes (packed_bytes Z bytes) rest pure (decode_bytes Z)
        (λ s. refl) (packed-Reads Z zstd bytes fits laws rest) (omega (arith, fits.small)) e d r s
        valid left

  abbrev pub byte_vec-CodingLaws : CodingLaws (ContextSync V) (byte_vec V Z)
  byte_vec-CodingLaws = record {
    coded = λ e bytes. blob_coded V Z (packed_bytes Z bytes) e bytes;
    IsCodable = λ e bytes. Packable Z bytes;
    after = after_blob_in V Z;
    after_read = λ e d bytes. after_blob_read_in V Z d bytes;
    after-InStep =
        λ e d bytes s fits. after_blob-InStep V Z e d bytes s (omega (arith, fits.small));
    encode-Appends = λ laws e d bytes m w s fits room more.
        encode_byte_slice-Appends laws e d bytes m w s fits room more;
    decode-Reads = λ laws e d bytes rest r s fits valid left.
        decode_byte_vec-Reads laws e d bytes rest r s fits valid left;
  }

  -- Given what zstd promises, and for slices that are together shorter than 2 ^ 63 by more than 9 and
  -- no failure of the compressor: in contexts in step, and from a valid reader
  -- whose next bytes are those that `encode_ext` of a `VecDeque<u8>` appends, `decode_ext` returns
  -- the bytes of its two slices, one behind the other, and leaves what follows.
  pub decode_byte_deque-Reads :
      {R : Type 0} ⦃io : Read R⦄ (laws : ReadLaws io) (e : Ctx V Z) (d : Dtx V Z)
      (a b rest : List ℕ) (r : R)
      → InStep (ContextSync V) e d
      → Packable Z (a ++ b)
      → laws.IsValid r
      → laws.remaining r ≡ blob_coded V Z (packed_bytes Z (a ++ b)) e (a ++ b) ++ rest
      → ReadsWith laws (decode_byte_deque V Z) d r (a ++ b) (after_blob_read_in V Z d (a ++ b)) rest
  unfolding decode_byte_deque
  decode_byte_deque-Reads laws e d a b rest r s fits valid left =
      decode_or-Reads V Z laws zstd (a ++ b) (packed_bytes Z (a ++ b)) rest pure (deque_payload V Z)
        (λ s. refl) (deque_payload-Reads Z zstd (a ++ b) fits V laws rest)
        (omega (arith, fits.small)) e d r s valid left

  pub encode_byte_deque-Appends :
      {W : Type 0} ⦃io : Write W⦄ (laws : WriteLaws io) (e : Ctx V Z) (d : Dtx V Z) (a b : List ℕ)
      (m : ℕ) (w : W)
      → InStep (ContextSync V) e d
      → Packable Z (a ++ b)
      → laws.Room w (length (blob_coded V Z (packed_bytes Z (a ++ b)) e (a ++ b)) + m)
      → 0 < m
      → AppendsWith laws
          (encode_byte_deque V Z (a, b))
          e
          w
          (blob_coded V Z (packed_bytes Z (a ++ b)) e (a ++ b))
          (after_blob_in V Z e (a ++ b))
          m
  unfolding encode_byte_deque encode_byte_slice
  encode_byte_deque-Appends laws e d a b m w s fits room more =
      encode_byte_slice-Appends laws e d (a ++ b) m w s fits room more

module _ (Z : Zstd) (zstd : ZstdLaws Z) where
  -- From a valid reader whose next bytes are those of a string, `decode_ext` returns its bytes and
  -- leaves what follows.
  pub decode_string-Reads :
      {R : Type 0} ⦃io : Read R⦄ (laws : ReadLaws io) (bytes rest : List ℕ) (r : R)
      → Packable Z bytes
      → is_utf8 bytes ≡ true
      → laws.IsValid r
      → laws.remaining r ≡ packed_bytes Z bytes ++ rest
      → Reads laws (decode_string Z) r bytes rest
  unfolding decode_string checked_utf8
  decode_string-Reads laws bytes rest r fits utf8 valid left =
      Reads-bind laws (decode_bytes Z) (checked_utf8 Z) r bytes bytes rest rest
        (packed-Reads Z zstd bytes fits laws rest r valid left)
        (λ r' valid' left'. (r', rw utf8, valid', left'))

  pub encode_str-Appends :
      {W : Type 0} ⦃io : Write W⦄ (laws : WriteLaws io) (bytes : List ℕ) (m : ℕ) (w : W)
      → Packable Z bytes
      → laws.Room w (length (packed_bytes Z bytes) + m)
      → 0 < m
      → Appends laws (encode_str Z bytes) w (packed_bytes Z bytes) m
  unfolding encode_str
  encode_str-Appends laws bytes m w fits room more =
      packed-Appends Z zstd bytes fits laws m w room more

  abbrev pub string-PlainLaws : PlainLaws (string Z)
  string-PlainLaws = record {
    bytes = packed_bytes Z;
    Fits = λ bytes. Packable Z bytes × (is_utf8 bytes ≡ true);
    write-Appends =
        λ laws bytes m w fits room more. encode_str-Appends laws bytes m w fits.0 room more;
    read-Reads = λ laws bytes rest r fits valid left.
        decode_string-Reads laws bytes rest r fits.0 fits.1 valid left;
  }
