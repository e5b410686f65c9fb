-- ===== src/Codec/ByteArrayLaws.antt =====
-- `[u8; N]` of src/lib.rs keeps the promise of `Encode` and `Decode`, also where many are written
-- and read at once.
use lencode.Prelude.{
  ℕ, ◌+◌, ◌*◌, ◌^◌, ◌<◌, ◌≡◌, refl, sym, ap, ◌∙◌, arith, eq→==, List, [], ◌∷◌, ◌++◌, length, All,
}
use mathlib.Core.List.{flatten}
use mathlib.Core.Path.{subst}
use lencode.Io.{ok, pure, Read, Write, ReadLaws, WriteLaws, Appends, Reads}
use lencode.Io.Context.{AppendsWith, ReadsWith, Reads-bind}
use lencode.Bytes.Zstd.{Zstd, ZstdLaws}
use lencode.Dedupe.Values.{Values}
use lencode.Pack.Blocks.{write_block, read_block}
use lencode.Pack.BlockLaws.{write-Appends, write_block-Appends, read_block-Reads}
use lencode.Pack.Packings.{chunks}
use lencode.Pack.ArrayLaws.{AllOfLength, length-flatten, chunks-flatten}
use lencode.Context.Sync.{InStep, ContextSync}
use lencode.Codec.Laws.{CodingLaws, CodecLaws, coded_each}
use lencode.Codec.Blobs.{
  encode_byte_array, encode_byte_arrays, of_length, decode_byte_array, decode_byte_arrays,
  byte_array,
}
use lencode.Codec.BlobLaws.{
  Ctx, Dtx, blob_coded, after_blob_in, after_blob_read_in, after_blob-InStep, encode_or-Appends,
  decode_or-Reads,
}

module _ (V : Values) (Z : Zstd) (zstd : ZstdLaws Z) (n : ℕ) where
  -- An array has as many bytes as its type says, fewer than 2 ^ 64.
  pub record IsArray (bytes : List ℕ) : Type 0 where
    pub sized : length bytes ≡ n
    pub small : n < 2 ^ 64

  pub encode_byte_array-Appends :
      {W : Type 0} ⦃io : Write W⦄ (laws : WriteLaws io) (e : Ctx V Z) (d : Dtx V Z) (bytes : List ℕ)
      (m : ℕ) (w : W)
      → InStep (ContextSync V) e d
      → IsArray bytes
      → laws.Room w (length (blob_coded V Z bytes e bytes) + m)
      → 0 < m
      → AppendsWith laws
          (encode_byte_array V Z bytes)
          e
          w
          (blob_coded V Z bytes e bytes)
          (after_blob_in V Z e bytes)
          m
  unfolding encode_byte_array
  encode_byte_array-Appends laws e d bytes m w s fits room more =
      encode_or-Appends V Z laws bytes bytes (write_block bytes) m
        (λ w room. write_block-Appends laws bytes m w (omega arith) room) more
        (omega (arith, fits.sized, fits.small)) e d w s room

  -- In contexts in step, and from a valid reader whose next bytes are those for an array of `n`
  -- bytes, `n` below 2 ^ 64, as they are or as a blob: `decode_ext` of `[u8; N]` returns
  -- the array and leaves what follows.
  pub decode_byte_array-Reads :
      {R : Type 0} ⦃io : Read R⦄ (laws : ReadLaws io) (e : Ctx V Z) (d : Dtx V Z)
      (bytes rest : List ℕ) (r : R)
      → InStep (ContextSync V) e d
      → IsArray bytes
      → laws.IsValid r
      → laws.remaining r ≡ blob_coded V Z bytes e bytes ++ rest
      → ReadsWith laws (decode_byte_array V Z n) d r bytes (after_blob_read_in V Z d bytes) rest
  unfolding decode_byte_array of_length
  decode_byte_array-Reads laws e d bytes rest r s fits valid left =
      decode_or-Reads V Z laws zstd bytes bytes rest (of_length V Z n) (read_block n)
        (λ s. rw (eq→== (length bytes) n fits.sized))
        (λ r valid left.
          subst (λ k. Reads laws (read_block k) r bytes rest) fits.sized
            (read_block-Reads laws bytes rest r valid left))
        (omega (arith, fits.sized, fits.small)) e d r s valid left

  abbrev pub byte_array-CodingLaws : CodingLaws (ContextSync V) (byte_array V Z n).coding
  byte_array-CodingLaws = record {
    coded = λ e bytes. blob_coded V Z bytes e bytes;
    IsCodable = λ e bytes. IsArray bytes;
    after = after_blob_in V Z;
    after_read = λ e d bytes. after_blob_read_in V Z d bytes;
    after-InStep = λ e d bytes s fits.
        after_blob-InStep V Z e d bytes s (omega (arith, fits.sized, fits.small));
    encode-Appends = λ laws e d bytes m w s fits room more.
        encode_byte_array-Appends laws e d bytes m w s fits room more;
    decode-Reads = λ laws e d bytes rest r s fits valid left.
        decode_byte_array-Reads laws e d bytes rest r s fits valid left;
  }

  coded_each-flatten :
      (items : List (List ℕ)) → coded_each byte_array-CodingLaws items ≡ flatten items
  unfolding coded_each flatten
  coded_each-flatten [] = refl
  coded_each-flatten (item ∷ items) = ap (λ t. item ++ t) (coded_each-flatten items)

  item_lengths : (items : List (List ℕ)) → All IsArray items → AllOfLength n items
  item_lengths [] fits = tt
  item_lengths (item ∷ items) (one, fits) = (one.sized, item_lengths items fits)

  pub encode_byte_arrays-Appends :
      {W : Type 0} ⦃io : Write W⦄ (laws : WriteLaws io) (items : List (List ℕ)) (m : ℕ) (w : W)
      → All IsArray items
      → laws.Room w (length (coded_each byte_array-CodingLaws items) + m)
      → 0 < m
      → Appends laws (encode_byte_arrays V Z items) w (coded_each byte_array-CodingLaws items) m
  unfolding encode_byte_arrays
  encode_byte_arrays-Appends ⦃io⦄ laws items m w fits room more =
      let e = coded_each-flatten items in
      subst (λ bs. Appends laws (io.write (flatten items)) w bs m) (sym e)
        (write-Appends laws (flatten items) m w (omega arith)
          (subst (λ bs. laws.Room w (length bs + m)) e room))

  pub decode_byte_arrays-Reads :
      {R : Type 0} ⦃io : Read R⦄ (laws : ReadLaws io) (items : List (List ℕ)) (rest : List ℕ)
      (r : R)
      → All IsArray items
      → laws.IsValid r
      → laws.remaining r ≡ coded_each byte_array-CodingLaws items ++ rest
      → Reads laws (decode_byte_arrays V Z n (length items)) r items rest
  unfolding decode_byte_arrays
  decode_byte_arrays-Reads laws items rest r fits valid left =
      let sized = item_lengths items fits in
      Reads-bind laws (read_block (n * length items))
        (λ bytes. pure (chunks n (length items) bytes)) r (flatten items) items rest rest
        (subst (λ k. Reads laws (read_block k) r (flatten items) rest)
          (length-flatten n items sized)
          (read_block-Reads laws (flatten items) rest r valid
            (left ∙ ap (λ bs. bs ++ rest) (coded_each-flatten items))))
        (λ r' valid' left'.
          (r', ap (λ x. (r', ok x)) (chunks-flatten n items sized), valid', left'))

  abbrev pub byte_array-CodecLaws : CodecLaws (ContextSync V) (byte_array V Z n)
  byte_array-CodecLaws = record {
    item = byte_array-CodingLaws;
    IsSlice = All IsArray;
    encode_slice-Appends =
        λ laws items m w fits room more. encode_byte_arrays-Appends laws items m w fits room more;
    decode_vec-Reads = λ laws items rest r fits valid left.
        decode_byte_arrays-Reads laws items rest r fits valid left;
  }
