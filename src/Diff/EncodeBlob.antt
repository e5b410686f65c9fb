-- ===== src/Diff/EncodeBlob.antt =====
-- `encode_blob` of src/diff.rs appends the bytes for a blob.
use lencode.Prelude.{
  ℕ, ◌+◌, ◌^◌, ◌<◌, ◌≡◌, ◌⊎◌, refl, ap, arith, inl, inr, Option, none, some, List, ◌++◌, length,
  length-append,
}
use lencode.Io.{ok, ◌⊕◌, Write, WriteLaws, Appends}
use lencode.Io.Context.{AppendsWith, Appends-chain, Room-append}
use lencode.Varint.Fixed.{encode_varint_u64}
use lencode.Varint.Encoding.{encoding, length-encoding_pos}
use lencode.Varint.Encode.{encode_word-Appends}
use lencode.Bytes.Zstd.{Zstd}
use lencode.Diff.Encoder
use lencode.Diff.Encoder.{
  DiffEncoder, encode_rle_to_buf, encode_xor_to_buf, winner, smaller, is_tiny, difference,
  write_full, encode_blob,
}
use lencode.Diff.Decoder.{DiffDecoder}
use lencode.Diff.Buffers.{header_bytes, patches_bytes, rle_buffer, xor_buffer}
use lencode.Diff.Sync.{
  Sync, full_bytes, coded_as, chosen, coded, stored_as, after_blob, winner_lem, difference_lem,
}

header_pos :
    (mode new_len count : ℕ) (rest buf : List ℕ)
    → buf ≡ header_bytes mode new_len count ++ rest
    → 0 < length buf
header_pos mode new_len count rest buf e = omega (
  arith,
  ap length e,
  length-append (header_bytes mode new_len count) rest,
  length-append (encoding 8 mode) (encoding 8 new_len ++ encoding 8 count),
  length-encoding_pos 8 mode,
)

-- A difference is not empty.
difference_pos :
    (Z : Zstd) (e : DiffEncoder) (d : DiffDecoder) (key : ℕ) (blob buf : List ℕ)
    → Sync e d
    → length blob < 2 ^ 64
    → difference Z e key blob ≡ some buf
    → 0 < length buf
difference_pos Z e d key blob buf s h k =
    let (old, seen, w) = difference_lem Z e key blob buf k in
    go old (s.small key old seen) (winner_lem Z old blob buf w)
  where
    go :
        (old : List ℕ)
        → length old < 2 ^ 64
        → (encode_rle_to_buf old blob ≡ some buf) ⊎ (encode_xor_to_buf Z old blob ≡ some buf)
        → 0 < length buf
    go old ho (inl rle) =
        let (patches, dd, count, is) = rle_buffer old blob buf ho h rle in
        header_pos 1 (length blob) (length patches) (patches_bytes 0 patches) buf is
    go old ho (inr xor) =
        let (compressed, z, less, is) = xor_buffer Z old blob buf h xor in
        header_pos 2 (length blob) (length compressed) compressed buf is

module _ {W : Type 0} ⦃io : Write W⦄ (laws : WriteLaws io) where
  number-Appends :
      (v m : ℕ) (w : W)
      → v < 2 ^ 64
      → laws.Room w (length (encoding 8 v) + m)
      → Appends laws (encode_varint_u64 v) w (encoding 8 v) m
  unfolding encode_varint_u64
  number-Appends v m w h room = encode_word-Appends laws 8 v m w (omega arith) (omega arith) room

  write_full-Appends :
      (blob : List ℕ) (m : ℕ) (w : W)
      → 0 < length blob + m
      → length blob < 2 ^ 64
      → laws.Room w (length (full_bytes blob) + m)
      → Appends laws (write_full blob) w (full_bytes blob) m
  unfolding write_full
  write_full-Appends blob m w pos small room =
      Appends-chain laws (encode_varint_u64 0) (encode_varint_u64 (length blob) ⊕ io.write blob) w
        (encoding 8 0) (encoding 8 (length blob) ++ blob) m
        (number-Appends 0 _ w (omega arith)
          (Room-append laws w (encoding 8 0) (encoding 8 (length blob) ++ blob) m room))
        (λ w' room'.
          Appends-chain laws (encode_varint_u64 (length blob)) (io.write blob) w'
            (encoding 8 (length blob)) blob m
            (number-Appends (length blob) _ w' small
              (Room-append laws w' (encoding 8 (length blob)) blob m room'))
            (λ w'' room''. laws.write_lem w'' m blob room'' pos))

  -- In a state in step with some decoder, and on a writer with room for it, `encode_blob` of a
  -- blob shorter than 2 ^ 64, not empty or with more to come behind it, appends the chosen difference, or the blob in
  -- full, returns the number of bytes, and stores the blob under the active key.
  pub encode_blob-coded :
      (Z : Zstd) (e : DiffEncoder) (d : DiffDecoder) (blob : List ℕ) (m : ℕ) (w : W)
      → Sync e d
      → 0 < length blob + m
      → length blob < 2 ^ 64
      → laws.Room w (length (coded Z e blob) + m)
      → AppendsWith laws (encode_blob Z blob) e w (coded Z e blob) (after_blob e blob) m
  unfolding encode_blob
  encode_blob-coded Z e d blob m w s pos small = go e.current_key
    where
      whole :
          (o : Option ℕ)
          → Appends laws (write_full blob) w (full_bytes blob) m
          → (w' : W) × (Encoder.kept (stored_as e blob o) (write_full blob w)
              ≡ ((stored_as e blob o, w'), ok (length (full_bytes blob))))
            × laws.Room w' m
            × (laws.written w' ≡ laws.written w ++ full_bytes blob)
      whole o (w', h, room, same) = (w', ap (Encoder.kept (stored_as e blob o)) h, room, same)

      part :
          (key : ℕ) (o : Option (List ℕ))
          → difference Z e key blob ≡ o
          → laws.Room w (length (coded_as blob o) + m)
          → (w' : W) × (Encoder.encode_under blob e w key o
              ≡ ((Encoder.insert key blob e, w'), ok (length (coded_as blob o))))
            × laws.Room w' m
            × (laws.written w' ≡ laws.written w ++ coded_as blob o)
      part key none k room = whole (some key) (write_full-Appends blob m w pos small room)
      part key (some buf) k room =
          let (w', h, room', same) =
            laws.write_lem w m buf room
              (omega (arith, difference_pos Z e d key blob buf s small k)) in
          (w', ap (Encoder.stored_if_ok key blob e) h, room', same)

      go :
          (o : Option ℕ)
          → laws.Room w (length (coded_as blob (chosen Z e blob o)) + m)
          → (w' : W) × (Encoder.encode_active Z blob e w o
              ≡ ((stored_as e blob o, w'), ok (length (coded_as blob (chosen Z e blob o)))))
            × laws.Room w' m
            × (laws.written w' ≡ laws.written w ++ coded_as blob (chosen Z e blob o))
      go none room = whole none (write_full-Appends blob m w pos small room)
      go (some key) room = part key (difference Z e key blob) refl room
