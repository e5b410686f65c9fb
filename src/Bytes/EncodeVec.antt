-- ===== src/Bytes/EncodeVec.antt =====
-- `Encode` for `Vec<u8>` of src/lib.rs appends the bytes for the vector.
use lencode.Prelude.{
  ℕ, ◌+◌, ◌*◌, ◌^◌, ◌<◌, ◌≡◌, arith, Bool, true, false, Option, none, some, List, length,
}
use lencode.Io.{ok, Write, WriteLaws, Appends}
use lencode.Io.Context.{Appends-chain, Room-append}
use lencode.Varint.Fixed.{encode_varint_u64}
use lencode.Varint.Encoding.{encoding}
use lencode.Varint.Encode.{encode_word-Appends}
use lencode.Bytes.Zstd.{Zstd, ZstdLaws}
use lencode.Bytes.Header.{flag}
use lencode.Bytes.Vec.{compressed_payload, write_payload, encode_bytes}
use lencode.Bytes.Packed.{payload_bytes, packed_as, flagged_lem, flag-le, chosen_lem, length-chosen}

module _ {W : Type 0} ⦃io : Write W⦄ (laws : WriteLaws io) where
  write_payload-Appends :
      (c : Bool) (payload : List ℕ) (m : ℕ) (w : W)
      → 0 < length payload + m
      → length payload < 2 ^ 63
      → laws.Room w (length (payload_bytes c payload) + m)
      → Appends laws (write_payload c payload) w (payload_bytes c payload) m
  unfolding write_payload encode_varint_u64
  write_payload-Appends c payload m w pos small room =
      let header = encoding 8 (length payload * 2 + flag c) in
      rw (flagged_lem (length payload) c small) (
        Appends-chain laws (encode_varint_u64 (length payload * 2 + flag c)) (io.write payload) w
          header payload m
          (encode_word-Appends laws 8 (length payload * 2 + flag c) _ w (omega arith)
            (omega (arith, flag-le c)) (Room-append laws w header payload m room))
          (λ w' room'. laws.write_lem w' m payload room' pos))

  -- On a writer with room for them, and if the compressor does not fail, `encode_ext` of a vector
  -- of bytes, not empty or with more to come behind it, with `length bytes + 9 < 2 ^ 63`, appends the flagged length and
  -- the payload that was chosen, and returns their number.
  pub encode_bytes-Appends :
      (Z : Zstd) (zstd : ZstdLaws Z) (bytes : List ℕ) (o : Option (List ℕ)) (m : ℕ) (w : W)
      → compressed_payload Z bytes ≡ ok o
      → 0 < length bytes + m
      → length bytes + 9 < 2 ^ 63
      → laws.Room w (length (packed_as bytes o) + m)
      → Appends laws (encode_bytes Z bytes) w (packed_as bytes o) m
  unfolding encode_bytes
  encode_bytes-Appends Z zstd bytes none m w chosen pos small room =
      rw chosen (write_payload-Appends false bytes m w pos (omega arith) room)
  encode_bytes-Appends Z zstd bytes (some compressed) m w chosen pos small room =
      let (is, less) = chosen_lem Z bytes compressed chosen in
      rw chosen (
        write_payload-Appends true compressed m w
          (omega (arith, zstd.length-compress_pos bytes compressed is))
          (length-chosen Z bytes compressed small chosen) room)
