-- ===== src/Varint/Encode.antt =====
-- The fixed-width encoders of src/varint/lencode.rs append the encoding, on every writer.
use lencode.Prelude.{
  ℕ, ◌+◌, ◌/◌, ◌%◌, ◌^◌, ◌≤◌, ◌<◌, ◌≡◌, ap, ◌∙◌, arith, leb, inl, inr, Bool-cases, tests, List, [],
  ◌∷◌, ◌++◌, length, take, le→ltb, pos→ne_zero, min, bit_or, one-add,
}
use lencode.Prelude.Bits.{with_top_bit}
use lencode.Io.{pure, ◌>>=◌, Write, WriteLaws, Appends}
use lencode.Io.Store.{put, Stores, Stores-self, Appends-through}
use lencode.Varint.Bytes.{le_bytes, byte_count, length-le_bytes, take-le_bytes}
use lencode.Varint.Payload.{byte_count-le, payload_len-eq-byte_count}
use lencode.Varint.Encoding.{
  encoding, encoding_small, encoding_large, length-encoding_large, length-encoding-le,
  length-encoding_pos,
}
use lencode.Varint.Fixed.{
  payload_len, encode_to_slice, encode_by_write, encode_word, encode_to_slice_u128,
  encode_varint_u128,
}

-- The header byte of a value above 127.
pub header :
    (k v : ℕ)
    → k ≤ 16
    → 128 ≤ v
    → v < 256 ^ k
    → bit_or 0x80 (payload_len k v) ≡ 128 + byte_count k v
header k v hk large fits =
    rw (payload_len-eq-byte_count k v (omega arith) fits)
      (with_top_bit (byte_count k v) (omega (arith, byte_count-le k v)))

-- All `k` bytes behind the header: the payload is their front.
pub Stores-whole :
    (k v len : ℕ)
    → 128 ≤ v
    → v < 256 ^ k
    → k + 1 ≤ len
    → Stores (encoding k v) ((128 + byte_count k v) ∷ le_bytes k v) len
Stores-whole k v len large fits room = rw (encoding_large k v large) (record {
  fits = omega (arith, length-le_bytes k v);
  covers =
      omega (arith, length-le_bytes k v, length-le_bytes (byte_count k v) v, byte_count-le k v);
  front =
      ap (λ t. (128 + byte_count k v) ∷ t)
        (ap (λ n. take n (le_bytes k v)) (length-le_bytes (byte_count k v) v)
          ∙ take-le_bytes (byte_count k v) k v (byte_count-le k v));
})

halves_bytes : (v : ℕ) → le_bytes 8 (v % 2 ^ 64) ++ le_bytes 8 (v / 2 ^ 64) ≡ le_bytes 16 v
unfolding le_bytes
halves_bytes v = ground arith

module _ {W : Type 0} ⦃io : Write W⦄ where
  -- What `encode_to_slice` stores, and how much of it is kept.
  encode_to_slice_lem :
      (k v len : ℕ) (w : W)
      → k ≤ 16
      → v < 256 ^ k
      → min (length (encoding k v)) 17 ≤ len
      → (cells : List ℕ) × (encode_to_slice k v len w ≡ put cells (length (encoding k v)) w)
        × Stores (encoding k v) cells len
  unfolding encode_to_slice
  encode_to_slice_lem k v len w hk fits room = elim (Bool-cases (leb v 0x7f)) [
    | inl small ↦ rw (encoding_small k v (omega tests)) (
      v ∷ [],
      elim (Bool-cases (leb (k + 1) len)) [
        | inl long ↦ rw (long, small)
        | inr short ↦ rw (short, small, pos→ne_zero len (omega (arith, length-encoding_pos k v)))
      ],
      Stores-self (v ∷ []) len (omega (arith, length-encoding_pos k v)),
    )
    | inr large ↦
        let big : 128 ≤ v = omega tests in
        let n = payload_len-eq-byte_count k v (omega arith) fits in
        let size = length-encoding_large k v big in
        elim (Bool-cases (leb (k + 1) len)) [
          | inl long ↦ (
            (128 + byte_count k v) ∷ le_bytes k v,
            rw (long, large, header k v hk big fits, n, size, one-add),
            Stores-whole k v len big fits (omega tests),
          )
          | inr short ↦ (
            encoding k v,
            rw (
              short,
              large,
              header k v hk big fits,
              n,
              le→ltb len (1 + byte_count k v) (omega (arith, size, length-encoding-le k v)),
              encoding_large k v big,
              take-le_bytes (byte_count k v) k v (byte_count-le k v),
              length-le_bytes,
              one-add,
            ),
            Stores-self (encoding k v) len (omega (arith, length-encoding-le k v)),
          )
        ]
  ]

  encode_by_write_lem :
      (k v : ℕ) (w : W)
      → k ≤ 16
      → v < 256 ^ k
      → encode_by_write k v w
        ≡ (io.write (encoding k v) >>= λ written. pure (length (encoding k v))) w
  unfolding encode_by_write
  encode_by_write_lem k v w hk fits = elim (Bool-cases (leb v 0x7f)) [
    | inl small ↦ rw (encoding_small k v (omega tests), small)
    | inr large ↦
        let big : 128 ≤ v = omega tests in
        rw (
          large,
          header k v hk big fits,
          payload_len-eq-byte_count k v (omega arith) fits,
          encoding_large k v big,
          one-add,
          take-le_bytes (byte_count k v) k v (byte_count-le k v),
          length-le_bytes,
        )
  ]

  -- On a writer with room for it, the encoder of a `k`-byte integer, for `k` up to 16, appends
  -- the encoding of any value of `k` bytes, returns its length, and leaves the rest of the room.
  pub encode_word-Appends :
      (laws : WriteLaws io) (k v m : ℕ) (w : W)
      → k ≤ 16
      → v < 256 ^ k
      → laws.Room w (length (encoding k v) + m)
      → Appends laws (encode_word k v) w (encoding k v) m
  unfolding encode_word
  encode_word-Appends laws k v m w hk fits room =
      Appends-through laws (encoding k v) m w (encode_to_slice k v) (encode_by_write k v)
        (length-encoding_pos k v) room (λ len w' h. encode_to_slice_lem k v len w' hk fits h)
        (λ w'. encode_by_write_lem k v w' hk fits)

  -- The two stores of eight bytes are one of sixteen.
  encode_to_slice_u128_lem :
      (v len : ℕ) (w : W) → encode_to_slice_u128 v len w ≡ encode_to_slice 16 v len w
  unfolding encode_to_slice_u128 encode_to_slice
  encode_to_slice_u128_lem v len w = rw (halves_bytes v)

  -- On a writer with room for it, `encode_varint_u128` appends the encoding of any value below 2
  -- ^ 128, returns its length, and leaves the rest of the room.
  pub encode_varint_u128-Appends :
      (laws : WriteLaws io) (v m : ℕ) (w : W)
      → v < 2 ^ 128
      → laws.Room w (length (encoding 16 v) + m)
      → Appends laws (encode_varint_u128 v) w (encoding 16 v) m
  unfolding encode_varint_u128
  encode_varint_u128-Appends laws v m w fits room =
      Appends-through laws (encoding 16 v) m w (encode_to_slice_u128 v) (encode_by_write 16 v)
        (length-encoding_pos 16 v) room
        (λ len w' h.
          rw encode_to_slice_u128_lem (encode_to_slice_lem 16 v len w' (omega arith) fits h))
        (λ w'. encode_by_write_lem 16 v w' (omega arith) fits)
