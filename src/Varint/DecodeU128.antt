-- ===== src/Varint/DecodeU128.antt =====
-- `decode_varint_u128` of src/varint/lencode.rs, which loads two halves, reads the encoding back.
use lencode.Prelude.{
  ℕ, zero, suc, ◌+◌, ◌*◌, ◌^◌, ◌≤◌, ◌<◌, ◌≡◌, ap, ◌∙◌, arith, ltb, leb, ◌==◌, inl, inr, Bool-cases,
  tests, List, [], ◌∷◌, ◌++◌, length, take, drop, pos→ne_zero, length-take, bit_and, false,
}
use lencode.Io.{Read, ReadLaws, Reads}
use lencode.Varint.Bytes.{le_bytes, of_le, of_le-append, byte_count, byte_count_pos}
use lencode.Varint.Payload.{byte_count-le}
use lencode.Varint.Encoding.{encoding, encoding_small, encoding_large}
use lencode.Varint.Fixed.{take_value, decode_from_slice, decode_from_slice_u128, decode_varint_u128}
use lencode.Varint.Decode.{
  large_count, small_flag, decode_from_slice-encoding, take_value-Reads, decode_by_read-Reads,
}

take-add :
    (n m : ℕ) (xs : List ℕ) → n ≤ length xs → take (n + m) xs ≡ take n xs ++ take m (drop n xs)
take-add zero m xs h = let e : 0 + m ≡ m = omega arith in ap (λ k. take k xs) e
take-add (suc n) m [] h = absurd (omega arith)
take-add (suc n) m (x ∷ xs) h =
    let e : suc n + m ≡ suc (n + m) = omega arith in
    ap (λ k. take k (x ∷ xs)) e ∙ ap (λ t. x ∷ t) (take-add n m xs (omega arith))

-- The two halves of sixteen bytes are the sixteen bytes.
halves :
    (xs : List ℕ)
    → 16 ≤ length xs
    → of_le (take 8 xs) + of_le (take 8 (drop 8 xs)) * 2 ^ 64 ≡ of_le (take 16 xs)
halves xs h = rw (take-add 8 8 xs (omega arith)) (
    omega (
      arith,
      of_le-append (take 8 xs) (take 8 (drop 8 xs)),
      ap (λ n. 256 ^ n * of_le (take 8 (drop 8 xs))) (length-take 8 xs (omega arith)),
    ))

module _ {R : Type 0} ⦃io : Read R⦄ where
  -- Where the payload is not empty, the two halves and the mask give what one load would.
  slice_u128-eq-slice :
      (b : ℕ) (bs : List ℕ) (r : R)
      → bit_and b 0x7f == 0 ≡ false
      → decode_from_slice_u128 (b ∷ bs) r ≡ decode_from_slice 16 (b ∷ bs) r
  unfolding decode_from_slice_u128 decode_from_slice
  slice_u128-eq-slice b bs r h = elim (Bool-cases (leb 17 (suc (length bs)))) [
    | inl long ↦ rw (long, h, halves bs (omega tests))
    | inr short ↦ rw short
  ]

  slice_u128_small :
      (v : ℕ) (rest : List ℕ) (r : R)
      → v < 128
      → decode_from_slice_u128 (v ∷ rest) r ≡ take_value 1 v r
  unfolding decode_from_slice_u128
  slice_u128_small v rest r h = elim (Bool-cases (leb 17 (suc (length rest)))) [
    | inl long ↦ rw (long, small_flag v h)
    | inr short ↦ rw (short, pos→ne_zero (suc (length rest)) (omega arith), small_flag v h)
  ]

  slice_u128-encoding :
      (v : ℕ) (rest : List ℕ) (r : R)
      → v < 2 ^ 128
      → decode_from_slice_u128 (encoding 16 v ++ rest) r ≡ take_value (length (encoding 16 v)) v r
  slice_u128-encoding v rest r fits = elim (Bool-cases (ltb v 128)) [
    | inl small ↦ rw (encoding_small 16 v (omega tests)) (slice_u128_small v rest r (omega tests))
    | inr large ↦
        let big : 128 ≤ v = omega tests in
        let n = byte_count 16 v in
        let hn : n < 128 = omega (arith, byte_count-le 16 v) in
        let some_payload : bit_and (128 + n) 0x7f == 0 ≡ false =
          rw (large_count n hn) (pos→ne_zero n (byte_count_pos 16 v (omega arith) fits)) in
        let same : decode_from_slice_u128 (encoding 16 v ++ rest) r
            ≡ decode_from_slice 16 (encoding 16 v ++ rest) r =
          rw (encoding_large 16 v big)
            (slice_u128-eq-slice (128 + n) (le_bytes n v ++ rest) r some_payload) in
        same ∙ decode_from_slice-encoding 16 v rest r (omega arith) fits
  ]

-- From a valid reader whose next bytes are the encoding of a value below 2 ^ 128,
-- `decode_varint_u128` returns the value and leaves what follows the encoding.
pub decode_varint_u128-Reads :
    {R : Type 0} ⦃io : Read R⦄ (laws : ReadLaws io) (v : ℕ) (rest : List ℕ) (r : R)
    → v < 2 ^ 128
    → laws.IsValid r
    → laws.remaining r ≡ encoding 16 v ++ rest
    → Reads laws decode_varint_u128 r v rest
unfolding decode_varint_u128
decode_varint_u128-Reads laws v rest r fits valid e = elim (laws.buf_lem r valid) [
  | inl unlent ↦ rw unlent (decode_by_read-Reads laws 16 v rest r (omega arith) fits valid e)
  | inr lent ↦
      let (r', got, valid', left) = take_value-Reads laws r v (encoding 16 v) rest valid lent e in
      (r', rw (lent, e, slice_u128-encoding v rest r fits) got, valid', left)
]
