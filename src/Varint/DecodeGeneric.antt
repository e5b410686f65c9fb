-- ===== src/Varint/DecodeGeneric.antt =====
-- The generic `decode_varint` of src/varint/lencode.rs reads the encoding back.
use lencode.Prelude.{
  ℕ, zero, suc, ◌+◌, ◌-◌, ◌^◌, ◌≤◌, ◌<◌, ◌≡◌, refl, sym, ap, ◌∙◌, arith, ltb, inl, inr, Bool-cases,
  tests, List, [], ◌∷◌, ◌++◌, length, pos→ne_zero, one-add, length-append, le→ltb, replicate,
  overwrite,
}
use lencode.Io.{ok, Read, ReadLaws, Reads}
use lencode.Varint.Bytes.{
  le_bytes, of_le, byte_count, byte_count_fits, byte_count_pos, length-le_bytes, of_le-le_bytes,
}
use lencode.Varint.Payload.{byte_count-le}
use lencode.Varint.Encoding.{encoding, encoding_small, encoding_large, length-encoding_large}
use lencode.Varint.Fixed.{take_value}
use lencode.Varint.Decode.{
  large_flag, large_count, small_flag, take_payload, take_value-Reads, read-Reads,
}
use lencode.Varint.Generic.{varint_from_slice, varint_by_read, decode_varint}

of_le-zeros : (n : ℕ) → of_le (replicate n 0) ≡ 0
unfolding of_le
of_le-zeros zero = refl
of_le-zeros (suc n) = omega (arith, of_le-zeros n)

-- A payload over the first cells, the others zero.
of_le-overwrite :
    (xs : List ℕ) (k c : ℕ)
    → 0 < length xs
    → length xs ≤ suc k
    → of_le (overwrite xs (c ∷ replicate k 0)) ≡ of_le xs
unfolding of_le
of_le-overwrite [] k c pos h = absurd (omega arith)
of_le-overwrite (x ∷ []) k c pos h = omega (arith, of_le-zeros k)
of_le-overwrite (x ∷ (y ∷ xs)) zero c pos h = absurd (omega arith)
of_le-overwrite (x ∷ (y ∷ xs)) (suc k) c pos h =
    omega (arith, of_le-overwrite (y ∷ xs) k 0 (omega arith) (omega arith))

module _ {R : Type 0} ⦃io : Read R⦄ where
  varint_from_slice-encoding :
      (k v : ℕ) (rest : List ℕ) (r : R)
      → k < 128
      → v < 256 ^ k
      → varint_from_slice k (encoding k v ++ rest) r ≡ take_value (length (encoding k v)) v r
  unfolding varint_from_slice
  varint_from_slice-encoding k v rest r hk fits = elim (Bool-cases (ltb v 128)) [
    | inl small ↦ rw (
      encoding_small k v (omega tests),
      pos→ne_zero (suc (length rest)) (omega arith),
      small_flag v (omega tests),
    )
    | inr large ↦
        let big : 128 ≤ v = omega tests in
        let n = byte_count k v in
        let hn : n < 128 = omega (arith, byte_count-le k v) in
        rw (
          length-encoding_large k v big,
          encoding_large k v big,
          pos→ne_zero (suc (length (le_bytes n v ++ rest))) (omega arith),
          large_flag n hn,
          large_count n hn,
          le→ltb (suc (length (le_bytes n v ++ rest))) (1 + n)
              (omega (arith, length-append (le_bytes n v) rest, length-le_bytes n v)),
          le→ltb k n (byte_count-le k v),
          take_payload n v rest,
          of_le-le_bytes n v (byte_count_fits k v fits),
          one-add n,
        )
  ]

module _ {R : Type 0} ⦃io : Read R⦄ (laws : ReadLaws io) where
  varint_by_read-Reads :
      (k v : ℕ) (rest : List ℕ) (r : R)
      → 0 < k
      → k < 128
      → v < 256 ^ k
      → laws.IsValid r
      → laws.remaining r ≡ encoding k v ++ rest
      → Reads laws (varint_by_read k) r v rest
  unfolding varint_by_read
  varint_by_read-Reads k v rest r kpos hk fits valid e = elim (Bool-cases (ltb v 128)) [
    | inl small ↦
        let (r', got, valid', left) =
          read-Reads laws r (v ∷ []) rest valid (omega arith)
            (rw (encoding_small k v (omega tests)) at e) in
        let value : of_le (v ∷ replicate (k - 1) 0) ≡ v =
          unfold of_le in omega (arith, of_le-zeros (k - 1)) in
        (r', rw (got, small_flag v (omega tests), value), valid', left)
    | inr large ↦
        let big : 128 ≤ v = omega tests in
        let n = byte_count k v in
        let hn : n < 128 = omega (arith, byte_count-le k v) in
        let pos : 0 < length (le_bytes n v) =
          omega (arith, length-le_bytes n v, byte_count_pos k v (omega arith) fits) in
        let (r', got, valid', left) =
          read-Reads laws r ((128 + n) ∷ []) (le_bytes n v ++ rest) valid (omega arith)
            (rw (encoding_large k v big) at e) in
        let (r'', got', valid'', left') = read-Reads laws r' (le_bytes n v) rest valid' pos left in
        let one_read : io.read n r' ≡ (r'', ok (le_bytes n v)) =
          ap (λ j. io.read j r') (sym (length-le_bytes n v)) ∙ got' in
        let value : of_le (overwrite (le_bytes n v) ((128 + n) ∷ replicate (k - 1) 0)) ≡ v =
          of_le-overwrite (le_bytes n v) (k - 1) (128 + n) pos
            (omega (arith, length-le_bytes n v, byte_count-le k v))
          ∙ of_le-le_bytes n v (byte_count_fits k v fits) in
        (
          r'',
          rw (
            got,
            large_flag n hn,
            large_count n hn,
            le→ltb k n (byte_count-le k v),
            one_read,
            value,
          ),
          valid'',
          left',
        )
  ]

  -- From a valid reader whose next bytes are the encoding of a value of `k` bytes, for `k` from 1
  -- to 127, the generic `decode_varint` returns the value and leaves what follows the encoding.
  pub decode_varint-Reads :
      (k v : ℕ) (rest : List ℕ) (r : R)
      → 0 < k
      → k < 128
      → v < 256 ^ k
      → laws.IsValid r
      → laws.remaining r ≡ encoding k v ++ rest
      → Reads laws (decode_varint k) r v rest
  unfolding decode_varint
  decode_varint-Reads k v rest r kpos hk fits valid e = elim (laws.buf_lem r valid) [
    | inl unlent ↦ rw unlent (varint_by_read-Reads k v rest r kpos hk fits valid e)
    | inr lent ↦
        let (r', got, valid', left) = take_value-Reads laws r v (encoding k v) rest valid lent e in
        (r', rw (lent, e, varint_from_slice-encoding k v rest r hk fits) got, valid', left)
  ]
