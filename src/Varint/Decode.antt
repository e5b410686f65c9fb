-- ===== src/Varint/Decode.antt =====
-- The fixed-width decoders of src/varint/lencode.rs read the encoding back, from every reader.
use lencode.Prelude.{
  ℕ, suc, ◌+◌, ◌-◌, ◌*◌, ◌%◌, ◌^◌, ◌≤◌, ◌<◌, ◌≡◌, refl, sym, ap, ◌∙◌, arith, ltb, leb, ◌==◌, inl,
  inr, Bool-cases, tests, if◌then◌else◌, List, [], ◌∷◌, ◌++◌, length, take, drop, le→ltb,
  pos→ne_zero, bit_and, some, one-add, false, true, take-append, drop-append, take-append_add,
  length-append, eq→==,
}
use lencode.Prelude.Bits.{low_seven, top_bit}
use lencode.Prelude.Pow.{pow256-eq-pow2}
use lencode.Io.{ok, Read, ReadLaws, Reads}
use lencode.Varint.Bytes.{
  le_bytes, of_le, byte_count, length-le_bytes, of_le-le_bytes, of_le-mod, byte_count_fits,
  byte_count_pos,
}
use lencode.Varint.Payload.{byte_count-le}
use lencode.Varint.Encoding.{encoding, encoding_small, encoding_large, length-encoding_large}
use lencode.Varint.Fixed.{take_value, decode_from_slice, decode_by_read, decode_word}

-- What the decoders see of the two kinds of first byte.
pub small_flag : (v : ℕ) → v < 128 → bit_and v 0x80 == 0 ≡ true
small_flag v h = eq→== _ 0 (top_bit v (omega arith) ∙ omega arith)

pub large_flag : (n : ℕ) → n < 128 → bit_and (128 + n) 0x80 == 0 ≡ false
large_flag n h = pos→ne_zero _ (omega (arith, top_bit (128 + n) (omega arith)))

pub large_count : (n : ℕ) → n < 128 → bit_and (128 + n) 0x7f ≡ n
large_count n h = low_seven (128 + n) (omega arith) ∙ omega arith

pub take_payload : (n v : ℕ) (rest : List ℕ) → take n (le_bytes n v ++ rest) ≡ le_bytes n v
take_payload n v rest =
    ap (λ k. take k (le_bytes n v ++ rest)) (sym (length-le_bytes n v))
    ∙ take-append (le_bytes n v) rest

-- `k` bytes loaded at once and masked to `n` are the value.
masked :
    (k n v : ℕ) (rest : List ℕ)
    → n ≤ k
    → v < 256 ^ n
    → (if ltb n k
        then of_le (take k (le_bytes n v ++ rest)) % 2 ^ (8 * n)
        else of_le (take k (le_bytes n v ++ rest)))
      ≡ v
masked k n v rest h fits = elim (Bool-cases (ltb n k)) [
  | inl less ↦
      let e : k ≡ length (le_bytes n v) + (k - n) = omega (tests, length-le_bytes n v) in
      rw
        (
          less,
          ← pow256-eq-pow2 n,
          ap (λ j. take j (le_bytes n v ++ rest)) e ∙ take-append_add (le_bytes n v) rest (k - n),
        )
        (of_le-mod n v (take (k - n) rest) fits)
  | inr same ↦
      let e : k ≡ n = omega tests in rw (same, e, take_payload n v rest, of_le-le_bytes n v fits)
]

module _ {R : Type 0} ⦃io : Read R⦄ where
  decode_from_slice_small :
      (k v : ℕ) (rest : List ℕ) (r : R)
      → v < 128
      → decode_from_slice k (v ∷ rest) r ≡ take_value 1 v r
  unfolding decode_from_slice
  decode_from_slice_small k v rest r h = elim (Bool-cases (leb (k + 1) (suc (length rest)))) [
    | inl long ↦ rw (long, small_flag v h)
    | inr short ↦ rw (short, pos→ne_zero (suc (length rest)) (omega arith), small_flag v h)
  ]

  decode_from_slice_large :
      (k n v : ℕ) (rest : List ℕ) (r : R)
      → n ≤ k
      → n < 128
      → v < 256 ^ n
      → decode_from_slice k ((128 + n) ∷ le_bytes n v ++ rest) r ≡ take_value (1 + n) v r
  unfolding decode_from_slice
  decode_from_slice_large k n v rest r hk hn fits =
      elim (Bool-cases (leb (k + 1) (suc (length (le_bytes n v ++ rest))))) [
        | inl long ↦ rw (long, large_flag n hn, large_count n hn, masked k n v rest hk fits)
        | inr short ↦ rw (
          short,
          pos→ne_zero (suc (length (le_bytes n v ++ rest))) (omega arith),
          large_flag n hn,
          large_count n hn,
          le→ltb (suc (length (le_bytes n v ++ rest))) (1 + n)
              (omega (arith, length-append (le_bytes n v) rest, length-le_bytes n v)),
          le→ltb k n hk,
          take_payload n v rest,
          of_le-le_bytes n v fits,
        )
      ]

  -- A slice that begins with the encoding of a value gives the value, and its length to pass over.
  pub decode_from_slice-encoding :
      (k v : ℕ) (rest : List ℕ) (r : R)
      → k ≤ 16
      → v < 256 ^ k
      → decode_from_slice k (encoding k v ++ rest) r ≡ take_value (length (encoding k v)) v r
  decode_from_slice-encoding k v rest r hk fits = elim (Bool-cases (ltb v 128)) [
    | inl small ↦
        rw (encoding_small k v (omega tests)) (decode_from_slice_small k v rest r (omega tests))
    | inr large ↦
        let big : 128 ≤ v = omega tests in
        rw (length-encoding_large k v big, encoding_large k v big, ← one-add (byte_count k v))
          (decode_from_slice_large k (byte_count k v) v rest r (byte_count-le k v)
            (omega (arith, byte_count-le k v)) (byte_count_fits k v fits))
  ]

module _ {R : Type 0} ⦃io : Read R⦄ (laws : ReadLaws io) where
  -- Passing over the bytes of a lent slice.
  pub take_value-Reads :
      (r : R) (v : ℕ) (bs rest : List ℕ)
      → laws.IsValid r
      → io.buf r ≡ (r, ok (some (laws.remaining r)))
      → laws.remaining r ≡ bs ++ rest
      → Reads laws (take_value (length bs) v) r v rest
  unfolding take_value
  take_value-Reads r v bs rest valid lent e =
      let (valid', e') =
        laws.advance_lem r (length bs) valid (omega (arith, ap length e, length-append bs rest))
          lent in
      (io.advance (length bs) r, refl, valid', e' ∙ ap (drop (length bs)) e ∙ drop-append bs rest)

  -- A read of as many bytes as `bs` has, from a reader whose next bytes those are.
  pub read-Reads :
      (r : R) (bs rest : List ℕ)
      → laws.IsValid r
      → 0 < length bs
      → laws.remaining r ≡ bs ++ rest
      → Reads laws (io.read (length bs)) r bs rest
  read-Reads r bs rest valid pos e =
      let (r', got, valid', left) =
        laws.read_lem r (length bs) valid pos (omega (arith, ap length e, length-append bs rest)) in
      (
        r',
        got
            ∙ ap (λ t. (r', ok (take (length bs) t))) e
            ∙ ap (λ t. (r', ok t)) (take-append bs rest),
        valid',
        left ∙ ap (drop (length bs)) e ∙ drop-append bs rest,
      )

  pub decode_by_read-Reads :
      (k v : ℕ) (rest : List ℕ) (r : R)
      → k ≤ 16
      → v < 256 ^ k
      → laws.IsValid r
      → laws.remaining r ≡ encoding k v ++ rest
      → Reads laws (decode_by_read k) r v rest
  unfolding decode_by_read
  decode_by_read-Reads k v rest r hk fits valid e = elim (Bool-cases (ltb v 128)) [
    | inl small ↦
        let (r', got, valid', left) =
          read-Reads r (v ∷ []) rest valid (omega arith)
            (rw (encoding_small k v (omega tests)) at e) in
        (r', rw (got, small_flag v (omega tests)), valid', left)
    | inr large ↦
        let big : 128 ≤ v = omega tests in
        let n = byte_count k v in
        let hn : n < 128 = omega (arith, byte_count-le k v) in
        let (r', got, valid', left) =
          read-Reads r ((128 + n) ∷ []) (le_bytes n v ++ rest) valid (omega arith)
            (rw (encoding_large k v big) at e) in
        let (r'', got', valid'', left') =
          read-Reads r' (le_bytes n v) rest valid'
            (omega (arith, length-le_bytes n v, byte_count_pos k v (omega arith) fits)) left in
        let one_read : io.read n r' ≡ (r'', ok (le_bytes n v)) =
          ap (λ j. io.read j r') (sym (length-le_bytes n v)) ∙ got' in
        (
          r'',
          rw (
            got,
            large_flag n hn,
            large_count n hn,
            le→ltb k n (byte_count-le k v),
            one_read,
            of_le-le_bytes n v (byte_count_fits k v fits),
          ),
          valid'',
          left',
        )
  ]

  -- From a valid reader whose next bytes are the encoding of a value of `k` bytes, for `k` up to
  -- 16, the decoder of `k` bytes returns the value and leaves what follows the encoding.
  pub decode_word-Reads :
      (k v : ℕ) (rest : List ℕ) (r : R)
      → k ≤ 16
      → v < 256 ^ k
      → laws.IsValid r
      → laws.remaining r ≡ encoding k v ++ rest
      → Reads laws (decode_word k) r v rest
  unfolding decode_word
  decode_word-Reads k v rest r hk fits valid e = elim (laws.buf_lem r valid) [
    | inl unlent ↦ rw unlent (decode_by_read-Reads k v rest r hk fits valid e)
    | inr lent ↦
        let (r', got, valid', left) = take_value-Reads r v (encoding k v) rest valid lent e in
        (r', rw (lent, e, decode_from_slice-encoding k v rest r hk fits) got, valid', left)
  ]
