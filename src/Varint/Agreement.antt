-- ===== src/Varint/Agreement.antt =====
-- The generic `encode_varint` and `decode_varint` of src/varint/lencode.rs, over any unsigned type
-- up to 32 bytes (U256): they write and read the same bytes as the fixed-width functions.
use lencode.Prelude.{
  ℕ, zero, suc, ◌+◌, ◌/◌, ◌%◌, ◌^◌, ◌≤◌, ◌<◌, ◌≡◌, refl, sym, ap, ◌∙◌, arith, ltb, ◌==◌, inl, inr,
  Bool-cases, tests, length, pos→ne_zero, one-add, lt→ltb, le→ltb, eq→==, true, false,
}
use lencode.Prelude.Bits.{low_seven, with_top_bit}
use lencode.Prelude.Pow.{Needs, Needs-unique, pow256-suc}
use lencode.Io.{pure, ◌>>=◌, Write, WriteLaws, Appends}
use lencode.Io.Store.{put, Stores-self, Appends-through}
use lencode.Varint.Bytes.{le_bytes, byte_count, byte_count-Needs, length-le_bytes, take-le_bytes}
use lencode.Varint.Payload.{byte_count-le}
use lencode.Varint.Encoding.{
  encoding, encoding_small, encoding_large, length-encoding_large, length-encoding-le,
  length-encoding_pos,
}
use lencode.Varint.Generic.{
  byte_at, trim, length_byte, varint_to_slice, varint_by_write, encode_varint,
}

-- The highest of `n + 1` bytes is zero exactly when `n` bytes hold the value.
top_byte :
    (n k v : ℕ)
    → n < k
    → v < 256 ^ suc n
    → (byte_at (le_bytes k v) n == 0 ≡ true → v < 256 ^ n)
      × (byte_at (le_bytes k v) n == 0 ≡ false → 256 ^ n ≤ v)
unfolding le_bytes
top_byte n zero v h fits = absurd (omega arith)
top_byte zero (suc k) v h fits = (λ e. ground arith, λ e. ground arith)
top_byte (suc n) (suc k) v h fits =
    let (lo, hi) = top_byte n k (v / 256) (omega arith) (omega (arith, pow256-suc (suc n))) in
    (λ e. omega (arith, pow256-suc n, lo e), λ e. omega (arith, pow256-suc n, hi e))

trim-Needs :
    (k v n : ℕ)
    → 0 < v
    → suc n ≤ k
    → v < 256 ^ suc n
    → (m : ℕ) × (trim (le_bytes k v) (suc n) ≡ suc m) × Needs v m
unfolding trim
trim-Needs k v zero pos h fits = (0, refl, record { fits = fits; least = pos })
trim-Needs k v (suc n) pos h fits = elim (Bool-cases (byte_at (le_bytes k v) (suc n) == 0)) [
  | inl clear ↦
      rw clear (trim-Needs k v n pos (omega arith) ((top_byte (suc n) k v h fits).0 clear))
  | inr set ↦ (suc n, rw set, record { fits = fits; least = (top_byte (suc n) k v h fits).1 set })
]

-- The loop that drops zero bytes from the top counts the bytes of the value.
pub trim-eq-byte_count :
    (k v : ℕ) → 0 < v → v < 256 ^ k → trim (le_bytes k v) (length (le_bytes k v)) ≡ byte_count k v
trim-eq-byte_count zero v pos fits = absurd (omega arith)
trim-eq-byte_count (suc k) v pos fits =
    let (n, e, p) = trim-Needs (suc k) v k pos (omega arith) fits in
    let (m, f, q) = byte_count-Needs (suc k) v pos fits in
    rw length-le_bytes (e ∙ ap suc (Needs-unique v n m p q) ∙ sym f)

length_byte_lem : (n : ℕ) → n < 128 → length_byte n ≡ 128 + n
unfolding length_byte
length_byte_lem n h =
    let e : n % 256 ≡ n = omega arith in
    let f : n % 128 ≡ n = omega arith in rw (e, low_seven n (omega arith), f) (with_top_bit n h)

low_byte : (k v : ℕ) → v < 128 → v < 256 ^ k → byte_at (le_bytes k v) 0 ≡ v
unfolding le_bytes
low_byte zero v h fits = omega arith
low_byte (suc k) v h fits = omega arith

module _ {W : Type 0} ⦃io : Write W⦄ where
  varint_to_slice_lem :
      (k v len : ℕ) (w : W)
      → k < 128
      → v < 256 ^ k
      → length (encoding k v) ≤ len
      → varint_to_slice k v len w ≡ put (encoding k v) (length (encoding k v)) w
  unfolding varint_to_slice
  varint_to_slice_lem k v len w hk fits room = elim (Bool-cases (ltb v 128)) [
    | inl small ↦
        let s : v < 128 = omega tests in
        rw (
          eq→== (v / 2 ^ 7) 0 (omega arith),
          encoding_small k v s,
          pos→ne_zero len (omega (arith, room, length-encoding_pos k v)),
          low_byte k v s fits,
        )
    | inr large ↦
        let big : 128 ≤ v = omega tests in
        let size = length-encoding_large k v big in
        let n = byte_count k v in
        rw (
          pos→ne_zero (v / 2 ^ 7) (omega arith),
          trim-eq-byte_count k v (omega arith) fits,
          le→ltb len (1 + n) (omega (arith, size)),
          length_byte_lem n (omega (arith, byte_count-le k v)),
          take-le_bytes n k v (byte_count-le k v),
          encoding_large k v big,
          length-le_bytes,
          one-add,
        )
  ]

  varint_by_write_lem :
      (k v : ℕ) (w : W)
      → k ≤ 32
      → v < 256 ^ k
      → varint_by_write k v w
        ≡ (io.write (encoding k v) >>= λ written. pure (length (encoding k v))) w
  unfolding varint_by_write
  varint_by_write_lem k v w hk fits = elim (Bool-cases (ltb v 128)) [
    | inl small ↦
        let s : v < 128 = omega tests in
        rw (eq→== (v / 2 ^ 7) 0 (omega arith), encoding_small k v s, low_byte k v s fits)
    | inr large ↦
        let big : 128 ≤ v = omega tests in
        let n = byte_count k v in
        rw (
          pos→ne_zero (v / 2 ^ 7) (omega arith),
          trim-eq-byte_count k v (omega arith) fits,
          lt→ltb n 33 (omega (arith, byte_count-le k v)),
          length_byte_lem n (omega (arith, byte_count-le k v)),
          take-le_bytes n k v (byte_count-le k v),
          encoding_large k v big,
          length-le_bytes,
          one-add,
        )
  ]

  -- On a writer with room for it, the generic `encode_varint`, at an integer type of up to 16
  -- bytes, appends the same encoding as the fixed-width encoders for any value of the type,
  -- returns its length, and leaves the rest of the room.
  pub encode_varint-Appends :
      (laws : WriteLaws io) (k v m : ℕ) (w : W)
      → k ≤ 16
      → v < 256 ^ k
      → laws.Room w (length (encoding k v) + m)
      → Appends laws (encode_varint k v) w (encoding k v) m
  unfolding encode_varint
  encode_varint-Appends laws k v m w hk fits room =
      Appends-through laws (encoding k v) m w (varint_to_slice k v) (varint_by_write k v)
        (length-encoding_pos k v) room
        (λ len w' h.
          let all : length (encoding k v) ≤ len = omega (arith, length-encoding-le k v) in
          (
            encoding k v,
            varint_to_slice_lem k v len w' (omega arith) fits all,
            Stores-self (encoding k v) len all,
          ))
        (λ w'. varint_by_write_lem k v w' (omega arith) fits)
