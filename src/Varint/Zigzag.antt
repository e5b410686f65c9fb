-- ===== src/Varint/Zigzag.antt =====
-- src/varint.rs: ZigZag coding of signed integers, and the signed encoders and decoders built on it
-- (src/varint/lencode.rs, and `impl Decode` of the signed types in src/lib.rs). A signed value of
-- `bits` bits is its two's-complement pattern, below `2 ^ bits`: the casts `as` keep the pattern.
use lencode.Prelude.{
  ℕ, suc, ◌+◌, ◌-◌, ◌*◌, ◌/◌, ◌%◌, ◌^◌, ◌<◌, ◌≡◌, refl, arith, ltb, if◌then◌else◌, bit_xor, inl,
  inr, Bool-cases, tests, le→ltb, lt→ltb,
}
use lencode.Prelude.Pow.{pow_double, pow2_pos}
use lencode.Prelude.Xor.{xor_zero, xor_ones}
use native.Mathlib.Nat.{mod-eq_of_lt, mod_self}
use lencode.Io.{M, Read, Write, pure, ◌>>=◌}
use lencode.Varint.Fixed.{
  encode_varint_u16, encode_varint_u32, encode_varint_u64, encode_varint_u128, decode_varint_u16,
  decode_varint_u32, decode_varint_u64, decode_varint_u128,
}

-- `value << 1`
unfoldable pub shl_one : ℕ → ℕ → ℕ
shl_one bits value = value * 2 % 2 ^ bits

-- `value >> (bits - 1)`, arithmetic: all ones for a negative value.
unfoldable pub sign_mask : ℕ → ℕ → ℕ
sign_mask bits value = if ltb value (2 ^ (bits - 1)) then 0 else 2 ^ bits - 1

-- Two's-complement negation.
unfoldable pub negate : ℕ → ℕ → ℕ
negate bits value = (2 ^ bits - value) % 2 ^ bits

unfoldable pub zigzag_encode : ℕ → ℕ → ℕ
unfolding shl_one sign_mask
zigzag_encode bits value = bit_xor (shl_one bits value) (sign_mask bits value)

-- `value & U::ONE` is `value % 2`.
unfoldable pub zigzag_decode : ℕ → ℕ → ℕ
unfolding negate
zigzag_decode bits value = bit_xor (value / 2 ^ 1) (negate bits (value % 2))

module _ {W : Type 0} ⦃io : Write W⦄ where
  unfoldable pub encode_varint_i16 : ℕ → M W ℕ
  encode_varint_i16 val = encode_varint_u16 (zigzag_encode 16 val)

  unfoldable pub encode_varint_i32 : ℕ → M W ℕ
  encode_varint_i32 val = encode_varint_u32 (zigzag_encode 32 val)

  unfoldable pub encode_varint_i64 : ℕ → M W ℕ
  encode_varint_i64 val = encode_varint_u64 (zigzag_encode 64 val)

  unfoldable pub encode_varint_i128 : ℕ → M W ℕ
  encode_varint_i128 val = encode_varint_u128 (zigzag_encode 128 val)

module _ {R : Type 0} ⦃io : Read R⦄ where
  unfoldable pub decode_i16 : M R ℕ
  decode_i16 = decode_varint_u16 >>= λ value. pure (zigzag_decode 16 value)

  unfoldable pub decode_i32 : M R ℕ
  decode_i32 = decode_varint_u32 >>= λ value. pure (zigzag_decode 32 value)

  unfoldable pub decode_i64 : M R ℕ
  decode_i64 = decode_varint_u64 >>= λ value. pure (zigzag_decode 64 value)

  unfoldable pub decode_i128 : M R ℕ
  decode_i128 = decode_varint_u128 >>= λ value. pure (zigzag_decode 128 value)

-- An integer; `negsuc n` is -(n + 1).
pub data ℤ : Type 0 where
  pos : ℕ → ℤ
  negsuc : ℕ → ℤ

-- The integer fits `n + 1` bits.
abbrev pub InRange : ℕ → ℤ → Type 0
InRange n (pos m) = m < 2 ^ n
InRange n (negsuc m) = m < 2 ^ n

-- The two's-complement pattern of an integer.
unfoldable pub pattern_of : ℕ → ℤ → ℕ
pattern_of bits (pos m) = m
pattern_of bits (negsuc m) = 2 ^ bits - (m + 1)

-- 0, -1, 1, -2, 2, … in order.
unfoldable pub zigzag : ℤ → ℕ
zigzag (pos m) = 2 * m
zigzag (negsuc m) = 2 * m + 1

-- The arithmetic behind the four cases, over half the modulus.
wrap_negative : (p m : ℕ) → m < p → (2 * p - (m + 1)) * 2 % (2 * p) ≡ 2 * p - (2 * m + 2)
wrap_negative p m h = grind arith

encode_pos : (n m : ℕ) → m < 2 ^ n → zigzag_encode (suc n) m ≡ 2 * m
unfolding zigzag_encode
encode_pos n m h =
    let e : suc n - 1 ≡ n = omega arith in
    let f : m * 2 ≡ 2 * m = omega arith in
    rw (e, lt→ltb m (2 ^ n) h, xor_zero, f) (mod-eq_of_lt (omega (arith, pow_double n)))

encode_negsuc : (n m : ℕ) → m < 2 ^ n → zigzag_encode (suc n) (2 ^ suc n - (m + 1)) ≡ 2 * m + 1
unfolding zigzag_encode
encode_negsuc n m h =
    let e : suc n - 1 ≡ n = omega arith in
    let x : ℕ = 2 ^ suc n - (m + 1) in
    let wrapped : x * 2 % 2 ^ suc n ≡ 2 ^ suc n - (2 * m + 2) =
      rw (pow_double n) (wrap_negative (2 ^ n) m h) in
    rw
      (
        e,
        le→ltb x (2 ^ n) (omega (arith, pow_double n)),
        wrapped,
        xor_ones (suc n) (2 ^ suc n - (2 * m + 2)) (omega (arith, pow2_pos (suc n))),
      )
      (omega (arith, pow_double n))

decode_even : (n m : ℕ) → zigzag_decode (suc n) (2 * m) ≡ m
unfolding zigzag_decode
decode_even n m =
    let half : 2 * m / 2 ≡ m = omega arith in
    let even : 2 * m % 2 ≡ 0 = omega arith in
    let none : 2 ^ suc n - 0 ≡ 2 ^ suc n = omega arith in rw (half, even, none, mod_self, xor_zero)

decode_odd : (n m : ℕ) → m < 2 ^ n → zigzag_decode (suc n) (2 * m + 1) ≡ 2 ^ suc n - (m + 1)
unfolding zigzag_decode
decode_odd n m h =
    let half : (2 * m + 1) / 2 ≡ m = omega arith in
    let odd : (2 * m + 1) % 2 ≡ 1 = omega arith in
    let ones : (2 ^ suc n - 1) % 2 ^ suc n ≡ 2 ^ suc n - 1 =
      mod-eq_of_lt (omega (arith, pow2_pos (suc n))) in
    rw (half, odd, ones, xor_ones (suc n) m (omega (arith, pow_double n))) (omega arith)

-- For every integer of `n + 1` bits, `zigzag_encode` of its pattern is its place in the order
-- 0, -1, 1, -2, 2, …, and `zigzag_decode` of that place is the pattern.
pub zigzag-pattern :
    (n : ℕ) (z : ℤ)
    → InRange n z
    → (zigzag_encode (suc n) (pattern_of (suc n) z) ≡ zigzag z)
      × (zigzag_decode (suc n) (zigzag z) ≡ pattern_of (suc n) z)
      × (zigzag z < 2 ^ suc n)
unfolding zigzag pattern_of
zigzag-pattern n (pos m) h = (encode_pos n m h, decode_even n m, omega (arith, pow_double n))
zigzag-pattern n (negsuc m) h = (encode_negsuc n m h, decode_odd n m h, omega (arith, pow_double n))

-- Every pattern is that of an integer.
pattern_of_cases : (n x : ℕ) → x < 2 ^ suc n → (z : ℤ) × InRange n z × (x ≡ pattern_of (suc n) z)
unfolding pattern_of
pattern_of_cases n x h = elim (Bool-cases (ltb x (2 ^ n))) [
  | inl low ↦ (pos x, omega tests, refl)
  | inr high ↦ (negsuc (2 ^ suc n - 1 - x), omega (tests, pow_double n), omega arith)
]

-- Decoding an encoded pattern of `n + 1` bits gives it back, the least integer included, and the
-- code is of `n + 1` bits too.
pub zigzag_decode-zigzag_encode :
    (n x : ℕ)
    → x < 2 ^ suc n
    → (zigzag_decode (suc n) (zigzag_encode (suc n) x) ≡ x) × (zigzag_encode (suc n) x < 2 ^ suc n)
zigzag_decode-zigzag_encode n x h =
    let (z, range, e) = pattern_of_cases n x h in
    let (enc, dec, bound) = zigzag-pattern n z range in rw (e, enc) (dec, bound)
