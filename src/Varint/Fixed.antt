-- ===== src/Varint/Fixed.antt =====
-- src/varint/lencode.rs: `encode_varint_u16` to `encode_varint_u128` and the decoders. The Rust
-- functions repeat one text at four widths: it is written here once, over the width `k` in bytes,
-- and the named functions are its instances.
use lencode.Prelude.{
  ℕ, zero, suc, ◌+◌, ◌-◌, ◌*◌, ◌/◌, ◌%◌, ◌^◌, leb, ltb, ◌==◌, if◌then◌else◌, bit_and, bit_or, none,
  some, List, [], ◌∷◌, ◌++◌, length, take, drop,
}
use lencode.Io.{M, ok, Read, Write, pure, throw, crash, ◌>>=◌}
use lencode.Io.{writer_out_of_space, reader_out_of_data, slice_index, shift_overflow, out_of_bounds}
use lencode.Io.Store.{put}
use lencode.Varint.Bytes.{le_bytes, of_le}

-- `leading_zeros` of a `w`-bit value.
unfoldable pub leading_zeros : ℕ → ℕ → ℕ
leading_zeros zero v = 0
leading_zeros (suc w) v = if ltb v (2 ^ w) then suc (leading_zeros w v) else 0

-- `((w - val.leading_zeros() + 7) >> 3) as usize`, at `w = 8 * k`
unfoldable pub payload_len : ℕ → ℕ → ℕ
unfolding leading_zeros
payload_len k v = (8 * k - leading_zeros (8 * k) v + 7) / 8

-- `get_unchecked(0)`, and a one-byte buffer of zero that a read may fill.
unfoldable pub first_byte : List ℕ → ℕ
first_byte [] = 0
first_byte (b ∷ bs) = b

module _ {W : Type 0} ⦃io : Write W⦄ where
  -- Into a slice of `len` spare bytes. With room for every width all `k` bytes are stored, and
  -- only the payload is kept.
  unfoldable pub encode_to_slice : ℕ → ℕ → ℕ → M W ℕ
  unfolding payload_len put
  encode_to_slice k val len =
      let n = payload_len k val in
      if leb (k + 1) len
      then (if leb val 0x7f then put (val ∷ []) 1 else put (bit_or 0x80 n ∷ le_bytes k val) (1 + n))
      else (if leb val 0x7f
          then (if len == 0 then throw writer_out_of_space else put (val ∷ []) 1)
          else (if ltb len (1 + n)
              then throw writer_out_of_space
              else put (bit_or 0x80 n ∷ take n (le_bytes k val)) (1 + n)))

  -- Through `write`, for a writer that lends no slice.
  unfoldable pub encode_by_write : ℕ → ℕ → M W ℕ
  unfolding payload_len
  encode_by_write k val =
      let n = payload_len k val in
      if leb val 0x7f
      then (io.write (val ∷ []) >>= λ written. pure 1)
      else (io.write (take (1 + n) (bit_or 0x80 n ∷ le_bytes k val)) >>= λ written. pure (1 + n))

  unfoldable pub encode_word : ℕ → ℕ → M W ℕ
  unfolding encode_to_slice encode_by_write
  encode_word k val = do
    dst ← io.buf_mut
    elim dst [ some len ↦ encode_to_slice k val len | none ↦ encode_by_write k val ]

  unfoldable pub encode_varint_u16 : ℕ → M W ℕ
  encode_varint_u16 = encode_word 2

  unfoldable pub encode_varint_u32 : ℕ → M W ℕ
  encode_varint_u32 = encode_word 4

  unfoldable pub encode_varint_u64 : ℕ → M W ℕ
  encode_varint_u64 = encode_word 8

  -- The two halves of `val` are stored one behind the other.
  unfoldable pub encode_to_slice_u128 : ℕ → ℕ → M W ℕ
  unfolding payload_len put
  encode_to_slice_u128 val len =
      let n = payload_len 16 val in
      let halves = le_bytes 8 (val % 2 ^ 64) ++ le_bytes 8 (val / 2 ^ 64) in
      if leb 17 len
      then (if leb val 0x7f then put (val ∷ []) 1 else put (bit_or 0x80 n ∷ halves) (1 + n))
      else (if leb val 0x7f
          then (if len == 0 then throw writer_out_of_space else put (val ∷ []) 1)
          else (if ltb len (1 + n)
              then throw writer_out_of_space
              else put (bit_or 0x80 n ∷ take n (le_bytes 16 val)) (1 + n)))

  unfoldable pub encode_varint_u128 : ℕ → M W ℕ
  unfolding encode_to_slice_u128 encode_by_write
  encode_varint_u128 val = do
    dst ← io.buf_mut
    elim dst [ some len ↦ encode_to_slice_u128 val len | none ↦ encode_by_write 16 val ]

module _ {R : Type 0} ⦃io : Read R⦄ where
  -- `advance`, then the value.
  unfoldable pub take_value : ℕ → ℕ → M R ℕ
  take_value n val r = (io.advance n r, ok val)

  -- From a slice that is shorter than the longest encoding. The copy goes into `k` bytes of zero.
  unfoldable pub decode_from_short_slice : ℕ → List ℕ → M R ℕ
  unfolding take_value first_byte
  decode_from_short_slice k slice =
      let first = first_byte slice in
      let n = bit_and first 0x7f in
      if length slice == 0
      then throw reader_out_of_data
      else if bit_and first 0x80 == 0
      then take_value 1 first
      else if ltb (length slice) (1 + n)
      then throw reader_out_of_data
      else if ltb k n
      then crash out_of_bounds
      else take_value (1 + n) (of_le (take n (drop 1 slice)))

  -- From a slice. With `k + 1` bytes there, `k` bytes are loaded at once and masked by
  -- `(1 << (n << 3)) - 1`; `n` itself is not checked against the slice.
  unfoldable pub decode_from_slice : ℕ → List ℕ → M R ℕ
  unfolding take_value first_byte decode_from_short_slice
  decode_from_slice k slice =
      let first = first_byte slice in
      let n = bit_and first 0x7f in
      let raw = of_le (take k (drop 1 slice)) in
      if leb (k + 1) (length slice)
      then (if bit_and first 0x80 == 0
          then take_value 1 first
          else take_value (1 + n) (if ltb n k then raw % 2 ^ (8 * n) else raw))
      else decode_from_short_slice k slice

  -- Through `read`: one byte, then the payload into the first `n` of `k` bytes of zero.
  unfoldable pub after_first : ℕ → ℕ → M R ℕ
  after_first k first =
      let n = bit_and first 0x7f in
      if bit_and first 0x80 == 0
      then pure first
      else if ltb k n
      then crash slice_index
      else (io.read n >>= λ bytes. pure (of_le bytes))

  unfoldable pub decode_by_read : ℕ → M R ℕ
  unfolding first_byte after_first
  decode_by_read k = do got ← io.read 1; after_first k (first_byte got)

  unfoldable pub decode_word : ℕ → M R ℕ
  unfolding decode_from_slice decode_by_read
  decode_word k = do
    slice ← io.buf
    elim slice [ some s ↦ decode_from_slice k s | none ↦ decode_by_read k ]

  unfoldable pub decode_varint_u16 : M R ℕ
  decode_varint_u16 = decode_word 2

  unfoldable pub decode_varint_u32 : M R ℕ
  decode_varint_u32 = decode_word 4

  unfoldable pub decode_varint_u64 : M R ℕ
  decode_varint_u64 = decode_word 8

  -- Sixteen bytes are loaded as two halves, and masked by `!0 >> ((16 - n) << 3)`: at `n = 0` the
  -- shift is by all 128 bits.
  unfoldable pub decode_from_slice_u128 : List ℕ → M R ℕ
  unfolding take_value first_byte decode_from_short_slice
  decode_from_slice_u128 slice =
      let first = first_byte slice in
      let n = bit_and first 0x7f in
      let lo = of_le (take 8 (drop 1 slice)) in
      let hi = of_le (take 8 (drop 9 slice)) in
      let raw = lo + hi * 2 ^ 64 in
      if leb 17 (length slice)
      then (if bit_and first 0x80 == 0
          then take_value 1 first
          else if n == 0
          then crash shift_overflow
          else take_value (1 + n) (if ltb n 16 then raw % 2 ^ (8 * n) else raw))
      else decode_from_short_slice 16 slice

  unfoldable pub decode_varint_u128 : M R ℕ
  unfolding decode_from_slice_u128 decode_by_read
  decode_varint_u128 = do
    slice ← io.buf
    elim slice [ some s ↦ decode_from_slice_u128 s | none ↦ decode_by_read 16 ]
