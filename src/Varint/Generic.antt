-- ===== src/Varint/Generic.antt =====
-- src/varint/lencode.rs: `impl VarintEncodingScheme for Lencode`, over an integer type of `k` bytes
-- (`I::BYTE_LENGTH`), on a little-endian target.
use lencode.Prelude.{
  ℕ, zero, suc, ◌+◌, ◌-◌, ◌/◌, ◌%◌, ◌^◌, ltb, ◌==◌, if◌then◌else◌, bit_and, bit_or, Bool, true,
  false, not, none, some, List, [], ◌∷◌, length, take, drop, overwrite, replicate, get_elem?,
}
use mathlib.Core.Option
use lencode.Io.{M, Read, Write, pure, throw, crash, ◌>>=◌}
use lencode.Io.{writer_out_of_space, reader_out_of_data, invalid_data, slice_index, out_of_bounds}
use lencode.Io.Store.{put}
use lencode.Varint.Bytes.{le_bytes, of_le}
use lencode.Varint.Fixed.{first_byte, take_value}

-- `get_unchecked(i)`, within bounds at every call.
abbrev pub byte_at : List ℕ → ℕ → ℕ
byte_at bs i = Option.get_or (get_elem? bs i) 0

-- `while n > 1 && bytes[n - 1] == 0 { n -= 1 }`
unfoldable pub trim : List ℕ → ℕ → ℕ
trim bs zero = 0
trim bs (suc zero) = 1
trim bs (suc (suc n)) = if byte_at bs (suc n) == 0 then trim bs (suc n) else suc (suc n)

-- `0x80 | (n as u8 & 0x7F)`
unfoldable pub length_byte : ℕ → ℕ
length_byte n = bit_or 0x80 (bit_and (n % 256) 0x7f)

-- `val as u8`
abbrev pub bool_byte : Bool → ℕ
bool_byte false = 0
bool_byte true = 1

module _ {W : Type 0} ⦃io : Write W⦄ where
  unfoldable pub varint_to_slice : ℕ → ℕ → ℕ → M W ℕ
  unfolding put trim length_byte
  varint_to_slice k val len =
      let bytes = le_bytes k val in
      let n = trim bytes (length bytes) in
      if val / 2 ^ 7 == 0
      then (if len == 0 then throw writer_out_of_space else put (byte_at bytes 0 ∷ []) 1)
      else (if ltb len (1 + n)
          then throw writer_out_of_space
          else put (length_byte n ∷ take n bytes) (1 + n))

  -- Up to 32 payload bytes go out in one call of `write`, and more in two.
  unfoldable pub varint_by_write : ℕ → ℕ → M W ℕ
  unfolding trim length_byte
  varint_by_write k val =
      let bytes = le_bytes k val in
      let n = trim bytes (length bytes) in
      if val / 2 ^ 7 == 0
      then (io.write (byte_at bytes 0 ∷ []) >>= λ written. pure 1)
      else if ltb n 33
      then (io.write (length_byte n ∷ take n bytes) >>= λ written. pure (1 + n))
      else (io.write (length_byte n ∷ []) >>= λ written.
          io.write (take n bytes) >>= λ more. pure (1 + n))

  unfoldable pub encode_varint : ℕ → ℕ → M W ℕ
  unfolding varint_to_slice varint_by_write
  encode_varint k val = do
    dst ← io.buf_mut
    elim dst [ some len ↦ varint_to_slice k val len | none ↦ varint_by_write k val ]

  unfoldable pub encode_bool : Bool → M W ℕ
  unfolding put
  encode_bool val = do
    dst ← io.buf_mut
    elim dst [
      | some len ↦ if len == 0 then throw writer_out_of_space else put (bool_byte val ∷ []) 1
      | none ↦ io.write (bool_byte val ∷ [])
    ]

module _ {R : Type 0} ⦃io : Read R⦄ where
  -- The payload is copied over a value of `k` bytes without a check of `n` against `k`.
  unfoldable pub varint_from_slice : ℕ → List ℕ → M R ℕ
  unfolding take_value first_byte
  varint_from_slice k slice =
      let first = first_byte slice in
      let n = bit_and first 0x7f in
      if length slice == 0
      then throw reader_out_of_data
      else if bit_and first 0x80 == 0
      then take_value 1 first
      else if ltb (length slice) (1 + n)
      then throw reader_out_of_data
      else if ltb k n
      then crash out_of_bounds
      else take_value (1 + n) (of_le (take n (drop 1 slice)))

  -- The value's own `k` bytes are the buffer: the first byte is read into the lowest, and the
  -- payload over it.
  unfoldable pub after_first_of : ℕ → ℕ → M R ℕ
  after_first_of k first =
      let n = bit_and first 0x7f in
      let cells = first ∷ replicate (k - 1) 0 in
      if bit_and first 0x80 == 0
      then pure (of_le cells)
      else if ltb k n
      then crash slice_index
      else (io.read n >>= λ bytes. pure (of_le (overwrite bytes cells)))

  unfoldable pub varint_by_read : ℕ → M R ℕ
  unfolding after_first_of first_byte
  varint_by_read k = do got ← io.read 1; after_first_of k (first_byte got)

  unfoldable pub decode_varint : ℕ → M R ℕ
  unfolding varint_from_slice varint_by_read
  decode_varint k = do
    slice ← io.buf
    elim slice [ some s ↦ varint_from_slice k s | none ↦ varint_by_read k ]

  -- A byte of a `bool`: above 1 it is invalid.
  unfoldable pub bool_of_byte : ℕ → M R Bool
  bool_of_byte byte = if ltb 1 byte then throw invalid_data else pure (not (byte == 0))

  unfoldable pub decode_bool : M R Bool
  unfolding first_byte bool_of_byte
  decode_bool = do
    slice ← io.buf
    elim slice [
      | some s ↦
          if length s == 0
          then throw reader_out_of_data
          else (λ r. bool_of_byte (first_byte s) (io.advance 1 r))
      | none ↦ (io.read 1 >>= λ got. bool_of_byte (first_byte got))
    ]
