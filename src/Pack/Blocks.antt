-- ===== src/Pack/Blocks.antt =====
-- A number of bytes that both sides know: `Pack` and `Encode` for `[u8; N]` in src/pack.rs and
-- src/lib.rs, `Pack` for the numbers, and `Encode` and `Decode` for `f32`, `f64`, `u8` and `i8` in
-- src/lib.rs and src/varint/lencode.rs.
use lencode.Prelude.{ℕ, leb, ltb, ◌==◌, if◌then◌else◌, none, some, List, [], ◌∷◌, length, take}
use lencode.Io.{M, ok, Read, Write, pure, throw, ◌>>=◌, writer_out_of_space, reader_out_of_data}
use lencode.Io.Store.{put}
use lencode.Varint.Bytes.{le_bytes, of_le}
use lencode.Varint.Fixed.{first_byte}
use lencode.Bytes.Vec.{read_loop}

module _ {W : Type 0} ⦃io : Write W⦄ where
  -- `[u8; N]::pack`: into the lent slice if it is long enough, and else through `write`.
  unfoldable pub write_block : List ℕ → M W ℕ
  unfolding put
  write_block bytes = do
    dst ← io.buf_mut
    elim dst [
      | some len ↦ if leb (length bytes) len then put bytes (length bytes) else io.write bytes
      | none ↦ io.write bytes
    ]

  -- The bytes of a float: a lent slice that is too short is an error.
  unfoldable pub write_fixed : List ℕ → M W ℕ
  unfolding put
  write_fixed bytes = do
    dst ← io.buf_mut
    elim dst [
      | some len ↦
          if ltb len (length bytes) then throw writer_out_of_space else put bytes (length bytes)
      | none ↦ io.write bytes
    ]

  unfoldable pub encode_f32 : ℕ → M W ℕ
  unfolding write_fixed
  encode_f32 bits = write_fixed (le_bytes 4 bits)

  unfoldable pub encode_f64 : ℕ → M W ℕ
  unfolding write_fixed
  encode_f64 bits = write_fixed (le_bytes 8 bits)

  -- `u8` and, by its pattern, `i8`: the byte itself.
  unfoldable pub encode_u8 : ℕ → M W ℕ
  unfolding put
  encode_u8 byte = do
    dst ← io.buf_mut
    elim dst [
      | some len ↦ if len == 0 then throw writer_out_of_space else put (byte ∷ []) 1
      | none ↦ io.write (byte ∷ [])
    ]

  unfoldable pub encode_i8 : ℕ → M W ℕ
  unfolding put
  encode_i8 pattern = do
    dst ← io.buf_mut
    elim dst [
      | some len ↦ if len == 0 then throw writer_out_of_space else put (pattern ∷ []) 1
      | none ↦ io.write (pattern ∷ [])
    ]

  -- `pack` of a number of `k` bytes.
  unfoldable pub pack_word : ℕ → ℕ → M W ℕ
  pack_word k val = io.write (le_bytes k val)

module _ {R : Type 0} ⦃io : Read R⦄ where
  -- `[u8; N]::unpack`. The loop reads until the array is full.
  unfoldable pub read_block : ℕ → M R (List ℕ)
  unfolding read_loop
  read_block n = do
    slice ← io.buf
    elim slice [
      | some s ↦
          if leb n (length s)
          then (λ r. (io.advance n r, ok (take n s)))
          else throw reader_out_of_data
      | none ↦ read_loop n n
    ]

  -- One call of `read` has to bring all the bytes.
  unfoldable pub read_once : ℕ → M R (List ℕ)
  read_once n = io.read n >>= λ got. if length got == n then pure got else throw reader_out_of_data

  unfoldable pub read_fixed : ℕ → M R (List ℕ)
  unfolding read_once
  read_fixed n = do
    slice ← io.buf
    elim slice [
      | some s ↦
          if ltb (length s) n
          then throw reader_out_of_data
          else (λ r. (io.advance n r, ok (take n s)))
      | none ↦ read_once n
    ]

  unfoldable pub decode_f32 : M R ℕ
  unfolding read_fixed
  decode_f32 = read_fixed 4 >>= λ val. pure (of_le val)

  unfoldable pub decode_f64 : M R ℕ
  unfolding read_fixed
  decode_f64 = read_fixed 8 >>= λ val. pure (of_le val)

  unfoldable pub decode_u8 : M R ℕ
  unfolding first_byte
  decode_u8 = do
    slice ← io.buf
    elim slice [
      | some s ↦
          if length s == 0
          then throw reader_out_of_data
          else (λ r. (io.advance 1 r, ok (first_byte s)))
      | none ↦ (io.read 1 >>= λ got. pure (first_byte got))
    ]

  unfoldable pub decode_i8 : M R ℕ
  unfolding first_byte
  decode_i8 = do
    slice ← io.buf
    elim slice [
      | some s ↦
          if length s == 0
          then throw reader_out_of_data
          else (λ r. (io.advance 1 r, ok (first_byte s)))
      | none ↦ (io.read 1 >>= λ got. pure (first_byte got))
    ]

  -- `unpack` of a number of `k` bytes.
  unfoldable pub unpack_word : ℕ → M R ℕ
  unfolding read_once
  unpack_word k = read_once k >>= λ tmp. pure (of_le tmp)
