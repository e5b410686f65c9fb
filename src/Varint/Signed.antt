-- ===== src/Varint/Signed.antt =====
-- The signed encoders and decoders of src/varint/lencode.rs and src/lib.rs, by integers.
use lencode.Prelude.{ℕ, ◌+◌, ◌≡◌, ap, arith, List, ◌++◌, length}
use lencode.Io.{M, ok, pure, ◌>>=◌, Read, Write, ReadLaws, WriteLaws, Reads, Appends}
use lencode.Io.Context.{Reads-bind}
use lencode.Varint.Encoding.{encoding}
use lencode.Varint.Fixed.{
  encode_varint_u16, encode_varint_u32, encode_varint_u64, decode_varint_u16, decode_varint_u32,
  decode_varint_u64, decode_varint_u128,
}
use lencode.Varint.Encode.{encode_word-Appends, encode_varint_u128-Appends}
use lencode.Varint.Decode.{decode_word-Reads}
use lencode.Varint.DecodeU128.{decode_varint_u128-Reads}
use lencode.Varint.Zigzag.{
  zigzag_decode, encode_varint_i16, encode_varint_i32, encode_varint_i64, encode_varint_i128,
  decode_i16, decode_i32, decode_i64, decode_i128, ℤ, InRange, pattern_of, zigzag, zigzag-pattern,
}

-- The types that have an encoder and a decoder of their own.
pub data SignedType : Type 0 where
  i16 i32 i64 i128 : SignedType

abbrev pub size_of : SignedType → ℕ
size_of i16 = 2
size_of i32 = 4
size_of i64 = 8
size_of i128 = 16

-- One bit less than the type has.
abbrev pub magnitude_bits : SignedType → ℕ
magnitude_bits i16 = 15
magnitude_bits i32 = 31
magnitude_bits i64 = 63
magnitude_bits i128 = 127

unfoldable pub encode_signed : {W : Type 0} ⦃io : Write W⦄ → SignedType → ℕ → M W ℕ
encode_signed i16 val = encode_varint_i16 val
encode_signed i32 val = encode_varint_i32 val
encode_signed i64 val = encode_varint_i64 val
encode_signed i128 val = encode_varint_i128 val

unfoldable pub decode_signed : {R : Type 0} ⦃io : Read R⦄ → SignedType → M R ℕ
decode_signed i16 = decode_i16
decode_signed i32 = decode_i32
decode_signed i64 = decode_i64
decode_signed i128 = decode_i128

-- On a writer with room for it, the encoder of a signed type appends, for the pattern of any
-- integer in the type's range, the unsigned encoding of the integer's place in the order 0, -1,
-- 1, -2, 2 and so on, and returns its length.
pub encode_signed-Appends :
    {W : Type 0} ⦃io : Write W⦄ (laws : WriteLaws io) (t : SignedType) (z : ℤ) (m : ℕ) (w : W)
    → InRange (magnitude_bits t) z
    → laws.Room w (length (encoding (size_of t) (zigzag z)) + m)
    → Appends laws
        (encode_signed t (pattern_of (magnitude_bits t + 1) z))
        w
        (encoding (size_of t) (zigzag z))
        m
unfolding encode_signed encode_varint_i16 encode_varint_i32 encode_varint_i64 encode_varint_i128
    encode_varint_u16 encode_varint_u32 encode_varint_u64
encode_signed-Appends laws i16 z m w fits room =
    let (code, back, small) = zigzag-pattern 15 z fits in
    rw code (encode_word-Appends laws 2 (zigzag z) m w (omega arith) small room)
encode_signed-Appends laws i32 z m w fits room =
    let (code, back, small) = zigzag-pattern 31 z fits in
    rw code (encode_word-Appends laws 4 (zigzag z) m w (omega arith) small room)
encode_signed-Appends laws i64 z m w fits room =
    let (code, back, small) = zigzag-pattern 63 z fits in
    rw code (encode_word-Appends laws 8 (zigzag z) m w (omega arith) small room)
encode_signed-Appends laws i128 z m w fits room =
    let (code, back, small) = zigzag-pattern 127 z fits in
    rw code (encode_varint_u128-Appends laws (zigzag z) m w small room)

-- What follows a number read.
then_pure :
    {R : Type 0} ⦃io : Read R⦄ (laws : ReadLaws io) (act : M R ℕ) (f : ℕ → ℕ) (r : R) (v x : ℕ)
    (rest : List ℕ)
    → f v ≡ x
    → Reads laws act r v rest
    → Reads laws (act >>= λ value. pure (f value)) r x rest
then_pure laws act f r v x rest e reads =
    Reads-bind laws act (λ value. pure (f value)) r v x rest rest reads
      (λ r' valid left. (r', ap (λ y. (r', ok y)) e, valid, left))

-- From a valid reader whose next bytes are the unsigned encoding of the place in that order of an
-- integer in the type's range, the decoder of the signed type returns the integer's pattern and
-- leaves what follows.
pub decode_signed-Reads :
    {R : Type 0} ⦃io : Read R⦄ (laws : ReadLaws io) (t : SignedType) (z : ℤ) (rest : List ℕ) (r : R)
    → InRange (magnitude_bits t) z
    → laws.IsValid r
    → laws.remaining r ≡ encoding (size_of t) (zigzag z) ++ rest
    → Reads laws (decode_signed t) r (pattern_of (magnitude_bits t + 1) z) rest
unfolding decode_signed decode_i16 decode_i32 decode_i64 decode_i128 decode_varint_u16
    decode_varint_u32 decode_varint_u64
decode_signed-Reads laws i16 z rest r fits valid e =
    let (code, back, small) = zigzag-pattern 15 z fits in
    then_pure laws decode_varint_u16 (zigzag_decode 16) r (zigzag z) (pattern_of 16 z) rest back
      (decode_word-Reads laws 2 (zigzag z) rest r (omega arith) small valid e)
decode_signed-Reads laws i32 z rest r fits valid e =
    let (code, back, small) = zigzag-pattern 31 z fits in
    then_pure laws decode_varint_u32 (zigzag_decode 32) r (zigzag z) (pattern_of 32 z) rest back
      (decode_word-Reads laws 4 (zigzag z) rest r (omega arith) small valid e)
decode_signed-Reads laws i64 z rest r fits valid e =
    let (code, back, small) = zigzag-pattern 63 z fits in
    then_pure laws decode_varint_u64 (zigzag_decode 64) r (zigzag z) (pattern_of 64 z) rest back
      (decode_word-Reads laws 8 (zigzag z) rest r (omega arith) small valid e)
decode_signed-Reads laws i128 z rest r fits valid e =
    let (code, back, small) = zigzag-pattern 127 z fits in
    then_pure laws decode_varint_u128 (zigzag_decode 128) r (zigzag z) (pattern_of 128 z) rest back
      (decode_varint_u128-Reads laws (zigzag z) rest r small valid e)
