-- ===== src/Codec/PrimitiveLaws.antt =====
-- The numbers, the Booleans and `()` keep the promise of `Encode` and `Decode` (src/lib.rs).
use lencode.Prelude.{ℕ, ◌+◌, ◌^◌, ◌<◌, ◌≡◌, arith, List, [], ◌∷◌, ◌++◌, length}
use lencode.Io.{Read, Write, ReadLaws, WriteLaws, Appends, Reads}
use lencode.Varint.Encoding.{encoding}
use lencode.Varint.Encode.{encode_word-Appends, encode_varint_u128-Appends}
use lencode.Varint.Decode.{decode_word-Reads}
use lencode.Varint.DecodeU128.{decode_varint_u128-Reads}
use lencode.Varint.Fixed.{
  encode_varint_u16, encode_varint_u32, encode_varint_u64, decode_varint_u16, decode_varint_u32,
  decode_varint_u64,
}
use lencode.Pack.BlockLaws.{encode_u8-Appends, decode_u8-Reads, encode_i8-Appends, decode_i8-Reads}
use lencode.Codec.Plain.{PlainLaws}
use lencode.Codec.Primitives.{Number, number, u8, u16, u32, u64, u128, usize, i8}

-- The bytes of a number of at most `2 ^ bits`, and the proofs that they are appended and read.
pub record NumberLaws (N : Number) : Type 1 where
  pub bits : ℕ
  pub bytes : ℕ → List ℕ
  pub encode-Appends :
      {W : Type 0} ⦃io : Write W⦄ (laws : WriteLaws io) (v m : ℕ) (w : W)
      → v < 2 ^ bits
      → laws.Room w (length (bytes v) + m)
      → Appends laws (N.encode v) w (bytes v) m
  pub decode-Reads :
      {R : Type 0} ⦃io : Read R⦄ (laws : ReadLaws io) (v : ℕ) (rest : List ℕ) (r : R)
      → v < 2 ^ bits
      → laws.IsValid r
      → laws.remaining r ≡ bytes v ++ rest
      → Reads laws N.decode r v rest

abbrev pub number-PlainLaws : {N : Number} → NumberLaws N → PlainLaws (number N)
number-PlainLaws L = record {
  bytes = L.bytes;
  Fits = λ v. v < 2 ^ L.bits;
  write-Appends = λ laws v m w fits room more. L.encode-Appends laws v m w fits room;
  read-Reads = λ laws v rest r fits valid e. L.decode-Reads laws v rest r fits valid e;
}

abbrev pub u8-NumberLaws : NumberLaws u8
u8-NumberLaws = record {
  bits = 8;
  bytes = λ v. v ∷ [];
  encode-Appends = λ laws v m w fits room. encode_u8-Appends laws v m w room;
  decode-Reads = λ laws v rest r fits valid e. decode_u8-Reads laws v rest r valid e;
}

abbrev pub i8-NumberLaws : NumberLaws i8
i8-NumberLaws = record {
  bits = 8;
  bytes = λ v. v ∷ [];
  encode-Appends = λ laws v m w fits room. encode_i8-Appends laws v m w room;
  decode-Reads = λ laws v rest r fits valid e. decode_i8-Reads laws v rest r valid e;
}

pub encode_varint_u16-Appends :
    {W : Type 0} ⦃io : Write W⦄ (laws : WriteLaws io) (v m : ℕ) (w : W)
    → v < 2 ^ 16
    → laws.Room w (length (encoding 2 v) + m)
    → Appends laws (encode_varint_u16 v) w (encoding 2 v) m
unfolding encode_varint_u16
encode_varint_u16-Appends laws v m w fits room =
    encode_word-Appends laws 2 v m w (omega arith) fits room

pub decode_varint_u16-Reads :
    {R : Type 0} ⦃io : Read R⦄ (laws : ReadLaws io) (v : ℕ) (rest : List ℕ) (r : R)
    → v < 2 ^ 16
    → laws.IsValid r
    → laws.remaining r ≡ encoding 2 v ++ rest
    → Reads laws decode_varint_u16 r v rest
unfolding decode_varint_u16
decode_varint_u16-Reads laws v rest r fits valid e =
    decode_word-Reads laws 2 v rest r (omega arith) fits valid e

pub encode_varint_u32-Appends :
    {W : Type 0} ⦃io : Write W⦄ (laws : WriteLaws io) (v m : ℕ) (w : W)
    → v < 2 ^ 32
    → laws.Room w (length (encoding 4 v) + m)
    → Appends laws (encode_varint_u32 v) w (encoding 4 v) m
unfolding encode_varint_u32
encode_varint_u32-Appends laws v m w fits room =
    encode_word-Appends laws 4 v m w (omega arith) fits room

pub decode_varint_u32-Reads :
    {R : Type 0} ⦃io : Read R⦄ (laws : ReadLaws io) (v : ℕ) (rest : List ℕ) (r : R)
    → v < 2 ^ 32
    → laws.IsValid r
    → laws.remaining r ≡ encoding 4 v ++ rest
    → Reads laws decode_varint_u32 r v rest
unfolding decode_varint_u32
decode_varint_u32-Reads laws v rest r fits valid e =
    decode_word-Reads laws 4 v rest r (omega arith) fits valid e

pub encode_varint_u64-Appends :
    {W : Type 0} ⦃io : Write W⦄ (laws : WriteLaws io) (v m : ℕ) (w : W)
    → v < 2 ^ 64
    → laws.Room w (length (encoding 8 v) + m)
    → Appends laws (encode_varint_u64 v) w (encoding 8 v) m
unfolding encode_varint_u64
encode_varint_u64-Appends laws v m w fits room =
    encode_word-Appends laws 8 v m w (omega arith) fits room

pub decode_varint_u64-Reads :
    {R : Type 0} ⦃io : Read R⦄ (laws : ReadLaws io) (v : ℕ) (rest : List ℕ) (r : R)
    → v < 2 ^ 64
    → laws.IsValid r
    → laws.remaining r ≡ encoding 8 v ++ rest
    → Reads laws decode_varint_u64 r v rest
unfolding decode_varint_u64
decode_varint_u64-Reads laws v rest r fits valid e =
    decode_word-Reads laws 8 v rest r (omega arith) fits valid e

abbrev pub u16-NumberLaws : NumberLaws u16
u16-NumberLaws = record {
  bits = 16;
  bytes = encoding 2;
  encode-Appends = λ laws v m w fits room. encode_varint_u16-Appends laws v m w fits room;
  decode-Reads = λ laws v rest r fits valid e. decode_varint_u16-Reads laws v rest r fits valid e;
}

abbrev pub u32-NumberLaws : NumberLaws u32
u32-NumberLaws = record {
  bits = 32;
  bytes = encoding 4;
  encode-Appends = λ laws v m w fits room. encode_varint_u32-Appends laws v m w fits room;
  decode-Reads = λ laws v rest r fits valid e. decode_varint_u32-Reads laws v rest r fits valid e;
}

abbrev pub u64-NumberLaws : NumberLaws u64
u64-NumberLaws = record {
  bits = 64;
  bytes = encoding 8;
  encode-Appends = λ laws v m w fits room. encode_varint_u64-Appends laws v m w fits room;
  decode-Reads = λ laws v rest r fits valid e. decode_varint_u64-Reads laws v rest r fits valid e;
}

abbrev pub usize-NumberLaws : NumberLaws usize
usize-NumberLaws = record {
  bits = 64;
  bytes = encoding 8;
  encode-Appends = λ laws v m w fits room. encode_varint_u64-Appends laws v m w fits room;
  decode-Reads = λ laws v rest r fits valid e. decode_varint_u64-Reads laws v rest r fits valid e;
}

abbrev pub u128-NumberLaws : NumberLaws u128
u128-NumberLaws = record {
  bits = 128;
  bytes = encoding 16;
  encode-Appends = λ laws v m w fits room. encode_varint_u128-Appends laws v m w fits room;
  decode-Reads = λ laws v rest r fits valid e. decode_varint_u128-Reads laws v rest r fits valid e;
}
