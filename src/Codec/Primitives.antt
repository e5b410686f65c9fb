-- ===== src/Codec/Primitives.antt =====
-- `Encode` and `Decode` for the numbers and the Booleans, src/lib.rs and src/varint/lencode.rs. A
-- number is its pattern of bits, also a signed one or a float.
use lencode.Prelude.{ℕ, Bool, ◌==◌, if◌then◌else◌}
use lencode.Io.{M, Read, Write, invalid_data, pure, throw, ◌>>=◌}
use lencode.Varint.Fixed.{
  encode_varint_u16, encode_varint_u32, encode_varint_u64, encode_varint_u128, decode_varint_u16,
  decode_varint_u32, decode_varint_u64, decode_varint_u128,
}
use lencode.Varint.Zigzag.{
  encode_varint_i16, encode_varint_i32, encode_varint_i64, encode_varint_i128, decode_i16,
  decode_i32, decode_i64, decode_i128,
}
use lencode.Varint.Generic.{encode_bool, decode_bool}
use lencode.Pack.Blocks.{
  encode_u8, decode_u8, encode_i8, decode_i8, encode_f32, decode_f32, encode_f64, decode_f64,
}
use lencode.Codec.Plain.{Plain}

-- A type of numbers with its encoder and its decoder.
pub record Number : Type 1 where
  pub size : ℕ
  pub encode : {W : Type 0} ⦃io : Write W⦄ → ℕ → M W ℕ
  pub decode : {R : Type 0} ⦃io : Read R⦄ → M R ℕ

abbrev pub number : Number → Plain
number N = record { Value = ℕ; size_of = N.size; write = N.encode; read = N.decode }

abbrev pub u8 : Number
u8 = record { size = 1; encode = encode_u8; decode = decode_u8 }

abbrev pub u16 : Number
u16 = record { size = 2; encode = encode_varint_u16; decode = decode_varint_u16 }

abbrev pub u32 : Number
u32 = record { size = 4; encode = encode_varint_u32; decode = decode_varint_u32 }

abbrev pub u64 : Number
u64 = record { size = 8; encode = encode_varint_u64; decode = decode_varint_u64 }

abbrev pub u128 : Number
u128 = record { size = 16; encode = encode_varint_u128; decode = decode_varint_u128 }

-- As a `u64`, on a target where it has 64 bits.
abbrev pub usize : Number
usize = record { size = 8; encode = encode_varint_u64; decode = decode_varint_u64 }

abbrev pub i8 : Number
i8 = record { size = 1; encode = encode_i8; decode = decode_i8 }

abbrev pub i16 : Number
i16 = record { size = 2; encode = encode_varint_i16; decode = decode_i16 }

abbrev pub i32 : Number
i32 = record { size = 4; encode = encode_varint_i32; decode = decode_i32 }

abbrev pub i64 : Number
i64 = record { size = 8; encode = encode_varint_i64; decode = decode_i64 }

abbrev pub i128 : Number
i128 = record { size = 16; encode = encode_varint_i128; decode = decode_i128 }

-- As an `i64`.
abbrev pub isize : Number
isize = record { size = 8; encode = encode_varint_i64; decode = decode_i64 }

abbrev pub f32 : Number
f32 = record { size = 4; encode = encode_f32; decode = decode_f32 }

abbrev pub f64 : Number
f64 = record { size = 8; encode = encode_f64; decode = decode_f64 }

-- `Self::new(value).ok_or(Error::InvalidData)`
unfoldable pub nonzero_new : {R : Type 0} → ℕ → M R ℕ
nonzero_new value = if value == 0 then throw invalid_data else pure value

-- The type of the numbers of a type that are not zero.
abbrev pub nonzero : Number → Plain
nonzero N = record {
  Value = ℕ;
  size_of = N.size;
  write = N.encode;
  read = N.decode >>= nonzero_new;
}

abbrev pub bool : Plain
bool = record { Value = Bool; size_of = 1; write = encode_bool; read = decode_bool }

-- `()`: no bytes.
abbrev pub unit : Plain
unit = record { Value = Unit {0}; size_of = 0; write = λ v. pure 0; read = pure tt }

-- `..`
abbrev pub range_full : Plain
range_full = record { Value = Unit {0}; size_of = 0; write = λ v. pure 0; read = pure tt }

-- `PhantomData<T>`
abbrev pub phantom_data : Plain
phantom_data = record { Value = Unit {0}; size_of = 0; write = λ v. pure 0; read = pure tt }
