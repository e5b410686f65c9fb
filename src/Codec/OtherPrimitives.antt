-- ===== src/Codec/OtherPrimitives.antt =====
-- The floats, the numbers that are not zero, the Booleans and `()` keep the promise of `Encode` and
-- `Decode` (src/lib.rs).
use lencode.Prelude.{
  ℕ, ◌+◌, ◌^◌, ◌<◌, ◌≡◌, refl, sym, arith, pos→ne_zero, List, [], ◌∷◌, ◌++◌, length, append-nil,
}
use lencode.Io.{pure, ◌>>=◌, Read, Write, ReadLaws, WriteLaws, Appends, Reads}
use lencode.Io.Context.{Reads-bind}
use lencode.Varint.Bytes.{le_bytes, length-le_bytes}
use lencode.Varint.Generic.{bool_byte}
use lencode.Varint.Bool.{encode_bool-Appends, decode_bool-Reads}
use lencode.Pack.Blocks.{encode_f32, encode_f64, decode_f32, decode_f64, read_fixed}
use lencode.Pack.BlockLaws.{write_fixed-Appends, read_fixed-Reads, of_le-Reads}
use lencode.Codec.PrimitiveLaws.{NumberLaws}
use lencode.Codec.Plain.{PlainLaws}
use lencode.Codec.Primitives.{
  Number, f32, f64, nonzero_new, nonzero, bool, unit, range_full, phantom_data,
}

pub encode_f32-Appends :
    {W : Type 0} ⦃io : Write W⦄ (laws : WriteLaws io) (v m : ℕ) (w : W)
    → v < 2 ^ 32
    → laws.Room w (length (le_bytes 4 v) + m)
    → Appends laws (encode_f32 v) w (le_bytes 4 v) m
unfolding encode_f32
encode_f32-Appends laws v m w fits room =
    write_fixed-Appends laws (le_bytes 4 v) m w (omega (arith, length-le_bytes 4 v))
      (omega (arith, length-le_bytes 4 v)) room

pub decode_f32-Reads :
    {R : Type 0} ⦃io : Read R⦄ (laws : ReadLaws io) (v : ℕ) (rest : List ℕ) (r : R)
    → v < 2 ^ 32
    → laws.IsValid r
    → laws.remaining r ≡ le_bytes 4 v ++ rest
    → Reads laws decode_f32 r v rest
unfolding decode_f32 le_bytes
decode_f32-Reads laws v rest r fits valid e =
    of_le-Reads laws 4 v (read_fixed 4) rest r fits
      (read_fixed-Reads laws (le_bytes 4 v) rest r (omega arith) valid e)

abbrev pub f32-NumberLaws : NumberLaws f32
f32-NumberLaws = record {
  bits = 32;
  bytes = le_bytes 4;
  encode-Appends = λ laws v m w fits room. encode_f32-Appends laws v m w fits room;
  decode-Reads = λ laws v rest r fits valid e. decode_f32-Reads laws v rest r fits valid e;
}

pub encode_f64-Appends :
    {W : Type 0} ⦃io : Write W⦄ (laws : WriteLaws io) (v m : ℕ) (w : W)
    → v < 2 ^ 64
    → laws.Room w (length (le_bytes 8 v) + m)
    → Appends laws (encode_f64 v) w (le_bytes 8 v) m
unfolding encode_f64
encode_f64-Appends laws v m w fits room =
    write_fixed-Appends laws (le_bytes 8 v) m w (omega (arith, length-le_bytes 8 v))
      (omega (arith, length-le_bytes 8 v)) room

pub decode_f64-Reads :
    {R : Type 0} ⦃io : Read R⦄ (laws : ReadLaws io) (v : ℕ) (rest : List ℕ) (r : R)
    → v < 2 ^ 64
    → laws.IsValid r
    → laws.remaining r ≡ le_bytes 8 v ++ rest
    → Reads laws decode_f64 r v rest
unfolding decode_f64 le_bytes
decode_f64-Reads laws v rest r fits valid e =
    of_le-Reads laws 8 v (read_fixed 8) rest r fits
      (read_fixed-Reads laws (le_bytes 8 v) rest r (omega arith) valid e)

abbrev pub f64-NumberLaws : NumberLaws f64
f64-NumberLaws = record {
  bits = 64;
  bytes = le_bytes 8;
  encode-Appends = λ laws v m w fits room. encode_f64-Appends laws v m w fits room;
  decode-Reads = λ laws v rest r fits valid e. decode_f64-Reads laws v rest r fits valid e;
}

-- A type of numbers that are not zero: the bytes are those of the number.
pub nonzero-Reads :
    (N : Number) (L : NumberLaws N) {R : Type 0} ⦃io : Read R⦄ (laws : ReadLaws io) (v : ℕ)
    (rest : List ℕ) (r : R)
    → (0 < v) × (v < 2 ^ L.bits)
    → laws.IsValid r
    → laws.remaining r ≡ L.bytes v ++ rest
    → Reads laws (N.decode >>= nonzero_new) r v rest
unfolding nonzero_new
nonzero-Reads N L laws v rest r (pos, fits) valid e =
    Reads-bind laws N.decode nonzero_new r v v rest rest (L.decode-Reads laws v rest r fits valid e)
      (λ r' valid' left. (r', rw (pos→ne_zero v pos), valid', left))

abbrev pub nonzero-PlainLaws : (N : Number) → NumberLaws N → PlainLaws (nonzero N)
nonzero-PlainLaws N L = record {
  bytes = L.bytes;
  Fits = λ v. (0 < v) × (v < 2 ^ L.bits);
  write-Appends = λ laws v m w fits room more. L.encode-Appends laws v m w fits.1 room;
  read-Reads = λ laws v rest r fits valid e. nonzero-Reads N L laws v rest r fits valid e;
}

abbrev pub bool-PlainLaws : PlainLaws bool
bool-PlainLaws = record {
  bytes = λ v. bool_byte v ∷ [];
  Fits = λ v. Unit;
  write-Appends = λ laws v m w fits room more. encode_bool-Appends laws v m w room;
  read-Reads = λ laws v rest r fits valid e. decode_bool-Reads laws v rest r valid e;
}

pub unit-Appends :
    {W : Type 0} ⦃io : Write W⦄ (laws : WriteLaws io) (m : ℕ) (w : W)
    → laws.Room w (0 + m)
    → Appends laws (pure 0) w [] m
unit-Appends laws m w room =
    let none : 0 + m ≡ m = omega arith in (w, refl, rw none at room, sym (append-nil _))

abbrev pub unit-PlainLaws : PlainLaws unit
unit-PlainLaws = record {
  bytes = λ v. [];
  Fits = λ v. Unit;
  write-Appends = λ laws v m w fits room more. unit-Appends laws m w room;
  read-Reads = λ laws v rest r fits valid e. (r, refl, valid, e);
}

abbrev pub range_full-PlainLaws : PlainLaws range_full
range_full-PlainLaws = record {
  bytes = λ v. [];
  Fits = λ v. Unit;
  write-Appends = λ laws v m w fits room more. unit-Appends laws m w room;
  read-Reads = λ laws v rest r fits valid e. (r, refl, valid, e);
}

abbrev pub phantom_data-PlainLaws : PlainLaws phantom_data
phantom_data-PlainLaws = record {
  bytes = λ v. [];
  Fits = λ v. Unit;
  write-Appends = λ laws v m w fits room more. unit-Appends laws m w room;
  read-Reads = λ laws v rest r fits valid e. (r, refl, valid, e);
}
