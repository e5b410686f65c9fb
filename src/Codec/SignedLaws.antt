-- ===== src/Codec/SignedLaws.antt =====
-- The signed numbers keep the promise of `Encode` and `Decode` (src/lib.rs, src/varint/lencode.rs):
-- each goes through ZigZag into an unsigned number of its width.
use lencode.Prelude.{ℕ, ◌+◌, ◌^◌, ◌<◌, ◌≡◌, ap, List, ◌++◌, length}
use lencode.Io.{M, ok, pure, ◌>>=◌, Read, Write, ReadLaws, WriteLaws, Appends, Reads}
use lencode.Io.Context.{Reads-bind}
use lencode.Varint.Encoding.{encoding}
use lencode.Varint.Encode.{encode_varint_u128-Appends}
use lencode.Varint.DecodeU128.{decode_varint_u128-Reads}
use lencode.Varint.Zigzag.{
  zigzag_encode, zigzag_decode, zigzag_decode-zigzag_encode, encode_varint_i16, encode_varint_i32,
  encode_varint_i64, encode_varint_i128, decode_i16, decode_i32, decode_i64, decode_i128,
}
use lencode.Varint.Fixed.{
  decode_varint_u16, decode_varint_u32, decode_varint_u64, decode_varint_u128,
}
use lencode.Codec.Primitives.{i16, i32, i64, i128, isize}
use lencode.Codec.PrimitiveLaws.{
  NumberLaws, encode_varint_u16-Appends, encode_varint_u32-Appends, encode_varint_u64-Appends,
  decode_varint_u16-Reads, decode_varint_u32-Reads, decode_varint_u64-Reads,
}

-- A number that is read and then changed.
changed-Reads :
    {R : Type 0} ⦃io : Read R⦄ (laws : ReadLaws io) (act : M R ℕ) (f : ℕ → ℕ) (r : R) (v x : ℕ)
    (rest : List ℕ)
    → f v ≡ x
    → Reads laws act r v rest
    → Reads laws (act >>= λ value. pure (f value)) r x rest
changed-Reads laws act f r v x rest e reads =
    Reads-bind laws act (λ value. pure (f value)) r v x rest rest reads
      (λ r' valid left. (r', ap (λ y. (r', ok y)) e, valid, left))

pub encode_varint_i16-Appends :
    {W : Type 0} ⦃io : Write W⦄ (laws : WriteLaws io) (v m : ℕ) (w : W)
    → v < 2 ^ 16
    → laws.Room w (length (encoding 2 (zigzag_encode 16 v)) + m)
    → Appends laws (encode_varint_i16 v) w (encoding 2 (zigzag_encode 16 v)) m
unfolding encode_varint_i16
encode_varint_i16-Appends laws v m w fits room =
    encode_varint_u16-Appends laws (zigzag_encode 16 v) m w
      (zigzag_decode-zigzag_encode 15 v fits).1 room

pub decode_i16-Reads :
    {R : Type 0} ⦃io : Read R⦄ (laws : ReadLaws io) (v : ℕ) (rest : List ℕ) (r : R)
    → v < 2 ^ 16
    → laws.IsValid r
    → laws.remaining r ≡ encoding 2 (zigzag_encode 16 v) ++ rest
    → Reads laws decode_i16 r v rest
unfolding decode_i16
decode_i16-Reads laws v rest r fits valid e =
    let (back, small) = zigzag_decode-zigzag_encode 15 v fits in
    changed-Reads laws decode_varint_u16 (zigzag_decode 16) r (zigzag_encode 16 v) v rest back
      (decode_varint_u16-Reads laws (zigzag_encode 16 v) rest r small valid e)

pub encode_varint_i32-Appends :
    {W : Type 0} ⦃io : Write W⦄ (laws : WriteLaws io) (v m : ℕ) (w : W)
    → v < 2 ^ 32
    → laws.Room w (length (encoding 4 (zigzag_encode 32 v)) + m)
    → Appends laws (encode_varint_i32 v) w (encoding 4 (zigzag_encode 32 v)) m
unfolding encode_varint_i32
encode_varint_i32-Appends laws v m w fits room =
    encode_varint_u32-Appends laws (zigzag_encode 32 v) m w
      (zigzag_decode-zigzag_encode 31 v fits).1 room

pub decode_i32-Reads :
    {R : Type 0} ⦃io : Read R⦄ (laws : ReadLaws io) (v : ℕ) (rest : List ℕ) (r : R)
    → v < 2 ^ 32
    → laws.IsValid r
    → laws.remaining r ≡ encoding 4 (zigzag_encode 32 v) ++ rest
    → Reads laws decode_i32 r v rest
unfolding decode_i32
decode_i32-Reads laws v rest r fits valid e =
    let (back, small) = zigzag_decode-zigzag_encode 31 v fits in
    changed-Reads laws decode_varint_u32 (zigzag_decode 32) r (zigzag_encode 32 v) v rest back
      (decode_varint_u32-Reads laws (zigzag_encode 32 v) rest r small valid e)

pub encode_varint_i64-Appends :
    {W : Type 0} ⦃io : Write W⦄ (laws : WriteLaws io) (v m : ℕ) (w : W)
    → v < 2 ^ 64
    → laws.Room w (length (encoding 8 (zigzag_encode 64 v)) + m)
    → Appends laws (encode_varint_i64 v) w (encoding 8 (zigzag_encode 64 v)) m
unfolding encode_varint_i64
encode_varint_i64-Appends laws v m w fits room =
    encode_varint_u64-Appends laws (zigzag_encode 64 v) m w
      (zigzag_decode-zigzag_encode 63 v fits).1 room

pub decode_i64-Reads :
    {R : Type 0} ⦃io : Read R⦄ (laws : ReadLaws io) (v : ℕ) (rest : List ℕ) (r : R)
    → v < 2 ^ 64
    → laws.IsValid r
    → laws.remaining r ≡ encoding 8 (zigzag_encode 64 v) ++ rest
    → Reads laws decode_i64 r v rest
unfolding decode_i64
decode_i64-Reads laws v rest r fits valid e =
    let (back, small) = zigzag_decode-zigzag_encode 63 v fits in
    changed-Reads laws decode_varint_u64 (zigzag_decode 64) r (zigzag_encode 64 v) v rest back
      (decode_varint_u64-Reads laws (zigzag_encode 64 v) rest r small valid e)

pub encode_varint_i128-Appends :
    {W : Type 0} ⦃io : Write W⦄ (laws : WriteLaws io) (v m : ℕ) (w : W)
    → v < 2 ^ 128
    → laws.Room w (length (encoding 16 (zigzag_encode 128 v)) + m)
    → Appends laws (encode_varint_i128 v) w (encoding 16 (zigzag_encode 128 v)) m
unfolding encode_varint_i128
encode_varint_i128-Appends laws v m w fits room =
    encode_varint_u128-Appends laws (zigzag_encode 128 v) m w
      (zigzag_decode-zigzag_encode 127 v fits).1 room

pub decode_i128-Reads :
    {R : Type 0} ⦃io : Read R⦄ (laws : ReadLaws io) (v : ℕ) (rest : List ℕ) (r : R)
    → v < 2 ^ 128
    → laws.IsValid r
    → laws.remaining r ≡ encoding 16 (zigzag_encode 128 v) ++ rest
    → Reads laws decode_i128 r v rest
unfolding decode_i128
decode_i128-Reads laws v rest r fits valid e =
    let (back, small) = zigzag_decode-zigzag_encode 127 v fits in
    changed-Reads laws decode_varint_u128 (zigzag_decode 128) r (zigzag_encode 128 v) v rest back
      (decode_varint_u128-Reads laws (zigzag_encode 128 v) rest r small valid e)

abbrev pub i16-NumberLaws : NumberLaws i16
i16-NumberLaws = record {
  bits = 16;
  bytes = λ v. encoding 2 (zigzag_encode 16 v);
  encode-Appends = λ laws v m w fits room. encode_varint_i16-Appends laws v m w fits room;
  decode-Reads = λ laws v rest r fits valid e. decode_i16-Reads laws v rest r fits valid e;
}

abbrev pub i32-NumberLaws : NumberLaws i32
i32-NumberLaws = record {
  bits = 32;
  bytes = λ v. encoding 4 (zigzag_encode 32 v);
  encode-Appends = λ laws v m w fits room. encode_varint_i32-Appends laws v m w fits room;
  decode-Reads = λ laws v rest r fits valid e. decode_i32-Reads laws v rest r fits valid e;
}

abbrev pub i64-NumberLaws : NumberLaws i64
i64-NumberLaws = record {
  bits = 64;
  bytes = λ v. encoding 8 (zigzag_encode 64 v);
  encode-Appends = λ laws v m w fits room. encode_varint_i64-Appends laws v m w fits room;
  decode-Reads = λ laws v rest r fits valid e. decode_i64-Reads laws v rest r fits valid e;
}

abbrev pub isize-NumberLaws : NumberLaws isize
isize-NumberLaws = record {
  bits = 64;
  bytes = λ v. encoding 8 (zigzag_encode 64 v);
  encode-Appends = λ laws v m w fits room. encode_varint_i64-Appends laws v m w fits room;
  decode-Reads = λ laws v rest r fits valid e. decode_i64-Reads laws v rest r fits valid e;
}

abbrev pub i128-NumberLaws : NumberLaws i128
i128-NumberLaws = record {
  bits = 128;
  bytes = λ v. encoding 16 (zigzag_encode 128 v);
  encode-Appends = λ laws v m w fits room. encode_varint_i128-Appends laws v m w fits room;
  decode-Reads = λ laws v rest r fits valid e. decode_i128-Reads laws v rest r fits valid e;
}
