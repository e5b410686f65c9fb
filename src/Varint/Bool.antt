-- ===== src/Varint/Bool.antt =====
-- `encode_bool` and `decode_bool` of src/varint/lencode.rs.
use lencode.Prelude.{
  ℕ, ◌+◌, ◌-◌, ap, ◌∙◌, drop, take, Option, ◌≤◌, ◌<◌, ◌≡◌, refl, arith, min, Bool, true, false,
  none, some, List, [], ◌∷◌, ◌++◌, length, pos→ne_zero, inl, inr,
}
use lencode.Io.{ok, Read, Write, ReadLaws, WriteLaws, Reads, Appends}
use lencode.Io.Store.{put}
use lencode.Varint.Generic.{bool_byte, encode_bool, decode_bool, bool_of_byte}
use lencode.Varint.Fixed.{first_byte}
use lencode.Varint.Decode.{read-Reads}

-- On a writer with room for it, `encode_bool` appends one byte, 1 for true and 0 for false,
-- returns 1, and leaves the rest of the room.
pub encode_bool-Appends :
    {W : Type 0} ⦃io : Write W⦄ (laws : WriteLaws io) (val : Bool) (m : ℕ) (w : W)
    → laws.Room w (1 + m)
    → Appends laws (encode_bool val) w (bool_byte val ∷ []) m
unfolding encode_bool put
encode_bool-Appends {W} ⦃io⦄ laws val m w room =
    let (w', o, lent, room', same, spare, stored) = laws.buf_mut_lem w (1 + m) room in
    go w' o lent room' same spare (stored_one w' o stored)
  where
    bits : List ℕ
    bits = bool_byte val ∷ []

    stored_one :
        (w' : W) (o : Option ℕ)
        → ((len : ℕ) (bs : List ℕ) (n : ℕ)
            → o ≡ some len
            → length bs ≤ len
            → n ≤ length bs
            → n ≤ 1 + m
            → laws.Room (io.advance_mut n (io.store bs w')) (1 + m - n)
              × (laws.written (io.advance_mut n (io.store bs w')) ≡ laws.written w ++ take n bs))
        → (len : ℕ) → o ≡ some len
        → 0 < len
        → laws.Room (io.advance_mut 1 (io.store bits w')) m
          × (laws.written (io.advance_mut 1 (io.store bits w')) ≡ laws.written w ++ bits)
    stored_one w' o stored len e pos =
        let (r, app) = stored len bits 1 e (omega arith) (omega arith) (omega arith) in
        let left : 1 + m - 1 ≡ m = omega arith in (rw left at r, app)

    go :
        (w' : W) (o : Option ℕ)
        → io.buf_mut w ≡ (w', ok o)
        → laws.Room w' (1 + m)
        → laws.written w' ≡ laws.written w
        → ((len : ℕ) → o ≡ some len → min (1 + m) 17 ≤ len)
        → ((len : ℕ)
            → o ≡ some len
            → 0 < len
            → laws.Room (io.advance_mut 1 (io.store bits w')) m
              × (laws.written (io.advance_mut 1 (io.store bits w')) ≡ laws.written w ++ bits))
        → Appends laws (encode_bool val) w bits m
    go w' none lent room' same spare stored =
        let (w'', e, r, app) = laws.write_lem w' m bits room' (omega arith) in
        (w'', rw lent e, r, rw same at app)
    go w' (some len) lent room' same spare stored =
        let pos : 0 < len = omega (arith, spare len refl) in
        let (r, app) = stored len refl pos in
        (io.advance_mut 1 (io.store bits w'), rw (lent, pos→ne_zero len pos) refl, r, app)

bool_of_byte_lem :
    {R : Type 0} ⦃io : Read R⦄ (val : Bool) (r : R) → bool_of_byte (bool_byte val) r ≡ (r, ok val)
unfolding bool_of_byte
bool_of_byte_lem true r = refl
bool_of_byte_lem false r = refl

-- From a valid reader whose next byte is 1 for true or 0 for false, `decode_bool` returns the
-- Boolean and leaves what follows.
pub decode_bool-Reads :
    {R : Type 0} ⦃io : Read R⦄ (laws : ReadLaws io) (val : Bool) (rest : List ℕ) (r : R)
    → laws.IsValid r
    → laws.remaining r ≡ bool_byte val ∷ rest
    → Reads laws decode_bool r val rest
unfolding decode_bool first_byte
decode_bool-Reads ⦃io⦄ laws val rest r valid e = elim (laws.buf_lem r valid) [
  | inl unlent ↦
      let (r', got, valid', left) =
        read-Reads laws r (bool_byte val ∷ []) rest valid (omega arith) e in
      (r', rw (unlent, got) (bool_of_byte_lem val r'), valid', left)
  | inr lent ↦
      let (valid', left) = laws.advance_lem r 1 valid (omega (arith, ap length e)) lent in
      (
        io.advance 1 r,
        rw (lent, e, pos→ne_zero (length (bool_byte val ∷ rest)) (omega arith))
            (bool_of_byte_lem val (io.advance 1 r)),
        valid',
        left ∙ ap (drop 1) e,
      )
]
