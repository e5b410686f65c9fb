-- ===== src/Pack/BlockLaws.antt =====
-- The writers of a known number of bytes (src/pack.rs, src/lib.rs) append them, and the readers
-- read them back.
use lencode.Prelude.{
  ℕ, ◌+◌, ◌^◌, ◌≤◌, ◌<◌, ◌≡◌, refl, ap, ◌∙◌, arith, leb, ltb, ◌==◌, if◌then◌else◌, some, inl, inr,
  Bool-cases, tests, List, [], ◌∷◌, ◌++◌, length, drop, take-append, drop-append, length-append,
  eq→==, pos→ne_zero, le→leb, le→ltb,
}
use lencode.Io.{
  M, ok, pure, throw, ◌>>=◌, writer_out_of_space, Read, Write, ReadLaws, WriteLaws, Reads, Appends,
}
use lencode.Io.Store.{put, Appends-lent, Stores-self}
use lencode.Varint.Bytes.{le_bytes, of_le, of_le-le_bytes}
use lencode.Varint.Fixed.{first_byte}
use lencode.Varint.Decode.{read-Reads}
use lencode.Bytes.DecodeVec.{read_loop-Reads}
use lencode.Pack.Blocks.{
  write_block, write_fixed, encode_u8, encode_i8, read_block, read_once, read_fixed, decode_u8,
  decode_i8,
}

module _ {W : Type 0} ⦃io : Write W⦄ (laws : WriteLaws io) where
  pub write-Appends :
      (bs : List ℕ) (m : ℕ) (w : W)
      → 0 < length bs + m
      → laws.Room w (length bs + m)
      → Appends laws (io.write bs) w bs m
  write-Appends bs m w pos room = laws.write_lem w m bs room pos

  -- Bytes, and also none where there is room for one, are appended, through the lent slice or through `write`.
  pub write_block-Appends :
      (bs : List ℕ) (m : ℕ) (w : W)
      → 0 < length bs + m
      → laws.Room w (length bs + m)
      → Appends laws (write_block bs) w bs m
  unfolding write_block
  write_block-Appends bs m w pos room =
      Appends-lent laws bs m w
        (λ len. if leb (length bs) len then put bs (length bs) else io.write bs) (io.write bs) room
        (λ len w' h. elim (Bool-cases (leb (length bs) len)) [
          | inl fits ↦ inl (bs, rw fits, Stores-self bs len (omega tests))
          | inr short ↦ inr (rw short)
        ])
        (λ w' room'. write-Appends bs m w' (omega arith) room')

  pub write_fixed-Appends :
      (bs : List ℕ) (m : ℕ) (w : W)
      → 0 < length bs
      → length bs ≤ 17
      → laws.Room w (length bs + m)
      → Appends laws (write_fixed bs) w bs m
  unfolding write_fixed
  write_fixed-Appends bs m w pos few room =
      Appends-lent laws bs m w
        (λ len. if ltb len (length bs) then throw writer_out_of_space else put bs (length bs))
        (io.write bs) room
        (λ len w' h.
          let fits : length bs ≤ len = omega arith in
          inl (bs, rw (le→ltb len (length bs) fits), Stores-self bs len fits))
        (λ w' room'. write-Appends bs m w' (omega arith) room')

  pub encode_u8-Appends :
      (byte m : ℕ) (w : W) → laws.Room w (1 + m) → Appends laws (encode_u8 byte) w (byte ∷ []) m
  unfolding encode_u8
  encode_u8-Appends byte m w room =
      Appends-lent laws (byte ∷ []) m w
        (λ len. if len == 0 then throw writer_out_of_space else put (byte ∷ []) 1)
        (io.write (byte ∷ [])) room
        (λ len w' h.
          let fits : 1 ≤ len = omega arith in
          inl (byte ∷ [], rw (pos→ne_zero len fits), Stores-self (byte ∷ []) len fits))
        (λ w' room'. write-Appends (byte ∷ []) m w' (omega arith) room')

  pub encode_i8-Appends :
      (pattern m : ℕ) (w : W)
      → laws.Room w (1 + m)
      → Appends laws (encode_i8 pattern) w (pattern ∷ []) m
  unfolding encode_i8 encode_u8
  encode_i8-Appends pattern m w room = encode_u8-Appends pattern m w room

module _ {R : Type 0} ⦃io : Read R⦄ (laws : ReadLaws io) where
  -- The front of a lent slice, passed over.
  pub front-Reads :
      (bs rest : List ℕ) (r : R)
      → laws.IsValid r
      → laws.remaining r ≡ bs ++ rest
      → io.buf r ≡ (r, ok (some (laws.remaining r)))
      → laws.IsValid (io.advance (length bs) r) × (laws.remaining (io.advance (length bs) r) ≡ rest)
  front-Reads bs rest r valid e lent =
      let (valid', left) =
        laws.advance_lem r (length bs) valid (omega (arith, ap length e, length-append bs rest))
          lent in
      (valid', left ∙ ap (drop (length bs)) e ∙ drop-append bs rest)

  pub read_block-Reads :
      (bs rest : List ℕ) (r : R)
      → laws.IsValid r
      → laws.remaining r ≡ bs ++ rest
      → Reads laws (read_block (length bs)) r bs rest
  unfolding read_block
  read_block-Reads bs rest r valid e = elim (laws.buf_lem r valid) [
    | inl unlent ↦
        let (r', h, valid', left) = read_loop-Reads laws bs rest r valid e in
        (r', rw (unlent, h), valid', left)
    | inr lent ↦
        let fits : length bs ≤ length (bs ++ rest) = omega (arith, length-append bs rest) in
        let (valid', left) = front-Reads bs rest r valid e lent in
        (
          io.advance (length bs) r,
          rw (lent, e, le→leb (length bs) (length (bs ++ rest)) fits, take-append bs rest),
          valid',
          left,
        )
  ]

  pub read_once-Reads :
      (bs rest : List ℕ) (r : R)
      → 0 < length bs
      → laws.IsValid r
      → laws.remaining r ≡ bs ++ rest
      → Reads laws (read_once (length bs)) r bs rest
  unfolding read_once
  read_once-Reads bs rest r pos valid e =
      let (r', h, valid', left) = read-Reads laws r bs rest valid pos e in
      (r', rw (h, eq→== (length bs) (length bs) refl), valid', left)

  pub read_fixed-Reads :
      (bs rest : List ℕ) (r : R)
      → 0 < length bs
      → laws.IsValid r
      → laws.remaining r ≡ bs ++ rest
      → Reads laws (read_fixed (length bs)) r bs rest
  unfolding read_fixed
  read_fixed-Reads bs rest r pos valid e = elim (laws.buf_lem r valid) [
    | inl unlent ↦
        let (r', h, valid', left) = read_once-Reads bs rest r pos valid e in
        (r', rw (unlent, h), valid', left)
    | inr lent ↦
        let fits : length bs ≤ length (bs ++ rest) = omega (arith, length-append bs rest) in
        let (valid', left) = front-Reads bs rest r valid e lent in
        (
          io.advance (length bs) r,
          rw (lent, e, le→ltb (length (bs ++ rest)) (length bs) fits, take-append bs rest),
          valid',
          left,
        )
  ]

  pub decode_u8-Reads :
      (byte : ℕ) (rest : List ℕ) (r : R)
      → laws.IsValid r
      → laws.remaining r ≡ byte ∷ rest
      → Reads laws decode_u8 r byte rest
  unfolding decode_u8 first_byte
  decode_u8-Reads byte rest r valid e = elim (laws.buf_lem r valid) [
    | inl unlent ↦
        let (r', h, valid', left) = read-Reads laws r (byte ∷ []) rest valid (omega arith) e in
        (r', rw (unlent, h), valid', left)
    | inr lent ↦
        let (valid', left) = front-Reads (byte ∷ []) rest r valid e lent in
        (
          io.advance 1 r,
          rw (lent, e, pos→ne_zero (length (byte ∷ rest)) (omega arith)),
          valid',
          left,
        )
  ]

  pub decode_i8-Reads :
      (pattern : ℕ) (rest : List ℕ) (r : R)
      → laws.IsValid r
      → laws.remaining r ≡ pattern ∷ rest
      → Reads laws decode_i8 r pattern rest
  unfolding decode_i8 decode_u8
  decode_i8-Reads pattern rest r valid e = decode_u8-Reads pattern rest r valid e

  -- Bytes read as a number give the number whose bytes they are.
  pub of_le-Reads :
      (k v : ℕ) (act : M R (List ℕ)) (rest : List ℕ) (r : R)
      → v < 256 ^ k
      → Reads laws act r (le_bytes k v) rest
      → Reads laws (act >>= λ bs. pure (of_le bs)) r v rest
  of_le-Reads k v act rest r fits (r', h, valid', left) =
      (r', rw (h, of_le-le_bytes k v fits), valid', left)
