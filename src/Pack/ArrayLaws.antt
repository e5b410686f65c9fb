-- ===== src/Pack/ArrayLaws.antt =====
-- `Pack` for arrays (src/pack.rs): of bytes, all at once, and of other items, one by one.
use lencode.Prelude.{
  ℕ, ◌+◌, ◌*◌, ◌<◌, ◌≡◌, refl, sym, ap, ◌∙◌, arith, List, [], ◌∷◌, ◌++◌, length, take, drop,
  take-append, drop-append, length-append, All,
}
use mathlib.Core.List.{flatten}
use mathlib.Core.Path.{subst}
use lencode.Io.{ok, pure, Read, Write, ReadLaws, WriteLaws, Reads, Appends}
use lencode.Io.Context.{Reads-bind}
use lencode.Pack.Blocks.{read_block}
use lencode.Pack.BlockLaws.{write-Appends, write_block-Appends, read_block-Reads}
use lencode.Pack.Packings.{
  Packing, pack_each, unpack_each, chunks, write_blocks, read_blocks, byte_block, array,
}
use lencode.Pack.PackingLaws.{packed_each, PackingLaws, pack_each-Appends, unpack_each-Reads}

abbrev pub AllOfLength : ℕ → List (List ℕ) → Type 0
AllOfLength n items = All (λ (item : List ℕ). length item ≡ n) items

pub length-flatten :
    (n : ℕ) (items : List (List ℕ))
    → AllOfLength n items
    → length (flatten items) ≡ n * length items
unfolding flatten
length-flatten n [] sized = omega arith
length-flatten n (item ∷ items) (one, sized) =
    omega (arith, length-append item (flatten items), length-flatten n items sized)

-- Arrays put together and cut again are the arrays.
pub chunks-flatten :
    (n : ℕ) (items : List (List ℕ))
    → AllOfLength n items
    → chunks n (length items) (flatten items) ≡ items
unfolding chunks flatten
chunks-flatten n [] sized = refl
chunks-flatten n (item ∷ items) (one, sized) =
    subst
      (λ k.
        take k (item ++ flatten items) ∷ chunks n (length items) (drop k (item ++ flatten items))
        ≡ item ∷ items)
      one
      (rw (take-append item (flatten items), drop-append item (flatten items))
        (ap (λ t. item ∷ t) (chunks-flatten n items sized)))

pub some_bytes :
    (n : ℕ) (items : List (List ℕ))
    → AllOfLength n items
    → 0 < n
    → 0 < length items
    → 0 < length (flatten items)
unfolding flatten
some_bytes n [] sized pos some_items = absurd (omega arith)
some_bytes n (item ∷ items) (one, sized) pos some_items =
    omega (arith, length-append item (flatten items), one)

packed_each-flatten : (items : List (List ℕ)) → packed_each (λ bytes. bytes) items ≡ flatten items
unfolding packed_each flatten
packed_each-flatten [] = refl
packed_each-flatten (item ∷ items) = ap (λ t. item ++ t) (packed_each-flatten items)

module _ (n : ℕ) (pos : 0 < n) where
  pub write_blocks-Appends :
      {W : Type 0} ⦃io : Write W⦄ (laws : WriteLaws io) (items : List (List ℕ)) (m : ℕ) (w : W)
      → AllOfLength n items × (0 < length items)
      → laws.Room w (length (packed_each (λ bytes. bytes) items) + m)
      → Appends laws (write_blocks items) w (packed_each (λ bytes. bytes) items) m
  unfolding write_blocks
  write_blocks-Appends ⦃io⦄ laws items m w (sized, some_items) room =
      let e = packed_each-flatten items in
      subst (λ bs. Appends laws (io.write (flatten items)) w bs m) (sym e)
        (write-Appends laws (flatten items) m w
          (omega (arith, some_bytes n items sized pos some_items))
          (subst (λ bs. laws.Room w (length bs + m)) e room))

  pub read_blocks-Reads :
      {R : Type 0} ⦃io : Read R⦄ (laws : ReadLaws io) (items : List (List ℕ)) (rest : List ℕ)
      (r : R)
      → AllOfLength n items × (0 < length items)
      → laws.IsValid r
      → laws.remaining r ≡ packed_each (λ bytes. bytes) items ++ rest
      → Reads laws (read_blocks n (length items)) r items rest
  unfolding read_blocks
  read_blocks-Reads laws items rest r (sized, some_items) valid left =
      Reads-bind laws (read_block (n * length items))
        (λ bytes. pure (chunks n (length items) bytes)) r (flatten items) items rest rest
        (subst (λ k. Reads laws (read_block k) r (flatten items) rest)
          (length-flatten n items sized)
          (read_block-Reads laws (flatten items) rest r valid
            (left ∙ ap (λ bs. bs ++ rest) (packed_each-flatten items))))
        (λ r' valid' left'.
          (r', ap (λ x. (r', ok x)) (chunks-flatten n items sized), valid', left'))

  -- A slice of byte arrays is not empty: a writer that is full may refuse to write nothing.
  abbrev pub byte_block-PackingLaws : PackingLaws (byte_block n)
  byte_block-PackingLaws = record {
    packed = λ bytes. bytes;
    Fits = λ bytes. length bytes ≡ n;
    FitsSlice = λ items. AllOfLength n items × (0 < length items);
    pack-Appends =
        λ laws bytes m w sized room. write_block-Appends laws bytes m w (omega arith) room;
    unpack-Reads = λ laws bytes rest r sized valid e.
        subst (λ k. Reads laws (read_block k) r bytes rest) sized
          (read_block-Reads laws bytes rest r valid e);
    pack_slice-Appends = λ laws items m w fits room. write_blocks-Appends laws items m w fits room;
    unpack_vec-Reads =
        λ laws items rest r fits valid e. read_blocks-Reads laws items rest r fits valid e;
  }

module _ (n : ℕ) (P : Packing) (L : PackingLaws P) where
  abbrev pub IsItems : List P.Value → Type 0
  IsItems vs = All L.Fits vs × (length vs ≡ n)

  pub pack_items-Appends :
      {W : Type 0} ⦃io : Write W⦄ (laws : WriteLaws io) (vs : List P.Value) (m : ℕ) (w : W)
      → IsItems vs
      → laws.Room w (length (packed_each L.packed vs) + m)
      → Appends laws (pack_each P.pack vs) w (packed_each L.packed vs) m
  pack_items-Appends laws vs m w fits room =
      pack_each-Appends L.packed L.Fits laws P.pack
        (λ v m w fit room. L.pack-Appends laws v m w fit room) vs m w fits.0 room

  pub unpack_items-Reads :
      {R : Type 0} ⦃io : Read R⦄ (laws : ReadLaws io) (vs : List P.Value) (rest : List ℕ) (r : R)
      → IsItems vs
      → laws.IsValid r
      → laws.remaining r ≡ packed_each L.packed vs ++ rest
      → Reads laws (unpack_each P.unpack n) r vs rest
  unpack_items-Reads laws vs rest r (fits, sized) valid e =
      subst (λ k. Reads laws (unpack_each P.unpack k) r vs rest) sized
        (unpack_each-Reads L.packed L.Fits laws P.unpack
          (λ v rest r fit valid e. L.unpack-Reads laws v rest r fit valid e) vs rest r fits valid e)

  abbrev pub array-PackingLaws : PackingLaws (array n P)
  array-PackingLaws = record {
    packed = packed_each L.packed;
    Fits = IsItems;
    FitsSlice = All IsItems;
    pack-Appends = λ laws vs m w fits room. pack_items-Appends laws vs m w fits room;
    unpack-Reads = λ laws vs rest r fits valid e. unpack_items-Reads laws vs rest r fits valid e;
    pack_slice-Appends = λ laws vss m w fits room.
        pack_each-Appends (packed_each L.packed) IsItems laws (pack_each P.pack)
          (λ vs m w fit room. pack_items-Appends laws vs m w fit room) vss m w fits room;
    unpack_vec-Reads = λ laws vss rest r fits valid e.
        unpack_each-Reads (packed_each L.packed) IsItems laws (unpack_each P.unpack n)
          (λ vs rest r fit valid e. unpack_items-Reads laws vs rest r fit valid e) vss rest r fits
          valid e;
  }
