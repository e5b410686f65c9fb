-- ===== src/Pack/PackingLaws.antt =====
-- What implementations of `Pack` promise (src/pack.rs), as an interface, and that those for numbers
-- and arrays keep it.
use lencode.Prelude.{
  ℕ, ◌+◌, ◌^◌, ◌<◌, ◌≡◌, refl, sym, ◌∙◌, arith, List, [], ◌∷◌, ◌++◌, length, append_assoc,
  append-nil, All,
}
use lencode.Io.{M, pure, ◌>>=◌, Read, Write, ReadLaws, WriteLaws, Reads, Appends}
use lencode.Io.Context.{Appends-chain, Room-append, Reads-bind}
use lencode.Varint.Bytes.{le_bytes}
use lencode.Pack.Blocks.{pack_word, unpack_word}
use lencode.Pack.Words.{pack_word-Appends, unpack_word-Reads}
use lencode.Pack.Packings.{Packing, pack_each, unpack_each, word}

-- The bytes of items, one after another.
unfoldable pub packed_each : {A : Type 0} → (A → List ℕ) → List A → List ℕ
packed_each packed [] = []
packed_each packed (item ∷ items) = packed item ++ packed_each packed items

-- Each value has its bytes, which `pack` appends and `unpack` reads back; slices, which may have to
-- keep a promise of their own, have those of their items.
pub record PackingLaws (P : Packing) : Type 1 where
  pub packed : P.Value → List ℕ
  pub Fits : P.Value → Type 0
  pub FitsSlice : List P.Value → Type 0
  pub pack-Appends :
      {W : Type 0} ⦃io : Write W⦄ (laws : WriteLaws io) (v : P.Value) (m : ℕ) (w : W)
      → Fits v
      → laws.Room w (length (packed v) + m)
      → Appends laws (P.pack v) w (packed v) m
  pub unpack-Reads :
      {R : Type 0} ⦃io : Read R⦄ (laws : ReadLaws io) (v : P.Value) (rest : List ℕ) (r : R)
      → Fits v
      → laws.IsValid r
      → laws.remaining r ≡ packed v ++ rest
      → Reads laws P.unpack r v rest
  pub pack_slice-Appends :
      {W : Type 0} ⦃io : Write W⦄ (laws : WriteLaws io) (vs : List P.Value) (m : ℕ) (w : W)
      → FitsSlice vs
      → laws.Room w (length (packed_each packed vs) + m)
      → Appends laws (P.pack_slice vs) w (packed_each packed vs) m
  pub unpack_vec-Reads :
      {R : Type 0} ⦃io : Read R⦄ (laws : ReadLaws io) (vs : List P.Value) (rest : List ℕ) (r : R)
      → FitsSlice vs
      → laws.IsValid r
      → laws.remaining r ≡ packed_each packed vs ++ rest
      → Reads laws (P.unpack_vec (length vs)) r vs rest

module _ {A : Type 0} (packed : A → List ℕ) (Fits : A → Type 0) where
  pub pack_each-Appends :
      {W : Type 0} ⦃io : Write W⦄ (laws : WriteLaws io) (pack : A → M W ℕ)
      (pack_lem : (v : A) (m : ℕ) (w : W)
        → Fits v
        → laws.Room w (length (packed v) + m)
        → Appends laws (pack v) w (packed v) m)
      (vs : List A) (m : ℕ) (w : W)
      → All Fits vs
      → laws.Room w (length (packed_each packed vs) + m)
      → Appends laws (pack_each pack vs) w (packed_each packed vs) m
  unfolding pack_each packed_each
  pack_each-Appends laws pack pack_lem [] m w fits room =
      let none : 0 + m ≡ m = omega arith in (w, refl, rw none at room, sym (append-nil _))
  pack_each-Appends laws pack pack_lem (v ∷ vs) m w (fit, fits) room =
      Appends-chain laws (pack v) (pack_each pack vs) w (packed v) (packed_each packed vs) m
        (pack_lem v _ w fit (Room-append laws w _ _ m room))
        (λ w' room'. pack_each-Appends laws pack pack_lem vs m w' fits room')

  pub unpack_each-Reads :
      {R : Type 0} ⦃io : Read R⦄ (laws : ReadLaws io) (unpack : M R A)
      (unpack_lem : (v : A) (rest : List ℕ) (r : R)
        → Fits v
        → laws.IsValid r
        → laws.remaining r ≡ packed v ++ rest
        → Reads laws unpack r v rest)
      (vs : List A) (rest : List ℕ) (r : R)
      → All Fits vs
      → laws.IsValid r
      → laws.remaining r ≡ packed_each packed vs ++ rest
      → Reads laws (unpack_each unpack (length vs)) r vs rest
  unfolding unpack_each packed_each
  unpack_each-Reads laws unpack unpack_lem [] rest r fits valid e = (r, refl, valid, e)
  unpack_each-Reads laws unpack unpack_lem (v ∷ vs) rest r (fit, fits) valid e =
      Reads-bind laws unpack
        (λ item. unpack_each unpack (length vs) >>= λ items. pure (item ∷ items)) r v (v ∷ vs)
        (packed_each packed vs ++ rest) rest
        (unpack_lem v _ r fit valid (e ∙ append_assoc _ (packed_each packed vs) rest))
        (λ r' valid' left.
          Reads-bind laws (unpack_each unpack (length vs)) (λ items. pure (v ∷ items)) r' vs
            (v ∷ vs) rest rest
            (unpack_each-Reads laws unpack unpack_lem vs rest r' fits valid' left)
            (λ r'' valid'' left'. (r'', refl, valid'', left')))

abbrev pub word-PackingLaws : (k : ℕ) → 0 < k → PackingLaws (word k)
word-PackingLaws k pos = record {
  packed = le_bytes k;
  Fits = λ v. v < 256 ^ k;
  FitsSlice = All (λ v. v < 256 ^ k);
  pack-Appends = λ laws v m w fits room. pack_word-Appends laws k v m w pos room;
  unpack-Reads = λ laws v rest r fits valid e. unpack_word-Reads laws k v rest r pos fits valid e;
  pack_slice-Appends = λ laws vs m w fits room.
      pack_each-Appends (le_bytes k) (λ v. v < 256 ^ k) laws (pack_word k)
        (λ v m w fits room. pack_word-Appends laws k v m w pos room) vs m w fits room;
  unpack_vec-Reads = λ laws vs rest r fits valid e.
      unpack_each-Reads (le_bytes k) (λ v. v < 256 ^ k) laws (unpack_word k)
        (λ v rest r fits valid e. unpack_word-Reads laws k v rest r pos fits valid e) vs rest r fits
        valid e;
}
