-- ===== src/Derive/PackLaws.antt =====
-- Derived implementations of `Pack` (macros/src/lib.rs) keep the promise of their fields.
use lencode.Prelude.{
  ℕ, suc, ◌+◌, ◌≡◌, refl, sym, ap, ◌∙◌, arith, Bool, true, false, List, [], ◌∷◌, ◌++◌, length,
  append_assoc, append-nil, All,
}
use mathlib.Core.Path.{subst}
use lencode.Io.{ok, pure, ◌>>=◌, Read, Write, ReadLaws, WriteLaws, Reads, Appends}
use lencode.Io.Context.{Appends-chain, Room-append, Reads-bind}
use lencode.Io.Cursor
use lencode.Io.Cursor.{Cursor, cursor_read}
use lencode.Io.CursorLaws.{unread, Unread-new, cursor_read_laws}
use lencode.Io.VecWriter
use lencode.Io.VecWriter.{VecWriter, vec_write}
use lencode.Io.MemoryLaws.{vec_write_laws}
use lencode.Pack.Packings.{Packing, pack_each, unpack_each}
use lencode.Pack.PackingLaws.{packed_each, PackingLaws, pack_each-Appends, unpack_each-Reads}
use lencode.Derive.Attributes.{ReprMeta, has_repr_transparent}
use lencode.Derive.Packs.{
  PackFields, pack_fields, unpack_fields, inner_items, outer_items, pack_slice_of, unpack_vec_of,
  derived_pack,
}

abbrev pub FieldPackLaws : List Packing → Type 1
FieldPackLaws [] = Unit
FieldPackLaws (P ∷ Ps) = PackingLaws P × FieldPackLaws Ps

abbrev pub packed_fields : (Ps : List Packing) → FieldPackLaws Ps → PackFields Ps → List ℕ
packed_fields [] Ls fields = []
packed_fields (P ∷ Ps) (L, Ls) (field, fields) = L.packed field ++ packed_fields Ps Ls fields

abbrev pub FieldsFit : (Ps : List Packing) → FieldPackLaws Ps → PackFields Ps → Type 0
FieldsFit [] Ls fields = Unit
FieldsFit (P ∷ Ps) (L, Ls) (field, fields) = L.Fits field × FieldsFit Ps Ls fields

pub pack_fields-Appends :
    (Ps : List Packing) (Ls : FieldPackLaws Ps) {W : Type 0} ⦃io : Write W⦄ (laws : WriteLaws io)
    (fields : PackFields Ps) (m : ℕ) (w : W)
    → FieldsFit Ps Ls fields
    → laws.Room w (length (packed_fields Ps Ls fields) + m)
    → Appends laws (pack_fields Ps fields) w (packed_fields Ps Ls fields) m
unfolding pack_fields
pack_fields-Appends [] Ls laws fields m w fits room =
    let none : 0 + m ≡ m = omega arith in (w, refl, rw none at room, sym (append-nil _))
pack_fields-Appends (P ∷ Ps) (L, Ls) laws (field, fields) m w (fit, fits) room =
    Appends-chain laws (P.pack field) (pack_fields Ps fields) w (L.packed field)
      (packed_fields Ps Ls fields) m
      (L.pack-Appends laws field _ w fit (Room-append laws w _ _ m room))
      (λ w' room'. pack_fields-Appends Ps Ls laws fields m w' fits room')

pub unpack_fields-Reads :
    (Ps : List Packing) (Ls : FieldPackLaws Ps) {R : Type 0} ⦃io : Read R⦄ (laws : ReadLaws io)
    (fields : PackFields Ps) (rest : List ℕ) (r : R)
    → FieldsFit Ps Ls fields
    → laws.IsValid r
    → laws.remaining r ≡ packed_fields Ps Ls fields ++ rest
    → Reads laws (unpack_fields Ps) r fields rest
unfolding unpack_fields
unpack_fields-Reads [] Ls laws tt rest r fits valid e = (r, refl, valid, e)
unpack_fields-Reads (P ∷ Ps) (L, Ls) laws (field, fields) rest r (fit, fits) valid e =
    Reads-bind laws P.unpack (λ field. unpack_fields Ps >>= λ fields. pure (field, fields)) r field
      (field, fields) (packed_fields Ps Ls fields ++ rest) rest
      (L.unpack-Reads laws field _ r fit valid
        (e ∙ append_assoc _ (packed_fields Ps Ls fields) rest))
      (λ r' valid' left.
        Reads-bind laws (unpack_fields Ps) (λ fields. pure (field, fields)) r' fields
          (field, fields) rest rest (unpack_fields-Reads Ps Ls laws fields rest r' fits valid' left)
          (λ r'' valid'' left'. (r'', refl, valid'', left')))

module _ (Ps : List Packing) (Ls : FieldPackLaws Ps) where
  each-Appends :
      {W : Type 0} ⦃io : Write W⦄ (laws : WriteLaws io) (vs : List (PackFields Ps)) (m : ℕ) (w : W)
      → All (FieldsFit Ps Ls) vs
      → laws.Room w (length (packed_each (packed_fields Ps Ls) vs) + m)
      → Appends laws (pack_each (pack_fields Ps) vs) w (packed_each (packed_fields Ps Ls) vs) m
  each-Appends laws vs m w fits room =
      pack_each-Appends (packed_fields Ps Ls) (FieldsFit Ps Ls) laws (pack_fields Ps)
        (λ v m w fits room. pack_fields-Appends Ps Ls laws v m w fits room) vs m w fits room

  each-Reads :
      {R : Type 0} ⦃io : Read R⦄ (laws : ReadLaws io) (vs : List (PackFields Ps)) (rest : List ℕ)
      (r : R)
      → All (FieldsFit Ps Ls) vs
      → laws.IsValid r
      → laws.remaining r ≡ packed_each (packed_fields Ps Ls) vs ++ rest
      → Reads laws (unpack_each (unpack_fields Ps) (length vs)) r vs rest
  each-Reads laws vs rest r fits valid e =
      unpack_each-Reads (packed_fields Ps Ls) (FieldsFit Ps Ls) laws (unpack_fields Ps)
        (λ v rest r fits valid e. unpack_fields-Reads Ps Ls laws v rest r fits valid e) vs rest r
        fits valid e

module _ (P : Packing) (L : PackingLaws P) where
  outer-inner : (vs : List (PackFields (P ∷ []))) → outer_items (inner_items vs) ≡ vs
  unfolding outer_items inner_items
  outer-inner [] = refl
  outer-inner ((v, tt) ∷ vs) = ap (λ us. (v, tt) ∷ us) (outer-inner vs)

  length-inner : (vs : List (PackFields (P ∷ []))) → length (inner_items vs) ≡ length vs
  unfolding inner_items
  length-inner [] = refl
  length-inner ((v, tt) ∷ vs) = ap suc (length-inner vs)

  -- The bytes of the inner slice are those of the items, one after another.
  packed_each-inner :
      (vs : List (PackFields (P ∷ [])))
      → packed_each (packed_fields (P ∷ []) (L, tt)) vs ≡ packed_each L.packed (inner_items vs)
  unfolding packed_each inner_items
  packed_each-inner [] = refl
  packed_each-inner ((v, tt) ∷ vs) =
      rw (append-nil (L.packed v)) (ap (λ bs. L.packed v ++ bs) (packed_each-inner vs))

  pub transparent_slice-Appends :
      {W : Type 0} ⦃io : Write W⦄ (laws : WriteLaws io) (vs : List (PackFields (P ∷ []))) (m : ℕ)
      (w : W)
      → L.FitsSlice (inner_items vs)
      → laws.Room w (length (packed_each (packed_fields (P ∷ []) (L, tt)) vs) + m)
      → Appends laws
          (P.pack_slice (inner_items vs))
          w
          (packed_each (packed_fields (P ∷ []) (L, tt)) vs)
          m
  transparent_slice-Appends laws vs m w fits room =
      let e = packed_each-inner vs in
      subst (λ bs. Appends laws (P.pack_slice (inner_items vs)) w bs m) (sym e)
        (L.pack_slice-Appends laws (inner_items vs) m w fits
          (subst (λ bs. laws.Room w (length bs + m)) e room))

  pub transparent_vec-Reads :
      {R : Type 0} ⦃io : Read R⦄ (laws : ReadLaws io) (vs : List (PackFields (P ∷ [])))
      (rest : List ℕ) (r : R)
      → L.FitsSlice (inner_items vs)
      → laws.IsValid r
      → laws.remaining r ≡ packed_each (packed_fields (P ∷ []) (L, tt)) vs ++ rest
      → Reads laws (P.unpack_vec (length vs) >>= λ inner. pure (outer_items inner)) r vs rest
  transparent_vec-Reads laws vs rest r fits valid e =
      Reads-bind laws (P.unpack_vec (length vs)) (λ inner. pure (outer_items inner)) r
        (inner_items vs) vs rest rest
        (subst (λ k. Reads laws (P.unpack_vec k) r (inner_items vs) rest) (length-inner vs)
          (L.unpack_vec-Reads laws (inner_items vs) rest r fits valid
            (e ∙ ap (λ bs. bs ++ rest) (packed_each-inner vs))))
        (λ r' valid' left. (r', ap (λ x. (r', ok x)) (outer-inner vs), valid', left))

-- What a slice has to promise: each of its items, or what the one field's type asks for.
abbrev pub FitsSliceOf :
    Bool → (Ps : List Packing) → FieldPackLaws Ps → List (PackFields Ps) → Type 0
FitsSliceOf false Ps Ls vs = All (FieldsFit Ps Ls) vs
FitsSliceOf true [] Ls vs = All (FieldsFit [] Ls) vs
FitsSliceOf true (P ∷ []) (L, Ls) vs = L.FitsSlice (inner_items vs)
FitsSliceOf true (P ∷ Q ∷ Ps) Ls vs = All (FieldsFit (P ∷ Q ∷ Ps) Ls) vs

pub pack_slice_of-Appends :
    (bulk : Bool) (Ps : List Packing) (Ls : FieldPackLaws Ps) {W : Type 0} ⦃io : Write W⦄
    (laws : WriteLaws io) (vs : List (PackFields Ps)) (m : ℕ) (w : W)
    → FitsSliceOf bulk Ps Ls vs
    → laws.Room w (length (packed_each (packed_fields Ps Ls) vs) + m)
    → Appends laws (pack_slice_of bulk Ps vs) w (packed_each (packed_fields Ps Ls) vs) m
unfolding pack_slice_of
pack_slice_of-Appends false Ps Ls laws vs m w fits room = each-Appends Ps Ls laws vs m w fits room
pack_slice_of-Appends true [] Ls laws vs m w fits room = each-Appends [] Ls laws vs m w fits room
pack_slice_of-Appends true (P ∷ []) (L, Ls) laws vs m w fits room =
    transparent_slice-Appends P L laws vs m w fits room
pack_slice_of-Appends true (P ∷ Q ∷ Ps) Ls laws vs m w fits room =
    each-Appends (P ∷ Q ∷ Ps) Ls laws vs m w fits room

pub unpack_vec_of-Reads :
    (bulk : Bool) (Ps : List Packing) (Ls : FieldPackLaws Ps) {R : Type 0} ⦃io : Read R⦄
    (laws : ReadLaws io) (vs : List (PackFields Ps)) (rest : List ℕ) (r : R)
    → FitsSliceOf bulk Ps Ls vs
    → laws.IsValid r
    → laws.remaining r ≡ packed_each (packed_fields Ps Ls) vs ++ rest
    → Reads laws (unpack_vec_of bulk Ps (length vs)) r vs rest
unfolding unpack_vec_of
unpack_vec_of-Reads false Ps Ls laws vs rest r fits valid e =
    each-Reads Ps Ls laws vs rest r fits valid e
unpack_vec_of-Reads true [] Ls laws vs rest r fits valid e =
    each-Reads [] Ls laws vs rest r fits valid e
unpack_vec_of-Reads true (P ∷ []) (L, Ls) laws vs rest r fits valid e =
    transparent_vec-Reads P L laws vs rest r fits valid e
unpack_vec_of-Reads true (P ∷ Q ∷ Ps) Ls laws vs rest r fits valid e =
    each-Reads (P ∷ Q ∷ Ps) Ls laws vs rest r fits valid e

-- For a struct whose fields' types keep the interface PackingLaws, `#[repr(transparent)]` or not,
-- and values that keep their promise: `pack_slice` on a new vector succeeds, writes the bytes of
-- each value's fields in order, and returns their number; and from these `unpack_vec` of as many
-- values returns them and consumes all.
pub unpack_vec-pack_slice :
    (attrs : List ReprMeta) (Ps : List Packing) (Ls : FieldPackLaws Ps) (vs : List (PackFields Ps))
    → FitsSliceOf (has_repr_transparent attrs) Ps Ls vs
    → (w : VecWriter) × (c : Cursor) × ((derived_pack attrs Ps).pack_slice vs VecWriter.new
        ≡ (w, ok (length w.bytes)))
      × (w.bytes ≡ packed_each (packed_fields Ps Ls) vs)
      × ((derived_pack attrs Ps).unpack_vec (length vs) (Cursor.new w.bytes) ≡ (c, ok vs))
      × (unread c ≡ [])
unfolding VecWriter.new Cursor.new
unpack_vec-pack_slice attrs Ps Ls vs fits =
    let bulk = has_repr_transparent attrs in
    let bs = packed_each (packed_fields Ps Ls) vs in
    let (w, h, room, same) =
      pack_slice_of-Appends bulk Ps Ls vec_write_laws vs 0 VecWriter.new fits tt in
    let (c, got, valid, left) =
      unpack_vec_of-Reads bulk Ps Ls cursor_read_laws vs [] (Cursor.new w.bytes) fits
        (Unread-new w.bytes) (same ∙ sym (append-nil bs)) in
    (w, c, h ∙ ap (λ n. (w, ok n)) (ap length (sym same)), same, got, left)
