-- ===== src/Derive/Packs.antt =====
-- macros/src/lib.rs, `derive_pack_impl`: the implementation of `Pack` that it generates for a
-- struct.
use lencode.Prelude.{ℕ, Bool, true, false, List, [], ◌∷◌}
use lencode.Io.{M, Read, Write, pure, ◌>>=◌, ◌⊕◌}
use lencode.Pack.Packings.{Packing, pack_each, unpack_each}
use lencode.Derive.Attributes.{ReprMeta, has_repr_transparent}

abbrev pub PackFields : List Packing → Type 0
PackFields [] = Unit
PackFields (P ∷ Ps) = P.Value × PackFields Ps

-- `total += <T as Pack>::pack(&self.field, writer)?;`, for each field.
unfoldable pub pack_fields : (Ps : List Packing) {W : Type 0} ⦃io : Write W⦄ → PackFields Ps → M W ℕ
pack_fields [] fields = pure 0
pack_fields (P ∷ Ps) (field, fields) = P.pack field ⊕ pack_fields Ps fields

unfoldable pub unpack_fields : (Ps : List Packing) {R : Type 0} ⦃io : Read R⦄ → M R (PackFields Ps)
unpack_fields [] = pure tt
unpack_fields (P ∷ Ps) = P.unpack >>= λ field. unpack_fields Ps >>= λ fields. pure (field, fields)

-- The items of a slice as those of the one field, and back: the layout is the same.
unfoldable pub inner_items : {A : Type 0} → List (A × Unit {0}) → List A
inner_items [] = []
inner_items ((item, last) ∷ items) = item ∷ inner_items items

unfoldable pub outer_items : {A : Type 0} → List A → List (A × Unit {0})
outer_items [] = []
outer_items (item ∷ items) = (item, tt) ∷ outer_items items

-- With one field and `#[repr(transparent)]`, a slice is one of the field's type, and else it goes
-- item by item.
unfoldable pub pack_slice_of :
    Bool → (Ps : List Packing) {W : Type 0} ⦃io : Write W⦄ → List (PackFields Ps) → M W ℕ
unfolding pack_each pack_fields inner_items
pack_slice_of false Ps items = pack_each (pack_fields Ps) items
pack_slice_of true [] items = pack_each (pack_fields []) items
pack_slice_of true (P ∷ []) items = P.pack_slice (inner_items items)
pack_slice_of true (P ∷ Q ∷ Ps) items = pack_each (pack_fields (P ∷ Q ∷ Ps)) items

unfoldable pub unpack_vec_of :
    Bool → (Ps : List Packing) {R : Type 0} ⦃io : Read R⦄ → ℕ → M R (List (PackFields Ps))
unfolding unpack_each unpack_fields outer_items
unpack_vec_of false Ps count = unpack_each (unpack_fields Ps) count
unpack_vec_of true [] count = unpack_each (unpack_fields []) count
unpack_vec_of true (P ∷ []) count = P.unpack_vec count >>= λ inner. pure (outer_items inner)
unpack_vec_of true (P ∷ Q ∷ Ps) count = unpack_each (unpack_fields (P ∷ Q ∷ Ps)) count

-- By the attributes and the fields of the struct.
abbrev pub derived_pack : List ReprMeta → List Packing → Packing
derived_pack attrs Ps = record {
  Value = PackFields Ps;
  pack = pack_fields Ps;
  unpack = unpack_fields Ps;
  pack_slice = pack_slice_of (has_repr_transparent attrs) Ps;
  unpack_vec = unpack_vec_of (has_repr_transparent attrs) Ps;
}
