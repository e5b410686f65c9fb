-- ===== src/Derive/Examples.antt =====
-- The theorems on the derive macros (macros/src/lib.rs) at two enums: one with a field, and one of
-- units alone whose numbers are those of an `i8`.
use lencode.Prelude.{
  length, ◌^◌, ◌≡◌, ◌≢◌, ◌-◌, ◌++◌, All, refl, arith, inl, inr, true, none, List, [], ◌∷◌,
}
use lencode.Io.{ok, err, invalid_data}
use lencode.Io.Cursor.{Cursor, cursor_read}
use lencode.Io.CursorLaws.{cursor_read_laws, unread}
use lencode.Io.Memory.{Transmits}
use lencode.Io.VecWriter.{VecWriter, vec_write}
use lencode.Varint.Encoding.{encoding}
use lencode.Codec.Traits.{Coding}
use lencode.Codec.Plain.{plain, plain-CodingLaws}
use lencode.Codec.Primitives.{number, u16}
use lencode.Codec.PrimitiveLaws.{number-PlainLaws, u16-NumberLaws}
use lencode.Pack.Packings.{Packing, byte_block}
use lencode.Pack.PackingLaws.{packed_each}
use lencode.Pack.ArrayLaws.{byte_block-PackingLaws}
use lencode.Derive.Attributes.ReprMeta.{i8, transparent}
use lencode.Derive.Packs.{PackFields, inner_items, derived_pack}
use lencode.Derive.PackLaws.{FieldPackLaws, packed_fields, FitsSliceOf, unpack_vec-pack_slice}
use lencode.Io.Cursor
use lencode.Io.VecWriter
use lencode.Derive.Attributes.{has_repr_transparent, as_usize, enum_repr_ty, last_repr_ty, repr_ty}
use lencode.Derive.Enums.{
  EnumItem, named, unnamed, unit, Chosen, encode_struct, decode_struct, encode_enum, decode_enum,
  numeric_repr,
}
use lencode.Derive.Discriminants.{IsEnum, discs}
use lencode.Derive.EnumLaws.{VariantLaws}
use lencode.Derive.Memory.{
  decode_struct-encode_struct, decode_enum-encode_enum, decode_unknown_variant,
}

-- Contexts that hold nothing.
abbrev Bare : Unit {0} → Unit {0} → Type 0
Bare x y = Unit

abbrev small : Coding (Unit {0}) (Unit {0})
small = plain (number u16)

-- `enum Shape { Point, Circle(u16), Box { width: u16, height: u16 } }`
abbrev shape : EnumItem (Unit {0}) (Unit {0})
shape = record {
  attrs = [];
  variants =
      record { fields = unit; discriminant = 0 }
      ∷ record { fields = unnamed (small ∷ []); discriminant = 1 }
      ∷ record { fields = named (small ∷ small ∷ []); discriminant = 2 }
      ∷ [];
  size_of = 6;
}

-- `#[repr(i8)] enum Step { Back = -1, Stay = 0, Jump = 3 }`
abbrev step : EnumItem (Unit {0}) (Unit {0})
step = record {
  attrs = i8 ∷ [];
  variants =
      record { fields = unit; discriminant = 255 }
      ∷ record { fields = unit; discriminant = 0 }
      ∷ record { fields = unit; discriminant = 3 }
      ∷ [];
  size_of = 1;
}

shape-IsEnum : IsEnum shape
shape-IsEnum = record { small = omega arith; numbers = tt }

step-IsEnum : IsEnum step
unfolding enum_repr_ty last_repr_ty repr_ty
step-IsEnum = record {
  small = omega arith;
  numbers = (
    omega arith,
    ((λ same. absurd (omega arith)), ((λ same. absurd (omega arith)), tt)),
    (omega arith, ((λ same. absurd (omega arith)), tt), (omega arith, tt, tt)),
  );
}

abbrev small_laws : VariantLaws Bare shape.variants
small_laws =
    let one = plain-CodingLaws Bare (number-PlainLaws u16-NumberLaws) in
    (tt, ((one, tt), ((one, (one, tt)), tt)))

abbrev box : Chosen shape.variants
box = inr (inr (inl (300, (5, tt))))

decode_enum-encode_enum_example :
    Transmits (encode_enum shape box) none none (decode_enum shape) none none box × Unit {0}
decode_enum-encode_enum_example =
    decode_enum-encode_enum Bare shape small_laws none none box shape-IsEnum tt
      (omega arith, (omega arith, tt))

-- `struct Size { width: u16, height: u16 }`
decode_struct-encode_struct_example :
    Transmits
      (encode_struct (named (small ∷ small ∷ [])) (300, (5, tt)))
      none
      none
      (decode_struct (named (small ∷ small ∷ [])))
      none
      none
      (300, (5, tt))
    × Unit {0}
decode_struct-encode_struct_example =
    let one = plain-CodingLaws Bare (number-PlainLaws u16-NumberLaws) in
    decode_struct-encode_struct Bare (named (small ∷ small ∷ [])) (one, (one, tt)) none none
      (300, (5, tt)) tt (omega arith, (omega arith, tt))

-- The discriminant of `Back` is written as 2 ^ 64 - 1.
back_number : as_usize (record { bits = 8; signed = true }) 255 ≡ 2 ^ 64 - 1
unfolding as_usize
back_number = refl

abbrev unknown : Cursor
unknown = record { stream = encoding 8 7 ++ (9 ∷ []); position = 0 }

unlike_seven : All (λ m. m ≢ 7) (discs (numeric_repr step) 0 step.variants)
unfolding as_usize enum_repr_ty last_repr_ty repr_ty
unlike_seven = (
  (λ same. absurd (omega arith)),
  ((λ same. absurd (omega arith)), ((λ same. absurd (omega arith)), tt)),
)

decode_unknown_variant_example :
    (r : Cursor) × (decode_enum step (none, unknown) ≡ ((none, r), err invalid_data))
    × cursor_read_laws.IsValid r
    × (unread r ≡ 9 ∷ [])
decode_unknown_variant_example =
    decode_unknown_variant step cursor_read_laws none 7 (9 ∷ []) unknown (omega arith) unlike_seven
      (omega arith) refl

-- `#[repr(transparent)] struct Key([u8; 2]);`
abbrev key : List Packing
key = byte_block 2 ∷ []

abbrev key_laws : FieldPackLaws key
key_laws = (byte_block-PackingLaws 2 (omega arith), tt)

abbrev keys : List (PackFields key)
keys = (7 ∷ 8 ∷ [], tt) ∷ (9 ∷ 10 ∷ [], tt) ∷ []

keys_fit : FitsSliceOf (has_repr_transparent (transparent ∷ [])) key key_laws keys
unfolding has_repr_transparent inner_items
keys_fit = ((refl, (refl, tt)), omega arith)

unpack_vec-pack_slice_example :
    (w : VecWriter) × (c : Cursor) × ((derived_pack (transparent ∷ []) key).pack_slice keys
        VecWriter.new
      ≡ (w, ok (length w.bytes)))
    × (w.bytes ≡ packed_each (packed_fields key key_laws) keys)
    × ((derived_pack (transparent ∷ []) key).unpack_vec 2 (Cursor.new w.bytes) ≡ (c, ok keys))
    × (unread c ≡ [])
unpack_vec-pack_slice_example = unpack_vec-pack_slice (transparent ∷ []) key key_laws keys keys_fit
