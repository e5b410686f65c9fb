-- ===== src/Derive/Attributes.antt =====
-- macros/src/lib.rs, the attributes that the derive macros read: what stands in `#[repr(...)]`.
use lencode.Prelude.{
  ℕ, ◌+◌, ◌-◌, ◌^◌, ◌&&◌, Bool, true, false, if◌then◌else◌, leb, Option, none, some, List, [], ◌∷◌,
}

-- An entry of a `repr` attribute, without arguments.
pub data ReprMeta : Type 0 where
  u8 u16 u32 u64 usize i8 i16 i32 i64 isize transparent other : ReprMeta

-- An integer type.
pub record Repr : Type 0 where
  pub bits : ℕ
  pub signed : Bool

abbrev unsigned : ℕ → Repr
unsigned bits = record { bits = bits; signed = false }

abbrev signed_int : ℕ → Repr
signed_int bits = record { bits = bits; signed = true }

-- The integer type that an entry names, and else the one found so far.
unfoldable pub repr_ty : ReprMeta → Option Repr → Option Repr
repr_ty u8 out = some (unsigned 8)
repr_ty u16 out = some (unsigned 16)
repr_ty u32 out = some (unsigned 32)
repr_ty u64 out = some (unsigned 64)
repr_ty usize out = some (unsigned 64)
repr_ty i8 out = some (signed_int 8)
repr_ty i16 out = some (signed_int 16)
repr_ty i32 out = some (signed_int 32)
repr_ty i64 out = some (signed_int 64)
repr_ty isize out = some (signed_int 64)
repr_ty transparent out = out
repr_ty other out = out

unfoldable pub last_repr_ty : Option Repr → List ReprMeta → Option Repr
unfolding repr_ty
last_repr_ty out [] = out
last_repr_ty out (meta ∷ attrs) = last_repr_ty (repr_ty meta out) attrs

unfoldable pub enum_repr_ty : List ReprMeta → Option Repr
unfolding last_repr_ty
enum_repr_ty attrs = last_repr_ty none attrs

unfoldable pub has_repr_transparent : List ReprMeta → Bool
has_repr_transparent [] = false
has_repr_transparent (transparent ∷ attrs) = true
has_repr_transparent (meta ∷ attrs) = has_repr_transparent attrs

-- `value as usize` for a pattern of bits of the type: the sign is extended.
unfoldable pub as_usize : Repr → ℕ → ℕ
as_usize R pattern =
    if R.signed && leb (2 ^ (R.bits - 1)) pattern then pattern + (2 ^ 64 - 2 ^ R.bits) else pattern
