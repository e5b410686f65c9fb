-- ===== src/Dedupe/Flags.antt =====
-- Values for examples of src/dedupe.rs: two types of one-byte values.
use lencode.Prelude.{ℕ, zero, suc, ◌≡◌, refl, sym, ap, ◌∙◌, Bool, true, false, List, [], ◌∷◌, ◌↔◌}
use lencode.Io.{ok, pure, ◌>>=◌, Read, ReadLaws, Reads}
use lencode.Io.Context.{Reads-bind}
use lencode.Varint.Generic.{encode_bool, decode_bool, bool_byte}
use lencode.Varint.Bool.{encode_bool-Appends, decode_bool-Reads}
use lencode.Pack.Packings.{pack_each, unpack_each}
use lencode.Pack.PackingLaws.{pack_each-Appends, unpack_each-Reads}
use mathlib.Core.Path.{subst}
use lencode.Dedupe.Values.{Values, PackLaws}

-- Two types: a flag of the one or of the other.
pub data Flag : Type 0 where
  door light : Bool → Flag

abbrev pub flag_type : Flag → ℕ
flag_type (door b) = 0
flag_type (light b) = 1

abbrev pub flag_value : Flag → Bool
flag_value (door b) = b
flag_value (light b) = b

abbrev pub same_flag : Flag → Flag → Bool
same_flag (door true) (door true) = true
same_flag (door false) (door false) = true
same_flag (light true) (light true) = true
same_flag (light false) (light false) = true
same_flag a b = false

abbrev pub flag_of : ℕ → Bool → Flag
flag_of zero b = door b
flag_of (suc t) b = light b

abbrev pub flags : Values
flags = record {
  Value = Flag;
  type_id = flag_type;
  eq = same_flag;
  pack = λ v. encode_bool (flag_value v);
  unpack = λ t. decode_bool >>= λ b. pure (flag_of t b);
  pack_slice = λ t. pack_each (λ v. encode_bool (flag_value v));
  unpack_vec = λ t. unpack_each (decode_bool >>= λ b. pure (flag_of t b));
}

flag_of_lem : (v : Flag) → flag_of (flag_type v) (flag_value v) ≡ v
flag_of_lem (door b) = refl
flag_of_lem (light b) = refl

same_flag_refl : (a : Flag) → same_flag a a ≡ true
same_flag_refl (door true) = refl
same_flag_refl (door false) = refl
same_flag_refl (light true) = refl
same_flag_refl (light false) = refl

same_flag→eq : (a b : Flag) → same_flag a b ≡ true → a ≡ b
same_flag→eq (door true) (door true) h = refl
same_flag→eq (door false) (door false) h = refl
same_flag→eq (light true) (light true) h = refl
same_flag→eq (light false) (light false) h = refl
same_flag→eq (door true) (door false) h = cc
same_flag→eq (door false) (door true) h = cc
same_flag→eq (light true) (light false) h = cc
same_flag→eq (light false) (light true) h = cc
same_flag→eq (door true) (light b) h = cc
same_flag→eq (door false) (light b) h = cc
same_flag→eq (light true) (door b) h = cc
same_flag→eq (light false) (door b) h = cc

pub same_flag_iff : (a b : Flag) → (same_flag a b ≡ true) ↔ (a ≡ b)
same_flag_iff a b = (same_flag→eq a b, λ e. ap (same_flag a) (sym e) ∙ same_flag_refl a)

pub unpack_flag :
    {R : Type 0} ⦃io : Read R⦄ (laws : ReadLaws io) (v : Flag) (rest : List ℕ) (r : R)
    → laws.IsValid r
    → laws.remaining r ≡ bool_byte (flag_value v) ∷ rest
    → Reads laws (decode_bool >>= λ b. pure (flag_of (flag_type v) b)) r v rest
unpack_flag laws v rest r valid e =
    Reads-bind laws decode_bool (λ b. pure (flag_of (flag_type v) b)) r (flag_value v) v rest rest
      (decode_bool-Reads laws (flag_value v) rest r valid e)
      (λ r' valid' left. (r', ap (λ x. (r', ok x)) (flag_of_lem v), valid', left))

abbrev pub flags_laws : PackLaws flags
flags_laws = record {
  eq_iff = same_flag_iff;
  packed = λ v. bool_byte (flag_value v) ∷ [];
  pack-Appends = λ laws v m w room. encode_bool-Appends laws (flag_value v) m w room;
  unpack-Reads = λ laws v rest r valid e. unpack_flag laws v rest r valid e;
  pack_slice-Appends = λ laws t vs m w typed room more.
      pack_each-Appends (λ v. bool_byte (flag_value v) ∷ []) (λ v. flag_type v ≡ t) laws
        (λ v. encode_bool (flag_value v))
        (λ v m w typed room. encode_bool-Appends laws (flag_value v) m w room) vs m w typed room;
  unpack_vec-Reads = λ laws t vs rest r typed valid e.
      unpack_each-Reads (λ v. bool_byte (flag_value v) ∷ []) (λ v. flag_type v ≡ t) laws
        (decode_bool >>= λ b. pure (flag_of t b))
        (λ v rest r typed valid e.
          subst (λ k. Reads laws (decode_bool >>= λ b. pure (flag_of k b)) r v rest) typed
            (unpack_flag laws v rest r valid e))
        vs rest r typed valid e;
}
