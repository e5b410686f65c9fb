-- ===== src/Derive/Discriminants.antt =====
-- The discriminants that a derived implementation writes (macros/src/lib.rs) tell the variants
-- apart.
use lencode.Prelude.{
  ℕ, ◌+◌, ◌-◌, ◌^◌, ◌<◌, ◌≤◌, ◌*◌, ◌≡◌, ◌≢◌, refl, sym, ap, ◌∙◌, arith, zero, suc, ◌&&◌, ◌⊎◌, inl,
  inr, Bool, true, false, if◌then◌else◌, Option, none, some, List, [], ◌∷◌, length, All,
}
use lencode.Prelude.Pow.{pow_double, pow2_mono}
use lencode.Derive.Attributes.ReprMeta.{
  u8, u16, u32, u64, usize, i8, i16, i32, i64, isize, transparent, other,
}
use lencode.Derive.Attributes.{Repr, as_usize, ReprMeta, repr_ty, last_repr_ty, enum_repr_ty}
use lencode.Derive.Enums.{
  Variant, VariantFields, EnumItem, named, unnamed, unit, is_unit, is_c_like, numeric_repr,
  variant_disc, disc_of, Chosen,
}

-- The types that `enum_repr_ty` knows have 1 to 64 bits.
abbrev pub IsWord : Option Repr → Type 0
IsWord none = Unit
IsWord (some R) = (0 < R.bits) × (R.bits ≤ 64)

repr_ty-IsWord : (meta : ReprMeta) (out : Option Repr) → IsWord out → IsWord (repr_ty meta out)
unfolding repr_ty
repr_ty-IsWord u8 out w = (omega arith, omega arith)
repr_ty-IsWord u16 out w = (omega arith, omega arith)
repr_ty-IsWord u32 out w = (omega arith, omega arith)
repr_ty-IsWord u64 out w = (omega arith, omega arith)
repr_ty-IsWord usize out w = (omega arith, omega arith)
repr_ty-IsWord i8 out w = (omega arith, omega arith)
repr_ty-IsWord i16 out w = (omega arith, omega arith)
repr_ty-IsWord i32 out w = (omega arith, omega arith)
repr_ty-IsWord i64 out w = (omega arith, omega arith)
repr_ty-IsWord isize out w = (omega arith, omega arith)
repr_ty-IsWord transparent out w = w
repr_ty-IsWord other out w = w

last_repr_ty-IsWord :
    (out : Option Repr) (attrs : List ReprMeta) → IsWord out → IsWord (last_repr_ty out attrs)
unfolding last_repr_ty
last_repr_ty-IsWord out [] w = w
last_repr_ty-IsWord out (meta ∷ attrs) w =
    last_repr_ty-IsWord (repr_ty meta out) attrs (repr_ty-IsWord meta out w)

pub enum_repr_ty-IsWord : (attrs : List ReprMeta) → IsWord (enum_repr_ty attrs)
unfolding enum_repr_ty
enum_repr_ty-IsWord attrs = last_repr_ty-IsWord none attrs tt

-- The sign bit is where a pattern of so many bits is halved.
half : (n : ℕ) → 0 < n → 2 ^ n ≡ 2 * 2 ^ (n - 1)
half zero pos = absurd (omega arith)
half (suc n) pos = let e : suc n - 1 ≡ n = omega arith in pow_double n ∙ ap (λ k. 2 * 2 ^ k) (sym e)

pub as_usize-lt : (R : Repr) (p : ℕ) → IsWord (some R) → p < 2 ^ R.bits → as_usize R p < 2 ^ 64
unfolding as_usize
as_usize-lt R p (pos, small) fits =
    let wide : 2 ^ R.bits ≤ 2 ^ 64 = pow2_mono R.bits 64 small in ground arith

-- Two numbers of a type are the same `usize` only where they are the same.
pub as_usize-injective :
    (R : Repr) (p q : ℕ)
    → IsWord (some R)
    → p < 2 ^ R.bits
    → q < 2 ^ R.bits
    → as_usize R p ≡ as_usize R q
    → p ≡ q
unfolding as_usize
as_usize-injective R p q (pos, small) fits_p fits_q same =
    let wide : 2 ^ R.bits ≤ 2 ^ 64 = pow2_mono R.bits 64 small in
    let halves = half R.bits pos in ground arith

abbrev pub AllDifferent : List ℕ → Type 0
AllDifferent [] = Unit
AllDifferent (n ∷ ns) = All (λ m. m ≢ n) ns × AllDifferent ns

both : (a b : Bool) → a && b ≡ true → (a ≡ true) × (b ≡ true)
both true b h = (refl, h)
both false b h = cc

-- What the two cases have in common.
abbrev AreDiscs : List ℕ → Type 0
AreDiscs ns = AllDifferent ns × All (λ n. n < 2 ^ 64) ns

numeric_cases :
    (c : Bool) (R : Option Repr)
    → IsWord R
    → IsWord (if c then R else none) × (((if c then R else none) ≡ none) ⊎ (c ≡ true))
numeric_cases true R word = (word, inr refl)
numeric_cases false R word = (tt, inl refl)

module _ {X Y : Type 0} where
  -- What is written for the variants from an index on.
  abbrev pub discs : Option Repr → ℕ → List (Variant X Y) → List ℕ
  discs R idx [] = []
  discs R idx (v ∷ vs) = disc_of R idx v ∷ discs R (suc idx) vs

  -- What is written for the chosen one.
  abbrev pub disc_at : Option Repr → ℕ → (vs : List (Variant X Y)) → Chosen vs → ℕ
  disc_at R idx [] chosen = absurd chosen
  disc_at R idx (v ∷ vs) (inl fields) = disc_of R idx v
  disc_at R idx (v ∷ vs) (inr chosen) = disc_at R (suc idx) vs chosen

  pub disc_at-All :
      (P : ℕ → Type 0) (R : Option Repr) (idx : ℕ) (vs : List (Variant X Y)) (chosen : Chosen vs)
      → All P (discs R idx vs)
      → P (disc_at R idx vs chosen)
  disc_at-All P R idx [] chosen all = absurd chosen
  disc_at-All P R idx (v ∷ vs) (inl fields) (p, all) = p
  disc_at-All P R idx (v ∷ vs) (inr chosen) (p, all) = disc_at-All P R (suc idx) vs chosen all

  -- The compiler's part: the numbers of the variants are patterns of the type, no two the same.
  abbrev pub AreNumbers : Repr → List (Variant X Y) → Type 0
  AreNumbers R [] = Unit
  AreNumbers R (v ∷ vs) =
      (v.discriminant < 2 ^ R.bits)
      × All (λ (u : Variant X Y). u.discriminant ≢ v.discriminant) vs
      × AreNumbers R vs

  abbrev pub HasNumbers : Option Repr → List (Variant X Y) → Type 0
  HasNumbers none vs = Unit
  HasNumbers (some R) vs = AreNumbers R vs

  -- An enum as the compiler accepts it, with less than 2 ^ 64 variants.
  pub record IsEnum (E : EnumItem X Y) : Type 0 where
    pub small : length E.variants < 2 ^ 64
    pub numbers : HasNumbers (numeric_repr E) E.variants

  disc_of_index :
      (idx number : ℕ) (fields : VariantFields X Y) → variant_disc none idx number fields ≡ idx
  disc_of_index idx number (named Cs) = refl
  disc_of_index idx number (unnamed Cs) = refl
  disc_of_index idx number unit = refl

  indices-above :
      (idx k : ℕ) (vs : List (Variant X Y)) → k < idx → All (λ n. n ≢ k) (discs none idx vs)
  indices-above idx k [] above = tt
  indices-above idx k (v ∷ vs) above =
      let e = disc_of_index idx v.discriminant v.fields in
      ((λ same. absurd (omega arith)), indices-above (suc idx) k vs (omega arith))

  indices-AllDifferent : (idx : ℕ) (vs : List (Variant X Y)) → AllDifferent (discs none idx vs)
  indices-AllDifferent idx [] = tt
  indices-AllDifferent idx (v ∷ vs) =
      let e = disc_of_index idx v.discriminant v.fields in
      (rw e (indices-above (suc idx) idx vs (omega arith)), indices-AllDifferent (suc idx) vs)

  indices-lt :
      (idx : ℕ) (vs : List (Variant X Y))
      → idx + length vs < 2 ^ 64
      → All (λ n. n < 2 ^ 64) (discs none idx vs)
  indices-lt idx [] small = tt
  indices-lt idx (v ∷ vs) small =
      let e = disc_of_index idx v.discriminant v.fields in
      (omega arith, indices-lt (suc idx) vs (omega arith))

  disc_of_number :
      (R : Repr) (idx number : ℕ) (fields : VariantFields X Y)
      → is_unit fields ≡ true
      → variant_disc (some R) idx number fields ≡ as_usize R number
  disc_of_number R idx number (named Cs) plain = cc
  disc_of_number R idx number (unnamed Cs) plain = cc
  disc_of_number R idx number unit plain = refl

  numbers-other :
      (R : Repr) (idx p : ℕ) (vs : List (Variant X Y))
      → IsWord (some R)
      → is_c_like vs ≡ true
      → p < 2 ^ R.bits
      → All (λ (u : Variant X Y). u.discriminant ≢ p) vs
      → AreNumbers R vs
      → All (λ n. n ≢ as_usize R p) (discs (some R) idx vs)
  numbers-other R idx p [] word plain fits others ns = tt
  numbers-other R idx p (v ∷ vs) word plain fits (unlike, unlikes) (fit, different, ns) =
      let (unit_v, units) = both (is_unit v.fields) (is_c_like vs) plain in
      let e = disc_of_number R idx v.discriminant v.fields unit_v in
      (
        λ same. unlike (as_usize-injective R v.discriminant p word fit fits (sym e ∙ same)),
        numbers-other R (suc idx) p vs word units fits unlikes ns,
      )

  numbers-AllDifferent :
      (R : Repr) (idx : ℕ) (vs : List (Variant X Y))
      → IsWord (some R)
      → is_c_like vs ≡ true
      → AreNumbers R vs
      → AllDifferent (discs (some R) idx vs)
  numbers-AllDifferent R idx [] word plain ns = tt
  numbers-AllDifferent R idx (v ∷ vs) word plain (fit, different, ns) =
      let (unit_v, units) = both (is_unit v.fields) (is_c_like vs) plain in
      let e = disc_of_number R idx v.discriminant v.fields unit_v in
      (
        rw e (numbers-other R (suc idx) v.discriminant vs word units fit different ns),
        numbers-AllDifferent R (suc idx) vs word units ns,
      )

  numbers-lt :
      (R : Repr) (idx : ℕ) (vs : List (Variant X Y))
      → IsWord (some R)
      → is_c_like vs ≡ true
      → AreNumbers R vs
      → All (λ n. n < 2 ^ 64) (discs (some R) idx vs)
  numbers-lt R idx [] word plain ns = tt
  numbers-lt R idx (v ∷ vs) word plain (fit, different, ns) =
      let (unit_v, units) = both (is_unit v.fields) (is_c_like vs) plain in
      let e = disc_of_number R idx v.discriminant v.fields unit_v in
      (rw e (as_usize-lt R v.discriminant word fit), numbers-lt R (suc idx) vs word units ns)

  discs_lem :
      (R : Option Repr) (vs : List (Variant X Y))
      → IsWord R
      → (R ≡ none) ⊎ (is_c_like vs ≡ true)
      → length vs < 2 ^ 64
      → HasNumbers R vs
      → AreDiscs (discs R 0 vs)
  discs_lem none vs word plain small ns = (indices-AllDifferent 0 vs, indices-lt 0 vs (omega arith))
  discs_lem (some R) vs word (inl is_none) small ns = cc
  discs_lem (some R) vs word (inr plain) small ns =
      (numbers-AllDifferent R 0 vs word plain ns, numbers-lt R 0 vs word plain ns)

  -- The derived implementations of an enum write a different number for every variant, and each is
  -- a `usize`: by index, or by the discriminants of its `repr` type.
  pub discs-AllDifferent :
      (E : EnumItem X Y)
      → IsEnum E
      → AllDifferent (discs (numeric_repr E) 0 E.variants)
        × All (λ n. n < 2 ^ 64) (discs (numeric_repr E) 0 E.variants)
  discs-AllDifferent E is =
      let (word, plain) =
        numeric_cases (is_c_like E.variants) (enum_repr_ty E.attrs) (enum_repr_ty-IsWord E.attrs) in
      discs_lem (numeric_repr E) E.variants word plain is.small is.numbers
