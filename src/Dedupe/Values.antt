-- ===== src/Dedupe/Values.antt =====
-- The values that src/dedupe.rs works on. The Rust code is generic over types with `Hash`, `Eq` and
-- `Pack`, and stores values of all of them as `dyn Any`: here one type holds the values of all
-- types, each with its `TypeId`, and what the types implement is an interface.
use lencode.Prelude.{ℕ, ◌+◌, ◌<◌, ◌≡◌, ◌↔◌, Bool, true, List, ◌++◌, length, All}
use lencode.Pack.PackingLaws.{packed_each}
use lencode.Io.{M, Read, Write, ReadLaws, WriteLaws, Reads, Appends}

-- `unpack t` reads a value of the type with id `t`; `pack_slice t` and `unpack_vec t` are the slice
-- methods of this type, its own or those by default.
pub record Values : Type 1 where
  pub Value : Type 0
  pub type_id : Value → ℕ
  pub eq : Value → Value → Bool
  pub pack : {W : Type 0} ⦃io : Write W⦄ → Value → M W ℕ
  pub unpack : {R : Type 0} ⦃io : Read R⦄ → ℕ → M R Value
  pub pack_slice : {W : Type 0} ⦃io : Write W⦄ → ℕ → List Value → M W ℕ
  pub unpack_vec : {R : Type 0} ⦃io : Read R⦄ → ℕ → ℕ → M R (List Value)

-- What the encoder relies on: `Eq` is equality; each value has bytes, which `pack` appends and
-- `unpack` reads back; and a slice of values of one type has theirs, one after another, which
-- `pack_slice` appends, where there is room for one byte more, and `unpack_vec` reads back.
pub record PackLaws (V : Values) : Type 1 where
  pub eq_iff : (a b : V.Value) → (V.eq a b ≡ true) ↔ (a ≡ b)
  pub packed : V.Value → List ℕ
  pub pack-Appends :
      {W : Type 0} ⦃io : Write W⦄ (laws : WriteLaws io) (v : V.Value) (m : ℕ) (w : W)
      → laws.Room w (length (packed v) + m)
      → Appends laws (V.pack v) w (packed v) m
  pub unpack-Reads :
      {R : Type 0} ⦃io : Read R⦄ (laws : ReadLaws io) (v : V.Value) (rest : List ℕ) (r : R)
      → laws.IsValid r
      → laws.remaining r ≡ packed v ++ rest
      → Reads laws (V.unpack (V.type_id v)) r v rest
  pub pack_slice-Appends :
      {W : Type 0} ⦃io : Write W⦄ (laws : WriteLaws io) (t : ℕ) (vs : List V.Value) (m : ℕ) (w : W)
      → All (λ v. V.type_id v ≡ t) vs
      → laws.Room w (length (packed_each packed vs) + m)
      → 0 < m
      → Appends laws (V.pack_slice t vs) w (packed_each packed vs) m
  pub unpack_vec-Reads :
      {R : Type 0} ⦃io : Read R⦄ (laws : ReadLaws io) (t : ℕ) (vs : List V.Value) (rest : List ℕ)
      (r : R)
      → All (λ v. V.type_id v ≡ t) vs
      → laws.IsValid r
      → laws.remaining r ≡ packed_each packed vs ++ rest
      → Reads laws (V.unpack_vec t (length vs)) r vs rest
