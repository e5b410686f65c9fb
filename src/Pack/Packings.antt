-- ===== src/Pack/Packings.antt =====
-- src/pack.rs, the trait `Pack`, and what implements it: numbers and arrays.
use lencode.Prelude.{ℕ, zero, suc, ◌*◌, List, [], ◌∷◌, take, drop}
use mathlib.Core.List.{flatten}
use lencode.Io.{M, Read, Write, pure, ◌>>=◌, ◌⊕◌}
use lencode.Pack.Blocks.{write_block, read_block, pack_word, unpack_word}

-- An implementation with all of its methods.
pub record Packing : Type 1 where
  pub Value : Type 0
  pub pack : {W : Type 0} ⦃io : Write W⦄ → Value → M W ℕ
  pub unpack : {R : Type 0} ⦃io : Read R⦄ → M R Value
  pub pack_slice : {W : Type 0} ⦃io : Write W⦄ → List Value → M W ℕ
  pub unpack_vec : {R : Type 0} ⦃io : Read R⦄ → ℕ → M R (List Value)

-- `for item in items { total += item.pack(writer)?; }`
unfoldable pub pack_each : {A W : Type 0} ⦃io : Write W⦄ → (A → M W ℕ) → List A → M W ℕ
pack_each pack [] = pure 0
pack_each pack (item ∷ items) = pack item ⊕ pack_each pack items

-- `for _ in 0..count { vec.push(Self::unpack(reader)?); }`
unfoldable pub unpack_each : {A R : Type 0} ⦃io : Read R⦄ → M R A → ℕ → M R (List A)
unpack_each unpack zero = pure []
unpack_each unpack (suc count) =
    unpack >>= λ item. unpack_each unpack count >>= λ items. pure (item ∷ items)

-- A number of `k` bytes, with the methods by default.
abbrev pub word : ℕ → Packing
word k = record {
  Value = ℕ;
  pack = pack_word k;
  unpack = unpack_word k;
  pack_slice = pack_each (pack_word k);
  unpack_vec = unpack_each (unpack_word k);
}

-- The bytes of `count` arrays, cut.
unfoldable pub chunks : ℕ → ℕ → List ℕ → List (List ℕ)
chunks n zero bytes = []
chunks n (suc count) bytes = take n bytes ∷ chunks n count (drop n bytes)

-- The bytes of all arrays by one call of `write`.
unfoldable pub write_blocks : {W : Type 0} ⦃io : Write W⦄ → List (List ℕ) → M W ℕ
write_blocks ⦃io⦄ items = io.write (flatten items)

-- The bytes of `count` arrays at once.
unfoldable pub read_blocks : {R : Type 0} ⦃io : Read R⦄ → ℕ → ℕ → M R (List (List ℕ))
unfolding chunks read_block
read_blocks n count = read_block (n * count) >>= λ bytes. pure (chunks n count bytes)

-- `[u8; N]`
abbrev pub byte_block : ℕ → Packing
byte_block n = record {
  Value = List ℕ;
  pack = write_block;
  unpack = read_block n;
  pack_slice = write_blocks;
  unpack_vec = read_blocks n;
}

-- `[T; N]` at a type other than `u8`: item by item.
abbrev pub array : ℕ → Packing → Packing
array n P = record {
  Value = List P.Value;
  pack = pack_each P.pack;
  unpack = unpack_each P.unpack n;
  pack_slice = pack_each (pack_each P.pack);
  unpack_vec = unpack_each (unpack_each P.unpack n);
}
