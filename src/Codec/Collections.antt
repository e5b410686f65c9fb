-- ===== src/Codec/Collections.antt =====
-- src/lib.rs, `Encode` and `Decode` for `BTreeMap`, `BTreeSet`, `HashMap`, `HashSet` and
-- `BinaryHeap`: the length, then what the iterator gives; the decoder inserts one by one.
use Prim.Native.Nat.{Ordering}
use Prim.Native.Nat.Ordering.{lt, eq, gt}
use lencode.Prelude.{ℕ, zero, suc, ◌+◌, Option, List, [], ◌∷◌}
use lencode.Io.{M, Read, Write, pure, ◌>>=◌, ◌⊕◌}
use lencode.Io.Context.{on_right}
use lencode.Codec.Traits.{Coding, decode_len}
use lencode.Codec.Sequences.{encode_list}

-- `BTreeMap::insert` on the entries in order: the old key stays where it is equal.
unfoldable pub map_insert :
    {K V : Type 0} → (K → K → Ordering) → K × V → List (K × V) → List (K × V)
map_insert cmp entry [] = entry ∷ []
map_insert cmp (key, value) ((k, v) ∷ entries) = elim (cmp key k) [
  | lt ↦ (key, value) ∷ (k, v) ∷ entries
  | eq ↦ (k, value) ∷ entries
  | gt ↦ (k, v) ∷ map_insert cmp (key, value) entries
]

-- `BTreeSet::insert`: a value that is there already is not put in again.
unfoldable pub set_insert : {A : Type 0} → (A → A → Ordering) → A → List A → List A
set_insert cmp value [] = value ∷ []
set_insert cmp value (v ∷ values) = elim (cmp value v) [
  | lt ↦ value ∷ v ∷ values
  | eq ↦ v ∷ values
  | gt ↦ v ∷ set_insert cmp value values
]

module _ {X Y : Type 0} where
  -- `for _ in 0..len { let value = T::decode_ext(...)?; collection.insert(value); }`
  unfoldable pub decode_into :
      (C : Coding X Y) {A : Type 0} {R : Type 0} ⦃io : Read R⦄
      → (C.Value → A → A)
      → ℕ
      → A
      → M (Option Y × R) A
  decode_into C insert zero collection = pure collection
  decode_into C insert (suc len) collection =
      C.decode_ext >>= λ value. decode_into C insert len (insert value collection)

  unfoldable pub decode_collection :
      (C : Coding X Y) {A : Type 0} {R : Type 0} ⦃io : Read R⦄
      → (C.Value → A → A)
      → A
      → M (Option Y × R) A
  unfolding decode_into decode_len
  decode_collection C insert empty = on_right decode_len >>= λ len. decode_into C insert len empty

  -- A key, then its value.
  module _ (K V : Coding X Y) where
    unfoldable pub encode_entry :
        {W : Type 0} ⦃io : Write W⦄ → K.Value × V.Value → M (Option X × W) ℕ
    encode_entry (key, value) = K.encode_ext key ⊕ V.encode_ext value

    unfoldable pub decode_entry : {R : Type 0} ⦃io : Read R⦄ → M (Option Y × R) (K.Value × V.Value)
    decode_entry = K.decode_ext >>= λ key. V.decode_ext >>= λ value. pure (key, value)

    abbrev pub entry : Coding X Y
    entry = record {
      Value = K.Value × V.Value;
      size_of = K.size_of + V.size_of;
      encode_ext = encode_entry;
      decode_ext = decode_entry;
    }

    -- A map is the list of its entries by key.
    abbrev pub btree_map : (K.Value → K.Value → Ordering) → Coding X Y
    btree_map cmp = record {
      Value = List (K.Value × V.Value);
      size_of = 24;
      encode_ext = encode_list entry;
      decode_ext = decode_collection entry (map_insert cmp) [];
    }

    -- A hash map gives its entries in an order of its own, and is built by its own `insert`.
    unfoldable pub encode_hash_map :
        {W : Type 0} ⦃io : Write W⦄ → List (K.Value × V.Value) → M (Option X × W) ℕ
    encode_hash_map entries = encode_list entry entries

    unfoldable pub decode_hash_map :
        {A : Type 0} {R : Type 0} ⦃io : Read R⦄
        → (K.Value → V.Value → A → A)
        → A
        → M (Option Y × R) A
    decode_hash_map insert empty =
        decode_collection entry (λ key_value. insert key_value.0 key_value.1) empty

  module _ (C : Coding X Y) where
    abbrev pub btree_set : (C.Value → C.Value → Ordering) → Coding X Y
    btree_set cmp = record {
      Value = List C.Value;
      size_of = 24;
      encode_ext = encode_list C;
      decode_ext = decode_collection C (set_insert cmp) [];
    }

    unfoldable pub encode_hash_set : {W : Type 0} ⦃io : Write W⦄ → List C.Value → M (Option X × W) ℕ
    encode_hash_set values = encode_list C values

    unfoldable pub decode_hash_set :
        {A : Type 0} {R : Type 0} ⦃io : Read R⦄ → (C.Value → A → A) → A → M (Option Y × R) A
    decode_hash_set insert empty = decode_collection C insert empty

    -- The values of a heap in the order of its array, and its `push`.
    unfoldable pub encode_heap : {W : Type 0} ⦃io : Write W⦄ → List C.Value → M (Option X × W) ℕ
    encode_heap values = encode_list C values

    unfoldable pub decode_heap :
        {A : Type 0} {R : Type 0} ⦃io : Read R⦄ → (C.Value → A → A) → A → M (Option Y × R) A
    decode_heap push empty = decode_collection C push empty
