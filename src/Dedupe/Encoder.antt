-- ===== src/Dedupe/Encoder.antt =====
-- src/dedupe.rs, `DedupeEncoder`.
use lencode.Prelude.{
  ℕ, ◌+◌, ◌-◌, ◌==◌, if◌then◌else◌, Bool, true, false, Option, none, some, List, [], ◌∷◌, length,
}
use mathlib.Core.List.{map}
use lencode.Io.{M, Write, pure, ◌>>=◌}
use lencode.Io.Context.{on_right}
use lencode.Varint.Generic.{encode_varint}
use lencode.Dedupe.Values.{Values}

-- `DEFAULT_INITIAL_CAPACITY`
abbrev pub default_initial_capacity : ℕ
default_initial_capacity = 128

module _ (V : Values) where
  -- One map of a type's values to their ids, and the maps of all types by `TypeId`.
  abbrev pub Store : Type 0
  Store = List (V.Value × ℕ)

  pub record DedupeEncoder : Type 0 where
    pub type_stores : List (ℕ × Store)
    pub next_id : ℕ
    pub initial_capacity : ℕ

  unfoldable pub new : DedupeEncoder
  new = record { type_stores = []; next_id = 1; initial_capacity = default_initial_capacity }

  unfoldable pub with_capacity : ℕ → ℕ → DedupeEncoder
  with_capacity capacity num_types = record {
    type_stores = [];
    next_id = 1;
    initial_capacity = capacity;
  }

  unfoldable pub clear : DedupeEncoder → DedupeEncoder
  clear e = record e { type_stores = []; next_id = 1 }

  unfoldable pub len : DedupeEncoder → ℕ
  len e = e.next_id - 1

  unfoldable pub is_empty : DedupeEncoder → Bool
  is_empty e = e.next_id == 1

  unfoldable pub num_types : DedupeEncoder → ℕ
  num_types e = length e.type_stores

  unfoldable pub type_ids : DedupeEncoder → List ℕ
  type_ids e = map (λ p. p.0) e.type_stores

  -- `HashMap::get` on the maps by type.
  unfoldable pub store_of : ℕ → List (ℕ × Store) → Option Store
  store_of t [] = none
  store_of t ((s, store) ∷ stores) = if s == t then some store else store_of t stores

  unfoldable pub contains_type : ℕ → DedupeEncoder → Bool
  unfolding store_of
  contains_type t e = elim (store_of t e.type_stores) [ none ↦ false | some store ↦ true ]

  unfoldable pub len_for_type : ℕ → DedupeEncoder → ℕ
  unfolding store_of
  len_for_type t e = elim (store_of t e.type_stores) [ none ↦ 0 | some store ↦ length store ]

  unfoldable pub values_for_type : ℕ → DedupeEncoder → List V.Value
  unfolding store_of
  values_for_type t e = elim (store_of t e.type_stores) [
    | none ↦ []
    | some store ↦ map (λ p. p.0) store
  ]

  -- `HashMap::remove`
  unfoldable pub remove_store : ℕ → List (ℕ × Store) → List (ℕ × Store)
  remove_store t [] = []
  remove_store t ((s, store) ∷ stores) =
      let others = remove_store t stores in if s == t then others else (s, store) ∷ others

  unfoldable pub clear_type : ℕ → DedupeEncoder → DedupeEncoder
  unfolding remove_store
  clear_type t e = record e { type_stores = remove_store t e.type_stores }

  -- `HashMap::get` on one type's map.
  unfoldable pub id_of : V.Value → Store → Option ℕ
  id_of v [] = none
  id_of v ((u, id) ∷ store) = if V.eq u v then some id else id_of v store

  -- `entry(type_id).or_insert_with(...)`, read.
  unfoldable pub typed_store : ℕ → List (ℕ × Store) → Store
  unfolding store_of
  typed_store t stores = elim (store_of t stores) [ none ↦ [] | some store ↦ store ]

  -- `entry(type_id).or_insert_with(...)`, written back.
  unfoldable pub put_store : ℕ → Store → List (ℕ × Store) → List (ℕ × Store)
  put_store t new_store [] = (t, new_store) ∷ []
  put_store t new_store ((s, store) ∷ stores) =
      if s == t then (t, new_store) ∷ stores else (s, store) ∷ put_store t new_store stores

  -- The state after a value that was seen: its type has a map now, if it had none.
  unfoldable pub with_store : ℕ → DedupeEncoder → DedupeEncoder
  unfolding typed_store put_store
  with_store t e = record e {
    type_stores = put_store t (typed_store t e.type_stores) e.type_stores;
  }

  -- The state after a new value: the next id is its own.
  unfoldable pub insert : V.Value → DedupeEncoder → DedupeEncoder
  unfolding typed_store put_store
  insert v e =
      let t = V.type_id v in
      record e {
        type_stores = put_store t ((v, e.next_id) ∷ typed_store t e.type_stores) e.type_stores;
        next_id = e.next_id + 1;
      }

  -- The bytes of a new value: the id 0, and the value packed.
  unfoldable pub encode_new : {W : Type 0} ⦃io : Write W⦄ → V.Value → M W ℕ
  encode_new v = encode_varint 8 0 >>= λ a. V.pack v >>= λ b. pure (a + b)

  -- The encoder's state changes before anything is written, so it is kept also when a write fails.
  unfoldable pub encode : {W : Type 0} ⦃io : Write W⦄ → V.Value → M (DedupeEncoder × W) ℕ
  unfolding typed_store id_of with_store insert encode_new
  encode v (e, w) = elim (id_of v (typed_store (V.type_id v) e.type_stores)) [
    | some id ↦ on_right (encode_varint 8 id) (with_store (V.type_id v) e, w)
    | none ↦ on_right (encode_new v) (insert v e, w)
  ]
