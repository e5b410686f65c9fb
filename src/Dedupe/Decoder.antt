-- ===== src/Dedupe/Decoder.antt =====
-- src/dedupe.rs, `DedupeDecoder`.
use lencode.Prelude.{
  ℕ, ◌-◌, ◌==◌, if◌then◌else◌, Bool, Option, none, some, List, [], ◌∷◌, ◌++◌, length, get_elem?,
}
use lencode.Io.{M, ok, err, Read, invalid_data, ◌>>=◌}
use lencode.Io.Context.{on_right}
use lencode.Varint.Generic.{decode_varint}
use lencode.Dedupe.Values.{Values}

module _ (V : Values) where
  -- The value with id `i` stands at index `i - 1`.
  pub record DedupeDecoder : Type 0 where
    pub values : List V.Value

  unfoldable pub new : DedupeDecoder
  new = record { values = [] }

  unfoldable pub with_capacity : ℕ → DedupeDecoder
  with_capacity capacity = record { values = [] }

  unfoldable pub clear : DedupeDecoder → DedupeDecoder
  clear d = record d { values = [] }

  unfoldable pub len : DedupeDecoder → ℕ
  len d = length d.values

  unfoldable pub is_empty : DedupeDecoder → Bool
  is_empty d = length d.values == 0

  -- `self.values.push(...)`
  unfoldable pub push : V.Value → DedupeDecoder → DedupeDecoder
  push v d = record d { values = d.values ++ (v ∷ []) }

  -- `downcast_ref::<T>()`, at the type with id `t`.
  unfoldable pub downcast : ℕ → V.Value → Option V.Value
  downcast t v = if V.type_id v == t then some v else none

  -- The value with an id above 0, if there is one and it is of the type with id `t`.
  unfoldable pub cached : ℕ → ℕ → DedupeDecoder → Option V.Value
  unfolding downcast
  cached t id d = elim (get_elem? d.values (id - 1)) [ none ↦ none | some v ↦ downcast t v ]

  -- The value with an id above 0 is copied out of the table.
  unfoldable pub from_table : {R : Type 0} → ℕ → ℕ → M (DedupeDecoder × R) V.Value
  unfolding cached
  from_table t id (d, r) = elim (cached t id d) [
    | some v ↦ ((d, r), ok v)
    | none ↦ ((d, r), err invalid_data)
  ]

  unfoldable pub after_id : {R : Type 0} ⦃io : Read R⦄ → ℕ → ℕ → M (DedupeDecoder × R) V.Value
  unfolding push from_table
  after_id t id =
      if id == 0
      then (on_right (V.unpack t) >>= λ v (d, r). ((push v d, r), ok v))
      else from_table t id

  -- `decode::<T>`, at the type with id `t`.
  unfoldable pub decode : {R : Type 0} ⦃io : Read R⦄ → ℕ → M (DedupeDecoder × R) V.Value
  unfolding after_id
  decode t = on_right (decode_varint 8) >>= after_id t
