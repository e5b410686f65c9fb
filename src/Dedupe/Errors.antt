-- ===== src/Dedupe/Errors.antt =====
-- The ids that `DedupeDecoder::decode` of src/dedupe.rs refuses.
use lencode.Prelude.{
  ℕ, zero, suc, ◌-◌, ◌^◌, ◌≤◌, ◌<◌, ◌≡◌, ◌⊎◌, refl, arith, ◌==◌, pos→ne_zero, inl, inr, false, none,
  some, List, [], ◌∷◌, ◌++◌, length, get_elem?,
}
use lencode.Io.{err, invalid_data, Read, ReadLaws, Reads}
use lencode.Varint.Generic.{decode_varint}
use lencode.Varint.Encoding.{encoding}
use lencode.Varint.DecodeGeneric.{decode_varint-Reads}
use lencode.Dedupe.Values.{Values}
use lencode.Dedupe.Decoder

get_elem?_past : {A : Type 0} (xs : List A) (i : ℕ) → length xs ≤ i → get_elem? xs i ≡ none
get_elem?_past [] i h = refl
get_elem?_past (x ∷ xs) zero h = absurd (omega arith)
get_elem?_past (x ∷ xs) (suc i) h = get_elem?_past xs i (omega arith)

module _ (V : Values) where
  -- The table has no value with the id, or one of another type than that with id `t`.
  abbrev pub IsUnknown : ℕ → ℕ → Decoder.DedupeDecoder V → Type 0
  IsUnknown t id d =
      (length d.values < id)
      ⊎ ((v : V.Value) × (get_elem? d.values (id - 1) ≡ some v) × (V.type_id v == t ≡ false))

  cached_unknown :
      (t id : ℕ) (d : Decoder.DedupeDecoder V) → IsUnknown t id d → Decoder.cached V t id d ≡ none
  unfolding Decoder.cached Decoder.downcast
  cached_unknown t id d (inl past) =
      rw (get_elem?_past d.values (id - 1) (omega arith), Decoder.cached) refl
  cached_unknown t id d (inr (v, at, other)) = rw (at, Decoder.cached) (rw other refl)

  -- From a valid reader whose next bytes are an id from 1 to 2 ^ 64 - 1 for which the table has no
  -- value of the type asked for, `decode` answers `InvalidData`; the table stays as it was, and
  -- what follows the id is left.
  pub decode_unknown_id :
      {R : Type 0} ⦃io : Read R⦄ (laws : ReadLaws io) (t id : ℕ) (d : Decoder.DedupeDecoder V)
      (rest : List ℕ) (r : R)
      → 0 < id
      → id < 2 ^ 64
      → IsUnknown t id d
      → laws.IsValid r
      → laws.remaining r ≡ encoding 8 id ++ rest
      → (r' : R) × (Decoder.decode V t (d, r) ≡ ((d, r'), err invalid_data))
        × (laws.remaining r' ≡ rest)
  unfolding Decoder.decode Decoder.after_id Decoder.from_table
  decode_unknown_id {R} laws t id d rest r pos small unknown valid e =
      go (decode_varint-Reads laws 8 id rest r (omega arith) (omega arith) (omega arith) valid e)
    where
      go :
          Reads laws (decode_varint 8) r id rest
          → (r' : R) × (Decoder.decode V t (d, r) ≡ ((d, r'), err invalid_data))
            × (laws.remaining r' ≡ rest)
      go (r', h, valid', left) = (
        r',
        rw (h, pos→ne_zero id pos) (rw (cached_unknown t id d unknown, Decoder.from_table) refl),
        left,
      )
