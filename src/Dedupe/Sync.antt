-- ===== src/Dedupe/Sync.antt =====
-- The invariant between the encoder and the decoder of src/dedupe.rs, and what keeps it.
use lencode.Prelude.{
  ℕ, suc, ◌+◌, ◌-◌, ◌<◌, ◌≡◌, refl, sym, ap, ◌∙◌, arith, ◌==◌, if◌then◌else◌, false, Option, none,
  some, List, [], ◌∷◌, ◌++◌, length, get_elem?, ==_iff, Bool-cases, inl, inr, get_elem?-append_left,
  get_elem?-append_last, length-append, eq→==,
}
use mathlib.Core.Bool.{false≢true}
use lencode.Dedupe.Values.{Values, PackLaws}
use lencode.Dedupe.Encoder
use lencode.Dedupe.Decoder

module _ (V : Values) where
  typed_store-put_store :
      (s t : ℕ) (store : Encoder.Store V) (stores : List (ℕ × Encoder.Store V))
      → Encoder.typed_store V s (Encoder.put_store V t store stores)
        ≡ (if t == s then store else Encoder.typed_store V s stores)
  unfolding Encoder.typed_store Encoder.put_store
  typed_store-put_store s t store [] = ground arith
  typed_store-put_store s t store ((u, old) ∷ stores) =
      ground (arith, typed_store-put_store s t store stores)

  typed_store-remove_store :
      (s t : ℕ) (stores : List (ℕ × Encoder.Store V))
      → Encoder.typed_store V s (Encoder.remove_store V t stores)
        ≡ (if t == s then [] else Encoder.typed_store V s stores)
  unfolding Encoder.typed_store Encoder.remove_store
  typed_store-remove_store s t [] = ground arith
  typed_store-remove_store s t ((u, old) ∷ stores) =
      ground (arith, typed_store-remove_store s t stores)

  -- The id that the encoder has for a value.
  abbrev pub find : Encoder.DedupeEncoder V → V.Value → Option ℕ
  find e v = Encoder.id_of V v (Encoder.typed_store V (V.type_id v) e.type_stores)

  -- Each id that the encoder would write stands for its value in the decoder's table, and the next
  -- id is that of the next value pushed.
  pub record Sync (e : Encoder.DedupeEncoder V) (d : Decoder.DedupeDecoder V) : Type 0 where
    pub next : e.next_id ≡ suc (length d.values)
    pub found :
        (v : V.Value) (id : ℕ)
        → find e v ≡ some id
        → (0 < id) × (id < e.next_id) × (get_elem? d.values (id - 1) ≡ some v)

  find-with_store :
      (e : Encoder.DedupeEncoder V) (t : ℕ) (u : V.Value)
      → find (Encoder.with_store V t e) u ≡ find e u
  unfolding Encoder.with_store
  find-with_store e t u = elim (Bool-cases (t == V.type_id u)) [
    | inl same ↦ rw (
      typed_store-put_store (V.type_id u) t _ e.type_stores,
      same,
      (==_iff t (V.type_id u)).0 same,
    )
    | inr other ↦ rw (typed_store-put_store (V.type_id u) t _ e.type_stores, other)
  ]

  find-insert :
      (laws : PackLaws V) (e : Encoder.DedupeEncoder V) (v u : V.Value)
      → find (Encoder.insert V v e) u ≡ (if V.eq v u then some e.next_id else find e u)
  unfolding Encoder.insert Encoder.id_of
  find-insert laws e v u = elim (Bool-cases (V.type_id v == V.type_id u)) [
    | inl same ↦ rw (
      typed_store-put_store (V.type_id u) (V.type_id v) _ e.type_stores,
      same,
      ← (==_iff (V.type_id v) (V.type_id u)).0 same,
    )
    | inr other ↦
        rw (
          typed_store-put_store (V.type_id u) (V.type_id v) _ e.type_stores,
          other,
          differ v u other,
        )
  ]
    where
      differ : (v u : V.Value) → V.type_id v == V.type_id u ≡ false → V.eq v u ≡ false
      differ v u other = elim (Bool-cases (V.eq v u)) [
        | inl equal ↦ absurd (
            false≢true (
              sym other
              ∙ eq→== (V.type_id v) (V.type_id u) (ap V.type_id ((laws.eq_iff v u).0 equal))))
        | inr unequal ↦ unequal
      ]

  find-clear_type :
      (e : Encoder.DedupeEncoder V) (t : ℕ) (u : V.Value)
      → find (Encoder.clear_type V t e) u ≡ (if t == V.type_id u then none else find e u)
  unfolding Encoder.clear_type Encoder.id_of
  find-clear_type e t u = elim (Bool-cases (t == V.type_id u)) [
    | inl same ↦ rw (typed_store-remove_store (V.type_id u) t e.type_stores, same)
    | inr other ↦ rw (typed_store-remove_store (V.type_id u) t e.type_stores, other)
  ]

  pub Sync-new : Sync (Encoder.new V) (Decoder.new V)
  unfolding Encoder.new Decoder.new Encoder.typed_store Encoder.id_of
  Sync-new = record { next = refl; found = λ v id e. cc }

  -- `clear` on both sides starts again.
  pub Sync-clear :
      (e : Encoder.DedupeEncoder V) (d : Decoder.DedupeDecoder V)
      → Sync (Encoder.clear V e) (Decoder.clear V d)
  unfolding Encoder.clear Decoder.clear Encoder.typed_store Encoder.id_of
  Sync-clear e d = record { next = refl; found = λ v id e. cc }

  pub Sync-with_store :
      (e : Encoder.DedupeEncoder V) (d : Decoder.DedupeDecoder V) (t : ℕ)
      → Sync e d
      → Sync (Encoder.with_store V t e) d
  Sync-with_store e d t s = record {
    next = unfold Encoder.with_store in s.next;
    found = λ v id h. unfold Encoder.with_store in s.found v id (sym (find-with_store e t v) ∙ h);
  }

  -- If an encoder and a decoder are in step, they are still in step after `clear_type` on the
  -- encoder alone: the ids of the type are not used again.
  pub clear_type-Sync :
      (e : Encoder.DedupeEncoder V) (d : Decoder.DedupeDecoder V) (t : ℕ)
      → Sync e d
      → Sync (Encoder.clear_type V t e) d
  clear_type-Sync e d t s = record {
    next = unfold Encoder.clear_type in s.next;
    found = λ v id h. unfold Encoder.clear_type in s.found v id (kept v id h);
  }
    where
      kept :
          (v : V.Value) (id : ℕ) → find (Encoder.clear_type V t e) v ≡ some id → find e v ≡ some id
      kept v id h = elim (Bool-cases (t == V.type_id v)) [
        | inl same ↦ cc (rw (find-clear_type e t v, same) at h)
        | inr other ↦ rw (find-clear_type e t v, other) at h
      ]

  pub Sync-insert :
      (laws : PackLaws V) (e : Encoder.DedupeEncoder V) (d : Decoder.DedupeDecoder V) (v : V.Value)
      → Sync e d
      → Sync (Encoder.insert V v e) (Decoder.push V v d)
  Sync-insert laws e d v s = record {
    next =
        unfold Encoder.insert Decoder.push in
        omega (arith, s.next, length-append d.values (v ∷ []));
    found = λ u id h.
        unfold Encoder.insert Decoder.push in inserted u id (sym (find-insert laws e v u) ∙ h);
  }
    where
      inserted :
          (u : V.Value) (id : ℕ)
          → (if V.eq v u then some e.next_id else find e u) ≡ some id
          → (0 < id) × (id < e.next_id + 1) × (get_elem? (d.values ++ (v ∷ [])) (id - 1) ≡ some u)
      inserted u id h = elim (Bool-cases (V.eq v u)) [
        | inl equal ↦
            let same : some e.next_id ≡ some id = rw equal at h in
            let is : e.next_id ≡ id = cc same in
            let place : length d.values ≡ id - 1 = omega (arith, s.next) in
            (
              omega (arith, s.next),
              omega arith,
              ap (get_elem? (d.values ++ (v ∷ []))) (sym place)
                  ∙ get_elem?-append_last d.values v
                  ∙ ap some ((laws.eq_iff v u).0 equal),
            )
        | inr unequal ↦
            let (pos, below, at) = s.found u id (rw unequal at h) in
            (pos, omega arith, get_elem?-append_left d.values (v ∷ []) (id - 1) u at)
      ]
