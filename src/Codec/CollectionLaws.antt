-- ===== src/Codec/CollectionLaws.antt =====
-- What the collections of src/lib.rs decode: the items inserted one by one into an empty one.
use lencode.Prelude.{
  ◌<◌, ℕ, ◌+◌, ◌≡◌, refl, sym, ◌∙◌, Option, List, [], ◌∷◌, ◌++◌, length, append_assoc, append-nil,
  All,
}
use lencode.Io.{Read, Write, ReadLaws, WriteLaws}
use lencode.Io.Context.{AppendsWith, ReadsWith, ReadsWith-bind}
use lencode.Codec.Traits.{Coding}
use lencode.Context.Sync.{InStep}
use lencode.Codec.Laws.{CodingLaws}
use lencode.Codec.Items.{items_coded, ItemsCodable, after_items_read}
use lencode.Codec.Lists.{ListCodable, list_coded, len-bind-Reads}
use lencode.Codec.PairLaws.{
  ends_coded, EndsCodable, after_ends_read, after_ends-InStep, ends-Appends, ends-Reads,
}
use lencode.Codec.Collections.{decode_into, decode_collection, encode_entry, decode_entry, entry}

-- Values inserted from the first to the last.
abbrev pub insert_all : {V A : Type 0} → (V → A → A) → List V → A → A
insert_all insert [] collection = collection
insert_all insert (v ∷ vs) collection = insert_all insert vs (insert v collection)

module _ {V : Type 0} (Behind : V → V → Type 0) where
  -- Each value stands behind all those before it.
  abbrev pub Ascending : List V → Type 0
  Ascending [] = Unit
  Ascending (v ∷ vs) = All (Behind v) vs × Ascending vs

  -- All of `vs` stand behind all of `us`.
  abbrev AllBehind : List V → List V → Type 0
  AllBehind us vs = All (λ u. All (Behind u) vs) us

  split_behind :
      (us vs : List V) (v : V) → AllBehind us (v ∷ vs) → All (λ u. Behind u v) us × AllBehind us vs
  split_behind [] vs v h = (tt, tt)
  split_behind (u ∷ us) vs v ((one, more), h) =
      let (ones, mores) = split_behind us vs v h in ((one, ones), (more, mores))

  behind-snoc :
      (us vs : List V) (v : V) → AllBehind us vs → All (Behind v) vs → AllBehind (us ++ (v ∷ [])) vs
  behind-snoc [] vs v h g = (g, tt)
  behind-snoc (u ∷ us) vs v (one, h) g = (one, behind-snoc us vs v h g)

  -- A collection that puts a value behind those that it stands behind ends up with the values in
  -- their order.
  module _ (insert : V → List V → List V)
      (at_end : (us : List V) (v : V)
        → All (λ u. Behind u v) us
        → insert v us ≡ us ++ (v ∷ [])) where
    insert_all-behind :
        (vs us : List V) → AllBehind us vs → Ascending vs → insert_all insert vs us ≡ us ++ vs
    insert_all-behind [] us h a = sym (append-nil us)
    insert_all-behind (v ∷ vs) us h (behind, a) =
        let (ones, mores) = split_behind us vs v h in
        rw (at_end us v ones)
          (insert_all-behind vs (us ++ (v ∷ [])) (behind-snoc us vs v mores behind) a)
        ∙ append_assoc us (v ∷ []) vs

    pub insert_all-Ascending : (vs : List V) → Ascending vs → insert_all insert vs [] ≡ vs
    insert_all-Ascending vs a = insert_all-behind vs [] tt a

module _ {X Y : Type 0} (S : X → Y → Type 0) where
  module _ (C : Coding X Y) (L : CodingLaws S C) where
    decode_into-Reads :
        {A : Type 0} (insert : C.Value → A → A) (collection : A) {R : Type 0} ⦃io : Read R⦄
        (laws : ReadLaws io) (e : Option X) (d : Option Y) (vs : List C.Value) (rest : List ℕ)
        (r : R)
        → InStep S e d
        → ItemsCodable S C L e vs
        → laws.IsValid r
        → laws.remaining r ≡ items_coded S C L e vs ++ rest
        → ReadsWith laws
            (decode_into C insert (length vs) collection)
            d
            r
            (insert_all insert vs collection)
            (after_items_read S C L e d vs)
            rest
    unfolding decode_into
    decode_into-Reads insert collection laws e d [] rest r s fits valid left =
        (r, refl, valid, left)
    decode_into-Reads insert collection laws e d (v ∷ vs) rest r s (fit, fits) valid left =
        let e' = L.after e v in
        let d' = L.after_read e d v in
        let back = items_coded S C L e' vs in
        ReadsWith-bind laws C.decode_ext
          (λ value. decode_into C insert (length vs) (insert value collection)) d d'
          (after_items_read S C L e' d' vs) r v (insert_all insert vs (insert v collection))
          (back ++ rest) rest
          (L.decode-Reads laws e d v (back ++ rest) r s fit valid (left ∙ append_assoc _ back rest))
          (λ r' valid' left'.
            decode_into-Reads insert (insert v collection) laws e' d' vs rest r'
              (L.after-InStep e d v s fit) fits valid' left')

    -- In step with the encoder, and from a valid reader whose next bytes are those of a list of
    -- fewer than 2 ^ 64 codable items, the decoder of a collection returns what inserting the items
    -- one by one into the empty collection gives, and leaves what follows.
    pub decode_collection-Reads :
        {A : Type 0} (insert : C.Value → A → A) (empty : A) {R : Type 0} ⦃io : Read R⦄
        (laws : ReadLaws io) (e : Option X) (d : Option Y) (vs : List C.Value) (rest : List ℕ)
        (r : R)
        → InStep S e d
        → ListCodable S C L e vs
        → laws.IsValid r
        → laws.remaining r ≡ list_coded S C L e vs ++ rest
        → ReadsWith laws
            (decode_collection C insert empty)
            d
            r
            (insert_all insert vs empty)
            (after_items_read S C L e d vs)
            rest
    unfolding decode_collection
    decode_collection-Reads insert empty laws e d vs rest r s (small, fits) valid left =
        len-bind-Reads laws (length vs) (λ len. decode_into C insert len empty) d
          (after_items_read S C L e d vs) (items_coded S C L e vs) rest r
          (insert_all insert vs empty) small valid left
          (λ r' valid' left'.
            decode_into-Reads insert empty laws e d vs rest r' s fits valid' left')

  module _ (K V : Coding X Y) (J : CodingLaws S K) (L : CodingLaws S V) where
    pub encode_entry-Appends :
        {W : Type 0} ⦃io : Write W⦄ (laws : WriteLaws io) (e : Option X) (d : Option Y)
        (key_value : K.Value × V.Value) (m : ℕ) (w : W)
        → InStep S e d
        → EndsCodable S K V J L e key_value.0 key_value.1
        → laws.Room w (length (ends_coded S K V J L e key_value.0 key_value.1) + m)
        → 0 < m
        → AppendsWith laws
            (encode_entry K V key_value)
            e
            w
            (ends_coded S K V J L e key_value.0 key_value.1)
            (L.after (J.after e key_value.0) key_value.1)
            m
    unfolding encode_entry
    encode_entry-Appends laws e d (key, value) m w s fits room more =
        ends-Appends S K V J L laws e d key value m w s fits room more

    pub decode_entry-Reads :
        {R : Type 0} ⦃io : Read R⦄ (laws : ReadLaws io) (e : Option X) (d : Option Y)
        (key_value : K.Value × V.Value) (rest : List ℕ) (r : R)
        → InStep S e d
        → EndsCodable S K V J L e key_value.0 key_value.1
        → laws.IsValid r
        → laws.remaining r ≡ ends_coded S K V J L e key_value.0 key_value.1 ++ rest
        → ReadsWith laws
            (decode_entry K V)
            d
            r
            key_value
            (after_ends_read S K V J L e d key_value.0 key_value.1)
            rest
    unfolding decode_entry
    decode_entry-Reads laws e d (key, value) rest r s fits valid left =
        ends-Reads S K V J L (λ k v. (k, v)) laws e d key value rest r s fits valid left

    abbrev pub entry-CodingLaws : CodingLaws S (entry K V)
    entry-CodingLaws = record {
      coded = λ e kv. ends_coded S K V J L e kv.0 kv.1;
      IsCodable = λ e kv. EndsCodable S K V J L e kv.0 kv.1;
      after = λ e kv. L.after (J.after e kv.0) kv.1;
      after_read = λ e d kv. after_ends_read S K V J L e d kv.0 kv.1;
      after-InStep = λ e d kv s fits. after_ends-InStep S K V J L e d kv.0 kv.1 s fits;
      encode-Appends =
          λ laws e d kv m w s fits room more. encode_entry-Appends laws e d kv m w s fits room more;
      decode-Reads = λ laws e d kv rest r s fits valid left.
          decode_entry-Reads laws e d kv rest r s fits valid left;
    }
