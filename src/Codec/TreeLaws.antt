-- ===== src/Codec/TreeLaws.antt =====
-- `BTreeMap` and `BTreeSet` of src/lib.rs keep the promise of their keys and values: what is
-- decoded has the entries of what was encoded, in the same order.
use Prim.Native.Nat.{Ordering}
use Prim.Native.Nat.Ordering.{gt}
use mathlib.Core.Path.{subst}
use lencode.Prelude.{ℕ, ◌≡◌, refl, ap, Option, List, [], ◌∷◌, ◌++◌, All}
use lencode.Io.{Read, ReadLaws}
use lencode.Io.Context.{ReadsWith}
use lencode.Codec.Traits.{Coding}
use lencode.Context.Sync.{InStep}
use lencode.Codec.Laws.{CodingLaws}
use lencode.Codec.Items.{after_items, after_items_read, after_items-InStep}
use lencode.Codec.Lists.{ListCodable, list_coded, encode_list-Appends}
use lencode.Codec.Collections.{
  map_insert, set_insert, decode_collection, entry, btree_map, btree_set,
}
use lencode.Codec.CollectionLaws.{
  insert_all, Ascending, insert_all-Ascending, decode_collection-Reads, entry-CodingLaws,
}

-- The later key is the greater.
abbrev pub KeyBehind : {K V : Type 0} → (K → K → Ordering) → K × V → K × V → Type 0
KeyBehind cmp early late = cmp late.0 early.0 ≡ gt

abbrev pub Greater : {A : Type 0} → (A → A → Ordering) → A → A → Type 0
Greater cmp early late = cmp late early ≡ gt

map_insert_last :
    {K V : Type 0} (cmp : K → K → Ordering) (es : List (K × V)) (e : K × V)
    → All (λ u. KeyBehind cmp u e) es
    → map_insert cmp e es ≡ es ++ (e ∷ [])
unfolding map_insert
map_insert_last cmp [] e h = refl
map_insert_last cmp ((k, v) ∷ es) (key, value) (one, h) =
    rw (map_insert, one) (ap (λ t. (k, v) ∷ t) (map_insert_last cmp es (key, value) h))

set_insert_last :
    {A : Type 0} (cmp : A → A → Ordering) (vs : List A) (v : A)
    → All (λ u. Greater cmp u v) vs
    → set_insert cmp v vs ≡ vs ++ (v ∷ [])
unfolding set_insert
set_insert_last cmp [] v h = refl
set_insert_last cmp (u ∷ vs) v (one, h) =
    rw (set_insert, one) (ap (λ t. u ∷ t) (set_insert_last cmp vs v h))

module _ {X Y : Type 0} (S : X → Y → Type 0) where
  -- A collection that comes out as it was.
  sorted-Reads :
      (C : Coding X Y) (L : CodingLaws S C) (insert : C.Value → List C.Value → List C.Value)
      {R : Type 0} ⦃io : Read R⦄ (laws : ReadLaws io) (e : Option X) (d : Option Y)
      (vs : List C.Value) (rest : List ℕ) (r : R)
      → insert_all insert vs [] ≡ vs
      → InStep S e d
      → ListCodable S C L e vs
      → laws.IsValid r
      → laws.remaining r ≡ list_coded S C L e vs ++ rest
      → ReadsWith laws (decode_collection C insert []) d r vs (after_items_read S C L e d vs) rest
  sorted-Reads C L insert laws e d vs rest r same s fits valid left =
      subst
        (λ us.
          ReadsWith laws (decode_collection C insert []) d r us (after_items_read S C L e d vs)
            rest)
        same (decode_collection-Reads S C L insert [] laws e d vs rest r s fits valid left)

  module _ (K V : Coding X Y) (J : CodingLaws S K) (L : CodingLaws S V)
      (cmp : K.Value → K.Value → Ordering) where
    abbrev pub MapCodable : Option X → List (K.Value × V.Value) → Type 0
    MapCodable e es =
        Ascending (KeyBehind cmp) es × ListCodable S (entry K V) (entry-CodingLaws S K V J L) e es

    -- In step with the encoder, and from a valid reader whose next bytes are those of fewer than
    -- 2 ^ 64 codable entries in ascending order of their keys, `decode_ext` of a `BTreeMap` returns
    -- the map of these entries and leaves what follows.
    pub decode_btree_map-Reads :
        {R : Type 0} ⦃io : Read R⦄ (laws : ReadLaws io) (e : Option X) (d : Option Y)
        (es : List (K.Value × V.Value)) (rest : List ℕ) (r : R)
        → InStep S e d
        → MapCodable e es
        → laws.IsValid r
        → laws.remaining r ≡ list_coded S (entry K V) (entry-CodingLaws S K V J L) e es ++ rest
        → ReadsWith laws
            (decode_collection (entry K V) (map_insert cmp) [])
            d
            r
            es
            (after_items_read S (entry K V) (entry-CodingLaws S K V J L) e d es)
            rest
    decode_btree_map-Reads laws e d es rest r s (ascending, fits) valid left =
        sorted-Reads (entry K V) (entry-CodingLaws S K V J L) (map_insert cmp) laws e d es rest r
          (insert_all-Ascending (KeyBehind cmp) (map_insert cmp) (map_insert_last cmp) es ascending)
          s fits valid left

    abbrev pub btree_map-CodingLaws : CodingLaws S (btree_map K V cmp)
    btree_map-CodingLaws = record {
      coded = list_coded S (entry K V) (entry-CodingLaws S K V J L);
      IsCodable = MapCodable;
      after = after_items S (entry K V) (entry-CodingLaws S K V J L);
      after_read = after_items_read S (entry K V) (entry-CodingLaws S K V J L);
      after-InStep = λ e d es s fits.
          after_items-InStep S (entry K V) (entry-CodingLaws S K V J L) e d es s fits.1.1;
      encode-Appends = λ laws e d es m w s fits room more.
          encode_list-Appends S (entry K V) (entry-CodingLaws S K V J L) laws e d es m w s fits.1
            room more;
      decode-Reads = λ laws e d es rest r s fits valid left.
          decode_btree_map-Reads laws e d es rest r s fits valid left;
    }

  module _ (C : Coding X Y) (L : CodingLaws S C) (cmp : C.Value → C.Value → Ordering) where
    abbrev pub SetCodable : Option X → List C.Value → Type 0
    SetCodable e vs = Ascending (Greater cmp) vs × ListCodable S C L e vs

    -- In step with the encoder, and from a valid reader whose next bytes are those of fewer than
    -- 2 ^ 64 codable values in ascending order, `decode_ext` of a `BTreeSet` returns the set of
    -- these values and leaves what follows.
    pub decode_btree_set-Reads :
        {R : Type 0} ⦃io : Read R⦄ (laws : ReadLaws io) (e : Option X) (d : Option Y)
        (vs : List C.Value) (rest : List ℕ) (r : R)
        → InStep S e d
        → SetCodable e vs
        → laws.IsValid r
        → laws.remaining r ≡ list_coded S C L e vs ++ rest
        → ReadsWith laws
            (decode_collection C (set_insert cmp) [])
            d
            r
            vs
            (after_items_read S C L e d vs)
            rest
    decode_btree_set-Reads laws e d vs rest r s (ascending, fits) valid left =
        sorted-Reads C L (set_insert cmp) laws e d vs rest r
          (insert_all-Ascending (Greater cmp) (set_insert cmp) (set_insert_last cmp) vs ascending) s
          fits valid left

    abbrev pub btree_set-CodingLaws : CodingLaws S (btree_set C cmp)
    btree_set-CodingLaws = record {
      coded = list_coded S C L;
      IsCodable = SetCodable;
      after = after_items S C L;
      after_read = after_items_read S C L;
      after-InStep = λ e d vs s fits. after_items-InStep S C L e d vs s fits.1.1;
      encode-Appends = λ laws e d vs m w s fits room more.
          encode_list-Appends S C L laws e d vs m w s fits.1 room more;
      decode-Reads = λ laws e d vs rest r s fits valid left.
          decode_btree_set-Reads laws e d vs rest r s fits valid left;
    }
