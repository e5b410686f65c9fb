-- ===== src/Codec/HashLaws.antt =====
-- `HashMap`, `HashSet` and `BinaryHeap` of src/lib.rs: what is decoded has the keys and values of
-- what was encoded, whatever order the iterator took. The collections of the standard library are
-- known here by what they promise.
use mathlib.Core.List.{Perm, perm_middle}
use mathlib.Core.List.Perm
use lencode.Prelude.{
  ℕ, ◌≡◌, refl, ap, ◌∙◌, ◌↔◌, Bool, true, false, if◌then◌else◌, ◌||◌, Option, none, some, List, [],
  ◌∷◌, ◌++◌, append-nil, All,
}
use mathlib.Core.Path.{subst}
use lencode.Io.{Read, ReadLaws}
use lencode.Io.Context.{ReadsWith}
use lencode.Codec.Traits.{Coding}
use lencode.Context.Sync.{InStep}
use lencode.Codec.Laws.{CodingLaws}
use lencode.Codec.Items.{after_items_read}
use lencode.Codec.Lists.{ListCodable, list_coded}
use lencode.Codec.Collections.{entry, decode_hash_map, decode_hash_set, decode_heap}
use lencode.Codec.CollectionLaws.{insert_all, decode_collection-Reads, entry-CodingLaws}

abbrev pub or_else : {A : Type 0} → Option A → Option A → Option A
or_else none b = b
or_else (some a) b = some a

-- `Eq` of a type of keys.
pub record Keys (K : Type 0) : Type 0 where
  pub eq : K → K → Bool
  pub eq_iff : (a b : K) → (eq a b ≡ true) ↔ (a ≡ b)

module _ {K V : Type 0} (keys : Keys K) where
  -- The value of a key among entries.
  unfoldable pub lookup : K → List (K × V) → Option V
  lookup k [] = none
  lookup k ((j, v) ∷ es) = if keys.eq j k then some v else lookup k es

  -- No two entries have one key.
  abbrev pub Distinct : List (K × V) → Type 0
  Distinct [] = Unit
  Distinct ((j, v) ∷ es) = All (λ (e : K × V). keys.eq e.0 j ≡ false) es × Distinct es

-- A hash map, with what its `insert` and `get` promise.
pub record HashMap (K V : Type 0) (keys : Keys K) : Type 1 where
  pub Map : Type 0
  pub new : Map
  pub insert : K → V → Map → Map
  pub get : K → Map → Option V
  pub get-new : (k : K) → get k new ≡ none
  pub get-insert :
      (j k : K) (v : V) (m : Map) → get k (insert j v m) ≡ (if keys.eq j k then some v else get k m)

module _ {K V : Type 0} (keys : Keys K) (H : HashMap K V keys) where
  lookup-none :
      (k j : K) (es : List (K × V))
      → All (λ (e : K × V). keys.eq e.0 j ≡ false) es
      → keys.eq j k ≡ true
      → lookup keys k es ≡ none
  unfolding lookup
  lookup-none k j [] h same = refl
  lookup-none k j ((i, v) ∷ es) (one, h) same =
      let is : j ≡ k = (keys.eq_iff j k).0 same in
      let other : keys.eq i k ≡ false = rw is at one in
      rw (lookup, other) (lookup-none k j es h same)

  get-insert_all :
      (k : K) (es : List (K × V)) (m : H.Map)
      → Distinct keys es
      → H.get k (insert_all (λ e. H.insert e.0 e.1) es m) ≡ or_else (lookup keys k es) (H.get k m)
  unfolding lookup
  get-insert_all k [] m distinct = refl
  get-insert_all k ((j, v) ∷ es) m (new, distinct) =
      get-insert_all k es (H.insert j v m) distinct ∙ go (keys.eq j k) refl
    where
      go :
          (b : Bool)
          → keys.eq j k ≡ b
          → or_else (lookup keys k es) (H.get k (H.insert j v m))
            ≡ or_else (if b then some v else lookup keys k es) (H.get k m)
      go true same = rw (lookup-none k j es new same, H.get-insert j k v m, same)
      go false other = rw (H.get-insert j k v m, other)

  or_else-none : (o : Option V) → or_else o none ≡ o
  or_else-none none = refl
  or_else-none (some v) = refl

  pub get-insert_all_new :
      (k : K) (es : List (K × V))
      → Distinct keys es
      → H.get k (insert_all (λ e. H.insert e.0 e.1) es H.new) ≡ lookup keys k es
  get-insert_all_new k es distinct =
      get-insert_all k es H.new distinct ∙ rw (H.get-new k) (or_else-none (lookup keys k es))

-- A hash set, with what its `insert` and `contains` promise.
pub record HashSet (A : Type 0) (keys : Keys A) : Type 1 where
  pub Set : Type 0
  pub new : Set
  pub insert : A → Set → Set
  pub contains : A → Set → Bool
  pub contains-new : (a : A) → contains a new ≡ false
  pub contains-insert :
      (b a : A) (s : Set) → contains a (insert b s) ≡ (keys.eq b a || contains a s)

-- A heap, with what `push` promises of its values.
pub record BinaryHeap (A : Type 0) : Type 1 where
  pub Heap : Type 0
  pub new : Heap
  pub push : A → Heap → Heap
  pub values : Heap → List A
  pub values-new : values new ≡ []
  pub values-push : (a : A) (h : Heap) → Perm (values (push a h)) (a ∷ values h)

unfoldable pub member : {A : Type 0} → Keys A → A → List A → Bool
member keys a [] = false
member keys a (b ∷ bs) = keys.eq b a || member keys a bs

or_false : (b : Bool) → (b || false) ≡ b
or_false true = refl
or_false false = refl

or_swap : (a b c : Bool) → (a || (b || c)) ≡ ((b || a) || c)
or_swap true true c = refl
or_swap true false c = refl
or_swap false true c = refl
or_swap false false c = refl

contains-insert_all :
    {A : Type 0} (keys : Keys A) (H : HashSet A keys) (a : A) (vs : List A) (s : H.Set)
    → H.contains a (insert_all H.insert vs s) ≡ (member keys a vs || H.contains a s)
unfolding member
contains-insert_all keys H a [] s = refl
contains-insert_all keys H a (v ∷ vs) s =
    contains-insert_all keys H a vs (H.insert v s)
    ∙ rw (H.contains-insert v a s) (or_swap (member keys a vs) (keys.eq v a) (H.contains a s))

values-push_all :
    {A : Type 0} (H : BinaryHeap A) (vs : List A) (h : H.Heap)
    → Perm (H.values (insert_all H.push vs h)) (vs ++ H.values h)
values-push_all H [] h = Perm.refl (H.values h)
values-push_all H (v ∷ vs) h =
    Perm.trans (values-push_all H vs (H.push v h))
      (Perm.trans (Perm.append_left vs (H.values-push v h)) (perm_middle vs (H.values h)))

module _ {X Y : Type 0} (S : X → Y → Type 0) where
  -- For key and value types that keep CodingLaws and a map that keeps its laws: in step with the
  -- encoder, and from a valid reader whose next bytes are those of the entries of a hash map in any
  -- order, fewer than 2 ^ 64, codable and no two of one key: `decode_ext` of a `HashMap` returns a
  -- map whose `get` finds for every key the value among these entries, or nothing, and leaves what
  -- follows.
  pub decode_hash_map-Reads :
      (K V : Coding X Y) (J : CodingLaws S K) (L : CodingLaws S V) (keys : Keys K.Value)
      (H : HashMap K.Value V.Value keys) {R : Type 0} ⦃io : Read R⦄ (laws : ReadLaws io)
      (e : Option X) (d : Option Y) (es : List (K.Value × V.Value)) (rest : List ℕ) (r : R)
      → InStep S e d
      → Distinct keys es
      → ListCodable S (entry K V) (entry-CodingLaws S K V J L) e es
      → laws.IsValid r
      → laws.remaining r ≡ list_coded S (entry K V) (entry-CodingLaws S K V J L) e es ++ rest
      → (m : H.Map) × ReadsWith laws
          (decode_hash_map K V H.insert H.new)
          d
          r
          m
          (after_items_read S (entry K V) (entry-CodingLaws S K V J L) e d es)
          rest
        × ((k : K.Value) → H.get k m ≡ lookup keys k es)
  unfolding decode_hash_map
  decode_hash_map-Reads K V J L keys H laws e d es rest r s distinct fits valid left = (
    insert_all (λ e. H.insert e.0 e.1) es H.new,
    decode_collection-Reads S (entry K V) (entry-CodingLaws S K V J L) (λ e. H.insert e.0 e.1) H.new
        laws e d es rest r s fits valid left,
    λ k. get-insert_all_new keys H k es distinct,
  )

  module _ (C : Coding X Y) (L : CodingLaws S C) where
    -- In step with the encoder, and from a valid reader whose next bytes are those of fewer than
    -- 2 ^ 64 codable values in any order: `decode_ext` of a `HashSet` returns a set that contains
    -- these values and no others, and leaves what follows.
    pub decode_hash_set-Reads :
        (keys : Keys C.Value) (H : HashSet C.Value keys) {R : Type 0} ⦃io : Read R⦄
        (laws : ReadLaws io) (e : Option X) (d : Option Y) (vs : List C.Value) (rest : List ℕ)
        (r : R)
        → InStep S e d
        → ListCodable S C L e vs
        → laws.IsValid r
        → laws.remaining r ≡ list_coded S C L e vs ++ rest
        → (set : H.Set) × ReadsWith laws
            (decode_hash_set C H.insert H.new)
            d
            r
            set
            (after_items_read S C L e d vs)
            rest
          × ((a : C.Value) → H.contains a set ≡ member keys a vs)
    unfolding decode_hash_set
    decode_hash_set-Reads keys H laws e d vs rest r s fits valid left = (
      insert_all H.insert vs H.new,
      decode_collection-Reads S C L H.insert H.new laws e d vs rest r s fits valid left,
      λ a.
          contains-insert_all keys H a vs H.new
          ∙ rw (H.contains-new a) (or_false (member keys a vs)),
    )

    -- For an item type that keeps CodingLaws and a heap that keeps its laws: in step with the
    -- encoder, and from a valid reader whose next bytes are those of fewer than 2 ^ 64 codable
    -- values in any order: `decode_ext` of a `BinaryHeap` returns a heap whose values are these, as
    -- often as they occur, and leaves what follows.
    pub decode_heap-Reads :
        (H : BinaryHeap C.Value) {R : Type 0} ⦃io : Read R⦄ (laws : ReadLaws io) (e : Option X)
        (d : Option Y) (vs : List C.Value) (rest : List ℕ) (r : R)
        → InStep S e d
        → ListCodable S C L e vs
        → laws.IsValid r
        → laws.remaining r ≡ list_coded S C L e vs ++ rest
        → (heap : H.Heap) × ReadsWith laws
            (decode_heap C H.push H.new)
            d
            r
            heap
            (after_items_read S C L e d vs)
            rest
          × Perm (H.values heap) vs
    unfolding decode_heap
    decode_heap-Reads H laws e d vs rest r s fits valid left = (
      insert_all H.push vs H.new,
      decode_collection-Reads S C L H.push H.new laws e d vs rest r s fits valid left,
      subst (λ us. Perm (H.values (insert_all H.push vs H.new)) us)
          (ap (λ us. vs ++ us) H.values-new ∙ append-nil vs) (values-push_all H vs H.new),
    )
