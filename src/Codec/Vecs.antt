-- ===== src/Codec/Vecs.antt =====
-- `Vec<T>` and `[T; N]` of src/lib.rs, at a type other than `u8`, keep the promise of their items.
use lencode.Prelude.{ℕ, ◌+◌, ◌*◌, ◌^◌, ◌<◌, ◌≡◌, Option, none, some, List, ◌++◌, length}
use mathlib.Core.Path.{subst}
use lencode.Io.{Read, Write, ReadLaws, WriteLaws}
use lencode.Io.Context.{AppendsWith, ReadsWith}
use lencode.Varint.Encoding.{encoding}
use lencode.Codec.Traits.{Codec}
use lencode.Context.Sync.{InStep}
use lencode.Codec.Laws.{CodingLaws, CodecLaws, coded_each}
use lencode.Codec.Sequences.{
  vec_items, vec_items_read, encode_vec, decode_vec, decode_items, vec, array,
}
use lencode.Codec.Items.{
  items_coded, ItemsCodable, after_items, after_items_read, after_items-InStep,
  encode_items-Appends, decode_items-Reads,
}
use lencode.Codec.Lists.{len-chain-Appends, len-bind-Reads}

module _ {X Y : Type 0} (S : X → Y → Type 0) (C : Codec X Y) (L : CodecLaws S C) where
  abbrev vec_items_coded : Option X → List C.Value → List ℕ
  vec_items_coded none vs = coded_each L.item vs
  vec_items_coded (some x) vs = items_coded S C.coding L.item (some x) vs

  abbrev VecItemsCodable : Option X → List C.Value → Type 0
  VecItemsCodable none vs = L.IsSlice vs
  VecItemsCodable (some x) vs = ItemsCodable S C.coding L.item (some x) vs

  abbrev pub VecCodable : Option X → List C.Value → Type 0
  VecCodable e vs = (length vs < 2 ^ 64) × VecItemsCodable e vs

  abbrev pub vec_coded : Option X → List C.Value → List ℕ
  vec_coded e vs = encoding 8 (length vs) ++ vec_items_coded e vs

  abbrev pub after_vec : Option X → List C.Value → Option X
  after_vec none vs = none
  after_vec (some x) vs = after_items S C.coding L.item (some x) vs

  abbrev pub after_vec_read : Option X → Option Y → List C.Value → Option Y
  after_vec_read none d vs = d
  after_vec_read (some x) d vs = after_items_read S C.coding L.item (some x) d vs

  pub after_vec-InStep :
      (e : Option X) (d : Option Y) (vs : List C.Value)
      → InStep S e d
      → VecCodable e vs
      → InStep S (after_vec e vs) (after_vec_read e d vs)
  after_vec-InStep none d vs s fits = s
  after_vec-InStep (some x) d vs s fits =
      after_items-InStep S C.coding L.item (some x) d vs s fits.1

  vec_items-Appends :
      {W : Type 0} ⦃io : Write W⦄ (laws : WriteLaws io) (e : Option X) (d : Option Y)
      (vs : List C.Value) (m : ℕ) (w : W)
      → InStep S e d
      → VecItemsCodable e vs
      → laws.Room w (length (vec_items_coded e vs) + m)
      → 0 < m
      → AppendsWith laws (vec_items C vs) e w (vec_items_coded e vs) (after_vec e vs) m
  unfolding vec_items
  vec_items-Appends {W} ⦃io⦄ laws none d vs m w s fits room more =
      let (room', same) = laws.reserve_lem w _ (length vs * C.size_of) room in
      let (w', h, room'', app) = L.encode_slice-Appends laws vs m _ fits room' more in
      (w', rw h, room'', rw same at app)
  vec_items-Appends laws (some x) d vs m w s fits room more =
      let (w', h, room', app) =
        encode_items-Appends S C.coding L.item laws (some x) d vs m w s fits room more in
      (w', h, room', app)

  vec_items-Reads :
      {R : Type 0} ⦃io : Read R⦄ (laws : ReadLaws io) (e : Option X) (d : Option Y)
      (vs : List C.Value) (rest : List ℕ) (r : R)
      → InStep S e d
      → VecItemsCodable e vs
      → laws.IsValid r
      → laws.remaining r ≡ vec_items_coded e vs ++ rest
      → ReadsWith laws (vec_items_read C (length vs)) d r vs (after_vec_read e d vs) rest
  unfolding vec_items_read
  vec_items-Reads laws none none vs rest r s fits valid left =
      let (r', h, valid', left') = L.decode_vec-Reads laws vs rest r fits valid left in
      (r', rw h, valid', left')
  vec_items-Reads laws none (some y) vs rest r s fits valid left = absurd s
  vec_items-Reads laws (some x) none vs rest r s fits valid left = absurd s
  vec_items-Reads laws (some x) (some y) vs rest r s fits valid left =
      let (r', h, valid', left') =
        decode_items-Reads S C.coding L.item laws (some x) (some y) vs rest r s fits valid left in
      (r', h, valid', left')

  pub encode_vec-Appends :
      {W : Type 0} ⦃io : Write W⦄ (laws : WriteLaws io) (e : Option X) (d : Option Y)
      (vs : List C.Value) (m : ℕ) (w : W)
      → InStep S e d
      → VecCodable e vs
      → laws.Room w (length (vec_coded e vs) + m)
      → 0 < m
      → AppendsWith laws (encode_vec C vs) e w (vec_coded e vs) (after_vec e vs) m
  unfolding encode_vec
  encode_vec-Appends laws e d vs m w s (small, fits) room more =
      len-chain-Appends laws (length vs) (vec_items C vs) e (after_vec e vs) (vec_items_coded e vs)
        m w small room (λ w' room'. vec_items-Appends laws e d vs m w' s fits room' more)

  pub decode_vec-Reads :
      {R : Type 0} ⦃io : Read R⦄ (laws : ReadLaws io) (e : Option X) (d : Option Y)
      (vs : List C.Value) (rest : List ℕ) (r : R)
      → InStep S e d
      → VecCodable e vs
      → laws.IsValid r
      → laws.remaining r ≡ vec_coded e vs ++ rest
      → ReadsWith laws (decode_vec C) d r vs (after_vec_read e d vs) rest
  unfolding decode_vec
  decode_vec-Reads laws e d vs rest r s (small, fits) valid left =
      len-bind-Reads laws (length vs) (vec_items_read C) d (after_vec_read e d vs)
        (vec_items_coded e vs) rest r vs small valid left
        (λ r' valid' left'. vec_items-Reads laws e d vs rest r' s fits valid' left')

  abbrev pub vec-CodingLaws : CodingLaws S (vec C)
  vec-CodingLaws = record {
    coded = vec_coded;
    IsCodable = VecCodable;
    after = after_vec;
    after_read = after_vec_read;
    after-InStep = after_vec-InStep;
    encode-Appends =
        λ laws e d vs m w s fits room more. encode_vec-Appends laws e d vs m w s fits room more;
    decode-Reads = λ laws e d vs rest r s fits valid left.
        decode_vec-Reads laws e d vs rest r s fits valid left;
  }

  pub decode_array-Reads :
      (n : ℕ) {R : Type 0} ⦃io : Read R⦄ (laws : ReadLaws io) (e : Option X) (d : Option Y)
      (vs : List C.Value) (rest : List ℕ) (r : R)
      → InStep S e d
      → (length vs ≡ n) × ItemsCodable S C.coding L.item e vs
      → laws.IsValid r
      → laws.remaining r ≡ items_coded S C.coding L.item e vs ++ rest
      → ReadsWith laws
          (decode_items C.coding n)
          d
          r
          vs
          (after_items_read S C.coding L.item e d vs)
          rest
  decode_array-Reads n laws e d vs rest r s (len, fits) valid left =
      subst
        (λ k.
          ReadsWith laws (decode_items C.coding k) d r vs
            (after_items_read S C.coding L.item e d vs) rest)
        len (decode_items-Reads S C.coding L.item laws e d vs rest r s fits valid left)

  -- An array has as many items as its type says.
  abbrev pub array-CodingLaws : (n : ℕ) → CodingLaws S (array n C)
  array-CodingLaws n = record {
    coded = items_coded S C.coding L.item;
    IsCodable = λ e vs. (length vs ≡ n) × ItemsCodable S C.coding L.item e vs;
    after = after_items S C.coding L.item;
    after_read = after_items_read S C.coding L.item;
    after-InStep = λ e d vs s fits. after_items-InStep S C.coding L.item e d vs s fits.1;
    encode-Appends = λ laws e d vs m w s fits room more.
        encode_items-Appends S C.coding L.item laws e d vs m w s fits.1 room more;
    decode-Reads = λ laws e d vs rest r s fits valid left.
        decode_array-Reads n laws e d vs rest r s fits valid left;
  }
