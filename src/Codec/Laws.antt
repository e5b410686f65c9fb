-- ===== src/Codec/Laws.antt =====
-- What the implementations of `Encode` and `Decode` promise (src/lib.rs), as an interface: the
-- bytes for a value in a context, which the one appends and the other reads back.
use lencode.Prelude.{
  ◌<◌, ℕ, ◌+◌, ◌≡◌, refl, sym, ◌∙◌, arith, Option, none, List, [], ◌∷◌, ◌++◌, length, All,
  append_assoc, append-nil,
}
use lencode.Io.{pure, ◌>>=◌, Read, Write, ReadLaws, WriteLaws, Appends, Reads}
use lencode.Io.Context.{AppendsWith, ReadsWith, Appends-chain, Room-append, Reads-bind}
use lencode.Context.Sync.{InStep}
use lencode.Codec.Traits.{Coding, Codec, by_item, without, encode_each, decode_each}

-- `coded e v` are the bytes for a value in the encoder's context, `after e v` is this context when
-- they are written, and `after_read e d v` the decoder's when they are read. `IsCodable e v` says
-- which values the implementation brings back: those whose numbers, lengths and ids fit into their
-- integers, whose strings are UTF-8, whose blobs the compressor does not refuse, whose trees are
-- sorted, whose deduplicated values are of their type, and no `RangeInclusive` that an iterator has
-- used up, since that flag is not encoded. Empty strings, blobs and collections are among them. A
-- value is appended with `m` bytes more to come, `m` not 0, since a full cursor refuses a write of
-- no bytes too.
pub record CodingLaws {X Y : Type 0} (S : X → Y → Type 0) (C : Coding X Y) : Type 1 where
  pub coded : Option X → C.Value → List ℕ
  pub IsCodable : Option X → C.Value → Type 0
  pub after : Option X → C.Value → Option X
  pub after_read : Option X → Option Y → C.Value → Option Y
  pub after-InStep :
      (e : Option X) (d : Option Y) (v : C.Value)
      → InStep S e d
      → IsCodable e v
      → InStep S (after e v) (after_read e d v)
  pub encode-Appends :
      {W : Type 0} ⦃io : Write W⦄ (laws : WriteLaws io) (e : Option X) (d : Option Y) (v : C.Value)
      (m : ℕ) (w : W)
      → InStep S e d
      → IsCodable e v
      → laws.Room w (length (coded e v) + m)
      → 0 < m
      → AppendsWith laws (C.encode_ext v) e w (coded e v) (after e v) m
  pub decode-Reads :
      {R : Type 0} ⦃io : Read R⦄ (laws : ReadLaws io) (e : Option X) (d : Option Y) (v : C.Value)
      (rest : List ℕ) (r : R)
      → InStep S e d
      → IsCodable e v
      → laws.IsValid r
      → laws.remaining r ≡ coded e v ++ rest
      → ReadsWith laws C.decode_ext d r v (after_read e d v) rest

-- The bytes for the items of a slice, each without a context.
unfoldable pub coded_each :
    {X Y : Type 0} {S : X → Y → Type 0} {C : Coding X Y} → CodingLaws S C → List C.Value → List ℕ
coded_each L [] = []
coded_each L (v ∷ vs) = L.coded none v ++ coded_each L vs

pub record CodecLaws {X Y : Type 0} (S : X → Y → Type 0) (C : Codec X Y) : Type 1 where
  pub item : CodingLaws S C.coding
  pub open item use *
  pub IsSlice : List C.Value → Type 0
  pub encode_slice-Appends :
      {W : Type 0} ⦃io : Write W⦄ (laws : WriteLaws io) (vs : List C.Value) (m : ℕ) (w : W)
      → IsSlice vs
      → laws.Room w (length (coded_each item vs) + m)
      → 0 < m
      → Appends laws (C.encode_slice vs) w (coded_each item vs) m
  pub decode_vec-Reads :
      {R : Type 0} ⦃io : Read R⦄ (laws : ReadLaws io) (vs : List C.Value) (rest : List ℕ) (r : R)
      → IsSlice vs
      → laws.IsValid r
      → laws.remaining r ≡ coded_each item vs ++ rest
      → Reads laws (C.decode_vec (length vs)) r vs rest

module _ {X Y : Type 0} (S : X → Y → Type 0) (C : Coding X Y) (L : CodingLaws S C) where
  pub without-Appends :
      {W : Type 0} ⦃io : Write W⦄ (laws : WriteLaws io) (v : C.Value) (m : ℕ) (w : W)
      → L.IsCodable none v
      → laws.Room w (length (L.coded none v) + m)
      → 0 < m
      → Appends laws (without (C.encode_ext v)) w (L.coded none v) m
  without-Appends laws v m w fits room more =
      let (w', h, room', app) = L.encode-Appends laws none none v m w tt fits room more in
      (w', rw h, room', app)

  pub without-Reads :
      {R : Type 0} ⦃io : Read R⦄ (laws : ReadLaws io) (v : C.Value) (rest : List ℕ) (r : R)
      → L.IsCodable none v
      → laws.IsValid r
      → laws.remaining r ≡ L.coded none v ++ rest
      → Reads laws (without C.decode_ext) r v rest
  without-Reads laws v rest r fits valid e =
      let (r', h, valid', left) = L.decode-Reads laws none none v rest r tt fits valid e in
      (r', rw h, valid', left)

  pub encode_each-Appends :
      {W : Type 0} ⦃io : Write W⦄ (laws : WriteLaws io) (vs : List C.Value) (m : ℕ) (w : W)
      → All (L.IsCodable none) vs
      → laws.Room w (length (coded_each L vs) + m)
      → 0 < m
      → Appends laws (encode_each C vs) w (coded_each L vs) m
  unfolding encode_each coded_each
  encode_each-Appends laws [] m w fits room more =
      let none : 0 + m ≡ m = omega arith in (w, refl, rw none at room, sym (append-nil _))
  encode_each-Appends laws (v ∷ vs) m w (fit, fits) room more =
      Appends-chain laws (without (C.encode_ext v)) (encode_each C vs) w (L.coded none v)
        (coded_each L vs) m
        (without-Appends laws v _ w fit (Room-append laws w _ _ m room) (omega arith))
        (λ w' room'. encode_each-Appends laws vs m w' fits room' more)

  pub decode_each-Reads :
      {R : Type 0} ⦃io : Read R⦄ (laws : ReadLaws io) (vs : List C.Value) (rest : List ℕ) (r : R)
      → All (L.IsCodable none) vs
      → laws.IsValid r
      → laws.remaining r ≡ coded_each L vs ++ rest
      → Reads laws (decode_each C (length vs)) r vs rest
  unfolding decode_each coded_each
  decode_each-Reads laws [] rest r fits valid e = (r, refl, valid, e)
  decode_each-Reads laws (v ∷ vs) rest r (fit, fits) valid e =
      Reads-bind laws (without C.decode_ext)
        (λ item. decode_each C (length vs) >>= λ items. pure (item ∷ items)) r v (v ∷ vs)
        (coded_each L vs ++ rest) rest
        (without-Reads laws v _ r fit valid (e ∙ append_assoc _ (coded_each L vs) rest))
        (λ r' valid' left.
          Reads-bind laws (decode_each C (length vs)) (λ items. pure (v ∷ items)) r' vs (v ∷ vs)
            rest rest (decode_each-Reads laws vs rest r' fits valid' left)
            (λ r'' valid'' left'. (r'', refl, valid'', left')))

  -- The default methods keep the promise.
  abbrev pub by_item-CodecLaws : CodecLaws S (by_item C)
  by_item-CodecLaws = record {
    item = L;
    IsSlice = All (L.IsCodable none);
    encode_slice-Appends =
        λ laws vs m w fits room more. encode_each-Appends laws vs m w fits room more;
    decode_vec-Reads = λ laws vs rest r fits valid e. decode_each-Reads laws vs rest r fits valid e;
  }
