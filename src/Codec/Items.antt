-- ===== src/Codec/Items.antt =====
-- Items one after another through a context (src/lib.rs): the bytes, the contexts behind them, and
-- that the loops of Sequences write and read them.
use lencode.Prelude.{
  ◌<◌, ℕ, ◌+◌, ◌≡◌, refl, sym, ◌∙◌, arith, Option, List, [], ◌∷◌, ◌++◌, length, append_assoc,
  append-nil,
}
use lencode.Io.{pure, ◌>>=◌, Read, Write, ReadLaws, WriteLaws}
use lencode.Io.Context.{AppendsWith, ReadsWith, AppendsWith-chain, Room-append, ReadsWith-bind}
use lencode.Codec.Traits.{Coding}
use lencode.Context.Sync.{InStep}
use lencode.Codec.Laws.{CodingLaws}
use lencode.Codec.Sequences.{encode_items, decode_items}

module _ {X Y : Type 0} (S : X → Y → Type 0) (C : Coding X Y) (L : CodingLaws S C) where
  abbrev pub items_coded : Option X → List C.Value → List ℕ
  items_coded e [] = []
  items_coded e (v ∷ vs) = L.coded e v ++ items_coded (L.after e v) vs

  abbrev pub ItemsCodable : Option X → List C.Value → Type 0
  ItemsCodable e [] = Unit
  ItemsCodable e (v ∷ vs) = L.IsCodable e v × ItemsCodable (L.after e v) vs

  abbrev pub after_items : Option X → List C.Value → Option X
  after_items e [] = e
  after_items e (v ∷ vs) = after_items (L.after e v) vs

  abbrev pub after_items_read : Option X → Option Y → List C.Value → Option Y
  after_items_read e d [] = d
  after_items_read e d (v ∷ vs) = after_items_read (L.after e v) (L.after_read e d v) vs

  pub after_items-InStep :
      (e : Option X) (d : Option Y) (vs : List C.Value)
      → InStep S e d
      → ItemsCodable e vs
      → InStep S (after_items e vs) (after_items_read e d vs)
  after_items-InStep e d [] s fits = s
  after_items-InStep e d (v ∷ vs) s (fit, fits) =
      after_items-InStep (L.after e v) (L.after_read e d v) vs (L.after-InStep e d v s fit) fits

  pub encode_items-Appends :
      {W : Type 0} ⦃io : Write W⦄ (laws : WriteLaws io) (e : Option X) (d : Option Y)
      (vs : List C.Value) (m : ℕ) (w : W)
      → InStep S e d
      → ItemsCodable e vs
      → laws.Room w (length (items_coded e vs) + m)
      → 0 < m
      → AppendsWith laws (encode_items C vs) e w (items_coded e vs) (after_items e vs) m
  unfolding encode_items
  encode_items-Appends laws e d [] m w s fits room more =
      let none : 0 + m ≡ m = omega arith in (w, refl, rw none at room, sym (append-nil _))
  encode_items-Appends laws e d (v ∷ vs) m w s (fit, fits) room more =
      let e' = L.after e v in
      AppendsWith-chain laws (C.encode_ext v) (encode_items C vs) e e' (after_items e' vs) w
        (L.coded e v) (items_coded e' vs) m
        (L.encode-Appends laws e d v _ w s fit (Room-append laws w _ _ m room) (omega arith))
        (λ w' room'.
          encode_items-Appends laws e' (L.after_read e d v) vs m w' (L.after-InStep e d v s fit)
            fits room' more)

  pub decode_items-Reads :
      {R : Type 0} ⦃io : Read R⦄ (laws : ReadLaws io) (e : Option X) (d : Option Y)
      (vs : List C.Value) (rest : List ℕ) (r : R)
      → InStep S e d
      → ItemsCodable e vs
      → laws.IsValid r
      → laws.remaining r ≡ items_coded e vs ++ rest
      → ReadsWith laws (decode_items C (length vs)) d r vs (after_items_read e d vs) rest
  unfolding decode_items
  decode_items-Reads laws e d [] rest r s fits valid left = (r, refl, valid, left)
  decode_items-Reads laws e d (v ∷ vs) rest r s (fit, fits) valid left =
      let e' = L.after e v in
      let d' = L.after_read e d v in
      let back = items_coded e' vs in
      let d'' = after_items_read e' d' vs in
      ReadsWith-bind laws C.decode_ext
        (λ item. decode_items C (length vs) >>= λ items. pure (item ∷ items)) d d' d'' r v (v ∷ vs)
        (back ++ rest) rest
        (L.decode-Reads laws e d v (back ++ rest) r s fit valid (left ∙ append_assoc _ back rest))
        (λ r' valid' left'.
          ReadsWith-bind laws (decode_items C (length vs)) (λ items. pure (v ∷ items)) d' d'' d'' r'
            vs (v ∷ vs) rest rest
            (decode_items-Reads laws e' d' vs rest r' (L.after-InStep e d v s fit) fits valid'
              left')
            (λ r'' valid'' left''. (r'', refl, valid'', left'')))
