-- ===== src/Codec/PairLaws.antt =====
-- Two values, one after the other: the entries of the maps and the ends of the ranges of
-- src/lib.rs.
use lencode.Prelude.{◌<◌, arith, ℕ, ◌+◌, ◌≡◌, ◌∙◌, Option, List, ◌++◌, length, append_assoc}
use lencode.Io.{pure, ◌>>=◌, ◌⊕◌, Read, Write, ReadLaws, WriteLaws}
use lencode.Io.Context.{AppendsWith, ReadsWith, AppendsWith-chain, Room-append, ReadsWith-bind}
use lencode.Codec.Traits.{Coding}
use lencode.Context.Sync.{InStep}
use lencode.Codec.Laws.{CodingLaws}
use lencode.Codec.OptionLaws.{wrapped-Reads}

module _ {X Y : Type 0} (S : X → Y → Type 0) (K V : Coding X Y) (J : CodingLaws S K)
    (L : CodingLaws S V) where
  abbrev pub ends_coded : Option X → K.Value → V.Value → List ℕ
  ends_coded e a b = J.coded e a ++ L.coded (J.after e a) b

  abbrev pub EndsCodable : Option X → K.Value → V.Value → Type 0
  EndsCodable e a b = J.IsCodable e a × L.IsCodable (J.after e a) b

  abbrev pub after_ends_read : Option X → Option Y → K.Value → V.Value → Option Y
  after_ends_read e d a b = L.after_read (J.after e a) (J.after_read e d a) b

  pub after_ends-InStep :
      (e : Option X) (d : Option Y) (a : K.Value) (b : V.Value)
      → InStep S e d
      → EndsCodable e a b
      → InStep S (L.after (J.after e a) b) (after_ends_read e d a b)
  after_ends-InStep e d a b s fits =
      L.after-InStep (J.after e a) (J.after_read e d a) b (J.after-InStep e d a s fits.0) fits.1

  pub ends-Appends :
      {W : Type 0} ⦃io : Write W⦄ (laws : WriteLaws io) (e : Option X) (d : Option Y) (a : K.Value)
      (b : V.Value) (m : ℕ) (w : W)
      → InStep S e d
      → EndsCodable e a b
      → laws.Room w (length (ends_coded e a b) + m)
      → 0 < m
      → AppendsWith laws
          (K.encode_ext a ⊕ V.encode_ext b)
          e
          w
          (ends_coded e a b)
          (L.after (J.after e a) b)
          m
  ends-Appends laws e d a b m w s (fit, fits) room more =
      let e' = J.after e a in
      AppendsWith-chain laws (K.encode_ext a) (V.encode_ext b) e e' (L.after e' b) w (J.coded e a)
        (L.coded e' b) m
        (J.encode-Appends laws e d a _ w s fit (Room-append laws w _ _ m room) (omega arith))
        (λ w' room'.
          L.encode-Appends laws e' (J.after_read e d a) b m w' (J.after-InStep e d a s fit) fits
            room' more)

  pub ends-Reads :
      {A : Type 0} (make : K.Value → V.Value → A) {R : Type 0} ⦃io : Read R⦄ (laws : ReadLaws io)
      (e : Option X) (d : Option Y) (a : K.Value) (b : V.Value) (rest : List ℕ) (r : R)
      → InStep S e d
      → EndsCodable e a b
      → laws.IsValid r
      → laws.remaining r ≡ ends_coded e a b ++ rest
      → ReadsWith laws
          (K.decode_ext >>= λ start. V.decode_ext >>= λ end. pure (make start end))
          d
          r
          (make a b)
          (after_ends_read e d a b)
          rest
  ends-Reads make laws e d a b rest r s (fit, fits) valid left =
      let e' = J.after e a in
      let d' = J.after_read e d a in
      let back = L.coded e' b in
      ReadsWith-bind laws K.decode_ext (λ start. V.decode_ext >>= λ end. pure (make start end)) d d'
        (L.after_read e' d' b) r a (make a b) (back ++ rest) rest
        (J.decode-Reads laws e d a (back ++ rest) r s fit valid (left ∙ append_assoc _ back rest))
        (λ r' valid' left'.
          wrapped-Reads laws V.decode_ext (make a) d' (L.after_read e' d' b) r' b rest
            (L.decode-Reads laws e' d' b rest r' (J.after-InStep e d a s fit) fits valid' left'))
