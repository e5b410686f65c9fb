-- ===== src/Codec/TupleLaws.antt =====
-- Tuples (src/tuples.rs) keep the promise of their fields.
use lencode.Prelude.{
  ◌<◌, ℕ, ◌+◌, ◌≡◌, refl, sym, ◌∙◌, arith, Option, List, [], ◌∷◌, ◌++◌, length, append_assoc,
  append-nil,
}
use lencode.Io.{pure, ◌>>=◌, Read, Write, ReadLaws, WriteLaws}
use lencode.Io.Context.{AppendsWith, ReadsWith, AppendsWith-chain, Room-append, ReadsWith-bind}
use lencode.Codec.Traits.{Coding}
use lencode.Context.Sync.{InStep}
use lencode.Codec.Laws.{CodingLaws}
use lencode.Codec.Products.{Fields, encode_fields, decode_fields, tuple}
use lencode.Codec.OptionLaws.{wrapped-Reads}

module _ {X Y : Type 0} (S : X → Y → Type 0) where
  abbrev pub FieldLaws : List (Coding X Y) → Type 1
  FieldLaws [] = Unit
  FieldLaws (C ∷ Cs) = CodingLaws S C × FieldLaws Cs

  abbrev pub fields_coded : (Cs : List (Coding X Y)) → FieldLaws Cs → Option X → Fields Cs → List ℕ
  fields_coded [] Ls e vs = []
  fields_coded (C ∷ Cs) (L, Ls) e (v, vs) = L.coded e v ++ fields_coded Cs Ls (L.after e v) vs

  abbrev pub FieldsCodable : (Cs : List (Coding X Y)) → FieldLaws Cs → Option X → Fields Cs → Type 0
  FieldsCodable [] Ls e vs = Unit
  FieldsCodable (C ∷ Cs) (L, Ls) e (v, vs) = L.IsCodable e v × FieldsCodable Cs Ls (L.after e v) vs

  abbrev pub after_fields :
      (Cs : List (Coding X Y)) → FieldLaws Cs → Option X → Fields Cs → Option X
  after_fields [] Ls e vs = e
  after_fields (C ∷ Cs) (L, Ls) e (v, vs) = after_fields Cs Ls (L.after e v) vs

  abbrev pub after_fields_read :
      (Cs : List (Coding X Y)) → FieldLaws Cs → Option X → Option Y → Fields Cs → Option Y
  after_fields_read [] Ls e d vs = d
  after_fields_read (C ∷ Cs) (L, Ls) e d (v, vs) =
      after_fields_read Cs Ls (L.after e v) (L.after_read e d v) vs

  pub after_fields-InStep :
      (Cs : List (Coding X Y)) (Ls : FieldLaws Cs) (e : Option X) (d : Option Y) (vs : Fields Cs)
      → InStep S e d
      → FieldsCodable Cs Ls e vs
      → InStep S (after_fields Cs Ls e vs) (after_fields_read Cs Ls e d vs)
  after_fields-InStep [] Ls e d vs s fits = s
  after_fields-InStep (C ∷ Cs) (L, Ls) e d (v, vs) s (fit, fits) =
      after_fields-InStep Cs Ls (L.after e v) (L.after_read e d v) vs (L.after-InStep e d v s fit)
        fits

  pub encode_fields-Appends :
      (Cs : List (Coding X Y)) (Ls : FieldLaws Cs) {W : Type 0} ⦃io : Write W⦄ (laws : WriteLaws io)
      (e : Option X) (d : Option Y) (vs : Fields Cs) (m : ℕ) (w : W)
      → InStep S e d
      → FieldsCodable Cs Ls e vs
      → laws.Room w (length (fields_coded Cs Ls e vs) + m)
      → 0 < m
      → AppendsWith laws
          (encode_fields Cs vs)
          e
          w
          (fields_coded Cs Ls e vs)
          (after_fields Cs Ls e vs)
          m
  unfolding encode_fields
  encode_fields-Appends [] Ls laws e d vs m w s fits room more =
      let none : 0 + m ≡ m = omega arith in (w, refl, rw none at room, sym (append-nil _))
  encode_fields-Appends (C ∷ Cs) (L, Ls) laws e d (v, vs) m w s (fit, fits) room more =
      let e' = L.after e v in
      AppendsWith-chain laws (C.encode_ext v) (encode_fields Cs vs) e e' (after_fields Cs Ls e' vs)
        w (L.coded e v) (fields_coded Cs Ls e' vs) m
        (L.encode-Appends laws e d v _ w s fit (Room-append laws w _ _ m room) (omega arith))
        (λ w' room'.
          encode_fields-Appends Cs Ls laws e' (L.after_read e d v) vs m w'
            (L.after-InStep e d v s fit) fits room' more)

  pub decode_fields-Reads :
      (Cs : List (Coding X Y)) (Ls : FieldLaws Cs) {R : Type 0} ⦃io : Read R⦄ (laws : ReadLaws io)
      (e : Option X) (d : Option Y) (vs : Fields Cs) (rest : List ℕ) (r : R)
      → InStep S e d
      → FieldsCodable Cs Ls e vs
      → laws.IsValid r
      → laws.remaining r ≡ fields_coded Cs Ls e vs ++ rest
      → ReadsWith laws (decode_fields Cs) d r vs (after_fields_read Cs Ls e d vs) rest
  unfolding decode_fields
  decode_fields-Reads [] Ls laws e d tt rest r s fits valid left = (r, refl, valid, left)
  decode_fields-Reads (C ∷ Cs) (L, Ls) laws e d (v, vs) rest r s (fit, fits) valid left =
      let e' = L.after e v in
      let d' = L.after_read e d v in
      let back = fields_coded Cs Ls e' vs in
      let d'' = after_fields_read Cs Ls e' d' vs in
      ReadsWith-bind laws C.decode_ext
        (λ field. decode_fields Cs >>= λ fields. pure (field, fields)) d d' d'' r v (v, vs)
        (back ++ rest) rest
        (L.decode-Reads laws e d v (back ++ rest) r s fit valid (left ∙ append_assoc _ back rest))
        (λ r' valid' left'.
          wrapped-Reads laws (decode_fields Cs) (λ fields. (v, fields)) d' d'' r' vs rest
            (decode_fields-Reads Cs Ls laws e' d' vs rest r' (L.after-InStep e d v s fit) fits
              valid' left'))

  abbrev pub tuple-CodingLaws : (Cs : List (Coding X Y)) → FieldLaws Cs → CodingLaws S (tuple Cs)
  tuple-CodingLaws Cs Ls = record {
    coded = fields_coded Cs Ls;
    IsCodable = FieldsCodable Cs Ls;
    after = after_fields Cs Ls;
    after_read = after_fields_read Cs Ls;
    after-InStep = after_fields-InStep Cs Ls;
    encode-Appends = λ laws e d vs m w s fits room more.
        encode_fields-Appends Cs Ls laws e d vs m w s fits room more;
    decode-Reads = λ laws e d vs rest r s fits valid left.
        decode_fields-Reads Cs Ls laws e d vs rest r s fits valid left;
  }
