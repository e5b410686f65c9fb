-- ===== src/Dedupe/VecRoundTrip.antt =====
-- A `Vec` of deduplicated values goes through the encoder and decoder of src/dedupe.rs unchanged.
use lencode.Prelude.{
  ℕ, ◌+◌, ◌^◌, ◌≤◌, ◌≡◌, refl, sym, ◌∙◌, arith, Option, none, some, List, [], ◌∷◌, ◌++◌, length,
  All, append-nil, append_assoc,
}
use lencode.Io.{pure, ◌>>=◌, Read, Write, ReadLaws, WriteLaws}
use lencode.Io.Context.{
  AppendsWith, ReadsWith, on_right, on_right-AppendsWith, on_right-ReadsWith, AppendsWith-chain,
  Room-append, ReadsWith-bind,
}
use lencode.Varint.Encoding.{encoding}
use lencode.Varint.Encode.{encode_word-Appends}
use lencode.Varint.Decode.{decode_word-Reads}
use lencode.Varint.Fixed.{encode_varint_u64, decode_varint_u64}
use lencode.Dedupe.Values.{Values, PackLaws}
use lencode.Dedupe.Encoder
use lencode.Dedupe.Decoder
use lencode.Dedupe.Sync.{Sync, find}
use lencode.Dedupe.Vec.{encode_items, encode_vec, decode_items, decode_vec}
use lencode.Dedupe.RoundTrip.{
  coded, after_as, after_value, after_read, after_value-Sync, encode-coded, decode-coded,
}

module _ (V : Values) (P : PackLaws V) where
  abbrev pub coded_items : Encoder.DedupeEncoder V → List V.Value → List ℕ
  coded_items e [] = []
  coded_items e (v ∷ vs) = coded V P e v ++ coded_items (after_value V P e v) vs

  abbrev pub after_items : Encoder.DedupeEncoder V → List V.Value → Encoder.DedupeEncoder V
  after_items e [] = e
  after_items e (v ∷ vs) = after_items (after_value V P e v) vs

  abbrev pub read_items :
      Encoder.DedupeEncoder V → Decoder.DedupeDecoder V → List V.Value → Decoder.DedupeDecoder V
  read_items e d [] = d
  read_items e d (v ∷ vs) = read_items (after_value V P e v) (after_read V P e d v) vs

  -- A value takes one new id at most.
  next_id-le :
      (e : Encoder.DedupeEncoder V) (v : V.Value) → (after_value V P e v).next_id ≤ e.next_id + 1
  unfolding Encoder.insert Encoder.with_store
  next_id-le e v = go (find V e v)
    where
      go : (o : Option ℕ) → (after_as V P e v o).next_id ≤ e.next_id + 1
      go none = omega arith
      go (some id) = omega arith

  -- The two stay in step over the items.
  pub after_items-Sync :
      (e : Encoder.DedupeEncoder V) (d : Decoder.DedupeDecoder V) (vs : List V.Value)
      → Sync V e d
      → Sync V (after_items e vs) (read_items e d vs)
  after_items-Sync e d [] s = s
  after_items-Sync e d (v ∷ vs) s =
      after_items-Sync (after_value V P e v) (after_read V P e d v) vs
        (after_value-Sync V P e d v s)

  module _ {W : Type 0} ⦃io : Write W⦄ (laws : WriteLaws io) where
    encode_items-coded :
        (e : Encoder.DedupeEncoder V) (d : Decoder.DedupeDecoder V) (vs : List V.Value) (m : ℕ)
        (w : W)
        → Sync V e d
        → e.next_id + length vs ≤ 2 ^ 64
        → laws.Room w (length (coded_items e vs) + m)
        → AppendsWith laws (encode_items V vs) e w (coded_items e vs) (after_items e vs) m
    unfolding encode_items
    encode_items-coded e d [] m w s small room =
        let none : 0 + m ≡ m = omega arith in (w, refl, rw none at room, sym (append-nil _))
    encode_items-coded e d (v ∷ vs) m w s small room =
        AppendsWith-chain laws (Encoder.encode V v) (encode_items V vs) e (after_value V P e v)
          (after_items e (v ∷ vs)) w (coded V P e v) (coded_items (after_value V P e v) vs) m
          (encode-coded V P laws e d v _ w s (omega arith)
            (Room-append laws w (coded V P e v) (coded_items (after_value V P e v) vs) m room))
          (λ w' room'.
            encode_items-coded (after_value V P e v) (after_read V P e d v) vs m w'
              (after_value-Sync V P e d v s) (omega (arith, next_id-le e v)) room')

    -- In a state in step with some decoder, while the ids fit 64 bits, and on a writer with room
    -- for it, `Vec::encode_ext` appends the length and the bytes for each item in the state that
    -- the items before it leave, and returns their number.
    pub encode_vec-coded :
        (e : Encoder.DedupeEncoder V) (d : Decoder.DedupeDecoder V) (vs : List V.Value) (m : ℕ)
        (w : W)
        → Sync V e d
        → e.next_id + length vs ≤ 2 ^ 64
        → laws.Room w (length (encoding 8 (length vs) ++ coded_items e vs) + m)
        → AppendsWith laws
            (encode_vec V vs)
            e
            w
            (encoding 8 (length vs) ++ coded_items e vs)
            (after_items e vs)
            m
    unfolding encode_vec encode_varint_u64
    encode_vec-coded e d vs m w s small room =
        AppendsWith-chain laws (on_right (encode_varint_u64 (length vs))) (encode_items V vs) e e
          (after_items e vs) w (encoding 8 (length vs)) (coded_items e vs) m
          (on_right-AppendsWith laws e (encode_varint_u64 (length vs)) w (encoding 8 (length vs)) _
            (encode_word-Appends laws 8 (length vs) _ w (omega arith) (omega (arith, s.next))
              (Room-append laws w (encoding 8 (length vs)) (coded_items e vs) m room)))
          (λ w' room'. encode_items-coded e d vs m w' s small room')

  module _ {R : Type 0} ⦃io : Read R⦄ (laws : ReadLaws io) (t : ℕ) where
    decode_items-coded :
        (e : Encoder.DedupeEncoder V) (d : Decoder.DedupeDecoder V) (vs : List V.Value)
        (rest : List ℕ) (r : R)
        → Sync V e d
        → e.next_id + length vs ≤ 2 ^ 64
        → All (λ v. V.type_id v ≡ t) vs
        → laws.IsValid r
        → laws.remaining r ≡ coded_items e vs ++ rest
        → ReadsWith laws (decode_items V t (length vs)) d r vs (read_items e d vs) rest
    unfolding decode_items
    decode_items-coded e d [] rest r s small typed valid h = (r, refl, valid, h)
    decode_items-coded e d (v ∷ vs) rest r s small (same, typed) valid h =
        let e' = after_value V P e v in
        let d' = after_read V P e d v in
        ReadsWith-bind laws (Decoder.decode V t)
          (λ x. decode_items V t (length vs) >>= λ xs. pure (x ∷ xs)) d d' (read_items e' d' vs) r v
          (v ∷ vs) (coded_items e' vs ++ rest) rest
          (rw (← same) (
            decode-coded V P laws e d v (coded_items e' vs ++ rest) r s (omega arith) valid
              (h ∙ append_assoc _ (coded_items e' vs) rest)))
          (λ r' valid' left'.
            ReadsWith-bind laws (decode_items V t (length vs)) (λ xs. pure (v ∷ xs)) d'
              (read_items e' d' vs) (read_items e' d' vs) r' vs (v ∷ vs) rest rest
              (decode_items-coded e' d' vs rest r' (after_value-Sync V P e d v s)
                (omega (arith, next_id-le e v)) typed valid' left')
              (λ r'' valid'' left''. (r'', refl, valid'', left'')))

    -- In a state in step with the encoder's, while the ids fit 64 bits, and from a valid reader
    -- whose next bytes are those for items of one type, `Vec::decode_ext` at that type returns
    -- the items in order and leaves what follows.
    pub decode_vec-coded :
        (e : Encoder.DedupeEncoder V) (d : Decoder.DedupeDecoder V) (vs : List V.Value)
        (rest : List ℕ) (r : R)
        → Sync V e d
        → e.next_id + length vs ≤ 2 ^ 64
        → All (λ v. V.type_id v ≡ t) vs
        → laws.IsValid r
        → laws.remaining r ≡ (encoding 8 (length vs) ++ coded_items e vs) ++ rest
        → ReadsWith laws (decode_vec V t) d r vs (read_items e d vs) rest
    unfolding decode_vec decode_varint_u64
    decode_vec-coded e d vs rest r s small typed valid h =
        ReadsWith-bind laws (on_right decode_varint_u64) (decode_items V t) d d (read_items e d vs)
          r (length vs) vs (coded_items e vs ++ rest) rest
          (on_right-ReadsWith laws d decode_varint_u64 r (length vs) (coded_items e vs ++ rest) (
            decode_word-Reads laws 8 (length vs) (coded_items e vs ++ rest) r (omega arith)
              (omega (arith, s.next)) valid (h ∙ append_assoc _ (coded_items e vs) rest)))
          (λ r' valid' left'. decode_items-coded e d vs rest r' s small typed valid' left')
