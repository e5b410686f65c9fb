-- ===== src/Dedupe/RoundTrip.antt =====
-- What the encoder of src/dedupe.rs writes, its decoder reads back, value by value.
use lencode.Prelude.{
  ℕ, ◌+◌, ◌-◌, ◌^◌, ◌<◌, ◌≡◌, refl, ◌∙◌, arith, Option, none, some, List, ◌++◌, length, get_elem?,
  eq→==, pos→ne_zero, append_assoc,
}
use lencode.Io.{Read, Write, ReadLaws, WriteLaws, Reads, Appends}
use lencode.Io.Context.{
  AppendsWith, ReadsWith, on_right, on_right-AppendsWith, on_right-ReadsWith, Appends-chain,
  Room-append, ReadsWith-bind,
}
use lencode.Varint.Generic.{encode_varint, decode_varint}
use lencode.Varint.Encoding.{encoding}
use lencode.Varint.Agreement.{encode_varint-Appends}
use lencode.Varint.DecodeGeneric.{decode_varint-Reads}
use lencode.Dedupe.Values.{Values, PackLaws}
use lencode.Dedupe.Encoder
use lencode.Dedupe.Decoder
use lencode.Dedupe.Sync.{Sync, find, Sync-insert, Sync-with_store}

module _ (V : Values) (P : PackLaws V) where
  -- The bytes for a value in a state: its id, or 0 and the value.
  abbrev coded_as : V.Value → Option ℕ → List ℕ
  coded_as v none = encoding 8 0 ++ P.packed v
  coded_as v (some id) = encoding 8 id

  abbrev pub coded : Encoder.DedupeEncoder V → V.Value → List ℕ
  coded e v = coded_as v (find V e v)

  abbrev pub after_as : Encoder.DedupeEncoder V → V.Value → Option ℕ → Encoder.DedupeEncoder V
  after_as e v none = Encoder.insert V v e
  after_as e v (some id) = Encoder.with_store V (V.type_id v) e

  -- The encoder's state after a value.
  abbrev pub after_value : Encoder.DedupeEncoder V → V.Value → Encoder.DedupeEncoder V
  after_value e v = after_as e v (find V e v)

  module _ {W : Type 0} ⦃io : Write W⦄ (laws : WriteLaws io) where
    encode_new-Appends :
        (v : V.Value) (m : ℕ) (w : W)
        → laws.Room w (length (encoding 8 0 ++ P.packed v) + m)
        → Appends laws (Encoder.encode_new V v) w (encoding 8 0 ++ P.packed v) m
    unfolding Encoder.encode_new
    encode_new-Appends v m w room =
        Appends-chain laws (encode_varint 8 0) (V.pack v) w (encoding 8 0) (P.packed v) m
          (encode_varint-Appends laws 8 0 (length (P.packed v) + m) w (omega arith) (omega arith)
            (Room-append laws w (encoding 8 0) (P.packed v) m room))
          (P.pack-Appends laws v m)

    -- In a state in step with some decoder, with the next id below 2 ^ 64, and on a writer with
    -- room for it, `encode` appends the id of a value seen before, or 0 and the value packed; it
    -- returns the number of bytes, and the encoder's state is the one after the value.
    pub encode-coded :
        (e : Encoder.DedupeEncoder V) (d : Decoder.DedupeDecoder V) (v : V.Value) (m : ℕ) (w : W)
        → Sync V e d
        → e.next_id < 2 ^ 64
        → laws.Room w (length (coded e v) + m)
        → AppendsWith laws (Encoder.encode V v) e w (coded e v) (after_value e v) m
    unfolding Encoder.encode
    encode-coded e d v m w s small = go (find V e v) refl
      where
        go :
            (o : Option ℕ)
            → find V e v ≡ o
            → laws.Room w (length (coded_as v (find V e v)) + m)
            → AppendsWith laws
                (Encoder.encode V v)
                e
                w
                (coded_as v (find V e v))
                (after_as e v (find V e v))
                m
        go none h room =
            rw (h, Encoder.encode)
              (on_right-AppendsWith laws (Encoder.insert V v e) (Encoder.encode_new V v) w
                (encoding 8 0 ++ P.packed v) m (encode_new-Appends v m w (rw h at room)))
        go (some id) h room =
            rw (h, Encoder.encode)
              (on_right-AppendsWith laws (Encoder.with_store V (V.type_id v) e) (encode_varint 8 id)
                w (encoding 8 id) m
                (encode_varint-Appends laws 8 id m w (omega arith)
                  (omega (arith, (s.found v id h).1)) (rw h at room)))

  abbrev table_as : Decoder.DedupeDecoder V → V.Value → Option ℕ → Decoder.DedupeDecoder V
  table_as d v none = Decoder.push V v d
  table_as d v (some id) = d

  -- The decoder's state after it has read what the encoder wrote for a value in state `e`.
  abbrev pub after_read :
      Encoder.DedupeEncoder V → Decoder.DedupeDecoder V → V.Value → Decoder.DedupeDecoder V
  after_read e d v = table_as d v (find V e v)

  -- The states after a value are in step.
  pub after_value-Sync :
      (e : Encoder.DedupeEncoder V) (d : Decoder.DedupeDecoder V) (v : V.Value)
      → Sync V e d
      → Sync V (after_value e v) (after_read e d v)
  after_value-Sync e d v s = go (find V e v)
    where
      go : (o : Option ℕ) → Sync V (after_as e v o) (table_as d v o)
      go none = Sync-insert V P e d v s
      go (some id) = Sync-with_store V e d (V.type_id v) s

  cached_lem :
      (d : Decoder.DedupeDecoder V) (v : V.Value) (id : ℕ)
      → get_elem? d.values (id - 1) ≡ some v
      → Decoder.cached V (V.type_id v) id d ≡ some v
  unfolding Decoder.cached
  cached_lem d v id at = rw (at, Decoder.cached) (rw (eq→== (V.type_id v) (V.type_id v) refl))

  module _ {R : Type 0} ⦃io : Read R⦄ (laws : ReadLaws io) where
    read_new :
        (d : Decoder.DedupeDecoder V) (v : V.Value) (rest : List ℕ) (r : R)
        → laws.IsValid r
        → laws.remaining r ≡ P.packed v ++ rest
        → ReadsWith laws (Decoder.after_id V (V.type_id v) 0) d r v (Decoder.push V v d) rest
    unfolding Decoder.after_id
    read_new d v rest r valid e = go (P.unpack-Reads laws v rest r valid e)
      where
        go :
            Reads laws (V.unpack (V.type_id v)) r v rest
            → ReadsWith laws (Decoder.after_id V (V.type_id v) 0) d r v (Decoder.push V v d) rest
        go (r', h, valid', left) = (r', rw h, valid', left)

    read_cached :
        (d : Decoder.DedupeDecoder V) (v : V.Value) (id : ℕ) (rest : List ℕ) (r : R)
        → 0 < id
        → get_elem? d.values (id - 1) ≡ some v
        → laws.IsValid r
        → laws.remaining r ≡ rest
        → ReadsWith laws (Decoder.after_id V (V.type_id v) id) d r v d rest
    unfolding Decoder.after_id
    read_cached d v id rest r pos at valid e =
        (r, rw (pos→ne_zero id pos) (rw (cached_lem d v id at, Decoder.from_table)), valid, e)

    -- In a state in step with the encoder's, with the next id below 2 ^ 64, and from a valid
    -- reader whose next bytes are those for a value, `decode` at the value's type returns the
    -- value, leaves what follows, and puts a new value into the table.
    pub decode-coded :
        (e : Encoder.DedupeEncoder V) (d : Decoder.DedupeDecoder V) (v : V.Value) (rest : List ℕ)
        (r : R)
        → Sync V e d
        → e.next_id < 2 ^ 64
        → laws.IsValid r
        → laws.remaining r ≡ coded e v ++ rest
        → ReadsWith laws (Decoder.decode V (V.type_id v)) d r v (after_read e d v) rest
    unfolding Decoder.decode
    decode-coded e d v rest r s small valid = go (find V e v) refl
      where
        go :
            (o : Option ℕ)
            → find V e v ≡ o
            → laws.remaining r ≡ coded_as v o ++ rest
            → ReadsWith laws (Decoder.decode V (V.type_id v)) d r v (table_as d v o) rest
        go none h left =
            ReadsWith-bind laws (on_right (decode_varint 8)) (Decoder.after_id V (V.type_id v)) d d
              (Decoder.push V v d) r 0 v (P.packed v ++ rest) rest
              (on_right-ReadsWith laws d (decode_varint 8) r 0 (P.packed v ++ rest) (
                decode_varint-Reads laws 8 0 (P.packed v ++ rest) r (omega arith) (omega arith)
                  (omega arith) valid (left ∙ append_assoc _ (P.packed v) rest)))
              (λ r' valid' left'. read_new d v rest r' valid' left')
        go (some id) h left =
            let (pos, below, at) = s.found v id h in
            ReadsWith-bind laws (on_right (decode_varint 8)) (Decoder.after_id V (V.type_id v)) d d
              d r id v rest rest
              (on_right-ReadsWith laws d (decode_varint 8) r id rest (
                decode_varint-Reads laws 8 id rest r (omega arith) (omega arith) (omega arith) valid
                  left))
              (λ r' valid' left'. read_cached d v id rest r' pos at valid' left')

  -- For an encoder and a decoder in step, the next id below 2 ^ 64, a writer with room, and a
  -- valid reader whose next bytes are those that the encoder appends for a value: `encode` appends
  -- these bytes and returns their number, `decode` at the value's type returns the value and leaves
  -- what follows, and the states in which the two calls leave the encoder and the decoder are in
  -- step again.
  pub decode-encode-Sync :
      {W R : Type 0} ⦃wio : Write W⦄ ⦃rio : Read R⦄ (wlaws : WriteLaws wio) (rlaws : ReadLaws rio)
      (e : Encoder.DedupeEncoder V) (d : Decoder.DedupeDecoder V) (v : V.Value) (m : ℕ) (w : W)
      → Sync V e d
      → e.next_id < 2 ^ 64
      → wlaws.Room w (length (coded e v) + m)
      → (e' : Encoder.DedupeEncoder V) × (bs : List ℕ) × AppendsWith wlaws
          (Encoder.encode V v)
          e
          w
          bs
          e'
          m
        × ((rest : List ℕ) (r : R)
            → rlaws.IsValid r
            → rlaws.remaining r ≡ bs ++ rest
            → (d' : Decoder.DedupeDecoder V) × ReadsWith rlaws
                (Decoder.decode V (V.type_id v))
                d
                r
                v
                d'
                rest
              × Sync V e' d')
  decode-encode-Sync wlaws rlaws e d v m w s small room = (
    after_value e v,
    coded e v,
    encode-coded wlaws e d v m w s small room,
    λ rest r valid left. (
      after_read e d v,
      decode-coded rlaws e d v rest r s small valid left,
      after_value-Sync e d v s,
    ),
  )
