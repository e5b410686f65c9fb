-- ===== src/Codec/DedupedLaws.antt =====
-- The deduplicated types of src/dedupe.rs keep the promise of `Encode` and `Decode`, in contexts
-- with deduplication, without it, and with no context.
use lencode.Prelude.{
  ℕ, ◌+◌, ◌^◌, ◌<◌, ◌≡◌, refl, sym, ap, ◌∙◌, Option, none, some, List, [], ◌∷◌, ◌++◌, length, All,
}
use mathlib.Core.Path.{subst}
use lencode.Io.{ok, Read, Write, ReadLaws, WriteLaws, Appends, Reads}
use lencode.Io.Context.{beside, AppendsWith, ReadsWith}
use lencode.Dedupe.Values.{Values, PackLaws}
use lencode.Dedupe.Encoder as Dedupe
use lencode.Dedupe.Decoder as Undedupe
use lencode.Dedupe.Sync as DedupeSync
use lencode.Dedupe.RoundTrip as RoundTrip
use lencode.Pack.PackingLaws.{packed_each}
use lencode.Context.Encoder.{EncoderContext}
use lencode.Context.Decoder.{DecoderContext}
use lencode.Context.Sync.{InStep, ContextSync}
use lencode.Codec.Laws.{CodingLaws, CodecLaws, coded_each}
use lencode.Codec.Deduped.{encode_with, encode_deduped, decode_with, decode_deduped, deduped}

module _ (V : Values) (P : PackLaws V) (t : ℕ) where
  abbrev Ctx : Type 0
  Ctx = Option (EncoderContext V)

  abbrev Dtx : Type 0
  Dtx = Option (DecoderContext V)

  abbrev coded_part : Option (Dedupe.DedupeEncoder V) → V.Value → List ℕ
  coded_part none v = P.packed v
  coded_part (some encoder) v = RoundTrip.coded V P encoder v

  abbrev deduped_coded : Ctx → V.Value → List ℕ
  deduped_coded none v = P.packed v
  deduped_coded (some ctx) v = coded_part ctx.dedupe v

  -- The next id fits into a `usize`.
  abbrev HasIds : Option (Dedupe.DedupeEncoder V) → Type 0
  HasIds none = Unit
  HasIds (some encoder) = encoder.next_id < 2 ^ 64

  abbrev HasIdsIn : Ctx → Type 0
  HasIdsIn none = Unit
  HasIdsIn (some ctx) = HasIds ctx.dedupe

  abbrev DedupedCodable : Ctx → V.Value → Type 0
  DedupedCodable e v = (V.type_id v ≡ t) × HasIdsIn e

  abbrev after_part : Option (Dedupe.DedupeEncoder V) → V.Value → Option (Dedupe.DedupeEncoder V)
  after_part none v = none
  after_part (some encoder) v = some (RoundTrip.after_value V P encoder v)

  abbrev after_deduped : Ctx → V.Value → Ctx
  after_deduped none v = none
  after_deduped (some ctx) v = some (record ctx { dedupe = after_part ctx.dedupe v })

  abbrev read_part :
      Option (Dedupe.DedupeEncoder V)
      → Option (Undedupe.DedupeDecoder V)
      → V.Value
      → Option (Undedupe.DedupeDecoder V)
  read_part none d v = d
  read_part (some encoder) none v = none
  read_part (some encoder) (some decoder) v = some (RoundTrip.after_read V P encoder decoder v)

  abbrev after_deduped_read : Ctx → Dtx → V.Value → Dtx
  after_deduped_read none d v = d
  after_deduped_read (some ctx) none v = none
  after_deduped_read (some ctx) (some dtx) v =
      some (record dtx { dedupe = read_part ctx.dedupe dtx.dedupe v })

  part-InStep :
      (e : Option (Dedupe.DedupeEncoder V)) (d : Option (Undedupe.DedupeDecoder V)) (v : V.Value)
      → InStep (DedupeSync.Sync V) e d
      → InStep (DedupeSync.Sync V) (after_part e v) (read_part e d v)
  part-InStep none none v s = tt
  part-InStep none (some d) v s = s
  part-InStep (some e) none v s = s
  part-InStep (some e) (some d) v s = RoundTrip.after_value-Sync V P e d v s

  pub after_deduped-InStep :
      (e : Ctx) (d : Dtx) (v : V.Value)
      → InStep (ContextSync V) e d
      → InStep (ContextSync V) (after_deduped e v) (after_deduped_read e d v)
  after_deduped-InStep none none v s = tt
  after_deduped-InStep none (some d) v s = s
  after_deduped-InStep (some e) none v s = s
  after_deduped-InStep (some e) (some d) v s = record {
    dedupe = part-InStep e.dedupe d.dedupe v s.dedupe;
    diff = s.diff;
  }

  same_ctx :
      (ctx : EncoderContext V) (o : Option (Dedupe.DedupeEncoder V))
      → ctx.dedupe ≡ o
      → ctx ≡ record ctx { dedupe = o }
  same_ctx ctx o has = ap (λ p. record ctx { dedupe = p }) has

  same_dtx :
      (dtx : DecoderContext V) (o : Option (Undedupe.DedupeDecoder V))
      → dtx.dedupe ≡ o
      → dtx ≡ record dtx { dedupe = o }
  same_dtx dtx o has = ap (λ p. record dtx { dedupe = p }) has

  encode_with-Appends :
      {W : Type 0} ⦃io : Write W⦄ (laws : WriteLaws io) (ctx : EncoderContext V)
      (e : Option (Dedupe.DedupeEncoder V)) (d : Option (Undedupe.DedupeDecoder V)) (v : V.Value)
      (m : ℕ) (w : W)
      → ctx.dedupe ≡ e
      → InStep (DedupeSync.Sync V) e d
      → HasIds e
      → laws.Room w (length (coded_part e v) + m)
      → (w' : W) × (encode_with V v ctx e w
          ≡ ((some (record ctx { dedupe = after_part e v }), w'), ok (length (coded_part e v))))
        × laws.Room w' m
        × (laws.written w' ≡ laws.written w ++ coded_part e v)
  encode_with-Appends laws ctx none d v m w has s small room =
      let (w', h, room', app) = P.pack-Appends laws v m w room in
      (
        w',
        ap (beside (some ctx)) h
            ∙ ap (λ c. ((some c, w'), ok (length (P.packed v)))) (same_ctx ctx none has),
        room',
        app,
      )
  encode_with-Appends laws ctx (some e) none v m w has s small room = absurd s
  encode_with-Appends laws ctx (some e) (some d) v m w has s small room =
      let (w', h, room', app) = RoundTrip.encode-coded V P laws e d v m w s small room in
      (w', rw h, room', app)

  pub encode_deduped-Appends :
      {W : Type 0} ⦃io : Write W⦄ (laws : WriteLaws io) (e : Ctx) (d : Dtx) (v : V.Value) (m : ℕ)
      (w : W)
      → InStep (ContextSync V) e d
      → DedupedCodable e v
      → laws.Room w (length (deduped_coded e v) + m)
      → 0 < m
      → AppendsWith laws (encode_deduped V v) e w (deduped_coded e v) (after_deduped e v) m
  unfolding encode_deduped
  encode_deduped-Appends laws none d v m w s fits room more =
      let (w', h, room', app) = P.pack-Appends laws v m w room in (w', rw h, room', app)
  encode_deduped-Appends laws (some e) none v m w s fits room more = absurd s
  encode_deduped-Appends laws (some e) (some d) v m w s fits room more =
      encode_with-Appends laws e e.dedupe d.dedupe v m w refl s.dedupe fits.1 room

  unpack-Reads :
      {R : Type 0} ⦃io : Read R⦄ (laws : ReadLaws io) (v : V.Value) (rest : List ℕ) (r : R)
      → V.type_id v ≡ t
      → laws.IsValid r
      → laws.remaining r ≡ P.packed v ++ rest
      → Reads laws (V.unpack t) r v rest
  unpack-Reads laws v rest r typed valid left =
      subst (λ k. Reads laws (V.unpack k) r v rest) typed (P.unpack-Reads laws v rest r valid left)

  decode_with-Reads :
      {R : Type 0} ⦃io : Read R⦄ (laws : ReadLaws io) (dtx : DecoderContext V)
      (e : Option (Dedupe.DedupeEncoder V)) (d : Option (Undedupe.DedupeDecoder V)) (v : V.Value)
      (rest : List ℕ) (r : R)
      → dtx.dedupe ≡ d
      → InStep (DedupeSync.Sync V) e d
      → V.type_id v ≡ t
      → HasIds e
      → laws.IsValid r
      → laws.remaining r ≡ coded_part e v ++ rest
      → (r' : R) × (decode_with V t dtx d r
          ≡ ((some (record dtx { dedupe = read_part e d v }), r'), ok v))
        × laws.IsValid r'
        × (laws.remaining r' ≡ rest)
  decode_with-Reads laws dtx none none v rest r has s typed small valid left =
      let (r', h, valid', left') = unpack-Reads laws v rest r typed valid left in
      (
        r',
        ap (beside (some dtx)) h ∙ ap (λ c. ((some c, r'), ok v)) (same_dtx dtx none has),
        valid',
        left',
      )
  decode_with-Reads laws dtx none (some d) v rest r has s typed small valid left = absurd s
  decode_with-Reads laws dtx (some e) none v rest r has s typed small valid left = absurd s
  decode_with-Reads laws dtx (some e) (some d) v rest r has s typed small valid left =
      let (r', h, valid', left') =
        subst
          (λ k. ReadsWith laws (Undedupe.decode V k) d r v (RoundTrip.after_read V P e d v) rest)
          typed (RoundTrip.decode-coded V P laws e d v rest r s small valid left) in
      (r', rw h, valid', left')

  pub decode_deduped-Reads :
      {R : Type 0} ⦃io : Read R⦄ (laws : ReadLaws io) (e : Ctx) (d : Dtx) (v : V.Value)
      (rest : List ℕ) (r : R)
      → InStep (ContextSync V) e d
      → DedupedCodable e v
      → laws.IsValid r
      → laws.remaining r ≡ deduped_coded e v ++ rest
      → ReadsWith laws (decode_deduped V t) d r v (after_deduped_read e d v) rest
  unfolding decode_deduped
  decode_deduped-Reads laws none none v rest r s fits valid left =
      let (r', h, valid', left') = unpack-Reads laws v rest r fits.0 valid left in
      (r', rw h, valid', left')
  decode_deduped-Reads laws none (some d) v rest r s fits valid left = absurd s
  decode_deduped-Reads laws (some e) none v rest r s fits valid left = absurd s
  decode_deduped-Reads laws (some e) (some d) v rest r s fits valid left =
      decode_with-Reads laws d e.dedupe d.dedupe v rest r refl s.dedupe fits.0 fits.1 valid left

  abbrev pub deduped-CodingLaws : (size : ℕ) → CodingLaws (ContextSync V) (deduped V t size).coding
  deduped-CodingLaws size = record {
    coded = deduped_coded;
    IsCodable = DedupedCodable;
    after = after_deduped;
    after_read = after_deduped_read;
    after-InStep = λ e d v s fits. after_deduped-InStep e d v s;
    encode-Appends =
        λ laws e d v m w s fits room more. encode_deduped-Appends laws e d v m w s fits room more;
    decode-Reads = λ laws e d v rest r s fits valid left.
        decode_deduped-Reads laws e d v rest r s fits valid left;
  }

  -- The bytes of a slice are those of its items, packed.
  coded_each-packed_each :
      (size : ℕ) (vs : List V.Value)
      → coded_each (deduped-CodingLaws size) vs ≡ packed_each P.packed vs
  unfolding coded_each packed_each
  coded_each-packed_each size [] = refl
  coded_each-packed_each size (v ∷ vs) =
      ap (λ bs. P.packed v ++ bs) (coded_each-packed_each size vs)

  pub encode_slice-Appends :
      (size : ℕ) {W : Type 0} ⦃io : Write W⦄ (laws : WriteLaws io) (vs : List V.Value) (m : ℕ)
      (w : W)
      → All (λ v. V.type_id v ≡ t) vs
      → laws.Room w (length (coded_each (deduped-CodingLaws size) vs) + m)
      → 0 < m
      → Appends laws (V.pack_slice t vs) w (coded_each (deduped-CodingLaws size) vs) m
  encode_slice-Appends size laws vs m w typed room more =
      let e = coded_each-packed_each size vs in
      subst (λ bs. Appends laws (V.pack_slice t vs) w bs m) (sym e)
        (P.pack_slice-Appends laws t vs m w typed (subst (λ bs. laws.Room w (length bs + m)) e room)
          more)

  pub decode_vec-Reads :
      (size : ℕ) {R : Type 0} ⦃io : Read R⦄ (laws : ReadLaws io) (vs : List V.Value) (rest : List ℕ)
      (r : R)
      → All (λ v. V.type_id v ≡ t) vs
      → laws.IsValid r
      → laws.remaining r ≡ coded_each (deduped-CodingLaws size) vs ++ rest
      → Reads laws (V.unpack_vec t (length vs)) r vs rest
  decode_vec-Reads size laws vs rest r typed valid left =
      P.unpack_vec-Reads laws t vs rest r typed valid
        (left ∙ ap (λ bs. bs ++ rest) (coded_each-packed_each size vs))

  abbrev pub deduped-CodecLaws : (size : ℕ) → CodecLaws (ContextSync V) (deduped V t size)
  deduped-CodecLaws size = record {
    item = deduped-CodingLaws size;
    IsSlice = All (λ v. V.type_id v ≡ t);
    encode_slice-Appends =
        λ laws vs m w typed room more. encode_slice-Appends size laws vs m w typed room more;
    decode_vec-Reads =
        λ laws vs rest r typed valid left. decode_vec-Reads size laws vs rest r typed valid left;
  }
