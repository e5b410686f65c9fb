-- ===== src/Codec/BlobLaws.antt =====
-- The sequences of bytes of src/lib.rs: what they append and read, with a key active or without.
use lencode.Prelude.{
  arith, ℕ, ◌+◌, ◌^◌, ◌<◌, ◌≡◌, refl, sym, ap, ◌∙◌, Option, none, some, List, ◌++◌, length,
}
use lencode.Io.{M, ok, Read, Write, ReadLaws, WriteLaws, Appends, Reads}
use lencode.Io.Context.{beside, AppendsWith, ReadsWith}
use lencode.Bytes.Zstd.{Zstd, ZstdLaws}
use lencode.Dedupe.Values.{Values}
use lencode.Diff.Encoder.{DiffEncoder}
use lencode.Diff.Decoder.{DiffDecoder}
use lencode.Diff.Sync as DiffSync
use lencode.Diff.EncodeBlob.{encode_blob-coded}
use lencode.Diff.DecodeBlob.{decode_blob-coded}
use lencode.Context.Encoder.{EncoderContext}
use lencode.Context.Decoder.{DecoderContext}
use lencode.Context.Sync.{InStep, ContextSync}
use lencode.Codec.Blobs.{encode_keyed, encode_diff, encode_or, decode_keyed, decode_diff, decode_or}

module _ (V : Values) (Z : Zstd) where
  abbrev pub Ctx : Type 0
  Ctx = Option (EncoderContext V)

  abbrev pub Dtx : Type 0
  Dtx = Option (DecoderContext V)

  -- The bytes for a blob where `plain_bytes` are those without a difference encoder.
  abbrev keyed_coded : List ℕ → List ℕ → DiffEncoder → Option ℕ → List ℕ
  keyed_coded plain_bytes blob diff none = plain_bytes
  keyed_coded plain_bytes blob diff (some key) = DiffSync.coded Z diff blob

  abbrev diff_coded : List ℕ → List ℕ → Option DiffEncoder → List ℕ
  diff_coded plain_bytes blob none = plain_bytes
  diff_coded plain_bytes blob (some diff) = keyed_coded plain_bytes blob diff diff.current_key

  abbrev pub blob_coded : List ℕ → Ctx → List ℕ → List ℕ
  blob_coded plain_bytes none blob = plain_bytes
  blob_coded plain_bytes (some ctx) blob = diff_coded plain_bytes blob ctx.diff

  abbrev after_diff : Option DiffEncoder → List ℕ → Option DiffEncoder
  after_diff none blob = none
  after_diff (some diff) blob = some (DiffSync.after_blob diff blob)

  abbrev pub after_blob_in : Ctx → List ℕ → Ctx
  after_blob_in none blob = none
  after_blob_in (some ctx) blob = some (record ctx { diff = after_diff ctx.diff blob })

  abbrev after_undiff : Option DiffDecoder → List ℕ → Option DiffDecoder
  after_undiff none blob = none
  after_undiff (some diff) blob = some (DiffSync.after_read_blob diff blob)

  abbrev pub after_blob_read_in : Dtx → List ℕ → Dtx
  after_blob_read_in none blob = none
  after_blob_read_in (some ctx) blob = some (record ctx { diff = after_undiff ctx.diff blob })

  diff-InStep :
      (e : Option DiffEncoder) (d : Option DiffDecoder) (blob : List ℕ)
      → InStep DiffSync.Sync e d
      → length blob < 2 ^ 64
      → InStep DiffSync.Sync (after_diff e blob) (after_undiff d blob)
  diff-InStep none none blob s small = tt
  diff-InStep none (some d) blob s small = s
  diff-InStep (some e) none blob s small = s
  diff-InStep (some e) (some d) blob s small = DiffSync.after_blob-Sync e d blob s small

  -- Contexts in step are in step again when a blob shorter than 2 ^ 64 was written and read.
  pub after_blob-InStep :
      (e : Ctx) (d : Dtx) (blob : List ℕ)
      → InStep (ContextSync V) e d
      → length blob < 2 ^ 64
      → InStep (ContextSync V) (after_blob_in e blob) (after_blob_read_in d blob)
  after_blob-InStep none none blob s small = tt
  after_blob-InStep none (some d) blob s small = s
  after_blob-InStep (some e) none blob s small = s
  after_blob-InStep (some e) (some d) blob s small = record {
    dedupe = s.dedupe;
    diff = diff-InStep e.diff d.diff blob s.diff small;
  }

  same_ctx :
      (ctx : EncoderContext V) (o : Option DiffEncoder)
      → ctx.diff ≡ o
      → ctx ≡ record ctx { diff = o }
  same_ctx ctx o has = ap (λ p. record ctx { diff = p }) has

  same_dtx :
      (dtx : DecoderContext V) (o : Option DiffDecoder)
      → dtx.diff ≡ o
      → dtx ≡ record dtx { diff = o }
  same_dtx dtx o has = ap (λ p. record dtx { diff = p }) has

  module _ {W : Type 0} ⦃io : Write W⦄ (laws : WriteLaws io) (blob plain_bytes : List ℕ)
      (plain : M W ℕ) (m : ℕ)
      (plain-Appends : (w : W)
        → laws.Room w (length plain_bytes + m)
        → Appends laws plain w plain_bytes m)
      (more : 0 < m) (small : length blob < 2 ^ 64) where
    keyed-Appends :
        (ctx : EncoderContext V) (e : DiffEncoder) (d : DiffDecoder) (key : Option ℕ) (w : W)
        → ctx.diff ≡ some e
        → e.current_key ≡ key
        → DiffSync.Sync e d
        → laws.Room w (length (keyed_coded plain_bytes blob e key) + m)
        → (w' : W) × (encode_keyed V Z blob plain ctx e key w ≡ (
          (some (record ctx { diff = some (DiffSync.after_blob e blob) }), w'),
          ok (length (keyed_coded plain_bytes blob e key)),
        ))
          × laws.Room w' m
          × (laws.written w' ≡ laws.written w ++ keyed_coded plain_bytes blob e key)
    keyed-Appends ctx e d none w has active s room =
        let (w', h, room', app) = plain-Appends w room in
        let same : ctx ≡ record ctx { diff = some (DiffSync.after_blob e blob) } =
          same_ctx ctx (some e) has
          ∙ ap (λ k. record ctx { diff = some (DiffSync.stored_as e blob k) }) (sym active) in
        (
          w',
          ap (beside (some ctx)) h ∙ ap (λ c. ((some c, w'), ok (length plain_bytes))) same,
          room',
          app,
        )
    keyed-Appends ctx e d (some key) w has active s room =
        let (w', h, room', app) =
          encode_blob-coded laws Z e d blob m w s (omega arith) small room in
        (w', rw h, room', app)

    diff-Appends :
        (ctx : EncoderContext V) (e : Option DiffEncoder) (d : Option DiffDecoder) (w : W)
        → ctx.diff ≡ e
        → InStep DiffSync.Sync e d
        → laws.Room w (length (diff_coded plain_bytes blob e) + m)
        → (w' : W) × (encode_diff V Z blob plain ctx e w ≡ (
          (some (record ctx { diff = after_diff e blob }), w'),
          ok (length (diff_coded plain_bytes blob e)),
        ))
          × laws.Room w' m
          × (laws.written w' ≡ laws.written w ++ diff_coded plain_bytes blob e)
    diff-Appends ctx none d w has s room =
        let (w', h, room', app) = plain-Appends w room in
        (
          w',
          ap (beside (some ctx)) h
              ∙ ap (λ c. ((some c, w'), ok (length plain_bytes))) (same_ctx ctx none has),
          room',
          app,
        )
    diff-Appends ctx (some e) none w has s room = absurd s
    diff-Appends ctx (some e) (some d) w has s room =
        keyed-Appends ctx e d e.current_key w has refl s room

    -- In contexts in step, a blob is appended as the difference encoder codes it, if a key is
    -- active, and else as it is without.
    pub encode_or-Appends :
        (e : Ctx) (d : Dtx) (w : W)
        → InStep (ContextSync V) e d
        → laws.Room w (length (blob_coded plain_bytes e blob) + m)
        → AppendsWith laws
            (encode_or V Z blob plain)
            e
            w
            (blob_coded plain_bytes e blob)
            (after_blob_in e blob)
            m
    unfolding encode_or
    encode_or-Appends none d w s room =
        let (w', h, room', app) = plain-Appends w room in (w', ap (beside none) h, room', app)
    encode_or-Appends (some e) none w s room = absurd s
    encode_or-Appends (some e) (some d) w s room = diff-Appends e e.diff d.diff w refl s.diff room

  module _ {R : Type 0} ⦃io : Read R⦄ (laws : ReadLaws io) (zstd : ZstdLaws Z)
      (blob plain_bytes rest : List ℕ) (check : List ℕ → M (Dtx × R) (List ℕ))
      (plain : M R (List ℕ)) (check_passes : (s : Dtx × R) → check blob s ≡ (s, ok blob))
      (plain-Reads : (r : R)
        → laws.IsValid r
        → laws.remaining r ≡ plain_bytes ++ rest
        → Reads laws plain r blob rest)
      (small : length blob < 2 ^ 64) where
    keyed-Reads :
        (dtx : DecoderContext V) (e : DiffEncoder) (d : DiffDecoder) (key : Option ℕ) (r : R)
        → dtx.diff ≡ some d
        → d.current_key ≡ key
        → DiffSync.Sync e d
        → laws.IsValid r
        → laws.remaining r ≡ keyed_coded plain_bytes blob e key ++ rest
        → (r' : R) × (decode_keyed V Z check plain dtx d key r
            ≡ ((some (record dtx { diff = some (DiffSync.after_read_blob d blob) }), r'), ok blob))
          × laws.IsValid r'
          × (laws.remaining r' ≡ rest)
    keyed-Reads dtx e d none r has active s valid left =
        let (r', h, valid', left') = plain-Reads r valid left in
        let same : dtx ≡ record dtx { diff = some (DiffSync.after_read_blob d blob) } =
          same_dtx dtx (some d) has
          ∙ ap (λ k. record dtx { diff = some (DiffSync.read_as d blob k) }) (sym active) in
        (r', ap (beside (some dtx)) h ∙ ap (λ c. ((some c, r'), ok blob)) same, valid', left')
    keyed-Reads dtx e d (some key) r has active s valid left =
        let (r', h, valid', left') =
          decode_blob-coded laws Z zstd e d blob rest r s small valid left in
        (r', rw h (check_passes _), valid', left')

    diff-Reads :
        (dtx : DecoderContext V) (e : Option DiffEncoder) (d : Option DiffDecoder) (r : R)
        → dtx.diff ≡ d
        → InStep DiffSync.Sync e d
        → laws.IsValid r
        → laws.remaining r ≡ diff_coded plain_bytes blob e ++ rest
        → (r' : R) × (decode_diff V Z check plain dtx d r
            ≡ ((some (record dtx { diff = after_undiff d blob }), r'), ok blob))
          × laws.IsValid r'
          × (laws.remaining r' ≡ rest)
    diff-Reads dtx none none r has s valid left =
        let (r', h, valid', left') = plain-Reads r valid left in
        (
          r',
          ap (beside (some dtx)) h ∙ ap (λ c. ((some c, r'), ok blob)) (same_dtx dtx none has),
          valid',
          left',
        )
    diff-Reads dtx none (some d) r has s valid left = absurd s
    diff-Reads dtx (some e) none r has s valid left = absurd s
    diff-Reads dtx (some e) (some d) r has s valid left =
        keyed-Reads dtx e d d.current_key r has refl s valid
          (left ∙ ap (λ k. keyed_coded plain_bytes blob e k ++ rest) s.active)

    -- In contexts in step, and from a valid reader whose next bytes are those for a blob, it is
    -- read back, in the way that the contexts say.
    pub decode_or-Reads :
        (e : Ctx) (d : Dtx) (r : R)
        → InStep (ContextSync V) e d
        → laws.IsValid r
        → laws.remaining r ≡ blob_coded plain_bytes e blob ++ rest
        → ReadsWith laws (decode_or V Z check plain) d r blob (after_blob_read_in d blob) rest
    unfolding decode_or
    decode_or-Reads none none r s valid left =
        let (r', h, valid', left') = plain-Reads r valid left in
        (r', ap (beside none) h, valid', left')
    decode_or-Reads none (some d) r s valid left = absurd s
    decode_or-Reads (some e) none r s valid left = absurd s
    decode_or-Reads (some e) (some d) r s valid left =
        diff-Reads d e.diff d.diff r refl s.diff valid left
