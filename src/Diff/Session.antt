-- ===== src/Diff/Session.antt =====
-- A session of blobs under keys through the encoder and the decoder of src/diff.rs: each blob
-- after `set_key` or `clear_key`.
use lencode.Prelude.{
  ℕ, ◌+◌, ◌^◌, ◌<◌, ◌≡◌, refl, sym, ◌∙◌, arith, Option, none, some, List, [], ◌∷◌, ◌++◌, length,
  append_assoc, append-nil, All,
}
use lencode.Io.{M, pure, ◌>>=◌, ◌⊕◌, Read, Write, ReadLaws, WriteLaws}
use lencode.Io.Context.{AppendsWith, ReadsWith, AppendsWith-chain, Room-append, ReadsWith-bind}
use lencode.Io.Memory.{Transmits, Transmits_lem}
use lencode.Io.CursorLaws.{cursor_read_laws}
use lencode.Io.Cursor.{cursor_read}
use lencode.Io.VecWriter.{vec_write}
use lencode.Io.MemoryLaws.{vec_write_laws}
use lencode.Bytes.Zstd.{Zstd, ZstdLaws}
use lencode.Diff.Blobs
use lencode.Diff.Encoder
use lencode.Diff.Encoder.{DiffEncoder, encode_blob}
use lencode.Diff.Decoder
use lencode.Diff.Decoder.{DiffDecoder, decode_blob}
use lencode.Diff.Sync.{Sync, coded, after_blob, after_read_blob, after_blob-Sync}
use lencode.Diff.EncodeBlob.{encode_blob-coded}
use lencode.Diff.DecodeBlob.{decode_blob-coded}

-- A blob, and the key to set for it, or none to clear.
abbrev pub Step : Type 0
Step = Option ℕ × List ℕ

abbrev pub select : Option ℕ → DiffEncoder → DiffEncoder
select none e = Encoder.clear_key e
select (some key) e = Encoder.set_key key e

abbrev pub select_read : Option ℕ → DiffDecoder → DiffDecoder
select_read none d = Decoder.clear_key d
select_read (some key) d = Decoder.set_key key d

module _ (Z : Zstd) where
  abbrev pub encode_step : {W : Type 0} ⦃io : Write W⦄ → Step → M (DiffEncoder × W) ℕ
  encode_step (key, blob) (e, w) = encode_blob Z blob (select key e, w)

  abbrev pub encode_steps : {W : Type 0} ⦃io : Write W⦄ → List Step → M (DiffEncoder × W) ℕ
  encode_steps [] = pure 0
  encode_steps (step ∷ steps) = encode_step step ⊕ encode_steps steps

  abbrev pub decode_step : {R : Type 0} ⦃io : Read R⦄ → Option ℕ → M (DiffDecoder × R) (List ℕ)
  decode_step key (d, r) = decode_blob Z (select_read key d, r)

  -- The decoder's side is told the keys, and nothing else.
  abbrev pub decode_steps :
      {R : Type 0} ⦃io : Read R⦄ → List Step → M (DiffDecoder × R) (List (List ℕ))
  decode_steps [] = pure []
  decode_steps (step ∷ steps) =
      decode_step step.0 >>= λ blob. decode_steps steps >>= λ blobs. pure (blob ∷ blobs)

  abbrev session_bytes : DiffEncoder → List Step → List ℕ
  session_bytes e [] = []
  session_bytes e ((key, blob) ∷ steps) =
      coded Z (select key e) blob ++ session_bytes (after_blob (select key e) blob) steps

abbrev pub after_steps : DiffEncoder → List Step → DiffEncoder
after_steps e [] = e
after_steps e ((key, blob) ∷ steps) = after_steps (after_blob (select key e) blob) steps

abbrev pub read_steps : DiffDecoder → List Step → DiffDecoder
read_steps d [] = d
read_steps d ((key, blob) ∷ steps) = read_steps (after_read_blob (select_read key d) blob) steps

abbrev pub blobs_of : List Step → List (List ℕ)
blobs_of [] = []
blobs_of (step ∷ steps) = step.1 ∷ blobs_of steps

-- A 64-bit number holds the lengths of the blobs.
abbrev pub Sized : List Step → Type 0
Sized steps = All (λ (step : Step). length step.1 < 2 ^ 64) steps

Sync-select :
    (e : DiffEncoder) (d : DiffDecoder) (key : Option ℕ)
    → Sync e d
    → Sync (select key e) (select_read key d)
unfolding Encoder.clear_key Decoder.clear_key Encoder.set_key Decoder.set_key
Sync-select e d none s = record { same = s.same; active = refl; small = s.small }
Sync-select e d (some key) s = record { same = s.same; active = refl; small = s.small }

pub Sync-new : Sync Encoder.new Decoder.new
unfolding Encoder.new Decoder.new Blobs.get
Sync-new = record { same = λ key. refl; active = refl; small = λ key blob h. cc }

encode_steps-coded :
    {W : Type 0} ⦃io : Write W⦄ (laws : WriteLaws io) (Z : Zstd) (e : DiffEncoder) (d : DiffDecoder)
    (steps : List Step) (m : ℕ) (w : W)
    → Sync e d
    → Sized steps
    → laws.Room w (length (session_bytes Z e steps) + m)
    → 0 < m
    → AppendsWith laws (encode_steps Z steps) e w (session_bytes Z e steps) (after_steps e steps) m
encode_steps-coded laws Z e d [] m w s sized room more =
    let none : 0 + m ≡ m = omega arith in (w, refl, rw none at room, sym (append-nil _))
encode_steps-coded laws Z e d ((key, blob) ∷ steps) m w s (small, sized) room more =
    let e' = after_blob (select key e) blob in
    let front = coded Z (select key e) blob in
    let back = session_bytes Z e' steps in
    AppendsWith-chain laws (encode_step Z (key, blob)) (encode_steps Z steps) e e'
      (after_steps e' steps) w front back m
      (encode_blob-coded laws Z (select key e) (select_read key d) blob _ w (Sync-select e d key s)
        (omega arith) small (Room-append laws w front back m room))
      (λ w' room'.
        encode_steps-coded laws Z e' (after_read_blob (select_read key d) blob) steps m w'
          (after_blob-Sync (select key e) (select_read key d) blob (Sync-select e d key s) small)
          sized room' more)

decode_steps-coded :
    {R : Type 0} ⦃io : Read R⦄ (laws : ReadLaws io) (Z : Zstd) (zstd : ZstdLaws Z) (e : DiffEncoder)
    (d : DiffDecoder) (steps : List Step) (rest : List ℕ) (r : R)
    → Sync e d
    → Sized steps
    → laws.IsValid r
    → laws.remaining r ≡ session_bytes Z e steps ++ rest
    → ReadsWith laws (decode_steps Z steps) d r (blobs_of steps) (read_steps d steps) rest
decode_steps-coded laws Z zstd e d [] rest r s sized valid h = (r, refl, valid, h)
decode_steps-coded laws Z zstd e d ((key, blob) ∷ steps) rest r s (small, sized) valid h =
    let e' = after_blob (select key e) blob in
    let d' = after_read_blob (select_read key d) blob in
    let s' = Sync-select e d key s in
    ReadsWith-bind laws (decode_step Z key) (λ b. decode_steps Z steps >>= λ bs. pure (b ∷ bs)) d d'
      (read_steps d' steps) r blob (blob ∷ blobs_of steps) (session_bytes Z e' steps ++ rest) rest
      (decode_blob-coded laws Z zstd (select key e) (select_read key d) blob
        (session_bytes Z e' steps ++ rest) r s' small valid
        (h ∙ append_assoc _ (session_bytes Z e' steps) rest))
      (λ r' valid' left'.
        ReadsWith-bind laws (decode_steps Z steps) (λ bs. pure (blob ∷ bs)) d' (read_steps d' steps)
          (read_steps d' steps) r' (blobs_of steps) (blob ∷ blobs_of steps) rest rest
          (decode_steps-coded laws Z zstd e' d' steps rest r'
            (after_blob-Sync (select key e) (select_read key d) blob s' small) sized valid' left')
          (λ r'' valid'' left''. (r'', refl, valid'', left'')))

-- For any session of blobs, each shorter than 2 ^ 64, with any keys set and cleared between them,
-- and a `zstd` that decompresses what it compressed: a new encoder writes all of them to a new vector,
-- and returns the number of its bytes; from these bytes a new decoder that sets and clears the
-- same keys returns the blobs, in order, and consumes all of them.
pub decode_steps-encode_steps :
    (Z : Zstd) (zstd : ZstdLaws Z) (steps : List Step)
    → Sized steps
    → Transmits
        (encode_steps Z steps)
        Encoder.new
        (after_steps Encoder.new steps)
        (decode_steps Z steps)
        Decoder.new
        (read_steps Decoder.new steps)
        (blobs_of steps)
decode_steps-encode_steps Z zstd steps sized =
    Transmits_lem (encode_steps Z steps) Encoder.new (after_steps Encoder.new steps)
      (decode_steps Z steps) Decoder.new (read_steps Decoder.new steps) (blobs_of steps)
      (session_bytes Z Encoder.new steps) 1
      (encode_steps-coded vec_write_laws Z Encoder.new Decoder.new steps 1 _ Sync-new sized tt
        (omega arith))
      (λ c valid left.
        decode_steps-coded cursor_read_laws Z zstd Encoder.new Decoder.new steps _ c Sync-new sized
          valid left)
