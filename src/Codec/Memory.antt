-- ===== src/Codec/Memory.antt =====
-- Values of every type of Shapes from a new `VecWriter` into a new `Cursor` (src/lib.rs,
-- src/io.rs), and what follows for their bytes.
use lencode.Prelude.{arith, ℕ, ◌≡◌, refl, sym, ap, ◌∙◌, Option, List, [], ◌++◌}
use lencode.Io.{Result, ok, err, fault}
use lencode.Io.Cursor
use lencode.Io.Cursor.{Cursor, cursor_read}
use lencode.Io.CursorLaws.{Unread-new, cursor_read_laws}
use lencode.Io.VecWriter.{vec_write}
use lencode.Io.MemoryLaws.{vec_write_laws}
use lencode.Io.Memory.{Transmits, Transmits_lem}
use lencode.Bytes.Zstd.{Zstd, ZstdLaws}
use lencode.Dedupe.Values.{Values, PackLaws}
use lencode.Context.Encoder.{EncoderContext}
use lencode.Context.Decoder.{DecoderContext}
use lencode.Context.Sync.{InStep, ContextSync}
use lencode.Codec.Traits.{Coding}
use lencode.Codec.Laws.{CodingLaws}
use lencode.Codec.Shapes.{Keyed, Shape, codec}
use lencode.Codec.ShapeLaws.{codec_laws}

-- What a call returned, or `a` if it failed.
abbrev value_or : {S A : Type 0} → A → S × Result A → A
value_or a (s, ok b) = b
value_or a (s, err e) = a
value_or a (s, fault x) = a

module _ {X Y : Type 0} (S : X → Y → Type 0) (C : Coding X Y) (L : CodingLaws S C) where
  pub transmits :
      (e : Option X) (d : Option Y) (v : C.Value)
      → InStep S e d
      → L.IsCodable e v
      → Transmits (C.encode_ext v) e (L.after e v) C.decode_ext d (L.after_read e d v) v
  transmits e d v s fits =
      Transmits_lem (C.encode_ext v) e (L.after e v) C.decode_ext d (L.after_read e d v) v
        (L.coded e v) 1 (L.encode-Appends vec_write_laws e d v 1 _ s fits tt (omega arith))
        (λ c valid left. L.decode-Reads cursor_read_laws e d v [] c s fits valid left)

  -- Two values whose bytes begin the same bytes are one.
  unique :
      (e : Option X) (d : Option Y) (u v : C.Value) (us vs : List ℕ)
      → InStep S e d
      → L.IsCodable e u
      → L.IsCodable e v
      → L.coded e u ++ us ≡ L.coded e v ++ vs
      → u ≡ v
  unfolding Cursor.new
  unique e d u v us vs s fit_u fit_v same =
      let bytes = L.coded e u ++ us in
      let c = Cursor.new bytes in
      let (r, h, valid, left) =
        L.decode-Reads cursor_read_laws e d u us c s fit_u (Unread-new bytes) refl in
      let (r', h', valid', left') =
        L.decode-Reads cursor_read_laws e d v vs c s fit_v (Unread-new bytes) same in
      ap (value_or u) (sym h ∙ h')

module _ (V : Values) (P : PackLaws V) (Z : Zstd) (zstd : ZstdLaws Z) (keys : ℕ → Keyed V)
    (key_laws : (k : ℕ) → CodingLaws (ContextSync V) (keys k).coding) (t : Shape) where
  abbrev L : CodingLaws (ContextSync V) (codec V Z keys t).coding
  L = (codec_laws V P Z zstd keys key_laws t).item

  -- Given what `Pack` and zstd promise, and that the keys of trees are of types that keep the
  -- interface CodingLaws, in any orders: for every type built from the numbers, Booleans, strings,
  -- byte vectors and arrays, deduplicated types, options, results, tuples, ranges, sequences and
  -- B-trees, every value that is codable, and contexts in step or none: `encode_ext` succeeds on a
  -- new vector and returns the number of its bytes; from these bytes `decode_ext` returns the
  -- value and consumes all of them; and the contexts are in step again. Codable are the values
  -- whose numbers are within the bounds of their types (no zero in a `NonZero`), whose lengths and
  -- ids are below 2 ^ 64, whose strings are UTF-8, whose strings and byte vectors are shorter than
  -- 2 ^ 63 by more than 9 bytes and not refused by the compressor, whose arrays are of their
  -- length, whose trees ascend with keys that their laws call codable, whose deduplicated values
  -- are of their type, and none of whose inclusive ranges an iterator has used up. Hash
  -- collections, heaps and `VecDeque<u8>` are not among these types.
  pub decode_ext-encode_ext :
      (e : Option (EncoderContext V)) (d : Option (DecoderContext V)) (v : (codec V Z keys t).Value)
      → InStep (ContextSync V) e d
      → L.IsCodable e v
      → Transmits
          ((codec V Z keys t).encode_ext v)
          e
          (L.after e v)
          (codec V Z keys t).decode_ext
          d
          (L.after_read e d v)
          v
        × InStep (ContextSync V) (L.after e v) (L.after_read e d v)
  decode_ext-encode_ext e d v s fits = (
    transmits (ContextSync V) (codec V Z keys t).coding L e d v s fits,
    L.after-InStep e d v s fits,
  )

  -- Under the same conditions on `Pack`, zstd and the keys of trees, for the same types, and in one
  -- context that a decoder is in step with: two codable values, in the same sense (so no inclusive
  -- range that an iterator has used up among them), whose bytes begin the same bytes, whatever
  -- stands behind them, are the same value.
  pub coded_unique :
      (e : Option (EncoderContext V)) (d : Option (DecoderContext V))
      (u v : (codec V Z keys t).Value) (us vs : List ℕ)
      → InStep (ContextSync V) e d
      → L.IsCodable e u
      → L.IsCodable e v
      → L.coded e u ++ us ≡ L.coded e v ++ vs
      → u ≡ v
  coded_unique e d u v us vs s fit_u fit_v same =
      unique (ContextSync V) (codec V Z keys t).coding L e d u v us vs s fit_u fit_v same
