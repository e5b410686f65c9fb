-- ===== src/Codec/ShapeExamples.antt =====
-- The theorems on all types built from one another, of src/lib.rs, src/tuples.rs and src/dedupe.rs,
-- at a tuple of a vector, an option and a tree.
use Prim.Native.Nat.{compare, Ordering}
use Prim.Native.Nat.Ordering.{lt, eq, gt}
use lencode.Codec.Strings.{string, is_utf8}
use lencode.Prelude.{ℕ, ◌≡◌, refl, arith, true, false, Option, none, some, List, [], ◌∷◌}
use lencode.Io.{ok}
use lencode.Io.VecWriter.{vec_write}
use lencode.Io.Cursor.{cursor_read}
use lencode.Io.Memory.{Transmits}
use lencode.Dedupe.Encoder as Dedupe
use lencode.Bytes.Trimmer.{trimmer, trimmer_laws}
use lencode.Dedupe.Flags.{Flag, light, flags, flags_laws}
use lencode.Context.Encoder as EncCtx
use lencode.Context.Decoder as DecCtx
use lencode.Context.Sync.{InStep, ContextSync, ContextSync-with_all}
use lencode.Codec.Plain.{plain, plain-CodingLaws}
use lencode.Bytes.Vec.{compressed_payload}
use lencode.Codec.ByteLaws.{Packable, string-PlainLaws}
use lencode.Codec.Laws.{CodingLaws}
use lencode.Codec.Shapes.{Keyed, Shape, codec, codec_of, codings}
use lencode.Codec.Shapes.{other, num, option, tuple, vec, cons, nil, u64, deduped, range, btree_map}
use lencode.Codec.ShapeLaws.{codec_laws, codec_of_laws, field_laws}
use lencode.Io.Cursor.{cursor_write}
use lencode.Codec.Memory.{decode_ext-encode_ext, coded_unique}

-- The keys of all trees are strings, in the order of their bytes.
abbrev compare_then : Ordering → Ordering → Ordering
compare_then eq later = later
compare_then lt later = lt
compare_then gt later = gt

abbrev compare_bytes : List ℕ → List ℕ → Ordering
compare_bytes [] [] = eq
compare_bytes [] (b ∷ bs) = lt
compare_bytes (a ∷ more) [] = gt
compare_bytes (a ∷ more) (b ∷ bs) = compare_then (compare a b) (compare_bytes more bs)

abbrev keys : ℕ → Keyed flags
keys k = record { coding = plain (string trimmer); cmp = compare_bytes }

abbrev key_laws : (k : ℕ) → CodingLaws (ContextSync flags) (keys k).coding
key_laws k = plain-CodingLaws (ContextSync flags) (string-PlainLaws trimmer trimmer_laws)

-- A vector of lamps, an optional range of numbers, and numbers by name.
abbrev room : Shape
room = other (
    tuple (
      cons (other (vec (deduped 1 1))) (
        cons (other (option (other (range (other (num u64))))))
          (cons (other (btree_map 0 (other (num u64)))) nil))))

abbrev full_enc : Option (EncCtx.EncoderContext flags)
full_enc = some (EncCtx.with_all flags)

abbrev full_dec : Option (DecCtx.DecoderContext flags)
full_dec = some (DecCtx.with_all flags)

abbrev room_laws : CodingLaws (ContextSync flags) (codec flags trimmer keys room).coding
room_laws = (codec_laws flags flags_laws trimmer trimmer_laws keys key_laws room).item

abbrev lamps : List Flag
lamps = light true ∷ light false ∷ light true ∷ []

evening : (codec flags trimmer keys room).Value
unfolding codec codec_of codings
evening =
    (lamps, (some (record { start = 3; end = 300 }), (([], 1) ∷ ((104 ∷ 105 ∷ []), 900) ∷ [], tt)))

no_bytes_raw : compressed_payload trimmer [] ≡ ok none
unfolding compressed_payload
no_bytes_raw = refl

hi_raw : compressed_payload trimmer (104 ∷ 105 ∷ []) ≡ ok none
unfolding compressed_payload
hi_raw = refl

empty_name : Packable trimmer []
empty_name = record { small = omega arith; chosen = none; is_chosen = no_bytes_raw }

name : Packable trimmer (104 ∷ 105 ∷ [])
name = record { small = omega arith; chosen = none; is_chosen = hi_raw }

evening_fits : room_laws.IsCodable full_enc evening
unfolding evening codec codec_of codings codec_laws codec_of_laws field_laws EncCtx.with_all
    Dedupe.new Dedupe.insert Dedupe.with_store Dedupe.typed_store Dedupe.store_of Dedupe.id_of
    Dedupe.put_store is_utf8
evening_fits = (
  omega arith,
  (
    omega arith,
    (
      (
        ((refl, tt), (tt, tt)),
        (omega arith, (((empty_name, refl), omega arith), (((name, refl), omega arith), tt))),
      ),
      tt,
    ),
  ),
)

decode_ext-encode_ext_example :
    Transmits
      ((codec flags trimmer keys room).encode_ext evening)
      full_enc
      (room_laws.after full_enc evening)
      (codec flags trimmer keys room).decode_ext
      full_dec
      (room_laws.after_read full_enc full_dec evening)
      evening
    × InStep
        (ContextSync flags)
        (room_laws.after full_enc evening)
        (room_laws.after_read full_enc full_dec evening)
decode_ext-encode_ext_example =
    decode_ext-encode_ext flags flags_laws trimmer trimmer_laws keys key_laws room full_enc full_dec
      evening (ContextSync-with_all flags) evening_fits

coded_unique_example : evening ≡ evening
coded_unique_example =
    coded_unique flags flags_laws trimmer trimmer_laws keys key_laws room full_enc full_dec evening
      evening [] [] (ContextSync-with_all flags) evening_fits evening_fits refl
