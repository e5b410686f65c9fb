-- ===== src/Codec/ErrorExamples.antt =====
-- The theorems on what the decoders of src/lib.rs refuse, at concrete values.
use lencode.Prelude.{ℕ, ◌≡◌, refl, sym, arith, append-nil, none, some, List, [], ◌∷◌}
use lencode.Io.{ok, err, invalid_data, incorrect_length}
use lencode.Io.VecWriter.{vec_write}
use lencode.Io.Cursor.{Cursor, cursor_read}
use lencode.Bytes.Trimmer.{trimmer, trimmer_laws}
use lencode.Dedupe.Flags.{flags}
use lencode.Diff.Encoder
use lencode.Diff.Decoder
use lencode.Context.Decoder as DecCtx
use lencode.Io.CursorLaws.{Unread, unread, cursor_read_laws}
use lencode.Diff.Blobs
use lencode.Bytes.Vec.{compressed_payload}
use lencode.Diff.Sync as DiffSync
use lencode.Codec.Blobs.{decode_byte_array}
use lencode.Codec.ByteLaws.{Packable, packed_bytes}
use lencode.Codec.Strings.{is_utf8, utf8_from, next_expected, decode_string}
use lencode.Codec.Errors.{Answers, decode_string_not_utf8, decode_byte_array_of_other_length}
use lencode.Io.{writer_out_of_space}
use lencode.Io.Cursor.{cursor_write}
use lencode.Codec.Sequences.{encode_vec, encode_list}
use lencode.Codec.Blobs.{byte_array as array_codec}
use lencode.Codec.EmptySlices.{encode_vec_of_no_arrays}

abbrev at_start : List ℕ → Cursor
at_start bytes = record { stream = bytes; position = 0 }

broken_raw : compressed_payload trimmer (65 ∷ 128 ∷ []) ≡ ok none
unfolding compressed_payload
broken_raw = refl

-- `80` continues nothing.
broken-Packable : Packable trimmer (65 ∷ 128 ∷ [])
broken-Packable = record { small = omega arith; chosen = none; is_chosen = broken_raw }

decode_string_not_utf8_example :
    Answers cursor_read_laws
      (decode_string trimmer)
      (at_start (packed_bytes trimmer (65 ∷ 128 ∷ [])))
      (err invalid_data)
      []
unfolding is_utf8 utf8_from next_expected
decode_string_not_utf8_example =
    decode_string_not_utf8 cursor_read_laws trimmer trimmer_laws (65 ∷ 128 ∷ []) []
      (at_start (packed_bytes trimmer (65 ∷ 128 ∷ []))) broken-Packable refl (omega arith)
      (sym (append-nil (packed_bytes trimmer (65 ∷ 128 ∷ []))))

-- A blob of three bytes under a new key, for an array of four.
abbrev keyed_enc : Encoder.DiffEncoder
keyed_enc = record { blobs = []; current_key = some 6 }

abbrev keyed_dec : Decoder.DiffDecoder
keyed_dec = record { blobs = []; current_key = some 6 }

keyed-Sync : DiffSync.Sync keyed_enc keyed_dec
unfolding Blobs.get
keyed-Sync = record { same = λ key. refl; active = refl; small = λ key blob h. cc }

abbrev keyed_ctx : DecCtx.DecoderContext flags
keyed_ctx = record { dedupe = none; diff = some keyed_dec }

abbrev blob_bytes : List ℕ
blob_bytes = DiffSync.coded trimmer keyed_enc (1 ∷ 2 ∷ 3 ∷ [])

decode_byte_array_of_other_length_example :
    (r : Cursor) × (decode_byte_array flags trimmer 4 (some keyed_ctx, at_start blob_bytes) ≡ (
      (
        some (record keyed_ctx {
          diff = some (DiffSync.after_read_blob keyed_dec (1 ∷ 2 ∷ 3 ∷ []));
        }),
        r,
      ),
      err incorrect_length,
    ))
    × Unread r
    × (unread r ≡ [])
decode_byte_array_of_other_length_example =
    decode_byte_array_of_other_length cursor_read_laws flags trimmer trimmer_laws 4 6 keyed_ctx
      keyed_enc keyed_dec (1 ∷ 2 ∷ 3 ∷ []) [] (at_start blob_bytes) refl refl keyed-Sync
      (omega arith) (λ h. omega arith) (omega arith) (sym (append-nil blob_bytes))

abbrev last_byte : Cursor
last_byte = record { stream = 0 ∷ 0 ∷ []; position = 1 }

encode_vec_of_no_arrays_example :
    (c : Cursor) × (encode_vec (array_codec flags trimmer 32) [] (none, last_byte)
      ≡ ((none, c), err writer_out_of_space))
    × (encode_list (array_codec flags trimmer 32).coding [] (none, last_byte) ≡ ((none, c), ok 1))
encode_vec_of_no_arrays_example = encode_vec_of_no_arrays flags trimmer 32 last_byte refl
