-- ===== src/Varint/Examples.antt =====
-- The theorems on src/varint.rs and src/varint/lencode.rs at concrete numbers, readers and writers.
use lencode.Prelude.{ℕ, ◌^◌, ◌≤◌, ◌<◌, ◌≡◌, refl, arith, List, [], ◌∷◌, length, replicate}
use lencode.Io.{
  ok, err, fault, reader_out_of_data, writer_out_of_space, out_of_bounds, slice_index,
  shift_overflow, Reads, Appends,
}
use lencode.Io.Cursor
use lencode.Io.Cursor.{Cursor, cursor_read, cursor_write}
use lencode.Io.CursorLaws.{unread, cursor_read_laws}
use lencode.Io.VecWriter
use lencode.Io.VecWriter.{VecWriter, vec_write}
use lencode.Io.MemoryLaws.{vec_write_laws}
use lencode.Io.Stream.{source_read}
use lencode.Varint.Bytes.{of_le, byte_count, le_bytes}
use lencode.Varint.Encoding.{encoding}
use lencode.Varint.Fixed.{encode_word, decode_word, decode_varint_u128}
use lencode.Varint.Generic.{encode_varint, decode_varint}
use lencode.Varint.Encode.{encode_word-Appends}
use lencode.Varint.Decode.{decode_word-Reads}
use lencode.Varint.Agreement.{encode_varint-Appends}
use lencode.Varint.DecodeGeneric.{decode_varint-Reads}
use lencode.Varint.Memory.{decode_word-encode_word}
use lencode.Varint.Zigzag.{zigzag_encode, zigzag_decode, negsuc, pattern_of, zigzag, zigzag-pattern}
use lencode.Varint.Errors.{decode_word_truncated}
use lencode.Varint.Faults.{
  source, decode_word_overrun, decode_varint_overflow, decode_empty_payload,
  decode_word_short_input, encode_varint_full_vec,
}

abbrev at_start : List ℕ → Cursor
at_start bytes = record { stream = bytes; position = 0 }

-- 300 is two bytes, 44 and 1.
abbrev three_hundred : List ℕ
three_hundred = 130 ∷ 44 ∷ 1 ∷ []

abbrev empty_vec : VecWriter
empty_vec = record { bytes = []; spare = [] }

abbrev free_cursor : Cursor
free_cursor = at_start (replicate 20 0)

decode_word-encode_word_example :
    (w : VecWriter) × (c c' : Cursor) × (encode_word 8 300 VecWriter.new ≡ (w, ok (length w.bytes)))
    × (length w.bytes ≤ 9)
    × (decode_word 8 (Cursor.new w.bytes) ≡ (c, ok 300))
    × (unread c ≡ [])
    × (decode_varint 8 (Cursor.new w.bytes) ≡ (c', ok 300))
    × (unread c' ≡ [])
decode_word-encode_word_example =
    decode_word-encode_word 8 300 (omega arith) (omega arith) (omega arith)

encode_word-Appends_example :
    Appends vec_write_laws (encode_word 8 300) empty_vec (encoding 8 300) 0
encode_word-Appends_example =
    encode_word-Appends vec_write_laws 8 300 0 empty_vec (omega arith) (omega arith) tt

decode_word-Reads_example :
    Reads cursor_read_laws (decode_word 8) (at_start (130 ∷ 44 ∷ 1 ∷ 7 ∷ [])) 300 (7 ∷ [])
unfolding encoding byte_count le_bytes
decode_word-Reads_example =
    decode_word-Reads cursor_read_laws 8 300 (7 ∷ []) (at_start (130 ∷ 44 ∷ 1 ∷ 7 ∷ []))
      (omega arith) (omega arith) (omega arith) refl

encode_varint-Appends_example :
    Appends vec_write_laws (encode_varint 8 300) empty_vec (encoding 8 300) 0
encode_varint-Appends_example =
    encode_varint-Appends vec_write_laws 8 300 0 empty_vec (omega arith) (omega arith) tt

decode_varint-Reads_example :
    Reads cursor_read_laws (decode_varint 32) (at_start three_hundred) 300 []
unfolding encoding byte_count le_bytes
decode_varint-Reads_example =
    decode_varint-Reads cursor_read_laws 32 300 [] (at_start three_hundred) (omega arith)
      (omega arith) (omega arith) (omega arith) refl

zigzag-pattern_example :
    (zigzag_encode 16 (pattern_of 16 (negsuc 4)) ≡ zigzag (negsuc 4))
    × (zigzag_decode 16 (zigzag (negsuc 4)) ≡ pattern_of 16 (negsuc 4))
    × (zigzag (negsuc 4) < 2 ^ 16)
zigzag-pattern_example = zigzag-pattern 15 (negsuc 4) (omega arith)

decode_word_truncated_example :
    decode_word 8 (at_start (130 ∷ 44 ∷ [])) ≡ (at_start (130 ∷ 44 ∷ []), err reader_out_of_data)
unfolding encoding byte_count le_bytes
decode_word_truncated_example =
    decode_word_truncated 8 300 1 (130 ∷ 44 ∷ []) [] (at_start (130 ∷ 44 ∷ [])) (omega arith)
      (omega arith) refl refl

abbrev overrun : Cursor
overrun = at_start (131 ∷ 1 ∷ 2 ∷ [])

decode_word_overrun_example :
    (decode_word 2 overrun ≡ (Cursor.advance 4 overrun, ok (of_le (1 ∷ 2 ∷ []))))
    × (length overrun.stream < (Cursor.advance 4 overrun).position)
    × (Cursor.buf (Cursor.advance 4 overrun) ≡ (Cursor.advance 4 overrun, fault out_of_bounds))
decode_word_overrun_example =
    decode_word_overrun 2 3 (1 ∷ 2 ∷ []) overrun (omega arith) (omega arith) (omega arith)
      (omega arith) refl

abbrev too_wide : Cursor
too_wide = at_start (131 ∷ 1 ∷ 2 ∷ 3 ∷ [])

decode_varint_overflow_example :
    (decode_varint 2 too_wide ≡ (too_wide, fault out_of_bounds))
    × (decode_word 2 too_wide ≡ (Cursor.advance 4 too_wide, ok (of_le (1 ∷ 2 ∷ []))))
    × ((Cursor.advance 4 too_wide).position ≤ length too_wide.stream)
    × (decode_word 2 (source (131 ∷ 1 ∷ 2 ∷ 3 ∷ [])) ≡ (source (1 ∷ 2 ∷ 3 ∷ []), fault slice_index))
decode_varint_overflow_example =
    decode_varint_overflow 2 3 (1 ∷ 2 ∷ 3 ∷ []) too_wide (omega arith) (omega arith) (omega arith)
      (omega arith) refl

abbrev no_payload : Cursor
no_payload = at_start (128 ∷ replicate 16 5)

decode_empty_payload_example :
    (decode_varint_u128 no_payload ≡ (no_payload, fault shift_overflow))
    × (decode_word 8 no_payload ≡ (Cursor.advance 1 no_payload, ok 0))
decode_empty_payload_example =
    decode_empty_payload (replicate 16 5) no_payload (omega arith) (omega arith) refl

decode_word_short_input_example :
    (decode_word 8 (source (130 ∷ 44 ∷ [])) ≡ (source [], ok (of_le (44 ∷ []))))
    × (decode_word 8 (source []) ≡ (source [], ok 0))
decode_word_short_input_example =
    decode_word_short_input 8 2 (44 ∷ []) (omega arith) (omega arith) (omega arith)

-- 2 ^ 248 takes 32 bytes.
abbrev nearly_full : VecWriter
nearly_full = record { bytes = []; spare = replicate 17 0 }

encode_varint_full_vec_example :
    encode_varint 32 (2 ^ 248) nearly_full ≡ (nearly_full, err writer_out_of_space)
unfolding encoding byte_count le_bytes
encode_varint_full_vec_example =
    encode_varint_full_vec 32 (2 ^ 248) nearly_full (omega arith) (omega arith) (omega arith)
      (omega arith)
