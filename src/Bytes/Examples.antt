-- ===== src/Bytes/Examples.antt =====
-- The theorems on `Vec<u8>` of src/lib.rs at seventy zeros, which are worth compressing.
use lencode.Prelude.{
  ℕ, ◌≤◌, ◌<◌, ap, none, min, take, drop, ◌≡◌, refl, sym, arith, true, false, some, List, [], ◌∷◌,
  length, append-nil, replicate,
}
use lencode.Varint.Encoding.{encoding}
use lencode.Io.{ok, fault, endless_loop, Read, Reads}
use lencode.Io.Cursor.{Cursor, cursor_read}
use lencode.Io.CursorLaws.{cursor_read_laws}
use lencode.Io.VecWriter.{VecWriter, vec_write}
use lencode.Bytes.Trimmer.{trimmer, trimmer_laws}
use lencode.Bytes.Zstd.{zstd_compress}
use lencode.Bytes.Header.{looks_incompressible, flagged_header_len}
use lencode.Bytes.Vec.{compressed_payload, read_loop, decode_bytes}
use lencode.Bytes.Packed.{payload_bytes, length-packed_as-le}
use lencode.Bytes.DecodeVec.{decode_bytes-Reads}
use lencode.Bytes.ReadLoop.{behind, PartialReads, Fills, read_loop-Fills, decode_bytes_endless}
use lencode.Io.Stream.{Source, source_read}

abbrev zeros : List ℕ
zeros = replicate 70 0

-- The compressor makes one number of them.
chosen : compressed_payload trimmer zeros ≡ ok (some (70 ∷ []))
unfolding compressed_payload looks_incompressible zstd_compress flagged_header_len
chosen = refl

abbrev packed_zeros : List ℕ
packed_zeros = payload_bytes true (70 ∷ [])

abbrev empty_vec : VecWriter
empty_vec = record { bytes = []; spare = [] }

abbrev at_start : List ℕ → Cursor
at_start bytes = record { stream = bytes; position = 0 }

-- A source that hands out one byte at a call.
abbrev dripping : Read Source
dripping = record {
  read = λ n s. (record { rest = drop (min n 1) s.rest }, ok (take (min n 1) s.rest));
  buf = λ s. (s, ok none);
  advance = λ n s. s;
}

one_byte : (n : ℕ) → 0 < n → min n 1 ≡ 1
one_byte n pos = omega arith

abbrev dripping_laws : PartialReads dripping
dripping_laws = record {
  remaining = λ s. s.rest;
  IsValid = λ s. Unit {0};
  read_lem = λ s n valid pos long. (
    1,
    record { rest = drop 1 s.rest },
    omega arith,
    pos,
    ap (λ k. (record { rest = drop k s.rest }, ok (take k s.rest))) (one_byte n pos),
    tt,
    refl,
  );
}

abbrev four : Source
four = record { rest = 7 ∷ 8 ∷ 9 ∷ 10 ∷ [] }

read_loop-Fills_example :
    Fills dripping_laws (read_loop ⦃io = dripping⦄ 5 3) four (7 ∷ 8 ∷ 9 ∷ []) (10 ∷ [])
read_loop-Fills_example =
    read_loop-Fills ⦃io = dripping⦄ dripping_laws 5 (7 ∷ 8 ∷ 9 ∷ []) (10 ∷ []) four (omega arith) tt
      refl

-- A raw payload of five bytes, of which two are there.
abbrev cut_off : Source
cut_off = record { rest = 10 ∷ 7 ∷ 8 ∷ [] }

decode_bytes_endless_example :
    ((fuel : ℕ) → (read_loop fuel 5 (behind (7 ∷ 8 ∷ []))).1 ≡ fault endless_loop)
    × ((decode_bytes trimmer cut_off).1 ≡ fault endless_loop)
unfolding encoding
decode_bytes_endless_example =
    decode_bytes_endless trimmer 10 (7 ∷ 8 ∷ []) cut_off (omega arith) (omega arith) refl

decode_bytes-Reads_example :
    Reads cursor_read_laws (decode_bytes trimmer) (at_start packed_zeros) zeros []
decode_bytes-Reads_example =
    decode_bytes-Reads cursor_read_laws trimmer trimmer_laws zeros (some (70 ∷ [])) []
      (at_start packed_zeros) chosen (omega arith) (omega arith) (sym (append-nil packed_zeros))

length-packed_as-le_example : length packed_zeros ≤ length (payload_bytes false zeros)
length-packed_as-le_example =
    length-packed_as-le trimmer zeros (some (70 ∷ [])) (omega arith) chosen
