-- ===== src/Dedupe/Examples.antt =====
-- The theorems on src/dedupe.rs at two types of one-byte values.
use lencode.Prelude.{inl, ℕ, ◌≡◌, refl, arith, true, false, List, [], ◌∷◌, ◌++◌}
use lencode.Io.Memory.{Transmits}
use lencode.Io.MemoryLaws.{vec_write_laws}
use lencode.Io.Context.{AppendsWith, ReadsWith}
use lencode.Io.Cursor.{Cursor, cursor_read}
use lencode.Io.CursorLaws.{cursor_read_laws}
use lencode.Io.VecWriter.{VecWriter, vec_write}
use lencode.Varint.Encoding.{encoding}
use lencode.Dedupe.Flags.{Flag, door, light, flags, flags_laws}
use lencode.Dedupe.Encoder
use lencode.Dedupe.Decoder
use lencode.Dedupe.Sync.{Sync, Sync-new, clear_type-Sync}
use lencode.Dedupe.RoundTrip.{after_value, after_read, after_value-Sync, decode-encode-Sync}
use lencode.Dedupe.Vec.{encode_vec, decode_vec}
use lencode.Dedupe.VecRoundTrip.{coded_items, after_items, read_items}
use lencode.Dedupe.Errors.{decode_unknown_id}
use lencode.Io.{err, invalid_data}
use lencode.Dedupe.Memory.{decode_vec-encode_vec}

-- A door is seen first, then lamps: the ids of both types come from one sequence.
abbrev seen : Encoder.DedupeEncoder flags
seen = after_value flags flags_laws (Encoder.new flags) (door true)

abbrev read_so_far : Decoder.DedupeDecoder flags
read_so_far = after_read flags flags_laws (Encoder.new flags) (Decoder.new flags) (door true)

seen-Sync : Sync flags seen read_so_far
seen-Sync =
    after_value-Sync flags flags_laws (Encoder.new flags) (Decoder.new flags) (door true)
      (Sync-new flags)

abbrev lamps : List Flag
lamps = light true ∷ light false ∷ light true ∷ []

abbrev empty_vec : VecWriter
empty_vec = record { bytes = []; spare = [] }

abbrev at_start : List ℕ → Cursor
at_start bytes = record { stream = bytes; position = 0 }

decode_vec-encode_vec_example :
    Transmits
      (encode_vec flags lamps)
      (Encoder.new flags)
      (after_items flags flags_laws (Encoder.new flags) lamps)
      (decode_vec flags 1)
      (Decoder.new flags)
      (read_items flags flags_laws (Encoder.new flags) (Decoder.new flags) lamps)
      lamps
decode_vec-encode_vec_example =
    decode_vec-encode_vec flags flags_laws 1 lamps (omega arith) (refl, (refl, (refl, tt)))

decode-encode-Sync_example :
    (e' : Encoder.DedupeEncoder flags) × (bs : List ℕ) × AppendsWith vec_write_laws
      (Encoder.encode flags (light true))
      seen
      empty_vec
      bs
      e'
      0
    × ((rest : List ℕ) (r : Cursor)
        → cursor_read_laws.IsValid r
        → cursor_read_laws.remaining r ≡ bs ++ rest
        → (d' : Decoder.DedupeDecoder flags) × ReadsWith cursor_read_laws
            (Decoder.decode flags 1)
            read_so_far
            r
            (light true)
            d'
            rest
          × Sync flags e' d')
unfolding Encoder.new Encoder.insert Encoder.with_store Encoder.typed_store Encoder.store_of
    Encoder.id_of Encoder.put_store
decode-encode-Sync_example =
    decode-encode-Sync flags flags_laws vec_write_laws cursor_read_laws seen read_so_far
      (light true) 0 empty_vec seen-Sync (omega arith) tt

clear_type-Sync_example : Sync flags (Encoder.clear_type flags 0 seen) read_so_far
clear_type-Sync_example = clear_type-Sync flags seen read_so_far 0 seen-Sync

abbrev lamp_bytes : List ℕ
lamp_bytes = encoding 8 3 ++ coded_items flags flags_laws seen lamps

-- The table has one value.
decode_unknown_id_example :
    (r : Cursor) × (Decoder.decode flags 0 (read_so_far, at_start (2 ∷ 9 ∷ []))
      ≡ ((read_so_far, r), err invalid_data))
    × (cursor_read_laws.remaining r ≡ 9 ∷ [])
unfolding encoding Encoder.new Decoder.new Decoder.push Encoder.typed_store Encoder.store_of
    Encoder.id_of
decode_unknown_id_example =
    decode_unknown_id flags cursor_read_laws 0 2 read_so_far (9 ∷ []) (at_start (2 ∷ 9 ∷ []))
      (omega arith) (omega arith) (inl (omega arith)) (omega arith) refl
