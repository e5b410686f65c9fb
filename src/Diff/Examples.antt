-- ===== src/Diff/Examples.antt =====
-- The theorems on src/diff.rs at concrete blobs, with a compressor that drops the zeros at the end.
use lencode.Prelude.{
  ℕ, ◌^◌, ◌≤◌, ◌<◌, ◌≡◌, refl, sym, ap, arith, ◌==◌, Bool-cases, inl, inr, none, some, List, [],
  ◌∷◌, length, append-nil, replicate,
}
use lencode.Io.{err, invalid_data, Reads}
use lencode.Io.Memory.{Transmits}
use lencode.Io.Cursor.{Cursor, cursor_read}
use lencode.Io.CursorLaws.{cursor_read_laws}
use lencode.Io.VecWriter
use lencode.Varint.Fixed.{encode_varint_u64, encode_word}
use lencode.Io.VecWriter.{VecWriter, vec_write}
use lencode.Varint.Encoding.{encoding}
use lencode.Bytes.Trimmer.{trimmer, trimmer_laws}
use lencode.Bytes.Zstd.{zstd_compress}
use lencode.Diff.Blobs.{get}
use lencode.Diff.Patches.{Patch, compute_patches}
use lencode.Diff.PatchLaws.{Describes}
use lencode.Diff.ComputePatches.{compute_patches-Describes}
use lencode.Diff.Xor.{compute_xor}
use lencode.Diff.Encoder
use lencode.Diff.Encoder.{DiffEncoder, encode_blob, encode_rle_to_buf, encode_xor_to_buf, winner}
use lencode.Diff.Decoder
use lencode.Diff.Decoder.{DiffDecoder, decode_blob, apply_patches}
use lencode.Diff.Buffers.{patches_bytes}
use lencode.Diff.Apply.{apply_patches-Reads}
use lencode.Diff.Sync.{Sync}
use lencode.Diff.Session.{
  Step, encode_steps, decode_steps, after_steps, read_steps, blobs_of, decode_steps-encode_steps,
}
use lencode.Diff.Choice.{winner-le}
use lencode.Diff.Errors.{decode_blob_without_old}

abbrev old_version : List ℕ
old_version = replicate 20 0

-- The second byte has changed.
abbrev new_version : List ℕ
new_version = 0 ∷ 5 ∷ replicate 18 0

abbrev steps : List Step
steps = (some 7, old_version) ∷ (some 7, new_version) ∷ (none, new_version) ∷ (some 7, []) ∷ []

decode_steps-encode_steps_example :
    Transmits
      (encode_steps trimmer steps)
      Encoder.new
      (after_steps Encoder.new steps)
      (decode_steps trimmer steps)
      Decoder.new
      (read_steps Decoder.new steps)
      (blobs_of steps)
decode_steps-encode_steps_example =
    decode_steps-encode_steps trimmer trimmer_laws steps
      (omega arith, (omega arith, (omega arith, (omega arith, tt))))

abbrev encoder : DiffEncoder
encoder = record { blobs = (7, old_version) ∷ []; current_key = some 7 }

abbrev decoder : DiffDecoder
decoder = record { blobs = (7, old_version) ∷ []; current_key = some 7 }

only_blob :
    (key : ℕ) (blob : List ℕ) → get key ((7, old_version) ∷ []) ≡ some blob → length blob < 2 ^ 64
unfolding get
only_blob key blob h = elim (Bool-cases (7 == key)) [
  | inl at ↦
      let same : some old_version ≡ some blob = rw at at h in
      let is : old_version ≡ blob = cc same in omega (arith, ap length is)
  | inr other ↦ cc (rw other at h)
]

in_step : Sync encoder decoder
in_step = record { same = λ key. refl; active = refl; small = only_blob }

abbrev empty_vec : VecWriter
empty_vec = record { bytes = []; spare = [] }

abbrev at_start : List ℕ → Cursor
at_start bytes = record { stream = bytes; position = 0 }

abbrev change : List Patch
change = record { offset = 1; patch_data = 5 ∷ [] } ∷ []

change_lem : compute_patches old_version new_version ≡ some change
unfolding compute_patches
change_lem = refl

compute_patches-Describes_example : Describes old_version new_version 0 change
compute_patches-Describes_example =
    compute_patches-Describes old_version new_version change change_lem

apply_patches-Reads_example :
    Reads cursor_read_laws
      (apply_patches old_version 20 1)
      (at_start (patches_bytes 0 change))
      new_version
      []
apply_patches-Reads_example =
    apply_patches-Reads cursor_read_laws old_version new_version (omega arith) (omega arith) change
      [] (at_start (patches_bytes 0 change))
      (compute_patches-Describes old_version new_version change change_lem) (omega arith)
      (sym (append-nil (patches_bytes 0 change)))

winner-le_example :
    (buf : List ℕ) × (winner trimmer old_version new_version ≡ some buf)
    × (length buf ≤ 6)
    × (length buf ≤ 6)
unfolding encode_rle_to_buf encode_xor_to_buf compute_patches encode_varint_u64 encode_word
    VecWriter.buf_mut VecWriter.new VecWriter.advance_mut VecWriter.store VecWriter.write
    zstd_compress compute_xor
winner-le_example =
    winner-le trimmer old_version new_version (1 ∷ 20 ∷ 1 ∷ 1 ∷ 1 ∷ 5 ∷ [])
      (2 ∷ 20 ∷ 3 ∷ 20 ∷ 0 ∷ 5 ∷ []) refl refl (omega arith)

decode_blob_without_old_example :
    (r : Cursor) × (decode_blob trimmer (Decoder.new, at_start (1 ∷ 20 ∷ 1 ∷ 1 ∷ 1 ∷ 5 ∷ []))
      ≡ ((Decoder.new, r), err invalid_data))
unfolding encoding Decoder.new Decoder.old_blob
decode_blob_without_old_example =
    decode_blob_without_old cursor_read_laws trimmer Decoder.new 1 20 1 (1 ∷ 1 ∷ 5 ∷ [])
      (at_start (1 ∷ 20 ∷ 1 ∷ 1 ∷ 1 ∷ 5 ∷ [])) refl (inl refl) (omega arith) (omega arith)
      (omega arith) refl
