-- ===== src/Diff/DecodeBlob.antt =====
-- `decode_blob` of src/diff.rs reads the blob back from the bytes that the encoder chose for it.
use lencode.Prelude.{
  ℕ, ◌^◌, ◌<◌, ◌≡◌, ◌⊎◌, refl, sym, ap, ◌∙◌, arith, inl, inr, Option, none, some, List, ◌++◌,
  length, append_assoc,
}
use mathlib.Core.Path.{subst}
use lencode.Io.{Read, ReadLaws}
use lencode.Io.Context.{ReadsWith, on_right, on_right-ReadsWith, ReadsWith-bind}
use lencode.Varint.Fixed.{decode_varint_u64}
use lencode.Varint.Encoding.{encoding}
use lencode.Bytes.Zstd.{Zstd, ZstdLaws}
use lencode.Diff.Blobs
use lencode.Diff.Blobs.{get-insert}
use lencode.Diff.Encoder.{DiffEncoder, encode_rle_to_buf, encode_xor_to_buf, difference}
use lencode.Diff.Decoder
use lencode.Diff.Decoder.{
  DiffDecoder, old_blob, read_some, stored, stored_if_active, decode_difference, decode_mode,
  decode_blob, apply_patches, apply_xor,
}
use lencode.Diff.Buffers.{header_bytes, patches_bytes, rle_buffer, xor_buffer}
use lencode.Diff.Apply.{number-Reads, apply_patches-Reads, apply_xor-Reads}
use lencode.Diff.Sync.{
  Sync, full_bytes, coded_as, chosen, coded, read_as, after_read_blob, winner_lem, difference_lem,
}
use lencode.Diff.DecodeModes.{difference-Reads, full-Reads}

module _ {R : Type 0} ⦃io : Read R⦄ (laws : ReadLaws io) where
  module _ (Z : Zstd) (zstd : ZstdLaws Z) (e : DiffEncoder) (d : DiffDecoder) (blob rest : List ℕ)
      (r : R) (s : Sync e d) (small : length blob < 2 ^ 64) (valid : laws.IsValid r) where
    moded :
        (mode : ℕ) (mid : List ℕ)
        → mode < 2 ^ 64
        → laws.remaining r ≡ encoding 8 mode ++ mid
        → ((r' : R)
            → laws.IsValid r'
            → laws.remaining r' ≡ mid
            → ReadsWith laws (decode_mode Z mode) d r' blob (after_read_blob d blob) rest)
        → ReadsWith laws (decode_blob Z) d r blob (after_read_blob d blob) rest
    unfolding decode_blob
    moded mode mid h left next =
        ReadsWith-bind laws (on_right decode_varint_u64) (decode_mode Z) d d
          (after_read_blob d blob) r mode blob mid rest
          (on_right-ReadsWith laws d decode_varint_u64 r mode mid
            (number-Reads laws mode mid r h valid left))
          next

    in_full :
        laws.remaining r ≡ full_bytes blob ++ rest
        → ReadsWith laws (decode_blob Z) d r blob (after_read_blob d blob) rest
    unfolding decode_mode
    in_full left =
        moded 0 ((encoding 8 (length blob) ++ blob) ++ rest) (omega arith)
          (left ∙ append_assoc (encoding 8 0) _ rest)
          (λ r' valid' left'. full-Reads laws d blob rest r' small valid' left')

    split :
        (mode count : ℕ) (body buf : List ℕ)
        → buf ≡ header_bytes mode (length blob) count ++ body
        → laws.remaining r ≡ buf ++ rest
        → laws.remaining r
          ≡ encoding 8 mode ++ ((encoding 8 (length blob) ++ encoding 8 count) ++ (body ++ rest))
    split mode count body buf is left =
        left
        ∙ ap (λ t. t ++ rest) is
        ∙ append_assoc (header_bytes mode (length blob) count) body rest
        ∙ append_assoc (encoding 8 mode) (encoding 8 (length blob) ++ encoding 8 count)
            (body ++ rest)

    stores :
        (key : ℕ) → e.current_key ≡ some key → Decoder.insert key blob d ≡ after_read_blob d blob
    stores key active = ap (read_as d blob) (sym active ∙ s.active)

    changed :
        (key : ℕ) (buf old : List ℕ)
        → e.current_key ≡ some key
        → Blobs.get key e.blobs ≡ some old
        → (encode_rle_to_buf old blob ≡ some buf) ⊎ (encode_xor_to_buf Z old blob ≡ some buf)
        → laws.remaining r ≡ buf ++ rest
        → ReadsWith laws (decode_blob Z) d r blob (after_read_blob d blob) rest
    unfolding decode_mode
    changed key buf old active seen (inl rle) left =
        let (patches, describes, count, is) =
          rle_buffer old blob buf (s.small key old seen) small rle in
        moded 1
          ((encoding 8 (length blob) ++ encoding 8 (length patches))
            ++ (patches_bytes 0 patches ++ rest))
          (omega arith) (split 1 (length patches) (patches_bytes 0 patches) buf is left)
          (λ r' valid' left'.
            subst (λ d'. ReadsWith laws (decode_difference apply_patches) d r' blob d' rest)
              (stores key active)
              (difference-Reads laws apply_patches d key old blob (length patches)
                (patches_bytes 0 patches ++ rest) rest r' (sym s.active ∙ active)
                (sym (s.same key) ∙ seen) small count valid' left'
                (λ r'' valid'' left''.
                  apply_patches-Reads laws old blob (s.small key old seen) small patches rest r''
                    describes valid'' left'')))
    changed key buf old active seen (inr xor) left =
        let (compressed, z, less, is) = xor_buffer Z old blob buf small xor in
        moded 2
          ((encoding 8 (length blob) ++ encoding 8 (length compressed)) ++ (compressed ++ rest))
          (omega arith) (split 2 (length compressed) compressed buf is left)
          (λ r' valid' left'.
            subst (λ d'. ReadsWith laws (decode_difference (apply_xor Z)) d r' blob d' rest)
              (stores key active)
              (difference-Reads laws (apply_xor Z) d key old blob (length compressed)
                (compressed ++ rest) rest r' (sym s.active ∙ active) (sym (s.same key) ∙ seen) small
                (omega arith) valid' left'
                (λ r'' valid'' left''.
                  apply_xor-Reads laws old blob (s.small key old seen) small Z zstd compressed rest
                    r'' z valid'' left'')))

    under :
        (key : ℕ) (o : Option (List ℕ))
        → e.current_key ≡ some key
        → difference Z e key blob ≡ o
        → laws.remaining r ≡ coded_as blob o ++ rest
        → ReadsWith laws (decode_blob Z) d r blob (after_read_blob d blob) rest
    under key none active k left = in_full left
    under key (some buf) active k left =
        let (old, seen, w) = difference_lem Z e key blob buf k in
        changed key buf old active seen (winner_lem Z old blob buf w) left

    -- With a `zstd` that decompresses what it compressed, in a state in step with the encoder's,
    -- and from a valid reader whose next bytes are those that the encoder chose for a blob shorter
    -- than 2 ^ 64, `decode_blob` returns the blob, leaves what follows, and stores the blob under
    -- the active key.
    pub decode_blob-coded :
        laws.remaining r ≡ coded Z e blob ++ rest
        → ReadsWith laws (decode_blob Z) d r blob (after_read_blob d blob) rest
    decode_blob-coded = go e.current_key refl
      where
        go :
            (o : Option ℕ)
            → e.current_key ≡ o
            → laws.remaining r ≡ coded_as blob (chosen Z e blob o) ++ rest
            → ReadsWith laws (decode_blob Z) d r blob (after_read_blob d blob) rest
        go none active left = in_full left
        go (some key) active left = under key (difference Z e key blob) active refl left
