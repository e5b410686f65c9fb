-- ===== src/Diff/Errors.antt =====
-- The differences that `decode_blob` of src/diff.rs refuses.
use lencode.Prelude.{ℕ, ◌^◌, ◌<◌, ◌≡◌, ◌⊎◌, refl, arith, ◌==◌, inl, inr, none, List, ◌++◌, false}
use lencode.Io.{M, ok, err, invalid_data, Read, ReadLaws, Reads}
use lencode.Varint.Fixed.{decode_varint_u64}
use lencode.Varint.Encoding.{encoding}
use lencode.Bytes.Zstd.{Zstd}
use lencode.Diff.Decoder.{
  DiffDecoder, old_blob, decode_difference, decode_mode, decode_blob, apply_patches, apply_xor,
}
use lencode.Diff.Apply.{number-Reads}

-- The call answers `InvalidData`, and the context stays as it was.
abbrev Refuses : {R A : Type 0} → M (DiffDecoder × R) A → DiffDecoder → R → Type 0
Refuses {R} act d r = (r' : R) × (act (d, r) ≡ ((d, r'), err invalid_data))

module _ {R : Type 0} ⦃io : Read R⦄ (laws : ReadLaws io) (Z : Zstd) (d : DiffDecoder) where
  after_mode :
      (mode : ℕ) (rest : List ℕ) (r : R)
      → mode < 2 ^ 64
      → laws.IsValid r
      → laws.remaining r ≡ encoding 8 mode ++ rest
      → ((r' : R) → laws.IsValid r' → laws.remaining r' ≡ rest → Refuses (decode_mode Z mode) d r')
      → Refuses (decode_blob Z) d r
  unfolding decode_blob
  after_mode mode rest r h valid e next = go (number-Reads laws mode rest r h valid e)
    where
      go : Reads laws decode_varint_u64 r mode rest → Refuses (decode_blob Z) d r
      go (r', a, valid', left) = let (r'', b) = next r' valid' left in (r'', rw a b)

  unknown : (mode : ℕ) → 2 < mode → (mode == 0 ≡ false) × (mode == 1 ≡ false) × (mode == 2 ≡ false)
  unknown mode h = (ground arith, ground arith, ground arith)

  -- From a valid reader whose next bytes are a mode flag above 2 and below 2 ^ 64, `decode_blob`
  -- answers `InvalidData`, and the decoder's blobs and key stay.
  pub decode_blob_unknown_mode :
      (mode : ℕ) (rest : List ℕ) (r : R)
      → 2 < mode
      → mode < 2 ^ 64
      → laws.IsValid r
      → laws.remaining r ≡ encoding 8 mode ++ rest
      → Refuses (decode_blob Z) d r
  unfolding decode_mode
  decode_blob_unknown_mode mode rest r h k valid e =
      let (a, b, c) = unknown mode h in
      after_mode mode rest r k valid e (λ r' valid' left. (r', rw (a, b, c) refl))

  difference_refused :
      (apply : List ℕ → ℕ → ℕ → M R (List ℕ)) (new_len count : ℕ) (rest : List ℕ) (r : R)
      → old_blob d ≡ none
      → new_len < 2 ^ 64
      → count < 2 ^ 64
      → laws.IsValid r
      → laws.remaining r ≡ encoding 8 new_len ++ (encoding 8 count ++ rest)
      → Refuses (decode_difference apply) d r
  unfolding decode_difference
  difference_refused apply new_len count rest r missing h k valid e =
      go (number-Reads laws new_len (encoding 8 count ++ rest) r h valid e)
    where
      second :
          (r' : R)
          → decode_varint_u64 r ≡ (r', ok new_len)
          → Reads laws decode_varint_u64 r' count rest
          → Refuses (decode_difference apply) d r
      second r' a (r'', b, valid'', left) = (r'', rw (a, b, missing) refl)

      go :
          Reads laws decode_varint_u64 r new_len (encoding 8 count ++ rest)
          → Refuses (decode_difference apply) d r
      go (r', a, valid', left) = second r' a (number-Reads laws count rest r' k valid' left)

  -- Where no key is active, or the active key has no blob, and from a valid reader whose next
  -- bytes are the mode and the two numbers of a difference, all below 2 ^ 64, `decode_blob`
  -- answers `InvalidData`, and the decoder's blobs and key stay.
  pub decode_blob_without_old :
      (mode new_len count : ℕ) (rest : List ℕ) (r : R)
      → old_blob d ≡ none
      → (mode ≡ 1) ⊎ (mode ≡ 2)
      → new_len < 2 ^ 64
      → count < 2 ^ 64
      → laws.IsValid r
      → laws.remaining r ≡ encoding 8 mode ++ (encoding 8 new_len ++ (encoding 8 count ++ rest))
      → Refuses (decode_blob Z) d r
  unfolding decode_mode
  decode_blob_without_old mode new_len count rest r missing (inl one) h k valid e =
      after_mode 1 _ r (omega arith) valid (rw one at e) (λ r' valid' left.
        difference_refused apply_patches new_len count rest r' missing h k valid' left)
  decode_blob_without_old mode new_len count rest r missing (inr two) h k valid e =
      after_mode 2 _ r (omega arith) valid (rw two at e) (λ r' valid' left.
        difference_refused (apply_xor Z) new_len count rest r' missing h k valid' left)
