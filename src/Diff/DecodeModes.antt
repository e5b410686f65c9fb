-- ===== src/Diff/DecodeModes.antt =====
-- What follows the mode flag in `decode_blob` of src/diff.rs.
use lencode.Prelude.{
  ℕ, ◌^◌, ◌<◌, ◌≡◌, refl, ap, ◌∙◌, Option, none, some, List, ◌++◌, length, append_assoc,
}
use lencode.Io.{M, Result, ok, pure, ◌>>=◌, Read, ReadLaws, Reads}
use lencode.Io.Context.{ReadsWith, on_right, on_right-ReadsWith, Reads-bind, ReadsWith-bind}
use lencode.Varint.Fixed.{decode_varint_u64}
use lencode.Varint.Encoding.{encoding}
use lencode.Diff.Blobs
use lencode.Diff.Blobs.{get-insert}
use lencode.Diff.Decoder
use lencode.Diff.Decoder.{
  DiffDecoder, old_blob, read_some, stored, stored_if_active, decode_difference, decode_mode,
  decode_blob, apply_patches, apply_xor,
}
use lencode.Diff.Apply.{number-Reads, read_some-Reads}
use lencode.Diff.Sync.{read_as, after_read_blob}

module _ {R : Type 0} ⦃io : Read R⦄ (laws : ReadLaws io) where
  -- A difference: the lengths, and what the bytes make of the old blob.
  pub difference-Reads :
      (apply : List ℕ → ℕ → ℕ → M R (List ℕ)) (d : DiffDecoder) (key : ℕ) (old new : List ℕ)
      (count : ℕ) (mid rest : List ℕ) (r : R)
      → d.current_key ≡ some key
      → Blobs.get key d.blobs ≡ some old
      → length new < 2 ^ 64
      → count < 2 ^ 64
      → laws.IsValid r
      → laws.remaining r ≡ (encoding 8 (length new) ++ encoding 8 count) ++ mid
      → ((r' : R)
          → laws.IsValid r'
          → laws.remaining r' ≡ mid
          → Reads laws (apply old (length new) count) r' new rest)
      → ReadsWith laws (decode_difference apply) d r new (Decoder.insert key new d) rest
  unfolding decode_difference old_blob
  difference-Reads apply d key old new count mid rest r active seen h k valid e next =
      let had : old_blob d ≡ some (key, old) =
        ap (Decoder.blob_under d) active ∙ rw (seen, Decoder.blob_under) refl in
      ReadsWith-bind laws (on_right numbers)
        (λ ns (d, r). Decoder.apply_to apply d r ns (old_blob d)) d d (Decoder.insert key new d) r
        (length new, count) new mid rest
        (on_right-ReadsWith laws d numbers r (length new, count) mid
          (Reads-bind laws decode_varint_u64 (λ n. decode_varint_u64 >>= λ c. pure (n, c)) r
            (length new) (length new, count) (encoding 8 count ++ mid) mid
            (number-Reads laws (length new) (encoding 8 count ++ mid) r h valid
              (e ∙ append_assoc (encoding 8 (length new)) (encoding 8 count) mid))
            (λ r' valid' left'.
              Reads-bind laws decode_varint_u64 (λ c. pure (length new, c)) r' count
                (length new, count) mid mid (number-Reads laws count mid r' k valid' left')
                (λ r'' valid'' left''. (r'', refl, valid'', left'')))))
        (λ r' valid' left'. go r' had (next r' valid' left'))
    where
      numbers : M R (ℕ × ℕ)
      numbers = decode_varint_u64 >>= λ n. decode_varint_u64 >>= λ c. pure (n, c)

      go :
          (r' : R)
          → old_blob d ≡ some (key, old)
          → Reads laws (apply old (length new) count) r' new rest
          → (r'' : R) × (Decoder.apply_to apply d r' (length new, count) (old_blob d)
              ≡ ((Decoder.insert key new d, r''), ok new))
            × laws.IsValid r''
            × (laws.remaining r'' ≡ rest)
      go r' had (r'', a, valid'', left'') = (
        r'',
        ap (Decoder.apply_to apply d r' (length new, count)) had ∙ ap (stored key d) a,
        valid'',
        left'',
      )

  pub full-Reads :
      (d : DiffDecoder) (blob rest : List ℕ) (r : R)
      → length blob < 2 ^ 64
      → laws.IsValid r
      → laws.remaining r ≡ (encoding 8 (length blob) ++ blob) ++ rest
      → ReadsWith laws
          (λ (d, r). stored_if_active d ((decode_varint_u64 >>= read_some) r))
          d
          r
          blob
          (after_read_blob d blob)
          rest
  full-Reads d blob rest r h valid e = go (
      Reads-bind laws decode_varint_u64 read_some r (length blob) blob (blob ++ rest) rest
        (number-Reads laws (length blob) (blob ++ rest) r h valid
          (e ∙ append_assoc (encoding 8 (length blob)) blob rest))
        (λ r' valid' left'. read_some-Reads laws blob rest r' valid' left'))
    where
      under :
          (o : Option ℕ) (out : R × Result (List ℕ)) (r' : R)
          → out ≡ (r', ok blob)
          → Decoder.stored_under d out o ≡ ((read_as d blob o, r'), ok blob)
      under none out r' a = ap (λ o. ((d, o.0), o.1)) a
      under (some key) out r' a = ap (stored key d) a

      go :
          Reads laws (decode_varint_u64 >>= read_some) r blob rest
          → ReadsWith laws
              (λ (d, r). stored_if_active d ((decode_varint_u64 >>= read_some) r))
              d
              r
              blob
              (after_read_blob d blob)
              rest
      go (r', a, valid', left') =
          (r', under d.current_key ((decode_varint_u64 >>= read_some) r) r' a, valid', left')
