-- ===== src/Diff/Apply.antt =====
-- The two ways in which `decode_blob` of src/diff.rs applies a difference give the new blob.
use lencode.Prelude.{
  ℕ, ◌+◌, ◌-◌, ◌%◌, ◌^◌, ◌<◌, ◌≡◌, refl, sym, ap, ◌∙◌, arith, tests, min, max, leb, ◌==◌, eq→==,
  ==_iff, le→ltb, lt→ltb, pos→ne_zero, Bool-cases, inl, inr, some, List, [], ◌∷◌, ◌++◌, length,
  take, drop, length-append, append_assoc, take-append, drop-append, take-drop, take_all,
}
use lencode.Prelude.Slices.{slice, take-slice, slice_empty}
use lencode.Io.{ok, pure, ◌>>=◌, Read, ReadLaws, Reads}
use lencode.Io.Context.{Reads-bind}
use lencode.Varint.Fixed.{decode_varint_u64}
use lencode.Varint.Encoding.{encoding}
use lencode.Varint.Decode.{decode_word-Reads}
use lencode.Diff.Patches.{Patch, end_of}
use lencode.Diff.PatchLaws.{IsPatch, Describes}
use lencode.Diff.Xor.{compute_xor, reconstruct, reconstruct-compute_xor, length-compute_xor}
use lencode.Bytes.Zstd.{Zstd, ZstdLaws, zstd_decompress}
use lencode.Diff.Buffers.{patches_bytes}
use lencode.Diff.Decoder.{
  old_tail, read_all, read_some, patch_at, read_patch, read_patches, finished, apply_patches,
  apply_xor, checked, lifted,
}

take-min : (b : ℕ) (xs : List ℕ) → take b xs ≡ take (min (length xs) b) xs
take-min b xs = elim (Bool-cases (leb b (length xs))) [
  | inl short ↦ let e : min (length xs) b ≡ b = omega tests in rw e refl
  | inr long ↦ take_all b xs (omega tests) ∙ sym (take_all (min (length xs) b) xs (omega tests))
]

-- The old blob's tail is what the description says of the new one's.
old_tail_lem : (old : List ℕ) (new_len c : ℕ) → old_tail old new_len c ≡ slice c new_len old
unfolding old_tail
old_tail_lem old new_len c =
    let shorter = min (length old) new_len in
    elim (Bool-cases (shorter - min c shorter == 0)) [
      | inl over ↦ rw over (
          sym (
            ap (drop c) (take-min new_len old)
            ∙ slice_empty c shorter old
                (omega (arith, (==_iff (shorter - min c shorter) 0).0 over))))
      | inr more ↦
          let pos : c < shorter = ground arith in
          let e : min (c + (shorter - min c shorter)) (length old) ≡ shorter = omega arith in
          rw (more, lt→ltb c (length old) (omega arith))
            (ap (λ b. slice c b old) e ∙ sym (ap (drop c) (take-min new_len old)))
    ]

-- Where the last patch ends.
abbrev last_end : ℕ → List Patch → ℕ
last_end cursor [] = cursor
last_end cursor (p ∷ patches) = last_end (end_of p) patches

last_end_lem :
    (old new : List ℕ) (cursor : ℕ) (patches : List Patch)
    → Describes old new cursor patches
    → drop (last_end cursor patches) new ≡ slice (last_end cursor patches) (length new) old
last_end_lem old new cursor [] d = d
last_end_lem old new cursor (p ∷ patches) (h, d) = last_end_lem old new (end_of p) patches d

module _ {R : Type 0} ⦃io : Read R⦄ (laws : ReadLaws io) where
  read_all-Reads :
      (bytes rest : List ℕ) (r : R)
      → 0 < length bytes
      → laws.IsValid r
      → laws.remaining r ≡ bytes ++ rest
      → Reads laws (read_all (length bytes)) r bytes rest
  unfolding read_all
  read_all-Reads bytes rest r pos valid e = go (
      laws.read_lem r (length bytes) valid pos
        (omega (arith, ap length e, length-append bytes rest)))
    where
      got : take (length bytes) (laws.remaining r) ≡ bytes
      got = ap (take (length bytes)) e ∙ take-append bytes rest

      go :
          (r' : R) × (io.read (length bytes) r ≡ (r', ok (take (length bytes) (laws.remaining r))))
            × laws.IsValid r'
            × (laws.remaining r' ≡ drop (length bytes) (laws.remaining r))
          → Reads laws (read_all (length bytes)) r bytes rest
      go (r', h, valid', left) = (
        r',
        rw (h, got, eq→== (length bytes) (length bytes) refl) refl,
        valid',
        left ∙ ap (drop (length bytes)) e ∙ drop-append bytes rest,
      )

  pub read_some-Reads :
      (bytes rest : List ℕ) (r : R)
      → laws.IsValid r
      → laws.remaining r ≡ bytes ++ rest
      → Reads laws (read_some (length bytes)) r bytes rest
  unfolding read_some
  read_some-Reads [] rest r valid e = (r, refl, valid, e)
  read_some-Reads (b ∷ bytes) rest r valid e =
      rw (pos→ne_zero (length (b ∷ bytes)) (omega arith))
        (read_all-Reads (b ∷ bytes) rest r (omega arith) valid e)

  pub number-Reads :
      (v : ℕ) (rest : List ℕ) (r : R)
      → v < 2 ^ 64
      → laws.IsValid r
      → laws.remaining r ≡ encoding 8 v ++ rest
      → Reads laws decode_varint_u64 r v rest
  unfolding decode_varint_u64
  number-Reads v rest r h valid e =
      decode_word-Reads laws 8 v rest r (omega arith) (omega arith) valid e

  module _ (old new : List ℕ) (ho : length old < 2 ^ 64) (hn : length new < 2 ^ 64) where
    patch_at-Reads :
        (cursor : ℕ) (p : Patch) (rest : List ℕ) (r : R)
        → IsPatch old new cursor p
        → laws.IsValid r
        → laws.remaining r ≡ p.patch_data ++ rest
        → Reads laws
            (patch_at old cursor (take cursor new) (p.offset - cursor) (length p.patch_data))
            r
            (end_of p, take (end_of p) new)
            rest
    unfolding patch_at
    patch_at-Reads cursor p rest r h valid e =
        let at : (cursor + (p.offset - cursor)) % 2 ^ 64 ≡ p.offset =
          omega (arith, h.after, h.within_old) in
        let end : (p.offset + length p.patch_data) % 2 ^ 64 ≡ end_of p =
          omega (arith, h.within_new) in
        let grown : (take cursor new ++ slice cursor p.offset old) ++ p.patch_data
            ≡ take (end_of p) new =
          ap (λ t. (take cursor new ++ t) ++ p.patch_data) (sym h.unchanged)
          ∙ ap (λ t. t ++ p.patch_data) (take-slice cursor p.offset new h.after)
          ∙ ap (λ t. take p.offset new ++ t) h.is
          ∙ take-slice p.offset (end_of p) new (omega arith) in
        rw (at, le→ltb (length old) p.offset h.within_old, le→ltb p.offset cursor h.after)
          (Reads-bind laws (read_all (length p.patch_data))
            (λ bytes. pure (
              (p.offset + length p.patch_data) % 2 ^ 64,
              (take cursor new ++ slice cursor p.offset old) ++ bytes,
            ))
            r p.patch_data (end_of p, take (end_of p) new) rest rest
            (read_all-Reads p.patch_data rest r h.nonempty valid e)
            (λ r' valid' left'. (r', rw (end, grown) refl, valid', left')))

    read_patches-Reads :
        (cursor : ℕ) (patches : List Patch) (rest : List ℕ) (r : R)
        → Describes old new cursor patches
        → laws.IsValid r
        → laws.remaining r ≡ patches_bytes cursor patches ++ rest
        → Reads laws
            (read_patches old (length patches) (cursor, take cursor new))
            r
            (last_end cursor patches, take (last_end cursor patches) new)
            rest
    unfolding read_patches read_patch
    read_patches-Reads cursor [] rest r d valid e = (r, refl, valid, e)
    read_patches-Reads cursor (p ∷ patches) rest r (h, d) valid e =
        let gap = p.offset - cursor in
        let size = length p.patch_data in
        let later = patches_bytes (end_of p) patches ++ rest in
        let middle = encoding 8 size ++ (p.patch_data ++ later) in
        let split : laws.remaining r ≡ encoding 8 gap ++ middle =
          e
          ∙ append_assoc (encoding 8 gap) _ rest
          ∙ ap (λ t. encoding 8 gap ++ t)
              (append_assoc (encoding 8 size) _ rest
                ∙ ap (λ t. encoding 8 size ++ t)
                    (append_assoc p.patch_data (patches_bytes (end_of p) patches) rest)) in
        Reads-bind laws (read_patch old (cursor, take cursor new))
          (read_patches old (length patches)) r (end_of p, take (end_of p) new)
          (last_end cursor (p ∷ patches), take (last_end cursor (p ∷ patches)) new) later rest
          (Reads-bind laws decode_varint_u64
            (λ g. decode_varint_u64 >>= patch_at old cursor (take cursor new) g) r gap
            (end_of p, take (end_of p) new) middle later
            (number-Reads gap middle r (omega (arith, h.within_old)) valid split)
            (λ r' valid' left'.
              Reads-bind laws decode_varint_u64 (patch_at old cursor (take cursor new) gap) r' size
                (end_of p, take (end_of p) new) (p.patch_data ++ later) later
                (number-Reads size (p.patch_data ++ later) r' (omega (arith, h.within_new)) valid'
                  left')
                (λ r'' valid'' left''. patch_at-Reads cursor p later r'' h valid'' left'')))
          (λ r' valid' left'. read_patches-Reads (end_of p) patches rest r' d valid' left')

    -- For blobs shorter than 2 ^ 64, and from a valid reader whose next bytes are those of
    -- patches that describe the new blob, the decoder's loop over the patches returns the new
    -- blob and leaves what follows.
    pub apply_patches-Reads :
        (patches : List Patch) (rest : List ℕ) (r : R)
        → Describes old new 0 patches
        → laws.IsValid r
        → laws.remaining r ≡ patches_bytes 0 patches ++ rest
        → Reads laws (apply_patches old (length new) (length patches)) r new rest
    unfolding apply_patches finished
    apply_patches-Reads patches rest r d valid e =
        let end = last_end 0 patches in
        let whole : take end new ++ old_tail old (length new) end ≡ new =
          ap (λ t. take end new ++ t)
            (old_tail_lem old (length new) end ∙ sym (last_end_lem old new 0 patches d))
          ∙ take-drop end new in
        Reads-bind laws (read_patches old (length patches) (0, [])) (finished old (length new)) r
          (end, take end new) new rest rest (read_patches-Reads 0 patches rest r d valid e)
          (λ r' valid' left'.
            (r', rw (whole, eq→== (length new) (length new) refl) refl, valid', left'))

    -- `apply_xor` on the compressed exclusive or of the blobs gives the new blob.
    pub apply_xor-Reads :
        (Z : Zstd) (zstd : ZstdLaws Z) (compressed rest : List ℕ) (r : R)
        → Z.compress (compute_xor old new) ≡ some compressed
        → laws.IsValid r
        → laws.remaining r ≡ compressed ++ rest
        → Reads laws (apply_xor Z old (length new) (length compressed)) r new rest
    unfolding apply_xor zstd_decompress
    apply_xor-Reads Z zstd compressed rest r h valid e =
        let size : length (compute_xor old new) ≡ max (length old) (length new) =
          length-compute_xor old new in
        let back =
          zstd.decompress-compress (compute_xor old new) compressed (max (length old) (length new))
            h (omega arith) in
        let opened : zstd_decompress Z compressed (max (length old) (length new))
            ≡ ok (compute_xor old new) =
          rw
            (
              back,
              zstd_decompress,
              eq→== (length (compute_xor old new)) (max (length old) (length new)) size,
            )
            refl in
        Reads-bind laws (read_some (length compressed))
          (λ c. lifted (zstd_decompress Z c (max (length old) (length new))) >>= λ xor.
            checked (length new) (reconstruct old xor (length new)))
          r compressed new rest rest (read_some-Reads compressed rest r valid e)
          (λ r' valid' left'. (
            r',
            rw (opened, reconstruct-compute_xor old new, eq→== (length new) (length new) refl) refl,
            valid',
            left',
          ))
