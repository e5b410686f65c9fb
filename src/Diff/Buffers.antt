-- ===== src/Diff/Buffers.antt =====
-- What the buffers of `encode_rle_to_buf` and `encode_xor_to_buf` in src/diff.rs hold.
use lencode.Prelude.{
  ℕ, ◌+◌, ◌-◌, ◌^◌, ◌≤◌, ◌<◌, ◌≡◌, refl, sym, ap, ◌∙◌, arith, tests, ltb, Bool-cases, inl, inr,
  Option, none, some, List, [], ◌∷◌, ◌++◌, length, append-nil,
}
use lencode.Io.{M, ◌⊕◌, Appends}
use lencode.Io.Context.{Appends-chain}
use lencode.Io.VecWriter
use lencode.Io.VecWriter.{VecWriter, vec_write}
use lencode.Io.MemoryLaws.{write_lem, vec_write_laws}
use lencode.Varint.Fixed.{encode_varint_u64}
use lencode.Varint.Encoding.{encoding}
use lencode.Varint.Encode.{encode_word-Appends}
use lencode.Diff.Patches.{Patch, end_of, compute_patches}
use lencode.Diff.PatchLaws.{Describes}
use lencode.Diff.ComputePatches.{compute_patches-Describes}
use lencode.Diff.Xor.{compute_xor}
use lencode.Bytes.Zstd.{Zstd, zstd_compress}
use lencode.Diff.Encoder.{
  filled, write_patches, write_header, try_xor_compress, encode_rle_to_buf, encode_xor_to_buf,
}

-- A call appends `bs` to any vector.
abbrev Fills : M VecWriter ℕ → List ℕ → Type 0
Fills act bs = (w : VecWriter) → Appends vec_write_laws act w bs 0

write-Fills : (bs : List ℕ) → Fills (VecWriter.write bs) bs
unfolding VecWriter.write
write-Fills [] w = (w, refl, tt, sym (append-nil w.bytes))
write-Fills (b ∷ bs) w =
    let (w', h, same) = write_lem w (b ∷ bs) (omega arith) in
    (w', unfold VecWriter.write in h, tt, same)

encode-Fills : (v : ℕ) → v < 2 ^ 64 → Fills (encode_varint_u64 v) (encoding 8 v)
unfolding encode_varint_u64
encode-Fills v h w = encode_word-Appends vec_write_laws 8 v 0 w (omega arith) (omega arith) tt

chain-Fills :
    (a b : M VecWriter ℕ) (bs cs : List ℕ) → Fills a bs → Fills b cs → Fills (a ⊕ b) (bs ++ cs)
chain-Fills a b bs cs f g w = Appends-chain vec_write_laws a b w bs cs 0 (f w) (λ w' room. g w')

-- What is appended to an empty vector fills it.
filled_lem :
    (act : M VecWriter ℕ) (bs : List ℕ) → Fills act bs → filled (act VecWriter.new) ≡ some bs
unfolding VecWriter.new
filled_lem act bs f = let (w', h, room, same) = f VecWriter.new in rw h (ap some same)

-- The bytes of the patches from `cursor` on.
abbrev pub patches_bytes : ℕ → List Patch → List ℕ
patches_bytes cursor [] = []
patches_bytes cursor (p ∷ patches) =
    encoding 8 (p.offset - cursor)
    ++ (encoding 8 (length p.patch_data) ++ (p.patch_data ++ patches_bytes (end_of p) patches))

-- The bytes of the numbers before them.
abbrev pub header_bytes : ℕ → ℕ → ℕ → List ℕ
header_bytes mode new_len count = encoding 8 mode ++ (encoding 8 new_len ++ encoding 8 count)

header-Fills :
    (mode new_len count : ℕ)
    → mode < 2 ^ 64
    → new_len < 2 ^ 64
    → count < 2 ^ 64
    → Fills (write_header mode new_len count) (header_bytes mode new_len count)
unfolding write_header
header-Fills mode new_len count h k l =
    chain-Fills (encode_varint_u64 mode) (encode_varint_u64 new_len ⊕ encode_varint_u64 count)
      (encoding 8 mode) (encoding 8 new_len ++ encoding 8 count) (encode-Fills mode h)
      (chain-Fills (encode_varint_u64 new_len) (encode_varint_u64 count) (encoding 8 new_len)
        (encoding 8 count) (encode-Fills new_len k) (encode-Fills count l))

patches-Fills :
    (old new : List ℕ) (cursor : ℕ) (patches : List Patch)
    → length old < 2 ^ 64
    → length new < 2 ^ 64
    → Describes old new cursor patches
    → Fills (write_patches cursor patches) (patches_bytes cursor patches)
unfolding write_patches
patches-Fills old new cursor [] ho hn d = λ w. (w, refl, tt, sym (append-nil w.bytes))
patches-Fills old new cursor (p ∷ patches) ho hn (h, d) =
    let gap = p.offset - cursor in
    let size = length p.patch_data in
    let rest = patches_bytes (end_of p) patches in
    chain-Fills (encode_varint_u64 gap)
      (encode_varint_u64 size ⊕ VecWriter.write p.patch_data ⊕ write_patches (end_of p) patches)
      (encoding 8 gap) (encoding 8 size ++ (p.patch_data ++ rest))
      (encode-Fills gap (omega (arith, h.within_old)))
      (chain-Fills (encode_varint_u64 size)
        (VecWriter.write p.patch_data ⊕ write_patches (end_of p) patches) (encoding 8 size)
        (p.patch_data ++ rest) (encode-Fills size (omega (arith, h.within_new)))
        (chain-Fills (VecWriter.write p.patch_data) (write_patches (end_of p) patches) p.patch_data
          rest (write-Fills p.patch_data) (patches-Fills old new (end_of p) patches ho hn d)))

-- There are no more patches than bytes of the new blob.
count-le :
    (old new : List ℕ) (cursor : ℕ) (patches : List Patch)
    → cursor ≤ length new
    → Describes old new cursor patches
    → cursor + length patches ≤ length new
count-le old new cursor [] h d = omega arith
count-le old new cursor (p ∷ patches) h (k, d) =
    omega (arith, k.after, k.nonempty, count-le old new (end_of p) patches k.within_new d)

-- The buffer of `encode_rle_to_buf`, if there is one, holds the mode, the lengths and the patches
-- of a description of the new blob.
pub rle_buffer :
    (old new buf : List ℕ)
    → length old < 2 ^ 64
    → length new < 2 ^ 64
    → encode_rle_to_buf old new ≡ some buf
    → (patches : List Patch) × Describes old new 0 patches
      × (length patches < 2 ^ 64)
      × (buf ≡ header_bytes 1 (length new) (length patches) ++ patches_bytes 0 patches)
unfolding encode_rle_to_buf
rle_buffer old new buf ho hn = go (compute_patches old new) refl
  where
    go :
        (o : Option (List Patch))
        → compute_patches old new ≡ o
        → encode_rle_to_buf old new ≡ some buf
        → (patches : List Patch) × Describes old new 0 patches
          × (length patches < 2 ^ 64)
          × (buf ≡ header_bytes 1 (length new) (length patches) ++ patches_bytes 0 patches)
    go none e h = cc (rw (e, encode_rle_to_buf) at h)
    go (some patches) e h =
        let d = compute_patches-Describes old new patches e in
        let count : length patches < 2 ^ 64 =
          omega (arith, count-le old new 0 patches (omega arith) d) in
        let full =
          filled_lem (write_header 1 (length new) (length patches) ⊕ write_patches 0 patches)
            (header_bytes 1 (length new) (length patches) ++ patches_bytes 0 patches)
            (chain-Fills (write_header 1 (length new) (length patches)) (write_patches 0 patches)
              (header_bytes 1 (length new) (length patches)) (patches_bytes 0 patches)
              (header-Fills 1 (length new) (length patches) (omega arith) hn count)
              (patches-Fills old new 0 patches ho hn d)) in
        (patches, d, count, cc (sym (rw (e, encode_rle_to_buf) at h) ∙ full))

-- The buffer of `encode_xor_to_buf`, if there is one, holds the mode, the lengths and the
-- exclusive or of the blobs, compressed to less than the new blob's length.
pub xor_buffer :
    (Z : Zstd) (old new buf : List ℕ)
    → length new < 2 ^ 64
    → encode_xor_to_buf Z old new ≡ some buf
    → (compressed : List ℕ) × (Z.compress (compute_xor old new) ≡ some compressed)
      × (length compressed < length new)
      × (buf ≡ header_bytes 2 (length new) (length compressed) ++ compressed)
unfolding encode_xor_to_buf zstd_compress
xor_buffer Z old new buf hn = go (Z.compress (compute_xor old new)) refl
  where
    go :
        (o : Option (List ℕ))
        → Z.compress (compute_xor old new) ≡ o
        → encode_xor_to_buf Z old new ≡ some buf
        → (compressed : List ℕ) × (Z.compress (compute_xor old new) ≡ some compressed)
          × (length compressed < length new)
          × (buf ≡ header_bytes 2 (length new) (length compressed) ++ compressed)
    go none e h = cc (rw (e, encode_xor_to_buf, try_xor_compress, zstd_compress) at h)
    go (some compressed) e h =
        let full =
          filled_lem (write_header 2 (length new) (length compressed) ⊕ VecWriter.write compressed)
            (header_bytes 2 (length new) (length compressed) ++ compressed) in
        elim (Bool-cases (ltb (length compressed) (length new))) [
          | inl less ↦ (
            compressed,
            e,
            omega tests,
            cc (
                sym (rw (e, less, encode_xor_to_buf, try_xor_compress, zstd_compress) at h)
                ∙ full (
                    chain-Fills (write_header 2 (length new) (length compressed))
                      (VecWriter.write compressed) (header_bytes 2 (length new) (length compressed))
                      compressed
                      (header-Fills 2 (length new) (length compressed) (omega arith) hn
                        (omega tests))
                      (write-Fills compressed))),
          )
          | inr more ↦ cc (rw (e, more, encode_xor_to_buf, try_xor_compress, zstd_compress) at h)
        ]
