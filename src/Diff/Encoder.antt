-- ===== src/Diff/Encoder.antt =====
-- src/diff.rs, `DiffEncoder`.
use lencode.Prelude.{
  ℕ, ◌-◌, ◌*◌, ltb, leb, if◌then◌else◌, Bool, true, false, Option, none, some, List, [], ◌∷◌,
  length,
}
use mathlib.Core.List.{map}
use lencode.Io.{M, Result, ok, err, fault, pure, ◌⊕◌, Write}
use lencode.Io.VecWriter
use lencode.Io.VecWriter.{VecWriter, vec_write}
use lencode.Varint.Fixed.{encode_varint_u64}
use lencode.Diff.Patches.{Patch, end_of, compute_patches}
use lencode.Diff.Xor.{compute_xor}
use lencode.Bytes.Zstd.{Zstd, zstd_compress}
use lencode.Diff.Blobs
use lencode.Diff.Blobs.{Blobs}

pub record DiffEncoder : Type 0 where
  pub blobs : Blobs
  pub current_key : Option ℕ

unfoldable pub new : DiffEncoder
new = record { blobs = []; current_key = none }

unfoldable pub with_capacity : ℕ → DiffEncoder
with_capacity num_keys = record { blobs = []; current_key = none }

unfoldable pub set_key : ℕ → DiffEncoder → DiffEncoder
set_key key e = record e { current_key = some key }

unfoldable pub clear_key : DiffEncoder → DiffEncoder
clear_key e = record e { current_key = none }

unfoldable pub clear : DiffEncoder → DiffEncoder
clear e = record e { blobs = []; current_key = none }

unfoldable pub num_keys : DiffEncoder → ℕ
num_keys e = length e.blobs

unfoldable pub contains_key : ℕ → DiffEncoder → Bool
unfolding Blobs.get
contains_key key e = elim (Blobs.get key e.blobs) [ none ↦ false | some blob ↦ true ]

unfoldable pub keys : DiffEncoder → List ℕ
keys e = map (λ p. p.0) e.blobs

unfoldable pub remove_key : ℕ → DiffEncoder → DiffEncoder
unfolding Blobs.remove
remove_key key e = record e { blobs = Blobs.remove key e.blobs }

unfoldable pub cached_bytes : DiffEncoder → ℕ
unfolding Blobs.total_len
cached_bytes e = Blobs.total_len e.blobs

-- `self.store.insert(key, data.to_vec())`
unfoldable pub insert : ℕ → List ℕ → DiffEncoder → DiffEncoder
unfolding Blobs.insert
insert key blob e = record e { blobs = Blobs.insert key blob e.blobs }

-- A buffer that calls on an empty vector have filled, unless one failed (`.ok()?`).
abbrev pub filled : VecWriter × Result ℕ → Option (List ℕ)
filled (w, ok n) = some w.bytes
filled (w, err e) = none
filled (w, fault x) = none

-- The patches from `cursor` on: for each the gap before it, its length and its bytes.
unfoldable pub write_patches : ℕ → List Patch → M VecWriter ℕ
write_patches cursor [] = pure 0
write_patches cursor (p ∷ patches) =
    encode_varint_u64 (p.offset - cursor)
    ⊕ encode_varint_u64 (length p.patch_data)
    ⊕ VecWriter.write p.patch_data
    ⊕ write_patches (end_of p) patches

-- `try_xor_compress`
unfoldable pub try_xor_compress : Zstd → List ℕ → List ℕ → Option (List ℕ)
try_xor_compress Z old new = elim (zstd_compress Z (compute_xor old new)) [
  | ok compressed ↦ if ltb (length compressed) (length new) then some compressed else none
  | err e ↦ none
  | fault x ↦ none
]

-- The header of a difference: the mode, the new blob's length, and a count or a length.
unfoldable pub write_header : ℕ → ℕ → ℕ → M VecWriter ℕ
write_header mode new_len count =
    encode_varint_u64 mode ⊕ encode_varint_u64 new_len ⊕ encode_varint_u64 count

unfoldable pub encode_rle_to_buf : List ℕ → List ℕ → Option (List ℕ)
unfolding write_header write_patches
encode_rle_to_buf old new = elim (compute_patches old new) [
  | none ↦ none
  | some patches ↦
      filled
        ((write_header 1 (length new) (length patches) ⊕ write_patches 0 patches) VecWriter.new)
]

unfoldable pub encode_xor_to_buf : Zstd → List ℕ → List ℕ → Option (List ℕ)
unfolding write_header try_xor_compress
encode_xor_to_buf Z old new = elim (try_xor_compress Z old new) [
  | none ↦ none
  | some compressed ↦
      filled (
        (write_header 2 (length new) (length compressed) ⊕ VecWriter.write compressed)
          VecWriter.new)
]

-- `rle_candidate.is_some_and(|buf| buf.len() * 10 <= blob.len())`
abbrev pub is_tiny : ℕ → Option (List ℕ) → Bool
is_tiny len none = false
is_tiny len (some buf) = leb (length buf * 10) len

abbrev pub smaller : Option (List ℕ) → Option (List ℕ) → Option (List ℕ)
smaller (some rle) (some xor) = if leb (length rle) (length xor) then some rle else some xor
smaller (some rle) none = some rle
smaller none xor = xor

-- The buffer that `encode_blob` chooses, against the blob it has seen.
unfoldable pub winner : Zstd → List ℕ → List ℕ → Option (List ℕ)
unfolding encode_rle_to_buf encode_xor_to_buf
winner Z old blob =
    let rle_candidate = encode_rle_to_buf old blob in
    let xor_candidate =
      if is_tiny (length blob) rle_candidate then none else encode_xor_to_buf Z old blob in
    smaller rle_candidate xor_candidate

-- The difference to write, if the active key has a blob and a difference is worth it.
unfoldable pub difference : Zstd → DiffEncoder → ℕ → List ℕ → Option (List ℕ)
unfolding Blobs.get winner
difference Z e key blob = elim (Blobs.get key e.blobs) [
  | none ↦ none
  | some old ↦ winner Z old blob
]

module _ {W : Type 0} ⦃io : Write W⦄ where
  -- The mode 0, the length and the bytes.
  unfoldable pub write_full : List ℕ → M W ℕ
  write_full blob = encode_varint_u64 0 ⊕ encode_varint_u64 (length blob) ⊕ io.write blob

  abbrev pub kept : DiffEncoder → W × Result ℕ → (DiffEncoder × W) × Result ℕ
  kept e (w, r) = ((e, w), r)

  -- The blob is stored when its difference was written, not when the write failed.
  abbrev pub stored_if_ok : ℕ → List ℕ → DiffEncoder → W × Result ℕ → (DiffEncoder × W) × Result ℕ
  stored_if_ok key blob e (w, ok n) = ((insert key blob e, w), ok n)
  stored_if_ok key blob e (w, err x) = ((e, w), err x)
  stored_if_ok key blob e (w, fault x) = ((e, w), fault x)

  -- What is written under a key, and what is stored. A full blob is stored before it is written.
  abbrev pub encode_under :
      List ℕ → DiffEncoder → W → ℕ → Option (List ℕ) → (DiffEncoder × W) × Result ℕ
  encode_under blob e w key (some buf) = stored_if_ok key blob e (io.write buf w)
  encode_under blob e w key none = kept (insert key blob e) (write_full blob w)

  abbrev pub encode_active :
      Zstd → List ℕ → DiffEncoder → W → Option ℕ → (DiffEncoder × W) × Result ℕ
  encode_active Z blob e w none = kept e (write_full blob w)
  encode_active Z blob e w (some key) = encode_under blob e w key (difference Z e key blob)

  unfoldable pub encode_blob : Zstd → List ℕ → M (DiffEncoder × W) ℕ
  unfolding difference write_full insert
  encode_blob Z blob (e, w) = encode_active Z blob e w e.current_key
