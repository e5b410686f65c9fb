-- ===== src/Diff/Patches.antt =====
-- src/diff.rs, `Patch` and `compute_patches`.
use lencode.Prelude.{
  ℕ, suc, ◌+◌, ◌-◌, ◌/◌, ltb, ◌==◌, if◌then◌else◌, Option, none, some, List, [], ◌∷◌, ◌++◌, length,
  drop,
}
use lencode.Prelude.Slices.{slice}

-- A region of changed bytes: where it starts in the new blob, and its bytes there.
pub record Patch : Type 0 where
  pub offset : ℕ
  pub patch_data : List ℕ

abbrev pub end_of : Patch → ℕ
end_of p = p.offset + length p.patch_data

-- `COALESCE_GAP`
abbrev pub coalesce_gap : ℕ
coalesce_gap = 8

-- The region that the inner loop has open, if it is in one: closed, and grown by a byte.
abbrev pub closed : Option Patch → List Patch
closed none = []
closed (some p) = p ∷ []

abbrev pub grown : ℕ → ℕ → Option Patch → Patch
grown i byte none = record { offset = i; patch_data = byte ∷ [] }
grown i byte (some p) = record p { patch_data = p.patch_data ++ (byte ∷ []) }

-- The loops over the bytes that both blobs have, from index `i` on: the patches, in order. An
-- equal byte closes the open region, a differing one goes into it.
unfoldable pub differing : ℕ → Option Patch → List ℕ → List ℕ → List Patch
differing i region [] new = closed region
differing i region (a ∷ old) [] = closed region
differing i region (a ∷ old) (b ∷ new) =
    let same = a == b in
    let region' = if same then none else some (grown i b region) in
    let patches = differing (suc i) region' old new in
    if same then closed region ++ patches else patches

-- What the new blob has beyond the old one's end is a patch.
unfoldable pub tail_patch : List ℕ → List ℕ → List Patch
tail_patch old new =
    if ltb (length old) (length new)
    then record { offset = length old; patch_data = drop (length old) new } ∷ []
    else []

-- The patch `last`, grown over the gap behind it and the patch `p`.
unfoldable pub merged : List ℕ → Patch → Patch → Patch
merged new last p = record last {
  patch_data = (last.patch_data ++ slice (end_of last) p.offset new) ++ p.patch_data;
}

-- The loop over the patches, with the last patch of `coalesced`.
unfoldable pub coalesce : List ℕ → Patch → List Patch → List Patch
unfolding merged
coalesce new last [] = last ∷ []
coalesce new last (p ∷ patches) =
    let near = ltb (p.offset - end_of last) coalesce_gap in
    let rest = coalesce new (if near then merged new last p else p) patches in
    if near then rest else last ∷ rest

-- `patches.remove(0)`, and the loop over the others; nothing at 0 or 1 patches.
unfoldable pub coalesced : List ℕ → List Patch → List Patch
unfolding coalesce
coalesced new [] = []
coalesced new (p ∷ patches) = coalesce new p patches

-- `iter().map(|p| p.patch_data.len()).sum()`
unfoldable pub patch_bytes : List Patch → ℕ
patch_bytes [] = 0
patch_bytes (p ∷ patches) = length p.patch_data + patch_bytes patches

unfoldable pub compute_patches : List ℕ → List ℕ → Option (List Patch)
unfolding differing tail_patch coalesced patch_bytes
compute_patches old new =
    let patches = coalesced new (differing 0 none old new ++ tail_patch old new) in
    if ltb (length new / 2) (patch_bytes patches) then none else some patches
