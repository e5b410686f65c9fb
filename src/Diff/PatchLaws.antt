-- ===== src/Diff/PatchLaws.antt =====
-- What it means that patches describe a new blob against an old one, and that `coalesce` of
-- src/diff.rs keeps it.
use lencode.Prelude.{
  ℕ, ◌-◌, ◌≤◌, ◌<◌, ◌≡◌, sym, ap, ◌∙◌, arith, ltb, Bool-cases, inl, inr, List, [], ◌∷◌, ◌++◌,
  length, drop, length-append,
}
use lencode.Prelude.Slices.{slice, slice-join, length-slice}
use lencode.Diff.Patches.{Patch, end_of, coalesce_gap, merged, coalesce, coalesced}

module _ (old new : List ℕ) where
  -- The blobs have the same bytes from `c` to `i`.
  abbrev pub Agree : ℕ → ℕ → Type 0
  Agree c i = slice c i new ≡ slice c i old

  -- The patch is a region of the new blob, not empty, that starts within the old one, and before
  -- it, from `c` on, nothing has changed.
  pub record IsPatch (c : ℕ) (p : Patch) : Type 0 where
    pub after : c ≤ p.offset
    pub within_old : p.offset ≤ length old
    pub within_new : end_of p ≤ length new
    pub nonempty : 0 < length p.patch_data
    pub unchanged : Agree c p.offset
    pub is : p.patch_data ≡ slice p.offset (end_of p) new

  -- The patches are what has changed from `c` on.
  abbrev pub Describes : ℕ → List Patch → Type 0
  Describes c [] = drop c new ≡ slice c (length new) old
  Describes c (p ∷ patches) = IsPatch c p × Describes (end_of p) patches

  end_of-merged :
      (last p : Patch)
      → end_of last ≤ p.offset
      → p.offset ≤ length new
      → end_of (merged new last p) ≡ end_of p
  unfolding merged
  end_of-merged last p h k = omega (
    arith,
    length-append (last.patch_data ++ slice (end_of last) p.offset new) p.patch_data,
    length-append last.patch_data (slice (end_of last) p.offset new),
    length-slice (end_of last) p.offset new k,
  )

  merged-is :
      (c : ℕ) (last p : Patch)
      → IsPatch c last
      → IsPatch (end_of last) p
      → (merged new last p).patch_data ≡ slice last.offset (end_of p) new
  unfolding merged
  merged-is c last p h k =
      ap (λ t. (t ++ slice (end_of last) p.offset new) ++ p.patch_data) h.is
      ∙ ap (λ t. t ++ p.patch_data)
          (slice-join last.offset (end_of last) p.offset new (omega arith) k.after)
      ∙ ap (λ t. slice last.offset p.offset new ++ t) k.is
      ∙ slice-join last.offset p.offset (end_of p) new (omega (arith, k.after)) (omega arith)

  merged-IsPatch :
      (c : ℕ) (last p : Patch)
      → IsPatch c last
      → IsPatch (end_of last) p
      → IsPatch c (merged new last p)
  merged-IsPatch c last p h k =
      let e = end_of-merged last p k.after (omega (arith, k.within_new)) in
      record {
        after = unfold merged in h.after;
        within_old = unfold merged in h.within_old;
        within_new = omega (arith, e, k.within_new);
        nonempty =
            unfold merged in
            omega (
              arith,
              h.nonempty,
              length-append (last.patch_data ++ slice (end_of last) p.offset new) p.patch_data,
              length-append last.patch_data (slice (end_of last) p.offset new),
            );
        unchanged = unfold merged in h.unchanged;
        is = unfold merged in merged-is c last p h k ∙ ap (λ b. slice last.offset b new) (sym e);
      }

  coalesce-Describes :
      (c : ℕ) (last : Patch) (patches : List Patch)
      → Describes c (last ∷ patches)
      → Describes c (coalesce new last patches)
  unfolding coalesce
  coalesce-Describes c last [] d = d
  coalesce-Describes c last (p ∷ patches) (h, (k, d)) =
      elim (Bool-cases (ltb (p.offset - end_of last) coalesce_gap)) [
        | inl near ↦ rw near (
            coalesce-Describes c (merged new last p) patches (
              merged-IsPatch c last p h k,
              rw (end_of-merged last p k.after (omega (arith, k.within_new))) d,
            ))
        | inr far ↦ rw far (h, coalesce-Describes (end_of last) p patches (k, d))
      ]

  pub coalesced-Describes :
      (patches : List Patch) → Describes 0 patches → Describes 0 (coalesced new patches)
  unfolding coalesced
  coalesced-Describes [] d = d
  coalesced-Describes (p ∷ patches) d = coalesce-Describes 0 p patches d
