-- ===== src/Diff/ComputePatches.antt =====
-- What `compute_patches` of src/diff.rs returns describes the new blob against the old one.
use lencode.Prelude.{
  ℕ, suc, min, ◌+◌, ◌/◌, ◌≤◌, ◌≡◌, refl, sym, ap, ◌∙◌, arith, tests, ltb, ◌==◌, ==_iff, Bool-cases,
  inl, inr, Option, none, some, List, [], ◌∷◌, ◌++◌, length, drop, length-append, length-drop,
  append_assoc, drop_all,
}
use lencode.Prelude.Slices.{slice, slice_head, slice_snoc, slice_empty, slice_to_end, drop_nil-le}
use lencode.Diff.Patches.{
  Patch, end_of, closed, grown, differing, tail_patch, coalesced, patch_bytes, compute_patches,
}
use lencode.Diff.PatchLaws.{Agree, IsPatch, Describes, coalesced-Describes}

module _ (old new : List ℕ) where
  -- What the loop has found from `c` to `i`: nothing, or an open region up to `i`.
  abbrev Open : ℕ → ℕ → Option Patch → Type 0
  Open c i none = (c ≤ i) × Agree old new c i
  Open c i (some p) = IsPatch old new c p × (end_of p ≡ i)

  -- To describe a change is to close the open region and to describe what follows it.
  closed-Describes :
      (c i : ℕ) (region : Option Patch) (patches : List Patch)
      → Open c i region
      → ((c' : ℕ) → c' ≤ i → Agree old new c' i → Describes old new c' patches)
      → Describes old new c (closed region ++ patches)
  closed-Describes c i none patches (h, agree) rest = rest c h agree
  closed-Describes c i (some p) patches (h, ends) rest = (
    h,
    rest (end_of p) (omega arith) (
        slice_empty (end_of p) i new (omega arith)
        ∙ sym (slice_empty (end_of p) i old (omega arith))),
  )

  tail_patch-Describes :
      (c i : ℕ)
      → c ≤ i
      → i ≤ length old
      → i ≤ length new
      → min (length old) (length new) ≤ i
      → Agree old new c i
      → Describes old new c (tail_patch old new)
  unfolding tail_patch
  tail_patch-Describes c i h k l end agree = elim (Bool-cases (ltb (length old) (length new))) [
    | inl longer ↦
        let e : i ≡ length old = omega (tests) in
        let size = length-drop (length old) new in
        rw longer (
          record {
            after = omega arith;
            within_old = omega arith;
            within_new = omega (arith, tests, size);
            nonempty = omega (arith, tests, size);
            unchanged = rw e at agree;
            is = sym (
                slice_to_end (length old) (length old + length (drop (length old) new)) new
                  (omega (tests, size)));
          },
          drop_all (length old + length (drop (length old) new)) new (omega (tests, size))
              ∙ sym (
                  slice_empty (length old + length (drop (length old) new)) (length new) old
                    (omega (tests, size))),
        )
    | inr shorter ↦
        let e : i ≡ length new = omega (tests) in
        rw shorter (sym (slice_to_end c i new (omega arith)) ∙ agree ∙ ap (λ b. slice c b old) e)
  ]

  grown-Open :
      (c i : ℕ) (b : ℕ) (region : Option Patch) (later : List ℕ)
      → i ≤ length old
      → drop i new ≡ b ∷ later
      → Open c i region
      → Open c (suc i) (some (grown i b region))
  grown-Open c i b none later k e (h, agree) =
      let (one, rest, fits) = slice_head i b new later e in
      let at : i + 1 ≡ suc i = omega arith in
      (
        record {
          after = h;
          within_old = k;
          within_new = omega arith;
          nonempty = omega arith;
          unchanged = agree;
          is = sym one ∙ ap (λ t. slice i t new) (sym at);
        },
        omega arith,
      )
  grown-Open c i b (some p) later k e (h, ends) =
      let (one, rest, fits) = slice_head i b new later e in
      let size = length-append p.patch_data (b ∷ []) in
      let at : p.offset + length (p.patch_data ++ (b ∷ [])) ≡ suc i = omega arith in
      (
        record {
          after = h.after;
          within_old = h.within_old;
          within_new = omega arith;
          nonempty = omega arith;
          unchanged = h.unchanged;
          is =
              ap (λ t. t ++ (b ∷ [])) (h.is ∙ ap (λ t. slice p.offset t new) ends)
              ∙ sym (slice_snoc p.offset i b new later (omega arith) e)
              ∙ ap (λ t. slice p.offset t new) (sym at);
        },
        omega arith,
      )

  Agree-suc :
      (c i a b : ℕ) (old' new' : List ℕ)
      → c ≤ i
      → drop i old ≡ a ∷ old'
      → drop i new ≡ b ∷ new'
      → a ≡ b
      → Agree old new c i
      → Agree old new c (suc i)
  Agree-suc c i a b old' new' h eo en same agree =
      slice_snoc c i b new new' h en ∙ rw (agree, same) refl ∙ sym (slice_snoc c i a old old' h eo)

  differing-Describes :
      (c i : ℕ) (region : Option Patch) (old' new' : List ℕ)
      → i ≤ length old
      → i ≤ length new
      → drop i old ≡ old'
      → drop i new ≡ new'
      → Open c i region
      → Describes old new c (differing i region old' new' ++ tail_patch old new)
  unfolding differing
  differing-Describes c i region [] new' k l eo en o =
      closed-Describes c i region (tail_patch old new) o
        (λ c' h agree. tail_patch-Describes c' i h k l (omega (arith, drop_nil-le i old eo)) agree)
  differing-Describes c i region (a ∷ old') [] k l eo en o =
      closed-Describes c i region (tail_patch old new) o
        (λ c' h agree. tail_patch-Describes c' i h k l (omega (arith, drop_nil-le i new en)) agree)
  differing-Describes c i region (a ∷ old') (b ∷ new') k l eo en o =
      let (one, rest, fits) = slice_head i a old old' eo in
      let (one', rest', fits') = slice_head i b new new' en in
      elim (Bool-cases (a == b)) [
        | inl same ↦
            rw
              (
                same,
                append_assoc (closed region) (differing (suc i) none old' new')
                    (tail_patch old new),
              )
              (closed-Describes c i region (differing (suc i) none old' new' ++ tail_patch old new)
                o
                (λ c' h agree.
                  differing-Describes c' (suc i) none old' new' fits fits' rest rest' (
                    omega arith,
                    Agree-suc c' i a b old' new' h eo en ((==_iff a b).0 same) agree,
                  )))
        | inr other ↦ rw other (
            differing-Describes c (suc i) (some (grown i b region)) old' new' fits fits' rest rest'
              (grown-Open c i b region new' k en o))
      ]

  -- If `compute_patches` returns patches, they are in order and do not overlap, each is a region of
  -- the new blob, not empty, that starts within the old one, and before, between and behind them
  -- the new blob has the old one's bytes.
  pub compute_patches-Describes :
      (patches : List Patch) → compute_patches old new ≡ some patches → Describes old new 0 patches
  unfolding compute_patches
  compute_patches-Describes patches h =
      let found = differing 0 none old new ++ tail_patch old new in
      elim (Bool-cases (ltb (length new / 2) (patch_bytes (coalesced new found)))) [
        | inl large ↦ cc (rw large at h)
        | inr small ↦
            let e : coalesced new found ≡ patches = cc (rw small at h) in
            rw e at (
              coalesced-Describes old new found (
                differing-Describes 0 0 none old new (omega arith) (omega arith) refl refl
                  (omega arith, refl)))
      ]
