-- ===== src/Diff/Xor.antt =====
-- src/diff.rs, `compute_xor` and the reconstruction in mode 2 of `decode_blob`.
use lencode.Prelude.{
  ℕ, zero, suc, ◌≤◌, ◌≡◌, refl, ap, ◌∙◌, arith, min, max, ltb, tests, if◌then◌else◌, bit_xor,
  Bool-cases, inl, inr, List, [], ◌∷◌, ◌++◌, length, take, drop, length-append, length-drop,
  drop-append, take-drop, take_all, append-nil,
}
use lencode.Prelude.Xor.{xor-xor}
use lencode.Prelude.Slices.{slice, slice_to_end}

-- `old[i] ^ new[i]` for the indices that both have.
unfoldable pub xor_bytes : List ℕ → List ℕ → List ℕ
xor_bytes [] ys = []
xor_bytes (a ∷ xs) [] = []
xor_bytes (a ∷ xs) (b ∷ ys) = bit_xor a b ∷ xor_bytes xs ys

unfoldable pub compute_xor : List ℕ → List ℕ → List ℕ
unfolding xor_bytes
compute_xor old new =
    let min_len = min (length old) (length new) in
    xor_bytes old new
    ++ (if ltb (length old) (length new)
        then drop min_len new
        else if ltb (length new) (length old)
        then drop min_len old
        else [])

-- The new blob of `new_len` bytes from the old one and the exclusive or.
unfoldable pub reconstruct : List ℕ → List ℕ → ℕ → List ℕ
unfolding xor_bytes
reconstruct old xor new_len =
    let min_len = min (length old) new_len in
    take min_len (xor_bytes old xor)
    ++ (if ltb (length old) new_len then slice min_len new_len xor else [])

length-xor_bytes : (old new : List ℕ) → length (xor_bytes old new) ≡ min (length old) (length new)
unfolding xor_bytes
length-xor_bytes [] new = omega arith
length-xor_bytes (a ∷ old) [] = omega arith
length-xor_bytes (a ∷ old) (b ∷ new) = omega (arith, length-xor_bytes old new)

-- The exclusive or is as long as the longer blob.
pub length-compute_xor :
    (old new : List ℕ) → length (compute_xor old new) ≡ max (length old) (length new)
unfolding compute_xor
length-compute_xor old new = elim (Bool-cases (ltb (length old) (length new))) [
  | inl longer ↦ rw longer (
      omega (
        tests,
        length-append (xor_bytes old new) (drop (min (length old) (length new)) new),
        length-xor_bytes old new,
        length-drop (min (length old) (length new)) new,
      ))
  | inr other ↦ elim (Bool-cases (ltb (length new) (length old))) [
    | inl shorter ↦
        rw (other, shorter)
          (omega (
            tests,
            length-append (xor_bytes old new) (drop (min (length old) (length new)) old),
            length-xor_bytes old new,
            length-drop (min (length old) (length new)) old,
          ))
    | inr same ↦
        rw (other, same)
          (omega (tests, length-append (xor_bytes old new) [], length-xor_bytes old new))
  ]
]

-- Where both blobs have bytes, the old ones and their exclusive or give the new ones.
xor_bytes-xor_bytes :
    (m : ℕ) (old new more : List ℕ)
    → m ≤ length old
    → m ≤ length new
    → take m (xor_bytes old (xor_bytes old new ++ more)) ≡ take m new
unfolding xor_bytes
xor_bytes-xor_bytes zero old new more h k = refl
xor_bytes-xor_bytes (suc m) [] new more h k = absurd (omega arith)
xor_bytes-xor_bytes (suc m) (a ∷ old) [] more h k = absurd (omega arith)
xor_bytes-xor_bytes (suc m) (a ∷ old) (b ∷ new) more h k =
    rw (xor-xor a b, xor_bytes-xor_bytes m old new more (omega arith) (omega arith)) refl

-- For any two blobs, of any lengths, mode 2 of `decode_blob` rebuilds the new blob from the old
-- one and their exclusive or.
pub reconstruct-compute_xor :
    (old new : List ℕ) → reconstruct old (compute_xor old new) (length new) ≡ new
unfolding reconstruct compute_xor
reconstruct-compute_xor old new = elim (Bool-cases (ltb (length old) (length new))) [
  | inl longer ↦
      let m : min (length old) (length new) ≡ length old = omega tests in
      let size = length-xor_bytes old new in
      let more = drop (length old) new in
      let start : length old ≡ length (xor_bytes old new) = omega arith in
      rw (longer, m)
        (rw (xor_bytes-xor_bytes (length old) old new more (omega arith) (omega arith)) (
          ap (λ t. take (length old) new ++ t)
            (slice_to_end (length old) (length new) (xor_bytes old new ++ more) (
                omega (tests, length-append (xor_bytes old new) more, length-drop (length old) new))
              ∙ ap (λ k. drop k (xor_bytes old new ++ more)) start
              ∙ drop-append (xor_bytes old new) more)
          ∙ take-drop (length old) new))
  | inr other ↦
      let m : min (length old) (length new) ≡ length new = omega tests in
      rw (other, m)
        (append-nil _
          ∙ xor_bytes-xor_bytes (length new) old new _ (omega tests) (omega arith)
          ∙ take_all (length new) new (omega arith))
]
