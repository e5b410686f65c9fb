-- ===== src/Diff/Choice.antt =====
-- The buffer that `encode_blob` of src/diff.rs chooses.
use lencode.Prelude.{
  ℕ, ◌*◌, ◌≤◌, ◌<◌, ◌≡◌, refl, arith, tests, leb, Bool-cases, inl, inr, lt→leb, some, List, length,
}
use lencode.Bytes.Zstd.{Zstd}
use lencode.Diff.Encoder.{encode_rle_to_buf, encode_xor_to_buf, winner, smaller}

smaller_le :
    (r x : List ℕ)
    → (buf : List ℕ) × (smaller (some r) (some x) ≡ some buf)
      × (length buf ≤ length r)
      × (length buf ≤ length x)
smaller_le r x = elim (Bool-cases (leb (length r) (length x))) [
  | inl shorter ↦ (r, rw shorter refl, omega arith, omega tests)
  | inr longer ↦ (x, rw longer refl, omega tests, omega arith)
]

-- If both buffers exist, and ten times the length of the patches' buffer is more than that of the
-- blob, then `encode_blob` chooses a buffer, and it is no longer than either.
pub winner-le :
    (Z : Zstd) (old blob rle xor : List ℕ)
    → encode_rle_to_buf old blob ≡ some rle
    → encode_xor_to_buf Z old blob ≡ some xor
    → length blob < length rle * 10
    → (buf : List ℕ) × (winner Z old blob ≡ some buf)
      × (length buf ≤ length rle)
      × (length buf ≤ length xor)
unfolding winner
winner-le Z old blob rle xor hr hx large =
    let (buf, h, a, b) = smaller_le rle xor in
    (buf, rw (hr, lt→leb (length rle * 10) (length blob) large, hx) h, a, b)
