-- ===== src/Varint/Payload.antt =====
-- The payload length that the fixed-width encoders compute is the number of bytes of the value.
use lencode.Prelude.{
  ℕ, zero, suc, ◌+◌, ◌-◌, ◌*◌, ◌/◌, ◌^◌, ◌≤◌, ◌<◌, ◌≡◌, sym, ap, ◌∙◌, arith, ltb, inl, inr,
  Bool-cases, tests,
}
use lencode.Prelude.Pow.{Needs, Needs-unique, pow256-eq-pow2, pow2_mono}
use lencode.Varint.Bytes.{byte_count, byte_count-Needs}
use lencode.Varint.Fixed.{leading_zeros, payload_len}

-- The highest bit of a positive value stands below its leading zeros.
leading_zeros_lem :
    (w v : ℕ)
    → 0 < v
    → v < 2 ^ w
    → (b : ℕ) × (leading_zeros w v + suc b ≡ w) × (2 ^ b ≤ v) × (v < 2 ^ suc b)
unfolding leading_zeros
leading_zeros_lem zero v pos h = absurd (omega arith)
leading_zeros_lem (suc w) v pos h = elim (Bool-cases (ltb v (2 ^ w))) [
  | inl small ↦
      let (b, e, lo, hi) = leading_zeros_lem w v pos (omega tests) in
      (b, rw small (omega (arith, e)), lo, hi)
  | inr large ↦ (w, rw large (omega arith), omega tests, h)
]

payload_of : (k l b : ℕ) → l + suc b ≡ 8 * k → (8 * k - l + 7) / 8 ≡ suc (b / 8)
payload_of k l b e = omega arith

pub payload_len-Needs :
    (k v : ℕ) → 0 < v → v < 256 ^ k → (n : ℕ) × (payload_len k v ≡ suc n) × Needs v n
unfolding payload_len
payload_len-Needs k v pos h =
    let (b, e, lo, hi) = leading_zeros_lem (8 * k) v pos (omega (arith, pow256-eq-pow2 k)) in
    (
      b / 8,
      payload_of k (leading_zeros (8 * k) v) b e,
      record {
        fits = omega (
          arith,
          pow256-eq-pow2 (suc (b / 8)),
          pow2_mono (suc b) (8 * suc (b / 8)) (omega arith),
        );
        least = omega (arith, pow256-eq-pow2 (b / 8), pow2_mono (8 * (b / 8)) b (omega arith));
      },
    )

-- `(w - leading_zeros + 7) >> 3` counts the bytes of the value up to its highest that is not zero.
pub payload_len-eq-byte_count : (k v : ℕ) → 0 < v → v < 256 ^ k → payload_len k v ≡ byte_count k v
payload_len-eq-byte_count k v pos h =
    let (n, e, p) = payload_len-Needs k v pos h in
    let (m, f, q) = byte_count-Needs k v pos h in e ∙ ap suc (Needs-unique v n m p q) ∙ sym f

pub byte_count-le : (k v : ℕ) → byte_count k v ≤ k
unfolding byte_count
byte_count-le zero v = omega arith
byte_count-le (suc k) v = ground (arith, byte_count-le k (v / 256))
