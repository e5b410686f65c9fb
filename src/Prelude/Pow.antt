-- ===== src/Prelude/Pow.antt =====
-- Powers of 2 and of 256, and the number of bytes that a value needs.
use Prim.Native.Nat.{ℕ, zero, suc, ◌+◌, ◌*◌, ◌^◌, ◌≤◌, ◌<◌}
use mathlib.Core.Path.{◌≡◌, refl, sym, ap, ◌∙◌}
use native.Mathlib.Omega.{arith}
use native.Mathlib.Nat.{pow-suc, pow-le-pow_right, one-le-pow}
use native.Mathlib.Numerals.{towards_suc}
use native.Mathlib.Decide.{dec_lt}

pub pow_double : (n : ℕ) → 2 ^ suc n ≡ 2 * 2 ^ n
pow_double n = omega (arith, pow-suc 2 n)

pub pow256-suc : (n : ℕ) → 256 ^ suc n ≡ 256 * 256 ^ n
pow256-suc n = omega (arith, pow-suc 256 n)

pub pow256_pos : (n : ℕ) → 0 < 256 ^ n
pow256_pos n = one-le-pow n 256 (omega arith)

pub pow2_pos : (n : ℕ) → 0 < 2 ^ n
pow2_pos n = one-le-pow n 2 (omega arith)

eight_more : (m : ℕ) → 2 ^ (8 + m) ≡ 256 * 2 ^ m
eight_more m =
    let e : m + 8 ≡ 8 + m = omega arith in
    ap (λ k. 2 ^ k) (sym e) ∙ simp towards_suc (omega (arith, pow_double m, pow_double (suc m)))

pub pow256-eq-pow2 : (n : ℕ) → 256 ^ n ≡ 2 ^ (8 * n)
pow256-eq-pow2 zero = refl
pow256-eq-pow2 (suc n) =
    let e : 8 + 8 * n ≡ 8 * suc n = omega arith in
    omega (arith, pow256-suc n, pow256-eq-pow2 n, eight_more (8 * n), ap (λ k. 2 ^ k) e)

pub pow256_mono : (n m : ℕ) → n ≤ m → 256 ^ n ≤ 256 ^ m
pow256_mono n m h = pow-le-pow_right (omega arith) h

pub pow2_mono : (n m : ℕ) → n ≤ m → 2 ^ n ≤ 2 ^ m
pow2_mono n m h = pow-le-pow_right (omega arith) h

-- `n` bytes hold `v`, and fewer do not.
pub record Needs (v n : ℕ) : Type 0 where
  pub fits : v < 256 ^ suc n
  pub least : 256 ^ n ≤ v

-- The number of bytes that a value needs is unique.
pub Needs-unique : (v n m : ℕ) → Needs v n → Needs v m → n ≡ m
Needs-unique v n m p q = elim (dec_lt n m) [
  | yes h ↦ absurd (omega (arith, pow256_mono (suc n) m h))
  | no h ↦ elim (dec_lt m n) [
    | yes k ↦ absurd (omega (arith, pow256_mono (suc m) n k))
    | no k ↦ omega arith
  ]
]
