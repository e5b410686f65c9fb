-- ===== src/Prelude/Xor.antt =====
-- Exclusive or at every width, from the recursion on binary digits that it stands for.
use Prim.Native.Nat.{
  ℕ, zero, suc, ◌+◌, ◌-◌, ◌*◌, ◌/◌, ◌%◌, ◌^◌, ◌≤◌, ◌<◌, bit_xor, digits, differ, bit_xor-bitwise,
}
use mathlib.Core.Path.{◌≡◌, refl, ap, ap₂, ◌∙◌, sym}
use native.Mathlib.Omega.{arith}
use lencode.Prelude.Pow.{pow_double, pow2_pos}

differ_bits : (x y : ℕ) → x < 2 → y < 2 → differ x y ≡ (x + y) % 2
differ_bits zero y h k = omega arith
differ_bits (suc zero) zero h k = refl
differ_bits (suc zero) (suc zero) h k = refl
differ_bits (suc zero) (suc (suc y)) h k = absurd (omega arith)
differ_bits (suc (suc x)) y h k = absurd (omega arith)

abbrev xor_digits : ℕ → ℕ → ℕ → ℕ
xor_digits n a b = digits (λ y. y) differ n a b

-- More rounds than the first number has digits change nothing.
xor_digits_rounds : (n m a b : ℕ) → a ≤ n → a ≤ m → xor_digits n a b ≡ xor_digits m a b
xor_digits_rounds n m zero b h k = xor_digits_zero n b ∙ sym (xor_digits_zero m b)
  where
    xor_digits_zero : (n b : ℕ) → xor_digits n 0 b ≡ b
    xor_digits_zero zero b = refl
    xor_digits_zero (suc n) b = refl
xor_digits_rounds zero m (suc a) b h k = absurd (omega arith)
xor_digits_rounds (suc n) zero (suc a) b h k = absurd (omega arith)
xor_digits_rounds (suc n) (suc m) (suc a) b h k =
    ap (λ t. t * 2 + differ (suc a % 2) (b % 2))
      (xor_digits_rounds n m (suc a / 2) (b / 2) (omega arith) (omega arith))

pub xor_step : (a b : ℕ) → bit_xor a b ≡ bit_xor (a / 2) (b / 2) * 2 + (a % 2 + b % 2) % 2
xor_step zero b = omega (arith, λ (y : ℕ). bit_xor-bitwise 0 y)
xor_step (suc a) b = omega (
  arith,
  bit_xor-bitwise (suc a) b,
  bit_xor-bitwise (suc a / 2) (b / 2),
  xor_digits_rounds a (suc a / 2) (suc a / 2) (b / 2) (omega arith) (omega arith),
  differ_bits (suc a % 2) (b % 2) (omega arith) (omega arith),
)

xor_zero_upto : (n a : ℕ) → a ≤ n → bit_xor a 0 ≡ a
xor_zero_upto n zero h = refl
xor_zero_upto zero (suc a) h = absurd (omega arith)
xor_zero_upto (suc n) (suc a) h =
    omega (arith, xor_step (suc a) 0, xor_zero_upto n (suc a / 2) (omega arith))

pub xor_zero : (a : ℕ) → bit_xor a 0 ≡ a
xor_zero a = xor_zero_upto a a (omega arith)

-- Exclusive or twice with the same number gives the other number back.
xor-xor_upto : (n a b : ℕ) → a ≤ n → b ≤ n → bit_xor a (bit_xor a b) ≡ b
xor-xor_upto zero a b h k =
    let ea : a ≡ 0 = omega arith in
    let eb : b ≡ 0 = omega arith in ap₂ (λ x y. bit_xor x (bit_xor x y)) ea eb ∙ sym eb
xor-xor_upto (suc n) a b h k =
    let half : bit_xor a b / 2 ≡ bit_xor (a / 2) (b / 2) = omega (arith, xor_step a b) in
    omega (
      arith,
      xor_step a (bit_xor a b),
      xor_step a b,
      ap (bit_xor (a / 2)) half,
      xor-xor_upto n (a / 2) (b / 2) (omega arith) (omega arith),
    )

pub xor-xor : (a b : ℕ) → bit_xor a (bit_xor a b) ≡ b
xor-xor a b = xor-xor_upto (a + b) a b (omega arith) (omega arith)

pub xor-lt : (w a b : ℕ) → a < 2 ^ w → b < 2 ^ w → bit_xor a b < 2 ^ w
xor-lt zero a b h k =
    let ea : a ≡ 0 = omega arith in let eb : b ≡ 0 = omega arith in omega (arith, ap₂ bit_xor ea eb)
xor-lt (suc w) a b h k = omega (
  arith,
  xor_step a b,
  pow_double w,
  xor-lt w (a / 2) (b / 2) (omega (arith, pow_double w)) (omega (arith, pow_double w)),
)

-- Exclusive or with all ones is the complement.
pub xor_ones : (w x : ℕ) → x < 2 ^ w → bit_xor x (2 ^ w - 1) ≡ 2 ^ w - 1 - x
xor_ones zero x h = let e : x ≡ 0 = omega arith in ap (λ y. bit_xor y 0) e ∙ omega arith
xor_ones (suc w) x h =
    let half : (2 ^ suc w - 1) / 2 ≡ 2 ^ w - 1 = omega (arith, pow_double w, pow2_pos w) in
    omega (
      arith,
      xor_step x (2 ^ suc w - 1),
      pow_double w,
      pow2_pos w,
      ap (bit_xor (x / 2)) half,
      xor_ones w (x / 2) (omega (arith, pow_double w)),
    )
