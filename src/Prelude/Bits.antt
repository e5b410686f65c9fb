-- ===== src/Prelude/Bits.antt =====
-- The bit operations as arithmetic: tables for the masks on one byte, and the digit recursion for
-- `^` at every width.
use Prim.Native.Nat.{ℕ, zero, suc, ◌+◌, ◌*◌, ◌/◌, ◌%◌, ◌<◌, bit_and, bit_or}
use mathlib.Core.Path.{◌≡◌, refl}
use mathlib.Core.Bool.{Bool, true, ◌&&◌}
use native.Mathlib.Omega.{arith}
use lencode.Prelude.Tests.{◌==◌}

holds_below : ℕ → (ℕ → Bool) → Bool
holds_below zero p = true
holds_below (suc n) p = p n && holds_below n p

holds_below→eq :
    (n : ℕ) (f g : ℕ → ℕ) → holds_below n (λ i. f i == g i) ≡ true → (i : ℕ) → i < n → f i ≡ g i
unfolding holds_below
holds_below→eq zero f g h i lt = absurd (omega arith)
holds_below→eq (suc n) f g h i lt = ground (arith, holds_below→eq n f g (ground arith) i)

-- `b & 0x7F` keeps the low seven bits of a byte.
pub low_seven : (b : ℕ) → b < 256 → bit_and b 0x7f ≡ b % 128
unfolding holds_below
low_seven = holds_below→eq 256 (λ b. bit_and b 0x7f) (λ b. b % 128) refl

-- `b & 0x80` keeps the top bit of a byte.
pub top_bit : (b : ℕ) → b < 256 → bit_and b 0x80 ≡ b / 128 * 128
unfolding holds_below
top_bit = holds_below→eq 256 (λ b. bit_and b 0x80) (λ b. b / 128 * 128) refl

-- `0x80 | b` sets the top bit.
pub with_top_bit : (b : ℕ) → b < 128 → bit_or 0x80 b ≡ 128 + b
unfolding holds_below
with_top_bit = holds_below→eq 128 (λ b. bit_or 0x80 b) (λ b. 128 + b) refl
