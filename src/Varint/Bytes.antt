-- ===== src/Varint/Bytes.antt =====
-- Little-endian bytes of a number (`to_le_bytes`, `from_le_bytes` of the Rust integers), and the
-- number of bytes that a value needs.
use lencode.Prelude.{
  ℕ, zero, suc, ◌+◌, ◌*◌, ◌/◌, ◌%◌, ◌^◌, ◌≤◌, ◌<◌, ◌≡◌, refl, ap, ◌∙◌, arith, List, [], ◌∷◌, ◌++◌,
  length, take, ◌==◌, if◌then◌else◌, inl, inr, Bool-cases, ==_iff,
}
use lencode.Prelude.Pow.{Needs, pow256-suc, pow256_pos}
use native.Mathlib.Nat.{mod-eq_of_lt, add-mul-mod_self_left}

-- The `k` low bytes of `v`, lowest first.
unfoldable pub le_bytes : ℕ → ℕ → List ℕ
le_bytes zero v = []
le_bytes (suc k) v = (v % 256) ∷ le_bytes k (v / 256)

unfoldable pub of_le : List ℕ → ℕ
of_le [] = 0
of_le (b ∷ bs) = b + 256 * of_le bs

-- The number of bytes of `v` up to the highest that is not zero, at most `k`.
unfoldable pub byte_count : ℕ → ℕ → ℕ
byte_count zero v = 0
byte_count (suc k) v = if v == 0 then 0 else suc (byte_count k (v / 256))

pub length-le_bytes : (k v : ℕ) → length (le_bytes k v) ≡ k
unfolding le_bytes
length-le_bytes zero v = refl
length-le_bytes (suc k) v = ap suc (length-le_bytes k (v / 256))

pub take-le_bytes : (n k v : ℕ) → n ≤ k → take n (le_bytes k v) ≡ le_bytes n v
unfolding le_bytes
take-le_bytes zero k v h = refl
take-le_bytes (suc n) zero v h = absurd (omega arith)
take-le_bytes (suc n) (suc k) v h =
    ap (λ t. (v % 256) ∷ t) (take-le_bytes n k (v / 256) (omega arith))

-- The bytes of a number that fits give the number back.
pub of_le-le_bytes : (k v : ℕ) → v < 256 ^ k → of_le (le_bytes k v) ≡ v
unfolding le_bytes of_le
of_le-le_bytes zero v h = omega arith
of_le-le_bytes (suc k) v h =
    omega (arith, pow256-suc k, of_le-le_bytes k (v / 256) (omega (arith, pow256-suc k)))

pub of_le-append : (xs ys : List ℕ) → of_le (xs ++ ys) ≡ of_le xs + 256 ^ length xs * of_le ys
unfolding of_le
of_le-append [] ys = omega arith
of_le-append (x ∷ xs) ys =
    omega (arith, of_le-append xs ys, ap (λ (t : ℕ). t * of_le ys) (pow256-suc (length xs)))

-- Reading `k` bytes of which the first `n` are those of `v`, and keeping `n`.
pub of_le-mod : (n v : ℕ) (more : List ℕ) → v < 256 ^ n → of_le (le_bytes n v ++ more) % 256 ^ n ≡ v
of_le-mod n v more h =
    rw (of_le-append, length-le_bytes, of_le-le_bytes n v h)
      (add-mul-mod_self_left v (256 ^ n) (of_le more) ∙ mod-eq_of_lt h)

byte_count_zero : (k : ℕ) → byte_count k 0 ≡ 0
unfolding byte_count
byte_count_zero zero = refl
byte_count_zero (suc k) = refl

-- `byte_count` is right: that many bytes hold the value, and one less does not.
pub byte_count-Needs :
    (k v : ℕ) → 0 < v → v < 256 ^ k → (n : ℕ) × (byte_count k v ≡ suc n) × Needs v n
unfolding byte_count
byte_count-Needs zero v pos h = absurd (omega arith)
byte_count-Needs (suc k) v pos h = elim (Bool-cases (v / 256 == 0)) [
  | inl small ↦ (
    0,
    ground (arith, byte_count_zero k, ap (byte_count k) ((==_iff (v / 256) 0).0 small)),
    record { fits = omega (arith, (==_iff (v / 256) 0).0 small); least = pos },
  )
  | inr large ↦
      let ne : 0 < v / 256 = ground arith in
      let (n, e, needs) = byte_count-Needs k (v / 256) ne (omega (arith, pow256-suc k)) in
      (
        suc n,
        ground (arith, e),
        record {
          fits = omega (arith, pow256-suc (suc n), needs.fits);
          least = omega (arith, pow256-suc n, needs.least);
        },
      )
]

-- The bytes that are counted hold the value.
pub byte_count_fits : (k v : ℕ) → v < 256 ^ k → v < 256 ^ byte_count k v
byte_count_fits k zero h = pow256_pos (byte_count k 0)
byte_count_fits k (suc v) h =
    let (n, e, needs) = byte_count-Needs k (suc v) (omega arith) h in rw e needs.fits

pub byte_count_pos : (k v : ℕ) → 0 < v → v < 256 ^ k → 0 < byte_count k v
byte_count_pos k v pos h = let (n, e, needs) = byte_count-Needs k v pos h in omega (arith, e)
