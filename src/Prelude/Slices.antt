-- ===== src/Prelude/Slices.antt =====
-- Slices `xs[a..b]`, and how neighbouring ones join.
use Prim.Native.Nat.{ℕ, zero, suc, ◌-◌, ◌≤◌}
use mathlib.Core.Path.{◌≡◌, refl, sym, ap, ◌∙◌}
use mathlib.Core.List.{List, [], ◌∷◌, ◌++◌}
use native.Mathlib.Omega.{arith}
use lencode.Prelude.Lists.{length, take, drop, length-take, length-drop, take_all}

module _ {ℓ} {A : Type ℓ} where
  abbrev pub slice : ℕ → ℕ → List A → List A
  slice a b xs = drop a (take b xs)

  pub take-slice : (b c : ℕ) (xs : List A) → b ≤ c → take b xs ++ slice b c xs ≡ take c xs
  take-slice zero c xs h = refl
  take-slice (suc b) zero xs h = absurd (omega arith)
  take-slice (suc b) (suc c) [] h = refl
  take-slice (suc b) (suc c) (x ∷ xs) h = ap (λ t. x ∷ t) (take-slice b c xs (omega arith))

  pub slice-join :
      (a b c : ℕ) (xs : List A) → a ≤ b → b ≤ c → slice a b xs ++ slice b c xs ≡ slice a c xs
  slice-join zero b c xs h k = take-slice b c xs k
  slice-join (suc a) zero c xs h k = absurd (omega arith)
  slice-join (suc a) (suc b) zero xs h k = absurd (omega arith)
  slice-join (suc a) (suc b) (suc c) [] h k = refl
  slice-join (suc a) (suc b) (suc c) (x ∷ xs) h k = slice-join a b c xs (omega arith) (omega arith)

  pub length-slice : (a b : ℕ) (xs : List A) → b ≤ length xs → length (slice a b xs) ≡ b - a
  length-slice a b xs h = omega (arith, length-drop a (take b xs), length-take b xs h)

  pub slice_to_end : (a b : ℕ) (xs : List A) → length xs ≤ b → slice a b xs ≡ drop a xs
  slice_to_end a b xs h = ap (drop a) (take_all b xs h)

  pub slice_empty : (a b : ℕ) (xs : List A) → b ≤ a → slice a b xs ≡ []
  slice_empty zero zero xs h = refl
  slice_empty zero (suc b) xs h = absurd (omega arith)
  slice_empty (suc a) zero xs h = refl
  slice_empty (suc a) (suc b) [] h = refl
  slice_empty (suc a) (suc b) (x ∷ xs) h = slice_empty a b xs (omega arith)

  -- The head of a suffix is the next element of a slice that ends there.
  pub slice_head :
      (i : ℕ) (x : A) (xs ys : List A)
      → drop i xs ≡ x ∷ ys
      → (slice i (suc i) xs ≡ x ∷ []) × (drop (suc i) xs ≡ ys) × (suc i ≤ length xs)
  slice_head zero x [] ys h = cc
  slice_head zero x (z ∷ xs) ys h = (ap (take 1) h, ap (drop 1) h, omega arith)
  slice_head (suc i) x [] ys h = cc
  slice_head (suc i) x (z ∷ xs) ys h = let (a, b, c) = slice_head i x xs ys h in (a, b, omega arith)

  -- A slice grows by the head of what follows it.
  pub slice_snoc :
      (c i : ℕ) (x : A) (xs ys : List A)
      → c ≤ i
      → drop i xs ≡ x ∷ ys
      → slice c (suc i) xs ≡ slice c i xs ++ (x ∷ [])
  slice_snoc c i x xs ys h e =
      let (a, b, k) = slice_head i x xs ys e in
      sym (slice-join c i (suc i) xs h (omega arith)) ∙ ap (λ t. slice c i xs ++ t) a

  -- Where the suffix is empty, the list ends.
  pub drop_nil-le : (i : ℕ) (xs : List A) → drop i xs ≡ [] → length xs ≤ i
  drop_nil-le i xs h = omega (arith, length-drop i xs, ap length h)
