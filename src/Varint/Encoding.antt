-- ===== src/Varint/Encoding.antt =====
-- The wire format of src/varint/lencode.rs, in plain arithmetic: the specification of the encoders.
use lencode.Prelude.{
  ℕ, suc, ◌+◌, ◌^◌, ◌≤◌, ◌<◌, ◌≡◌, sym, ap, ◌∙◌, arith, ltb, inl, inr, Bool-cases, tests,
  if◌then◌else◌, List, [], ◌∷◌, length, lt→ltb, le→ltb,
}
use lencode.Prelude.Pow.{Needs-unique}
use lencode.Varint.Bytes.{le_bytes, byte_count, byte_count-Needs, length-le_bytes}
use lencode.Varint.Payload.{byte_count-le}

-- A value up to 127 is its own byte. A larger one is a byte with the top bit set over the number
-- of its bytes, and those bytes, lowest first.
unfoldable pub encoding : ℕ → ℕ → List ℕ
encoding k v = let n = byte_count k v in if ltb v 128 then v ∷ [] else (128 + n) ∷ le_bytes n v

pub encoding_small : (k v : ℕ) → v < 128 → encoding k v ≡ v ∷ []
unfolding encoding
encoding_small k v h = rw (lt→ltb v 128 h)

pub encoding_large :
    (k v : ℕ) → 128 ≤ v → encoding k v ≡ (128 + byte_count k v) ∷ le_bytes (byte_count k v) v
unfolding encoding
encoding_large k v h = rw (le→ltb v 128 h)

pub length-encoding_pos : (k v : ℕ) → 0 < length (encoding k v)
unfolding encoding
length-encoding_pos k v = ground arith

pub length-encoding_large : (k v : ℕ) → 128 ≤ v → length (encoding k v) ≡ suc (byte_count k v)
length-encoding_large k v h =
    rw (encoding_large k v h) (ap suc (length-le_bytes (byte_count k v) v))

-- An encoding takes one byte more than the integer at most.
pub length-encoding-le : (k v : ℕ) → length (encoding k v) ≤ k + 1
length-encoding-le k v = elim (Bool-cases (ltb v 128)) [
  | inl small ↦ rw (encoding_small k v (omega tests)) (omega arith)
  | inr large ↦ omega (arith, length-encoding_large k v (omega tests), byte_count-le k v)
]

byte_count_width : (k l v : ℕ) → 0 < v → v < 256 ^ k → v < 256 ^ l → byte_count k v ≡ byte_count l v
byte_count_width k l v pos hk hl =
    let (n, e, p) = byte_count-Needs k v pos hk in
    let (m, f, q) = byte_count-Needs l v pos hl in e ∙ ap suc (Needs-unique v n m p q) ∙ sym f

-- The bytes of a value do not depend on the width of its type.
pub encoding_width : (k l v : ℕ) → v < 256 ^ k → v < 256 ^ l → encoding k v ≡ encoding l v
encoding_width k l v hk hl = elim (Bool-cases (ltb v 128)) [
  | inl small ↦ encoding_small k v (omega tests) ∙ sym (encoding_small l v (omega tests))
  | inr large ↦ rw (
    encoding_large k v (omega tests),
    encoding_large l v (omega tests),
    byte_count_width k l v (omega tests) hk hl,
  )
]
