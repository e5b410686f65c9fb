-- ===== src/Bytes/Header.antt =====
-- src/bytes.rs: the length of a flagged header, and the entropy check.
use lencode.Prelude.{
  ℕ, zero, suc, ◌+◌, ◌*◌, ◌/◌, ◌%◌, ◌^◌, ◌≡◌, refl, ap, sym, arith, tests, leb, ltb, ◌==◌,
  if◌then◌else◌, Bool, true, false, Bool-cases, inl, inr, List, [], ◌∷◌, length, take, min, bit_or,
}
use lencode.Varint.Encoding.{encoding, encoding_small, length-encoding_large}
use lencode.Varint.{byte_count}

-- `while val != 0 { n += 1; val >>= 8; }`, at most `fuel` rounds: a `usize` needs eight.
unfoldable pub count_bytes : ℕ → ℕ → ℕ
count_bytes zero val = 0
count_bytes (suc fuel) val = let n = count_bytes fuel (val / 2 ^ 8) in if val == 0 then 0 else suc n

unfoldable pub varint_len_usize : ℕ → ℕ
unfolding count_bytes
varint_len_usize val = if leb val 127 then 1 else 1 + count_bytes 8 val

abbrev pub flag : Bool → ℕ
flag false = 0
flag true = 1

-- `(payload_len << 1) | (compressed as usize)`: the shifted number is even.
unfoldable pub flagged : ℕ → Bool → ℕ
flagged payload_len compressed = payload_len * 2 % 2 ^ 64 + flag compressed

unfoldable pub flagged_header_len : ℕ → Bool → ℕ
unfolding varint_len_usize flagged
flagged_header_len payload_len compressed = varint_len_usize (flagged payload_len compressed)

-- `MIN_COMPRESS_LEN`
abbrev pub min_compress_len : ℕ
min_compress_len = 64

-- `bits[word] |= mask`
unfoldable pub set_word : List ℕ → ℕ → ℕ → List ℕ
set_word [] word mask = []
set_word (b ∷ bits) zero mask = bit_or b mask ∷ bits
set_word (b ∷ bits) (suc word) mask = b ∷ set_word bits word mask

-- The bitmap of the sampled bytes.
unfoldable pub mark : List ℕ → List ℕ → List ℕ
unfolding set_word
mark bits [] = bits
mark bits (b ∷ sample) = mark (set_word bits (b / 2 ^ 6) (2 ^ (b % 64))) sample

-- `count_ones` of a number of `w` bits.
unfoldable pub count_ones : ℕ → ℕ → ℕ
count_ones zero bits = 0
count_ones (suc w) bits = bits % 2 + count_ones w (bits / 2)

unfoldable pub total_ones : List ℕ → ℕ
unfolding count_ones
total_ones [] = 0
total_ones (b ∷ bits) = count_ones 64 b + total_ones bits

unfoldable pub looks_incompressible : List ℕ → Bool
unfolding mark total_ones
looks_incompressible bytes =
    let sample_len = min (length bytes) 32 in
    let bits = mark (0 ∷ 0 ∷ 0 ∷ 0 ∷ []) (take sample_len bytes) in
    if ltb sample_len 32 then false else leb 28 (total_ones bits)

count_bytes_lem : (k v : ℕ) → count_bytes k v ≡ byte_count k v
unfolding count_bytes byte_count
count_bytes_lem zero v = refl
count_bytes_lem (suc k) v = rw (count_bytes_lem k (v / 256)) refl

-- `varint_len_usize` counts the bytes of the encoding.
pub varint_len_usize-encoding : (v : ℕ) → varint_len_usize v ≡ length (encoding 8 v)
unfolding varint_len_usize
varint_len_usize-encoding v = elim (Bool-cases (leb v 127)) [
  | inl small ↦ rw small (sym (ap length (encoding_small 8 v (omega tests))))
  | inr large ↦
      rw large (omega (arith, count_bytes_lem 8 v, length-encoding_large 8 v (omega tests)))
]
