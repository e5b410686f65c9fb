-- ===== src/Bytes/Packed.antt =====
-- The bytes for a `Vec<u8>` (src/lib.rs): a flagged length, and the payload as it is or compressed.
use lencode.Prelude.{
  ℕ, ◌+◌, ◌*◌, ◌%◌, ◌^◌, ◌≤◌, ◌<◌, ◌≡◌, refl, ap, ◌∙◌, arith, tests, leb, ltb, Bool, true, false,
  not, ◌&&◌, Bool-cases, inl, inr, Option, none, some, List, ◌++◌, length, length-append,
}
use lencode.Io.{ok}
use lencode.Varint.Encoding.{encoding, length-encoding-le}
use lencode.Bytes.Zstd.{Zstd, zstd_compress}
use lencode.Bytes.Header.{
  flag, flagged, flagged_header_len, varint_len_usize, varint_len_usize-encoding, min_compress_len,
  looks_incompressible,
}
use lencode.Bytes.Vec.{if_shorter, compressed_payload}

-- A flag and a payload.
abbrev pub payload_bytes : Bool → List ℕ → List ℕ
payload_bytes compressed payload = encoding 8 (length payload * 2 + flag compressed) ++ payload

-- The bytes for a vector, with its compressed payload if that was chosen.
abbrev pub packed_as : List ℕ → Option (List ℕ) → List ℕ
packed_as bytes none = payload_bytes false bytes
packed_as bytes (some compressed) = payload_bytes true compressed

pub flagged_lem : (n : ℕ) (c : Bool) → n < 2 ^ 63 → flagged n c ≡ n * 2 + flag c
unfolding flagged
flagged_lem n c h = let e : n * 2 % 2 ^ 64 ≡ n * 2 = omega arith in ap (λ k. k + flag c) e

pub flag-le : (c : Bool) → flag c ≤ 1
flag-le true = omega arith
flag-le false = omega arith

-- `flagged_header_len` is the length of the header that is written.
pub flagged_header_len-encoding :
    (n : ℕ) (c : Bool) → n < 2 ^ 63 → flagged_header_len n c ≡ length (encoding 8 (n * 2 + flag c))
unfolding flagged_header_len
flagged_header_len-encoding n c h =
    varint_len_usize-encoding (flagged n c) ∙ ap (λ v. length (encoding 8 v)) (flagged_lem n c h)

header_pos : (n : ℕ) (c : Bool) → 0 < flagged_header_len n c
unfolding flagged_header_len varint_len_usize
header_pos n c = ground arith

-- A compressed payload that was chosen is that of the compressor, and shorter with its header.
pub chosen_lem :
    (Z : Zstd) (bytes compressed : List ℕ)
    → compressed_payload Z bytes ≡ ok (some compressed)
    → (Z.compress bytes ≡ some compressed)
      × (length compressed + flagged_header_len (length compressed) true
          < length bytes + flagged_header_len (length bytes) false)
unfolding compressed_payload zstd_compress
chosen_lem Z bytes compressed h =
    elim (Bool-cases (leb min_compress_len (length bytes) && not (looks_incompressible bytes))) [
      | inl tried ↦ go (Z.compress bytes) refl (rw tried at h)
      | inr untried ↦ cc (rw untried at h)
    ]
  where
    shorter :
        (c : List ℕ)
        → if_shorter (length bytes) (ok c) ≡ ok (some compressed)
        → (c ≡ compressed)
          × (length c + flagged_header_len (length c) true
              < length bytes + flagged_header_len (length bytes) false)
    shorter c k =
        elim (Bool-cases (
          ltb (length c + flagged_header_len (length c) true)
            (length bytes + flagged_header_len (length bytes) false))) [
              | inl less ↦
                  (let e : ok (some c) ≡ ok (some compressed) = rw less at k in cc e, omega tests)
              | inr more ↦ cc (rw more at k)
            ]

    go :
        (o : Option (List ℕ))
        → Z.compress bytes ≡ o
        → if_shorter (length bytes) (zstd_compress Z bytes) ≡ ok (some compressed)
        → (Z.compress bytes ≡ some compressed)
          × (length compressed + flagged_header_len (length compressed) true
              < length bytes + flagged_header_len (length bytes) false)
    go none e k = cc (rw (e, zstd_compress) at k)
    go (some c) e k =
        let (same, less) = shorter c (rw (e, zstd_compress) at k) in
        (e ∙ ap some same, rw same at less)

-- Its length has 63 bits, as that of the vector does.
pub length-chosen :
    (Z : Zstd) (bytes compressed : List ℕ)
    → length bytes + 9 < 2 ^ 63
    → compressed_payload Z bytes ≡ ok (some compressed)
    → length compressed < 2 ^ 63
length-chosen Z bytes compressed h chosen =
    let (is, less) = chosen_lem Z bytes compressed chosen in
    omega (
      arith,
      flagged_header_len-encoding (length bytes) false (omega arith),
      length-encoding-le 8 (length bytes * 2 + 0),
    )

-- If the compressor does not fail, and `length bytes + 9 < 2 ^ 63`, the bytes for a vector are no
-- more than its header and the vector as it is.
pub length-packed_as-le :
    (Z : Zstd) (bytes : List ℕ) (o : Option (List ℕ))
    → length bytes + 9 < 2 ^ 63
    → compressed_payload Z bytes ≡ ok o
    → length (packed_as bytes o) ≤ length (payload_bytes false bytes)
length-packed_as-le Z bytes none h chosen = omega arith
length-packed_as-le Z bytes (some compressed) h chosen =
    let (is, less) = chosen_lem Z bytes compressed chosen in
    omega (
      arith,
      flagged_header_len-encoding (length bytes) false (omega arith),
      flagged_header_len-encoding (length compressed) true
          (length-chosen Z bytes compressed h chosen),
      length-append (encoding 8 (length bytes * 2 + 0)) bytes,
      length-append (encoding 8 (length compressed * 2 + 1)) compressed,
    )
