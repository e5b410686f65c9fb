-- ===== src/Bytes/Zstd.antt =====
-- src/bytes.rs, `zstd_compress`, `zstd_decompress` and `zstd_content_size`. The crate `zstd_safe`
-- is a parameter.
use lencode.Prelude.{ℕ, ◌≤◌, ◌<◌, ◌≡◌, ◌==◌, if◌then◌else◌, Option, none, some, List, length}
use lencode.Io.{Result, ok, err, invalid_data, incorrect_length}

-- The calls of `zstd_safe`: `compress xs` is what the compressor writes into a buffer of
-- `compress_bound(xs.len())` bytes, and `decompress n c` what the decompressor writes into one of
-- `n` bytes; `content_size` is the size that a frame declares; `none` is an error code, or no size.
pub record Zstd : Type 0 where
  pub compress : List ℕ → Option (List ℕ)
  pub decompress : ℕ → List ℕ → Option (List ℕ)
  pub content_size : List ℕ → Option ℕ

-- What the library documents: what it compressed, it decompresses into a buffer of the size, or a
-- larger one; a frame is not empty, and one call's frame declares the size of its content.
pub record ZstdLaws (Z : Zstd) : Type 0 where
  pub decompress-compress :
      (xs c : List ℕ) (n : ℕ) → Z.compress xs ≡ some c → length xs ≤ n → Z.decompress n c ≡ some xs
  pub content_size-compress :
      (xs c : List ℕ) → Z.compress xs ≡ some c → Z.content_size c ≡ some (length xs)
  pub length-compress_pos : (xs c : List ℕ) → Z.compress xs ≡ some c → 0 < length c

module _ (Z : Zstd) where
  unfoldable pub zstd_compress : List ℕ → Result (List ℕ)
  zstd_compress input = elim (Z.compress input) [ none ↦ err invalid_data | some out ↦ ok out ]

  unfoldable pub zstd_decompress : List ℕ → ℕ → Result (List ℕ)
  zstd_decompress compressed original_len = elim (Z.decompress original_len compressed) [
    | none ↦ err invalid_data
    | some out ↦ if length out == original_len then ok out else err incorrect_length
  ]

  unfoldable pub zstd_content_size : List ℕ → Result ℕ
  zstd_content_size compressed = elim (Z.content_size compressed) [
    | none ↦ err invalid_data
    | some n ↦ ok n
  ]
