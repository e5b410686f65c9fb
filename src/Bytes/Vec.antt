-- ===== src/Bytes/Vec.antt =====
-- src/lib.rs, `Encode` and `Decode` for `Vec<u8>` without a difference encoder: a header of the
-- payload's length and a flag, and the payload, compressed if that is shorter.
use lencode.Prelude.{
  ℕ, zero, suc, ◌+◌, ◌-◌, ◌/◌, ◌%◌, ◌^◌, leb, ltb, ◌==◌, if◌then◌else◌, Bool, true, false, not,
  ◌&&◌, Option, none, some, List, [], ◌++◌, length, take,
}
use lencode.Io.{
  M, Result, ok, err, fault, endless_loop, pure, throw, crash, ◌>>=◌, ◌⊕◌, Read, Write,
}
use lencode.Varint.Fixed.{encode_varint_u64, decode_varint_u64}
use lencode.Bytes.Zstd.{Zstd, zstd_compress, zstd_decompress, zstd_content_size}
use lencode.Bytes.Header.{flagged, flagged_header_len, min_compress_len, looks_incompressible}

-- The compressed payload, if the code tries and it is shorter with its header.
abbrev pub if_shorter : ℕ → Result (List ℕ) → Result (Option (List ℕ))
if_shorter raw_len (ok compressed) =
    if ltb (length compressed + flagged_header_len (length compressed) true)
      (raw_len + flagged_header_len raw_len false)
    then ok (some compressed)
    else ok none
if_shorter raw_len (err e) = err e
if_shorter raw_len (fault x) = fault x

unfoldable pub compressed_payload : Zstd → List ℕ → Result (Option (List ℕ))
unfolding looks_incompressible zstd_compress flagged_header_len
compressed_payload Z bytes =
    if leb min_compress_len (length bytes) && not (looks_incompressible bytes)
    then if_shorter (length bytes) (zstd_compress Z bytes)
    else ok none

module _ {W : Type 0} ⦃io : Write W⦄ where
  -- `encode_len` of the flagged length, and the payload.
  unfoldable pub write_payload : Bool → List ℕ → M W ℕ
  unfolding flagged
  write_payload compressed payload =
      encode_varint_u64 (flagged (length payload) compressed) ⊕ io.write payload

  abbrev pub write_chosen : List ℕ → Result (Option (List ℕ)) → M W ℕ
  write_chosen bytes (ok (some compressed)) = write_payload true compressed
  write_chosen bytes (ok none) = write_payload false bytes
  write_chosen bytes (err e) = throw e
  write_chosen bytes (fault x) = crash x

  unfoldable pub encode_bytes : Zstd → List ℕ → M W ℕ
  unfolding compressed_payload write_payload
  encode_bytes Z bytes = write_chosen bytes (compressed_payload Z bytes)

module _ {R : Type 0} ⦃io : Read R⦄ where
  -- `while read < payload_len { read += reader.read(&mut out[read..])?; }`: what is left to read.
  -- Each round that reads something leaves less, so `left` rounds are enough; a reader that keeps
  -- answering with nothing holds the loop for ever.
  unfoldable pub read_loop : ℕ → ℕ → M R (List ℕ)
  read_loop zero left = if left == 0 then pure [] else crash endless_loop
  read_loop (suc fuel) left =
      if left == 0
      then pure []
      else (io.read left >>= λ got.
          read_loop fuel (left - length got) >>= λ rest. pure (got ++ rest))

  abbrev pub lifted : {A : Type 0} → Result A → M R A
  lifted (ok a) = pure a
  lifted (err e) = throw e
  lifted (fault x) = crash x

  -- `zstd_content_size`, then `zstd_decompress` to that size.
  unfoldable pub decompressed : Zstd → List ℕ → M R (List ℕ)
  unfolding zstd_content_size zstd_decompress
  decompressed Z comp =
      lifted (zstd_content_size Z comp) >>= λ orig_len. lifted (zstd_decompress Z comp orig_len)

  -- A payload, handed on before the reader passes over it where it is lent.
  unfoldable pub with_payload : ℕ → (List ℕ → M R (List ℕ)) → M R (List ℕ)
  unfolding read_loop
  with_payload payload_len use_payload = do
    slice ← io.buf
    elim slice [
      | some s ↦
          if leb payload_len (length s)
          then (use_payload (take payload_len s) >>= λ out r. (io.advance payload_len r, ok out))
          else (read_loop payload_len payload_len >>= use_payload)
      | none ↦ read_loop payload_len payload_len >>= use_payload
    ]

  -- `flagged & 1` is `flagged % 2`.
  unfoldable pub decode_bytes : Zstd → M R (List ℕ)
  unfolding decompressed with_payload
  decode_bytes Z = decode_varint_u64 >>= λ header.
      if header % 2 == 1
      then with_payload (header / 2 ^ 1) (decompressed Z)
      else with_payload (header / 2 ^ 1) pure
