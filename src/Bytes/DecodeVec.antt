-- ===== src/Bytes/DecodeVec.antt =====
-- `Decode` for `Vec<u8>` of src/lib.rs reads the vector back from its bytes.
use lencode.Prelude.{
  ℕ, ◌+◌, ◌*◌, ◌/◌, ◌%◌, ◌^◌, ◌≤◌, ◌<◌, ◌≡◌, refl, sym, ap, ◌∙◌, arith, le→leb, ◌==◌, eq→==,
  if◌then◌else◌, Bool, true, false, inl, inr, Option, none, some, List, ◌++◌, length, drop,
  take-append, drop-append, length-append, append_assoc,
}
use mathlib.Core.Path.{subst}
use lencode.Io.{M, ok, pure, ◌>>=◌, Read, ReadLaws, Reads}
use lencode.Io.Context.{Reads-bind}
use lencode.Varint.Fixed.{decode_varint_u64}
use lencode.Varint.Encoding.{encoding}
use lencode.Varint.Decode.{decode_word-Reads}
use lencode.Bytes.Zstd.{Zstd, ZstdLaws, zstd_decompress, zstd_content_size}
use lencode.Bytes.Header.{flag}
use lencode.Bytes.Vec.{compressed_payload, read_loop, decompressed, with_payload, decode_bytes}
use lencode.Bytes.ReadLoop.{whole_reads, read_loop-Fills}
use lencode.Bytes.Packed.{payload_bytes, packed_as, flag-le, chosen_lem, length-chosen}

module _ {R : Type 0} ⦃io : Read R⦄ (laws : ReadLaws io) where
  -- The loop at a reader that answers with all that a call asks for.
  pub read_loop-Reads :
      (payload rest : List ℕ) (r : R)
      → laws.IsValid r
      → laws.remaining r ≡ payload ++ rest
      → Reads laws (read_loop (length payload) (length payload)) r payload rest
  read_loop-Reads payload rest r valid e =
      read_loop-Fills (whole_reads laws) (length payload) payload rest r (omega arith) valid e

  -- A payload is handed on whole, and passed over.
  with_payload-Reads :
      (payload rest out : List ℕ) (use_payload : List ℕ → M R (List ℕ)) (r : R)
      → ((r' : R) → use_payload payload r' ≡ (r', ok out))
      → laws.IsValid r
      → laws.remaining r ≡ payload ++ rest
      → Reads laws (with_payload (length payload) use_payload) r out rest
  unfolding with_payload
  with_payload-Reads payload rest out use_payload r works valid e = elim (laws.buf_lem r valid) [
    | inl unlent ↦ rw unlent (
        Reads-bind laws (read_loop (length payload) (length payload)) use_payload r payload out rest
          rest (read_loop-Reads payload rest r valid e)
          (λ r' valid' left. (r', works r', valid', left)))
    | inr lent ↦
        let fits : length payload ≤ length (payload ++ rest) =
          omega (arith, length-append payload rest) in
        let (valid', left) =
          laws.advance_lem r (length payload) valid (omega (arith, ap length e)) lent in
        (
          io.advance (length payload) r,
          rw
              (
                lent,
                e,
                le→leb (length payload) (length (payload ++ rest)) fits,
                take-append payload rest,
                works r,
              )
              refl,
          valid',
          left ∙ ap (drop (length payload)) e ∙ drop-append payload rest,
        )
  ]

  -- A flagged length, and the payload, which `pay` fetches.
  abbrev pub flagged_by : (ℕ → (List ℕ → M R (List ℕ)) → M R (List ℕ)) → Zstd → M R (List ℕ)
  flagged_by pay Z = decode_varint_u64 >>= λ header.
      if header % 2 == 1 then pay (header / 2 ^ 1) (decompressed Z) else pay (header / 2 ^ 1) pure

  -- `pay` hands a payload on whole, and passes over it.
  abbrev pub Fetches : (ℕ → (List ℕ → M R (List ℕ)) → M R (List ℕ)) → Type 0
  Fetches pay =
      (payload rest out : List ℕ) (use_payload : List ℕ → M R (List ℕ)) (r : R)
      → ((r' : R) → use_payload payload r' ≡ (r', ok out))
      → laws.IsValid r
      → laws.remaining r ≡ payload ++ rest
      → Reads laws (pay (length payload) use_payload) r out rest

  -- The header says which way the payload goes.
  after_header :
      (pay : ℕ → (List ℕ → M R (List ℕ)) → M R (List ℕ)) (Z : Zstd) (c : Bool)
      (payload rest out : List ℕ) (r : R)
      → Fetches pay
      → ((r' : R) → (if c then decompressed Z else pure) payload r' ≡ (r', ok out))
      → length payload < 2 ^ 63
      → laws.IsValid r
      → laws.remaining r ≡ payload_bytes c payload ++ rest
      → Reads laws (flagged_by pay Z) r out rest
  unfolding decode_varint_u64
  after_header pay Z c payload rest out r fetches works small valid e =
      let v = length payload * 2 + flag c in
      Reads-bind laws decode_varint_u64
        (λ header.
          if header % 2 == 1
          then pay (header / 2 ^ 1) (decompressed Z)
          else pay (header / 2 ^ 1) pure)
        r v out (payload ++ rest) rest
        (decode_word-Reads laws 8 v (payload ++ rest) r (omega arith) (omega (arith, flag-le c))
          valid (e ∙ append_assoc (encoding 8 v) payload rest))
        (λ r' valid' left.
          subst
            (λ n.
              Reads laws
                (if (length payload * 2 + flag c) % 2 == 1
                  then pay n (decompressed Z)
                  else pay n pure)
                r' out rest)
            (sym half) (go c r' works valid' left))
    where
      half : (length payload * 2 + flag c) / 2 ^ 1 ≡ length payload
      half = omega (arith, flag-le c)

      go :
          (c : Bool) (r' : R)
          → ((r' : R) → (if c then decompressed Z else pure) payload r' ≡ (r', ok out))
          → laws.IsValid r'
          → laws.remaining r' ≡ payload ++ rest
          → Reads laws
              (if (length payload * 2 + flag c) % 2 == 1
                then pay (length payload) (decompressed Z)
                else pay (length payload) pure)
              r'
              out
              rest
      go true r' works valid' left =
          let odd : (length payload * 2 + 1) % 2 == 1 ≡ true = eq→== _ 1 (omega arith) in
          rw odd (fetches payload rest out (decompressed Z) r' works valid' left)
      go false r' works valid' left =
          let even : (length payload * 2 + 0) % 2 ≡ 0 = omega arith in
          rw even (fetches payload rest out pure r' works valid' left)

  decompressed_lem :
      (Z : Zstd) (zstd : ZstdLaws Z) (bytes compressed : List ℕ) (r : R)
      → Z.compress bytes ≡ some compressed
      → decompressed Z compressed r ≡ (r, ok bytes)
  unfolding decompressed zstd_content_size zstd_decompress
  decompressed_lem Z zstd bytes compressed r h =
      let size : zstd_content_size Z compressed ≡ ok (length bytes) =
        rw (zstd.content_size-compress bytes compressed h, zstd_content_size) refl in
      let back : zstd_decompress Z compressed (length bytes) ≡ ok bytes =
        rw
          (
            zstd.decompress-compress bytes compressed (length bytes) h (omega arith),
            zstd_decompress,
            eq→== (length bytes) (length bytes) refl,
          )
          refl in
      rw (size, back) refl

  pub flagged_by-Reads :
      (pay : ℕ → (List ℕ → M R (List ℕ)) → M R (List ℕ)) (Z : Zstd) (zstd : ZstdLaws Z)
      (bytes : List ℕ) (o : Option (List ℕ)) (rest : List ℕ) (r : R)
      → Fetches pay
      → compressed_payload Z bytes ≡ ok o
      → length bytes + 9 < 2 ^ 63
      → laws.IsValid r
      → laws.remaining r ≡ packed_as bytes o ++ rest
      → Reads laws (flagged_by pay Z) r bytes rest
  flagged_by-Reads pay Z zstd bytes none rest r fetches chosen small valid e =
      after_header pay Z false bytes rest bytes r fetches (λ r'. refl) (omega arith) valid e
  flagged_by-Reads pay Z zstd bytes (some compressed) rest r fetches chosen small valid e =
      let (is, less) = chosen_lem Z bytes compressed chosen in
      after_header pay Z true compressed rest bytes r fetches
        (λ r'. decompressed_lem Z zstd bytes compressed r' is)
        (length-chosen Z bytes compressed small chosen) valid e

  -- With a `zstd` that decompresses what it compressed, and from a valid reader whose next bytes
  -- are those for a vector with `length bytes + 9 < 2 ^ 63`, compressed or not, `decode_ext` at
  -- `Vec<u8>` returns the vector and leaves what follows.
  pub decode_bytes-Reads :
      (Z : Zstd) (zstd : ZstdLaws Z) (bytes : List ℕ) (o : Option (List ℕ)) (rest : List ℕ) (r : R)
      → compressed_payload Z bytes ≡ ok o
      → length bytes + 9 < 2 ^ 63
      → laws.IsValid r
      → laws.remaining r ≡ packed_as bytes o ++ rest
      → Reads laws (decode_bytes Z) r bytes rest
  unfolding decode_bytes
  decode_bytes-Reads Z zstd bytes o rest r chosen small valid e =
      flagged_by-Reads with_payload Z zstd bytes o rest r
        (λ payload rest out use_payload r works valid e.
          with_payload-Reads payload rest out use_payload r works valid e)
        chosen small valid e

  -- The payload by the loop alone.
  pub looped-Reads : Fetches (λ n use_payload. read_loop n n >>= use_payload)
  looped-Reads payload rest out use_payload r works valid e =
      Reads-bind laws (read_loop (length payload) (length payload)) use_payload r payload out rest
        rest (read_loop-Reads payload rest r valid e)
        (λ r' valid' left. (r', works r', valid', left))
