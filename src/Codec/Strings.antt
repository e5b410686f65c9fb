-- ===== src/Codec/Strings.antt =====
-- src/lib.rs, `Encode` for `&str` and `String` and `Decode` for `String`: the bytes in UTF-8,
-- behind a flagged length as those of `Vec<u8>`.
use lencode.Prelude.{ℕ, leb, ltb, ◌==◌, if◌then◌else◌, Bool, true, false, ◌&&◌, List, [], ◌∷◌}
use lencode.Io.{M, Read, Write, pure, throw, ◌>>=◌, invalid_data}
use lencode.Bytes.Zstd.{Zstd}
use lencode.Bytes.Vec.{encode_bytes, decode_bytes}
use lencode.Codec.Plain.{Plain}

-- What may follow in UTF-8: a character, or a number of continuation bytes, the first of them in a
-- narrower range behind the leading bytes `E0`, `ED`, `F0` and `F4`.
pub data Expected : Type 0 where
  char one two three : Expected
  behind_e0 behind_ed behind_f0 behind_f4 : Expected
  nothing : Expected

abbrev within_range : ℕ → ℕ → ℕ → Bool
within_range low high byte = leb low byte && leb byte high

abbrev if_in : ℕ → ℕ → Expected → ℕ → Expected
if_in low high next byte = if within_range low high byte then next else nothing

-- A leading byte.
abbrev leading : ℕ → Expected
leading byte =
    if ltb byte 0x80
    then char
    else if within_range 0xc2 0xdf byte
    then one
    else if byte == 0xe0
    then behind_e0
    else if byte == 0xed
    then behind_ed
    else if within_range 0xe1 0xef byte
    then two
    else if byte == 0xf0
    then behind_f0
    else if within_range 0xf1 0xf3 byte
    then three
    else if byte == 0xf4
    then behind_f4
    else nothing

unfoldable pub next_expected : Expected → ℕ → Expected
next_expected char byte = leading byte
next_expected one byte = if_in 0x80 0xbf char byte
next_expected two byte = if_in 0x80 0xbf one byte
next_expected three byte = if_in 0x80 0xbf two byte
next_expected behind_e0 byte = if_in 0xa0 0xbf one byte
next_expected behind_ed byte = if_in 0x80 0x9f one byte
next_expected behind_f0 byte = if_in 0x90 0xbf two byte
next_expected behind_f4 byte = if_in 0x80 0x8f two byte
next_expected nothing byte = nothing

abbrev at_char : Expected → Bool
at_char char = true
at_char expected = false

unfoldable pub utf8_from : Expected → List ℕ → Bool
unfolding next_expected
utf8_from expected [] = at_char expected
utf8_from expected (byte ∷ bytes) = utf8_from (next_expected expected byte) bytes

-- `String::from_utf8` of the standard library succeeds.
unfoldable pub is_utf8 : List ℕ → Bool
unfolding utf8_from
is_utf8 bytes = utf8_from char bytes

module _ (Z : Zstd) where
  -- A string is its bytes. The context is not used.
  unfoldable pub encode_str : {W : Type 0} ⦃io : Write W⦄ → List ℕ → M W ℕ
  encode_str bytes = encode_bytes Z bytes

  -- `String::from_utf8(out).map_err(|_| Error::InvalidData)`
  unfoldable pub checked_utf8 : {R : Type 0} → List ℕ → M R (List ℕ)
  unfolding is_utf8
  checked_utf8 out = if is_utf8 out then pure out else throw invalid_data

  unfoldable pub decode_string : {R : Type 0} ⦃io : Read R⦄ → M R (List ℕ)
  unfolding checked_utf8
  decode_string = decode_bytes Z >>= checked_utf8

  abbrev pub string : Plain
  string = record { Value = List ℕ; size_of = 24; write = encode_str; read = decode_string }
