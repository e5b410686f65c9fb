-- ===== src/Dedupe/Memory.antt =====
-- A `Vec` of deduplicated values from a new `VecWriter` into a new `Cursor`, src/dedupe.rs and
-- src/io.rs together.
use lencode.Prelude.{ℕ, ◌+◌, ◌^◌, ◌≤◌, ◌≡◌, arith, List, ◌++◌, length, All}
use lencode.Io.Memory.{Transmits, Transmits_lem}
use lencode.Io.CursorLaws.{cursor_read_laws}
use lencode.Io.Cursor.{cursor_read}
use lencode.Io.VecWriter.{vec_write}
use lencode.Io.MemoryLaws.{vec_write_laws}
use lencode.Varint.Encoding.{encoding}
use lencode.Dedupe.Values.{Values, PackLaws}
use lencode.Dedupe.Encoder
use lencode.Dedupe.Decoder
use lencode.Dedupe.Sync.{Sync-new}
use lencode.Dedupe.Vec.{encode_vec, decode_vec}
use lencode.Dedupe.VecRoundTrip.{
  coded_items, after_items, read_items, encode_vec-coded, decode_vec-coded,
}

-- For fewer than 2 ^ 64 values of one type, whose `Eq` is equality and whose `pack` and `unpack`
-- are inverse: `Vec::encode_ext` with a new deduplicating encoder succeeds on a new vector, and
-- returns the number of its bytes; from these bytes `Vec::decode_ext` with a new decoder returns
-- the values, in order, and consumes all of them.
pub decode_vec-encode_vec :
    (V : Values) (P : PackLaws V) (t : ℕ) (vs : List V.Value)
    → length vs + 1 ≤ 2 ^ 64
    → All (λ v. V.type_id v ≡ t) vs
    → Transmits
        (encode_vec V vs)
        (Encoder.new V)
        (after_items V P (Encoder.new V) vs)
        (decode_vec V t)
        (Decoder.new V)
        (read_items V P (Encoder.new V) (Decoder.new V) vs)
        vs
unfolding Encoder.new
decode_vec-encode_vec V P t vs small typed =
    let e = Encoder.new V in
    let d = Decoder.new V in
    let bs = encoding 8 (length vs) ++ coded_items V P e vs in
    let fits : 1 + length vs ≤ 2 ^ 64 = omega arith in
    Transmits_lem (encode_vec V vs) e (after_items V P e vs) (decode_vec V t) d
      (read_items V P e d vs) vs bs 0
      (encode_vec-coded V P vec_write_laws e d vs 0 _ (Sync-new V) fits tt)
      (λ c valid left.
        decode_vec-coded V P cursor_read_laws t e d vs _ c (Sync-new V) fits typed valid left)
