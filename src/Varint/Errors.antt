-- ===== src/Varint/Errors.antt =====
-- The error paths of src/varint/lencode.rs over a cursor: input that ends inside a number, and
-- output that has no room for one. The cursor stays as it was.
use lencode.Prelude.{
  ℕ, suc, ◌+◌, ◌-◌, ◌^◌, ◌≤◌, ◌<◌, ◌≡◌, sym, ap, ◌∙◌, arith, ltb, inl, inr, Bool-cases, tests, List,
  [], ◌∷◌, ◌++◌, length, pos→ne_zero, length-append, lt→leb, lt→ltb, le→leb,
}
use lencode.Io.{err, reader_out_of_data, writer_out_of_space}
use lencode.Io.Cursor.{Cursor, cursor_read, cursor_write}
use lencode.Io.CursorLaws.{Unread, unread, Room}
use lencode.Io.CursorLaws
use lencode.Varint.Bytes.{le_bytes, byte_count, length-le_bytes}
use lencode.Varint.Payload.{byte_count-le, payload_len-eq-byte_count}
use lencode.Varint.Encoding.{
  encoding, encoding_small, encoding_large, length-encoding_large, length-encoding-le,
}
use lencode.Varint.Fixed.{decode_from_slice, decode_word, encode_to_slice, encode_word}
use lencode.Varint.Decode.{large_flag, large_count}

decode_from_slice_short :
    (k v : ℕ) (b : ℕ) (front back : List ℕ) (x : ℕ) (c : Cursor)
    → k ≤ 16
    → encoding k v ≡ (b ∷ front) ++ (x ∷ back)
    → decode_from_slice k (b ∷ front) c ≡ (c, err reader_out_of_data)
unfolding decode_from_slice
decode_from_slice_short k v b front back x c hk e = elim (Bool-cases (ltb v 128)) [
  | inl small ↦ absurd (
      omega (
        arith,
        ap length (encoding_small k v (omega tests)),
        ap length e,
        length-append (b ∷ front) (x ∷ back),
      ))
  | inr large ↦
      let big : 128 ≤ v = omega tests in
      let n = byte_count k v in
      let hn : n < 128 = omega (arith, byte_count-le k v) in
      let whole : (128 + n) ∷ le_bytes n v ≡ b ∷ (front ++ (x ∷ back)) =
        sym (encoding_large k v big) ∙ e in
      let head : 128 + n ≡ b = cc whole in
      let size : length (le_bytes n v) ≡ length front + suc (length back) =
        omega (arith, ap length whole, length-append front (x ∷ back)) in
      rw (
        lt→leb (k + 1) (suc (length front))
            (omega (arith, size, length-le_bytes n v, byte_count-le k v)),
        pos→ne_zero (suc (length front)) (omega arith),
        ← head,
        large_flag n hn,
        large_count n hn,
        lt→ltb (suc (length front)) (1 + n) (omega (arith, size, length-le_bytes n v)),
      )
]

-- For a cursor whose unread bytes are a proper prefix of the encoding of a value, at a width of
-- up to 16 bytes: the decoder of that width answers `ReaderOutOfData`, and the cursor stays where
-- it was.
pub decode_word_truncated :
    (k v x : ℕ) (front back : List ℕ) (c : Cursor)
    → k ≤ 16
    → Unread c
    → unread c ≡ front
    → encoding k v ≡ front ++ (x ∷ back)
    → decode_word k c ≡ (c, err reader_out_of_data)
unfolding decode_word
decode_word_truncated k v x [] back c hk valid u e =
    rw (CursorLaws.buf_lem c valid, u, lt→leb (k + 1) 0 (omega arith))
decode_word_truncated k v x (b ∷ front) back c hk valid u e =
    rw (CursorLaws.buf_lem c valid, u) (decode_from_slice_short k v b front back x c hk e)

-- For a cursor with fewer free bytes than the encoding of a value of `k` bytes has, `k` up to 16:
-- the encoder answers `WriterOutOfSpace`, and neither the position nor the bytes change.
pub encode_word_no_space :
    (k v : ℕ) (c : Cursor)
    → k ≤ 16
    → v < 256 ^ k
    → Room c 0
    → length c.stream - c.position < length (encoding k v)
    → encode_word k v c ≡ (c, err writer_out_of_space)
unfolding encode_word encode_to_slice
encode_word_no_space k v c hk fits room few = elim (Bool-cases (ltb v 128)) [
  | inl small ↦
      let free : length c.stream - c.position ≡ 0 =
        omega (arith, few, ap length (encoding_small k v (omega tests))) in
      rw (
        CursorLaws.buf_mut_lem c 0 room,
        free,
        lt→leb (k + 1) 0 (omega arith),
        le→leb v 127 (omega tests),
      )
  | inr large ↦
      let size = length-encoding_large k v (omega tests) in
      rw (
        CursorLaws.buf_mut_lem c 0 room,
        lt→leb (k + 1) (length c.stream - c.position) (omega (arith, few, length-encoding-le k v)),
        lt→leb v 127 (omega tests),
        payload_len-eq-byte_count k v (omega tests) fits,
        lt→ltb (length c.stream - c.position) (1 + byte_count k v) (omega (arith, few, size)),
      )
]
