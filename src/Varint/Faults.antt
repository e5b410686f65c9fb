-- ===== src/Varint/Faults.antt =====
-- What the decoders of src/varint/lencode.rs do with malformed input, and the generic encoder with
-- a growing writer that is nearly full.
use lencode.Prelude.{
  ℕ, suc, ◌+◌, ◌-◌, ◌%◌, ◌^◌, ◌≤◌, ◌<◌, ◌≡◌, refl, ap, arith, ltb, inl, inr, Bool-cases, tests,
  List, [], ◌∷◌, length, pos→ne_zero, lt→leb, lt→ltb, le→leb, le→ltb, length-drop, take, take_all,
  drop_all, ◌/◌,
}
use lencode.Io.{ok, err, fault, out_of_bounds, slice_index, shift_overflow, writer_out_of_space}
use lencode.Io.Cursor
use lencode.Io.Cursor.{Cursor, cursor_read, cursor_write}
use lencode.Io.CursorLaws.{Unread, unread}
use lencode.Io.CursorLaws
use lencode.Io.Stream.{Source, source_read}
use lencode.Io.Stream
use lencode.Io.VecWriter.{VecWriter, vec_write}
use lencode.Io.VecWriter
use lencode.Varint.Bytes.{of_le, byte_count}
use lencode.Varint.Encoding.{encoding, encoding_small, length-encoding_large}
use lencode.Varint.Fixed.{
  decode_word, decode_from_slice, decode_by_read, decode_varint_u128, decode_from_slice_u128,
}
use lencode.Varint.Decode.{large_flag, large_count}
use lencode.Varint.Generic.{decode_varint, varint_from_slice, encode_varint, varint_to_slice}
use lencode.Varint.Agreement.{trim-eq-byte_count}

abbrev pub source : List ℕ → Source
source bs = record { rest = bs }

-- A cursor whose unread bytes are a header for `n` payload bytes, with `n` above the width `k`,
-- and at least `k` but fewer than `n` bytes behind it: the decoder returns the first `k` of these
-- as a value, no error, and leaves the position past the end of the stream, where `buf` is out of
-- bounds.
pub decode_word_overrun :
    (k n : ℕ) (bs : List ℕ) (c : Cursor)
    → n < 128
    → k ≤ length bs
    → length bs < n
    → Unread c
    → unread c ≡ (128 + n) ∷ bs
    → (decode_word k c ≡ (Cursor.advance (1 + n) c, ok (of_le (take k bs))))
      × (length c.stream < (Cursor.advance (1 + n) c).position)
      × (Cursor.buf (Cursor.advance (1 + n) c) ≡ (Cursor.advance (1 + n) c, fault out_of_bounds))
unfolding decode_word decode_from_slice Cursor.advance Cursor.buf
decode_word_overrun k n bs c hn hk short valid u =
    let past : length c.stream < c.position + (1 + n) =
      omega (arith, length-drop c.position c.stream, ap length u) in
    (
      rw (
        CursorLaws.buf_lem c valid,
        u,
        le→leb (k + 1) (suc (length bs)) (omega arith),
        large_flag n hn,
        large_count n hn,
        le→ltb n k (omega arith),
      ),
      past,
      rw (lt→leb (c.position + (1 + n)) (length c.stream) past),
    )

-- A cursor whose unread bytes are a header for `n` payload bytes and those bytes, with `n` above
-- the width `k`: on this one input the generic decoder copies past the end of its value and the
-- fixed-width decoder returns the first `k` bytes as a value, no error, and passes over all `n`,
-- within the stream; and from a source that lends no bytes, the fixed-width decoder on the same
-- bytes slices its array past the end.
pub decode_varint_overflow :
    (k n : ℕ) (bs : List ℕ) (c : Cursor)
    → n < 128
    → k < n
    → n ≤ length bs
    → Unread c
    → unread c ≡ (128 + n) ∷ bs
    → (decode_varint k c ≡ (c, fault out_of_bounds))
      × (decode_word k c ≡ (Cursor.advance (1 + n) c, ok (of_le (take k bs))))
      × ((Cursor.advance (1 + n) c).position ≤ length c.stream)
      × (decode_word k (source ((128 + n) ∷ bs)) ≡ (source bs, fault slice_index))
unfolding decode_varint varint_from_slice decode_word decode_from_slice decode_by_read
    Cursor.advance Stream.read
decode_varint_overflow k n bs c hn hk long valid u = (
  rw (
    CursorLaws.buf_lem c valid,
    u,
    pos→ne_zero (suc (length bs)) (omega arith),
    large_flag n hn,
    large_count n hn,
    le→ltb (suc (length bs)) (1 + n) (omega arith),
    lt→ltb k n hk,
  ),
  rw (
    CursorLaws.buf_lem c valid,
    u,
    le→leb (k + 1) (suc (length bs)) (omega arith),
    large_flag n hn,
    large_count n hn,
    le→ltb n k (omega arith),
  ),
  omega (arith, length-drop c.position c.stream, ap length u),
  rw (large_flag n hn, large_count n hn, lt→ltb k n hk),
)

-- A header for no payload bytes, with sixteen bytes behind it: `decode_varint_u128` shifts by all
-- 128 bits, while the 64-bit decoder returns 0.
pub decode_empty_payload :
    (bs : List ℕ) (c : Cursor)
    → 16 ≤ length bs
    → Unread c
    → unread c ≡ 128 ∷ bs
    → (decode_varint_u128 c ≡ (c, fault shift_overflow))
      × (decode_word 8 c ≡ (Cursor.advance 1 c, ok 0))
unfolding decode_varint_u128 decode_from_slice_u128 decode_word decode_from_slice
decode_empty_payload bs c long valid u = (
  rw (CursorLaws.buf_lem c valid, u, le→leb 17 (suc (length bs)) (omega arith)),
  let nothing : of_le (take 8 bs) % 1 ≡ 0 = omega arith in
      rw (CursorLaws.buf_lem c valid, u, le→leb 9 (suc (length bs)) (omega arith), nothing),
)

-- A `std::io::Read` source that ends inside a number, after a header for `n` bytes: the decoder
-- returns the bytes that are there as a value, and no error; at the end of input it returns 0.
pub decode_word_short_input :
    (k n : ℕ) (bs : List ℕ)
    → n < 128
    → n ≤ k
    → length bs < n
    → (decode_word k (source ((128 + n) ∷ bs)) ≡ (source [], ok (of_le bs)))
      × (decode_word k (source []) ≡ (source [], ok 0))
unfolding decode_word decode_by_read Stream.read
decode_word_short_input k n bs hn hk short = (
  rw (
    large_flag n hn,
    large_count n hn,
    le→ltb k n hk,
    take_all n bs (omega arith),
    drop_all n bs (omega arith),
  ),
  refl,
)

-- A value whose encoding is longer than the spare room of a `VecWriter` that has 17 spare bytes or
-- more: the generic encoder fails, though the vector could grow.
pub encode_varint_full_vec :
    (k v : ℕ) (w : VecWriter)
    → k < 128
    → v < 256 ^ k
    → 17 ≤ length w.spare
    → length w.spare < length (encoding k v)
    → encode_varint k v w ≡ (w, err writer_out_of_space)
unfolding encode_varint varint_to_slice VecWriter.buf_mut
encode_varint_full_vec k v w hk fits room few = elim (Bool-cases (ltb v 128)) [
  | inl small ↦ absurd (omega (arith, few, ap length (encoding_small k v (omega tests))))
  | inr large ↦
      let size = length-encoding_large k v (omega tests) in
      rw (
        le→ltb (length w.bytes + length w.spare - length w.bytes) 17 (omega arith),
        pos→ne_zero (v / 2 ^ 7) (omega tests),
        trim-eq-byte_count k v (omega tests) fits,
        lt→ltb (length w.spare) (1 + byte_count k v) (omega (arith, few, size)),
      )
]
