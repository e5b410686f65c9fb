-- ===== src/Codec/EmptySlices.antt =====
-- A `Vec` of no byte arrays (src/lib.rs, src/pack.rs) where the writer has room for its length and
-- no more.
use lencode.Prelude.{
  ℕ, ◌+◌, ◌-◌, ◌≡◌, sym, ◌∙◌, arith, none, [], ◌∷◌, length, le→leb, length-splice,
}
use lencode.Io.{ok, err, writer_out_of_space}
use lencode.Io.Cursor
use lencode.Io.Cursor.{Cursor, cursor_write}
use lencode.Io.Store.{put}
use lencode.Bytes.Zstd.{Zstd}
use lencode.Dedupe.Values.{Values}
use lencode.Varint.Fixed.{encode_varint_u64, encode_word, encode_to_slice}
use mathlib.Core.List.{flatten}
use lencode.Codec.Traits.{encode_len}
use lencode.Codec.Sequences.{encode_vec, vec_items, encode_list, encode_items}
use lencode.Codec.Blobs.{byte_array, encode_byte_arrays}

-- A cursor with one byte left takes the length 0, and is full.
encode_len_last :
    (c : Cursor)
    → c.position + 1 ≡ length c.stream
    → (c' : Cursor) × (encode_len 0 c ≡ (c', ok 1)) × (length c'.stream ≡ c'.position)
unfolding encode_len encode_varint_u64 encode_word encode_to_slice put Cursor.buf_mut Cursor.store
    Cursor.advance_mut
encode_len_last c last =
    let one : length c.stream - c.position ≡ 1 = omega arith in
    (
      Cursor.advance_mut 1 (Cursor.store (0 ∷ []) c),
      rw (le→leb c.position (length c.stream) (omega arith), one),
      length-splice c.position (0 ∷ []) c.stream (omega arith) ∙ sym last,
    )

full_refuses :
    (V : Values) (Z : Zstd) (c : Cursor)
    → length c.stream ≡ c.position
    → encode_byte_arrays V Z [] c ≡ (c, err writer_out_of_space)
unfolding encode_byte_arrays Cursor.write flatten
full_refuses V Z c full = rw (le→leb (length c.stream) c.position (omega arith))

-- For a cursor with one byte left: without a context, a `Vec` of no byte arrays, whose one byte
-- would fit, fails with `WriterOutOfSpace` when the byte is written, since `encode_slice` asks the
-- full cursor to write nothing; a `LinkedList` of none writes its byte and returns 1.
pub encode_vec_of_no_arrays :
    (V : Values) (Z : Zstd) (n : ℕ) (c : Cursor)
    → c.position + 1 ≡ length c.stream
    → (c' : Cursor) × (encode_vec (byte_array V Z n) [] (none, c)
        ≡ ((none, c'), err writer_out_of_space))
      × (encode_list (byte_array V Z n).coding [] (none, c) ≡ ((none, c'), ok 1))
unfolding encode_vec vec_items encode_list encode_items
encode_vec_of_no_arrays V Z n c last =
    let (c', h, full) = encode_len_last c last in (c', rw (h, full_refuses V Z c' full), rw h)
