-- ===== src/Varint/Memory.antt =====
-- The encoders and decoders of src/varint/lencode.rs from a new `VecWriter` into a new `Cursor`.
use lencode.Prelude.{ℕ, ◌+◌, ◌^◌, ◌≤◌, ◌<◌, ◌≡◌, sym, ap, ◌∙◌, arith, [], ◌++◌, length, append-nil}
use lencode.Io.{ok}
use lencode.Io.Cursor
use lencode.Io.Cursor.{Cursor, cursor_read}
use lencode.Io.CursorLaws.{unread, Unread-new, cursor_read_laws}
use lencode.Io.VecWriter
use lencode.Io.VecWriter.{VecWriter, vec_write}
use lencode.Io.MemoryLaws.{vec_write_laws}
use lencode.Varint.Encoding.{encoding, length-encoding-le}
use lencode.Varint.Fixed.{encode_word, decode_word}
use lencode.Varint.Encode.{encode_word-Appends}
use lencode.Varint.Decode.{decode_word-Reads}
use lencode.Varint.Generic.{decode_varint, encode_bool, decode_bool}
use lencode.Varint.Bool.{encode_bool-Appends, decode_bool-Reads}
use lencode.Prelude.{Bool}
use lencode.Varint.DecodeGeneric.{decode_varint-Reads}

-- For every value of `k` bytes, `k` from 1 to 16: the encoder of `k` bytes succeeds on a new vector
-- and returns the number of its bytes, at most `k + 1`; from these bytes, the decoder of `k` bytes
-- and the generic decoder each return the value and consume all of them.
pub decode_word-encode_word :
    (k v : ℕ)
    → 0 < k
    → k ≤ 16
    → v < 256 ^ k
    → (w : VecWriter) × (c c' : Cursor) × (encode_word k v VecWriter.new ≡ (w, ok (length w.bytes)))
      × (length w.bytes ≤ k + 1)
      × (decode_word k (Cursor.new w.bytes) ≡ (c, ok v))
      × (unread c ≡ [])
      × (decode_varint k (Cursor.new w.bytes) ≡ (c', ok v))
      × (unread c' ≡ [])
unfolding VecWriter.new Cursor.new
decode_word-encode_word k v pos small fits =
    let (w, h, room, same) = encode_word-Appends vec_write_laws k v 0 VecWriter.new small fits tt in
    let all : w.bytes ≡ encoding k v ++ [] = same ∙ sym (append-nil (encoding k v)) in
    let (c, got, valid, left) =
      decode_word-Reads cursor_read_laws k v [] (Cursor.new w.bytes) small fits (Unread-new w.bytes)
        all in
    let (c', got', valid', left') =
      decode_varint-Reads cursor_read_laws k v [] (Cursor.new w.bytes) pos (omega arith) fits
        (Unread-new w.bytes) all in
    (
      w,
      c,
      c',
      h ∙ ap (λ bs. (w, ok (length bs))) (sym same),
      omega (arith, ap length same, length-encoding-le k v),
      got,
      left,
      got',
      left',
    )

-- For both Booleans: `encode_bool` writes one byte to a new vector and returns 1, and from it
-- `decode_bool` returns the Boolean and consumes the byte.
pub decode_bool-encode_bool :
    (val : Bool)
    → (w : VecWriter) × (c : Cursor) × (encode_bool val VecWriter.new ≡ (w, ok 1))
      × (length w.bytes ≡ 1)
      × (decode_bool (Cursor.new w.bytes) ≡ (c, ok val))
      × (unread c ≡ [])
unfolding VecWriter.new Cursor.new
decode_bool-encode_bool val =
    let (w, h, room, same) = encode_bool-Appends vec_write_laws val 0 VecWriter.new tt in
    let (c, got, valid, left) =
      decode_bool-Reads cursor_read_laws val [] (Cursor.new w.bytes) (Unread-new w.bytes) same in
    (w, c, h, ap length same, got, left)
