-- ===== src/Pack/Examples.antt =====
-- The theorems on src/pack.rs at concrete values.
use lencode.Prelude.{◌≡◌, arith, [], length}
use lencode.Io.{ok}
use lencode.Io.Cursor
use lencode.Io.Cursor.{Cursor, cursor_read}
use lencode.Io.CursorLaws.{unread}
use lencode.Io.VecWriter
use lencode.Io.VecWriter.{VecWriter, vec_write}
use lencode.Pack.Blocks.{pack_word, unpack_word}
use lencode.Pack.Words.{unpack_word-pack_word}

unpack_word-pack_word_example :
    (w : VecWriter) × (c : Cursor) × (pack_word 4 70000 VecWriter.new ≡ (w, ok 4))
    × (length w.bytes ≡ 4)
    × (unpack_word 4 (Cursor.new w.bytes) ≡ (c, ok 70000))
    × (unread c ≡ [])
unpack_word-pack_word_example = unpack_word-pack_word 4 70000 (omega arith) (omega arith)
