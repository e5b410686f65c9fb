-- ===== src/Pack/Words.antt =====
-- `Pack` for the numbers (src/pack.rs): their bytes, lowest first, and back.
use lencode.Prelude.{ℕ, ◌+◌, ◌^◌, ◌<◌, ◌≡◌, sym, ap, ◌∙◌, arith, List, [], ◌++◌, length, append-nil}
use lencode.Io.{ok, Read, Write, ReadLaws, WriteLaws, Reads, Appends}
use lencode.Io.Cursor
use lencode.Io.Cursor.{Cursor, cursor_read}
use lencode.Io.CursorLaws.{unread, Unread-new, cursor_read_laws}
use lencode.Io.VecWriter
use lencode.Io.VecWriter.{VecWriter, vec_write}
use lencode.Io.MemoryLaws.{vec_write_laws}
use lencode.Io.Stream.{source_read}
use lencode.Varint.Bytes.{le_bytes, length-le_bytes}
use lencode.Pack.Blocks.{pack_word, unpack_word, read_once}
use lencode.Pack.BlockLaws.{write-Appends, read_once-Reads, of_le-Reads}
use mathlib.Core.Path.{subst}

pub pack_word-Appends :
    {W : Type 0} ⦃io : Write W⦄ (laws : WriteLaws io) (k v m : ℕ) (w : W)
    → 0 < k
    → laws.Room w (length (le_bytes k v) + m)
    → Appends laws (pack_word k v) w (le_bytes k v) m
unfolding pack_word
pack_word-Appends laws k v m w pos room =
    write-Appends laws (le_bytes k v) m w (omega (arith, length-le_bytes k v)) room

pub unpack_word-Reads :
    {R : Type 0} ⦃io : Read R⦄ (laws : ReadLaws io) (k v : ℕ) (rest : List ℕ) (r : R)
    → 0 < k
    → v < 256 ^ k
    → laws.IsValid r
    → laws.remaining r ≡ le_bytes k v ++ rest
    → Reads laws (unpack_word k) r v rest
unfolding unpack_word
unpack_word-Reads laws k v rest r pos fits valid left =
    of_le-Reads laws k v (read_once k) rest r fits (
      subst (λ n. Reads laws (read_once n) r (le_bytes k v) rest) (length-le_bytes k v)
        (read_once-Reads laws (le_bytes k v) rest r (omega (arith, length-le_bytes k v)) valid
          left))

-- For every number of `k` bytes, `k` not 0: `pack` writes `k` bytes to a new vector, and from them
-- `unpack` returns the number and consumes all of them.
pub unpack_word-pack_word :
    (k v : ℕ)
    → 0 < k
    → v < 256 ^ k
    → (w : VecWriter) × (c : Cursor) × (pack_word k v VecWriter.new ≡ (w, ok k))
      × (length w.bytes ≡ k)
      × (unpack_word k (Cursor.new w.bytes) ≡ (c, ok v))
      × (unread c ≡ [])
unfolding VecWriter.new Cursor.new
unpack_word-pack_word k v pos fits =
    let (w, h, room, same) = pack_word-Appends vec_write_laws k v 0 VecWriter.new pos tt in
    let (c, got, valid, left) =
      unpack_word-Reads cursor_read_laws k v [] (Cursor.new w.bytes) pos fits (Unread-new w.bytes)
        (same ∙ sym (append-nil (le_bytes k v))) in
    (
      w,
      c,
      h ∙ ap (λ n. (w, ok n)) (length-le_bytes k v),
      ap length same ∙ length-le_bytes k v,
      got,
      left,
    )
