-- ===== src/Io/Memory.antt =====
-- From a new `VecWriter` of src/io.rs into a new cursor of src/io/cursor.rs: what an encoder wrote
-- and a decoder reads from it.
use lencode.Prelude.{ℕ, ◌≡◌, sym, ap, ◌∙◌, List, [], ◌++◌, length, append-nil}
use lencode.Io.Error.{M, ok}
use lencode.Io.Context.{AppendsWith, ReadsWith}
use lencode.Io.Cursor
use lencode.Io.Cursor.{Cursor}
use lencode.Io.CursorLaws.{Unread, unread, cursor_read_laws, Unread-new}
use lencode.Io.VecWriter
use lencode.Io.VecWriter.{VecWriter}
use lencode.Io.MemoryLaws.{vec_write_laws}

-- The encoder succeeds on a new vector and returns the number of its bytes, and the decoder reads
-- the value from those bytes, all of them. Both contexts change as said.
abbrev pub Transmits :
    {E D A : Type 0} → M (E × VecWriter) ℕ → E → E → M (D × Cursor) A → D → D → A → Type 0
Transmits encode e e' decode d d' a =
    (w : VecWriter) × (c : Cursor) × (encode (e, VecWriter.new) ≡ ((e', w), ok (length w.bytes)))
    × (decode (d, Cursor.new w.bytes) ≡ ((d', c), ok a))
    × (unread c ≡ [])

pub Transmits_lem :
    {E D A : Type 0} (encode : M (E × VecWriter) ℕ) (e e' : E) (decode : M (D × Cursor) A)
    (d d' : D) (a : A) (bs : List ℕ) (m : ℕ)
    → AppendsWith vec_write_laws encode e VecWriter.new bs e' m
    → ((c : Cursor)
        → Unread c
        → unread c ≡ bs ++ []
        → ReadsWith cursor_read_laws decode d c a d' [])
    → Transmits encode e e' decode d d' a
unfolding VecWriter.new Cursor.new
Transmits_lem encode e e' decode d d' a bs m (w, h, room, same) read =
    let (c, h', valid, left) =
      read (Cursor.new w.bytes) (Unread-new w.bytes) (same ∙ sym (append-nil bs)) in
    (w, c, h ∙ ap (λ n. ((e', w), ok n)) (ap length (sym same)), h', left)
