-- ===== src/Io/CursorLaws.antt =====
-- The cursor of src/io/cursor.rs meets what the encoders and decoders rely on.
use lencode.Prelude.{
  ℕ, min, ◌+◌, ◌-◌, ◌≤◌, ◌<◌, ◌≡◌, refl, sym, ap, ◌∙◌, arith, Option, some, List, ◌++◌, length,
  take, drop, inr, length-drop, drop-drop, take_all, le→leb, lt→leb, pos→ne_zero, eq→==,
  length-splice, take-splice,
}
use lencode.Io.Error.{ok}
use lencode.Io.Traits.{ReadLaws, WriteLaws}
use lencode.Io.Cursor
use lencode.Io.Cursor.{Cursor, cursor_read, cursor_write}

abbrev pub Unread : Cursor → Type 0
Unread c = c.position ≤ length c.stream

abbrev pub unread : Cursor → List ℕ
unread c = drop c.position c.stream

pub buf_lem : (c : Cursor) → Unread c → Cursor.buf c ≡ (c, ok (some (unread c)))
unfolding Cursor.buf
buf_lem c h = rw (le→leb _ _ h)

pub advance_lem :
    (c : Cursor) (n : ℕ)
    → Unread c
    → n ≤ length (unread c)
    → Unread (Cursor.advance n c) × (unread (Cursor.advance n c) ≡ drop n (unread c))
unfolding Cursor.advance
advance_lem c n h k =
    (omega (arith, length-drop c.position c.stream), sym (drop-drop n c.position c.stream))

pub read_lem :
    (c : Cursor) (n : ℕ)
    → Unread c
    → 0 < n
    → n ≤ length (unread c)
    → (c' : Cursor) × (Cursor.read n c ≡ (c', ok (take n (unread c))))
      × Unread c'
      × (unread c' ≡ drop n (unread c))
unfolding Cursor.read Cursor.advance
read_lem c n h pos k =
    let room = length-drop c.position c.stream in
    let (v, e) = advance_lem c n h k in
    (
      Cursor.advance n c,
      rw (
        lt→leb (length c.stream) c.position (omega (arith, room)),
        pos→ne_zero n pos,
        le→leb n (length c.stream - c.position) (omega (arith, room)),
      ),
      v,
      e,
    )

abbrev pub cursor_read_laws : ReadLaws cursor_read
cursor_read_laws = record {
  remaining = unread;
  IsValid = Unread;
  buf_lem = λ c h. inr (buf_lem c h);
  advance_lem = λ c n h k e. advance_lem c n h k;
  read_lem = read_lem;
}

abbrev pub Room : Cursor → ℕ → Type 0
Room c m = c.position + m ≤ length c.stream

abbrev pub written : Cursor → List ℕ
written c = take c.position c.stream

-- Bytes stored in the free part of the stream, and `n` of them passed over.
store_lem :
    (c : Cursor) (m : ℕ) (bs : List ℕ) (n : ℕ)
    → Room c m
    → c.position + length bs ≤ length c.stream
    → n ≤ length bs
    → n ≤ m
    → Room (Cursor.advance_mut n (Cursor.store bs c)) (m - n)
      × (written (Cursor.advance_mut n (Cursor.store bs c)) ≡ written c ++ take n bs)
unfolding Cursor.store Cursor.advance_mut
store_lem c m bs n h k hn hm = (
  omega (arith, length-splice c.position bs c.stream (omega arith)),
  take-splice c.position n bs c.stream k hn,
)

pub buf_mut_lem :
    (c : Cursor) (m : ℕ)
    → Room c m
    → Cursor.buf_mut c ≡ (c, ok (some (length c.stream - c.position)))
unfolding Cursor.buf_mut
buf_mut_lem c m h = rw (le→leb c.position (length c.stream) (omega arith))

write-store :
    (c : Cursor) (m : ℕ) (bs : List ℕ)
    → Room c (length bs + m)
    → 0 < length bs + m
    → Cursor.write bs c ≡ (Cursor.advance_mut (length bs) (Cursor.store bs c), ok (length bs))
unfolding Cursor.write Cursor.store Cursor.advance_mut
write-store c m bs h pos = rw (
  lt→leb (length c.stream) c.position (omega arith),
  le→leb (length bs) (length c.stream - c.position) (omega arith),
  eq→== (length bs) (length bs) refl,
  take_all (length bs) bs (omega arith),
)

pub write_lem :
    (c : Cursor) (m : ℕ) (bs : List ℕ)
    → Room c (length bs + m)
    → 0 < length bs + m
    → (c' : Cursor) × (Cursor.write bs c ≡ (c', ok (length bs)))
      × Room c' m
      × (written c' ≡ written c ++ bs)
write_lem c m bs h pos =
    let (room, e) =
      store_lem c (length bs + m) bs (length bs) h (omega arith) (omega arith) (omega arith) in
    (
      Cursor.advance_mut (length bs) (Cursor.store bs c),
      write-store c m bs h pos,
      omega (arith, room),
      e ∙ ap (λ t. written c ++ t) (take_all (length bs) bs (omega arith)),
    )

spare-le :
    (c : Cursor) (m : ℕ)
    → Room c m
    → (len : ℕ) → some (length c.stream - c.position) ≡ some len
    → min m 17 ≤ len
spare-le c m h len e = ground arith

within_spare :
    (c : Cursor) (m k len : ℕ)
    → Room c m
    → some (length c.stream - c.position) ≡ some len
    → k ≤ len
    → c.position + k ≤ length c.stream
within_spare c m k len h e l = ground arith

pub buf_mut_laws :
    (c : Cursor) (m : ℕ)
    → Room c m
    → (w' : Cursor) × (o : Option ℕ) × (Cursor.buf_mut c ≡ (w', ok o))
      × Room w' m
      × (written w' ≡ written c)
      × ((len : ℕ) → o ≡ some len → min m 17 ≤ len)
      × ((len : ℕ) (bs : List ℕ) (n : ℕ)
          → o ≡ some len
          → length bs ≤ len
          → n ≤ length bs
          → n ≤ m
          → Room (Cursor.advance_mut n (Cursor.store bs w')) (m - n)
            × (written (Cursor.advance_mut n (Cursor.store bs w')) ≡ written c ++ take n bs))
buf_mut_laws c m h = (
  c,
  some (length c.stream - c.position),
  buf_mut_lem c m h,
  h,
  refl,
  spare-le c m h,
  λ len bs n e k. store_lem c m bs n h (within_spare c m (length bs) len h e k),
)

abbrev pub cursor_write_laws : WriteLaws cursor_write
cursor_write_laws = record {
  written = written;
  Room = Room;
  buf_mut_lem = buf_mut_laws;
  write_lem = write_lem;
  reserve_lem = λ c m additional room. (room, refl);
}

-- A new cursor is at the start of its bytes.
pub Unread-new : (bytes : List ℕ) → Unread (Cursor.new bytes)
unfolding Cursor.new
Unread-new bytes = omega arith
