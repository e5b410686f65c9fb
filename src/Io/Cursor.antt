-- ===== src/Io/Cursor.antt =====
-- src/io/cursor.rs: a cursor over a slice of bytes, as a reader and as a writer.
use lencode.Prelude.{
  ℕ, ◌+◌, ◌-◌, leb, if◌then◌else◌, ◌==◌, Option, some, List, [], ◌++◌, length, take, drop,
  overwrite,
}
use lencode.Io.Error.{M, ok, err, fault, out_of_bounds}
use lencode.Io.Error.{reader_out_of_data, writer_out_of_space}
use lencode.Io.Traits.{Read, Write}

pub record Cursor : Type 0 where
  pub stream : List ℕ
  pub position : ℕ

unfoldable pub new : List ℕ → Cursor
new bytes = record { stream = bytes; position = 0 }

-- The number of bytes that a call copies: what was asked for, or what is there.
to_copy : ℕ → ℕ → ℕ
to_copy buf_len available = if leb buf_len available then buf_len else available

unfoldable pub read : ℕ → M Cursor (List ℕ)
unfolding to_copy
read n c =
    let available = length c.stream - c.position in
    let k = to_copy n available in
    if leb (length c.stream) c.position
    then (c, err reader_out_of_data)
    else if n == 0
    then (c, ok [])
    else (record c { position = c.position + k }, ok (take k (drop c.position c.stream)))

-- `get_unchecked(position..)`: past the end of the stream it is undefined behaviour.
unfoldable pub buf : M Cursor (Option (List ℕ))
buf c =
    if leb c.position (length c.stream)
    then (c, ok (some (drop c.position c.stream)))
    else (c, fault out_of_bounds)

unfoldable pub advance : ℕ → Cursor → Cursor
advance n c = record c { position = c.position + n }

-- Bytes put in place from the position on, within the stream.
copy_in : List ℕ → Cursor → List ℕ
copy_in bs c = take c.position c.stream ++ overwrite bs (drop c.position c.stream)

unfoldable pub write : List ℕ → M Cursor ℕ
unfolding to_copy copy_in
write bs c =
    let available = length c.stream - c.position in
    let k = to_copy (length bs) available in
    let c' = record c { stream = copy_in (take k bs) c; position = c.position + k } in
    if leb (length c.stream) c.position
    then (c, err writer_out_of_space)
    else if k == length bs
    then (c', ok (length bs))
    else (c', err writer_out_of_space)

unfoldable pub flush : M Cursor (Unit {0})
flush c = (c, ok tt)

unfoldable pub buf_mut : M Cursor (Option ℕ)
buf_mut c =
    if leb c.position (length c.stream)
    then (c, ok (some (length c.stream - c.position)))
    else (c, fault out_of_bounds)

unfoldable pub store : List ℕ → Cursor → Cursor
unfolding copy_in
store bs c = record c { stream = copy_in bs c }

unfoldable pub advance_mut : ℕ → Cursor → Cursor
advance_mut n c = record c { position = c.position + n }

instance abbrev pub cursor_read : Read Cursor
cursor_read = record { read = read; buf = buf; advance = advance }

-- `reserve` is the default of the trait, which does nothing.
instance abbrev pub cursor_write : Write Cursor
cursor_write = record {
  write = write;
  flush = flush;
  buf_mut = buf_mut;
  store = store;
  advance_mut = advance_mut;
  reserve = λ additional c. c;
}
