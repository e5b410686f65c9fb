-- ===== src/Io/Stream.antt =====
-- src/io.rs, the blanket implementations over `std::io::Read` and `std::io::Write`, at the readers
-- and writers of memory of the standard library: `&[u8]` as a source, `Vec<u8>` as a sink. They
-- lend no buffer, so every call goes through `read` and `write`.
use lencode.Prelude.{ℕ, none, List, ◌++◌, length, take, drop}
use lencode.Io.Error.{M, ok}
use lencode.Io.Traits.{Read, Write}

-- The bytes not yet read.
pub record Source : Type 0 where
  pub rest : List ℕ

-- As far as there are bytes: at the end `std::io::Read` answers `Ok(0)`, which is no error.
unfoldable pub read : ℕ → M Source (List ℕ)
read n s = (record s { rest = drop n s.rest }, ok (take n s.rest))

pub record Sink : Type 0 where
  pub bytes : List ℕ

unfoldable pub write : List ℕ → M Sink ℕ
write bs s = (record s { bytes = s.bytes ++ bs }, ok (length bs))

unfoldable pub flush : M Sink (Unit {0})
flush s = (s, ok tt)

-- `buf`, `advance`, `buf_mut`, `advance_mut` and `reserve` are the defaults of the traits; through
-- the slice that is not lent nothing is stored.
instance abbrev pub source_read : Read Source
source_read = record { read = read; buf = λ s. (s, ok none); advance = λ n s. s }

instance abbrev pub sink_write : Write Sink
sink_write = record {
  write = write;
  flush = flush;
  buf_mut = λ s. (s, ok none);
  store = λ bs s. s;
  advance_mut = λ n s. s;
  reserve = λ additional s. s;
}
