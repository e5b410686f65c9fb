-- ===== src/Io/VecWriter.antt =====
-- src/io.rs, `VecWriter`: a writer that owns a growing vector.
use lencode.Prelude.{
  ℕ, ◌+◌, ◌-◌, ◌*◌, max, leb, ltb, if◌then◌else◌, ◌==◌, Option, some, List, [], ◌++◌, length, take,
  drop, overwrite, replicate,
}
use lencode.Io.Error.{M, ok}
use lencode.Io.Traits.{Write}

-- The vector's bytes, and the cells between its length and its capacity. What stands in a cell
-- before it is written is never read.
pub record VecWriter : Type 0 where
  pub bytes : List ℕ
  pub spare : List ℕ

unfoldable pub new : VecWriter
new = record { bytes = []; spare = [] }

unfoldable pub with_capacity : ℕ → VecWriter
with_capacity cap = record { bytes = []; spare = replicate cap 0 }

unfoldable pub into_inner : VecWriter → List ℕ
into_inner w = w.bytes

unfoldable pub as_slice : VecWriter → List ℕ
as_slice w = w.bytes

unfoldable pub capacity : VecWriter → ℕ
capacity w = length w.bytes + length w.spare

-- `Vec::reserve` of the standard library: nothing if the room is there, and else a capacity of
-- twice the old one, or what is needed, or 8, whichever is largest.
unfoldable pub vec_reserve : ℕ → VecWriter → VecWriter
unfolding capacity
vec_reserve additional w =
    let cap = max 8 (max (2 * capacity w) (length w.bytes + additional)) in
    if leb additional (length w.spare)
    then w
    else record w { spare = w.spare ++ replicate (cap - capacity w) 0 }

unfoldable pub advance_mut : ℕ → VecWriter → VecWriter
advance_mut n w = record w { bytes = w.bytes ++ take n w.spare; spare = drop n w.spare }

unfoldable pub store : List ℕ → VecWriter → VecWriter
store bs w = record w { spare = overwrite bs w.spare }

-- `copy_nonoverlapping` into the spare cells, then `set_len`.
unfoldable pub write : List ℕ → M VecWriter ℕ
unfolding vec_reserve store advance_mut
write bs w =
    let add = length bs in
    if add == 0 then (w, ok 0) else (advance_mut add (store bs (vec_reserve add w)), ok add)

unfoldable pub flush : M VecWriter (Unit {0})
flush w = (w, ok tt)

unfoldable pub buf_mut : M VecWriter (Option ℕ)
unfolding vec_reserve
buf_mut w =
    let w' =
      if ltb (capacity w - length w.bytes) 17 then vec_reserve (max (capacity w) 256) w else w in
    (w', ok (some (length w'.spare)))

instance abbrev pub vec_write : Write VecWriter
vec_write = record {
  write = write;
  flush = flush;
  buf_mut = buf_mut;
  store = store;
  advance_mut = advance_mut;
  reserve = vec_reserve;
}
