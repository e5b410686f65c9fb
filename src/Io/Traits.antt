-- ===== src/Io/Traits.antt =====
-- src/io.rs, the traits `Read` and `Write`, as the operations that the code calls.
use lencode.Prelude.{
  ℕ, min, ◌+◌, ◌-◌, ◌≤◌, ◌<◌, ◌≡◌, Option, none, some, List, ◌++◌, length, take, drop,
}
use lencode.Prelude.{◌⊎◌}
use lencode.Io.Error.{M, ok}

-- `read n` fills a buffer of `n` bytes: what it returns stands at the front of the buffer, and
-- its length is the number that the Rust method returns. `buf` is the slice of unread bytes, for
-- a reader that lends it.
pub record Read (R : Type 0) : Type 0 where
  pub read : ℕ → M R (List ℕ)
  pub buf : M R (Option (List ℕ))
  pub advance : ℕ → R → R

-- `buf_mut` gives the length of the spare slice, for a writer that lends it: the code never reads
-- the slice. `store` is what the code does to the slice: it writes bytes from its start on.
pub record Write (W : Type 0) : Type 0 where
  pub write : List ℕ → M W ℕ
  pub flush : M W (Unit {0})
  pub buf_mut : M W (Option ℕ)
  pub store : List ℕ → W → W
  pub advance_mut : ℕ → W → W
  pub reserve : ℕ → W → W

-- What a decoder relies on: the reader stands for the bytes still unread, hands them out in order,
-- and lends either nothing or all of them.
pub record ReadLaws {R : Type 0} (io : Read R) : Type 1 where
  pub remaining : R → List ℕ
  pub IsValid : R → Type 0
  pub buf_lem :
      (r : R) → IsValid r → (io.buf r ≡ (r, ok none)) ⊎ (io.buf r ≡ (r, ok (some (remaining r))))
  pub advance_lem :
      (r : R) (n : ℕ)
      → IsValid r
      → n ≤ length (remaining r)
      → io.buf r ≡ (r, ok (some (remaining r)))
      → IsValid (io.advance n r) × (remaining (io.advance n r) ≡ drop n (remaining r))
  pub read_lem :
      (r : R) (n : ℕ)
      → IsValid r
      → 0 < n
      → n ≤ length (remaining r)
      → (r' : R) × (io.read n r ≡ (r', ok (take n (remaining r))))
        × IsValid r'
        × (remaining r' ≡ drop n (remaining r))

-- The call reads `a` and leaves the bytes `rest`.
abbrev pub Reads :
    {R : Type 0} {io : Read R} (laws : ReadLaws io) {A : Type 0} → M R A → R → A → List ℕ → Type 0
Reads {R} laws m r a rest =
    (r' : R) × (m r ≡ (r', ok a)) × laws.IsValid r' × (laws.remaining r' ≡ rest)

-- What an encoder relies on. `Room w m`: the writer is well formed and can take `m` more bytes.
-- Bytes, and also none where there is room for one, are written by one call.
-- A slice that it lends holds those, or 17 bytes at least: a growing writer lends what it has.
pub record WriteLaws {W : Type 0} (io : Write W) : Type 1 where
  pub written : W → List ℕ
  pub Room : W → ℕ → Type 0
  pub buf_mut_lem :
      (w : W) (m : ℕ)
      → Room w m
      → (w' : W) × (o : Option ℕ) × (io.buf_mut w ≡ (w', ok o))
        × Room w' m
        × (written w' ≡ written w)
        × ((len : ℕ) → o ≡ some len → min m 17 ≤ len)
        × ((len : ℕ) (bs : List ℕ) (n : ℕ)
            → o ≡ some len
            → length bs ≤ len
            → n ≤ length bs
            → n ≤ m
            → Room (io.advance_mut n (io.store bs w')) (m - n)
              × (written (io.advance_mut n (io.store bs w')) ≡ written w ++ take n bs))
  pub write_lem :
      (w : W) (m : ℕ) (bs : List ℕ)
      → Room w (length bs + m)
      → 0 < length bs + m
      → (w' : W) × (io.write bs w ≡ (w', ok (length bs)))
        × Room w' m
        × (written w' ≡ written w ++ bs)
  pub reserve_lem :
      (w : W) (m additional : ℕ)
      → Room w m
      → Room (io.reserve additional w) m × (written (io.reserve additional w) ≡ written w)

-- The call appends exactly the bytes `bs`, returns their number, and leaves room for `m` more.
abbrev pub Appends :
    {W : Type 0} {io : Write W} (laws : WriteLaws io) → M W ℕ → W → List ℕ → ℕ → Type 0
Appends {W} laws act w bs m =
    (w' : W) × (act w ≡ (w', ok (length bs)))
    × laws.Room w' m
    × (laws.written w' ≡ laws.written w ++ bs)
