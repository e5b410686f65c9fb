-- ===== src/Io/Store.antt =====
-- Writing through the slice that a writer lends (src/io.rs, `buf_mut` and `advance_mut`), as the
-- encoders do, and what this appends.
use lencode.Prelude.{
  ◌⊎◌, inl, inr, ℕ, min, ◌+◌, ◌-◌, ◌≤◌, ◌<◌, ◌≡◌, refl, arith, Option, none, some, List, ◌++◌,
  length, take, take_all,
}
use lencode.Io.Error.{M, ok, pure, ◌>>=◌}
use lencode.Io.Traits.{Write, WriteLaws, Appends}

-- Bytes stored in the slice that the writer lent, of which `n` are kept.
unfoldable pub put : {W : Type 0} ⦃io : Write W⦄ → List ℕ → ℕ → M W ℕ
put ⦃io⦄ bs n w = (io.advance_mut n (io.store bs w), ok n)

-- What is stored through a lent slice of `len` bytes for the encoding `bs`: it fits, and begins
-- with `bs`.
pub record Stores (bs cells : List ℕ) (len : ℕ) : Type 0 where
  pub fits : length cells ≤ len
  pub covers : length bs ≤ length cells
  pub front : take (length bs) cells ≡ bs

pub Stores-self : (bs : List ℕ) (len : ℕ) → length bs ≤ len → Stores bs bs len
Stores-self bs len h = record {
  fits = h;
  covers = omega arith;
  front = take_all (length bs) bs (omega arith);
}

module _ {W : Type 0} ⦃io : Write W⦄ (laws : WriteLaws io) (bs : List ℕ) (m : ℕ) where
  -- An encoder that stores `bs` through a lent slice, or does what it does where none is lent,
  -- appends `bs` if it does so there.
  pub Appends-lent :
      (w : W) (slice : ℕ → M W ℕ) (direct : M W ℕ)
      → laws.Room w (length bs + m)
      → ((len : ℕ) (w' : W)
          → min (length bs) 17 ≤ len
          → ((cells : List ℕ) × (slice len w' ≡ put cells (length bs) w') × Stores bs cells len)
            ⊎ (slice len w' ≡ direct w'))
      → ((w' : W) → laws.Room w' (length bs + m) → Appends laws direct w' bs m)
      → Appends laws
          (io.buf_mut >>= λ dst. elim dst [ some len ↦ slice len | none ↦ direct ])
          w
          bs
          m
  unfolding put
  Appends-lent w slice direct room by_slice by_write =
      let (w', o, lent, room', same, spare, stored) = laws.buf_mut_lem w _ room in
      go w' o lent room' same spare stored
    where
      go :
          (w' : W) (o : Option ℕ)
          → io.buf_mut w ≡ (w', ok o)
          → laws.Room w' (length bs + m)
          → laws.written w' ≡ laws.written w
          → ((len : ℕ) → o ≡ some len → min (length bs + m) 17 ≤ len)
          → ((len : ℕ) (cells : List ℕ) (n : ℕ)
              → o ≡ some len
              → length cells ≤ len
              → n ≤ length cells
              → n ≤ length bs + m
              → laws.Room (io.advance_mut n (io.store cells w')) (length bs + m - n)
                × (laws.written (io.advance_mut n (io.store cells w'))
                    ≡ laws.written w ++ take n cells))
          → Appends laws
              (io.buf_mut >>= λ dst. elim dst [ some len ↦ slice len | none ↦ direct ])
              w
              bs
              m
      go w' none lent room' same spare stored =
          let (w'', e, r, app) = by_write w' room' in (w'', rw (lent, e), r, rw same at app)
      go w' (some len) lent room' same spare stored =
          elim (by_slice len w' (omega (arith, spare len refl))) [
            | inl (cells, e, s) ↦
                let (r, app) = stored len cells (length bs) refl s.fits s.covers (omega arith) in
                let left : length bs + m - length bs ≡ m = omega arith in
                (
                  io.advance_mut (length bs) (io.store cells w'),
                  rw (lent, e),
                  rw left at r,
                  rw s.front at app,
                )
            | inr e ↦
                let (w'', h, r, app) = by_write w' room' in
                (w'', rw (lent, e, h), r, rw same at app)
          ]

  -- An encoder that stores `bs` through a lent slice, and writes `bs` where none is lent, appends
  -- `bs` in either case.
  pub Appends-through :
      (w : W) (slice : ℕ → M W ℕ) (direct : M W ℕ)
      → 0 < length bs
      → laws.Room w (length bs + m)
      → ((len : ℕ) (w' : W)
          → min (length bs) 17 ≤ len
          → (cells : List ℕ) × (slice len w' ≡ put cells (length bs) w') × Stores bs cells len)
      → ((w' : W) → direct w' ≡ (io.write bs >>= λ written. pure (length bs)) w')
      → Appends laws
          (io.buf_mut >>= λ dst. elim dst [ some len ↦ slice len | none ↦ direct ])
          w
          bs
          m
  Appends-through w slice direct pos room by_slice by_write =
      Appends-lent w slice direct room (λ len w' h. inl (by_slice len w' h))
        (λ w' room'.
          let (w'', e, r, app) = laws.write_lem w' m bs room' (omega arith) in
          (w'', rw (by_write w', e), r, app))
