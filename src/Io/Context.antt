-- ===== src/Io/Context.antt =====
-- Calls that change a context beside the reader or writer (`ctx: Option<&mut …>` in src/lib.rs,
-- `&mut self` in src/dedupe.rs and src/diff.rs), and how appends and reads follow one another.
use lencode.Prelude.{ℕ, ◌+◌, ◌≡◌, ap, ◌∙◌, arith, List, ◌++◌, length, length-append, append_assoc}
use lencode.Io.Error.{M, Result, ok, pure, ◌>>=◌}
use lencode.Io.Traits.{Read, Write, ReadLaws, WriteLaws, Appends, Reads}

-- The outcome of a call on the second part of a state, such as the writer beside the encoder.
abbrev pub beside : {D S A : Type 0} → D → S × Result A → (D × S) × Result A
beside d (s, r) = ((d, s), r)

abbrev pub on_right : {D S A : Type 0} → M S A → M (D × S) A
on_right m (d, s) = beside d (m s)

-- The call appends `bs`, returns their number, and changes the context from `e` to `e'`.
abbrev pub AppendsWith :
    {W E : Type 0} {io : Write W} (laws : WriteLaws io)
    → M (E × W) ℕ
    → E
    → W
    → List ℕ
    → E
    → ℕ
    → Type 0
AppendsWith {W} laws act e w bs e' m =
    (w' : W) × (act (e, w) ≡ ((e', w'), ok (length bs)))
    × laws.Room w' m
    × (laws.written w' ≡ laws.written w ++ bs)

-- The call reads `a`, leaves the bytes `rest`, and changes the context from `d` to `d'`.
abbrev pub ReadsWith :
    {R D A : Type 0} {io : Read R} (laws : ReadLaws io)
    → M (D × R) A
    → D
    → R
    → A
    → D
    → List ℕ
    → Type 0
ReadsWith {R} laws act d r a d' rest =
    (r' : R) × (act (d, r) ≡ ((d', r'), ok a)) × laws.IsValid r' × (laws.remaining r' ≡ rest)

module _ {W : Type 0} ⦃io : Write W⦄ (laws : WriteLaws io) where
  pub on_right-AppendsWith :
      {E : Type 0} (e : E) (act : M W ℕ) (w : W) (bs : List ℕ) (m : ℕ)
      → Appends laws act w bs m
      → AppendsWith laws (on_right act) e w bs e m
  on_right-AppendsWith e act w bs m (w', h, r, app) = (w', ap (beside e) h, r, app)

  -- Two appends, one after the other, their numbers added.
  pub Appends-chain :
      (a b : M W ℕ) (w : W) (bs cs : List ℕ) (m : ℕ)
      → Appends laws a w bs (length cs + m)
      → ((w' : W) → laws.Room w' (length cs + m) → Appends laws b w' cs m)
      → Appends laws (a >>= λ x. b >>= λ y. pure (x + y)) w (bs ++ cs) m
  Appends-chain a b w bs cs m (w', h, r, app) next = go (next w' r)
    where
      go : Appends laws b w' cs m → Appends laws (a >>= λ x. b >>= λ y. pure (x + y)) w (bs ++ cs) m
      go (w'', h', r', app') =
          (w'', rw (h, h', length-append bs cs), r', app' ∙ rw app (append_assoc _ bs cs))

  pub AppendsWith-chain :
      {E : Type 0} (a b : M (E × W) ℕ) (e e' e'' : E) (w : W) (bs cs : List ℕ) (m : ℕ)
      → AppendsWith laws a e w bs e' (length cs + m)
      → ((w' : W) → laws.Room w' (length cs + m) → AppendsWith laws b e' w' cs e'' m)
      → AppendsWith laws (a >>= λ x. b >>= λ y. pure (x + y)) e w (bs ++ cs) e'' m
  AppendsWith-chain a b e e' e'' w bs cs m (w', h, r, app) next = go (next w' r)
    where
      go :
          AppendsWith laws b e' w' cs e'' m
          → AppendsWith laws (a >>= λ x. b >>= λ y. pure (x + y)) e w (bs ++ cs) e'' m
      go (w'', h', r', app') =
          (w'', rw (h, h', length-append bs cs), r', app' ∙ rw app (append_assoc _ bs cs))

  -- Room for two pieces is room for the first, with the second to come.
  pub Room-append :
      (w : W) (bs cs : List ℕ) (m : ℕ)
      → laws.Room w (length (bs ++ cs) + m)
      → laws.Room w (length bs + (length cs + m))
  Room-append w bs cs m room =
      let e : length (bs ++ cs) + m ≡ length bs + (length cs + m) =
        omega (arith, length-append bs cs) in
      rw e at room

module _ {R : Type 0} ⦃io : Read R⦄ (laws : ReadLaws io) where
  pub on_right-ReadsWith :
      {D A : Type 0} (d : D) (act : M R A) (r : R) (a : A) (rest : List ℕ)
      → Reads laws act r a rest
      → ReadsWith laws (on_right act) d r a d rest
  on_right-ReadsWith d act r a rest (r', h, valid, left) = (r', ap (beside d) h, valid, left)

  -- A read, and what follows it with its value.
  pub Reads-bind :
      {A B : Type 0} (act : M R A) (f : A → M R B) (r : R) (a : A) (b : B) (mid rest : List ℕ)
      → Reads laws act r a mid
      → ((r' : R) → laws.IsValid r' → laws.remaining r' ≡ mid → Reads laws (f a) r' b rest)
      → Reads laws (act >>= f) r b rest
  Reads-bind act f r a b mid rest (r', h, valid, left) next = go (next r' valid left)
    where
      go : Reads laws (f a) r' b rest → Reads laws (act >>= f) r b rest
      go (r'', h', valid', left') = (r'', rw h h', valid', left')

  pub ReadsWith-bind :
      {D A B : Type 0} (act : M (D × R) A) (f : A → M (D × R) B) (d d' d'' : D) (r : R) (a : A)
      (b : B) (mid rest : List ℕ)
      → ReadsWith laws act d r a d' mid
      → ((r' : R)
          → laws.IsValid r'
          → laws.remaining r' ≡ mid
          → ReadsWith laws (f a) d' r' b d'' rest)
      → ReadsWith laws (act >>= f) d r b d'' rest
  ReadsWith-bind act f d d' d'' r a b mid rest (r', h, valid, left) next = go (next r' valid left)
    where
      go : ReadsWith laws (f a) d' r' b d'' rest → ReadsWith laws (act >>= f) d r b d'' rest
      go (r'', h', valid', left') = (r'', rw h h', valid', left')
