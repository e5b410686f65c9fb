-- ===== src/Io/MemoryLaws.antt =====
-- `VecWriter` and the readers and writers of the standard library's memory (src/io.rs) meet what
-- the encoders and decoders rely on.
use lencode.Prelude.{
  [], ◌∷◌, sym, append-nil, ℕ, min, max, ◌+◌, ◌-◌, ◌*◌, ◌≤◌, ◌<◌, ◌≡◌, refl, ap, ◌∙◌, arith, Option,
  none, some, List, ◌++◌, length, take, drop, replicate, inl, inr, length-append, length-replicate,
  take-overwrite, take_all, pos→ne_zero, Bool-cases, ltb, tests,
}
use lencode.Io.Error.{ok}
use lencode.Io.Traits.{ReadLaws, WriteLaws}
use lencode.Io.VecWriter
use lencode.Io.VecWriter.{VecWriter, vec_write}
use lencode.Io.Stream
use lencode.Io.Stream.{Source, Sink, source_read, sink_write}

-- `reserve` keeps the bytes and makes the room.
pub vec_reserve_lem :
    (w : VecWriter) (additional : ℕ)
    → ((VecWriter.vec_reserve additional w).bytes ≡ w.bytes)
      × (additional ≤ length (VecWriter.vec_reserve additional w).spare)
unfolding VecWriter.vec_reserve
vec_reserve_lem w additional =
    let cap = max 8 (max (2 * (length w.bytes + length w.spare)) (length w.bytes + additional)) in
    let cell : ℕ = 0 in
    let cells : List ℕ = replicate (cap - (length w.bytes + length w.spare)) cell in
    ground (
      arith,
      length-append w.spare cells,
      length-replicate (cap - (length w.bytes + length w.spare)) cell,
    )

-- The slice that `buf_mut` lends has 17 bytes or more.
pub buf_mut_lem :
    (w : VecWriter)
    → (w' : VecWriter) × (VecWriter.buf_mut w ≡ (w', ok (some (length w'.spare))))
      × (w'.bytes ≡ w.bytes)
      × (17 ≤ length w'.spare)
unfolding VecWriter.buf_mut
buf_mut_lem w = elim (Bool-cases (ltb (length w.bytes + length w.spare - length w.bytes) 17)) [
  | inl few ↦
      let (e, h) = vec_reserve_lem w (max (length w.bytes + length w.spare) 256) in
      (
        VecWriter.vec_reserve (max (length w.bytes + length w.spare) 256) w,
        rw few,
        e,
        omega (arith, h),
      )
  | inr many ↦ (w, rw many, refl, omega tests)
]

pub store_lem :
    (w : VecWriter) (bs : List ℕ) (n : ℕ)
    → length bs ≤ length w.spare
    → n ≤ length bs
    → (VecWriter.advance_mut n (VecWriter.store bs w)).bytes ≡ w.bytes ++ take n bs
unfolding VecWriter.advance_mut VecWriter.store
store_lem w bs n h k = ap (λ t. w.bytes ++ t) (take-overwrite n bs w.spare k h)

pub write_lem :
    (w : VecWriter) (bs : List ℕ)
    → 0 < length bs
    → (w' : VecWriter) × (VecWriter.write bs w ≡ (w', ok (length bs))) × (w'.bytes ≡ w.bytes ++ bs)
unfolding VecWriter.write
write_lem w bs pos =
    let (e, h) = vec_reserve_lem w (length bs) in
    let w' : VecWriter = VecWriter.vec_reserve (length bs) w in
    (
      VecWriter.advance_mut (length bs) (VecWriter.store bs w'),
      rw (pos→ne_zero _ pos),
      store_lem w' bs (length bs) h (omega arith) ∙ rw (e, take_all (length bs) bs (omega arith)),
    )

abbrev pub Always : VecWriter → ℕ → Type 0
Always w m = Unit

spare_bound : (n len m : ℕ) → 17 ≤ n → some n ≡ some len → min m 17 ≤ len
spare_bound n len m h e = ground arith

within_spare : (n len k : ℕ) → some n ≡ some len → k ≤ len → k ≤ n
within_spare n len k e h = ground arith

pub vec_buf_mut_laws :
    (w : VecWriter) (m : ℕ)
    → Always w m
    → (w' : VecWriter) × (o : Option ℕ) × (VecWriter.buf_mut w ≡ (w', ok o))
      × Always w' m
      × (w'.bytes ≡ w.bytes)
      × ((len : ℕ) → o ≡ some len → min m 17 ≤ len)
      × ((len : ℕ) (bs : List ℕ) (n : ℕ)
          → o ≡ some len
          → length bs ≤ len
          → n ≤ length bs
          → n ≤ m
          → Always (VecWriter.advance_mut n (VecWriter.store bs w')) (m - n)
            × ((VecWriter.advance_mut n (VecWriter.store bs w')).bytes ≡ w.bytes ++ take n bs))
vec_buf_mut_laws w m a =
    let (w', e, same, room) = buf_mut_lem w in
    (
      w',
      some (length w'.spare),
      e,
      tt,
      same,
      λ len h. spare_bound _ len m room h,
      λ len bs n h k hn hm. (
        tt,
        store_lem w' bs n (within_spare _ len (length bs) h k) hn ∙ ap (λ t. t ++ take n bs) same,
      ),
    )

pub vec_write_law :
    (w : VecWriter) (m : ℕ) (bs : List ℕ)
    → Always w (length bs + m)
    → 0 < length bs + m
    → (w' : VecWriter) × (VecWriter.write bs w ≡ (w', ok (length bs)))
      × Always w' m
      × (w'.bytes ≡ w.bytes ++ bs)
unfolding VecWriter.write
vec_write_law w m [] a pos = (w, refl, tt, sym (append-nil w.bytes))
vec_write_law w m (b ∷ bs) a pos =
    let (w', e, same) = write_lem w (b ∷ bs) (omega arith) in (w', e, tt, same)

-- A growing vector always has room.
abbrev pub vec_write_laws : WriteLaws vec_write
vec_write_laws = record {
  written = λ w. w.bytes;
  Room = Always;
  buf_mut_lem = vec_buf_mut_laws;
  write_lem = vec_write_law;
  reserve_lem = λ w m additional room. (tt, (vec_reserve_lem w additional).0);
}

pub source_read_lem :
    (s : Source) (n : ℕ)
    → (s' : Source) × (Stream.read n s ≡ (s', ok (take n s.rest)))
      × Unit {0}
      × (s'.rest ≡ drop n s.rest)
unfolding Stream.read
source_read_lem s n = (record { rest = drop n s.rest }, refl, tt, refl)

pub source_advance_lem :
    (s : Source) (n : ℕ)
    → source_read.buf s ≡ (s, ok (some s.rest))
    → Unit {0} × (s.rest ≡ drop n s.rest)
source_advance_lem s n e = cc

abbrev pub source_read_laws : ReadLaws source_read
source_read_laws = record {
  remaining = λ s. s.rest;
  IsValid = λ s. Unit;
  buf_lem = λ s h. inl refl;
  advance_lem = λ s n h k e. source_advance_lem s n e;
  read_lem = λ s n h pos k. source_read_lem s n;
}

pub sink_buf_mut_laws :
    (s : Sink) (m : ℕ)
    → Unit {0}
    → (w' : Sink) × (o : Option ℕ) × (sink_write.buf_mut s ≡ (w', ok o))
      × Unit {0}
      × (w'.bytes ≡ s.bytes)
      × ((len : ℕ) → o ≡ some len → min m 17 ≤ len)
      × ((len : ℕ) (bs : List ℕ) (n : ℕ)
          → o ≡ some len
          → length bs ≤ len
          → n ≤ length bs
          → n ≤ m
          → Unit {0} × (w'.bytes ≡ s.bytes ++ take n bs))
sink_buf_mut_laws s m a = (s, none, refl, tt, refl, λ len e. cc, λ len bs n e k hn hm. cc)

pub sink_write_lem :
    (s : Sink) (bs : List ℕ)
    → (s' : Sink) × (Stream.write bs s ≡ (s', ok (length bs)))
      × Unit {0}
      × (s'.bytes ≡ s.bytes ++ bs)
unfolding Stream.write
sink_write_lem s bs = (record { bytes = s.bytes ++ bs }, refl, tt, refl)

abbrev pub sink_write_laws : WriteLaws sink_write
sink_write_laws = record {
  written = λ s. s.bytes;
  Room = λ s m. Unit;
  buf_mut_lem = sink_buf_mut_laws;
  write_lem = λ s m bs a pos. sink_write_lem s bs;
  reserve_lem = λ s m additional room. (tt, refl);
}
