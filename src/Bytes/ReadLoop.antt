-- ===== src/Bytes/ReadLoop.antt =====
-- The loop that fills a payload through `read` in src/lib.rs, `while read < payload_len`, at readers
-- that answer a call with a part of what it asks for, as `std::io::Read` may.
use lencode.Prelude.{
  ◌/◌, ◌%◌, ◌^◌, ◌==◌, Bool, true, false, if◌then◌else◌, ℕ, zero, suc, ◌-◌, ◌≤◌, ◌<◌, ◌≡◌, refl, ap,
  ◌∙◌, arith, pos→ne_zero, List, [], ◌∷◌, ◌++◌, length, take, drop, take-drop, take-append_le,
  drop-append_le, take_all, drop_all, length-take, length-drop, length-append,
}
use lencode.Io.{M, ok, err, fault, Fault, endless_loop, Result, after, pure, Read, ReadLaws}
use lencode.Io.Stream.{Source, source_read}
use lencode.Io.Stream
use lencode.Io.MemoryLaws.{source_read_laws}
use lencode.Varint.Encoding.{encoding}
use lencode.Varint.Fixed.{decode_varint_u64}
use lencode.Varint.Decode.{decode_word-Reads}
use lencode.Bytes.Zstd.{Zstd}
use lencode.Bytes.Vec.{read_loop, with_payload, decompressed, decode_bytes}

-- A reader that stands for the bytes still unread. Where it has all that a call asks for, it
-- answers with one byte or more from their front, as many as it likes up to that.
pub record PartialReads {R : Type 0} (io : Read R) : Type 1 where
  pub remaining : R → List ℕ
  pub IsValid : R → Type 0
  pub read_lem :
      (r : R) (n : ℕ)
      → IsValid r
      → 0 < n
      → n ≤ length (remaining r)
      → (k : ℕ) × (r' : R) × (0 < k)
        × (k ≤ n)
        × (io.read n r ≡ (r', ok (take k (remaining r))))
        × IsValid r'
        × (remaining r' ≡ drop k (remaining r))

-- A reader that answers with all of it is one.
abbrev pub whole_reads : {R : Type 0} {io : Read R} → ReadLaws io → PartialReads io
whole_reads laws = record {
  remaining = laws.remaining;
  IsValid = laws.IsValid;
  read_lem = λ r n valid pos long.
      let (r', h, valid', left) = laws.read_lem r n valid pos long in
      (n, r', pos, omega arith, h, valid', left);
}

-- The call returns `a` and leaves the bytes `rest`.
abbrev pub Fills :
    {R : Type 0} {io : Read R} (laws : PartialReads io)
    → M R (List ℕ)
    → R
    → List ℕ
    → List ℕ
    → Type 0
Fills {R} laws m r a rest =
    (r' : R) × (m r ≡ (r', ok a)) × laws.IsValid r' × (laws.remaining r' ≡ rest)

module _ {R : Type 0} ⦃io : Read R⦄ (laws : PartialReads io) where
  -- A call for a payload answers with its first bytes, and leaves the others.
  part :
      (bs rest : List ℕ) (r : R)
      → 0 < length bs
      → laws.IsValid r
      → laws.remaining r ≡ bs ++ rest
      → (k : ℕ) × (r' : R) × (0 < k)
        × (k ≤ length bs)
        × (io.read (length bs) r ≡ (r', ok (take k bs)))
        × laws.IsValid r'
        × (laws.remaining r' ≡ drop k bs ++ rest)
  part bs rest r some_left valid e =
      let (k, r', pos, le, h, valid', left) =
        laws.read_lem r (length bs) valid some_left
          (omega (arith, ap length e, length-append bs rest)) in
      (
        k,
        r',
        pos,
        le,
        h ∙ ap (λ got. (r', ok got)) (ap (take k) e ∙ take-append_le k bs rest le),
        valid',
        left ∙ ap (drop k) e ∙ drop-append_le k bs rest le,
      )

  -- One round, and the loop at the bytes that it left.
  round :
      (fuel k : ℕ) (bs rest : List ℕ) (r r' : R)
      → 0 < length bs
      → k ≤ length bs
      → io.read (length bs) r ≡ (r', ok (take k bs))
      → Fills laws (read_loop fuel (length (drop k bs))) r' (drop k bs) rest
      → Fills laws (read_loop (suc fuel) (length bs)) r bs rest
  unfolding read_loop
  round fuel k bs rest r r' some_left le h (r'', h', valid, left) =
      let sizes : length bs - length (take k bs) ≡ length (drop k bs) =
        omega (arith, length-take k bs le, length-drop k bs) in
      (
        r'',
        rw (pos→ne_zero (length bs) some_left, h, sizes, h')
            (ap (λ got. (r'', ok got)) (take-drop k bs)),
        valid,
        left,
      )

  -- From a valid reader whose next bytes are the payload, which may answer each call with as little
  -- as one byte, the loop that fills a payload ends within as many rounds as the payload has bytes,
  -- and with any more of them allowed: it returns the payload and leaves what follows.
  pub read_loop-Fills :
      (fuel : ℕ) (payload rest : List ℕ) (r : R)
      → length payload ≤ fuel
      → laws.IsValid r
      → laws.remaining r ≡ payload ++ rest
      → Fills laws (read_loop fuel (length payload)) r payload rest
  unfolding read_loop
  read_loop-Fills zero [] rest r enough valid e = (r, refl, valid, e)
  read_loop-Fills zero (b ∷ payload) rest r enough valid e = absurd (omega arith)
  read_loop-Fills (suc fuel) [] rest r enough valid e = (r, refl, valid, e)
  read_loop-Fills (suc fuel) (b ∷ payload) rest r enough valid e =
      let bs = b ∷ payload in
      let (k, r', pos, le, h, valid', left) = part bs rest r (omega arith) valid e in
      round fuel k bs rest r r' (omega arith) le h
        (read_loop-Fills fuel (drop k bs) rest r' (omega (arith, length-drop k bs)) valid' left)

after-fault :
    {S A B : Type 0} (f : A → M S B) (got : S × Result A) (x : Fault)
    → got.1 ≡ fault x
    → (after f got).1 ≡ fault x
after-fault f (s, ok a) x h = cc
after-fault f (s, err e) x h = cc
after-fault f (s, fault y) x h = cc

-- The loop asks again after every answer of no bytes.
read_loop_endless :
    (fuel n : ℕ) (s : Source) → length s.rest < n → (read_loop fuel n s).1 ≡ fault endless_loop
unfolding read_loop Stream.read
read_loop_endless zero n s short = rw (pos→ne_zero n (omega arith)) refl
read_loop_endless (suc fuel) n s short =
    let got = take_all n s.rest (omega arith) in
    let none_left = drop_all n s.rest (omega arith) in
    let again = read_loop_endless fuel (n - length s.rest) (record { rest = [] }) (omega arith) in
    rw (pos→ne_zero n (omega arith), got, none_left)
      (after-fault (λ rest. pure (s.rest ++ rest)) _ endless_loop again)

-- What follows a payload that does not come is not reached.
with_payload_endless :
    (n : ℕ) (use_payload : List ℕ → M Source (List ℕ)) (s : Source)
    → length s.rest < n
    → (with_payload n use_payload s).1 ≡ fault endless_loop
unfolding with_payload
with_payload_endless n use_payload s short =
    after-fault use_payload (read_loop n n s) endless_loop (read_loop_endless n n s short)

endless_by :
    (header : ℕ) (Z : Zstd) (c : Bool) (s : Source)
    → length s.rest < header / 2
    → ((if c
          then with_payload (header / 2 ^ 1) (decompressed Z)
          else with_payload (header / 2 ^ 1) pure)
        s).1
      ≡ fault endless_loop
endless_by header Z true s short = with_payload_endless (header / 2) (decompressed Z) s short
endless_by header Z false s short = with_payload_endless (header / 2) pure s short

-- What is left of a source behind the header.
abbrev pub behind : List ℕ → Source
behind bs = record { rest = bs }

-- A `std::io::Read` source that ends before the payload that its header, any 64-bit number,
-- announces, raw or compressed: the loop that fills the payload has not ended after any number of
-- rounds, so `decode_ext` at `Vec<u8>` does not return, and gives no error.
pub decode_bytes_endless :
    (Z : Zstd) (header : ℕ) (bs : List ℕ) (s : Source)
    → header < 2 ^ 64
    → length bs < header / 2
    → s.rest ≡ encoding 8 header ++ bs
    → ((fuel : ℕ) → (read_loop fuel (header / 2) (behind bs)).1 ≡ fault endless_loop)
      × ((decode_bytes Z s).1 ≡ fault endless_loop)
unfolding decode_bytes decode_varint_u64
decode_bytes_endless Z header bs s small short e =
    let (s', h, valid, left) =
      decode_word-Reads source_read_laws 8 header bs s (omega arith) (omega arith) tt e in
    (
      λ fuel. read_loop_endless fuel (header / 2) (behind bs) short,
      rw h (endless_by header Z (header % 2 == 1) s' (omega (arith, ap length left, short))),
    )
