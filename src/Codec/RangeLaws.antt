-- ===== src/Codec/RangeLaws.antt =====
-- The ranges of src/lib.rs keep the promise of their ends.
use lencode.Prelude.{◌<◌, ℕ, ◌+◌, ◌≡◌, sym, false, Option, List, ◌++◌, length}
use mathlib.Core.Path.{subst}
use lencode.Io.{Read, Write, ReadLaws, WriteLaws}
use lencode.Io.Context.{AppendsWith, ReadsWith}
use lencode.Codec.Traits.{Coding}
use lencode.Context.Sync.{InStep}
use lencode.Codec.Laws.{CodingLaws}
use lencode.Codec.Products.{
  Range, RangeInclusive, inclusive_new, encode_range, decode_range, range, encode_range_inclusive,
  decode_range_inclusive, range_inclusive, range_from, range_to, range_to_inclusive, cow,
}
use lencode.Codec.OptionLaws.{wrapped-Reads}
use lencode.Codec.PairLaws.{
  ends_coded, EndsCodable, after_ends_read, after_ends-InStep, ends-Appends, ends-Reads,
}

module _ {X Y : Type 0} (S : X → Y → Type 0) (C : Coding X Y) (L : CodingLaws S C) where
  pub encode_range-Appends :
      {W : Type 0} ⦃io : Write W⦄ (laws : WriteLaws io) (e : Option X) (d : Option Y)
      (v : Range C.Value) (m : ℕ) (w : W)
      → InStep S e d
      → EndsCodable S C C L L e v.start v.end
      → laws.Room w (length (ends_coded S C C L L e v.start v.end) + m)
      → 0 < m
      → AppendsWith laws
          (encode_range C v)
          e
          w
          (ends_coded S C C L L e v.start v.end)
          (L.after (L.after e v.start) v.end)
          m
  unfolding encode_range
  encode_range-Appends laws e d v m w s fits room more =
      ends-Appends S C C L L laws e d v.start v.end m w s fits room more

  pub decode_range-Reads :
      {R : Type 0} ⦃io : Read R⦄ (laws : ReadLaws io) (e : Option X) (d : Option Y)
      (v : Range C.Value) (rest : List ℕ) (r : R)
      → InStep S e d
      → EndsCodable S C C L L e v.start v.end
      → laws.IsValid r
      → laws.remaining r ≡ ends_coded S C C L L e v.start v.end ++ rest
      → ReadsWith laws (decode_range C) d r v (after_ends_read S C C L L e d v.start v.end) rest
  unfolding decode_range
  decode_range-Reads laws e d v rest r s fits valid left =
      ends-Reads S C C L L (λ start end. record { start = start; end = end }) laws e d v.start v.end
        rest r s fits valid left

  abbrev pub range-CodingLaws : CodingLaws S (range C)
  range-CodingLaws = record {
    coded = λ e v. ends_coded S C C L L e v.start v.end;
    IsCodable = λ e v. EndsCodable S C C L L e v.start v.end;
    after = λ e v. L.after (L.after e v.start) v.end;
    after_read = λ e d v. after_ends_read S C C L L e d v.start v.end;
    after-InStep = λ e d v s fits. after_ends-InStep S C C L L e d v.start v.end s fits;
    encode-Appends =
        λ laws e d v m w s fits room more. encode_range-Appends laws e d v m w s fits room more;
    decode-Reads = λ laws e d v rest r s fits valid left.
        decode_range-Reads laws e d v rest r s fits valid left;
  }

  pub encode_range_inclusive-Appends :
      {W : Type 0} ⦃io : Write W⦄ (laws : WriteLaws io) (e : Option X) (d : Option Y)
      (v : RangeInclusive C.Value) (m : ℕ) (w : W)
      → InStep S e d
      → EndsCodable S C C L L e v.start v.end
      → laws.Room w (length (ends_coded S C C L L e v.start v.end) + m)
      → 0 < m
      → AppendsWith laws
          (encode_range_inclusive C v)
          e
          w
          (ends_coded S C C L L e v.start v.end)
          (L.after (L.after e v.start) v.end)
          m
  unfolding encode_range_inclusive
  encode_range_inclusive-Appends laws e d v m w s fits room more =
      ends-Appends S C C L L laws e d v.start v.end m w s fits room more

  -- For a type of ends that keeps CodingLaws: in step with the encoder, with ends within their
  -- bounds, and from a valid reader whose next bytes are those of a range, ends included,
  -- `decode_ext` returns a range of the same ends that is not used up, whether the one encoded was
  -- or not, and leaves what follows.
  pub decode_range_inclusive-Reads :
      {R : Type 0} ⦃io : Read R⦄ (laws : ReadLaws io) (e : Option X) (d : Option Y)
      (v : RangeInclusive C.Value) (rest : List ℕ) (r : R)
      → InStep S e d
      → EndsCodable S C C L L e v.start v.end
      → laws.IsValid r
      → laws.remaining r ≡ ends_coded S C C L L e v.start v.end ++ rest
      → ReadsWith laws
          (decode_range_inclusive C)
          d
          r
          (record v { exhausted = false })
          (after_ends_read S C C L L e d v.start v.end)
          rest
  unfolding decode_range_inclusive
  decode_range_inclusive-Reads laws e d v rest r s fits valid left =
      ends-Reads S C C L L inclusive_new laws e d v.start v.end rest r s fits valid left

  pub decode_fresh_range-Reads :
      {R : Type 0} ⦃io : Read R⦄ (laws : ReadLaws io) (e : Option X) (d : Option Y)
      (v : RangeInclusive C.Value) (rest : List ℕ) (r : R)
      → InStep S e d
      → (v.exhausted ≡ false) × EndsCodable S C C L L e v.start v.end
      → laws.IsValid r
      → laws.remaining r ≡ ends_coded S C C L L e v.start v.end ++ rest
      → ReadsWith laws
          (decode_range_inclusive C)
          d
          r
          v
          (after_ends_read S C C L L e d v.start v.end)
          rest
  decode_fresh_range-Reads laws e d v rest r s (fresh, fits) valid left =
      subst
        (λ b.
          ReadsWith laws (decode_range_inclusive C) d r (record v { exhausted = b })
            (after_ends_read S C C L L e d v.start v.end) rest)
        (sym fresh) (decode_range_inclusive-Reads laws e d v rest r s fits valid left)

  -- A range that no iterator has used up.
  abbrev pub range_inclusive-CodingLaws : CodingLaws S (range_inclusive C)
  range_inclusive-CodingLaws = record {
    coded = λ e v. ends_coded S C C L L e v.start v.end;
    IsCodable = λ e v. (v.exhausted ≡ false) × EndsCodable S C C L L e v.start v.end;
    after = λ e v. L.after (L.after e v.start) v.end;
    after_read = λ e d v. after_ends_read S C C L L e d v.start v.end;
    after-InStep = λ e d v s fits. after_ends-InStep S C C L L e d v.start v.end s fits.1;
    encode-Appends = λ laws e d v m w s fits room more.
        encode_range_inclusive-Appends laws e d v m w s fits.1 room more;
    decode-Reads = λ laws e d v rest r s fits valid left.
        decode_fresh_range-Reads laws e d v rest r s fits valid left;
  }

  abbrev pub range_from-CodingLaws : CodingLaws S (range_from C)
  range_from-CodingLaws = record {
    coded = λ e v. L.coded e v.start;
    IsCodable = λ e v. L.IsCodable e v.start;
    after = λ e v. L.after e v.start;
    after_read = λ e d v. L.after_read e d v.start;
    after-InStep = λ e d v s fits. L.after-InStep e d v.start s fits;
    encode-Appends =
        λ laws e d v m w s fits room more. L.encode-Appends laws e d v.start m w s fits room more;
    decode-Reads = λ laws e d v rest r s fits valid left.
        wrapped-Reads laws C.decode_ext (λ start. record { start = start }) d
          (L.after_read e d v.start) r v.start rest
          (L.decode-Reads laws e d v.start rest r s fits valid left);
  }

  abbrev pub range_to-CodingLaws : CodingLaws S (range_to C)
  range_to-CodingLaws = record {
    coded = λ e v. L.coded e v.end;
    IsCodable = λ e v. L.IsCodable e v.end;
    after = λ e v. L.after e v.end;
    after_read = λ e d v. L.after_read e d v.end;
    after-InStep = λ e d v s fits. L.after-InStep e d v.end s fits;
    encode-Appends =
        λ laws e d v m w s fits room more. L.encode-Appends laws e d v.end m w s fits room more;
    decode-Reads = λ laws e d v rest r s fits valid left.
        wrapped-Reads laws C.decode_ext (λ end. record { end = end }) d (L.after_read e d v.end) r
          v.end rest (L.decode-Reads laws e d v.end rest r s fits valid left);
  }

  abbrev pub range_to_inclusive-CodingLaws : CodingLaws S (range_to_inclusive C)
  range_to_inclusive-CodingLaws = record {
    coded = λ e v. L.coded e v.end;
    IsCodable = λ e v. L.IsCodable e v.end;
    after = λ e v. L.after e v.end;
    after_read = λ e d v. L.after_read e d v.end;
    after-InStep = λ e d v s fits. L.after-InStep e d v.end s fits;
    encode-Appends =
        λ laws e d v m w s fits room more. L.encode-Appends laws e d v.end m w s fits room more;
    decode-Reads = λ laws e d v rest r s fits valid left.
        wrapped-Reads laws C.decode_ext (λ end. record { end = end }) d (L.after_read e d v.end) r
          v.end rest (L.decode-Reads laws e d v.end rest r s fits valid left);
  }

  abbrev pub cow-CodingLaws : CodingLaws S (cow C)
  cow-CodingLaws = record {
    coded = L.coded;
    IsCodable = L.IsCodable;
    after = L.after;
    after_read = L.after_read;
    after-InStep = L.after-InStep;
    encode-Appends =
        λ laws e d v m w s fits room more. L.encode-Appends laws e d v m w s fits room more;
    decode-Reads = λ laws e d v rest r s fits valid left.
        wrapped-Reads laws C.decode_ext (λ owned. owned) d (L.after_read e d v) r v rest
          (L.decode-Reads laws e d v rest r s fits valid left);
  }
