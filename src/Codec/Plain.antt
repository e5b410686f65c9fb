-- ===== src/Codec/Plain.antt =====
-- Implementations of `Encode` and `Decode` that leave the context alone (`_ctx` in src/lib.rs).
use lencode.Prelude.{◌<◌, ℕ, ◌+◌, ◌≡◌, List, ◌++◌, length}
use lencode.Io.{M, Read, Write, ReadLaws, WriteLaws, Appends, Reads}
use lencode.Io.Context.{on_right, on_right-AppendsWith, on_right-ReadsWith}
use lencode.Codec.Traits.{Coding}
use lencode.Codec.Laws.{CodingLaws}

pub record Plain : Type 1 where
  pub Value : Type 0
  pub size_of : ℕ
  pub write : {W : Type 0} ⦃io : Write W⦄ → Value → M W ℕ
  pub read : {R : Type 0} ⦃io : Read R⦄ → M R Value

abbrev pub plain : {X Y : Type 0} → Plain → Coding X Y
plain P = record {
  Value = P.Value;
  size_of = P.size_of;
  encode_ext = λ v. on_right (P.write v);
  decode_ext = on_right P.read;
}

pub record PlainLaws (P : Plain) : Type 1 where
  pub bytes : P.Value → List ℕ
  pub Fits : P.Value → Type 0
  pub write-Appends :
      {W : Type 0} ⦃io : Write W⦄ (laws : WriteLaws io) (v : P.Value) (m : ℕ) (w : W)
      → Fits v
      → laws.Room w (length (bytes v) + m)
      → 0 < m
      → Appends laws (P.write v) w (bytes v) m
  pub read-Reads :
      {R : Type 0} ⦃io : Read R⦄ (laws : ReadLaws io) (v : P.Value) (rest : List ℕ) (r : R)
      → Fits v
      → laws.IsValid r
      → laws.remaining r ≡ bytes v ++ rest
      → Reads laws P.read r v rest

abbrev pub plain-CodingLaws :
    {X Y : Type 0} (S : X → Y → Type 0) {P : Plain} → PlainLaws P → CodingLaws S (plain P)
plain-CodingLaws S {P} L = record {
  coded = λ e v. L.bytes v;
  IsCodable = λ e v. L.Fits v;
  after = λ e v. e;
  after_read = λ e d v. d;
  after-InStep = λ e d v s fits. s;
  encode-Appends = λ laws e d v m w s fits room more.
      on_right-AppendsWith laws e (P.write v) w (L.bytes v) m
        (L.write-Appends laws v m w fits room more);
  decode-Reads = λ laws e d v rest r s fits valid left.
      on_right-ReadsWith laws d P.read r v rest (L.read-Reads laws v rest r fits valid left);
}
