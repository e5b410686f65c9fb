-- ===== src/Codec/OptionLaws.antt =====
-- `Option` and `Result` of src/lib.rs keep the promise of their values.
use lencode.Prelude.{
  ◌<◌, ℕ, ◌+◌, ◌≡◌, refl, ◌⊎◌, inl, inr, Bool, true, false, if◌then◌else◌, Option, none, some, List,
  [], ◌∷◌, ◌++◌, length,
}
use lencode.Io.{M, pure, ◌>>=◌, ◌⊕◌, Read, Write, ReadLaws, WriteLaws}
use lencode.Io.Context.{
  AppendsWith, ReadsWith, AppendsWith-chain, Room-append, ReadsWith-bind, on_right,
  on_right-AppendsWith, on_right-ReadsWith,
}
use lencode.Varint.Generic.{encode_bool, decode_bool, bool_byte}
use lencode.Varint.Bool.{encode_bool-Appends, decode_bool-Reads}
use lencode.Codec.Traits.{Coding}
use lencode.Context.Sync.{InStep}
use lencode.Codec.Laws.{CodingLaws}
use lencode.Codec.Options.{
  encode_option, decode_option, option, encode_result, decode_result, result,
}

flag-chain-Appends :
    {E W : Type 0} ⦃io : Write W⦄ (laws : WriteLaws io) (flag : Bool) (act : M (E × W) ℕ) (e e' : E)
    (bs : List ℕ) (m : ℕ) (w : W)
    → laws.Room w (length (bool_byte flag ∷ bs) + m)
    → ((w' : W) → laws.Room w' (length bs + m) → AppendsWith laws act e w' bs e' m)
    → AppendsWith laws (on_right (encode_bool flag) ⊕ act) e w (bool_byte flag ∷ bs) e' m
flag-chain-Appends laws flag act e e' bs m w room next =
    AppendsWith-chain laws (on_right (encode_bool flag)) act e e e' w (bool_byte flag ∷ []) bs m
      (on_right-AppendsWith laws e (encode_bool flag) w (bool_byte flag ∷ []) _
        (encode_bool-Appends laws flag _ w (Room-append laws w (bool_byte flag ∷ []) bs m room)))
      next

flag-bind-Reads :
    {D R A : Type 0} ⦃io : Read R⦄ (laws : ReadLaws io) (flag : Bool) (f : Bool → M (D × R) A)
    (d d' : D) (bs : List ℕ) (r : R) (a : A) (rest : List ℕ)
    → laws.IsValid r
    → laws.remaining r ≡ bool_byte flag ∷ bs
    → ((r' : R) → laws.IsValid r' → laws.remaining r' ≡ bs → ReadsWith laws (f flag) d r' a d' rest)
    → ReadsWith laws (on_right decode_bool >>= f) d r a d' rest
flag-bind-Reads laws flag f d d' bs r a rest valid left next =
    ReadsWith-bind laws (on_right decode_bool) f d d d' r flag a bs rest
      (on_right-ReadsWith laws d decode_bool r flag bs
        (decode_bool-Reads laws flag bs r valid left))
      next

-- What is read, in a constructor.
pub wrapped-Reads :
    {D R A B : Type 0} ⦃io : Read R⦄ (laws : ReadLaws io) (act : M (D × R) A) (f : A → B) (d d' : D)
    (r : R) (a : A) (rest : List ℕ)
    → ReadsWith laws act d r a d' rest
    → ReadsWith laws (act >>= λ x. pure (f x)) d r (f a) d' rest
wrapped-Reads laws act f d d' r a rest (r', h, valid, left) = (r', rw h, valid, left)

module _ {X Y : Type 0} (S : X → Y → Type 0) where
  module _ (C : Coding X Y) (L : CodingLaws S C) where
    abbrev option_coded : Option X → Option C.Value → List ℕ
    option_coded e none = bool_byte false ∷ []
    option_coded e (some v) = bool_byte true ∷ L.coded e v

    abbrev OptionCodable : Option X → Option C.Value → Type 0
    OptionCodable e none = Unit
    OptionCodable e (some v) = L.IsCodable e v

    abbrev after_option : Option X → Option C.Value → Option X
    after_option e none = e
    after_option e (some v) = L.after e v

    abbrev after_option_read : Option X → Option Y → Option C.Value → Option Y
    after_option_read e d none = d
    after_option_read e d (some v) = L.after_read e d v

    pub after_option-InStep :
        (e : Option X) (d : Option Y) (o : Option C.Value)
        → InStep S e d
        → OptionCodable e o
        → InStep S (after_option e o) (after_option_read e d o)
    after_option-InStep e d none s fits = s
    after_option-InStep e d (some v) s fits = L.after-InStep e d v s fits

    pub encode_option-Appends :
        {W : Type 0} ⦃io : Write W⦄ (laws : WriteLaws io) (e : Option X) (d : Option Y)
        (o : Option C.Value) (m : ℕ) (w : W)
        → InStep S e d
        → OptionCodable e o
        → laws.Room w (length (option_coded e o) + m)
        → 0 < m
        → AppendsWith laws (encode_option C o) e w (option_coded e o) (after_option e o) m
    unfolding encode_option
    encode_option-Appends laws e d none m w s fits room more =
        on_right-AppendsWith laws e (encode_bool false) w (bool_byte false ∷ []) m
          (encode_bool-Appends laws false m w room)
    encode_option-Appends laws e d (some v) m w s fits room more =
        flag-chain-Appends laws true (C.encode_ext v) e (L.after e v) (L.coded e v) m w room
          (λ w' room'. L.encode-Appends laws e d v m w' s fits room' more)

    pub decode_option-Reads :
        {R : Type 0} ⦃io : Read R⦄ (laws : ReadLaws io) (e : Option X) (d : Option Y)
        (o : Option C.Value) (rest : List ℕ) (r : R)
        → InStep S e d
        → OptionCodable e o
        → laws.IsValid r
        → laws.remaining r ≡ option_coded e o ++ rest
        → ReadsWith laws (decode_option C) d r o (after_option_read e d o) rest
    unfolding decode_option
    decode_option-Reads laws e d none rest r s fits valid left =
        flag-bind-Reads laws false
          (λ present. if present then (C.decode_ext >>= λ value. pure (some value)) else pure none)
          d d rest r none rest valid left (λ r' valid' left'. (r', refl, valid', left'))
    decode_option-Reads laws e d (some v) rest r s fits valid left =
        flag-bind-Reads laws true
          (λ present. if present then (C.decode_ext >>= λ value. pure (some value)) else pure none)
          d (L.after_read e d v) (L.coded e v ++ rest) r (some v) rest valid left
          (λ r' valid' left'.
            wrapped-Reads laws C.decode_ext some d (L.after_read e d v) r' v rest
              (L.decode-Reads laws e d v rest r' s fits valid' left'))

    abbrev pub option-CodingLaws : CodingLaws S (option C)
    option-CodingLaws = record {
      coded = option_coded;
      IsCodable = OptionCodable;
      after = after_option;
      after_read = after_option_read;
      after-InStep = after_option-InStep;
      encode-Appends =
          λ laws e d o m w s fits room more. encode_option-Appends laws e d o m w s fits room more;
      decode-Reads = λ laws e d o rest r s fits valid left.
          decode_option-Reads laws e d o rest r s fits valid left;
    }

  module _ (T E : Coding X Y) (K : CodingLaws S T) (L : CodingLaws S E) where
    abbrev result_coded : Option X → T.Value ⊎ E.Value → List ℕ
    result_coded e (inl v) = bool_byte true ∷ K.coded e v
    result_coded e (inr v) = bool_byte false ∷ L.coded e v

    abbrev ResultCodable : Option X → T.Value ⊎ E.Value → Type 0
    ResultCodable e (inl v) = K.IsCodable e v
    ResultCodable e (inr v) = L.IsCodable e v

    abbrev after_result : Option X → T.Value ⊎ E.Value → Option X
    after_result e (inl v) = K.after e v
    after_result e (inr v) = L.after e v

    abbrev after_result_read : Option X → Option Y → T.Value ⊎ E.Value → Option Y
    after_result_read e d (inl v) = K.after_read e d v
    after_result_read e d (inr v) = L.after_read e d v

    pub after_result-InStep :
        (e : Option X) (d : Option Y) (o : T.Value ⊎ E.Value)
        → InStep S e d
        → ResultCodable e o
        → InStep S (after_result e o) (after_result_read e d o)
    after_result-InStep e d (inl v) s fits = K.after-InStep e d v s fits
    after_result-InStep e d (inr v) s fits = L.after-InStep e d v s fits

    pub encode_result-Appends :
        {W : Type 0} ⦃io : Write W⦄ (laws : WriteLaws io) (e : Option X) (d : Option Y)
        (o : T.Value ⊎ E.Value) (m : ℕ) (w : W)
        → InStep S e d
        → ResultCodable e o
        → laws.Room w (length (result_coded e o) + m)
        → 0 < m
        → AppendsWith laws (encode_result T E o) e w (result_coded e o) (after_result e o) m
    unfolding encode_result
    encode_result-Appends laws e d (inl v) m w s fits room more =
        flag-chain-Appends laws true (T.encode_ext v) e (K.after e v) (K.coded e v) m w room
          (λ w' room'. K.encode-Appends laws e d v m w' s fits room' more)
    encode_result-Appends laws e d (inr v) m w s fits room more =
        flag-chain-Appends laws false (E.encode_ext v) e (L.after e v) (L.coded e v) m w room
          (λ w' room'. L.encode-Appends laws e d v m w' s fits room' more)

    abbrev branch : {R : Type 0} ⦃io : Read R⦄ → Bool → M (Option Y × R) (T.Value ⊎ E.Value)
    branch is_ok =
        if is_ok
        then (T.decode_ext >>= λ value. pure (inl value))
        else (E.decode_ext >>= λ err. pure (inr err))

    pub decode_result-Reads :
        {R : Type 0} ⦃io : Read R⦄ (laws : ReadLaws io) (e : Option X) (d : Option Y)
        (o : T.Value ⊎ E.Value) (rest : List ℕ) (r : R)
        → InStep S e d
        → ResultCodable e o
        → laws.IsValid r
        → laws.remaining r ≡ result_coded e o ++ rest
        → ReadsWith laws (decode_result T E) d r o (after_result_read e d o) rest
    unfolding decode_result
    decode_result-Reads laws e d (inl v) rest r s fits valid left =
        flag-bind-Reads laws true branch d (K.after_read e d v) (K.coded e v ++ rest) r (inl v) rest
          valid left
          (λ r' valid' left'.
            wrapped-Reads laws T.decode_ext inl d (K.after_read e d v) r' v rest
              (K.decode-Reads laws e d v rest r' s fits valid' left'))
    decode_result-Reads laws e d (inr v) rest r s fits valid left =
        flag-bind-Reads laws false branch d (L.after_read e d v) (L.coded e v ++ rest) r (inr v)
          rest valid left
          (λ r' valid' left'.
            wrapped-Reads laws E.decode_ext inr d (L.after_read e d v) r' v rest
              (L.decode-Reads laws e d v rest r' s fits valid' left'))

    abbrev pub result-CodingLaws : CodingLaws S (result T E)
    result-CodingLaws = record {
      coded = result_coded;
      IsCodable = ResultCodable;
      after = after_result;
      after_read = after_result_read;
      after-InStep = after_result-InStep;
      encode-Appends =
          λ laws e d o m w s fits room more. encode_result-Appends laws e d o m w s fits room more;
      decode-Reads = λ laws e d o rest r s fits valid left.
          decode_result-Reads laws e d o rest r s fits valid left;
    }
