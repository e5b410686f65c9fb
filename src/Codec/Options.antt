-- ===== src/Codec/Options.antt =====
-- src/lib.rs, `Encode` and `Decode` for `Option<T>` and `Result<T, E>`: a Boolean, and the value.
use lencode.Prelude.{ℕ, ◌+◌, max, ◌⊎◌, inl, inr, true, false, if◌then◌else◌, Option, none, some}
use lencode.Io.{M, Read, Write, pure, ◌>>=◌, ◌⊕◌}
use lencode.Io.Context.{on_right}
use lencode.Varint.Generic.{encode_bool, decode_bool}
use lencode.Codec.Traits.{Coding}

module _ {X Y : Type 0} where
  unfoldable pub encode_option :
      (C : Coding X Y) {W : Type 0} ⦃io : Write W⦄ → Option C.Value → M (Option X × W) ℕ
  encode_option C (some value) = on_right (encode_bool true) ⊕ C.encode_ext value
  encode_option C none = on_right (encode_bool false)

  unfoldable pub decode_option :
      (C : Coding X Y) {R : Type 0} ⦃io : Read R⦄ → M (Option Y × R) (Option C.Value)
  decode_option C = on_right decode_bool >>= λ present.
      if present then (C.decode_ext >>= λ value. pure (some value)) else pure none

  abbrev pub option : Coding X Y → Coding X Y
  option C = record {
    Value = Option C.Value;
    size_of = C.size_of + 1;
    encode_ext = encode_option C;
    decode_ext = decode_option C;
  }

  -- `Ok(value)` is `inl value`, `Err(err)` is `inr err`.
  unfoldable pub encode_result :
      (T E : Coding X Y) {W : Type 0} ⦃io : Write W⦄ → T.Value ⊎ E.Value → M (Option X × W) ℕ
  encode_result T E (inl value) = on_right (encode_bool true) ⊕ T.encode_ext value
  encode_result T E (inr err) = on_right (encode_bool false) ⊕ E.encode_ext err

  unfoldable pub decode_result :
      (T E : Coding X Y) {R : Type 0} ⦃io : Read R⦄ → M (Option Y × R) (T.Value ⊎ E.Value)
  decode_result T E = on_right decode_bool >>= λ is_ok.
      if is_ok
      then (T.decode_ext >>= λ value. pure (inl value))
      else (E.decode_ext >>= λ err. pure (inr err))

  abbrev pub result : Coding X Y → Coding X Y → Coding X Y
  result T E = record {
    Value = T.Value ⊎ E.Value;
    size_of = max T.size_of E.size_of + 1;
    encode_ext = encode_result T E;
    decode_ext = decode_result T E;
  }
