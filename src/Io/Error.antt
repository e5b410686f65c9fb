-- ===== src/Io/Error.antt =====
-- src/io.rs, `Error`, and the outcome of a call: a value, an error, or a fault, where the Rust
-- code panics or has undefined behaviour. A call is a function of the state behind `&mut`, and
-- the state is kept when the call fails.
use lencode.Prelude.{ℕ, ◌+◌}

-- The kinds of `std::io::Error` that the conversions name; `other` is any other error of it.
pub data ErrorKind : Type 0 where
  write_zero invalid_data invalid_input unexpected_eof : ErrorKind
  other : ℕ → ErrorKind

pub data Error : Type 0 where
  invalid_data incorrect_length writer_out_of_space reader_out_of_data : Error
  std_io : ErrorKind → Error

-- `slice_index` and `shift_overflow` are panics (the second where overflow checks are on);
-- `out_of_bounds` is a raw copy or an unchecked slice past the end of its memory;
-- `endless_loop` is a loop that a reader can hold for ever.
pub data Fault : Type 0 where
  slice_index shift_overflow out_of_bounds endless_loop : Fault

pub data Result {ℓ} (A : Type ℓ) : Type ℓ where
  ok : A → Result A
  err : Error → Result A
  fault : Fault → Result A

-- `From<std::io::Error> for Error`
pub from_std : ErrorKind → Error
from_std e = std_io e

-- `From<Error> for std::io::Error`
pub into_std : Error → ErrorKind
into_std writer_out_of_space = write_zero
into_std Error.invalid_data = ErrorKind.invalid_data
into_std incorrect_length = invalid_input
into_std (std_io e) = e
into_std reader_out_of_data = unexpected_eof

abbrev pub M : Type 0 → Type 0 → Type 0
M S A = S → S × Result A

module _ {S A : Type 0} where
  abbrev pub pure : A → M S A
  pure a s = (s, ok a)

  abbrev pub throw : Error → M S A
  throw e s = (s, err e)

  abbrev pub crash : Fault → M S A
  crash x s = (s, fault x)

-- The state changes, and nothing is returned.
abbrev pub modify : {S : Type 0} → (S → S) → M S (Unit {0})
modify f s = (f s, ok tt)

-- What follows a call, on its outcome: `?` passes an error on.
abbrev pub after : {S A B : Type 0} → (A → M S B) → S × Result A → S × Result B
after f (s, ok a) = f a s
after f (s, err e) = (s, err e)
after f (s, fault x) = (s, fault x)

infixl 5 ◌>>=◌ ◌>>◌
abbrev pub ◌>>=◌ : {S A B : Type 0} → M S A → (A → M S B) → M S B
◌>>=◌ m f s = after f (m s)

abbrev pub ◌>>◌ : {S B : Type 0} → M S (Unit {0}) → M S B → M S B
◌>>◌ m k s = after (λ _. k) (m s)

-- `total += a?; total += b?;`
infixr 6 ◌⊕◌
abbrev pub ◌⊕◌ : {S : Type 0} → M S ℕ → M S ℕ → M S ℕ
a ⊕ b = a >>= λ x. b >>= λ y. pure (x + y)
