-- ===== src/Context/Encoder.antt =====
-- src/context.rs, `EncoderContext`.
use lencode.Prelude.{Option, none, some}
use lencode.Dedupe.Values.{Values}
use lencode.Dedupe.Encoder as Dedupe
use lencode.Diff.Encoder as Diff

module _ (V : Values) where
  pub record EncoderContext : Type 0 where
    pub dedupe : Option (Dedupe.DedupeEncoder V)
    pub diff : Option Diff.DiffEncoder

  unfoldable pub new : EncoderContext
  new = record { dedupe = none; diff = none }

  unfoldable pub with_dedupe : EncoderContext
  with_dedupe = record { dedupe = some (Dedupe.new V); diff = none }

  unfoldable pub with_diff : EncoderContext
  with_diff = record { dedupe = none; diff = some Diff.new }

  unfoldable pub with_all : EncoderContext
  with_all = record { dedupe = some (Dedupe.new V); diff = some Diff.new }
