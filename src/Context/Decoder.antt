-- ===== src/Context/Decoder.antt =====
-- src/context.rs, `DecoderContext`.
use lencode.Prelude.{Option, none, some}
use lencode.Dedupe.Values.{Values}
use lencode.Dedupe.Decoder as Dedupe
use lencode.Diff.Decoder as Diff

module _ (V : Values) where
  pub record DecoderContext : Type 0 where
    pub dedupe : Option (Dedupe.DedupeDecoder V)
    pub diff : Option Diff.DiffDecoder

  unfoldable pub new : DecoderContext
  new = record { dedupe = none; diff = none }

  unfoldable pub with_dedupe : DecoderContext
  with_dedupe = record { dedupe = some (Dedupe.new V); diff = none }

  unfoldable pub with_diff : DecoderContext
  with_diff = record { dedupe = none; diff = some Diff.new }

  unfoldable pub with_all : DecoderContext
  with_all = record { dedupe = some (Dedupe.new V); diff = some Diff.new }
