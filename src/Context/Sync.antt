-- ===== src/Context/Sync.antt =====
-- The invariant between the two contexts of src/context.rs: each part that the one has, the other
-- has too, in step with it.
use lencode.Prelude.{Option, none, some}
use lencode.Dedupe.Values.{Values}
use lencode.Dedupe.Sync.{Sync-new}
use lencode.Dedupe.Sync as Dedupe
use lencode.Diff.Sync as Diff
use lencode.Diff.Session
use lencode.Context.Encoder
use lencode.Context.Decoder

-- Both sides have no state, or both have one and the two are in step.
abbrev pub InStep : {X Y : Type 0} → (X → Y → Type 0) → Option X → Option Y → Type 0
InStep S none none = Unit
InStep S (some x) (some y) = S x y
InStep S none (some y) = ⊥
InStep S (some x) none = ⊥

module _ (V : Values) where
  pub record ContextSync (e : Encoder.EncoderContext V) (d : Decoder.DecoderContext V)
      : Type 0 where
    pub dedupe : InStep (Dedupe.Sync V) e.dedupe d.dedupe
    pub diff : InStep Diff.Sync e.diff d.diff

  -- New contexts of one kind are in step.
  pub ContextSync-new : ContextSync (Encoder.new V) (Decoder.new V)
  unfolding Encoder.new Decoder.new
  ContextSync-new = record { dedupe = tt; diff = tt }

  pub ContextSync-with_dedupe : ContextSync (Encoder.with_dedupe V) (Decoder.with_dedupe V)
  unfolding Encoder.with_dedupe Decoder.with_dedupe
  ContextSync-with_dedupe = record { dedupe = Sync-new V; diff = tt }

  pub ContextSync-with_diff : ContextSync (Encoder.with_diff V) (Decoder.with_diff V)
  unfolding Encoder.with_diff Decoder.with_diff
  ContextSync-with_diff = record { dedupe = tt; diff = Session.Sync-new }

  pub ContextSync-with_all : ContextSync (Encoder.with_all V) (Decoder.with_all V)
  unfolding Encoder.with_all Decoder.with_all
  ContextSync-with_all = record { dedupe = Sync-new V; diff = Session.Sync-new }
