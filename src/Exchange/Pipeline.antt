-- ===== src/Exchange/Pipeline.antt =====
-- The consumer of src/pipeline/staged_processor.cpp; its events are those that the queue hands out.
use titan_engine.Prelude.{ℕ, List, [], ◌∷◌, ◌++◌, Option, none, some}
use titan_engine.Core.{Symbol, Order, Trade}
use titan_engine.Exchange.Registry
use titan_engine.Exchange.Registry.{MatcherBackend, InstrumentRegistry}
pub mod Produce

pub data PipelineEventKind : Type 0 where
  submit_kind cancel_kind match_kind replace_kind shutdown_kind : PipelineEventKind

-- Without the time of the enqueuing, which only the callback sees.
pub record PipelineEvent : Type 0 where
  pub kind : PipelineEventKind
  pub sequence : ℕ
  pub symbol : Symbol
  pub order : Order
  pub cancel_id : ℕ

pub record StagedProcessor (M : Type 0) : Type 0 where
  pub registry : InstrumentRegistry M
  pub applied_sequences : List ℕ

-- The registry of an answer.
abbrev pub registry_of :
    {M A : Type 0} → Option (InstrumentRegistry M × A) → Option (InstrumentRegistry M)
registry_of none = none
registry_of (some x) = some x.0

module _ {M : Type 0} (backend : MatcherBackend M) where
  -- The `switch` of `consumerLoop`.
  unfoldable pub apply : PipelineEvent → InstrumentRegistry M → Option (InstrumentRegistry M)
  apply e r = elim e.kind [
    | submit_kind ↦ registry_of (Registry.submit_order backend e.symbol e.order r)
    | cancel_kind ↦ registry_of (Registry.cancel_order backend e.symbol e.cancel_id r)
    | match_kind ↦ registry_of (Registry.match_order backend e.symbol e.order r)
    | replace_kind ↦ registry_of (Registry.cancel_replace backend e.symbol e.cancel_id e.order r)
    | shutdown_kind ↦ some r
  ]

  abbrev pub applied :
      PipelineEvent → StagedProcessor M → Option (InstrumentRegistry M) → Option (StagedProcessor M)
  applied e p none = none
  applied e p (some r) =
      some (record { registry = r; applied_sequences = p.applied_sequences ++ e.sequence ∷ [] })

  abbrev pub and_then :
      (StagedProcessor M → Option (StagedProcessor M))
      → Option (StagedProcessor M)
      → Option (StagedProcessor M)
  and_then f none = none
  and_then f (some p) = f p

  -- `consumerLoop` on the events that the queue hands out; it stops at the first shutdown.
  unfoldable pub consume : List PipelineEvent → StagedProcessor M → Option (StagedProcessor M)
  unfolding apply
  consume [] p = some p
  consume (e ∷ es) p = elim e.kind [
    | shutdown_kind ↦ some p
    | _ ↦ and_then (consume es) (applied e p (apply e p.registry))
  ]
