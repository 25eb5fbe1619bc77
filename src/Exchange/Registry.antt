-- ===== src/Exchange/Registry.antt =====
-- `InstrumentRegistry` of src/exchange/instrument_registry.cpp, over the matchers of its backend.
use titan_engine.Prelude.{
  ℕ, ◌+◌, Bool, true, false, List, [], ◌∷◌, ◌++◌, Option, none, some, if◌then◌else◌, add64,
  bytes_key,
}
use titan_engine.Prelude.Assoc.{lookup, insert}
use titan_engine.Core.{
  Symbol, Side, Order, Trade, PriceLevel, RejectReason, unknown_symbol, Event, EventPayload,
  order_submitted, order_cancelled, order_replaced, trade_executed, order_rejected,
}
use titan_engine.Exchange.OrderManager
use titan_engine.Exchange.OrderManager.{
  IMatcher, OrderManager, AcceptResult, MatchResult, rejecting,
}
pub mod Books

-- What the registry needs of a backend: an empty matcher, its calls and its depths.
pub record MatcherBackend (M : Type 0) : Type 0 where
  pub make_matcher : M
  pub calls : IMatcher M
  pub bid_depth : ℕ → M → List PriceLevel
  pub ask_depth : ℕ → M → List PriceLevel

-- The manager holds the matcher.
pub record Instrument (M : Type 0) : Type 0 where
  pub manager : OrderManager M
  pub next_snapshot_sequence_number : ℕ

pub record InstrumentRegistry (M : Type 0) : Type 0 where
  pub instruments : List (Symbol × Instrument M)
  pub event_log : List Event
  pub next_sequence_number : ℕ

pub record BookSnapshot : Type 0 where
  pub symbol : Symbol
  pub sequence_number : ℕ
  pub bids : List PriceLevel
  pub asks : List PriceLevel

module _ {M : Type 0} where
  abbrev pub has_instrument : Symbol → InstrumentRegistry M → Bool
  has_instrument s r = elim (lookup s r.instruments) [ none ↦ false | some x ↦ true ]

  unfoldable pub emit : EventPayload → InstrumentRegistry M → InstrumentRegistry M
  emit payload r = record r {
    event_log =
        r.event_log
        ++ (record { sequence_number = r.next_sequence_number; payload = payload }) ∷ [];
    next_sequence_number = add64 r.next_sequence_number 1;
  }

  -- The trades of `matchOrder`, in order.
  unfoldable pub emit_trades : Symbol → List Trade → InstrumentRegistry M → InstrumentRegistry M
  unfolding emit
  emit_trades s [] r = r
  emit_trades s (t ∷ ts) r =
      emit_trades s ts
        (emit (trade_executed s t.incoming_order_id t.resting_order_id t.price t.quantity) r)

  unfoldable pub put :
      Symbol → Instrument M → OrderManager M → InstrumentRegistry M → InstrumentRegistry M
  unfolding insert
  put s x m r = record r { instruments = insert s (record x { manager = m }) r.instruments }

  unfoldable pub reset : InstrumentRegistry M → InstrumentRegistry M
  reset r = record { instruments = []; event_log = []; next_sequence_number = 0 }

  unfoldable pub find_order : Symbol → ℕ → InstrumentRegistry M → Option Order
  unfolding lookup
  find_order s i r = elim (lookup s r.instruments) [
    | none ↦ none
    | some x ↦ OrderManager.find i x.manager
  ]

  -- The answer to a symbol without an instrument.
  abbrev pub unknown :
      Symbol → ℕ → InstrumentRegistry M → Option (InstrumentRegistry M × AcceptResult)
  unknown s i r = some (emit (order_rejected s i unknown_symbol) r, rejecting unknown_symbol)

  -- The event of a call that the manager answered, and the manager put back.
  abbrev pub answered :
      Symbol
      → ℕ
      → Instrument M
      → EventPayload
      → InstrumentRegistry M
      → Option (OrderManager M × AcceptResult)
      → Option (InstrumentRegistry M × AcceptResult)
  answered s i x done r none = none
  answered s i x done r (some (m, result)) = some (
    emit (if result.accepted then done else order_rejected s i result.reason) (put s x m r),
    result,
  )

module _ {M : Type 0} (backend : MatcherBackend M) where
  unfoldable pub create_instrument : Symbol → InstrumentRegistry M → InstrumentRegistry M
  unfolding insert
  create_instrument s r =
      let manager : OrderManager M = record {
        matcher = backend.make_matcher;
        resting_bids_at = [];
        resting_asks_at = [];
        all_known_order_ids = [];
        active_order_ids = [];
        orders = [];
      } in
      if has_instrument s r then r else record r {
        instruments =
            insert s (record { manager = manager; next_snapshot_sequence_number = 0 })
              r.instruments;
      }

  -- The snapshot, and the registry with the counter of the symbol moved on.
  unfoldable pub snapshot : Symbol → ℕ → InstrumentRegistry M → InstrumentRegistry M × BookSnapshot
  unfolding insert
  snapshot s depth r = elim (lookup s r.instruments) [
    | none ↦ (r, record { symbol = s; sequence_number = 0; bids = []; asks = [] })
    | some x ↦ (
      record r {
        instruments =
            insert s
              (record x { next_snapshot_sequence_number = add64 x.next_snapshot_sequence_number 1 })
              r.instruments;
      },
      record {
        symbol = s;
        sequence_number = x.next_snapshot_sequence_number;
        bids = backend.bid_depth depth x.manager.matcher;
        asks = backend.ask_depth depth x.manager.matcher;
      },
    )
  ]

  unfoldable pub submit_order :
      Symbol → Order → InstrumentRegistry M → Option (InstrumentRegistry M × AcceptResult)
  unfolding emit put
  submit_order s o r = elim (lookup s r.instruments) [
    | none ↦ unknown s o.id r
    | some x ↦
        answered s o.id x (order_submitted s o.id o.side o.price o.quantity) r
          (OrderManager.add_order backend.calls o x.manager)
  ]

  unfoldable pub cancel_order :
      Symbol → ℕ → InstrumentRegistry M → Option (InstrumentRegistry M × AcceptResult)
  unfolding emit put
  cancel_order s i r = elim (lookup s r.instruments) [
    | none ↦ unknown s i r
    | some x ↦
        answered s i x (order_cancelled s i) r (OrderManager.cancel_order backend.calls i x.manager)
  ]

  unfoldable pub cancel_replace :
      Symbol → ℕ → Order → InstrumentRegistry M → Option (InstrumentRegistry M × AcceptResult)
  unfolding emit put
  cancel_replace s i o r = elim (lookup s r.instruments) [
    | none ↦ unknown s i r
    | some x ↦
        answered s i x (order_replaced s i o.price o.quantity) r
          (OrderManager.cancel_replace backend.calls i o x.manager)
  ]

  -- The events of `matchOrder` after the manager answered.
  abbrev pub matched :
      Symbol
      → Order
      → Instrument M
      → InstrumentRegistry M
      → Option (OrderManager M × MatchResult)
      → Option (InstrumentRegistry M × List Trade)
  matched s o x r none = none
  matched s o x r (some (m, result)) =
      let first =
        if result.accept_result.accepted
        then order_submitted s o.id o.side o.price o.quantity
        else order_rejected s o.id result.accept_result.reason in
      some (emit_trades s result.trades (emit first (put s x m r)), result.trades)

  unfoldable pub match_order :
      Symbol → Order → InstrumentRegistry M → Option (InstrumentRegistry M × List Trade)
  unfolding emit put emit_trades
  match_order s o r = elim (lookup s r.instruments) [
    | none ↦ some (emit (order_rejected s o.id unknown_symbol) r, [])
    | some x ↦ matched s o x r (OrderManager.match_order backend.calls o x.manager)
  ]
