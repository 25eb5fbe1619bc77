-- ===== src/Backtest.antt =====
-- `BacktestRunner` of src/backtest/backtest_runner.cpp, without the time that it takes. The calls of the
-- strategy are listed in order; there are none without a strategy.
use titan_engine.Prelude.{
  ℕ, ◌+◌, Bool, true, false, List, [], ◌∷◌, ◌++◌, Option, none, some, if◌then◌else◌, add64,
  bytes_key,
}
use titan_engine.Prelude.Assoc.{insert}
use titan_engine.Core.{
  Symbol, Event, EventPayload, order_submitted, order_cancelled, order_replaced, trade_executed,
  order_rejected,
}
use titan_engine.Exchange.Registry
use titan_engine.Exchange.Registry.{MatcherBackend, InstrumentRegistry, BookSnapshot}
use titan_engine.MarketData.Publisher
use titan_engine.MarketData.Publisher.{ExecutionReport, EventPublisher, clear}
use titan_engine.Replay.Replayer
use titan_engine.Replay.Replayer.{ReplayResult}
pub mod Books
pub mod Counts
mod Tests

pub record BacktestResult : Type 0 where
  pub messages_decoded : ℕ
  pub messages_skipped : ℕ
  pub orders_submitted : ℕ
  pub orders_rejected : ℕ
  pub orders_cancelled : ℕ
  pub orders_replaced : ℕ
  pub trades_executed : ℕ
  pub total_trade_volume : ℕ
  pub final_book : List (Symbol × BookSnapshot)

-- The calls of `IStrategy`.
pub data StrategyCall : Type 0 where
  on_event : Event → StrategyCall
  on_execution_report : ExecutionReport → StrategyCall
  on_book_update : BookSnapshot → StrategyCall

abbrev pub symbol_of : EventPayload → Symbol
symbol_of (order_submitted s i side price quantity) = s
symbol_of (order_cancelled s i) = s
symbol_of (order_replaced s i price quantity) = s
symbol_of (trade_executed s i j price quantity) = s
symbol_of (order_rejected s i reason) = s

-- The counters after one event.
abbrev pub tally : EventPayload → BacktestResult → BacktestResult
tally (order_submitted s i side price quantity) x = record x {
  orders_submitted = x.orders_submitted + 1;
}
tally (order_cancelled s i) x = record x { orders_cancelled = x.orders_cancelled + 1 }
tally (order_replaced s i price quantity) x = record x { orders_replaced = x.orders_replaced + 1 }
tally (trade_executed s i j price quantity) x = record x {
  trades_executed = x.trades_executed + 1;
  total_trade_volume = add64 x.total_trade_volume quantity;
}
tally (order_rejected s i reason) x = record x { orders_rejected = x.orders_rejected + 1 }

unfoldable pub tally_all : List Event → BacktestResult → BacktestResult
tally_all [] x = x
tally_all (e ∷ es) x = tally_all es (tally e.payload x)

abbrev pub has_symbol : Symbol → List Symbol → Bool
has_symbol s [] = false
has_symbol s (t ∷ ts) = let rest = has_symbol s ts in if bytes_key.beq t s then true else rest

abbrev pub with_symbol : Symbol → List Symbol → List Symbol
with_symbol s ts = if has_symbol s ts then ts else ts ++ s ∷ []

-- The set of the symbols of the log, the oldest first.
unfoldable pub symbols_of : List Event → List Symbol → List Symbol
symbols_of [] ts = ts
symbols_of (e ∷ es) ts = symbols_of es (with_symbol (symbol_of e.payload) ts)

abbrev pub started : ReplayResult → BacktestResult
started r = record {
  messages_decoded = r.messages_decoded;
  messages_skipped = r.messages_skipped;
  orders_submitted = 0;
  orders_rejected = 0;
  orders_cancelled = 0;
  orders_replaced = 0;
  trades_executed = 0;
  total_trade_volume = 0;
  final_book = [];
}

abbrev pub event_calls : List Event → List StrategyCall
event_calls [] = []
event_calls (e ∷ es) = on_event e ∷ event_calls es

abbrev pub report_calls : List ExecutionReport → List StrategyCall
report_calls [] = []
report_calls (r ∷ rs) = on_execution_report r ∷ report_calls rs

abbrev pub book_calls : List (Symbol × BookSnapshot) → List StrategyCall
book_calls [] = []
book_calls (b ∷ bs) = on_book_update b.1 ∷ book_calls bs

module _ {M : Type 0} (backend : MatcherBackend M) (book_depth : ℕ) where
  -- The snapshots of the symbols, in order, each with its symbol.
  unfoldable pub snapshots : List Symbol → InstrumentRegistry M → List (Symbol × BookSnapshot)
  unfolding Registry.snapshot
  snapshots [] r = []
  snapshots (s ∷ ss) r =
      let (r', snap) = Registry.snapshot backend s book_depth r in (s, snap) ∷ snapshots ss r'

  abbrev pub stored :
      List (Symbol × BookSnapshot) → List (Symbol × BookSnapshot) → List (Symbol × BookSnapshot)
  stored [] book = book
  stored (b ∷ bs) book = stored bs (insert b.0 b.1 book)

  abbrev pub counted : InstrumentRegistry M → ReplayResult → BacktestResult
  counted registry r = record (tally_all r.engine_event_log (started r)) {
    final_book = stored (snapshots (symbols_of r.engine_event_log []) registry) [];
  }

  abbrev pub strategy_calls :
      InstrumentRegistry M → ReplayResult → Option EventPublisher → Option (List StrategyCall)
  strategy_calls registry r none = none
  strategy_calls registry r (some p) = some (
      event_calls r.engine_event_log
      ++ (report_calls p.reports
          ++ book_calls (snapshots (symbols_of r.engine_event_log []) registry)))

  abbrev pub with_result :
      BacktestResult → Option (List StrategyCall) → Option (BacktestResult × List StrategyCall)
  with_result x none = none
  with_result x (some calls) = some (x, calls)

  -- The work after the replay.
  unfoldable pub summarise :
      Bool → InstrumentRegistry M × ReplayResult → Option (BacktestResult × List StrategyCall)
  unfolding tally_all snapshots symbols_of Publisher.publish
  summarise strategy (registry, r) = with_result (counted registry r) (
      if strategy
      then strategy_calls registry r (Publisher.publish r.engine_event_log clear)
      else some [])

  abbrev pub summarised :
      Bool
      → Option (InstrumentRegistry M × ReplayResult)
      → Option (BacktestResult × List StrategyCall)
  summarised strategy none = none
  summarised strategy (some x) = summarise strategy x

  unfoldable pub replay_file : List ℕ → Bool → Option (BacktestResult × List StrategyCall)
  unfolding Replayer.replay_file summarise
  replay_file bytes strategy = summarised strategy (
      Replayer.replay_file backend bytes 1
        (record { instruments = []; event_log = []; next_sequence_number = 0 }))
