-- ===== src/Backtest/Tests.antt =====
-- A backtest of a log of two events, with a strategy.
use titan_engine.Prelude.{List, [], ◌∷◌, true, ◌≡◌, some, arith}
use titan_engine.Core.{Symbol, Event, sell, order_submitted, trade_executed}
use titan_engine.Book.Reference
use titan_engine.Exchange.Registry
use titan_engine.Exchange.Registry.{MatcherBackend, InstrumentRegistry}
use titan_engine.Replay.Parity.{empty_report}
use titan_engine.Replay.Replayer.{ReplayResult}
use titan_engine.MarketData.Publisher.{EventPublisher, publish, clear}
use titan_engine.MarketData.Publisher.Total.{IsWithin, total_traded, publish_total}
use titan_engine.Backtest.{BacktestResult, StrategyCall, summarise}
use titan_engine.Backtest.Counts.{IsSummary, summarise-IsSummary}

abbrev backend : MatcherBackend Reference.Matcher
backend = record {
  make_matcher = Reference.empty_matcher;
  calls = record {
    add_order = Reference.add_order;
    cancel_order = Reference.cancel_order;
    match_order = Reference.match_order;
  };
  bid_depth = Reference.bid_depth;
  ask_depth = Reference.ask_depth;
}

abbrev acme : Symbol
acme = 65 ∷ 67 ∷ []

abbrev registry : InstrumentRegistry Reference.Matcher
registry =
    Registry.create_instrument backend acme
      (record { instruments = []; event_log = []; next_sequence_number = 0 })

abbrev log : List Event
log =
    record { sequence_number = 0; payload = order_submitted acme 1 sell 100 10 }
    ∷ record { sequence_number = 1; payload = trade_executed acme 2 1 100 4 }
    ∷ []

abbrev replayed : ReplayResult
replayed = record {
  parity = empty_report;
  engine_event_log = log;
  messages_decoded = 2;
  messages_skipped = 0;
}

published : (p : EventPublisher) × (publish log clear ≡ some p) × IsWithin (total_traded log) p
unfolding total_traded
published = publish_total log (tt, (omega arith, tt)) (omega arith)

summarise-IsSummary_example :
    (res : BacktestResult × List StrategyCall) × (summarise backend 10 true (registry, replayed)
      ≡ some res)
    × IsSummary backend 10 registry log res
summarise-IsSummary_example =
    summarise-IsSummary backend 10 true registry replayed published.0 published.1
