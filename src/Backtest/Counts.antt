-- ===== src/Backtest/Counts.antt =====
-- What the counts of a backtest come to.
use titan_engine.Prelude.{
  ℕ, false, ◌+◌, ◌%◌, ◌<◌, ◌≡◌, refl, ◌∙◌, Bool, true, List, [], ◌∷◌, some, All, All-map,
  if◌then◌else◌, add64, u64_mod, arith, bytes_key,
}
use titan_engine.Core.{
  Event, EventPayload, order_submitted, order_cancelled, order_replaced, trade_executed,
  order_rejected,
}
use titan_engine.Exchange.Registry.{MatcherBackend, InstrumentRegistry}
use titan_engine.MarketData.Publisher
use titan_engine.MarketData.Publisher.{EventPublisher, clear}
use titan_engine.Replay.Replayer.{ReplayResult}
use titan_engine.Backtest.{
  BacktestResult, StrategyCall, symbol_of, tally, tally_all, symbols_of, started, counted,
  summarise,
}
use titan_engine.Backtest.Books.{HasBook, snapshots-HasBook, symbols_of-All}

-- What an event is counted as.
abbrev pub is_submitted : EventPayload → Bool
is_submitted (order_submitted s i side price quantity) = true
is_submitted (order_cancelled s i) = false
is_submitted (order_replaced s i price quantity) = false
is_submitted (trade_executed s i j price quantity) = false
is_submitted (order_rejected s i reason) = false

abbrev pub is_cancelled : EventPayload → Bool
is_cancelled (order_submitted s i side price quantity) = false
is_cancelled (order_cancelled s i) = true
is_cancelled (order_replaced s i price quantity) = false
is_cancelled (trade_executed s i j price quantity) = false
is_cancelled (order_rejected s i reason) = false

abbrev pub is_replaced : EventPayload → Bool
is_replaced (order_submitted s i side price quantity) = false
is_replaced (order_cancelled s i) = false
is_replaced (order_replaced s i price quantity) = true
is_replaced (trade_executed s i j price quantity) = false
is_replaced (order_rejected s i reason) = false

abbrev pub is_executed : EventPayload → Bool
is_executed (order_submitted s i side price quantity) = false
is_executed (order_cancelled s i) = false
is_executed (order_replaced s i price quantity) = false
is_executed (trade_executed s i j price quantity) = true
is_executed (order_rejected s i reason) = false

abbrev pub is_rejected : EventPayload → Bool
is_rejected (order_submitted s i side price quantity) = false
is_rejected (order_cancelled s i) = false
is_rejected (order_replaced s i price quantity) = false
is_rejected (trade_executed s i j price quantity) = false
is_rejected (order_rejected s i reason) = true

-- How many events of the log are of that kind.
unfoldable pub count : (EventPayload → Bool) → List Event → ℕ
count kind [] = 0
count kind (e ∷ es) = (if kind e.payload then 1 else 0) + count kind es

-- A counter that goes up by one at each event of its kind.
abbrev Counts : (BacktestResult → ℕ) → (EventPayload → Bool) → Type 0
Counts counter kind =
    (e : EventPayload) (x : BacktestResult)
    → counter (tally e x) ≡ (if kind e then 1 else 0) + counter x

tally_all-Counts :
    (counter : BacktestResult → ℕ) (kind : EventPayload → Bool) (es : List Event)
    (x : BacktestResult)
    → Counts counter kind
    → counter (tally_all es x) ≡ count kind es + counter x
unfolding tally_all count
tally_all-Counts counter kind [] x h = omega arith
tally_all-Counts counter kind (e ∷ es) x h =
    omega (arith, h e.payload x, tally_all-Counts counter kind es (tally e.payload x) h)

orders_submitted-Counts : Counts (λ x. x.orders_submitted) is_submitted
orders_submitted-Counts (order_submitted s i side price quantity) x = omega arith
orders_submitted-Counts (order_cancelled s i) x = omega arith
orders_submitted-Counts (order_replaced s i price quantity) x = omega arith
orders_submitted-Counts (trade_executed s i j price quantity) x = omega arith
orders_submitted-Counts (order_rejected s i reason) x = omega arith

orders_cancelled-Counts : Counts (λ x. x.orders_cancelled) is_cancelled
orders_cancelled-Counts (order_submitted s i side price quantity) x = omega arith
orders_cancelled-Counts (order_cancelled s i) x = omega arith
orders_cancelled-Counts (order_replaced s i price quantity) x = omega arith
orders_cancelled-Counts (trade_executed s i j price quantity) x = omega arith
orders_cancelled-Counts (order_rejected s i reason) x = omega arith

orders_replaced-Counts : Counts (λ x. x.orders_replaced) is_replaced
orders_replaced-Counts (order_submitted s i side price quantity) x = omega arith
orders_replaced-Counts (order_cancelled s i) x = omega arith
orders_replaced-Counts (order_replaced s i price quantity) x = omega arith
orders_replaced-Counts (trade_executed s i j price quantity) x = omega arith
orders_replaced-Counts (order_rejected s i reason) x = omega arith

trades_executed-Counts : Counts (λ x. x.trades_executed) is_executed
trades_executed-Counts (order_submitted s i side price quantity) x = omega arith
trades_executed-Counts (order_cancelled s i) x = omega arith
trades_executed-Counts (order_replaced s i price quantity) x = omega arith
trades_executed-Counts (trade_executed s i j price quantity) x = omega arith
trades_executed-Counts (order_rejected s i reason) x = omega arith

orders_rejected-Counts : Counts (λ x. x.orders_rejected) is_rejected
orders_rejected-Counts (order_submitted s i side price quantity) x = omega arith
orders_rejected-Counts (order_cancelled s i) x = omega arith
orders_rejected-Counts (order_replaced s i price quantity) x = omega arith
orders_rejected-Counts (trade_executed s i j price quantity) x = omega arith
orders_rejected-Counts (order_rejected s i reason) x = omega arith

abbrev pub quantity_of : EventPayload → ℕ
quantity_of (order_submitted s i side price quantity) = 0
quantity_of (order_cancelled s i) = 0
quantity_of (order_replaced s i price quantity) = 0
quantity_of (trade_executed s i j price quantity) = quantity
quantity_of (order_rejected s i reason) = 0

unfoldable pub quantities : List Event → ℕ
quantities [] = 0
quantities (e ∷ es) = quantity_of e.payload + quantities es

tally_volume :
    (e : EventPayload) (x : BacktestResult)
    → x.total_trade_volume < u64_mod
    → (tally e x).total_trade_volume ≡ add64 x.total_trade_volume (quantity_of e)
tally_volume (order_submitted s i side price quantity) x h = omega arith
tally_volume (order_cancelled s i) x h = omega arith
tally_volume (order_replaced s i price quantity) x h = omega arith
tally_volume (trade_executed s i j price quantity) x h = refl
tally_volume (order_rejected s i reason) x h = omega arith

tally_all_volume :
    (es : List Event) (x : BacktestResult)
    → x.total_trade_volume < u64_mod
    → (tally_all es x).total_trade_volume ≡ add64 x.total_trade_volume (quantities es)
unfolding tally_all quantities
tally_all_volume [] x h = omega arith
tally_all_volume (e ∷ es) x h =
    let step = tally_volume e.payload x h in
    tally_all_volume es (tally e.payload x) (omega (arith, step)) ∙ omega (arith, step)

module _ {M : Type 0} (backend : MatcherBackend M) (book_depth : ℕ) where
  -- What a backtest answers from the log of a replay and the registry after it.
  pub record IsSummary (registry : InstrumentRegistry M) (es : List Event)
      (res : BacktestResult × List StrategyCall) : Type 0 where
    pub submitted : res.0.orders_submitted ≡ count is_submitted es
    pub cancelled : res.0.orders_cancelled ≡ count is_cancelled es
    pub replaced : res.0.orders_replaced ≡ count is_replaced es
    pub executed : res.0.trades_executed ≡ count is_executed es
    pub rejected : res.0.orders_rejected ≡ count is_rejected es
    pub volume : res.0.total_trade_volume ≡ quantities es % u64_mod
    pub books :
        All
          (λ (e : Event).
            HasBook backend book_depth registry (symbol_of e.payload) res.0.final_book)
          es

  counted-IsSummary :
      (r : ReplayResult) (registry : InstrumentRegistry M) (calls : List StrategyCall)
      → IsSummary registry r.engine_event_log (counted backend book_depth registry r, calls)
  counted-IsSummary r registry calls =
      let es = r.engine_event_log in
      let x = started r in
      record {
        submitted = omega (arith, tally_all-Counts _ is_submitted es x orders_submitted-Counts);
        cancelled = omega (arith, tally_all-Counts _ is_cancelled es x orders_cancelled-Counts);
        replaced = omega (arith, tally_all-Counts _ is_replaced es x orders_replaced-Counts);
        executed = omega (arith, tally_all-Counts _ is_executed es x trades_executed-Counts);
        rejected = omega (arith, tally_all-Counts _ is_rejected es x orders_rejected-Counts);
        volume = tally_all_volume es (started r) (omega arith) ∙ omega arith;
        books =
            All-map _ _ es
              (λ (e : Event) h.
                snapshots-HasBook backend book_depth (symbol_of e.payload) (symbols_of es [])
                  registry registry [] (λ s. refl) h)
              (symbols_of-All es []);
      }

  -- Where the publisher gets through the log of a replay, the work of a backtest after the replay
  -- ends; each of its five counters is the number of events of that kind, its trade volume is the
  -- sum of the traded quantities at 64 bits, and its final book has for the symbol of every event
  -- the levels that the matcher of its instrument has, to the depth, or none where the registry
  -- has no such instrument.
  pub summarise-IsSummary :
      (strategy : Bool) (registry : InstrumentRegistry M) (r : ReplayResult) (p : EventPublisher)
      → Publisher.publish r.engine_event_log clear ≡ some p
      → (res : BacktestResult × List StrategyCall) × (summarise backend book_depth strategy
            (registry, r)
          ≡ some res)
        × IsSummary registry r.engine_event_log res
  unfolding summarise
  summarise-IsSummary true registry r p e = rw e (_, refl, counted-IsSummary r registry _)
  summarise-IsSummary false registry r p e = (_, refl, counted-IsSummary r registry _)
