-- ===== src/MarketData/Tests.antt =====
-- The publisher on concrete events.
use titan_engine.Prelude.{ℕ, ◌+◌, ◌≡◌, refl, List, [], ◌∷◌, ◌++◌, some, OnSome, arith}
use titan_engine.Prelude.Assoc.{lookup}
use titan_engine.Core.{
  Symbol, buy, sell, Event, EventPayload, order_submitted, order_cancelled, trade_executed,
}
use titan_engine.MarketData.Publisher.{
  ExecutionReport, OrderState, EventPublisher, clear, publish, state_of, submitted_state,
  submitted_report, handle_submitted, next_of,
}
use titan_engine.MarketData.Publisher.Sequence.{IsSequenced, numbers, publish-IsSequenced}
use titan_engine.MarketData.Publisher.Total.{IsWithin, total_traded, publish_total}
use titan_engine.MarketData.Publisher.Fills.{
  AreReports, emit_fills, state_of-push_report, quantity_of, emit_fills-AreReports,
}

abbrev acme : Symbol
acme = 65 ∷ 67 ∷ []

abbrev event : ℕ → EventPayload → Event
event n payload = record { sequence_number = n; payload = payload }

-- Two orders, a trade between them, and the cancel of what is left of the first.
abbrev session : List Event
session =
    event 0 (order_submitted acme 1 sell 100 10)
    ∷ event 1 (order_submitted acme 2 buy 101 4)
    ∷ event 2 (trade_executed acme 2 1 100 4)
    ∷ event 3 (order_cancelled acme 1)
    ∷ []

clear-IsSequenced : IsSequenced clear
unfolding numbers next_of lookup
clear-IsSequenced s = refl

publish-IsSequenced_example : OnSome IsSequenced (publish session clear)
publish-IsSequenced_example = publish-IsSequenced session clear clear-IsSequenced

publish_total_example :
    (p : EventPublisher) × (publish session clear ≡ some p) × IsWithin (total_traded session) p
unfolding total_traded
publish_total_example = publish_total session (tt, (tt, (omega arith, (tt, tt)))) (omega arith)

abbrev one_order : EventPublisher
one_order = handle_submitted acme 1 10 clear

one_order-state : state_of acme 1 one_order ≡ some (submitted_state 10)
unfolding handle_submitted
one_order-state =
    state_of-push_report (submitted_report acme 1 10) acme 1 (submitted_state 10) clear

emit_fills-AreReports_example :
    (q : EventPublisher) × (rs : List ExecutionReport) × (y : OrderState) × (emit_fills acme 1
        ((4, 100) ∷ (6, 103) ∷ [])
        one_order
      ≡ some q)
    × (q.reports ≡ one_order.reports ++ rs)
    × AreReports acme 1 10 100 103 0 ((4, 100) ∷ (6, 103) ∷ []) rs
    × (state_of acme 1 q ≡ some y)
    × (y.cum_qty ≡ 0 + quantity_of ((4, 100) ∷ (6, 103) ∷ []))
unfolding quantity_of
emit_fills-AreReports_example =
    emit_fills-AreReports 100 103 acme 1 ((4, 100) ∷ (6, 103) ∷ []) (submitted_state 10) one_order
      one_order-state
      ((omega arith, (omega arith, omega arith)), ((omega arith, (omega arith, omega arith)), tt))
      (omega arith, omega arith) (omega arith) (omega arith) (omega arith)
