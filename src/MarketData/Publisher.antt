-- ===== src/MarketData/Publisher.antt =====
-- `EventPublisher` of src/market_data/publisher.cpp. `none` is the division by zero of `emitFill`.
use titan_engine.Prelude.{
  ℕ, ◌+◌, ◌/◌, Bool, true, false, List, [], ◌∷◌, ◌++◌, Option, none, some, ltb, ◌==◌, if◌then◌else◌,
  add64, sub64, mul64, nat_eq, bytes_key,
}
use titan_engine.Prelude.Assoc.{lookup, insert}
use titan_engine.Core.{
  Symbol, RejectReason, accept, Event, EventPayload, order_submitted, order_cancelled,
  order_replaced, trade_executed, order_rejected,
}
pub mod Sequence
pub mod Total
pub mod Fills

pub data ExecType : Type 0 where
  new_exec trade_exec cancelled_exec replaced_exec rejected_exec : ExecType

pub record ExecutionReport : Type 0 where
  pub symbol : Symbol
  pub sequence_number : ℕ
  pub order_id : ℕ
  pub exec_type : ExecType
  pub last_qty : ℕ
  pub cum_qty : ℕ
  pub leaves_qty : ℕ
  pub last_px : ℕ
  pub avg_px : ℕ
  pub reject_reason : RejectReason

pub record OrderState : Type 0 where
  pub original_qty : ℕ
  pub cum_qty : ℕ
  pub cum_notional : ℕ

abbrev pub States : Type 0
States = List (ℕ × OrderState)

pub record EventPublisher : Type 0 where
  pub order_states : List (Symbol × States)
  pub next_sequence_number : List (Symbol × ℕ)
  pub reports : List ExecutionReport

abbrev pub clear : EventPublisher
clear = record { order_states = []; next_sequence_number = []; reports = [] }

-- `map[key]`, which makes an entry where there is none.
abbrev pub or_else {ℓ} : {A : Type ℓ} → A → Option A → A
or_else d none = d
or_else d (some a) = a

unfoldable pub states_of : Symbol → EventPublisher → States
unfolding lookup
states_of s p = or_else [] (lookup s p.order_states)

unfoldable pub state_of : Symbol → ℕ → EventPublisher → Option OrderState
unfolding lookup states_of
state_of s i p = lookup i (states_of s p)

abbrev pub new_state : OrderState
new_state = record { original_qty = 0; cum_qty = 0; cum_notional = 0 }

unfoldable pub put_state : Symbol → ℕ → OrderState → EventPublisher → EventPublisher
unfolding insert states_of
put_state s i x p = record p { order_states = insert s (insert i x (states_of s p)) p.order_states }

-- The number that `nextSeq` returns.
unfoldable pub next_of : Symbol → EventPublisher → ℕ
unfolding lookup
next_of s p = or_else 0 (lookup s p.next_sequence_number)

-- `reports_.push_back` of a report of the symbol, with `nextSeq` for its number.
unfoldable pub push_report : (ℕ → ExecutionReport) → Symbol → EventPublisher → EventPublisher
unfolding insert next_of
push_report report s p = record p {
  next_sequence_number = insert s (add64 (next_of s p) 1) p.next_sequence_number;
  reports = p.reports ++ report (next_of s p) ∷ [];
}

abbrev pub average : OrderState → ℕ
average x = if ltb 0 x.cum_qty then x.cum_notional / x.cum_qty else 0

abbrev pub submitted_state : ℕ → OrderState
submitted_state quantity = record { original_qty = quantity; cum_qty = 0; cum_notional = 0 }

abbrev pub submitted_report : Symbol → ℕ → ℕ → ℕ → ExecutionReport
submitted_report s i quantity n = record {
  symbol = s;
  sequence_number = n;
  order_id = i;
  exec_type = new_exec;
  last_qty = 0;
  cum_qty = 0;
  leaves_qty = quantity;
  last_px = 0;
  avg_px = 0;
  reject_reason = accept;
}

unfoldable pub handle_submitted : Symbol → ℕ → ℕ → EventPublisher → EventPublisher
unfolding put_state push_report
handle_submitted s i quantity p =
    push_report (submitted_report s i quantity) s (put_state s i (submitted_state quantity) p)

abbrev pub filled_state : ℕ → ℕ → OrderState → OrderState
filled_state qty px x = record x {
  cum_qty = add64 x.cum_qty qty;
  cum_notional = add64 x.cum_notional (mul64 qty px);
}

abbrev pub fill_report : Symbol → ℕ → ℕ → ℕ → OrderState → ℕ → ExecutionReport
fill_report s i qty px x n = record {
  symbol = s;
  sequence_number = n;
  order_id = i;
  exec_type = trade_exec;
  last_qty = qty;
  cum_qty = x.cum_qty;
  leaves_qty = sub64 x.original_qty x.cum_qty;
  last_px = px;
  avg_px = x.cum_notional / x.cum_qty;
  reject_reason = accept;
}

unfoldable pub emit_fill : Symbol → ℕ → ℕ → ℕ → EventPublisher → Option EventPublisher
unfolding state_of put_state push_report
emit_fill s i qty px p = elim (state_of s i p) [
  | none ↦ some p
  | some x ↦
      let x' = filled_state qty px x in
      if x'.cum_qty == 0
      then none
      else some (push_report (fill_report s i qty px x') s (put_state s i x' p))
]

abbrev pub and_then :
    (EventPublisher → Option EventPublisher) → Option EventPublisher → Option EventPublisher
and_then f none = none
and_then f (some p) = f p

abbrev pub cancelled_report : Symbol → ℕ → OrderState → ℕ → ExecutionReport
cancelled_report s i x n = record {
  symbol = s;
  sequence_number = n;
  order_id = i;
  exec_type = cancelled_exec;
  last_qty = 0;
  cum_qty = x.cum_qty;
  leaves_qty = 0;
  last_px = 0;
  avg_px = average x;
  reject_reason = accept;
}

unfoldable pub handle_cancelled : Symbol → ℕ → EventPublisher → EventPublisher
unfolding state_of push_report
handle_cancelled s i p = push_report (cancelled_report s i (or_else new_state (state_of s i p))) s p

abbrev pub replaced_state : ℕ → OrderState → OrderState
replaced_state new_quantity x = record x { original_qty = add64 x.cum_qty new_quantity }

abbrev pub replaced_report :
    Symbol → (i new_price new_quantity : ℕ) → OrderState → ℕ → ExecutionReport
replaced_report s i new_price new_quantity x n = record {
  symbol = s;
  sequence_number = n;
  order_id = i;
  exec_type = replaced_exec;
  last_qty = 0;
  cum_qty = x.cum_qty;
  leaves_qty = new_quantity;
  last_px = new_price;
  avg_px = average x;
  reject_reason = accept;
}

unfoldable pub handle_replaced : Symbol → ℕ → ℕ → ℕ → EventPublisher → EventPublisher
unfolding state_of put_state push_report
handle_replaced s i new_price new_quantity p =
    let x = replaced_state new_quantity (or_else new_state (state_of s i p)) in
    push_report (replaced_report s i new_price new_quantity x) s (put_state s i x p)

abbrev pub rejected_report : Symbol → ℕ → RejectReason → ℕ → ExecutionReport
rejected_report s i reason n = record {
  symbol = s;
  sequence_number = n;
  order_id = i;
  exec_type = rejected_exec;
  last_qty = 0;
  cum_qty = 0;
  leaves_qty = 0;
  last_px = 0;
  avg_px = 0;
  reject_reason = reason;
}

unfoldable pub handle_rejected : Symbol → ℕ → RejectReason → EventPublisher → EventPublisher
unfolding push_report
handle_rejected s i reason p = push_report (rejected_report s i reason) s p

unfoldable pub process : EventPayload → EventPublisher → Option EventPublisher
unfolding handle_submitted handle_cancelled handle_replaced emit_fill handle_rejected
process (order_submitted s i side price quantity) p = some (handle_submitted s i quantity p)
process (order_cancelled s i) p = some (handle_cancelled s i p)
process (order_replaced s i price quantity) p = some (handle_replaced s i price quantity p)
process (trade_executed s i j price quantity) p =
    and_then (emit_fill s j quantity price) (emit_fill s i quantity price p)
process (order_rejected s i reason) p = some (handle_rejected s i reason p)

-- A publisher that is fed a log, as `BacktestRunner::replayFile` feeds it.
unfoldable pub publish : List Event → EventPublisher → Option EventPublisher
unfolding process
publish [] p = some p
publish (e ∷ es) p = and_then (publish es) (process e.payload p)
