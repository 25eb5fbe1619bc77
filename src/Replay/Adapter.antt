-- ===== src/Replay/Adapter.antt =====
-- `ItchEngineAdapter` of src/replay/itch_adapter.cpp. The registry that it refers to is a field; `none`
-- is a call of the registry that does not return.
use titan_engine.Prelude.{
  ℕ, ◌-◌, Bool, true, false, List, [], ◌∷◌, Option, none, some, ◌==◌, if◌then◌else◌, min, add64,
  nat_eq, bytes_key,
}
use titan_engine.Prelude.Assoc.{lookup, insert}
use titan_engine.Core.{Symbol, opposite, Order, Trade, limit, gtc, ioc, new}
use titan_engine.Exchange.OrderManager.{AcceptResult}
use titan_engine.Exchange.Registry
use titan_engine.Exchange.Registry.{MatcherBackend, InstrumentRegistry, BookSnapshot}
use titan_engine.Feed.Messages.{
  AddOrderMessage, OrderCancelMessage, OrderDeleteMessage, OrderReplaceMessage, ItchMessage,
  system_event_message, stock_directory_message, add_order_message, add_order_mpid_message,
  order_executed_message, order_executed_with_price_message, order_cancel_message,
  order_delete_message, order_replace_message, timestamp_seconds_message,
}
use titan_engine.Feed.BookBuilder.{trim_trailing_spaces, side_of}

pub record ItchEngineAdapter (M : Type 0) : Type 0 where
  pub registry : InstrumentRegistry M
  pub symbols : List (ℕ × Symbol)
  pub engine_id_for_ref : List (ℕ × ℕ)
  pub next_synthetic_id : ℕ
  pub trade_volume : ℕ

abbrev pub Applied : Type 0 → Type 0
Applied M = Option (ItchEngineAdapter M × Bool)

-- `tradeVolume_` with the trades added, one by one.
unfoldable pub volume_of : List Trade → ℕ → ℕ
volume_of [] v = v
volume_of (t ∷ ts) v = volume_of ts (add64 v t.quantity)

abbrev pub any_trade : List Trade → Bool
any_trade [] = false
any_trade (t ∷ ts) = true

module _ {M : Type 0} where
  abbrev pub adapter_of : InstrumentRegistry M → ItchEngineAdapter M
  adapter_of r = record {
    registry = r;
    symbols = [];
    engine_id_for_ref = [];
    next_synthetic_id = 1000000000;
    trade_volume = 0;
  }

  unfoldable pub engine_id_for : ℕ → ItchEngineAdapter M → ℕ
  unfolding lookup
  engine_id_for ref a = elim (lookup ref a.engine_id_for_ref) [ none ↦ ref | some i ↦ i ]

  -- The early returns of the handlers: a locate code without a symbol, and an order that does not
  -- rest.
  unfoldable pub with_symbol : ℕ → ItchEngineAdapter M → (Symbol → Applied M) → Applied M
  unfolding lookup
  with_symbol locate a f = elim (lookup locate a.symbols) [ none ↦ some (a, false) | some s ↦ f s ]

  unfoldable pub with_order : Symbol → ℕ → ItchEngineAdapter M → (Order → Applied M) → Applied M
  with_order s i a f = elim (Registry.find_order s i a.registry) [
    | none ↦ some (a, false)
    | some o ↦ f o
  ]

  -- `.accepted` of an answer, and the registry after it.
  abbrev pub accepted :
      ItchEngineAdapter M → Option (InstrumentRegistry M × AcceptResult) → Applied M
  accepted a none = none
  accepted a (some (r, result)) = some (record a { registry = r }, result.accepted)

  abbrev pub executed : ItchEngineAdapter M → Option (InstrumentRegistry M × List Trade) → Applied M
  executed a none = none
  executed a (some (r, trades)) =
      some (
        record a { registry = r; trade_volume = volume_of trades a.trade_volume },
        any_trade trades,
      )

  unfoldable pub reset : ItchEngineAdapter M → ItchEngineAdapter M
  reset a = adapter_of (Registry.reset a.registry)

module _ {M : Type 0} (backend : MatcherBackend M) where
  abbrev pub added : AddOrderMessage → ItchEngineAdapter M → Applied M
  added m a = with_symbol m.header.stock_locate a (λ s.
      let i = m.order_reference_number in
      let o : Order = record {
        id = i;
        side = side_of m.buy_sell_indicator;
        price = m.price;
        quantity = m.shares;
        account_id = 0;
        type = limit;
        tif = gtc;
        status = new;
      } in
      accepted (record a { engine_id_for_ref = insert i i a.engine_id_for_ref })
        (Registry.submit_order backend s o a.registry))

  -- The order that trades with the executed one.
  abbrev pub synthetic : Order → (shares : ℕ) → Option ℕ → ℕ → Order
  synthetic o shares price i = record {
    id = i;
    side = opposite o.side;
    price = elim price [ none ↦ o.price | some p ↦ p ];
    quantity = min shares o.quantity;
    account_id = 0;
    type = limit;
    tif = ioc;
    status = new;
  }

  unfoldable pub apply_executed :
      (locate ref shares : ℕ) → Option ℕ → ItchEngineAdapter M → Applied M
  unfolding with_symbol with_order engine_id_for volume_of
  apply_executed locate ref shares price a = with_symbol locate a (λ s.
      with_order s (engine_id_for ref a) a (λ o.
        executed (record a { next_synthetic_id = add64 a.next_synthetic_id 1 })
          (Registry.match_order backend s (synthetic o shares price a.next_synthetic_id)
            a.registry)))

  unfoldable pub apply_cancel : OrderCancelMessage → ItchEngineAdapter M → Applied M
  unfolding with_symbol with_order engine_id_for
  apply_cancel m a = with_symbol m.header.stock_locate a (λ s.
      let i = engine_id_for m.order_reference_number a in
      with_order s i a (λ o.
        let remaining = o.quantity - min m.cancelled_shares o.quantity in
        accepted a (
          if remaining == 0
          then Registry.cancel_order backend s i a.registry
          else Registry.cancel_replace backend s i (record o { id = i; quantity = remaining })
              a.registry)))

  unfoldable pub apply_delete : OrderDeleteMessage → ItchEngineAdapter M → Applied M
  unfolding with_symbol engine_id_for
  apply_delete m a = with_symbol m.header.stock_locate a (λ s.
      accepted a
        (Registry.cancel_order backend s (engine_id_for m.order_reference_number a) a.registry))

  -- An accepted replacement keeps its id, which the new reference leads to.
  abbrev pub remapped : ℕ → ℕ → Applied M → Applied M
  remapped ref i none = none
  remapped ref i (some (a, ok)) =
      some (if ok then record a { engine_id_for_ref = insert ref i a.engine_id_for_ref } else a, ok)

  unfoldable pub apply_replace : OrderReplaceMessage → ItchEngineAdapter M → Applied M
  unfolding with_symbol with_order engine_id_for insert
  apply_replace m a = with_symbol m.header.stock_locate a (λ s.
      let i = engine_id_for m.original_order_reference_number a in
      with_order s i a (λ o. remapped m.new_order_reference_number i (
        accepted a (
          Registry.cancel_replace backend s i
            (record o { id = i; price = m.price; quantity = m.shares }) a.registry))))

  -- The overloads of `handle`.
  unfoldable pub apply : ItchMessage → ItchEngineAdapter M → Applied M
  unfolding with_symbol insert apply_executed apply_cancel apply_delete apply_replace reset
      trim_trailing_spaces
  apply (system_event_message m) a = some (if m.event_code == 67 then reset a else a, true)
  apply (stock_directory_message m) a =
      let s = trim_trailing_spaces m.stock in
      some (
        record a {
          registry = Registry.create_instrument backend s a.registry;
          symbols = insert m.header.stock_locate s a.symbols;
        },
        true,
      )
  apply (add_order_message m) a = added m a
  apply (add_order_mpid_message m) a = added m.base a
  apply (order_executed_message m) a =
      apply_executed m.header.stock_locate m.order_reference_number m.executed_shares none a
  apply (order_executed_with_price_message m) a =
      apply_executed m.base.header.stock_locate m.base.order_reference_number m.base.executed_shares
        (some m.execution_price) a
  apply (order_cancel_message m) a = apply_cancel m a
  apply (order_delete_message m) a = apply_delete m a
  apply (order_replace_message m) a = apply_replace m a
  apply (timestamp_seconds_message m) a = some (a, true)

  unfoldable pub symbol_for_locate : ℕ → ItchEngineAdapter M → Option Symbol
  unfolding lookup
  symbol_for_locate locate a = lookup locate a.symbols

  unfoldable pub snapshot : ℕ → ℕ → ItchEngineAdapter M → ItchEngineAdapter M × BookSnapshot
  snapshot locate depth a = elim (lookup locate a.symbols) [
    | none ↦ (a, record { symbol = []; sequence_number = 0; bids = []; asks = [] })
    | some s ↦
        let (r, snap) = Registry.snapshot backend s depth a.registry in
        (record a { registry = r }, snap)
  ]
