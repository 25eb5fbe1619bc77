-- ===== src/Core.antt =====
-- include/titan/core/types.hpp, order_types.hpp and events.hpp: the types that every part shares.
use titan_engine.Prelude.{ℕ, ◌-◌, Bool, ltb, leb, List}

pub data Side : Type 0 where
  buy sell : Side

pub data OrderType : Type 0 where
  limit market : OrderType

pub data TimeInForce : Type 0 where
  gtc ioc : TimeInForce

pub data OrderStatus : Type 0 where
  new partially_filled filled cancelled rejected : OrderStatus

-- `RejectReason`; its `None` is `accept`.
pub data RejectReason : Type 0 where
  accept : RejectReason
  zero_quantity zero_price duplicate_order_id unknown_order order_not_resting : RejectReason
  invalid_replace invalid_order_type replace_would_cross unknown_symbol : RejectReason

-- A symbol is an opaque string: its bytes.
abbrev pub Symbol : Type 0
Symbol = List ℕ

pub record Order : Type 0 where
  pub id : ℕ
  pub side : Side
  pub price : ℕ
  pub quantity : ℕ
  pub account_id : ℕ
  pub type : OrderType
  pub tif : TimeInForce
  pub status : OrderStatus

pub record Trade : Type 0 where
  pub incoming_order_id : ℕ
  pub resting_order_id : ℕ
  pub price : ℕ
  pub quantity : ℕ

-- Aggregated resting quantity at one price (market_data/book_snapshot.hpp).
pub record PriceLevel : Type 0 where
  pub price : ℕ
  pub quantity : ℕ

pub data EventPayload : Type 0 where
  order_submitted : (symbol : Symbol) (id : ℕ) (side : Side) (price quantity : ℕ) → EventPayload
  order_cancelled : (symbol : Symbol) (id : ℕ) → EventPayload
  order_replaced : (symbol : Symbol) (id new_price new_quantity : ℕ) → EventPayload
  trade_executed :
      (symbol : Symbol) (incoming_order_id resting_order_id price quantity : ℕ) → EventPayload
  order_rejected : (symbol : Symbol) (id : ℕ) (reason : RejectReason) → EventPayload

pub record Event : Type 0 where
  pub sequence_number : ℕ
  pub payload : EventPayload

abbrev pub opposite : Side → Side
opposite buy = sell
opposite sell = buy

-- `quantity -= n`, which the callers use with `n ≤ quantity` only.
abbrev pub fill : Order → ℕ → Order
fill o n = record o { quantity = o.quantity - n }

-- `before s p q`: on side `s` the price `p` is better than `q`, and stands in front of it.
abbrev pub before : Side → ℕ → ℕ → Bool
before buy p q = ltb q p
before sell p q = ltb p q

-- An order of side `s` at the limit `p` trades with the opposite price `q`.
abbrev pub crosses : Side → ℕ → ℕ → Bool
crosses buy p q = leb q p
crosses sell p q = leb p q
