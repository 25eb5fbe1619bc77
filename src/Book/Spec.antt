-- ===== src/Book/Spec.antt =====
-- What a matcher promises, `IMatcher` of include/titan/book/i_matcher.hpp: a side of the book is
-- one queue of orders, best price first and oldest first at one price.
pub mod Sweep
pub mod Safety
use titan_engine.Prelude.{ℕ, ◌-◌, ◌&&◌, List, [], ◌∷◌, min, ltb, ◌==◌, if◌then◌else◌}
use titan_engine.Core.{Side, buy, sell, Order, Trade, before, crosses, opposite, fill}

-- The queue of each side.
pub record Queues : Type 0 where
  pub bids : List Order
  pub asks : List Order

abbrev pub side_of : Side → Queues → List Order
side_of buy q = q.bids
side_of sell q = q.asks

abbrev pub with_side : Side → List Order → Queues → Queues
with_side buy xs q = record q { bids = xs }
with_side sell xs q = record q { asks = xs }

-- Behind every order that is at least as good.
unfoldable pub enqueue : Side → Order → List Order → List Order
enqueue s o [] = o ∷ []
enqueue s o (x ∷ xs) = if before s o.price x.price then o ∷ x ∷ xs else x ∷ enqueue s o xs

-- The order with this id, gone.
unfoldable pub dequeue : ℕ → List Order → List Order
dequeue i [] = []
dequeue i (x ∷ xs) = if x.id == i then xs else x ∷ dequeue i xs

-- The queue and the incoming order after matching, with the trades.
pub record Outcome : Type 0 where
  pub queue : List Order
  pub incoming : Order
  pub trades : List Trade

-- A trade of `n` between an incoming and a resting order, at the price of the resting one.
abbrev pub trade_for : Order → Order → ℕ → Trade
trade_for incoming resting n = record {
  incoming_order_id = incoming.id;
  resting_order_id = resting.id;
  price = resting.price;
  quantity = n;
}

abbrev pub trade_of : Order → Order → Trade
trade_of incoming resting = trade_for incoming resting (min incoming.quantity resting.quantity)

abbrev pub add_trade : Trade → Outcome → Outcome
add_trade t r = record r { trades = t ∷ r.trades }

unfoldable pub sweep : Order → List Order → Outcome
sweep incoming [] = record { queue = []; incoming = incoming; trades = [] }
sweep incoming (r ∷ rs) =
    let n = min incoming.quantity r.quantity in
    let rest = add_trade (trade_of incoming r) (sweep (fill incoming n) rs) in
    if ltb 0 incoming.quantity && crosses incoming.side incoming.price r.price
    then if r.quantity - n == 0 then rest else record {
      queue = fill r n ∷ rs;
      incoming = fill incoming n;
      trades = trade_of incoming r ∷ [];
    }
    else record { queue = r ∷ rs; incoming = incoming; trades = [] }

-- `matchOrder` for an order of side `s`: cross, then rest what is left.
unfoldable pub match_on : Side → Order → Queues → Queues × List Trade
match_on s o q =
    let r = sweep o (side_of (opposite s) q) in
    let swept = with_side (opposite s) r.queue q in
    if ltb 0 r.incoming.quantity
    then (with_side s (enqueue s r.incoming (side_of s swept)) swept, r.trades)
    else (swept, r.trades)

unfoldable pub match_order : Order → Queues → Queues × List Trade
unfolding match_on
match_order o q = match_on o.side o q

unfoldable pub cancel_order : ℕ → Queues → Queues
unfolding dequeue
cancel_order i q = record { bids = dequeue i q.bids; asks = dequeue i q.asks }
