-- ===== src/Book/Optimized.antt =====
-- include/titan/book/optimized_matcher.hpp and src/book/optimized_matcher.cpp: `OptimizedMatcher`.
--
-- A level is a vector of slots; a slot whose order is gone is a tombstone, `none` for `nullptr`.
-- Every order is owned by one slot, so a slot holds the order that its pointer leads to; the pool
-- that owns the storage is `Pool`. The sizes of vectors stay below 2^64 and do not wrap. Price
-- maps are lists best price first, as in `Book.Reference`.
pub mod Table
pub mod Rest
pub mod Cross
pub mod Loop
pub mod Refines
use titan_engine.Prelude.{
  nat_eq, ℕ, zero, suc, ◌+◌, ◌-◌, true, false, List, [], ◌∷◌, ◌++◌, Option, none, some, min, ltb,
  ◌==◌, if◌then◌else◌, add64, u64_max, length, set, drop,
}
use titan_engine.Prelude.Assoc.{lookup, insert, erase}
use titan_engine.Prelude.OrderedMap
use titan_engine.Book.Ladder.{Location}
use titan_engine.Core.{Side, buy, sell, Order, Trade, PriceLevel, before, opposite, fill, crosses}

pub record Level : Type 0 where
  pub orders : List (Option Order)
  pub front_index : ℕ
  pub live_count : ℕ

abbrev pub empty_level : Level
empty_level = record { orders = []; front_index = 0; live_count = 0 }

abbrev pub Levels : Type 0
Levels = List (ℕ × Level)

-- `order_table` gives an `OrderRef` for each id.
pub record Matcher : Type 0 where
  pub bids : Levels
  pub asks : Levels
  pub order_table : List (ℕ × Location)

abbrev pub empty_matcher : Matcher
empty_matcher = record { bids = []; asks = []; order_table = [] }

abbrev pub levels : Side → Matcher → Levels
levels buy m = m.bids
levels sell m = m.asks

abbrev pub with_levels : Side → Levels → Matcher → Matcher
with_levels buy ls m = record m { bids = ls }
with_levels sell ls m = record m { asks = ls }

-- What `level.orders[i]` points at: `none` for a tombstone and behind the end.
abbrev pub slot_at : List (Option Order) → ℕ → Option Order
slot_at [] i = none
slot_at (x ∷ xs) zero = x
slot_at (x ∷ xs) (suc i) = slot_at xs i

-- `levels[price]`, whose level is made if it is missing.
abbrev pub level_or_new : Option Level → Level
level_or_new none = empty_level
level_or_new (some level) = level

abbrev pub push_slot : Order → Level → Level
push_slot o level = record level {
  orders = level.orders ++ (some o ∷ []);
  live_count = suc level.live_count;
}

unfoldable pub rest_order : Order → Matcher → Matcher
rest_order o m =
    let index = length (level_or_new (OrderedMap.find? o.price (levels o.side m))).orders in
    let ls =
      OrderedMap.upsert (before o.side) o.price empty_level (push_slot o) (levels o.side m) in
    let ref : Location = record { side = o.side; price = o.price; slot = index } in
    record (with_levels o.side ls m) { order_table = insert o.id ref m.order_table }

-- The slot becomes a tombstone.
abbrev pub kill_slot : ℕ → Level → Level
kill_slot i level = record level {
  orders = set level.orders i none;
  live_count = level.live_count - 1;
}

-- A level without live orders goes.
unfoldable pub release_at : ℕ → ℕ → Levels → Levels
release_at price i ls = elim (OrderedMap.find? price ls) [
  | none ↦ ls
  | some level ↦
      if (kill_slot i level).live_count == 0
      then OrderedMap.erase price ls
      else OrderedMap.adjust price (kill_slot i) ls
]

unfoldable pub remove_order : ℕ → Matcher → Matcher
unfolding release_at
remove_order id m = elim (lookup id m.order_table) [
  | none ↦ m
  | some ref ↦ record (with_levels ref.side (release_at ref.price ref.slot (levels ref.side m)) m) {
    order_table = erase id m.order_table;
  }
]

unfoldable pub cancel_order : ℕ → Matcher → Matcher
unfolding remove_order
cancel_order = remove_order

-- The loop of `frontLive` over the slots from index `i` on.
unfoldable pub skip_tombstones : List (Option Order) → ℕ → ℕ
skip_tombstones [] i = i
skip_tombstones (none ∷ xs) i = skip_tombstones xs (i + 1)
skip_tombstones (some o ∷ xs) i = i

-- The level with its front index moved on, and the order there.
unfoldable pub front_live : Level → Level × Option Order
unfolding skip_tombstones
front_live level =
    let i = skip_tombstones (drop level.front_index level.orders) level.front_index in
    (record level { front_index = i }, slot_at level.orders i)

pub record Crossed : Type 0 where
  pub matcher : Matcher
  pub incoming : Order
  pub trades : List Trade

abbrev pub with_trade : Trade → Option Crossed → Option Crossed
with_trade t none = none
with_trade t (some r) = some (record r { trades = t ∷ r.trades })

-- `resting->quantity -= traded`, through the pointer that `frontLive` returned.
abbrev pub fill_slot : Order → ℕ → Level → Level
fill_slot r n level = record level { orders = set level.orders level.front_index (some (fill r n)) }

-- The rest of a round, for the front level, already moved on, and its order.
unfoldable pub cross_step : Order → Order → ℕ → Level → Matcher → Matcher × Order × Trade
cross_step incoming resting price level m =
    let opp = opposite incoming.side in
    let traded = min incoming.quantity resting.quantity in
    let ls = OrderedMap.adjust price (λ _. fill_slot resting traded level) (levels opp m) in
    let m' = with_levels opp ls m in
    (
      (if resting.quantity - traded == 0 then remove_order resting.id m' else m'),
      fill incoming traded,
      record {
        incoming_order_id = incoming.id;
        resting_order_id = resting.id;
        price = resting.price;
        quantity = traded;
      },
    )

abbrev pub stop : Order → Matcher → Option Crossed
stop incoming m = some (record { matcher = m; incoming = incoming; trades = [] })

-- `none` stands for a loop that does not end.
unfoldable pub cross_loop : ℕ → Order → Matcher → Option Crossed
cross_loop zero incoming m = none
cross_loop (suc fuel) incoming m = elim (ltb 0 incoming.quantity) [
  | false ↦ stop incoming m
  | true ↦ elim (levels (opposite incoming.side) m) [
    | [] ↦ stop incoming m
    | level ∷ ls ↦ elim (crosses incoming.side incoming.price level.0) [
      | false ↦ stop incoming m
      | true ↦ elim (front_live level.1).1 [
        | none ↦ cross_loop fuel incoming (with_levels (opposite incoming.side) ls m)
        | some resting ↦
            let s = cross_step incoming resting level.0 (front_live level.1).0 m in
            with_trade s.2 (cross_loop fuel s.1 s.0)
      ]
    ]
  ]
]

-- The slots of a side, and one for each level.
abbrev pub slot_count : Levels → ℕ
slot_count [] = 0
slot_count ((p, level) ∷ ls) = suc (length level.orders) + slot_count ls

-- Every round but the last takes an order or a level off the opposite side.
unfoldable pub cross : Order → Matcher → Option Crossed
cross incoming m = cross_loop (slot_count (levels (opposite incoming.side) m) + 2) incoming m

abbrev pub rest_remainder : Crossed → Matcher
rest_remainder r = if ltb 0 r.incoming.quantity then rest_order r.incoming r.matcher else r.matcher

unfoldable pub match_order : Order → Matcher → Option (Matcher × List Trade)
match_order o m = elim (cross o m) [ none ↦ none | some r ↦ some (rest_remainder r, r.trades) ]

unfoldable pub add_order : Order → Matcher → Option Matcher
add_order o m = elim (cross o m) [ none ↦ none | some r ↦ some (rest_remainder r) ]

-- `bestBid` and `bestAsk` with their sentinels.
unfoldable pub best_bid : Matcher → ℕ
best_bid m = elim m.bids [ [] ↦ u64_max | l ∷ ls ↦ l.0 ]

unfoldable pub best_ask : Matcher → ℕ
best_ask m = elim m.asks [ [] ↦ 0 | l ∷ ls ↦ l.0 ]

-- `total += order->quantity` over the slots of a level, from `total`.
unfoldable pub slots_total : ℕ → List (Option Order) → ℕ
slots_total total [] = total
slots_total total (none ∷ xs) = slots_total total xs
slots_total total (some o ∷ xs) = slots_total (add64 total o.quantity) xs

-- The loop of `depthFrom`: at most `max_levels` levels, in the order of the list.
unfoldable pub depth_from : Levels → ℕ → List PriceLevel
unfolding slots_total
depth_from ls zero = []
depth_from [] (suc k) = []
depth_from ((p, level) ∷ ls) (suc k) =
    record { price = p; quantity = slots_total 0 level.orders } ∷ depth_from ls k

unfoldable pub bid_depth : ℕ → Matcher → List PriceLevel
unfolding depth_from
bid_depth max_levels m = depth_from m.bids max_levels

unfoldable pub ask_depth : ℕ → Matcher → List PriceLevel
unfolding depth_from
ask_depth max_levels m = depth_from m.asks max_levels
