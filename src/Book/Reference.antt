-- ===== src/Book/Reference.antt =====
-- reference/order_book.hpp and order_book.cpp: `ReferenceMatcher`.
--
-- A price map is the list of its levels in the order in which its side is read, best price first:
-- `asks` from `begin`, `bids` from `rbegin`, so `prev(end())` of `bids` is the head. A node of a
-- `std::list` has a handle, which stands for the iterator to it and never changes. `none` stands
-- for a run that does not end or has undefined behaviour.
pub mod Table
pub mod Rest
pub mod Cross
pub mod Loop
pub mod Refines
use titan_engine.Prelude.{
  nat_eq, ℕ, zero, suc, ◌+◌, ◌-◌, ◌≡◌, Bool, true, false, ◌&&◌, not, List, [], ◌∷◌, ◌++◌, Option,
  none, some, min, ltb, leb, ◌==◌, if◌then◌else◌, add64, sub64, u64_max, length,
}
use titan_engine.Prelude.Assoc.{lookup, insert, erase}
use titan_engine.Prelude.OrderedMap
use titan_engine.Book.Ladder.{Location}
use titan_engine.Core.{Side, buy, sell, Order, Trade, PriceLevel, before, opposite, fill}

-- A node of a level: its handle and its order.
abbrev pub Node : Type 0
Node = ℕ × Order

abbrev pub OrderList : Type 0
OrderList = List Node

abbrev pub PriceLevels : Type 0
PriceLevels = List (ℕ × OrderList)

pub record Matcher : Type 0 where
  pub bids : PriceLevels
  pub asks : PriceLevels
  pub order_table : List (ℕ × Location)
  pub next_node : ℕ

abbrev pub empty_matcher : Matcher
empty_matcher = record { bids = []; asks = []; order_table = []; next_node = 0 }

abbrev pub levels : Side → Matcher → PriceLevels
levels buy m = m.bids
levels sell m = m.asks

abbrev pub with_levels : Side → PriceLevels → Matcher → Matcher
with_levels buy ls m = record m { bids = ls }
with_levels sell ls m = record m { asks = ls }

abbrev pub is_empty {ℓ} : {A : Type ℓ} → List A → Bool
is_empty [] = true
is_empty (x ∷ xs) = false

-- `bestBid` and `bestAsk` with their sentinels.
abbrev pub best : Side → Matcher → ℕ
best buy m = elim m.bids [ [] ↦ u64_max | l ∷ ls ↦ l.0 ]
best sell m = elim m.asks [ [] ↦ 0 | l ∷ ls ↦ l.0 ]

-- `level.erase(it)`.
unfoldable pub erase_node : ℕ → OrderList → OrderList
erase_node h [] = []
erase_node h ((i, o) ∷ ns) = if i == h then ns else (i, o) ∷ erase_node h ns

unfoldable pub rest_order : Order → Matcher → Matcher
rest_order o m =
    let n = m.next_node in
    let ls = OrderedMap.upsert (before o.side) o.price [] (λ level. level ++ (n, o) ∷ []) in
    let location : Location = record { side = o.side; price = o.price; slot = n } in
    record (with_levels o.side (ls (levels o.side m)) m) {
      order_table = insert o.id location m.order_table;
      next_node = suc n;
    }

-- An emptied level goes; the others keep their nodes.
unfoldable pub erase_at : ℕ → ℕ → PriceLevels → PriceLevels
unfolding erase_node
erase_at price h ls = elim (OrderedMap.find? price ls) [
  | none ↦ ls
  | some level ↦
      if is_empty (erase_node h level)
      then OrderedMap.erase price ls
      else OrderedMap.adjust price (erase_node h) ls
]

unfoldable pub remove_order : ℕ → Matcher → Matcher
unfolding erase_at
remove_order i m = elim (lookup i m.order_table) [
  | none ↦ m
  | some loc ↦ record (with_levels loc.side (erase_at loc.price loc.slot (levels loc.side m)) m) {
    order_table = erase i m.order_table;
  }
]

unfoldable pub cancel_order : ℕ → Matcher → Matcher
unfolding remove_order
cancel_order = remove_order

-- The test of the two `while` loops of `cross`.
unfoldable pub keeps_crossing : Order → Matcher → Bool
keeps_crossing o m = elim o.side [
  | buy ↦ ltb 0 o.quantity && (leb (best sell m) o.price && not (is_empty m.asks))
  | sell ↦ ltb 0 o.quantity && (leb o.price (best buy m) && not (is_empty m.bids))
]

-- `resting.quantity -= traded`, on the front node of a level.
abbrev pub fill_front : ℕ → OrderList → OrderList
fill_front n [] = []
fill_front n ((h, o) ∷ ns) = (h, fill o n) ∷ ns

-- `levels[price].front()`.
unfoldable pub front : ℕ → PriceLevels → Option Order
front price ls = elim (OrderedMap.find? price ls) [
  | none ↦ none
  | some [] ↦ none
  | some (n ∷ ns) ↦ some n.1
]

-- The body of the loop, after `resting` is bound: the matcher, the incoming order and the trade.
unfoldable pub cross_step : Order → Order → Matcher → Matcher × Order × Trade
unfolding remove_order
cross_step incoming resting m =
    let opp = opposite incoming.side in
    let traded = min incoming.quantity resting.quantity in
    let m' =
      with_levels opp (OrderedMap.adjust (best opp m) (fill_front traded) (levels opp m)) m in
    (
      (if resting.quantity - traded == 0 then remove_order resting.id m' else m'),
      fill incoming traded,
      record {
        incoming_order_id = incoming.id;
        resting_order_id = resting.id;
        price = resting.price;
        quantity = traded;
      },
    )

pub record Crossed : Type 0 where
  pub matcher : Matcher
  pub incoming : Order
  pub trades : List Trade

abbrev pub with_trade : Trade → Option Crossed → Option Crossed
with_trade t none = none
with_trade t (some r) = some (record r { trades = t ∷ r.trades })

unfoldable pub cross_loop : ℕ → Order → Matcher → Option Crossed
cross_loop zero incoming m = none
cross_loop (suc fuel) incoming m = elim (keeps_crossing incoming m) [
  | false ↦ some (record { matcher = m; incoming = incoming; trades = [] })
  | true ↦ elim (front (best (opposite incoming.side) m) (levels (opposite incoming.side) m)) [
    | none ↦ none
    | some resting ↦
        let s = cross_step incoming resting m in with_trade s.2 (cross_loop fuel s.1 s.0)
  ]
]

-- The number of orders on a side.
abbrev pub resting_count : PriceLevels → ℕ
resting_count [] = 0
resting_count ((p, level) ∷ ls) = length level + resting_count ls

-- Every round but the last takes one order off the opposite side.
unfoldable pub cross : Order → Matcher → Option Crossed
unfolding cross_loop
cross incoming m = cross_loop (resting_count (levels (opposite incoming.side) m) + 2) incoming m

-- The common end of `addOrder` and `matchOrder`: what is left rests.
abbrev pub rest_remainder : Crossed → Matcher
rest_remainder r = if ltb 0 r.incoming.quantity then rest_order r.incoming r.matcher else r.matcher

unfoldable pub match_order : Order → Matcher → Option (Matcher × List Trade)
unfolding cross rest_order
match_order o m = elim (cross o m) [ none ↦ none | some r ↦ some (rest_remainder r, r.trades) ]

unfoldable pub add_order : Order → Matcher → Option Matcher
unfolding cross rest_order
add_order o m = elim (cross o m) [ none ↦ none | some r ↦ some (rest_remainder r) ]

unfoldable pub best_bid : Matcher → ℕ
best_bid = best buy

unfoldable pub best_ask : Matcher → ℕ
best_ask = best sell

-- `total += order.quantity` over a level, from `total`.
unfoldable pub level_total : ℕ → OrderList → ℕ
level_total total [] = total
level_total total ((h, o) ∷ ns) = level_total (add64 total o.quantity) ns

-- The loop of `depthFrom`: at most `max_levels` levels, in the order of the list.
unfoldable pub depth_from : PriceLevels → ℕ → List PriceLevel
unfolding level_total
depth_from ls zero = []
depth_from [] (suc k) = []
depth_from ((p, level) ∷ ls) (suc k) =
    record { price = p; quantity = level_total 0 level } ∷ depth_from ls k

unfoldable pub bid_depth : ℕ → Matcher → List PriceLevel
unfolding depth_from
bid_depth max_levels m = depth_from m.bids max_levels

unfoldable pub ask_depth : ℕ → Matcher → List PriceLevel
unfolding depth_from
ask_depth max_levels m = depth_from m.asks max_levels
