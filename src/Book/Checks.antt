-- ===== src/Book/Checks.antt =====
-- `checkInvariants` of src/book/invariants.cpp, on a `ReferenceMatcher`.
use titan_engine.Prelude.{
  ℕ, ◌+◌, Bool, true, false, not, List, [], ◌∷◌, ◌++◌, Option, none, some, ltb, leb, ◌==◌,
  if◌then◌else◌, length,
}
use titan_engine.Prelude.OrderedMap
use titan_engine.Core.{Side, buy, sell, Order}
use titan_engine.Book.Ladder.{Location}
use titan_engine.Book.Reference.{
  OrderList, PriceLevels, Matcher, levels, resting_count, best_bid, best_ask,
}
use titan_engine.Book.Reference.Table.{node_at}
mod Walk
mod Count
pub mod Clean

-- The violations by name, with the numbers that their details print. `dangling_location` is a
-- table entry whose iterator points at no order, on which the source reads what is not there.
pub data InvariantViolation : Type 0 where
  price_levels_ordered : Side → ℕ → InvariantViolation
  no_zero_quantity_resting_orders : Side → ℕ → InvariantViolation
  order_price_matches_level : Side → (id level price : ℕ) → InvariantViolation
  order_table_size_matches_resting_count : (table walked : ℕ) → InvariantViolation
  order_table_locations_accurate : (id found : ℕ) → InvariantViolation
  dangling_location : ℕ → InvariantViolation
  no_crossed_book_at_rest : (bid ask : ℕ) → InvariantViolation
  status_consistent_with_active : ℕ → InvariantViolation
  active_ids_subset_of_order_table : ℕ → InvariantViolation
  shadow_queue_matches_matcher_fifo : Side → ℕ → InvariantViolation

abbrev pub Violations : Type 0
Violations = List InvariantViolation

abbrev pub unless : Bool → InvariantViolation → Violations
unless true v = []
unless false v = v ∷ []

unfoldable pub reverse {ℓ} : {A : Type ℓ} → List A → List A
reverse [] = []
reverse (x ∷ xs) = reverse xs ++ x ∷ []

-- The levels in the order of the map, lowest price first.
abbrev pub ascending {ℓ} : {A : Type ℓ} → Side → List A → List A
ascending buy ls = reverse ls
ascending sell ls = ls

-- `previous` is `none` at the first level.
abbrev pub check_order_of : Side → Option ℕ → ℕ → Violations
check_order_of s none price = []
check_order_of s (some previous) price =
    unless (not (leb price previous)) (price_levels_ordered s price)

unfoldable pub check_orders : Side → ℕ → OrderList → Violations
check_orders s price [] = []
check_orders s price ((h, o) ∷ ns) =
    unless (not (o.quantity == 0)) (no_zero_quantity_resting_orders s o.id)
    ++ (unless (o.price == price) (order_price_matches_level s o.id price o.price)
        ++ check_orders s price ns)

-- `walkLevels`, without the count.
unfoldable pub walk_levels : Side → Option ℕ → PriceLevels → Violations
unfolding check_orders
walk_levels s previous [] = []
walk_levels s previous ((price, orders) ∷ ls) =
    check_order_of s previous price
    ++ (check_orders s price orders ++ walk_levels s (some price) ls)

-- The order that a location points at.
unfoldable pub located : Location → Matcher → Option Order
located loc m = elim (OrderedMap.find? loc.price (levels loc.side m)) [
  | none ↦ none
  | some level ↦ node_at level loc.slot
]

abbrev pub check_location : ℕ → Option Order → Violations
check_location i none = dangling_location i ∷ []
check_location i (some o) = unless (o.id == i) (order_table_locations_accurate i o.id)

unfoldable pub check_table : List (ℕ × Location) → Matcher → Violations
unfolding located
check_table [] m = []
check_table ((i, loc) ∷ table) m = check_location i (located loc m) ++ check_table table m

unfoldable pub check_crossed : Matcher → Violations
check_crossed m = elim m.bids [
  | [] ↦ []
  | b ∷ bs ↦ elim m.asks [
    | [] ↦ []
    | a ∷ rest ↦
        unless (ltb (best_bid m) (best_ask m)) (no_crossed_book_at_rest (best_bid m) (best_ask m))
  ]
]

unfoldable pub check_invariants : Matcher → Violations
unfolding walk_levels check_table check_crossed
check_invariants m =
    let walked = resting_count m.bids + resting_count m.asks in
    walk_levels buy none (ascending buy m.bids)
    ++ (walk_levels sell none (ascending sell m.asks)
        ++ (unless (walked == length m.order_table)
              (order_table_size_matches_resting_count (length m.order_table) walked)
            ++ (check_table m.order_table m ++ check_crossed m)))
