-- ===== src/Exchange/Checks.antt =====
-- `checkOrderManagerInvariants` of src/book/invariants.cpp, on a manager of a `ReferenceMatcher`.
use titan_engine.Prelude.{
  ℕ, Bool, true, false, ◌||◌, ◌&&◌, List, [], ◌∷◌, ◌++◌, Option, none, some, ◌==◌, if◌then◌else◌,
  nat_eq, bytes_key,
}
use titan_engine.Prelude.Assoc.{lookup}
use titan_engine.Prelude.OrderedMap
use titan_engine.Core.{
  Side, buy, sell, Order, OrderStatus, new, partially_filled, filled, cancelled, rejected,
}
use titan_engine.Book.Reference
use titan_engine.Book.Reference.{PriceLevels, OrderList}
use titan_engine.Book.Checks.{
  InvariantViolation, Violations, unless, check_invariants, status_consistent_with_active,
  active_ids_subset_of_order_table, shadow_queue_matches_matcher_fifo,
}
use titan_engine.Exchange.OrderManager
use titan_engine.Exchange.OrderManager.{OrderManager, Shadow}
pub mod Sound

abbrev pub Manager : Type 0
Manager = OrderManager Reference.Matcher

-- A status of an order that rests.
abbrev pub is_resting : Option OrderStatus → Bool
is_resting none = false
is_resting (some new) = true
is_resting (some partially_filled) = true
is_resting (some filled) = false
is_resting (some cancelled) = false
is_resting (some rejected) = false

abbrev pub is_some {ℓ} : {A : Type ℓ} → Option A → Bool
is_some none = false
is_some (some a) = true

-- The loop over the active ids.
unfoldable pub check_active : List ℕ → Manager → Violations
check_active [] m = []
check_active (i ∷ is) m =
    unless (is_resting (OrderManager.status_of i m)) (status_consistent_with_active i)
    ++ (unless (is_some (lookup i m.matcher.order_table)) (active_ids_subset_of_order_table i)
        ++ check_active is m)

-- The ids of the orders at a price, in order; none where there is no level.
abbrev pub ids : OrderList → List ℕ
ids [] = []
ids ((h, o) ∷ ns) = o.id ∷ ids ns

unfoldable pub real_ids : ℕ → PriceLevels → List ℕ
unfolding OrderedMap.find?
real_ids price real = elim (OrderedMap.find? price real) [ none ↦ [] | some orders ↦ ids orders ]

unfoldable pub check_shadow : Side → Shadow → PriceLevels → Violations
unfolding real_ids
check_shadow s [] real = []
check_shadow s ((price, shadow_ids) ∷ shadow) real =
    unless (bytes_key.beq (real_ids price real) shadow_ids)
      (shadow_queue_matches_matcher_fifo s price)
    ++ check_shadow s shadow real

unfoldable pub check_order_manager_invariants : Manager → Violations
unfolding check_invariants check_active check_shadow
check_order_manager_invariants m =
    check_invariants m.matcher
    ++ (check_active m.active_order_ids m
        ++ (check_shadow buy m.resting_bids_at m.matcher.bids
            ++ check_shadow sell m.resting_asks_at m.matcher.asks))
