-- ===== src/Book/Ladder.antt =====
-- The two price maps and the order table that both matchers keep, whatever a level is made of.
pub mod Queue
pub mod Index
pub mod Rest
pub mod Fill
use titan_engine.Prelude.{
  ℕ, ◌+◌, ◌≤◌, ◌≡◌, true, List, [], ◌∷◌, ◌++◌, Option, some, none, All, nat_eq, ◌≢◌, ◌==◌,
  if◌then◌else◌,
}
use titan_engine.Prelude.Assoc.{lookup}
use titan_engine.Prelude.OrderedMap.{find?}
use titan_engine.Core.{Side, buy, sell, Order, before}

-- Where a resting order lives: `OrderLocation` of core/types.hpp, with the handle of its node for
-- the iterator, and `OrderRef` of optimized_matcher.hpp, with the index in its level.
pub record Location : Type 0 where
  pub side : Side
  pub price : ℕ
  pub slot : ℕ

-- How many orders have this id.
abbrev pub count_id : ℕ → List Order → ℕ
count_id i [] = 0
count_id i (o ∷ os) = (if o.id == i then 1 else 0) + count_id i os

module _ {C : Type 0} (to_list : C → List Order) (at : C → ℕ → Option Order) where
  -- The orders of a side, best price first and oldest first at one price.
  abbrev pub flatten : List (ℕ × C) → List Order
  flatten [] = []
  flatten ((p, c) ∷ ls) = to_list c ++ flatten ls

  -- Levels stand best first, and each holds orders, all of its price and side.
  abbrev pub IsLadder : Side → List (ℕ × C) → Type 0
  IsLadder s [] = Unit
  IsLadder s ((p, c) ∷ ls) =
      (to_list c ≢ [])
      × All (λ o. (o.price ≡ p) × (o.side ≡ s)) (to_list c)
      × All (λ e. before s p e.0 ≡ true) ls
      × IsLadder s ls

  -- The place that the table gives for an id.
  pub record Stands (ls : List (ℕ × C)) (loc : Location) (i : ℕ) : Type 0 where
    pub level : C
    pub order : Order
    pub level_found : find? loc.price ls ≡ some level
    pub order_found : at level loc.slot ≡ some order
    pub same_id : order.id ≡ i

  -- The table and the levels agree.
  pub record IsIndexed (ls : Side → List (ℕ × C)) (table : List (ℕ × Location)) : Type 0 where
    pub ladder : (s : Side) → IsLadder s (ls s)
    pub sound : (i : ℕ) (loc : Location) → lookup i table ≡ some loc → Stands (ls loc.side) loc i
    pub complete :
        (i : ℕ)
        → lookup i table ≡ none
        → count_id i (flatten (ls buy)) + count_id i (flatten (ls sell)) ≡ 0
    pub unique : (i : ℕ) → count_id i (flatten (ls buy)) + count_id i (flatten (ls sell)) ≤ 1
