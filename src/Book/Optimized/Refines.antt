-- ===== src/Book/Optimized/Refines.antt =====
-- `OptimizedMatcher` implements the two queues of `Book.Spec`, and so agrees with
-- `ReferenceMatcher`.
use titan_engine.Prelude.{
  ℕ, ◌+◌, ◌≤◌, ◌≡◌, List, [], ◌∷◌, Option, some, none, arith, length, length-append,
}
use titan_engine.Prelude.Assoc.{lookup}
use titan_engine.Core.{buy, sell, opposite, Order, Trade}
use titan_engine.Book.Spec
use titan_engine.Book.Spec.{Queues, sweep, side_of}
use titan_engine.Book.Ladder.{count_id}
use titan_engine.Book.Optimized.{
  Levels, Matcher, levels, rest_order, Crossed, slot_count, cross, rest_remainder, match_order,
  add_order, cancel_order, empty_matcher,
}
use titan_engine.Book.Optimized.Table.{
  live, orders, queue, queue_of, queues, IsValid, remove_order-IsValid,
}
use titan_engine.Book.Optimized.Rest.{rest_order-IsValid}
use titan_engine.Book.Machine.{Swept, matched}
use titan_engine.Book.Optimized.Loop.{cross_loop-Loops}

length-live : (xs : List (Option Order)) → length (live xs) ≤ length xs
length-live [] = omega arith
length-live (none ∷ xs) = omega (arith, length-live xs)
length-live (some o ∷ xs) = omega (arith, length-live xs)

-- The fuel of `cross` covers the queue.
length-slot_count : (ls : Levels) → length (queue ls) ≤ slot_count ls
length-slot_count [] = omega arith
length-slot_count ((p, c) ∷ ls) =
    omega (arith, length-append (orders c) (queue ls), length-live c.orders, length-slot_count ls)

-- `cross` ends, with the trades and the queue of the sweep.
pub cross-Swept :
    (o : Order) (m : Matcher)
    → IsValid m
    → (r : Crossed) × (cross o m ≡ some r)
      × Swept IsValid queue_of o m r.matcher r.incoming r.trades
unfolding cross
cross-Swept o m v =
    cross_loop-Loops (slot_count (levels (opposite o.side) m) + 2) o m v
      (omega (arith, length-slot_count (levels (opposite o.side) m)))

-- `OptimizedMatcher::matchOrder`, called on a valid state with an id that does not rest, ends
-- with the trades and the queues of the two-queue book, in a valid state.
pub match_order-refines :
    (o : Order) (m : Matcher)
    → IsValid m
    → count_id o.id (queue m.bids) + count_id o.id (queue m.asks) ≡ 0
    → (m' : Matcher) × (ts : List Trade) × (match_order o m ≡ some (m', ts))
      × IsValid m'
      × (queues m' ≡ (Spec.match_order o (queues m)).0)
      × (ts ≡ (Spec.match_order o (queues m)).1)
unfolding match_order Spec.match_order
match_order-refines o m v fresh =
    let (r, run, sw) = cross-Swept o m v in
    let (rested, trades) =
      matched IsValid queue_of rest_order rest_order-IsValid o m r.matcher r.incoming r.trades sw
        fresh in
    (rest_remainder r, r.trades, rw (run, match_order), rested.0, rested.1, trades)

-- Under the same conditions `addOrder` ends in the state of `matchOrder`.
pub add_order-refines :
    (o : Order) (m : Matcher)
    → IsValid m
    → count_id o.id (queue m.bids) + count_id o.id (queue m.asks) ≡ 0
    → (m' : Matcher) × (add_order o m ≡ some m')
      × IsValid m'
      × (queues m' ≡ (Spec.match_order o (queues m)).0)
unfolding add_order Spec.match_order
add_order-refines o m v fresh =
    let (r, run, sw) = cross-Swept o m v in
    let (rested, _) =
      matched IsValid queue_of rest_order rest_order-IsValid o m r.matcher r.incoming r.trades sw
        fresh in
    (rest_remainder r, rw (run, add_order), rested.0, rested.1)

-- `cancelOrder` on a valid matcher takes the order with the id out of its queue, if there is one.
pub cancel_order-refines :
    (i : ℕ) (m : Matcher)
    → IsValid m
    → IsValid (cancel_order i m) × (queues (cancel_order i m) ≡ Spec.cancel_order i (queues m))
unfolding cancel_order
cancel_order-refines i m v = remove_order-IsValid i m v

pub empty-IsValid : IsValid empty_matcher
unfolding lookup
empty-IsValid = record {
  indexed = record {
    ladder = elim [ buy ↦ tt | sell ↦ tt ];
    sound = λ i loc e. cc;
    complete = λ i e. omega arith;
    unique = λ i. omega arith;
  };
  sound_levels = elim [ buy ↦ tt | sell ↦ tt ];
}
