-- ===== src/Book/Reference/Refines.antt =====
-- `ReferenceMatcher` implements the two queues of `Book.Spec`.
use titan_engine.Prelude.{
  ℕ, suc, ◌+◌, ◌≡◌, refl, ap, List, [], ◌∷◌, some, arith, length, length-append,
}
use titan_engine.Prelude.Assoc.{lookup}
use titan_engine.Core.{buy, sell, opposite, Order, Trade}
use titan_engine.Book.Spec
use titan_engine.Book.Spec.{Queues, sweep, side_of}
use titan_engine.Book.Ladder.{count_id}
use titan_engine.Book.Reference.{
  OrderList, PriceLevels, Matcher, levels, rest_order, Crossed, resting_count, cross,
  rest_remainder, match_order, add_order, cancel_order, empty_matcher,
}
use titan_engine.Book.Reference.Table.{orders, queue, queues, IsValid, remove_order-IsValid}
use titan_engine.Book.Reference.Rest.{rest_order-IsValid}
use titan_engine.Book.Machine.{Swept, matched}
use titan_engine.Book.Reference.Cross.{queue_of}
use titan_engine.Book.Reference.Loop.{cross_loop-Loops}

length-orders : (ns : OrderList) → length (orders ns) ≡ length ns
length-orders [] = refl
length-orders ((h, o) ∷ ns) = ap suc (length-orders ns)

-- The fuel of `cross` covers the queue.
pub resting_count-length : (ls : PriceLevels) → resting_count ls ≡ length (queue ls)
resting_count-length [] = refl
resting_count-length ((p, c) ∷ ls) =
    omega (arith, length-append (orders c) (queue ls), length-orders c, resting_count-length ls)

-- `cross` ends, with the trades and the queue of the sweep.
pub cross-Swept :
    (o : Order) (m : Matcher)
    → IsValid m
    → (r : Crossed) × (cross o m ≡ some r)
      × Swept IsValid queue_of o m r.matcher r.incoming r.trades
unfolding cross
cross-Swept o m v =
    cross_loop-Loops (resting_count (levels (opposite o.side) m) + 2) o m v
      (omega (arith, resting_count-length (levels (opposite o.side) m)))

-- For a valid matcher and an order whose id does not rest, `matchOrder` ends; it returns the
-- trades of the two-queue book, leaves its queues, and keeps the matcher valid.
pub match_order-refines :
    (o : Order) (m : Matcher)
    → IsValid m
    → count_id o.id (queue m.bids) + count_id o.id (queue m.asks) ≡ 0
    → (m' : Matcher) × (ts : List Trade) × (match_order o m ≡ some (m', ts))
      × IsValid m'
      × (queues m' ≡ (Spec.match_order o (queues m)).0)
      × (ts ≡ (Spec.match_order o (queues m)).1)
unfolding match_order Spec.match_order
match_order-refines o m v fresh =
    let (r, run, sw) = cross-Swept o m v in
    let (rested, trades) =
      matched IsValid queue_of rest_order rest_order-IsValid o m r.matcher r.incoming r.trades sw
        fresh in
    (rest_remainder r, r.trades, rw (run, match_order), rested.0, rested.1, trades)

-- `ReferenceMatcher::addOrder`, called on a valid state with an id that does not rest, ends in a
-- valid state with the queues of `matchOrder` of the two-queue book.
pub add_order-refines :
    (o : Order) (m : Matcher)
    → IsValid m
    → count_id o.id (queue m.bids) + count_id o.id (queue m.asks) ≡ 0
    → (m' : Matcher) × (add_order o m ≡ some m')
      × IsValid m'
      × (queues m' ≡ (Spec.match_order o (queues m)).0)
unfolding add_order Spec.match_order
add_order-refines o m v fresh =
    let (r, run, sw) = cross-Swept o m v in
    let (rested, _) =
      matched IsValid queue_of rest_order rest_order-IsValid o m r.matcher r.incoming r.trades sw
        fresh in
    (rest_remainder r, rw (run, add_order), rested.0, rested.1)

-- `ReferenceMatcher::cancelOrder` keeps a valid state valid and takes the order with the id out
-- of its queue, or changes neither queue where there is none.
pub cancel_order-refines :
    (i : ℕ) (m : Matcher)
    → IsValid m
    → IsValid (cancel_order i m) × (queues (cancel_order i m) ≡ Spec.cancel_order i (queues m))
unfolding cancel_order
cancel_order-refines i m v = remove_order-IsValid i m v

pub empty-IsValid : IsValid empty_matcher
unfolding lookup
empty-IsValid = record {
  indexed = record {
    ladder = elim [ buy ↦ tt | sell ↦ tt ];
    sound = λ i loc e. cc;
    complete = λ i e. omega arith;
    unique = λ i. omega arith;
  };
  old = elim [ buy ↦ tt | sell ↦ tt ];
  keyed = tt;
}
