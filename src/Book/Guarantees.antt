-- ===== src/Book/Guarantees.antt =====
-- What a participant may rely on, whichever matcher runs (include/titan/book/i_matcher.hpp).
use titan_engine.Prelude.{
  ℕ, ◌+◌, ◌≡◌, refl, sym, subst, List, [], ◌∷◌, some, ltb, Bool-cases, inl, inr, All, arith, ap,
}
use titan_engine.Core.{Side, buy, sell, opposite, Order, Trade}
use titan_engine.Book.Spec
use titan_engine.Book.Spec.{Queues, sweep, enqueue, side_of}
use titan_engine.Book.Spec.Sweep.{
  traded, resting, sweep-conserves, IsFairTrade, IsPositive, sweep-IsFairTrade,
}
use titan_engine.Book.Spec.Safety.{IsBook}
use titan_engine.Book.Ladder.{count_id}
use titan_engine.Book.Reference
use titan_engine.Book.Optimized
use titan_engine.Book.Agreement.{
  Call, run, AreFresh, run_optimized, run_optimized-refines, run-IsBook,
}

-- The quantity that rests on both sides.
abbrev pub open_interest : Queues → ℕ
open_interest q = resting q.bids + resting q.asks

resting-enqueue :
    (s : Side) (o : Order) (xs : List Order) → resting (enqueue s o xs) ≡ o.quantity + resting xs
unfolding enqueue
resting-enqueue s o [] = refl
resting-enqueue s o (x ∷ xs) = ground (arith, resting-enqueue s o xs)

conserved :
    (s : Side) (o : Order) (q : Queues)
    → traded (Spec.match_on s o q).1
        + traded (Spec.match_on s o q).1
        + open_interest (Spec.match_on s o q).0
      ≡ o.quantity + open_interest q
unfolding Spec.match_on
conserved buy o q =
    ground (arith, sweep-conserves o q.asks, resting-enqueue buy (sweep o q.asks).incoming q.bids)
conserved sell o q =
    ground (arith, sweep-conserves o q.bids, resting-enqueue sell (sweep o q.bids).incoming q.asks)

fair :
    (s : Side) (o : Order) (q : Queues)
    → IsPositive (side_of (opposite s) q)
    → All (IsFairTrade o) (Spec.match_on s o q).1
unfolding Spec.match_on
fair s o q pos = elim (Bool-cases (ltb 0 (sweep o (side_of (opposite s) q)).incoming.quantity)) [
  | inr e ↦ rw e (sweep-IsFairTrade o (side_of (opposite s) q) pos)
  | inl e ↦ rw e (sweep-IsFairTrade o (side_of (opposite s) q) pos)
]

-- `OptimizedMatcher::matchOrder`, called on a valid state with an id that does not rest, ends,
-- and twice the traded quantity and the quantity that rests afterwards make up the incoming
-- quantity and what rested before.
pub match_order-conserves :
    (o : Order) (m : Optimized.Matcher)
    → Optimized.Table.IsValid m
    → count_id o.id (Optimized.Table.queues m).bids + count_id o.id (Optimized.Table.queues m).asks
      ≡ 0
    → (m' : Optimized.Matcher) × (ts : List Trade) × (Optimized.match_order o m ≡ some (m', ts))
      × (traded ts + traded ts + open_interest (Optimized.Table.queues m')
          ≡ o.quantity + open_interest (Optimized.Table.queues m))
unfolding Spec.match_order
match_order-conserves o m v fresh =
    let (m', ts, r, _, e, t) = Optimized.Refines.match_order-refines o m v fresh in
    (
      m',
      ts,
      r,
      omega (arith, conserved o.side o (Optimized.Table.queues m), ap traded t, ap open_interest e),
    )

-- `ReferenceMatcher::matchOrder`, called on a valid state whose other side holds no order of
-- quantity 0 with an id that does not rest, ends, and each trade names the incoming order, has a
-- positive quantity and a price that the incoming limit accepts.
pub match_order-IsFairTrade :
    (o : Order) (m : Reference.Matcher)
    → Reference.Table.IsValid m
    → IsPositive (side_of (opposite o.side) (Reference.Table.queues m))
    → count_id o.id (Reference.Table.queues m).bids + count_id o.id (Reference.Table.queues m).asks
      ≡ 0
    → (m' : Reference.Matcher) × (ts : List Trade) × (Reference.match_order o m ≡ some (m', ts))
      × All (IsFairTrade o) ts
unfolding Spec.match_order
match_order-IsFairTrade o m v pos fresh =
    let (m', ts, r, _, e, t) = Reference.Refines.match_order-refines o m v fresh in
    (m', ts, r, rw t (fair o.side o (Reference.Table.queues m) pos))

-- From a valid `OptimizedMatcher` whose two queues are sorted, positive, on their side and
-- uncrossed, every list of match and cancel calls ends and leaves the queues so, if no call
-- submits an id that rests at that time.
pub run_optimized-IsBook :
    (cs : List Call) (m : Optimized.Matcher)
    → Optimized.Table.IsValid m
    → IsBook (Optimized.Table.queues m)
    → AreFresh cs (Optimized.Table.queues m)
    → (m' : Optimized.Matcher) × (ts : List Trade) × (run_optimized cs m ≡ some (m', ts))
      × IsBook (Optimized.Table.queues m')
run_optimized-IsBook cs m v b f =
    let q = Optimized.Table.queues m in
    let (m', r, _, e) = run_optimized-refines cs m q v refl f in
    (m', (run cs q).1, r, subst IsBook (sym e) (run-IsBook cs q b))
