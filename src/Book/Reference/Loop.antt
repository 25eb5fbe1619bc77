-- ===== src/Book/Reference/Loop.antt =====
-- The loop of `ReferenceMatcher::cross` ends within its fuel, and is the sweep of the queue.
use titan_engine.Prelude.{
  ℕ, zero, suc, ◌-◌, ◌<◌, ◌≡◌, refl, subst, ◌∙◌, true, false, ◌&&◌, List, [], ◌∷◌, ◌++◌, some, min,
  ◌==◌, ltb, arith, Bool-cases, List-cases, inl, inr, nat_eq, ap, length,
}
use titan_engine.Core.{opposite, Order, crosses, fill}
use titan_engine.Book.Spec.{trade_of}
use titan_engine.Book.Ladder.{IsLadder}
use titan_engine.Book.Reference.{
  OrderList, PriceLevels, Matcher, levels, best, keeps_crossing, front, cross_step, Crossed,
  cross_loop, with_trade,
}
use titan_engine.Book.Reference.Table.{orders, node_at, queue, IsValid}
use titan_engine.Book.Machine.{
  Stepped, Swept, after_fill, stops, stops_empty, goes_on, ends, used_up,
}
use titan_engine.Book.Reference.Cross.{
  queue_of, best-head, keeps_crossing-empty, keeps_crossing-head, front-head, step_lem,
}

cross_loop-idle :
    (fuel : ℕ) (o : Order) (m : Matcher)
    → keeps_crossing o m ≡ false
    → 0 < fuel
    → cross_loop fuel o m ≡ some (record { matcher = m; incoming = o; trades = [] })
unfolding cross_loop
cross_loop-idle zero o m e h = absurd (omega arith)
cross_loop-idle (suc f) o m e h = rw (e, cross_loop)

cross_step_lem :
    (o r : Order) (m : Matcher)
    → ((cross_step o r m).1 ≡ fill o (min o.quantity r.quantity))
      × ((cross_step o r m).2 ≡ trade_of o r)
unfolding cross_step
cross_step_lem o r m = (refl, refl)

cross_loop-round :
    (f : ℕ) (o : Order) (m : Matcher) (r : Order)
    → keeps_crossing o m ≡ true
    → front (best (opposite o.side) m) (levels (opposite o.side) m) ≡ some r
    → cross_loop (suc f) o m
      ≡ with_trade
          (trade_of o r)
          (cross_loop f (fill o (min o.quantity r.quantity)) (cross_step o r m).0)
unfolding cross_loop
cross_loop-round f o m r k e =
    rw (k, cross_loop)
      (rw (e, cross_loop) (rw ((cross_step_lem o r m).0, (cross_step_lem o r m).1)))

keeps_crossing-zero : (o : Order) (m : Matcher) → o.quantity ≡ 0 → keeps_crossing o m ≡ false
unfolding keeps_crossing
keeps_crossing-zero o m e = ground arith

-- With fuel for each order of the queue and one round more the loop ends.
abbrev pub Loops : ℕ → Order → Matcher → Type 0
Loops fuel o m =
    (x : Crossed) × (cross_loop fuel o m ≡ some x)
    × Swept IsValid queue_of o m x.matcher x.incoming x.trades

halts :
    (fuel : ℕ) (o : Order) (m : Matcher)
    → 0 < fuel
    → keeps_crossing o m ≡ false
    → Swept IsValid queue_of o m m o []
    → Loops fuel o m
halts fuel o m pos k sw =
    (record { matcher = m; incoming = o; trades = [] }, cross_loop-idle fuel o m k pos, sw)

-- One round, where the front order is known.
module _ (f : ℕ) (o : Order) (m : Matcher) (p h : ℕ) (r : Order) (ns : OrderList) (ls : PriceLevels)
    (v : IsValid m) (e : levels (opposite o.side) m ≡ (p, (h, r) ∷ ns) ∷ ls)
    (few : length (queue (levels (opposite o.side) m)) < suc f)
    (further : (o' : Order) (m' : Matcher)
      → IsValid m'
      → length (queue (levels (opposite o'.side) m')) < f
      → Loops f o' m') where
  abbrev rest : List Order
  rest = orders ns ++ queue ls

  abbrev o' : Order
  o' = fill o (min o.quantity r.quantity)

  abbrev m' : Matcher
  m' = (cross_step o r m).0

  whole : queue (levels (opposite o.side) m) ≡ r ∷ rest
  whole = rw e

  test : keeps_crossing o m ≡ (ltb 0 o.quantity && crosses o.side o.price r.price)
  test =
      let ladder =
        subst (IsLadder orders node_at (opposite o.side)) e (v.indexed.ladder (opposite o.side)) in
      rw ladder.1.0.0 (keeps_crossing-head o.side o m p ((h, r) ∷ ns) ls refl e)

  round :
      (ltb 0 o.quantity && crosses o.side o.price r.price) ≡ true
      → cross_loop (suc f) o m ≡ with_trade (trade_of o r) (cross_loop f o' m')
  round go =
      cross_loop-round f o m r (test ∙ go)
        (rw (best-head (opposite o.side) m p ((h, r) ∷ ns) ls e, e) (front-head p h r ns ls))

  stepped :
      Stepped IsValid queue_of
        (opposite o.side)
        m
        m'
        (after_fill r (min o.quantity r.quantity) rest)
  stepped = step_lem o m p h r ns ls v e

  round-Loops : Loops (suc f) o m
  round-Loops = elim (Bool-cases (ltb 0 o.quantity && crosses o.side o.price r.price)) [
    | inr halt ↦
        halts (suc f) o m (omega arith) (test ∙ halt)
          (stops IsValid queue_of o m r rest whole v halt)
    | inl go ↦ elim (Bool-cases (r.quantity - min o.quantity r.quantity == 0)) [
      | inl done ↦
          let left : queue (levels (opposite o.side) m') ≡ rest = stepped.swept ∙ rw done in
          let (x, run, sw) =
            further o' m' stepped.valid (omega (arith, ap length left, ap length whole)) in
          (
            record x { trades = trade_of o r ∷ x.trades },
            round go ∙ rw run,
            goes_on IsValid queue_of o m r rest whole m' go stepped done x.matcher x.incoming
                x.trades sw,
          )
      | inr more ↦
          let idle =
            cross_loop-idle f o' m' (keeps_crossing-zero o' m' (used_up o.quantity r.quantity more))
              (omega (arith, ap length whole)) in
          (_, round go ∙ rw idle, ends IsValid queue_of o m r rest whole m' go stepped more)
    ]
  ]

pub cross_loop-Loops :
    (fuel : ℕ) (o : Order) (m : Matcher)
    → IsValid m
    → length (queue (levels (opposite o.side) m)) < fuel
    → Loops fuel o m
cross_loop-Loops zero o m v few = absurd (omega arith)
cross_loop-Loops (suc f) o m v few = elim (List-cases (levels (opposite o.side) m)) [
  | inl none_left ↦
      halts (suc f) o m (omega arith) (keeps_crossing-empty o.side o m refl none_left)
        (stops_empty IsValid queue_of o m v (rw none_left))
  | inr ((p, []), ls, e) ↦ absurd (
      (subst (IsLadder orders node_at (opposite o.side)) e (v.indexed.ladder (opposite o.side))).0
        refl)
  | inr ((p, (h, r) ∷ ns), ls, e) ↦
      round-Loops f o m p h r ns ls v e few (λ o' m' v' few'. cross_loop-Loops f o' m' v' few')
]
