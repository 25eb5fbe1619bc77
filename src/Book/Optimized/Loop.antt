-- ===== src/Book/Optimized/Loop.antt =====
-- The loop of `OptimizedMatcher::cross` ends within its fuel, and is the sweep of the queue.
use titan_engine.Prelude.{
  ℕ, zero, suc, ◌-◌, ◌<◌, ◌≡◌, refl, subst, ◌∙◌, Bool, true, false, ◌&&◌, List, [], ◌∷◌, ◌++◌, some,
  All, min, ◌==◌, ltb, arith, Bool-cases, List-cases, inl, inr, ap, length,
}
use titan_engine.Core.{opposite, Order, crosses, fill}
use titan_engine.Book.Spec.{trade_of}
use titan_engine.Book.Ladder.{IsLadder}
use titan_engine.Book.Machine.{
  Stepped, Swept, after_fill, stops, stops_empty, goes_on, ends, used_up,
}
use titan_engine.Book.Optimized.{
  Level, Levels, Matcher, levels, front_live, cross_step, Crossed, cross_loop, with_trade, stop,
}
use titan_engine.Book.Optimized.Table.{orders, order_at, queue, queue_of, IsValid}
use titan_engine.Book.Optimized.Cross.{step_lem}

and_split : (a b : Bool) → (a && b) ≡ true → (a ≡ true) × (b ≡ true)
and_split a b e = ground arith

abbrev pub Loops : ℕ → Order → Matcher → Type 0
Loops fuel o m =
    (x : Crossed) × (cross_loop fuel o m ≡ some x)
    × Swept IsValid queue_of o m x.matcher x.incoming x.trades

cross_loop-idle :
    (fuel : ℕ) (o : Order) (m : Matcher)
    → 0 < fuel
    → ltb 0 o.quantity ≡ false
    → cross_loop fuel o m ≡ stop o m
unfolding cross_loop
cross_loop-idle zero o m h e = absurd (omega arith)
cross_loop-idle (suc f) o m h e = rw (e, cross_loop)

cross_loop-empty :
    (f : ℕ) (o : Order) (m : Matcher)
    → levels (opposite o.side) m ≡ []
    → cross_loop (suc f) o m ≡ stop o m
unfolding cross_loop
cross_loop-empty f o m e = elim (Bool-cases (ltb 0 o.quantity)) [
  | inl more ↦ rw (more, cross_loop) (rw (e, cross_loop))
  | inr used ↦ rw (used, cross_loop)
]

cross_step_lem :
    (o r : Order) (p : ℕ) (c : Level) (m : Matcher)
    → ((cross_step o r p c m).1 ≡ fill o (min o.quantity r.quantity))
      × ((cross_step o r p c m).2 ≡ trade_of o r)
unfolding cross_step
cross_step_lem o r p c m = (refl, refl)

module _ (f : ℕ) (o : Order) (m : Matcher) (p : ℕ) (c : Level) (ls : Levels)
    (e : levels (opposite o.side) m ≡ (p, c) ∷ ls) where
  cross_loop-halt :
      (ltb 0 o.quantity && crosses o.side o.price p) ≡ false → cross_loop (suc f) o m ≡ stop o m
  unfolding cross_loop
  cross_loop-halt h = elim (Bool-cases (ltb 0 o.quantity)) [
    | inr used ↦ rw (used, cross_loop)
    | inl more ↦
        let apart : crosses o.side o.price p ≡ false = (rw more at h) in
        rw (more, cross_loop) (rw (e, cross_loop) (rw (apart, cross_loop)))
  ]

  cross_loop-round :
      (r : Order)
      → (ltb 0 o.quantity && crosses o.side o.price p) ≡ true
      → (front_live c).1 ≡ some r
      → cross_loop (suc f) o m
        ≡ with_trade (trade_of o r) (
            cross_loop f
              (fill o (min o.quantity r.quantity))
              (cross_step o r p (front_live c).0 m).0)
  unfolding cross_loop
  cross_loop-round r h front =
      let (more, meets) = and_split (ltb 0 o.quantity) (crosses o.side o.price p) h in
      let (left, trade) = cross_step_lem o r p (front_live c).0 m in
      rw (more, cross_loop)
        (rw (e, cross_loop) (rw (meets, cross_loop) (rw (front, cross_loop) (rw (left, trade)))))

-- One round, where the front order is known.
module _ (f : ℕ) (o : Order) (m : Matcher) (p : ℕ) (c : Level) (ls : Levels) (r : Order)
    (tail : List Order) (v : IsValid m) (e : levels (opposite o.side) m ≡ (p, c) ∷ ls)
    (q : orders c ≡ r ∷ tail) (few : length (queue_of (opposite o.side) m) < suc f)
    (further : (o' : Order) (m' : Matcher)
      → IsValid m'
      → length (queue_of (opposite o'.side) m') < f
      → Loops f o' m') where
  abbrev rest : List Order
  rest = tail ++ queue ls

  abbrev o' : Order
  o' = fill o (min o.quantity r.quantity)

  abbrev m' : Matcher
  m' = (cross_step o r p (front_live c).0 m).0

  whole : queue_of (opposite o.side) m ≡ r ∷ rest
  whole = rw (e, q)

  at_price : r.price ≡ p
  at_price =
      let l =
        subst (IsLadder orders order_at (opposite o.side)) e (v.indexed.ladder (opposite o.side)) in
      (subst (All (λ x. (x.price ≡ p) × (x.side ≡ opposite o.side))) q l.1).0.0

  stepped :
      Stepped IsValid queue_of
        (opposite o.side)
        m
        m'
        (after_fill r (min o.quantity r.quantity) rest)
  stepped = (step_lem o m p c ls r tail v e q).1

  round :
      (ltb 0 o.quantity && crosses o.side o.price r.price) ≡ true
      → cross_loop (suc f) o m ≡ with_trade (trade_of o r) (cross_loop f o' m')
  round go =
      cross_loop-round f o m p c ls e r (rw (← at_price) go) (step_lem o m p c ls r tail v e q).0

  round-Loops : Loops (suc f) o m
  round-Loops = elim (Bool-cases (ltb 0 o.quantity && crosses o.side o.price r.price)) [
    | inr halt ↦ (
      record { matcher = m; incoming = o; trades = [] },
      cross_loop-halt f o m p c ls e (rw (← at_price) halt),
      stops IsValid queue_of o m r rest whole v halt,
    )
    | inl go ↦ elim (Bool-cases (r.quantity - min o.quantity r.quantity == 0)) [
      | inl done ↦
          let left : queue_of (opposite o.side) m' ≡ rest = stepped.swept ∙ rw done in
          let (x, run, sw) =
            further o' m' stepped.valid (omega (arith, ap length left, ap length whole)) in
          (
            record x { trades = trade_of o r ∷ x.trades },
            round go ∙ rw run,
            goes_on IsValid queue_of o m r rest whole m' go stepped done x.matcher x.incoming
                x.trades sw,
          )
      | inr more ↦
          let idle =
            cross_loop-idle f o' m' (omega (arith, ap length whole))
              (rw (used_up o.quantity r.quantity more)) in
          (_, round go ∙ rw idle, ends IsValid queue_of o m r rest whole m' go stepped more)
    ]
  ]

-- With fuel for each order of the queue and one round more the loop ends.
pub cross_loop-Loops :
    (fuel : ℕ) (o : Order) (m : Matcher)
    → IsValid m
    → length (queue_of (opposite o.side) m) < fuel
    → Loops fuel o m
cross_loop-Loops zero o m v few = absurd (omega arith)
cross_loop-Loops (suc f) o m v few = elim (List-cases (levels (opposite o.side) m)) [
  | inl none_left ↦ (
    record { matcher = m; incoming = o; trades = [] },
    cross_loop-empty f o m none_left,
    stops_empty IsValid queue_of o m v (rw none_left),
  )
  | inr ((p, c), ls, e) ↦ elim (List-cases (orders c)) [
    | inl gone ↦ absurd (
        (subst (IsLadder orders order_at (opposite o.side)) e
            (v.indexed.ladder (opposite o.side))).0
          gone)
    | inr (r, tail, q) ↦
        round-Loops f o m p c ls r tail v e q few
          (λ o' m' v' few'. cross_loop-Loops f o' m' v' few')
  ]
]
