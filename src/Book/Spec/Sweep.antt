-- ===== src/Book/Spec/Sweep.antt =====
-- What matching does to a queue and to the incoming order.
use titan_engine.Prelude.{
  ℕ, ◌+◌, ◌-◌, ◌<◌, ◌≤◌, ◌≡◌, refl, true, false, ◌&&◌, List, [], ◌∷◌, min, ◌==◌, ltb, ltb→lt,
  lt→ltb, All, All-map, Bool, arith, Bool-cases, inl, inr,
}
use titan_engine.Core.{Side, buy, sell, Order, Trade, crosses, fill, before, opposite}
use titan_engine.Book.Ladder.{count_id}
use titan_engine.Book.Spec.{Outcome, sweep, trade_for, add_trade}

-- The three ways in which a sweep treats the front of a queue.
pub sweep_cases {ℓ} :
    (P : Order → List Order → Outcome → Type ℓ)
    → ((o : Order) → P o [] (record { queue = []; incoming = o; trades = [] }))
    → ((o r : Order) (rs : List Order)
        → (ltb 0 o.quantity && crosses o.side o.price r.price) ≡ false
        → P o (r ∷ rs) (record { queue = r ∷ rs; incoming = o; trades = [] }))
    → ((o r : Order) (rs : List Order)
        → (ltb 0 o.quantity && crosses o.side o.price r.price) ≡ true
        → r.quantity ≤ o.quantity
        → P (fill o r.quantity) rs (sweep (fill o r.quantity) rs)
        → P o (r ∷ rs) (add_trade (trade_for o r r.quantity) (sweep (fill o r.quantity) rs)))
    → ((o r : Order) (rs : List Order)
        → (ltb 0 o.quantity && crosses o.side o.price r.price) ≡ true
        → o.quantity < r.quantity
        → P o (r ∷ rs) (record {
          queue = fill r o.quantity ∷ rs;
          incoming = fill o o.quantity;
          trades = trade_for o r o.quantity ∷ [];
        }))
    → (o : Order) (q : List Order) → P o q (sweep o q)
unfolding sweep
sweep_cases P nothing stop filled part o [] = nothing o
sweep_cases P nothing stop filled part o (r ∷ rs) =
    elim (Bool-cases (ltb 0 o.quantity && crosses o.side o.price r.price)) [
      | inr halt ↦ rw halt (stop o r rs halt)
      | inl go ↦ elim (Bool-cases (r.quantity - min o.quantity r.quantity == 0)) [
        | inl done ↦
            let le : r.quantity ≤ o.quantity = ground arith in
            let n : min o.quantity r.quantity ≡ r.quantity = omega arith in
            rw (go, done, n)
              (filled o r rs go le (sweep_cases P nothing stop filled part (fill o r.quantity) rs))
        | inr more ↦
            let lt : o.quantity < r.quantity = ground arith in
            let n : min o.quantity r.quantity ≡ o.quantity = omega arith in
            rw (go, more, n) (part o r rs go lt)
      ]
    ]

-- The incoming order keeps everything but its quantity.
pub sweep-incoming :
    (o : Order) (q : List Order)
    → (sweep o q).incoming ≡ record o { quantity = (sweep o q).incoming.quantity }
sweep-incoming =
    sweep_cases (λ o q r. r.incoming ≡ record o { quantity = r.incoming.quantity }) (λ o. refl)
      (λ o r rs e. refl) (λ o r rs e h ih. ih) (λ o r rs e h. refl)

-- No order appears on the queue that was not there.
pub count_id-sweep :
    (i : ℕ) (o : Order) (q : List Order) → count_id i (sweep o q).queue ≤ count_id i q
count_id-sweep i =
    sweep_cases (λ o q r. count_id i r.queue ≤ count_id i q) (λ o. omega arith)
      (λ o r rs e. omega arith) (λ o r rs e h ih. omega (arith, ih)) (λ o r rs e h. omega arith)

abbrev pub traded : List Trade → ℕ
traded [] = 0
traded (t ∷ ts) = t.quantity + traded ts

abbrev pub resting : List Order → ℕ
resting [] = 0
resting (o ∷ os) = o.quantity + resting os

-- What is traded is taken from both sides alike.
pub sweep-conserves :
    (o : Order) (q : List Order)
    → (traded (sweep o q).trades + (sweep o q).incoming.quantity ≡ o.quantity)
      × (traded (sweep o q).trades + resting (sweep o q).queue ≡ resting q)
sweep-conserves =
    sweep_cases
      (λ o q r.
        (traded r.trades + r.incoming.quantity ≡ o.quantity)
        × (traded r.trades + resting r.queue ≡ resting q))
      (λ o. omega arith) (λ o r rs e. omega arith) (λ o r rs e h ih. omega (arith, h, ih.0, ih.1))
      (λ o r rs e h. omega (arith, h))

-- Every trade is at a price that the incoming order accepts, and moves something.
abbrev pub IsFairTrade : Order → Trade → Type 0
IsFairTrade o t =
    (crosses o.side o.price t.price ≡ true) × (t.incoming_order_id ≡ o.id) × (0 < t.quantity)

abbrev pub IsPositive : List Order → Type 0
IsPositive = All λ o. 0 < o.quantity

and_true : (a b : Bool) → (a && b) ≡ true → (a ≡ true) × (b ≡ true)
and_true true true e = (refl, refl)
and_true true false e = cc
and_true false b e = cc

pub sweep-IsFairTrade :
    (o : Order) (q : List Order) → IsPositive q → All (IsFairTrade o) (sweep o q).trades
sweep-IsFairTrade =
    sweep_cases (λ o q r. IsPositive q → All (IsFairTrade o) r.trades) (λ o pos. tt)
      (λ o r rs e pos. tt) (λ o r rs e h ih pos. (((and_true _ _ e).1, refl, pos.0), ih pos.1))
      (λ o r rs e h pos. (((and_true _ _ e).1, refl, ltb→lt 0 o.quantity (and_true _ _ e).0), tt))

-- No order of quantity 0 rests.
pub IsPositive-sweep : (o : Order) (q : List Order) → IsPositive q → IsPositive (sweep o q).queue
IsPositive-sweep =
    sweep_cases (λ o q r. IsPositive q → IsPositive r.queue) (λ o pos. tt) (λ o r rs e pos. pos)
      (λ o r rs e h ih pos. ih pos.1) (λ o r rs e h pos. (omega (arith, h), pos.1))

-- A sweep keeps any fact about the sides and prices of a queue.
pub All-sweep :
    (P : Side → ℕ → Type 0) (o : Order) (q : List Order)
    → All (λ r. P r.side r.price) q
    → All (λ r. P r.side r.price) (sweep o q).queue
All-sweep P =
    sweep_cases (λ o q r. All (λ x. P x.side x.price) q → All (λ x. P x.side x.price) r.queue)
      (λ o a. tt) (λ o r rs e a. a) (λ o r rs e h ih a. ih a.1) (λ o r rs e h a. a)

-- A queue stands best price first.
abbrev pub IsSorted : Side → List Order → Type 0
IsSorted s [] = Unit
IsSorted s (x ∷ xs) = All (λ y. before s y.price x.price ≡ false) xs × IsSorted s xs

pub IsSorted-sweep :
    (s : Side) (o : Order) (q : List Order) → IsSorted s q → IsSorted s (sweep o q).queue
IsSorted-sweep s =
    sweep_cases (λ o q r. IsSorted s q → IsSorted s r.queue) (λ o a. tt) (λ o r rs e a. a)
      (λ o r rs e h ih a. ih a.1) (λ o r rs e h a. a)

crosses-worse :
    (s : Side) (p q r : ℕ)
    → crosses s p q ≡ false
    → before (opposite s) r q ≡ false
    → crosses s p r ≡ false
crosses-worse buy p q r e h = ground arith
crosses-worse sell p q r e h = ground arith

-- An order of side `s` at `p` trades with no order of the queue.
abbrev pub IsUncrossed : Side → ℕ → List Order → Type 0
IsUncrossed s p = All λ r. crosses s p r.price ≡ false

-- A remainder trades with nothing that is left.
pub sweep-IsUncrossed :
    (o : Order) (q : List Order)
    → IsSorted (opposite o.side) q
    → 0 < (sweep o q).incoming.quantity
    → IsUncrossed o.side o.price (sweep o q).queue
sweep-IsUncrossed =
    sweep_cases
      (λ o q r.
        IsSorted (opposite o.side) q → 0 < r.incoming.quantity → IsUncrossed o.side o.price r.queue)
      (λ o a h. tt)
      (λ o r rs e a h.
        let apart : crosses o.side o.price r.price ≡ false = (rw (lt→ltb 0 o.quantity h) at e) in
        (
          apart,
          All-map _ _ rs (λ (x : Order) b. crosses-worse o.side o.price r.price x.price apart b)
              a.0,
        ))
      (λ o r rs e h ih a k. ih a.1 k) (λ o r rs e h a k. absurd (omega arith))
