-- ===== src/Book/Optimized/Cross.antt =====
-- One round of `OptimizedMatcher::cross`.
use titan_engine.Prelude.{
  ℕ, zero, suc, ◌+◌, ◌-◌, ◌<◌, ◌≤◌, ◌≡◌, refl, sym, subst, ◌∙◌, List, [], ◌∷◌, ◌++◌, Option, some,
  none, All, min, ◌==◌, ==_iff, arith, Bool-cases, inl, inr, ap, length, set, take, drop,
  length-set,
}
use titan_engine.Prelude.OrderedMap
use titan_engine.Core.{Side, buy, sell, opposite, Order, fill}
use titan_engine.Book.Ladder.{IsLadder}
use titan_engine.Book.Ladder.Index.{by_side, some_eq, ne_of_test}
use titan_engine.Book.Ladder.Fill.{IsIndexed-fill}
use titan_engine.Book.Machine.{Stepped, after_fill, removed_front}
use titan_engine.Book.Optimized.{
  Level, Levels, Matcher, levels, with_levels, slot_at, skip_tombstones, front_live, fill_slot,
  cross_step, remove_order,
}
use titan_engine.Book.Optimized.Table.{
  live, orders, order_at, queue, queue_of, IsLevel, IsValid, remove_order-IsValid,
  slot_at-set_other,
}

-- Where the first live order stands, looked for from index `f` on.
record Front (xs : List (Option Order)) (f : ℕ) (r : Order) (rest : List Order) : Type 0 where
  index : ℕ
  skipped : (j : ℕ) → skip_tombstones (drop f xs) j + f ≡ j + index
  there : slot_at xs index ≡ some r
  dead : live (take index xs) ≡ []
  within : index < length xs
  filled :
      (n : ℕ)
      → (live (set xs index (some (fill r n))) ≡ fill r n ∷ rest)
        × (live (take index (set xs index (some (fill r n)))) ≡ [])

find_front :
    (xs : List (Option Order)) (f : ℕ) (r : Order) (rest : List Order)
    → live (take f xs) ≡ []
    → f ≤ length xs
    → live xs ≡ r ∷ rest
    → Front xs f r rest
unfolding skip_tombstones
find_front [] f r rest d h e = cc
find_front (some x ∷ xs) zero r rest d h e =
    let same : x ≡ r = ground arith in
    let others : live xs ≡ rest = ground arith in
    record {
      index = 0;
      skipped = λ j. refl;
      there = rw same;
      dead = refl;
      within = omega arith;
      filled = λ n. (rw others, refl);
    }
find_front (none ∷ xs) zero r rest d h e =
    let ih = find_front xs zero r rest refl (omega arith) e in
    record {
      index = suc ih.index;
      skipped = λ j. omega (arith, ih.skipped (j + 1));
      there = ih.there;
      dead = ih.dead;
      within = omega (arith, ih.within);
      filled = λ n. ih.filled n;
    }
find_front (some x ∷ xs) (suc f) r rest d h e = cc
find_front (none ∷ xs) (suc f) r rest d h e =
    let ih = find_front xs f r rest d (omega arith) e in
    record {
      index = suc ih.index;
      skipped = λ j. omega (arith, ih.skipped j);
      there = ih.there;
      dead = ih.dead;
      within = omega (arith, ih.within);
      filled = λ n. ih.filled n;
    }

slot_at-set_same :
    (xs : List (Option Order)) (i : ℕ) (v : Option Order)
    → i < length xs
    → slot_at (set xs i v) i ≡ v
slot_at-set_same [] i v h = absurd (omega arith)
slot_at-set_same (x ∷ xs) zero v h = refl
slot_at-set_same (x ∷ xs) (suc i) v h = slot_at-set_same xs i v (omega arith)

-- `frontLive` finds the oldest order of a level, and moves the front index up to it.
module _ (c : Level) (r : Order) (rest : List Order) (l : IsLevel c) (e : orders c ≡ r ∷ rest) where
  found_front : Front c.orders c.front_index r rest
  found_front = find_front c.orders c.front_index r rest l.dead l.inside e

  front_live_lem : front_live c ≡ (record c { front_index = found_front.index }, some r)
  unfolding front_live
  front_live_lem =
      let at_front : skip_tombstones (drop c.front_index c.orders) c.front_index
          ≡ found_front.index =
        omega (arith, found_front.skipped c.front_index) in
      rw (at_front, found_front.there)

  -- The front level once the front order has traded `n`.
  abbrev filled_level : ℕ → Level
  filled_level n = fill_slot r n (record c { front_index = found_front.index })

  orders-filled : (n : ℕ) → orders (filled_level n) ≡ fill r n ∷ rest
  orders-filled n = (found_front.filled n).0

  filled_level-IsLevel : (n : ℕ) → IsLevel (filled_level n)
  filled_level-IsLevel n = record {
    counted = rw (orders-filled n) (omega (arith, l.counted, ap length e));
    dead = (found_front.filled n).1;
    inside =
        rw (length-set c.orders found_front.index (some (fill r n)))
          (omega (arith, found_front.within));
  }

  filled_level-kept :
      (n k : ℕ) (x : Order)
      → order_at c k ≡ some x
      → (y : Order) × (order_at (filled_level n) k ≡ some y) × (y.id ≡ x.id)
  filled_level-kept n k x there = elim (Bool-cases (found_front.index == k)) [
    | inl same ↦
        let at_k : found_front.index ≡ k = (==_iff found_front.index k).0 same in
        let it : r ≡ x = some_eq (sym found_front.there ∙ rw at_k there) in
        (
          fill r n,
          rw (← at_k)
              (slot_at-set_same c.orders found_front.index (some (fill r n)) found_front.within),
          ap (λ (o : Order). o.id) it,
        )
    | inr other ↦ (
      x,
      rw
          (slot_at-set_other c.orders found_front.index k (some (fill r n))
            (ne_of_test found_front.index k other))
          there,
      refl,
    )
  ]

-- The state between the trade and the removal of an order that is filled.
abbrev refilled : Side → ℕ → Level → Matcher → Matcher
refilled s p c m = with_levels s (OrderedMap.adjust p (λ _. c) (levels s m)) m

levels-refilled :
    (s : Side) (p : ℕ) (c : Level) (m : Matcher)
    → (levels s (refilled s p c m) ≡ OrderedMap.adjust p (λ _. c) (levels s m))
      × (levels (opposite s) (refilled s p c m) ≡ levels (opposite s) m)
      × ((refilled s p c m).order_table ≡ m.order_table)
levels-refilled buy p c m = (refl, refl, refl)
levels-refilled sell p c m = (refl, refl, refl)

module _ (s : Side) (m : Matcher) (p : ℕ) (c : Level) (ls : Levels) (r : Order) (rest : List Order)
    (v : IsValid m) (e : levels s m ≡ (p, c) ∷ ls) (q : orders c ≡ r ∷ rest) where
  front-IsLevel : IsLevel c
  front-IsLevel = (subst (All (λ l. IsLevel l.1)) e (v.sound_levels s)).0

  abbrev refill : ℕ → Level
  refill n = filled_level c r rest front-IsLevel q n

  refilled-IsValid :
      (n : ℕ)
      → IsValid (refilled s p (refill n) m)
        × (queue_of s (refilled s p (refill n) m) ≡ fill r n ∷ (rest ++ queue ls))
        × (queue_of (opposite s) (refilled s p (refill n) m) ≡ queue_of (opposite s) m)
  unfolding OrderedMap.find? OrderedMap.adjust
  refilled-IsValid n =
      let m' = refilled s p (refill n) m in
      let (here, other, table) = levels-refilled s p (refill n) m in
      let l = subst (IsLadder orders order_at s) e (v.indexed.ladder s) in
      let now = orders-filled c r rest front-IsLevel q n in
      let old = subst (All (λ o. (o.price ≡ p) × (o.side ≡ s))) q l.1 in
      let found : OrderedMap.find? p (levels s m) ≡ some c = rw e (ground arith) in
      (
        record {
          indexed = rw table (
              IsIndexed-fill orders order_at (λ t. levels t m) (λ t. levels t m') m.order_table s
                other v.indexed p c (λ _. refill n) found here (λ j. rw (now, q))
                (rw now ((λ z. cc), (old.0, old.1)))
                (filled_level-kept c r rest front-IsLevel q n));
          sound_levels =
              by_side (λ t. All (λ l. IsLevel l.1) (levels t m')) s
                (rw here (
                  OrderedMap.All-adjust (λ l. IsLevel l.1) p (λ _. refill n) (levels s m)
                    (λ d x. filled_level-IsLevel c r rest front-IsLevel q n) (v.sound_levels s)))
                (rw other (v.sound_levels (opposite s)));
        },
        rw (here, e) (ground (arith, now)),
        rw other,
      )

-- A round leaves the queue without the traded quantity, and without a filled order.
pub step_lem :
    (o : Order) (m : Matcher) (p : ℕ) (c : Level) (ls : Levels) (r : Order) (rest : List Order)
    → IsValid m
    → levels (opposite o.side) m ≡ (p, c) ∷ ls
    → orders c ≡ r ∷ rest
    → ((front_live c).1 ≡ some r)
      × Stepped IsValid queue_of
          (opposite o.side)
          m
          (cross_step o r p (front_live c).0 m).0
          (after_fill r (min o.quantity r.quantity) (rest ++ queue ls))
unfolding cross_step
step_lem o m p c ls r rest v e q =
    let s = opposite o.side in
    let n = min o.quantity r.quantity in
    let l = front-IsLevel s m p c ls r rest v e q in
    let (valid, now, other) = refilled-IsValid s m p c ls r rest v e q n in
    let front = front_live_lem c r rest l q in
    let m₁ = refilled s p (filled_level c r rest l q n) m in
    (
      rw front,
      elim (Bool-cases (r.quantity - n == 0)) [
        | inl done ↦
            let (valid', gone) = remove_order-IsValid r.id m₁ valid in
            let out =
              removed_front IsValid queue_of s m₁ (remove_order r.id m₁) (fill r n)
                (rest ++ queue ls) valid' gone valid.indexed.unique now in
            rw (front, done)
              (record { valid = out.valid; swept = out.swept; untouched = out.untouched ∙ other })
        | inr more ↦ rw (front, more) (record { valid = valid; swept = now; untouched = other })
      ],
    )
