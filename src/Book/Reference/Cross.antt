-- ===== src/Book/Reference/Cross.antt =====
-- `ReferenceMatcher::cross` ends, and is the sweep of the opposite queue.
use titan_engine.Prelude.{
  ℕ, ◌-◌, ◌<◌, ◌≡◌, refl, sym, subst, ◌∙◌, false, ◌&&◌, List, [], ◌∷◌, ◌++◌, some, All, min, ◌==◌,
  ltb, arith, Bool-cases, inl, inr, nat_eq,
}
use titan_engine.Prelude.OrderedMap
use titan_engine.Core.{Side, buy, sell, opposite, Order, crosses, fill}
use titan_engine.Book.Ladder.{IsLadder}
use titan_engine.Book.Ladder.Index.{by_side}
use titan_engine.Book.Ladder.Fill.{IsIndexed-fill}
use titan_engine.Book.Machine.{Stepped, after_fill, removed_front}
use titan_engine.Book.Reference.{
  OrderList, PriceLevels, Matcher, levels, with_levels, best, keeps_crossing, fill_front, front,
  cross_step, remove_order,
}
use titan_engine.Book.Reference.Table.{orders, node_at, queue, IsOld, IsValid, remove_order-IsValid}

pub best-head :
    (s : Side) (m : Matcher) (p : ℕ) (c : OrderList) (ls : PriceLevels)
    → levels s m ≡ (p, c) ∷ ls
    → best s m ≡ p
best-head buy m p c ls e = ground arith
best-head sell m p c ls e = ground arith

pub keeps_crossing-empty :
    (s : Side) (o : Order) (m : Matcher)
    → o.side ≡ s
    → levels (opposite s) m ≡ []
    → keeps_crossing o m ≡ false
unfolding keeps_crossing
keeps_crossing-empty buy o m i e = ground arith
keeps_crossing-empty sell o m i e = ground arith

pub keeps_crossing-head :
    (s : Side) (o : Order) (m : Matcher) (p : ℕ) (c : OrderList) (ls : PriceLevels)
    → o.side ≡ s
    → levels (opposite s) m ≡ (p, c) ∷ ls
    → keeps_crossing o m ≡ (ltb 0 o.quantity && crosses s o.price p)
unfolding keeps_crossing
keeps_crossing-head buy o m p c ls i e = ground arith
keeps_crossing-head sell o m p c ls i e = ground arith

pub front-head :
    (p h : ℕ) (r : Order) (ns : OrderList) (ls : PriceLevels)
    → front p ((p, (h, r) ∷ ns) ∷ ls) ≡ some r
unfolding front OrderedMap.find?
front-head p h r ns ls = ground arith

-- A level's front order after a trade.
abbrev filled : Side → ℕ → ℕ → Matcher → Matcher
filled s p n m = with_levels s (OrderedMap.adjust p (fill_front n) (levels s m)) m

levels-filled :
    (s : Side) (p n : ℕ) (m : Matcher)
    → (levels s (filled s p n m) ≡ OrderedMap.adjust p (fill_front n) (levels s m))
      × (levels (opposite s) (filled s p n m) ≡ levels (opposite s) m)
      × ((filled s p n m).order_table ≡ m.order_table)
      × ((filled s p n m).next_node ≡ m.next_node)
levels-filled buy p n m = (refl, refl, refl, refl)
levels-filled sell p n m = (refl, refl, refl, refl)

fill_front-kept :
    (n h : ℕ) (r : Order) (ns : OrderList) (k : ℕ) (x : Order)
    → node_at ((h, r) ∷ ns) k ≡ some x
    → (y : Order) × (node_at ((h, fill r n) ∷ ns) k ≡ some y) × (y.id ≡ x.id)
fill_front-kept n h r ns k x e = elim (Bool-cases (h == k)) [
  | inl same ↦ (fill r n, rw same, ground arith)
  | inr other ↦ (x, ground arith, refl)
]

All-fill_front :
    (k n : ℕ) (ns : OrderList)
    → All (λ node. node.0 < k) ns
    → All (λ node. node.0 < k) (fill_front n ns)
All-fill_front k n [] a = tt
All-fill_front k n ((h, o) ∷ ns) a = a

-- The state between the trade and the removal of an order that is filled.
filled-IsValid :
    (s : Side) (m : Matcher) (n p h : ℕ) (r : Order) (ns : OrderList) (ls : PriceLevels)
    → IsValid m
    → levels s m ≡ (p, (h, r) ∷ ns) ∷ ls
    → IsValid (filled s p n m)
      × (queue (levels s (filled s p n m)) ≡ fill r n ∷ (orders ns ++ queue ls))
      × (queue (levels (opposite s) (filled s p n m)) ≡ queue (levels (opposite s) m))
unfolding OrderedMap.find? OrderedMap.adjust
filled-IsValid s m n p h r ns ls v e =
    let (here, other, table, next) = levels-filled s p n m in
    let l = subst (IsLadder orders node_at s) e (v.indexed.ladder s) in
    let found : OrderedMap.find? p (levels s m) ≡ some ((h, r) ∷ ns) = rw e (ground arith) in
    (
      record {
        indexed = rw table (
            IsIndexed-fill orders node_at (λ t. levels t m) (λ t. levels t (filled s p n m))
              m.order_table s other v.indexed p ((h, r) ∷ ns) (fill_front n) found here (λ j. refl)
              ((λ q. cc), l.1) (fill_front-kept n h r ns));
        old = λ t.
            subst (λ k. IsOld k (levels t (filled s p n m))) (sym next)
              (by_side (λ t. IsOld m.next_node (levels t (filled s p n m))) s
                (rw here (
                  OrderedMap.All-adjust (λ l. All (λ node. node.0 < m.next_node) l.1) p
                    (fill_front n) (levels s m) (All-fill_front m.next_node n) (v.old s)))
                (rw other (v.old (opposite s))) t);
        keyed = rw table v.keyed;
      },
      rw (here, e) (ground arith),
      rw other,
    )

abbrev pub queue_of : Side → Matcher → List Order
queue_of s m = queue (levels s m)

-- A round leaves the queue without the traded quantity, and without a filled order.
pub step_lem :
    (o : Order) (m : Matcher) (p h : ℕ) (r : Order) (ns : OrderList) (ls : PriceLevels)
    → IsValid m
    → levels (opposite o.side) m ≡ (p, (h, r) ∷ ns) ∷ ls
    → Stepped IsValid queue_of
        (opposite o.side)
        m
        (cross_step o r m).0
        (after_fill r (min o.quantity r.quantity) (orders ns ++ queue ls))
unfolding cross_step
step_lem o m p h r ns ls v e =
    let s = opposite o.side in
    let n = min o.quantity r.quantity in
    let (valid, q, other) = filled-IsValid s m n p h r ns ls v e in
    let at_best : best s m ≡ p = best-head s m p ((h, r) ∷ ns) ls e in
    elim (Bool-cases (r.quantity - n == 0)) [
      | inl done ↦
          let m₁ = filled s p n m in
          let (valid', gone) = remove_order-IsValid r.id m₁ valid in
          let out =
            removed_front IsValid queue_of s m₁ (remove_order r.id m₁) (fill r n)
              (orders ns ++ queue ls) valid' gone valid.indexed.unique q in
          rw (done, at_best)
            (record { valid = out.valid; swept = out.swept; untouched = out.untouched ∙ other })
      | inr more ↦ rw (more, at_best) (record { valid = valid; swept = q; untouched = other })
    ]
