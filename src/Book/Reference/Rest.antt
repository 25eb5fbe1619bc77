-- ===== src/Book/Reference/Rest.antt =====
-- `ReferenceMatcher::restOrder` queues an order with a new id.
use titan_engine.Prelude.{
  ℕ, suc, ◌+◌, ◌<◌, ◌≡◌, refl, [], ◌∷◌, ◌++◌, some, All, All-map, All-append, arith, nat_eq, ap,
}
use titan_engine.Prelude.Assoc.{insert, IsKeyed-insert}
use titan_engine.Prelude.OrderedMap
use titan_engine.Core.{Side, buy, sell, opposite, Order, before}
use titan_engine.Book.Spec
use titan_engine.Book.Ladder.{Location, count_id}
use titan_engine.Book.Ladder.Index.{by_side}
use titan_engine.Book.Ladder.Queue.{flatten-upsert}
use titan_engine.Book.Ladder.Rest.{IsIndexed-rest}
use titan_engine.Book.Reference.{OrderList, PriceLevels, Matcher, levels, with_levels, rest_order}
use titan_engine.Book.Reference.Table.{orders, node_at, queue, IsOld, IsValid}

abbrev push_node : ℕ → Order → OrderList → OrderList
push_node n o level = level ++ ((n, o) ∷ [])

orders-push :
    (n : ℕ) (o : Order) (ns : OrderList) → orders (push_node n o ns) ≡ orders ns ++ (o ∷ [])
orders-push n o [] = refl
orders-push n o ((h, x) ∷ ns) = ap (◌∷◌ x) (orders-push n o ns)

node_at-push :
    (n : ℕ) (o : Order) (ns : OrderList) (k : ℕ) (x : Order)
    → node_at ns k ≡ some x
    → node_at (push_node n o ns) k ≡ some x
node_at-push n o [] k x e = cc
node_at-push n o ((h, y) ∷ ns) k x e = ground (arith, node_at-push n o ns k x)

node_at-new :
    (n : ℕ) (o : Order) (ns : OrderList)
    → All (λ node. node.0 < n) ns
    → node_at (push_node n o ns) n ≡ some o
node_at-new n o [] a = ground arith
node_at-new n o ((h, y) ∷ ns) a = ground (arith, node_at-new n o ns a.1)

-- What `restOrder` makes of a matcher.
abbrev rested : Side → Order → Matcher → Matcher
rested s o m =
    record (with_levels s
      (OrderedMap.upsert (before s) o.price [] (push_node m.next_node o) (levels s m)) m) {
        order_table =
            insert o.id (record { side = s; price = o.price; slot = m.next_node }) m.order_table;
        next_node = suc m.next_node;
      }

levels-rested :
    (s : Side) (o : Order) (m : Matcher)
    → (levels s (rested s o m)
        ≡ OrderedMap.upsert (before s) o.price [] (push_node m.next_node o) (levels s m))
      × (levels (opposite s) (rested s o m) ≡ levels (opposite s) m)
levels-rested buy o m = (refl, refl)
levels-rested sell o m = (refl, refl)

IsOld-suc : (n : ℕ) (ls : PriceLevels) → IsOld n ls → IsOld (suc n) ls
IsOld-suc n ls a =
    All-map _ _ ls
      (λ (l : ℕ × OrderList) (b : All (λ node. node.0 < n) l.1).
        All-map _ _ l.1 (λ (x : ℕ × Order) (h : x.0 < n). omega arith) b)
      a

-- The order goes behind those that are at least as good on its side; the other side stays.
pub rest_order-IsValid :
    (o : Order) (m : Matcher)
    → IsValid m
    → count_id o.id (queue m.bids) + count_id o.id (queue m.asks) ≡ 0
    → IsValid (rest_order o m)
      × (queue (levels o.side (rest_order o m)) ≡ Spec.enqueue o.side o (queue (levels o.side m)))
      × (queue (levels (opposite o.side) (rest_order o m)) ≡ queue (levels (opposite o.side) m))
unfolding rest_order
rest_order-IsValid o m v fresh =
    let s = o.side in
    let n = m.next_node in
    let (here, other) = levels-rested s o m in
    let loc : Location = record { side = s; price = o.price; slot = n } in
    (
      record {
        indexed =
            IsIndexed-rest orders node_at (λ t. levels t m) (λ t. levels t (rested s o m))
              m.order_table s other v.indexed o [] (push_node n o) loc refl (refl, refl) here
              (orders-push n o) refl
              (λ c found. (
                node_at-new n o c (OrderedMap.All-find? _ o.price (levels s m) c found (v.old s)),
                node_at-push n o c,
              ))
              (λ absent. node_at-new n o [] tt) fresh;
        old =
            by_side (λ t. IsOld (suc n) (levels t (rested s o m))) s
              (rw here (
                OrderedMap.All-upsert (λ l. All (λ node. node.0 < suc n) l.1) (before s) o.price []
                  (push_node n o) (levels s m) (omega arith, tt)
                  (λ ns a. All-append _ ns ((n, o) ∷ []) a (omega arith, tt))
                  (IsOld-suc n (levels s m) (v.old s))))
              (rw other (IsOld-suc n (levels (opposite s) m) (v.old (opposite s))));
        keyed = IsKeyed-insert o.id loc m.order_table v.keyed;
      },
      rw here (
          flatten-upsert orders node_at s o [] (push_node n o) (orders-push n o) refl (levels s m)
            (v.indexed.ladder s)),
      rw other,
    )
