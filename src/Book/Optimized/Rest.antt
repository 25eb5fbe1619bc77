-- ===== src/Book/Optimized/Rest.antt =====
-- `OptimizedMatcher::restOrder` queues an order with a new id.
use titan_engine.Prelude.{
  ℕ, zero, suc, ◌+◌, ◌≡◌, refl, List, [], ◌∷◌, ◌++◌, Option, some, none, All, arith, nat_eq, ap,
  length, length-append, take-append,
}
use titan_engine.Prelude.Assoc.{insert}
use titan_engine.Prelude.OrderedMap
use titan_engine.Core.{Side, buy, sell, opposite, Order, before}
use titan_engine.Book.Spec
use titan_engine.Book.Ladder.{Location, count_id}
use titan_engine.Book.Ladder.Index.{by_side}
use titan_engine.Book.Ladder.Queue.{flatten-upsert}
use titan_engine.Book.Ladder.Rest.{IsIndexed-rest}
use titan_engine.Book.Optimized.{
  Level, Matcher, levels, with_levels, rest_order, push_slot, slot_at, empty_level, level_or_new,
}
use titan_engine.Book.Optimized.Table.{live, orders, order_at, queue, queue_of, IsLevel, IsValid}

live-push :
    (xs : List (Option Order)) (o : Order) → live (xs ++ (some o ∷ [])) ≡ live xs ++ (o ∷ [])
live-push [] o = refl
live-push (none ∷ xs) o = live-push xs o
live-push (some x ∷ xs) o = ap (◌∷◌ x) (live-push xs o)

slot_at-push :
    (xs : List (Option Order)) (o : Order) (k : ℕ) (x : Order)
    → slot_at xs k ≡ some x
    → slot_at (xs ++ (some o ∷ [])) k ≡ some x
slot_at-push [] o k x e = cc
slot_at-push (y ∷ xs) o zero x e = e
slot_at-push (y ∷ xs) o (suc k) x e = slot_at-push xs o k x e

slot_at-new :
    (xs : List (Option Order)) (o : Order) → slot_at (xs ++ (some o ∷ [])) (length xs) ≡ some o
slot_at-new [] o = refl
slot_at-new (x ∷ xs) o = slot_at-new xs o

push_slot-IsLevel : (o : Order) (c : Level) → IsLevel c → IsLevel (push_slot o c)
push_slot-IsLevel o c l = record {
  counted =
      rw (live-push c.orders o) (omega (arith, l.counted, length-append (live c.orders) (o ∷ [])));
  dead = rw (take-append c.front_index c.orders (some o ∷ []) l.inside) l.dead;
  inside = omega (arith, l.inside, length-append c.orders (some o ∷ []));
}

empty-IsLevel : IsLevel empty_level
empty-IsLevel = record { counted = refl; dead = refl; inside = omega arith }

abbrev index_in : Side → Order → Matcher → ℕ
index_in s o m = length (level_or_new (OrderedMap.find? o.price (levels s m))).orders

abbrev rested : Side → Order → Matcher → Matcher
rested s o m =
    record (with_levels s
      (OrderedMap.upsert (before s) o.price empty_level (push_slot o) (levels s m)) m) {
        order_table =
            insert o.id (record { side = s; price = o.price; slot = index_in s o m }) m.order_table;
      }

levels-rested :
    (s : Side) (o : Order) (m : Matcher)
    → (levels s (rested s o m)
        ≡ OrderedMap.upsert (before s) o.price empty_level (push_slot o) (levels s m))
      × (levels (opposite s) (rested s o m) ≡ levels (opposite s) m)
levels-rested buy o m = (refl, refl)
levels-rested sell o m = (refl, refl)

index_in-found :
    (s : Side) (o : Order) (m : Matcher) (c : Level)
    → OrderedMap.find? o.price (levels s m) ≡ some c
    → index_in s o m ≡ length c.orders
index_in-found s o m c e = rw e

index_in-new :
    (s : Side) (o : Order) (m : Matcher)
    → OrderedMap.find? o.price (levels s m) ≡ none
    → index_in s o m ≡ 0
index_in-new s o m e = rw e

-- The order goes behind those that are at least as good on its side; the other side stays.
pub rest_order-IsValid :
    (o : Order) (m : Matcher)
    → IsValid m
    → count_id o.id (queue m.bids) + count_id o.id (queue m.asks) ≡ 0
    → IsValid (rest_order o m)
      × (queue_of o.side (rest_order o m) ≡ Spec.enqueue o.side o (queue_of o.side m))
      × (queue_of (opposite o.side) (rest_order o m) ≡ queue_of (opposite o.side) m)
unfolding rest_order
rest_order-IsValid o m v fresh =
    let s = o.side in
    let (here, other) = levels-rested s o m in
    let loc : Location = record { side = s; price = o.price; slot = index_in s o m } in
    let pushed = λ (c : Level). live-push c.orders o in
    (
      record {
        indexed =
            IsIndexed-rest orders order_at (λ t. levels t m) (λ t. levels t (rested s o m))
              m.order_table s other v.indexed o empty_level (push_slot o) loc refl (refl, refl) here
              pushed refl
              (λ c found. (
                rw (index_in-found s o m c found) (slot_at-new c.orders o),
                slot_at-push c.orders o,
              ))
              (λ absent. rw (index_in-new s o m absent)) fresh;
        sound_levels =
            by_side (λ t. All (λ l. IsLevel l.1) (levels t (rested s o m))) s
              (rw here (
                OrderedMap.All-upsert (λ l. IsLevel l.1) (before s) o.price empty_level
                  (push_slot o) (levels s m) (push_slot-IsLevel o empty_level empty-IsLevel)
                  (push_slot-IsLevel o) (v.sound_levels s)))
              (rw other (v.sound_levels (opposite s)));
      },
      rw here (
          flatten-upsert orders order_at s o empty_level (push_slot o) pushed refl (levels s m)
            (v.indexed.ladder s)),
      rw other,
    )
