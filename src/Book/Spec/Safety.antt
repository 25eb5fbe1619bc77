-- ===== src/Book/Spec/Safety.antt =====
-- What every book keeps while orders come and go.
use titan_engine.Prelude.{
  ℕ, ◌<◌, ◌≡◌, refl, true, false, Bool-cases, inl, inr, List, [], ◌∷◌, All, All-map, ltb, ltb→lt,
  arith, ap, sym, subst, ◌∙◌, ◌==◌,
}
use titan_engine.Core.{Side, buy, sell, opposite, Order, crosses, before}
use titan_engine.Book.Spec.{
  Queues, enqueue, dequeue, sweep, match_on, match_order, cancel_order, side_of,
}
use titan_engine.Book.Spec.Sweep.{
  IsPositive, IsPositive-sweep, All-sweep, IsSorted, IsSorted-sweep, IsUncrossed, sweep-IsUncrossed,
  sweep-incoming,
}

-- Each side is sorted and holds positive orders of its side; no bid reaches an ask.
pub record IsBook (q : Queues) : Type 0 where
  pub sorted : (s : Side) → IsSorted s (side_of s q)
  pub positive : (s : Side) → IsPositive (side_of s q)
  pub sided : (s : Side) → All (λ o. o.side ≡ s) (side_of s q)
  pub apart : All (λ b. IsUncrossed buy b.price q.asks) q.bids

All-enqueue :
    (P : Order → Type 0) (s : Side) (o : Order) (xs : List Order)
    → P o
    → All P xs
    → All P (enqueue s o xs)
unfolding enqueue
All-enqueue P s o [] h a = (h, tt)
All-enqueue P s o (x ∷ xs) h a = elim (Bool-cases (before s o.price x.price)) [
  | inl better ↦ rw better (h, a)
  | inr worse ↦ rw worse (a.0, All-enqueue P s o xs h a.1)
]

All-dequeue : (P : Order → Type 0) (i : ℕ) (xs : List Order) → All P xs → All P (dequeue i xs)
unfolding dequeue
All-dequeue P i [] a = tt
All-dequeue P i (x ∷ xs) a = ground (arith, All-dequeue P i xs)

before-asym' : (s : Side) (p q : ℕ) → before s p q ≡ true → before s q p ≡ false
before-asym' buy p q h = ground arith
before-asym' sell p q h = ground arith

not_before_trans :
    (s : Side) (p q r : ℕ) → before s p q ≡ true → before s r q ≡ false → before s r p ≡ false
not_before_trans buy p q r h k = ground arith
not_before_trans sell p q r h k = ground arith

IsSorted-enqueue :
    (s : Side) (o : Order) (xs : List Order) → IsSorted s xs → IsSorted s (enqueue s o xs)
unfolding enqueue
IsSorted-enqueue s o [] a = (tt, tt)
IsSorted-enqueue s o (x ∷ xs) a = elim (Bool-cases (before s o.price x.price)) [
  | inl better ↦ rw better (
    (
      before-asym' s o.price x.price better,
      All-map _ _ xs (λ (y : Order) b. not_before_trans s o.price x.price y.price better b) a.0,
    ),
    a,
  )
  | inr worse ↦ rw worse (
    All-enqueue (λ y. before s y.price x.price ≡ false) s o xs worse a.0,
    IsSorted-enqueue s o xs a.1,
  )
]

IsSorted-dequeue : (s : Side) (i : ℕ) (xs : List Order) → IsSorted s xs → IsSorted s (dequeue i xs)
unfolding dequeue
IsSorted-dequeue s i [] a = tt
IsSorted-dequeue s i (x ∷ xs) a = elim (Bool-cases (x.id == i)) [
  | inl same ↦ rw same a.1
  | inr other ↦ rw other (All-dequeue _ i xs a.0, IsSorted-dequeue s i xs a.1)
]

-- Cancelling keeps the book.
pub cancel_order-IsBook : (i : ℕ) (q : Queues) → IsBook q → IsBook (cancel_order i q)
unfolding cancel_order
cancel_order-IsBook i q b = record {
  sorted = elim [
    | buy ↦ IsSorted-dequeue buy i q.bids (b.sorted buy)
    | sell ↦ IsSorted-dequeue sell i q.asks (b.sorted sell)
  ];
  positive = elim [
    | buy ↦ All-dequeue _ i q.bids (b.positive buy)
    | sell ↦ All-dequeue _ i q.asks (b.positive sell)
  ];
  sided = elim [
    | buy ↦ All-dequeue _ i q.bids (b.sided buy)
    | sell ↦ All-dequeue _ i q.asks (b.sided sell)
  ];
  apart = All-dequeue _ i q.bids (
      All-map _ _ q.bids
        (λ (x : Order) a. All-dequeue (λ y. crosses buy x.price y.price ≡ false) i q.asks a)
        b.apart);
}

All-both {κ κ'} :
    (P : Order → Type κ) (Q : Order → Type κ') (xs : List Order)
    → All P xs
    → All Q xs
    → All (λ x. P x × Q x) xs
All-both P Q [] a b = tt
All-both P Q (x ∷ xs) a b = ((a.0, b.0), All-both P Q xs a.1 b.1)

module _ (o : Order) (xs : List Order) where
  incoming_price : (sweep o xs).incoming.price ≡ o.price
  incoming_price = ap (λ (x : Order). x.price) (sweep-incoming o xs)

  incoming_side : (sweep o xs).incoming.side ≡ o.side
  incoming_side = ap (λ (x : Order). x.side) (sweep-incoming o xs)

crosses-swap : (p q : ℕ) → crosses sell p q ≡ false → crosses buy q p ≡ false
crosses-swap p q h = ground arith

IsUncrossed-below :
    (s : Side) (o : Order) (xs : List Order)
    → o.side ≡ s
    → IsSorted (opposite s) xs
    → 0 < (sweep o xs).incoming.quantity
    → IsUncrossed s o.price (sweep o xs).queue
IsUncrossed-below s o xs e a h =
    subst (λ t. IsUncrossed t o.price (sweep o xs).queue) e
      (sweep-IsUncrossed o xs (subst (λ t. IsSorted (opposite t) xs) (sym e) a) h)

module _ (o : Order) (q : Queues) (b : IsBook q) where
  apart-asks : All (λ x. IsUncrossed buy x.price (sweep o q.asks).queue) q.bids
  apart-asks =
      All-map _ _ q.bids
        (λ (x : Order) a. All-sweep (λ s p. crosses buy x.price p ≡ false) o q.asks a) b.apart

  apart-bids : All (λ x. IsUncrossed buy x.price q.asks) (sweep o q.bids).queue
  apart-bids = All-sweep (λ s p. IsUncrossed buy p q.asks) o q.bids b.apart

  bought : o.side ≡ buy → IsBook (match_on buy o q).0
  unfolding match_on
  bought e = elim (Bool-cases (ltb 0 (sweep o q.asks).incoming.quantity)) [
    | inr used ↦ rw used (record {
      sorted = elim [ buy ↦ b.sorted buy | sell ↦ IsSorted-sweep sell o q.asks (b.sorted sell) ];
      positive = elim [ buy ↦ b.positive buy | sell ↦ IsPositive-sweep o q.asks (b.positive sell) ];
      sided = elim [
        | buy ↦ b.sided buy
        | sell ↦ All-sweep (λ s p. s ≡ sell) o q.asks (b.sided sell)
      ];
      apart = apart-asks;
    })
    | inl left ↦
        let pos = ltb→lt 0 (sweep o q.asks).incoming.quantity left in
        rw left (record {
          sorted = elim [
            | buy ↦ IsSorted-enqueue buy (sweep o q.asks).incoming q.bids (b.sorted buy)
            | sell ↦ IsSorted-sweep sell o q.asks (b.sorted sell)
          ];
          positive = elim [
            | buy ↦ All-enqueue _ buy (sweep o q.asks).incoming q.bids pos (b.positive buy)
            | sell ↦ IsPositive-sweep o q.asks (b.positive sell)
          ];
          sided = elim [
            | buy ↦
                All-enqueue _ buy (sweep o q.asks).incoming q.bids (incoming_side o q.asks ∙ e)
                  (b.sided buy)
            | sell ↦ All-sweep (λ s p. s ≡ sell) o q.asks (b.sided sell)
          ];
          apart =
              All-enqueue _ buy (sweep o q.asks).incoming q.bids
                (rw (incoming_price o q.asks)
                  (IsUncrossed-below buy o q.asks e (b.sorted sell) pos))
                apart-asks;
        })
  ]

  sold : o.side ≡ sell → IsBook (match_on sell o q).0
  unfolding match_on
  sold e = elim (Bool-cases (ltb 0 (sweep o q.bids).incoming.quantity)) [
    | inr used ↦ rw used (record {
      sorted = elim [ sell ↦ b.sorted sell | buy ↦ IsSorted-sweep buy o q.bids (b.sorted buy) ];
      positive = elim [ sell ↦ b.positive sell | buy ↦ IsPositive-sweep o q.bids (b.positive buy) ];
      sided = elim [
        | sell ↦ b.sided sell
        | buy ↦ All-sweep (λ s p. s ≡ buy) o q.bids (b.sided buy)
      ];
      apart = apart-bids;
    })
    | inl left ↦
        let pos = ltb→lt 0 (sweep o q.bids).incoming.quantity left in
        let inc = (sweep o q.bids).incoming in
        rw left (record {
          sorted = elim [
            | sell ↦ IsSorted-enqueue sell inc q.asks (b.sorted sell)
            | buy ↦ IsSorted-sweep buy o q.bids (b.sorted buy)
          ];
          positive = elim [
            | sell ↦ All-enqueue _ sell inc q.asks pos (b.positive sell)
            | buy ↦ IsPositive-sweep o q.bids (b.positive buy)
          ];
          sided = elim [
            | sell ↦ All-enqueue _ sell inc q.asks (incoming_side o q.bids ∙ e) (b.sided sell)
            | buy ↦ All-sweep (λ s p. s ≡ buy) o q.bids (b.sided buy)
          ];
          apart =
              All-map _ _ (sweep o q.bids).queue
                (λ (x : Order)
                    (h : (crosses sell o.price x.price ≡ false) × IsUncrossed buy x.price q.asks).
                  All-enqueue (λ y. crosses buy x.price y.price ≡ false) sell inc q.asks
                    (rw (incoming_price o q.bids) (crosses-swap o.price x.price h.0)) h.1)
                (All-both _ _ (sweep o q.bids).queue
                  (IsUncrossed-below sell o q.bids e (b.sorted buy) pos) apart-bids);
        })
  ]

match_on-IsBook :
    (s : Side) (o : Order) (q : Queues) → o.side ≡ s → IsBook q → IsBook (match_on s o q).0
match_on-IsBook buy o q e b = bought o q b e
match_on-IsBook sell o q e b = sold o q b e

-- Matching keeps the book: after it too no bid reaches an ask.
pub match_order-IsBook : (o : Order) (q : Queues) → IsBook q → IsBook (match_order o q).0
unfolding match_order
match_order-IsBook o q b = match_on-IsBook o.side o q refl b

pub empty-IsBook : IsBook (record { bids = []; asks = [] })
empty-IsBook = record {
  sorted = elim [ buy ↦ tt | sell ↦ tt ];
  positive = elim [ buy ↦ tt | sell ↦ tt ];
  sided = elim [ buy ↦ tt | sell ↦ tt ];
  apart = tt;
}
