-- ===== src/Book/Machine.antt =====
-- What `cross` and `matchOrder` come to in a matcher whose sides are seen as two queues, whatever
-- its state is.
use titan_engine.Prelude.{
  ℕ, ◌+◌, ◌-◌, ◌≤◌, ◌≡◌, refl, sym, subst, ◌∙◌, ap, true, false, ◌&&◌, List, [], ◌∷◌, min, ltb,
  ◌==◌, if◌then◌else◌, arith, Bool-cases, inl, inr,
}
use titan_engine.Core.{Side, buy, sell, opposite, Order, Trade, crosses, fill}
use titan_engine.Book.Spec
use titan_engine.Book.Spec.{Queues, sweep, side_of, trade_of, add_trade}
use titan_engine.Book.Spec.Sweep.{sweep-incoming, count_id-sweep}
use titan_engine.Book.Ladder.{count_id}
use titan_engine.Book.Ladder.Index.{total_by_side}
use titan_engine.Book.Ladder.Queue.{dequeue_absent}

pub opposite-opposite : (s : Side) → opposite (opposite s) ≡ s
opposite-opposite buy = refl
opposite-opposite sell = refl

pub sweep-stop :
    (o r : Order) (rs : List Order)
    → (ltb 0 o.quantity && crosses o.side o.price r.price) ≡ false
    → sweep o (r ∷ rs) ≡ record { queue = r ∷ rs; incoming = o; trades = [] }
unfolding sweep
sweep-stop o r rs e = rw e

sweep-filled :
    (o r : Order) (rs : List Order)
    → (ltb 0 o.quantity && crosses o.side o.price r.price) ≡ true
    → (r.quantity - min o.quantity r.quantity == 0) ≡ true
    → sweep o (r ∷ rs) ≡ add_trade (trade_of o r) (sweep (fill o (min o.quantity r.quantity)) rs)
unfolding sweep
sweep-filled o r rs e d = rw (e, d)

sweep-partial :
    (o r : Order) (rs : List Order)
    → (ltb 0 o.quantity && crosses o.side o.price r.price) ≡ true
    → (r.quantity - min o.quantity r.quantity == 0) ≡ false
    → sweep o (r ∷ rs) ≡ record {
      queue = fill r (min o.quantity r.quantity) ∷ rs;
      incoming = fill o (min o.quantity r.quantity);
      trades = trade_of o r ∷ [];
    }
unfolding sweep
sweep-partial o r rs e d = rw (e, d)

dequeue_head : (i : ℕ) (r : Order) (rest : List Order) → r.id ≡ i → Spec.dequeue i (r ∷ rest) ≡ rest
unfolding Spec.dequeue
dequeue_head i r rest e = ground arith

-- The opposite queue after a round of the loop.
abbrev pub after_fill : Order → ℕ → List Order → List Order
after_fill r n rest = if r.quantity - n == 0 then rest else fill r n ∷ rest

pub used_up : (a b : ℕ) → (b - min a b == 0) ≡ false → a - min a b ≡ 0
used_up a b h = ground arith

-- The two sides of the book after `match_on`, with and without a remainder.
swept_queues :
    (s : Side) (o : Order) (q : Queues)
    → (ltb 0 (sweep o (side_of (opposite s) q)).incoming.quantity ≡ false
        → (side_of s (Spec.match_on s o q).0 ≡ side_of s q)
          × (side_of (opposite s) (Spec.match_on s o q).0
              ≡ (sweep o (side_of (opposite s) q)).queue)
          × ((Spec.match_on s o q).1 ≡ (sweep o (side_of (opposite s) q)).trades))
      × (ltb 0 (sweep o (side_of (opposite s) q)).incoming.quantity ≡ true
          → (side_of s (Spec.match_on s o q).0
              ≡ Spec.enqueue s (sweep o (side_of (opposite s) q)).incoming (side_of s q))
            × (side_of (opposite s) (Spec.match_on s o q).0
                ≡ (sweep o (side_of (opposite s) q)).queue)
            × ((Spec.match_on s o q).1 ≡ (sweep o (side_of (opposite s) q)).trades))
unfolding Spec.match_on
swept_queues buy o q = (λ e. rw e (refl, refl, refl), λ e. rw e (refl, refl, refl))
swept_queues sell o q = (λ e. rw e (refl, refl, refl), λ e. rw e (refl, refl, refl))

queues_by_side :
    (s : Side) (p q : Queues)
    → side_of s p ≡ side_of s q
    → side_of (opposite s) p ≡ side_of (opposite s) q
    → p ≡ q
queues_by_side buy p q e f = ground arith
queues_by_side sell p q e f = ground arith

module _ {M : Type 0} (Valid : M → Type 0) (queue_of : Side → M → List Order) where
  -- Both queues of a state.
  abbrev pub queues_of : M → Queues
  queues_of m = record { bids = queue_of buy m; asks = queue_of sell m }

  pub side_of-queues_of : (s : Side) (m : M) → side_of s (queues_of m) ≡ queue_of s m
  side_of-queues_of buy m = refl
  side_of-queues_of sell m = refl

  -- A valid state with a given queue on one side, and the other side as before.
  pub record Stepped (s : Side) (m m' : M) (q : List Order) : Type 0 where
    pub valid : Valid m'
    pub swept : queue_of s m' ≡ q
    pub untouched : queue_of (opposite s) m' ≡ queue_of (opposite s) m

  -- What the loop leaves of `m` and `o`: the outcome of the sweep of the opposite queue.
  pub record Swept (o : Order) (m m' : M) (left : Order) (ts : List Trade) : Type 0 where
    pub valid : Valid m'
    pub swept : queue_of (opposite o.side) m' ≡ (sweep o (queue_of (opposite o.side) m)).queue
    pub untouched : queue_of o.side m' ≡ queue_of o.side m
    pub incoming : left ≡ (sweep o (queue_of (opposite o.side) m)).incoming
    pub trades : ts ≡ (sweep o (queue_of (opposite o.side) m)).trades

  pub stops_empty :
      (o : Order) (m : M) → Valid m → queue_of (opposite o.side) m ≡ [] → Swept o m m o []
  unfolding sweep
  stops_empty o m v e = record {
    valid = v;
    swept = rw e;
    untouched = refl;
    incoming = rw e;
    trades = rw e;
  }

  module _ (o : Order) (m : M) (r : Order) (rest : List Order)
      (whole : queue_of (opposite o.side) m ≡ r ∷ rest) where
    pub stops :
        Valid m → (ltb 0 o.quantity && crosses o.side o.price r.price) ≡ false → Swept o m m o []
    stops v halt = record {
      valid = v;
      swept = rw (whole, sweep-stop o r rest halt);
      untouched = refl;
      incoming = rw (whole, sweep-stop o r rest halt);
      trades = rw (whole, sweep-stop o r rest halt);
    }

    module _ (m' : M) (go : (ltb 0 o.quantity && crosses o.side o.price r.price) ≡ true)
        (stepped : Stepped
          (opposite o.side)
          m
          m'
          (after_fill r (min o.quantity r.quantity) rest)) where
      own_side : queue_of o.side m' ≡ queue_of o.side m
      own_side =
          subst (λ t. queue_of t m' ≡ queue_of t m) (opposite-opposite o.side) stepped.untouched

      -- The front order is filled, and the loop goes on behind it.
      pub goes_on :
          (r.quantity - min o.quantity r.quantity == 0) ≡ true
          → (x : M) (left : Order) (ts : List Trade)
          → Swept (fill o (min o.quantity r.quantity)) m' x left ts
          → Swept o m x left (trade_of o r ∷ ts)
      goes_on done x left ts sw =
          let now : queue_of (opposite o.side) m' ≡ rest = stepped.swept ∙ rw done in
          let here = sweep-filled o r rest go done in
          record {
            valid = sw.valid;
            swept = sw.swept ∙ rw (whole, here, now);
            untouched = sw.untouched ∙ own_side;
            incoming = sw.incoming ∙ rw (whole, here, now);
            trades = rw (whole, here) (ap (◌∷◌ (trade_of o r)) (sw.trades ∙ rw now));
          }

      -- The incoming order is used up on the front order.
      pub ends :
          (r.quantity - min o.quantity r.quantity == 0) ≡ false
          → Swept o m m' (fill o (min o.quantity r.quantity)) (trade_of o r ∷ [])
      ends more =
          let now : queue_of (opposite o.side) m' ≡ fill r (min o.quantity r.quantity) ∷ rest =
            stepped.swept ∙ rw more in
          let here = sweep-partial o r rest go more in
          record {
            valid = stepped.valid;
            swept = rw (whole, here) now;
            untouched = own_side;
            incoming = rw (whole, here);
            trades = rw (whole, here);
          }

  -- Removing the front order of a side, where removal is that of the specification.
  pub removed_front :
      (s : Side) (m m' : M) (r : Order) (rest : List Order)
      → Valid m'
      → queues_of m' ≡ Spec.cancel_order r.id (queues_of m)
      → ((i : ℕ) → count_id i (queue_of buy m) + count_id i (queue_of sell m) ≤ 1)
      → queue_of s m ≡ r ∷ rest
      → Stepped s m m' rest
  unfolding Spec.cancel_order
  removed_front s m m' r rest v e once q =
      let by : (t : Side) → queue_of t m' ≡ Spec.dequeue r.id (queue_of t m) = elim [
        | buy ↦ ap (λ x. x.bids) e
        | sell ↦ ap (λ x. x.asks) e
      ] in
      let present : 1 ≤ count_id r.id (queue_of s m) = rw q (ground arith) in
      record {
        valid = v;
        swept = by s ∙ rw q (dequeue_head r.id r rest refl);
        untouched =
            by (opposite s)
            ∙ dequeue_absent r.id (queue_of (opposite s) m) (
                omega
                  (arith, present, once r.id, total_by_side (λ t. count_id r.id (queue_of t m)) s));
      }

  module _ (rest_order : Order → M → M)
      (rests : (o : Order) (m : M)
        → Valid m
        → count_id o.id (queue_of buy m) + count_id o.id (queue_of sell m) ≡ 0
        → Valid (rest_order o m)
          × (queue_of o.side (rest_order o m) ≡ Spec.enqueue o.side o (queue_of o.side m))
          × (queue_of (opposite o.side) (rest_order o m) ≡ queue_of (opposite o.side) m))
      (o : Order) (m m' : M) (left : Order) (ts : List Trade) (sw : Swept o m m' left ts)
      (fresh : count_id o.id (queue_of buy m) + count_id o.id (queue_of sell m) ≡ 0) where
    same_order : left ≡ record o { quantity = left.quantity }
    same_order =
        sw.incoming
        ∙ sweep-incoming o (queue_of (opposite o.side) m)
        ∙ ap (λ n. record o { quantity = n }) (ap (λ (x : Order). x.quantity) (sym sw.incoming))

    still_fresh : count_id left.id (queue_of buy m') + count_id left.id (queue_of sell m') ≡ 0
    still_fresh =
        let own : count_id o.id (queue_of o.side m') ≡ count_id o.id (queue_of o.side m) =
          rw sw.untouched in
        let other : count_id o.id (queue_of (opposite o.side) m')
            ≤ count_id o.id (queue_of (opposite o.side) m) =
          rw sw.swept (count_id-sweep o.id o (queue_of (opposite o.side) m)) in
        rw (ap (λ (x : Order). x.id) same_order) (
          omega (
            arith,
            own,
            other,
            total_by_side (λ t. count_id o.id (queue_of t m)) o.side,
            total_by_side (λ t. count_id o.id (queue_of t m')) o.side,
            fresh,
          ))

    remainder : left ≡ (sweep o (side_of (opposite o.side) (queues_of m))).incoming
    remainder = sw.incoming ∙ rw (side_of-queues_of (opposite o.side) m)

    abbrev IsRested : M → Type 0
    IsRested x = Valid x × (queues_of x ≡ (Spec.match_on o.side o (queues_of m)).0)

    IsRested-remainder : ltb 0 left.quantity ≡ true → IsRested (rest_order left m')
    IsRested-remainder more =
        let (valid, own, other) = rests left m' sw.valid still_fresh in
        let (spec_own, spec_other, _) =
          (swept_queues o.side o (queues_of m)).1 (rw (← remainder) more) in
        let x = rest_order left m' in
        let same_side : left.side ≡ o.side = ap (λ (x : Order). x.side) same_order in
        let own' = subst (λ t. queue_of t x ≡ Spec.enqueue t left (queue_of t m')) same_side own in
        let other' =
          subst (λ t. queue_of (opposite t) x ≡ queue_of (opposite t) m') same_side other in
        let own_queues = side_of-queues_of o.side in
        let other_queues = side_of-queues_of (opposite o.side) in
        (
          valid,
          queues_by_side o.side (queues_of x) (Spec.match_on o.side o (queues_of m)).0
              (cc (own', sw.untouched, remainder, spec_own, own_queues m, own_queues x))
              (cc (other', sw.swept, spec_other, other_queues m, other_queues x)),
        )

    kept_remainder : ltb 0 left.quantity ≡ false → IsRested m'
    kept_remainder used =
        let (spec_own, spec_other, _) =
          (swept_queues o.side o (queues_of m)).0 (rw (← remainder) used) in
        let own_queues = side_of-queues_of o.side in
        let other_queues = side_of-queues_of (opposite o.side) in
        (
          sw.valid,
          queues_by_side o.side (queues_of m') (Spec.match_on o.side o (queues_of m)).0
              (cc (sw.untouched, spec_own, own_queues m, own_queues m'))
              (cc (sw.swept, spec_other, other_queues m, other_queues m')),
        )

    -- Resting what is left completes `matchOrder`.
    pub matched :
        IsRested (if ltb 0 left.quantity then rest_order left m' else m')
        × (ts ≡ (Spec.match_on o.side o (queues_of m)).1)
    matched =
        let other = side_of-queues_of (opposite o.side) m in
        elim (Bool-cases (ltb 0 left.quantity)) [
          | inl more ↦
              let (_, _, spec) = (swept_queues o.side o (queues_of m)).1 (rw (← remainder) more) in
              (rw more (IsRested-remainder more), cc (sw.trades, spec, other))
          | inr used ↦
              let (_, _, spec) = (swept_queues o.side o (queues_of m)).0 (rw (← remainder) used) in
              (rw used (kept_remainder used), cc (sw.trades, spec, other))
        ]
