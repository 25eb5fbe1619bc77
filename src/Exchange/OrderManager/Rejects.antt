-- ===== src/Exchange/OrderManager/Rejects.antt =====
-- What `OrderManager` turns away, and what it does then.
use titan_engine.Prelude.{
  OnSome, ℕ, zero, suc, ◌+◌, ◌<◌, ◌≡◌, refl, sym, ap, subst, ◌∙◌, Bool, true, false, not, ◌&&◌,
  List, [], ◌∷◌, Option, none, some, ltb, ◌==◌, if◌then◌else◌, min, sub64, length, arith,
  Bool-cases, Option-cases, inl, inr, nat_eq,
}
use titan_engine.Prelude.OrderedMap
use titan_engine.Prelude.Assoc.{lookup, insert, contains, add, remove, contains-add}
use titan_engine.Core.{
  Side, buy, sell, opposite, crosses, partially_filled, new, Order, Trade, RejectReason,
  duplicate_order_id,
}
use titan_engine.Exchange.Validator.{validate_new_order, is_limit, is_market}
use titan_engine.Exchange.OrderManager.{
  IMatcher, OrderManager, MatchResult, accepting, rejecting, is_accept, Progress, record_trade,
  record_trades, untrack_resting, match_front, stp_loop, match_with_stp, rest_remainder,
  finish_match, match_order, with_snapshot, is_own, to_match, track_resting, traded_snapshot,
  would_cross, is_ioc, Shadow, with_shadow, shadow, best_level,
}

module _ {M : Type 0} (book : IMatcher M) where
  -- What the manager keeps of an order that it took in.
  abbrev IsTaken : ℕ → OrderManager M × MatchResult → Type 0
  IsTaken i x = (x.1.accept_result ≡ accepting) × (contains i x.0.all_known_order_ids ≡ true)

  with_snapshot-IsTaken :
      (i : ℕ) (o : Order) (ts : List Trade) (x : Option (OrderManager M))
      → OnSome (λ m. contains i m.all_known_order_ids ≡ true) x
      → OnSome (IsTaken i) (with_snapshot book o ts x)
  with_snapshot-IsTaken i o ts none h = tt
  with_snapshot-IsTaken i o ts (some m) h = (refl, h)

  untrack_resting-known :
      (i : ℕ) (m : OrderManager M)
      → (untrack_resting i m).all_known_order_ids ≡ m.all_known_order_ids
  unfolding untrack_resting
  untrack_resting-known i m = ground arith

  track_resting-known :
      (o : Order) (m : OrderManager M)
      → (track_resting o m).all_known_order_ids ≡ m.all_known_order_ids
  unfolding track_resting
  track_resting-known o m = ground arith

  if_known :
      {ids : List ℕ} (b : Bool) (x y : OrderManager M)
      → x.all_known_order_ids ≡ ids
      → y.all_known_order_ids ≡ ids
      → (if b then x else y).all_known_order_ids ≡ ids
  if_known true x y h k = h
  if_known false x y h k = k

  record_trade-known :
      (t : Trade) (m : OrderManager M)
      → (record_trade t m).all_known_order_ids ≡ m.all_known_order_ids
  unfolding record_trade
  record_trade-known t m = elim (Option-cases (lookup t.resting_order_id m.orders)) [
    | inl e ↦ rw (record_trade, e) refl
    | inr (r, e) ↦
        let r' = traded_snapshot r t in
        let m' = record m { orders = insert t.resting_order_id r' m.orders } in
        let gone = record m' { active_order_ids = remove t.resting_order_id m'.active_order_ids } in
        rw (record_trade, e)
          (if_known (r'.quantity == 0) (untrack_resting t.resting_order_id gone) m'
            (untrack_resting-known t.resting_order_id gone) refl)
  ]

  record_trades-known :
      (ts : List Trade) (p : Progress M)
      → (record_trades ts p).manager.all_known_order_ids ≡ p.manager.all_known_order_ids
  unfolding record_trades
  record_trades-known [] p = refl
  record_trades-known (t ∷ ts) p = record_trades-known ts _ ∙ record_trade-known t p.manager

  -- The ids that `matchOrder` knows when matching starts.
  abbrev Knows : List ℕ → Progress M → Type 0
  Knows ids p = p.manager.all_known_order_ids ≡ ids

  match_front-Knows :
      (ids : List ℕ) (k : Progress M → Option (Progress M)) (o : Order) (i : ℕ) (p : Progress M)
      → ((q : Progress M) → Knows ids q → OnSome (Knows ids) (k q))
      → Knows ids p
      → OnSome (Knows ids) (match_front book k o i p)
  unfolding match_front
  match_front-Knows ids k o i p h e = elim (Option-cases (lookup i p.manager.orders)) [
    | inl n ↦ rw (OnSome, match_front, n) tt
    | inr (r, n) ↦ elim (Bool-cases (is_own o r)) [
      | inl own ↦ rw (OnSome, match_front, n, own) e
      | inr other ↦
          elim (Option-cases (
            book.match_order (record o { quantity = min p.remaining r.quantity })
              p.manager.matcher)) [
                | inl s ↦ rw (OnSome, match_front, n, other, s) tt
                | inr ((x, []), s) ↦ rw (OnSome, match_front, n, other, s) e
                | inr ((x, t ∷ ts), s) ↦
                    rw (OnSome, match_front, n, other, s)
                      (h _ (
                        record_trades-known (t ∷ ts)
                          (record p { manager = record p.manager { matcher = x } })
                        ∙ e))
              ]
    ]
  ]

  with_shadow-known :
      (s : Side) (ls : Shadow) (m : OrderManager M)
      → (with_shadow s ls m).all_known_order_ids ≡ m.all_known_order_ids
  with_shadow-known buy ls m = refl
  with_shadow-known sell ls m = refl

  stp_loop-Knows :
      (ids : List ℕ) (n : ℕ) (o : Order) (p : Progress M)
      → Knows ids p
      → OnSome (Knows ids) (stp_loop book n o p)
  unfolding stp_loop
  stp_loop-Knows ids zero o p e = tt
  stp_loop-Knows ids (suc n) o p e =
      let opp = opposite o.side in
      elim (Bool-cases (ltb 0 p.remaining)) [
        | inr a ↦ rw (OnSome, stp_loop, a) e
        | inl a ↦ elim (Option-cases (best_level opp (shadow opp p.manager))) [
          | inl b ↦ rw (OnSome, stp_loop, a, b) e
          | inr ((price, is), b) ↦ elim (Bool-cases (crosses o.side o.price price)) [
            | inr c ↦ rw (OnSome, stp_loop, a, b, c) e
            | inl c ↦
                elim is
                    as (λ is.
                      best_level opp (shadow opp p.manager) ≡ some (price, is)
                      → OnSome (Knows ids) (stp_loop book (suc n) o p)) [
                        | [] ↦ λ b.
                            rw (OnSome, stp_loop, a, b, c)
                              (stp_loop-Knows ids n o _ (
                                with_shadow-known opp
                                  (OrderedMap.erase price (shadow opp p.manager)) p.manager
                                ∙ e))
                        | front ∷ rest ↦ λ b.
                            rw (OnSome, stp_loop, a, b, c)
                              (match_front-Knows ids (stp_loop book n o) o front p
                                (stp_loop-Knows ids n o) e)
                      ]
                  b
          ]
        ]
      ]

  rest_remainder-Knows :
      (ids : List ℕ) (o : Order) (n d : ℕ) (m : OrderManager M)
      → m.all_known_order_ids ≡ ids
      → OnSome (λ (x : OrderManager M). x.all_known_order_ids ≡ ids) (rest_remainder book o n d m)
  unfolding rest_remainder
  rest_remainder-Knows ids o n d m e =
      let resting = record o { quantity = n; status = if ltb 0 d then partially_filled else new } in
      elim (Option-cases (book.add_order resting m.matcher)) [
        | inl a ↦ rw (OnSome, rest_remainder, a) tt
        | inr (x, a) ↦
            rw (OnSome, rest_remainder, a)
              (track_resting-known resting
                  (record m { matcher = x; active_order_ids = add o.id m.active_order_ids })
                ∙ e)
      ]

  on_if :
      (P : OrderManager M → Type 0) (b : Bool) (x : Option (OrderManager M)) (y : OrderManager M)
      → OnSome P x
      → P y
      → OnSome P (if b then x else some y)
  on_if P true x y h k = h
  on_if P false x y h k = k

  known-on :
      (i : ℕ) (ids : List ℕ) (x : Option (OrderManager M))
      → OnSome (λ (m : OrderManager M). m.all_known_order_ids ≡ ids) x
      → contains i ids ≡ true
      → OnSome (λ (m : OrderManager M). contains i m.all_known_order_ids ≡ true) x
  known-on i ids none h k = tt
  known-on i ids (some m) h k = rw h k

  finish_match-IsTaken :
      (i : ℕ) (o : Order) (p : Progress M)
      → contains i p.manager.all_known_order_ids ≡ true
      → OnSome (IsTaken i) (finish_match book o p)
  unfolding finish_match
  finish_match-IsTaken i o p h =
      let q = sub64 o.quantity p.filled_quantity in
      with_snapshot-IsTaken i _ p.trades _ (
        on_if (λ (x : OrderManager M). contains i x.all_known_order_ids ≡ true)
          (not (is_market o.type) && not (is_ioc o.tif) && ltb 0 q && not (would_cross o p.manager))
          _ _
          (known-on i _ _
            (rest_remainder-Knows p.manager.all_known_order_ids o q p.filled_quantity p.manager
              refl)
            h)
          h)

  match_with_stp-Knows :
      (o : Order) (m : OrderManager M)
      → OnSome (Knows m.all_known_order_ids) (match_with_stp book o m)
  unfolding match_with_stp
  match_with_stp-Knows o m =
      stp_loop-Knows m.all_known_order_ids (o.quantity + length (shadow (opposite o.side) m) + 1) o
        (record { manager = m; remaining = o.quantity; filled_quantity = 0; trades = [] }) refl

  match_order-IsTaken :
      (o : Order) (m : OrderManager M)
      → is_accept (validate_new_order o m.all_known_order_ids) ≡ true
      → OnSome (IsTaken o.id) (match_order book o m)
  unfolding match_order match_with_stp
  match_order-IsTaken o m ok =
      let ids = add o.id m.all_known_order_ids in
      let m' = record m { all_known_order_ids = ids } in
      let known : contains o.id ids ≡ true =
        rw (contains-add o.id o.id m.all_known_order_ids) (ground arith) in
      elim (Option-cases (match_with_stp book (to_match o) m')) [
        | inl e ↦ rw (OnSome, match_order, ok, e) tt
        | inr (p, e) ↦
            let same : p.manager.all_known_order_ids ≡ ids =
              subst (OnSome (Knows ids)) e (match_with_stp-Knows (to_match o) m') in
            rw (OnSome, match_order, ok, e) (finish_match-IsTaken o.id o p (rw same known))
      ]

  match_order-refuses :
      (o : Order) (m : OrderManager M) (r : RejectReason)
      → validate_new_order o m.all_known_order_ids ≡ r
      → is_accept r ≡ false
      → match_order book o m ≡ some (m, record { trades = []; accept_result = rejecting r })
  unfolding match_order
  match_order-refuses o m r e h =
      let bad = ap is_accept e ∙ h in
      rw (match_order, bad)
        (ap (λ x. some (m, record { trades = []; accept_result = rejecting x })) e)

  validate_new_order-known :
      (o : Order) (ids : List ℕ)
      → 0 < o.quantity
      → (is_limit o.type && (o.price == 0)) ≡ false
      → contains o.id ids ≡ true
      → validate_new_order o ids ≡ duplicate_order_id
  unfolding validate_new_order
  validate_new_order-known o ids q p k =
      let z : (o.quantity == 0) ≡ false = ground arith in rw (z, p, k) refl

  -- Over any matcher, after `OrderManager::matchOrder` returned and took an order in,
  -- `matchOrder` of any order with the same id, a positive quantity and, if it is a limit order,
  -- a price returns no trade and `DuplicateOrderId`, and leaves the manager as it was.
  pub match_order-once :
      (o o' : Order) (m m' : OrderManager M) (r : MatchResult)
      → match_order book o m ≡ some (m', r)
      → r.accept_result.accepted ≡ true
      → o'.id ≡ o.id
      → 0 < o'.quantity
      → (is_limit o'.type && (o'.price == 0)) ≡ false
      → match_order book o' m'
        ≡ some (m', record { trades = []; accept_result = rejecting duplicate_order_id })
  match_order-once o o' m m' r e a i q p =
      elim (Bool-cases (is_accept (validate_new_order o m.all_known_order_ids))) [
        | inl ok ↦
            let taken = subst (OnSome (IsTaken o.id)) e (match_order-IsTaken o m ok) in
            match_order-refuses o' m' duplicate_order_id
              (validate_new_order-known o' m'.all_known_order_ids q p (rw i taken.1)) refl
        | inr bad ↦
            let s =
              sym e
              ∙ match_order-refuses o m (validate_new_order o m.all_known_order_ids) refl bad in
            let off : r.accept_result.accepted ≡ false =
              subst
                (OnSome (λ (x : OrderManager M × MatchResult). x.1.accept_result.accepted ≡ false))
                (sym s) refl in
            cc
      ]
