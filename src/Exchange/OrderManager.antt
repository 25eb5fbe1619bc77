-- ===== src/Exchange/OrderManager.antt =====
-- `OrderManager` of src/exchange/order_manager.cpp, over any `IMatcher`.
use titan_engine.Prelude.{
  ℕ, zero, suc, ◌+◌, Bool, true, false, not, ◌&&◌, ◌||◌, List, [], ◌∷◌, ◌++◌, Option, none, some,
  ltb, leb, ◌==◌, if◌then◌else◌, min, add64, sub64, u64_max, nat_eq, length,
}
use titan_engine.Prelude.OrderedMap
use titan_engine.Prelude.Assoc.{lookup, insert, contains, add, remove}
use titan_engine.Core.{
  Side, buy, sell, opposite, Order, Trade, OrderType, TimeInForce, gtc, ioc, OrderStatus, new,
  partially_filled, filled, cancelled, RejectReason, accept, order_not_resting, invalid_replace,
  invalid_order_type, replace_would_cross, crosses,
}
use titan_engine.Exchange.Validator.{is_market, is_limit, validate_new_order, validate_cancel}
pub mod Rejects
pub mod Replace

-- The calls of `IMatcher` that change a book. `none` is a call that does not end.
pub record IMatcher (M : Type 0) : Type 0 where
  pub add_order : Order → M → Option M
  pub cancel_order : ℕ → M → M
  pub match_order : Order → M → Option (M × List Trade)

-- `std::map<Price, std::vector<OrderId>>` in the order of iteration, lowest price first.
abbrev pub Shadow : Type 0
Shadow = List (ℕ × List ℕ)

pub record OrderManager (M : Type 0) : Type 0 where
  pub matcher : M
  pub resting_bids_at : Shadow
  pub resting_asks_at : Shadow
  pub all_known_order_ids : List ℕ
  pub active_order_ids : List ℕ
  pub orders : List (ℕ × Order)

pub record AcceptResult : Type 0 where
  pub accepted : Bool
  pub reason : RejectReason

pub record MatchResult : Type 0 where
  pub trades : List Trade
  pub accept_result : AcceptResult

abbrev pub accepting : AcceptResult
accepting = record { accepted = true; reason = accept }

abbrev pub rejecting : RejectReason → AcceptResult
rejecting r = record { accepted = false; reason = r }

abbrev pub is_accept : RejectReason → Bool
is_accept accept = true
is_accept r = false

abbrev pub is_ioc : TimeInForce → Bool
is_ioc gtc = false
is_ioc ioc = true

abbrev pub is_empty {ℓ} : {A : Type ℓ} → List A → Bool
is_empty [] = true
is_empty (x ∷ xs) = false

-- `std::prev(levels.end())`.
unfoldable pub last {ℓ} : {A : Type ℓ} → List A → Option A
last [] = none
last (x ∷ xs) = let rest = last xs in elim xs [ [] ↦ some x | y ∷ ys ↦ rest ]

unfoldable pub erase_first : ℕ → List ℕ → List ℕ
erase_first i [] = []
erase_first i (j ∷ js) = if j == i then js else j ∷ erase_first i js

-- `eraseFrom`: `none` where no level holds the id.
unfoldable pub erase_from : ℕ → Shadow → Option Shadow
unfolding contains erase_first
erase_from i [] = none
erase_from i ((p, ids) ∷ ls) =
    let rest = erase_from i ls in
    let ids' = erase_first i ids in
    if contains i ids
    then (if is_empty ids' then some ls else some ((p, ids') ∷ ls))
    else elim rest [ none ↦ none | some ls' ↦ some ((p, ids) ∷ ls') ]

-- The best entry of a shadow of side `s`.
abbrev pub best_level : Side → Shadow → Option (ℕ × List ℕ)
best_level buy ls = last ls
best_level sell [] = none
best_level sell (l ∷ ls) = some l

-- The snapshot of a resting order after a trade.
abbrev pub traded_snapshot : Order → Trade → Order
traded_snapshot r t =
    let q = sub64 r.quantity t.quantity in
    record r { quantity = q; status = if q == 0 then filled else partially_filled }

-- What `matchWithStp` has at the end of a round.
pub record Progress (M : Type 0) : Type 0 where
  pub manager : OrderManager M
  pub remaining : ℕ
  pub filled_quantity : ℕ
  pub trades : List Trade

-- An order that `addOrder` and `cancelReplace` turn away.
abbrev pub is_immediate : Order → Bool
is_immediate o = is_market o.type || (is_limit o.type && is_ioc o.tif)

abbrev pub final_status : Bool → ℕ → ℕ → OrderStatus
final_status rests remaining done =
    if remaining == 0
    then filled
    else if not rests
    then (if ltb 0 done then filled else cancelled)
    else if ltb 0 done
    then partially_filled
    else new

-- A market order sweeps at an extreme price.
abbrev pub to_match : Order → Order
to_match o =
    if is_market o.type then record o { price = elim o.side [ buy ↦ u64_max | sell ↦ 0 ] } else o

-- The self-trade test of `matchWithStp`.
abbrev pub is_own : Order → Order → Bool
is_own incoming resting =
    not (incoming.account_id == 0) && (resting.account_id == incoming.account_id)

module _ {M : Type 0} where
  abbrev pub shadow : Side → OrderManager M → Shadow
  shadow buy m = m.resting_bids_at
  shadow sell m = m.resting_asks_at

  abbrev pub with_shadow : Side → Shadow → OrderManager M → OrderManager M
  with_shadow buy ls m = record m { resting_bids_at = ls }
  with_shadow sell ls m = record m { resting_asks_at = ls }

  unfoldable pub track_resting : Order → OrderManager M → OrderManager M
  track_resting o m =
      with_shadow o.side
        (OrderedMap.upsert ltb o.price [] (λ ids. ids ++ o.id ∷ []) (shadow o.side m)) m

  unfoldable pub untrack_resting : ℕ → OrderManager M → OrderManager M
  unfolding erase_from
  untrack_resting i m = elim (erase_from i m.resting_bids_at) [
    | some ls ↦ record m { resting_bids_at = ls }
    | none ↦ elim (erase_from i m.resting_asks_at) [
      | some ls ↦ record m { resting_asks_at = ls }
      | none ↦ m
    ]
  ]

  unfoldable pub would_cross : Order → OrderManager M → Bool
  would_cross o m = elim o.side [
    | buy ↦ elim (best_level sell m.resting_asks_at) [ none ↦ false | some l ↦ leb l.0 o.price ]
    | sell ↦ elim (best_level buy m.resting_bids_at) [ none ↦ false | some l ↦ leb o.price l.0 ]
  ]

  -- The body of the loop over the trades, for the bookkeeping of the resting order.
  unfoldable pub record_trade : Trade → OrderManager M → OrderManager M
  unfolding untrack_resting
  record_trade t m = elim (lookup t.resting_order_id m.orders) [
    | none ↦ m
    | some r ↦
        let r' = traded_snapshot r t in
        let m' = record m { orders = insert t.resting_order_id r' m.orders } in
        if r'.quantity == 0
        then untrack_resting t.resting_order_id
            (record m' { active_order_ids = remove t.resting_order_id m'.active_order_ids })
        else m'
  ]

  unfoldable pub record_trades : List Trade → Progress M → Progress M
  unfolding record_trade
  record_trades [] p = p
  record_trades (t ∷ ts) p = record_trades ts (record {
    manager = record_trade t p.manager;
    remaining = sub64 p.remaining t.quantity;
    filled_quantity = add64 p.filled_quantity t.quantity;
    trades = p.trades ++ t ∷ [];
  })

module _ {M : Type 0} (book : IMatcher M) where
  -- The round of `matchWithStp` on the front id of the best level; `k` is the rest of the loop.
  unfoldable pub match_front :
      (Progress M → Option (Progress M)) → Order → ℕ → Progress M → Option (Progress M)
  unfolding record_trades
  match_front k incoming front p = elim (lookup front p.manager.orders) [
    | none ↦ none
    | some resting ↦
        if is_own incoming resting
        then some p
        else let chunk = min p.remaining resting.quantity in
          elim (book.match_order (record incoming { quantity = chunk }) p.manager.matcher) [
            | none ↦ none
            | some (matcher, []) ↦
                some (record p { manager = record p.manager { matcher = matcher } })
            | some (matcher, t ∷ ts) ↦ k (
                record_trades (t ∷ ts)
                  (record p { manager = record p.manager { matcher = matcher } }))
          ]
  ]

  -- The loop of `matchWithStp`. `none` is a loop that has not ended, or an id of the shadow that
  -- `orders_.at` does not know.
  unfoldable pub stp_loop : ℕ → Order → Progress M → Option (Progress M)
  unfolding match_front
  stp_loop zero incoming p = none
  stp_loop (suc fuel) incoming p =
      let opp = opposite incoming.side in
      elim (ltb 0 p.remaining) [
        | false ↦ some p
        | true ↦ elim (best_level opp (shadow opp p.manager)) [
          | none ↦ some p
          | some (price, ids) ↦ elim (crosses incoming.side incoming.price price) [
            | false ↦ some p
            | true ↦ elim ids [
              | [] ↦ stp_loop fuel incoming (record p {
                manager = with_shadow opp (OrderedMap.erase price (shadow opp p.manager)) p.manager;
              })
              | front ∷ rest ↦ match_front (stp_loop fuel incoming) incoming front p
            ]
          ]
        ]
      ]

  unfoldable pub match_with_stp : Order → OrderManager M → Option (Progress M)
  unfolding stp_loop
  match_with_stp incoming m =
      stp_loop (incoming.quantity + length (shadow (opposite incoming.side) m) + 1) incoming
        (record { manager = m; remaining = incoming.quantity; filled_quantity = 0; trades = [] })

  -- The remainder of a GTC order that does not cross rests.
  unfoldable pub rest_remainder : Order → ℕ → ℕ → OrderManager M → Option (OrderManager M)
  unfolding track_resting
  rest_remainder o remaining done m =
      let resting = record o {
        quantity = remaining;
        status = if ltb 0 done then partially_filled else new;
      } in
      elim (book.add_order resting m.matcher) [
        | none ↦ none
        | some matcher ↦ some (
            track_resting resting
              (record m { matcher = matcher; active_order_ids = add o.id m.active_order_ids }))
      ]

  abbrev pub with_snapshot :
      Order → List Trade → Option (OrderManager M) → Option (OrderManager M × MatchResult)
  with_snapshot o ts none = none
  with_snapshot o ts (some m) = some (
    record m { orders = insert o.id o m.orders },
    record { trades = ts; accept_result = accepting },
  )

  -- What follows `matchWithStp` in `matchOrder`.
  unfoldable pub finish_match : Order → Progress M → Option (OrderManager M × MatchResult)
  unfolding rest_remainder would_cross
  finish_match o p =
      let remaining = sub64 o.quantity p.filled_quantity in
      let rests =
        not (is_market o.type)
        && not (is_ioc o.tif)
        && ltb 0 remaining
        && not (would_cross o p.manager) in
      let snapshot = record o {
        quantity = remaining;
        status = final_status rests remaining p.filled_quantity;
      } in
      let m' =
        if rests then rest_remainder o remaining p.filled_quantity p.manager else some p.manager in
      with_snapshot snapshot p.trades m'

  unfoldable pub match_order : Order → OrderManager M → Option (OrderManager M × MatchResult)
  unfolding match_with_stp finish_match
  match_order o m =
      let reason = validate_new_order o m.all_known_order_ids in
      elim (is_accept reason) [
        | false ↦ some (m, record { trades = []; accept_result = rejecting reason })
        | true ↦
            elim (match_with_stp (to_match o)
              (record m { all_known_order_ids = add o.id m.all_known_order_ids })) [
                | none ↦ none
                | some p ↦ finish_match o p
              ]
      ]

  unfoldable pub add_order : Order → OrderManager M → Option (OrderManager M × AcceptResult)
  unfolding match_order
  add_order o m =
      let reason = validate_new_order o m.all_known_order_ids in
      elim (is_immediate o) [
        | true ↦ some (m, rejecting invalid_order_type)
        | false ↦ elim (is_accept reason) [
          | false ↦ some (m, rejecting reason)
          | true ↦ elim (match_order o m) [ none ↦ none | some (m', r) ↦ some (m', accepting) ]
        ]
      ]

  -- `orders_.at(id)` throws where the id is missing: `none`.
  unfoldable pub cancel_order : ℕ → OrderManager M → Option (OrderManager M × AcceptResult)
  unfolding untrack_resting
  cancel_order i m =
      let reason = validate_cancel i m.active_order_ids in
      let m' = untrack_resting i (record m {
        matcher = book.cancel_order i m.matcher;
        active_order_ids = remove i m.active_order_ids;
      }) in
      elim (is_accept reason) [
        | false ↦ some (m, rejecting reason)
        | true ↦ elim (lookup i m'.orders) [
          | none ↦ none
          | some o ↦ some (
            record m' { orders = insert i (record o { status = cancelled }) m'.orders },
            accepting,
          )
        ]
      ]

  -- The matcher without the orders of a level, one after the other.
  unfoldable pub cancel_all : List ℕ → M → M
  cancel_all [] x = x
  cancel_all (i ∷ is) x = cancel_all is (book.cancel_order i x)

  unfoldable pub add_all : List ℕ → List (ℕ × Order) → M → Option M
  add_all [] orders x = some x
  add_all (i ∷ is) orders x = elim (lookup i orders) [
    | none ↦ none
    | some o ↦ elim (book.add_order o x) [ none ↦ none | some x' ↦ add_all is orders x' ]
  ]

  -- A decrease at the same price: the level is built again in its recorded order.
  unfoldable pub rebuild_level : Order → OrderManager M → Option (OrderManager M)
  unfolding cancel_all add_all
  rebuild_level o m =
      let ls = OrderedMap.upsert ltb o.price [] (λ ids. ids) (shadow o.side m) in
      let ids : List ℕ = elim (OrderedMap.find? o.price ls) [ none ↦ [] | some is ↦ is ] in
      let orders = insert o.id o m.orders in
      elim (add_all ids orders (cancel_all ids m.matcher)) [
        | none ↦ none
        | some x ↦ some (record (with_shadow o.side ls m) { matcher = x; orders = orders })
      ]

  -- Any other replacement goes to the back of its level.
  unfoldable pub requeue : Order → OrderManager M → Option (OrderManager M)
  unfolding untrack_resting track_resting
  requeue o m =
      let m' = untrack_resting o.id (record m { matcher = book.cancel_order o.id m.matcher }) in
      elim (book.add_order o m'.matcher) [
        | none ↦ none
        | some x ↦ some (
            track_resting o (record m' {
              matcher = x;
              orders = insert o.id o m'.orders;
              active_order_ids = add o.id m'.active_order_ids;
            }))
      ]

  abbrev pub and_accept : Option (OrderManager M) → Option (OrderManager M × AcceptResult)
  and_accept none = none
  and_accept (some m) = some (m, accepting)

  -- The checks of `cancelReplace`, in order.
  unfoldable pub replace_reason : ℕ → Order → OrderManager M → RejectReason
  unfolding contains remove would_cross validate_new_order
  replace_reason i o m =
      let reason = validate_new_order o (remove i m.all_known_order_ids) in
      if not (contains i m.active_order_ids)
      then order_not_resting
      else if not (o.id == i)
      then invalid_replace
      else if is_immediate o
      then invalid_replace
      else if not (is_accept reason)
      then reason
      else if would_cross o m
      then replace_would_cross
      else accept

  unfoldable pub cancel_replace :
      ℕ → Order → OrderManager M → Option (OrderManager M × AcceptResult)
  unfolding replace_reason rebuild_level requeue
  cancel_replace i o m =
      let o' = record o { status = new } in
      elim (is_accept (replace_reason i o m)) [
        | false ↦ some (m, rejecting (replace_reason i o m))
        | true ↦ elim (lookup i m.orders) [
          | none ↦ none
          | some existing ↦ elim ((o.price == existing.price) && leb o.quantity existing.quantity) [
            | true ↦ and_accept (rebuild_level o' m)
            | false ↦ and_accept (requeue o' m)
          ]
        ]
      ]

module _ {M : Type 0} where
  unfoldable pub find : ℕ → OrderManager M → Option Order
  unfolding lookup
  find i m = lookup i m.orders

  unfoldable pub status_of : ℕ → OrderManager M → Option OrderStatus
  unfolding lookup
  status_of i m = elim (lookup i m.orders) [ none ↦ none | some o ↦ some o.status ]
