-- ===== src/Exchange/OrderManager/Replace.antt =====
-- When `OrderManager::cancelReplace` refuses.
use titan_engine.Prelude.{
  OnSome, ℕ, ◌<◌, ◌≤◌, ◌≡◌, ◌≢◌, ◌↔◌, refl, subst, true, false, List, [], ◌∷◌, Option, none, some,
  All, All-map, ltb, leb, ◌==◌, ==_iff, ◌&&◌, arith, Bool-cases, Option-cases, inl, inr, nat_eq,
}
use titan_engine.Prelude.OrderedMap.{IsOrdered}
use titan_engine.Prelude.Assoc.{lookup, contains, remove, contains-remove}
use titan_engine.Core.{
  buy, sell, opposite, crosses, Order, limit, gtc, RejectReason, accept, zero_quantity, zero_price,
  duplicate_order_id, unknown_order, order_not_resting, invalid_replace, invalid_order_type,
  replace_would_cross, unknown_symbol, new,
}
use titan_engine.Exchange.Validator.{validate_new_order}
use titan_engine.Exchange.OrderManager.{
  IMatcher, OrderManager, AcceptResult, rejecting, is_accept, Shadow, shadow, last, best_level,
  would_cross, replace_reason, and_accept, cancel_replace, rebuild_level, requeue,
}

-- No level of the shadow has a price that the order crosses.
abbrev pub IsClear : Order → Shadow → Type 0
IsClear o ls = All (λ (l : ℕ × List ℕ). crosses o.side o.price l.0 ≡ false) ls

-- In a shadow in the order of its prices, the last level is the highest.
last-highest :
    (ls : Shadow) (l : ℕ × List ℕ)
    → IsOrdered ltb ls
    → last ls ≡ some l
    → All (λ (x : ℕ × List ℕ). x.0 ≤ l.0) ls
unfolding last
last-highest [] l h e = cc
last-highest ((p, is) ∷ []) l h e = let same : p ≡ l.0 = cc in (omega (arith, same), tt)
last-highest ((p, is) ∷ x ∷ ls) l h e =
    let rest = last-highest (x ∷ ls) l h.1 e in (ground (arith, h.0.0, rest.0), rest)

last_absent : (ls : Shadow) → last ls ≡ none → ls ≡ []
unfolding last
last_absent [] e = refl
last_absent (x ∷ []) e = cc
last_absent (x ∷ y ∷ ls) e = let none_left : y ∷ ls ≡ [] = last_absent (y ∷ ls) e in cc

last-All :
    (P : ℕ × List ℕ → Type 0) (ls : Shadow) (l : ℕ × List ℕ) → last ls ≡ some l → All P ls → P l
unfolding last
last-All P [] l e a = cc
last-All P (x ∷ []) l e a = let same : x ≡ l = cc in subst P same a.0
last-All P (x ∷ y ∷ ls) l e a = last-All P (y ∷ ls) l e a.1

asks_iff :
    (price : ℕ) (ls : Shadow)
    → IsOrdered ltb ls
    → (elim (best_level sell ls) [ none ↦ false | some l ↦ leb l.0 price ] ≡ false)
      ↔ All (λ (l : ℕ × List ℕ). crosses buy price l.0 ≡ false) ls
asks_iff price [] h = (λ e. tt, λ a. refl)
asks_iff price ((p, is) ∷ ls) h = (
  λ e. (e, All-map _ _ ls (λ (x : ℕ × List ℕ) (k : ltb p x.0 ≡ true). ground (arith, k, e)) h.0),
  λ a. a.0,
)

bids_iff :
    (price : ℕ) (ls : Shadow)
    → IsOrdered ltb ls
    → (elim (best_level buy ls) [ none ↦ false | some l ↦ leb price l.0 ] ≡ false)
      ↔ All (λ (l : ℕ × List ℕ). crosses sell price l.0 ≡ false) ls
bids_iff price ls h = elim (Option-cases (last ls)) [
  | inl e ↦ rw (e, last_absent ls e) (λ _. tt, λ _. refl)
  | inr (l, e) ↦ rw e (
    λ k.
        All-map _ _ ls (λ (x : ℕ × List ℕ) (j : x.0 ≤ l.0). ground (arith, j, k))
          (last-highest ls l h e),
    λ a. last-All (λ x. crosses sell price x.0 ≡ false) ls l e a,
  )
]

module _ {M : Type 0} (book : IMatcher M) where
  would_cross_iff :
      (o : Order) (m : OrderManager M)
      → IsOrdered ltb m.resting_bids_at
      → IsOrdered ltb m.resting_asks_at
      → (would_cross o m ≡ false) ↔ IsClear o (shadow (opposite o.side) m)
  unfolding would_cross
  would_cross_iff o m b a =
      elim o.side
        as (λ s.
          (would_cross (record o { side = s }) m ≡ false)
          ↔ IsClear (record o { side = s }) (shadow (opposite s) m)) [
            | buy ↦ asks_iff o.price m.resting_asks_at a
            | sell ↦ bids_iff o.price m.resting_bids_at b
          ]

  -- What a replacement has to be.
  pub record IsAllowed (i : ℕ) (o : Order) (m : OrderManager M) : Type 0 where
    pub active : contains i m.active_order_ids ≡ true
    pub same_id : o.id ≡ i
    pub type : o.type ≡ limit
    pub tif : o.tif ≡ gtc
    pub quantity : 0 < o.quantity
    pub price : 0 < o.price
    pub clear : IsClear o (shadow (opposite o.side) m)

  validate-IsAllowed :
      (i : ℕ) (o : Order) (m : OrderManager M)
      → IsAllowed i o m
      → validate_new_order o (remove i m.all_known_order_ids) ≡ accept
  unfolding validate_new_order
  validate-IsAllowed i o m h =
      let q : (o.quantity == 0) ≡ false = ground (arith, h.quantity) in
      let p : (o.price == 0) ≡ false = ground (arith, h.price) in
      let own : (i == o.id) ≡ true = ground (arith, h.same_id) in
      rw (q, p, h.type, contains-remove i o.id m.all_known_order_ids, own) refl

  replace_reason-IsAllowed :
      (i : ℕ) (o : Order) (m : OrderManager M)
      → IsOrdered ltb m.resting_bids_at
      → IsOrdered ltb m.resting_asks_at
      → IsAllowed i o m
      → replace_reason book i o m ≡ accept
  unfolding replace_reason
  replace_reason-IsAllowed i o m b a h =
      let id : (o.id == i) ≡ true = (==_iff o.id i).1 h.same_id in
      let valid = validate-IsAllowed i o m h in
      let apart = (would_cross_iff o m b a).1 h.clear in
      rw (replace_reason, valid, apart, h.active, id, h.type, h.tif) refl

  IsAllowed-replace_reason :
      (i : ℕ) (o : Order) (m : OrderManager M)
      → IsOrdered ltb m.resting_bids_at
      → IsOrdered ltb m.resting_asks_at
      → replace_reason book i o m ≡ accept
      → IsAllowed i o m
  unfolding replace_reason validate_new_order
  IsAllowed-replace_reason i o m b a h = record {
    active = ground (arith, h);
    same_id = ground (arith, h);
    type = ground (arith, h);
    tif = ground (arith, h);
    quantity = ground (arith, h);
    price = ground (arith, h);
    clear = (would_cross_iff o m b a).0 (ground (arith, h));
  }

  is_accept_iff : (r : RejectReason) → (is_accept r ≡ true) ↔ (r ≡ accept)
  is_accept_iff accept = (λ h. refl, λ h. refl)
  is_accept_iff zero_quantity = (λ h. cc, λ h. cc)
  is_accept_iff zero_price = (λ h. cc, λ h. cc)
  is_accept_iff duplicate_order_id = (λ h. cc, λ h. cc)
  is_accept_iff unknown_order = (λ h. cc, λ h. cc)
  is_accept_iff order_not_resting = (λ h. cc, λ h. cc)
  is_accept_iff invalid_replace = (λ h. cc, λ h. cc)
  is_accept_iff invalid_order_type = (λ h. cc, λ h. cc)
  is_accept_iff replace_would_cross = (λ h. cc, λ h. cc)
  is_accept_iff unknown_symbol = (λ h. cc, λ h. cc)

  and_accept-accepts :
      (x : Option (OrderManager M))
      → OnSome (λ (y : OrderManager M × AcceptResult). y.1.accepted ≡ true) (and_accept book x)
  and_accept-accepts none = tt
  and_accept-accepts (some y) = refl

  cancel_replace-accepts :
      (i : ℕ) (o : Order) (m : OrderManager M)
      → is_accept (replace_reason book i o m) ≡ true
      → OnSome
          (λ (y : OrderManager M × AcceptResult). y.1.accepted ≡ true)
          (cancel_replace book i o m)
  unfolding cancel_replace
  cancel_replace-accepts i o m e = elim (Option-cases (lookup i m.orders)) [
    | inl n ↦ rw (OnSome, cancel_replace, e, n) tt
    | inr (x, n) ↦ elim (Bool-cases ((o.price == x.price) && leb o.quantity x.quantity)) [
      | inl k ↦
          rw (OnSome, cancel_replace, e, n, k)
            (and_accept-accepts (rebuild_level book (record o { status = new }) m))
      | inr k ↦
          rw (OnSome, cancel_replace, e, n, k)
            (and_accept-accepts (requeue book (record o { status = new }) m))
    ]
  ]

  -- A call that gives a reason and changes nothing.
  abbrev pub Refuses : ℕ → Order → OrderManager M → Type 0
  Refuses i o m =
      (reason : RejectReason) × (reason ≢ accept)
      × (cancel_replace book i o m ≡ some (m, rejecting reason))

  -- Over any matcher, on a manager whose shadow levels are in the order of their prices,
  -- `OrderManager::cancelReplace` gives a reason and leaves the manager as it was exactly when it
  -- is not so that the id is active, the new order has that id, is a limit order that stays until
  -- cancelled, has a quantity and a price above 0, and crosses the price of no shadow level of
  -- the other side.
  pub cancel_replace-Refuses :
      (i : ℕ) (o : Order) (m : OrderManager M)
      → IsOrdered ltb m.resting_bids_at
      → IsOrdered ltb m.resting_asks_at
      → Refuses i o m ↔ (¬ IsAllowed i o m)
  unfolding cancel_replace
  cancel_replace-Refuses i o m b a =
      let r = replace_reason book i o m in
      (
        λ x h.
            let ok : is_accept r ≡ true =
              (is_accept_iff r).1 (replace_reason-IsAllowed i o m b a h) in
            let off : false ≡ true =
              subst (OnSome (λ (y : OrderManager M × AcceptResult). y.1.accepted ≡ true)) x.2
                (cancel_replace-accepts i o m ok) in
            cc,
        λ h. elim (Bool-cases (is_accept r)) [
          | inl ok ↦ absurd (h (IsAllowed-replace_reason i o m b a ((is_accept_iff r).0 ok)))
          | inr off ↦ (
            r,
            λ e. let ok : is_accept r ≡ true = (is_accept_iff r).1 e in cc,
            rw (cancel_replace, off) refl,
          )
        ],
      )
