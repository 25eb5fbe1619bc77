-- ===== src/Exchange/Checks/Sound.antt =====
-- What it means that `checkOrderManagerInvariants` reports nothing.
use titan_engine.Prelude.{
  ◌↔◌, ◌⊎◌, inl, inr, sym, ap, ◌∙◌, Option, some, none, ◌==◌, ==_iff, if◌then◌else◌, Bool-cases,
  All-map, append-nil, arith, ℕ, ◌≡◌, refl, Bool, true, false, List, [], ◌∷◌, ◌++◌, All, nat_eq,
  bytes_key,
}
use titan_engine.Prelude.Assoc.{lookup}
use titan_engine.Prelude.OrderedMap
use titan_engine.Core.{
  Side, buy, sell, before, Order, OrderStatus, new, partially_filled, filled, cancelled, rejected,
}
use titan_engine.Book.Ladder.{Location, IsLadder}
use titan_engine.Book.Ladder.Queue.{flatten-worse}
use titan_engine.Book.Reference.{OrderList}
use titan_engine.Book.Reference.Table.{IsValid, orders, node_at, queue, queues}
use titan_engine.Book.Spec.Safety.{IsBook}
use titan_engine.Book.Checks.Clean.{check_invariants_clean}
use titan_engine.Book.Reference.{PriceLevels}
use titan_engine.Book.Checks.{InvariantViolation, Violations, unless}
use titan_engine.Exchange.OrderManager
use titan_engine.Exchange.OrderManager.{OrderManager, Shadow}
use titan_engine.Exchange.Checks.{
  Manager, is_resting, is_some, ids, check_active, real_ids, check_shadow,
  check_order_manager_invariants,
}

append-nothing : (xs ys : Violations) → xs ++ ys ≡ [] → (xs ≡ []) × (ys ≡ [])
append-nothing [] ys h = (refl, h)
append-nothing (x ∷ xs) ys h = cc

nothing-append : (xs ys : Violations) → xs ≡ [] → ys ≡ [] → xs ++ ys ≡ []
nothing-append [] ys h k = k
nothing-append (x ∷ xs) ys h k = cc

unless_nothing : (b : Bool) (v : InvariantViolation) → unless b v ≡ [] → b ≡ true
unless_nothing true v h = refl
unless_nothing false v h = cc

nothing_unless : (b : Bool) (v : InvariantViolation) → b ≡ true → unless b v ≡ []
nothing_unless true v h = refl
nothing_unless false v h = cc

-- An active id has the status of an order that rests, and an entry in the order table.
abbrev pub IsActive : Manager → ℕ → Type 0
IsActive m i =
    ((OrderManager.status_of i m ≡ some new) ⊎ (OrderManager.status_of i m ≡ some partially_filled))
    × (loc : Location) × (lookup i m.matcher.order_table ≡ some loc)

-- The ids of the orders of a price.
abbrev pub ids_at : ℕ → List Order → List ℕ
ids_at p [] = []
ids_at p (o ∷ os) = let rest = ids_at p os in if o.price == p then o.id ∷ rest else rest

-- The shadow of a level has the ids of the orders of its price, in the order of the queue.
abbrev pub IsMirrored : PriceLevels → ℕ × List ℕ → Type 0
IsMirrored real e = ids_at e.0 (queue real) ≡ e.1

is_resting_iff :
    (x : Option OrderStatus)
    → (is_resting x ≡ true) ↔ ((x ≡ some new) ⊎ (x ≡ some partially_filled))
is_resting_iff none = (λ h. cc, λ a. elim a [ inl e ↦ cc | inr e ↦ cc ])
is_resting_iff (some new) = (λ h. inl refl, λ a. refl)
is_resting_iff (some partially_filled) = (λ h. inr refl, λ a. refl)
is_resting_iff (some filled) = (λ h. cc, λ a. elim a [ inl e ↦ cc | inr e ↦ cc ])
is_resting_iff (some cancelled) = (λ h. cc, λ a. elim a [ inl e ↦ cc | inr e ↦ cc ])
is_resting_iff (some rejected) = (λ h. cc, λ a. elim a [ inl e ↦ cc | inr e ↦ cc ])

is_some_iff : {A : Type 0} (x : Option A) → (is_some x ≡ true) ↔ ((a : A) × (x ≡ some a))
is_some_iff none = (λ h. cc, λ a. cc)
is_some_iff (some a) = (λ h. (a, refl), λ x. refl)

IsActive-iff : (is : List ℕ) (m : Manager) → (check_active is m ≡ []) ↔ All (IsActive m) is
unfolding check_active
IsActive-iff [] m = (λ h. tt, λ a. refl)
IsActive-iff (i ∷ is) m =
    let rest = IsActive-iff is m in
    let status = is_resting_iff (OrderManager.status_of i m) in
    let entry = is_some_iff (lookup i m.matcher.order_table) in
    (
      λ h.
          let (a, b) = append-nothing _ _ h in
          let (c, d) = append-nothing _ _ b in
          let (loc, found) = entry.0 (unless_nothing _ _ c) in
          ((status.0 (unless_nothing _ _ a), loc, found), rest.0 d),
      λ a.
          nothing-append _ _ (nothing_unless _ _ (status.1 a.0.0))
            (nothing-append _ _ (nothing_unless _ _ (entry.1 (a.0.1, a.0.2))) (rest.1 a.1)),
    )

ids_at-append : (p : ℕ) (xs ys : List Order) → ids_at p (xs ++ ys) ≡ ids_at p xs ++ ids_at p ys
ids_at-append p [] ys = refl
ids_at-append p (x ∷ xs) ys = elim (Bool-cases (x.price == p)) [
  | inl e ↦ rw e (ap (λ is. x.id ∷ is) (ids_at-append p xs ys))
  | inr e ↦ rw e (ids_at-append p xs ys)
]

ids_at-level :
    (s : Side) (p : ℕ) (c : OrderList)
    → All (λ (o : Order). (o.price ≡ p) × (o.side ≡ s)) (orders c)
    → ids_at p (orders c) ≡ ids c
ids_at-level s p [] a = refl
ids_at-level s p ((h, o) ∷ c) a =
    rw ((==_iff o.price p).1 a.0.0) (ap (λ is. o.id ∷ is) (ids_at-level s p c a.1))

ids_at-others :
    (p : ℕ) (xs : List Order) → All (λ (o : Order). (o.price == p) ≡ false) xs → ids_at p xs ≡ []
ids_at-others p [] a = refl
ids_at-others p (x ∷ xs) a = rw a.0 (ids_at-others p xs a.1)

before-apart : (s : Side) (p q : ℕ) → before s p q ≡ true → (q == p) ≡ false
before-apart buy p q h = ground arith
before-apart sell p q h = ground arith

-- On a sorted ladder, the level of a price has all orders of it.
real_ids-ladder :
    (s : Side) (p : ℕ) (ls : PriceLevels)
    → IsLadder orders node_at s ls
    → real_ids p ls ≡ ids_at p (queue ls)
unfolding real_ids OrderedMap.find?
real_ids-ladder s p [] l = refl
real_ids-ladder s p ((q, c) ∷ ls) l = elim (Bool-cases (q == p)) [
  | inl same ↦
      let e : p ≡ q = sym ((==_iff q p).0 same) in
      let worse =
        All-map _ _ (queue ls) (λ (o : Order) h. rw e (before-apart s q o.price h))
          (flatten-worse orders node_at s q ls l.2 l.3) in
      rw (real_ids, same, ids_at-append p (orders c) (queue ls), ids_at-others p (queue ls) worse)
        (sym (append-nil _ ∙ rw e (ids_at-level s q c l.1)))
  | inr other ↦
      let here =
        All-map _ _ (orders c) (λ (o : Order) (h : (o.price ≡ q) × (o.side ≡ s)). rw h.0 other)
          l.1 in
      rw (real_ids, other, ids_at-append p (orders c) (queue ls), ids_at-others p (orders c) here)
        (real_ids-ladder s p ls l.3)
]

IsMirrored-iff :
    (s t : Side) (shadow : Shadow) (real : PriceLevels)
    → IsLadder orders node_at t real
    → (check_shadow s shadow real ≡ []) ↔ All (IsMirrored real) shadow
unfolding check_shadow
IsMirrored-iff s t [] real l = (λ h. tt, λ a. refl)
IsMirrored-iff s t ((price, is) ∷ shadow) real l =
    let rest = IsMirrored-iff s t shadow real l in
    let same = real_ids-ladder t price real l in
    let test = bytes_key.beq_iff (real_ids price real) is in
    (
      λ h.
          let (a, b) = append-nothing _ _ h in (sym same ∙ test.0 (unless_nothing _ _ a), rest.0 b),
      λ a. nothing-append _ _ (nothing_unless _ _ (test.1 (same ∙ a.0))) (rest.1 a.1),
    )

-- On a manager whose `ReferenceMatcher` is valid, with queues that are sorted, positive, on their
-- side and uncrossed, `checkOrderManagerInvariants` reports nothing exactly when each active id
-- has the status `New` or `PartiallyFilled` and an entry in the order table, and each shadow
-- level has the ids of the orders of its price in the queue of its side, in order.
pub check_order_manager_invariants_iff :
    (m : Manager)
    → IsValid m.matcher
    → IsBook (queues m.matcher)
    → (check_order_manager_invariants m ≡ []) ↔ (
        All (IsActive m) m.active_order_ids
        × All (IsMirrored m.matcher.bids) m.resting_bids_at
        × All (IsMirrored m.matcher.asks) m.resting_asks_at)
unfolding check_order_manager_invariants
check_order_manager_invariants_iff m v b =
    let clean = check_invariants_clean m.matcher v b in
    let active = IsActive-iff m.active_order_ids m in
    let bids = IsMirrored-iff buy buy m.resting_bids_at m.matcher.bids (v.indexed.ladder buy) in
    let asks = IsMirrored-iff sell sell m.resting_asks_at m.matcher.asks (v.indexed.ladder sell) in
    (
      λ h.
          let (a, b) = append-nothing _ _ h in
          let (c, d) = append-nothing _ _ b in
          let (e, f) = append-nothing _ _ d in (active.0 c, bids.0 e, asks.0 f),
      λ h.
          nothing-append _ _ clean
            (nothing-append _ _ (active.1 h.0) (nothing-append _ _ (bids.1 h.1) (asks.1 h.2))),
    )
