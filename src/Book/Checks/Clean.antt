-- ===== src/Book/Checks/Clean.antt =====
-- `checkInvariants` finds nothing to report on a book that the matcher can reach.
use titan_engine.Prelude.{
  ℕ, ◌+◌, ◌<◌, ◌≡◌, refl, sym, subst, true, false, List, [], ◌∷◌, ◌++◌, some, ltb, leb, ◌==◌,
  length, All, All-map, arith, List-cases, inl, inr, nat_eq, length-append,
}
use titan_engine.Prelude.Assoc.{lookup}
use titan_engine.Core.{buy, sell, Order, Trade}
use titan_engine.Book.Spec.Safety.{IsBook, empty-IsBook}
use titan_engine.Book.Spec.Sweep.{IsUncrossed}
use titan_engine.Book.Ladder.{Location, count_id, IsLadder, Stands}
use titan_engine.Book.Ladder.Queue.{count_id-append}
use titan_engine.Book.Ladder.Index.{total_by_side}
use titan_engine.Book.Reference.Refines.{resting_count-length, empty-IsValid}
use titan_engine.Book.Agreement.{
  Call, run, AreFresh, run_reference, run_reference-refines, run-IsBook,
}
use titan_engine.Book.Reference.{
  OrderList, PriceLevels, Matcher, levels, resting_count, best_bid, best_ask, empty_matcher,
}
use titan_engine.Book.Reference.Table.{orders, node_at, queue, queues, IsValid}
use titan_engine.Book.Checks.Walk.{side_clean}
use titan_engine.Book.Checks.Count.{count_id-node, count_id-level, table-length, entries}
use titan_engine.Book.Checks.{located, check_table, check_crossed, check_invariants}

-- The table: every entry leads to its order.
located-Stands :
    (i : ℕ) (loc : Location) (m : Matcher) (st : Stands orders node_at (levels loc.side m) loc i)
    → located loc m ≡ some st.order
unfolding located
located-Stands i loc m st = rw (located, st.level_found) st.order_found

check_table_clean :
    (table : List (ℕ × Location)) (m : Matcher)
    → All (λ (e : ℕ × Location). Stands orders node_at (levels e.1.side m) e.1 e.0) table
    → check_table table m ≡ []
unfolding check_table
check_table_clean [] m a = refl
check_table_clean ((i, loc) ∷ table) m a =
    let st = a.0 in
    let same : (st.order.id == i) ≡ true = ground (arith, st.same_id) in
    rw (located-Stands i loc m st, same, check_table_clean table m a.1) refl

abbrev IsApart : PriceLevels → PriceLevels → Type 0
IsApart ls ks = All (λ (x : Order). IsUncrossed buy x.price (queue ks)) (queue ls)

apart-best :
    (p : ℕ) (c : OrderList) (ls : PriceLevels) (q : ℕ) (d : OrderList) (ks : PriceLevels)
    → IsLadder orders node_at buy ((p, c) ∷ ls)
    → IsLadder orders node_at sell ((q, d) ∷ ks)
    → IsApart ((p, c) ∷ ls) ((q, d) ∷ ks)
    → ltb p q ≡ true
apart-best p [] ls q d ks l k a = absurd (l.0 refl)
apart-best p (n ∷ ns) ls q [] ks l k a = absurd (k.0 refl)
apart-best p ((h, o) ∷ ns) ls q ((i, r) ∷ rs) ks l k a =
    let far : leb r.price o.price ≡ false = a.0.0 in ground (arith, far, l.1.0.0, k.1.0.0)

count_id-Stands :
    (i : ℕ) (loc : Location) (m : Matcher)
    → Stands orders node_at (levels loc.side m) loc i
    → 0 < count_id i (queue (levels loc.side m))
count_id-Stands i loc m st = omega (
  arith,
  subst (λ j. 0 < count_id j (orders st.level)) st.same_id
      (count_id-node st.level loc.slot st.order st.order_found),
  count_id-level i loc.price (levels loc.side m) st.level st.level_found,
)

check_crossed_clean : (m : Matcher) → IsValid m → IsBook (queues m) → check_crossed m ≡ []
unfolding check_crossed best_bid best_ask
check_crossed_clean m v b = elim (List-cases m.bids) [
  | inl e ↦ rw (check_crossed, e) refl
  | inr ((p, c), ls, e) ↦ elim (List-cases m.asks) [
    | inl f ↦ rw (check_crossed, e, f) refl
    | inr ((q, d), ks, f) ↦
        let far : ltb p q ≡ true =
          apart-best p c ls q d ks (subst (IsLadder orders node_at buy) e (v.indexed.ladder buy))
            (subst (IsLadder orders node_at sell) f (v.indexed.ladder sell))
            (subst (λ x. IsApart x ((q, d) ∷ ks)) e (subst (IsApart m.bids) f b.apart)) in
        let bid : best_bid m ≡ p = rw (best_bid, e) refl in
        let ask : best_ask m ≡ q = rw (best_ask, f) refl in
        rw (check_crossed, e, f) (rw (bid, ask, far) refl)
  ]
]

-- `checkInvariants` reports nothing on a valid matcher whose queues are a book.
pub check_invariants_clean : (m : Matcher) → IsValid m → IsBook (queues m) → check_invariants m ≡ []
unfolding check_invariants
check_invariants_clean m v b =
    let at_place : (i : ℕ) (loc : Location)
        → lookup i m.order_table ≡ some loc
        → count_id i (queue m.bids ++ queue m.asks) ≡ 1 =
      λ i loc e. omega (
        arith,
        count_id-Stands i loc m (v.indexed.sound i loc e),
        v.indexed.unique i,
        total_by_side (λ s. count_id i (queue (levels s m))) loc.side,
        count_id-append i (queue m.bids) (queue m.asks),
      ) in
    let size : length m.order_table ≡ length (queue m.bids ++ queue m.asks) =
      table-length m.order_table (queue m.bids ++ queue m.asks) v.keyed
        (λ i e.
          omega (arith, v.indexed.complete i e, count_id-append i (queue m.bids) (queue m.asks)))
        at_place in
    let walked : (resting_count m.bids + resting_count m.asks == length m.order_table) ≡ true =
      ground (
        arith,
        size,
        length-append (queue m.bids) (queue m.asks),
        resting_count-length m.bids,
        resting_count-length m.asks,
      ) in
    rw
      (
        side_clean buy m.bids (v.indexed.ladder buy) (b.positive buy),
        side_clean sell m.asks (v.indexed.ladder sell) (b.positive sell),
        walked,
        check_table_clean m.order_table m (
            All-map _ _ m.order_table (λ (e : ℕ × Location) h. v.indexed.sound e.0 e.1 h)
              (entries m.order_table v.keyed)),
        check_crossed_clean m v b,
      )
      refl

-- From the empty `ReferenceMatcher`, every list of match and cancel calls ends in a matcher on
-- which `checkInvariants` reports nothing, if no call submits an id that rests at that time.
pub run_reference-clean :
    (cs : List Call)
    → AreFresh cs (queues empty_matcher)
    → (m : Matcher) × (ts : List Trade) × (run_reference cs empty_matcher ≡ some (m, ts))
      × (check_invariants m ≡ [])
run_reference-clean cs f =
    let q = queues empty_matcher in
    let (m, r, v, e) = run_reference-refines cs empty_matcher q empty-IsValid refl f in
    (
      m,
      (run cs q).1,
      r,
      check_invariants_clean m v (subst IsBook (sym e) (run-IsBook cs q empty-IsBook)),
    )
