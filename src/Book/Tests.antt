-- ===== src/Book/Tests.antt =====
-- The matchers on concrete orders.
use titan_engine.Prelude.{ℕ, ◌+◌, ◌≡◌, refl, List, [], ◌∷◌, some, All, arith}
use titan_engine.Prelude.OrderedMap
use titan_engine.Core.{Side, buy, sell, limit, gtc, new, Order, Trade}
use titan_engine.Book.Spec
use titan_engine.Book.Spec.{Queues, side_of}
use titan_engine.Book.Spec.Sweep.{traded, IsFairTrade, IsPositive}
use titan_engine.Book.Spec.Safety.{IsBook, empty-IsBook}
use titan_engine.Book.Ladder.{count_id}
use titan_engine.Book.Reference
use titan_engine.Book.Optimized
use titan_engine.Book.Agreement.{
  Call, match, cancel, run, AreFresh, run_reference, run_optimized, run_agreement,
  run_reference-refines, run_optimized-refines,
}
use titan_engine.Book.Checks.{check_invariants}
use titan_engine.Book.Checks.Clean.{run_reference-clean}
use titan_engine.Book.Guarantees.{
  open_interest, match_order-conserves, match_order-IsFairTrade, run_optimized-IsBook,
}

abbrev order : ℕ → Side → ℕ → ℕ → Order
order i s p n = record {
  id = i;
  side = s;
  price = p;
  quantity = n;
  account_id = 0;
  type = limit;
  tif = gtc;
  status = new;
}

abbrev ask : Order
ask = order 1 sell 100 10

abbrev bid : Order
bid = order 2 buy 101 4

-- Two orders that meet, then the cancel of what is left of the first.
abbrev calls : List Call
calls = match ask ∷ match bid ∷ cancel 1 ∷ []

abbrev empty : Queues
empty = record { bids = []; asks = [] }

calls-AreFresh : AreFresh calls empty
unfolding Spec.match_order Spec.match_on Spec.sweep Spec.enqueue
calls-AreFresh = (refl, (refl, tt))

abbrev reference_ask : Reference.Matcher
reference_ask = Reference.rest_order ask Reference.empty_matcher

abbrev optimized_ask : Optimized.Matcher
optimized_ask = Optimized.rest_order ask Optimized.empty_matcher

reference_ask-IsValid : Reference.Table.IsValid reference_ask
reference_ask-IsValid =
    (Reference.Rest.rest_order-IsValid ask Reference.empty_matcher Reference.Refines.empty-IsValid
      refl).0

optimized_ask-IsValid : Optimized.Table.IsValid optimized_ask
optimized_ask-IsValid =
    (Optimized.Rest.rest_order-IsValid ask Optimized.empty_matcher Optimized.Refines.empty-IsValid
      refl).0

run_reference-clean_example :
    (m : Reference.Matcher) × (ts : List Trade) × (run_reference calls Reference.empty_matcher
      ≡ some (m, ts))
    × (check_invariants m ≡ [])
run_reference-clean_example = run_reference-clean calls calls-AreFresh

run_agreement_example :
    (m' : Reference.Matcher) × (n' : Optimized.Matcher) × (ts : List Trade) × (run_reference calls
        Reference.empty_matcher
      ≡ some (m', ts))
    × (run_optimized calls Optimized.empty_matcher ≡ some (n', ts))
    × (Reference.Table.queues m' ≡ Optimized.Table.queues n')
run_agreement_example =
    run_agreement calls Reference.empty_matcher Optimized.empty_matcher
      Reference.Refines.empty-IsValid Optimized.Refines.empty-IsValid refl calls-AreFresh

run_reference-refines_example :
    (m' : Reference.Matcher) × (run_reference calls Reference.empty_matcher
      ≡ some (m', (run calls empty).1))
    × Reference.Table.IsValid m'
    × (Reference.Table.queues m' ≡ (run calls empty).0)
run_reference-refines_example =
    run_reference-refines calls Reference.empty_matcher empty Reference.Refines.empty-IsValid refl
      calls-AreFresh

run_optimized-refines_example :
    (m' : Optimized.Matcher) × (run_optimized calls Optimized.empty_matcher
      ≡ some (m', (run calls empty).1))
    × Optimized.Table.IsValid m'
    × (Optimized.Table.queues m' ≡ (run calls empty).0)
run_optimized-refines_example =
    run_optimized-refines calls Optimized.empty_matcher empty Optimized.Refines.empty-IsValid refl
      calls-AreFresh

run_optimized-IsBook_example :
    (m' : Optimized.Matcher) × (ts : List Trade) × (run_optimized calls Optimized.empty_matcher
      ≡ some (m', ts))
    × IsBook (Optimized.Table.queues m')
run_optimized-IsBook_example =
    run_optimized-IsBook calls Optimized.empty_matcher Optimized.Refines.empty-IsValid empty-IsBook
      calls-AreFresh

optimized_ask-fresh :
    count_id 2 (Optimized.Table.queues optimized_ask).bids
      + count_id 2 (Optimized.Table.queues optimized_ask).asks
    ≡ 0
unfolding Optimized.rest_order OrderedMap.find? OrderedMap.upsert
optimized_ask-fresh = refl

reference_ask-fresh :
    count_id 2 (Reference.Table.queues reference_ask).bids
      + count_id 2 (Reference.Table.queues reference_ask).asks
    ≡ 0
unfolding Reference.rest_order OrderedMap.find? OrderedMap.upsert
reference_ask-fresh = refl

match_order-refines_example :
    (m' : Optimized.Matcher) × (ts : List Trade) × (Optimized.match_order bid optimized_ask
      ≡ some (m', ts))
    × Optimized.Table.IsValid m'
    × (Optimized.Table.queues m' ≡ (Spec.match_order bid (Optimized.Table.queues optimized_ask)).0)
    × (ts ≡ (Spec.match_order bid (Optimized.Table.queues optimized_ask)).1)
match_order-refines_example =
    Optimized.Refines.match_order-refines bid optimized_ask optimized_ask-IsValid
      optimized_ask-fresh

cancel_order-refines_example :
    Reference.Table.IsValid (Reference.cancel_order 1 reference_ask)
    × (Reference.Table.queues (Reference.cancel_order 1 reference_ask)
        ≡ Spec.cancel_order 1 (Reference.Table.queues reference_ask))
cancel_order-refines_example =
    Reference.Refines.cancel_order-refines 1 reference_ask reference_ask-IsValid

add_order-refines_example :
    (m' : Reference.Matcher) × (Reference.add_order bid reference_ask ≡ some m')
    × Reference.Table.IsValid m'
    × (Reference.Table.queues m' ≡ (Spec.match_order bid (Reference.Table.queues reference_ask)).0)
add_order-refines_example =
    Reference.Refines.add_order-refines bid reference_ask reference_ask-IsValid reference_ask-fresh

match_order-conserves_example :
    (m' : Optimized.Matcher) × (ts : List Trade) × (Optimized.match_order bid optimized_ask
      ≡ some (m', ts))
    × (traded ts + traded ts + open_interest (Optimized.Table.queues m')
        ≡ 4 + open_interest (Optimized.Table.queues optimized_ask))
match_order-conserves_example =
    match_order-conserves bid optimized_ask optimized_ask-IsValid optimized_ask-fresh

reference_ask-IsPositive : IsPositive (Reference.Table.queues reference_ask).asks
unfolding Reference.rest_order OrderedMap.find? OrderedMap.upsert
reference_ask-IsPositive = (omega arith, tt)

match_order-IsFairTrade_example :
    (m' : Reference.Matcher) × (ts : List Trade) × (Reference.match_order bid reference_ask
      ≡ some (m', ts))
    × All (IsFairTrade bid) ts
match_order-IsFairTrade_example =
    match_order-IsFairTrade bid reference_ask reference_ask-IsValid reference_ask-IsPositive
      reference_ask-fresh
