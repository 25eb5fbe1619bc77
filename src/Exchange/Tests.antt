-- ===== src/Exchange/Tests.antt =====
-- The order manager in front of the reference matcher, on concrete orders.
use titan_engine.Prelude.{All, ◌↔◌, ℕ, ◌∷◌, ◌≡◌, true, refl, [], ◌++◌, Option, none, some, arith}
use titan_engine.Prelude.Assoc
use titan_engine.Core.{Symbol, sell, limit, gtc, new, Order, duplicate_order_id}
use titan_engine.Book.Reference
use titan_engine.Prelude.OrderedMap
use titan_engine.Book.Spec
use titan_engine.Book.Spec.Safety.{IsBook, empty-IsBook, match_order-IsBook}
use titan_engine.Exchange.Checks.{check_order_manager_invariants}
use titan_engine.Exchange.Checks.Sound.{IsActive, IsMirrored, check_order_manager_invariants_iff}
use titan_engine.Exchange.Validator
use titan_engine.Exchange.OrderManager
use titan_engine.Exchange.OrderManager.{
  IMatcher, OrderManager, AcceptResult, MatchResult, accepting, rejecting, replace_reason,
}
use titan_engine.Exchange.Registry
use titan_engine.Exchange.Registry.{MatcherBackend, InstrumentRegistry}
use titan_engine.Exchange.Pipeline
use titan_engine.Exchange.Pipeline.{
  PipelineEventKind, match_kind, cancel_kind, shutdown_kind, PipelineEvent, StagedProcessor,
}
use titan_engine.Queue.{write, advance}
use titan_engine.Queue.Machine.{
  Machine, rests, waits, Steps, initial, load_tail, finds_room, move_in, store_tail, load_head,
  finds_item, move_out, store_head, no_step, one_more,
}
use titan_engine.Exchange.Pipeline.Produce.{
  Request, enqueue_match, stop, event_of, call_directly, pipeline-calls, enqueue-Ends,
}
use titan_engine.Exchange.OrderManager.Rejects.{match_order-once}
use titan_engine.Exchange.OrderManager.Replace.{Refuses, IsAllowed, cancel_replace-Refuses}

abbrev reference_book : IMatcher Reference.Matcher
reference_book = record {
  add_order = Reference.add_order;
  cancel_order = Reference.cancel_order;
  match_order = Reference.match_order;
}

abbrev empty_manager : OrderManager Reference.Matcher
empty_manager = record {
  matcher = Reference.empty_matcher;
  resting_bids_at = [];
  resting_asks_at = [];
  all_known_order_ids = [];
  active_order_ids = [];
  orders = [];
}

abbrev ask : Order
ask = record {
  id = 7;
  side = sell;
  price = 100;
  quantity = 10;
  account_id = 1;
  type = limit;
  tif = gtc;
  status = new;
}

abbrev outcome : Option (OrderManager Reference.Matcher × MatchResult)
outcome = OrderManager.match_order reference_book ask empty_manager

abbrev taken : OrderManager Reference.Matcher × MatchResult
taken = elim outcome [
  | none ↦ (empty_manager, record { trades = []; accept_result = accepting })
  | some x ↦ x
]

taken-runs : OrderManager.match_order reference_book ask empty_manager ≡ some (taken.0, taken.1)
unfolding OrderManager.match_order OrderManager.match_with_stp OrderManager.stp_loop
    OrderManager.finish_match OrderManager.rest_remainder OrderManager.would_cross
    OrderManager.track_resting OrderManager.last Validator.validate_new_order Assoc.contains
    Reference.add_order Reference.cross Reference.cross_loop Reference.keeps_crossing
    Reference.rest_order
taken-runs = refl

taken-accepted : taken.1.accept_result.accepted ≡ true
unfolding OrderManager.match_order OrderManager.match_with_stp OrderManager.stp_loop
    OrderManager.finish_match OrderManager.rest_remainder OrderManager.would_cross
    OrderManager.track_resting OrderManager.last Validator.validate_new_order Assoc.contains
    Reference.add_order Reference.cross Reference.cross_loop Reference.keeps_crossing
    Reference.rest_order
taken-accepted = refl

match_order-once_example :
    OrderManager.match_order reference_book ask taken.0
    ≡ some (taken.0, record { trades = []; accept_result = rejecting duplicate_order_id })
match_order-once_example =
    match_order-once reference_book ask ask empty_manager taken.0 taken.1 taken-runs taken-accepted
      refl (omega arith) refl

-- The ask rests; a replacement of it below a bid is refused.
abbrev two_sided : OrderManager Reference.Matcher
two_sided = record empty_manager {
  resting_bids_at = (90, 5 ∷ []) ∷ (95, 6 ∷ []) ∷ [];
  resting_asks_at = (100, 7 ∷ []) ∷ [];
  all_known_order_ids = 5 ∷ 6 ∷ 7 ∷ [];
  active_order_ids = 5 ∷ 6 ∷ 7 ∷ [];
}

abbrev cheaper : Order
cheaper = record ask { price = 92 }

cancel_replace-Refuses_example :
    Refuses reference_book 7 cheaper two_sided ↔ (¬ IsAllowed reference_book 7 cheaper two_sided)
cancel_replace-Refuses_example =
    cancel_replace-Refuses reference_book 7 cheaper two_sided ((refl, tt), (tt, tt)) (tt, tt)

abbrev reference_backend : MatcherBackend Reference.Matcher
reference_backend = record {
  make_matcher = Reference.empty_matcher;
  calls = reference_book;
  bid_depth = Reference.bid_depth;
  ask_depth = Reference.ask_depth;
}

abbrev empty_registry : InstrumentRegistry Reference.Matcher
empty_registry = record { instruments = []; event_log = []; next_sequence_number = 0 }

abbrev symbol : Symbol
symbol = 65 ∷ 66 ∷ []

abbrev listed : InstrumentRegistry Reference.Matcher
listed = Registry.create_instrument reference_backend symbol empty_registry

abbrev processor : StagedProcessor Reference.Matcher
processor = record { registry = listed; applied_sequences = [] }

-- One request that went through a queue of four slots.
abbrev request : Request
request = enqueue_match symbol ask 5

abbrev slots : ℕ → PipelineEvent
slots i = event_of stop

abbrev passed_on : Machine PipelineEvent
passed_on = record {
  queue = record {
    buffer = write 0 (event_of request) slots;
    head = advance 4 0;
    tail = advance 4 0;
  };
  producer = rests;
  consumer = waits;
  sent = event_of request ∷ [];
  received = event_of request ∷ [];
  seen_heads = 0;
  seen_tails = 1;
}

passed_on-Steps : Steps 4 (initial slots) passed_on
unfolding advance
passed_on-Steps =
    one_more
      (one_more
        (one_more
          (one_more
            (one_more
              (one_more
                (one_more (one_more no_step (load_tail (event_of request) refl))
                  (finds_room (event_of request) 0 0 refl (omega arith) (omega arith) refl))
                (move_in (event_of request) 0 (advance 4 0) refl))
              (store_tail (event_of request) 0 (advance 4 0) refl))
            (load_head refl))
          (finds_item 0 1 refl (omega arith) (omega arith) refl))
        (move_out 0 refl))
      (store_head 0 (event_of request) refl)

pipeline-calls_example :
    Pipeline.consume reference_backend passed_on.received processor
    ≡ call_directly reference_backend (request ∷ []) processor
pipeline-calls_example =
    pipeline-calls 4 slots passed_on reference_backend (request ∷ []) processor (omega arith)
      passed_on-Steps refl

enqueue-Ends_example :
    (k : Machine PipelineEvent) × Steps 4 passed_on k
    × (k.sent ≡ passed_on.sent ++ event_of stop ∷ [])
    × (k.producer ≡ rests)
enqueue-Ends_example = enqueue-Ends 4 slots passed_on stop (omega arith) passed_on-Steps refl

abbrev rested : OrderManager Reference.Matcher
rested = record taken.0 { matcher = Reference.rest_order ask Reference.empty_matcher }

rested-IsValid : Reference.Table.IsValid rested.matcher
rested-IsValid =
    (Reference.Rest.rest_order-IsValid ask Reference.empty_matcher Reference.Refines.empty-IsValid
      refl).0

rested-IsBook : IsBook (Reference.Table.queues rested.matcher)
unfolding Reference.rest_order Spec.match_order Spec.match_on Spec.sweep Spec.enqueue
    OrderedMap.upsert OrderedMap.find?
rested-IsBook = match_order-IsBook ask (record { bids = []; asks = [] }) empty-IsBook

check_order_manager_invariants_iff_example : (check_order_manager_invariants rested ≡ []) ↔ (
    All (IsActive rested) rested.active_order_ids
    × All (IsMirrored rested.matcher.bids) rested.resting_bids_at
    × All (IsMirrored rested.matcher.asks) rested.resting_asks_at)
check_order_manager_invariants_iff_example =
    check_order_manager_invariants_iff rested rested-IsValid rested-IsBook
