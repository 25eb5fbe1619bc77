-- ===== src/Exchange/Pipeline/Produce.antt =====
-- The producer of src/pipeline/staged_processor.cpp, and the pipeline from end to end: producer,
-- queue (Queue/Machine) and consumer.
use titan_engine.Prelude.{
  ℕ, Option, none, some, take, length, ◌<◌, ◌≡◌, refl, sym, ap, ◌∙◌, List, [], ◌∷◌, ◌++◌, arith,
  map,
}
use titan_engine.Core.{Symbol, Order, buy, limit, gtc, new}
use titan_engine.Queue.Machine.{Machine, rests, Steps, initial}
use titan_engine.Queue.Machine.Invariant.{Steps-IsSound, initial-IsSound}
use titan_engine.Queue.Machine.Safety.{received_in_order}
use titan_engine.Queue.Machine.Progress.{Steps-trans, ConsumerSteps-Steps, receives_all}
use titan_engine.Queue.Machine.Calls.{enqueue-Steps, try_enqueue-empty, sent_after}
use titan_engine.Exchange.Registry
use titan_engine.Exchange.Registry.{MatcherBackend, InstrumentRegistry}
use titan_engine.Exchange.Pipeline.{
  submit_kind, cancel_kind, match_kind, replace_kind, shutdown_kind, PipelineEvent, StagedProcessor,
  registry_of, apply, applied, and_then, consume,
}

-- The calls of the producer.
pub data Request : Type 0 where
  enqueue_submit : Symbol → Order → ℕ → Request
  enqueue_cancel : Symbol → ℕ → ℕ → Request
  enqueue_match : Symbol → Order → ℕ → Request
  enqueue_cancel_replace : Symbol → ℕ → Order → ℕ → Request
  stop : Request

-- The `Order` and the `Symbol` of `PipelineEvent event;`.
abbrev pub no_order : Order
no_order = record {
  id = 0;
  side = buy;
  price = 0;
  quantity = 0;
  account_id = 0;
  type = limit;
  tif = gtc;
  status = new;
}

abbrev pub no_symbol : Symbol
no_symbol = []

-- The event that a call puts into the queue.
abbrev pub event_of : Request → PipelineEvent
event_of (enqueue_submit s o n) = record {
  kind = submit_kind;
  sequence = n;
  symbol = s;
  order = o;
  cancel_id = 0;
}
event_of (enqueue_cancel s i n) = record {
  kind = cancel_kind;
  sequence = n;
  symbol = s;
  order = no_order;
  cancel_id = i;
}
event_of (enqueue_match s o n) = record {
  kind = match_kind;
  sequence = n;
  symbol = s;
  order = o;
  cancel_id = 0;
}
event_of (enqueue_cancel_replace s i o n) = record {
  kind = replace_kind;
  sequence = n;
  symbol = s;
  order = o;
  cancel_id = i;
}
event_of stop = record {
  kind = shutdown_kind;
  sequence = 0;
  symbol = no_symbol;
  order = no_order;
  cancel_id = 0;
}

module _ {M : Type 0} (backend : MatcherBackend M) where
  -- The registry that a call left, and its sequence number, for what follows.
  abbrev pub called_with :
      {A : Type 0}
      → ℕ
      → StagedProcessor M
      → (StagedProcessor M → Option (StagedProcessor M))
      → Option (InstrumentRegistry M × A)
      → Option (StagedProcessor M)
  called_with n p f none = none
  called_with n p f (some x) =
      f (record { registry = x.0; applied_sequences = p.applied_sequences ++ n ∷ [] })

  -- The same calls made on the registry at once, without a queue and events.
  unfoldable pub call_directly : List Request → StagedProcessor M → Option (StagedProcessor M)
  call_directly [] p = some p
  call_directly (enqueue_submit s o n ∷ rs) p =
      called_with n p (call_directly rs) (Registry.submit_order backend s o p.registry)
  call_directly (enqueue_cancel s i n ∷ rs) p =
      called_with n p (call_directly rs) (Registry.cancel_order backend s i p.registry)
  call_directly (enqueue_match s o n ∷ rs) p =
      called_with n p (call_directly rs) (Registry.match_order backend s o p.registry)
  call_directly (enqueue_cancel_replace s i o n ∷ rs) p =
      called_with n p (call_directly rs) (Registry.cancel_replace backend s i o p.registry)
  call_directly (stop ∷ rs) p = some p

  applied-called_with :
      {A : Type 0} (e : PipelineEvent) (p : StagedProcessor M)
      (f g : StagedProcessor M → Option (StagedProcessor M)) (x : Option (InstrumentRegistry M × A))
      → ((q : StagedProcessor M) → f q ≡ g q)
      → and_then backend f (applied backend e p (registry_of x)) ≡ called_with e.sequence p g x
  applied-called_with e p f g none h = refl
  applied-called_with e p f g (some x) h = h _

  -- The switch of the consumer undoes the events of the producer.
  consume-event_of :
      (rs : List Request) (p : StagedProcessor M)
      → consume backend (map event_of rs) p ≡ call_directly rs p
  unfolding consume apply call_directly
  consume-event_of [] p = refl
  consume-event_of (enqueue_submit s o n ∷ rs) p =
      applied-called_with (event_of (enqueue_submit s o n)) p (consume backend (map event_of rs))
        (call_directly rs) (Registry.submit_order backend s o p.registry) (consume-event_of rs)
  consume-event_of (enqueue_cancel s i n ∷ rs) p =
      applied-called_with (event_of (enqueue_cancel s i n)) p (consume backend (map event_of rs))
        (call_directly rs) (Registry.cancel_order backend s i p.registry) (consume-event_of rs)
  consume-event_of (enqueue_match s o n ∷ rs) p =
      applied-called_with (event_of (enqueue_match s o n)) p (consume backend (map event_of rs))
        (call_directly rs) (Registry.match_order backend s o p.registry) (consume-event_of rs)
  consume-event_of (enqueue_cancel_replace s i o n ∷ rs) p =
      applied-called_with (event_of (enqueue_cancel_replace s i o n)) p
        (consume backend (map event_of rs)) (call_directly rs)
        (Registry.cancel_replace backend s i o p.registry) (consume-event_of rs)
  consume-event_of (stop ∷ rs) p = refl

-- The first items of a list of events are those of the first requests.
prefix-event_of :
    (xs ys : List PipelineEvent) (rs : List Request)
    → map event_of rs ≡ xs ++ ys
    → xs ≡ map event_of (take (length xs) rs)
prefix-event_of [] ys rs e = refl
prefix-event_of (x ∷ xs) ys [] e = cc
prefix-event_of (x ∷ xs) ys (r ∷ rs) e =
    let same : event_of r ≡ x = cc in
    let rest : map event_of rs ≡ xs ++ ys = cc in
    rw (← same) (ap (λ es. event_of r ∷ es) (prefix-event_of xs ys rs rest))

module _ (n : ℕ) (b : ℕ → PipelineEvent) (m : Machine PipelineEvent) where
  -- However the two threads of the queue take turns, if the events sent are those of a list of
  -- producer calls, the consumer that handles the events received does to the registry and to the
  -- applied sequence numbers what as many of the first of these calls do, made on the registry
  -- one after the other without the queue and up to the first `stop`; where one of those calls
  -- does not return, the consumer does not either.
  pub pipeline-calls :
      {M : Type 0} (backend : MatcherBackend M) (rs : List Request) (p : StagedProcessor M)
      → 0 < n
      → Steps n (initial b) m
      → m.sent ≡ map event_of rs
      → consume backend m.received p ≡ call_directly backend (take (length m.received) rs) p
  pipeline-calls backend rs p h r e =
      let (pending, split, few) = received_in_order n b m h r in
      let first = prefix-event_of m.received pending rs (sym e ∙ split) in
      ap (λ es. consume backend es p) first
      ∙ consume-event_of backend (take (length m.received) rs) p

  -- From every state that the two threads of a queue of two slots or more reach, with the
  -- producer in no call, there are steps after which the event of a producer call is sent and the
  -- producer is in no call.
  pub enqueue-Ends :
      (r : Request)
      → 1 < n
      → Steps n (initial b) m
      → m.producer ≡ rests
      → (k : Machine PipelineEvent) × Steps n m k
        × (k.sent ≡ m.sent ++ event_of r ∷ [])
        × (k.producer ≡ rests)
  enqueue-Ends r h q e =
      let s = Steps-IsSound n q (initial-IsSound n b (omega arith)) in
      let (l, drained, all, kept, idle) = receives_all n m s in
      let sl = Steps-IsSound n (ConsumerSteps-Steps n drained) s in
      let taken = try_enqueue-empty n (event_of r) l h sl (all ∙ sym kept) in
      let (k, steps, stored, sent, resting, other, got) =
        enqueue-Steps n (event_of r) l sl (idle ∙ e) in
      (
        k,
        Steps-trans n (ConsumerSteps-Steps n drained) steps,
        sent
            ∙ ap (λ c. sent_after (event_of r) c l.sent) taken
            ∙ ap (λ xs. xs ++ event_of r ∷ []) kept,
        resting,
      )
