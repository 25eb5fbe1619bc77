-- ===== src/Queue/Machine/Invariant.antt =====
-- What holds between the steps of the two threads.
use native.Mathlib.Nat.{add-mod_right}
use titan_engine.Prelude.{
  Bool, ℕ, suc, ◌+◌, ◌%◌, ◌≤◌, ◌<◌, ◌≡◌, ◌≢◌, refl, sym, ap, ◌∙◌, subst, List, [], ◌∷◌, ◌++◌,
  length, Bool, true, false, ◌==◌, arith, length-append, append_assoc, inl, inr, List-cases, ==_iff,
}
use titan_engine.Queue.{SpscQueue, write, advance}
use titan_engine.Queue.Slots.{Holds, Holds-write, Holds-snoc, advance-mod}
use titan_engine.Queue.Machine.{
  Producer, rests, has_tail, has_room, has_written, Consumer, waits, has_head, has_item, has_read,
  Machine, stored, Step, Steps, initial, load_tail, finds_full, finds_room, move_in, store_tail,
  load_head, finds_empty, finds_item, move_out, store_head, no_step, one_more,
}

-- The producer holds the slot after the last item, which is free once it has found room.
abbrev pub IsProducing : {A : Type 0} → ℕ → (sent seen : ℕ) → (ℕ → A) → Producer A → Type 0
IsProducing n sent seen b rests = Unit
IsProducing n sent seen b (has_tail x t) = t ≡ sent % n
IsProducing n sent seen b (has_room x t next) =
    (t ≡ sent % n) × ((next ≡ (sent + 1) % n) × (sent + 1 < seen + n))
IsProducing n sent seen b (has_written x t next) =
    (t ≡ sent % n) × ((next ≡ (sent + 1) % n) × ((sent + 1 < seen + n) × (b t ≡ x)))

-- The consumer holds the slot of the first item, which is there once it has found one.
abbrev pub IsConsuming : {A : Type 0} → ℕ → (received seen : ℕ) → List A → Consumer A → Type 0
IsConsuming n received seen pending waits = Unit
IsConsuming n received seen pending (has_head h) = h ≡ received % n
IsConsuming n received seen pending (has_item h) = (h ≡ received % n) × (received < seen)
IsConsuming {A} n received seen pending (has_read h x) =
    (h ≡ received % n) × ((received < seen) × ((rest : List A) × (pending ≡ x ∷ rest)))

-- The items that are sent and not received lie in the ring, in order.
pub record IsFlow {A : Type 0} (n : ℕ) (q : SpscQueue A) (sent received pending : List A)
    : Type 0 where
  pub in_order : sent ≡ received ++ pending
  pub at_head : q.head ≡ length received % n
  pub at_tail : q.tail ≡ length sent % n
  pub holds : Holds n q.buffer (length received) pending

-- What the threads have seen of each other is not wrong, and is enough.
pub record IsSeen (n sent received heads tails : ℕ) : Type 0 where
  pub heads_seen : heads ≤ received
  pub room : sent < heads + n
  pub tails_needed : received ≤ tails
  pub tails_seen : tails ≤ sent

pub record IsSound {A : Type 0} (n : ℕ) (m : Machine A) : Type 0 where
  pub pending : List A
  pub flow : IsFlow n m.queue m.sent m.received pending
  pub seen : IsSeen n (length m.sent) (length m.received) m.seen_heads m.seen_tails
  pub producing : IsProducing n (length m.sent) m.seen_heads m.queue.buffer m.producer
  pub consuming : IsConsuming n (length m.received) m.seen_tails pending m.consumer

-- The producer does not ask how far the consumer is, nor the other way round.
IsProducing-weaken :
    {A : Type 0} (n sent seen seen' : ℕ) (b : ℕ → A) (p : Producer A)
    → seen ≤ seen'
    → IsProducing n sent seen b p
    → IsProducing n sent seen' b p
IsProducing-weaken n sent seen seen' b rests le h = tt
IsProducing-weaken n sent seen seen' b (has_tail x t) le h = h
IsProducing-weaken n sent seen seen' b (has_room x t next) le h =
    (h.0, (h.1.0, omega (arith, h.1.1)))
IsProducing-weaken n sent seen seen' b (has_written x t next) le h =
    (h.0, (h.1.0, (omega (arith, h.1.1.0), h.1.1.1)))

IsConsuming-snoc :
    {A : Type 0} (n received seen : ℕ) (pending : List A) (x : A) (c : Consumer A)
    → IsConsuming n received seen pending c
    → IsConsuming n received seen (pending ++ x ∷ []) c
IsConsuming-snoc n received seen pending x waits h = tt
IsConsuming-snoc n received seen pending x (has_head k) h = h
IsConsuming-snoc n received seen pending x (has_item k) h = h
IsConsuming-snoc n received seen pending x (has_read k y) h =
    (h.0, (h.1.0, (h.1.1.0 ++ x ∷ [], ap (λ ys. ys ++ x ∷ []) h.1.1.1)))

clash : (b : Bool) → b ≡ true → b ≡ false → ⊥
clash b e f = cc

module _ {A : Type 0} (n : ℕ) where
  pub counts :
      {m : Machine A} (s : IsSound n m) → length m.sent ≡ length m.received + length s.pending
  counts {m} s = ap length s.flow.in_order ∙ length-append m.received s.pending

  pub IsProducing-at :
      {m : Machine A} (s : IsSound n m) {p : Producer A}
      → m.producer ≡ p
      → IsProducing n (length m.sent) m.seen_heads m.queue.buffer p
  IsProducing-at {m} s e =
      subst (IsProducing n (length m.sent) m.seen_heads m.queue.buffer) e s.producing

  pub IsConsuming-at :
      {m : Machine A} (s : IsSound n m) {c : Consumer A}
      → m.consumer ≡ c
      → IsConsuming n (length m.received) m.seen_tails s.pending c
  IsConsuming-at {m} s e =
      subst (IsConsuming n (length m.received) m.seen_tails s.pending) e s.consuming

  -- Another step of the producer that only moves it on.
  producer_moves :
      {m : Machine A} (s : IsSound n m) (p : Producer A) (h : ℕ)
      → m.seen_heads ≤ h
      → h ≤ length m.received
      → IsProducing n (length m.sent) h m.queue.buffer p
      → IsSound n (record m { producer = p; seen_heads = h })
  producer_moves s p h a b k = record {
    pending = s.pending;
    flow = s.flow;
    seen = record {
      heads_seen = b;
      room = omega (arith, s.seen.room);
      tails_needed = s.seen.tails_needed;
      tails_seen = s.seen.tails_seen;
    };
    producing = k;
    consuming = s.consuming;
  }

  -- Another step of the consumer that only moves it on.
  consumer_moves :
      {m : Machine A} (s : IsSound n m) (c : Consumer A) (t : ℕ)
      → m.seen_tails ≤ t
      → t ≤ length m.sent
      → IsConsuming n (length m.received) t s.pending c
      → IsSound n (record m { consumer = c; seen_tails = t })
  consumer_moves s c t a b k = record {
    pending = s.pending;
    flow = s.flow;
    seen = record {
      heads_seen = s.seen.heads_seen;
      room = s.seen.room;
      tails_needed = omega (arith, s.seen.tails_needed);
      tails_seen = b;
    };
    producing = s.producing;
    consuming = k;
  }

  -- The head that the producer has read is a round behind the next slot, or less.
  finds_room-IsSound :
      {m : Machine A} (s : IsSound n m) (x : A) (t h : ℕ)
      → m.producer ≡ has_tail x t
      → m.seen_heads ≤ h
      → h ≤ length m.received
      → (advance n t == stored n h) ≡ false
      → IsSound n (record m { producer = has_room x t (advance n t); seen_heads = h })
  finds_room-IsSound {m} s x t h e a b test =
      let at : t ≡ length m.sent % n = IsProducing-at s e in
      let next : advance n t ≡ (length m.sent + 1) % n =
        ap (advance n) at ∙ advance-mod n (length m.sent) in
      let apart : length m.sent + 1 ≢ h + n = λ f. absurd (
        clash (advance n t == stored n h)
          ((==_iff (advance n t) (h % n)).1 (next ∙ ap (λ k. k % n) f ∙ add-mod_right h n)) test) in
      producer_moves s (has_room x t (advance n t)) h a b
        (at, (next, omega (arith, s.seen.room, apart)))

  finds_item-IsSound :
      {m : Machine A} (s : IsSound n m) (h t : ℕ)
      → m.consumer ≡ has_head h
      → m.seen_tails ≤ t
      → t ≤ length m.sent
      → (h == stored n t) ≡ false
      → IsSound n (record m { consumer = has_item h; seen_tails = t })
  finds_item-IsSound {m} s h t e a b test =
      let at : h ≡ length m.received % n = IsConsuming-at s e in
      let apart : length m.received ≢ t = λ f.
        absurd (clash (h == stored n t) ((==_iff h (t % n)).1 (at ∙ ap (λ k. k % n) f)) test) in
      consumer_moves s (has_item h) t a b (at, omega (arith, s.seen.tails_needed, apart))

  move_in-IsSound :
      {m : Machine A} (s : IsSound n m) (x : A) (t k : ℕ)
      → m.producer ≡ has_room x t k
      → IsSound n (record m {
        producer = has_written x t k;
        queue = record {
          buffer = write t x m.queue.buffer;
          head = m.queue.head;
          tail = m.queue.tail;
        };
      })
  move_in-IsSound {m} s x t k e =
      let p = IsProducing-at s e in
      record {
        pending = s.pending;
        flow = record {
          in_order = s.flow.in_order;
          at_head = s.flow.at_head;
          at_tail = s.flow.at_tail;
          holds =
              subst (λ j. Holds n (write j x m.queue.buffer) (length m.received) s.pending)
                (sym p.0)
                (Holds-write n m.queue.buffer (length m.received) (length m.sent) s.pending x
                  (omega (arith, counts s)) (omega (arith, s.seen.room, s.seen.heads_seen))
                  s.flow.holds);
        };
        seen = s.seen;
        producing = (p.0, (p.1.0, (p.1.1, ground arith)));
        consuming = s.consuming;
      }

  store_tail-IsSound :
      {m : Machine A} (s : IsSound n m) (x : A) (t k : ℕ)
      → m.producer ≡ has_written x t k
      → IsSound n (record m {
        producer = rests;
        queue = record { buffer = m.queue.buffer; head = m.queue.head; tail = k };
        sent = m.sent ++ x ∷ [];
      })
  store_tail-IsSound {m} s x t k e =
      let p = IsProducing-at s e in
      let grown : length (m.sent ++ x ∷ []) ≡ length m.sent + 1 = length-append m.sent (x ∷ []) in
      record {
        pending = s.pending ++ x ∷ [];
        flow = record {
          in_order =
              ap (λ xs. xs ++ x ∷ []) s.flow.in_order ∙ append_assoc m.received s.pending (x ∷ []);
          at_head = s.flow.at_head;
          at_tail = p.1.0 ∙ ap (λ j. j % n) (sym grown);
          holds =
              Holds-snoc n m.queue.buffer (length m.received) s.pending x s.flow.holds
                (ap m.queue.buffer (ap (λ j. j % n) (sym (counts s)) ∙ sym p.0) ∙ p.1.1.1);
        };
        seen = record {
          heads_seen = s.seen.heads_seen;
          room = omega (arith, grown, p.1.1.0);
          tails_needed = s.seen.tails_needed;
          tails_seen = omega (arith, grown, s.seen.tails_seen);
        };
        producing = tt;
        consuming =
            IsConsuming-snoc n (length m.received) m.seen_tails s.pending x m.consumer s.consuming;
      }

  -- The first item that is sent and not received is there to be moved out.
  move_out-IsSound :
      {m : Machine A} (s : IsSound n m) (h : ℕ)
      → m.consumer ≡ has_item h
      → IsSound n (record m { consumer = has_read h (m.queue.buffer h) })
  move_out-IsSound {m} s h e =
      let c = IsConsuming-at s e in
      elim (List-cases s.pending) [
        | inl none_left ↦
            absurd (omega (arith, c.1, s.seen.tails_seen, counts s, ap length none_left))
        | inr (y, rest, f) ↦
            let first : m.queue.buffer (length m.received % n) ≡ y =
              (subst (Holds n m.queue.buffer (length m.received)) f s.flow.holds).0 in
            let it : m.queue.buffer h ≡ y = ap m.queue.buffer c.0 ∙ first in
            consumer_moves s (has_read h (m.queue.buffer h)) m.seen_tails (omega arith)
              s.seen.tails_seen (c.0, (c.1, (rest, f ∙ ap (λ z. z ∷ rest) (sym it))))
      ]

  store_head-IsSound :
      {m : Machine A} (s : IsSound n m) (h : ℕ) (x : A)
      → m.consumer ≡ has_read h x
      → IsSound n (record m {
        consumer = waits;
        queue = record { buffer = m.queue.buffer; head = advance n h; tail = m.queue.tail };
        received = m.received ++ x ∷ [];
      })
  store_head-IsSound {m} s h x e =
      let c = IsConsuming-at s e in
      let (rest, f) = c.1.1 in
      let grown : length (m.received ++ x ∷ []) ≡ suc (length m.received) =
        length-append m.received (x ∷ []) ∙ omega arith in
      record {
        pending = rest;
        flow = record {
          in_order =
              s.flow.in_order
              ∙ ap (λ xs. m.received ++ xs) f
              ∙ sym (append_assoc m.received (x ∷ []) rest);
          at_head =
              ap (advance n) c.0
              ∙ advance-mod n (length m.received)
              ∙ ap (λ j. j % n) (omega (arith, grown));
          at_tail = s.flow.at_tail;
          holds =
              subst (λ r. Holds n m.queue.buffer r rest) (sym grown)
                (subst (Holds n m.queue.buffer (length m.received)) f s.flow.holds).1;
        };
        seen = record {
          heads_seen = omega (arith, grown, s.seen.heads_seen);
          room = s.seen.room;
          tails_needed = omega (arith, grown, c.1.0);
          tails_seen = s.seen.tails_seen;
        };
        producing = s.producing;
        consuming = tt;
      }

  pub Step-IsSound : {m k : Machine A} → Step n m k → IsSound n m → IsSound n k
  Step-IsSound {m} (load_tail x e) s =
      producer_moves s (has_tail x m.queue.tail) m.seen_heads (omega arith) s.seen.heads_seen
        s.flow.at_tail
  Step-IsSound (finds_full x t h e a b test) s = producer_moves s rests h a b tt
  Step-IsSound (finds_room x t h e a b test) s = finds_room-IsSound s x t h e a b test
  Step-IsSound (move_in x t k e) s = move_in-IsSound s x t k e
  Step-IsSound (store_tail x t k e) s = store_tail-IsSound s x t k e
  Step-IsSound {m} (load_head e) s =
      consumer_moves s (has_head m.queue.head) m.seen_tails (omega arith) s.seen.tails_seen
        s.flow.at_head
  Step-IsSound (finds_empty h t e a b test) s = consumer_moves s waits t a b tt
  Step-IsSound (finds_item h t e a b test) s = finds_item-IsSound s h t e a b test
  Step-IsSound (move_out h e) s = move_out-IsSound s h e
  Step-IsSound (store_head h x e) s = store_head-IsSound s h x e

  pub Steps-IsSound : {m k : Machine A} → Steps n m k → IsSound n m → IsSound n k
  Steps-IsSound no_step s = s
  Steps-IsSound (one_more r st) s = Step-IsSound st (Steps-IsSound r s)

  pub initial-IsSound : (b : ℕ → A) → 0 < n → IsSound n (initial b)
  initial-IsSound b h = record {
    pending = [];
    flow = record { in_order = refl; at_head = omega arith; at_tail = omega arith; holds = tt };
    seen = record {
      heads_seen = omega arith;
      room = omega (arith, h);
      tails_needed = omega arith;
      tails_seen = omega arith;
    };
    producing = tt;
    consuming = tt;
  }
