-- ===== src/Queue/Machine/Calls.antt =====
-- A call that the other thread does not come between is a call of the queue.
use titan_engine.Prelude.{
  ◌%◌, ◌+◌, ◌<◌, ◌∙◌, ℕ, ◌≡◌, refl, ap, List, [], ◌∷◌, ◌++◌, length, Bool, true, false, ◌==◌,
  Option, none, some, arith, Bool-cases, inl, inr,
}
use titan_engine.Queue.{advance, try_enqueue, try_dequeue}
use titan_engine.Queue.Slots.{advance-mod, mod-apart}
use titan_engine.Queue.Machine.{
  rests, waits, Machine, stored, Steps, initial, load_tail, finds_full, finds_room, move_in,
  store_tail, load_head, finds_empty, finds_item, move_out, store_head, no_step, one_more,
}
use titan_engine.Queue.Machine.Invariant.{IsSound, Steps-IsSound, initial-IsSound}

-- What `received` and `sent` become by a call with that answer.
abbrev pub sent_after : {A : Type 0} → A → Bool → List A → List A
sent_after x true xs = xs ++ x ∷ []
sent_after x false xs = xs

abbrev pub received_after : {A : Type 0} → Option A → List A → List A
received_after none xs = xs
received_after (some x) xs = xs ++ x ∷ []

module _ {A : Type 0} (n : ℕ) where
  pub enqueue-Steps :
      (x : A) (m : Machine A)
      → IsSound n m
      → m.producer ≡ rests
      → (k : Machine A) × Steps n m k
        × (k.queue ≡ (try_enqueue n x m.queue).1)
        × (k.sent ≡ sent_after x (try_enqueue n x m.queue).0 m.sent)
        × (k.producer ≡ rests)
        × (k.consumer ≡ m.consumer)
        × (k.received ≡ m.received)
  unfolding try_enqueue
  enqueue-Steps x m s e =
      let t = m.queue.tail in
      let h = length m.received in
      let same : (advance n t == m.queue.head) ≡ (advance n t == stored n h) =
        ap (λ j. advance n t == j) s.flow.at_head in
      let begun = one_more no_step (load_tail x e) in
      elim (Bool-cases (advance n t == stored n h)) [
        | inl test ↦
            rw (same, test)
              (
                _,
                one_more begun (finds_full x t h refl s.seen.heads_seen (omega arith) test),
                refl,
                refl,
                refl,
                refl,
                refl,
              )
        | inr test ↦
            rw (same, test)
              (
                _,
                one_more
                    (one_more
                      (one_more begun (finds_room x t h refl s.seen.heads_seen (omega arith) test))
                      (move_in x t (advance n t) refl))
                    (store_tail x t (advance n t) refl),
                refl,
                refl,
                refl,
                refl,
                refl,
              )
      ]

  dequeue-Steps :
      (m : Machine A)
      → IsSound n m
      → m.consumer ≡ waits
      → (k : Machine A) × Steps n m k
        × (k.queue ≡ (try_dequeue n m.queue).1)
        × (k.received ≡ received_after (try_dequeue n m.queue).0 m.received)
        × (k.consumer ≡ waits)
        × (k.producer ≡ m.producer)
        × (k.sent ≡ m.sent)
  unfolding try_dequeue
  dequeue-Steps m s e =
      let h = m.queue.head in
      let t = length m.sent in
      let same : (h == m.queue.tail) ≡ (h == stored n t) = ap (λ j. h == j) s.flow.at_tail in
      let begun = one_more no_step (load_head e) in
      elim (Bool-cases (h == stored n t)) [
        | inl test ↦
            rw (same, test)
              (
                _,
                one_more begun (finds_empty h t refl s.seen.tails_seen (omega arith) test),
                refl,
                refl,
                refl,
                refl,
                refl,
              )
        | inr test ↦
            rw (same, test)
              (
                _,
                one_more
                    (one_more
                      (one_more begun (finds_item h t refl s.seen.tails_seen (omega arith) test))
                      (move_out h refl))
                    (store_head h (m.queue.buffer h) refl),
                refl,
                refl,
                refl,
                refl,
                refl,
              )
      ]

  -- With nothing on the way, and a second slot, an item finds room.
  pub try_enqueue-empty :
      (x : A) (m : Machine A)
      → 1 < n
      → IsSound n m
      → m.received ≡ m.sent
      → (try_enqueue n x m.queue).0 ≡ true
  unfolding try_enqueue
  try_enqueue-empty x m h s all =
      let k = length m.sent in
      let next : advance n m.queue.tail ≡ (k + 1) % n =
        ap (advance n) s.flow.at_tail ∙ advance-mod n k in
      let head : m.queue.head ≡ k % n = s.flow.at_head ∙ ap (λ xs. length xs % n) all in
      let far : ((k + 1) % n == k % n) ≡ false =
        ground (arith, mod-apart n k (k + 1) (omega arith) (omega arith)) in
      let test : (advance n m.queue.tail == m.queue.head) ≡ false =
        ap (λ j. j == m.queue.head) next ∙ ap (λ j. (k + 1) % n == j) head ∙ far in
      rw test refl

  -- From every state that the two threads reach in which the producer is in no call, there are
  -- steps that leave the consumer where it is and make of the queue what `try_enqueue` makes of
  -- it, and the item is sent if it returns true.
  pub try_enqueue-Steps :
      (b : ℕ → A) (x : A) (m : Machine A)
      → 0 < n
      → Steps n (initial b) m
      → m.producer ≡ rests
      → (k : Machine A) × Steps n m k
        × (k.queue ≡ (try_enqueue n x m.queue).1)
        × (k.sent ≡ sent_after x (try_enqueue n x m.queue).0 m.sent)
        × (k.producer ≡ rests)
        × (k.consumer ≡ m.consumer)
        × (k.received ≡ m.received)
  try_enqueue-Steps b x m h r e = enqueue-Steps x m (Steps-IsSound n r (initial-IsSound n b h)) e

  -- The same of the consumer, of which no other step comes between.
  pub try_dequeue-Steps :
      (b : ℕ → A) (m : Machine A)
      → 0 < n
      → Steps n (initial b) m
      → m.consumer ≡ waits
      → (k : Machine A) × Steps n m k
        × (k.queue ≡ (try_dequeue n m.queue).1)
        × (k.received ≡ received_after (try_dequeue n m.queue).0 m.received)
        × (k.consumer ≡ waits)
        × (k.producer ≡ m.producer)
        × (k.sent ≡ m.sent)
  try_dequeue-Steps b m h r e = dequeue-Steps m (Steps-IsSound n r (initial-IsSound n b h)) e
