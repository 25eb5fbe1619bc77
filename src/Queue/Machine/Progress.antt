-- ===== src/Queue/Machine/Progress.antt =====
-- The consumer takes what is in the ring by its own steps, whatever the producer does.
use titan_engine.Prelude.{
  List-cases, ==_iff, ℕ, zero, suc, ◌+◌, ◌%◌, ◌<◌, ◌≡◌, refl, sym, ap, ◌∙◌, [], ◌∷◌, ◌++◌, length,
  true, false, ◌==◌, arith, Bool-cases, inl, inr, length-append, append-nil,
}
use titan_engine.Queue.Slots.{mod-apart}
use titan_engine.Queue.Machine.{
  Consumer, waits, has_head, has_item, has_read, Machine, stored, Step, Steps, is_of_consumer,
  ConsumerSteps, stands, goes_on, initial, load_head, finds_empty, finds_item, move_out, store_head,
  no_step, one_more,
}
use titan_engine.Queue.Machine.Invariant.{
  IsSound, counts, IsConsuming-at, Step-IsSound, Steps-IsSound, initial-IsSound,
}

module _ {A : Type 0} (n : ℕ) where
  pub Steps-trans : {m k l : Machine A} → Steps n m k → Steps n k l → Steps n m l
  Steps-trans r no_step = r
  Steps-trans r (one_more q st) = one_more (Steps-trans r q) st

  pub ConsumerSteps-Steps : {m k : Machine A} → ConsumerSteps n m k → Steps n m k
  ConsumerSteps-Steps stands = no_step
  ConsumerSteps-Steps (goes_on r st own) = one_more (ConsumerSteps-Steps r) st

  goes_far : {m k l : Machine A} → ConsumerSteps n m k → ConsumerSteps n k l → ConsumerSteps n m l
  goes_far r stands = r
  goes_far r (goes_on q st own) = goes_on (goes_far r q) st own

  first : {m k : Machine A} (st : Step n m k) → is_of_consumer n st ≡ true → ConsumerSteps n m k
  first st own = goes_on stands st own

  -- The consumer by itself: nothing of the producer has changed, and so much has been received.
  abbrev Receives : Machine A → ℕ → Type 0
  Receives m j =
      (k : Machine A) × ConsumerSteps n m k
      × (k.consumer ≡ waits)
      × (k.producer ≡ m.producer)
      × (k.sent ≡ m.sent)
      × (length k.received ≡ length m.received + j)

  frees : (m : Machine A) (h : ℕ) (x : A) → m.consumer ≡ has_read h x → Receives m 1
  unfolding is_of_consumer
  frees m h x e =
      (_, first (store_head h x e) refl, refl, refl, refl, length-append m.received (x ∷ []))

  moves_and_frees : (m : Machine A) (h : ℕ) → m.consumer ≡ has_item h → Receives m 1
  unfolding is_of_consumer
  moves_and_frees m h e = (
    _,
    goes_on (first (move_out h e) refl) (store_head h (m.queue.buffer h) refl) refl,
    refl,
    refl,
    refl,
    length-append m.received (m.queue.buffer h ∷ []),
  )

  -- With an item in the ring, a load of the newest tail finds it.
  looks :
      (m : Machine A) (h : ℕ) (s : IsSound n m)
      → m.consumer ≡ has_head h
      → length m.received < length m.sent
      → Receives m 1
  unfolding is_of_consumer
  looks m h s e some_left =
      let t = length m.sent in
      let at = IsConsuming-at n s e in
      let apart =
        mod-apart n (length m.received) t some_left
          (omega (arith, s.seen.room, s.seen.heads_seen)) in
      let test : (h == stored n t) ≡ false = ground (arith, at, apart) in
      (
        _,
        goes_on
            (goes_on (first (finds_item h t e s.seen.tails_seen (omega arith) test) refl)
              (move_out h refl) refl)
            (store_head h (m.queue.buffer h) refl) refl,
        refl,
        refl,
        refl,
        length-append m.received (m.queue.buffer h ∷ []),
      )

  gives_up :
      (m : Machine A) (h : ℕ) (s : IsSound n m)
      → m.consumer ≡ has_head h
      → length s.pending ≡ 0
      → Receives m 0
  unfolding is_of_consumer
  gives_up m h s e none_left =
      let t = length m.sent in
      let at = IsConsuming-at n s e in
      let test : (h == stored n t) ≡ true =
        (==_iff h (t % n)).1 (at ∙ ap (λ j. j % n) (omega (arith, counts n s, none_left))) in
      (
        _,
        first (finds_empty h t e s.seen.tails_seen (omega arith) test) refl,
        refl,
        refl,
        refl,
        omega arith,
      )

  -- From where it waits, the consumer takes all that is there.
  drains :
      (j : ℕ) (m : Machine A)
      → IsSound n m
      → length m.sent ≡ length m.received + j
      → m.consumer ≡ waits
      → Receives m j
  unfolding is_of_consumer
  drains zero m s e w = (m, stands, w, refl, refl, omega arith)
  drains (suc j) m s e w =
      let loaded = load_head w in
      let sl = Step-IsSound n loaded s in
      let (k, r, w', p, d, c) = looks _ m.queue.head sl refl (omega (arith, e)) in
      let (l, q, w'', p', d', c') =
        drains j k (Steps-IsSound n (ConsumerSteps-Steps r) sl) (omega (arith, ap length d, c, e))
          w' in
      (l, goes_far (goes_far (first loaded refl) r) q, w'', p' ∙ p, d' ∙ d, omega (arith, c, c'))

  -- A call that has begun is ended first.
  ends :
      (m : Machine A) (c : Consumer A) (s : IsSound n m) → m.consumer ≡ c → (j : ℕ) × Receives m j
  ends m waits s e = (0, (m, stands, e, refl, refl, omega arith))
  ends m (has_head h) s e = elim (Bool-cases (length s.pending == 0)) [
    | inl none_left ↦ (0, gives_up m h s e (ground arith))
    | inr some_left ↦ (1, looks m h s e (ground (arith, counts n s)))
  ]
  ends m (has_item h) s e = (1, moves_and_frees m h e)
  ends m (has_read h x) s e = (1, frees m h x e)

  -- All that is sent is received.
  abbrev pub Drains : Machine A → Type 0
  Drains m =
      (k : Machine A) × ConsumerSteps n m k
      × (k.received ≡ m.sent)
      × (k.sent ≡ m.sent)
      × (k.producer ≡ m.producer)

  all_received :
      (m : Machine A) (s : IsSound n m) → length m.received ≡ length m.sent → m.received ≡ m.sent
  all_received m s e = elim (List-cases s.pending) [
    | inl f ↦ sym (s.flow.in_order ∙ ap (λ xs. m.received ++ xs) f ∙ append-nil m.received)
    | inr (x, xs, f) ↦ absurd (omega (arith, counts n s, e, ap length f))
  ]

  pub receives_all : (m : Machine A) → IsSound n m → Drains m
  receives_all m s =
      let (i, rest) = ends m m.consumer s refl in
      let (k, r, w, p, d, c) = rest in
      let sk = Steps-IsSound n (ConsumerSteps-Steps r) s in
      let (l, q, w', p', d', c') = drains (length sk.pending) k sk (counts n sk) w in
      let sl = Steps-IsSound n (ConsumerSteps-Steps q) sk in
      let whole : length l.received ≡ length l.sent =
        omega (arith, c', counts n sk, ap length d') in
      (l, goes_far r q, all_received l sl whole ∙ d' ∙ d, d' ∙ d, p' ∙ p)

-- From every state that the two threads reach, steps of the consumer alone lead to a state where
-- all that was sent is received.
pub consumer-Drains :
    {A : Type 0} (n : ℕ) (b : ℕ → A) (m : Machine A) → 0 < n → Steps n (initial b) m → Drains n m
consumer-Drains n b m h r = receives_all n m (Steps-IsSound n r (initial-IsSound n b h))
