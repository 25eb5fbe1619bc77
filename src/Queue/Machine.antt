-- ===== src/Queue/Machine.antt =====
-- `try_enqueue` of one thread and `try_dequeue` of another, an access of the memory at a time.
use titan_engine.Prelude.{
  ℕ, ◌+◌, ◌%◌, ◌≤◌, ◌≡◌, Bool, true, false, List, [], ◌∷◌, ◌++◌, length, ◌==◌,
}
use titan_engine.Queue.{SpscQueue, write, advance}
pub mod Invariant
pub mod Safety
pub mod Progress
pub mod Calls

-- Where the producer is: it has read `tail`, has found room, has moved the item into the slot.
pub data Producer {ℓ} (A : Type ℓ) : Type ℓ where
  rests : Producer A
  has_tail : (item : A) (tail : ℕ) → Producer A
  has_room : (item : A) (tail next : ℕ) → Producer A
  has_written : (item : A) (tail next : ℕ) → Producer A

-- Where the consumer is: it has read `head`, has found an item, has moved it out of the slot.
pub data Consumer {ℓ} (A : Type ℓ) : Type ℓ where
  waits : Consumer A
  has_head : (head : ℕ) → Consumer A
  has_item : (head : ℕ) → Consumer A
  has_read : (head : ℕ) (item : A) → Consumer A

-- The queue between the threads. `sent` has the items of the calls of `try_enqueue` that stored
-- `tail`, `received` those of `try_dequeue` that stored `head`. A thread reads the index of the
-- other as some value since the one that it read last, whose number is `seen_heads` (of the
-- producer) or `seen_tails` (of the consumer).
pub record Machine {ℓ} (A : Type ℓ) : Type ℓ where
  pub queue : SpscQueue A
  pub producer : Producer A
  pub consumer : Consumer A
  pub sent : List A
  pub received : List A
  pub seen_heads : ℕ
  pub seen_tails : ℕ

-- The value of an index after so many stores.
abbrev pub stored : ℕ → ℕ → ℕ
stored n k = k % n

module _ {ℓ} {A : Type ℓ} (n : ℕ) where
  pub data Step (m : Machine A) : Machine A → Type ℓ where
    load_tail :
        (x : A) → m.producer ≡ rests → Step m (record m { producer = has_tail x m.queue.tail })
    finds_full :
        (x : A) (t h : ℕ)
        → m.producer ≡ has_tail x t
        → m.seen_heads ≤ h
        → h ≤ length m.received
        → (advance n t == stored n h) ≡ true
        → Step m (record m { producer = rests; seen_heads = h })
    finds_room :
        (x : A) (t h : ℕ)
        → m.producer ≡ has_tail x t
        → m.seen_heads ≤ h
        → h ≤ length m.received
        → (advance n t == stored n h) ≡ false
        → Step m (record m { producer = has_room x t (advance n t); seen_heads = h })
    move_in :
        (x : A) (t next : ℕ)
        → m.producer ≡ has_room x t next
        → Step m (record m {
          producer = has_written x t next;
          queue = record {
            buffer = write t x m.queue.buffer;
            head = m.queue.head;
            tail = m.queue.tail;
          };
        })
    store_tail :
        (x : A) (t next : ℕ)
        → m.producer ≡ has_written x t next
        → Step m (record m {
          producer = rests;
          queue = record { buffer = m.queue.buffer; head = m.queue.head; tail = next };
          sent = m.sent ++ x ∷ [];
        })
    load_head : m.consumer ≡ waits → Step m (record m { consumer = has_head m.queue.head })
    finds_empty :
        (h t : ℕ)
        → m.consumer ≡ has_head h
        → m.seen_tails ≤ t
        → t ≤ length m.sent
        → (h == stored n t) ≡ true
        → Step m (record m { consumer = waits; seen_tails = t })
    finds_item :
        (h t : ℕ)
        → m.consumer ≡ has_head h
        → m.seen_tails ≤ t
        → t ≤ length m.sent
        → (h == stored n t) ≡ false
        → Step m (record m { consumer = has_item h; seen_tails = t })
    move_out :
        (h : ℕ)
        → m.consumer ≡ has_item h
        → Step m (record m { consumer = has_read h (m.queue.buffer h) })
    store_head :
        (h : ℕ) (x : A)
        → m.consumer ≡ has_read h x
        → Step m (record m {
          consumer = waits;
          queue = record { buffer = m.queue.buffer; head = advance n h; tail = m.queue.tail };
          received = m.received ++ x ∷ [];
        })

  -- Steps of the two threads in any order.
  pub data Steps (m : Machine A) : Machine A → Type ℓ where
    no_step : Steps m m
    one_more : {k l : Machine A} → Steps m k → Step k l → Steps m l

  -- The steps of `try_dequeue`; the others are those of `try_enqueue`.
  unfoldable pub is_of_consumer : {m k : Machine A} → Step m k → Bool
  is_of_consumer (load_tail x e) = false
  is_of_consumer (finds_full x t h e a b f) = false
  is_of_consumer (finds_room x t h e a b f) = false
  is_of_consumer (move_in x t next e) = false
  is_of_consumer (store_tail x t next e) = false
  is_of_consumer (load_head e) = true
  is_of_consumer (finds_empty h t e a b f) = true
  is_of_consumer (finds_item h t e a b f) = true
  is_of_consumer (move_out h e) = true
  is_of_consumer (store_head h x e) = true

  -- Steps of the consumer alone.
  pub data ConsumerSteps (m : Machine A) : Machine A → Type ℓ where
    stands : ConsumerSteps m m
    goes_on :
        {k l : Machine A}
        → ConsumerSteps m k
        → (st : Step k l) → is_of_consumer st ≡ true
        → ConsumerSteps m l

-- The machine that the threads start from.
abbrev pub initial {ℓ} : {A : Type ℓ} → (ℕ → A) → Machine A
initial b = record {
  queue = record { buffer = b; head = 0; tail = 0 };
  producer = rests;
  consumer = waits;
  sent = [];
  received = [];
  seen_heads = 0;
  seen_tails = 0;
}
