-- ===== src/Queue/Tests.antt =====
-- The queue on concrete items.
use titan_engine.Prelude.{
  ℕ, ◌<◌, ◌≡◌, ◌≢◌, refl, List, [], ◌∷◌, ◌++◌, length, map, true, false, some, arith,
}
use titan_engine.Queue.{write, advance, try_enqueue, try_dequeue, size, empty, full}
use titan_engine.Queue.Contents.{queries}
use titan_engine.Queue.Runs.{
  Call, put, get, was_put, was_got, fresh, run, run_listed, gets, run-refines, put-get,
  fresh-IsRing,
}
use titan_engine.Queue.Machine.{
  Machine, rests, has_room, waits, has_item, Steps, initial, load_tail, finds_room, move_in,
  store_tail, load_head, finds_item, no_step, one_more,
}
use titan_engine.Queue.Machine.Safety.{received_in_order, no_race}
use titan_engine.Queue.Machine.Progress.{Drains, consumer-Drains}
use titan_engine.Queue.Machine.Calls.{
  try_enqueue-Steps, try_dequeue-Steps, sent_after, received_after,
}

-- A ring of four slots.
abbrev blank : ℕ → ℕ
blank i = 0

abbrev five_calls : List (Call ℕ)
five_calls = put 7 ∷ put 8 ∷ get ∷ put 9 ∷ get ∷ []

run-refines_example : run 4 five_calls (fresh blank) ≡ run_listed 4 five_calls []
run-refines_example = run-refines 4 five_calls (fresh blank) [] (fresh-IsRing 4 blank (omega arith))

put-get_example :
    run 4 (map {A = ℕ} put (7 ∷ 8 ∷ []) ++ gets 4 (7 ∷ 8 ∷ [])) (fresh blank)
    ≡ map {A = ℕ} (λ x. was_put true) (7 ∷ 8 ∷ [])
      ++ map {A = ℕ} (λ x. was_got (some x)) (7 ∷ 8 ∷ [])
put-get_example = put-get 4 (7 ∷ 8 ∷ []) blank (omega arith)

queries_example :
    (size 4 (fresh blank) ≡ 0) × (empty 4 (fresh blank) ≡ true) × (full 4 (fresh blank) ≡ false)
queries_example =
    queries 4 4611686018427387904 (fresh blank) [] refl (fresh-IsRing 4 blank (omega arith))

-- One item is sent; the producer has room for another and the consumer has found the first.
abbrev busy : Machine ℕ
busy = record {
  queue = record { buffer = write 0 7 blank; head = 0; tail = advance 4 0 };
  producer = has_room 8 (advance 4 0) (advance 4 (advance 4 0));
  consumer = has_item 0;
  sent = 7 ∷ [];
  received = [];
  seen_heads = 0;
  seen_tails = 1;
}

busy-Steps : Steps 4 (initial blank) busy
unfolding advance
busy-Steps =
    one_more
      (one_more
        (one_more
          (one_more
            (one_more
              (one_more
                (one_more (one_more no_step (load_tail 7 refl))
                  (finds_room 7 0 0 refl (omega arith) (omega arith) refl))
                (move_in 7 0 (advance 4 0) refl))
              (store_tail 7 0 (advance 4 0) refl))
            (load_tail 8 refl))
          (finds_room 8 (advance 4 0) 0 refl (omega arith) (omega arith) refl))
        (load_head refl))
      (finds_item 0 1 refl (omega arith) (omega arith) refl)

received_in_order_example :
    (pending : List ℕ) × (busy.sent ≡ busy.received ++ pending) × (length pending < 4)
received_in_order_example = received_in_order 4 blank busy (omega arith) busy-Steps

no_race_example : (advance 4 0 ≢ 0) × ((advance 4 0 < 4) × (0 < 4))
no_race_example = no_race 4 blank busy (advance 4 0) 0 (omega arith) busy-Steps refl refl

consumer-Drains_example : Drains 4 busy
consumer-Drains_example = consumer-Drains 4 blank busy (omega arith) busy-Steps

try_enqueue-Steps_example :
    (k : Machine ℕ) × Steps 4 (initial blank) k
    × (k.queue ≡ (try_enqueue 4 7 (fresh blank)).1)
    × (k.sent ≡ sent_after 7 (try_enqueue 4 7 (fresh blank)).0 [])
    × (k.producer ≡ rests)
    × (k.consumer ≡ waits)
    × (k.received ≡ [])
try_enqueue-Steps_example = try_enqueue-Steps 4 blank 7 (initial blank) (omega arith) no_step refl

try_dequeue-Steps_example :
    (k : Machine ℕ) × Steps 4 (initial blank) k
    × (k.queue ≡ (try_dequeue 4 (fresh blank)).1)
    × (k.received ≡ received_after (try_dequeue 4 (fresh blank)).0 [])
    × (k.consumer ≡ waits)
    × (k.producer ≡ rests)
    × (k.sent ≡ [])
try_dequeue-Steps_example = try_dequeue-Steps 4 blank (initial blank) (omega arith) no_step refl
