-- ===== src/Queue/Machine/Safety.antt =====
-- What the two threads cannot do to each other.
use titan_engine.Prelude.{
  ℕ, ◌+◌, ◌%◌, ◌<◌, ◌≡◌, ◌≢◌, sym, ◌∙◌, List, ◌++◌, length, Option, none, some, arith,
}
use native.Mathlib.Nat.{mod-lt}
use titan_engine.Queue.Slots.{mod-apart}
use titan_engine.Queue.Machine.{
  Producer, rests, has_tail, has_room, has_written, Consumer, waits, has_head, has_item, has_read,
  Machine, Steps, initial,
}
use titan_engine.Queue.Machine.Invariant.{
  IsProducing, IsConsuming, counts, Steps-IsSound, initial-IsSound,
}

-- The slot that the producer moves its item into, from the time that it has found room.
abbrev pub written_slot : {A : Type 0} → Producer A → Option ℕ
written_slot rests = none
written_slot (has_tail x t) = none
written_slot (has_room x t k) = some t
written_slot (has_written x t k) = some t

-- The slot that the consumer moves its item out of, from the time that it has found one.
abbrev pub read_slot : {A : Type 0} → Consumer A → Option ℕ
read_slot waits = none
read_slot (has_head h) = none
read_slot (has_item h) = some h
read_slot (has_read h x) = some h

writes_last :
    {A : Type 0} (n sent seen t : ℕ) (b : ℕ → A) (p : Producer A)
    → IsProducing n sent seen b p
    → written_slot p ≡ some t
    → (t ≡ sent % n) × (sent + 1 < seen + n)
writes_last n sent seen t b rests h e = cc
writes_last n sent seen t b (has_tail x s) h e = cc
writes_last n sent seen t b (has_room x s k) h e = ground (arith, h.0, h.1.1)
writes_last n sent seen t b (has_written x s k) h e = ground (arith, h.0, h.1.1.0)

reads_first :
    {A : Type 0} (n received seen t : ℕ) (pending : List A) (c : Consumer A)
    → IsConsuming n received seen pending c
    → read_slot c ≡ some t
    → (t ≡ received % n) × (received < seen)
reads_first n received seen t pending waits h e = cc
reads_first n received seen t pending (has_head s) h e = cc
reads_first n received seen t pending (has_item s) h e = ground (arith, h.0, h.1)
reads_first n received seen t pending (has_read s x) h e = ground (arith, h.0, h.1.0)

module _ {A : Type 0} (n : ℕ) (b : ℕ → A) (m : Machine A) where
  -- However the accesses of one thread in `try_enqueue` and one in `try_dequeue` come in turn,
  -- where each reads the index of the other as some value since its last read, the items received
  -- are the first ones sent, in order, and fewer than the ring has slots are on the way.
  pub received_in_order :
      0 < n
      → Steps n (initial b) m
      → (pending : List A) × (m.sent ≡ m.received ++ pending) × (length pending < n)
  received_in_order h r =
      let s = Steps-IsSound n r (initial-IsSound n b h) in
      (s.pending, s.flow.in_order, omega (arith, counts n s, s.seen.room, s.seen.heads_seen))

  -- However the accesses of the two threads come in turn, the slot that the producer moves an
  -- item into and the one that the consumer moves an item out of are different slots of the ring.
  pub no_race :
      (t h : ℕ)
      → 0 < n
      → Steps n (initial b) m
      → written_slot m.producer ≡ some t
      → read_slot m.consumer ≡ some h
      → (t ≢ h) × ((t < n) × (h < n))
  no_race t h pos r e f =
      let s = Steps-IsSound n r (initial-IsSound n b pos) in
      let (at, room) =
        writes_last n (length m.sent) m.seen_heads t m.queue.buffer m.producer s.producing e in
      let (of, there) =
        reads_first n (length m.received) m.seen_tails h s.pending m.consumer s.consuming f in
      let apart =
        mod-apart n (length m.received) (length m.sent) (omega (arith, there, s.seen.tails_seen))
          (omega (arith, room, s.seen.heads_seen)) in
      (
        λ same. apart (sym at ∙ same ∙ of),
        (
          omega (arith, at, mod-lt (length m.sent) {m = n} pos),
          omega (arith, of, mod-lt (length m.received) {m = n} pos),
        ),
      )
