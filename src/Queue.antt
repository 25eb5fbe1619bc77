-- ===== src/Queue.antt =====
-- `SpscQueue` of include/titan/pipeline/spsc_queue.hpp: a ring of `n` slots with one left empty. The
-- capacity is a power of two there, so `& kMask` is the remainder by it.
use titan_engine.Prelude.{
  ℕ, ◌+◌, ◌-◌, ◌%◌, Bool, true, false, Option, none, some, ◌==◌, if◌then◌else◌, sub64,
}
pub mod Slots
pub mod Contents
pub mod Runs
pub mod Machine
mod Tests

-- `buffer_` as the function from an index to the item there; `advance` keeps the index below `n`.
pub record SpscQueue {ℓ} (A : Type ℓ) : Type ℓ where
  pub buffer : ℕ → A
  pub head : ℕ
  pub tail : ℕ

abbrev pub write {ℓ} : {A : Type ℓ} → ℕ → A → (ℕ → A) → ℕ → A
write i x b j = if i == j then x else b j

unfoldable pub advance : ℕ → ℕ → ℕ
advance n index = (index + 1) % n

abbrev pub capacity : ℕ → ℕ
capacity n = n - 1

module _ {ℓ} {A : Type ℓ} (n : ℕ) where
  unfoldable pub try_enqueue : A → SpscQueue A → Bool × SpscQueue A
  unfolding advance
  try_enqueue item q =
      let next = advance n q.tail in
      if next == q.head
      then (false, q)
      else (true, record q { buffer = write q.tail item q.buffer; tail = next })

  -- `none` for `false`, else the item that is moved to `out`.
  unfoldable pub try_dequeue : SpscQueue A → Option A × SpscQueue A
  unfolding advance
  try_dequeue q =
      if q.head == q.tail
      then (none, q)
      else (some (q.buffer q.head), record q { head = advance n q.head })

  unfoldable pub empty : SpscQueue A → Bool
  empty q = q.head == q.tail

  unfoldable pub full : SpscQueue A → Bool
  unfolding advance
  full q = advance n q.tail == q.head

  unfoldable pub size : SpscQueue A → ℕ
  size q = sub64 q.tail q.head % n
