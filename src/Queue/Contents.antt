-- ===== src/Queue/Contents.antt =====
-- `SpscQueue`, used by one thread, against a bounded list of items.
use native.Mathlib.Nat.{
  mod-add-mod, mod-eq_of_lt, add-mod_right, div-add-mod, mul_assoc, mul-suc, add-mul-mod_self_left,
  mod-lt, mul-add,
}
use titan_engine.Prelude.{
  ℕ, zero, suc, ◌+◌, ◌-◌, ◌*◌, ◌/◌, ◌%◌, ◌≤◌, ◌<◌, ◌≡◌, refl, sym, ap, ◌∙◌, List, [], ◌∷◌, ◌++◌,
  length, Bool, true, false, ◌==◌, Option, none, some, if◌then◌else◌, arith, u64_mod, Bool-cases,
  inl, inr, length-append, ==_iff,
}
use titan_engine.Queue.{
  SpscQueue, write, capacity, advance, try_enqueue, try_dequeue, empty, full, size,
}
use titan_engine.Queue.Slots.{Holds, Holds-write, Holds-snoc, mod-apart, advance-mod}

-- What the queue promises: at most `n - 1` items, first in, first out.
abbrev pub enqueue {ℓ} : {A : Type ℓ} → ℕ → A → List A → Bool × List A
enqueue n x xs = if length xs + 1 == n then (false, xs) else (true, xs ++ x ∷ [])

abbrev pub dequeue {ℓ} : {A : Type ℓ} → List A → Option A × List A
dequeue [] = (none, [])
dequeue (x ∷ xs) = (some x, xs)

-- The ring holds the items, from the head on.
pub record IsRing {ℓ} {A : Type ℓ} (n : ℕ) (q : SpscQueue A) (xs : List A) : Type ℓ where
  pub start : ℕ
  pub at_head : q.head ≡ start % n
  pub at_tail : q.tail ≡ (start + length xs) % n
  pub bounded : length xs < n
  pub holds : Holds n q.buffer start xs

-- The head and an index that is at most a round further are equal only where the places are.
pub same_place : (n r k : ℕ) → k < n → ((r + k) % n == r % n) ≡ (k == 0)
same_place n r k b = elim (Bool-cases (k == 0)) [
  | inl z ↦
      let it : r + k ≡ r = ground (arith, (==_iff k 0).0 z) in
      (==_iff ((r + k) % n) (r % n)).1 (ap (λ s. s % n) it) ∙ sym z
  | inr z ↦ ground (arith, mod-apart n r (r + k) (ground arith) (omega arith))
]

-- The test of `try_enqueue` finds out whether there are `n - 1` items.
full_test :
    {A : Type 0} (n : ℕ) (q : SpscQueue A) (xs : List A)
    → IsRing n q xs
    → (advance n q.tail == q.head) ≡ (length xs + 1 == n)
full_test n q xs h =
    let r = h.start in
    let s = r + length xs in
    let next : (advance n q.tail == q.head) ≡ ((s + 1) % n == r % n) =
      ap (λ k. k == q.head) (ap (advance n) h.at_tail ∙ advance-mod n s)
      ∙ ap (λ k. (s + 1) % n == k) h.at_head in
    elim (Bool-cases (length xs + 1 == n)) [
      | inl is_full ↦
          let round : (s + 1) % n ≡ r % n = ap (λ k. k % n) (ground arith) ∙ add-mod_right r n in
          next ∙ (==_iff ((s + 1) % n) (r % n)).1 round ∙ sym is_full
      | inr has_room ↦
          next
          ∙ ap (λ k. k % n == r % n) (omega arith)
          ∙ same_place n r (length xs + 1) (ground (arith, h.bounded))
          ∙ ground arith
    ]

pub try_enqueue-IsRing :
    {A : Type 0} (n : ℕ) (x : A) (q : SpscQueue A) (xs : List A)
    → IsRing n q xs
    → ((try_enqueue n x q).0 ≡ (enqueue n x xs).0)
      × IsRing n (try_enqueue n x q).1 (enqueue n x xs).1
unfolding try_enqueue
try_enqueue-IsRing n x q xs h =
    let r = h.start in
    let s = r + length xs in
    elim (Bool-cases (length xs + 1 == n)) [
      | inl is_full ↦ rw (full_test n q xs h, is_full) (refl, h)
      | inr has_room ↦
          rw (full_test n q xs h, has_room)
            (
              refl,
              record {
                start = r;
                at_head = h.at_head;
                at_tail =
                    ap (advance n) h.at_tail
                    ∙ advance-mod n s
                    ∙ ap (λ k. k % n) (omega (arith, length-append xs (x ∷ [])));
                bounded = ground (arith, length-append xs (x ∷ []), h.bounded);
                holds = rw h.at_tail (
                    Holds-snoc n (write (s % n) x q.buffer) r xs x
                      (Holds-write n q.buffer r s xs x (omega arith) (omega (arith, h.bounded))
                        h.holds)
                      (ground arith));
              },
            )
    ]

pub try_dequeue-IsRing :
    {A : Type 0} (n : ℕ) (q : SpscQueue A) (xs : List A)
    → IsRing n q xs
    → ((try_dequeue n q).0 ≡ (dequeue xs).0) × IsRing n (try_dequeue n q).1 (dequeue xs).1
unfolding try_dequeue
try_dequeue-IsRing n q [] h =
    let test : (q.head == q.tail) ≡ true =
      (==_iff q.head q.tail).1 (h.at_head ∙ ap (λ k. k % n) (omega arith) ∙ sym h.at_tail) in
    rw test (refl, h)
try_dequeue-IsRing n q (x ∷ xs) h =
    let r = h.start in
    let back : (q.tail == q.head) ≡ false =
      ap (λ k. k == q.head) h.at_tail
      ∙ ap (λ k. (r + suc (length xs)) % n == k) h.at_head
      ∙ same_place n r (suc (length xs)) h.bounded
      ∙ ground arith in
    let test : (q.head == q.tail) ≡ false = ground arith in
    rw test (
      ap some (ap q.buffer h.at_head ∙ h.holds.0),
      record {
        start = suc r;
        at_head = ap (advance n) h.at_head ∙ advance-mod n r ∙ ap (λ k. k % n) (omega arith);
        at_tail = h.at_tail ∙ ap (λ k. k % n) (omega arith);
        bounded = omega (arith, h.bounded);
        holds = h.holds.1;
      },
    )

-- The rest of a 64-bit word by a divisor of 2 ^ 64.
divisor-le : (n m w : ℕ) → n * m ≡ w → 0 < w → n ≤ w
divisor-le n zero w e h = absurd (omega arith)
divisor-le n (suc m) w e h = omega (arith, mul-suc n m)

mod-word : (n m x : ℕ) → n * m ≡ u64_mod → x % u64_mod % n ≡ x % n
mod-word n m x e =
    let d = div-add-mod x u64_mod in
    let split : x % u64_mod + n * (m * (x / u64_mod)) ≡ x =
      ap (λ k. x % u64_mod + k) (sym (mul_assoc n m (x / u64_mod)) ∙ ap (λ k. k * (x / u64_mod)) e)
      ∙ omega (arith, d) in
    sym (add-mul-mod_self_left (x % u64_mod) n (m * (x / u64_mod))) ∙ ap (λ k. k % n) split

-- On a queue whose ring holds a list of items, with a number of slots that divides 2 ^ 64, `size`
-- is the length of the list, `empty` tells whether that is 0 and `full` whether it is the
-- capacity.
pub queries :
    {A : Type 0} (n m : ℕ) (q : SpscQueue A) (xs : List A)
    → n * m ≡ u64_mod
    → IsRing n q xs
    → (size n q ≡ length xs)
      × (empty n q ≡ (length xs == 0))
      × (full n q ≡ (length xs == capacity n))
unfolding size empty full
queries n m q xs e h =
    let r = h.start in
    let s = r + length xs in
    let d = div-add-mod r n in
    let low : r % n ≤ n = omega (arith, mod-lt r {m = n} (omega (arith, h.bounded))) in
    let small : n ≤ u64_mod = divisor-le n m u64_mod e (omega arith) in
    let c = u64_mod - r % n in
    let whole : s + c ≡ length xs + n * (r / n + m) =
      omega (arith, d, low, small, e, mul-add n (r / n) m) in
    let counted : size n q ≡ length xs =
      mod-word n m (q.tail + u64_mod - q.head) e
      ∙ ap (λ k. k % n)
          (ap (λ t. t + u64_mod - q.head) h.at_tail ∙ ap (λ t. s % n + u64_mod - t) h.at_head)
      ∙ ap (λ k. k % n) (omega (arith, low, small))
      ∙ mod-add-mod s n c
      ∙ ap (λ k. k % n) whole
      ∙ add-mul-mod_self_left (length xs) n (r / n + m)
      ∙ mod-eq_of_lt h.bounded in
    let flip : empty n q ≡ (q.tail == q.head) = ground arith in
    let back : (q.tail == q.head) ≡ (length xs == 0) =
      ap (λ k. k == q.head) h.at_tail
      ∙ ap (λ k. s % n == k) h.at_head
      ∙ same_place n r (length xs) h.bounded in
    (counted, flip ∙ back, ap (λ k. k) (full_test n q xs h) ∙ ground (arith, h.bounded))
