-- ===== src/Queue/Runs.antt =====
-- Lists of calls of one `SpscQueue` by one thread.
use titan_engine.Prelude.{
  ℕ, ◌+◌, ◌<◌, ◌≡◌, refl, sym, ap, ap₂, ◌∙◌, List, [], ◌∷◌, ◌++◌, length, Bool, true, false, ◌==◌,
  Option, some, arith, map, length-append, append-nil, append_assoc,
}
use titan_engine.Queue.{SpscQueue, try_enqueue, try_dequeue}
use titan_engine.Queue.Contents.{enqueue, dequeue, IsRing, try_enqueue-IsRing, try_dequeue-IsRing}

pub data Call {ℓ} (A : Type ℓ) : Type ℓ where
  put : A → Call A
  get : Call A

pub data Answer {ℓ} (A : Type ℓ) : Type ℓ where
  was_put : Bool → Answer A
  was_got : Option A → Answer A

-- A queue that no call was made on.
abbrev pub fresh {ℓ} : {A : Type ℓ} → (ℕ → A) → SpscQueue A
fresh b = record { buffer = b; head = 0; tail = 0 }

module _ {A : Type 0} (n : ℕ) where
  unfoldable pub call : Call A → SpscQueue A → Answer A × SpscQueue A
  unfolding try_enqueue try_dequeue
  call (put x) q = (was_put (try_enqueue n x q).0, (try_enqueue n x q).1)
  call get q = (was_got (try_dequeue n q).0, (try_dequeue n q).1)

  unfoldable pub run : List (Call A) → SpscQueue A → List (Answer A)
  unfolding call
  run [] q = []
  run (c ∷ cs) q = (call c q).0 ∷ run cs (call c q).1

  -- The same calls on a bounded list.
  abbrev pub listed : Call A → List A → Answer A × List A
  listed (put x) xs = (was_put (enqueue n x xs).0, (enqueue n x xs).1)
  listed get xs = (was_got (dequeue xs).0, (dequeue xs).1)

  unfoldable pub run_listed : List (Call A) → List A → List (Answer A)
  run_listed [] xs = []
  run_listed (c ∷ cs) xs = (listed c xs).0 ∷ run_listed cs (listed c xs).1

  call-IsRing :
      (c : Call A) (q : SpscQueue A) (xs : List A)
      → IsRing n q xs
      → ((call c q).0 ≡ (listed c xs).0) × IsRing n (call c q).1 (listed c xs).1
  unfolding call
  call-IsRing (put x) q xs h = let (e, k) = try_enqueue-IsRing n x q xs h in (ap was_put e, k)
  call-IsRing get q xs h = let (e, k) = try_dequeue-IsRing n q xs h in (ap was_got e, k)

  -- A queue whose ring holds a list of items answers every list of calls of one thread as the
  -- list of at most one item less than slots does, first in, first out.
  pub run-refines :
      (cs : List (Call A)) (q : SpscQueue A) (xs : List A)
      → IsRing n q xs
      → run cs q ≡ run_listed cs xs
  unfolding run run_listed
  run-refines [] q xs h = refl
  run-refines (c ∷ cs) q xs h =
      let (e, k) = call-IsRing c q xs h in
      ap₂ (λ a rest. a ∷ rest) e (run-refines cs (call c q).1 (listed c xs).1 k)

  pub fresh-IsRing : (b : ℕ → A) → 0 < n → IsRing n (fresh b) []
  fresh-IsRing b h = record {
    start = 0;
    at_head = omega arith;
    at_tail = omega arith;
    bounded = h;
    holds = tt;
  }

  -- As many gets rest there are items.
  abbrev pub gets : List A → List (Call A)
  gets [] = []
  gets (x ∷ xs) = get ∷ gets xs

  listed-gets : (xs : List A) → run_listed (gets xs) xs ≡ map (λ x. was_got (some x)) xs
  unfolding run_listed
  listed-gets [] = refl
  listed-gets (x ∷ xs) = ap (λ rest. was_got (some x) ∷ rest) (listed-gets xs)

  listed-puts :
      (xs ys : List A) (cs : List (Call A))
      → length ys + length xs < n
      → run_listed (map put xs ++ cs) ys ≡ map (λ x. was_put true) xs ++ run_listed cs (ys ++ xs)
  unfolding run_listed
  listed-puts [] ys cs h = ap (run_listed cs) (sym (append-nil ys))
  listed-puts (x ∷ xs) ys cs h =
      let room : (length ys + 1 == n) ≡ false = ground arith in
      rw room (
        ap (λ rest. was_put true ∷ rest)
          (listed-puts xs (ys ++ x ∷ []) cs (omega (arith, length-append ys (x ∷ [])))
            ∙ ap (λ zs. map (λ x. was_put true) xs ++ run_listed cs zs)
                (append_assoc ys (x ∷ []) xs)))

  -- Fewer items than the ring has slots, put into a new queue one after the other by one thread,
  -- are all taken, and as many calls of `try_dequeue` give them back in order.
  pub put-get :
      (xs : List A) (b : ℕ → A)
      → length xs < n
      → run (map put xs ++ gets xs) (fresh b)
        ≡ map (λ x. was_put true) xs ++ map (λ x. was_got (some x)) xs
  put-get xs b h =
      run-refines (map put xs ++ gets xs) (fresh b) [] (fresh-IsRing b (omega arith))
      ∙ listed-puts xs [] (gets xs) (omega (arith, h))
      ∙ ap (λ rest. map (λ x. was_put true) xs ++ rest) (listed-gets xs)
