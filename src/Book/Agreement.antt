-- ===== src/Book/Agreement.antt =====
-- The two matchers behind `IMatcher` (include/titan/book/i_matcher.hpp), driven by the same calls.
use titan_engine.Prelude.{
  ℕ, ◌+◌, ◌≡◌, refl, sym, subst, ◌∙◌, ap, List, [], ◌∷◌, ◌++◌, Option, none, some,
}
use titan_engine.Core.{Order, Trade}
use titan_engine.Book.Spec
use titan_engine.Book.Spec.{Queues}
use titan_engine.Book.Spec.Safety.{IsBook, match_order-IsBook, cancel_order-IsBook}
use titan_engine.Book.Ladder.{count_id}
use titan_engine.Book.Reference
use titan_engine.Book.Optimized

-- The calls of `IMatcher` that change the book.
pub data Call : Type 0 where
  match : Order → Call
  cancel : ℕ → Call

-- What a list of calls does to the specification.
unfoldable pub run : List Call → Queues → Queues × List Trade
run [] q = (q, [])
run (cancel i ∷ cs) q = run cs (Spec.cancel_order i q)
run (match o ∷ cs) q =
    let (q', ts) = Spec.match_order o q in let (q'', us) = run cs q' in (q'', ts ++ us)

-- No call submits an id that rests at that time.
abbrev pub AreFresh : List Call → Queues → Type 0
AreFresh [] q = Unit
AreFresh (cancel i ∷ cs) q = AreFresh cs (Spec.cancel_order i q)
AreFresh (match o ∷ cs) q =
    (count_id o.id q.bids + count_id o.id q.asks ≡ 0) × AreFresh cs (Spec.match_order o q).0

-- A call after which the rest of the calls runs; `none` is a call that does not end.
abbrev pub then_run {ℓ} :
    {M : Type ℓ} → (M → Option (M × List Trade)) → Option (M × List Trade) → Option (M × List Trade)
then_run k none = none
then_run k (some (m, ts)) = elim (k m) [ none ↦ none | some (m', us) ↦ some (m', ts ++ us) ]

unfoldable pub run_reference :
    List Call → Reference.Matcher → Option (Reference.Matcher × List Trade)
run_reference [] m = some (m, [])
run_reference (cancel i ∷ cs) m = run_reference cs (Reference.cancel_order i m)
run_reference (match o ∷ cs) m = then_run (run_reference cs) (Reference.match_order o m)

unfoldable pub run_optimized :
    List Call → Optimized.Matcher → Option (Optimized.Matcher × List Trade)
run_optimized [] m = some (m, [])
run_optimized (cancel i ∷ cs) m = run_optimized cs (Optimized.cancel_order i m)
run_optimized (match o ∷ cs) m = then_run (run_optimized cs) (Optimized.match_order o m)

-- From a valid state, `ReferenceMatcher` ends every list of match and cancel calls with the
-- trades and the queues of the two-queue book and in a valid state, if no call submits an id that
-- rests at that time.
pub run_reference-refines :
    (cs : List Call) (m : Reference.Matcher) (q : Queues)
    → Reference.Table.IsValid m
    → Reference.Table.queues m ≡ q
    → AreFresh cs q
    → (m' : Reference.Matcher) × (run_reference cs m ≡ some (m', (run cs q).1))
      × Reference.Table.IsValid m'
      × (Reference.Table.queues m' ≡ (run cs q).0)
unfolding run run_reference
run_reference-refines [] m q v e f = (m, refl, v, e)
run_reference-refines (cancel i ∷ cs) m q v e f =
    let (valid, c) = Reference.Refines.cancel_order-refines i m v in
    run_reference-refines cs (Reference.cancel_order i m) (Spec.cancel_order i q) valid
      (c ∙ ap (Spec.cancel_order i) e) f
run_reference-refines (match o ∷ cs) m q v e f =
    let (m₁, ts, r₁, v₁, e₁, t₁) =
      Reference.Refines.match_order-refines o m v
        (subst (λ x. count_id o.id x.bids + count_id o.id x.asks ≡ 0) (sym e) f.0) in
    let (m', r, v', e') =
      run_reference-refines cs m₁ (Spec.match_order o q).0 v₁
        (e₁ ∙ ap (λ x. (Spec.match_order o x).0) e) f.1 in
    let t = t₁ ∙ ap (λ x. (Spec.match_order o x).1) e in (m', rw (r₁, r, t), v', e')

-- From a valid state, `OptimizedMatcher` ends every list of match and cancel calls with the
-- trades and the queues of the two-queue book and in a valid state, if no call submits an id that
-- rests at that time.
pub run_optimized-refines :
    (cs : List Call) (m : Optimized.Matcher) (q : Queues)
    → Optimized.Table.IsValid m
    → Optimized.Table.queues m ≡ q
    → AreFresh cs q
    → (m' : Optimized.Matcher) × (run_optimized cs m ≡ some (m', (run cs q).1))
      × Optimized.Table.IsValid m'
      × (Optimized.Table.queues m' ≡ (run cs q).0)
unfolding run run_optimized
run_optimized-refines [] m q v e f = (m, refl, v, e)
run_optimized-refines (cancel i ∷ cs) m q v e f =
    let (valid, c) = Optimized.Refines.cancel_order-refines i m v in
    run_optimized-refines cs (Optimized.cancel_order i m) (Spec.cancel_order i q) valid
      (c ∙ ap (Spec.cancel_order i) e) f
run_optimized-refines (match o ∷ cs) m q v e f =
    let (m₁, ts, r₁, v₁, e₁, t₁) =
      Optimized.Refines.match_order-refines o m v
        (subst (λ x. count_id o.id x.bids + count_id o.id x.asks ≡ 0) (sym e) f.0) in
    let (m', r, v', e') =
      run_optimized-refines cs m₁ (Spec.match_order o q).0 v₁
        (e₁ ∙ ap (λ x. (Spec.match_order o x).0) e) f.1 in
    let t = t₁ ∙ ap (λ x. (Spec.match_order o x).1) e in (m', rw (r₁, r, t), v', e')

-- Started in valid states with the same queues, `ReferenceMatcher` and `OptimizedMatcher` answer
-- every list of match and cancel calls, end each call, return the same trades and keep the same
-- queues, if no call submits an id that rests at that time.
pub run_agreement :
    (cs : List Call) (m : Reference.Matcher) (n : Optimized.Matcher)
    → Reference.Table.IsValid m
    → Optimized.Table.IsValid n
    → Reference.Table.queues m ≡ Optimized.Table.queues n
    → AreFresh cs (Reference.Table.queues m)
    → (m' : Reference.Matcher) × (n' : Optimized.Matcher) × (ts : List Trade) × (run_reference cs m
        ≡ some (m', ts))
      × (run_optimized cs n ≡ some (n', ts))
      × (Reference.Table.queues m' ≡ Optimized.Table.queues n')
run_agreement cs m n v w e f =
    let q = Reference.Table.queues m in
    let (m', r, _, a) = run_reference-refines cs m q v refl f in
    let (n', s, _, b) = run_optimized-refines cs n q w (sym e) f in
    (m', n', (run cs q).1, r, s, a ∙ sym b)

-- No list of calls makes a bid reach an ask, or leaves an order without quantity or out of order.
pub run-IsBook : (cs : List Call) (q : Queues) → IsBook q → IsBook (run cs q).0
unfolding run
run-IsBook [] q b = b
run-IsBook (cancel i ∷ cs) q b = run-IsBook cs (Spec.cancel_order i q) (cancel_order-IsBook i q b)
run-IsBook (match o ∷ cs) q b = run-IsBook cs (Spec.match_order o q).0 (match_order-IsBook o q b)
