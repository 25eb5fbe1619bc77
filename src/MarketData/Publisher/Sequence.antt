-- ===== src/MarketData/Publisher/Sequence.antt =====
-- The reports of a symbol are numbered one after the other.
use titan_engine.Prelude.{
  OnSome, ℕ, ◌≡◌, refl, ap, ◌∙◌, subst, List, [], ◌∷◌, ◌++◌, Option, none, some, ◌==◌,
  if◌then◌else◌, add64, arith, Bool-cases, Option-cases, inl, inr, nat_eq, bytes_key,
}
use titan_engine.Prelude.Assoc.{lookup-insert}
use titan_engine.Core.{
  Symbol, EventPayload, order_submitted, order_cancelled, order_replaced, trade_executed,
  order_rejected, Event,
}
use titan_engine.MarketData.Publisher.{
  ExecutionReport, OrderState, EventPublisher, or_else, next_of, push_report, put_state, state_of,
  handle_submitted, handle_cancelled, handle_replaced, handle_rejected, emit_fill, process, publish,
  and_then, filled_state, fill_report, new_state, submitted_state, submitted_report,
  cancelled_report, replaced_state, replaced_report, rejected_report,
}

-- The sequence numbers of the reports of a symbol, in order.
unfoldable pub numbers : Symbol → List ExecutionReport → List ℕ
numbers s [] = []
numbers s (r ∷ rs) =
    let rest = numbers s rs in if bytes_key.beq r.symbol s then r.sequence_number ∷ rest else rest

-- Numbers that count on from `k`, at 64 bits, with `n` for the next one.
abbrev pub IsCounted : ℕ → List ℕ → ℕ → Type 0
IsCounted k [] n = n ≡ k
IsCounted k (x ∷ xs) n = (x ≡ k) × IsCounted (add64 k 1) xs n

IsCounted-append :
    (k n : ℕ) (xs : List ℕ) → IsCounted k xs n → IsCounted k (xs ++ n ∷ []) (add64 n 1)
IsCounted-append k n [] h = (h, ap (λ x. add64 x 1) h)
IsCounted-append k n (x ∷ xs) h = (h.0, IsCounted-append (add64 k 1) n xs h.1)

numbers-append :
    (s : Symbol) (rs : List ExecutionReport) (r : ExecutionReport)
    → numbers s (rs ++ r ∷ [])
      ≡ (if bytes_key.beq r.symbol s then numbers s rs ++ r.sequence_number ∷ [] else numbers s rs)
unfolding numbers
numbers-append s [] r = refl
numbers-append s (x ∷ rs) r = ground (arith, numbers-append s rs r)

-- For each symbol the reports are numbered from 0 on, and the counter has the next number.
abbrev pub IsSequenced : EventPublisher → Type 0
IsSequenced p = (s : Symbol) → IsCounted 0 (numbers s p.reports) (next_of s p)

push_report-IsSequenced :
    (report : ℕ → ExecutionReport) (s : Symbol) (p : EventPublisher)
    → ((n : ℕ) → (report n).symbol ≡ s)
    → ((n : ℕ) → (report n).sequence_number ≡ n)
    → IsSequenced p
    → IsSequenced (push_report report s p)
unfolding push_report next_of
push_report-IsSequenced report s p own num h t =
    let n = next_of s p in
    let counter = lookup-insert s t (add64 n 1) p.next_sequence_number in
    elim (Bool-cases (bytes_key.beq s t)) [
      | inl same ↦
          let eq : s ≡ t = (bytes_key.beq_iff s t).0 same in
          let grown : numbers t (p.reports ++ report n ∷ []) ≡ numbers t p.reports ++ n ∷ [] =
            numbers-append t p.reports (report n) ∙ rw (own n, same, num n) refl in
          let next : next_of t (push_report report s p) ≡ add64 n 1 =
            ap (or_else 0) counter ∙ rw same refl in
          rw (grown, next)
            (IsCounted-append 0 n (numbers t p.reports)
              (subst (λ x. IsCounted 0 (numbers x p.reports) (next_of s p)) eq (h s)))
      | inr other ↦
          let kept : numbers t (p.reports ++ report n ∷ []) ≡ numbers t p.reports =
            numbers-append t p.reports (report n) ∙ rw (own n, other) refl in
          let next : next_of t (push_report report s p) ≡ next_of t p =
            ap (or_else 0) counter ∙ rw other refl in
          rw (kept, next) (h t)
    ]

put_state-IsSequenced :
    (s : Symbol) (i : ℕ) (x : OrderState) (p : EventPublisher)
    → IsSequenced p
    → IsSequenced (put_state s i x p)
unfolding put_state next_of
put_state-IsSequenced s i x p h = h

emit_fill-IsSequenced :
    (s : Symbol) (i qty px : ℕ) (p : EventPublisher)
    → IsSequenced p
    → OnSome IsSequenced (emit_fill s i qty px p)
unfolding emit_fill
emit_fill-IsSequenced s i qty px p h = elim (Option-cases (state_of s i p)) [
  | inl e ↦ rw (OnSome, emit_fill, e) h
  | inr (x, e) ↦
      let x' = filled_state qty px x in
      elim (Bool-cases (x'.cum_qty == 0)) [
        | inl z ↦ rw (OnSome, emit_fill, e, z) tt
        | inr z ↦
            rw (OnSome, emit_fill, e, z)
              (push_report-IsSequenced (fill_report s i qty px x') s (put_state s i x' p)
                (λ n. refl) (λ n. refl) (put_state-IsSequenced s i x' p h))
      ]
]

and_then-IsSequenced :
    (f : EventPublisher → Option EventPublisher) (x : Option EventPublisher)
    → ((p : EventPublisher) → IsSequenced p → OnSome IsSequenced (f p))
    → OnSome IsSequenced x
    → OnSome IsSequenced (and_then f x)
and_then-IsSequenced f none g h = tt
and_then-IsSequenced f (some p) g h = g p h

pub process-IsSequenced :
    (e : EventPayload) (p : EventPublisher) → IsSequenced p → OnSome IsSequenced (process e p)
unfolding process handle_submitted handle_cancelled handle_replaced handle_rejected
process-IsSequenced (order_submitted s i side price quantity) p h =
    push_report-IsSequenced (submitted_report s i quantity) s
      (put_state s i (submitted_state quantity) p) (λ n. refl) (λ n. refl)
      (put_state-IsSequenced s i (submitted_state quantity) p h)
process-IsSequenced (order_cancelled s i) p h =
    push_report-IsSequenced (cancelled_report s i (or_else new_state (state_of s i p))) s p
      (λ n. refl) (λ n. refl) h
process-IsSequenced (order_replaced s i price quantity) p h =
    let x = replaced_state quantity (or_else new_state (state_of s i p)) in
    push_report-IsSequenced (replaced_report s i price quantity x) s (put_state s i x p) (λ n. refl)
      (λ n. refl) (put_state-IsSequenced s i x p h)
process-IsSequenced (trade_executed s i j price quantity) p h =
    and_then-IsSequenced (emit_fill s j quantity price) (emit_fill s i quantity price p)
      (λ q. emit_fill-IsSequenced s j quantity price q)
      (emit_fill-IsSequenced s i quantity price p h)
process-IsSequenced (order_rejected s i reason) p h =
    push_report-IsSequenced (rejected_report s i reason) s p (λ n. refl) (λ n. refl) h

-- A publisher whose reports are numbered from 0 on for each symbol, with the counter at the next
-- number, is so after every list of events that it gets through.
pub publish-IsSequenced :
    (es : List Event) (p : EventPublisher) → IsSequenced p → OnSome IsSequenced (publish es p)
unfolding publish
publish-IsSequenced [] p h = h
publish-IsSequenced (e ∷ es) p h =
    and_then-IsSequenced (publish es) (process e.payload p) (λ q. publish-IsSequenced es q)
      (process-IsSequenced e.payload p h)
