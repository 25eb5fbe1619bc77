-- ===== src/MarketData/Publisher/Total.antt =====
-- `EventPublisher::emitFill` divides by a cumulative quantity that is not 0.
use titan_engine.Prelude.{
  ℕ, ◌+◌, ◌*◌, ◌<◌, ◌≤◌, ◌≡◌, refl, sym, ap, ◌∙◌, false, ◌&&◌, List, [], ◌∷◌, Option, some, ◌==◌,
  if◌then◌else◌, u64_mod, arith, Bool-cases, Option-cases, inl, inr, nat_eq, bytes_key,
}
use titan_engine.Prelude.Assoc.{lookup, insert, lookup-insert}
use titan_engine.Core.{
  Symbol, EventPayload, order_submitted, order_cancelled, order_replaced, trade_executed,
  order_rejected, Event,
}
use titan_engine.MarketData.Publisher.{
  ExecutionReport, OrderState, EventPublisher, clear, or_else, push_report, put_state, state_of,
  states_of, handle_submitted, handle_cancelled, handle_replaced, handle_rejected, emit_fill,
  process, publish, and_then, filled_state, fill_report, new_state, submitted_state,
  submitted_report, cancelled_report, replaced_state, replaced_report, rejected_report,
}

pub state_of-put_state :
    (s t : Symbol) (i j : ℕ) (x : OrderState) (p : EventPublisher)
    → state_of t j (put_state s i x p)
      ≡ (if bytes_key.beq s t && (i == j) then some x else state_of t j p)
unfolding state_of put_state states_of
state_of-put_state s t i j x p =
    let outer =
      ap (λ m. lookup j (or_else [] m))
        (lookup-insert s t (insert i x (states_of s p)) p.order_states) in
    elim (Bool-cases (bytes_key.beq s t)) [
      | inl same ↦
          let eq : s ≡ t = (bytes_key.beq_iff s t).0 same in
          outer ∙ rw (same, ← eq) (lookup-insert i j x (states_of s p))
      | inr other ↦ outer ∙ rw other refl
    ]

-- No order has traded more than `n`.
abbrev pub IsWithin : ℕ → EventPublisher → Type 0
IsWithin n p = (s : Symbol) (i : ℕ) (x : OrderState) → state_of s i p ≡ some x → x.cum_qty ≤ n

put_state-IsWithin :
    (s : Symbol) (i n : ℕ) (x : OrderState) (p : EventPublisher)
    → x.cum_qty ≤ n
    → IsWithin n p
    → IsWithin n (put_state s i x p)
put_state-IsWithin s i n x p b h t j y e = elim (Bool-cases (bytes_key.beq s t && (i == j))) [
  | inl same ↦
      let it : some x ≡ some y = sym (state_of-put_state s t i j x p ∙ rw same refl) ∙ e in
      let eq : x ≡ y = ground arith in rw (← eq) b
  | inr other ↦ h t j y (sym (state_of-put_state s t i j x p ∙ rw other refl) ∙ e)
]

push_report-IsWithin :
    (report : ℕ → ExecutionReport) (s : Symbol) (n : ℕ) (p : EventPublisher)
    → IsWithin n p
    → IsWithin n (push_report report s p)
unfolding push_report state_of states_of
push_report-IsWithin report s n p h = h

-- The state of an order, or the empty one, has not traded more either.
known-IsWithin :
    (s : Symbol) (i n : ℕ) (p : EventPublisher)
    → IsWithin n p
    → (or_else new_state (state_of s i p)).cum_qty ≤ n
known-IsWithin s i n p h = elim (Option-cases (state_of s i p)) [
  | inl e ↦ rw e (omega arith)
  | inr (x, e) ↦ rw e (h s i x e)
]

IsWithin-weaken : (n m : ℕ) (p : EventPublisher) → n ≤ m → IsWithin n p → IsWithin m p
IsWithin-weaken n m p le h s i x e = omega (arith, h s i x e)

-- The event ends, and no order has traded more than `n` then.
abbrev Ends : ℕ → Option EventPublisher → Type 0
Ends n r = (p : EventPublisher) × (r ≡ some p) × IsWithin n p

emit_fill-Ends :
    (s : Symbol) (i qty px n : ℕ) (p : EventPublisher)
    → 0 < qty
    → n + qty < u64_mod
    → IsWithin n p
    → Ends (n + qty) (emit_fill s i qty px p)
unfolding emit_fill
emit_fill-Ends s i qty px n p pos room h = elim (Option-cases (state_of s i p)) [
  | inl e ↦ (p, rw (emit_fill, e) refl, IsWithin-weaken n (n + qty) p (omega arith) h)
  | inr (x, e) ↦
      let x' = filled_state qty px x in
      let old = h s i x e in
      let sum : x'.cum_qty ≡ x.cum_qty + qty = omega arith in
      let some_traded : (x'.cum_qty == 0) ≡ false = ground (arith, sum) in
      (
        push_report (fill_report s i qty px x') s (put_state s i x' p),
        rw (emit_fill, e, some_traded) refl,
        push_report-IsWithin (fill_report s i qty px x') s (n + qty) (put_state s i x' p) (
            put_state-IsWithin s i (n + qty) x' p (omega (arith, sum))
              (IsWithin-weaken n (n + qty) p (omega arith) h)),
      )
]

-- What an event adds to the quantity that an order may have traded: a trade fills two orders.
abbrev pub traded : EventPayload → ℕ
traded (trade_executed s i j price quantity) = 2 * quantity
traded (order_submitted s i side price quantity) = 0
traded (order_cancelled s i) = 0
traded (order_replaced s i price quantity) = 0
traded (order_rejected s i reason) = 0

-- A trade is of a positive quantity.
abbrev pub IsFair : EventPayload → Type 0
IsFair (trade_executed s i j price quantity) = 0 < quantity
IsFair (order_submitted s i side price quantity) = Unit
IsFair (order_cancelled s i) = Unit
IsFair (order_replaced s i price quantity) = Unit
IsFair (order_rejected s i reason) = Unit

process-Ends :
    (e : EventPayload) (n : ℕ) (p : EventPublisher)
    → IsFair e
    → n + traded e < u64_mod
    → IsWithin n p
    → Ends (n + traded e) (process e p)
unfolding process handle_submitted handle_cancelled handle_replaced handle_rejected
process-Ends (order_submitted s i side price quantity) n p f room h =
    let x = submitted_state quantity in
    let h = IsWithin-weaken n (n + 0) p (omega arith) h in
    (
      handle_submitted s i quantity p,
      refl,
      push_report-IsWithin (submitted_report s i quantity) s (n + 0) (put_state s i x p)
          (put_state-IsWithin s i (n + 0) x p (omega arith) h),
    )
process-Ends (order_cancelled s i) n p f room h =
    let h = IsWithin-weaken n (n + 0) p (omega arith) h in
    (
      handle_cancelled s i p,
      refl,
      push_report-IsWithin (cancelled_report s i (or_else new_state (state_of s i p))) s (n + 0) p
          h,
    )
process-Ends (order_replaced s i price quantity) n p f room h =
    let x = replaced_state quantity (or_else new_state (state_of s i p)) in
    let h = IsWithin-weaken n (n + 0) p (omega arith) h in
    (
      handle_replaced s i price quantity p,
      refl,
      push_report-IsWithin (replaced_report s i price quantity x) s (n + 0) (put_state s i x p)
          (put_state-IsWithin s i (n + 0) x p (known-IsWithin s i (n + 0) p h) h),
    )
process-Ends (trade_executed s i j price quantity) n p f room h =
    let (q, e, hq) = emit_fill-Ends s i quantity price n p f (omega arith) h in
    let (r, d, hr) = emit_fill-Ends s j quantity price (n + quantity) q f (omega arith) hq in
    (
      r,
      ap (and_then (emit_fill s j quantity price)) e ∙ d,
      IsWithin-weaken (n + quantity + quantity) (n + 2 * quantity) r (omega arith) hr,
    )
process-Ends (order_rejected s i reason) n p f room h =
    let h = IsWithin-weaken n (n + 0) p (omega arith) h in
    (
      handle_rejected s i reason p,
      refl,
      push_report-IsWithin (rejected_report s i reason) s (n + 0) p h,
    )

unfoldable pub total_traded : List Event → ℕ
total_traded [] = 0
total_traded (e ∷ es) = traded e.payload + total_traded es

abbrev pub AreFair : List Event → Type 0
AreFair [] = Unit
AreFair (e ∷ es) = IsFair e.payload × AreFair es

publish-Ends :
    (es : List Event) (n : ℕ) (p : EventPublisher)
    → AreFair es
    → n + total_traded es < u64_mod
    → IsWithin n p
    → Ends (n + total_traded es) (publish es p)
unfolding publish total_traded
publish-Ends [] n p f room h = (p, refl, IsWithin-weaken n (n + 0) p (omega arith) h)
publish-Ends (e ∷ es) n p f room h =
    let (q, d, hq) = process-Ends e.payload n p f.0 (omega arith) h in
    let (r, c, hr) = publish-Ends es (n + traded e.payload) q f.1 (omega arith) hq in
    (
      r,
      ap (and_then (publish es)) d ∙ c,
      IsWithin-weaken (n + traded e.payload + total_traded es)
          (n + (traded e.payload + total_traded es)) r (omega arith) hr,
    )

clear-IsWithin : IsWithin 0 clear
unfolding state_of states_of lookup
clear-IsWithin s i x e = cc

-- From the cleared publisher, a list of events whose trades are positive and of less than 2 ^ 64
-- in all, twice counted, is got through without a division by zero, and no order has traded more
-- than that.
pub publish_total :
    (es : List Event)
    → AreFair es
    → total_traded es < u64_mod
    → (p : EventPublisher) × (publish es clear ≡ some p) × IsWithin (total_traded es) p
publish_total es f room =
    let (p, e, h) = publish-Ends es 0 clear f (omega arith) clear-IsWithin in
    (p, e, IsWithin-weaken (0 + total_traded es) (total_traded es) p (omega arith) h)
