-- ===== src/MarketData/Publisher/Fills.antt =====
-- What the fills of an order add up to in its reports.
use native.Mathlib.Nat.{
  le-div_iff_mul-le, div-lt_iff_lt-mul, suc-mul, mul-add, mul-le-mul_left, mul_comm,
}
use titan_engine.Prelude.{
  ℕ, suc, ◌+◌, ◌*◌, ◌/◌, ◌%◌, ◌<◌, ◌≤◌, ◌≡◌, refl, sym, ap, subst, ◌∙◌, false, List, [], ◌∷◌, ◌++◌,
  Option, some, ◌==◌, u64_mod, arith, nat_eq, bytes_key, All, append-nil, append_assoc,
}
use titan_engine.Core.{Symbol}
use titan_engine.MarketData.Publisher.{
  ExecutionReport, trade_exec, OrderState, EventPublisher, push_report, put_state, state_of,
  states_of, emit_fill, and_then, filled_state, fill_report,
}
use titan_engine.MarketData.Publisher.Total.{state_of-put_state}

-- The fills of one order, as pairs of a quantity and a price.
unfoldable pub emit_fills : Symbol → ℕ → List (ℕ × ℕ) → EventPublisher → Option EventPublisher
unfolding emit_fill
emit_fills s i [] p = some p
emit_fills s i ((qty, px) ∷ fs) p = and_then (emit_fills s i fs) (emit_fill s i qty px p)

unfoldable pub quantity_of : List (ℕ × ℕ) → ℕ
quantity_of [] = 0
quantity_of ((qty, px) ∷ fs) = qty + quantity_of fs

-- Each fill has a quantity and a price of at least `low` and at most `high`.
abbrev pub AreBetween : ℕ → ℕ → List (ℕ × ℕ) → Type 0
AreBetween low high fs = All (λ (f : ℕ × ℕ). (0 < f.0) × ((low ≤ f.1) × (f.1 ≤ high))) fs

-- What the report of a fill tells of an order of `original` that had traded `before` it.
pub record IsReport (s : Symbol) (i original low high before : ℕ) (f : ℕ × ℕ) (r : ExecutionReport)
    : Type 0 where
  pub symbol : r.symbol ≡ s
  pub order_id : r.order_id ≡ i
  pub exec_type : r.exec_type ≡ trade_exec
  pub last_qty : r.last_qty ≡ f.0
  pub last_px : r.last_px ≡ f.1
  pub cum_qty : r.cum_qty ≡ before + f.0
  pub leaves : r.cum_qty + r.leaves_qty ≡ original
  pub average : (low ≤ r.avg_px) × (r.avg_px ≤ high)

-- One report for each fill, in order, with the quantity traded so far.
abbrev pub AreReports :
    Symbol → (i original low high before : ℕ) → List (ℕ × ℕ) → List ExecutionReport → Type 0
AreReports s i original low high before [] [] = Unit
AreReports s i original low high before [] (r ∷ rs) = ⊥
AreReports s i original low high before (f ∷ fs) [] = ⊥
AreReports s i original low high before (f ∷ fs) (r ∷ rs) =
    IsReport s i original low high before f r
    × AreReports s i original low high (before + f.0) fs rs

-- The notional lies between the cumulative quantity at the lowest and at the highest price.
abbrev pub IsPriced : ℕ → ℕ → OrderState → Type 0
IsPriced low high x = (low * x.cum_qty ≤ x.cum_notional) × (x.cum_notional ≤ high * x.cum_qty)

average-between :
    (low high c n : ℕ) → 0 < c → low * c ≤ n → n ≤ high * c → (low ≤ n / c) × (n / c ≤ high)
average-between low high c n pos a b =
    let up : n / c < suc high = (div-lt_iff_lt-mul pos).1 (omega (arith, suc-mul high c)) in
    ((le-div_iff_mul-le pos).1 a, omega arith)

-- One more fill, which neither sum overflows on.
filled_state-IsPriced :
    (low high qty px : ℕ) (x : OrderState)
    → IsPriced low high x
    → (low ≤ px) × (px ≤ high)
    → x.cum_qty + qty ≤ x.original_qty
    → x.original_qty < u64_mod
    → high * x.original_qty < u64_mod
    → IsPriced low high (filled_state qty px x)
      × ((filled_state qty px x).cum_qty ≡ x.cum_qty + qty)
filled_state-IsPriced low high qty px x h f fits small room =
    let c = x.cum_qty in
    let n = x.cum_notional in
    let least : low * qty ≤ qty * px = omega (arith, mul_comm low qty, mul-le-mul_left qty f.0) in
    let most : qty * px ≤ high * qty = omega (arith, mul_comm high qty, mul-le-mul_left qty f.1) in
    let bound : high * (c + qty) ≤ high * x.original_qty = mul-le-mul_left high fits in
    let sum : n + qty * px ≤ high * (c + qty) = omega (arith, mul-add high c qty, most, h.1) in
    let base : low * (c + qty) ≤ n + qty * px = omega (arith, mul-add low c qty, least, h.0) in
    let added : (c + qty) % u64_mod ≡ c + qty = omega arith in
    let product : qty * px % u64_mod ≡ qty * px = omega (arith, sum, bound) in
    let paid : (n + qty * px) % u64_mod ≡ n + qty * px = omega (arith, sum, bound) in
    ((rw (added, product, paid) base, rw (added, product, paid) sum), added)

-- One fill of an order that the publisher knows.
emit_fill_known :
    (s : Symbol) (i qty px : ℕ) (x : OrderState) (p : EventPublisher)
    → state_of s i p ≡ some x
    → ((filled_state qty px x).cum_qty == 0) ≡ false
    → emit_fill s i qty px p
      ≡ some (
          push_report
            (fill_report s i qty px (filled_state qty px x))
            s
            (put_state s i (filled_state qty px x) p))
unfolding emit_fill
emit_fill_known s i qty px x p e z = rw (emit_fill, e, z) refl

pub state_of-push_report :
    (report : ℕ → ExecutionReport) (s : Symbol) (i : ℕ) (x : OrderState) (p : EventPublisher)
    → state_of s i (push_report report s (put_state s i x p)) ≡ some x
unfolding push_report state_of states_of
state_of-push_report report s i x p =
    state_of-put_state s s i i x p ∙ ground (arith, bytes_key.beq_iff s s)

reports-push_report :
    (report : ℕ → ExecutionReport) (s : Symbol) (i : ℕ) (x : OrderState) (p : EventPublisher)
    → (n : ℕ) × ((push_report report s (put_state s i x p)).reports ≡ p.reports ++ report n ∷ [])
unfolding push_report put_state
reports-push_report report s i x p = (_, refl)

-- Fills of an order that the publisher knows, handled by `EventPublisher::emitFill` one after the
-- other, with an average price between two bounds or nothing traded before, of quantities above 0
-- that stay within the order, of prices between the bounds, and of amounts below 2 ^ 64, add one
-- report each, in order: of that symbol and order, with the quantity and the price of the fill,
-- with the quantity traded so far as the cumulative one, with what is left of the order as the
-- leaves, and with an average price between the bounds; the state then has the sum of the fills.
pub emit_fills-AreReports :
    (low high : ℕ) (s : Symbol) (i : ℕ) (fs : List (ℕ × ℕ)) (x : OrderState) (p : EventPublisher)
    → state_of s i p ≡ some x
    → AreBetween low high fs
    → IsPriced low high x
    → x.cum_qty + quantity_of fs ≤ x.original_qty
    → x.original_qty < u64_mod
    → high * x.original_qty < u64_mod
    → (q : EventPublisher) × (rs : List ExecutionReport) × (y : OrderState) × (emit_fills s i fs p
        ≡ some q)
      × (q.reports ≡ p.reports ++ rs)
      × AreReports s i x.original_qty low high x.cum_qty fs rs
      × (state_of s i q ≡ some y)
      × (y.cum_qty ≡ x.cum_qty + quantity_of fs)
unfolding emit_fills quantity_of
emit_fills-AreReports low high s i [] x p e a h fits small room =
    (p, [], x, refl, sym (append-nil p.reports), tt, e, omega arith)
emit_fills-AreReports low high s i ((qty, px) ∷ fs) x p e a h fits small room =
    let y = filled_state qty px x in
    let (priced, sum) = filled_state-IsPriced low high qty px x h a.0.1 (omega arith) small room in
    let report = fill_report s i qty px y in
    let next = push_report report s (put_state s i y p) in
    let (n, reported) = reports-push_report report s i y p in
    let once = emit_fill_known s i qty px x p e (ground (arith, sum, a.0.0)) in
    let (q, rs, z, d, r, b, f, c) =
      emit_fills-AreReports low high s i fs y next (state_of-push_report report s i y p) a.1 priced
        (omega (arith, sum)) small room in
    (
      q,
      report n ∷ rs,
      z,
      ap (and_then (emit_fills s i fs)) once ∙ d,
      r ∙ ap (λ x. x ++ rs) reported ∙ append_assoc p.reports (report n ∷ []) rs,
      (
        record {
          symbol = refl;
          order_id = refl;
          exec_type = refl;
          last_qty = refl;
          last_px = refl;
          cum_qty = sum;
          leaves = omega (arith, sum);
          average =
              average-between low high y.cum_qty y.cum_notional (omega (arith, sum, a.0.0)) priced.0
                priced.1;
        },
        subst (λ c. AreReports s i x.original_qty low high c fs rs) sum b,
      ),
      f,
      omega (arith, c, sum),
    )
