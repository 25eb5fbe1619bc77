-- ===== src/Replay/Parity/Mismatches.antt =====
-- What comparisons of pairs of books make of the report.
use titan_engine.Prelude.{
  ℕ, zero, suc, ◌+◌, ◌≤◌, ◌≡◌, ◌↔◌, ◌⊎◌, refl, sym, ap, subst, ◌∙◌, true, false, List, [], ◌∷◌,
  ◌++◌, Option, none, some, ltb, length, length-append, take, append_assoc, arith, Bool-cases, inl,
  inr, nat_eq, bytes_key,
}
use titan_engine.Core.{PriceLevel}
use titan_engine.Exchange.Registry.{BookSnapshot}
use titan_engine.Replay.Parity.{
  ParityMismatch, ParityReport, max_stored_mismatches, same_top, agree, compared,
}

-- The bids and the asks of a book.
abbrev pub Sides : Type 0
Sides = List PriceLevel × List PriceLevel

-- The price and the quantity of the first level.
abbrev pub top : List PriceLevel → Option (ℕ × ℕ)
top [] = none
top (x ∷ xs) = some (x.price, x.quantity)

abbrev pub Agree : Sides → Sides → Type 0
Agree f e = (top f.0 ≡ top e.0) × (top f.1 ≡ top e.1)

same_top_iff : (xs ys : List PriceLevel) → (same_top xs ys ≡ true) ↔ (top xs ≡ top ys)
same_top_iff [] [] = (λ h. refl, λ h. refl)
same_top_iff [] (y ∷ ys) = (λ h. cc, λ h. cc)
same_top_iff (x ∷ xs) [] = (λ h. cc, λ h. cc)
same_top_iff (x ∷ xs) (y ∷ ys) = (λ h. ground arith, λ h. ground arith)

agree_iff : (f e : BookSnapshot) → (agree f e ≡ true) ↔ Agree (f.bids, f.asks) (e.bids, e.asks)
agree_iff f e =
    let bids = same_top_iff f.bids e.bids in
    let asks = same_top_iff f.asks e.asks in
    (
      λ h. (bids.0 (ground (arith, h)), asks.0 (ground (arith, h))),
      λ h. rw (bids.1 h.0, asks.1 h.1) refl,
    )

-- A mismatch of these two books, found after so many messages.
pub record IsOf (i : ℕ) (f e : Sides) (x : ParityMismatch) : Type 0 where
  pub index : x.message_index ≡ i
  pub feed : (x.feed_snapshot.bids, x.feed_snapshot.asks) ≡ f
  pub engine : (x.engine_snapshot.bids, x.engine_snapshot.asks) ≡ e

-- One mismatch for each pair of books that do not agree, in order.
abbrev pub AreMismatches : ℕ → List (Sides × Sides) → List ParityMismatch → Type 0
AreMismatches i [] ms = ms ≡ []
AreMismatches i (p ∷ ps) ms =
    (Agree p.0 p.1 × AreMismatches i ps ms)
    ⊎ ((¬ Agree p.0 p.1)
        × ((x : ParityMismatch) × (rest : List ParityMismatch) × (ms ≡ x ∷ rest)
            × IsOf i p.0 p.1 x
            × AreMismatches i ps rest))

-- The report `r` has become `q` by the comparisons of the pairs.
abbrev pub Reports : List (Sides × Sides) → ParityReport → ParityReport → Type 0
Reports ps r q =
    (ms : List ParityMismatch) × AreMismatches r.messages_processed ps ms
    × (q.checkpoints_compared ≡ r.checkpoints_compared + length ps)
    × (q.mismatch_count ≡ r.mismatch_count + length ms)
    × (q.first_mismatches ≡ take 5 (r.first_mismatches ++ ms))
    × (q.messages_processed ≡ r.messages_processed)

pub take_all : (n : ℕ) (xs : List ParityMismatch) → length xs ≤ n → take n xs ≡ xs
take_all zero [] h = refl
take_all zero (x ∷ xs) h = absurd (omega arith)
take_all (suc n) [] h = refl
take_all (suc n) (x ∷ xs) h = ap (λ ys. x ∷ ys) (take_all n xs (omega arith))

take-append_full : (n : ℕ) (xs ys : List ParityMismatch) → length xs ≡ n → take n (xs ++ ys) ≡ xs
take-append_full zero [] ys h = refl
take-append_full zero (x ∷ xs) ys h = absurd (omega arith)
take-append_full (suc n) [] ys h = absurd (omega arith)
take-append_full (suc n) (x ∷ xs) ys h = ap (λ zs. x ∷ zs) (take-append_full n xs ys (omega arith))

-- The mismatch that a comparison stores.
abbrev found : BookSnapshot → BookSnapshot → ParityReport → ParityMismatch
found f e r = record {
  message_index = r.messages_processed;
  feed_snapshot = f;
  engine_snapshot = e;
}

abbrev checked : ParityReport → ParityReport
checked r = record r { checkpoints_compared = r.checkpoints_compared + 1 }

compared_same :
    (f e : BookSnapshot) (r : ParityReport) → agree f e ≡ true → compared f e r ≡ checked r
unfolding compared
compared_same f e r h = rw (compared, h) refl

compared_room :
    (f e : BookSnapshot) (r : ParityReport)
    → agree f e ≡ false
    → ltb (length r.first_mismatches) max_stored_mismatches ≡ true
    → compared f e r ≡ record (checked r) {
      mismatch_count = r.mismatch_count + 1;
      first_mismatches = r.first_mismatches ++ found f e r ∷ [];
    }
unfolding compared
compared_room f e r h k = rw (compared, h, k) refl

compared_full :
    (f e : BookSnapshot) (r : ParityReport)
    → agree f e ≡ false
    → ltb (length r.first_mismatches) max_stored_mismatches ≡ false
    → compared f e r ≡ record (checked r) { mismatch_count = r.mismatch_count + 1 }
unfolding compared
compared_full f e r h k = rw (compared, h, k) refl

disagree : (f e : BookSnapshot) → agree f e ≡ false → ¬ Agree (f.bids, f.asks) (e.bids, e.asks)
disagree f e h a = let on : agree f e ≡ true = (agree_iff f e).1 a in cc

-- What is left to compare, from the report after one comparison.
abbrev Continues : List (Sides × Sides) → ParityReport → ParityReport → Type 0
Continues ps q r = length r.first_mismatches ≤ 5 → Reports ps r q

pub compared-Reports :
    (f e : BookSnapshot) (ps : List (Sides × Sides)) (r q : ParityReport)
    → length r.first_mismatches ≤ 5
    → Continues ps q (compared f e r)
    → Reports (((f.bids, f.asks), (e.bids, e.asks)) ∷ ps) r q
compared-Reports f e ps r q h next = elim (Bool-cases (agree f e)) [
  | inl same ↦
      let (ms, a, n, c, t, k) = subst (Continues ps q) (compared_same f e r same) next h in
      (ms, inl ((agree_iff f e).0 same, a), omega (arith, n), c, t, k)
  | inr other ↦ elim (Bool-cases (ltb (length r.first_mismatches) max_stored_mismatches)) [
    | inl room ↦
        let x = found f e r in
        let grown : length (r.first_mismatches ++ x ∷ []) ≤ 5 =
          ground (arith, length-append r.first_mismatches (x ∷ []), room) in
        let (ms, a, n, c, t, k) =
          subst (Continues ps q) (compared_room f e r other room) next grown in
        (
          x ∷ ms,
          inr (
            disagree f e other,
            (x, ms, refl, record { index = refl; feed = refl; engine = refl }, a),
          ),
          omega (arith, n),
          omega (arith, c),
          t ∙ ap (take 5) (append_assoc r.first_mismatches (x ∷ []) ms),
          k,
        )
    | inr full ↦
        let x = found f e r in
        let size : length r.first_mismatches ≡ 5 = ground (arith, full, h) in
        let (ms, a, n, c, t, k) = subst (Continues ps q) (compared_full f e r other full) next h in
        (
          x ∷ ms,
          inr (
            disagree f e other,
            (x, ms, refl, record { index = refl; feed = refl; engine = refl }, a),
          ),
          omega (arith, n),
          omega (arith, c),
          t
              ∙ take-append_full 5 r.first_mismatches ms size
              ∙ sym (take-append_full 5 r.first_mismatches (x ∷ ms) size),
          k,
        )
  ]
]
