-- ===== src/Exchange/Registry/Books.antt =====
-- What a snapshot shows of the book of an instrument.
use titan_engine.Prelude.{
  ℕ, ◌≡◌, refl, sym, List, [], Option, none, some, Option-cases, Bool-cases, inl, inr, bytes_key,
}
use titan_engine.Prelude.Assoc.{lookup, lookup-insert}
use titan_engine.Core.{Symbol, PriceLevel}
use titan_engine.Exchange.Registry
use titan_engine.Exchange.Registry.{MatcherBackend, Instrument, InstrumentRegistry, BookSnapshot}

module _ {M : Type 0} (backend : MatcherBackend M) (depth : ℕ) where
  -- The two sides of the book of a symbol to the depth, from the matcher of its instrument.
  abbrev pub sides : Option (Instrument M) → List PriceLevel × List PriceLevel
  sides none = ([], [])
  sides (some x) =
      (backend.bid_depth depth x.manager.matcher, backend.ask_depth depth x.manager.matcher)

  abbrev pub Shows : InstrumentRegistry M → Symbol → BookSnapshot → Type 0
  Shows r s snap = (snap.symbol ≡ s) × ((snap.bids, snap.asks) ≡ sides (lookup s r.instruments))

  -- A snapshot moves a counter only.
  pub snapshot-Shows :
      (s : Symbol) (r : InstrumentRegistry M) → Shows r s (Registry.snapshot backend s depth r).1
  unfolding Registry.snapshot
  snapshot-Shows s r = elim (Option-cases (lookup s r.instruments)) [
    | inl e ↦ rw (Registry.snapshot, e) (refl, refl)
    | inr (x, e) ↦ rw (Registry.snapshot, e) (refl, refl)
  ]

  pub snapshot-keeps :
      (s t : Symbol) (r : InstrumentRegistry M)
      → sides (lookup s (Registry.snapshot backend t depth r).0.instruments)
        ≡ sides (lookup s r.instruments)
  unfolding Registry.snapshot
  snapshot-keeps s t r = elim (Option-cases (lookup t r.instruments)) [
    | inl e ↦ rw (Registry.snapshot, e) refl
    | inr (x, e) ↦ elim (Bool-cases (bytes_key.beq t s)) [
      | inl same ↦
          let i : s ≡ t = sym ((bytes_key.beq_iff t s).0 same) in
          rw (Registry.snapshot, e, lookup-insert, same, i, e) refl
      | inr other ↦ rw (Registry.snapshot, e, lookup-insert, other) refl
    ]
  ]
