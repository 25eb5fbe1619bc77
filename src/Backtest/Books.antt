-- ===== src/Backtest/Books.antt =====
-- The final books of a backtest.
use titan_engine.Prelude.{
  ℕ, subst, ◌≡◌, refl, ◌∙◌, true, List, [], ◌∷◌, ◌++◌, some, All, arith, Bool-cases, inl, inr,
  bytes_key,
}
use titan_engine.Prelude.Assoc.{lookup, insert, lookup-insert}
use titan_engine.Core.{Symbol, Event}
use titan_engine.Exchange.Registry
use titan_engine.Exchange.Registry.{MatcherBackend, InstrumentRegistry, Instrument, BookSnapshot}
use titan_engine.Exchange.Registry.Books.{sides, Shows, snapshot-Shows, snapshot-keeps}
use titan_engine.Backtest.{symbol_of, has_symbol, with_symbol, symbols_of, snapshots, stored}

-- The symbols of the log are all in the set.
has_symbol-append :
    (s : Symbol) (ts us : List Symbol) → has_symbol s ts ≡ true → has_symbol s (ts ++ us) ≡ true
has_symbol-append s [] us h = cc
has_symbol-append s (t ∷ ts) us h = ground (arith, has_symbol-append s ts us)

has_symbol-last : (s : Symbol) (ts : List Symbol) → has_symbol s (ts ++ s ∷ []) ≡ true
has_symbol-last s [] = ground (arith, bytes_key.beq_iff s s)
has_symbol-last s (t ∷ ts) = ground (arith, has_symbol-last s ts)

with_symbol-keeps :
    (s t : Symbol) (ts : List Symbol)
    → has_symbol s ts ≡ true
    → has_symbol s (with_symbol t ts) ≡ true
with_symbol-keeps s t ts h = elim (Bool-cases (has_symbol t ts)) [
  | inl e ↦ rw e h
  | inr e ↦ rw e (has_symbol-append s ts (t ∷ []) h)
]

with_symbol-own : (s : Symbol) (ts : List Symbol) → has_symbol s (with_symbol s ts) ≡ true
with_symbol-own s ts = elim (Bool-cases (has_symbol s ts)) [
  | inl e ↦ rw e e
  | inr e ↦ rw e (has_symbol-last s ts)
]

symbols_of-keeps :
    (s : Symbol) (es : List Event) (ts : List Symbol)
    → has_symbol s ts ≡ true
    → has_symbol s (symbols_of es ts) ≡ true
unfolding symbols_of
symbols_of-keeps s [] ts h = h
symbols_of-keeps s (e ∷ es) ts h =
    symbols_of-keeps s es (with_symbol (symbol_of e.payload) ts)
      (with_symbol-keeps s (symbol_of e.payload) ts h)

pub symbols_of-All :
    (es : List Event) (ts : List Symbol)
    → All (λ (e : Event). has_symbol (symbol_of e.payload) (symbols_of es ts) ≡ true) es
unfolding symbols_of
symbols_of-All [] ts = tt
symbols_of-All (e ∷ es) ts = (
  symbols_of-keeps (symbol_of e.payload) es (with_symbol (symbol_of e.payload) ts)
      (with_symbol-own (symbol_of e.payload) ts),
  symbols_of-All es (with_symbol (symbol_of e.payload) ts),
)

module _ {M : Type 0} (backend : MatcherBackend M) (book_depth : ℕ) where
  -- The book of the symbol is there, and shows the levels that the registry has.
  abbrev pub HasBook : InstrumentRegistry M → Symbol → List (Symbol × BookSnapshot) → Type 0
  HasBook r s book =
      (snap : BookSnapshot) × (lookup s book ≡ some snap) × Shows backend book_depth r s snap

  insert-HasBook :
      (r : InstrumentRegistry M) (s t : Symbol) (snap : BookSnapshot)
      (book : List (Symbol × BookSnapshot))
      → Shows backend book_depth r t snap
      → HasBook r s book
      → HasBook r s (insert t snap book)
  insert-HasBook r s t snap book new h = elim (Bool-cases (bytes_key.beq t s)) [
    | inl same ↦ (
      snap,
      lookup-insert t s snap book ∙ rw same refl,
      subst (λ u. Shows backend book_depth r u snap) ((bytes_key.beq_iff t s).0 same) new,
    )
    | inr other ↦ (h.0, lookup-insert t s snap book ∙ rw other h.1, h.2)
  ]

  own-HasBook :
      (r : InstrumentRegistry M) (s t : Symbol) (snap : BookSnapshot)
      (book : List (Symbol × BookSnapshot))
      → bytes_key.beq t s ≡ true
      → Shows backend book_depth r t snap
      → HasBook r s (insert t snap book)
  own-HasBook r s t snap book same new = (
    snap,
    lookup-insert t s snap book ∙ rw same refl,
    subst (λ u. Shows backend book_depth r u snap) ((bytes_key.beq_iff t s).0 same) new,
  )

  stored-HasBook :
      (r : InstrumentRegistry M) (s : Symbol) (bs book : List (Symbol × BookSnapshot))
      → All (λ (b : Symbol × BookSnapshot). Shows backend book_depth r b.0 b.1) bs
      → HasBook r s book
      → HasBook r s (stored backend book_depth bs book)
  stored-HasBook r s [] book a h = h
  stored-HasBook r s (b ∷ bs) book a h =
      stored-HasBook r s bs (insert b.0 b.1 book) a.1 (insert-HasBook r s b.0 b.1 book a.0 h)

  -- Two registries whose instruments have the same books.
  abbrev Matches : InstrumentRegistry M → InstrumentRegistry M → Type 0
  Matches r q =
      (s : Symbol)
      → sides backend book_depth (lookup s q.instruments)
        ≡ sides backend book_depth (lookup s r.instruments)

  Shows-Matches :
      (r q : InstrumentRegistry M) (s : Symbol) (snap : BookSnapshot)
      → Matches r q
      → Shows backend book_depth q s snap
      → Shows backend book_depth r s snap
  Shows-Matches r q s snap m h = (h.0, h.1 ∙ m s)

  snapshots-Show :
      (ts : List Symbol) (r q : InstrumentRegistry M)
      → Matches r q
      → All
          (λ (b : Symbol × BookSnapshot). Shows backend book_depth r b.0 b.1)
          (snapshots backend book_depth ts q)
  unfolding snapshots
  snapshots-Show [] r q m = tt
  snapshots-Show (t ∷ ts) r q m =
      let x = Registry.snapshot backend t book_depth q in
      (
        Shows-Matches r q t x.1 m (snapshot-Shows backend book_depth t q),
        snapshots-Show ts r x.0 (λ s. snapshot-keeps backend book_depth s t q ∙ m s),
      )

  pub snapshots-HasBook :
      (s : Symbol) (ts : List Symbol) (r q : InstrumentRegistry M)
      (book : List (Symbol × BookSnapshot))
      → Matches r q
      → has_symbol s ts ≡ true
      → HasBook r s (stored backend book_depth (snapshots backend book_depth ts q) book)
  unfolding snapshots
  snapshots-HasBook s [] r q book m h = cc
  snapshots-HasBook s (t ∷ ts) r q book m h =
      let x = Registry.snapshot backend t book_depth q in
      let next : Matches r x.0 = λ u. snapshot-keeps backend book_depth u t q ∙ m u in
      elim (Bool-cases (bytes_key.beq t s)) [
        | inl same ↦
            stored-HasBook r s (snapshots backend book_depth ts x.0) (insert t x.1 book)
              (snapshots-Show ts r x.0 next)
              (own-HasBook r s t x.1 book same
                (Shows-Matches r q t x.1 m (snapshot-Shows backend book_depth t q)))
        | inr other ↦
            snapshots-HasBook s ts r x.0 (insert t x.1 book) next (ground (arith, h, other))
      ]
