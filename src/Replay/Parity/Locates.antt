-- ===== src/Replay/Parity/Locates.antt =====
-- What a comparison of all locate codes reports.
use titan_engine.Prelude.{
  ℕ, ◌≤◌, ◌≡◌, refl, sym, ap, subst, ◌∙◌, true, List, [], ◌∷◌, ◌++◌, Option, none, some,
  Option-cases, ◌==◌, length, length-append, append-nil, arith, Bool-cases, inl, inr, nat_eq,
  bytes_key,
}
use titan_engine.Prelude.Assoc.{lookup, lookup-insert}
use titan_engine.Core.{Symbol, buy, sell}
use titan_engine.Exchange.Registry.{MatcherBackend, InstrumentRegistry, BookSnapshot}
use titan_engine.Exchange.Registry.Books.{sides, snapshot-Shows, snapshot-keeps}
use titan_engine.Feed.BookBuilder
use titan_engine.Feed.BookBuilder.{Books, SymbolBook, depth}
use titan_engine.Replay.Adapter
use titan_engine.Replay.Adapter.{ItchEngineAdapter}
use titan_engine.Replay.Parity.{
  ParityReport, ParityChecker, compare_found, compare_locate, compare_locates, compare_all_locates,
}
use titan_engine.Replay.Parity.Mismatches.{Sides, Reports, take_all, compared-Reports}

-- The book of a locate code that the feed built, to one level.
abbrev pub feed_sides : Option SymbolBook → Option Sides
feed_sides none = none
feed_sides (some b) = some (depth buy 1 b, depth sell 1 b)

snapshot-feed_sides :
    (k j : ℕ) (books : Books)
    → feed_sides (lookup j (BookBuilder.snapshot k 1 books).0) ≡ feed_sides (lookup j books)
unfolding BookBuilder.snapshot depth
snapshot-feed_sides k j books = elim (Option-cases (lookup k books)) [
  | inl e ↦ rw (BookBuilder.snapshot, e) refl
  | inr (b, e) ↦ elim (Bool-cases (k == j)) [
    | inl same ↦
        let i : j ≡ k = ground (arith, same) in
        let own : (k == k) ≡ true = ground arith in
        rw (BookBuilder.snapshot, e, lookup-insert, i, nat_eq, own, e) refl
    | inr other ↦ rw (BookBuilder.snapshot, e, lookup-insert, nat_eq, other) refl
  ]
]

module _ {M : Type 0} (backend : MatcherBackend M) where
  abbrev pub book_of : Option Symbol → InstrumentRegistry M → Sides
  book_of none r = ([], [])
  book_of (some s) r = sides backend 1 (lookup s r.instruments)

  -- The book of the symbol of a locate code in the engine, to one level.
  abbrev pub engine_sides : ℕ → ItchEngineAdapter M → Sides
  engine_sides k a = book_of (lookup k a.symbols) a.registry

  -- The two books of each locate code that the feed has a book of.
  abbrev pub pair_of : Option Sides → Sides → List (Sides × Sides) → List (Sides × Sides)
  pair_of none e ps = ps
  pair_of (some f) e ps = (f, e) ∷ ps

  abbrev pub pairs : List ℕ → ParityChecker M → List (Sides × Sides)
  pairs [] c = []
  pairs (k ∷ ks) c =
      pair_of (feed_sides (lookup k c.builder)) (engine_sides k c.adapter) (pairs ks c)

  snapshot-engine_sides :
      (k j : ℕ) (a : ItchEngineAdapter M)
      → engine_sides j (Adapter.snapshot backend k 1 a).0 ≡ engine_sides j a
  unfolding Adapter.snapshot
  snapshot-engine_sides k j a = elim (Option-cases (lookup k a.symbols)) [
    | inl e ↦ rw (Adapter.snapshot, e) refl
    | inr (s, e) ↦ elim (Option-cases (lookup j a.symbols)) [
      | inl n ↦ rw (Adapter.snapshot, e, n) refl
      | inr (t, n) ↦ rw (Adapter.snapshot, e, n) (snapshot-keeps backend 1 t s a.registry)
    ]
  ]

  snapshot-engine :
      (k : ℕ) (a : ItchEngineAdapter M)
      → ((Adapter.snapshot backend k 1 a).1.bids, (Adapter.snapshot backend k 1 a).1.asks)
        ≡ engine_sides k a
  unfolding Adapter.snapshot
  snapshot-engine k a = elim (Option-cases (lookup k a.symbols)) [
    | inl e ↦ rw (Adapter.snapshot, e) refl
    | inr (s, e) ↦ rw (Adapter.snapshot, e) ((snapshot-Shows backend 1 s a.registry).1)
  ]

  -- The checker after a comparison with the snapshot `f` of the feed.
  abbrev after : ℕ → ParityChecker M → BookSnapshot → ParityChecker M
  after k c f = compare_found backend k c (BookBuilder.snapshot k 1 c.builder).0 (some f)

  after-pairs :
      (k : ℕ) (ks : List ℕ) (c : ParityChecker M) (f : BookSnapshot)
      → pairs ks (after k c f) ≡ pairs ks c
  after-pairs k [] c f = refl
  after-pairs k (j ∷ ks) c f =
      rw
        (
          snapshot-feed_sides k j c.builder,
          snapshot-engine_sides k j c.adapter,
          after-pairs k ks c f,
        )
        refl

  after-Reports :
      (k : ℕ) (ks : List ℕ) (c : ParityChecker M) (f : BookSnapshot) (q : ParityReport)
      → length c.report.first_mismatches ≤ 5
      → feed_sides (lookup k c.builder) ≡ some (f.bids, f.asks)
      → (length (after k c f).report.first_mismatches ≤ 5
          → Reports (pairs ks (after k c f)) (after k c f).report q)
      → Reports (pairs (k ∷ ks) c) c.report q
  after-Reports k ks c f q h there next =
      let e = (Adapter.snapshot backend k 1 c.adapter).1 in
      rw (there, ← snapshot-engine k c.adapter)
        (compared-Reports f e (pairs ks c) c.report q h
          (λ l. subst (λ ps. Reports ps (after k c f).report q) (after-pairs k ks c f) (next l)))

  compare_locate-none :
      (k : ℕ) (c : ParityChecker M) → lookup k c.builder ≡ none → compare_locate backend k c ≡ c
  unfolding compare_locate BookBuilder.snapshot
  compare_locate-none k c e = rw (compare_locate, BookBuilder.snapshot, e) refl

  compare_locate-some :
      (k : ℕ) (c : ParityChecker M) (b : SymbolBook)
      → lookup k c.builder ≡ some b
      → (f : BookSnapshot) × (compare_locate backend k c ≡ after k c f)
        × (some (f.bids, f.asks) ≡ feed_sides (some b))
  unfolding compare_locate BookBuilder.snapshot
  compare_locate-some k c b e = (
    record {
      symbol = b.symbol;
      sequence_number = b.next_snapshot_sequence_number;
      bids = depth buy 1 b;
      asks = depth sell 1 b;
    },
    rw (compare_locate, BookBuilder.snapshot, e) refl,
    refl,
  )

  compare_locates-Reports :
      (ks : List ℕ) (c : ParityChecker M)
      → length c.report.first_mismatches ≤ 5
      → Reports (pairs ks c) c.report (compare_locates backend ks c).report
  unfolding compare_locates
  compare_locates-Reports [] c h = (
    [],
    refl,
    omega arith,
    omega arith,
    sym (append-nil c.report.first_mismatches)
        ∙ sym (
            take_all 5 (c.report.first_mismatches ++ [])
              (omega (arith, length-append c.report.first_mismatches []))),
    refl,
  )
  compare_locates-Reports (k ∷ ks) c h = elim (Option-cases (lookup k c.builder)) [
    | inl e ↦ rw e (
        subst (λ d. Reports (pairs ks c) c.report (compare_locates backend ks d).report)
          (sym (compare_locate-none k c e)) (compare_locates-Reports ks c h))
    | inr (b, e) ↦
        let (f, step, sides) = compare_locate-some k c b e in
        let q = (compare_locates backend ks (compare_locate backend k c)).report in
        after-Reports k ks c f q h (ap feed_sides e ∙ sym sides) (
          subst (λ d. length d.report.first_mismatches ≤ 5 → Reports (pairs ks d) d.report q) step
            (compare_locates-Reports ks (compare_locate backend k c)))
  ]

  -- `ParityChecker::compareAllLocates`, on a report with at most five mismatches, compares the
  -- books that the feed and the engine have at the start, for each known locate code that the
  -- feed has a book of; it adds their number to the comparisons, adds to the mismatches the
  -- number of pairs that have not the same best bid and the same best ask, price and quantity,
  -- and stores the first five of the old and the new mismatches, each with the number of
  -- processed messages and the two first levels of its pair, in order.
  pub compare_all_locates-Reports :
      (c : ParityChecker M)
      → length c.report.first_mismatches ≤ 5
      → Reports (pairs c.known_locates c) c.report (compare_all_locates backend c).report
  unfolding compare_all_locates
  compare_all_locates-Reports c h = compare_locates-Reports c.known_locates c h
