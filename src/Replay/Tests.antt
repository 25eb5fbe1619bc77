-- ===== src/Replay/Tests.antt =====
-- A comparison of a feed with an exchange of the reference matcher.
use titan_engine.Prelude.{[], ◌∷◌, arith}
use titan_engine.Book.Reference
use titan_engine.Exchange.Registry.{MatcherBackend, InstrumentRegistry}
use titan_engine.Feed.BookBuilder.{SymbolBook, new_book}
use titan_engine.Replay.Adapter.{adapter_of}
use titan_engine.Replay.Parity.{ParityChecker, empty_report, compare_all_locates}
use titan_engine.Replay.Parity.Mismatches.{Reports}
use titan_engine.Replay.Parity.Locates.{pairs, compare_all_locates-Reports}

abbrev backend : MatcherBackend Reference.Matcher
backend = record {
  make_matcher = Reference.empty_matcher;
  calls = record {
    add_order = Reference.add_order;
    cancel_order = Reference.cancel_order;
    match_order = Reference.match_order;
  };
  bid_depth = Reference.bid_depth;
  ask_depth = Reference.ask_depth;
}

abbrev empty_registry : InstrumentRegistry Reference.Matcher
empty_registry = record { instruments = []; event_log = []; next_sequence_number = 0 }

-- The feed has a bid of a symbol that the engine does not know.
abbrev one_bid : SymbolBook
one_bid = record new_book { symbol = 65 ∷ []; bid_levels = (100, 10) ∷ [] }

abbrev checker : ParityChecker Reference.Matcher
checker = record {
  builder = (1, one_bid) ∷ [];
  adapter = adapter_of empty_registry;
  checkpoint_interval = 1;
  known_locates = 1 ∷ 2 ∷ [];
  report = empty_report;
}

compare_all_locates-Reports_example :
    Reports
      (pairs backend (1 ∷ 2 ∷ []) checker)
      empty_report
      (compare_all_locates backend checker).report
compare_all_locates-Reports_example = compare_all_locates-Reports backend checker (omega arith)
