-- ===== src/Replay/Replayer.antt =====
-- `EventReplayer` of src/replay/event_replayer.cpp. The bytes of the file are given; the registry after
-- the replay is in the result.
use titan_engine.Prelude.{ℕ, ◌+◌, List, [], ◌∷◌, Option, none, some}
use titan_engine.Core.{Event}
use titan_engine.Exchange.Registry.{MatcherBackend, InstrumentRegistry}
use titan_engine.Feed.Messages.{ItchMessage}
use titan_engine.Feed.Parser
use titan_engine.Feed.Parser.{ItchParseResult, ItchParser}
use titan_engine.Replay.Adapter.{adapter_of}
use titan_engine.Replay.Parity
use titan_engine.Replay.Parity.{ParityReport, ParityChecker, empty_report}

pub record ReplayResult : Type 0 where
  pub parity : ParityReport
  pub engine_event_log : List Event
  pub messages_decoded : ℕ
  pub messages_skipped : ℕ

-- The counters of the loop, and the checker that it feeds.
pub record Replay (M : Type 0) : Type 0 where
  pub checker : ParityChecker M
  pub decoded : ℕ
  pub skipped : ℕ

module _ {M : Type 0} (backend : MatcherBackend M) where
  abbrev pub fed : Replay M → Option (ParityChecker M) → Option (Replay M)
  fed x none = none
  fed x (some c) = some (record x { checker = c; decoded = x.decoded + 1 })

  -- A turn of the loop: a message that the parser could not decode is passed over.
  abbrev pub replay_one : Option ItchMessage → Replay M → Option (Replay M)
  replay_one none x = some (record x { skipped = x.skipped + 1 })
  replay_one (some m) x = fed x (Parity.process backend m x.checker)

  abbrev pub then_replay : (Replay M → Option (Replay M)) → Option (Replay M) → Option (Replay M)
  then_replay f none = none
  then_replay f (some x) = f x

  unfoldable pub replay_all : List ItchParseResult → Replay M → Option (Replay M)
  unfolding Parity.process
  replay_all [] x = some x
  replay_all (r ∷ rs) x = then_replay (replay_all rs) (replay_one r.message x)

  abbrev pub started : ℕ → InstrumentRegistry M → Replay M
  started interval r = record {
    checker = record {
      builder = [];
      adapter = adapter_of r;
      checkpoint_interval = interval;
      known_locates = [];
      report = empty_report;
    };
    decoded = 0;
    skipped = 0;
  }

  abbrev pub result_of : Replay M → InstrumentRegistry M × ReplayResult
  result_of x = (
    x.checker.adapter.registry,
    record {
      parity = x.checker.report;
      engine_event_log = x.checker.adapter.registry.event_log;
      messages_decoded = x.decoded;
      messages_skipped = x.skipped;
    },
  )

  abbrev pub map_result : Option (Replay M) → Option (InstrumentRegistry M × ReplayResult)
  map_result none = none
  map_result (some x) = some (result_of x)

  unfoldable pub replay_messages :
      List ItchParseResult → ℕ → InstrumentRegistry M → Option (InstrumentRegistry M × ReplayResult)
  unfolding replay_all
  replay_messages rs interval r = map_result (replay_all rs (started interval r))

  abbrev pub with_skipped :
      ℕ
      → Option (InstrumentRegistry M × ReplayResult)
      → Option (InstrumentRegistry M × ReplayResult)
  with_skipped n none = none
  with_skipped n (some (r, x)) = some (r, record x { messages_skipped = n })

  abbrev pub replay_parsed :
      ℕ
      → InstrumentRegistry M
      → Option (ItchParser × List ItchParseResult)
      → Option (InstrumentRegistry M × ReplayResult)
  replay_parsed interval r none = none
  replay_parsed interval r (some (p, rs)) =
      with_skipped p.messages_skipped (replay_messages rs interval r)

  unfoldable pub replay_file :
      List ℕ → ℕ → InstrumentRegistry M → Option (InstrumentRegistry M × ReplayResult)
  unfolding Parser.feed replay_messages
  replay_file bytes interval r =
      replay_parsed interval r
        (Parser.feed bytes (record { buffer = []; messages_decoded = 0; messages_skipped = 0 }))
