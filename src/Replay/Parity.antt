-- ===== src/Replay/Parity.antt =====
-- `ParityChecker` of src/replay/parity_checker.cpp: the book builder and the engine, fed in lockstep.
-- The set of locate codes is the list of its elements, the oldest first.
use titan_engine.Prelude.{
  ℕ, suc, ◌+◌, ◌%◌, Bool, true, false, ◌&&◌, List, [], ◌∷◌, ◌++◌, Option, none, some, ltb, ◌==◌,
  if◌then◌else◌, length, add64,
}
use titan_engine.Core.{PriceLevel}
use titan_engine.Exchange.Registry.{MatcherBackend, BookSnapshot}
use titan_engine.Feed.Messages.{
  Header, ItchMessage, system_event_message, stock_directory_message, add_order_message,
  add_order_mpid_message, order_executed_message, order_executed_with_price_message,
  order_cancel_message, order_delete_message, order_replace_message, timestamp_seconds_message,
}
use titan_engine.Feed.BookBuilder
use titan_engine.Feed.BookBuilder.{Books}
use titan_engine.Replay.Adapter
use titan_engine.Replay.Adapter.{ItchEngineAdapter, Applied}
pub mod Mismatches
pub mod Locates

pub record ParityMismatch : Type 0 where
  pub message_index : ℕ
  pub feed_snapshot : BookSnapshot
  pub engine_snapshot : BookSnapshot

pub record ParityReport : Type 0 where
  pub messages_processed : ℕ
  pub checkpoints_compared : ℕ
  pub mismatch_count : ℕ
  pub first_mismatches : List ParityMismatch
  pub feed_trade_volume : ℕ
  pub engine_trade_volume : ℕ

pub record ParityChecker (M : Type 0) : Type 0 where
  pub builder : Books
  pub adapter : ItchEngineAdapter M
  pub checkpoint_interval : ℕ
  pub known_locates : List ℕ
  pub report : ParityReport

abbrev pub empty_report : ParityReport
empty_report = record {
  messages_processed = 0;
  checkpoints_compared = 0;
  mismatch_count = 0;
  first_mismatches = [];
  feed_trade_volume = 0;
  engine_trade_volume = 0;
}

abbrev pub max_stored_mismatches : ℕ
max_stored_mismatches = 5

abbrev pub extract_locate : ItchMessage → Option ℕ
extract_locate (system_event_message m) = some m.header.stock_locate
extract_locate (stock_directory_message m) = some m.header.stock_locate
extract_locate (add_order_message m) = some m.header.stock_locate
extract_locate (add_order_mpid_message m) = some m.base.header.stock_locate
extract_locate (order_executed_message m) = some m.header.stock_locate
extract_locate (order_executed_with_price_message m) = some m.base.header.stock_locate
extract_locate (order_cancel_message m) = some m.header.stock_locate
extract_locate (order_delete_message m) = some m.header.stock_locate
extract_locate (order_replace_message m) = some m.header.stock_locate
extract_locate (timestamp_seconds_message m) = none

abbrev pub executed_shares_of : ItchMessage → ℕ
executed_shares_of (order_executed_message m) = m.executed_shares
executed_shares_of (order_executed_with_price_message m) = m.base.executed_shares
executed_shares_of (system_event_message m) = 0
executed_shares_of (stock_directory_message m) = 0
executed_shares_of (add_order_message m) = 0
executed_shares_of (add_order_mpid_message m) = 0
executed_shares_of (order_cancel_message m) = 0
executed_shares_of (order_delete_message m) = 0
executed_shares_of (order_replace_message m) = 0
executed_shares_of (timestamp_seconds_message m) = 0

abbrev pub has : ℕ → List ℕ → Bool
has k [] = false
has k (j ∷ ks) = let rest = has k ks in if j == k then true else rest

abbrev pub with_locate : Option ℕ → List ℕ → List ℕ
with_locate none ks = ks
with_locate (some k) ks = if has k ks then ks else ks ++ k ∷ []

-- Both sides of a book are empty, or have the same first level.
abbrev pub same_top : List PriceLevel → List PriceLevel → Bool
same_top [] [] = true
same_top [] (y ∷ ys) = false
same_top (x ∷ xs) [] = false
same_top (x ∷ xs) (y ∷ ys) = (x.price == y.price) && (x.quantity == y.quantity)

abbrev pub agree : BookSnapshot → BookSnapshot → Bool
agree f e = same_top f.bids e.bids && same_top f.asks e.asks

-- The report after a comparison of two snapshots.
unfoldable pub compared : BookSnapshot → BookSnapshot → ParityReport → ParityReport
compared f e r =
    let checked = record r { checkpoints_compared = r.checkpoints_compared + 1 } in
    if agree f e then checked else record checked {
      mismatch_count = r.mismatch_count + 1;
      first_mismatches =
          if ltb (length r.first_mismatches) max_stored_mismatches
          then r.first_mismatches
            ++ record {
              message_index = r.messages_processed;
              feed_snapshot = f;
              engine_snapshot = e;
            }
              ∷ []
          else r.first_mismatches;
    }

module _ {M : Type 0} (backend : MatcherBackend M) where
  abbrev pub compare_found : ℕ → ParityChecker M → Books → Option BookSnapshot → ParityChecker M
  compare_found locate c books none = c
  compare_found locate c books (some f) =
      let (a, e) = Adapter.snapshot backend locate 1 c.adapter in
      record c { builder = books; adapter = a; report = compared f e c.report }

  unfoldable pub compare_locate : ℕ → ParityChecker M → ParityChecker M
  unfolding BookBuilder.snapshot Adapter.snapshot compared
  compare_locate locate c =
      let (books, found) = BookBuilder.snapshot locate 1 c.builder in
      compare_found locate c books found

  unfoldable pub compare_locates : List ℕ → ParityChecker M → ParityChecker M
  unfolding compare_locate
  compare_locates [] c = c
  compare_locates (k ∷ ks) c = compare_locates ks (compare_locate k c)

  unfoldable pub compare_all_locates : ParityChecker M → ParityChecker M
  unfolding compare_locates
  compare_all_locates c = compare_locates c.known_locates c

  -- The report with the message and its volumes.
  abbrev pub counted : ItchMessage → ℕ → ParityReport → ParityReport
  counted m volume r = record r {
    feed_trade_volume = add64 r.feed_trade_volume (executed_shares_of m);
    engine_trade_volume = volume;
    messages_processed = r.messages_processed + 1;
  }

  abbrev pub checkpoint : ParityChecker M → ParityChecker M
  checkpoint c =
      if c.report.messages_processed % c.checkpoint_interval == 0 then compare_all_locates c else c

  abbrev pub followed : ItchMessage → ParityChecker M → Applied M → Option (ParityChecker M)
  followed m c none = none
  followed m c (some (a, ok)) =
      if c.checkpoint_interval == 0
      then none
      else some (
          checkpoint (record c {
            known_locates = with_locate (extract_locate m) c.known_locates;
            builder = BookBuilder.apply m c.builder;
            adapter = a;
            report = counted m a.trade_volume c.report;
          }))

  -- `none` is also the remainder by an interval of 0.
  unfoldable pub process : ItchMessage → ParityChecker M → Option (ParityChecker M)
  unfolding compare_all_locates BookBuilder.apply Adapter.apply
  process m c = followed m c (Adapter.apply backend m c.adapter)
