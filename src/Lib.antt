-- ===== src/Lib.antt =====
-- Titan Engine: a single-process exchange with a reference and an optimized order book, an
-- order-entry layer, market data, a staged pipeline and an ITCH feed.
--
-- The files and the code they are about:
--   Prelude      lists, association lists (std::unordered_map), ordered maps (std::map as a list
--                in the order of iteration), 64-bit words over the native numbers.
--   Core         include/titan/core/types.hpp, order_types.hpp, events.hpp.
--   Book         the order book of one symbol.
--     Spec       two queues of orders, what the books promise: sweep the other side, then rest.
--     Ladder     price levels and the order table, as far as both matchers share them.
--     Machine    what a matching loop does to the other side, step by step, for both matchers.
--     Reference  reference/order_book.cpp: restOrder, cross, removeOrder and the public calls.
--     Optimized  src/book/optimized_matcher.cpp: the same calls over slots and tombstones.
--     Agreement  lists of calls of IMatcher (include/titan/book/i_matcher.hpp).
--     Guarantees what holds of the trades and the books.
--     Checks     src/book/invariants.cpp: checkInvariants on a ReferenceMatcher.
--     Tests      the matchers on concrete orders.
--   Feed         the ITCH feed: include/titan/feed/itch/messages.hpp (Messages),
--                src/feed/itch/decoder.cpp (Decoder, its wire format in Layout), parser.cpp (Parser) and
--                book_builder.cpp (BookBuilder).
--   Exchange     order entry: src/exchange/validator.cpp (Validator) and order_manager.cpp
--                (OrderManager), over any matcher; src/exchange/instrument_registry.cpp
--                (Registry), src/pipeline/staged_processor.cpp (Pipeline: its consumer, and its
--                producer in Produce) and checkOrderManagerInvariants (Checks).
--   MarketData   src/market_data/publisher.cpp (Publisher).
--   Queue        include/titan/pipeline/spsc_queue.hpp: the calls of one thread (Contents, Runs) and
--                the accesses of a producer and a consumer in any order (Machine).
--   Pool         include/titan/core/memory_pool.hpp.
--   Replay       src/replay/itch_adapter.cpp (Adapter), parity_checker.cpp (Parity) and
--                event_replayer.cpp (Replayer).
--   Backtest     src/backtest/backtest_runner.cpp.
--
-- The feed goes into the book builder, which keeps the levels that the feed tells of, and by the
-- adapter of the replay into the registry, which keeps an order manager and a matcher for each
-- symbol; the parity checker compares the two. The pipeline feeds the registry from another
-- thread, through the queue. The publisher reads the event log of the registry.
--
-- A matcher is a record of its fields. std::map<Price, ...> is a list of pairs, bids from the
-- highest price and asks from the lowest, so `begin` or `prev(end)` is its head. A std::list
-- iterator is a handle that the matcher counts up; an index into the slots of a level is that
-- index. `Order*` in a slot of OptimizedMatcher is the order itself or `none` for a tombstone:
-- the pool's storage is not part of that matcher. Prices and quantities are numbers without a
-- bound where the code only compares and subtracts the smaller from the larger; the totals of
-- `depthFrom` wrap at 2 ^ 64.
--
-- The loops of `cross` take fuel: more than the orders (the slots and levels) of the other side,
-- and `none` is a loop that has not ended. The fuel is chosen to be enough wherever the matcher
-- is valid; a valid matcher is one whose table and levels agree, as the empty matcher's do. The
-- order manager in front of a matcher turns a known id away. The loop of `feed` takes one more
-- fuel than there are bytes, which is enough for every input.
--
-- The loop of `matchWithStp` takes the incoming quantity, the levels of the other side and one
-- more; `none` there also stands for an exception of `orders_.at`.
--
-- The queue is a state with the place that each of its two threads has reached. A step is one access
-- of a thread to an index or to a slot. A read of the other thread's index gives any value that it had
-- since the last one read, as acquire and release allow; the slots are read and written in the order
-- of the steps. `& kMask` is the remainder by the
-- number of slots, which is a power of two in the source.
--
-- A pointer of the pool is an address counted in objects. Where new storage starts is a parameter,
-- `allocate`, and the storage of a slab does not meet that of the others by hypothesis.
--
-- Not modelled: the loop of `enqueue` (a call of it is one try after another), the order of a std::unordered_set, threads, times and
-- yielding, the sockets, thread affinity, the benchmark harness, the tools and the tests.
pub mod Prelude
pub mod Core
pub mod Book
pub mod Feed
pub mod Exchange
pub mod MarketData
pub mod Queue
pub mod Pool
pub mod Replay
pub mod Backtest
