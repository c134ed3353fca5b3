-- ===== src/Lib.antt =====
-- Brand Sniper watches marketplace feeds for underpriced items, decides on each listing at the edge,
-- buys what its rules approve, records what it saw in a central backend, and later labels every
-- recorded listing by what the market did. This library models the parts of it that decide and that
-- must not lose data.
--
-- The parts, in the order in which a tick passes them:
-- * Tick (apps/listener/models.py): a tick and its validators.
-- * Dedup, with Lru and Config (apps/listener/detection.py): DedupCache, is_duplicate,
--   is_unchanged_snapshot and update_dedup_cache. The state is DedupCache, passed from call to call.
-- * PriceWindow (packages/shared_utils/src/shared_utils/price_window.py): when an unchanged lowest
--   ask enters the window that the Z score reads.
-- * Rules, with Edge (apps/listener/rules_engine.py): dre_approval_reason on the baselines of the edge
--   store. Pnl and Fees (packages/shared_utils/src/shared_utils/pnl.py) price a resale.
-- * FeeFloor (apps/listener/detection.py): the estimate of a deal and the floor under it.
-- * EdgeWindows (apps/listener/backtest/store.py and push_to_window): the sorted sets that hold the
--   price windows, in Redis's order. Zscore (apps/listener/zscore.py): the score of a window's newest
--   price and when it triggers, over an interface of Python's floats, Floats, of which no law is assumed.
-- * Detection (apps/listener/detection.py): push_to_window, score_window, update_window_and_detect and
--   evaluate_and_execute. Each call of Redis is one that answers or raises, as an argument says.
-- * Intake, Buffers and Consumer (apps/listener/main.py): what tick_consumer does with one item, its
--   buffers and their flushes, and the two composed. A list of arrivals is what happens to the task,
--   each with what its calls do, and the outcome of a flush is an argument.
-- * Strategy and Replay (apps/listener/backtest/strategy.py and harness.py): the decisions of the
--   replay, and its loop.
-- * Recording (apps/listener/scrapers/listing_filter.py): which listings of a large venue are
--   recorded, and the batches of raw events.
-- * Dmarket (apps/listener/scrapers/dmarket.py and packages/shared_utils/src/shared_utils/dmarket.py):
--   Offers and its Times read an entry of a page, Pages the pages, Poller is ListingPoller, Resume its resume point, and
--   Judging what the scraper does with what was read. The state is ListingPoller; a request is answered
--   by a page or raises. Once and Owed are about any sequence of polls, and
--   Resume/Gaps about a restart.
-- * Purchases (packages/shared_utils/src/shared_utils/purchases.py, apps/listener/executor.py): what
--   counts as one purchase, and the executor's memory of what it bought.
-- * Delivery (apps/listener/batch_delivery.py): Batch for StoredBatch, Send for the retries, Streams
--   for the Redis streams that hold a batch until the backend has it, and Replay for the loop of
--   apps/listener/replay_batches.py over the dead letters.
-- * TaskPool (apps/listener/task_supervisor.py): the bounded pool that runs the background jobs; its
--   Steps are what the event loop may run, in any order.
-- * Labels (apps/analytics/outcome_labels.py): the label of a listing from the sales after it.
-- * Ingestion (apps/backend/main.py): the batches, items and trades that the backend stores. The state is
--   Backend, its tables and its cache of item IDs; a transaction that fails leaves it as it was.
-- * Names (packages/shared_utils/src/shared_utils/item_classifier.py): the type of an item and the
--   version in its name. Reconnects (apps/listener/main.py): the waits before the feed is reopened.
-- * Features (packages/shared_utils/src/shared_utils/features.py, apps/listener/student_features.py): the
--   student model's features of a listing.
-- * Loads (apps/listener/baseline_loader.py): how a hash of the edge store is replaced, as the commands of
--   loads that may interleave and stop.
-- * RateLimits (apps/listener/alerts.py): the sliding window of RateLimiter, and that of
--   ListingRateTracker (packages/shared_utils/src/shared_utils/features.py).
-- Prelude holds what they share: tests on numbers, lists, integers, Python's exceptions as values, and
-- insertion-ordered dictionaries. Pnl/Tests and Scenarios hold runs at concrete inputs.
--
-- Numbers. Prices are whole cents, and times whole seconds, milliseconds or microseconds, as each file
-- says. Python's integers do not overflow, so they are ℕ where the code has them from zero, and the ℤ
-- of Prelude/Int where they may be negative. Quotients of prices are compared exactly; a comment says
-- where the source compares floats.
--
-- Bounds and fuel. The split of a range into windows runs on fuel, and a fuel of one for each
-- microsecond of the range is enough for any window; the pages of a stream run on one for each
-- entry and one more. A live poll reads live_max_pages pages at most. Every other loop is by recursion on its data, or
-- on the attempts that are left. Sizes such as a cache's cap are arguments.
--
-- From outside: an order's acceptance, the backend's answers, the JSON text and the UUID parser are
-- arguments. Not modelled: sockets, HTTP and SQL, metrics and logging, the random part of a delay, the
-- parsing of Skinport's and Waxpeer's payloads, the building of baselines, and the analytics that work on floats or
-- through a language model.
pub mod Prelude
pub mod Fees
pub mod Pnl
pub mod Lru
pub mod Config
pub mod Tick
pub mod PriceWindow
pub mod Dedup
pub mod Edge
pub mod EdgeWindows
pub mod Zscore
pub mod Rules
pub mod FeeFloor
pub mod Detection
pub mod Strategy
pub mod Intake
pub mod Buffers
pub mod Consumer
pub mod Replay
pub mod Recording
pub mod Purchases
pub mod TaskPool
pub mod Labels
pub mod Delivery
pub mod Ingestion
pub mod RateLimits
pub mod Dmarket
pub mod Features
pub mod Loads
pub mod Names
pub mod Reconnects
pub mod Scenarios
