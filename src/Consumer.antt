-- ===== src/Consumer.antt =====
-- The consumer task of the listener, whole (`tick_consumer`, apps/listener/main.py): each item that
-- reaches it is taken with the memory that the items before it left, and its record is buffered.
pub mod Complete
use brand_sniper_monorepo.Prelude.{ℕ, String, List, [], ◌∷◌, Option, none}
use brand_sniper_monorepo.Config.{Settings}
use brand_sniper_monorepo.Tick.Records.{FeedEvent, BatchRecord}
use brand_sniper_monorepo.Edge.{Baseline, EdgeStore}
use brand_sniper_monorepo.Zscore.{Floats, Thresholds}
use brand_sniper_monorepo.Dedup.{empty}
use brand_sniper_monorepo.Detection.{Answers}
use brand_sniper_monorepo.Intake.{StreamItem, Memory, take, no_record}
use brand_sniper_monorepo.Buffers.{Flushed, Buffers, Event, handled, quiet, consume}

-- What happens to the consumer: an item at a time, with what the calls for it answer and the baselines
-- then in the edge store, or the timeout of a quiet feed.
pub data Arrival (P : Type 0) : Type 0 where
  item_at : ℕ → String → Flushed → Answers → EdgeStore → StreamItem P → Arrival P
  silence : String → Flushed → Arrival P

abbrev pub new_memory : Memory
new_memory = record { dedup = empty; windows = [] }

abbrev pub new_buffers : {R E : Type 0} → Buffers R E
new_buffers = record {
  ticks = [];
  feed_events = [];
  batch_id = none;
  oldest_at = none;
  stored = [];
}

module _ (fl : Floats) (t : Thresholds fl) (coefficient_of_variation : Baseline → Option fl.Float)
    (cfg : Settings) where
  abbrev pub events_of :
      {P : Type 0} → List (Arrival P) → Memory → List (Event BatchRecord (FeedEvent P))
  events_of [] m = []
  events_of (silence fresh flushed ∷ arrivals) m = quiet fresh flushed ∷ events_of arrivals m
  events_of (item_at now fresh flushed answers store item ∷ arrivals) m =
      let taken = take fl t coefficient_of_variation cfg answers store item m in
      handled now fresh flushed taken.recorded ∷ events_of arrivals taken.memory

  -- The batches in the store when the task has ended.
  unfoldable pub tick_consumer :
      {P : Type 0} → ℕ → ℕ → String → Flushed → List (Arrival P) → Buffers BatchRecord (FeedEvent P)
  unfolding consume
  tick_consumer limit interval fresh final arrivals =
      consume limit interval fresh final (events_of arrivals new_memory) new_buffers
