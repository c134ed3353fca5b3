-- ===== src/Intake.antt =====
-- What the listener's consumer does with one item of the stream (the body of `tick_consumer`,
-- apps/listener/main.py): what it records, what it remembers, and the job it submits. The errors of one
-- item end there.
pub mod Records
use brand_sniper_monorepo.Prelude.{
  ℕ, Bool, true, false, not, ◌||◌, List, [], ◌∷◌, Option, none, some, if◌then◌else◌,
}
use brand_sniper_monorepo.Prelude.Result.{Result, ok, err}
use brand_sniper_monorepo.Config.{Settings}
use brand_sniper_monorepo.Tick.{MarketTick, is_rest_snapshot, feeds_price_window}
use brand_sniper_monorepo.Tick.Records.{FeedEvent, BatchRecord, to_batch_record}
use brand_sniper_monorepo.Edge.{Baseline, EdgeStore}
use brand_sniper_monorepo.Dedup.{
  DedupCache, is_duplicate, is_unchanged_snapshot, update_dedup_cache,
}
use brand_sniper_monorepo.Zscore.{Floats, Thresholds}
use brand_sniper_monorepo.Detection.{
  Answers, Windows, WindowScore, push_to_window, unchanged_snapshot_enters_price_window,
  update_window_and_detect,
}

-- Everything a producer can hand to the consumer, but the sentinel.
pub data StreamItem (P : Type 0) : Type 0 where
  market_tick : MarketTick → StreamItem P
  feed_event : FeedEvent P → StreamItem P

-- What one item leaves in the buffers.
pub data Recorded (R E : Type 0) : Type 0 where
  no_record : Recorded R E
  tick_record : R → Recorded R E
  event_record : E → Recorded R E

-- What the consumer remembers of the ticks: its dedup cache, and the price windows in Redis.
pub record Memory : Type 0 where
  pub dedup : DedupCache
  pub windows : Windows

-- `item.listing_id is not None`
abbrev pub names_listing : MarketTick → Bool
names_listing tick = elim tick.listing_id [ none ↦ false | some listing_id ↦ true ]

-- A duplicate is still recorded, unless it is of neither kind.
abbrev pub record_if : {P : Type 0} → Bool → MarketTick → Recorded BatchRecord P
record_if true tick = tick_record (to_batch_record tick)
record_if false tick = no_record

module _ (fl : Floats) (t : Thresholds fl)
    (coefficient_of_variation : Baseline → Option fl.Float) where
  abbrev pub Job : Type 0
  Job = WindowScore fl t coefficient_of_variation

  -- The memory, the record and the job after one item.
  pub record Taken (E : Type 0) : Type 0 where
    pub memory : Memory
    pub recorded : Recorded BatchRecord E
    pub job : Option Job

  abbrev pub job_of : Result (Option Job) → Option Job
  job_of (ok job) = job
  job_of (err e) = none

  abbrev pub take_changed :
      {E : Type 0} → Settings → Answers → EdgeStore → MarketTick → Memory → Taken E
  take_changed cfg answers store tick m =
      let (windows, job) =
        update_window_and_detect fl t coefficient_of_variation cfg answers tick store m.windows in
      record {
        memory = record { dedup = update_dedup_cache cfg tick true m.dedup; windows = windows };
        recorded = tick_record (to_batch_record tick);
        job = job_of job;
      }

  -- An unchanged snapshot: where the window's size cannot be read, nothing else is done.
  abbrev pub take_unchanged :
      {E : Type 0} → Settings → Answers → MarketTick → Memory → Result Bool → Taken E
  take_unchanged cfg answers tick m (err e) = record {
    memory = m;
    recorded = no_record;
    job = none;
  }
  take_unchanged cfg answers tick m (ok enters) = record {
    memory = record {
      dedup = update_dedup_cache cfg tick enters m.dedup;
      windows = if enters then (push_to_window cfg answers tick m.windows).0 else m.windows;
    };
    recorded = tick_record (to_batch_record tick);
    job = none;
  }

  abbrev pub take_tick :
      {E : Type 0} → Settings → Answers → EdgeStore → MarketTick → Memory → Taken E
  take_tick cfg answers store tick m =
      if not (feeds_price_window tick)
      then record { memory = m; recorded = tick_record (to_batch_record tick); job = none }
      else if is_duplicate tick m.dedup
      then record {
        memory = m;
        recorded = record_if (names_listing tick || is_rest_snapshot tick) tick;
        job = none;
      }
      else if is_unchanged_snapshot tick m.dedup
      then take_unchanged cfg answers tick m
          (unchanged_snapshot_enters_price_window cfg answers tick m.dedup m.windows)
      else take_changed cfg answers store tick m

  unfoldable pub take :
      {P : Type 0} → Settings → Answers → EdgeStore → StreamItem P → Memory → Taken (FeedEvent P)
  take cfg answers store (feed_event event) m = record {
    memory = m;
    recorded = event_record event;
    job = none;
  }
  take cfg answers store (market_tick tick) m = take_tick cfg answers store tick m
