-- ===== src/Replay.antt =====
-- The replay loop of the backtest (run_replay, apps/listener/backtest/harness.py): each item of a
-- recorded stream is routed as the listener does, and a strategy decides on it. The store that an item
-- meets is the build in effect at its time.
pub mod Same
use brand_sniper_monorepo.Prelude.{
  ℕ, ◌+◌, Bool, true, false, not, ◌&&◌, ◌||◌, List, [], ◌∷◌, Option, none, some, if◌then◌else◌,
}
use brand_sniper_monorepo.Prelude.Result.{Result, ok, err, ◌>>=◌}
use brand_sniper_monorepo.Config.{Settings}
use brand_sniper_monorepo.Tick.{MarketTick, feeds_price_window}
use brand_sniper_monorepo.Edge.{Baseline, EdgeStore}
use brand_sniper_monorepo.Dedup.{is_duplicate, is_unchanged_snapshot, update_dedup_cache}
use brand_sniper_monorepo.Zscore.{Floats, Thresholds}
use brand_sniper_monorepo.Detection.{
  Answers, all_answer, push_to_window, unchanged_snapshot_enters_price_window,
}
use brand_sniper_monorepo.Strategy.{Decision, duplicate, unchanged_snapshot, unscored, decide}
use brand_sniper_monorepo.Intake.{StreamItem, market_tick, feed_event, Memory, names_listing}

pub record ReplaySummary : Type 0 where
  pub feed_events : ℕ
  pub ticks : ℕ
  pub outcome_ticks : ℕ
  pub duplicates : ℕ
  pub unchanged_snapshots : ℕ
  pub unchanged_snapshots_windowed : ℕ
  pub decisions : ℕ
  pub logged : ℕ
  pub approved : ℕ

abbrev pub new_summary : ReplaySummary
new_summary = record {
  feed_events = 0;
  ticks = 0;
  outcome_ticks = 0;
  duplicates = 0;
  unchanged_snapshots = 0;
  unchanged_snapshots_windowed = 0;
  decisions = 0;
  logged = 0;
  approved = 0;
}

abbrev pub count : Bool → ℕ
count true = 1
count false = 0

module _ (fl : Floats) (t : Thresholds fl)
    (coefficient_of_variation : Baseline → Option fl.Float) where
  abbrev pub Decided : Type 0
  Decided = Decision fl t coefficient_of_variation

  -- The memory and the summary after an item, the decision on it, and whether the log has a line of it.
  pub record Replayed : Type 0 where
    pub memory : Memory
    pub summary : ReplaySummary
    pub decision : Option Decided
    pub written : Bool

  -- `should_log`
  unfoldable pub should_log : MarketTick → Decided → Bool
  should_log tick decision = names_listing tick || decision.approve

  abbrev pub log_decision : Bool → MarketTick → Memory → ReplaySummary → Decided → Replayed
  log_decision is_logged_period tick m s decision =
      let written = is_logged_period && should_log tick decision in
      record {
        memory = m;
        summary = record s {
          logged = s.logged + count written;
          approved = s.approved + count (written && decision.approve);
        };
        decision = some decision;
        written = written;
      }

  abbrev pub replay_changed :
      Settings → Bool → Bool → EdgeStore → MarketTick → Memory → ReplaySummary → Result Replayed
  replay_changed cfg sweep is_logged_period store tick m s = do
    let pushed = (push_to_window cfg all_answer tick m.windows).0
    decision ← decide fl t coefficient_of_variation cfg sweep all_answer tick pushed store
    ok (
        log_decision is_logged_period tick
          (record { dedup = update_dedup_cache cfg tick true m.dedup; windows = pushed })
          (record s { decisions = s.decisions + 1 }) decision)

  abbrev pub replay_unchanged :
      Settings → Bool → MarketTick → Memory → ReplaySummary → Bool → Replayed
  replay_unchanged cfg is_logged_period tick m s enters =
      log_decision is_logged_period tick
        (record {
          dedup = update_dedup_cache cfg tick enters m.dedup;
          windows = if enters then (push_to_window cfg all_answer tick m.windows).0 else m.windows;
        })
        (record s {
          unchanged_snapshots = s.unchanged_snapshots + 1;
          unchanged_snapshots_windowed = s.unchanged_snapshots_windowed + count enters;
        })
        (unscored fl t coefficient_of_variation unchanged_snapshot)

  abbrev pub replay_tick :
      Settings → Bool → Bool → EdgeStore → MarketTick → Memory → ReplaySummary → Result Replayed
  replay_tick cfg sweep is_logged_period store tick m s =
      if not (feeds_price_window tick)
      then ok (record {
        memory = m;
        summary = record s { outcome_ticks = s.outcome_ticks + 1 };
        decision = none;
        written = false;
      })
      else if is_duplicate tick m.dedup
      then ok (
          log_decision is_logged_period tick m (record s { duplicates = s.duplicates + 1 })
            (unscored fl t coefficient_of_variation duplicate))
      else if is_unchanged_snapshot tick m.dedup
      then (do
        enters ← unchanged_snapshot_enters_price_window cfg all_answer tick m.dedup m.windows
        ok (replay_unchanged cfg is_logged_period tick m s enters))
      else replay_changed cfg sweep is_logged_period store tick m s

  -- One item of the stream, whether its event is in the logged period.
  unfoldable pub replay_item :
      {P : Type 0}
      → Settings
      → Bool
      → Bool
      → EdgeStore
      → StreamItem P
      → Memory
      → ReplaySummary
      → Result Replayed
  unfolding should_log
  replay_item cfg sweep is_logged_period store (feed_event event) m s = ok (record {
    memory = m;
    summary = record s { feed_events = s.feed_events + 1 };
    decision = none;
    written = false;
  })
  replay_item cfg sweep is_logged_period store (market_tick tick) m s =
      replay_tick cfg sweep is_logged_period store tick m (record s { ticks = s.ticks + 1 })
