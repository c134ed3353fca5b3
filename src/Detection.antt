-- ===== src/Detection.antt =====
-- The listener's decision path (apps/listener/detection.py): a tick's price enters its window, the
-- window is scored, and an anomaly is a job that the rules confirm or reject. A window's key is kept
-- as its parts. Each call of another service is one that answers or raises.
pub mod Legacy
pub mod Trades
pub mod Windows
use brand_sniper_monorepo.Prelude.{
  ℕ, ◌+◌, String, Bool, true, false, not, ◌&&◌, List, [], ◌∷◌, ◌++◌, Option, none, some,
  if◌then◌else◌, ltb, length, ◌==◌, nat_eq, string_eq, Eq, ◌≡◌, ◌↔◌, arith, eq_iff,
}
use brand_sniper_monorepo.Prelude.Dict.{Dict, lookup, insert}
use brand_sniper_monorepo.Prelude.Int.{ℤ, pos, ◌-ℤ◌}
use brand_sniper_monorepo.Prelude.Result.{Result, ok, err, connection_error, ◌>>=◌, ◌>>◌, raise_if}
use brand_sniper_monorepo.Config.{Settings}
use brand_sniper_monorepo.Tick.{MarketTick}
use brand_sniper_monorepo.Edge.{Baseline, EdgeStore, hget}
use brand_sniper_monorepo.EdgeWindows.{
  Member, SortedSet, zadd, zcard, zremrangebyrank, window_prices,
}
use brand_sniper_monorepo.Dedup.{DedupCache, get, windowed_at}
use brand_sniper_monorepo.PriceWindow.{hourly_snapshot_due, unchanged_snapshot_enters_window}
use brand_sniper_monorepo.Pnl.{resale_venue_for}
use brand_sniper_monorepo.Rules.{Reason, dre_approval_reason, baseline_for}
use brand_sniper_monorepo.FeeFloor.{estimate_net_profit_cents, below_fee_floor}
use brand_sniper_monorepo.Purchases.{Purchase, Bought, Execution, execute}
use brand_sniper_monorepo.Zscore.{
  Floats, Source, Thresholds, Score, calculate_z_score, should_trigger_anomaly,
}

-- `price_window_key`
pub record WindowKey : Type 0 where
  pub venue : String
  pub market_hash_name : String

abbrev window_key_beq : WindowKey → WindowKey → Bool
window_key_beq a b = a.venue == b.venue && a.market_hash_name == b.market_hash_name

pub window_key_beq_iff : (a b : WindowKey) → (window_key_beq a b ≡ true) ↔ (a ≡ b)
window_key_beq_iff a b =
    ground (arith, eq_iff a.venue b.venue, eq_iff a.market_hash_name b.market_hash_name)

instance abbrev pub window_key_eq : Eq WindowKey
window_key_eq = record { beq = window_key_beq; beq_iff = window_key_beq_iff }

abbrev pub Windows : Type 0
Windows = Dict WindowKey SortedSet

abbrev pub price_window_key : MarketTick → WindowKey
price_window_key tick = record { venue = tick.venue; market_hash_name = tick.market_hash_name }

abbrev pub set_or_empty : Option SortedSet → SortedSet
set_or_empty none = []
set_or_empty (some window) = window

-- A key that is not there is an empty set.
abbrev pub window_at : WindowKey → Windows → SortedSet
window_at key windows = set_or_empty (lookup key windows)

-- The calls of one tick that may raise.
pub data Call : Type 0 where
  read_size add_price count_prices trim_window read_window read_baseline submit_job : Call

abbrev pub Answers : Type 0
Answers = Call → Bool

-- Every call returns.
abbrev pub all_answer : Answers
all_answer call = true

abbrev pub calls : Answers → Call → Result (Unit {0})
calls answers call = raise_if (not (answers call)) connection_error

abbrev pub member_of : MarketTick → Member
member_of tick = record { time = tick.timestamp; price = tick.price_cents }

-- `push_to_window` on the window: what it holds afterwards, and whether the call returned.
unfoldable pub push_member : ℕ → Answers → Member → SortedSet → SortedSet × Result (Unit {0})
unfolding zadd zcard zremrangebyrank
push_member window_size answers m set =
    let added = zadd m m.time set in
    let card = zcard added in
    if not (answers add_price)
    then (set, err connection_error)
    else if not (answers count_prices)
    then (added, err connection_error)
    else if not (ltb window_size card)
    then (added, ok tt)
    else if not (answers trim_window)
    then (added, err connection_error)
    else (zremrangebyrank (pos 0) (pos card -ℤ pos window_size -ℤ pos 1) added, ok tt)

unfoldable pub push_to_window :
    Settings → Answers → MarketTick → Windows → Windows × Result (Unit {0})
unfolding push_member
push_to_window cfg answers tick windows =
    let (window, r) =
      push_member cfg.sliding_window_size answers (member_of tick)
        (window_at (price_window_key tick) windows) in
    (insert (price_window_key tick) window windows, r)

-- Redis is asked for the window's size only when the hour has not passed.
unfoldable pub unchanged_snapshot_enters_price_window :
    Settings → Answers → MarketTick → DedupCache → Windows → Result Bool
unfolding get zcard
unchanged_snapshot_enters_price_window cfg answers tick cache windows =
    let last = windowed_at (get tick cache) in
    if hourly_snapshot_due tick.timestamp last then ok true else (do
      calls answers read_size
      ok (
          unchanged_snapshot_enters_window tick.timestamp last
            (zcard (window_at (price_window_key tick) windows)) cfg.min_history_points))

-- What becomes of an anomaly.
pub data Verdict : Type 0 where
  rejected_by_dre : Verdict
  rejected_below_fee_floor confirmed : Reason → Option ℤ → Verdict

-- `baseline` where the job has none: the one in the store, or an empty document.
abbrev pub no_baseline_document : Baseline
no_baseline_document = record {
  support_floor_cents = none;
  latest_price_cents = none;
  rolling_30d_avg_cents = none;
  volatility_cents = none;
  seller_fee_bps = none;
}

abbrev pub document_or_empty : Option Baseline → Baseline
document_or_empty none = no_baseline_document
document_or_empty (some baseline) = baseline

abbrev pub floor_verdict : Settings → Reason → Option ℤ → Verdict
floor_verdict cfg reason estimate =
    if below_fee_floor cfg reason estimate
    then rejected_below_fee_floor reason estimate
    else confirmed reason estimate

abbrev pub verdict_for : Settings → MarketTick → Baseline → Option Reason → Result Verdict
verdict_for cfg tick baseline none = ok rejected_by_dre
verdict_for cfg tick baseline (some reason) = do
  estimate ← estimate_net_profit_cents tick baseline
  ok (floor_verdict cfg reason estimate)

-- The first part of `evaluate_and_execute`, up to the confirmation.
unfoldable pub evaluate : Settings → MarketTick → EdgeStore → Option Baseline → Result Verdict
evaluate cfg tick store baseline =
    verdict_for cfg tick (document_or_empty (baseline_for tick store baseline))
      (dre_approval_reason tick store baseline)

module _ (fl : Floats) (t : Thresholds fl)
    (coefficient_of_variation : Baseline → Option fl.Float) where
  open fl use {Float}

  -- `z_score`, `mean_cents` and `source` are those of the score.
  pub record WindowScore : Type 0 where
    pub score : Score fl
    pub window_size : ℕ
    pub baseline : Option Baseline

  abbrev pub average_of : Option Baseline → Option ℕ
  average_of none = none
  average_of (some baseline) = baseline.rolling_30d_avg_cents

  abbrev pub volatility_of : Option Baseline → Option ℕ
  volatility_of none = none
  volatility_of (some baseline) = baseline.volatility_cents

  abbrev pub coefficient_of : Option Baseline → Option Float
  coefficient_of none = none
  coefficient_of (some baseline) = coefficient_of_variation baseline

  abbrev pub window_score : ℕ → Option Baseline → Option (Score fl) → Option WindowScore
  window_score size baseline none = none
  window_score size baseline (some score) =
      some (record { score = score; window_size = size; baseline = baseline })

  -- The score of the prices against the baseline document.
  abbrev pub score_prices : Settings → List ℕ → Option Baseline → Result (Option WindowScore)
  score_prices cfg prices baseline = do
    score ←
        calculate_z_score fl cfg t prices (average_of baseline) (volatility_of baseline)
          (coefficient_of baseline)
    ok (window_score (length prices) baseline score)

  unfoldable pub score_window :
      Settings → Answers → MarketTick → Windows → EdgeStore → Result (Option WindowScore)
  score_window cfg answers tick windows store = do
    calls answers read_window
    calls answers read_baseline
    score_prices cfg (window_prices (window_at (price_window_key tick) windows))
        (hget (resale_venue_for tick.venue) tick.market_hash_name store.baselines)

  abbrev pub triggers : Settings → MarketTick → Score fl → Bool
  triggers cfg tick score =
      should_trigger_anomaly fl cfg t score.z_score score.mean_cents tick score.source

  -- The job for the anomaly pool, where the window's score triggers one.
  abbrev pub job_for :
      Settings → Answers → MarketTick → Option WindowScore → Result (Option WindowScore)
  job_for cfg answers tick none = ok none
  job_for cfg answers tick (some w) =
      if triggers cfg tick w.score then (do calls answers submit_job; ok (some w)) else ok none

  -- The windows afterwards, and the job that `update_window_and_detect` submits.
  unfoldable pub update_window_and_detect :
      Settings → Answers → MarketTick → EdgeStore → Windows → Windows × Result (Option WindowScore)
  unfolding push_to_window score_window
  update_window_and_detect cfg answers tick store windows =
      let (pushed, r) = push_to_window cfg answers tick windows in
      (pushed, r >> score_window cfg answers tick pushed store >>= job_for cfg answers tick)
