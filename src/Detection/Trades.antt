-- ===== src/Detection/Trades.antt =====
-- What follows the verdict on an anomaly (evaluate_and_execute, apps/listener/detection.py): the alert,
-- and the trade. What an alert takes from its tick is kept as the tick.
use mathlib.Core.List.{append-nil}
use brand_sniper_monorepo.Prelude.{
  refl, sym, ℕ, Bool, true, false, List, [], ◌∷◌, ◌++◌, Option, none, some, if◌then◌else◌, nat_eq,
  string_eq, ◌≡◌,
}
use brand_sniper_monorepo.Prelude.Int.{ℤ}
use brand_sniper_monorepo.Prelude.Result.{Result, ok, err}
use brand_sniper_monorepo.Config.{Settings}
use brand_sniper_monorepo.Tick.{MarketTick}
use brand_sniper_monorepo.Edge.{Baseline, EdgeStore}
use brand_sniper_monorepo.Rules.{Reason}
use brand_sniper_monorepo.Purchases.{Purchase, Bought, Execution, execute}
use brand_sniper_monorepo.Zscore.{Floats, Source, Thresholds, Score}
use brand_sniper_monorepo.Detection.{
  Verdict, rejected_by_dre, rejected_below_fee_floor, confirmed, evaluate, WindowScore,
}

module _ (fl : Floats) (t : Thresholds fl)
    (coefficient_of_variation : Baseline → Option fl.Float) where
  open fl use {Float}

  -- What a trade alert says of the deal.
  pub record TradeAlert : Type 0 where
    pub tick : MarketTick
    pub estimated_net_margin_cents : Option ℤ
    pub approval_reason : Reason
    pub z_source : Source
    pub z_score : Float

  -- The alerts submitted, and the purchases remembered.
  pub record Trader : Type 0 where
    pub submitted : List TradeAlert
    pub bought : Bought

  abbrev pub purchase_of : MarketTick → Option ℤ → Purchase
  purchase_of tick estimate = record {
    venue = tick.venue;
    market_hash_name = tick.market_hash_name;
    purchase_price_cents = tick.price_cents;
    estimated_profit_cents = estimate;
    listing_id = tick.listing_id;
  }

  abbrev pub alert_of : MarketTick → Reason → Option ℤ → Score fl → TradeAlert
  alert_of tick reason estimate score = record {
    tick = tick;
    estimated_net_margin_cents = estimate;
    approval_reason = reason;
    z_source = score.source;
    z_score = score.z_score;
  }

  -- The second part. `alerts` says whether the alert is queued: an error there is caught.
  abbrev pub trade_on :
      ℕ
      → Bool
      → (Purchase → Bool)
      → ℕ
      → MarketTick
      → Score fl
      → Trader
      → Result Verdict
      → Trader × Result (Option Execution)
  trade_on memory_size alerts accepts utc_day tick score trader (err e) = (trader, err e)
  trade_on memory_size alerts accepts utc_day tick score trader (ok rejected_by_dre) =
      (trader, ok none)
  trade_on memory_size alerts accepts utc_day tick score trader
        (ok (rejected_below_fee_floor reason estimate)) =
      (trader, ok none)
  trade_on memory_size alerts accepts utc_day tick score trader (ok (confirmed reason estimate)) =
      let (bought, execution) =
        execute memory_size accepts utc_day (purchase_of tick estimate) trader.bought in
      (
        record {
          submitted =
              if alerts
              then trader.submitted ++ alert_of tick reason estimate score ∷ []
              else trader.submitted;
          bought = bought;
        },
        ok (some execution),
      )

  unfoldable pub evaluate_and_execute :
      Settings
      → ℕ
      → Bool
      → (Purchase → Bool)
      → ℕ
      → MarketTick
      → EdgeStore
      → WindowScore fl t coefficient_of_variation
      → Trader
      → Trader × Result (Option Execution)
  unfolding evaluate execute
  evaluate_and_execute cfg memory_size alerts accepts utc_day tick store job trader =
      trade_on memory_size alerts accepts utc_day tick job.score trader
        (evaluate cfg tick store job.baseline)

  -- The alert is queued where the deal is confirmed, whatever becomes of the order, and the purchases
  -- do not depend on whether it was queued; on any other verdict, and on an error, nothing is done.
  abbrev Follows :
      Bool
      → (Purchase → Bool)
      → ℕ
      → ℕ
      → MarketTick
      → Score fl
      → Trader
      → Result Verdict
      → Trader
      → Type 0
  Follows alerts accepts memory_size utc_day tick score before (ok (confirmed reason estimate))
        after =
      (after.bought
        ≡ (execute memory_size accepts utc_day (purchase_of tick estimate) before.bought).0)
      × (after.submitted
          ≡ before.submitted ++ (if alerts then alert_of tick reason estimate score ∷ [] else []))
  Follows alerts accepts memory_size utc_day tick score before (ok rejected_by_dre) after =
      after ≡ before
  Follows alerts accepts memory_size utc_day tick score before
        (ok (rejected_below_fee_floor reason estimate)) after =
      after ≡ before
  Follows alerts accepts memory_size utc_day tick score before (err e) after = after ≡ before

  trade_on-Follows :
      (alerts : Bool) (accepts : Purchase → Bool) (memory_size utc_day : ℕ) (tick : MarketTick)
      (score : Score fl) (before : Trader) (verdict : Result Verdict)
      → Follows alerts accepts memory_size utc_day tick score before verdict
          (trade_on memory_size alerts accepts utc_day tick score before verdict).0
  trade_on-Follows true accepts memory_size utc_day tick score before
        (ok (confirmed reason estimate)) =
      (refl, refl)
  trade_on-Follows false accepts memory_size utc_day tick score before
        (ok (confirmed reason estimate)) =
      (refl, sym (append-nil before.submitted))
  trade_on-Follows alerts accepts memory_size utc_day tick score before (ok rejected_by_dre) = refl
  trade_on-Follows alerts accepts memory_size utc_day tick score before
        (ok (rejected_below_fee_floor reason estimate)) =
      refl
  trade_on-Follows alerts accepts memory_size utc_day tick score before (err e) = refl

  pub evaluate_and_execute-Follows :
      (cfg : Settings) (memory_size : ℕ) (alerts : Bool) (accepts : Purchase → Bool) (utc_day : ℕ)
      (tick : MarketTick) (store : EdgeStore) (job : WindowScore fl t coefficient_of_variation)
      (before : Trader)
      → Follows alerts accepts memory_size utc_day tick job.score before
          (evaluate cfg tick store job.baseline)
          (evaluate_and_execute cfg memory_size alerts accepts utc_day tick store job before).0
  unfolding evaluate_and_execute
  evaluate_and_execute-Follows cfg memory_size alerts accepts utc_day tick store job before =
      trade_on-Follows alerts accepts memory_size utc_day tick job.score before
        (evaluate cfg tick store job.baseline)
