-- ===== src/Strategy.antt =====
-- The decision of the backtest's strategies on one tick (apps/listener/backtest/strategy.py): the live
-- rules, and the sweep strategy that also records what a threshold sweep reads.
pub mod Live
pub mod Sweep
use brand_sniper_monorepo.Prelude.{
  ℕ, Bool, true, false, List, Option, none, some, if◌then◌else◌, length,
}
use brand_sniper_monorepo.Prelude.Int.{ℤ}
use brand_sniper_monorepo.Prelude.Result.{Result, ok, err, ◌>>=◌}
use brand_sniper_monorepo.Config.{Settings}
use brand_sniper_monorepo.Tick.{MarketTick}
use brand_sniper_monorepo.Edge.{Baseline, EdgeStore}
use brand_sniper_monorepo.Rules.{Reason, dre_approval_reason}
use brand_sniper_monorepo.FeeFloor.{estimate_net_profit_cents, below_fee_floor}
use brand_sniper_monorepo.Zscore.{Floats, Thresholds, Score, source_can_trigger}
use brand_sniper_monorepo.Detection.{
  Answers, Windows, WindowScore, document_or_empty, score_window, triggers,
}

pub data DecisionReason : Type 0 where
  duplicate unchanged_snapshot insufficient_history macro_only below_threshold dre_rejected
        below_floor :
      DecisionReason
  approved_by : Reason → DecisionReason

-- The keys of `features`; `none` where a decision leaves the key out. The mean, the size and the
-- source of the window stand in every decision on a score.
pub record Features : Type 0 where
  pub sticker_count : Option ℕ
  pub dre_reason : Option (Option Reason)
  pub below_fee_floor : Option Bool
  pub estimated_net_profit_cents : Option (Option ℤ)
  pub dre_rule : Option Reason

abbrev pub no_features : Features
no_features = record {
  sticker_count = none;
  dre_reason = none;
  below_fee_floor = none;
  estimated_net_profit_cents = none;
  dre_rule = none;
}

module _ (fl : Floats) (t : Thresholds fl)
    (coefficient_of_variation : Baseline → Option fl.Float) where
  pub record Decision : Type 0 where
    pub approve : Bool
    pub reason : DecisionReason
    -- The scored window: the score, and the features that are read from it.
    pub window : Option (WindowScore fl t coefficient_of_variation)
    pub features : Features

  abbrev Scored : Type 0
  Scored = WindowScore fl t coefficient_of_variation

  -- `Decision(approve=False, reason=...)`
  abbrev pub unscored : DecisionReason → Decision
  unscored reason = record {
    approve = false;
    reason = reason;
    window = none;
    features = no_features;
  }

  abbrev pub rejected : DecisionReason → Scored → Features → Decision
  rejected reason w features = record {
    approve = false;
    reason = reason;
    window = some w;
    features = features;
  }

  abbrev pub first_features : Bool → MarketTick → Features
  first_features sweep tick =
      if sweep
      then record no_features { sticker_count = some (length tick.stickers) }
      else no_features

  -- What the sweep records of the DRE's verdict below the threshold.
  abbrev sweep_floor : Settings → MarketTick → Baseline → Option Reason → Features → Result Features
  sweep_floor cfg tick baseline none features = ok (record features { dre_reason = some none })
  sweep_floor cfg tick baseline (some reason) features = do
    estimate ← estimate_net_profit_cents tick baseline
    ok (record features {
      dre_reason = some (some reason);
      below_fee_floor = some (below_fee_floor cfg reason estimate);
    })

  abbrev pub sweep_features :
      Settings → Bool → MarketTick → EdgeStore → Scored → Features → Result Features
  sweep_features cfg sweep tick store w features =
      if sweep
      then sweep_floor cfg tick (document_or_empty w.baseline)
          (dre_approval_reason tick store w.baseline) features
      else ok features

  abbrev pub decide_estimated : Settings → Reason → Scored → Features → Option ℤ → Decision
  decide_estimated cfg reason w features estimate =
      if below_fee_floor cfg reason estimate
      then rejected below_floor w
          (record features { estimated_net_profit_cents = some estimate; dre_rule = some reason })
      else record {
        approve = true;
        reason = approved_by reason;
        window = some w;
        features = record features { estimated_net_profit_cents = some estimate };
      }

  -- The decision on a tick that triggered.
  abbrev pub decide_triggered :
      Settings → MarketTick → Scored → Features → Option Reason → Result Decision
  decide_triggered cfg tick w features none = ok (rejected dre_rejected w features)
  decide_triggered cfg tick w features (some reason) = do
    estimate ← estimate_net_profit_cents tick (document_or_empty w.baseline)
    ok (decide_estimated cfg reason w features estimate)

  abbrev pub decide_on :
      Settings → Bool → MarketTick → EdgeStore → Scored → Features → Result Decision
  decide_on cfg sweep tick store w features =
      if source_can_trigger fl cfg w.score.source
      then (if triggers fl t coefficient_of_variation cfg tick w.score
          then decide_triggered cfg tick w features (dre_approval_reason tick store w.baseline)
          else (do
            swept ← sweep_features cfg sweep tick store w features
            ok (rejected below_threshold w swept)))
      else ok (rejected macro_only w features)

  unfoldable pub decide_scored :
      Settings → Bool → MarketTick → EdgeStore → Option Scored → Result Decision
  decide_scored cfg sweep tick store none = ok (unscored insufficient_history)
  decide_scored cfg sweep tick store (some w) =
      decide_on cfg sweep tick store w (first_features sweep tick)

  unfoldable pub decide :
      Settings → Bool → Answers → MarketTick → Windows → EdgeStore → Result Decision
  unfolding decide_scored
  decide cfg sweep answers tick windows store = do
    w ← score_window fl t coefficient_of_variation cfg answers tick windows store
    decide_scored cfg sweep tick store w
