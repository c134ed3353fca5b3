-- ===== src/Strategy/Sweep.antt =====
-- What the sweep strategy records changes no decision.
use brand_sniper_monorepo.Prelude.{
  ◌≡◌, refl, Bool, true, false, Option, none, some, Bool-cases, inl, inr,
}
use brand_sniper_monorepo.Prelude.Int.{ℤ}
use brand_sniper_monorepo.Prelude.Result.{Result, ok, err, ◌>>=◌}
use brand_sniper_monorepo.Config.{Settings}
use brand_sniper_monorepo.Tick.{MarketTick}
use brand_sniper_monorepo.Edge.{Baseline, EdgeStore}
use brand_sniper_monorepo.Rules.{Reason, dre_approval_reason}
use brand_sniper_monorepo.FeeFloor.{below_fee_floor, estimate_net_profit_cents}
use brand_sniper_monorepo.Zscore.{Floats, Thresholds, source_can_trigger}
use brand_sniper_monorepo.Detection.{
  Answers, Windows, WindowScore, document_or_empty, score_window, triggers,
}
use brand_sniper_monorepo.Strategy.{
  Decision, DecisionReason, below_threshold, rejected, decide, decide_scored, Features,
  decide_triggered, decide_estimated, decide_on, sweep_features,
}

module _ (fl : Floats) (t : Thresholds fl)
    (coefficient_of_variation : Baseline → Option fl.Float) where
  abbrev Decided : Type 0
  Decided = Decision fl t coefficient_of_variation

  abbrev Scored : Type 0
  Scored = WindowScore fl t coefficient_of_variation

  -- A decision without its features.
  abbrev pub outcome : Decided → Bool × (DecisionReason × Option Scored)
  outcome d = (d.approve, (d.reason, d.window))

  -- The first raises, or both return decisions that differ in their features only.
  abbrev pub AgreesWith : Result Decided → Result Decided → Type 0
  AgreesWith (err e) r = Unit
  AgreesWith (ok d) (err e) = ⊥
  AgreesWith (ok d) (ok d') = outcome d ≡ outcome d'

  estimated-AgreesWith :
      (cfg : Settings) (reason : Reason) (w : Scored) (f g : Features) (r : Result (Option ℤ))
      → AgreesWith
          (r >>= λ estimate.
            ok (decide_estimated fl t coefficient_of_variation cfg reason w f estimate))
          (r >>= λ estimate.
            ok (decide_estimated fl t coefficient_of_variation cfg reason w g estimate))
  estimated-AgreesWith cfg reason w f g (err e) = tt
  estimated-AgreesWith cfg reason w f g (ok estimate) =
      elim (Bool-cases (below_fee_floor cfg reason estimate)) [
        | inl e ↦ rw e refl
        | inr e ↦ rw e refl
      ]

  triggered-AgreesWith :
      (cfg : Settings) (tick : MarketTick) (w : Scored) (f g : Features) (approval : Option Reason)
      → AgreesWith
          (decide_triggered fl t coefficient_of_variation cfg tick w f approval)
          (decide_triggered fl t coefficient_of_variation cfg tick w g approval)
  triggered-AgreesWith cfg tick w f g none = refl
  triggered-AgreesWith cfg tick w f g (some reason) =
      estimated-AgreesWith cfg reason w f g
        (estimate_net_profit_cents tick (document_or_empty w.baseline))

  swept-AgreesWith :
      (w : Scored) (r : Result Features) (g : Features)
      → AgreesWith
          (r >>= λ swept. ok (rejected fl t coefficient_of_variation below_threshold w swept))
          (ok (rejected fl t coefficient_of_variation below_threshold w g))
  swept-AgreesWith w (err e) g = tt
  swept-AgreesWith w (ok f) g = refl

  decide_on-AgreesWith :
      (cfg : Settings) (tick : MarketTick) (store : EdgeStore) (w : Scored) (f g : Features)
      → AgreesWith
          (decide_on fl t coefficient_of_variation cfg true tick store w f)
          (decide_on fl t coefficient_of_variation cfg false tick store w g)
  decide_on-AgreesWith cfg tick store w f g =
      elim (Bool-cases (source_can_trigger fl cfg w.score.source)) [
        | inr off ↦ rw off refl
        | inl on ↦ elim (Bool-cases (triggers fl t coefficient_of_variation cfg tick w.score)) [
          | inl fires ↦
              rw (on, fires)
                (triggered-AgreesWith cfg tick w f g (dre_approval_reason tick store w.baseline))
          | inr quiet ↦
              rw (on, quiet)
                (swept-AgreesWith w
                  (sweep_features fl t coefficient_of_variation cfg true tick store w f) g)
        ]
      ]

  scored-AgreesWith :
      (cfg : Settings) (tick : MarketTick) (store : EdgeStore) (r : Result (Option Scored))
      → AgreesWith
          (r >>= decide_scored fl t coefficient_of_variation cfg true tick store)
          (r >>= decide_scored fl t coefficient_of_variation cfg false tick store)
  unfolding decide_scored
  scored-AgreesWith cfg tick store (err e) = tt
  scored-AgreesWith cfg tick store (ok none) = refl
  scored-AgreesWith cfg tick store (ok (some w)) = decide_on-AgreesWith cfg tick store w _ _

  -- Whatever calls fail, where the sweep strategy returns a decision, the live rules' strategy returns
  -- one with the same approval, reason and scored window.
  pub decide-AgreesWith :
      (cfg : Settings) (answers : Answers) (tick : MarketTick) (windows : Windows)
      (store : EdgeStore)
      → AgreesWith
          (decide fl t coefficient_of_variation cfg true answers tick windows store)
          (decide fl t coefficient_of_variation cfg false answers tick windows store)
  unfolding decide
  decide-AgreesWith cfg answers tick windows store =
      scored-AgreesWith cfg tick store
        (score_window fl t coefficient_of_variation cfg answers tick windows store)
