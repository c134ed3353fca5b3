-- ===== src/Strategy/Live.antt =====
-- The strategies decide as the listener does.
use brand_sniper_monorepo.Prelude.{
  subst, ℕ, ◌≡◌, refl, ap, Bool, true, false, Option, none, some, arith, Bool-cases, inl, inr,
}
use brand_sniper_monorepo.Prelude.Int.{ℤ}
use brand_sniper_monorepo.Prelude.Result.{Result, ok, err, ◌>>=◌, ◌>>◌}
use brand_sniper_monorepo.Config.{Settings}
use brand_sniper_monorepo.Tick.{MarketTick}
use brand_sniper_monorepo.Edge.{Baseline, EdgeStore, hget}
use brand_sniper_monorepo.Pnl.{resale_venue_for}
use brand_sniper_monorepo.Rules.{Reason, dre_approval_reason, baseline_for}
use brand_sniper_monorepo.FeeFloor.{below_fee_floor, estimate_net_profit_cents}
use brand_sniper_monorepo.Zscore.{
  Floats, calculate_z_score, Thresholds, Score, source_can_trigger, should_trigger_anomaly,
}
use brand_sniper_monorepo.Detection.{
  Windows, WindowScore, Verdict, rejected_by_dre, rejected_below_fee_floor, confirmed,
  document_or_empty, score_window, triggers, job_for, verdict_for, evaluate, all_answer,
  floor_verdict, window_score, push_to_window, update_window_and_detect,
}
use brand_sniper_monorepo.Detection.Windows.{push_to_window-ok}
use brand_sniper_monorepo.Strategy.{
  Decision, dre_rejected, below_floor, approved_by, DecisionReason, decide, decide_scored, Features,
  decide_triggered, decide_estimated, decide_on,
}

abbrev pub is_confirmed : Verdict → Bool
is_confirmed (confirmed reason estimate) = true
is_confirmed rejected_by_dre = false
is_confirmed (rejected_below_fee_floor reason estimate) = false

module _ (fl : Floats) (t : Thresholds fl)
    (coefficient_of_variation : Baseline → Option fl.Float) where
  abbrev Decided : Type 0
  Decided = Decision fl t coefficient_of_variation

  abbrev pub Scored : Type 0
  Scored = WindowScore fl t coefficient_of_variation

  -- The verdict that a decision of the log stands for; none where it tells of no anomaly.
  abbrev floor_logged : Scored → Option Reason → Option (Option ℤ) → Option (Scored × Verdict)
  floor_logged w (some reason) (some estimate) = some (w, rejected_below_fee_floor reason estimate)
  floor_logged w none estimate = none
  floor_logged w (some reason) none = none

  abbrev approval_logged : Scored → Reason → Option (Option ℤ) → Option (Scored × Verdict)
  approval_logged w reason none = none
  approval_logged w reason (some estimate) = some (w, confirmed reason estimate)

  abbrev logged : Option Scored → DecisionReason → Features → Option (Scored × Verdict)
  logged (some w) dre_rejected f = some (w, rejected_by_dre)
  logged (some w) below_floor f = floor_logged w f.dre_rule f.estimated_net_profit_cents
  logged (some w) (approved_by reason) f = approval_logged w reason f.estimated_net_profit_cents
  logged _ _ f = none

  abbrev pub verdict_logged : Decided → Bool × Option (Scored × Verdict)
  verdict_logged d = (d.approve, logged d.window d.reason d.features)

  abbrev confirms : Option (Scored × Verdict) → Bool × Option (Scored × Verdict)
  confirms none = (false, none)
  confirms (some (w, verdict)) = (is_confirmed verdict, some (w, verdict))

  -- The job's verdict, on the store as it was when the job was submitted.
  abbrev pub run_job :
      Settings → MarketTick → EdgeStore → Option Scored → Result (Bool × Option (Scored × Verdict))
  run_job cfg tick store none = ok (confirms none)
  run_job cfg tick store (some job) = do
    verdict ← evaluate cfg tick store job.baseline
    ok (confirms (some (job, verdict)))

  decide_estimated_lem :
      (cfg : Settings) (tick : MarketTick) (w : Scored) (reason : Reason) (r : Result (Option ℤ))
      (f : Features)
      → ((r >>= λ estimate.
            ok (decide_estimated fl t coefficient_of_variation cfg reason w f estimate))
          >>= λ d. ok (verdict_logged d))
        ≡ ((r >>= λ estimate. ok (floor_verdict cfg reason estimate)) >>= λ v.
            ok (confirms (some (w, v))))
  decide_estimated_lem cfg tick w reason (err e) f = refl
  decide_estimated_lem cfg tick w reason (ok estimate) f =
      elim (Bool-cases (below_fee_floor cfg reason estimate)) [
        | inl e ↦ rw e refl
        | inr e ↦ rw e refl
      ]

  decide_triggered_lem :
      (cfg : Settings) (tick : MarketTick) (w : Scored) (approval : Option Reason) (f : Features)
      → (decide_triggered fl t coefficient_of_variation cfg tick w f approval >>= λ d.
          ok (verdict_logged d))
        ≡ (verdict_for cfg tick (document_or_empty w.baseline) approval >>= λ v.
            ok (confirms (some (w, v))))
  decide_triggered_lem cfg tick w none f = refl
  decide_triggered_lem cfg tick w (some reason) f =
      decide_estimated_lem cfg tick w reason
        (estimate_net_profit_cents tick (document_or_empty w.baseline)) f

  triggers-off :
      (cfg : Settings) (tick : MarketTick) (score : Score fl)
      → source_can_trigger fl cfg score.source ≡ false
      → triggers fl t coefficient_of_variation cfg tick score ≡ false
  unfolding should_trigger_anomaly
  triggers-off cfg tick score h = rw h refl

  decide_on_lem :
      (cfg : Settings) (tick : MarketTick) (store : EdgeStore) (w : Scored) (f : Features)
      → baseline_for tick store w.baseline ≡ w.baseline
      → (decide_on fl t coefficient_of_variation cfg false tick store w f >>= λ d.
          ok (verdict_logged d))
        ≡ (job_for fl t coefficient_of_variation cfg all_answer tick (some w)
            >>= run_job cfg tick store)
  unfolding evaluate
  decide_on_lem cfg tick store w f h =
      elim (Bool-cases (source_can_trigger fl cfg w.score.source)) [
        | inr off ↦ rw (off, triggers-off cfg tick w.score off) refl
        | inl on ↦ elim (Bool-cases (triggers fl t coefficient_of_variation cfg tick w.score)) [
          | inr quiet ↦ rw (on, quiet) refl
          | inl fires ↦
              rw (on, fires, h)
                (decide_triggered_lem cfg tick w (dre_approval_reason tick store w.baseline) f)
        ]
      ]

  abbrev baseline_in : Result (Option Scored) → Option Baseline
  baseline_in (ok (some w)) = w.baseline
  baseline_in (ok none) = none
  baseline_in (err e) = none

  baseline_for-own :
      (tick : MarketTick) (store : EdgeStore)
      → (let own = hget (resale_venue_for tick.venue) tick.market_hash_name store.baselines in
          baseline_for tick store own ≡ own)
  unfolding baseline_for
  baseline_for-own tick store = ground arith

  -- The baseline that was scored is the one the rules would read.
  scored-baseline :
      (tick : MarketTick) (store : EdgeStore) (r : Result (Option (Score fl))) (n : ℕ) (w : Scored)
      → (r >>= λ score. ok (
          window_score fl t coefficient_of_variation n
            (hget (resale_venue_for tick.venue) tick.market_hash_name store.baselines)
            score))
        ≡ ok (some w)
      → baseline_for tick store w.baseline ≡ w.baseline
  scored-baseline tick store (err e) n w h = ground (arith, h)
  scored-baseline tick store (ok none) n w h = ground (arith, h)
  scored-baseline tick store (ok (some score)) n w h =
      subst (λ b. baseline_for tick store b ≡ b) (ap baseline_in h) (baseline_for-own tick store)

  decide_scored_lem :
      (cfg : Settings) (tick : MarketTick) (store : EdgeStore) (r : Result (Option Scored))
      → ((w : Scored) → r ≡ ok (some w) → baseline_for tick store w.baseline ≡ w.baseline)
      → ((r >>= decide_scored fl t coefficient_of_variation cfg false tick store) >>= λ d.
          ok (verdict_logged d))
        ≡ ((r >>= job_for fl t coefficient_of_variation cfg all_answer tick)
            >>= run_job cfg tick store)
  unfolding decide_scored
  decide_scored_lem cfg tick store (err e) h = refl
  decide_scored_lem cfg tick store (ok none) h = refl
  decide_scored_lem cfg tick store (ok (some w)) h = decide_on_lem cfg tick store w _ (h w refl)

  after_push :
      (cfg : Settings) (tick : MarketTick) (store : EdgeStore) (r : Result (Unit {0}))
      (s : Result (Option Scored))
      → r ≡ ok tt
      → ((w : Scored) → s ≡ ok (some w) → baseline_for tick store w.baseline ≡ w.baseline)
      → ((s >>= decide_scored fl t coefficient_of_variation cfg false tick store) >>= λ d.
          ok (verdict_logged d))
        ≡ ((r >> s >>= job_for fl t coefficient_of_variation cfg all_answer tick)
            >>= run_job cfg tick store)
  after_push cfg tick store r s e h = rw e (decide_scored_lem cfg tick store s h)

  -- On a tick whose calls all answer, the live rules' strategy decides on the pushed window what the
  -- listener does, errors included: its decision, read back from the log, has the verdict of the job
  -- that the listener submits, and none where it submits none; it approves exactly what is confirmed.
  pub decide_lem :
      (cfg : Settings) (tick : MarketTick) (store : EdgeStore) (windows : Windows)
      → (decide fl t coefficient_of_variation cfg false all_answer tick
            (push_to_window cfg all_answer tick windows).0
            store
          >>= λ d. ok (verdict_logged d))
        ≡ ((update_window_and_detect fl t coefficient_of_variation cfg all_answer tick store
              windows).1
            >>= run_job cfg tick store)
  unfolding decide update_window_and_detect score_window
  decide_lem cfg tick store windows =
      let pushed = push_to_window cfg all_answer tick windows in
      after_push cfg tick store pushed.1
        (score_window fl t coefficient_of_variation cfg all_answer tick pushed.0 store)
        (push_to_window-ok cfg all_answer tick windows (λ c. refl))
        (λ w. scored-baseline tick store (calculate_z_score fl cfg t _ _ _ _) _ w)
