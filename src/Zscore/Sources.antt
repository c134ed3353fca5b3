-- ===== src/Zscore/Sources.antt =====
-- Which source a score has, and that a short window never triggers.
use brand_sniper_monorepo.Prelude.{
  ℕ, suc, ◌≤◌, ◌≡◌, ◌≢◌, ◌⊎◌, refl, sym, ap, ◌∙◌, ◌↔◌, Bool, true, false, not, if◌then◌else◌, List,
  [], ◌∷◌, Option, none, some, arith, ltb, length, subst, Bool-cases, inl, inr,
}
use brand_sniper_monorepo.Prelude.Result.{Result, ok, err, ◌>>=◌}
use brand_sniper_monorepo.Prelude.Int.{pos, ◌-ℤ◌}
use brand_sniper_monorepo.Config.{Settings}
use brand_sniper_monorepo.Tick.{MarketTick, Sticker}
use brand_sniper_monorepo.Zscore.{
  Floats, sum, variance_of, score_around, threshold_for, saves_enough, of_nat, Source, hybrid,
  macro, is_macro, Thresholds, Score, macro_score, local_score, calculate_z_score,
  source_can_trigger, should_trigger_anomaly, divide, deviation,
}

-- The score, where there is one, is macro or not as said.
abbrev pub HasSource : (fl : Floats) → Bool → Result (Option (Score fl)) → Type 0
HasSource fl b (err e) = Unit
HasSource fl b (ok none) = Unit
HasSource fl b (ok (some s)) = is_macro s.source ≡ b

positive : (n : ℕ) → ltb 0 (suc n) ≡ true
positive n = ground arith

module _ (fl : Floats) (cfg : Settings) (t : Thresholds fl) where
  open fl use {Float, of_int, larger, mul, one_percent, gtb, sqrt, sub, geb, fltb}

  HasSource-bind {ℓ} :
      {A : Type ℓ} (b : Bool) (r : Result A) (f : A → Result (Option (Score fl)))
      → ((a : A) → HasSource fl b (f a))
      → HasSource fl b (r >>= f)
  HasSource-bind b (ok a) f h = h a
  HasSource-bind b (err e) f h = tt

  macro_score-HasSource :
      (price : ℕ) (prior : Option (ℕ × ℕ)) → HasSource fl true (macro_score fl price prior)
  macro_score-HasSource price none = tt
  macro_score-HasSource price (some (avg, volatility)) =
      HasSource-bind true
        (divide fl (of_int (pos price -ℤ pos avg))
          (larger (of_nat fl volatility) (mul (of_nat fl avg) one_percent)))
        (λ z. ok (some (record { z_score = z; mean_cents = of_nat fl avg; source = macro })))
        (λ z. refl)

  -- A deviation is not the macro one.
  abbrev IsLocal : Result (Float × Source) → Type 0
  IsLocal (err e) = Unit
  IsLocal (ok d) = is_macro d.1 ≡ false

  blended_of-IsLocal : (r : Result Float) → IsLocal (r >>= λ v. ok (sqrt v, hybrid))
  blended_of-IsLocal (ok v) = refl
  blended_of-IsLocal (err e) = tt

  deviation-IsLocal :
      (n : ℕ) (mean variance : Float) (prior : Option (ℕ × ℕ)) (cv : Option Float)
      → IsLocal (deviation fl t n mean variance prior cv)
  deviation-IsLocal n mean variance none cv = refl
  deviation-IsLocal n mean variance (some prior) none = refl
  deviation-IsLocal n mean variance (some prior) (some cv) =
      elim (Bool-cases (gtb cv (of_nat fl 0))) [
        | inl e ↦ rw e (blended_of-IsLocal _)
        | inr e ↦ rw e refl
      ]

  scored-HasSource :
      (s : Source) (mean : Float) (r : Result Float)
      → is_macro s ≡ false
      → HasSource fl false
          (r >>= λ z. ok (some (record { z_score = z; mean_cents = mean; source = s })))
  scored-HasSource s mean (ok z) h = h
  scored-HasSource s mean (err e) h = tt

  around-HasSource :
      (price : ℕ) (mean : Float) (r : Result (Float × Source))
      → IsLocal r
      → HasSource fl false (
          r >>= λ d. divide fl (sub (of_nat fl price) mean) d.0 >>= λ z.
          ok (some (record { z_score = z; mean_cents = mean; source = d.1 })))
  around-HasSource price mean (ok d) h =
      scored-HasSource d.1 mean (divide fl (sub (of_nat fl price) mean) d.0) h
  around-HasSource price mean (err e) h = tt

  local_score-HasSource :
      (history : List ℕ) (price : ℕ) (prior : Option (ℕ × ℕ)) (cv : Option Float)
      → HasSource fl false (local_score fl t history price prior cv)
  local_score-HasSource history price prior cv =
      let n = length history in
      HasSource-bind false (divide fl (of_nat fl (sum fl history)) (of_nat fl n))
        (λ mean. variance_of fl mean history >>= score_around fl t n price prior cv mean)
        (λ mean.
          HasSource-bind false (variance_of fl mean history)
            (score_around fl t n price prior cv mean)
            (λ variance.
              around-HasSource price mean (deviation fl t n mean variance prior cv)
                (deviation-IsLocal n mean variance prior cv)))

  -- A score is of the macro layer exactly when the window has fewer prices than the local layer needs.
  pub calculate_z_score-HasSource :
      (prices : List ℕ) (avg volatility : Option ℕ) (cv : Option Float)
      → HasSource fl
          (ltb (length prices) cfg.min_history_points)
          (calculate_z_score fl cfg t prices avg volatility cv)
  unfolding calculate_z_score
  calculate_z_score-HasSource [] avg volatility cv = tt
  calculate_z_score-HasSource (p ∷ ps) avg volatility cv =
      elim (Bool-cases (ltb (length (p ∷ ps)) cfg.min_history_points)) [
        | inl e ↦ rw e (macro_score-HasSource _ _)
        | inr e ↦ rw e (local_score-HasSource _ _ _ _)
      ]

  triggers_when :
      (points : ℕ) (score : Score fl) (tick : MarketTick)
      → cfg.macro_zscore_triggers ≡ false
      → is_macro score.source ≡ ltb points cfg.min_history_points
      → (should_trigger_anomaly fl cfg t score.z_score score.mean_cents tick score.source ≡ true)
        ↔ ((cfg.min_history_points ≤ points)
            × (geb score.z_score (threshold_for fl t tick) ≡ false)
            × (saves_enough fl t score.mean_cents tick ≡ true))
  unfolding should_trigger_anomaly source_can_trigger
  triggers_when points score tick off h =
      (λ e. ground (arith, h, off, e), λ k. ground (arith, h, off, k))

  -- How far a score must be for a tick without stickers, and for one with stickers.
  abbrev pub FarEnough : Score fl → MarketTick → Type 0
  FarEnough score tick =
      ((tick.stickers ≡ [])
        × (geb score.z_score t.z_score_threshold ≡ false)
        × (fltb (sub score.mean_cents (of_int (pos tick.price_cents))) (of_int t.min_savings_cents)
            ≡ false))
      ⊎ ((tick.stickers ≢ []) × (geb score.z_score t.z_score_sticker_threshold ≡ false))

  far_enough :
      (score : Score fl) (tick : MarketTick) (stickers : List Sticker)
      → tick.stickers ≡ stickers
      → ((geb score.z_score (threshold_for fl t tick) ≡ false)
          × (saves_enough fl t score.mean_cents tick ≡ true))
        ↔ FarEnough score tick
  far_enough score tick [] e =
      let least : geb score.z_score (threshold_for fl t tick)
          ≡ geb score.z_score t.z_score_threshold =
        ap
          (λ l.
            geb score.z_score
              (if ltb 0 (length l) then t.z_score_sticker_threshold else t.z_score_threshold))
          e in
      let savings =
        fltb (sub score.mean_cents (of_int (pos tick.price_cents))) (of_int t.min_savings_cents) in
      let saves : saves_enough fl t score.mean_cents tick ≡ not savings =
        ap (λ l. if ltb 0 (length l) then true else not savings) e in
      (
        λ tests. inl (e, sym least ∙ tests.0, ground (arith, saves, tests.1)),
        λ far. elim far [
          | inl (_, below, short) ↦ (least ∙ below, saves ∙ ap not short)
          | inr (some_sticker, _) ↦ absurd (some_sticker e)
        ],
      )
  far_enough score tick (s ∷ rest) e =
      let least : geb score.z_score (threshold_for fl t tick)
          ≡ geb score.z_score t.z_score_sticker_threshold =
        ap
          (λ l.
            geb score.z_score
              (if ltb 0 (length l) then t.z_score_sticker_threshold else t.z_score_threshold))
          e
        ∙ ap
            (λ b.
              geb score.z_score (if b then t.z_score_sticker_threshold else t.z_score_threshold))
            (positive (length rest)) in
      let savings =
        fltb (sub score.mean_cents (of_int (pos tick.price_cents))) (of_int t.min_savings_cents) in
      let saves : saves_enough fl t score.mean_cents tick ≡ true =
        ap (λ l. if ltb 0 (length l) then true else not savings) e
        ∙ ap (λ b. if b then true else not savings) (positive (length rest)) in
      let some_sticker : tick.stickers ≢ [] = λ n. ground (arith, sym e ∙ n) in
      (
        λ tests. inr (some_sticker, sym least ∙ tests.0),
        λ far. elim far [
          | inl (none_at_all, _, _) ↦ absurd (some_sticker none_at_all)
          | inr (_, below) ↦ (least ∙ below, saves)
        ],
      )

  -- Where the macro layer may not trigger, a score triggers exactly when its window has at least the
  -- prices the local layer needs and the score is below a threshold: for a tick without stickers below
  -- the one of those, with the price at least the least savings below the mean, and for a tick with
  -- stickers below the threshold of those.
  pub trigger_lem :
      (prices : List ℕ) (avg volatility : Option ℕ) (cv : Option Float) (score : Score fl)
      (tick : MarketTick)
      → cfg.macro_zscore_triggers ≡ false
      → calculate_z_score fl cfg t prices avg volatility cv ≡ ok (some score)
      → (should_trigger_anomaly fl cfg t score.z_score score.mean_cents tick score.source ≡ true)
        ↔ ((cfg.min_history_points ≤ length prices) × FarEnough score tick)
  trigger_lem prices avg volatility cv score tick off got =
      let h : is_macro score.source ≡ ltb (length prices) cfg.min_history_points =
        subst (HasSource fl (ltb (length prices) cfg.min_history_points)) got
          (calculate_z_score-HasSource prices avg volatility cv) in
      let tests = triggers_when (length prices) score tick off h in
      let far = far_enough score tick tick.stickers refl in
      (
        λ e. (let (long, below, saves) = tests.0 e in (long, far.0 (below, saves))),
        λ k. (let (below, saves) = far.1 k.1 in tests.1 (k.0, below, saves)),
      )
