-- ===== src/Zscore.antt =====
-- The Z score of the newest price in a window, and when it triggers (apps/listener/zscore.py). The
-- floats are an interface: their operations are the machine's, and nothing here assumes a law of them.
pub mod Sources
use brand_sniper_monorepo.Prelude.{
  ℕ, zero, suc, ◌+◌, ◌-◌, Bool, true, false, not, ◌&&◌, List, [], ◌∷◌, Option, none, some,
  if◌then◌else◌, ltb, leb, length,
}
use brand_sniper_monorepo.Prelude.Int.{ℤ, pos, ◌-ℤ◌}
use brand_sniper_monorepo.Prelude.Result.{
  Result, ok, err, index_error, zero_division, ◌>>=◌, ◌>>◌, raise_if,
}
use brand_sniper_monorepo.Config.{Settings}
use brand_sniper_monorepo.Tick.{MarketTick}

-- Python's floats: what the code uses of them.
pub record Floats : Type 1 where
  pub Float : Type 0
  pub of_int : ℤ → Float
  pub one_percent : Float
  pub add : Float → Float → Float
  pub sub : Float → Float → Float
  pub mul : Float → Float → Float
  pub quotient : Float → Float → Float
  pub is_zero : Float → Bool
  pub sqrt : Float → Float
  pub larger : Float → Float → Float
  pub round_4 : Float → Float
  -- `a > b`, `a >= b` and `a < b`.
  pub gtb : Float → Float → Bool
  pub geb : Float → Float → Bool
  pub fltb : Float → Float → Bool
  -- `sum` of floats, whose rounding is the interpreter's.
  pub sum_floats : List Float → Float

pub data Source : Type 0 where
  local hybrid macro : Source

abbrev pub is_macro : Source → Bool
is_macro macro = true
is_macro local = false
is_macro hybrid = false

module _ (fl : Floats) where
  open fl use {
    Float, of_int, one_percent, add, sub, mul, quotient, is_zero, sqrt, larger, gtb, geb, fltb,
    sum_floats,
  }

  -- The detection parameters that are floats, and the savings in whole cents.
  pub record Thresholds : Type 0 where
    pub z_score_threshold : Float
    pub z_score_sticker_threshold : Float
    pub min_std_dev_factor : Float
    pub macro_prior_weight : Float
    pub min_savings_cents : ℤ

  pub record Score : Type 0 where
    pub z_score : Float
    pub mean_cents : Float
    pub source : Source

  -- `a / b`
  abbrev pub divide : Float → Float → Result Float
  divide a b = if is_zero b then err zero_division else ok (quotient a b)

  abbrev pub of_nat : ℕ → Float
  of_nat n = of_int (pos n)

  -- `macro_available`: the average and the volatility, both above zero.
  abbrev pub macro_prior : Settings → Option ℕ → Option ℕ → Option (ℕ × ℕ)
  macro_prior cfg (some avg) (some volatility) =
      if cfg.macro_zscore_fallback && (ltb 0 volatility && ltb 0 avg)
      then some (avg, volatility)
      else none
  macro_prior cfg (some avg) none = none
  macro_prior cfg none volatility = none

  -- `prices[-1]` and `prices[:-1]`
  abbrev pub split_last : ℕ → List ℕ → List ℕ × ℕ
  split_last p [] = ([], p)
  split_last p (q ∷ qs) = let (front, last) = split_last q qs in (p ∷ front, last)

  abbrev pub sum : List ℕ → ℕ
  sum [] = 0
  sum (p ∷ ps) = p + sum ps

  -- The squares of the distances from the mean.
  abbrev pub squares : Float → List ℕ → List Float
  squares mean [] = []
  squares mean (p ∷ ps) =
      let distance = sub (of_nat p) mean in mul distance distance ∷ squares mean ps

  abbrev pub variance_of : Float → List ℕ → Result Float
  variance_of mean prices =
      if ltb 1 (length prices)
      then divide (sum_floats (squares mean prices)) (of_nat (length prices - 1))
      else ok (of_nat 0)

  -- Layer 1, on the newest price.
  abbrev pub macro_score : ℕ → Option (ℕ × ℕ) → Result (Option Score)
  macro_score price none = ok none
  macro_score price (some (avg, volatility)) = do
    z ←
        divide (of_int (pos price -ℤ pos avg))
          (larger (of_nat volatility) (mul (of_nat avg) one_percent))
    ok (some (record { z_score = z; mean_cents = of_nat avg; source = macro }))

  -- The deviation of layer 2 and its source.
  abbrev pub regularized : Thresholds → Float → Float → Float × Source
  regularized t mean variance = (larger (sqrt variance) (mul mean t.min_std_dev_factor), local)

  abbrev pub blended : Thresholds → ℕ → Float → Float → Float → Result (Float × Source)
  blended t n mean variance cv = do
    let estimate = mul mean cv
    blended_variance ←
        divide (add (mul (of_nat n) variance) (mul t.macro_prior_weight (mul estimate estimate)))
          (add (of_nat n) t.macro_prior_weight)
    ok (sqrt blended_variance, hybrid)

  abbrev pub deviation :
      Thresholds → ℕ → Float → Float → Option (ℕ × ℕ) → Option Float → Result (Float × Source)
  deviation t n mean variance (some prior) (some cv) =
      if gtb cv (of_nat 0) then blended t n mean variance cv else ok (regularized t mean variance)
  deviation t n mean variance (some prior) none = ok (regularized t mean variance)
  deviation t n mean variance none cv = ok (regularized t mean variance)

  abbrev pub score_around :
      Thresholds → ℕ → ℕ → Option (ℕ × ℕ) → Option Float → Float → Float → Result (Option Score)
  score_around t n price prior cv mean variance = do
    d ← deviation t n mean variance prior cv
    z ← divide (sub (of_nat price) mean) d.0
    ok (some (record { z_score = z; mean_cents = mean; source = d.1 }))

  -- Layer 2, on the prices before the newest and the newest.
  abbrev pub local_score :
      Thresholds → List ℕ → ℕ → Option (ℕ × ℕ) → Option Float → Result (Option Score)
  local_score t history price prior cv = do
    mean ← divide (of_nat (sum history)) (of_nat (length history))
    variance ← variance_of mean history
    score_around t (length history) price prior cv mean variance

  unfoldable pub calculate_z_score :
      Settings → Thresholds → List ℕ → Option ℕ → Option ℕ → Option Float → Result (Option Score)
  calculate_z_score cfg t [] avg volatility cv = err index_error
  calculate_z_score cfg t (p ∷ ps) avg volatility cv =
      let prior = macro_prior cfg avg volatility in
      let (history, price) = split_last p ps in
      if ltb (length (p ∷ ps)) cfg.min_history_points
      then macro_score price prior
      else local_score t history price prior cv

  unfoldable pub source_can_trigger : Settings → Source → Bool
  source_can_trigger cfg source = if is_macro source then cfg.macro_zscore_triggers else true

  abbrev has_stickers : MarketTick → Bool
  has_stickers tick = ltb 0 (length tick.stickers)

  -- The absolute savings floor, on items without stickers.
  abbrev pub saves_enough : Thresholds → Float → MarketTick → Bool
  saves_enough t mean tick =
      if has_stickers tick
      then true
      else not (fltb (sub mean (of_nat tick.price_cents)) (of_int t.min_savings_cents))

  abbrev pub threshold_for : Thresholds → MarketTick → Float
  threshold_for t tick =
      if has_stickers tick then t.z_score_sticker_threshold else t.z_score_threshold

  unfoldable pub should_trigger_anomaly :
      Settings → Thresholds → Float → Float → MarketTick → Source → Bool
  unfolding source_can_trigger
  should_trigger_anomaly cfg t z mean tick source =
      if source_can_trigger cfg source
      then (if geb z (threshold_for t tick) then false else saves_enough t mean tick)
      else false
