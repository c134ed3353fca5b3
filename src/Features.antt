-- ===== src/Features.antt =====
-- The student model's features of a listing (packages/shared_utils/src/shared_utils/features.py and
-- apps/listener/student_features.py). The keys of a baseline document that are floats, the wear's float
-- and the bounds of the wear tiers are parameters.
use brand_sniper_monorepo.Prelude.{
  ℕ, ◌≡◌, ◌≢◌, ◌∙◌, List, [], ◌∷◌, Option, none, some, if◌then◌else◌, arith,
}
use brand_sniper_monorepo.Prelude.Dict.{Dict, lookup, insert, lookup-insert}
use brand_sniper_monorepo.Tick.{MarketTick}
use brand_sniper_monorepo.Edge.{Baseline, EdgeStore, hget}
use brand_sniper_monorepo.Pnl.{resale_venue_for}
use brand_sniper_monorepo.Rules.{sticker_value_cents}
use brand_sniper_monorepo.RateLimits.{record_listing, listing_rate_window_seconds}
use brand_sniper_monorepo.Zscore.{Floats, Source, local, hybrid, macro, Thresholds, of_nat}
use brand_sniper_monorepo.Detection.{
  WindowKey, window_key_eq, window_key_beq_iff, price_window_key, document_or_empty, WindowScore,
}

-- The times of each item's listings on its venue.
abbrev pub Rates : Type 0
Rates = Dict WindowKey (List ℕ)

abbrev pub times_or_none : Option (List ℕ) → List ℕ
times_or_none none = []
times_or_none (some times) = times

-- `ListingRateTracker.record`
unfoldable pub record_rate : WindowKey → ℕ → Rates → Rates × ℕ
record_rate key timestamp rates =
    let (times, earlier) =
      record_listing listing_rate_window_seconds timestamp (times_or_none (lookup key rates)) in
    (insert key times rates, earlier)

-- `Z_SOURCE_CODES`
abbrev pub source_code : Source → ℕ
source_code local = 0
source_code hybrid = 1
source_code macro = 2

module _ (fl : Floats) where
  open fl use {Float, geb, gtb, larger, sub, quotient}

  pub record Features : Type 0 where
    pub price_to_window_mean : Option Float
    pub z_score : Option Float
    pub z_source : Option ℕ
    pub price_to_30d_avg : Option Float
    pub price_to_support_floor : Option Float
    pub macro_cv : Option Float
    pub avg_volume_30d : Option Float
    pub float_value : Option Float
    pub float_tier_boundary_distance : Option Float
    pub sticker_value_ratio : Option Float
    pub listings_per_hour_item : ℕ
    pub price_to_latest : Option Float

  -- The greatest of the bounds that are at most the float; there is one, since the first is zero.
  abbrev pub lower_bound : Float → Float → List Float → Float
  lower_bound value best [] = best
  lower_bound value best (bound ∷ bounds) =
      lower_bound value (if geb value bound then larger best bound else best) bounds

  unfoldable pub float_tier_boundary_distance : List Float → Option Float → Option Float
  float_tier_boundary_distance bounds none = none
  float_tier_boundary_distance bounds (some value) =
      some (sub value (lower_bound value (of_nat fl 0) bounds))

  abbrev pub ratio : Float → Option Float → Option Float
  ratio numerator none = none
  ratio numerator (some denominator) =
      if geb (of_nat fl 0) denominator then none else some (quotient numerator denominator)

  abbrev pub float_of : Option ℕ → Option Float
  float_of none = none
  float_of (some n) = some (of_nat fl n)

  -- `feature_vector` in the order of FEATURE_NAMES; `nan` where a feature is missing.
  abbrev number_or : Float → Option Float → Float
  number_or nan none = nan
  number_or nan (some value) = value

  unfoldable pub feature_vector : Float → Features → List Float
  feature_vector nan f =
      number_or nan f.price_to_window_mean
      ∷ number_or nan f.z_score
      ∷ number_or nan (float_of f.z_source)
      ∷ number_or nan f.price_to_30d_avg
      ∷ number_or nan f.price_to_support_floor
      ∷ number_or nan f.macro_cv
      ∷ number_or nan f.avg_volume_30d
      ∷ number_or nan f.float_value
      ∷ number_or nan f.float_tier_boundary_distance
      ∷ number_or nan f.sticker_value_ratio
      ∷ of_nat fl f.listings_per_hour_item
      ∷ number_or nan f.price_to_latest
      ∷ []

  module _ (t : Thresholds fl) (coefficient_of_variation avg_volume : Baseline → Option Float)
      (wear_of : ℕ → Float) (wear_tiers : List Float) where
    abbrev pub wear : Option ℕ → Option Float
    wear none = none
    wear (some value) = some (wear_of value)

    abbrev pub mean_of : Option (WindowScore fl t coefficient_of_variation) → Option Float
    mean_of none = none
    mean_of (some w) = some w.score.mean_cents

    abbrev pub z_of : Option (WindowScore fl t coefficient_of_variation) → Option Float
    z_of none = none
    z_of (some w) = some w.score.z_score

    abbrev pub code_of : Option (WindowScore fl t coefficient_of_variation) → Option ℕ
    code_of none = none
    code_of (some w) = some (source_code w.score.source)

    abbrev pub key_in : (Baseline → Option Float) → Option Baseline → Option Float
    key_in key none = none
    key_in key (some baseline) = key baseline

    -- `compute_features`, on a tick, its scored window, its baseline document and the two counts.
    unfoldable pub compute_features :
        MarketTick
        → Option (WindowScore fl t coefficient_of_variation)
        → Option Baseline
        → ℕ
        → ℕ
        → Features
    unfolding float_tier_boundary_distance
    compute_features tick w found sticker_value listings_last_hour =
        let price = of_nat fl tick.price_cents in
        let baseline = document_or_empty found in
        record {
          price_to_window_mean = ratio price (mean_of w);
          z_score = z_of w;
          z_source = code_of w;
          price_to_30d_avg = ratio price (float_of baseline.rolling_30d_avg_cents);
          price_to_support_floor = ratio price (float_of baseline.support_floor_cents);
          macro_cv = key_in coefficient_of_variation found;
          avg_volume_30d = key_in avg_volume found;
          float_value = wear tick.float_value;
          float_tier_boundary_distance =
              float_tier_boundary_distance wear_tiers (wear tick.float_value);
          sticker_value_ratio =
              ratio (of_nat fl sticker_value) (float_of baseline.latest_price_cents);
          listings_per_hour_item = listings_last_hour;
          price_to_latest = ratio price (float_of baseline.latest_price_cents);
        }

    abbrev pub baseline_of :
        MarketTick
        → EdgeStore
        → Option (WindowScore fl t coefficient_of_variation)
        → Option Baseline
    baseline_of tick store none =
        hget (resale_venue_for tick.venue) tick.market_hash_name store.baselines
    baseline_of tick store (some w) = w.baseline

    unfoldable pub listing_features :
        MarketTick
        → Option (WindowScore fl t coefficient_of_variation)
        → EdgeStore
        → Rates
        → Rates × Features
    unfolding record_rate compute_features
    listing_features tick w store rates =
        let (after, earlier) = record_rate (price_window_key tick) tick.timestamp rates in
        (
          after,
          compute_features tick w (baseline_of tick store w) (sticker_value_cents tick store)
              earlier,
        )

-- A listing leaves the times of the other items, and of its item on the other venues.
pub record_rate_others :
    (key other : WindowKey) (timestamp : ℕ) (rates : Rates)
    → other ≢ key
    → lookup other (record_rate key timestamp rates).0 ≡ lookup other rates
unfolding record_rate
record_rate_others key other timestamp rates h =
    lookup-insert key other
      (record_listing listing_rate_window_seconds timestamp (times_or_none (lookup key rates))).0
      rates
    ∙ ground (arith, window_key_beq_iff key other, h)
