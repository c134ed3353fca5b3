-- ===== src/Rules.antt =====
-- The Edge DRE (apps/listener/rules_engine.py): the three guards that approve an anomaly.
-- Cents are whole numbers, so the two quotients are compared exactly: `a / b >= 2.0` is
-- `2 * b <= a`, and `(a / b) * 100 <= 3.0` is `100 * a <= 3 * b`.
pub mod Approval
use brand_sniper_monorepo.Prelude.{
  ℕ, ◌+◌, ◌-◌, ◌*◌, String, Bool, true, false, ◌&&◌, List, [], ◌∷◌, Option, none, some, ltb, leb,
  if◌then◌else◌, str_eq,
}
use brand_sniper_monorepo.Tick.{MarketTick, Sticker}
use brand_sniper_monorepo.Edge.{Baseline, PriceText, cents, not_a_number, EdgeStore, hget}
use brand_sniper_monorepo.Pnl.{resale_venue_for}

pub data Reason : Type 0 where
  support_floor macro_sigma stickers_below_base sticker_premium : Reason

abbrev pub sticker_value_min_cents : ℕ
sticker_value_min_cents = 10000

abbrev pub sticker_premium_max_percent : ℕ
sticker_premium_max_percent = 3

abbrev pub price_of_text : Option PriceText → ℕ
price_of_text none = 0
price_of_text (some not_a_number) = 0
price_of_text (some (cents n)) = n

-- `if name:` skips a sticker with no name or an empty one.
abbrev pub named_price : (String → Option PriceText) → Option String → ℕ
named_price fetch none = 0
named_price fetch (some name) = if str_eq name "" then 0 else price_of_text (fetch name)

unfoldable pub sum_stickers : (String → Option PriceText) → List Sticker → ℕ
sum_stickers fetch [] = 0
sum_stickers fetch (sticker ∷ stickers) =
    named_price fetch sticker.name + sum_stickers fetch stickers

-- `sticker_value_cents`
unfoldable pub sticker_value_cents : MarketTick → EdgeStore → ℕ
unfolding sum_stickers
sticker_value_cents tick store =
    sum_stickers (λ name. hget (resale_venue_for tick.venue) name store.sticker_prices)
      tick.stickers

abbrev pub or_zero : Option ℕ → ℕ
or_zero none = 0
or_zero (some n) = n

-- The price is two or more volatilities below the 30 day average.
unfoldable pub below_macro_floor : ℕ → Option ℕ → Option ℕ → Bool
below_macro_floor price (some avg) (some volatility) =
    ltb 0 volatility && leb (2 * volatility + price) avg
below_macro_floor price _ _ = false

-- The sticker rules, on the latest price and the total sticker value.
unfoldable pub sticker_reason : ℕ → ℕ → ℕ → Option Reason
sticker_reason price latest_price total =
    if ltb sticker_value_min_cents total
    then (if leb price latest_price
        then some stickers_below_base
        else if leb ((price - latest_price) * 100) (sticker_premium_max_percent * total)
        then some sticker_premium
        else none)
    else none

unfoldable pub approve_with : ℕ → ℕ → Baseline → Option Reason
unfolding below_macro_floor sticker_reason
approve_with price total baseline =
    if leb price (or_zero baseline.support_floor_cents)
    then some support_floor
    else if below_macro_floor price baseline.rolling_30d_avg_cents baseline.volatility_cents
    then some macro_sigma
    else sticker_reason price (or_zero baseline.latest_price_cents) total

-- The baseline that was passed in, else the one of the resale venue.
unfoldable pub baseline_for : MarketTick → EdgeStore → Option Baseline → Option Baseline
baseline_for tick store (some baseline) = some baseline
baseline_for tick store none =
    hget (resale_venue_for tick.venue) tick.market_hash_name store.baselines

abbrev pub approve_baseline : ℕ → ℕ → Option Baseline → Option Reason
approve_baseline price total none = none
approve_baseline price total (some baseline) = approve_with price total baseline

-- `dre_approval_reason`
unfoldable pub dre_approval_reason : MarketTick → EdgeStore → Option Baseline → Option Reason
dre_approval_reason tick store baseline =
    approve_baseline tick.price_cents (sticker_value_cents tick store)
      (baseline_for tick store baseline)

-- `evaluate_opportunity`
unfoldable pub evaluate_opportunity : MarketTick → EdgeStore → Option Baseline → Bool
unfolding dre_approval_reason
evaluate_opportunity tick store baseline = elim (dre_approval_reason tick store baseline) [
  | none ↦ false
  | some reason ↦ true
]
