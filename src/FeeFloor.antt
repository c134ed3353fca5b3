-- ===== src/FeeFloor.antt =====
-- The fee-aware estimate of a deal and the fee floor (apps/listener/detection.py).
use brand_sniper_monorepo.Prelude.{
  ℕ, ◌≡◌, refl, Bool, true, false, not, ◌||◌, inl, inr, Option, none, some, if◌then◌else◌,
  Bool-cases, arith,
}
use brand_sniper_monorepo.Prelude.Int.{ℤ, pos, leb_ℤ}
use brand_sniper_monorepo.Prelude.Result.{Result, ok, ◌>>=◌}
use brand_sniper_monorepo.Config.{Settings}
use brand_sniper_monorepo.Tick.{MarketTick}
use brand_sniper_monorepo.Edge.{Baseline}
use brand_sniper_monorepo.Rules.{
  Reason, support_floor, macro_sigma, stickers_below_base, sticker_premium,
}
use brand_sniper_monorepo.Fees.{VenueFees, is_fee_rate}
use brand_sniper_monorepo.Fees.Validity.{IsValid}
use brand_sniper_monorepo.Pnl.{fees_for, resale_venue_for, net_resale_margin_cents, applied_fee_bps}
use brand_sniper_monorepo.Pnl.Margin.{IsMargin, IsItemRate, net_resale_margin_cents_lem}

-- The baseline's item fee, where it is a fee.
abbrev pub item_fee : Option ℤ → Option ℤ
item_fee none = none
item_fee (some rate) = if is_fee_rate rate then some rate else none

abbrev estimate_at : MarketTick → Option ℤ → Option ℕ → Result (Option ℤ)
estimate_at tick rate none = ok none
estimate_at tick rate (some resale_price_cents) = do
  buy_fees ← fees_for tick.venue
  sell_fees ← fees_for (resale_venue_for tick.venue)
  margin ←
      net_resale_margin_cents (pos tick.price_cents) (pos resale_price_cents) buy_fees
        (some sell_fees) (item_fee rate)
  ok (some margin)

unfoldable pub estimate_net_profit_cents : MarketTick → Baseline → Result (Option ℤ)
estimate_net_profit_cents tick baseline =
    estimate_at tick baseline.seller_fee_bps baseline.latest_price_cents

-- `approval_reason in FEE_FLOOR_RULES`
abbrev pub is_floor_rule : Reason → Bool
is_floor_rule support_floor = true
is_floor_rule macro_sigma = true
is_floor_rule stickers_below_base = false
is_floor_rule sticker_premium = false

abbrev loses : Option ℤ → Bool
loses none = false
loses (some estimate) = leb_ℤ estimate (pos 0)

unfoldable pub below_fee_floor : Settings → Reason → Option ℤ → Bool
below_fee_floor cfg reason estimate =
    if not cfg.fee_floor || not (is_floor_rule reason) then false else loses estimate

item_fee-IsItemRate : (rate : Option ℤ) → IsItemRate (item_fee rate)
item_fee-IsItemRate none = tt
item_fee-IsItemRate (some rate) = elim (Bool-cases (is_fee_rate rate)) [
  | inl e ↦ rw e (ground arith)
  | inr e ↦ rw e tt
]

-- On a venue whose schedule and whose resale venue's are registered and valid, with a baseline that
-- has a latest price, there is always an estimate, whatever the baseline says of the item's fee: the
-- margin of a resale at that price at the applied rates, never overstated and short by less than two
-- cents.
pub estimate_net_profit_cents_lem :
    (tick : MarketTick) (baseline : Baseline) (resale : ℕ) (buy sell : VenueFees)
    → fees_for tick.venue ≡ ok buy
    → fees_for (resale_venue_for tick.venue) ≡ ok sell
    → IsValid buy
    → IsValid sell
    → baseline.latest_price_cents ≡ some resale
    → (buy_rate sell_rate : ℕ) × (margin : ℤ) × (buy.buyer_fee_bps ≡ pos buy_rate)
      × (applied_fee_bps (pos resale) sell (item_fee baseline.seller_fee_bps) ≡ ok (pos sell_rate))
      × (estimate_net_profit_cents tick baseline ≡ ok (some margin))
      × IsMargin tick.price_cents resale buy_rate sell_rate margin
unfolding estimate_net_profit_cents
estimate_net_profit_cents_lem tick baseline resale buy sell eb es vb vs price =
    let (buy_rate, sell_rate, margin, bought, sold, got, m) =
      net_resale_margin_cents_lem tick.price_cents resale buy (some sell)
        (item_fee baseline.seller_fee_bps) vb vs (item_fee-IsItemRate baseline.seller_fee_bps) in
    (buy_rate, sell_rate, margin, bought, sold, rw (price, eb, es, got) refl, m)
