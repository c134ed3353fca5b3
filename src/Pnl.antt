-- ===== src/Pnl.antt =====
-- Fee-aware profit of a buy-then-resell trade, and the venues' fee schedules
-- (packages/shared_utils/src/shared_utils/pnl.py). Money is integer cents, fees are basis points.
mod Venues
pub mod Rounding
pub mod Margin
pub mod Monotone
pub mod Resale
mod Tests
unfoldable pub use Venues.{
  lower, lower_char, resale_venue_for, fees_for, skinport_fees, waxpeer_fees, dmarket_fees,
  venue_fees, resale_venues,
}
use brand_sniper_monorepo.Prelude.{Bool, not, Option, none, some, if◌then◌else◌}
use brand_sniper_monorepo.Prelude.Int.{ℤ, pos, ◌+ℤ◌, ◌-ℤ◌, ◌*ℤ◌, ◌/ℤ◌, ltb_ℤ, leb_ℤ}
use brand_sniper_monorepo.Prelude.Result.{Result, ok, err, value_error, ◌>>=◌, ◌>>◌, raise_if}
use brand_sniper_monorepo.Fees.{VenueFees, basis_points, is_fee_rate, seller_fee_bps}

-- `-(-price_cents * fee_bps // BASIS_POINTS)`
unfoldable pub fee_rounded_up_cents : ℤ → ℤ → ℤ
fee_rounded_up_cents price_cents fee_bps =
    pos 0 -ℤ ((pos 0 -ℤ price_cents) *ℤ fee_bps /ℤ basis_points)

-- The rate that `seller_fee_cents` applies: the item's own, or the tier's.
unfoldable pub applied_fee_bps : ℤ → VenueFees → Option ℤ → Result ℤ
applied_fee_bps price fees none = seller_fee_bps fees price
applied_fee_bps price fees (some item_fee_bps) =
    if is_fee_rate item_fee_bps then ok item_fee_bps else err value_error

unfoldable pub seller_fee_cents : ℤ → VenueFees → Option ℤ → Result ℤ
seller_fee_cents resale_price_cents fees item_fee_bps = do
  raise_if (ltb_ℤ resale_price_cents (pos 0)) value_error
  fee_bps ← applied_fee_bps resale_price_cents fees item_fee_bps
  ok (fee_rounded_up_cents resale_price_cents fee_bps)

unfoldable pub buyer_fee_cents : ℤ → VenueFees → Result ℤ
buyer_fee_cents buy_price_cents fees = do
  raise_if (ltb_ℤ buy_price_cents (pos 0)) value_error
  ok (fee_rounded_up_cents buy_price_cents fees.buyer_fee_bps)

-- Without `sell_fees` the item is resold where it was bought.
abbrev pub sell_side : VenueFees → Option VenueFees → VenueFees
sell_side buy_fees none = buy_fees
sell_side buy_fees (some sell_fees) = sell_fees

unfoldable pub net_resale_margin_cents : ℤ → ℤ → VenueFees → Option VenueFees → Option ℤ → Result ℤ
net_resale_margin_cents buy_price_cents resale_price_cents buy_fees sell_fees sell_item_fee_bps = do
  seller_fee ← seller_fee_cents resale_price_cents (sell_side buy_fees sell_fees) sell_item_fee_bps
  let proceeds_cents = resale_price_cents -ℤ seller_fee
  buyer_fee ← buyer_fee_cents buy_price_cents buy_fees
  let cost_cents = buy_price_cents +ℤ buyer_fee
  ok (proceeds_cents -ℤ cost_cents)

unfoldable pub holding_seconds : VenueFees → VenueFees → ℤ
holding_seconds buy_fees sell_fees = sell_fees.hold_seconds

unfoldable pub is_profitable_margin : ℤ → VenueFees → Bool
is_profitable_margin net_margin_cents fees = leb_ℤ fees.min_margin_cents net_margin_cents
