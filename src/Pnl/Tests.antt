-- ===== src/Pnl/Tests.antt =====
-- Fees and margins of the registered venues at concrete prices.
use brand_sniper_monorepo.Prelude.{ℕ, refl, ◌≡◌, none, some}
use brand_sniper_monorepo.Prelude.Int.{ℤ, pos, ◌≤ℤ◌, ◌-ℤ◌, ◌+ℤ◌, ◌*ℤ◌, ◌/ℤ◌}
use brand_sniper_monorepo.Prelude.Result.{ok}
use brand_sniper_monorepo.Fees.{seller_fee_bps, max_tier, fee_of_max}
use brand_sniper_monorepo.Pnl.{
  skinport_fees, waxpeer_fees, net_resale_margin_cents, applied_fee_bps, seller_fee_cents,
  buyer_fee_cents, fee_rounded_up_cents,
}
use brand_sniper_monorepo.Pnl.Margin.{IsMargin, net_resale_margin_cents_lem}
use brand_sniper_monorepo.Pnl.Monotone.{net_resale_margin_cents_mono}
use brand_sniper_monorepo.Pnl.Resale.{skinport-IsValid, waxpeer-IsValid, skinport-IsSound}

-- A Waxpeer listing at 50.00 resold on Skinport at 1000.00, at 6%: 940.00 less 50.00.
waxpeer_to_skinport :
    net_resale_margin_cents (pos 5000) (pos 100000) waxpeer_fees (some skinport_fees) none
    ≡ ok (pos 89000)
unfolding net_resale_margin_cents seller_fee_cents buyer_fee_cents applied_fee_bps seller_fee_bps
    fee_rounded_up_cents max_tier fee_of_max ◌-ℤ◌ ◌+ℤ◌ ◌*ℤ◌ ◌/ℤ◌
waxpeer_to_skinport = refl

net_resale_margin_cents_example :
    (buy_rate sell_rate : ℕ) × (margin : ℤ) × (waxpeer_fees.buyer_fee_bps ≡ pos buy_rate)
    × (applied_fee_bps (pos 1001) skinport_fees none ≡ ok (pos sell_rate))
    × (net_resale_margin_cents (pos 500) (pos 1001) waxpeer_fees (some skinport_fees) none
        ≡ ok margin)
    × IsMargin 500 1001 buy_rate sell_rate margin
net_resale_margin_cents_example =
    net_resale_margin_cents_lem 500 1001 waxpeer_fees (some skinport_fees) none waxpeer-IsValid
      skinport-IsValid tt

net_resale_margin_cents_mono_example :
    (low high : ℤ) × (net_resale_margin_cents
        (pos 530)
        (pos 99999)
        waxpeer_fees
        (some skinport_fees)
        none
      ≡ ok low)
    × (net_resale_margin_cents (pos 500) (pos 100009) waxpeer_fees (some skinport_fees) none
        ≡ ok high)
    × (low ≤ℤ high)
net_resale_margin_cents_mono_example =
    net_resale_margin_cents_mono 500 99999 30 10 waxpeer_fees (some skinport_fees) none
      waxpeer-IsValid skinport-IsValid skinport-IsSound.falling tt
