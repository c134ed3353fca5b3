-- ===== src/Pnl/Rounding.antt =====
-- Fees are rounded up to the next cent (`_fee_rounded_up_cents`).
use brand_sniper_monorepo.Prelude.{ℕ, zero, suc, ◌+◌, ◌*◌, ◌/◌, ◌≡◌, refl, arith}
use brand_sniper_monorepo.Prelude.Int.{pos, ◌-ℤ◌, ◌*ℤ◌, ◌/ℤ◌}
use brand_sniper_monorepo.Pnl.{fee_rounded_up_cents}

-- The rate's share of the price, rounded up.
abbrev pub ceil_share : ℕ → ℕ
ceil_share share = (share + 9999) / 10000

-- The negated floor of a negated share.
negated_floor : (m : ℕ) → pos 0 -ℤ ((pos 0 -ℤ pos m) /ℤ 10000) ≡ pos (ceil_share m)
unfolding ◌-ℤ◌ ◌/ℤ◌
negated_floor zero = refl
negated_floor (suc m) = ground arith

negated_product : (p f : ℕ) → (pos 0 -ℤ pos p) *ℤ pos f ≡ pos 0 -ℤ pos (p * f)
unfolding ◌-ℤ◌ ◌*ℤ◌
negated_product zero f = ground arith
negated_product (suc p) f = ground arith

pub fee_rounded_up_cents-eq :
    (p f : ℕ) → fee_rounded_up_cents (pos p) (pos f) ≡ pos (ceil_share (p * f))
unfolding fee_rounded_up_cents
fee_rounded_up_cents-eq p f = rw (negated_product p f) (negated_floor (p * f))
