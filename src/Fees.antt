-- ===== src/Fees.antt =====
-- The fee schedule of a venue, `FeeTier` and `VenueFees` of
-- packages/shared_utils/src/shared_utils/pnl.py.
pub mod Validity
pub mod Tiers
use brand_sniper_monorepo.Prelude.{
  ℕ, String, List, [], ◌∷◌, Bool, true, false, keep, all, if◌then◌else◌, ◌||◌, not, ◌&&◌,
}
use brand_sniper_monorepo.Prelude.Int.{ℤ, pos, negsuc, ltb_ℤ, leb_ℤ}
use brand_sniper_monorepo.Prelude.Result.{Result, ok, err, value_error, ◌>>=◌, ◌>>◌, raise_if}

abbrev pub basis_points : ℕ
basis_points = 10000

abbrev pub seconds_per_day : ℕ
seconds_per_day = 86400

pub record FeeTier : Type 0 where
  pub min_price_cents : ℤ
  pub fee_bps : ℤ

pub record VenueFees : Type 0 where
  pub venue : String
  pub fee_tiers : List FeeTier
  pub buyer_fee_bps : ℤ
  pub hold_seconds : ℤ
  pub min_margin_cents : ℤ

-- `0 <= fee < BASIS_POINTS`
abbrev pub is_fee_rate : ℤ → Bool
is_fee_rate fee = leb_ℤ (pos 0) fee && ltb_ℤ fee (pos basis_points)

-- `min(tier.min_price_cents for tier in tiers)`, from the first tier's.
abbrev pub lesser : ℤ → ℤ → ℤ
lesser least next = if ltb_ℤ next least then next else least

unfoldable pub min_threshold : ℤ → List FeeTier → ℤ
min_threshold least [] = least
min_threshold least (tier ∷ tiers) = min_threshold (lesser least tier.min_price_cents) tiers

-- `!= 0`
abbrev pub is_nonzero : ℤ → Bool
is_nonzero a = ltb_ℤ (pos 0) a || ltb_ℤ a (pos 0)

-- The tests of `__post_init__` on the tiers, which need a first tier.
unfoldable pub check_tiers : List FeeTier → Result (Unit {0})
unfolding min_threshold
check_tiers [] = err value_error
check_tiers (tier ∷ tiers) = do
  raise_if (is_nonzero (min_threshold tier.min_price_cents tiers)) value_error
  raise_if (not (all (λ t. is_fee_rate t.fee_bps) (tier ∷ tiers))) value_error

-- `VenueFees(...)`: the dataclass with its `__post_init__`, which may refuse it.
unfoldable pub new_venue_fees : VenueFees → Result VenueFees
unfolding check_tiers
new_venue_fees fees = do
  check_tiers fees.fee_tiers
  raise_if (not (is_fee_rate fees.buyer_fee_bps)) value_error
  raise_if (ltb_ℤ fees.hold_seconds (pos 0)) value_error
  raise_if (ltb_ℤ fees.min_margin_cents (pos 0)) value_error
  ok fees

-- `max(tiers, key=min_price_cents)`, from the first tier: the first of the greatest.
abbrev pub higher : FeeTier → FeeTier → FeeTier
higher best next = if ltb_ℤ best.min_price_cents next.min_price_cents then next else best

unfoldable pub max_tier : FeeTier → List FeeTier → FeeTier
max_tier best [] = best
max_tier best (tier ∷ tiers) = max_tier (higher best tier) tiers

-- `max` of an empty list raises `ValueError`.
unfoldable pub fee_of_max : List FeeTier → Result ℤ
unfolding max_tier
fee_of_max [] = err value_error
fee_of_max (tier ∷ tiers) = ok (max_tier tier tiers).fee_bps

-- `VenueFees.seller_fee_bps`
unfoldable pub seller_fee_bps : VenueFees → ℤ → Result ℤ
unfolding fee_of_max
seller_fee_bps fees resale_price_cents =
    fee_of_max (keep (λ t. leb_ℤ t.min_price_cents resale_price_cents) fees.fee_tiers)
