-- ===== src/Pnl/Margin.antt =====
-- The net margin of a trade: never overstated, within two cents of the exact figure, and monotone.
use brand_sniper_monorepo.Prelude.{
  ℕ, ◌+◌, ◌*◌, ◌≤◌, ◌<◌, ◌≡◌, refl, Option, none, some, arith, true, false,
}
use brand_sniper_monorepo.Prelude.Int.{
  ℤ, pos, negsuc, pos_part, neg_part, ◌+ℤ◌, ◌-ℤ◌, ◌≤ℤ◌, ltb_ℤ, int_laws,
}
use brand_sniper_monorepo.Prelude.Result.{ok}
use brand_sniper_monorepo.Fees.{VenueFees, is_fee_rate}
use brand_sniper_monorepo.Fees.Validity.{IsValid, IsFeeRate}
use brand_sniper_monorepo.Fees.Tiers.{seller_fee_bps_lem}
use brand_sniper_monorepo.Prelude.{In-All}
use brand_sniper_monorepo.Pnl.{
  applied_fee_bps, seller_fee_cents, buyer_fee_cents, sell_side, net_resale_margin_cents,
}
use brand_sniper_monorepo.Pnl.Rounding.{ceil_share, fee_rounded_up_cents-eq}

-- An item's own fee, where there is one, is a fee rate.
abbrev pub IsItemRate : Option ℤ → Type 0
IsItemRate none = Unit
IsItemRate (some rate) = IsFeeRate rate

pub rate_number : (f : ℤ) → IsFeeRate f → (n : ℕ) × (f ≡ pos n) × (n < 10000)
rate_number (pos n) h = (n, refl, omega arith)
rate_number (negsuc n) h = absurd (omega arith)

pub fee_rate_test : (f : ℤ) → IsFeeRate f → is_fee_rate f ≡ true
fee_rate_test f h = ground arith

-- A price from zero always has a rate below 100%.
pub applied_fee_bps_lem :
    (p : ℕ) (fees : VenueFees) (item : Option ℤ)
    → IsValid fees
    → IsItemRate item
    → (rate : ℕ) × (applied_fee_bps (pos p) fees item ≡ ok (pos rate)) × (rate < 10000)
unfolding applied_fee_bps
applied_fee_bps_lem p fees none v h =
    let (tier, got, t) = seller_fee_bps_lem fees (pos p) v (omega arith) in
    let (n, e, lt) =
      rate_number tier.fee_bps
        (In-All (λ t. IsFeeRate t.fee_bps) tier fees.fee_tiers v.rates t.listed) in
    (n, rw (got, e), lt)
applied_fee_bps_lem p fees (some f) v h =
    let (n, e, lt) = rate_number f h in (n, rw (fee_rate_test f h, e), lt)

-- What a fee of `rate` on a price of `p` cents comes to.
pub record IsFeeOf (p rate fee : ℕ) : Type 0 where
  pub covers : p * rate ≤ fee * 10000
  pub least : fee * 10000 < p * rate + 10000
  pub within : fee ≤ p

pub nonneg_test : (p : ℕ) → ltb_ℤ (pos p) (pos 0) ≡ false
nonneg_test p = ground arith

share_le : (p rate : ℕ) → rate < 10000 → p * rate ≤ p * 9999
share_le p rate h = grind arith

pub ceil_share-IsFeeOf : (p rate : ℕ) → rate < 10000 → IsFeeOf p rate (ceil_share (p * rate))
ceil_share-IsFeeOf p rate h = omega (arith, share_le p rate h)

-- On a valid schedule the seller fee of any price from zero is the applied rate's share, rounded
-- up to the next cent, and at most the price.
pub seller_fee_cents_lem :
    (p : ℕ) (fees : VenueFees) (item : Option ℤ)
    → IsValid fees
    → IsItemRate item
    → (rate fee : ℕ) × (applied_fee_bps (pos p) fees item ≡ ok (pos rate))
      × (seller_fee_cents (pos p) fees item ≡ ok (pos fee))
      × IsFeeOf p rate fee
unfolding seller_fee_cents
seller_fee_cents_lem p fees item v h =
    let (rate, applied, lt) = applied_fee_bps_lem p fees item v h in
    (
      rate,
      ceil_share (p * rate),
      applied,
      rw (nonneg_test p, applied, fee_rounded_up_cents-eq p rate),
      ceil_share-IsFeeOf p rate lt,
    )

-- On a valid schedule the buyer fee of any price from zero is the buyer rate's share, rounded up
-- to the next cent, and at most the price.
pub buyer_fee_cents_lem :
    (p : ℕ) (fees : VenueFees)
    → IsValid fees
    → (rate fee : ℕ) × (fees.buyer_fee_bps ≡ pos rate)
      × (buyer_fee_cents (pos p) fees ≡ ok (pos fee))
      × IsFeeOf p rate fee
unfolding buyer_fee_cents
buyer_fee_cents_lem p fees v =
    let (rate, e, lt) = rate_number fees.buyer_fee_bps v.buyer_rate in
    (
      rate,
      ceil_share (p * rate),
      e,
      rw (nonneg_test p, e, fee_rounded_up_cents-eq p rate),
      ceil_share-IsFeeOf p rate lt,
    )

-- The exact margin in ten-thousandths of a cent: what is left when the fees are not rounded.
abbrev pub exact_margin : ℕ → ℕ → ℕ → ℕ → ℤ
exact_margin buy resale buy_rate sell_rate =
    pos (resale * 10000) -ℤ pos (resale * sell_rate) -ℤ pos (buy * 10000) -ℤ pos (buy * buy_rate)

abbrev pub scaled : ℤ → ℤ
scaled m = pos (pos_part m * 10000) -ℤ pos (neg_part m * 10000)

-- What `net_resale_margin_cents` returns for a buy at `buy` and a resale at `resale` cents.
pub record IsMargin (buy resale : ℕ) (buy_rate sell_rate : ℕ) (margin : ℤ) : Type 0 where
  pub never_overstated : scaled margin ≤ℤ exact_margin buy resale buy_rate sell_rate
  pub within_two_cents :
      exact_margin buy resale buy_rate sell_rate +ℤ pos 2 ≤ℤ scaled margin +ℤ pos 20000
  pub no_free_profit : resale ≤ buy → margin ≤ℤ pos 0

IsMargin-of_fees :
    (buy resale buy_rate sell_rate buy_fee sell_fee : ℕ)
    → IsFeeOf buy buy_rate buy_fee
    → IsFeeOf resale sell_rate sell_fee
    → IsMargin buy resale buy_rate sell_rate
        ((pos resale -ℤ pos sell_fee) -ℤ (pos buy +ℤ pos buy_fee))
IsMargin-of_fees buy resale buy_rate sell_rate buy_fee sell_fee b s = record {
  never_overstated = omega int_laws;
  within_two_cents = omega int_laws;
  no_free_profit = λ h. omega int_laws;
}

-- With valid schedules, prices from zero and an item fee that is a rate (if there is one), there is
-- a margin. It is the exact margin of the applied rates, short by less than two cents and never
-- over, and a resale at no more than the buy price never shows a profit.
pub net_resale_margin_cents_lem :
    (buy resale : ℕ) (buy_fees : VenueFees) (sell_fees : Option VenueFees) (item : Option ℤ)
    → IsValid buy_fees
    → IsValid (sell_side buy_fees sell_fees)
    → IsItemRate item
    → (buy_rate sell_rate : ℕ) × (margin : ℤ) × (buy_fees.buyer_fee_bps ≡ pos buy_rate)
      × (applied_fee_bps (pos resale) (sell_side buy_fees sell_fees) item ≡ ok (pos sell_rate))
      × (net_resale_margin_cents (pos buy) (pos resale) buy_fees sell_fees item ≡ ok margin)
      × IsMargin buy resale buy_rate sell_rate margin
unfolding net_resale_margin_cents
net_resale_margin_cents_lem buy resale buy_fees sell_fees item vb vs h =
    let (buy_rate, buy_fee, eb, gotb, b) = buyer_fee_cents_lem buy buy_fees vb in
    let (sell_rate, sell_fee, es, gots, s) =
      seller_fee_cents_lem resale (sell_side buy_fees sell_fees) item vs h in
    (
      buy_rate,
      sell_rate,
      pos resale -ℤ pos sell_fee -ℤ (pos buy +ℤ pos buy_fee),
      eb,
      es,
      cc (gots, gotb),
      IsMargin-of_fees buy resale buy_rate sell_rate buy_fee sell_fee b s,
    )
