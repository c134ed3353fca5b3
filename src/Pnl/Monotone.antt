-- ===== src/Pnl/Monotone.antt =====
-- A dearer resale or a cheaper buy never lowers the margin, where higher tiers charge no more.
use brand_sniper_monorepo.Prelude.{ℕ, ◌+◌, ◌*◌, ◌≤◌, ◌<◌, ◌≡◌, Option, none, some, List, arith, In}
use brand_sniper_monorepo.Prelude.Int.{ℤ, pos, ◌+ℤ◌, ◌-ℤ◌, ◌≤ℤ◌, int_laws}
use brand_sniper_monorepo.Prelude.Result.{ok}
use brand_sniper_monorepo.Fees.{FeeTier, VenueFees}
use brand_sniper_monorepo.Fees.Validity.{IsValid}
use brand_sniper_monorepo.Fees.Tiers.{seller_fee_bps_lem}
use brand_sniper_monorepo.Pnl.{
  applied_fee_bps, seller_fee_cents, buyer_fee_cents, sell_side, net_resale_margin_cents,
}
use brand_sniper_monorepo.Pnl.Rounding.{ceil_share, fee_rounded_up_cents-eq}
use brand_sniper_monorepo.Pnl.Margin.{IsItemRate, applied_fee_bps_lem, nonneg_test, rate_number}

-- A tier with a higher threshold charges no more.
pub record FeesFall (tiers : List FeeTier) : Type 0 where
  pub falls :
      (t u : FeeTier)
      → In t tiers
      → In u tiers
      → t.min_price_cents ≤ℤ u.min_price_cents
      → u.fee_bps ≤ℤ t.fee_bps

proceeds_grow :
    (r d s s' : ℕ) → s < 10000 → s' ≤ s → ceil_share ((r + d) * s') ≤ ceil_share (r * s) + d
proceeds_grow r d s s' h k =
    let a : (r + d) * s' ≤ (r + d) * s = grind arith in
    let b : d * s ≤ d * 9999 = grind arith in omega (arith, a, b)

cost_grows : (b e k : ℕ) → ceil_share (b * k) ≤ ceil_share ((b + e) * k)
cost_grows b e k = omega arith

-- The margin as a formula of the applied rates.
net_resale_margin_cents-eq :
    (buy resale buy_rate sell_rate : ℕ) (buy_fees : VenueFees) (sell_fees : Option VenueFees)
    (item : Option ℤ)
    → buy_fees.buyer_fee_bps ≡ pos buy_rate
    → applied_fee_bps (pos resale) (sell_side buy_fees sell_fees) item ≡ ok (pos sell_rate)
    → net_resale_margin_cents (pos buy) (pos resale) buy_fees sell_fees item
      ≡ ok (
          pos resale
          -ℤ pos (ceil_share (resale * sell_rate))
          -ℤ (pos buy +ℤ pos (ceil_share (buy * buy_rate))))
unfolding net_resale_margin_cents seller_fee_cents buyer_fee_cents
net_resale_margin_cents-eq buy resale buy_rate sell_rate buy_fees sell_fees item b s = rw (
  nonneg_test resale,
  s,
  nonneg_test buy,
  b,
  fee_rounded_up_cents-eq resale sell_rate,
  fee_rounded_up_cents-eq buy buy_rate,
)

ok_number : (a b : ℤ) → ok a ≡ ok b → a ≡ b
ok_number a b h = cc

-- A higher price pays no higher rate.
applied_fee_bps_antitone :
    (r d : ℕ) (fees : VenueFees) (item : Option ℤ) (s s' : ℕ)
    → IsValid fees
    → FeesFall fees.fee_tiers
    → applied_fee_bps (pos r) fees item ≡ ok (pos s)
    → applied_fee_bps (pos (r + d)) fees item ≡ ok (pos s')
    → s' ≤ s
unfolding applied_fee_bps
applied_fee_bps_antitone r d fees (some f) s s' v fall e e' = ground arith
applied_fee_bps_antitone r d fees none s s' v fall e e' =
    let (t, got, is) = seller_fee_bps_lem fees (pos r) v (omega arith) in
    let (t', got', is') = seller_fee_bps_lem fees (pos (r + d)) v (omega arith) in
    let le : t'.fee_bps ≤ℤ t.fee_bps =
      fall.falls t t' is.listed is'.listed
        (is'.highest t is.listed (let h = is.reached in omega (arith, h))) in
    let q : t.fee_bps ≡ pos s = cc in
    let q' : t'.fee_bps ≡ pos s' = cc in
    let bound : s' + 0 ≤ s + 0 = rw (q, q') at le in omega (arith, bound)

-- With valid schedules whose higher tiers charge no more, reselling for more and buying for less
-- never lowers the margin.
pub net_resale_margin_cents_mono :
    (buy resale e d : ℕ) (buy_fees : VenueFees) (sell_fees : Option VenueFees) (item : Option ℤ)
    → IsValid buy_fees
    → IsValid (sell_side buy_fees sell_fees)
    → FeesFall (sell_side buy_fees sell_fees).fee_tiers
    → IsItemRate item
    → (low high : ℤ) × (net_resale_margin_cents (pos (buy + e)) (pos resale) buy_fees sell_fees item
        ≡ ok low)
      × (net_resale_margin_cents (pos buy) (pos (resale + d)) buy_fees sell_fees item ≡ ok high)
      × (low ≤ℤ high)
net_resale_margin_cents_mono buy resale e d buy_fees sell_fees item vb vs fall h =
    let fees : VenueFees = sell_side buy_fees sell_fees in
    let (k, ek, _) = rate_number buy_fees.buyer_fee_bps vb.buyer_rate in
    let (s, es, lt) = applied_fee_bps_lem resale fees item vs h in
    let (s', es', lt') = applied_fee_bps_lem (resale + d) fees item vs h in
    let le : s' ≤ s = applied_fee_bps_antitone resale d fees item s s' vs fall es es' in
    (
      pos resale
          -ℤ pos (ceil_share (resale * s))
          -ℤ (pos (buy + e) +ℤ pos (ceil_share ((buy + e) * k))),
      pos (resale + d)
          -ℤ pos (ceil_share ((resale + d) * s'))
          -ℤ (pos buy +ℤ pos (ceil_share (buy * k))),
      net_resale_margin_cents-eq (buy + e) resale k s buy_fees sell_fees item ek es,
      net_resale_margin_cents-eq buy (resale + d) k s' buy_fees sell_fees item ek es',
      omega (int_laws, proceeds_grow resale d s s' lt le, cost_grows buy e k),
    )
