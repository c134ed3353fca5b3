-- ===== src/Rules/Approval.antt =====
-- What an approval rests on, and that a cheaper tick is never worse off.
use brand_sniper_monorepo.Prelude.{
  ℕ, ◌+◌, ◌*◌, ◌≤◌, ◌<◌, ◌≡◌, ◌≢◌, refl, true, Option, none, some, arith,
}
use native.Mathlib.Decide.{dec_lt}
use brand_sniper_monorepo.Tick.{MarketTick}
use brand_sniper_monorepo.Edge.{Baseline, EdgeStore}
use brand_sniper_monorepo.Rules.{
  Reason, support_floor, macro_sigma, stickers_below_base, sticker_premium, below_macro_floor,
  approve_with, or_zero, dre_approval_reason, sticker_value_cents, baseline_for, approve_baseline,
}

-- What each rule says of the price, the baseline and the total sticker value.
abbrev pub Holds : Reason → ℕ → ℕ → Baseline → Type 0
Holds support_floor price total b = price ≤ or_zero b.support_floor_cents
Holds macro_sigma price total b =
    (avg volatility : ℕ) × (b.rolling_30d_avg_cents ≡ some avg)
    × (b.volatility_cents ≡ some volatility)
    × (0 < volatility)
    × (price + 2 * volatility ≤ avg)
Holds stickers_below_base price total b = (10000 < total) × (price ≤ or_zero b.latest_price_cents)
Holds sticker_premium price total b =
    (10000 < total)
    × (or_zero b.latest_price_cents < price)
    × (100 * price ≤ 100 * or_zero b.latest_price_cents + 3 * total)

below_macro_floor-Holds :
    (price : ℕ) (a v : Option ℕ)
    → below_macro_floor price a v ≡ true
    → (avg volatility : ℕ) × (a ≡ some avg)
      × (v ≡ some volatility)
      × (0 < volatility)
      × (price + 2 * volatility ≤ avg)
unfolding below_macro_floor
below_macro_floor-Holds price (some a) (some v) h = (a, v, refl, refl, ground arith, ground arith)
below_macro_floor-Holds price (some a) none h = absurd (ground arith)
below_macro_floor-Holds price none v h = absurd (ground arith)

approve_with-Holds :
    (price total : ℕ) (b : Baseline) (reason : Reason)
    → approve_with price total b ≡ some reason
    → Holds reason price total b
unfolding approve_with
approve_with-Holds price total b support_floor h = ground arith
approve_with-Holds price total b macro_sigma h =
    below_macro_floor-Holds price b.rolling_30d_avg_cents b.volatility_cents (ground arith)
approve_with-Holds price total b stickers_below_base h = ground arith
approve_with-Holds price total b sticker_premium h = ground arith

approved_of_Holds :
    (price total : ℕ) (b : Baseline) (reason : Reason)
    → Holds reason price total b
    → approve_with price total b ≢ none
unfolding approve_with
approved_of_Holds price total b support_floor h = ground arith
approved_of_Holds price total b macro_sigma (avg, v, ea, ev, pos, far) = rw (ea, ev) (ground arith)
approved_of_Holds price total b stickers_below_base h = ground arith
approved_of_Holds price total b sticker_premium h = ground arith

approve_baseline-Holds :
    (price total : ℕ) (o : Option Baseline) (reason : Reason)
    → approve_baseline price total o ≡ some reason
    → (b : Baseline) × (o ≡ some b) × Holds reason price total b
approve_baseline-Holds price total none reason h = absurd (ground arith)
approve_baseline-Holds price total (some b) reason h =
    (b, refl, approve_with-Holds price total b reason h)

approve_baseline_holding :
    (price total : ℕ) (o : Option Baseline) (b : Baseline) (reason : Reason)
    → o ≡ some b
    → Holds reason price total b
    → approve_baseline price total o ≢ none
approve_baseline_holding price total o b reason e h =
    rw e (approved_of_Holds price total b reason h)

-- The DRE approves a tick exactly when it has a baseline and one of the rules holds of it, and the
-- reason it gives is a rule that holds.
pub dre_approval_reason_lem :
    (tick : MarketTick) (store : EdgeStore) (given : Option Baseline) (reason : Reason)
    → (dre_approval_reason tick store given ≡ some reason
        → (b : Baseline) × (baseline_for tick store given ≡ some b)
          × Holds reason tick.price_cents (sticker_value_cents tick store) b)
      × ((b : Baseline)
          → baseline_for tick store given ≡ some b
          → Holds reason tick.price_cents (sticker_value_cents tick store) b
          → dre_approval_reason tick store given ≢ none)
unfolding dre_approval_reason
dre_approval_reason_lem tick store given reason =
    let total = sticker_value_cents tick store in
    let baseline = baseline_for tick store given in
    (
      approve_baseline-Holds tick.price_cents total baseline reason,
      λ b. approve_baseline_holding tick.price_cents total baseline b reason,
    )

-- A rule that holds at a price leaves some rule holding at any lower price.
Holds-cheaper :
    (p q total : ℕ) (b : Baseline) (reason : Reason)
    → q ≤ p
    → Holds reason p total b
    → (r : Reason) × Holds r q total b
Holds-cheaper p q total b support_floor le h = (support_floor, omega arith)
Holds-cheaper p q total b macro_sigma le (avg, v, ea, ev, pos, far) =
    (macro_sigma, (avg, v, ea, ev, pos, omega arith))
Holds-cheaper p q total b stickers_below_base le h = (stickers_below_base, omega arith)
Holds-cheaper p q total b sticker_premium le h = elim (dec_lt (or_zero b.latest_price_cents) q) [
  | yes above ↦ (sticker_premium, omega arith)
  | no below ↦ (stickers_below_base, omega arith)
]

approved_reason : (o : Option Reason) → o ≢ none → (reason : Reason) × (o ≡ some reason)
approved_reason none h = absurd (h refl)
approved_reason (some r) h = (r, refl)

approve_baseline_cheaper :
    (p q total : ℕ) (o : Option Baseline)
    → q ≤ p
    → approve_baseline p total o ≢ none
    → approve_baseline q total o ≢ none
approve_baseline_cheaper p q total none le h = h
approve_baseline_cheaper p q total (some b) le h =
    let (reason, e) = approved_reason (approve_with p total b) h in
    let (r, holds) = Holds-cheaper p q total b reason le (approve_with-Holds p total b reason e) in
    approved_of_Holds q total b r holds

baseline_for_price :
    (tick : MarketTick) (store : EdgeStore) (given : Option Baseline) (q : ℕ)
    → baseline_for (record tick { price_cents = q }) store given ≡ baseline_for tick store given
unfolding baseline_for
baseline_for_price tick store none q = refl
baseline_for_price tick store (some b) q = refl

-- Where the DRE approves a tick, it approves the same tick at any lower price.
pub dre_approval_reason_cheaper :
    (tick : MarketTick) (store : EdgeStore) (given : Option Baseline) (q : ℕ)
    → q ≤ tick.price_cents
    → dre_approval_reason tick store given ≢ none
    → dre_approval_reason (record tick { price_cents = q }) store given ≢ none
unfolding dre_approval_reason sticker_value_cents
dre_approval_reason_cheaper tick store given q le h = rw (baseline_for_price tick store given q) (
    approve_baseline_cheaper tick.price_cents q (sticker_value_cents tick store)
      (baseline_for tick store given) le h)
