-- ===== src/Fees/Tiers.antt =====
-- Which tier sets the seller fee (`VenueFees.seller_fee_bps`).
use brand_sniper_monorepo.Prelude.{
  ◌≡◌, refl, sym, subst, List, [], ◌∷◌, Bool, All, In, In-All, In-keep, In-keep_intro, keep, arith,
  inl, inr, le→leb,
}
use brand_sniper_monorepo.Prelude.Int.{ℤ, pos, ◌≤ℤ◌, leb_ℤ, leb_ℤ→≤ℤ}
use brand_sniper_monorepo.Prelude.Result.{ok}
use brand_sniper_monorepo.Fees.{FeeTier, VenueFees, max_tier, higher, fee_of_max, seller_fee_bps}
use brand_sniper_monorepo.Fees.Validity.{IsValid, HasThreshold}

-- The running maximum is at least its start and what it has read, and is one of these.
max_tier_lem :
    (best : FeeTier) (ts : List FeeTier)
    → (best.min_price_cents ≤ℤ (max_tier best ts).min_price_cents)
      × All (λ t. t.min_price_cents ≤ℤ (max_tier best ts).min_price_cents) ts
      × In (max_tier best ts) (best ∷ ts)
unfolding max_tier
max_tier_lem best [] = (omega arith, tt, inl refl)
max_tier_lem best (t ∷ ts) = ground (arith, max_tier_lem (higher best t) ts)

-- `tier` is the highest of the tiers that the price reaches.
pub record IsFeeTier (tiers : List FeeTier) (price : ℤ) (tier : FeeTier) : Type 0 where
  pub listed : In tier tiers
  pub reached : tier.min_price_cents ≤ℤ price
  pub highest :
      (t : FeeTier)
      → In t tiers
      → t.min_price_cents ≤ℤ price
      → t.min_price_cents ≤ℤ tier.min_price_cents

abbrev reaches : ℤ → FeeTier → Bool
reaches price t = leb_ℤ t.min_price_cents price

fee_of_max_lem :
    (ts : List FeeTier) (t : FeeTier)
    → In t ts
    → (m : FeeTier) × (fee_of_max ts ≡ ok m.fee_bps)
      × In m ts
      × All (λ t. t.min_price_cents ≤ℤ m.min_price_cents) ts
unfolding fee_of_max
fee_of_max_lem [] t h = elim h [ ]
fee_of_max_lem (best ∷ ts) t h =
    let (le, all, m) = max_tier_lem best ts in (max_tier best ts, refl, m, (le, all))

threshold_tier :
    (least : ℤ) (ts : List FeeTier)
    → HasThreshold least ts
    → (t : FeeTier) × In t ts × (t.min_price_cents ≡ least)
threshold_tier least [] h = elim h [ ]
threshold_tier least (t ∷ ts) (inl e) = (t, inl refl, e)
threshold_tier least (t ∷ ts) (inr m) = let (u, i, e) = threshold_tier least ts m in (u, inr i, e)

-- With a valid schedule every price from zero has a seller fee: that of the highest tier whose
-- threshold the price reaches.
pub seller_fee_bps_lem :
    (fees : VenueFees) (price : ℤ)
    → IsValid fees
    → pos 0 ≤ℤ price
    → (tier : FeeTier) × (seller_fee_bps fees price ≡ ok tier.fee_bps)
      × IsFeeTier fees.fee_tiers price tier
unfolding seller_fee_bps
seller_fee_bps_lem fees price v h =
    let (z, listed, e) = threshold_tier (pos 0) fees.fee_tiers v.start in
    let in_reach : In z (keep (reaches price) fees.fee_tiers) =
      In-keep_intro (reaches price) z fees.fee_tiers listed
        (le→leb _ _ (subst (λ k. k ≤ℤ price) (sym e) h)) in
    let (m, got, i, all) = fee_of_max_lem (keep (reaches price) fees.fee_tiers) z in_reach in
    let (j, r) = In-keep (reaches price) m fees.fee_tiers i in
    (
      m,
      got,
      record {
        listed = j;
        reached = leb_ℤ→≤ℤ m.min_price_cents price r;
        highest = λ t k q.
            In-All (λ t. t.min_price_cents ≤ℤ m.min_price_cents) t
              (keep (reaches price) fees.fee_tiers) all
              (In-keep_intro (reaches price) t fees.fee_tiers k (le→leb _ _ q));
      },
    )
