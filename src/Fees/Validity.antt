-- ===== src/Fees/Validity.antt =====
-- What a constructed fee schedule guarantees: every price has a fee, and the fee is that of the
-- highest tier the price reaches.
use brand_sniper_monorepo.Prelude.{
  ◌≡◌, refl, List, [], ◌∷◌, Bool, true, false, All, all, arith, Bool-cases, ◌⊎◌, inl, inr, sym, ◌∙◌,
  subst, not,
}
use brand_sniper_monorepo.Prelude.Int.{ℤ, pos, ◌≤ℤ◌, ltb_ℤ, eq_of_parts}
use brand_sniper_monorepo.Prelude.Result.{ok, err, raise_if, value_error, ◌>>◌}
use brand_sniper_monorepo.Fees.{
  FeeTier, VenueFees, is_fee_rate, min_threshold, check_tiers, new_venue_fees, is_nonzero, lesser,
}

abbrev pub IsFeeRate : ℤ → Type 0
IsFeeRate fee = (pos 0 ≤ℤ fee) × (fee ≤ℤ pos 9999)

abbrev pub ThresholdsFrom : ℤ → List FeeTier → Type 0
ThresholdsFrom least tiers = All (λ t. least ≤ℤ t.min_price_cents) tiers

abbrev pub HasThreshold : ℤ → List FeeTier → Type 0
HasThreshold least [] = ⊥
HasThreshold least (t ∷ ts) = (t.min_price_cents ≡ least) ⊎ HasThreshold least ts

-- What `__post_init__` demands.
pub record IsValid (fees : VenueFees) : Type 0 where
  pub start : HasThreshold (pos 0) fees.fee_tiers
  pub nonneg : ThresholdsFrom (pos 0) fees.fee_tiers
  pub rates : All (λ t. IsFeeRate t.fee_bps) fees.fee_tiers
  pub buyer_rate : IsFeeRate fees.buyer_fee_bps
  pub hold : pos 0 ≤ℤ fees.hold_seconds
  pub margin : pos 0 ≤ℤ fees.min_margin_cents

rates_of_all :
    (ts : List FeeTier)
    → all (λ t. is_fee_rate t.fee_bps) ts ≡ true
    → All (λ t. IsFeeRate t.fee_bps) ts
rates_of_all [] h = tt
rates_of_all (t ∷ ts) h = ground (arith, rates_of_all ts)

all_of_rates :
    (ts : List FeeTier)
    → All (λ t. IsFeeRate t.fee_bps) ts
    → all (λ t. is_fee_rate t.fee_bps) ts ≡ true
all_of_rates [] h = refl
all_of_rates (t ∷ ts) h = ground (arith, all_of_rates ts)

-- The running minimum is at most its start and what it has read, and is one of these.
min_threshold_lem :
    (least : ℤ) (ts : List FeeTier)
    → (min_threshold least ts ≤ℤ least)
      × ThresholdsFrom (min_threshold least ts) ts
      × ((min_threshold least ts ≡ least) ⊎ HasThreshold (min_threshold least ts) ts)
unfolding min_threshold
min_threshold_lem least [] = (omega arith, tt, inl refl)
min_threshold_lem least (t ∷ ts) =
    ground (arith, min_threshold_lem (lesser least t.min_price_cents) ts)

ThresholdsFrom-trans :
    (a b : ℤ) (ts : List FeeTier) → a ≤ℤ b → ThresholdsFrom b ts → ThresholdsFrom a ts
ThresholdsFrom-trans a b [] h k = tt
ThresholdsFrom-trans a b (t ∷ ts) h k = (omega arith, ThresholdsFrom-trans a b ts h k.1)

HasThreshold-le : (a b : ℤ) (ts : List FeeTier) → HasThreshold b ts → ThresholdsFrom a ts → a ≤ℤ b
HasThreshold-le a b [] h k = elim h [ ]
HasThreshold-le a b (t ∷ ts) (inl e) k = rw (← e) k.0
HasThreshold-le a b (t ∷ ts) (inr m) k = HasThreshold-le a b ts m k.1

raise_if_both :
    (a b : Bool)
    → (raise_if a value_error >> raise_if (not b) value_error) ≡ ok tt
    → (a ≡ false) × (b ≡ true)
raise_if_both a b h = ground arith

-- The tiers pass the tests exactly when they are as `IsValid` says.
abbrev TiersValid : List FeeTier → Type 0
TiersValid ts =
    HasThreshold (pos 0) ts × ThresholdsFrom (pos 0) ts × All (λ t. IsFeeRate t.fee_bps) ts

minimum_zero :
    (t : FeeTier) (ts : List FeeTier)
    → min_threshold t.min_price_cents ts ≡ pos 0
    → HasThreshold (pos 0) (t ∷ ts) × ThresholdsFrom (pos 0) (t ∷ ts)
minimum_zero t ts e =
    let (le, from, which) = min_threshold_lem t.min_price_cents ts in
    (minimum_start which, (rw e at le, subst (λ m. ThresholdsFrom m ts) e from))
  where
    minimum_start :
        (min_threshold t.min_price_cents ts ≡ t.min_price_cents)
          ⊎ HasThreshold (min_threshold t.min_price_cents ts) ts
        → HasThreshold (pos 0) (t ∷ ts)
    minimum_start (inl q) = inl (sym q ∙ e)
    minimum_start (inr m) = inr (subst (λ k. HasThreshold k ts) e m)

zero_minimum :
    (t : FeeTier) (ts : List FeeTier)
    → HasThreshold (pos 0) (t ∷ ts)
    → ThresholdsFrom (pos 0) (t ∷ ts)
    → min_threshold t.min_price_cents ts ≡ pos 0
zero_minimum t ts start from =
    let (le, rest, which) = min_threshold_lem t.min_price_cents ts in
    let least : ℤ = min_threshold t.min_price_cents ts in
    let low : least ≤ℤ pos 0 = HasThreshold-le least (pos 0) (t ∷ ts) start (le, rest) in
    eq_of_parts least (pos 0) (omega (arith, nonneg which))
  where
    nonneg :
        (min_threshold t.min_price_cents ts ≡ t.min_price_cents)
          ⊎ HasThreshold (min_threshold t.min_price_cents ts) ts
        → pos 0 ≤ℤ min_threshold t.min_price_cents ts
    nonneg (inl q) = rw q from.0
    nonneg (inr m) = HasThreshold-le (pos 0) (min_threshold t.min_price_cents ts) ts m from.1

zero_test : (a : ℤ) → is_nonzero a ≡ false → a ≡ pos 0
zero_test a h = ground arith

check_tiers_sound : (ts : List FeeTier) → check_tiers ts ≡ ok tt → TiersValid ts
unfolding check_tiers
check_tiers_sound [] h = cc
check_tiers_sound (t ∷ ts) h =
    let bits : (is_nonzero (min_threshold t.min_price_cents ts) ≡ false)
        × (all (λ t. is_fee_rate t.fee_bps) (t ∷ ts) ≡ true) =
      raise_if_both _ _ h in
    let (start, from) = minimum_zero t ts (zero_test _ bits.0) in
    (start, from, rates_of_all (t ∷ ts) bits.1)

check_tiers_complete : (ts : List FeeTier) → TiersValid ts → check_tiers ts ≡ ok tt
unfolding check_tiers
check_tiers_complete [] h = absurd h.0
check_tiers_complete (t ∷ ts) h = rw (zero_minimum t ts h.0 h.1, all_of_rates (t ∷ ts) h.2)

check_tiers-cases :
    (ts : List FeeTier) → (check_tiers ts ≡ ok tt) ⊎ (check_tiers ts ≡ err value_error)
unfolding check_tiers
check_tiers-cases [] = inr refl
check_tiers-cases (t ∷ ts) = ground arith

IsValid-of_tests :
    (fees : VenueFees)
    → TiersValid fees.fee_tiers
    → is_fee_rate fees.buyer_fee_bps ≡ true
    → ltb_ℤ fees.hold_seconds (pos 0) ≡ false
    → ltb_ℤ fees.min_margin_cents (pos 0) ≡ false
    → IsValid fees
IsValid-of_tests fees tiers buyer hold margin = record {
  start = tiers.0;
  nonneg = tiers.1;
  rates = tiers.2;
  buyer_rate = ground arith;
  hold = ground arith;
  margin = ground arith;
}

-- Constructing a schedule returns it unchanged exactly when it is valid, and raises `ValueError`
-- otherwise.
pub new_venue_fees_decides :
    (fees : VenueFees)
    → ((new_venue_fees fees ≡ ok fees) × IsValid fees)
      ⊎ ((new_venue_fees fees ≡ err value_error) × (¬ IsValid fees))
unfolding new_venue_fees
new_venue_fees_decides fees = elim (check_tiers-cases fees.fee_tiers) [
  | inr e ↦ inr (rw e, λ v. cc (e, check_tiers_complete _ (v.start, v.nonneg, v.rates)))
  | inl e ↦ elim (Bool-cases (is_fee_rate fees.buyer_fee_bps)) [
    | inr b ↦ inr (rw (e, b), λ v. ground (arith, v.buyer_rate))
    | inl b ↦ elim (Bool-cases (ltb_ℤ fees.hold_seconds (pos 0))) [
      | inl h ↦ inr (rw (e, b, h), λ v. ground (arith, v.hold))
      | inr h ↦ elim (Bool-cases (ltb_ℤ fees.min_margin_cents (pos 0))) [
        | inl m ↦ inr (rw (e, b, h, m), λ v. ground (arith, v.margin))
        | inr m ↦ inl (rw (e, b, h, m), IsValid-of_tests fees (check_tiers_sound _ e) b h m)
      ]
    ]
  ]
]
