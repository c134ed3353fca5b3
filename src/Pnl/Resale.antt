-- ===== src/Pnl/Resale.antt =====
-- The registered venues: every one has a valid schedule, and so has the venue it resells on.
use Prim.Native.Char.{Char, code}
use Prim.Native.String.{char_at}
use brand_sniper_monorepo.Prelude.{
  ℕ, zero, suc, ◌-◌, ◌<◌, String, ◌≡◌, refl, ap, ◌∙◌, Bool, true, ◌&&◌, ◌⊎◌, inl, inr, arith, leb,
  Bool-cases, string_eq, ◌==◌,
}
use brand_sniper_monorepo.Prelude.Result.{ok, err, unknown_venue}
use brand_sniper_monorepo.Fees.{VenueFees}
use brand_sniper_monorepo.Fees.Validity.{IsValid}
use brand_sniper_monorepo.Pnl.Monotone.{FeesFall}
use brand_sniper_monorepo.Pnl.Venues.{
  lower, lower_char, lower_case_letters, fees_for, resale_venue_for, skinport_fees, waxpeer_fees,
  dmarket_fees,
}

-- The test holds of the first letters, as many as the number.
first_letters : (ℕ → Bool) → ℕ → Bool
first_letters test zero = true
first_letters test (suc count) = first_letters test count && test count

first_letters_meet :
    (test : ℕ → Bool) (count letter : ℕ)
    → first_letters test count ≡ true
    → letter < count
    → test letter ≡ true
unfolding first_letters
first_letters_meet test zero letter h below = absurd (omega arith)
first_letters_meet test (suc count) letter h below =
    ground (arith, first_letters_meet test count letter)

letters_table : first_letters (λ k. leb 97 (code (char_at lower_case_letters k))) 26 ≡ true
unfolding first_letters
letters_table = refl

lower_char-lower_char : (c : Char) → lower_char (lower_char c) ≡ lower_char c
unfolding lower_char
lower_char-lower_char c = ground (arith, first_letters_meet _ 26 (code c - 65) letters_table)

lower-lower : (s : String) → lower (lower s) ≡ lower s
unfolding lower
lower-lower String.[] = refl
lower-lower (String.◌∷◌ c s) = cc (lower_char-lower_char c, lower-lower s)

pub skinport-IsValid : IsValid skinport_fees
skinport-IsValid = record {
  start = inl refl;
  nonneg = omega arith;
  rates = omega arith;
  buyer_rate = omega arith;
  hold = omega arith;
  margin = omega arith;
}

pub waxpeer-IsValid : IsValid waxpeer_fees
waxpeer-IsValid = record {
  start = inl refl;
  nonneg = omega arith;
  rates = omega arith;
  buyer_rate = omega arith;
  hold = omega arith;
  margin = omega arith;
}

dmarket-IsValid : IsValid dmarket_fees
dmarket-IsValid = record {
  start = inl refl;
  nonneg = omega arith;
  rates = omega arith;
  buyer_rate = omega arith;
  hold = omega arith;
  margin = omega arith;
}

-- A schedule that the code may price with.
pub record IsSound (fees : VenueFees) : Type 0 where
  pub valid : IsValid fees
  pub falling : FeesFall fees.fee_tiers

pub skinport-IsSound : IsSound skinport_fees
skinport-IsSound = record {
  valid = skinport-IsValid;
  falling = record { falls = λ t u h k le. ground arith };
}

waxpeer-IsSound : IsSound waxpeer_fees
waxpeer-IsSound = record {
  valid = waxpeer-IsValid;
  falling = record { falls = λ t u h k le. ground arith };
}

dmarket-IsSound : IsSound dmarket_fees
dmarket-IsSound = record {
  valid = dmarket-IsValid;
  falling = record { falls = λ t u h k le. ground arith };
}

abbrev pub Priced : String → Type 0
Priced venue = (fees : VenueFees) × (fees_for venue ≡ ok fees) × IsSound fees

registered_or_unknown : (venue : String) → Priced venue ⊎ (fees_for venue ≡ err unknown_venue)
unfolding fees_for
registered_or_unknown venue = elim (Bool-cases ("skinport" == lower venue)) [
  | inl e ↦ inl (skinport_fees, rw e, skinport-IsSound)
  | inr e ↦ elim (Bool-cases ("waxpeer" == lower venue)) [
    | inl f ↦ inl (waxpeer_fees, rw (e, f), waxpeer-IsSound)
    | inr f ↦ elim (Bool-cases ("dmarket" == lower venue)) [
      | inl g ↦ inl (dmarket_fees, rw (e, f, g), dmarket-IsSound)
      | inr g ↦ inr (rw (e, f, g))
    ]
  ]
]

resale-cases :
    (venue : String)
    → (resale_venue_for venue ≡ "skinport") ⊎ (resale_venue_for venue ≡ lower venue)
unfolding resale_venue_for
resale-cases venue = elim (Bool-cases ("waxpeer" == lower venue)) [
  | inl e ↦ inl (rw e)
  | inr e ↦ inr (rw e)
]

fees_for-lower : (venue : String) → fees_for (lower venue) ≡ fees_for venue
unfolding fees_for
fees_for-lower venue = rw (lower-lower venue)

resale_again : (venue : String) → resale_venue_for (lower venue) ≡ resale_venue_for venue
unfolding resale_venue_for
resale_again venue = rw (lower-lower venue)

Priced-skinport : Priced "skinport"
unfolding fees_for
Priced-skinport = (skinport_fees, refl, skinport-IsSound)

skinport_settled : resale_venue_for "skinport" ≡ "skinport"
unfolding resale_venue_for
skinport_settled = refl

-- A venue's resale venue resells at itself; and where the venue has a fee schedule, in any case of
-- its letters, both schedules are registered, valid, and charge dearer sales no higher rate.
pub resale_venue_for_lem :
    (venue : String)
    → (resale_venue_for (resale_venue_for venue) ≡ resale_venue_for venue)
      × (Priced venue × Priced (resale_venue_for venue) ⊎ (fees_for venue ≡ err unknown_venue))
resale_venue_for_lem venue = (settled (resale-cases venue), priced (registered_or_unknown venue))
  where
    settled :
        (resale_venue_for venue ≡ "skinport") ⊎ (resale_venue_for venue ≡ lower venue)
        → resale_venue_for (resale_venue_for venue) ≡ resale_venue_for venue
    settled (inl e) = rw e skinport_settled
    settled (inr e) = ap resale_venue_for e ∙ resale_again venue

    resold :
        Priced venue
        → (resale_venue_for venue ≡ "skinport") ⊎ (resale_venue_for venue ≡ lower venue)
        → Priced (resale_venue_for venue)
    resold p (inl e) = rw e Priced-skinport
    resold (fees, got, sound) (inr e) = (fees, ap fees_for e ∙ fees_for-lower venue ∙ got, sound)

    priced :
        Priced venue ⊎ (fees_for venue ≡ err unknown_venue)
        → Priced venue × Priced (resale_venue_for venue) ⊎ (fees_for venue ≡ err unknown_venue)
    priced (inl p) = inl (p, resold p (resale-cases venue))
    priced (inr u) = inr u
