-- ===== src/Pnl/Venues.antt =====
-- The registered fee schedules, and where a venue's listings are resold.
use Prim.Native.Char.{Char, code}
use Prim.Native.String.{char_at}
use brand_sniper_monorepo.Prelude.{
  ℕ, ◌-◌, ◌*◌, String, [], ◌∷◌, Option, none, some, leb, ◌&&◌, if◌then◌else◌, string_eq,
}
use brand_sniper_monorepo.Prelude.Dict.{Dict, lookup}
use brand_sniper_monorepo.Prelude.Int.{pos}
use brand_sniper_monorepo.Prelude.Result.{Result, ok, err, unknown_venue}
use brand_sniper_monorepo.Fees.{FeeTier, VenueFees, seconds_per_day}

abbrev pub tier : ℕ → ℕ → FeeTier
tier min_price fee = record { min_price_cents = pos min_price; fee_bps = pos fee }

abbrev pub skinport_fees : VenueFees
skinport_fees = record {
  venue = "skinport";
  fee_tiers = tier 0 800 ∷ tier 100000 600 ∷ [];
  buyer_fee_bps = pos 0;
  hold_seconds = pos (7 * seconds_per_day);
  min_margin_cents = pos 0;
}

abbrev pub waxpeer_fees : VenueFees
waxpeer_fees = record {
  venue = "waxpeer";
  fee_tiers = tier 0 600 ∷ [];
  buyer_fee_bps = pos 0;
  hold_seconds = pos (7 * seconds_per_day);
  min_margin_cents = pos 0;
}

abbrev pub dmarket_fees : VenueFees
dmarket_fees = record {
  venue = "dmarket";
  fee_tiers = tier 0 1000 ∷ [];
  buyer_fee_bps = pos 0;
  hold_seconds = pos (7 * seconds_per_day);
  min_margin_cents = pos 0;
}

abbrev pub venue_fees : Dict String VenueFees
venue_fees =
    (skinport_fees.venue, skinport_fees)
    ∷ (waxpeer_fees.venue, waxpeer_fees)
    ∷ (dmarket_fees.venue, dmarket_fees)
    ∷ []

abbrev pub resale_venues : Dict String String
resale_venues = (waxpeer_fees.venue, skinport_fees.venue) ∷ []

abbrev pub lower_case_letters : String
lower_case_letters = "abcdefghijklmnopqrstuvwxyz"

unfoldable pub lower_char : Char → Char
lower_char c =
    if leb b'A' (code c) && leb (code c) b'Z' then char_at lower_case_letters (code c - b'A') else c

-- `str.lower` on ASCII text, which venue names are.
unfoldable pub lower : String → String
unfolding lower_char
lower String.[] = String.[]
lower (String.◌∷◌ c s) = String.◌∷◌ (lower_char c) (lower s)

unfoldable pub or_unknown : Option VenueFees → Result VenueFees
or_unknown none = err unknown_venue
or_unknown (some fees) = ok fees

unfoldable pub fees_for : String → Result VenueFees
unfolding lower or_unknown
fees_for venue = or_unknown (lookup (lower venue) venue_fees)

-- `RESALE_VENUES.get(buy_venue, buy_venue)`
abbrev or_same : String → Option String → String
or_same buy_venue none = buy_venue
or_same buy_venue (some venue) = venue

unfoldable pub resale_venue_for : String → String
unfolding lower
resale_venue_for venue = or_same (lower venue) (lookup (lower venue) resale_venues)
