-- ===== src/Scenarios/Entries.antt =====
-- One entry of a page of DMarket's listings, from its JSON to the recorded tick.
use brand_sniper_monorepo.Prelude.{
  ℕ, ◌≤◌, ◌<◌, ◌≡◌, ◌≢◌, refl, String, true, [], ◌∷◌, none, some, arith, if◌then◌else◌, ltb, leb,
  string_eq, ◌==◌,
}
use brand_sniper_monorepo.Prelude.Json.{Json, text, object, no_fields, field_then, field_of}
use brand_sniper_monorepo.Prelude.Result.{ok}
use brand_sniper_monorepo.Names.{text_length}
use brand_sniper_monorepo.Names.Versions.{strip, build_versioned_name}
use brand_sniper_monorepo.Tick.{MarketTick, listed, validate, of_feed_event}
use brand_sniper_monorepo.Recording.{recorded, ResalePrices, judge, judge_at, sum_held}
use brand_sniper_monorepo.Dmarket.{DmarketOffer}
use brand_sniper_monorepo.Dmarket.Offers.{Decimals, parse_offer, cents_to_int, phase_version}
use brand_sniper_monorepo.Dmarket.Offers.Times.{created_at_ms}
use brand_sniper_monorepo.Dmarket.Judging.{
  judge_offer, listing_tick, tick_of, offer_type_bot, max_listing_id_length,
}
use brand_sniper_monorepo.Dmarket.Ticks.{judge_offer-IsTick}

-- Decimals that are whole numbers, of which one text is one.
abbrev whole : Decimals
whole = record {
  Decimal = ℕ;
  decimal_of = λ s. if s == "21345" then some 21345 else none;
  is_positive = λ n. ltb 0 n;
  is_integral = λ n. true;
  at_most_one = λ n. leb n 1;
  int_of = λ n. n;
  float_of = λ n. n;
  json_int = λ s. none;
  second_of = λ s. if s == "2026-10-25T20:33:05+00:00" then some 1792960385 else none;
}

abbrev entry : Json
entry = object (
    field_then "offerId" (text "f3a42338") (
      field_then "createdAt" (text "2026-10-25T20:33:05Z") (
        field_then "priceCents" (text "21345") (
          field_then "offerType" (text "dmarket") (
            field_then "attributes"
              (object (
                field_then "title" (text "Karambit | Doppler") (
                  field_then "cs2" (object (field_then "phase" (text "black-pearl") no_fields))
                    no_fields)))
              no_fields)))))

abbrev karambit : DmarketOffer
karambit = record {
  offer_id = "f3a42338";
  created_at_ms = 1792960385000;
  price_cents = 21345;
  offer_type = "dmarket";
  title = "Karambit | Doppler";
  market_hash_name = "Karambit | Doppler (Black Pearl)";
  float_value = none;
  paint_seed = none;
  paint_index = none;
  phase = some "Black Pearl";
  sticker_names = [];
}

parses : parse_offer whole entry ≡ some karambit
unfolding parse_offer cents_to_int phase_version strip created_at_ms field_of build_versioned_name
parses = refl

abbrev prices : ResalePrices
prices = record {
  venue = "dmarket";
  build_id = some "1";
  latest_price_cents = ("Karambit | Doppler (Black Pearl)", 30000) ∷ [];
  sticker_prices_cents = [];
}

abbrev quote : String → String
quote title = "karambit"

abbrev tick : MarketTick
tick = tick_of quote karambit 1792960390123

judged : judge_offer quote prices (some karambit) 1792960390123 ≡ some tick
unfolding judge_offer listing_tick validate of_feed_event judge judge_at sum_held
judged = refl

judge_offer-IsTick_example :
    (validate tick ≡ ok tick)
    × (tick ≡ tick_of quote karambit 1792960390123)
    × (tick.kind ≡ listed)
    × (0 < tick.price_cents)
    × (tick.listing_id ≡ some "f3a42338")
    × (karambit.offer_id ≢ "")
    × (text_length karambit.offer_id ≤ max_listing_id_length)
    × (karambit.offer_type ≡ offer_type_bot)
    × (judge tick prices ≡ recorded)
judge_offer-IsTick_example =
    judge_offer-IsTick whole (λ n p q. ground arith) quote prices entry karambit 1792960390123 tick
      parses judged
