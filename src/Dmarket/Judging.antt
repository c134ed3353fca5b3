-- ===== src/Dmarket/Judging.antt =====
-- What the scraper does with the listings that were read (apps/listener/scrapers/dmarket.py):
-- listing_tick, raw_listing, `_judge` and the loop of `_poll` that hands the recorded ones on. `quote`
-- is urllib's. The price in dollars is the float of the whole cents, which MarketTick rounds back.
use Prim.Native.String.{◌++◌ as ◌<>◌}
use brand_sniper_monorepo.Prelude.{
  ℕ, ◌/◌, String, Bool, true, false, List, [], ◌∷◌, ◌++◌, Option, none, some, if◌then◌else◌, ltb,
  leb, map, string_eq, ◌==◌,
}
use brand_sniper_monorepo.Prelude.Json.{Json, object, JsonFields, no_fields, field_then, field_of}
use brand_sniper_monorepo.Prelude.Result.{Result, ok, err}
use brand_sniper_monorepo.Names.{text_length}
use brand_sniper_monorepo.Tick.{MarketTick, listed, validate}
use brand_sniper_monorepo.Recording.{Outcome, recorded, ResalePrices, judge}
use brand_sniper_monorepo.Recording.Batches.{RawEventBatch, add}
use brand_sniper_monorepo.Dmarket.{DmarketOffer, ListingPoller, ReadEntry}
use brand_sniper_monorepo.Dmarket.Poller.{note_recorded}

abbrev pub max_listing_id_length : ℕ
max_listing_id_length = 64

abbrev pub max_listing_url_length : ℕ
max_listing_url_length = 512

abbrev pub market_search_url : String
market_search_url = "https://dmarket.com/ingame-items/item-list/csgo-skins?title="

abbrev pub offer_type_bot : String
offer_type_bot = "dmarket"

abbrev pub raw_listing_fields : List String
raw_listing_fields =
    "offerId" ∷ "createdAt" ∷ "priceCents" ∷ "offerType" ∷ "discountPercent" ∷ "locked" ∷ []

abbrev pub raw_attribute_fields : List String
raw_attribute_fields =
    "id" ∷ "title" ∷ "tradable" ∷ "tradeLockDays" ∷ "unlockDate" ∷ "settlementTime"
    ∷ "revertPendingUntil" ∷ "tradeProtectionRemoved" ∷ "status" ∷ []

-- `{name: entry[name] for name in names if name in entry}`, before the fields that follow.
abbrev pub field_then_if : String → Option Json → JsonFields → JsonFields
field_then_if name none rest = rest
field_then_if name (some v) rest = field_then name v rest

abbrev pub only_fields : List String → JsonFields → JsonFields → JsonFields
only_fields [] entry rest = rest
only_fields (name ∷ names) entry rest =
    field_then_if name (field_of name entry) (only_fields names entry rest)

abbrev pub without_links : JsonFields → JsonFields
without_links no_fields = no_fields
without_links (field_then name v others) =
    let rest = without_links others in
    if name == "inspectInGameUri"
    then rest
    else if name == "inspectInGameTemplateUri"
    then rest
    else field_then name v rest

abbrev pub raw_cs2 : Option Json → JsonFields
raw_cs2 (some (object cs2)) = field_then "cs2" (object (without_links cs2)) no_fields
raw_cs2 _ = no_fields

abbrev pub raw_attributes : Option Json → JsonFields
raw_attributes (some (object attributes)) =
    field_then "attributes"
      (object (only_fields raw_attribute_fields attributes (raw_cs2 (field_of "cs2" attributes))))
      no_fields
raw_attributes _ = no_fields

-- raw_listing
unfoldable pub raw_listing : JsonFields → JsonFields
raw_listing entry =
    only_fields raw_listing_fields entry (raw_attributes (field_of "attributes" entry))

abbrev pub valid_or_none : Result MarketTick → Option MarketTick
valid_or_none (err e) = none
valid_or_none (ok tick) = some tick

abbrev pub is_recorded : Outcome → Bool
is_recorded recorded = true
is_recorded _ = false

abbrev pub recorded_only : ResalePrices → Option MarketTick → Option MarketTick
recorded_only prices none = none
recorded_only prices (some tick) = if is_recorded (judge tick prices) then some tick else none

pub record Handed : Type 0 where
  pub poller : ListingPoller
  pub raw_batch : RawEventBatch JsonFields
  pub ticks : List MarketTick

abbrev pub hand_on : String → ReadEntry → Option DmarketOffer → Option MarketTick → Handed → Handed
hand_on event r (some offer) (some tick) h = record {
  poller = note_recorded offer h.poller;
  raw_batch = add event (raw_listing r.entry) r.received_at_ms h.raw_batch;
  ticks = h.ticks ++ tick ∷ [];
}
hand_on event r (some offer) none h = h
hand_on event r none tick h = h

module _ (quote : String → String) where
  -- listing_url
  unfoldable pub listing_url : String → Option String
  listing_url title =
      let url = market_search_url <> quote title in
      if leb (text_length url) max_listing_url_length then some url else none

  abbrev pub tick_of : DmarketOffer → ℕ → MarketTick
  tick_of offer received_at_ms = record {
    venue = "dmarket";
    kind = listed;
    market_hash_name = offer.market_hash_name;
    price_cents = offer.price_cents;
    timestamp = received_at_ms / 1000;
    observed_at_ms = some received_at_ms;
    float_value = offer.float_value;
    stickers = map (λ name. record { name = some name }) offer.sticker_names;
    event_type = some "listed";
    listing_id = some offer.offer_id;
    pattern_seed = offer.paint_seed;
    paint_index = offer.paint_index;
    listing_url = listing_url offer.title;
  }

  -- listing_tick
  unfoldable pub listing_tick : DmarketOffer → ℕ → Option MarketTick
  listing_tick offer received_at_ms =
      if ltb max_listing_id_length (text_length offer.offer_id)
      then none
      else valid_or_none (validate (tick_of offer received_at_ms))

  -- `_judge`
  unfoldable pub judge_offer : ResalePrices → Option DmarketOffer → ℕ → Option MarketTick
  unfolding listing_tick
  judge_offer prices none received_at_ms = none
  judge_offer prices (some offer) received_at_ms =
      if offer.offer_type == offer_type_bot
      then recorded_only prices (listing_tick offer received_at_ms)
      else none

  -- The loop over what a poll read.
  unfoldable pub hand_on_all : String → ResalePrices → List ReadEntry → Handed → Handed
  unfolding judge_offer
  hand_on_all event prices [] h = h
  hand_on_all event prices (r ∷ rest) h =
      hand_on_all event prices rest
        (hand_on event r r.offer (judge_offer prices r.offer r.received_at_ms) h)
