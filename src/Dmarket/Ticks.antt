-- ===== src/Dmarket/Ticks.antt =====
-- What every listing that parses, and every tick that is recorded of one, is like.
use brand_sniper_monorepo.Prelude.{
  ℕ, ◌/◌, ◌≤◌, ◌<◌, ◌≡◌, ◌≢◌, refl, ap, subst, String, true, Option, none, some, arith, ltb,
  Bool-cases, inl, inr, string_eq, nat_eq, ◌==◌, eq_iff,
}
use brand_sniper_monorepo.Prelude.Json.{Json, text, object, JsonFields, field_of}
use brand_sniper_monorepo.Prelude.Result.{ok}
use brand_sniper_monorepo.Names.{text_length}
use brand_sniper_monorepo.Tick.{MarketTick, listed, validate, of_feed_event}
use brand_sniper_monorepo.Recording.{Outcome, recorded, ResalePrices, judge}
use brand_sniper_monorepo.Dmarket.{DmarketOffer}
use brand_sniper_monorepo.Dmarket.Offers.{
  Decimals, parse_offer, offer_with, offer_in, whole_cents, cents_to_int, decimal_at, non_empty,
  mapping_or_empty,
}
use brand_sniper_monorepo.Dmarket.Offers.Times.{created_at_ms}
use brand_sniper_monorepo.Dmarket.Judging.{
  judge_offer, listing_tick, tick_of, is_recorded, recorded_only, offer_type_bot,
  max_listing_id_length,
}

tick_of-validate :
    (quote : String → String) (offer : DmarketOffer) (at : ℕ)
    → validate (tick_of quote offer at) ≡ ok (tick_of quote offer at)
unfolding validate of_feed_event
tick_of-validate quote offer at = rw ((nat_eq.beq_iff (at / 1000) (at / 1000)).1 refl) refl

recorded_of : (o : Outcome) → is_recorded o ≡ true → o ≡ recorded
recorded_of o h = ground arith

recorded_only-eq :
    (prices : ResalePrices) (o : Option MarketTick) (tick : MarketTick)
    → recorded_only prices o ≡ some tick
    → (o ≡ some tick) × (judge tick prices ≡ recorded)
recorded_only-eq prices none tick h = absurd (ground arith)
recorded_only-eq prices (some t) tick h = elim (Bool-cases (is_recorded (judge t prices))) [
  | inl e ↦
      let same : t ≡ tick = ground arith in
      (
        ap (λ x. some x) same,
        recorded_of _ (subst (λ x. is_recorded (judge x prices) ≡ true) same e),
      )
  | inr e ↦ absurd (ground arith)
]

listing_tick-eq :
    (quote : String → String) (offer : DmarketOffer) (at : ℕ) (tick : MarketTick)
    → listing_tick quote offer at ≡ some tick
    → (tick ≡ tick_of quote offer at) × (text_length offer.offer_id ≤ max_listing_id_length)
unfolding listing_tick
listing_tick-eq quote offer at tick h =
    elim (Bool-cases (ltb max_listing_id_length (text_length offer.offer_id))) [
      | inl e ↦ absurd (ground arith)
      | inr e ↦ (ground (arith, tick_of-validate quote offer at), ground arith)
    ]

module _ (d : Decimals)
    (positive : (n : d.Decimal)
      → d.is_positive n ≡ true
      → d.is_integral n ≡ true
      → 0 < d.int_of n) where
  abbrev HasId : Option DmarketOffer → Type 0
  HasId none = Unit
  HasId (some offer) = (offer.offer_id ≢ "") × (0 < offer.price_cents)

  non_empty-ne : (v : Option Json) (s : String) → non_empty v ≡ some s → s ≢ ""
  non_empty-ne (some (text t)) s h e = ground (arith, eq_iff t "")
  non_empty-ne _ s h e = ground arith

  whole_cents_positive :
      (n : Option d.Decimal) (price : ℕ) → whole_cents d n ≡ some price → 0 < price
  whole_cents_positive none price h = absurd (ground arith)
  whole_cents_positive (some n) price h = ground (arith, positive n)

  offer_with-HasId :
      (entry cs2 : JsonFields) (id : Option String) (created price : Option ℕ)
      (title : Option String)
      → ((s : String) → id ≡ some s → s ≢ "")
      → ((n : ℕ) → price ≡ some n → 0 < n)
      → HasId (offer_with d entry cs2 id created price title)
  offer_with-HasId entry cs2 (some id) (some created) (some price) (some title) named priced =
      (named id refl, priced price refl)
  offer_with-HasId entry cs2 none created price title named priced = tt
  offer_with-HasId entry cs2 (some id) none price title named priced = tt
  offer_with-HasId entry cs2 (some id) (some created) none title named priced = tt
  offer_with-HasId entry cs2 (some id) (some created) (some price) none named priced = tt

  offer_in-HasId :
      (entry : JsonFields) (attributes : Option Json) → HasId (offer_in d entry attributes)
  unfolding cents_to_int
  offer_in-HasId entry (some (object attributes)) =
      offer_with-HasId entry (mapping_or_empty (field_of "cs2" attributes))
        (non_empty (field_of "offerId" entry))
        (created_at_ms d.second_of (field_of "createdAt" entry))
        (cents_to_int d (field_of "priceCents" entry)) (non_empty (field_of "title" attributes))
        (non_empty-ne (field_of "offerId" entry))
        (whole_cents_positive (decimal_at d (field_of "priceCents" entry)))
  offer_in-HasId entry _ = tt

  parse_offer-HasId : (entry : Json) → HasId (parse_offer d entry)
  unfolding parse_offer
  parse_offer-HasId (object entry) = offer_in-HasId entry (field_of "attributes" entry)
  parse_offer-HasId _ = tt

  -- A tick that the scraper records of a listing that parsed is that listing's: it passes the
  -- validators, is a listed one with a price above zero, and names the listing by an ID that is not
  -- empty and fits; the listing is held by a bot and the filter recorded it.
  pub judge_offer-IsTick :
      (quote : String → String) (prices : ResalePrices) (entry : Json) (offer : DmarketOffer)
      (received_at_ms : ℕ) (tick : MarketTick)
      → parse_offer d entry ≡ some offer
      → judge_offer quote prices (some offer) received_at_ms ≡ some tick
      → (validate tick ≡ ok tick)
        × (tick ≡ tick_of quote offer received_at_ms)
        × (tick.kind ≡ listed)
        × (0 < tick.price_cents)
        × (tick.listing_id ≡ some offer.offer_id)
        × (offer.offer_id ≢ "")
        × (text_length offer.offer_id ≤ max_listing_id_length)
        × (offer.offer_type ≡ offer_type_bot)
        × (judge tick prices ≡ recorded)
  unfolding judge_offer
  judge_offer-IsTick quote prices entry offer received_at_ms tick parses judged =
      elim (Bool-cases (offer.offer_type == offer_type_bot)) [
        | inr e ↦ absurd (ground arith)
        | inl bot ↦
            let kept : recorded_only prices (listing_tick quote offer received_at_ms) ≡ some tick =
              ground arith in
            let (made, was_recorded) =
              recorded_only-eq prices (listing_tick quote offer received_at_ms) tick kept in
            let (same, short) = listing_tick-eq quote offer received_at_ms tick made in
            let named : HasId (some offer) = subst HasId parses (parse_offer-HasId entry) in
            (
              rw same (tick_of-validate quote offer received_at_ms),
              same,
              rw same refl,
              rw same named.1,
              rw same refl,
              named.0,
              short,
              (eq_iff offer.offer_type offer_type_bot).0 bot,
              was_recorded,
            )
      ]
