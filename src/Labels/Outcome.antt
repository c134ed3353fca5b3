-- ===== src/Labels/Outcome.antt =====
-- The label of one listing and of many: ItemFees, label_listing and label_listings
-- (apps/analytics/outcome_labels.py).
use brand_sniper_monorepo.Prelude.{
  ℕ, zero, suc, ◌-◌, ◌/◌, String, Bool, true, false, ◌&&◌, ◌||◌, List, [], ◌∷◌, Option, none, some,
  if◌then◌else◌, length, keep, head?, drop, map, string_eq,
}
use brand_sniper_monorepo.Prelude.Int.{ℤ, pos, ◌+ℤ◌, ◌-ℤ◌, ◌/ℤ◌, pos_part, ltb_ℤ, leb_ℤ}
use brand_sniper_monorepo.Prelude.Dict.{Dict, lookup}
use brand_sniper_monorepo.Prelude.Result.{Result, ok, err, value_error, ◌>>=◌, ◌>>◌, raise_if}
use brand_sniper_monorepo.Pnl.{net_resale_margin_cents, is_profitable_margin}
use brand_sniper_monorepo.Labels.{LabelConfig, FeedSale, microseconds, latest_labelable}
use brand_sniper_monorepo.Labels.Sold.{
  SoldIndex, comparable_prices, item_sale, bisect_right, first_sighting_per_listing, values,
  sort_sales,
}

-- One baseline build: when it was stored, and each item's seller fee.
abbrev pub FeeBuild : Type 0
FeeBuild = ℤ × Dict String ℤ

abbrev insert_build : FeeBuild → List FeeBuild → List FeeBuild
insert_build b [] = b ∷ []
insert_build b (c ∷ cs) = if ltb_ℤ c.0 b.0 then c ∷ insert_build b cs else b ∷ c ∷ cs

-- `ItemFees.build`: the builds, oldest first.
unfoldable pub new_item_fees : List FeeBuild → List FeeBuild
new_item_fees [] = []
new_item_fees (b ∷ bs) = insert_build b (new_item_fees bs)

abbrev built_at_of : FeeBuild → ℤ
built_at_of b = b.0

abbrev fee_of_build : String → Option FeeBuild → Option ℤ
fee_of_build name none = none
fee_of_build name (some b) = lookup name b.1

-- `ItemFees.fee_bps`
abbrev fee_at_index : List FeeBuild → String → ℕ → Option ℤ
fee_at_index builds name zero = none
fee_at_index builds name (suc index) = fee_of_build name (head? (drop index builds))

unfoldable pub fee_bps_at : List FeeBuild → String → ℤ → Option ℤ
fee_bps_at builds name at = fee_at_index builds name (bisect_right (map built_at_of builds) at)

abbrev pub insert_price : ℤ → List ℤ → List ℤ
insert_price p [] = p ∷ []
insert_price p (q ∷ qs) = if ltb_ℤ q p then q ∷ insert_price p qs else p ∷ q ∷ qs

abbrev pub sort_prices : List ℤ → List ℤ
sort_prices [] = []
sort_prices (p ∷ ps) = insert_price p (sort_prices ps)

abbrev price_or_error : Option ℤ → Result ℤ
price_or_error none = err value_error
price_or_error (some p) = ok p

-- `statistics.median_low`
unfoldable pub median_low : List ℤ → Result ℤ
median_low prices = price_or_error (head? (drop ((length prices - 1) / 2) (sort_prices prices)))

-- A row of `listing_outcomes`.
pub record ListingOutcome : Type 0 where
  pub venue : String
  pub listing_id : String
  pub label_version : String
  pub market_hash_name : String
  pub listed_at : ℤ
  pub listed_price_cents : ℤ
  pub comparable_sales : ℕ
  pub resale_price_cents : Option ℤ
  pub resale_net_margin_cents : Option ℤ
  pub is_profitable : Option Bool
  pub listing_sold_within_s : Option ℤ
  pub sale_censored : Bool
  pub label_available_at : ℤ

abbrev pub own_sale_clock_skew_seconds : ℤ
own_sale_clock_skew_seconds = pos 60

abbrev pub label_available_at_of : LabelConfig → FeedSale → ℤ
label_available_at_of c listing = listing.seen_at +ℤ microseconds c.horizon_seconds

abbrev pub own_sale_of : LabelConfig → SoldIndex → FeedSale → Option FeedSale
own_sale_of c sold listing =
    if c.own_sale_by_item
    then item_sale sold listing (listing.seen_at -ℤ microseconds own_sale_clock_skew_seconds)
        (label_available_at_of c listing)
    else lookup listing.listing_id sold.first_sold_by_listing

abbrev pub own_sale_id_of : FeedSale → Option FeedSale → String
own_sale_id_of listing none = listing.listing_id
own_sale_id_of listing (some own_sale) = own_sale.listing_id

abbrev item_fee_of : LabelConfig → Option (List FeeBuild) → FeedSale → Option ℤ
item_fee_of c none listing = none
item_fee_of c (some builds) listing =
    if c.item_seller_fees then fee_bps_at builds listing.market_hash_name listing.seen_at else none

abbrev pub Resale : Type 0
Resale = Option ℤ × Option ℤ × Option Bool

abbrev pub priced_resale : LabelConfig → Option (List FeeBuild) → FeedSale → List ℤ → Result Resale
priced_resale c item_fees listing comparable = do
  resale_price_cents ← median_low comparable
  net_margin_cents ←
      net_resale_margin_cents listing.price_cents resale_price_cents c.fees (some c.fees)
        (item_fee_of c item_fees listing)
  ok (
    some resale_price_cents,
    some net_margin_cents,
    some (is_profitable_margin net_margin_cents c.fees),
  )

unfoldable pub resale_of : LabelConfig → Option (List FeeBuild) → FeedSale → List ℤ → Result Resale
resale_of c item_fees listing comparable =
    if leb_ℤ c.min_comparable_sales (pos (length comparable))
    then priced_resale c item_fees listing comparable
    else ok (none, none, none)

-- `int(delta.total_seconds())` of a delta that is not negative, and `max(0, ...)` of one that is.
abbrev whole_seconds : ℤ → ℤ
whole_seconds delta = pos (pos_part delta) /ℤ 1000000

abbrev pub sold_within : LabelConfig → FeedSale → Option FeedSale → Option ℤ
sold_within c listing none = none
sold_within c listing (some own_sale) =
    if c.own_sale_by_item
      || (leb_ℤ listing.seen_at own_sale.seen_at
          && leb_ℤ own_sale.seen_at (label_available_at_of c listing))
    then some (whole_seconds (own_sale.seen_at -ℤ listing.seen_at))
    else none

abbrev is_none : Option ℤ → Bool
is_none none = true
is_none (some _) = false

abbrev pub outcome_of : LabelConfig → FeedSale → ℕ → Option ℤ → Resale → ListingOutcome
outcome_of c listing comparable_sales within (resale_price, net_margin, profitable) = record {
  venue = c.venue;
  listing_id = listing.listing_id;
  label_version = c.version;
  market_hash_name = listing.market_hash_name;
  listed_at = listing.seen_at;
  listed_price_cents = listing.price_cents;
  comparable_sales = comparable_sales;
  resale_price_cents = resale_price;
  resale_net_margin_cents = net_margin;
  is_profitable = profitable;
  listing_sold_within_s = within;
  sale_censored = is_none within;
  label_available_at = label_available_at_of c listing;
}

abbrev has_no_fees : Option (List FeeBuild) → Bool
has_no_fees none = true
has_no_fees (some _) = false

abbrev pub comparable_of : LabelConfig → SoldIndex → FeedSale → List ℤ
comparable_of c sold listing =
    comparable_prices sold listing.market_hash_name
      (listing.seen_at +ℤ microseconds c.fees.hold_seconds) (label_available_at_of c listing)
      (own_sale_id_of listing (own_sale_of c sold listing))

unfoldable pub label_listing :
    FeedSale → SoldIndex → LabelConfig → Option (List FeeBuild) → Result ListingOutcome
label_listing listing sold c item_fees = do
  raise_if (c.item_seller_fees && has_no_fees item_fees) value_error
  resale ← resale_of c item_fees listing (comparable_of c sold listing)
  ok (
      outcome_of c listing (length (comparable_of c sold listing))
        (sold_within c listing (own_sale_of c sold listing)) resale)

-- The rows of the listings, in their order; an exception ends the run.
unfoldable pub label_each :
    List FeedSale → SoldIndex → LabelConfig → Option (List FeeBuild) → Result (List ListingOutcome)
label_each [] sold c item_fees = ok []
label_each (listing ∷ listings) sold c item_fees = do
  row ← label_listing listing sold c item_fees
  rows ← label_each listings sold c item_fees
  ok (row ∷ rows)

-- `label_listings`, with the sold index built. The rows are sorted by the time and the listing ID,
-- which each row has from its listing, so the listings are sorted.
unfoldable pub label_listings :
    List FeedSale
    → SoldIndex
    → LabelConfig
    → ℤ
    → Option (List FeeBuild)
    → Option ℤ
    → Result (List ListingOutcome)
label_listings listed_sales sold c as_of item_fees sales_synced_at =
    let cutoff = latest_labelable as_of c sales_synced_at in
    label_each
      (keep (λ s. leb_ℤ s.seen_at cutoff)
        (sort_sales (values (first_sighting_per_listing listed_sales))))
      sold c item_fees
