-- ===== src/Labels/Sold.antt =====
-- The sales that listings are compared with: first_sighting_per_listing and SoldIndex
-- (apps/analytics/outcome_labels.py).
use brand_sniper_monorepo.Prelude.{
  ℕ, suc, String, Bool, true, false, not, ◌&&◌, ◌||◌, List, [], ◌∷◌, Option, none, some,
  if◌then◌else◌, nat_beq, take, drop, map, keep, string_eq, ◌==◌,
}
use brand_sniper_monorepo.Prelude.Int.{ℤ, ltb_ℤ, leb_ℤ}
use brand_sniper_monorepo.Prelude.Dict.{Dict, lookup, insert}
use brand_sniper_monorepo.Prelude.Texts.{string_ltb}
use brand_sniper_monorepo.Labels.{FeedSale}

abbrev pub eq_ℤ : ℤ → ℤ → Bool
eq_ℤ a b = leb_ℤ a b && leb_ℤ b a

abbrev same_pattern : Option ℤ → Option ℤ → Bool
same_pattern none none = true
same_pattern (some a) (some b) = eq_ℤ a b
same_pattern _ _ = false

-- `(sale.seen_at, sale.price_cents) < (current.seen_at, current.price_cents)`
abbrev pub seen_before : FeedSale → FeedSale → Bool
seen_before sale current =
    ltb_ℤ sale.seen_at current.seen_at
    || (eq_ℤ sale.seen_at current.seen_at && ltb_ℤ sale.price_cents current.price_cents)

abbrev pub is_first : FeedSale → Option FeedSale → Bool
is_first sale none = true
is_first sale (some current) = seen_before sale current

-- `first_sighting_per_listing`, from the sightings kept so far.
abbrev pub first_sightings : List FeedSale → Dict String FeedSale → Dict String FeedSale
first_sightings [] first = first
first_sightings (sale ∷ sales) first = first_sightings sales (
    if is_first sale (lookup sale.listing_id first)
    then insert sale.listing_id sale first
    else first)

unfoldable pub first_sighting_per_listing : List FeedSale → Dict String FeedSale
first_sighting_per_listing sales = first_sightings sales []

-- `sorted(..., key=lambda s: (s.seen_at, s.listing_id))`, a stable sort.
abbrev pub comes_before : FeedSale → FeedSale → Bool
comes_before a b =
    ltb_ℤ a.seen_at b.seen_at || (eq_ℤ a.seen_at b.seen_at && string_ltb a.listing_id b.listing_id)

abbrev pub insert_sale : FeedSale → List FeedSale → List FeedSale
insert_sale s [] = s ∷ []
insert_sale s (t ∷ ts) = if comes_before t s then t ∷ insert_sale s ts else s ∷ t ∷ ts

abbrev pub sort_sales : List FeedSale → List FeedSale
sort_sales [] = []
sort_sales (s ∷ ss) = insert_sale s (sort_sales ss)

abbrev pub values : Dict String FeedSale → List FeedSale
values [] = []
values ((k, v) ∷ d) = v ∷ values d

-- The items are the sorted sales; the source's per-name and per-item lists are its sublists, as
-- `sales_by_name` and `sales_by_item` below.
pub record SoldIndex : Type 0 where
  pub sorted_sales : List FeedSale
  pub first_sold_by_listing : Dict String FeedSale

unfoldable pub build : List FeedSale → SoldIndex
unfolding first_sighting_per_listing
build sold_sales =
    let unique_sales = first_sighting_per_listing sold_sales in
    record { sorted_sales = sort_sales (values unique_sales); first_sold_by_listing = unique_sales }

unfoldable pub sales_by_name : SoldIndex → String → List FeedSale
sales_by_name index name = keep (λ s. s.market_hash_name == name) index.sorted_sales

-- `item_key(sale) == item_key(listing)`, for a listing with a float.
abbrev pub same_item : FeedSale → ℕ → FeedSale → Bool
same_item listing float sale = elim sale.float_value [
  | none ↦ false
  | some f ↦
      (sale.market_hash_name == listing.market_hash_name && nat_beq f float)
      && same_pattern sale.pattern listing.pattern
]

-- bisect on a sorted list: how many times are before, and how many not after.
abbrev pub bisect_left : List ℤ → ℤ → ℕ
bisect_left [] x = 0
bisect_left (t ∷ ts) x = if ltb_ℤ t x then suc (bisect_left ts x) else 0

abbrev pub bisect_right : List ℤ → ℤ → ℕ
bisect_right [] x = 0
bisect_right (t ∷ ts) x = if leb_ℤ t x then suc (bisect_right ts x) else 0

-- `xs[first:last]`
abbrev pub slice {ℓ} : {A : Type ℓ} → ℕ → ℕ → List A → List A
slice first last xs = drop first (take last xs)

abbrev pub seen_at_of : FeedSale → ℤ
seen_at_of s = s.seen_at

abbrev pub price_of : FeedSale → ℤ
price_of s = s.price_cents

-- `SoldIndex.comparable_prices`, on the sales of the name.
unfoldable pub prices_in_window : List FeedSale → ℤ → ℤ → String → List ℤ
prices_in_window sales window_start window_end exclude_listing =
    let times = map seen_at_of sales in
    map price_of (
      keep (λ s. not (s.listing_id == exclude_listing))
        (slice (bisect_left times window_start) (bisect_right times window_end) sales))

unfoldable pub comparable_prices : SoldIndex → String → ℤ → ℤ → String → List ℤ
unfolding sales_by_name prices_in_window
comparable_prices index name window_start window_end exclude_listing =
    prices_in_window (sales_by_name index name) window_start window_end exclude_listing

-- `SoldIndex.item_sale`
abbrev pub relisted_before : Option ℤ → ℤ → Bool
relisted_before none seen = false
relisted_before (some next_listed_at) seen = leb_ℤ next_listed_at seen

abbrev pub first_item_sale : FeedSale → ℤ → ℤ → List FeedSale → Option FeedSale
first_item_sale listing window_start window_end [] = none
first_item_sale listing window_start window_end (sale ∷ sales) =
    let rest = first_item_sale listing window_start window_end sales in
    if leb_ℤ window_start sale.seen_at && leb_ℤ sale.seen_at window_end
    then if relisted_before listing.next_listed_at sale.seen_at
      then none
      else if eq_ℤ sale.price_cents listing.price_cents
      then some sale
      else none
    else rest

unfoldable pub item_sale : SoldIndex → FeedSale → ℤ → ℤ → Option FeedSale
item_sale index listing window_start window_end = elim listing.float_value [
  | none ↦ none
  | some float ↦
      first_item_sale listing window_start window_end
        (keep (same_item listing float) index.sorted_sales)
]
