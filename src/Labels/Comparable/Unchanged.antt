-- ===== src/Labels/Comparable/Unchanged.antt =====
-- label_listing (apps/analytics/outcome_labels.py) on an index that has later sales too.
use brand_sniper_monorepo.Prelude.{
  String, Bool, true, false, not, ◌&&◌, ◌≡◌, refl, sym, ap, subst, ◌∙◌, List, [], ◌∷◌, ◌++◌, Option,
  none, some, arith, if◌then◌else◌, map, keep, All, string_eq, ◌==◌, Bool-cases, inl, inr, ℕ,
}
use brand_sniper_monorepo.Prelude.Int.{ℤ, leb_ℤ, ◌+ℤ◌, ◌-ℤ◌}
use brand_sniper_monorepo.Prelude.Dict.{Dict, lookup}
use brand_sniper_monorepo.Labels.{FeedSale, LabelConfig, microseconds}
use brand_sniper_monorepo.Labels.Sold.{
  SoldIndex, build, first_sightings, first_sighting_per_listing, sort_sales, values,
  first_item_sale, same_item, item_sale, comparable_prices, price_of,
}
use brand_sniper_monorepo.Labels.Outcome.{
  FeeBuild, label_available_at_of, own_sale_of, own_sale_id_of, own_sale_clock_skew_seconds,
  sold_within, comparable_of, label_listing,
}
use brand_sniper_monorepo.Labels.Comparable.{in_window, comparable_prices_lem}
use brand_sniper_monorepo.Labels.Comparable.Horizon.{
  early, Late, first_sightings-early, keep-sort_sales,
}
use brand_sniper_monorepo.Labels.Comparable.OwnSales.{
  first_sightings-append, IsKeyed, first_sightings-IsKeyed, SameEarly, NoneEarly,
  lookup-first_sightings,
}

-- A window that ends there sees only early sales, and so does the search for the item's sale.
window-early :
    (start end : ℤ) (p : FeedSale → Bool) (ss : List FeedSale)
    → keep (in_window start end) (keep p ss)
      ≡ keep (in_window start end) (keep p (keep (early end) ss))
window-early start end p [] = refl
window-early start end p (s ∷ ss) = elim (Bool-cases (early end s)) [
  | inl e ↦ elim (Bool-cases (p s)) [
    | inl f ↦ rw (e, f, e, window-early start end p ss) refl
    | inr f ↦ rw (e, f, window-early start end p ss) refl
  ]
  | inr e ↦ elim (Bool-cases (p s)) [
    | inl f ↦
        let out : in_window start end s ≡ false = ground arith in
        rw (e, f, out, window-early start end p ss) refl
    | inr f ↦ rw (e, f, window-early start end p ss) refl
  ]
]

item_sale-early :
    (listing : FeedSale) (start end : ℤ) (p : FeedSale → Bool) (ss : List FeedSale)
    → first_item_sale listing start end (keep p ss)
      ≡ first_item_sale listing start end (keep p (keep (early end) ss))
item_sale-early listing start end p [] = refl
item_sale-early listing start end p (s ∷ ss) = elim (Bool-cases (early end s)) [
  | inl e ↦ elim (Bool-cases (p s)) [
    | inl f ↦ rw (e, f, item_sale-early listing start end p ss) refl
    | inr f ↦ rw (e, f, item_sale-early listing start end p ss) refl
  ]
  | inr e ↦ elim (Bool-cases (p s)) [
    | inl f ↦
        let out : leb_ℤ start s.seen_at && leb_ℤ s.seen_at end ≡ false = ground arith in
        rw (e, f, out, item_sale-early listing start end p ss) refl
    | inr f ↦ rw (e, f, item_sale-early listing start end p ss) refl
  ]
]

module _ (sold later : List FeedSale) (end : ℤ) (late : All (Late end) later) where
  -- The early sales of the two indexes are the same.
  sorted-early :
      keep (early end) (build (sold ++ later)).sorted_sales
      ≡ keep (early end) (build sold).sorted_sales
  unfolding build first_sighting_per_listing
  sorted-early =
      let first = first_sightings sold [] in
      keep-sort_sales end (values (first_sightings (sold ++ later) []))
      ∙ (ap sort_sales (
            ap (λ d. keep (early end) (values d)) (first_sightings-append sold later [])
            ∙ first_sightings-early end later first late)
          ∙ sym (keep-sort_sales end (values first)))

  prices_unchanged :
      (name exclude : String) (start : ℤ)
      → comparable_prices (build (sold ++ later)) name start end exclude
        ≡ comparable_prices (build sold) name start end exclude
  unfolding build
  prices_unchanged name exclude start =
      let named : FeedSale → Bool = λ s. s.market_hash_name == name in
      let all_sales = (build (sold ++ later)).sorted_sales in
      let sold_sales = (build sold).sorted_sales in
      comparable_prices_lem (sold ++ later) name start end exclude
      ∙ (ap (λ xs. map price_of (keep (λ s. not (s.listing_id == exclude)) xs))
            (window-early start end named all_sales
              ∙ (ap (λ xs. keep (in_window start end) (keep named xs)) sorted-early
                  ∙ sym (window-early start end named sold_sales)))
          ∙ sym (comparable_prices_lem sold name start end exclude))

  item_sale_unchanged :
      (listing : FeedSale) (start : ℤ)
      → item_sale (build (sold ++ later)) listing start end
        ≡ item_sale (build sold) listing start end
  unfolding item_sale
  item_sale_unchanged listing start = of_float listing.float_value
    where
      of_float :
          (float : Option ℕ)
          → elim float as (λ _. Option FeedSale) [
            | none ↦ none
            | some f ↦
                first_item_sale listing start end
                  (keep (same_item listing f) (build (sold ++ later)).sorted_sales)
          ]
            ≡ elim float as (λ _. Option FeedSale) [
              | none ↦ none
              | some f ↦
                  first_item_sale listing start end
                    (keep (same_item listing f) (build sold).sorted_sales)
            ]
      of_float none = refl
      of_float (some f) =
          item_sale-early listing start end (same_item listing f)
            (build (sold ++ later)).sorted_sales
          ∙ (ap (λ xs. first_item_sale listing start end (keep (same_item listing f) xs))
                sorted-early
              ∙ sym (
                  item_sale-early listing start end (same_item listing f)
                    (build sold).sorted_sales))

  -- The listing's own sold event: the same, or none before the horizon with either index.
  own_event :
      (id : String)
      → SameEarly end
          (lookup id (build (sold ++ later)).first_sold_by_listing)
          (lookup id (build sold).first_sold_by_listing)
  unfolding build first_sighting_per_listing
  own_event id =
      rw (first_sightings-append sold later [])
        (lookup-first_sightings end id later (first_sightings sold []) late)

  keyed : (sales : List FeedSale) → IsKeyed (build sales).first_sold_by_listing
  unfolding build first_sighting_per_listing
  keyed sales = first_sightings-IsKeyed sales [] (λ k s h. absurd (ground arith))

-- Without a sale before the horizon the listing counts as not sold, and excludes its own ID.
own_id_of_late :
    (listing : FeedSale) (d : Dict String FeedSale)
    → IsKeyed d
    → own_sale_id_of listing (lookup listing.listing_id d) ≡ listing.listing_id
own_id_of_late listing d keyed = go (lookup listing.listing_id d) refl
  where
    go :
        (o : Option FeedSale)
        → lookup listing.listing_id d ≡ o
        → own_sale_id_of listing o ≡ listing.listing_id
    go none h = refl
    go (some s) h = keyed listing.listing_id s h

sold_within_late :
    (c : LabelConfig) (listing : FeedSale) (o : Option FeedSale)
    → c.own_sale_by_item ≡ false
    → NoneEarly (label_available_at_of c listing) o
    → sold_within c listing o ≡ none
sold_within_late c listing none by h = refl
sold_within_late c listing (some s) by h = rw (by, h) (ground arith)

module _ (c : LabelConfig) (listing : FeedSale) (sold later : List FeedSale)
    (late : All (Late (label_available_at_of c listing)) later) where
  abbrev SameOwn : Option FeedSale → Option FeedSale → Type 0
  SameOwn a b =
      (own_sale_id_of listing a ≡ own_sale_id_of listing b)
      × (sold_within c listing a ≡ sold_within c listing b)

  event_unchanged :
      c.own_sale_by_item ≡ false
      → SameEarly
          (label_available_at_of c listing)
          (lookup listing.listing_id (build (sold ++ later)).first_sold_by_listing)
          (lookup listing.listing_id (build sold).first_sold_by_listing)
      → SameOwn
          (lookup listing.listing_id (build (sold ++ later)).first_sold_by_listing)
          (lookup listing.listing_id (build sold).first_sold_by_listing)
  event_unchanged by (inl e) = rw e (refl, refl)
  event_unchanged by (inr (p, q)) =
      let after = (build (sold ++ later)).first_sold_by_listing in
      let before = (build sold).first_sold_by_listing in
      let end = label_available_at_of c listing in
      (
        own_id_of_late listing after (keyed sold later end late (sold ++ later))
            ∙ sym (own_id_of_late listing before (keyed sold later end late sold)),
        sold_within_late c listing (lookup listing.listing_id after) by p
            ∙ sym (sold_within_late c listing (lookup listing.listing_id before) by q),
      )

  abbrev by_item : SoldIndex → Option FeedSale
  by_item index =
      item_sale index listing (listing.seen_at -ℤ microseconds own_sale_clock_skew_seconds)
        (label_available_at_of c listing)

  abbrev by_event : SoldIndex → Option FeedSale
  by_event index = lookup listing.listing_id index.first_sold_by_listing

  same_item_sale : SameOwn (by_item (build (sold ++ later))) (by_item (build sold))
  same_item_sale =
      rw
        (item_sale_unchanged sold later (label_available_at_of c listing) late listing
          (listing.seen_at -ℤ microseconds own_sale_clock_skew_seconds))
        (refl, refl)

  either_own :
      (by : Bool)
      → SameOwn (by_event (build (sold ++ later))) (by_event (build sold))
      → SameOwn
          (if by then by_item (build (sold ++ later)) else by_event (build (sold ++ later)))
          (if by then by_item (build sold) else by_event (build sold))
  either_own true h = same_item_sale
  either_own false h = h

  own_unchanged :
      SameOwn (own_sale_of c (build (sold ++ later)) listing) (own_sale_of c (build sold) listing)
  own_unchanged = elim (Bool-cases c.own_sale_by_item) [
    | inl e ↦
        subst
          (λ b.
            SameOwn
              (if b then by_item (build (sold ++ later)) else by_event (build (sold ++ later)))
              (if b then by_item (build sold) else by_event (build sold)))
          (sym e) same_item_sale
    | inr e ↦ either_own c.own_sale_by_item (
        event_unchanged e
          (own_event sold later (label_available_at_of c listing) late listing.listing_id))
  ]

  comparable_unchanged :
      comparable_of c (build (sold ++ later)) listing ≡ comparable_of c (build sold) listing
  comparable_unchanged = rw own_unchanged.0 (
      prices_unchanged sold later (label_available_at_of c listing) late listing.market_hash_name
        (own_sale_id_of listing (own_sale_of c (build sold) listing))
        (listing.seen_at +ℤ microseconds c.fees.hold_seconds))

  -- A label uses no sale after its horizon: with the sales of an index and any number of sales seen
  -- later than the listing's time and the horizon, also of the same listing, the listing is labelled as
  -- with the index alone, or the same exception is raised.
  pub label_listing_unchanged :
      (item_fees : Option (List FeeBuild))
      → label_listing listing (build (sold ++ later)) c item_fees
        ≡ label_listing listing (build sold) c item_fees
  unfolding label_listing
  label_listing_unchanged item_fees = rw (comparable_unchanged, own_unchanged.1) refl
