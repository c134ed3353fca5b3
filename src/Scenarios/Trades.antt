-- ===== src/Scenarios/Trades.antt =====
-- Two purchases of one listing, and the sales that label a listing.
use brand_sniper_monorepo.Prelude.{
  ℕ, ◌≡◌, ◌⊎◌, inr, refl, String, Bool, true, false, not, List, [], ◌∷◌, ◌++◌, All, none, some,
  arith, map, keep, string_eq, ◌==◌,
}
use brand_sniper_monorepo.Prelude.Dict.{contains}
use brand_sniper_monorepo.Prelude.Int.{pos, ◌+ℤ◌, ◌*ℤ◌}
use brand_sniper_monorepo.Purchases.{
  Purchase, key_eq, purchase_keys, skipped, placed, failed, execute, Bought,
}
use brand_sniper_monorepo.Purchases.Once.{execute_lem, execute_again}
use brand_sniper_monorepo.Labels.{FeedSale, LabelConfig}
use brand_sniper_monorepo.Labels.Contract.{default_config}
use brand_sniper_monorepo.Pnl.{skinport_fees}
use brand_sniper_monorepo.Labels.Sold.{
  build, comparable_prices, sort_sales, values, first_sighting_per_listing, price_of,
}
use brand_sniper_monorepo.Labels.Comparable.{in_window, comparable_prices_lem}
use brand_sniper_monorepo.Labels.Comparable.Horizon.{Late}
use brand_sniper_monorepo.Labels.Comparable.Unchanged.{label_listing_unchanged}
use brand_sniper_monorepo.Labels.Outcome.{label_listing, label_available_at_of}
use brand_sniper_monorepo.Labels.Windows.{iter_windows, Tile, iter_windows_lem}

abbrev purchase : Purchase
purchase = record {
  venue = "skinport";
  market_hash_name = "AK-47 | Redline";
  purchase_price_cents = 1500;
  estimated_profit_cents = some (pos 64);
  listing_id = some "17";
}

abbrev always : Purchase → Bool
always p = true

abbrev no_purchase : Bought
no_purchase = []

execute_example :
    (((execute 10 always 20000 purchase no_purchase).1 ≡ placed)
      × (contains (purchase_keys purchase 20000).0 no_purchase ≡ false)
      × (always purchase ≡ true)
      × (contains (purchase_keys purchase 20000).0 (execute 10 always 20000 purchase no_purchase).0
          ≡ true)
      × (contains (purchase_keys purchase 20000).1 (execute 10 always 20000 purchase no_purchase).0
          ≡ true))
    ⊎ (((execute 10 always 20000 purchase no_purchase).0 ≡ no_purchase)
        × (((execute 10 always 20000 purchase no_purchase).1 ≡ skipped)
              × (contains (purchase_keys purchase 20000).0 no_purchase ≡ true)
            ⊎ ((execute 10 always 20000 purchase no_purchase).1 ≡ failed)
              × (contains (purchase_keys purchase 20000).0 no_purchase ≡ false)
              × (always purchase ≡ false)))
execute_example = execute_lem 10 always 20000 purchase no_purchase (omega arith)

taken : (execute 10 always 20000 purchase no_purchase).1 ≡ placed
unfolding execute purchase_keys
taken = refl

-- The snapshot of the same item at that price, on the same day.
abbrev next_poll : Purchase
next_poll = record purchase { listing_id = none }

execute_again_example :
    execute 10 always 20000 next_poll (execute 10 always 20000 purchase no_purchase).0
    ≡ ((execute 10 always 20000 purchase no_purchase).0, skipped)
execute_again_example =
    execute_again 10 always always 20000 20000 purchase next_poll no_purchase (omega arith) taken
      (inr (refl, refl, refl, refl, refl))

abbrev sale : ℕ → ℕ → String → FeedSale
sale seen price id = record {
  listing_id = id;
  market_hash_name = "AK-47 | Redline";
  price_cents = pos price;
  seen_at = pos seen;
  float_value = none;
  pattern = none;
  next_listed_at = none;
}

abbrev sales : List FeedSale
sales = sale 300 1600 "3" ∷ sale 100 1500 "1" ∷ sale 200 1700 "2" ∷ sale 900 1400 "4" ∷ []

comparable_prices_example :
    comparable_prices (build sales) "AK-47 | Redline" (pos 100) (pos 300) "2"
    ≡ map price_of (
        keep
          (λ s. not (s.listing_id == "2"))
          (keep (in_window (pos 100) (pos 300)) (
            keep
              (λ s. s.market_hash_name == "AK-47 | Redline")
              (sort_sales (values (first_sighting_per_listing sales))))))
comparable_prices_example = comparable_prices_lem sales "AK-47 | Redline" (pos 100) (pos 300) "2"

comparable_found :
    comparable_prices (build sales) "AK-47 | Redline" (pos 100) (pos 300) "2"
    ≡ pos 1500 ∷ pos 1600 ∷ []
unfolding comparable_prices build first_sighting_per_listing
comparable_found = refl

iter_windows_example :
    (windows : List (ℕ × ℕ)) × (iter_windows 10 0 10 4 ≡ some windows) × Tile 0 10 4 windows
iter_windows_example = iter_windows_lem 10 0 10 4 (omega arith) (omega arith)

abbrev two_weeks : LabelConfig
two_weeks = default_config "1" "skinport" skinport_fees

-- The same listing's sale, seen long after the horizon.
abbrev late_sales : List FeedSale
late_sales = sale 2000000000000 900 "1" ∷ []

late_sales-Late : All (Late (label_available_at_of two_weeks (sale 100 1500 "1"))) late_sales
unfolding ◌+ℤ◌ ◌*ℤ◌
late_sales-Late = (refl, tt)

label_listing_unchanged_example :
    label_listing (sale 100 1500 "1") (build (sales ++ late_sales)) two_weeks none
    ≡ label_listing (sale 100 1500 "1") (build sales) two_weeks none
label_listing_unchanged_example =
    label_listing_unchanged two_weeks (sale 100 1500 "1") sales late_sales late_sales-Late none
