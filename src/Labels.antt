-- ===== src/Labels.antt =====
-- Market-outcome labels of recorded listings (apps/analytics/outcome_labels.py): the parameters of a
-- label version and the events that labeling reads. Times are microseconds since the epoch.
pub mod Sold
pub mod Contract
pub mod Outcome
pub mod Comparable
pub mod Windows
use brand_sniper_monorepo.Prelude.{
  ℕ, ◌+◌, ◌*◌, String, Bool, true, false, not, ◌&&◌, ◌||◌, List, [], ◌∷◌, Option, none, some,
  if◌then◌else◌, string_eq, str_eq, ◌==◌,
}
use brand_sniper_monorepo.Prelude.Int.{ℤ, pos, ◌+ℤ◌, ◌-ℤ◌, ◌*ℤ◌, ltb_ℤ, leb_ℤ}
use brand_sniper_monorepo.Prelude.Result.{Result, ok, err, value_error, ◌>>=◌, ◌>>◌, raise_if}
use brand_sniper_monorepo.Fees.{VenueFees, is_nonzero}

abbrev pub sales_from_ticks : String
sales_from_ticks = "ticks"

abbrev pub sales_from_venue_sales : String
sales_from_venue_sales = "venue_sales"

pub record LabelConfig : Type 0 where
  pub version : String
  pub venue : String
  pub fees : VenueFees
  pub sales_source : String
  pub item_seller_fees : Bool
  pub sales_settle_seconds : ℤ
  pub own_sale_by_item : Bool
  pub horizon_seconds : ℤ
  pub min_comparable_sales : ℤ
  pub settle_seconds : ℤ
  pub revise_seconds : ℤ

-- `LabelConfig.__post_init__`: the config, or ValueError.
unfoldable pub new_label_config : LabelConfig → Result LabelConfig
new_label_config c = do
  raise_if (not (c.fees.venue == c.venue)) value_error
  raise_if (not (c.sales_source == sales_from_ticks || c.sales_source == sales_from_venue_sales))
      value_error
  raise_if (ltb_ℤ c.sales_settle_seconds (pos 0)) value_error
  raise_if
      ((is_nonzero c.sales_settle_seconds || c.own_sale_by_item)
        && not (c.sales_source == sales_from_venue_sales))
      value_error
  raise_if (leb_ℤ c.horizon_seconds c.fees.hold_seconds) value_error
  raise_if (ltb_ℤ c.min_comparable_sales (pos 1)) value_error
  raise_if (ltb_ℤ c.settle_seconds (pos 0)) value_error
  raise_if (ltb_ℤ c.revise_seconds (pos 0)) value_error
  ok c

abbrev pub microseconds : ℤ → ℤ
microseconds seconds = seconds *ℤ pos 1000000

-- `final_before`
unfoldable pub final_before : LabelConfig → ℤ → ℤ
final_before c as_of = as_of -ℤ microseconds (c.settle_seconds +ℤ c.revise_seconds)

-- A listed or sold event. The float is kept as `item_key` rounds it, in units of the last of its
-- ITEM_FLOAT_DECIMALS decimals; nothing else reads it.
pub record FeedSale : Type 0 where
  pub listing_id : String
  pub market_hash_name : String
  pub price_cents : ℤ
  pub seen_at : ℤ
  pub float_value : Option ℕ
  pub pattern : Option ℤ
  pub next_listed_at : Option ℤ

-- `datetime.min`
abbrev pub datetime_min : ℤ
datetime_min = pos 0 -ℤ pos 62135596800000000

-- `latest_labelable`
abbrev pub earlier : ℤ → ℤ → ℤ
earlier a b = if ltb_ℤ b a then b else a

abbrev pub synced_cutoff : ℤ → LabelConfig → Option ℤ → ℤ
synced_cutoff cutoff c none = datetime_min
synced_cutoff cutoff c (some sales_synced_at) =
    earlier cutoff (sales_synced_at -ℤ microseconds (c.horizon_seconds +ℤ c.sales_settle_seconds))

unfoldable pub latest_labelable : ℤ → LabelConfig → Option ℤ → ℤ
latest_labelable as_of c sales_synced_at =
    let cutoff = as_of -ℤ microseconds (c.horizon_seconds +ℤ c.settle_seconds) in
    if c.sales_source == sales_from_venue_sales
    then synced_cutoff cutoff c sales_synced_at
    else cutoff

-- `default_start`
unfoldable pub default_start : ℤ → ℤ → LabelConfig → Option ℤ → Result ℤ
default_start as_of days_back c none =
    if c.sales_source == sales_from_venue_sales
    then err value_error
    else ok (latest_labelable as_of c none -ℤ microseconds (days_back *ℤ pos 86400))
default_start as_of days_back c (some synced) =
    ok (latest_labelable as_of c (some synced) -ℤ microseconds (days_back *ℤ pos 86400))
