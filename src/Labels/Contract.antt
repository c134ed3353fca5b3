-- ===== src/Labels/Contract.antt =====
-- The contract of a label version (label_contract and LabelConfig.contract of
-- apps/analytics/outcome_labels.py). A key that is left out is none.
use brand_sniper_monorepo.Prelude.{
  ◌*◌, ◌≡◌, refl, String, Bool, true, false, Option, none, some, if◌then◌else◌, string_eq, ◌==◌,
}
use brand_sniper_monorepo.Prelude.Result.{Result, ok, ◌>>=◌}
use brand_sniper_monorepo.Pnl.{fees_for, dmarket_fees}
use brand_sniper_monorepo.Prelude.Int.{ℤ, pos}
use brand_sniper_monorepo.Fees.{VenueFees}
use brand_sniper_monorepo.Labels.{
  LabelConfig, new_label_config, sales_from_ticks, sales_from_venue_sales,
}

pub record SalesContract : Type 0 where
  pub source : String
  pub sale_type : String
  pub settle_seconds : ℤ
  pub own_sale : String

pub record LabelContract : Type 0 where
  pub venue : String
  pub fees : VenueFees
  pub horizon_seconds : ℤ
  pub min_comparable_sales : ℤ
  pub settle_seconds : ℤ
  pub revise_seconds : ℤ
  pub sales : Option SalesContract
  pub item_seller_fees : Option String

abbrev own_sale_text : Bool → String
own_sale_text true =
    "first sale of the same name, float and paint seed before the item's next listing, at the listing price"
own_sale_text false = "none (censored)"

unfoldable pub label_contract : LabelConfig → LabelContract
label_contract c = record {
  venue = c.venue;
  fees = c.fees;
  horizon_seconds = c.horizon_seconds;
  min_comparable_sales = c.min_comparable_sales;
  settle_seconds = c.settle_seconds;
  revise_seconds = c.revise_seconds;
  sales =
      if c.sales_source == sales_from_ticks
      then none
      else some (record {
        source = c.sales_source;
        sale_type = "offer";
        settle_seconds = c.sales_settle_seconds;
        own_sale = own_sale_text c.own_sale_by_item;
      });
  item_seller_fees =
      if c.item_seller_fees
      then some "venue_baselines.seller_fee_bps of the build in force at listed_at"
      else none;
}

-- `LabelConfig.contract`
unfoldable pub contract : LabelConfig → LabelContract
unfolding label_contract
contract c = label_contract c

-- The defaults of `LabelConfig`, for a venue and its fees.
abbrev pub default_config : String → String → VenueFees → LabelConfig
default_config version venue fees = record {
  version = version;
  venue = venue;
  fees = fees;
  sales_source = sales_from_ticks;
  item_seller_fees = false;
  sales_settle_seconds = pos 0;
  own_sale_by_item = false;
  horizon_seconds = pos (14 * 86400);
  min_comparable_sales = pos 3;
  settle_seconds = pos 3600;
  revise_seconds = pos (3 * 86400);
}

-- `VENUE_LABEL_PARAMETERS`, applied to a config.
abbrev pub venue_label_parameters : String → LabelConfig → LabelConfig
venue_label_parameters venue c =
    if venue == "dmarket"
    then record c {
      sales_source = sales_from_venue_sales;
      item_seller_fees = true;
      sales_settle_seconds = pos 86400;
      own_sale_by_item = true;
    }
    else c

-- `LabelConfig.for_venue`, without further parameters.
unfoldable pub for_venue : String → String → Result LabelConfig
for_venue venue version = do
  fees ← fees_for venue
  new_label_config (venue_label_parameters venue (default_config version venue fees))

dmarket_label_config : String → LabelConfig
dmarket_label_config version =
    venue_label_parameters "dmarket" (default_config version "dmarket" dmarket_fees)

-- DMarket's label version is valid.
for_venue_dmarket : for_venue "dmarket" "v2" ≡ ok (dmarket_label_config "v2")
unfolding for_venue fees_for new_label_config dmarket_label_config
for_venue_dmarket = refl
