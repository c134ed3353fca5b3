-- ===== src/Scenarios.antt =====
-- A listener's day in small: concrete ticks, baselines, batches and sales, and what the theorems of
-- the other modules say of them.
mod Trades
mod Posts
mod Listings
mod Entries
mod Jobs
mod Rates
mod Windows
mod Decisions
mod Flushes
mod Stored
mod Loading
use brand_sniper_monorepo.Prelude.{
  ℕ, ◌+◌, ◌*◌, ◌≤◌, ◌<◌, ◌≡◌, ◌≢◌, ◌↔◌, ◌⊎◌, inl, inr, refl, String, Bool, true, false, not, ◌&&◌,
  List, [], ◌∷◌, ◌++◌, All, Option, none, some, arith, eq_iff, ltb, ◌==◌, nat_eq, string_eq,
  if◌then◌else◌, map, keep,
}
use brand_sniper_monorepo.Prelude.Dict.{Dict, contains}
use brand_sniper_monorepo.Prelude.Int.{ℤ, pos}
use brand_sniper_monorepo.Prelude.Result.{Result, ok, err, value_error}
use brand_sniper_monorepo.Config.{Settings, defaults}
use brand_sniper_monorepo.Tick.{
  TickKind, rest_snapshot, listed, MarketTick, validate, is_rest_snapshot, feeds_price_window,
  observed_at_epoch_ms, of_feed_event,
}
use brand_sniper_monorepo.Tick.Kinds.{validate_lem}
use brand_sniper_monorepo.Dedup.{
  DedupCache, empty, venue_dict, get, is_price, snapshot_price, is_duplicate, is_unchanged_snapshot,
  update_dedup_cache, dedup_window_seconds,
}
use brand_sniper_monorepo.Dedup.Bounds.{
  IsBounded, update_dedup_cache-IsBounded, update_dedup_cache_others,
}
use brand_sniper_monorepo.Dedup.Recall.{
  SameItem, IsListingOf, record_all, is_duplicate-update_unlisted, is_unchanged_snapshot-update,
  is_duplicate-update_listed, is_unchanged_snapshot-record_all,
}
use brand_sniper_monorepo.Edge.{Baseline, PriceText, cents, EdgeStore}
use brand_sniper_monorepo.Pnl.{resale_venue_for, skinport_fees}
use brand_sniper_monorepo.FeeFloor.{
  item_fee, estimate_net_profit_cents, estimate_net_profit_cents_lem,
}
use brand_sniper_monorepo.Pnl.Margin.{IsMargin}
use brand_sniper_monorepo.Pnl.Resale.{skinport-IsValid}
use brand_sniper_monorepo.Prelude.Int.{ℤ, pos}
use brand_sniper_monorepo.Pnl.{fees_for, applied_fee_bps, resale_venue_for, skinport_fees}
use brand_sniper_monorepo.Rules.{
  Reason, support_floor, dre_approval_reason, baseline_for, sticker_value_cents, sticker_reason,
}
use brand_sniper_monorepo.Rules.Approval.{
  Holds, dre_approval_reason_lem, dre_approval_reason_cheaper,
}
use brand_sniper_monorepo.Recording.{Outcome, recorded, ResalePrices, refresh, judge}
use brand_sniper_monorepo.Recording.Complete.{IsStored, judge_lem}
use brand_sniper_monorepo.Recording.Batches.{
  RawEvent, RawEventBatch, take_if_due, handed_on, NotDue, take_if_due_lem,
}

abbrev listing : MarketTick
listing = record {
  venue = "skinport";
  kind = listed;
  market_hash_name = "AK-47 | Redline";
  price_cents = 1500;
  timestamp = 1000;
  observed_at_ms = some 1000250;
  float_value = none;
  stickers = [];
  event_type = some "listed";
  listing_id = some "17";
  pattern_seed = none;
  paint_index = none;
  listing_url = none;
}

abbrev snapshot : MarketTick
snapshot = record {
  venue = "skinport";
  kind = rest_snapshot;
  market_hash_name = "AK-47 | Redline";
  price_cents = 1500;
  timestamp = 1200;
  observed_at_ms = none;
  float_value = none;
  stickers = [];
  event_type = none;
  listing_id = none;
  pattern_seed = none;
  paint_index = none;
  listing_url = none;
}

same_item : SameItem listing snapshot
same_item = record { venue = refl; name = refl }

room : 0 < defaults.dedup_cache_max_size
room = omega arith

is_duplicate_unlisted_example :
    is_duplicate snapshot (update_dedup_cache defaults listing true empty)
    ≡ (snapshot.price_cents == listing.price_cents && ltb 1200 (1000 + dedup_window_seconds))
is_duplicate_unlisted_example =
    is_duplicate-update_unlisted defaults listing true empty room snapshot same_item refl

is_unchanged_snapshot-record_all_example :
    is_unchanged_snapshot snapshot
      (record_all defaults (listing ∷ []) (update_dedup_cache defaults snapshot false empty))
    ≡ (snapshot.price_cents == snapshot.price_cents)
unfolding is_rest_snapshot
is_unchanged_snapshot-record_all_example =
    is_unchanged_snapshot-record_all defaults snapshot snapshot false (listing ∷ []) empty room
      (record { venue = refl; name = refl }) refl refl
      ((record { venue = refl; name = refl }, refl), tt)

abbrev redline : Baseline
redline = record {
  support_floor_cents = some 1600;
  latest_price_cents = some 1700;
  rolling_30d_avg_cents = some 1900;
  volatility_cents = some 100;
  seller_fee_bps = none;
}

abbrev store : EdgeStore
store = record {
  baselines = ("skinport", ("AK-47 | Redline", redline) ∷ []) ∷ [];
  sticker_prices = ("skinport", []) ∷ [];
}

dre_approval_reason_example :
    (dre_approval_reason listing store (some redline) ≡ some support_floor
      → (b : Baseline) × (baseline_for listing store (some redline) ≡ some b)
        × Holds support_floor 1500 (sticker_value_cents listing store) b)
    × ((b : Baseline)
        → baseline_for listing store (some redline) ≡ some b
        → Holds support_floor 1500 (sticker_value_cents listing store) b
        → dre_approval_reason listing store (some redline) ≢ none)
dre_approval_reason_example = dre_approval_reason_lem listing store (some redline) support_floor

approved : dre_approval_reason listing store (some redline) ≢ none
unfolding baseline_for
approved =
    (dre_approval_reason_lem listing store (some redline) support_floor).1 redline refl
      (omega arith)

dre_approval_reason_cheaper_example :
    dre_approval_reason (record listing { price_cents = 900 }) store (some redline) ≢ none
dre_approval_reason_cheaper_example =
    dre_approval_reason_cheaper listing store (some redline) 900 (omega arith) approved

abbrev unloaded : ResalePrices
unloaded = record {
  venue = "skinport";
  build_id = none;
  latest_price_cents = [];
  sticker_prices_cents = [];
}

abbrev loaded : ResalePrices
loaded = (refresh (some "b1") store unloaded).0

store-IsStored : IsStored "skinport" store
store-IsStored = record { baselines = (refl, tt); stickers = tt; named = refl }

judge_example :
    (judge listing loaded ≡ recorded)
    ↔ ((1500 < 1700) ⊎ (sticker_reason 1500 1700 (sticker_value_cents listing store) ≢ none))
unfolding refresh resale_venue_for baseline_for
judge_example =
    judge_lem listing "b1" store unloaded loaded redline 1700 refl refl store-IsStored refl refl
      (omega arith)

abbrev raw_events : RawEventBatch ℕ
raw_events = record {
  venue = "waxpeer";
  max_events = 2;
  max_age_ms = 500;
  events = record { event = "new"; received_at_ms = 10; payload = 7 } ∷ [];
}

estimate_net_profit_cents_example :
    (buy_rate sell_rate : ℕ) × (margin : ℤ) × (skinport_fees.buyer_fee_bps ≡ pos buy_rate)
    × (applied_fee_bps (pos 1700) skinport_fees (item_fee none) ≡ ok (pos sell_rate))
    × (estimate_net_profit_cents listing redline ≡ ok (some margin))
    × IsMargin 1500 1700 buy_rate sell_rate margin
unfolding fees_for resale_venue_for
estimate_net_profit_cents_example =
    estimate_net_profit_cents_lem listing redline 1700 skinport_fees skinport_fees refl refl
      skinport-IsValid skinport-IsValid refl
