-- ===== src/Scenarios/Decisions.antt =====
-- A cheap listing on a full window, live and replayed.
use brand_sniper_monorepo.Prelude.{
  ℕ, ◌≡◌, ◌≢◌, ◌⊎◌, refl, true, false, List, [], ◌∷◌, Option, none, some, string_eq,
}
use brand_sniper_monorepo.Prelude.Int.{ℤ, ◌+ℤ◌, ◌-ℤ◌, ◌*ℤ◌, ◌/ℤ◌}
use brand_sniper_monorepo.Tick.{feeds_price_window, is_rest_snapshot}
use brand_sniper_monorepo.Dedup.{
  is_duplicate, is_unchanged_snapshot, get, listing_price, next_entry, put_entry, put_listing_price,
  update_dedup_cache,
}
use brand_sniper_monorepo.Detection.{score_window, push_member}
use brand_sniper_monorepo.Zscore.{calculate_z_score, source_can_trigger, should_trigger_anomaly}
use brand_sniper_monorepo.EdgeWindows.{
  window_prices, rank_slice, zadd, zcard, zrange, zremrangebyrank,
}
use brand_sniper_monorepo.Pnl.{
  resale_venue_for, fees_for, applied_fee_bps, buyer_fee_cents, fee_rounded_up_cents,
  net_resale_margin_cents, seller_fee_cents,
}
use brand_sniper_monorepo.FeeFloor.{below_fee_floor, estimate_net_profit_cents}
use brand_sniper_monorepo.Fees.{fee_of_max, max_tier, seller_fee_bps}
use brand_sniper_monorepo.Lru.{evict_oldest, put}
use brand_sniper_monorepo.Prelude.Texts.{decimal}
use brand_sniper_monorepo.Replay.{should_log}
use brand_sniper_monorepo.Rules.{
  approve_with, baseline_for, below_macro_floor, dre_approval_reason, sticker_reason,
  sticker_value_cents, sum_stickers,
}
use brand_sniper_monorepo.Strategy.{decide_scored}
use brand_sniper_monorepo.Prelude.Result.{Result, ok, err}
use brand_sniper_monorepo.Config.{defaults}
use brand_sniper_monorepo.Edge.{Baseline, EdgeStore}
use brand_sniper_monorepo.EdgeWindows.{push_price}
use brand_sniper_monorepo.Dedup.{empty}
use brand_sniper_monorepo.Intake.{market_tick, Memory}
use brand_sniper_monorepo.Detection.{
  Windows, WindowKey, Call, all_answer, window_at, price_window_key, member_of, push_to_window,
}
use brand_sniper_monorepo.Detection.Windows.{push_to_window_lem}
use brand_sniper_monorepo.Strategy.{decide}
use brand_sniper_monorepo.Strategy.Sweep.{AgreesWith, decide-AgreesWith}
use brand_sniper_monorepo.Replay.{ReplaySummary, new_summary, replay_item}
use brand_sniper_monorepo.Replay.Same.{Found, Stream, ListensAs, replay, listen, replay-listen}
use brand_sniper_monorepo.Scenarios.Windows.{whole, thresholds, cheap, full_window}

abbrev no_coefficient : Baseline → Option ℤ
no_coefficient baseline = none

abbrev store : EdgeStore
store = record {
  baselines =
      (
        "skinport",
        (
          "AK-47 | Redline",
          record {
            support_floor_cents = some 400;
            latest_price_cents = some 500;
            rolling_30d_avg_cents = some 500;
            volatility_cents = some 20;
            seller_fee_bps = none;
          },
        )
            ∷ [],
      )
      ∷ [];
  sticker_prices = [];
}

abbrev windows : Windows
windows = (price_window_key cheap, full_window) ∷ []

push_to_window_example :
    ((key : WindowKey)
      → (key.venue ≢ "skinport") ⊎ (key.market_hash_name ≢ "AK-47 | Redline")
      → window_at key (push_to_window defaults all_answer cheap windows).0 ≡ window_at key windows)
    × (((c : Call) → all_answer c ≡ true)
        → window_at
            (record { venue = "skinport"; market_hash_name = "AK-47 | Redline" })
            (push_to_window defaults all_answer cheap windows).0
          ≡ push_price 20 (member_of cheap) full_window)
push_to_window_example = push_to_window_lem defaults all_answer cheap windows

decide-AgreesWith_example :
    AgreesWith whole thresholds no_coefficient
      (decide whole thresholds no_coefficient defaults true all_answer cheap windows store)
      (decide whole thresholds no_coefficient defaults false all_answer cheap windows store)
decide-AgreesWith_example =
    decide-AgreesWith whole thresholds no_coefficient defaults all_answer cheap windows store

abbrev stream : Stream whole thresholds no_coefficient defaults ℕ
stream = ((store, true), market_tick cheap) ∷ []

abbrev memory : Memory
memory = record { dedup = empty; windows = windows }

abbrev Replayed : Type 0
Replayed = Result ((Memory × ReplaySummary) × List (Found whole thresholds no_coefficient defaults))

abbrev result_of :
    Replayed → (Memory × ReplaySummary) × List (Found whole thresholds no_coefficient defaults)
result_of (ok r) = r
result_of (err e) = ((memory, new_summary), [])

abbrev replayed : (Memory × ReplaySummary) × List (Found whole thresholds no_coefficient defaults)
replayed = result_of (replay whole thresholds no_coefficient defaults stream memory new_summary)

-- The replay approves the listing.
approved_one : replayed.0.1.approved ≡ 1
unfolding replay_item feeds_price_window is_duplicate is_unchanged_snapshot is_rest_snapshot decide
    score_window calculate_z_score window_prices rank_slice ◌-ℤ◌ push_to_window ◌+ℤ◌
    resale_venue_for ◌/ℤ◌ ◌*ℤ◌ source_can_trigger should_trigger_anomaly get listing_price
    next_entry put_entry put_listing_price update_dedup_cache push_member zadd zcard zrange
    zremrangebyrank below_fee_floor estimate_net_profit_cents fee_of_max max_tier seller_fee_bps
    evict_oldest put fees_for applied_fee_bps buyer_fee_cents fee_rounded_up_cents
    net_resale_margin_cents seller_fee_cents decimal should_log approve_with baseline_for
    below_macro_floor dre_approval_reason sticker_reason sticker_value_cents sum_stickers
    decide_scored
approved_one = refl

returns : replay whole thresholds no_coefficient defaults stream memory new_summary ≡ ok replayed
unfolding replay_item feeds_price_window is_duplicate is_unchanged_snapshot is_rest_snapshot decide
    score_window calculate_z_score window_prices rank_slice ◌-ℤ◌ push_to_window ◌+ℤ◌
    resale_venue_for ◌/ℤ◌ ◌*ℤ◌ source_can_trigger should_trigger_anomaly get listing_price
    next_entry put_entry put_listing_price update_dedup_cache push_member zadd zcard zrange
    zremrangebyrank below_fee_floor estimate_net_profit_cents fee_of_max max_tier seller_fee_bps
    evict_oldest put fees_for applied_fee_bps buyer_fee_cents fee_rounded_up_cents
    net_resale_margin_cents seller_fee_cents decimal should_log approve_with baseline_for
    below_macro_floor dre_approval_reason sticker_reason sticker_value_cents sum_stickers
    decide_scored
returns = refl

replay-listen_example :
    ListensAs whole thresholds no_coefficient defaults stream replayed.0.0 replayed.1
      (listen whole thresholds no_coefficient defaults stream memory)
replay-listen_example =
    replay-listen whole thresholds no_coefficient defaults ℕ stream memory replayed.0.0 new_summary
      replayed.0.1 replayed.1 returns
