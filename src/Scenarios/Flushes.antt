-- ===== src/Scenarios/Flushes.antt =====
-- A listener that receives a listing and a raw event, and flushes that fail.
use brand_sniper_monorepo.Prelude.{
  ℕ, ◌≡◌, ◌≢◌, refl, true, List, [], ◌∷◌, Option, none, some, arith,
}
use brand_sniper_monorepo.Prelude.Int.{ℤ}
use brand_sniper_monorepo.Prelude.Result.{ok}
use brand_sniper_monorepo.Config.{defaults}
use brand_sniper_monorepo.Tick.{feeds_price_window}
use brand_sniper_monorepo.Tick.Records.{FeedEvent}
use brand_sniper_monorepo.Edge.{Baseline, EdgeStore}
use brand_sniper_monorepo.Detection.{all_answer}
use brand_sniper_monorepo.Intake.{StreamItem, market_tick, feed_event, tick_record, event_record}
use brand_sniper_monorepo.Buffers.{
  scheduled, refused, unanswered, Buffers, Event, handled, quiet, turn, consume, flush_if_due,
}
use brand_sniper_monorepo.Buffers.Conserved.{IsConserved, consume-IsConserved}
use brand_sniper_monorepo.Consumer.{Arrival, item_at, silence, new_buffers, tick_consumer}
use brand_sniper_monorepo.Consumer.Complete.{HasStored, arrived, tick_consumer-HasStored}
use brand_sniper_monorepo.Scenarios.Windows.{whole, thresholds, cheap}

abbrev no_coefficient : Baseline → Option ℤ
no_coefficient baseline = none

abbrev no_store : EdgeStore
no_store = record { baselines = []; sticker_prices = [] }

abbrev raw_event : FeedEvent ℕ
raw_event = record { event_type = "saleFeed"; received_at_ms = 40100; payload = 7 }

abbrev arrivals : List (Arrival ℕ)
arrivals =
    item_at 100 "a" scheduled all_answer no_store (feed_event raw_event)
    ∷ item_at 101 "b" scheduled all_answer no_store (market_tick cheap)
    ∷ silence "c" scheduled
    ∷ []

kept_tick : feeds_price_window cheap ≡ true → true ≡ true
kept_tick h = refl

unanswered-refused : unanswered ≢ refused
unanswered-refused h = ground (arith, h)

tick_consumer-HasStored_example :
    HasStored whole thresholds no_coefficient defaults ℕ
      (arrived arrivals)
      (tick_consumer whole thresholds no_coefficient defaults 2500 10000 "d" unanswered
        arrivals).stored
tick_consumer-HasStored_example =
    tick_consumer-HasStored whole thresholds no_coefficient defaults ℕ 2500 10000 "d" unanswered
      arrivals (refl, ((refl, refl, kept_tick), (refl, tt))) unanswered-refused

-- The records 1 and 2 wait when the store stops answering.
abbrev events : List (Event ℕ ℕ)
events =
    handled 100 "a" scheduled (tick_record 1)
    ∷ handled 101 "b" scheduled (event_record 2)
    ∷ quiet "c" unanswered
    ∷ handled 102 "d" scheduled (tick_record 3)
    ∷ []

-- The batch is stored by the flush that raised, and again by the last one, under one ID.
stored_twice_once : (consume 2500 10000 "e" scheduled events new_buffers).stored ≡ (
    record { batch_id = "c"; ticks = 1 ∷ []; feed_events = 2 ∷ [] }
    ∷ record { batch_id = "c"; ticks = 1 ∷ []; feed_events = 2 ∷ [] }
    ∷ [])
unfolding consume
stored_twice_once = refl

consume-IsConserved_example :
    IsConserved ℕ ℕ 2500 10000 scheduled events new_buffers
      (consume 2500 10000 "e" scheduled events new_buffers)
consume-IsConserved_example = consume-IsConserved ℕ ℕ 2500 10000 "e" scheduled events new_buffers

abbrev one_record : Buffers ℕ ℕ
one_record = record {
  ticks = 1 ∷ [];
  feed_events = [];
  batch_id = none;
  oldest_at = some 100;
  stored = [];
}

waits :
    turn 2500 10000 (handled 100 "a" scheduled (tick_record 1)) (new_buffers {R = ℕ} {E = ℕ})
    ≡ (one_record, ok tt)
unfolding turn flush_if_due
waits = refl

abbrev item : StreamItem ℕ
item = market_tick cheap
