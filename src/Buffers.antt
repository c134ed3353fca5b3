-- ===== src/Buffers.antt =====
-- The buffers of the listener's consumer and their flushes (flush_batch_buffer and the loop of
-- `tick_consumer`, apps/listener/main.py). Times are milliseconds of the event loop's clock. What a
-- flush's two calls do is given: the store's `add` may raise before or after it took effect, and the
-- pool may refuse the delivery.
pub mod Bounds
pub mod Conserved
pub mod Kept
use brand_sniper_monorepo.Prelude.{
  ℕ, ◌+◌, String, Bool, true, false, not, ◌||◌, List, [], ◌∷◌, ◌++◌, Option, none, some,
  if◌then◌else◌, leb, length,
}
use brand_sniper_monorepo.Prelude.Result.{Result, ok, err, connection_error, execution_error}
use brand_sniper_monorepo.Intake.{Recorded, no_record, tick_record, event_record}

-- What the calls of a flush do.
pub data Flushed : Type 0 where
  scheduled refused unanswered unscheduled : Flushed

pub record Batch (R E : Type 0) : Type 0 where
  pub batch_id : String
  pub ticks : List R
  pub feed_events : List E

pub record Buffers (R E : Type 0) : Type 0 where
  pub ticks : List R
  pub feed_events : List E
  pub batch_id : Option String
  pub oldest_at : Option ℕ
  -- The batches in the store, the oldest first.
  pub stored : List (Batch R E)

abbrev pub id_or : Option String → String → String
id_or none fresh = fresh
id_or (some id) fresh = id

abbrev pub is_empty : {A : Type 0} → List A → Bool
is_empty [] = true
is_empty (a ∷ rest) = false

abbrev pub time_or : Option ℕ → ℕ → ℕ
time_or none now = now
time_or (some at) now = at

-- What reaches the loop: an item, already handled, or the timeout that a quiet feed ends with. The
-- timeout is set only while records wait.
pub data Event (R E : Type 0) : Type 0 where
  handled : ℕ → String → Flushed → Recorded R E → Event R E
  quiet : String → Flushed → Event R E

module _ {R E : Type 0} where
  abbrev pub batch_to_store : String → Buffers R E → Batch R E
  batch_to_store fresh b = record {
    batch_id = id_or b.batch_id fresh;
    ticks = b.ticks;
    feed_events = b.feed_events;
  }

  abbrev pub store_batch : String → Buffers R E → Buffers R E
  store_batch fresh b = record b {
    batch_id = some (id_or b.batch_id fresh);
    stored = b.stored ++ batch_to_store fresh b ∷ [];
  }

  -- `flush`: `fresh` is the new UUID it draws where the buffers have no batch ID.
  unfoldable pub flush : String → Flushed → Buffers R E → Buffers R E × Result (Unit {0})
  flush fresh scheduled b = (
    record (store_batch fresh b) {
      ticks = [];
      feed_events = [];
      batch_id = none;
      oldest_at = none;
    },
    ok tt,
  )
  flush fresh refused b =
      (record b { batch_id = some (id_or b.batch_id fresh) }, err connection_error)
  flush fresh unanswered b = (store_batch fresh b, err connection_error)
  flush fresh unscheduled b =
      (record (store_batch fresh b) { ticks = []; feed_events = [] }, err execution_error)

  -- `batch_buffer or feed_event_buffer`
  abbrev pub holds : Buffers R E → Bool
  holds b = not (is_empty b.ticks) || not (is_empty b.feed_events)

  abbrev pub append : Recorded R E → Buffers R E → Buffers R E
  append no_record b = b
  append (tick_record r) b = record b { ticks = b.ticks ++ r ∷ [] }
  append (event_record e) b = record b { feed_events = b.feed_events ++ e ∷ [] }

  abbrev pub due : ℕ → ℕ → ℕ → Buffers R E → Bool
  due limit interval now b =
      leb limit (length b.ticks)
      || (leb limit (length b.feed_events) || leb (time_or b.oldest_at now + interval) now)

  -- After each item: persist full or old buffers.
  unfoldable pub flush_if_due :
      ℕ → ℕ → ℕ → String → Flushed → Buffers R E → Buffers R E × Result (Unit {0})
  unfolding flush
  flush_if_due limit interval now fresh flushed b =
      if holds b
      then (let dated = record b { oldest_at = some (time_or b.oldest_at now) } in
          if due limit interval now b then flush fresh flushed dated else (dated, ok tt))
      else (b, ok tt)

  abbrev flush_quiet : String → Flushed → Option ℕ → Buffers R E → Buffers R E × Result (Unit {0})
  flush_quiet fresh flushed none b = (b, ok tt)
  flush_quiet fresh flushed (some at) b = flush fresh flushed b

  unfoldable pub turn : ℕ → ℕ → Event R E → Buffers R E → Buffers R E × Result (Unit {0})
  unfolding flush_if_due
  turn limit interval (handled now fresh flushed recorded) b =
      flush_if_due limit interval now fresh flushed (append recorded b)
  turn limit interval (quiet fresh flushed) b = flush_quiet fresh flushed b.oldest_at b

  -- The `finally` of the loop.
  unfoldable pub close : String → Flushed → Buffers R E → Buffers R E
  unfolding flush
  close fresh flushed b = if holds b then (flush fresh flushed b).0 else b

  abbrev pub or_close :
      String → Flushed → (Buffers R E → Buffers R E) → Buffers R E × Result (Unit {0}) → Buffers R E
  or_close fresh flushed next (b, ok _) = next b
  or_close fresh flushed next (b, err e) = close fresh flushed b

  -- The loop ends with its events, by the sentinel or by a cancellation, or by a flush that raises.
  unfoldable pub consume : ℕ → ℕ → String → Flushed → List (Event R E) → Buffers R E → Buffers R E
  unfolding turn close
  consume limit interval fresh flushed [] b = close fresh flushed b
  consume limit interval fresh flushed (e ∷ es) b =
      or_close fresh flushed (consume limit interval fresh flushed es) (turn limit interval e b)
