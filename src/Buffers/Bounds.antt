-- ===== src/Buffers/Bounds.antt =====
-- How much the consumer buffers, and how long.
use brand_sniper_monorepo.Prelude.{ℕ, ◌+◌, ◌<◌, ◌≡◌, ◌≢◌, true, false, none, some, length}
use brand_sniper_monorepo.Prelude.Result.{Result, ok, err}
use brand_sniper_monorepo.Buffers.{Buffers, holds, Event, handled, quiet}

module _ (R E : Type 0) where
  pub record IsBounded (limit : ℕ) (b : Buffers R E) : Type 0 where
    pub ticks : length b.ticks < limit
    pub feed_events : length b.feed_events < limit
    -- The time of the oldest record is set while one waits.
    pub dated : holds b ≡ true → b.oldest_at ≢ none

  -- After an item at `now` the oldest record has waited less than the interval; after the timeout the buffers are empty.
  abbrev pub WaitsLessThan : ℕ → Event R E → Buffers R E → Type 0
  WaitsLessThan interval (handled now fresh flushed r) b =
      holds b ≡ true → (at : ℕ) × (b.oldest_at ≡ some at) × (now < at + interval)
  WaitsLessThan interval (quiet fresh flushed) b = (b.oldest_at ≡ none) × (holds b ≡ false)

  -- Of a turn that did not raise.
  abbrev BoundedAfter : ℕ → ℕ → Event R E → Buffers R E × Result (Unit {0}) → Type 0
  BoundedAfter limit interval e (b, err error) = Unit
  BoundedAfter limit interval e (b, ok _) = IsBounded limit b × WaitsLessThan interval e b
