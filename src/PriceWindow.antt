-- ===== src/PriceWindow.antt =====
-- When an unchanged REST lowest ask enters the price window
-- (packages/shared_utils/src/shared_utils/price_window.py). Times are epoch seconds.
use brand_sniper_monorepo.Prelude.{ℕ, ◌+◌, Bool, true, ◌||◌, Option, none, some, ltb, leb}

abbrev pub unchanged_snapshot_window_seconds : ℕ
unchanged_snapshot_window_seconds = 3600

-- `timestamp - last >= 3600` on Python's signed numbers.
unfoldable pub hourly_snapshot_due : ℕ → Option ℕ → Bool
hourly_snapshot_due timestamp none = true
hourly_snapshot_due timestamp (some last) = leb (last + unchanged_snapshot_window_seconds) timestamp

unfoldable pub unchanged_snapshot_enters_window : ℕ → Option ℕ → ℕ → ℕ → Bool
unfolding hourly_snapshot_due
unchanged_snapshot_enters_window timestamp last_windowed_snapshot_at window_size
      min_history_points =
    ltb window_size min_history_points || hourly_snapshot_due timestamp last_windowed_snapshot_at
