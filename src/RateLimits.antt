-- ===== src/RateLimits.antt =====
-- Counting in a sliding window: RateLimiter (apps/listener/alerts.py) and ListingRateTracker
-- (packages/shared_utils/src/shared_utils/features.py). The limiter's clock is in milliseconds.
pub mod Windows
use brand_sniper_monorepo.Prelude.{
  ℕ, zero, suc, ◌+◌, ◌-◌, max, String, Bool, true, false, ◌&&◌, List, [], ◌∷◌, ◌++◌, Option, none,
  some, if◌then◌else◌, ltb, leb, length, nat_eq, string_eq,
}
use brand_sniper_monorepo.Prelude.Dict.{Dict, lookup, insert}

abbrev pub window_ms : ℕ
window_ms = 60000

pub record RateLimiter : Type 0 where
  pub max_per_minute : ℕ
  pub sent : List ℕ
  pub paused_until : ℕ

-- The sends that are less than the window ago; the oldest are first.
abbrev pub drop_old : ℕ → ℕ → List ℕ → List ℕ
drop_old window now [] = []
drop_old window now (t ∷ ts) = if leb (t + window) now then drop_old window now ts else t ∷ ts

unfoldable pub pause : ℕ → ℕ → RateLimiter → RateLimiter
pause now ms l = record l { paused_until = max l.paused_until (now + ms) }

abbrev pub slot_wait : ℕ → ℕ → List ℕ → ℕ
slot_wait max_per_minute now [] = 0
slot_wait max_per_minute now (t ∷ ts) =
    if leb max_per_minute (length (t ∷ ts)) then (t + window_ms) - now else 0

-- `wait_seconds`: the limiter without its old sends, and the wait.
unfoldable pub wait_ms : ℕ → RateLimiter → RateLimiter × ℕ
wait_ms now l =
    let sent = drop_old window_ms now l.sent in
    (record l { sent = sent }, max (l.paused_until - now) (slot_wait l.max_per_minute now sent))

-- `acquire`'s last step, once no wait is left: the slot is taken.
unfoldable pub take_slot : ℕ → RateLimiter → RateLimiter
take_slot now l = record l { sent = l.sent ++ now ∷ [] }

abbrev pub listing_rate_window_seconds : ℕ
listing_rate_window_seconds = 3600

-- `ListingRateTracker.record` of one item's times: the times, and how many came before.
unfoldable pub record_listing : ℕ → ℕ → List ℕ → List ℕ × ℕ
record_listing window_seconds timestamp times =
    let kept = drop_old window_seconds timestamp times in (kept ++ timestamp ∷ [], length kept)
