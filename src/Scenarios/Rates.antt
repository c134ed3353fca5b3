-- ===== src/Scenarios/Rates.antt =====
-- A limiter of two sends a minute after one send, and the listings of an item in the last hour.
use brand_sniper_monorepo.Prelude.{◌≤◌, ◌<◌, ◌≡◌, ◌↔◌, [], ◌∷◌, length, keep, arith}
use brand_sniper_monorepo.RateLimits.{RateLimiter, window_ms, wait_ms}
use brand_sniper_monorepo.RateLimits.Windows.{IsOrdered, is_recent, wait_ms_lem}

abbrev limiter : RateLimiter
limiter = record { max_per_minute = 2; sent = 1000 ∷ 50000 ∷ []; paused_until = 0 }

ordered : IsOrdered (1000 ∷ 50000 ∷ [])
ordered = omega arith

wait_ms_example : ((wait_ms 61000 limiter).1 ≡ 0) ↔ (
    (limiter.paused_until ≤ 61000)
    × (length (keep (is_recent window_ms 61000) limiter.sent) < limiter.max_per_minute))
wait_ms_example = wait_ms_lem 61000 limiter (omega arith) ordered
