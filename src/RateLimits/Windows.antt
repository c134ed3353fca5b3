-- ===== src/RateLimits/Windows.antt =====
-- What the windows hold.
use brand_sniper_monorepo.Prelude.{
  ℕ, ◌+◌, ◌≤◌, ◌<◌, ◌≡◌, ◌↔◌, refl, Bool, true, false, List, [], ◌∷◌, ltb, leb, length, arith, All,
  Bool-cases, inl, inr, keep,
}
use brand_sniper_monorepo.RateLimits.{
  RateLimiter, window_ms, drop_old, slot_wait, wait_ms, record_listing,
}

-- Times from the oldest to the newest.
abbrev pub IsOrdered : List ℕ → Type 0
IsOrdered [] = Unit
IsOrdered (t ∷ ts) = All (λ u. t ≤ u) ts × IsOrdered ts

abbrev pub is_recent : ℕ → ℕ → ℕ → Bool
is_recent window now t = ltb now (t + window)

keep-All-recent :
    (window now t : ℕ) (ts : List ℕ)
    → now < t + window
    → All (λ u. t ≤ u) ts
    → keep (is_recent window now) ts ≡ ts
keep-All-recent window now t [] recent h = refl
keep-All-recent window now t (u ∷ us) recent h =
    let here : is_recent window now u ≡ true = ground (arith, h.0) in
    rw (here, keep-All-recent window now t us recent h.1) refl

drop_old-keep :
    (window now : ℕ) (ts : List ℕ)
    → IsOrdered ts
    → drop_old window now ts ≡ keep (is_recent window now) ts
drop_old-keep window now [] h = refl
drop_old-keep window now (t ∷ ts) h = elim (Bool-cases (leb (t + window) now)) [
  | inl old ↦
      let out : is_recent window now t ≡ false = ground arith in
      rw (old, out) (drop_old-keep window now ts h.1)
  | inr recent ↦
      let here : is_recent window now t ≡ true = ground arith in
      rw (recent, here, keep-All-recent window now t ts (ground arith) h.0) refl
]

-- On times from the oldest to the newest, the tracker's answer is the number of all the item's
-- earlier times that lie less than the window before the new one.
pub record_listing_lem :
    (window timestamp : ℕ) (times : List ℕ)
    → IsOrdered times
    → (record_listing window timestamp times).1 ≡ length (keep (is_recent window timestamp) times)
unfolding record_listing
record_listing_lem window timestamp times h = rw (drop_old-keep window timestamp times h) refl

slot_free :
    (limit now : ℕ) (ts : List ℕ)
    → 1 ≤ limit
    → (slot_wait limit now (drop_old window_ms now ts) ≡ 0)
      ↔ (length (drop_old window_ms now ts) < limit)
slot_free limit now [] some_limit = ground (arith, some_limit)
slot_free limit now (t ∷ ts) some_limit = elim (Bool-cases (leb (t + window_ms) now)) [
  | inl old ↦ rw old (slot_free limit now ts some_limit)
  | inr recent ↦ rw recent (ground (arith, recent))
]

-- A limiter that allows at least one send a minute, and remembers its sends in order, lets the next
-- one through without a wait exactly when no pause is left and fewer sends than allowed lie within
-- the last minute.
pub wait_ms_lem :
    (now : ℕ) (l : RateLimiter)
    → 1 ≤ l.max_per_minute
    → IsOrdered l.sent
    → ((wait_ms now l).1 ≡ 0) ↔ (
        (l.paused_until ≤ now)
        × (length (keep (is_recent window_ms now) l.sent) < l.max_per_minute))
unfolding wait_ms
wait_ms_lem now l some_limit h =
    let free = slot_free l.max_per_minute now l.sent some_limit in
    rw (← drop_old-keep window_ms now l.sent h) (ground (arith, free))
