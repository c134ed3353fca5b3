-- ===== src/Tick/Kinds.antt =====
-- What the validators guarantee of a tick.
use brand_sniper_monorepo.Prelude.{
  ℕ, ◌*◌, ◌+◌, ◌≤◌, ◌<◌, ◌≡◌, refl, ◌↔◌, ◌⊎◌, inl, inr, Bool-cases, true, Option, none, some, arith,
  eq_iff, string_eq, nat_eq, String,
}
use brand_sniper_monorepo.Prelude.Result.{ok}
use brand_sniper_monorepo.Tick.{
  TickKind, rest_snapshot, MarketTick, of_feed_event, expected_kind, in_second, validate, kind_eq,
  price_kind, ms_or, is_rest_snapshot, feeds_price_window, observed_at_epoch_ms,
}

kind_of_eq : (a b : TickKind) → kind_eq a b ≡ true → a ≡ b
kind_of_eq a b h = ground arith

-- What the two validators check.
record IsConsistent (tick : MarketTick) : Type 0 where
  kind : tick.kind ≡ expected_kind tick.event_type
  second : in_second tick.observed_at_ms tick.timestamp ≡ true

validate-IsConsistent :
    (tick t : MarketTick) → validate tick ≡ ok t → (t ≡ tick) × IsConsistent tick
unfolding validate
validate-IsConsistent tick t h =
    elim (Bool-cases (kind_eq tick.kind (expected_kind tick.event_type))) [
      | inr e ↦ absurd (ground arith)
      | inl e ↦ elim (Bool-cases (in_second tick.observed_at_ms tick.timestamp)) [
        | inr f ↦ absurd (ground arith)
        | inl f ↦ (ground arith, record { kind = kind_of_eq _ _ e; second = f })
      ]
    ]

kinds_of_type :
    (o : Option String)
    → ((kind_eq (expected_kind o) rest_snapshot ≡ true) ↔ (o ≡ none))
      × ((price_kind (expected_kind o) ≡ true) ↔ ((o ≡ none) ⊎ (o ≡ some "listed")))
unfolding of_feed_event
kinds_of_type none = ground arith
kinds_of_type (some s) = ground (arith, eq_iff s "listed", eq_iff s "sold")

observed_in_second :
    (o : Option ℕ) (timestamp : ℕ)
    → in_second o timestamp ≡ true
    → (timestamp * 1000 ≤ ms_or o timestamp) × (ms_or o timestamp < timestamp * 1000 + 1000)
observed_in_second none timestamp h = omega arith
observed_in_second (some ms) timestamp h = ground arith

-- A tick that passes the validators is a REST snapshot exactly when it has no event type, feeds
-- the price window exactly when it is one or a `listed` event, and was observed within its second.
pub validate_lem :
    (tick t : MarketTick)
    → validate tick ≡ ok t
    → (t ≡ tick)
      × ((is_rest_snapshot t ≡ true) ↔ (t.event_type ≡ none))
      × ((feeds_price_window t ≡ true) ↔ ((t.event_type ≡ none) ⊎ (t.event_type ≡ some "listed")))
      × (t.timestamp * 1000 ≤ observed_at_epoch_ms t)
      × (observed_at_epoch_ms t < t.timestamp * 1000 + 1000)
unfolding is_rest_snapshot feeds_price_window observed_at_epoch_ms
validate_lem tick t h =
    let (same, c) = validate-IsConsistent tick t h in
    let (snapshot, window) = kinds_of_type tick.event_type in
    let (from, until) = observed_in_second tick.observed_at_ms tick.timestamp c.second in
    rw (same, c.kind) (refl, snapshot, window, from, until)
