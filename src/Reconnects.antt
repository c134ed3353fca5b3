-- ===== src/Reconnects.antt =====
-- The waits before the live feed's connection is opened again (websocket_subscriber_producer,
-- apps/listener/main.py). A connection is whether it delivered anything before it ended; the waits are
-- in milliseconds.
use brand_sniper_monorepo.Prelude.{
  ℕ, ◌*◌, ◌≤◌, Bool, true, false, List, [], ◌∷◌, if◌then◌else◌, min, arith, All,
}

-- The wait after a connection, where `delay` is the one carried over, and the delay carried on.
abbrev pub wait_after : ℕ → ℕ → Bool → ℕ
wait_after first delay delivered = if delivered then first else delay

abbrev pub next_delay : ℕ → ℕ → ℕ
next_delay most wait = min (wait * 2) most

-- The waits of a list of connections, in order.
unfoldable pub waits : ℕ → ℕ → ℕ → List Bool → List ℕ
waits first most delay [] = []
waits first most delay (delivered ∷ rest) =
    let wait = wait_after first delay delivered in
    wait ∷ waits first most (next_delay most wait) rest

abbrev IsBetween : ℕ → ℕ → ℕ → Type 0
IsBetween first most wait = (first ≤ wait) × (wait ≤ most)

next-IsBetween :
    (first most wait : ℕ)
    → first ≤ most
    → IsBetween first most wait
    → IsBetween first most (next_delay most wait)
next-IsBetween first most wait h b = (ground (arith, h, b.0), ground arith)

-- Where the first wait is at most the longest, every wait is between the two.
pub waits-IsBetween :
    (first most delay : ℕ) (connections : List Bool)
    → first ≤ most
    → IsBetween first most delay
    → All (IsBetween first most) (waits first most delay connections)
unfolding waits
waits-IsBetween first most delay [] h b = tt
waits-IsBetween first most delay (true ∷ rest) h b =
    let now : IsBetween first most first = (omega arith, h) in
    (
      now,
      waits-IsBetween first most (next_delay most first) rest h
          (next-IsBetween first most first h now),
    )
waits-IsBetween first most delay (false ∷ rest) h b = (
  b,
  waits-IsBetween first most (next_delay most delay) rest h (next-IsBetween first most delay h b),
)
