-- ===== src/Labels/Windows.antt =====
-- Windows of a time range (iter_windows of apps/analytics/outcome_labels.py). The loop runs on fuel:
-- each window moves the cursor by at least a microsecond.
use brand_sniper_monorepo.Prelude.{
  ℕ, zero, suc, ◌+◌, ◌≤◌, ◌<◌, min, List, [], ◌∷◌, Option, none, some, if◌then◌else◌, ltb, ◌≡◌,
  refl, arith, ltb→lt, Bool-cases, inl, inr,
}

-- None when the fuel runs out with the range still open. Times count from the range's start on.
abbrev with_window : ℕ × ℕ → Option (List (ℕ × ℕ)) → Option (List (ℕ × ℕ))
with_window w none = none
with_window w (some windows) = some (w ∷ windows)

unfoldable pub iter_windows : ℕ → ℕ → ℕ → ℕ → Option (List (ℕ × ℕ))
iter_windows zero cursor end window = if ltb cursor end then none else some []
iter_windows (suc fuel) cursor end window =
    let rest = iter_windows fuel (min (cursor + window) end) end window in
    if ltb cursor end then with_window (cursor, min (cursor + window) end) rest else some []

-- The windows follow each other from the first time to the last: each starts where the one before
-- ends, is not empty and is at most the length.
pub Tile : ℕ → ℕ → ℕ → List (ℕ × ℕ) → Type 0
Tile start end window [] = end ≤ start
Tile start end window ((a, b) ∷ rest) =
    (a ≡ start) × (a < b) × (b ≤ a + window) × (b ≤ end) × Tile b end window rest

-- With a window of at least one microsecond, and fuel for each microsecond of the range, the split
-- ends, and its windows tile the range: no moment is left out or covered twice.
pub iter_windows_lem :
    (fuel start end window : ℕ)
    → 1 ≤ window
    → end ≤ start + fuel
    → (windows : List (ℕ × ℕ)) × (iter_windows fuel start end window ≡ some windows)
      × Tile start end window windows
unfolding iter_windows Tile
iter_windows_lem zero start end window wide enough = ([], ground arith, omega (arith, enough))
iter_windows_lem (suc fuel) start end window wide enough = elim (Bool-cases (ltb start end)) [
  | inr closed ↦ ([], rw closed refl, ground arith)
  | inl more ↦
      let next = min (start + window) end in
      let (windows, e, t) =
        iter_windows_lem fuel next end window wide (let h = ltb→lt start end more in omega arith) in
      (
        (start, next) ∷ windows,
        rw (more, e) refl,
        (refl, (let h = ltb→lt start end more in omega arith), omega arith, omega arith, t),
      )
]
