-- ===== src/Detection/Legacy.antt =====
-- The windows of the time before the keys named their venue (migrate_legacy_price_windows,
-- apps/listener/detection.py), by item name. The scan of the keys is
-- taken to return each once; Redis allows it to return a key again.
use brand_sniper_monorepo.Prelude.{
  ℕ, ◌+◌, ◌≡◌, refl, ap, ◌∙◌, String, [], ◌∷◌, Option, none, some, if◌then◌else◌, arith, string_eq,
  ◌==◌,
}
use brand_sniper_monorepo.Prelude.Dict.{Dict, lookup, insert, contains, or_else, lookup-insert}
use brand_sniper_monorepo.EdgeWindows.{SortedSet}
use brand_sniper_monorepo.Detection.{WindowKey, window_key_eq, window_key_beq_iff, Windows}

abbrev pub legacy_key : String → WindowKey
legacy_key name = record { venue = "skinport"; market_hash_name = name }

-- `renamenx`: a window that is there already is newer, and stays.
abbrev pub adopt_window : WindowKey → SortedSet → Windows → Windows
adopt_window key window windows =
    if contains key windows then windows else insert key window windows

-- The windows afterwards, and how many legacy ones were found.
unfoldable pub migrate_legacy_price_windows : Dict String SortedSet → Windows → Windows × ℕ
migrate_legacy_price_windows [] windows = (windows, 0)
migrate_legacy_price_windows ((name, window) ∷ legacy) windows =
    let (last, found) =
      migrate_legacy_price_windows legacy (adopt_window (legacy_key name) window windows) in
    (last, found + 1)

lookup-adopt :
    (key : WindowKey) (window : SortedSet) (windows : Windows) (other : WindowKey)
    → lookup other (adopt_window key window windows)
      ≡ or_else (lookup other windows) (if key == other then some window else none)
lookup-adopt key window windows other =
    ground (arith, lookup-insert key other window windows, window_key_beq_iff key other)

-- The legacy window of a key.
abbrev pub legacy_window : WindowKey → Dict String SortedSet → Option SortedSet
legacy_window key legacy =
    if "skinport" == key.venue then lookup key.market_hash_name legacy else none

or_else_assoc : (a b c : Option SortedSet) → or_else (or_else a b) c ≡ or_else a (or_else b c)
or_else_assoc none b c = refl
or_else_assoc (some w) b c = refl

legacy-cons :
    (name : String) (window : SortedSet) (legacy : Dict String SortedSet) (other : WindowKey)
    → or_else (if legacy_key name == other then some window else none) (legacy_window other legacy)
      ≡ legacy_window other ((name, window) ∷ legacy)
legacy-cons name window legacy other = ground arith

-- After the migration a key has the window that it had, else the legacy one of its item, which
-- is a Skinport one.
pub migrate_legacy_price_windows_lem :
    (legacy : Dict String SortedSet) (windows : Windows) (key : WindowKey)
    → lookup key (migrate_legacy_price_windows legacy windows).0
      ≡ or_else (lookup key windows) (legacy_window key legacy)
unfolding migrate_legacy_price_windows
migrate_legacy_price_windows_lem [] windows key = ground arith
migrate_legacy_price_windows_lem ((name, window) ∷ legacy) windows key =
    migrate_legacy_price_windows_lem legacy (adopt_window (legacy_key name) window windows) key
    ∙ ap (λ o. or_else o (legacy_window key legacy))
        (lookup-adopt (legacy_key name) window windows key)
    ∙ or_else_assoc (lookup key windows) (if legacy_key name == key then some window else none)
        (legacy_window key legacy)
    ∙ ap (or_else (lookup key windows)) (legacy-cons name window legacy key)
