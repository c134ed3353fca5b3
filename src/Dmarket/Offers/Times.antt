-- ===== src/Dmarket/Offers/Times.antt =====
-- The creation time of a listing (created_at_ms of packages/shared_utils/src/shared_utils/dmarket.py):
-- the regular expression of an RFC 3339 time on ASCII text, and its milliseconds.
use Prim.Native.Char.{Char, code}
use Prim.Native.String.{◌++◌ as ◌<>◌}
use brand_sniper_monorepo.Prelude.{
  ℕ, zero, suc, ◌+◌, ◌-◌, ◌*◌, String, Bool, false, ◌&&◌, ◌||◌, Option, none, some, if◌then◌else◌,
  leb, string_eq, nat_eq, ◌==◌, ◌≡◌, refl,
}
use brand_sniper_monorepo.Prelude.Json.{Json, text}
use brand_sniper_monorepo.Names.Versions.{strip}

abbrev pub is_digit : Char → Bool
is_digit c = leb b'0' (code c) && leb (code c) b'9'

-- A zero of the shape stands for any digit, every other character for itself.
abbrev pub fits_char : Char → Char → Bool
fits_char shape c = if code shape == b'0' then is_digit c else code shape == code c

-- The text before and after the place where the shape ends, if the text starts with the shape.
abbrev pub then_char : Char → Option (String × String) → Option (String × String)
then_char c none = none
then_char c (some (front, rest)) = some (String.◌∷◌ c front, rest)

abbrev pub split_shape : String → String → Option (String × String)
split_shape String.[] s = some ("", s)
split_shape (String.◌∷◌ shape shapes) String.[] = none
split_shape (String.◌∷◌ shape shapes) (String.◌∷◌ c s) =
    let rest = then_char c (split_shape shapes s) in if fits_char shape c then rest else none

-- The digits that a text starts with, and what follows them.
abbrev pub split_digits : String → String × String
split_digits String.[] = ("", "")
split_digits (String.◌∷◌ c s) =
    let (front, rest) = split_digits s in
    if is_digit c then (String.◌∷◌ c front, rest) else ("", String.◌∷◌ c s)

-- `int(digits[:count].ljust(count, "0"))`, on the value before the digits.
abbrev pub padded : ℕ → ℕ → String → ℕ
padded zero value digits = value
padded (suc count) value String.[] = padded count (value * 10) ""
padded (suc count) value (String.◌∷◌ c digits) = padded count (value * 10 + (code c - b'0')) digits

-- `(?:\.(\d+))?`: the fraction's digits, "0" without one, and what follows.
abbrev pub with_fraction : String × String → Option (String × String)
with_fraction (digits, rest) = if digits == "" then none else some (digits, rest)

abbrev pub split_fraction : String → Option (String × String)
split_fraction String.[] = some ("0", "")
split_fraction (String.◌∷◌ c s) =
    if code c == b'.' then with_fraction (split_digits s) else some ("0", String.◌∷◌ c s)

abbrev pub ends_there : Option (String × String) → Bool
ends_there none = false
ends_there (some (front, rest)) = rest == ""

abbrev pub zone_of : String → Option String
zone_of zone =
    if zone == "Z"
    then some "+00:00"
    else if ends_there (split_shape "+00:00" zone) || ends_there (split_shape "-00:00" zone)
    then some zone
    else none

abbrev pub millisecond_of : Option ℕ → String → Option ℕ
millisecond_of none fraction = none
millisecond_of (some second) fraction = some (second * 1000 + padded 3 0 fraction)

module _ (second_of : String → Option ℕ) where
  abbrev pub at_zone : String → String → Option String → Option ℕ
  at_zone whole fraction none = none
  at_zone whole fraction (some zone) = millisecond_of (second_of (whole <> zone)) fraction

  abbrev pub after_fraction : String → Option (String × String) → Option ℕ
  after_fraction whole none = none
  after_fraction whole (some (fraction, zone)) = at_zone whole fraction (zone_of zone)

  abbrev pub after_whole : Option (String × String) → Option ℕ
  after_whole none = none
  after_whole (some (whole, rest)) = after_fraction whole (split_fraction rest)

  unfoldable pub created_at_ms : Option Json → Option ℕ
  unfolding strip
  created_at_ms (some (text s)) = after_whole (split_shape "0000-00-00T00:00:00" (strip s))
  created_at_ms _ = none

half_past :
    created_at_ms
      (λ whole. if whole == "2026-10-25T20:33:05+00:00" then some 7 else none)
      (some (text " 2026-10-25T20:33:05.1234Z "))
    ≡ some 7123
unfolding created_at_ms
half_past = refl
