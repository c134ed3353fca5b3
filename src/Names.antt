-- ===== src/Names.antt =====
-- What an item's name says: its type, and the version in it
-- (packages/shared_utils/src/shared_utils/item_classifier.py). A name is always a text here; `unquote` of
-- the standard library is a parameter.
use Prim.Native.Char.{code}
use Prim.Native.String.{◌++◌ as ◌<>◌}
pub mod Ends
pub mod RoundTrip
pub mod Tests
pub mod Versions
use brand_sniper_monorepo.Prelude.{
  ℕ, zero, suc, ◌+◌, ◌-◌, ◌≡◌, refl, String, Bool, true, false, not, ◌&&◌, ◌||◌, List, [], ◌∷◌,
  Option, none, some, if◌then◌else◌, ltb, leb, nat_beq, string_eq, ◌==◌,
}

abbrev pub wear_suffixes : List String
wear_suffixes =
    "(Factory New)" ∷ "(Minimal Wear)" ∷ "(Field-Tested)" ∷ "(Well-Worn)" ∷ "(Battle-Scarred)" ∷ []

-- `text.startswith(start)`, `needle in text` and `text.endswith(end)`.
abbrev pub starts_with : String → String → Bool
starts_with String.[] text = true
starts_with (String.◌∷◌ c start) String.[] = false
starts_with (String.◌∷◌ c start) (String.◌∷◌ d text) =
    nat_beq (code c) (code d) && starts_with start text

unfoldable pub has_text : String → String → Bool
has_text needle String.[] = starts_with needle ""
has_text needle (String.◌∷◌ c text) = starts_with needle (String.◌∷◌ c text) || has_text needle text

unfoldable pub ends_with : String → String → Bool
ends_with suffix String.[] = suffix == ""
ends_with suffix (String.◌∷◌ c text) = suffix == String.◌∷◌ c text || ends_with suffix text

abbrev pub text_length : String → ℕ
text_length String.[] = 0
text_length (String.◌∷◌ c text) = suc (text_length text)

-- `text.replace(needle, "")`: `skip` characters of a match are still to be passed over.
abbrev remove_from : String → ℕ → String → String
remove_from needle skip String.[] = ""
remove_from needle (suc skip) (String.◌∷◌ c text) = remove_from needle skip text
remove_from needle zero (String.◌∷◌ c text) =
    let hit = starts_with needle (String.◌∷◌ c text) in
    let rest = remove_from needle (if hit then text_length needle - 1 else 0) text in
    if hit then rest else String.◌∷◌ c rest

unfoldable pub remove_text : String → String → String
remove_text needle text = remove_from needle 0 text

abbrev pub any_in : List String → String → Bool
any_in [] text = false
any_in (needle ∷ needles) text = has_text needle text || any_in needles text

-- The type of a cleaned name.
unfoldable pub item_type : String → String
unfolding has_text
item_type name =
    if has_text "★" name
    then (if any_in ("Gloves" ∷ "Wraps" ∷ []) name then "Glove" else "Knife")
    else if has_text "Sticker |" name || starts_with "Sticker" name
    then "Sticker"
    else if has_text "Music Kit |" name
    then "Music Kit"
    else if has_text "Patch |" name
    then "Patch"
    else if any_in
          ("NSWC SEAL" ∷ "Guerrilla Warfare" ∷ "Sabre" ∷ "TACP" ∷ "Professionals" ∷ "FBI" ∷ "SWAT"
            ∷ "Gendarmerie" ∷ "KSK" ∷ [])
          name
        || has_text "Agent" name
    then "Agent"
    else if any_in wear_suffixes name
    then "Weapon Skin"
    else if any_in ("Case" ∷ "Capsule" ∷ "Package" ∷ "Pin" ∷ []) name
    then "Container/Collectible"
    else "Agent"

unfoldable pub parse_item_meta : (String → String) → String → String × String
unfolding remove_text item_type
parse_item_meta unquote name =
    let clean = unquote (remove_text ".csv" name) in (clean, item_type clean)

-- `text[: -len(suffix)]` of a text that ends with it.
abbrev pub before_suffix : String → String → String
before_suffix suffix String.[] = ""
before_suffix suffix (String.◌∷◌ c text) =
    let rest = before_suffix suffix text in
    if String.◌∷◌ c text == suffix then "" else String.◌∷◌ c rest
