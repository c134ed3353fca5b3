-- ===== src/Names/Versions.antt =====
-- The version in a name: parse_version_from_name and build_versioned_name
-- (packages/shared_utils/src/shared_utils/item_classifier.py).
use Prim.Native.Char.{Char, code}
use Prim.Native.String.{◌++◌ as ◌<>◌}
use brand_sniper_monorepo.Prelude.{
  ℕ, String, Bool, not, ◌&&◌, ◌||◌, List, [], ◌∷◌, Option, none, some, if◌then◌else◌, leb, nat_beq,
  string_eq, ◌==◌,
}
use brand_sniper_monorepo.Names.{wear_suffixes, has_text, ends_with, text_length, before_suffix}

-- `str.isspace` of one character, by its code.
abbrev between : ℕ → ℕ → ℕ → Bool
between low high n = leb low n && leb n high

abbrev pub is_space : ℕ → Bool
is_space n =
    between 9 13 n
    || (between 28 32 n
        || (nat_beq n 133
            || (nat_beq n 160
                || (nat_beq n 5760
                    || (between 8192 8202 n
                        || (between 8232 8233 n
                            || (nat_beq n 8239 || (nat_beq n 8287 || nat_beq n 12288))))))))

abbrev pub strip_left : String → String
strip_left String.[] = ""
strip_left (String.◌∷◌ c text) =
    let rest = strip_left text in if is_space (code c) then rest else String.◌∷◌ c text

abbrev pub strip_right : String → String
strip_right String.[] = ""
strip_right (String.◌∷◌ c text) =
    let rest = strip_right text in if rest == "" && is_space (code c) then "" else String.◌∷◌ c rest

-- `text.strip()`
unfoldable pub strip : String → String
strip text = strip_right (strip_left text)

-- The text before the last opening parenthesis, and the text after it.
abbrev pub keep_first : Char → Option (String × String) → Option (String × String)
keep_first c none = none
keep_first c (some (before, after)) = some (String.◌∷◌ c before, after)

abbrev pub or_here : Option (String × String) → Bool → String → Option (String × String)
or_here (some split) open_here text = some split
or_here none open_here text = if open_here then some ("", text) else none

abbrev pub split_open : String → Option (String × String)
split_open String.[] = none
split_open (String.◌∷◌ c text) = or_here (keep_first c (split_open text)) (nat_beq (code c) 40) text

-- The version between the last parentheses, where it is not empty.
abbrev pub version_at : String → String → Option (String × String) → String × Option String
version_at name wear none = (name, none)
version_at name wear (some (before, after)) =
    let content = before_suffix ")" after in
    if leb 2 (text_length after) && not (has_text ")" content)
    then (strip before <> (" " <> wear), some content)
    else (name, none)

-- The first wear that a name ends with.
unfoldable pub find_wear : List String → String → Option String
unfolding ends_with
find_wear [] name = none
find_wear (wear ∷ wears) name =
    let others = find_wear wears name in if ends_with wear name then some wear else others

abbrev pub parse_with : String → Option String → String × Option String
parse_with name none = (name, none)
parse_with name (some wear) =
    let rest = strip (before_suffix wear name) in
    if ends_with ")" rest then version_at name wear (split_open rest) else (name, none)

unfoldable pub parse_version_from_name : String → String × Option String
unfolding has_text find_wear strip
parse_version_from_name name = parse_with name (find_wear wear_suffixes name)

abbrev pub build_with : String → String → Option String → String
build_with name version none = name <> (" (" <> (version <> ")"))
build_with name version (some wear) =
    strip (before_suffix wear name) <> (" (" <> (version <> (") " <> wear)))

unfoldable pub build_versioned_name : String → Option String → String
unfolding find_wear strip
build_versioned_name name none = name
build_versioned_name name (some version) =
    if version == "" || version == "default"
    then name
    else build_with name version (find_wear wear_suffixes name)
