-- ===== src/Names/RoundTrip.antt =====
-- The version that is built into a name is parsed out of it.
use Prim.Native.String.{◌++◌ as ◌<>◌}
use text.Mathlib.TextLemmas.{cons-append, append_assoc}
use brand_sniper_monorepo.Prelude.{
  ◌≡◌, refl, sym, ap, ◌∙◌, String, true, false, some, leb, nat_eq, string_eq, ◌==◌, arith,
}
use brand_sniper_monorepo.Names.{wear_suffixes, has_text, ends_with, text_length}
use brand_sniper_monorepo.Names.Versions.{
  strip, strip_left, strip_right, version_at, parse_version_from_name, build_versioned_name,
}
use brand_sniper_monorepo.Names.Ends.{
  IsStripped, stripped, IsWear, ends_with-append, text_length-append, before_suffix-append,
  strip_right-space, strip_right-closed, split_open-closed, split_open-append, find_wear-append,
}

strip_left-kept : (base rest : String) → IsStripped base → strip_left (base <> rest) ≡ base <> rest
strip_left-kept base rest (stripped c text first last) = rw (cons-append c text rest, first) refl

strip_right-kept : (base : String) → IsStripped base → strip_right base ≡ base
strip_right-kept base (stripped c text first last) = last

strip-space : (base : String) → IsStripped base → strip (base <> " ") ≡ base
unfolding strip
strip-space base b =
    ap strip_right (strip_left-kept base " " b) ∙ strip_right-space base ∙ strip_right-kept base b

strip-closed :
    (base x : String) → IsStripped base → strip ((base <> (x <> ")")) <> " ") ≡ base <> (x <> ")")
unfolding strip
strip-closed base x b =
    ap strip_right (
      ap strip_left (append_assoc base (x <> ")") " ")
      ∙ strip_left-kept base ((x <> ")") <> " ") b
      ∙ sym (append_assoc base (x <> ")") " "))
    ∙ strip_right-space (base <> (x <> ")"))
    ∙ ap strip_right (sym (append_assoc base x ")"))
    ∙ strip_right-closed (base <> x)
    ∙ append_assoc base x ")"

-- The name with the version, and the name, as texts before their wear.
abbrev plain : String → String → String
plain base wear = (base <> " ") <> wear

abbrev versioned : String → String → String → String
versioned base version wear = ((base <> (" (" <> (version <> ")"))) <> " ") <> wear

built :
    (base version wear : String)
    → IsStripped base
    → IsWear wear wear_suffixes
    → (version == "") ≡ false
    → (version == "default") ≡ false
    → build_versioned_name (plain base wear) (some version)
      ≡ base <> (" (" <> (version <> (") " <> wear)))
unfolding build_versioned_name
built base version wear b w some_text other =
    rw
      (
        some_text,
        other,
        find_wear-append wear_suffixes (base <> " ") wear w,
        before_suffix-append (base <> " ") wear,
        strip-space base b,
      )
      refl

joined :
    (base version wear : String)
    → base <> (" (" <> (version <> (") " <> wear)))
      ≡ ((base <> ((" (" <> version) <> ")")) <> " ") <> wear
joined base version wear =
    ap (λ t. base <> (" (" <> (version <> t))) (append_assoc ")" " " wear)
    ∙ ap (λ t. base <> (" (" <> t)) (sym (append_assoc version ")" (" " <> wear)))
    ∙ ap (λ t. base <> t) (sym (append_assoc " (" (version <> ")") (" " <> wear)))
    ∙ ap (λ t. base <> (t <> (" " <> wear))) (sym (append_assoc " (" version ")"))
    ∙ sym (append_assoc base ((" (" <> version) <> ")") (" " <> wear))
    ∙ sym (append_assoc (base <> ((" (" <> version) <> ")")) " " wear)

opened_at :
    (base version : String)
    → base <> ((" (" <> version) <> ")") ≡ (base <> " ") <> ("(" <> (version <> ")"))
opened_at base version =
    ap (λ t. base <> t) (append_assoc " (" version ")" ∙ append_assoc " " "(" (version <> ")"))
    ∙ sym (append_assoc base " " ("(" <> (version <> ")")))

closed : (base version : String) → ends_with ")" (base <> ((" (" <> version) <> ")")) ≡ true
closed base version =
    ap (ends_with ")") (sym (append_assoc base (" (" <> version) ")"))
    ∙ ends_with-append (base <> (" (" <> version)) ")"

two_long :
    (version : String) → (version == "") ≡ false → leb 2 (text_length (version <> ")")) ≡ true
two_long String.[] h = absurd (ground (arith, h))
two_long (String.◌∷◌ c v) h = ground (arith, text_length-append (String.◌∷◌ c v) ")")

version_at_lem :
    (name base version wear : String)
    → IsStripped base
    → (version == "") ≡ false
    → has_text ")" version ≡ false
    → version_at name wear (some (base <> " ", version <> ")")) ≡ (plain base wear, some version)
version_at_lem name base version wear b some_text no_close =
    rw
      (
        before_suffix-append version ")",
        two_long version some_text,
        no_close,
        strip-space base b,
        append_assoc base " " wear,
      )
      refl

parsed :
    (base version wear : String)
    → IsStripped base
    → IsWear wear wear_suffixes
    → (version == "") ≡ false
    → has_text "(" version ≡ false
    → has_text ")" version ≡ false
    → parse_version_from_name (((base <> ((" (" <> version) <> ")")) <> " ") <> wear)
      ≡ (plain base wear, some version)
unfolding parse_version_from_name
parsed base version wear b w some_text no_open no_close =
    let front = (base <> ((" (" <> version) <> ")")) <> " " in
    rw
      (
        find_wear-append wear_suffixes front wear w,
        before_suffix-append front wear,
        strip-closed base (" (" <> version) b,
        closed base version,
        opened_at base version,
        split_open-append (base <> " ") (version <> ")") (split_open-closed version no_open),
      )
      (version_at_lem _ base version wear b some_text no_close)

-- A version that is built into a name with a wear is parsed out of it, and leaves the name: where the
-- text before the wear is stripped and apart from it by one space, and the version is neither empty nor
-- `default` and has no parenthesis.
pub parse_version_from_name-build_versioned_name :
    (base version wear : String)
    → IsStripped base
    → IsWear wear wear_suffixes
    → (version == "") ≡ false
    → (version == "default") ≡ false
    → has_text "(" version ≡ false
    → has_text ")" version ≡ false
    → parse_version_from_name (build_versioned_name ((base <> " ") <> wear) (some version))
      ≡ ((base <> " ") <> wear, some version)
parse_version_from_name-build_versioned_name base version wear b w some_text other no_open
      no_close =
    ap parse_version_from_name
      (built base version wear b w some_text other ∙ joined base version wear)
    ∙ parsed base version wear b w some_text no_open no_close
