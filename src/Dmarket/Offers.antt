-- ===== src/Dmarket/Offers.antt =====
-- How a listing is read (parse_offer of packages/shared_utils/src/shared_utils/dmarket.py). Decimal,
-- `datetime` and the int of a JSON number are the libraries': Decimals holds what is used of them. Only
-- times from 1970 on are read here, and digits and letters are those of ASCII.
pub mod Times
use Prim.Native.Char.{Char, code}
use Prim.Native.String.{char_at}
use brand_sniper_monorepo.Prelude.{
  ℕ, ◌+◌, ◌-◌, String, Bool, true, false, not, ◌&&◌, List, [], ◌∷◌, Option, none, some,
  if◌then◌else◌, ltb, leb, string_eq, nat_eq, ◌==◌,
}
use brand_sniper_monorepo.Prelude.Json.{
  Json, number, text, array, object, JsonList, no_values, value_then, JsonFields, no_fields,
  field_of,
}
use brand_sniper_monorepo.Names.Versions.{strip, build_versioned_name}
use brand_sniper_monorepo.Pnl.{lower_char}
use brand_sniper_monorepo.Dmarket.{DmarketOffer}
use brand_sniper_monorepo.Dmarket.Offers.Times.{created_at_ms}

pub record Decimals : Type 1 where
  pub Decimal : Type 0
  -- `Decimal(text)`, where it is a finite number.
  pub decimal_of : String → Option Decimal
  pub is_positive : Decimal → Bool
  pub is_integral : Decimal → Bool
  pub at_most_one : Decimal → Bool
  -- `int` of a positive one, and `float`, which is carried and never read.
  pub int_of : Decimal → ℕ
  pub float_of : Decimal → ℕ
  -- The int from zero that a JSON number is; none for a float and below zero.
  pub json_int : String → Option ℕ
  -- The Unix second that `datetime.fromisoformat` reads.
  pub second_of : String → Option ℕ

abbrev pub upper_case_letters : String
upper_case_letters = "ABCDEFGHIJKLMNOPQRSTUVWXYZ"

abbrev pub upper_char : Char → Char
upper_char c =
    if leb b'a' (code c) && leb (code c) b'z' then char_at upper_case_letters (code c - b'a') else c

-- `" ".join(word.capitalize() for word in text.split("-"))`; the flag stands at the start of a word.
abbrev pub capitalize_words : Bool → String → String
capitalize_words start String.[] = ""
capitalize_words start (String.◌∷◌ c rest) =
    let dash = code c == b'-' in
    let others = capitalize_words dash rest in
    if dash
    then String.◌∷◌ (char_at " " 0) others
    else String.◌∷◌ (if start then upper_char c else lower_char c) others

abbrev pub version_of : String → Option String
version_of slug = if slug == "" then none else some (capitalize_words true slug)

-- phase_version
unfoldable pub phase_version : Option Json → Option String
unfolding strip lower_char
phase_version (some (text slug)) = version_of (strip slug)
phase_version _ = none

-- `value if isinstance(value, Mapping) else {}`
abbrev pub mapping_or_empty : Option Json → JsonFields
mapping_or_empty (some (object mapping)) = mapping
mapping_or_empty _ = no_fields

abbrev pub non_empty : Option Json → Option String
non_empty (some (text s)) = if s == "" then none else some s
non_empty _ = none

abbrev pub text_or_empty : Option Json → String
text_or_empty (some (text s)) = s
text_or_empty _ = ""

abbrev pub add_name : Option String → List String → List String
add_name none names = names
add_name (some name) names = name ∷ names

abbrev pub sticker_name : Json → Option String
sticker_name (object fields) = non_empty (field_of "name" fields)
sticker_name _ = none

abbrev pub names_in : JsonList → List String
names_in no_values = []
names_in (value_then v vs) = add_name (sticker_name v) (names_in vs)

abbrev pub sticker_names_of : Option Json → List String
sticker_names_of (some (array stickers)) = names_in stickers
sticker_names_of _ = []

-- `paint_index or None`
abbrev pub non_zero : Option ℕ → Option ℕ
non_zero none = none
non_zero (some n) = if n == 0 then none else some n

-- `seed if float_value is not None else None`
abbrev pub with_wear : Option ℕ → Option ℕ → Option ℕ
with_wear none seed = none
with_wear (some wear) seed = seed

module _ (d : Decimals) where
  open d use {
    Decimal, decimal_of, is_positive, is_integral, at_most_one, int_of, float_of, json_int,
    second_of,
  }

  abbrev pub int_text : Option ℕ → String → Option Decimal
  int_text none digits = none
  int_text (some n) digits = decimal_of digits

  -- `_decimal`; every caller takes a number below zero for none.
  abbrev pub decimal_at : Option Json → Option Decimal
  decimal_at (some (text s)) = decimal_of (strip s)
  decimal_at (some (number digits)) = int_text (json_int digits) digits
  decimal_at _ = none

  abbrev pub whole_cents : Option Decimal → Option ℕ
  whole_cents none = none
  whole_cents (some n) = if is_positive n && is_integral n then some (int_of n) else none

  -- cents_to_int
  unfoldable pub cents_to_int : Option Json → Option ℕ
  unfolding strip
  cents_to_int value = whole_cents (decimal_at value)

  abbrev pub wear_of : Option Decimal → Option ℕ
  wear_of none = none
  wear_of (some n) = if is_positive n && at_most_one n then some (float_of n) else none

  -- `_optional_seed`
  abbrev pub optional_seed : Option Json → Option ℕ
  optional_seed (some (number digits)) = json_int digits
  optional_seed _ = none

  -- The listing, once it has an ID, a time, a price and a title.
  abbrev pub offer_with :
      JsonFields
      → JsonFields
      → Option String
      → Option ℕ
      → Option ℕ
      → Option String
      → Option DmarketOffer
  offer_with entry cs2 (some offer_id) (some created) (some price_cents) (some title) =
      let phase = phase_version (field_of "phase" cs2) in
      let wear = wear_of (decimal_at (field_of "float" cs2)) in
      some (record {
        offer_id = offer_id;
        created_at_ms = created;
        price_cents = price_cents;
        offer_type = text_or_empty (field_of "offerType" entry);
        title = title;
        market_hash_name = build_versioned_name title phase;
        float_value = wear;
        paint_seed = with_wear wear (optional_seed (field_of "paintSeed" cs2));
        paint_index = non_zero (optional_seed (field_of "paintIndex" cs2));
        phase = phase;
        sticker_names = sticker_names_of (field_of "stickers" cs2);
      })
  offer_with entry cs2 offer_id created price_cents title = none

  abbrev pub offer_in : JsonFields → Option Json → Option DmarketOffer
  offer_in entry (some (object attributes)) =
      offer_with entry (mapping_or_empty (field_of "cs2" attributes))
        (non_empty (field_of "offerId" entry))
        (created_at_ms second_of (field_of "createdAt" entry))
        (cents_to_int (field_of "priceCents" entry)) (non_empty (field_of "title" attributes))
  offer_in entry _ = none

  unfoldable pub parse_offer : Json → Option DmarketOffer
  unfolding phase_version cents_to_int strip
  parse_offer (object entry) = offer_in entry (field_of "attributes" entry)
  parse_offer _ = none
