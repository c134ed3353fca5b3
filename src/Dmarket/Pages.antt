-- ===== src/Dmarket/Pages.antt =====
-- Pages of DMarket's listings and their cursors (parse_offers_page, offers_cursor, cursor_created_at_ms
-- and the reduced fees of packages/shared_utils/src/shared_utils/dmarket.py). A cursor's text is base64
-- of JSON: `encode` and `decode` are the two libraries' together, and `decode` is none where one raises.
use brand_sniper_monorepo.Prelude.{
  ℕ, String, ◌≡◌, refl, List, [], ◌∷◌, Option, none, some, if◌then◌else◌, ltb, string_eq, ◌==◌,
}
use brand_sniper_monorepo.Prelude.Dict.{Dict, lookup}
use brand_sniper_monorepo.Prelude.Json.{
  Json, number, text, array, object, JsonList, no_values, value_then, field_of,
}
use brand_sniper_monorepo.Dmarket.{OffersPage}

abbrev pub list_of : JsonList → List Json
list_of no_values = []
list_of (value_then v vs) = v ∷ list_of vs

abbrev pub entries_or_empty : Option Json → List Json
entries_or_empty (some (array items)) = list_of items
entries_or_empty _ = []

abbrev pub cursor_or_none : Option Json → Option String
cursor_or_none (some (text cursor)) = if cursor == "" then none else some cursor
cursor_or_none _ = none

-- parse_offers_page
unfoldable pub parse_offers_page : Json → OffersPage
parse_offers_page (object payload) = record {
  entries = entries_or_empty (field_of "items" payload);
  cursor = cursor_or_none (field_of "cursor" payload);
}
parse_offers_page _ = record { entries = []; cursor = none }

-- offers_cursor
unfoldable pub offers_cursor : (ℕ → String) → (Json → String) → ℕ → String → String
offers_cursor int_text encode created_at_ms offer_id =
    encode
      (array (value_then (number (int_text created_at_ms)) (value_then (text offer_id) no_values)))

-- The first of the values, if it is an int from zero.
abbrev pub created_in : (String → Option ℕ) → Option Json → Option ℕ
created_in int_of (some (array (value_then (number digits) _))) = int_of digits
created_in int_of _ = none

-- cursor_created_at_ms
unfoldable pub cursor_created_at_ms :
    (String → Option ℕ) → (String → Option Json) → String → Option ℕ
cursor_created_at_ms int_of decode cursor = created_in int_of (decode cursor)

-- A cursor that is built for a time names that time, where the libraries read what they wrote.
pub cursor_created_at_ms-offers_cursor :
    (int_text : ℕ → String) (int_of : String → Option ℕ) (encode : Json → String)
    (decode : String → Option Json) (created_at_ms : ℕ) (offer_id : String)
    → ((n : ℕ) → int_of (int_text n) ≡ some n)
    → ((position : Json) → decode (encode position) ≡ some position)
    → cursor_created_at_ms int_of decode (offers_cursor int_text encode created_at_ms offer_id)
      ≡ some created_at_ms
unfolding cursor_created_at_ms offers_cursor
cursor_created_at_ms-offers_cursor int_text int_of encode decode created_at_ms offer_id reads
      round =
    let position =
      array (value_then (number (int_text created_at_ms)) (value_then (text offer_id) no_values)) in
    rw (round position, reads created_at_ms) refl

pub record ReducedFee : Type 0 where
  pub fee_bps : ℕ
  pub max_price_cents : Option ℕ

pub record FeeSchedule : Type 0 where
  pub default_fee_bps : ℕ
  pub reduced : Dict String ReducedFee

abbrev pub reduced_at : ℕ → ℕ → ℕ → Option ℕ → ℕ
reduced_at price_cents default_bps fee_bps none = fee_bps
reduced_at price_cents default_bps fee_bps (some cap_cents) =
    if ltb cap_cents price_cents then default_bps else fee_bps

abbrev pub reduced_or_default : ℕ → ℕ → Option ReducedFee → ℕ
reduced_or_default price_cents default_bps none = default_bps
reduced_or_default price_cents default_bps (some fee) =
    reduced_at price_cents default_bps fee.fee_bps fee.max_price_cents

-- `FeeSchedule.fee_bps`
unfoldable pub schedule_fee_bps : FeeSchedule → String → ℕ → ℕ
schedule_fee_bps schedule title price_cents =
    reduced_or_default price_cents schedule.default_fee_bps (lookup title schedule.reduced)
