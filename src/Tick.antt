-- ===== src/Tick.antt =====
-- The listener's ticks (apps/listener/models.py): what a tick is, and the validators that keep its
-- kind and its times consistent. The price is the whole cents of `price_cents`; the float of the
-- wear is carried as an opaque number, since nothing here computes with it.
pub mod Kinds
pub mod Records
use brand_sniper_monorepo.Prelude.{
  ℕ, ◌*◌, ◌/◌, String, Bool, true, false, not, ◌||◌, List, Option, none, some, if◌then◌else◌, ◌==◌,
  nat_eq, string_eq,
}
use brand_sniper_monorepo.Prelude.Result.{Result, ok, err, value_error, ◌>>=◌, ◌>>◌, raise_if}

pub data TickKind : Type 0 where
  rest_snapshot listed sold other_feed_event : TickKind

-- `TickKind.of_feed_event`
unfoldable pub of_feed_event : String → TickKind
of_feed_event event_type =
    if event_type == "listed"
    then listed
    else if event_type == "sold"
    then sold
    else other_feed_event

abbrev pub kind_eq : TickKind → TickKind → Bool
kind_eq rest_snapshot rest_snapshot = true
kind_eq listed listed = true
kind_eq sold sold = true
kind_eq other_feed_event other_feed_event = true
kind_eq _ _ = false

-- An applied sticker, by its `name` (none where the key is missing or null).
pub record Sticker : Type 0 where
  pub name : Option String

pub record MarketTick : Type 0 where
  pub venue : String
  pub kind : TickKind
  pub market_hash_name : String
  pub price_cents : ℕ
  pub timestamp : ℕ
  pub observed_at_ms : Option ℕ
  pub float_value : Option ℕ
  pub stickers : List Sticker
  pub event_type : Option String
  pub listing_id : Option String
  pub pattern_seed : Option ℕ
  pub paint_index : Option ℕ
  pub listing_url : Option String

abbrev pub expected_kind : Option String → TickKind
expected_kind none = rest_snapshot
expected_kind (some event_type) = of_feed_event event_type

abbrev pub in_second : Option ℕ → ℕ → Bool
in_second none timestamp = true
in_second (some ms) timestamp = ms / 1000 == timestamp

-- The two model validators, in their order.
unfoldable pub validate : MarketTick → Result MarketTick
validate tick = do
  raise_if (not (kind_eq tick.kind (expected_kind tick.event_type))) value_error
  raise_if (not (in_second tick.observed_at_ms tick.timestamp)) value_error
  ok tick

-- `observed_at_epoch_ms`
abbrev pub ms_or : Option ℕ → ℕ → ℕ
ms_or none timestamp = timestamp * 1000
ms_or (some ms) timestamp = ms

unfoldable pub observed_at_epoch_ms : MarketTick → ℕ
observed_at_epoch_ms tick = ms_or tick.observed_at_ms tick.timestamp

unfoldable pub is_rest_snapshot : MarketTick → Bool
is_rest_snapshot tick = kind_eq tick.kind rest_snapshot

-- `kind in (REST_SNAPSHOT, LISTED)`
abbrev pub price_kind : TickKind → Bool
price_kind kind = kind_eq kind rest_snapshot || kind_eq kind listed

unfoldable pub feeds_price_window : MarketTick → Bool
feeds_price_window tick = price_kind tick.kind
