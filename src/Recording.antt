-- ===== src/Recording.antt =====
-- The recording filter of the venues whose listings are too many to record in full, and the batches
-- of raw events (apps/listener/scrapers/listing_filter.py).
pub mod Batches
pub mod Complete
use brand_sniper_monorepo.Prelude.{
  ℕ, ◌+◌, ◌-◌, ◌*◌, String, Bool, true, false, ◌&&◌, ◌||◌, List, [], ◌∷◌, ◌++◌, Option, none, some,
  ltb, leb, length, if◌then◌else◌, string_eq, ◌==◌,
}
use brand_sniper_monorepo.Prelude.Dict.{Dict, lookup, insert}
use brand_sniper_monorepo.Tick.{MarketTick, Sticker}
use brand_sniper_monorepo.Edge.{Baseline, PriceText, cents, not_a_number, EdgeStore}
use brand_sniper_monorepo.Rules.{sticker_value_min_cents, sticker_premium_max_percent}

pub data Outcome : Type 0 where
  recorded no_baseline above_resale_price : Outcome

pub record ResalePrices : Type 0 where
  pub venue : String
  pub build_id : Option String
  pub latest_price_cents : Dict String ℕ
  pub sticker_prices_cents : Dict String ℕ

abbrev pub dict_at {ℓ} : {V : Type ℓ} → String → Dict String (Dict String V) → Dict String V
dict_at key hashes = elim (lookup key hashes) [ none ↦ [] | some hash ↦ hash ]

-- The loop over the baselines: items with a positive latest price.
abbrev pub positive_price : Option ℕ → Option ℕ
positive_price none = none
positive_price (some price) = if ltb 0 price then some price else none

abbrev pub add_if {ℓ} : {V : Type ℓ} → String → Option V → Dict String V → Dict String V
add_if name none d = d
add_if name (some v) d = insert name v d

-- A loop that stores what it can read of each entry and passes over the rest.
unfoldable pub load {ℓ κ} :
    {A : Type ℓ} {V : Type κ} → (A → Option V) → Dict String A → Dict String V → Dict String V
load read [] acc = acc
load read ((name, a) ∷ rest) acc = load read rest (add_if name (read a) acc)

unfoldable pub load_prices : Dict String Baseline → Dict String ℕ
load_prices baselines = load (λ document. positive_price document.latest_price_cents) baselines []

abbrev pub number_of : PriceText → Option ℕ
number_of (cents n) = some n
number_of not_a_number = none

-- The sticker prices that `int` reads.
unfoldable pub load_stickers : Dict String PriceText → Dict String ℕ
load_stickers prices = load number_of prices []

abbrev same_build : String → Option String → Bool
same_build id none = false
same_build id (some held) = id == held

-- `ResalePrices.refresh`, given the build in the edge Redis and its hashes: the prices now held, and
-- whether a build was loaded.
unfoldable pub refresh : Option String → EdgeStore → ResalePrices → ResalePrices × Bool
unfolding load_prices load_stickers
refresh none store held = (held, false)
refresh (some id) store held = if same_build id held.build_id then (held, false) else (
  record held {
    build_id = some id;
    latest_price_cents = load_prices (dict_at held.venue store.baselines);
    sticker_prices_cents = load_stickers (dict_at held.venue store.sticker_prices);
  },
  true,
)

abbrev pub count_or_zero : Option ℕ → ℕ
count_or_zero none = 0
count_or_zero (some n) = n

-- `sticker.get("name", "")`
abbrev pub name_or_empty : Option String → String
name_or_empty none = ""
name_or_empty (some name) = name

unfoldable pub sum_held : Dict String ℕ → List Sticker → ℕ
sum_held prices [] = 0
sum_held prices (sticker ∷ stickers) =
    count_or_zero (lookup (name_or_empty sticker.name) prices) + sum_held prices stickers

unfoldable pub judge_at : ℕ → ℕ → ℕ → Outcome
judge_at price resale sticker_value =
    if ltb price resale
    then recorded
    else if ltb sticker_value_min_cents sticker_value
        && leb ((price - resale) * 100) (sticker_premium_max_percent * sticker_value)
    then recorded
    else above_resale_price

abbrev pub judge_found : ℕ → Option ℕ → ℕ → Outcome
judge_found price none sticker_value = no_baseline
judge_found price (some resale) sticker_value = judge_at price resale sticker_value

-- `ResalePrices.judge`
unfoldable pub judge : MarketTick → ResalePrices → Outcome
unfolding sum_held judge_at
judge tick held =
    judge_found tick.price_cents (lookup tick.market_hash_name held.latest_price_cents)
      (sum_held held.sticker_prices_cents tick.stickers)
