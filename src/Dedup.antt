-- ===== src/Dedup.antt =====
-- Tick deduplication of apps/listener/detection.py: what the listener remembers of each item and of
-- each listing on a venue, in LRU caches, and the tests that read it.
pub mod Bounds
pub mod Recall
use brand_sniper_monorepo.Prelude.{
  ℕ, ◌+◌, String, Bool, true, false, ◌&&◌, List, [], Option, none, some, ltb, length, map,
  if◌then◌else◌, ◌==◌, nat_eq, string_eq,
}
use brand_sniper_monorepo.Prelude.Dict.{Dict, lookup, insert}
use brand_sniper_monorepo.Lru.{put}
use brand_sniper_monorepo.Config.{Settings}
use brand_sniper_monorepo.Tick.{MarketTick, is_rest_snapshot}

abbrev pub dedup_window_seconds : ℕ
dedup_window_seconds = 300

pub record DedupEntry : Type 0 where
  pub timestamp : ℕ
  pub price_cents : ℕ
  pub snapshot_price_cents : Option ℕ
  pub snapshot_windowed_at : Option ℕ

pub record DedupCache : Type 0 where
  pub venues : Dict String (Dict String DedupEntry)
  pub listing_prices : Dict String (Dict String ℕ)

abbrev pub empty : DedupCache
empty = record { venues = []; listing_prices = [] }

-- `d.get(k, {})`, which is also what `setdefault` gives.
abbrev pub venue_dict {ℓ} : {V : Type ℓ} → String → Dict String (Dict String V) → Dict String V
venue_dict venue d = elim (lookup venue d) [ none ↦ [] | some entries ↦ entries ]

-- `DedupCache.get`
unfoldable pub get : MarketTick → DedupCache → Option DedupEntry
get tick cache = lookup tick.market_hash_name (venue_dict tick.venue cache.venues)

-- `DedupCache.put`: the cache, and how many of the venue's entries were evicted.
unfoldable pub put_entry : Settings → MarketTick → DedupEntry → DedupCache → DedupCache × ℕ
put_entry cfg tick entry cache =
    let (entries, evicted) =
      put cfg.dedup_cache_max_size tick.market_hash_name entry
        (venue_dict tick.venue cache.venues) in
    (record cache { venues = insert tick.venue entries cache.venues }, evicted)

price_of_listing : MarketTick → Option String → DedupCache → Option ℕ
price_of_listing tick none cache = none
price_of_listing tick (some listing_id) cache =
    lookup listing_id (venue_dict tick.venue cache.listing_prices)

-- `DedupCache.listing_price`
unfoldable pub listing_price : MarketTick → DedupCache → Option ℕ
unfolding price_of_listing
listing_price tick cache = price_of_listing tick tick.listing_id cache

pub remember_listing : Settings → MarketTick → Option String → DedupCache → DedupCache
remember_listing cfg tick none cache = cache
remember_listing cfg tick (some listing_id) cache =
    let (prices, evicted) =
      put cfg.dedup_cache_max_size listing_id tick.price_cents
        (venue_dict tick.venue cache.listing_prices) in
    record cache { listing_prices = insert tick.venue prices cache.listing_prices }

-- `DedupCache.put_listing_price`
unfoldable pub put_listing_price : Settings → MarketTick → DedupCache → DedupCache
unfolding remember_listing
put_listing_price cfg tick cache = remember_listing cfg tick tick.listing_id cache

-- `DedupCache.size`
unfoldable pub size : String → DedupCache → ℕ
size venue cache = length (venue_dict venue cache.venues)

-- `DedupCache.items`, least recently used first.
unfoldable pub items : String → DedupCache → List String
items venue cache = map (λ e. e.0) (venue_dict venue cache.venues)

-- `price == a`, where `a` may be None.
abbrev pub is_price : ℕ → Option ℕ → Bool
is_price price none = false
is_price price (some other) = price == other

-- The rule for a tick that names no listing.
abbrev pub repeats_entry : MarketTick → Option DedupEntry → Bool
repeats_entry tick none = false
repeats_entry tick (some entry) =
    tick.price_cents == entry.price_cents
    && ltb tick.timestamp (entry.timestamp + dedup_window_seconds)

unfoldable pub is_duplicate : MarketTick → DedupCache → Bool
unfolding listing_price get
is_duplicate tick cache = elim tick.listing_id [
  | some listing_id ↦ is_price tick.price_cents (listing_price tick cache)
  | none ↦ repeats_entry tick (get tick cache)
]

abbrev pub snapshot_price : Option DedupEntry → Option ℕ
snapshot_price none = none
snapshot_price (some entry) = entry.snapshot_price_cents

abbrev pub windowed_at : Option DedupEntry → Option ℕ
windowed_at none = none
windowed_at (some entry) = entry.snapshot_windowed_at

unfoldable pub is_unchanged_snapshot : MarketTick → DedupCache → Bool
unfolding get
is_unchanged_snapshot tick cache =
    is_rest_snapshot tick && is_price tick.price_cents (snapshot_price (get tick cache))

-- The entry that `update_dedup_cache` builds from the previous one.
unfoldable pub next_entry : MarketTick → Bool → Option DedupEntry → DedupEntry
next_entry tick enters_window previous = record {
  timestamp = tick.timestamp;
  price_cents = tick.price_cents;
  snapshot_price_cents =
      if is_rest_snapshot tick then some tick.price_cents else snapshot_price previous;
  snapshot_windowed_at =
      if is_rest_snapshot tick && enters_window then some tick.timestamp else windowed_at previous;
}

unfoldable pub update_dedup_cache : Settings → MarketTick → Bool → DedupCache → DedupCache
unfolding put_entry put_listing_price get next_entry
update_dedup_cache cfg tick enters_window cache =
    put_listing_price cfg tick
      (put_entry cfg tick (next_entry tick enters_window (get tick cache)) cache).0
