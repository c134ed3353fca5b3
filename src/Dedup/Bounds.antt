-- ===== src/Dedup/Bounds.antt =====
-- The caches stay within their size, and venues never evict one another.
use brand_sniper_monorepo.Prelude.{
  ℕ, ◌≤◌, ◌≡◌, refl, ap, ◌∙◌, ◌≢◌, String, Bool, Option, none, some, arith, length, ◌==◌, string_eq,
  eq_iff, if◌then◌else◌,
}
use brand_sniper_monorepo.Prelude.Dict.{Dict, insert, lookup-insert}
use brand_sniper_monorepo.Lru.{put, length-put}
use brand_sniper_monorepo.Config.{Settings}
use brand_sniper_monorepo.Tick.{MarketTick}
use brand_sniper_monorepo.Dedup.{
  DedupCache, DedupEntry, venue_dict, get, put_entry, update_dedup_cache, next_entry,
  remember_listing,
}

-- No venue's cache, of items or of listings, holds more than the cap.
pub record IsBounded (cfg : Settings) (cache : DedupCache) : Type 0 where
  pub entries : (venue : String) → length (venue_dict venue cache.venues) ≤ cfg.dedup_cache_max_size
  pub prices :
      (venue : String) → length (venue_dict venue cache.listing_prices) ≤ cfg.dedup_cache_max_size

pub venue_dict-insert {ℓ} :
    {V : Type ℓ} (v w : String) (e : Dict String V) (d : Dict String (Dict String V))
    → venue_dict w (insert v e d) ≡ (if v == w then e else venue_dict w d)
venue_dict-insert v w e d = ground (arith, lookup-insert v w e d)

-- Replacing one venue's entries by some within the cap keeps every venue within it.
length-venue_dict-insert {ℓ} :
    {V : Type ℓ} (n : ℕ) (v w : String) (e : Dict String V) (d : Dict String (Dict String V))
    → length e ≤ n
    → length (venue_dict w d) ≤ n
    → length (venue_dict w (insert v e d)) ≤ n
length-venue_dict-insert n v w e d h k = rw (venue_dict-insert v w e d) (ground arith)

put_entry-IsBounded :
    (cfg : Settings) (tick : MarketTick) (entry : DedupEntry) (cache : DedupCache)
    → IsBounded cfg cache
    → IsBounded cfg (put_entry cfg tick entry cache).0
unfolding put_entry
put_entry-IsBounded cfg tick entry cache h = record {
  entries = λ w.
      length-venue_dict-insert cfg.dedup_cache_max_size tick.venue w _ cache.venues
        (length-put cfg.dedup_cache_max_size tick.market_hash_name entry _) (h.entries w);
  prices = h.prices;
}

remember_listing-IsBounded :
    (cfg : Settings) (tick : MarketTick) (id : Option String) (cache : DedupCache)
    → IsBounded cfg cache
    → IsBounded cfg (remember_listing cfg tick id cache)
unfolding remember_listing
remember_listing-IsBounded cfg tick none cache h = h
remember_listing-IsBounded cfg tick (some id) cache h = record {
  entries = h.entries;
  prices = λ w.
      length-venue_dict-insert cfg.dedup_cache_max_size tick.venue w _ cache.listing_prices
        (length-put cfg.dedup_cache_max_size id tick.price_cents _) (h.prices w);
}

-- Recording a tick keeps every venue's caches of items and of listings within their cap.
pub update_dedup_cache-IsBounded :
    (cfg : Settings) (tick : MarketTick) (enters : Bool) (cache : DedupCache)
    → IsBounded cfg cache
    → IsBounded cfg (update_dedup_cache cfg tick enters cache)
unfolding update_dedup_cache
update_dedup_cache-IsBounded cfg tick enters cache h =
    remember_listing-IsBounded cfg tick tick.listing_id _
      (put_entry-IsBounded cfg tick (next_entry tick enters (get tick cache)) cache h)

-- The listing memory leaves the items alone, and writes its own venue only.
remember_listing_others :
    (cfg : Settings) (tick : MarketTick) (id : Option String) (cache : DedupCache) (w : String)
    → tick.venue ≢ w
    → ((remember_listing cfg tick id cache).venues ≡ cache.venues)
      × (venue_dict w (remember_listing cfg tick id cache).listing_prices
          ≡ venue_dict w cache.listing_prices)
unfolding remember_listing
remember_listing_others cfg tick none cache w ne = (refl, refl)
remember_listing_others cfg tick (some id) cache w ne = (
  refl,
  ground (
    arith,
    eq_iff tick.venue w,
    venue_dict-insert tick.venue w
        (put cfg.dedup_cache_max_size id tick.price_cents
          (venue_dict tick.venue cache.listing_prices)).0
        cache.listing_prices,
  ),
)

-- Recording a tick leaves what is remembered of every other venue as it was.
pub update_dedup_cache_others :
    (cfg : Settings) (tick : MarketTick) (enters : Bool) (cache : DedupCache) (w : String)
    → tick.venue ≢ w
    → (venue_dict w (update_dedup_cache cfg tick enters cache).venues ≡ venue_dict w cache.venues)
      × (venue_dict w (update_dedup_cache cfg tick enters cache).listing_prices
          ≡ venue_dict w cache.listing_prices)
unfolding update_dedup_cache
update_dedup_cache_others cfg tick enters cache w ne =
    let c : DedupCache = (put_entry cfg tick (next_entry tick enters (get tick cache)) cache).0 in
    let (same, prices) = remember_listing_others cfg tick tick.listing_id c w ne in
    (
      ap (venue_dict w) same
          ∙ ground (
            arith,
            eq_iff tick.venue w,
            venue_dict-insert tick.venue w
                (put cfg.dedup_cache_max_size tick.market_hash_name
                  (next_entry tick enters (get tick cache)) (venue_dict tick.venue cache.venues)).0
                cache.venues,
          ),
      prices,
    )
