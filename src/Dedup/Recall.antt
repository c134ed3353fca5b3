-- ===== src/Dedup/Recall.antt =====
-- What the tests say of the tick that follows a recorded one.
use brand_sniper_monorepo.Prelude.{
  ◌+◌, ◌<◌, ◌≡◌, refl, ap, ◌∙◌, String, Bool, true, false, ◌&&◌, List, [], ◌∷◌, All, Option, none,
  some, ltb, ◌==◌, nat_eq, string_eq, if◌then◌else◌,
}
use brand_sniper_monorepo.Prelude.Classes.{beq_refl}
use brand_sniper_monorepo.Prelude.Dict.{Dict, insert}
use brand_sniper_monorepo.Lru.{put, lookup-put_self}
use brand_sniper_monorepo.Config.{Settings}
use brand_sniper_monorepo.Tick.{MarketTick, is_rest_snapshot}
use brand_sniper_monorepo.Dedup.Bounds.{venue_dict-insert}
use brand_sniper_monorepo.Dedup.{
  DedupCache, venue_dict, get, put_entry, update_dedup_cache, next_entry, remember_listing,
  is_duplicate, repeats_entry, dedup_window_seconds, is_price, is_unchanged_snapshot,
  snapshot_price,
}

-- Two ticks of one item on one venue.
pub record SameItem (t u : MarketTick) : Type 0 where
  pub venue : t.venue ≡ u.venue
  pub name : t.market_hash_name ≡ u.market_hash_name

get-same : (cache : DedupCache) (t u : MarketTick) → SameItem t u → get t cache ≡ get u cache
unfolding get
get-same cache t u same = rw (same.venue, same.name)

venue_dict-insert_self {ℓ} :
    {V : Type ℓ} (v : String) (e : Dict String V) (d : Dict String (Dict String V))
    → venue_dict v (insert v e d) ≡ e
venue_dict-insert_self v e d = rw (venue_dict-insert v v e d, beq_refl v)

remember_listing-venues :
    (cfg : Settings) (t : MarketTick) (id : Option String) (cache : DedupCache)
    → (remember_listing cfg t id cache).venues ≡ cache.venues
unfolding remember_listing
remember_listing-venues cfg t none cache = refl
remember_listing-venues cfg t (some id) cache = refl

module _ (cfg : Settings) (t : MarketTick) (enters : Bool) (cache : DedupCache)
    (room : 0 < cfg.dedup_cache_max_size) where
  -- The item's entry is the one just built.
  get-update :
      (u : MarketTick)
      → SameItem t u
      → get u (update_dedup_cache cfg t enters cache) ≡ some (next_entry t enters (get t cache))
  unfolding get update_dedup_cache
  get-update u same =
      rw
        (
          remember_listing-venues cfg t t.listing_id
              (put_entry cfg t (next_entry t enters (get t cache)) cache).0,
          ← same.venue,
          ← same.name,
        )
        (rw
          (venue_dict-insert_self t.venue
            (put cfg.dedup_cache_max_size t.market_hash_name (next_entry t enters (get t cache))
              (venue_dict t.venue cache.venues)).0
            cache.venues)
          (lookup-put_self cfg.dedup_cache_max_size t.market_hash_name
            (next_entry t enters (get t cache)) (venue_dict t.venue cache.venues) room))

  -- After a tick is recorded in a cache with room, a tick of the same item that names no listing is
  -- a duplicate exactly when it has the recorded price and is less than five minutes younger.
  pub is_duplicate-update_unlisted :
      (u : MarketTick)
      → SameItem t u
      → u.listing_id ≡ none
      → is_duplicate u (update_dedup_cache cfg t enters cache)
        ≡ (u.price_cents == t.price_cents && ltb u.timestamp (t.timestamp + dedup_window_seconds))
  unfolding is_duplicate next_entry
  is_duplicate-update_unlisted u same unlisted =
      rw (unlisted, is_duplicate) (ap (repeats_entry u) (get-update u same))

  -- After a tick is recorded in a cache with room, a tick of the same item is an unchanged snapshot
  -- exactly when it is a REST snapshot at the price of the item's last snapshot, which the recorded
  -- tick is if it is one.
  pub is_unchanged_snapshot-update :
      (u : MarketTick)
      → SameItem t u
      → is_unchanged_snapshot u (update_dedup_cache cfg t enters cache) ≡ (
          is_rest_snapshot u
          && is_price u.price_cents
              (if is_rest_snapshot t then some t.price_cents else snapshot_price (get t cache)))
  unfolding is_unchanged_snapshot next_entry
  is_unchanged_snapshot-update u same =
      ap (λ e. is_rest_snapshot u && is_price u.price_cents (snapshot_price e)) (get-update u same)

  -- After a listing is recorded in a cache with room, the same listing is a duplicate exactly at the
  -- recorded price.
  pub is_duplicate-update_listed :
      (u : MarketTick) (id : String)
      → t.venue ≡ u.venue
      → t.listing_id ≡ some id
      → u.listing_id ≡ some id
      → is_duplicate u (update_dedup_cache cfg t enters cache) ≡ (u.price_cents == t.price_cents)
  unfolding is_duplicate update_dedup_cache
  is_duplicate-update_listed u id same tid uid =
      rw (uid, tid, ← same)
        (rw (
          venue_dict-insert_self t.venue
              (put cfg.dedup_cache_max_size id t.price_cents
                (venue_dict t.venue cache.listing_prices)).0
              cache.listing_prices,
          lookup-put_self cfg.dedup_cache_max_size id t.price_cents
              (venue_dict t.venue cache.listing_prices) room,
        ))

-- Recording ticks one after the other; all enter the window.
unfoldable pub record_all : Settings → List MarketTick → DedupCache → DedupCache
record_all cfg [] cache = cache
record_all cfg (t ∷ ts) cache = record_all cfg ts (update_dedup_cache cfg t true cache)

-- A feed listing of the item.
abbrev pub IsListingOf : MarketTick → MarketTick → Type 0
IsListingOf u t = SameItem t u × (is_rest_snapshot t ≡ false)

snapshot_price-record_all :
    (cfg : Settings) (u : MarketTick) (ts : List MarketTick) (cache : DedupCache)
    → 0 < cfg.dedup_cache_max_size
    → All (IsListingOf u) ts
    → snapshot_price (get u (record_all cfg ts cache)) ≡ snapshot_price (get u cache)
unfolding record_all next_entry
snapshot_price-record_all cfg u [] cache room h = refl
snapshot_price-record_all cfg u (t ∷ ts) cache room ((same, listed), rest) =
    snapshot_price-record_all cfg u ts (update_dedup_cache cfg t true cache) room rest
    ∙ ap snapshot_price (get-update cfg t true cache room u same)
    ∙ rw listed (ap snapshot_price (get-same cache t u same))

-- However many feed listings of the item were recorded since its last REST snapshot, whether that
-- entered the window or not (in a cache with room, no other item between them), the next snapshot is unchanged exactly when it has that
-- snapshot's price.
pub is_unchanged_snapshot-record_all :
    (cfg : Settings) (t u : MarketTick) (enters : Bool) (ts : List MarketTick) (cache : DedupCache)
    → 0 < cfg.dedup_cache_max_size
    → SameItem t u
    → is_rest_snapshot t ≡ true
    → is_rest_snapshot u ≡ true
    → All (IsListingOf u) ts
    → is_unchanged_snapshot u (record_all cfg ts (update_dedup_cache cfg t enters cache))
      ≡ (u.price_cents == t.price_cents)
unfolding is_unchanged_snapshot next_entry
is_unchanged_snapshot-record_all cfg t u enters ts cache room same st su listings = rw (
  su,
  snapshot_price-record_all cfg u ts (update_dedup_cache cfg t enters cache) room listings,
  get-update cfg t enters cache room u same,
  st,
)
