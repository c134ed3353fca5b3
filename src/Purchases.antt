-- ===== src/Purchases.antt =====
-- What counts as one purchase (packages/shared_utils/src/shared_utils/purchases.py), and the
-- executor that buys each once (apps/listener/executor.py). A key is kept as its parts, not as the
-- text that joins them; a day is its number.
pub mod Once
use brand_sniper_monorepo.Prelude.{
  ℕ, String, Bool, true, false, ◌&&◌, List, [], ◌∷◌, Option, none, some, if◌then◌else◌, ◌==◌,
  nat_eq, string_eq, Eq, ◌≡◌, ◌↔◌, arith, eq_iff, not,
}
use brand_sniper_monorepo.Prelude.Dict.{Dict, insert, contains}
use brand_sniper_monorepo.Prelude.Int.{ℤ}
use brand_sniper_monorepo.Lru.{evict_oldest}

pub data PurchaseKey : Type 0 where
  listing_key : String → String → PurchaseKey
  snapshot_key : String → String → ℕ → ℕ → PurchaseKey

abbrev key_beq : PurchaseKey → PurchaseKey → Bool
key_beq (listing_key v i) (listing_key w j) = v == w && i == j
key_beq (snapshot_key v n p d) (snapshot_key w m q e) = (v == w && n == m) && (p == q && d == e)
key_beq _ _ = false

pub key_beq_iff : (a b : PurchaseKey) → (key_beq a b ≡ true) ↔ (a ≡ b)
key_beq_iff (listing_key v i) (listing_key w j) = ground (arith, eq_iff v w, eq_iff i j)
key_beq_iff (snapshot_key v n p d) (snapshot_key w m q e) = ground (arith, eq_iff v w, eq_iff n m)
key_beq_iff (listing_key v i) (snapshot_key w m q e) = ground arith
key_beq_iff (snapshot_key v n p d) (listing_key w j) = ground arith

instance abbrev pub key_eq : Eq PurchaseKey
key_eq = record { beq = key_beq; beq_iff = key_beq_iff }

pub record Purchase : Type 0 where
  pub venue : String
  pub market_hash_name : String
  pub purchase_price_cents : ℕ
  pub estimated_profit_cents : Option ℤ
  pub listing_id : Option String

unfoldable pub snapshot_purchase_key : Purchase → ℕ → PurchaseKey
snapshot_purchase_key p utc_day =
    snapshot_key p.venue p.market_hash_name p.purchase_price_cents utc_day

abbrev key_for : String → Option String → PurchaseKey → PurchaseKey
key_for venue none snapshot = snapshot
key_for venue (some listing_id) snapshot = listing_key venue listing_id

-- `purchase_keys`: the key, and the snapshot key.
unfoldable pub purchase_keys : Purchase → ℕ → PurchaseKey × PurchaseKey
unfolding snapshot_purchase_key
purchase_keys p utc_day = (
  key_for p.venue p.listing_id (snapshot_purchase_key p utc_day),
  snapshot_purchase_key p utc_day,
)

abbrev pub Bought : Type 0
Bought = Dict PurchaseKey (Unit {0})

abbrev pub bought_memory_size : ℕ
bought_memory_size = 10000

-- `_remember_purchase`: a key that is there keeps its place; the oldest leave over the size.
unfoldable pub remember_purchase : ℕ → PurchaseKey → Bought → Bought
remember_purchase memory_size key bought = (evict_oldest memory_size 0 (insert key tt bought)).0

-- What became of an `execute` call; the order's own outcome is the environment's.
pub data Execution : Type 0 where
  skipped placed failed : Execution

remember_both : ℕ → PurchaseKey × PurchaseKey → Bought → Bought
unfolding remember_purchase
remember_both memory_size (key, snapshot) bought =
    let once = remember_purchase memory_size key bought in
    if key == snapshot then once else remember_purchase memory_size snapshot once

-- `ExecutionService.execute`. `accepts` says whether `place_order` returns or raises.
unfoldable pub execute : ℕ → (Purchase → Bool) → ℕ → Purchase → Bought → Bought × Execution
unfolding purchase_keys remember_both
execute memory_size accepts utc_day purchase bought =
    if contains (purchase_keys purchase utc_day).0 bought
    then (bought, skipped)
    else if accepts purchase
    then (remember_both memory_size (purchase_keys purchase utc_day) bought, placed)
    else (bought, failed)
