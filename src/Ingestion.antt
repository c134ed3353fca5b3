-- ===== src/Ingestion.antt =====
-- What the backend stores (apps/backend/main.py): bulk batches once by their ID, the items they name,
-- and simulated trades once by the purchase indexes of `simulated_trades` (shared_utils/models.py). A
-- request's transaction commits whole; a row keeps the record that it stores. The digest of a payload
-- is a parameter, and so is the type of a name, which parse_item_meta of Names gives. An item's ID is new when its name is.
pub mod Buys
pub mod ItemIds
pub mod Ledger
pub mod Once
use brand_sniper_monorepo.Prelude.{
  ℕ, ◌+◌, String, Bool, true, false, not, ◌&&◌, ◌||◌, List, [], ◌∷◌, ◌++◌, Option, none, some,
  if◌then◌else◌, length, map, ◌==◌, nat_eq, string_eq,
}
use brand_sniper_monorepo.Prelude.Dict.{Dict, lookup, insert}
use brand_sniper_monorepo.Prelude.Int.{ℤ}
use brand_sniper_monorepo.Prelude.Result.{Result, ok, err, conflict, ◌>>=◌}
use brand_sniper_monorepo.Tick.Records.{BatchRecord}

-- A row of `market_items`, and one of `live_market_ticks`.
pub record Item : Type 0 where
  pub id : ℕ
  pub item_type : String

pub record Items : Type 0 where
  pub rows : Dict String Item
  pub next_id : ℕ

pub record TickRow : Type 0 where
  pub item_id : ℕ
  pub venue : String
  pub tick : BatchRecord

-- A row of `simulated_trades`; its time as the number of the day.
pub record Trade : Type 0 where
  pub item_id : ℕ
  pub venue : String
  pub purchase_price_cents : ℕ
  pub estimated_profit_cents : Option ℤ
  pub listing_id : Option String
  pub day : ℕ

pub record BulkPayload (E : Type 0) : Type 0 where
  pub batch_id : Option String
  pub venue : String
  pub ticks : List BatchRecord
  pub feed_events : List E

pub record TradePayload : Type 0 where
  pub venue : String
  pub market_hash_name : String
  pub purchase_price_cents : ℕ
  pub estimated_profit_cents : Option ℤ
  pub listing_id : Option String

pub record Database (E : Type 0) : Type 0 where
  pub items : Items
  -- `ingestion_batches`: the digest of each batch's payload.
  pub batches : Dict String String
  pub tick_rows : List TickRow
  pub event_rows : List (String × E)
  pub trades : List Trade

pub record Backend (E : Type 0) : Type 0 where
  pub database : Database E
  pub item_cache : Dict String ℕ

pub data Answer : Type 0 where
  success : ℕ → ℕ → Answer
  skipped duplicate already_recorded trade_recorded : Answer

-- `insert(...).on_conflict_do_update(...)` of one name: the table, and the item's ID.
abbrev pub with_item : String → String → Option Item → Items → Items × ℕ
with_item name item_type none items = (
  record {
    rows = insert name (record { id = items.next_id; item_type = item_type }) items.rows;
    next_id = items.next_id + 1;
  },
  items.next_id,
)
with_item name item_type (some item) items = (
  record items { rows = insert name (record item { item_type = item_type }) items.rows },
  item.id,
)

-- `dict.update` with one that holds each key once.
abbrev pub update {ℓ} : {V : Type ℓ} → Dict String V → Dict String V → Dict String V
update [] d = d
update ((k, v) ∷ more) d = update more (insert k v d)

-- The unique indexes on `simulated_trades`: two trades that may not both stand.
abbrev pub same_text : Option String → Option String → Bool
same_text (some a) (some b) = a == b
same_text none b = false
same_text (some a) none = false

abbrev pub is_snapshot_buy : Trade → Bool
is_snapshot_buy trade = elim trade.listing_id [ none ↦ true | some listing_id ↦ false ]

abbrev pub same_buy : Trade → Trade → Bool
same_buy a b =
    (a.venue == b.venue && a.item_id == b.item_id)
    && (a.purchase_price_cents == b.purchase_price_cents && a.day == b.day)

abbrev pub clashes : Trade → Trade → Bool
clashes a b =
    (a.venue == b.venue && same_text a.listing_id b.listing_id)
    || ((is_snapshot_buy a && is_snapshot_buy b) && same_buy a b)

abbrev pub any : (Trade → Bool) → List Trade → Bool
any p [] = false
any p (trade ∷ trades) = p trade || any p trades

-- `snapshot_already_bought`: any buy of the item at that price on the venue that day.
unfoldable pub snapshot_already_bought : Trade → List Trade → Bool
snapshot_already_bought trade trades = any (same_buy trade) trades

unfoldable pub insert_trade : Trade → List Trade → List Trade × Bool
unfolding snapshot_already_bought
insert_trade trade trades =
    if is_snapshot_buy trade && snapshot_already_bought trade trades
    then (trades, false)
    else if any (clashes trade) trades
    then (trades, false)
    else (trades ++ trade ∷ [], true)

abbrev pub trade_of : TradePayload → ℕ → ℕ → Trade
trade_of payload item_id day = record {
  item_id = item_id;
  venue = payload.venue;
  purchase_price_cents = payload.purchase_price_cents;
  estimated_profit_cents = payload.estimated_profit_cents;
  listing_id = payload.listing_id;
  day = day;
}

module _ (item_type_of : String → String) where
  abbrev pub resolve :
      String → Dict String ℕ → Items → Option ℕ → Option ℕ → (Items × Dict String ℕ) × ℕ
  resolve name pending items (some id) held = ((items, pending), id)
  resolve name pending items none (some id) = ((items, pending), id)
  resolve name pending items none none =
      let (after, id) = with_item name (item_type_of name) (lookup name items.rows) items in
      ((after, insert name id pending), id)

  -- `get_or_create_item_id`
  unfoldable pub get_or_create_item_id :
      Dict String ℕ → String → Items × Dict String ℕ → (Items × Dict String ℕ) × ℕ
  get_or_create_item_id cache name (items, pending) =
      resolve name pending items (lookup name cache) (lookup name pending)

  -- The loop over the ticks.
  unfoldable pub tick_rows_of :
      Dict String ℕ
      → String
      → List BatchRecord
      → Items × Dict String ℕ
      → (Items × Dict String ℕ) × List TickRow
  unfolding get_or_create_item_id
  tick_rows_of cache venue [] s = (s, [])
  tick_rows_of cache venue (tick ∷ ticks) s =
      let (next, id) = get_or_create_item_id cache tick.market_hash_name s in
      let (last, rows) = tick_rows_of cache venue ticks next in
      (last, record { item_id = id; venue = venue; tick = tick } ∷ rows)

  module _ {E : Type 0} (digest : BulkPayload E → String) where
    abbrev pub register_as :
        String → String → Dict String String → Option String → Result (Dict String String × Bool)
    register_as id sum batches none = ok (insert id sum batches, true)
    register_as id sum batches (some held) =
        if held == sum then ok (batches, false) else err conflict

    abbrev pub register_id :
        BulkPayload E → Option String → Dict String String → Result (Dict String String × Bool)
    register_id payload none batches = ok (batches, true)
    register_id payload (some id) batches =
        register_as id (digest payload) batches (lookup id batches)

    -- `_register_ingestion_batch`: the ledger, and whether the batch is new.
    unfoldable pub register_ingestion_batch :
        BulkPayload E → Dict String String → Result (Dict String String × Bool)
    register_ingestion_batch payload batches = register_id payload payload.batch_id batches

    abbrev pub is_blank_payload : BulkPayload E → Bool
    is_blank_payload payload = length payload.ticks + length payload.feed_events == 0

    -- The rows of a new batch, and its pending items after the commit.
    abbrev pub store_payload : BulkPayload E → Dict String String → Backend E → Backend E
    store_payload payload batches backend =
        let db = backend.database in
        let ((items, pending), rows) =
          tick_rows_of backend.item_cache payload.venue payload.ticks (db.items, []) in
        record {
          database = record db {
            items = items;
            batches = batches;
            tick_rows = db.tick_rows ++ rows;
            event_rows = db.event_rows ++ map (λ event. (payload.venue, event)) payload.feed_events;
          };
          item_cache = update pending backend.item_cache;
        }

    abbrev pub registered :
        BulkPayload E → Backend E → Dict String String × Bool → Backend E × Answer
    registered payload backend (batches, false) = (backend, duplicate)
    registered payload backend (batches, true) =
        if is_blank_payload payload
        then (record backend { database = record backend.database { batches = batches } }, skipped)
        else (
          store_payload payload batches backend,
          success (length payload.ticks) (length payload.feed_events),
        )

    abbrev pub committed :
        BulkPayload E → Backend E → Result (Dict String String × Bool) → Backend E × Result Answer
    committed payload backend (err e) = (backend, err e)
    committed payload backend (ok r) =
        let (after, answer) = registered payload backend r in (after, ok answer)

    -- `process_bulk_ingestion`; an error rolls the transaction back.
    unfoldable pub process_bulk_ingestion : BulkPayload E → Backend E → Backend E × Result Answer
    unfolding register_ingestion_batch tick_rows_of
    process_bulk_ingestion payload backend =
        committed payload backend (register_ingestion_batch payload backend.database.batches)

  -- `ingest_simulated_trade`
  unfoldable pub ingest_simulated_trade :
      {E : Type 0} → TradePayload → ℕ → Backend E → Backend E × Answer
  unfolding get_or_create_item_id insert_trade
  ingest_simulated_trade payload day backend =
      let db = backend.database in
      let ((items, pending), id) =
        get_or_create_item_id backend.item_cache payload.market_hash_name (db.items, []) in
      let (trades, recorded) = insert_trade (trade_of payload id day) db.trades in
      (
        record {
          database = record db { items = items; trades = trades };
          item_cache = update pending backend.item_cache;
        },
        if recorded then trade_recorded else already_recorded,
      )
