-- ===== src/Scenarios/Stored.antt =====
-- A batch and a trade that the backend is sent twice.
use brand_sniper_monorepo.Prelude.{
  ℕ, ◌≡◌, refl, inr, String, List, [], ◌∷◌, none, some, if◌then◌else◌, ◌==◌, string_eq,
}
use brand_sniper_monorepo.Prelude.Int.{pos}
use brand_sniper_monorepo.Prelude.Result.{ok, err, conflict}
use brand_sniper_monorepo.Tick.Records.{BatchRecord}
use brand_sniper_monorepo.Ingestion.{
  BulkPayload, TradePayload, Backend, success, duplicate, already_recorded, process_bulk_ingestion,
  ingest_simulated_trade,
}
use brand_sniper_monorepo.Names.{parse_item_meta}
use brand_sniper_monorepo.Ingestion.Ledger.{
  Request, bulk_request, trade_request, serve_all, process_bulk_ingestion-again,
}
use brand_sniper_monorepo.Ingestion.Buys.{IsUnique}
use brand_sniper_monorepo.Ingestion.Once.{
  ingest_simulated_trade-IsUnique, ingest_simulated_trade-again,
}

abbrev item_type_of : String → String
item_type_of name = (parse_item_meta (λ text. text) name).1

abbrev tick : BatchRecord
tick = record {
  market_hash_name = "AK-47 | Redline";
  price_cents = 1500;
  timestamp = 1000;
  observed_at_ms = 1000250;
  event_type = some "listed";
  listing_id = some "17";
  float_value = none;
  pattern = none;
  paint_index = none;
  listing_url = none;
  stickers = some [];
}

abbrev batch : BulkPayload ℕ
batch = record {
  batch_id = some "b1";
  venue = "skinport";
  ticks = tick ∷ tick ∷ [];
  feed_events = 7 ∷ [];
}

-- The same ID with other content.
abbrev other : BulkPayload ℕ
other = record { batch_id = some "b1"; venue = "skinport"; ticks = tick ∷ []; feed_events = [] }

-- A digest that tells the two payloads apart by their venue and their number of events.
abbrev digest : BulkPayload ℕ → String
digest payload = elim payload.feed_events [ [] ↦ "none" | _ ∷ _ ↦ "some" ]

abbrev new_backend : Backend ℕ
new_backend = record {
  database = record {
    items = record { rows = []; next_id = 1 };
    batches = [];
    tick_rows = [];
    event_rows = [];
    trades = [];
  };
  item_cache = [];
}

abbrev after_batch : Backend ℕ
after_batch = (process_bulk_ingestion item_type_of digest batch new_backend).0

accepted :
    process_bulk_ingestion item_type_of digest batch new_backend ≡ (after_batch, ok (success 2 1))
unfolding process_bulk_ingestion
accepted = refl

abbrev trade : TradePayload
trade = record {
  venue = "skinport";
  market_hash_name = "AK-47 | Redline";
  purchase_price_cents = 1500;
  estimated_profit_cents = some (pos 64);
  listing_id = none;
}

-- Another batch and a trade come in between.
abbrev between : List (Request ℕ)
between = bulk_request (record batch { batch_id = some "b2" }) ∷ trade_request trade 20000 ∷ []

process_bulk_ingestion-again_example :
    process_bulk_ingestion item_type_of digest other
      (serve_all item_type_of ℕ digest between after_batch)
    ≡ (
      serve_all item_type_of ℕ digest between after_batch,
      (if digest batch == digest other then ok duplicate else err conflict),
    )
process_bulk_ingestion-again_example =
    process_bulk_ingestion-again item_type_of ℕ digest batch other new_backend after_batch
      (success 2 1) "b1" between refl refl accepted

ingest_simulated_trade-again_example :
    ingest_simulated_trade item_type_of trade 20000
      (ingest_simulated_trade item_type_of trade 20000 new_backend).0
    ≡ ((ingest_simulated_trade item_type_of trade 20000 new_backend).0, already_recorded)
ingest_simulated_trade-again_example =
    ingest_simulated_trade-again item_type_of ℕ trade 20000 20000 new_backend (inr refl)

ingest_simulated_trade-IsUnique_example :
    IsUnique (ingest_simulated_trade item_type_of trade 20000 new_backend).0.database.trades
ingest_simulated_trade-IsUnique_example =
    ingest_simulated_trade-IsUnique item_type_of ℕ trade 20000 new_backend tt
