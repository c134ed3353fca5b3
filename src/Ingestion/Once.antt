-- ===== src/Ingestion/Once.antt =====
-- The trade that a request sends is recorded once.
use brand_sniper_monorepo.Prelude.{
  ℕ, ◌≡◌, ◌≢◌, refl, ap, ◌∙◌, ◌⊎◌, String, Bool, List, [], Option, none, some, if◌then◌else◌, arith,
  inl, inr, string_eq, eq_iff, nat_eq, nat_beq_iff,
}
use brand_sniper_monorepo.Prelude.Dict.{Dict}
use brand_sniper_monorepo.Ingestion.{
  Trade, TradePayload, Backend, Answer, already_recorded, trade_recorded, insert_trade, trade_of,
  ingest_simulated_trade, get_or_create_item_id, update, Items,
}
use brand_sniper_monorepo.Ingestion.ItemIds.{get_or_create-cached, cached-get_or_create}
use brand_sniper_monorepo.Ingestion.Buys.{
  IsUnique, IsRepeat, insert_trade-IsUnique, insert_trade-again,
}

abbrev trade_naming : TradePayload → Option String → ℕ → ℕ → Trade
trade_naming p listing_id id day = trade_of (record p { listing_id = listing_id }) id day

repeats :
    (p : TradePayload) (listing_id : Option String) (id day again : ℕ)
    → (listing_id ≢ none) ⊎ (again ≡ day)
    → IsRepeat (trade_naming p listing_id id again) (trade_naming p listing_id id day)
repeats p (some l) id day again h = record {
  clash = λ t. refl;
  of_snapshot = refl;
  same = λ e. ground (arith, e);
  itself = ground (arith, eq_iff p.venue p.venue, eq_iff l l);
}
repeats p none id day again (inl n) = absurd (n refl)
repeats p none id day again (inr e) = record {
  clash = λ t. rw e refl;
  of_snapshot = refl;
  same = λ s. rw e refl;
  itself = rw e (
      ground (
        arith,
        eq_iff p.venue p.venue,
        nat_beq_iff id id,
        nat_beq_iff p.purchase_price_cents p.purchase_price_cents,
        nat_beq_iff day day,
      ));
}

module _ (item_type_of : String → String) (E : Type 0) where
  -- A request keeps the trades unique: no two are of one listing on one venue, and no snapshot buy is of
  -- the item, price, venue and day of an earlier trade.
  pub ingest_simulated_trade-IsUnique :
      (p : TradePayload) (day : ℕ) (b : Backend E)
      → IsUnique b.database.trades
      → IsUnique (ingest_simulated_trade item_type_of p day b).0.database.trades
  unfolding ingest_simulated_trade
  ingest_simulated_trade-IsUnique p day b u = insert_trade-IsUnique _ b.database.trades u

  -- A trade of a listing that is sent again, or a snapshot buy that is sent again the same day, is
  -- answered as already recorded and changes nothing that the backend holds.
  pub ingest_simulated_trade-again :
      (p : TradePayload) (day again : ℕ) (b : Backend E)
      → (p.listing_id ≢ none) ⊎ (again ≡ day)
      → ingest_simulated_trade item_type_of p again (ingest_simulated_trade item_type_of p day b).0
        ≡ ((ingest_simulated_trade item_type_of p day b).0, already_recorded)
  unfolding ingest_simulated_trade
  ingest_simulated_trade-again p day again b h =
      let r =
        get_or_create_item_id item_type_of b.item_cache p.market_hash_name (b.database.items, []) in
      let after = (ingest_simulated_trade item_type_of p day b).0 in
      let cached =
        get_or_create-cached item_type_of p.market_hash_name b.item_cache b.database.items in
      ap (λ x. answered after (insert_trade (trade_of p x.1 again) after.database.trades) x)
        (cached-get_or_create item_type_of p.market_hash_name after.item_cache after.database.items
          r.1 cached)
      ∙ ap (λ s. answered after s ((after.database.items, []), r.1))
          (insert_trade-again (trade_of p r.1 again) (trade_of p r.1 day) b.database.trades
            (repeats p p.listing_id r.1 day again h))
    where
      answered : Backend E → List Trade × Bool → (Items × Dict String ℕ) × ℕ → Backend E × Answer
      answered backend (trades, recorded) ((items, pending), id) = (
        record {
          database = record backend.database { items = items; trades = trades };
          item_cache = update pending backend.item_cache;
        },
        if recorded then trade_recorded else already_recorded,
      )
