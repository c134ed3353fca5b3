-- ===== src/Tick/Records.antt =====
-- What a tick becomes in a batch (MarketTick.to_batch_record of apps/listener/models.py). A key that
-- is left out is none.
use brand_sniper_monorepo.Prelude.{
  ℕ, String, Bool, true, false, not, ◌||◌, List, [], ◌∷◌, Option, none, some, if◌then◌else◌,
}
use brand_sniper_monorepo.Tick.{MarketTick, Sticker, observed_at_epoch_ms, is_rest_snapshot}

pub record BatchRecord : Type 0 where
  pub market_hash_name : String
  pub price_cents : ℕ
  pub timestamp : ℕ
  pub observed_at_ms : ℕ
  pub event_type : Option String
  pub listing_id : Option String
  pub float_value : Option ℕ
  pub pattern : Option ℕ
  pub paint_index : Option ℕ
  pub listing_url : Option String
  pub stickers : Option (List Sticker)

abbrev has_stickers : List Sticker → Bool
has_stickers [] = false
has_stickers (_ ∷ _) = true

unfoldable pub to_batch_record : MarketTick → BatchRecord
to_batch_record tick = record {
  market_hash_name = tick.market_hash_name;
  price_cents = tick.price_cents;
  timestamp = tick.timestamp;
  observed_at_ms = observed_at_epoch_ms tick;
  event_type = tick.event_type;
  listing_id = tick.listing_id;
  float_value = tick.float_value;
  pattern = tick.pattern_seed;
  paint_index = tick.paint_index;
  listing_url = tick.listing_url;
  stickers =
      if has_stickers tick.stickers || not (is_rest_snapshot tick)
      then some tick.stickers
      else none;
}

-- A raw feed event; its payload is carried and never read.
pub record FeedEvent (P : Type 0) : Type 0 where
  pub event_type : String
  pub received_at_ms : ℕ
  pub payload : P
