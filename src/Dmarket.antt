-- ===== src/Dmarket.antt =====
-- DMarket's listings (apps/listener/scrapers/dmarket.py, packages/shared_utils/src/shared_utils/dmarket.py):
-- what is read of one and of a page, and the state of the poller that reads them. Times are Unix
-- milliseconds from 1970 on.
pub mod Poller
pub mod Remembered
pub mod Once
pub mod Owed
pub mod Resume
pub mod Offers
pub mod Judging
pub mod Ticks
pub mod Pages
use brand_sniper_monorepo.Prelude.{ℕ, ◌-◌, String, List, Option, none, some}
use brand_sniper_monorepo.Prelude.Dict.{Dict}
use brand_sniper_monorepo.Prelude.Json.{Json, JsonFields}

pub record DmarketOffer : Type 0 where
  pub offer_id : String
  pub created_at_ms : ℕ
  pub price_cents : ℕ
  pub offer_type : String
  pub title : String
  pub market_hash_name : String
  pub float_value : Option ℕ
  pub paint_seed : Option ℕ
  pub paint_index : Option ℕ
  pub phase : Option String
  pub sticker_names : List String

-- A page of raw entries, newest first, and the cursor of the next page.
pub record OffersPage : Type 0 where
  pub entries : List Json
  pub cursor : Option String

-- A set of listing IDs.
abbrev pub Ids : Type 0
Ids = Dict String (Unit {0})

pub record CatchUpGap : Type 0 where
  pub cursor : String
  pub until_ms : ℕ
  pub skip_ids : Ids

pub record ResumePoint : Type 0 where
  pub newest_ms : ℕ
  pub recorded_ids : Ids
  pub gaps : List CatchUpGap

pub record ListingPoller : Type 0 where
  pub newest_ms : Option ℕ
  pub gaps : List CatchUpGap
  pub next_floor_ms : Option ℕ
  pub seen : Ids
  pub max_seen : ℕ
  pub recorded : Dict String ℕ

-- One entry that was read, the listing it is if it parses, and when its page arrived.
pub record ReadEntry : Type 0 where
  pub offer : Option DmarketOffer
  pub entry : JsonFields
  pub received_at_ms : ℕ

abbrev pub live_overlap_ms : ℕ
live_overlap_ms = 5000

abbrev pub live_max_pages : ℕ
live_max_pages = 10

abbrev pub resume_overlap_ms : ℕ
resume_overlap_ms = 120000
