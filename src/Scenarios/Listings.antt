-- ===== src/Scenarios/Listings.antt =====
-- Polls of a market of two pages, and the resume point that is left.
use brand_sniper_monorepo.Prelude.{
  ℕ, zero, suc, ◌+◌, ◌≤◌, ◌≡◌, refl, ap, ◌∙◌, String, List, [], ◌∷◌, Option, none, some, arith,
  length, if◌then◌else◌, string_eq, ◌==◌, inl, inr, In,
}
use Prim.Native.String.{char_at}
use brand_sniper_monorepo.Prelude.Dict.{contains}
use brand_sniper_monorepo.Prelude.Json.{Json, text, null}
use brand_sniper_monorepo.Prelude.Result.{Result, ok, err, connection_error}
use brand_sniper_monorepo.Lru.{put, evict_oldest}
use brand_sniper_monorepo.Dmarket.{
  CatchUpGap, DmarketOffer, OffersPage, ResumePoint, ListingPoller, ReadEntry,
}
use brand_sniper_monorepo.Dmarket.Remembered.{once, times_read}
use brand_sniper_monorepo.Dmarket.Poller.{
  remember, remember_all, read_offer, read_parsed, read_entries, poll_pages, live_poll, insert_read,
  sort_read, catch_up_page, note_recorded, created_or_zero,
}
use brand_sniper_monorepo.Dmarket.Once.Runs.{
  Request, live, catch_up, note, serve, serve_all, serve_all-IsOnce,
}
use brand_sniper_monorepo.Dmarket.Owed.{OnPages, here, further, IsMarket, InGap}
use brand_sniper_monorepo.Dmarket.Owed.Runs.{serve_all-reads}
use brand_sniper_monorepo.Dmarket.Resume.{
  document_of, resume_document, parse_resume_document, resume_from,
}
use brand_sniper_monorepo.Dmarket.Resume.Gaps.{restart-InGap}
use brand_sniper_monorepo.Dmarket.Resume.Restart.{
  SameIds, SameGaps, parse_resume_document-resume_document,
}

abbrev offer_at : String → ℕ → DmarketOffer
offer_at id created = record {
  offer_id = id;
  created_at_ms = created;
  price_cents = 500;
  offer_type = "dmarket";
  title = "AK-47 | Redline (Field-Tested)";
  market_hash_name = "AK-47 | Redline (Field-Tested)";
  float_value = none;
  paint_seed = none;
  paint_index = none;
  phase = none;
  sticker_names = [];
}

abbrev listing : Json → Option DmarketOffer
listing (text id) = some (offer_at id (if id == "new" then 9000 else 8000))
listing _ = none

abbrev page_of : Option String → OffersPage
page_of none = record { entries = text "new" ∷ null ∷ []; cursor = some "page 2" }
page_of (some cursor) = record { entries = text "old" ∷ []; cursor = none }

created_at_most : (e : Json) → created_or_zero (listing e) ≤ 9000
created_at_most (text id) = ground arith
created_at_most _ = omega arith

newest_first :
    (c : Option String) (next : String) (a b : Json) (oa ob : DmarketOffer)
    → (page_of c).cursor ≡ some next
    → In a (page_of c).entries
    → OnPages page_of (some next) b
    → listing a ≡ some oa
    → listing b ≡ some ob
    → ob.created_at_ms ≤ oa.created_at_ms
newest_first (some c) next a b oa ob h m on pa pb = absurd (ground arith)
newest_first none next a b oa ob h (inl e) on pa pb =
    omega (arith, ap created_or_zero (ap listing e ∙ pa), ap created_or_zero pb, created_at_most b)
newest_first none next a b oa ob h (inr (inl e)) on pa pb =
    absurd (let q = ap listing e ∙ pa in ground arith)
newest_first none next a b oa ob h (inr (inr m)) on pa pb = elim m [ ]

has_listing :
    (c : Option String) (next : String)
    → (page_of c).cursor ≡ some next
    → (e : Json) × (o : DmarketOffer) × In e (page_of c).entries × (listing e ≡ some o)
has_listing none next h = (text "new", offer_at "new" 9000, inl refl, refl)
has_listing (some c) next h = absurd (ground arith)

market : IsMarket listing page_of
market = record { newest_first = newest_first; has_listing = has_listing }

abbrev poller : ListingPoller
poller = record {
  newest_ms = some 8500;
  gaps = [];
  next_floor_ms = some 3500;
  seen = ("seen", tt) ∷ [];
  max_seen = 20;
  recorded = [];
}

abbrev fetch : ℕ → Option String → Result (OffersPage × ℕ)
fetch request cursor = ok (page_of cursor, 9500)

abbrev later : List Request
later =
    live (λ request cursor. err connection_error)
    ∷ note (offer_at "old" 8000)
    ∷ catch_up (λ cursor. ok (page_of (some cursor), 9600))
    ∷ live fetch
    ∷ []

abbrev run_of : List Request → ListingPoller × List ReadEntry
run_of requests = serve_all listing requests poller

-- The poll reads both listings and the entry that is none; the later poll reads only that entry again.
all_read :
    (length (run_of (live fetch ∷ later)).1 ≡ 4) × ((run_of (live fetch ∷ later)).0.gaps ≡ [])
unfolding serve_all serve live_poll poll_pages read_entries read_parsed read_offer catch_up_page
    note_recorded sort_read insert_read remember_all remember put evict_oldest
all_read = (refl, refl)

serve_all-IsOnce_example :
    times_read "old" (run_of (live fetch ∷ later)).1 + once (contains "old" poller.seen)
    ≡ once (contains "old" (run_of (live fetch ∷ later)).0.seen)
serve_all-IsOnce_example =
    serve_all-IsOnce listing (live fetch ∷ later) poller (omega (arith, all_read.0)) "old"

abbrev first_poll : ListingPoller × List ReadEntry
first_poll = (serve listing (live fetch) poller)

poll_returns : live_poll listing fetch poller ≡ ok first_poll
unfolding serve live_poll poll_pages read_entries read_parsed read_offer sort_read insert_read
    remember_all remember put evict_oldest
poll_returns = refl

serve_all-reads_example : times_read "old" (run_of (live fetch ∷ later)).1 ≡ 1
serve_all-reads_example =
    serve_all-reads listing page_of market (text "old") (offer_at "old" 8000) refl fetch poller 3500
      later first_poll refl (omega arith) (further refl (here (inl refl)))
      (
        (λ request cursor. refl),
        ((λ request cursor. tt), (tt, ((λ cursor. refl), ((λ request cursor. refl), tt)))),
      )
      poll_returns (omega (arith, all_read.0)) all_read.1 refl refl

-- Numbers as strokes, and the JSON module on the one document of this poller.
abbrev strokes : ℕ → String
strokes zero = ""
strokes (suc n) = String.◌∷◌ (char_at "|" 0) (strokes n)

abbrev count_strokes : String → ℕ
count_strokes String.[] = 0
count_strokes (String.◌∷◌ c s) = count_strokes s + 1

count_strokes-strokes : (n : ℕ) → some (count_strokes (strokes n)) ≡ some n
count_strokes-strokes zero = refl
count_strokes-strokes (suc n) = ground (arith, count_strokes-strokes n)

abbrev with_gap : ListingPoller
with_gap = record poller {
  newest_ms = some 4;
  recorded = ("new", 3) ∷ [];
  gaps = record { cursor = "page 2"; until_ms = 2; skip_ids = ("b", tt) ∷ ("a", tt) ∷ [] } ∷ [];
}

abbrev dumps : Json → String
dumps document = "document"

abbrev loads : String → Option Json
loads document = some (document_of strokes with_gap)

abbrev as_text : Json → String
as_text (text s) = s
as_text _ = ""

kept : loads "document" ≡ some (document_of strokes (resume_document strokes dumps with_gap).0)
unfolding resume_document
kept = refl

resume_example :
    (point : ResumePoint) × (parse_resume_document
        (λ s. some (count_strokes s))
        as_text
        loads
        (some (resume_document strokes dumps with_gap).1)
      ≡ some point)
    × (point.newest_ms ≡ 4)
    × SameIds (resume_document strokes dumps with_gap).0.recorded point.recorded_ids
    × SameGaps with_gap.gaps point.gaps
unfolding resume_document
resume_example =
    parse_resume_document-resume_document strokes (λ s. some (count_strokes s)) as_text
      count_strokes-strokes (λ s. refl) dumps loads with_gap 4 kept refl

restart-InGap_example :
    (point : ResumePoint) × (parse_resume_document
        (λ s. some (count_strokes s))
        as_text
        loads
        (some (resume_document strokes dumps with_gap).1)
      ≡ some point)
    × (opened : CatchUpGap) × In opened
        (resume_from (λ cursor. some 8000) point 9000 5000 poller).gaps
    × InGap listing page_of (text "old") (offer_at "old" 8000) opened
unfolding resume_document
restart-InGap_example =
    restart-InGap strokes (λ s. some (count_strokes s)) as_text count_strokes-strokes (λ s. refl)
      dumps loads (λ cursor. some 8000) listing page_of (text "old") (offer_at "old" 8000) with_gap
      4 (record { cursor = "page 2"; until_ms = 2; skip_ids = ("b", tt) ∷ ("a", tt) ∷ [] }) 8000
      9000 5000 poller kept refl (inl refl) (omega arith, here (inl refl), refl) refl (omega arith)
      (omega arith) (omega arith)
