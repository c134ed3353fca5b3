-- ===== src/Dmarket/Poller.antt =====
-- `ListingPoller` of apps/listener/scrapers/dmarket.py. A request is answered by its page and the time
-- at which it arrived, or it raises. `parse_offer` is an argument, that of Offers; `position` is
-- cursor_created_at_ms.
use brand_sniper_monorepo.Prelude.{
  ℕ, zero, suc, ◌+◌, ◌-◌, min, String, Bool, true, false, ◌||◌, List, [], ◌∷◌, ◌++◌, Option, none,
  some, if◌then◌else◌, ltb, leb, string_eq,
}
use brand_sniper_monorepo.Prelude.Dict.{Dict, insert, contains}
use brand_sniper_monorepo.Prelude.Json.{Json, object, JsonFields, no_fields}
use brand_sniper_monorepo.Prelude.Result.{Result, ok, ◌>>=◌}
use brand_sniper_monorepo.Lru.{put}
use brand_sniper_monorepo.Dmarket.{
  DmarketOffer, OffersPage, Ids, CatchUpGap, ListingPoller, ReadEntry, live_overlap_ms,
  live_max_pages,
}

-- `_remember`
unfoldable pub remember : ℕ → String → Ids → Ids
remember max_seen listing_id seen = (put max_seen listing_id tt seen).0

-- A set's order is the interpreter's own; here it is that in which the listings were read.
unfoldable pub remember_all : ℕ → Ids → Ids → Ids
remember_all max_seen [] seen = seen
remember_all max_seen ((listing_id, _) ∷ ids) seen =
    remember_all max_seen ids (remember max_seen listing_id seen)

-- `entry if isinstance(entry, dict) else {}`
abbrev pub fields_or_empty : Json → JsonFields
fields_or_empty (object fields) = fields
fields_or_empty _ = no_fields

-- What a live poll has read so far.
pub record Poll : Type 0 where
  pub newest_ms : Option ℕ
  pub oldest_ms : Option ℕ
  pub read : List ReadEntry
  pub read_ids : Ids

abbrev pub older : Option ℕ → ℕ → ℕ
older none created = created
older (some oldest) created = min oldest created

abbrev pub newer : Option ℕ → ℕ → ℕ
newer none created = created
newer (some newest) created = if ltb newest created then created else newest

abbrev pub is_below : Option ℕ → ℕ → Bool
is_below none created = false
is_below (some floor) created = ltb created floor

unfoldable pub read_offer : Option ℕ → Ids → ℕ → Json → DmarketOffer → Poll → Poll
read_offer floor seen at entry offer poll =
    let created = offer.created_at_ms in
    let dated : Poll = record poll {
      newest_ms = some (newer poll.newest_ms created);
      oldest_ms = some (older poll.oldest_ms created);
    } in
    if is_below floor created
    then dated
    else if contains offer.offer_id seen || contains offer.offer_id poll.read_ids
    then dated
    else record dated {
      read =
          poll.read
          ++ record { offer = some offer; entry = fields_or_empty entry; received_at_ms = at } ∷ [];
      read_ids = insert offer.offer_id tt poll.read_ids;
    }

unfoldable pub read_parsed : Option ℕ → Ids → ℕ → Json → Option DmarketOffer → Poll → Poll
unfolding read_offer
read_parsed floor seen at entry none poll = record poll {
  read =
      poll.read ++ record { offer = none; entry = fields_or_empty entry; received_at_ms = at } ∷ [];
}
read_parsed floor seen at entry (some offer) poll = read_offer floor seen at entry offer poll

-- The page is the last one that the poll needs.
abbrev pub is_last_page : Option ℕ → Option String → Option ℕ → Bool
is_last_page none cursor oldest = true
is_last_page (some floor) none oldest = true
is_last_page (some floor) (some cursor) none = true
is_last_page (some floor) (some cursor) (some oldest) = ltb oldest floor

-- The pages ran out before the floor: catching up reads from the last one's cursor.
abbrev pub skip_from : ℕ → Dict String ℕ → Ids
skip_from floor [] = []
skip_from floor ((listing_id, created) ∷ recorded) =
    let rest = skip_from floor recorded in
    if leb floor created then (listing_id, tt) ∷ rest else rest

abbrev pub gap_left : Option ℕ → Option String → Dict String ℕ → List CatchUpGap → List CatchUpGap
gap_left (some floor) (some cursor) recorded gaps =
    gaps ++ record { cursor = cursor; until_ms = floor; skip_ids = skip_from floor recorded } ∷ []
gap_left (some floor) none recorded gaps = gaps
gap_left none cursor recorded gaps = gaps

-- `newest_ms - LIVE_OVERLAP_MS`, once there is a newest time.
abbrev pub next_floor : Option ℕ → Option ℕ → Option ℕ
next_floor none floor = floor
next_floor (some newest) floor = some (newest - live_overlap_ms)

-- The stable sort by creation time; an entry that is no listing counts as the oldest.
abbrev pub created_or_zero : Option DmarketOffer → ℕ
created_or_zero none = 0
created_or_zero (some offer) = offer.created_at_ms

unfoldable pub insert_read : ReadEntry → List ReadEntry → List ReadEntry
insert_read r [] = r ∷ []
insert_read r (s ∷ rest) =
    if leb (created_or_zero r.offer) (created_or_zero s.offer)
    then r ∷ s ∷ rest
    else s ∷ insert_read r rest

unfoldable pub sort_read : List ReadEntry → List ReadEntry
sort_read [] = []
sort_read (r ∷ rest) = insert_read r (sort_read rest)

-- What a page of catching up has read so far.
pub record CatchUp : Type 0 where
  pub seen : Ids
  pub reached_end : Bool
  pub read : List ReadEntry

unfoldable pub catch_up_entry : ℕ → CatchUpGap → ℕ → Json → Option DmarketOffer → CatchUp → CatchUp
catch_up_entry max_seen gap at entry none c = record c {
  read = c.read ++ record { offer = none; entry = fields_or_empty entry; received_at_ms = at } ∷ [];
}
catch_up_entry max_seen gap at entry (some offer) c =
    if ltb offer.created_at_ms gap.until_ms
    then record c { reached_end = true }
    else if contains offer.offer_id c.seen || contains offer.offer_id gap.skip_ids
    then c
    else record c {
      seen = remember max_seen offer.offer_id c.seen;
      read =
          c.read
          ++ record { offer = some offer; entry = fields_or_empty entry; received_at_ms = at } ∷ [];
    }

-- `page.cursor is None or not page.entries`
abbrev pub is_end : Option String → List Json → Bool
is_end none entries = true
is_end (some cursor) [] = true
is_end (some cursor) (entry ∷ entries) = false

abbrev pub gaps_after : Bool → Option String → CatchUpGap → List CatchUpGap → List CatchUpGap
gaps_after reached_end none gap gaps = gaps
gaps_after reached_end (some cursor) gap gaps =
    if reached_end then gaps else record gap { cursor = cursor } ∷ gaps

module _ (parse_offer : Json → Option DmarketOffer) where
  unfoldable pub read_entries : Option ℕ → Ids → ℕ → List Json → Poll → Poll
  read_entries floor seen at [] poll = poll
  read_entries floor seen at (entry ∷ entries) poll =
      read_entries floor seen at entries (read_parsed floor seen at entry (parse_offer entry) poll)

  abbrev pub read_page : Option ℕ → Ids → OffersPage × ℕ → Poll → Poll
  read_page floor seen (page, at) poll =
      read_entries floor seen at page.entries (record poll { oldest_ms = none })

  module _ (fetch : ℕ → Option String → Result (OffersPage × ℕ)) where
    -- The loop over the pages, on the requests that are left; the cursor that it returns is where it
    -- stopped short.
    unfoldable pub poll_pages :
        Option ℕ → Ids → ℕ → ℕ → Option String → Poll → Result (Poll × Option String)
    poll_pages floor seen zero request cursor poll = ok (poll, cursor)
    poll_pages floor seen (suc left) request cursor poll = fetch request cursor >>= λ answer.
        let next = read_page floor seen answer poll in
        let rest = poll_pages floor seen left (request + 1) answer.0.cursor next in
        if is_last_page floor answer.0.cursor next.oldest_ms then ok (next, none) else rest

    abbrev pub polled : ListingPoller → Poll × Option String → ListingPoller × List ReadEntry
    polled poller (poll, left) = (
      record poller {
        newest_ms = poll.newest_ms;
        gaps = gap_left poller.next_floor_ms left poller.recorded poller.gaps;
        next_floor_ms = next_floor poll.newest_ms poller.next_floor_ms;
        seen = remember_all poller.max_seen poll.read_ids poller.seen;
      },
      sort_read poll.read,
    )

    -- `live_poll`
    unfoldable pub live_poll : ListingPoller → Result (ListingPoller × List ReadEntry)
    unfolding poll_pages
    live_poll poller =
        poll_pages poller.next_floor_ms poller.seen live_max_pages 0 none
          (record { newest_ms = poller.newest_ms; oldest_ms = none; read = []; read_ids = [] })
        >>= λ done. ok (polled poller done)

  unfoldable pub catch_up_entries : ℕ → CatchUpGap → ℕ → List Json → CatchUp → CatchUp
  unfolding catch_up_entry
  catch_up_entries max_seen gap at [] c = c
  catch_up_entries max_seen gap at (entry ∷ entries) c =
      catch_up_entries max_seen gap at entries
        (catch_up_entry max_seen gap at entry (parse_offer entry) c)

  abbrev pub caught_up :
      ListingPoller → CatchUpGap → List CatchUpGap → OffersPage × ℕ → ListingPoller × List ReadEntry
  caught_up poller gap gaps (page, at) =
      let done : CatchUp =
        catch_up_entries poller.max_seen gap at page.entries (record {
          seen = poller.seen;
          reached_end = is_end page.cursor page.entries;
          read = [];
        }) in
      (
        record poller { seen = done.seen; gaps = gaps_after done.reached_end page.cursor gap gaps },
        done.read,
      )

  abbrev pub catch_up_gaps :
      (String → Result (OffersPage × ℕ))
      → ListingPoller
      → List CatchUpGap
      → Result (ListingPoller × List ReadEntry)
  catch_up_gaps fetch poller [] = ok (poller, [])
  catch_up_gaps fetch poller (gap ∷ gaps) =
      fetch gap.cursor >>= λ answer. ok (caught_up poller gap gaps answer)

  -- `catch_up_page`
  unfoldable pub catch_up_page :
      (String → Result (OffersPage × ℕ)) → ListingPoller → Result (ListingPoller × List ReadEntry)
  unfolding catch_up_entries
  catch_up_page fetch poller = catch_up_gaps fetch poller poller.gaps

-- `note_recorded`
unfoldable pub note_recorded : DmarketOffer → ListingPoller → ListingPoller
note_recorded offer poller = record poller {
  recorded = insert offer.offer_id offer.created_at_ms poller.recorded;
}
