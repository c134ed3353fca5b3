-- ===== src/Dmarket/Once/Runs.antt =====
-- Any sequence of polls hands a listing on once.
use brand_sniper_monorepo.Prelude.{
  ℕ, ◌+◌, ◌≤◌, ◌≡◌, refl, String, List, [], ◌∷◌, ◌++◌, Option, none, arith, length, length-append,
  string_eq,
}
use brand_sniper_monorepo.Prelude.Dict.{contains}
use brand_sniper_monorepo.Prelude.Json.{Json}
use brand_sniper_monorepo.Prelude.Result.{Answered, Answered-bind, no_claim, Result, ok, err, ◌>>=◌}
use brand_sniper_monorepo.Dmarket.{
  DmarketOffer, OffersPage, CatchUpGap, ListingPoller, ReadEntry, live_max_pages,
}
use brand_sniper_monorepo.Dmarket.Remembered.{once, times_read, times_read-append}
use brand_sniper_monorepo.Dmarket.Poller.{
  Poll, poll_pages, polled, live_poll, caught_up, catch_up_gaps, catch_up_page, note_recorded,
}
use brand_sniper_monorepo.Dmarket.Once.{IsOnce, OnceAfter, live_poll-IsOnce}
use brand_sniper_monorepo.Dmarket.Once.CatchUps.{catch_up_page-IsOnce}

-- What the scraper asks of its poller, and how DMarket answers.
pub data Request : Type 0 where
  live : (ℕ → Option String → Result (OffersPage × ℕ)) → Request
  catch_up : (String → Result (OffersPage × ℕ)) → Request
  note : DmarketOffer → Request

-- A call that raises leaves the poller as it was, and hands on nothing.
abbrev pub answer_or :
    ListingPoller → Result (ListingPoller × List ReadEntry) → ListingPoller × List ReadEntry
answer_or poller (err e) = (poller, [])
answer_or poller (ok done) = done

module _ (parse_offer : Json → Option DmarketOffer) where
  unfoldable pub serve : Request → ListingPoller → ListingPoller × List ReadEntry
  serve (live fetch) poller = answer_or poller (live_poll parse_offer fetch poller)
  serve (catch_up fetch) poller = answer_or poller (catch_up_page parse_offer fetch poller)
  serve (note offer) poller = (note_recorded offer poller, [])

  unfoldable pub serve_all : List Request → ListingPoller → ListingPoller × List ReadEntry
  serve_all [] poller = (poller, [])
  serve_all (request ∷ requests) poller =
      let (next, read) = serve request poller in
      let (last, others) = serve_all requests next in (last, read ++ others)

  answer_or-IsOnce :
      (poller : ListingPoller) (r : Result (ListingPoller × List ReadEntry))
      → Answered (OnceAfter poller) r
      → OnceAfter poller (answer_or poller r)
  unfolding times_read
  answer_or-IsOnce poller (err e) h room = record {
    counted = λ id. omega arith;
    fits = omega arith;
  }
  answer_or-IsOnce poller (ok done) h room = h room

  pub serve-IsOnce :
      (request : Request) (poller : ListingPoller) → OnceAfter poller (serve request poller)
  unfolding serve times_read note_recorded
  serve-IsOnce (live fetch) poller =
      answer_or-IsOnce poller (live_poll parse_offer fetch poller)
        (live_poll-IsOnce parse_offer fetch poller)
  serve-IsOnce (catch_up fetch) poller =
      answer_or-IsOnce poller (catch_up_page parse_offer fetch poller)
        (catch_up_page-IsOnce parse_offer fetch poller)
  serve-IsOnce (note offer) poller =
      λ room. record { counted = λ id. omega arith; fits = omega arith }

  -- The size of the memory is never changed.
  abbrev SameMemory : ListingPoller → ListingPoller × List ReadEntry → Type 0
  SameMemory poller done = done.0.max_seen ≡ poller.max_seen

  answer_or_memory :
      (poller : ListingPoller) (r : Result (ListingPoller × List ReadEntry))
      → Answered (SameMemory poller) r
      → (answer_or poller r).0.max_seen ≡ poller.max_seen
  answer_or_memory poller (err e) h = refl
  answer_or_memory poller (ok done) h = h

  gaps_memory :
      (fetch : String → Result (OffersPage × ℕ)) (poller : ListingPoller) (gaps : List CatchUpGap)
      → Answered (SameMemory poller) (catch_up_gaps parse_offer fetch poller gaps)
  gaps_memory fetch poller [] = refl
  gaps_memory fetch poller (gap ∷ gaps) =
      Answered-bind (λ a. Unit) (SameMemory poller) (fetch gap.cursor)
        (λ answer. ok (caught_up parse_offer poller gap gaps answer)) (no_claim (fetch gap.cursor))
        (λ answer _. refl)

  pub serve_memory :
      (request : Request) (poller : ListingPoller)
      → (serve request poller).0.max_seen ≡ poller.max_seen
  unfolding serve note_recorded live_poll catch_up_page
  serve_memory (live fetch) poller =
      let start : Poll = record {
        newest_ms = poller.newest_ms;
        oldest_ms = none;
        read = [];
        read_ids = [];
      } in
      let pages =
        poll_pages parse_offer fetch poller.next_floor_ms poller.seen live_max_pages 0 none start in
      answer_or_memory poller (pages >>= λ done. ok (polled parse_offer fetch poller done)) (
        Answered-bind (λ a. Unit) (SameMemory poller) pages
          (λ done. ok (polled parse_offer fetch poller done)) (no_claim pages) (λ done _. refl))
  serve_memory (catch_up fetch) poller =
      answer_or_memory poller (catch_up_gaps parse_offer fetch poller poller.gaps)
        (gaps_memory fetch poller poller.gaps)
  serve_memory (note offer) poller = refl

  -- Whatever DMarket answers to live polls and catching up, in any order, and whichever requests fail:
  -- while what was read fits into the memory, the entries handed on hold each listing as often as it
  -- is newly remembered. So a listing is handed on once, and never where it was seen before.
  pub serve_all-IsOnce :
      (requests : List Request) (poller : ListingPoller)
      → length poller.seen + length (serve_all requests poller).1 ≤ poller.max_seen
      → (id : String)
      → times_read id (serve_all requests poller).1 + once (contains id poller.seen)
        ≡ once (contains id (serve_all requests poller).0.seen)
  unfolding serve_all times_read
  serve_all-IsOnce [] poller room id = omega arith
  serve_all-IsOnce (request ∷ requests) poller room id =
      let next = (serve request poller).0 in
      let read = (serve request poller).1 in
      let others = (serve_all requests next).1 in
      let first : IsOnce poller next read =
        serve-IsOnce request poller (omega (arith, room, length-append read others)) in
      omega (
        arith,
        first.counted id,
        times_read-append id read others,
        serve_all-IsOnce requests next
            (omega (arith, first.fits, length-append read others, serve_memory request poller)) id,
      )
