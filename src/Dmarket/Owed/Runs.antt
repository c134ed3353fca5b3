-- ===== src/Dmarket/Owed/Runs.antt =====
-- After a live poll, every listing that it could see is handed on by the time the gaps are read.
use brand_sniper_monorepo.Prelude.{
  ℕ, ◌+◌, ◌≤◌, ◌≡◌, ◌⊎◌, subst, true, false, List, [], ◌∷◌, Option, none, some, arith, length,
  length-append, String, string_eq, inl, inr, In, All,
}
use brand_sniper_monorepo.Prelude.Dict.{contains}
use brand_sniper_monorepo.Prelude.Json.{Json}
use brand_sniper_monorepo.Prelude.Result.{Answered, Result, ok, err}
use brand_sniper_monorepo.Dmarket.{DmarketOffer, OffersPage, ListingPoller, ReadEntry}
use brand_sniper_monorepo.Dmarket.Remembered.{times_read}
use brand_sniper_monorepo.Dmarket.Poller.{live_poll, catch_up_page, note_recorded}
use brand_sniper_monorepo.Dmarket.Once.{HasRoom}
use brand_sniper_monorepo.Dmarket.Once.Runs.{
  Request, live, catch_up, note, answer_or, serve, serve_all, serve-IsOnce, serve_memory,
  serve_all-IsOnce,
}
use brand_sniper_monorepo.Dmarket.Owed.{OnPages, IsMarket, Owed}
use brand_sniper_monorepo.Dmarket.Owed.Kept.{live_poll-Owed, live_poll_keeps}
use brand_sniper_monorepo.Dmarket.Owed.CatchUps.{catch_up_page_keeps}

-- A request that does not raise is answered by the market's page at its cursor.
abbrev pub IsServed : (Option String → OffersPage) → Request → Type 0
IsServed page_of (live fetch) =
    (i : ℕ) (c : Option String) → Answered (λ answer. answer.0 ≡ page_of c) (fetch i c)
IsServed page_of (catch_up fetch) =
    (c : String) → Answered (λ answer. answer.0 ≡ page_of (some c)) (fetch c)
IsServed page_of (note offer) = Unit

module _ (parse_offer : Json → Option DmarketOffer) (page_of : Option String → OffersPage)
    (market : IsMarket parse_offer page_of) (e : Json) (offer : DmarketOffer)
    (parses : parse_offer e ≡ some offer) where
  answer_or_keeps :
      (poller : ListingPoller) (r : Result (ListingPoller × List ReadEntry))
      → Owed parse_offer page_of e offer poller
      → Answered (λ done. HasRoom poller done.1 → Owed parse_offer page_of e offer done.0) r
      → HasRoom poller (answer_or poller r).1
      → Owed parse_offer page_of e offer (answer_or poller r).0
  answer_or_keeps poller (err x) owed h room = owed
  answer_or_keeps poller (ok done) owed h room = h room

  serve_keeps :
      (request : Request) (poller : ListingPoller)
      → IsServed page_of request
      → Owed parse_offer page_of e offer poller
      → HasRoom poller (serve parse_offer request poller).1
      → Owed parse_offer page_of e offer (serve parse_offer request poller).0
  unfolding serve note_recorded
  serve_keeps (live fetch) poller served owed =
      answer_or_keeps poller (live_poll parse_offer fetch poller) owed
        (live_poll_keeps parse_offer page_of e offer fetch poller owed)
  serve_keeps (catch_up fetch) poller served owed =
      answer_or_keeps poller (catch_up_page parse_offer fetch poller) owed
        (catch_up_page_keeps parse_offer page_of market e offer parses poller fetch served owed)
  serve_keeps (note noted) poller served owed = λ room. owed

  serve_all_keeps :
      (requests : List Request) (poller : ListingPoller)
      → All (IsServed page_of) requests
      → Owed parse_offer page_of e offer poller
      → HasRoom poller (serve_all parse_offer requests poller).1
      → Owed parse_offer page_of e offer (serve_all parse_offer requests poller).0
  unfolding serve_all
  serve_all_keeps [] poller served owed room = owed
  serve_all_keeps (request ∷ requests) poller served owed room =
      let next = (serve parse_offer request poller).0 in
      let read = (serve parse_offer request poller).1 in
      let others = (serve_all parse_offer requests next).1 in
      let first : HasRoom poller read = omega (arith, room, length-append read others) in
      serve_all_keeps requests next served.1 (serve_keeps request poller served.0 owed first) (
        omega (
          arith,
          room,
          length-append read others,
          (serve-IsOnce parse_offer request poller first).fits,
          serve_memory parse_offer request poller,
        ))

  -- With no gap left, what is owed was seen.
  closed_gaps :
      (poller : ListingPoller)
      → poller.gaps ≡ []
      → Owed parse_offer page_of e offer poller
      → contains offer.offer_id poller.seen ≡ true
  closed_gaps poller empty (inl k) = k
  closed_gaps poller empty (inr (gap, m, within)) = elim (subst (In gap) empty m) [ ]

  module _ (fetch : ℕ → Option String → Result (OffersPage × ℕ)) (poller : ListingPoller)
      (floor : ℕ) where
    begun :
        (r : Result (ListingPoller × List ReadEntry)) (done : ListingPoller × List ReadEntry)
        → r ≡ ok done
        → Answered
            (λ d.
              HasRoom poller d.1
              → Owed parse_offer page_of e offer d.0
                ⊎ (contains offer.offer_id poller.recorded ≡ true))
            r
        → HasRoom poller (answer_or poller r).1
        → Owed parse_offer page_of e offer (answer_or poller r).0
          ⊎ (contains offer.offer_id poller.recorded ≡ true)
    begun (err x) done h k room = absurd (ground arith)
    begun (ok d) done h k room = k room

    -- A poll that returns, whatever polls, catching up and failures follow: a listing from its floor on
    -- is read, or in a gap, or was recorded before.
    poll_then-Owed :
        (requests : List Request) (done : ListingPoller × List ReadEntry)
        → poller.next_floor_ms ≡ some floor
        → floor ≤ offer.created_at_ms
        → OnPages page_of none e
        → All (IsServed page_of) (live fetch ∷ requests)
        → live_poll parse_offer fetch poller ≡ ok done
        → HasRoom poller (serve_all parse_offer (live fetch ∷ requests) poller).1
        → Owed parse_offer page_of e offer (serve_all parse_offer (live fetch ∷ requests) poller).0
          ⊎ (contains offer.offer_id poller.recorded ≡ true)
    unfolding serve_all serve
    poll_then-Owed requests done at recent on served returns room =
        let first = answer_or poller (live_poll parse_offer fetch poller) in
        let others = (serve_all parse_offer requests first.0).1 in
        let enough : HasRoom poller first.1 = omega (arith, room, length-append first.1 others) in
        elim (begun (live_poll parse_offer fetch poller) done returns
          (live_poll-Owed parse_offer page_of e offer fetch market parses floor recent served.0
            poller at on)
          enough) [
            | inl owed ↦ inl (
                serve_all_keeps requests first.0 served.1 owed (
                  omega (
                    arith,
                    room,
                    length-append first.1 others,
                    (serve-IsOnce parse_offer (live fetch) poller enough).fits,
                    serve_memory parse_offer (live fetch) poller,
                  )))
            | inr old ↦ inr old
          ]

    -- While the market's pages stay as they are, list newest first and hold a listing wherever a next
    -- page follows, and the memory has room: once a live poll from a floor has returned, and the
    -- requests after it, of which any may fail, have left no gap, a listing on the pages that was created
    -- from the floor on was handed on exactly once, unless it was seen or recorded before.
    pub serve_all-reads :
        (requests : List Request) (done : ListingPoller × List ReadEntry)
        → poller.next_floor_ms ≡ some floor
        → floor ≤ offer.created_at_ms
        → OnPages page_of none e
        → All (IsServed page_of) (live fetch ∷ requests)
        → live_poll parse_offer fetch poller ≡ ok done
        → length poller.seen + length (serve_all parse_offer (live fetch ∷ requests) poller).1
          ≤ poller.max_seen
        → (serve_all parse_offer (live fetch ∷ requests) poller).0.gaps ≡ []
        → contains offer.offer_id poller.seen ≡ false
        → contains offer.offer_id poller.recorded ≡ false
        → times_read offer.offer_id (serve_all parse_offer (live fetch ∷ requests) poller).1 ≡ 1
    serve_all-reads requests done at recent on served returns room empty unseen unrecorded =
        elim (poll_then-Owed requests done at recent on served returns room) [
          | inl owed ↦ ground (
            arith,
            serve_all-IsOnce parse_offer (live fetch ∷ requests) poller room offer.offer_id,
            closed_gaps (serve_all parse_offer (live fetch ∷ requests) poller).0 empty owed,
          )
          | inr old ↦ absurd (ground arith)
        ]
