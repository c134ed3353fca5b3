-- ===== src/Dmarket/Owed/Kept.antt =====
-- What a poll or a page of catching up leaves of a listing that was owed.
use brand_sniper_monorepo.Prelude.{
  ℕ, ◌+◌, ◌≤◌, ◌≡◌, ◌⊎◌, refl, sym, subst, String, true, ◌||◌, List, [], ◌∷◌, ◌++◌, Option, none,
  some, arith, length, string_eq, Bool-cases, inl, inr, In,
}
use brand_sniper_monorepo.Prelude.Dict.{Dict, contains}
use brand_sniper_monorepo.Prelude.Json.{Json}
use brand_sniper_monorepo.Prelude.Result.{Answered, Answered-bind, Answered-both, Result, ok}
use brand_sniper_monorepo.Dmarket.{
  DmarketOffer, OffersPage, CatchUpGap, ListingPoller, ReadEntry, live_max_pages,
}
use brand_sniper_monorepo.Dmarket.Remembered.{contains-remember_all, length-sort_read}
use brand_sniper_monorepo.Dmarket.Poller.{
  Poll, remember_all, poll_pages, polled, live_poll, skip_from, gap_left,
}
use brand_sniper_monorepo.Dmarket.Once.{HasRoom, IsFresh, poll_pages-IsFresh, start-IsFresh}
use brand_sniper_monorepo.Dmarket.Owed.{OnPages, IsMarket, Owed}
use brand_sniper_monorepo.Dmarket.Owed.Polls.{Left, poll_pages-Left}

pub In-append_left : {A : Type 0} (x : A) (xs ys : List A) → In x xs → In x (xs ++ ys)
In-append_left x [] ys m = elim m [ ]
In-append_left x (z ∷ xs) ys (inl e) = inl e
In-append_left x (z ∷ xs) ys (inr m) = inr (In-append_left x xs ys m)

In-append_last : {A : Type 0} (x : A) (xs : List A) → In x (xs ++ x ∷ [])
In-append_last x [] = inl refl
In-append_last x (z ∷ xs) = inr (In-append_last x xs)

-- A gap skips only listings that were recorded.
contains-skip_from :
    (id : String) (floor : ℕ) (recorded : Dict String ℕ)
    → contains id (skip_from floor recorded) ≡ true
    → contains id recorded ≡ true
contains-skip_from id floor [] h = h
contains-skip_from id floor ((k, created) ∷ recorded) h =
    ground (arith, contains-skip_from id floor recorded)

module _ (parse_offer : Json → Option DmarketOffer) (page_of : Option String → OffersPage)
    (e : Json) (offer : DmarketOffer) (fetch : ℕ → Option String → Result (OffersPage × ℕ)) where
  -- With room, what was known before a poll or read in it is seen after it.
  seen_after :
      (poller : ListingPoller) (p : Poll)
      → IsFresh poller.seen p
      → length poller.seen + length p.read ≤ poller.max_seen
      → contains offer.offer_id (remember_all poller.max_seen p.read_ids poller.seen)
        ≡ (contains offer.offer_id p.read_ids || contains offer.offer_id poller.seen)
  seen_after poller p fresh room =
      contains-remember_all poller.max_seen offer.offer_id p.read_ids poller.seen
        (omega (arith, fresh.fits))

  abbrev OwedOrRecorded : ListingPoller → ListingPoller × List ReadEntry → Type 0
  OwedOrRecorded poller done =
      HasRoom poller done.1
      → Owed parse_offer page_of e offer done.0 ⊎ (contains offer.offer_id poller.recorded ≡ true)

  polled-Owed :
      (market : IsMarket parse_offer page_of) (parses : parse_offer e ≡ some offer) (floor : ℕ)
      (recent : floor ≤ offer.created_at_ms) (poller : ListingPoller) (p : Poll)
      (left : Option String)
      → poller.next_floor_ms ≡ some floor
      → IsFresh poller.seen p
      → Left parse_offer page_of market e offer parses floor recent poller.seen (p, left)
      → OwedOrRecorded poller (polled parse_offer fetch poller (p, left))
  polled-Owed market parses floor recent poller p left at fresh (inl k) room =
      inl (inl (ground (arith, seen_after poller p fresh, length-sort_read p.read)))
  polled-Owed market parses floor recent poller p left at fresh (inr (c, h, on)) room =
      let skip = skip_from floor poller.recorded in
      let gap : CatchUpGap = record { cursor = c; until_ms = floor; skip_ids = skip } in
      elim (Bool-cases (contains offer.offer_id skip)) [
        | inl skipped ↦ inr (contains-skip_from offer.offer_id floor poller.recorded skipped)
        | inr kept ↦
            let gaps : gap_left poller.next_floor_ms left poller.recorded poller.gaps
                ≡ poller.gaps ++ gap ∷ [] =
              rw (at, h) refl in
            inl (
              inr (
                gap,
                subst (In gap) (sym gaps) (In-append_last gap poller.gaps),
                (recent, on, kept),
              ))
      ]

  -- A live poll reads every listing from its floor on, or leaves it in a gap, or it was recorded.
  pub live_poll-Owed :
      (market : IsMarket parse_offer page_of) (parses : parse_offer e ≡ some offer) (floor : ℕ)
      (recent : floor ≤ offer.created_at_ms)
      → ((i : ℕ) (c : Option String) → Answered (λ answer. answer.0 ≡ page_of c) (fetch i c))
      → (poller : ListingPoller) → poller.next_floor_ms ≡ some floor
      → OnPages page_of none e
      → Answered (OwedOrRecorded poller) (live_poll parse_offer fetch poller)
  unfolding live_poll
  live_poll-Owed market parses floor recent serves poller at on =
      let start : Poll = record {
        newest_ms = poller.newest_ms;
        oldest_ms = none;
        read = [];
        read_ids = [];
      } in
      let FreshDone : Poll × Option String → Type 0 = λ done. IsFresh poller.seen done.0 in
      let LeftDone : Poll × Option String → Type 0 =
        Left parse_offer page_of market e offer parses floor recent poller.seen in
      let pages : Option ℕ → Result (Poll × Option String) =
        λ f. poll_pages parse_offer fetch f poller.seen live_max_pages 0 none start in
      let covered : Answered LeftDone (pages poller.next_floor_ms) =
        subst (λ f. Answered LeftDone (pages f)) (sym at)
          (poll_pages-Left parse_offer page_of market e offer parses floor recent fetch serves
            poller.seen live_max_pages 0 none start (inr (on, λ z. absurd (ground arith)))) in
      Answered-bind (λ done. FreshDone done × LeftDone done) (OwedOrRecorded poller)
        (pages poller.next_floor_ms) (λ done. ok (polled parse_offer fetch poller done))
        (Answered-both FreshDone LeftDone (pages poller.next_floor_ms)
          (poll_pages-IsFresh parse_offer fetch poller.next_floor_ms poller.seen live_max_pages 0
            none start (start-IsFresh poller.seen poller.newest_ms))
          covered)
        (λ done h. polled-Owed market parses floor recent poller done.0 done.1 at h.0 h.1)

  abbrev OwedAfter : ListingPoller × List ReadEntry → Type 0
  OwedAfter done = Owed parse_offer page_of e offer done.0

  gap_left-In :
      (gap : CatchUpGap) (floor : Option ℕ) (cursor : Option String) (recorded : Dict String ℕ)
      (gaps : List CatchUpGap)
      → In gap gaps
      → In gap (gap_left floor cursor recorded gaps)
  gap_left-In gap (some floor) (some cursor) recorded gaps m =
      In-append_left gap gaps
        (record { cursor = cursor; until_ms = floor; skip_ids = skip_from floor recorded } ∷ []) m
  gap_left-In gap (some floor) none recorded gaps m = m
  gap_left-In gap none cursor recorded gaps m = m

  polled_keeps :
      (poller : ListingPoller) (p : Poll) (left : Option String)
      → IsFresh poller.seen p
      → Owed parse_offer page_of e offer poller
      → HasRoom poller (polled parse_offer fetch poller (p, left)).1
      → OwedAfter (polled parse_offer fetch poller (p, left))
  polled_keeps poller p left fresh (inl k) room =
      inl (ground (arith, seen_after poller p fresh, length-sort_read p.read))
  polled_keeps poller p left fresh (inr (gap, m, within)) room =
      inr (gap, gap_left-In gap poller.next_floor_ms left poller.recorded poller.gaps m, within)

  -- What was owed before a live poll is owed after it.
  pub live_poll_keeps :
      (poller : ListingPoller)
      → Owed parse_offer page_of e offer poller
      → Answered
          (λ done. HasRoom poller done.1 → OwedAfter done)
          (live_poll parse_offer fetch poller)
  unfolding live_poll
  live_poll_keeps poller owed =
      let start : Poll = record {
        newest_ms = poller.newest_ms;
        oldest_ms = none;
        read = [];
        read_ids = [];
      } in
      Answered-bind (λ done. IsFresh poller.seen done.0)
        (λ done. HasRoom poller done.1 → OwedAfter done)
        (poll_pages parse_offer fetch poller.next_floor_ms poller.seen live_max_pages 0 none start)
        (λ done. ok (polled parse_offer fetch poller done))
        (poll_pages-IsFresh parse_offer fetch poller.next_floor_ms poller.seen live_max_pages 0 none
          start (start-IsFresh poller.seen poller.newest_ms))
        (λ done fresh. polled_keeps poller done.0 done.1 fresh owed)
