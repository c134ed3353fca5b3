-- ===== src/Dmarket/Owed/Polls.antt =====
-- A live poll passes no listing over.
use brand_sniper_monorepo.Prelude.{
  ℕ, zero, suc, ◌+◌, ◌≤◌, ◌≡◌, ◌⊎◌, refl, sym, subst, String, Bool, true, false, Option, none, some,
  arith, if◌then◌else◌, string_eq, inl, inr,
}
use brand_sniper_monorepo.Prelude.Json.{Json}
use brand_sniper_monorepo.Prelude.Result.{Answered, Answered-bind, Result, ok}
use brand_sniper_monorepo.Dmarket.{DmarketOffer, OffersPage, Ids}
use brand_sniper_monorepo.Dmarket.Poller.{Poll, read_page, is_last_page, poll_pages}
use brand_sniper_monorepo.Dmarket.Owed.{
  OnPages, here, further, IsMarket, known, read_entries-known, read_entries_reads,
}
use brand_sniper_monorepo.Dmarket.Owed.Oldest.{
  is_last_page_above, read_entries-OldestFrom, read_entries-HasOldest,
}

module _ (parse_offer : Json → Option DmarketOffer) (page_of : Option String → OffersPage)
    (market : IsMarket parse_offer page_of) (e : Json) (offer : DmarketOffer)
    (parses : parse_offer e ≡ some offer) (floor : ℕ) (recent : floor ≤ offer.created_at_ms) where
  -- What a poll's pages leave: the listing is known, or on a page from the cursor on.
  abbrev pub Left : Ids → Poll × Option String → Type 0
  Left seen (p, cursor) =
      (known parse_offer offer.offer_id seen p ≡ true)
      ⊎ ((c : String) × (cursor ≡ some c) × OnPages page_of (some c) e)

  -- Before a page that holds the listing further on, every listing is from the floor on.
  not_last :
      (seen : Ids) (at : ℕ) (c : Option String) (next : String) (p : Poll)
      → (page_of c).cursor ≡ some next
      → OnPages page_of (some next) e
      → is_last_page
          (some floor)
          (page_of c).cursor
          (read_page parse_offer (some floor) seen (page_of c, at) p).oldest_ms
        ≡ false
  not_last seen at c next p h on =
      let start : Poll = record p { oldest_ms = none } in
      let listing = market.has_listing c next h in
      is_last_page_above floor (page_of c).cursor _ next h
        (read_entries-OldestFrom parse_offer floor seen at (page_of c).entries start
          (λ a oa m pa.
            let newer : offer.created_at_ms ≤ oa.created_at_ms =
              market.newest_first c next a e oa offer h m on pa parses in
            omega arith)
          tt)
        (read_entries-HasOldest parse_offer floor seen at listing.0 listing.1 (page_of c).entries
          start listing.2 listing.3)

  module _ (fetch : ℕ → Option String → Result (OffersPage × ℕ))
      (serves : (i : ℕ) (c : Option String)
        → Answered (λ answer. answer.0 ≡ page_of c) (fetch i c)) where
    if_Left :
        (seen : Ids) (last : Bool) (next : Poll) (rest : Result (Poll × Option String))
        → (known parse_offer offer.offer_id seen next ≡ true) ⊎ (last ≡ false)
        → Answered (Left seen) rest
        → Answered (Left seen) (if last then ok (next, none) else rest)
    if_Left seen true next rest (inl k) h = inl k
    if_Left seen true next rest (inr absurdity) h = absurd (ground arith)
    if_Left seen false next rest k h = h

    -- Before the poll's next request: the listing is known, or on the page it asks for or a later one.
    abbrev pub Before : Ids → ℕ → Option String → Poll → Type 0
    Before seen left cursor p =
        (known parse_offer offer.offer_id seen p ≡ true)
        ⊎ (OnPages page_of cursor e × (left ≡ 0 → (c : String) × (cursor ≡ some c)))

    -- After the page: it is known, or it is on a later page and the poll reads on.
    abbrev After : Ids → ℕ → Option String → Poll → Type 0
    After seen at cursor p =
        let next = read_page parse_offer (some floor) seen (page_of cursor, at) p in
        (known parse_offer offer.offer_id seen next ≡ true)
        ⊎ ((c : String) × ((page_of cursor).cursor ≡ some c)
            × OnPages page_of (some c) e
            × (is_last_page (some floor) (page_of cursor).cursor next.oldest_ms ≡ false))

    read_page-After :
        (seen : Ids) (at left : ℕ) (cursor : Option String) (p : Poll)
        → Before seen left cursor p
        → After seen at cursor p
    read_page-After seen at left cursor p (inl k) = inl (
        read_entries-known parse_offer floor seen at offer.offer_id (page_of cursor).entries
          (record p { oldest_ms = none }) k)
    read_page-After seen at left cursor p (inr (here m, c)) = inl (
        read_entries_reads parse_offer floor seen at e offer (page_of cursor).entries
          (record p { oldest_ms = none }) m parses recent)
    read_page-After seen at left cursor p (inr (further {next} h on, c)) =
        inr (next, h, on, not_last seen at cursor next p h on)

    page_read_on :
        (seen : Ids) (at : ℕ) (cursor : Option String) (p : Poll)
        → After seen at cursor p
        → (known parse_offer offer.offer_id seen
              (read_page parse_offer (some floor) seen (page_of cursor, at) p)
            ≡ true)
          ⊎ (is_last_page
                (some floor)
                (page_of cursor).cursor
                (read_page parse_offer (some floor) seen (page_of cursor, at) p).oldest_ms
              ≡ false)
    page_read_on seen at cursor p (inl k) = inl k
    page_read_on seen at cursor p (inr (c, h, on, more)) = inr more

    page_leads_on :
        (seen : Ids) (at left : ℕ) (cursor : Option String) (p : Poll)
        → After seen at cursor p
        → Before seen left
            (page_of cursor).cursor
            (read_page parse_offer (some floor) seen (page_of cursor, at) p)
    page_leads_on seen at left cursor p (inl k) = inl k
    page_leads_on seen at left cursor p (inr (c, h, on, more)) =
        inr (subst (λ k. OnPages page_of k e) (sym h) on, λ z. (c, h))

    pub poll_pages-Left :
        (seen : Ids) (left request : ℕ) (cursor : Option String) (p : Poll)
        → Before seen left cursor p
        → Answered
            (Left seen)
            (poll_pages parse_offer fetch (some floor) seen left request cursor p)
    unfolding poll_pages
    poll_pages-Left seen zero request cursor p (inl k) = inl k
    poll_pages-Left seen zero request cursor p (inr (on, some_cursor)) =
        let (c, h) = some_cursor refl in inr (c, h, subst (λ k. OnPages page_of k e) h on)
    poll_pages-Left seen (suc left) request cursor p before =
        let step : OffersPage × ℕ → Result (Poll × Option String) = λ answer.
          let next = read_page parse_offer (some floor) seen answer p in
          let rest =
            poll_pages parse_offer fetch (some floor) seen left (request + 1) answer.0.cursor
              next in
          if is_last_page (some floor) answer.0.cursor next.oldest_ms
          then ok (next, none)
          else rest in
        Answered-bind (λ answer. answer.0 ≡ page_of cursor) (Left seen) (fetch request cursor) step
          (serves request cursor)
          (λ answer same.
            subst (λ page. Answered (Left seen) (step (page, answer.1))) (sym same)
              (let next = read_page parse_offer (some floor) seen (page_of cursor, answer.1) p in
                let after = read_page-After seen answer.1 (suc left) cursor p before in
                if_Left seen (is_last_page (some floor) (page_of cursor).cursor next.oldest_ms) next
                  (poll_pages parse_offer fetch (some floor) seen left (request + 1)
                    (page_of cursor).cursor next)
                  (page_read_on seen answer.1 cursor p after)
                  (poll_pages-Left seen left (request + 1) (page_of cursor).cursor next
                    (page_leads_on seen answer.1 left cursor p after))))
