-- ===== src/Dmarket/Owed/CatchUps.antt =====
-- What was owed before a page of catching up is owed after it.
use brand_sniper_monorepo.Prelude.{
  ℕ, ◌≤◌, ◌≡◌, ◌⊎◌, refl, sym, subst, String, Bool, true, false, List, [], ◌∷◌, Option, none, some,
  arith, string_eq, inl, inr, In,
}
use brand_sniper_monorepo.Prelude.Dict.{contains}
use brand_sniper_monorepo.Prelude.Json.{Json}
use brand_sniper_monorepo.Prelude.Result.{Answered, Answered-bind, Result, ok}
use brand_sniper_monorepo.Dmarket.{DmarketOffer, OffersPage, CatchUpGap, ListingPoller}
use brand_sniper_monorepo.Dmarket.Poller.{
  CatchUp, catch_up_entries, caught_up, catch_up_gaps, catch_up_page, is_end, gaps_after,
}
use brand_sniper_monorepo.Dmarket.Once.{HasRoom}
use brand_sniper_monorepo.Dmarket.Owed.{here, further, IsMarket, InGap, Owed}
use brand_sniper_monorepo.Dmarket.Owed.Entries.{entries_keep, entries_reads, entries_reached}

page_goes_on :
    (cursor : Option String) (next : String) (e : Json) (entries : List Json)
    → cursor ≡ some next
    → In e entries
    → is_end cursor entries ≡ false
page_goes_on none next e entries h m = absurd (ground arith)
page_goes_on (some c) next e [] h m = elim m [ ]
page_goes_on (some c) next e (x ∷ entries) h m = refl

gaps_after_rest :
    (reached : Bool) (cursor : Option String) (gap other : CatchUpGap) (gaps : List CatchUpGap)
    → In other gaps
    → In other (gaps_after reached cursor gap gaps)
gaps_after_rest reached none gap other gaps m = m
gaps_after_rest true (some c) gap other gaps m = m
gaps_after_rest false (some c) gap other gaps m = inr m

gaps_after_on :
    (reached : Bool) (cursor : Option String) (next : String) (gap : CatchUpGap)
    (gaps : List CatchUpGap)
    → reached ≡ false
    → cursor ≡ some next
    → gaps_after reached cursor gap gaps ≡ record gap { cursor = next } ∷ gaps
gaps_after_on reached cursor next gap gaps h k = rw (h, k) refl

module _ (parse_offer : Json → Option DmarketOffer) (page_of : Option String → OffersPage)
    (market : IsMarket parse_offer page_of) (e : Json) (offer : DmarketOffer)
    (parses : parse_offer e ≡ some offer) (poller : ListingPoller) where
  caught_up-Owed :
      (at : ℕ) (gap other : CatchUpGap) (gaps : List CatchUpGap)
      → In other (gap ∷ gaps)
      → InGap parse_offer page_of e offer other
      → HasRoom poller (caught_up parse_offer poller gap gaps (page_of (some gap.cursor), at)).1
      → Owed parse_offer page_of e offer
          (caught_up parse_offer poller gap gaps (page_of (some gap.cursor), at)).0
  caught_up-Owed at gap other gaps (inr m) within room =
      let page = page_of (some gap.cursor) in
      let begun : CatchUp = record {
        seen = poller.seen;
        reached_end = is_end page.cursor page.entries;
        read = [];
      } in
      inr (
        other,
        gaps_after_rest
            (catch_up_entries parse_offer poller.max_seen gap at page.entries begun).reached_end
            page.cursor gap other gaps m,
        within,
      )
  caught_up-Owed at gap other gaps (inl same) within room =
      on_page (subst (InGap parse_offer page_of e offer) (sym same) within)
    where
      on_page :
          InGap parse_offer page_of e offer gap
          → Owed parse_offer page_of e offer
              (caught_up parse_offer poller gap gaps (page_of (some gap.cursor), at)).0
      on_page (recent, here m, kept) =
          let page = page_of (some gap.cursor) in
          inl (
            entries_reads poller.max_seen gap at offer.offer_id parse_offer e offer page.entries
              (record {
                seen = poller.seen;
                reached_end = is_end page.cursor page.entries;
                read = [];
              })
              m parses refl recent kept (omega (arith, room)))
      on_page (recent, further {next} h on, kept) =
          let c : Option String = some gap.cursor in
          let page = page_of c in
          let begun : CatchUp = record {
            seen = poller.seen;
            reached_end = is_end page.cursor page.entries;
            read = [];
          } in
          let listing = market.has_listing c next h in
          let more =
            entries_reached poller.max_seen gap at offer.offer_id parse_offer page.entries begun
              (λ a oa m pa.
                let newer : offer.created_at_ms ≤ oa.created_at_ms =
                  market.newest_first c next a e oa offer h m on pa parses in
                omega arith)
              (page_goes_on page.cursor next listing.0 page.entries h listing.2) in
          let moved : CatchUpGap = record gap { cursor = next } in
          inr (
            moved,
            subst (In moved) (sym (gaps_after_on _ page.cursor next gap gaps more h)) (inl refl),
            (recent, on, kept),
          )

  answered-Owed :
      (gap : CatchUpGap) (gaps : List CatchUpGap) (page : OffersPage) (at : ℕ)
      → (contains offer.offer_id poller.seen ≡ true)
        ⊎ ((other : CatchUpGap) × In other (gap ∷ gaps) × InGap parse_offer page_of e offer other)
      → page ≡ page_of (some gap.cursor)
      → HasRoom poller (caught_up parse_offer poller gap gaps (page, at)).1
      → Owed parse_offer page_of e offer (caught_up parse_offer poller gap gaps (page, at)).0
  answered-Owed gap gaps page at (inl k) same = λ room. inl (
      entries_keep poller.max_seen gap at offer.offer_id parse_offer page.entries
        (record { seen = poller.seen; reached_end = is_end page.cursor page.entries; read = [] })
        (omega (arith, room)) k)
  answered-Owed gap gaps page at (inr (other, m, within)) same =
      subst
        (λ p.
          HasRoom poller (caught_up parse_offer poller gap gaps (p, at)).1
          → Owed parse_offer page_of e offer (caught_up parse_offer poller gap gaps (p, at)).0)
        (sym same) (caught_up-Owed at gap other gaps m within)

  module _ (fetch : String → Result (OffersPage × ℕ))
      (serves : (c : String) → Answered (λ answer. answer.0 ≡ page_of (some c)) (fetch c)) where
    catch_up_gaps_keeps :
        (gaps : List CatchUpGap)
        → (contains offer.offer_id poller.seen ≡ true)
          ⊎ ((other : CatchUpGap) × In other gaps × InGap parse_offer page_of e offer other)
        → Answered
            (λ done. HasRoom poller done.1 → Owed parse_offer page_of e offer done.0)
            (catch_up_gaps parse_offer fetch poller gaps)
    catch_up_gaps_keeps [] (inl k) = λ room. inl k
    catch_up_gaps_keeps [] (inr (other, m, within)) = elim m [ ]
    catch_up_gaps_keeps (gap ∷ gaps) owed =
        Answered-bind (λ answer. answer.0 ≡ page_of (some gap.cursor))
          (λ done. HasRoom poller done.1 → Owed parse_offer page_of e offer done.0)
          (fetch gap.cursor) (λ answer. ok (caught_up parse_offer poller gap gaps answer))
          (serves gap.cursor) (λ answer page. answered-Owed gap gaps answer.0 answer.1 owed page)

    pub catch_up_page_keeps :
        Owed parse_offer page_of e offer poller
        → Answered
            (λ done. HasRoom poller done.1 → Owed parse_offer page_of e offer done.0)
            (catch_up_page parse_offer fetch poller)
    unfolding catch_up_page
    catch_up_page_keeps owed = catch_up_gaps_keeps poller.gaps owed
