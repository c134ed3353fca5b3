-- ===== src/Dmarket/Owed.antt =====
-- No listing is passed over: what is on the market's pages from a poll on is read, or stays in a gap
-- that catching up will read.
pub mod Oldest
pub mod Polls
pub mod Kept
pub mod Entries
pub mod CatchUps
pub mod Runs
use brand_sniper_monorepo.Prelude.{
  ℕ, ◌≤◌, ◌<◌, ◌≡◌, ◌⊎◌, refl, sym, ap, ◌∙◌, String, Bool, true, false, ◌||◌, List, [], ◌∷◌, ◌++◌,
  Option, none, some, arith, if◌then◌else◌, leb, ltb, string_eq, ◌==◌, Bool-cases, inl, inr, min,
  In,
}
use brand_sniper_monorepo.Prelude.Dict.{Dict, contains, insert, lookup-insert}
use brand_sniper_monorepo.Prelude.Json.{Json}
use brand_sniper_monorepo.Prelude.Result.{Result, ok, err}
use brand_sniper_monorepo.Dmarket.{DmarketOffer, OffersPage, Ids, CatchUpGap, ListingPoller}
use brand_sniper_monorepo.Dmarket.Poller.{Poll, read_offer, read_parsed, read_entries, is_below}

-- An entry of the page at a cursor, or of one that follows it.
pub data OnPages (page_of : Option String → OffersPage) : Option String → Json → Type 0 where
  here : {c : Option String} {e : Json} → In e (page_of c).entries → OnPages page_of c e
  further :
      {c : Option String} {next : String} {e : Json}
      → (page_of c).cursor ≡ some next
      → OnPages page_of (some next) e
      → OnPages page_of c e

module _ (parse_offer : Json → Option DmarketOffer) where
  -- Pages list newest first, and one that has a next page holds a listing.
  pub record IsMarket (page_of : Option String → OffersPage) : Type 0 where
    pub newest_first :
        (c : Option String) (next : String) (a b : Json) (oa ob : DmarketOffer)
        → (page_of c).cursor ≡ some next
        → In a (page_of c).entries
        → OnPages page_of (some next) b
        → parse_offer a ≡ some oa
        → parse_offer b ≡ some ob
        → ob.created_at_ms ≤ oa.created_at_ms
    pub has_listing :
        (c : Option String) (next : String)
        → (page_of c).cursor ≡ some next
        → (e : Json) × (o : DmarketOffer) × In e (page_of c).entries × (parse_offer e ≡ some o)

  -- The listing was read, or lies in a gap that is still open and does not skip it.
  abbrev pub InGap : (Option String → OffersPage) → Json → DmarketOffer → CatchUpGap → Type 0
  InGap page_of e offer gap =
      (gap.until_ms ≤ offer.created_at_ms)
      × OnPages page_of (some gap.cursor) e
      × (contains offer.offer_id gap.skip_ids ≡ false)

  abbrev pub Owed : (Option String → OffersPage) → Json → DmarketOffer → ListingPoller → Type 0
  Owed page_of e offer poller =
      (contains offer.offer_id poller.seen ≡ true)
      ⊎ ((gap : CatchUpGap) × In gap poller.gaps × InGap page_of e offer gap)

  abbrev pub known : String → Ids → Poll → Bool
  known id seen p = contains id seen || contains id p.read_ids

  module _ (floor : ℕ) (seen : Ids) (at : ℕ) where
    known_insert :
        (k id : String) (ids : Ids) → contains id ids ≡ true → contains id (insert k tt ids) ≡ true
    known_insert k id ids h = ground (arith, lookup-insert k id tt ids)

    read_parsed-known :
        (id : String) (entry : Json) (parsed : Option DmarketOffer) (p : Poll)
        → known id seen p ≡ true
        → known id seen (read_parsed (some floor) seen at entry parsed p) ≡ true
    unfolding read_parsed read_offer
    read_parsed-known id entry none p h = h
    read_parsed-known id entry (some offer) p h =
        ground (arith, known_insert offer.offer_id id p.read_ids)

    pub read_entries-known :
        (id : String) (entries : List Json) (p : Poll)
        → known id seen p ≡ true
        → known id seen (read_entries parse_offer (some floor) seen at entries p) ≡ true
    unfolding read_entries
    read_entries-known id [] p h = h
    read_entries-known id (entry ∷ entries) p h =
        read_entries-known id entries (read_parsed (some floor) seen at entry (parse_offer entry) p)
          (read_parsed-known id entry (parse_offer entry) p h)

    read_offer-known :
        (entry : Json) (offer : DmarketOffer) (p : Poll)
        → floor ≤ offer.created_at_ms
        → known offer.offer_id seen (read_offer (some floor) seen at entry offer p) ≡ true
    unfolding read_offer
    read_offer-known entry offer p h = ground (
      arith,
      lookup-insert offer.offer_id offer.offer_id tt p.read_ids,
      string_eq.beq_iff offer.offer_id offer.offer_id,
    )

    read_parsed-known_self :
        (entry : Json) (offer : DmarketOffer) (parsed : Option DmarketOffer) (p : Poll)
        → parsed ≡ some offer
        → floor ≤ offer.created_at_ms
        → known offer.offer_id seen (read_parsed (some floor) seen at entry parsed p) ≡ true
    unfolding read_parsed
    read_parsed-known_self entry offer parsed p e h = rw e (read_offer-known entry offer p h)

    -- A listing of the page from the floor on is known after it.
    pub read_entries_reads :
        (e : Json) (offer : DmarketOffer) (entries : List Json) (p : Poll)
        → In e entries
        → parse_offer e ≡ some offer
        → floor ≤ offer.created_at_ms
        → known offer.offer_id seen (read_entries parse_offer (some floor) seen at entries p) ≡ true
    unfolding read_entries read_parsed
    read_entries_reads e offer [] p m parses h = elim m [ ]
    read_entries_reads e offer (entry ∷ entries) p (inr m) parses h =
        read_entries_reads e offer entries
          (read_parsed (some floor) seen at entry (parse_offer entry) p) m parses h
    read_entries_reads e offer (entry ∷ entries) p (inl same) parses h =
        read_entries-known offer.offer_id entries
          (read_parsed (some floor) seen at entry (parse_offer entry) p)
          (read_parsed-known_self entry offer (parse_offer entry) p (ap parse_offer same ∙ parses)
            h)
