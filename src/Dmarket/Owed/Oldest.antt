-- ===== src/Dmarket/Owed/Oldest.antt =====
-- The oldest listing of a page, by which a live poll decides whether to read on.
use brand_sniper_monorepo.Prelude.{
  ℕ, ◌≤◌, ◌≡◌, refl, ap, ◌∙◌, String, false, List, [], ◌∷◌, Option, none, some, arith, string_eq,
  inl, inr, In,
}
use brand_sniper_monorepo.Prelude.Json.{Json}
use brand_sniper_monorepo.Dmarket.{DmarketOffer, Ids}
use brand_sniper_monorepo.Dmarket.Poller.{
  Poll, read_offer, read_parsed, read_entries, older, is_last_page,
}

-- The oldest so far is none below the floor.
abbrev pub OldestFrom : ℕ → Option ℕ → Type 0
OldestFrom floor none = Unit
OldestFrom floor (some oldest) = floor ≤ oldest

abbrev pub HasOldest : Option ℕ → Type 0
HasOldest none = ⊥
HasOldest (some oldest) = Unit

older-OldestFrom :
    (floor : ℕ) (oldest : Option ℕ) (created : ℕ)
    → OldestFrom floor oldest
    → floor ≤ created
    → floor ≤ older oldest created
older-OldestFrom floor none created h k = k
older-OldestFrom floor (some oldest) created h k = omega arith

-- A page with a next one, whose listings are from the floor on, is not the last.
pub is_last_page_above :
    (floor : ℕ) (next : Option String) (oldest : Option ℕ) (cursor : String)
    → next ≡ some cursor
    → OldestFrom floor oldest
    → HasOldest oldest
    → is_last_page (some floor) next oldest ≡ false
is_last_page_above floor none oldest cursor e h k = absurd (ground arith)
is_last_page_above floor (some c) none cursor e h k = elim k [ ]
is_last_page_above floor (some c) (some oldest) cursor e h k = ground arith

module _ (parse_offer : Json → Option DmarketOffer) (floor : ℕ) (seen : Ids) (at : ℕ) where
  read_offer-oldest :
      (entry : Json) (offer : DmarketOffer) (p : Poll)
      → (read_offer (some floor) seen at entry offer p).oldest_ms
        ≡ some (older p.oldest_ms offer.created_at_ms)
  unfolding read_offer
  read_offer-oldest entry offer p = ground arith

  read_parsed-OldestFrom :
      (entry : Json) (parsed : Option DmarketOffer) (p : Poll)
      → ((offer : DmarketOffer) → parsed ≡ some offer → floor ≤ offer.created_at_ms)
      → OldestFrom floor p.oldest_ms
      → OldestFrom floor (read_parsed (some floor) seen at entry parsed p).oldest_ms
  unfolding read_parsed
  read_parsed-OldestFrom entry none p above from = from
  read_parsed-OldestFrom entry (some offer) p above from =
      rw (read_offer-oldest entry offer p)
        (older-OldestFrom floor p.oldest_ms offer.created_at_ms from (above offer refl))

  pub read_entries-OldestFrom :
      (entries : List Json) (p : Poll)
      → ((e : Json) (offer : DmarketOffer)
          → In e entries
          → parse_offer e ≡ some offer
          → floor ≤ offer.created_at_ms)
      → OldestFrom floor p.oldest_ms
      → OldestFrom floor (read_entries parse_offer (some floor) seen at entries p).oldest_ms
  unfolding read_entries
  read_entries-OldestFrom [] p above from = from
  read_entries-OldestFrom (entry ∷ entries) p above from =
      read_entries-OldestFrom entries (read_parsed (some floor) seen at entry (parse_offer entry) p)
        (λ e offer m. above e offer (inr m))
        (read_parsed-OldestFrom entry (parse_offer entry) p (λ offer. above entry offer (inl refl))
          from)

  read_parsed-HasOldest :
      (entry : Json) (parsed : Option DmarketOffer) (p : Poll)
      → HasOldest p.oldest_ms
      → HasOldest (read_parsed (some floor) seen at entry parsed p).oldest_ms
  unfolding read_parsed
  read_parsed-HasOldest entry none p h = h
  read_parsed-HasOldest entry (some offer) p h = rw (read_offer-oldest entry offer p) tt

  read_entries-keeps :
      (entries : List Json) (p : Poll)
      → HasOldest p.oldest_ms
      → HasOldest (read_entries parse_offer (some floor) seen at entries p).oldest_ms
  unfolding read_entries
  read_entries-keeps [] p h = h
  read_entries-keeps (entry ∷ entries) p h =
      read_entries-keeps entries (read_parsed (some floor) seen at entry (parse_offer entry) p)
        (read_parsed-HasOldest entry (parse_offer entry) p h)

  read_parsed_dates :
      (entry : Json) (offer : DmarketOffer) (parsed : Option DmarketOffer) (p : Poll)
      → parsed ≡ some offer
      → HasOldest (read_parsed (some floor) seen at entry parsed p).oldest_ms
  unfolding read_parsed
  read_parsed_dates entry offer none p e = absurd (ground arith)
  read_parsed_dates entry offer (some o) p e = rw (read_offer-oldest entry o p) tt

  -- A page that holds a listing has an oldest one.
  pub read_entries-HasOldest :
      (e : Json) (offer : DmarketOffer) (entries : List Json) (p : Poll)
      → In e entries
      → parse_offer e ≡ some offer
      → HasOldest (read_entries parse_offer (some floor) seen at entries p).oldest_ms
  unfolding read_entries
  read_entries-HasOldest e offer [] p m parses = elim m [ ]
  read_entries-HasOldest e offer (entry ∷ entries) p (inr m) parses =
      read_entries-HasOldest e offer entries
        (read_parsed (some floor) seen at entry (parse_offer entry) p) m parses
  read_entries-HasOldest e offer (entry ∷ entries) p (inl same) parses =
      read_entries-keeps entries (read_parsed (some floor) seen at entry (parse_offer entry) p)
        (read_parsed_dates entry offer (parse_offer entry) p (ap parse_offer same ∙ parses))
