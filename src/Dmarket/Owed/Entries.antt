-- ===== src/Dmarket/Owed/Entries.antt =====
-- What the entries of a page of catching up leave of a listing.
use brand_sniper_monorepo.Prelude.{
  ℕ, ◌+◌, ◌≤◌, ◌≡◌, refl, ap, ◌∙◌, String, true, false, List, [], ◌∷◌, Option, none, some, arith,
  length, length-append, string_eq, inl, inr, In,
}
use brand_sniper_monorepo.Prelude.Dict.{contains}
use brand_sniper_monorepo.Prelude.Json.{Json}
use brand_sniper_monorepo.Dmarket.{DmarketOffer, CatchUpGap}
use brand_sniper_monorepo.Dmarket.Remembered.{contains-remember, length-remember}
use brand_sniper_monorepo.Dmarket.Poller.{
  CatchUp, catch_up_entry, catch_up_entries, fields_or_empty,
}
use brand_sniper_monorepo.Dmarket.Once.CatchUps.{length-catch_up_entries}

module _ (max_seen : ℕ) (gap : CatchUpGap) (at : ℕ) (id : String) where
  -- There is room for what is still read up to `last`.
  abbrev RoomUntil : CatchUp → CatchUp → Type 0
  RoomUntil last c = length c.seen + length last.read ≤ max_seen + length c.read

  entry_room :
      (entry : Json) (parsed : Option DmarketOffer) (c last : CatchUp)
      → length (catch_up_entry max_seen gap at entry parsed c).read ≤ length last.read
      → RoomUntil last c
      → RoomUntil last (catch_up_entry max_seen gap at entry parsed c)
        × (contains id c.seen ≡ true
            → contains id (catch_up_entry max_seen gap at entry parsed c).seen ≡ true)
  unfolding catch_up_entry
  entry_room entry none c last grows room = (
    omega (
      arith,
      room,
      length-append c.read
          (record { offer = none; entry = fields_or_empty entry; received_at_ms = at } ∷ []),
    ),
    λ h. h,
  )
  entry_room entry (some offer) c last grows room = (
    ground (
      arith,
      length-append c.read
          (record { offer = some offer; entry = fields_or_empty entry; received_at_ms = at } ∷ []),
      length-remember max_seen offer.offer_id c.seen,
    ),
    λ h. ground (
      arith,
      length-append c.read
          (record { offer = some offer; entry = fields_or_empty entry; received_at_ms = at } ∷ []),
      contains-remember max_seen offer.offer_id id c.seen,
    ),
  )

  -- A listing of the gap on the page is seen after its entry.
  entry_seen :
      (entry : Json) (offer : DmarketOffer) (parsed : Option DmarketOffer) (c last : CatchUp)
      → parsed ≡ some offer
      → offer.offer_id ≡ id
      → gap.until_ms ≤ offer.created_at_ms
      → contains id gap.skip_ids ≡ false
      → length (catch_up_entry max_seen gap at entry parsed c).read ≤ length last.read
      → RoomUntil last c
      → contains id (catch_up_entry max_seen gap at entry parsed c).seen ≡ true
  unfolding catch_up_entry
  entry_seen entry offer none c last e same recent skip grows room = absurd (ground arith)
  entry_seen entry offer (some o) c last e same recent skip grows room = ground (
    arith,
    length-append c.read
        (record { offer = some o; entry = fields_or_empty entry; received_at_ms = at } ∷ []),
    contains-remember max_seen o.offer_id id c.seen,
    string_eq.beq_iff o.offer_id id,
  )

  entry_reached :
      (entry : Json) (parsed : Option DmarketOffer) (c : CatchUp)
      → ((o : DmarketOffer) → parsed ≡ some o → gap.until_ms ≤ o.created_at_ms)
      → c.reached_end ≡ false
      → (catch_up_entry max_seen gap at entry parsed c).reached_end ≡ false
  unfolding catch_up_entry
  entry_reached entry none c above h = h
  entry_reached entry (some o) c above h = ground (arith, above o refl)

  module _ (parse_offer : Json → Option DmarketOffer) where
    pub entries_keep :
        (entries : List Json) (c : CatchUp)
        → RoomUntil (catch_up_entries parse_offer max_seen gap at entries c) c
        → contains id c.seen ≡ true
        → contains id (catch_up_entries parse_offer max_seen gap at entries c).seen ≡ true
    unfolding catch_up_entries
    entries_keep [] c room h = h
    entries_keep (entry ∷ entries) c room h =
        let next : CatchUp = catch_up_entry max_seen gap at entry (parse_offer entry) c in
        let last : CatchUp = catch_up_entries parse_offer max_seen gap at entries next in
        let step =
          entry_room entry (parse_offer entry) c last
            (length-catch_up_entries max_seen [] gap at parse_offer entries next) room in
        entries_keep entries next step.0 (step.1 h)

    pub entries_reads :
        (e : Json) (offer : DmarketOffer) (entries : List Json) (c : CatchUp)
        → In e entries
        → parse_offer e ≡ some offer
        → offer.offer_id ≡ id
        → gap.until_ms ≤ offer.created_at_ms
        → contains id gap.skip_ids ≡ false
        → RoomUntil (catch_up_entries parse_offer max_seen gap at entries c) c
        → contains id (catch_up_entries parse_offer max_seen gap at entries c).seen ≡ true
    unfolding catch_up_entries
    entries_reads e offer [] c m parses same recent skip room = elim m [ ]
    entries_reads e offer (entry ∷ entries) c m parses same recent skip room =
        let next : CatchUp = catch_up_entry max_seen gap at entry (parse_offer entry) c in
        let last : CatchUp = catch_up_entries parse_offer max_seen gap at entries next in
        let grows : length next.read ≤ length last.read =
          length-catch_up_entries max_seen [] gap at parse_offer entries next in
        let later = (entry_room entry (parse_offer entry) c last grows room).0 in
        elim m [
          | inl here_it_is ↦ entries_keep entries next later (
              entry_seen entry offer (parse_offer entry) c last (ap parse_offer here_it_is ∙ parses)
                same recent skip grows room)
          | inr m' ↦ entries_reads e offer entries next m' parses same recent skip later
        ]

    pub entries_reached :
        (entries : List Json) (c : CatchUp)
        → ((a : Json) (o : DmarketOffer)
            → In a entries
            → parse_offer a ≡ some o
            → gap.until_ms ≤ o.created_at_ms)
        → c.reached_end ≡ false
        → (catch_up_entries parse_offer max_seen gap at entries c).reached_end ≡ false
    unfolding catch_up_entries
    entries_reached [] c above h = h
    entries_reached (entry ∷ entries) c above h =
        entries_reached entries (catch_up_entry max_seen gap at entry (parse_offer entry) c)
          (λ a o m. above a o (inr m))
          (entry_reached entry (parse_offer entry) c (λ o. above entry o (inl refl)) h)
