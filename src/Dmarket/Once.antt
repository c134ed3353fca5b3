-- ===== src/Dmarket/Once.antt =====
-- The poller hands a listing on once, whatever DMarket answers.
pub mod CatchUps
pub mod Runs
use brand_sniper_monorepo.Prelude.{
  ℕ, zero, suc, ◌+◌, ◌-◌, ◌≤◌, ◌≡◌, refl, sym, ap, ◌∙◌, String, Bool, true, false, ◌||◌, List, [],
  ◌∷◌, ◌++◌, Option, none, some, arith, length, length-append, if◌then◌else◌, leb, ltb, string_eq,
  ◌==◌, Bool-cases, inl, inr,
}
use brand_sniper_monorepo.Prelude.Dict.{Dict, insert, contains, lookup-insert}
use brand_sniper_monorepo.Prelude.Json.{Json}
use brand_sniper_monorepo.Prelude.Result.{Answered, Answered-bind, no_claim, Result, ok, err, ◌>>=◌}
use brand_sniper_monorepo.Dmarket.{
  DmarketOffer, OffersPage, Ids, CatchUpGap, ListingPoller, ReadEntry, live_max_pages,
}
use brand_sniper_monorepo.Dmarket.Remembered.{
  once, is_listing, times_read, times_read-append, times_read-sort_read, length-sort_read,
  contains-remember, length-remember, contains-remember_all, length-remember_all,
}
use brand_sniper_monorepo.Dmarket.Poller.{
  remember, remember_all, Poll, CatchUp, read_offer, read_parsed, read_entries, read_page,
  poll_pages, polled, live_poll, catch_up_entry, catch_up_entries, caught_up, catch_up_page,
  note_recorded, is_last_page, is_below, is_end, fields_or_empty,
}

-- While there is room for what was read: the listings newly remembered are those handed on, each once.
pub record IsOnce (poller after : ListingPoller) (read : List ReadEntry) : Type 0 where
  pub counted :
      (id : String)
      → times_read id read + once (contains id poller.seen) ≡ once (contains id after.seen)
  pub fits : length after.seen ≤ length poller.seen + length read

abbrev pub HasRoom : ListingPoller → List ReadEntry → Type 0
HasRoom poller read = length poller.seen + length read ≤ poller.max_seen

abbrev pub OnceAfter : ListingPoller → ListingPoller × List ReadEntry → Type 0
OnceAfter poller done = HasRoom poller done.1 → IsOnce poller done.0 done.1

-- The IDs read in a poll are those of the listings it hands on, each once and none seen before.
pub record IsFresh (seen : Ids) (p : Poll) : Type 0 where
  pub unseen : (id : String) → contains id p.read_ids ≡ true → contains id seen ≡ false
  pub counted : (id : String) → times_read id p.read ≡ once (contains id p.read_ids)
  pub fits : length p.read_ids ≤ length p.read

contains-insert-eq :
    (k j : String) (d : Ids) → contains j (insert k tt d) ≡ (k == j || contains j d)
contains-insert-eq k j d = ground (arith, lookup-insert k j tt d)

length-insert-le : (k : String) (d : Ids) → length (insert k tt d) ≤ length d + 1
length-insert-le k [] = omega arith
length-insert-le k ((j, _) ∷ d) = ground (arith, length-insert-le k d)

module _ (floor : Option ℕ) (seen : Ids) (at : ℕ) where
  read_new-IsFresh :
      (r : ReadEntry) (offer : DmarketOffer) (p : Poll)
      → r.offer ≡ some offer
      → contains offer.offer_id seen ≡ false
      → contains offer.offer_id p.read_ids ≡ false
      → IsFresh seen p
      → IsFresh seen
          (record p { read = p.read ++ r ∷ []; read_ids = insert offer.offer_id tt p.read_ids })
  unfolding times_read
  read_new-IsFresh r offer p e u v fresh = record {
    unseen = λ id h. ground (
      arith,
      contains-insert-eq offer.offer_id id p.read_ids,
      fresh.unseen id,
      string_eq.beq_iff offer.offer_id id,
    );
    counted = λ id.
        rw (times_read-append id p.read (r ∷ []), e)
          (ground (
            arith,
            contains-insert-eq offer.offer_id id p.read_ids,
            fresh.counted id,
            string_eq.beq_iff offer.offer_id id,
          ));
    fits = omega (
      arith,
      fresh.fits,
      length-append p.read (r ∷ []),
      length-insert-le offer.offer_id p.read_ids,
    );
  }

  read_offer-IsFresh :
      (entry : Json) (offer : DmarketOffer) (p : Poll)
      → IsFresh seen p
      → IsFresh seen (read_offer floor seen at entry offer p)
  unfolding read_offer
  read_offer-IsFresh entry offer p fresh = elim (Bool-cases (is_below floor offer.created_at_ms)) [
    | inl e ↦ rw e (record { unseen = fresh.unseen; counted = fresh.counted; fits = fresh.fits })
    | inr e ↦
        elim (Bool-cases (contains offer.offer_id seen || contains offer.offer_id p.read_ids)) [
          | inl f ↦
              rw (e, f)
                (record { unseen = fresh.unseen; counted = fresh.counted; fits = fresh.fits })
          | inr f ↦
              rw (e, f)
                (let new =
                    read_new-IsFresh
                      (record {
                        offer = some offer;
                        entry = fields_or_empty entry;
                        received_at_ms = at;
                      })
                      offer p refl (ground arith) (ground arith) fresh in
                  record { unseen = new.unseen; counted = new.counted; fits = new.fits })
        ]
  ]

  read_parsed-IsFresh :
      (entry : Json) (parsed : Option DmarketOffer) (p : Poll)
      → IsFresh seen p
      → IsFresh seen (read_parsed floor seen at entry parsed p)
  unfolding read_parsed times_read
  read_parsed-IsFresh entry (some offer) p fresh = read_offer-IsFresh entry offer p fresh
  read_parsed-IsFresh entry none p fresh =
      let r : ReadEntry = record {
        offer = none;
        entry = fields_or_empty entry;
        received_at_ms = at;
      } in
      record {
        unseen = fresh.unseen;
        counted = λ id. omega (arith, times_read-append id p.read (r ∷ []), fresh.counted id);
        fits = omega (arith, fresh.fits, length-append p.read (r ∷ []));
      }

-- What every poll starts with.
pub start-IsFresh :
    (seen : Ids) (newest : Option ℕ)
    → IsFresh seen (record { newest_ms = newest; oldest_ms = none; read = []; read_ids = [] })
unfolding times_read
start-IsFresh seen newest = record {
  unseen = λ id h. absurd (ground arith);
  counted = λ id. refl;
  fits = omega arith;
}

module _ (parse_offer : Json → Option DmarketOffer) where
  read_entries-IsFresh :
      (floor : Option ℕ) (seen : Ids) (at : ℕ) (entries : List Json) (p : Poll)
      → IsFresh seen p
      → IsFresh seen (read_entries parse_offer floor seen at entries p)
  unfolding read_entries
  read_entries-IsFresh floor seen at [] p fresh = fresh
  read_entries-IsFresh floor seen at (entry ∷ entries) p fresh =
      read_entries-IsFresh floor seen at entries
        (read_parsed floor seen at entry (parse_offer entry) p)
        (read_parsed-IsFresh floor seen at entry (parse_offer entry) p fresh)

  pub poll_pages-IsFresh :
      (fetch : ℕ → Option String → Result (OffersPage × ℕ)) (floor : Option ℕ) (seen : Ids)
      (left request : ℕ) (cursor : Option String) (p : Poll)
      → IsFresh seen p
      → Answered
          (λ done. IsFresh seen done.0)
          (poll_pages parse_offer fetch floor seen left request cursor p)
  unfolding poll_pages
  poll_pages-IsFresh fetch floor seen zero request cursor p fresh = fresh
  poll_pages-IsFresh fetch floor seen (suc left) request cursor p fresh =
      Answered-bind (λ a. Unit) (λ done. IsFresh seen done.0) (fetch request cursor)
        (λ answer.
          let next = read_page parse_offer floor seen answer p in
          let rest =
            poll_pages parse_offer fetch floor seen left (request + 1) answer.0.cursor next in
          if is_last_page floor answer.0.cursor next.oldest_ms then ok (next, none) else rest)
        (no_claim (fetch request cursor))
        (λ answer _.
          let next : Poll = read_page parse_offer floor seen answer p in
          let kept : IsFresh seen next =
            read_entries-IsFresh floor seen answer.1 answer.0.entries
              (record p { oldest_ms = none })
              (record { unseen = fresh.unseen; counted = fresh.counted; fits = fresh.fits }) in
          if_Answered (is_last_page floor answer.0.cursor next.oldest_ms) next kept
            (poll_pages parse_offer fetch floor seen left (request + 1) answer.0.cursor next)
            (poll_pages-IsFresh fetch floor seen left (request + 1) answer.0.cursor next kept))
    where
      if_Answered :
          (last : Bool) (next : Poll)
          → IsFresh seen next
          → (rest : Result (Poll × Option String)) → Answered (λ done. IsFresh seen done.0) rest
          → Answered (λ done. IsFresh seen done.0) (if last then ok (next, none) else rest)
      if_Answered true next kept rest h = kept
      if_Answered false next kept rest h = h

  polled-IsOnce :
      (fetch : ℕ → Option String → Result (OffersPage × ℕ)) (poller : ListingPoller) (p : Poll)
      (left : Option String)
      → IsFresh poller.seen p
      → HasRoom poller (polled parse_offer fetch poller (p, left)).1
      → IsOnce poller
          (polled parse_offer fetch poller (p, left)).0
          (polled parse_offer fetch poller (p, left)).1
  polled-IsOnce fetch poller p left fresh room =
      let enough : length poller.seen + length p.read_ids ≤ poller.max_seen =
        omega (arith, fresh.fits, room, length-sort_read p.read) in
      record {
        counted = λ id. ground (
          arith,
          times_read-sort_read id p.read,
          fresh.counted id,
          fresh.unseen id,
          contains-remember_all poller.max_seen id p.read_ids poller.seen,
        );
        fits = omega (
          arith,
          fresh.fits,
          length-sort_read p.read,
          length-remember_all poller.max_seen p.read_ids poller.seen,
        );
      }

  pub live_poll-IsOnce :
      (fetch : ℕ → Option String → Result (OffersPage × ℕ)) (poller : ListingPoller)
      → Answered (OnceAfter poller) (live_poll parse_offer fetch poller)
  unfolding live_poll times_read
  live_poll-IsOnce fetch poller =
      let start : Poll = record {
        newest_ms = poller.newest_ms;
        oldest_ms = none;
        read = [];
        read_ids = [];
      } in
      Answered-bind (λ done. IsFresh poller.seen done.0) (OnceAfter poller)
        (poll_pages parse_offer fetch poller.next_floor_ms poller.seen live_max_pages 0 none start)
        (λ done. ok (polled parse_offer fetch poller done))
        (poll_pages-IsFresh fetch poller.next_floor_ms poller.seen live_max_pages 0 none start
          (start-IsFresh poller.seen poller.newest_ms))
        (λ done h. polled-IsOnce fetch poller done.0 done.1 h)
