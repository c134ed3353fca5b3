-- ===== src/Dmarket/Once/CatchUps.antt =====
-- A page of catching up hands a listing on once.
use brand_sniper_monorepo.Prelude.{
  ℕ, ◌+◌, ◌≤◌, ◌≡◌, String, List, [], ◌∷◌, Option, none, some, arith, length, length-append,
  string_eq,
}
use brand_sniper_monorepo.Prelude.Dict.{contains}
use brand_sniper_monorepo.Prelude.Json.{Json}
use brand_sniper_monorepo.Prelude.Result.{Answered, Answered-bind, no_claim, Result, ok}
use brand_sniper_monorepo.Dmarket.{
  DmarketOffer, OffersPage, Ids, CatchUpGap, ListingPoller, ReadEntry,
}
use brand_sniper_monorepo.Dmarket.Remembered.{
  once, times_read, times_read-append, contains-remember, length-remember,
}
use brand_sniper_monorepo.Dmarket.Poller.{
  CatchUp, catch_up_entry, catch_up_entries, caught_up, catch_up_gaps, catch_up_page, is_end,
  fields_or_empty,
}
use brand_sniper_monorepo.Dmarket.Once.{OnceAfter}

-- So too while a page of catching up is read.
record IsCounted (max_seen : ℕ) (seen : Ids) (c : CatchUp) : Type 0 where
  counted :
      (id : String) → times_read id c.read + once (contains id seen) ≡ once (contains id c.seen)
  fits : length c.seen ≤ length seen + length c.read

module _ (max_seen : ℕ) (seen : Ids) (gap : CatchUpGap) (at : ℕ) where
  pub length-catch_up_entry :
      (entry : Json) (parsed : Option DmarketOffer) (c : CatchUp)
      → length c.read ≤ length (catch_up_entry max_seen gap at entry parsed c).read
  unfolding catch_up_entry
  length-catch_up_entry entry none c = omega (
    arith,
    length-append c.read
        (record { offer = none; entry = fields_or_empty entry; received_at_ms = at } ∷ []),
  )
  length-catch_up_entry entry (some offer) c = ground (
    arith,
    length-append c.read
        (record { offer = some offer; entry = fields_or_empty entry; received_at_ms = at } ∷ []),
  )

  catch_up_entry-IsCounted :
      (entry : Json) (parsed : Option DmarketOffer) (c : CatchUp)
      → length seen + length (catch_up_entry max_seen gap at entry parsed c).read ≤ max_seen
      → IsCounted max_seen seen c
      → IsCounted max_seen seen (catch_up_entry max_seen gap at entry parsed c)
  unfolding catch_up_entry times_read
  catch_up_entry-IsCounted entry none c room so_far =
      let r : ReadEntry = record {
        offer = none;
        entry = fields_or_empty entry;
        received_at_ms = at;
      } in
      record {
        counted = λ id. omega (arith, times_read-append id c.read (r ∷ []), so_far.counted id);
        fits = omega (arith, so_far.fits, length-append c.read (r ∷ []));
      }
  catch_up_entry-IsCounted entry (some offer) c room so_far =
      let r : ReadEntry = record {
        offer = some offer;
        entry = fields_or_empty entry;
        received_at_ms = at;
      } in
      record {
        counted = λ id. ground (
          arith,
          times_read-append id c.read (r ∷ []),
          length-append c.read (r ∷ []),
          so_far.counted id,
          so_far.fits,
          contains-remember max_seen offer.offer_id id c.seen,
          string_eq.beq_iff offer.offer_id id,
        );
        fits = ground (
          arith,
          so_far.fits,
          length-append c.read (r ∷ []),
          length-remember max_seen offer.offer_id c.seen,
        );
      }

  module _ (parse_offer : Json → Option DmarketOffer) where
    pub length-catch_up_entries :
        (entries : List Json) (c : CatchUp)
        → length c.read ≤ length (catch_up_entries parse_offer max_seen gap at entries c).read
    unfolding catch_up_entries
    length-catch_up_entries [] c = omega arith
    length-catch_up_entries (entry ∷ entries) c = omega (
      arith,
      length-catch_up_entry entry (parse_offer entry) c,
      length-catch_up_entries entries (catch_up_entry max_seen gap at entry (parse_offer entry) c),
    )

    catch_up_entries-IsCounted :
        (entries : List Json) (c : CatchUp)
        → length seen + length (catch_up_entries parse_offer max_seen gap at entries c).read
          ≤ max_seen
        → IsCounted max_seen seen c
        → IsCounted max_seen seen (catch_up_entries parse_offer max_seen gap at entries c)
    unfolding catch_up_entries
    catch_up_entries-IsCounted [] c room so_far = so_far
    catch_up_entries-IsCounted (entry ∷ entries) c room so_far =
        let next : CatchUp = catch_up_entry max_seen gap at entry (parse_offer entry) c in
        catch_up_entries-IsCounted entries next room (
          catch_up_entry-IsCounted entry (parse_offer entry) c
            (omega (arith, length-catch_up_entries entries next)) so_far)

module _ (parse_offer : Json → Option DmarketOffer) (fetch : String → Result (OffersPage × ℕ)) where
  caught_up-IsOnce :
      (poller : ListingPoller) (gap : CatchUpGap) (gaps : List CatchUpGap) (answer : OffersPage × ℕ)
      → OnceAfter poller (caught_up parse_offer poller gap gaps answer)
  unfolding times_read
  caught_up-IsOnce poller gap gaps (page, at) room =
      let done =
        catch_up_entries-IsCounted poller.max_seen poller.seen gap at parse_offer page.entries
          (record { seen = poller.seen; reached_end = is_end page.cursor page.entries; read = [] })
          room
          (record {
            counted = λ id. none_read (once (contains id poller.seen));
            fits = omega arith;
          }) in
      record { counted = done.counted; fits = done.fits }
    where
      none_read : (n : ℕ) → 0 + n ≡ n
      none_read n = omega arith

  catch_up_gaps-IsOnce :
      (poller : ListingPoller) (gaps : List CatchUpGap)
      → Answered (OnceAfter poller) (catch_up_gaps parse_offer fetch poller gaps)
  unfolding times_read
  catch_up_gaps-IsOnce poller [] =
      λ room. record { counted = λ id. omega arith; fits = omega arith }
  catch_up_gaps-IsOnce poller (gap ∷ gaps) =
      Answered-bind (λ a. Unit) (OnceAfter poller) (fetch gap.cursor)
        (λ answer. ok (caught_up parse_offer poller gap gaps answer)) (no_claim (fetch gap.cursor))
        (λ answer _. caught_up-IsOnce poller gap gaps answer)

  pub catch_up_page-IsOnce :
      (poller : ListingPoller)
      → Answered (OnceAfter poller) (catch_up_page parse_offer fetch poller)
  unfolding catch_up_page
  catch_up_page-IsOnce poller = catch_up_gaps-IsOnce poller poller.gaps
