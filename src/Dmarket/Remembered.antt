-- ===== src/Dmarket/Remembered.antt =====
-- How often a listing is among the entries read, and what the poller remembers of listings while it has room.
use brand_sniper_monorepo.Prelude.{
  ℕ, suc, ◌+◌, ◌≤◌, ◌≡◌, refl, String, Bool, true, false, ◌||◌, List, [], ◌∷◌, ◌++◌, Option, none,
  some, arith, length, length-append, leb, string_eq, ◌==◌, Bool-cases, inl, inr,
}
use brand_sniper_monorepo.Prelude.Dict.{contains, erase, insert_last, lookup-insert_last}
use brand_sniper_monorepo.Lru.{put, evict_oldest_fits}
use brand_sniper_monorepo.Dmarket.{DmarketOffer, Ids, ReadEntry}
use brand_sniper_monorepo.Dmarket.Poller.{
  remember, remember_all, insert_read, sort_read, created_or_zero,
}

-- Once if the ID is in the set.
abbrev pub once : Bool → ℕ
once true = 1
once false = 0

-- How often a listing is among those read.
abbrev pub is_listing : String → Option DmarketOffer → Bool
is_listing listing_id none = false
is_listing listing_id (some offer) = offer.offer_id == listing_id

unfoldable pub times_read : String → List ReadEntry → ℕ
times_read listing_id [] = 0
times_read listing_id (r ∷ rest) = once (is_listing listing_id r.offer) + times_read listing_id rest

pub times_read-append :
    (listing_id : String) (xs ys : List ReadEntry)
    → times_read listing_id (xs ++ ys) ≡ times_read listing_id xs + times_read listing_id ys
unfolding times_read
times_read-append listing_id [] ys = omega arith
times_read-append listing_id (x ∷ xs) ys = omega (arith, times_read-append listing_id xs ys)

times_read-insert_read :
    (listing_id : String) (r : ReadEntry) (rest : List ReadEntry)
    → times_read listing_id (insert_read r rest) ≡ times_read listing_id (r ∷ rest)
unfolding times_read insert_read
times_read-insert_read listing_id r [] = refl
times_read-insert_read listing_id r (s ∷ rest) =
    elim (Bool-cases (leb (created_or_zero r.offer) (created_or_zero s.offer))) [
      | inl e ↦ rw e refl
      | inr e ↦ rw e (omega (arith, times_read-insert_read listing_id r rest))
    ]

-- Sorting keeps each as often as it was.
pub times_read-sort_read :
    (listing_id : String) (rs : List ReadEntry)
    → times_read listing_id (sort_read rs) ≡ times_read listing_id rs
unfolding times_read sort_read
times_read-sort_read listing_id [] = refl
times_read-sort_read listing_id (r ∷ rs) =
    omega (
      arith,
      times_read-insert_read listing_id r (sort_read rs),
      times_read-sort_read listing_id rs,
    )

pub length-insert_read :
    (r : ReadEntry) (rest : List ReadEntry) → length (insert_read r rest) ≡ suc (length rest)
unfolding insert_read
length-insert_read r [] = refl
length-insert_read r (s ∷ rest) =
    elim (Bool-cases (leb (created_or_zero r.offer) (created_or_zero s.offer))) [
      | inl e ↦ rw e refl
      | inr e ↦ rw e (omega (arith, length-insert_read r rest))
    ]

pub length-sort_read : (rs : List ReadEntry) → length (sort_read rs) ≡ length rs
unfolding sort_read
length-sort_read [] = refl
length-sort_read (r ∷ rs) = omega (arith, length-insert_read r (sort_read rs), length-sort_read rs)

length-erase-le : (k : String) (d : Ids) → length (erase k d) ≤ length d
length-erase-le k [] = omega arith
length-erase-le k ((j, _) ∷ d) = ground (arith, length-erase-le k d)

-- With room, a listing that is remembered joins the others.
remember-eq :
    (max_seen : ℕ) (listing_id : String) (seen : Ids)
    → length seen + 1 ≤ max_seen
    → remember max_seen listing_id seen ≡ insert_last listing_id tt seen
unfolding remember put
remember-eq max_seen listing_id seen room =
    evict_oldest_fits max_seen 0 (insert_last listing_id tt seen) (
      omega (
        arith,
        length-append (erase listing_id seen) ((listing_id, tt) ∷ []),
        length-erase-le listing_id seen,
      ))

pub contains-remember :
    (max_seen : ℕ) (k j : String) (seen : Ids)
    → length seen + 1 ≤ max_seen
    → contains j (remember max_seen k seen) ≡ (k == j || contains j seen)
contains-remember max_seen k j seen room =
    rw (remember-eq max_seen k seen room) (ground (arith, lookup-insert_last k j tt seen))

pub length-remember :
    (max_seen : ℕ) (k : String) (seen : Ids)
    → length seen + 1 ≤ max_seen
    → length (remember max_seen k seen) ≤ length seen + 1
length-remember max_seen k seen room =
    rw (remember-eq max_seen k seen room)
      (omega (arith, length-append (erase k seen) ((k, tt) ∷ []), length-erase-le k seen))

pub contains-remember_all :
    (max_seen : ℕ) (j : String) (ids seen : Ids)
    → length seen + length ids ≤ max_seen
    → contains j (remember_all max_seen ids seen) ≡ (contains j ids || contains j seen)
unfolding remember_all
contains-remember_all max_seen j [] seen room = refl
contains-remember_all max_seen j ((k, _) ∷ ids) seen room = ground (
  arith,
  contains-remember_all max_seen j ids (remember max_seen k seen),
  contains-remember max_seen k j seen,
  length-remember max_seen k seen,
)

pub length-remember_all :
    (max_seen : ℕ) (ids seen : Ids)
    → length seen + length ids ≤ max_seen
    → length (remember_all max_seen ids seen) ≤ length seen + length ids
unfolding remember_all
length-remember_all max_seen [] seen room = omega arith
length-remember_all max_seen ((k, _) ∷ ids) seen room = omega (
  arith,
  length-remember_all max_seen ids (remember max_seen k seen),
  length-remember max_seen k seen,
)
