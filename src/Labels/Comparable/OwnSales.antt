-- ===== src/Labels/Comparable/OwnSales.antt =====
-- A listing's own sale, when sales are recorded that were seen after its horizon.
use brand_sniper_monorepo.Prelude.{
  String, true, ◌≡◌, ◌⊎◌, refl, sym, List, [], ◌∷◌, ◌++◌, Option, none, some, arith, if◌then◌else◌,
  All, string_eq, ◌==◌, Bool-cases, inl, inr,
}
use brand_sniper_monorepo.Prelude.Int.{ℤ}
use brand_sniper_monorepo.Prelude.Dict.{Dict, lookup, insert, lookup-insert}
use brand_sniper_monorepo.Labels.{FeedSale}
use brand_sniper_monorepo.Labels.Sold.{is_first, first_sightings}
use brand_sniper_monorepo.Labels.Comparable.Horizon.{Late}

pub first_sightings-append :
    (sold later : List FeedSale) (d : Dict String FeedSale)
    → first_sightings (sold ++ later) d ≡ first_sightings later (first_sightings sold d)
first_sightings-append [] later d = refl
first_sightings-append (s ∷ sold) later d =
    first_sightings-append sold later
      (if is_first s (lookup s.listing_id d) then insert s.listing_id s d else d)

-- Each sale is stored under its listing.
abbrev pub IsKeyed : Dict String FeedSale → Type 0
IsKeyed d = (k : String) (s : FeedSale) → lookup k d ≡ some s → s.listing_id ≡ k

insert-IsKeyed :
    (s : FeedSale) (d : Dict String FeedSale) → IsKeyed d → IsKeyed (insert s.listing_id s d)
insert-IsKeyed s d keyed k t h =
    ground (arith, lookup-insert s.listing_id k s d, string_eq.beq_iff s.listing_id k, keyed k t)

pub first_sightings-IsKeyed :
    (sales : List FeedSale) (d : Dict String FeedSale)
    → IsKeyed d
    → IsKeyed (first_sightings sales d)
first_sightings-IsKeyed [] d keyed = keyed
first_sightings-IsKeyed (s ∷ sales) d keyed =
    elim (Bool-cases (is_first s (lookup s.listing_id d))) [
      | inl e ↦
          rw e (first_sightings-IsKeyed sales (insert s.listing_id s d) (insert-IsKeyed s d keyed))
      | inr e ↦ rw e (first_sightings-IsKeyed sales d keyed)
    ]

module _ (end : ℤ) where
  abbrev pub NoneEarly : Option FeedSale → Type 0
  NoneEarly none = Unit
  NoneEarly (some s) = Late end s

  abbrev pub SameEarly : Option FeedSale → Option FeedSale → Type 0
  SameEarly a b = (a ≡ b) ⊎ (NoneEarly a × NoneEarly b)

  is_first-NoneEarly :
      (s : FeedSale) (o : Option FeedSale) → Late end s → is_first s o ≡ true → NoneEarly o
  is_first-NoneEarly s none late first = tt
  is_first-NoneEarly s (some t) late first = ground arith

  SameEarly-trans : (a b c : Option FeedSale) → SameEarly a b → SameEarly b c → SameEarly a c
  SameEarly-trans a b c (inl e) h = rw e h
  SameEarly-trans a b c (inr (p, q)) (inl e) = inr (p, rw (sym e) q)
  SameEarly-trans a b c (inr (p, q)) (inr (r, s)) = inr (p, s)

  insert-SameEarly :
      (k : String) (s : FeedSale) (d : Dict String FeedSale)
      → Late end s
      → is_first s (lookup s.listing_id d) ≡ true
      → SameEarly (lookup k (insert s.listing_id s d)) (lookup k d)
  insert-SameEarly k s d late first = elim (Bool-cases (s.listing_id == k)) [
    | inl e ↦
        let same : s.listing_id ≡ k = (string_eq.beq_iff s.listing_id k).0 e in
        inr (
          rw (lookup-insert s.listing_id k s d, e) late,
          rw (sym same) (is_first-NoneEarly s (lookup s.listing_id d) late first),
        )
    | inr e ↦ inl (rw (lookup-insert s.listing_id k s d, e) refl)
  ]

  pub lookup-first_sightings :
      (k : String) (later : List FeedSale) (d : Dict String FeedSale)
      → All (Late end) later
      → SameEarly (lookup k (first_sightings later d)) (lookup k d)
  lookup-first_sightings k [] d h = inl refl
  lookup-first_sightings k (s ∷ later) d h =
      elim (Bool-cases (is_first s (lookup s.listing_id d))) [
        | inl e ↦ rw e (
            SameEarly-trans (lookup k (first_sightings later (insert s.listing_id s d)))
              (lookup k (insert s.listing_id s d)) (lookup k d)
              (lookup-first_sightings k later (insert s.listing_id s d) h.1)
              (insert-SameEarly k s d h.0 e))
        | inr e ↦ rw e (lookup-first_sightings k later d h.1)
      ]
