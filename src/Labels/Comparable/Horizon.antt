-- ===== src/Labels/Comparable/Horizon.antt =====
-- A label uses no sale after its horizon: what a listing is labelled does not change when sales are
-- recorded that were seen later.
use brand_sniper_monorepo.Prelude.{
  String, Bool, true, false, ◌≡◌, refl, ap, ◌∙◌, List, [], ◌∷◌, arith, keep, All, string_eq, ◌==◌,
  Bool-cases, inl, inr,
}
use brand_sniper_monorepo.Prelude.Int.{ℤ, leb_ℤ}
use brand_sniper_monorepo.Prelude.Dict.{Dict, lookup, insert}
use brand_sniper_monorepo.Labels.{FeedSale}
use brand_sniper_monorepo.Labels.Sold.{
  is_first, first_sightings, comes_before, insert_sale, sort_sales, values,
}
use brand_sniper_monorepo.Labels.Comparable.{IsSorted, Later, sort_sales-IsSorted}

-- Seen no later than the end.
abbrev pub early : ℤ → FeedSale → Bool
early end s = leb_ℤ s.seen_at end

module _ (end : ℤ) where
  abbrev pub Late : FeedSale → Type 0
  Late s = early end s ≡ false

  -- A sale that is stored where none or a late one stood changes no early one.
  keep_stored :
      (k : String) (s : FeedSale) (d : Dict String FeedSale)
      → Late s
      → is_first s (lookup k d) ≡ true
      → keep (early end) (values (insert k s d)) ≡ keep (early end) (values d)
  keep_stored k s [] late first = rw late refl
  keep_stored k s ((j, t) ∷ d) late first = elim (Bool-cases (j == k)) [
    | inl e ↦ rw e (let gone : early end t ≡ false = ground arith in rw (late, gone) refl)
    | inr e ↦
        let rest : keep (early end) (values (insert k s d)) ≡ keep (early end) (values d) =
          keep_stored k s d late (ground arith) in
        rw (e, rest) refl
  ]

  pub first_sightings-early :
      (later : List FeedSale) (d : Dict String FeedSale)
      → All Late later
      → keep (early end) (values (first_sightings later d)) ≡ keep (early end) (values d)
  first_sightings-early [] d h = refl
  first_sightings-early (s ∷ later) d h = elim (Bool-cases (is_first s (lookup s.listing_id d))) [
    | inl e ↦ rw e (
        first_sightings-early later (insert s.listing_id s d) h.1
        ∙ keep_stored s.listing_id s d h.0 e)
    | inr e ↦ rw e (first_sightings-early later d h.1)
  ]

  -- Nothing that comes after a late sale is early.
  nothing_follows :
      (t : FeedSale) (ts : List FeedSale) → Late t → All (Later t) ts → keep (early end) ts ≡ []
  unfolding Later
  nothing_follows t [] late h = refl
  nothing_follows t (s ∷ ts) late h =
      let gone : early end s ≡ false = ground (arith, h.0) in
      rw gone (nothing_follows t ts late h.1)

  insert_sale_dropped :
      (s : FeedSale) (ts : List FeedSale)
      → Late s
      → keep (early end) (insert_sale s ts) ≡ keep (early end) ts
  insert_sale_dropped s [] late = rw late refl
  insert_sale_dropped s (t ∷ ts) late = elim (Bool-cases (comes_before t s)) [
    | inl e ↦ rw (e, insert_sale_dropped s ts late) refl
    | inr e ↦ rw (e, late) refl
  ]

  insert_sale-early :
      (s : FeedSale) (ts : List FeedSale)
      → early end s ≡ true
      → IsSorted ts
      → keep (early end) (insert_sale s ts) ≡ insert_sale s (keep (early end) ts)
  unfolding IsSorted Later
  insert_sale-early s [] soon h = rw soon refl
  insert_sale-early s (t ∷ ts) soon h = elim (Bool-cases (early end t)) [
    | inl kept ↦ elim (Bool-cases (comes_before t s)) [
      | inl e ↦ rw (e, kept, e, insert_sale-early s ts soon h.1) refl
      | inr e ↦ rw (e, soon, kept, e) refl
    ]
    | inr gone ↦
        let after : comes_before t s ≡ false = ground arith in
        rw (after, soon, gone, nothing_follows t ts gone h.0) refl
  ]

  pub keep-sort_sales :
      (ss : List FeedSale) → keep (early end) (sort_sales ss) ≡ sort_sales (keep (early end) ss)
  keep-sort_sales [] = refl
  keep-sort_sales (s ∷ ss) = elim (Bool-cases (early end s)) [
    | inl e ↦ rw e (
        insert_sale-early s (sort_sales ss) e (sort_sales-IsSorted ss)
        ∙ ap (insert_sale s) (keep-sort_sales ss))
    | inr e ↦ rw e (insert_sale_dropped s (sort_sales ss) e ∙ keep-sort_sales ss)
  ]
