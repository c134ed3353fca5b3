-- ===== src/Labels/Comparable.antt =====
-- The sales a listing is compared with: bisection on the sorted sales (SoldIndex.comparable_prices
-- of apps/analytics/outcome_labels.py) against a plain filter of them.
pub mod Horizon
pub mod OwnSales
pub mod Unchanged
use brand_sniper_monorepo.Prelude.{
  ℕ, zero, suc, ◌≡◌, refl, ap, subst, String, Bool, true, false, not, ◌&&◌, List, [], ◌∷◌, arith,
  Bool-cases, inl, inr, All, take, drop, map, keep, ◌==◌, string_eq,
}
use brand_sniper_monorepo.Prelude.Int.{ℤ, ◌≤ℤ◌, ltb_ℤ, leb_ℤ}
use brand_sniper_monorepo.Labels.{FeedSale}
use brand_sniper_monorepo.Labels.Sold.{
  build, comes_before, insert_sale, sort_sales, seen_at_of, price_of, bisect_left, bisect_right,
  slice, prices_in_window, sales_by_name, comparable_prices, values, first_sighting_per_listing,
}

-- Each sale is not later than those after it.
pub IsSorted : List FeedSale → Type 0
IsSorted [] = Unit
IsSorted (s ∷ ss) = All (λ t. s.seen_at ≤ℤ t.seen_at) ss × IsSorted ss

abbrev pub in_window : ℤ → ℤ → FeedSale → Bool
in_window window_start window_end s = leb_ℤ window_start s.seen_at && leb_ℤ s.seen_at window_end

-- The filter keeps nothing of sales that are all too late.
keep-late :
    (a b : ℤ) (s : FeedSale) (ss : List FeedSale)
    → leb_ℤ s.seen_at b ≡ false
    → All (λ t. s.seen_at ≤ℤ t.seen_at) ss
    → keep (in_window a b) ss ≡ []
keep-late a b s [] late h = refl
keep-late a b s (t ∷ ts) late h =
    let out : in_window a b t ≡ false = ground (arith, h.0) in rw out (keep-late a b s ts late h.1)

bisect_left_zero :
    (a : ℤ) (s : FeedSale) (ss : List FeedSale)
    → ltb_ℤ s.seen_at a ≡ false
    → All (λ t. s.seen_at ≤ℤ t.seen_at) ss
    → bisect_left (map seen_at_of ss) a ≡ 0
bisect_left_zero a s [] in_time h = refl
bisect_left_zero a s (t ∷ ts) in_time h =
    let out : ltb_ℤ t.seen_at a ≡ false = ground (arith, h.0) in rw out refl

drop_nil : (n : ℕ) → drop {A = FeedSale} n [] ≡ []
drop_nil zero = refl
drop_nil (suc n) = refl

slice-window :
    (a b : ℤ) (sales : List FeedSale)
    → IsSorted sales
    → slice (bisect_left (map seen_at_of sales) a) (bisect_right (map seen_at_of sales) b) sales
      ≡ keep (in_window a b) sales
unfolding IsSorted
slice-window a b [] h = refl
slice-window a b (s ∷ ss) h = elim (Bool-cases (leb_ℤ s.seen_at b)) [
  | inr late ↦
      let out : in_window a b s ≡ false = ground (arith, late) in
      rw (out, late, keep-late a b s ss late h.0)
        (drop_nil (bisect_left (map seen_at_of (s ∷ ss)) a))
  | inl in_time ↦ elim (Bool-cases (ltb_ℤ s.seen_at a)) [
    | inl early ↦
        let out : leb_ℤ a s.seen_at ≡ false = ground arith in
        rw (in_time, early, out) (slice-window a b ss h.1)
    | inr on_time ↦
        let out : leb_ℤ a s.seen_at ≡ true = ground arith in
        rw (in_time, on_time, out)
          (ap (◌∷◌ s) (
            subst
              (λ n. drop n (take (bisect_right (map seen_at_of ss) b) ss) ≡ keep (in_window a b) ss)
              (bisect_left_zero a s ss on_time h.0) (slice-window a b ss h.1)))
  ]
]

Later : FeedSale → FeedSale → Type 0
Later s t = s.seen_at ≤ℤ t.seen_at

All-insert_sale :
    (r s : FeedSale) (ss : List FeedSale)
    → Later r s
    → All (Later r) ss
    → All (Later r) (insert_sale s ss)
All-insert_sale r s [] p h = (p, tt)
All-insert_sale r s (t ∷ ts) p h = elim (Bool-cases (comes_before t s)) [
  | inl e ↦ rw e (h.0, All-insert_sale r s ts p h.1)
  | inr e ↦ rw e (p, h)
]

All-Later : (s t : FeedSale) (ts : List FeedSale) → Later s t → All (Later t) ts → All (Later s) ts
unfolding Later
All-Later s t [] p h = tt
All-Later s t (u ∷ us) p h = (omega (arith, h.0), All-Later s t us p h.1)

All-keep :
    (s : FeedSale) (p : FeedSale → Bool) (ts : List FeedSale)
    → All (Later s) ts
    → All (Later s) (keep p ts)
All-keep s p [] h = tt
All-keep s p (t ∷ ts) h = elim (Bool-cases (p t)) [
  | inl e ↦ rw e (h.0, All-keep s p ts h.1)
  | inr e ↦ rw e (All-keep s p ts h.1)
]

insert_sale-IsSorted :
    (s : FeedSale) (ss : List FeedSale) → IsSorted ss → IsSorted (insert_sale s ss)
unfolding IsSorted Later
insert_sale-IsSorted s [] h = (tt, tt)
insert_sale-IsSorted s (t ∷ ts) h = elim (Bool-cases (comes_before t s)) [
  | inl e ↦
      let p : Later t s = ground (arith, e) in
      rw e (All-insert_sale t s ts p h.0, insert_sale-IsSorted s ts h.1)
  | inr e ↦ let p : Later s t = ground (arith, e) in rw e ((p, All-Later s t ts p h.0), h)
]

sort_sales-IsSorted : (ss : List FeedSale) → IsSorted (sort_sales ss)
unfolding IsSorted
sort_sales-IsSorted [] = tt
sort_sales-IsSorted (s ∷ ss) = insert_sale-IsSorted s (sort_sales ss) (sort_sales-IsSorted ss)

keep-IsSorted : (p : FeedSale → Bool) (ss : List FeedSale) → IsSorted ss → IsSorted (keep p ss)
unfolding IsSorted Later
keep-IsSorted p [] h = tt
keep-IsSorted p (s ∷ ss) h = elim (Bool-cases (p s)) [
  | inl e ↦ rw e (All-keep s p ss h.0, keep-IsSorted p ss h.1)
  | inr e ↦ rw e (keep-IsSorted p ss h.1)
]

-- On the index that labeling builds from any sales, bisection finds exactly the prices that a scan
-- of all sales of the name finds: those seen in the window, both its ends included, of other
-- listings than the excluded one, from the earliest to the latest.
pub comparable_prices_lem :
    (sold_sales : List FeedSale) (name : String) (window_start window_end : ℤ) (exclude : String)
    → comparable_prices (build sold_sales) name window_start window_end exclude
      ≡ map price_of (
          keep
            (λ s. not (s.listing_id == exclude))
            (keep (in_window window_start window_end) (
              keep
                (λ s. s.market_hash_name == name)
                (sort_sales (values (first_sighting_per_listing sold_sales))))))
unfolding comparable_prices build sales_by_name prices_in_window
comparable_prices_lem sold_sales name window_start window_end exclude =
    let sales = sort_sales (values (first_sighting_per_listing sold_sales)) in
    let named = keep (λ s. s.market_hash_name == name) sales in
    ap (λ xs. map price_of (keep (λ s. not (s.listing_id == exclude)) xs))
      (slice-window window_start window_end named (
        keep-IsSorted (λ s. s.market_hash_name == name) sales
          (sort_sales-IsSorted (values (first_sighting_per_listing sold_sales)))))
