-- ===== src/Recording/Complete.antt =====
-- The filter drops no listing that the sticker rules of the DRE would approve.
use mathlib.Core.Path.{ap₂}
use brand_sniper_monorepo.Prelude.{
  ℕ, ◌+◌, ◌<◌, ◌≡◌, ◌≢◌, refl, sym, ap, ◌∙◌, ◌↔◌, String, true, false, List, [], ◌∷◌, Option, none,
  some, arith, ◌⊎◌, inl, inr, Bool-cases, subst, if◌then◌else◌, string_eq, eq_iff, str_eq, ◌==◌,
}
use brand_sniper_monorepo.Prelude.Dict.{Dict, lookup, lookup-insert, or_else, Distinct, contains}
use brand_sniper_monorepo.Tick.{MarketTick, Sticker}
use brand_sniper_monorepo.Edge.{Baseline, EdgeStore, hget}
use brand_sniper_monorepo.Pnl.{resale_venue_for}
use brand_sniper_monorepo.Rules.{
  sticker_reason, sum_stickers, named_price, sticker_value_cents, baseline_for,
}
use brand_sniper_monorepo.Recording.{
  recorded, ResalePrices, dict_at, load, load_prices, load_stickers, refresh, judge, judge_at,
  sum_held, count_or_zero, name_or_empty, positive_price, number_of, add_if,
}

abbrev then_read {ℓ κ} : {A : Type ℓ} {V : Type κ} → (A → Option V) → Option A → Option V
then_read read none = none
then_read read (some a) = read a

lookup-add_if {ℓ} :
    {V : Type ℓ} (k name : String) (o : Option V) (acc : Dict String V)
    → lookup k (add_if name o acc) ≡ (if name == k then or_else o (lookup k acc) else lookup k acc)
lookup-add_if k name none acc = ground arith
lookup-add_if k name (some v) acc = ground (arith, lookup-insert name k v acc)

absent_lookup {ℓ} :
    {A : Type ℓ} (k : String) (d : Dict String A) → contains k d ≡ false → lookup k d ≡ none
absent_lookup k d h = ground arith

lookup-load {ℓ κ} :
    {A : Type ℓ} {V : Type κ} (read : A → Option V) (k : String) (d : Dict String A)
    (acc : Dict String V)
    → Distinct d
    → lookup k (load read d acc) ≡ or_else (then_read read (lookup k d)) (lookup k acc)
unfolding load
lookup-load read k [] acc h = refl
lookup-load read k ((name, a) ∷ d) acc h =
    rw (lookup-load read k d (add_if name (read a) acc) h.1, lookup-add_if k name (read a) acc)
      (elim (Bool-cases (str_eq name k)) [
        | inl e ↦
            rw (e, absent_lookup k d (subst (λ n. contains n d ≡ false) ((eq_iff name k).0 e) h.0))
        | inr e ↦ rw e
      ])

or_else-none {ℓ} : {V : Type ℓ} (o : Option V) → or_else o none ≡ o
or_else-none none = refl
or_else-none (some v) = refl

-- The hashes of the edge store hold a field once.
pub record IsStored (venue : String) (store : EdgeStore) : Type 0 where
  pub baselines : Distinct (dict_at venue store.baselines)
  pub stickers : Distinct (dict_at venue store.sticker_prices)
  -- No sticker price is filed under the empty name.
  pub named : lookup "" (dict_at venue store.sticker_prices) ≡ none

held_price :
    (store : EdgeStore) (venue name : String)
    → Distinct (dict_at venue store.sticker_prices)
    → lookup name (load_stickers (dict_at venue store.sticker_prices))
      ≡ then_read number_of (lookup name (dict_at venue store.sticker_prices))
unfolding load_stickers
held_price store venue name h =
    lookup-load number_of name (dict_at venue store.sticker_prices) [] h ∙ or_else-none _

hget-dict_at {ℓ} :
    {V : Type ℓ} (venue name : String) (d : Dict String (Dict String V))
    → hget venue name d ≡ lookup name (dict_at venue d)
hget-dict_at venue name d = ground arith

-- The filter's total of the sticker prices is the DRE's.
sum_held-eq :
    (store : EdgeStore) (venue : String) (stickers : List Sticker)
    → IsStored venue store
    → sum_held (load_stickers (dict_at venue store.sticker_prices)) stickers
      ≡ sum_stickers (λ name. hget venue name store.sticker_prices) stickers
unfolding sum_held sum_stickers
sum_held-eq store venue [] h = refl
sum_held-eq store venue (sticker ∷ stickers) h =
    ap₂ ◌+◌ (one sticker.name) (sum_held-eq store venue stickers h)
  where
    one :
        (name : Option String)
        → count_or_zero
            (lookup (name_or_empty name) (load_stickers (dict_at venue store.sticker_prices)))
          ≡ named_price (λ name. hget venue name store.sticker_prices) name
    one none = rw (held_price store venue "" h.stickers, h.named)
    one (some name) =
        rw (held_price store venue name h.stickers)
          (ground (arith, hget-dict_at venue name store.sticker_prices, h.named, eq_iff name ""))

judge_at_iff :
    (price latest total : ℕ)
    → (judge_at price latest total ≡ recorded)
      ↔ ((price < latest) ⊎ (sticker_reason price latest total ≢ none))
unfolding judge_at sticker_reason
judge_at_iff price latest total = (λ h. ground arith, λ h. ground arith)

loaded :
    (id : String) (store : EdgeStore) (held now : ResalePrices)
    → refresh (some id) store held ≡ (now, true)
    → (now.latest_price_cents ≡ load_prices (dict_at held.venue store.baselines))
      × (now.sticker_prices_cents ≡ load_stickers (dict_at held.venue store.sticker_prices))
unfolding refresh
loaded id store held now h = ground arith

stored_price :
    (venue name : String) (store : EdgeStore) (b : Baseline) (latest : ℕ)
    → hget venue name store.baselines ≡ some b
    → b.latest_price_cents ≡ some latest
    → 0 < latest
    → then_read
        (λ document. positive_price document.latest_price_cents)
        (lookup name (dict_at venue store.baselines))
      ≡ some latest
stored_price venue name store b latest base price positive =
    rw (sym (hget-dict_at venue name store.baselines) ∙ base, price) (ground arith)

-- Once the filter has loaded the build of the tick's resale venue, whose hashes hold a field once and
-- have no sticker price under the empty name, it records a tick whose item has a positive latest
-- price there exactly when the tick costs less than that price or a sticker rule
-- of the DRE would approve it.
pub judge_lem :
    (tick : MarketTick) (id : String) (store : EdgeStore) (held now : ResalePrices) (b : Baseline)
    (latest : ℕ)
    → refresh (some id) store held ≡ (now, true)
    → held.venue ≡ resale_venue_for tick.venue
    → IsStored held.venue store
    → baseline_for tick store none ≡ some b
    → b.latest_price_cents ≡ some latest
    → 0 < latest
    → (judge tick now ≡ recorded) ↔ (
        (tick.price_cents < latest)
        ⊎ (sticker_reason tick.price_cents latest (sticker_value_cents tick store) ≢ none))
unfolding judge sticker_value_cents baseline_for load_prices
judge_lem tick id store held now b latest fresh venue stored base price positive =
    let (prices, stickers) = loaded id store held now fresh in
    let found : lookup tick.market_hash_name now.latest_price_cents ≡ some latest =
      ap (lookup tick.market_hash_name) prices
      ∙ lookup-load (λ document. positive_price document.latest_price_cents) tick.market_hash_name
          (dict_at held.venue store.baselines) [] stored.baselines
      ∙ or_else-none _
      ∙ stored_price held.venue tick.market_hash_name store b latest (rw venue base) price
          positive in
    let total : sum_held now.sticker_prices_cents tick.stickers
        ≡ sum_stickers (λ name. hget (resale_venue_for tick.venue) name store.sticker_prices)
            tick.stickers =
      ap (λ d. sum_held d tick.stickers) stickers
      ∙ sum_held-eq store held.venue tick.stickers stored
      ∙ ap (λ v. sum_stickers (λ name. hget v name store.sticker_prices) tick.stickers) venue in
    rw (found, total) (judge_at_iff tick.price_cents latest _)
