-- ===== src/Purchases/Once.antt =====
-- A purchase that was placed is not placed again while it is remembered.
use brand_sniper_monorepo.Prelude.{
  ℕ, ◌≤◌, ◌≡◌, refl, String, Bool, true, false, none, some, [], ◌∷◌, ◌++◌, arith, length, subst,
  Bool-cases, inl, inr, ◌⊎◌,
}
use brand_sniper_monorepo.Prelude.Dict.{insert, contains}
use brand_sniper_monorepo.Lru.{
  length-evict_oldest, insert_evict, insert_second, contains-append, contains_head,
}
use brand_sniper_monorepo.Purchases.{
  PurchaseKey, Purchase, Bought, skipped, placed, failed, purchase_keys, remember_purchase,
  remember_both, execute, key_eq, key_beq_iff, key_beq,
}

-- Both keys of a new purchase are remembered.
remember_both_lem :
    (n : ℕ) (k s : PurchaseKey) (bought : Bought)
    → 2 ≤ n
    → contains k bought ≡ false
    → (contains k (remember_both n (k, s) bought) ≡ true)
      × (contains s (remember_both n (k, s) bought) ≡ true)
unfolding remember_both
remember_both_lem n k s bought room new =
    let (kept, e) = insert_evict n k tt bought (omega arith) new in
    let once : contains k (remember_purchase n k bought) ≡ true =
      rw e (contains-append k kept ((k, tt) ∷ []) (contains_head k tt [])) in
    let fits : length (kept ++ (k, tt) ∷ []) ≤ n =
      subst (λ d. length d ≤ n) e (length-evict_oldest n 0 (insert k tt bought)) in
    elim (Bool-cases (key_beq k s)) [
      | inl same ↦ rw same (
        once,
        subst (λ j. contains j (remember_purchase n k bought) ≡ true) ((key_beq_iff k s).0 same)
            once,
      )
      | inr other ↦ rw (other, e) (insert_second n k s tt tt kept room fits)
    ]

-- An execution places the order exactly when the purchase's key is not remembered and the order is
-- taken. A placed one leaves both of its keys remembered (with room for two); any other changes
-- nothing.
pub execute_lem :
    (n : ℕ) (accepts : Purchase → Bool) (day : ℕ) (p : Purchase) (bought : Bought)
    → 2 ≤ n
    → let (after, result) = execute n accepts day p bought in
      let (key, snapshot) = purchase_keys p day in
      ((result ≡ placed)
        × (contains key bought ≡ false)
        × (accepts p ≡ true)
        × (contains key after ≡ true)
        × (contains snapshot after ≡ true))
      ⊎ ((after ≡ bought)
          × ((result ≡ skipped) × (contains key bought ≡ true)
              ⊎ (result ≡ failed) × (contains key bought ≡ false) × (accepts p ≡ false)))
unfolding execute
execute_lem n accepts day p bought room =
    elim (Bool-cases (contains (purchase_keys p day).0 bought)) [
      | inl old ↦ rw (old, execute) (inr (refl, inl (refl, refl)))
      | inr new ↦ elim (Bool-cases (accepts p)) [
        | inl taken ↦
            let (k, s) =
              remember_both_lem n (purchase_keys p day).0 (purchase_keys p day).1 bought room new in
            rw (new, taken, execute) (inl (refl, refl, refl, k, s))
        | inr refused ↦ rw (new, refused, execute) (inr (refl, inr (refl, refl, refl)))
      ]
    ]

execute_remembered :
    (n : ℕ) (accepts : Purchase → Bool) (day : ℕ) (p : Purchase) (bought : Bought)
    → contains (purchase_keys p day).0 bought ≡ true
    → execute n accepts day p bought ≡ (bought, skipped)
unfolding execute
execute_remembered n accepts day p bought old = rw (old, execute) refl

execute_remembers :
    (n : ℕ) (accepts : Purchase → Bool) (day : ℕ) (p : Purchase) (bought : Bought)
    → 2 ≤ n
    → (execute n accepts day p bought).1 ≡ placed
    → (contains (purchase_keys p day).0 (execute n accepts day p bought).0 ≡ true)
      × (contains (purchase_keys p day).1 (execute n accepts day p bought).0 ≡ true)
execute_remembers n accepts day p bought room done =
    elim (execute_lem n accepts day p bought room) [
      | inl (_, _, _, k, s) ↦ (k, s)
      | inr (_, inl (e, _)) ↦ cc
      | inr (_, inr (e, _, _)) ↦ cc
    ]

-- Another purchase of the listing that was bought, or of no listing but of the same item on the same
-- venue, at the same price and on the same day.
abbrev pub Repeats : Purchase → ℕ → Purchase → ℕ → Type 0
Repeats p day q next_day =
    ((id : String) × (p.listing_id ≡ some id) × (q.listing_id ≡ some id) × (q.venue ≡ p.venue))
    ⊎ ((q.listing_id ≡ none)
        × (q.venue ≡ p.venue)
        × (q.market_hash_name ≡ p.market_hash_name)
        × (q.purchase_price_cents ≡ p.purchase_price_cents)
        × (next_day ≡ day))

-- A repeat has one of the keys of the purchase.
Repeats-purchase_keys :
    (p q : Purchase) (day next_day : ℕ)
    → Repeats p day q next_day
    → ((purchase_keys q next_day).0 ≡ (purchase_keys p day).0)
      ⊎ ((purchase_keys q next_day).0 ≡ (purchase_keys p day).1)
unfolding purchase_keys
Repeats-purchase_keys p q day next_day (inl (id, bought, again, venue)) = inl (ground arith)
Repeats-purchase_keys p q day next_day (inr (unlisted, venue, name, price, today)) =
    inr (ground arith)

-- With room for two keys, a placed purchase is not bought again by the next execution: not the same
-- listing of the venue, at whatever price and on whatever day, and, whether a listing or a snapshot was
-- bought, not a snapshot of its item on the venue at its price on that day.
pub execute_again :
    (n : ℕ) (accepts again : Purchase → Bool) (day next_day : ℕ) (p q : Purchase) (bought : Bought)
    → 2 ≤ n
    → (execute n accepts day p bought).1 ≡ placed
    → Repeats p day q next_day
    → execute n again next_day q (execute n accepts day p bought).0
      ≡ ((execute n accepts day p bought).0, skipped)
execute_again n accepts again day next_day p q bought room done repeats =
    let after = (execute n accepts day p bought).0 in
    let (k, s) = execute_remembers n accepts day p bought room done in
    execute_remembered n again next_day q after
      (elim (Repeats-purchase_keys p q day next_day repeats) [ inl e ↦ rw e k | inr e ↦ rw e s ])
