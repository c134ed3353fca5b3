-- ===== src/Ingestion/Buys.antt =====
-- A purchase is recorded once.
use mathlib.Core.Path.{ap₂}
use brand_sniper_monorepo.Prelude.{
  ◌≡◌, ◌≢◌, refl, sym, ap, ◌∙◌, All, String, Bool, true, false, ◌&&◌, ◌||◌, List, [], ◌∷◌, ◌++◌,
  none, some, arith, Bool-cases, inl, inr, string_eq, eq_iff, nat_eq, nat_beq_iff, ◌==◌,
}
use brand_sniper_monorepo.Ingestion.{
  Trade, clashes, same_text, same_buy, is_snapshot_buy, any, snapshot_already_bought, insert_trade,
}

-- The later of two trades is not of the earlier one's listing, and where it is a snapshot buy, not of the
-- earlier one's item at its price on its venue and day.
pub record IsOther (earlier later : Trade) : Type 0 where
  pub listing :
      (id : String)
      → earlier.listing_id ≡ some id
      → later.listing_id ≡ some id
      → earlier.venue ≢ later.venue
  pub snapshot :
      later.listing_id ≡ none
      → earlier.venue ≡ later.venue
      → earlier.item_id ≡ later.item_id
      → earlier.purchase_price_cents ≡ later.purchase_price_cents
      → earlier.day ≢ later.day

abbrev pub IsUnique : List Trade → Type 0
IsUnique [] = Unit
IsUnique (trade ∷ trades) = All (IsOther trade) trades × IsUnique trades

any-append :
    (p : Trade → Bool) (trades : List Trade) (trade : Trade)
    → any p (trades ++ trade ∷ []) ≡ (any p trades || p trade)
any-append p [] trade = ground arith
any-append p (t ∷ ts) trade = ground (arith, any-append p ts trade)

append-All :
    (P : Trade → Type 0) (trades : List Trade) (trade : Trade)
    → All P trades
    → P trade
    → All P (trades ++ trade ∷ [])
append-All P [] trade h p = (p, tt)
append-All P (t ∷ ts) trade (h, hs) p = (h, append-All P ts trade hs p)

-- What the two tests that let a trade pass say of one that is stored.
let_pass-IsOther :
    (earlier later : Trade)
    → clashes later earlier ≡ false
    → (is_snapshot_buy later && same_buy later earlier) ≡ false
    → IsOther earlier later
let_pass-IsOther earlier later apart fresh = record {
  listing = λ id e l v.
      (let venue : (later.venue == earlier.venue) ≡ true = (eq_iff _ _).1 (sym v) in
        let text : same_text later.listing_id earlier.listing_id ≡ true =
          ap₂ same_text l e ∙ (eq_iff id id).1 refl in
        ground (arith, apart, venue, text));
  snapshot = λ l v i p d.
      (let unlisted : is_snapshot_buy later ≡ true =
          ap (λ o. elim o [ none ↦ true | some listing_id ↦ false ]) l in
        let venue : (later.venue == earlier.venue) ≡ true = (eq_iff _ _).1 (sym v) in
        let item : (later.item_id == earlier.item_id) ≡ true = (nat_beq_iff _ _).1 (sym i) in
        let price : (later.purchase_price_cents == earlier.purchase_price_cents) ≡ true =
          (nat_beq_iff _ _).1 (sym p) in
        let day : (later.day == earlier.day) ≡ true = (nat_beq_iff _ _).1 (sym d) in
        ground (arith, fresh, unlisted, venue, item, price, day));
}

append-IsUnique :
    (trade : Trade) (trades : List Trade)
    → any (clashes trade) trades ≡ false
    → (is_snapshot_buy trade && snapshot_already_bought trade trades) ≡ false
    → IsUnique trades
    → IsUnique (trades ++ trade ∷ [])
unfolding snapshot_already_bought
append-IsUnique trade [] c s u = (tt, tt)
append-IsUnique trade (t ∷ ts) c s (others, u) = (
  append-All (IsOther t) ts trade others
      (let_pass-IsOther t trade (ground (arith, c)) (ground (arith, s))),
  append-IsUnique trade ts (ground (arith, c)) (ground (arith, s)) u,
)

pub insert_trade-IsUnique :
    (trade : Trade) (trades : List Trade) → IsUnique trades → IsUnique (insert_trade trade trades).0
unfolding insert_trade
insert_trade-IsUnique trade trades u =
    elim (Bool-cases (is_snapshot_buy trade && snapshot_already_bought trade trades)) [
      | inl e ↦ rw e u
      | inr e ↦ elim (Bool-cases (any (clashes trade) trades)) [
        | inl c ↦ rw (e, c) u
        | inr c ↦ rw (e, c) (append-IsUnique trade trades c e u)
      ]
    ]

-- Two trades of one purchase: of one listing, or of one snapshot buy.
pub record IsRepeat (m n : Trade) : Type 0 where
  pub clash : (t : Trade) → clashes m t ≡ clashes n t
  pub of_snapshot : is_snapshot_buy m ≡ is_snapshot_buy n
  pub same : is_snapshot_buy n ≡ true → m ≡ n
  pub itself : clashes m n ≡ true

any-same :
    (p q : Trade → Bool) (trades : List Trade)
    → ((t : Trade) → p t ≡ q t)
    → any p trades ≡ any q trades
any-same p q [] h = refl
any-same p q (t ∷ ts) h = ap₂ ◌||◌ (h t) (any-same p q ts h)

refused-clash :
    (m : Trade) (trades : List Trade)
    → any (clashes m) trades ≡ true
    → insert_trade m trades ≡ (trades, false)
unfolding insert_trade
refused-clash m trades c =
    elim (Bool-cases (is_snapshot_buy m && snapshot_already_bought m trades)) [
      | inl e ↦ rw e refl
      | inr e ↦ rw (e, c) refl
    ]

refused-bought :
    (m : Trade) (trades : List Trade)
    → (is_snapshot_buy m && snapshot_already_bought m trades) ≡ true
    → insert_trade m trades ≡ (trades, false)
unfolding insert_trade
refused-bought m trades e = rw e refl

pub insert_trade-again :
    (m n : Trade) (trades : List Trade)
    → IsRepeat m n
    → insert_trade m (insert_trade n trades).0 ≡ ((insert_trade n trades).0, false)
unfolding insert_trade
insert_trade-again m n trades r =
    elim (Bool-cases (is_snapshot_buy n && snapshot_already_bought n trades)) [
      | inl e ↦ rw e (refused-bought m trades (rw (r.same (ground (arith, e))) e))
      | inr e ↦ elim (Bool-cases (any (clashes n) trades)) [
        | inl c ↦
            rw (e, c) (refused-clash m trades (any-same (clashes m) (clashes n) trades r.clash ∙ c))
        | inr c ↦
            rw (e, c)
              (refused-clash m (trades ++ n ∷ [])
                (any-append (clashes m) trades n ∙ ground (arith, r.itself)))
      ]
    ]
