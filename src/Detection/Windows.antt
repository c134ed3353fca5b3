-- ===== src/Detection/Windows.antt =====
-- A tick reaches the window of its own item on its own venue only.
use brand_sniper_monorepo.Prelude.{
  ℕ, ◌≡◌, ◌≢◌, refl, true, ◌⊎◌, if◌then◌else◌, arith, string_eq, ap, sym, ◌∙◌, Bool-cases, inl, inr,
  ◌==◌,
}
use brand_sniper_monorepo.Prelude.Dict.{insert, lookup-insert}
use brand_sniper_monorepo.Prelude.Result.{ok}
use brand_sniper_monorepo.Config.{Settings}
use brand_sniper_monorepo.Tick.{MarketTick}
use brand_sniper_monorepo.EdgeWindows.{Member, SortedSet, push_price}
use brand_sniper_monorepo.Detection.{
  WindowKey, window_key_eq, window_key_beq_iff, Windows, set_or_empty, window_at, price_window_key,
  Answers, Call, add_price, count_prices, trim_window, member_of, push_member, push_to_window,
}

pub push_member_answered :
    (size : ℕ) (answers : Answers) (m : Member) (set : SortedSet)
    → ((c : Call) → answers c ≡ true)
    → push_member size answers m set ≡ (push_price size m set, ok tt)
unfolding push_member push_price
push_member_answered size answers m set h =
    rw (h add_price, h count_prices, h trim_window) (ground arith)

pub push_to_window-ok :
    (cfg : Settings) (answers : Answers) (tick : MarketTick) (windows : Windows)
    → ((c : Call) → answers c ≡ true)
    → (push_to_window cfg answers tick windows).1 ≡ ok tt
unfolding push_to_window
push_to_window-ok cfg answers tick windows h =
    ap (λ r. r.1)
      (push_member_answered cfg.sliding_window_size answers (member_of tick)
        (window_at (price_window_key tick) windows) h)

window_at-insert :
    (k key : WindowKey) (window : SortedSet) (windows : Windows)
    → window_at key (insert k window windows) ≡ (if k == key then window else window_at key windows)
window_at-insert k key window windows =
    ap set_or_empty (lookup-insert k key window windows)
    ∙ elim (Bool-cases (k == key)) [ inl e ↦ rw e refl | inr e ↦ rw e refl ]

-- Whatever calls fail, a tick changes no window of another item or of another venue; when all answer,
-- the window of its own item on its own venue is the old one with the tick's price pushed.
pub push_to_window_lem :
    (cfg : Settings) (answers : Answers) (tick : MarketTick) (windows : Windows)
    → ((key : WindowKey)
        → (key.venue ≢ tick.venue) ⊎ (key.market_hash_name ≢ tick.market_hash_name)
        → window_at key (push_to_window cfg answers tick windows).0 ≡ window_at key windows)
      × (((c : Call) → answers c ≡ true)
          → window_at
              (record { venue = tick.venue; market_hash_name = tick.market_hash_name })
              (push_to_window cfg answers tick windows).0
            ≡ push_price cfg.sliding_window_size (member_of tick) (
                window_at
                  (record { venue = tick.venue; market_hash_name = tick.market_hash_name })
                  windows))
unfolding push_to_window
push_to_window_lem cfg answers tick windows =
    let own = window_at (price_window_key tick) windows in
    let pushed = push_member cfg.sliding_window_size answers (member_of tick) own in
    (
      λ key other.
          window_at-insert (price_window_key tick) key pushed.0 windows
          ∙ differs (price_window_key tick) key pushed.0 (window_at key windows)
              (λ e. elsewhere key other e),
      λ h.
          window_at-insert (price_window_key tick) (price_window_key tick) pushed.0 windows
          ∙ same (price_window_key tick) pushed.0 own
          ∙ ap (λ r. r.0)
              (push_member_answered cfg.sliding_window_size answers (member_of tick) own h),
    )
  where
    elsewhere :
        (key : WindowKey)
        → (key.venue ≢ tick.venue) ⊎ (key.market_hash_name ≢ tick.market_hash_name)
        → price_window_key tick ≢ key
    elsewhere key (inl v) e = v (sym (ap (λ k. k.venue) e))
    elsewhere key (inr n) e = n (sym (ap (λ k. k.market_hash_name) e))

    differs : (k key : WindowKey) (a b : SortedSet) → k ≢ key → (if k == key then a else b) ≡ b
    differs k key a b h = ground (arith, window_key_beq_iff k key)

    same : (k : WindowKey) (a b : SortedSet) → (if k == k then a else b) ≡ a
    same k a b = ground (arith, window_key_beq_iff k k)
