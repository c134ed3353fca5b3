-- ===== src/Intake/Records.antt =====
-- Which items the consumer records.
use brand_sniper_monorepo.Prelude.{
  ◌≡◌, refl, subst, Bool, true, false, ◌||◌, Option, Bool-cases, inl, inr, ◌⊎◌,
}
use brand_sniper_monorepo.Config.{Settings}
use brand_sniper_monorepo.Tick.{MarketTick, is_rest_snapshot, feeds_price_window}
use brand_sniper_monorepo.Tick.Records.{FeedEvent, BatchRecord, to_batch_record}
use brand_sniper_monorepo.Edge.{Baseline, EdgeStore}
use brand_sniper_monorepo.PriceWindow.{hourly_snapshot_due}
use brand_sniper_monorepo.Dedup.{get, windowed_at, is_duplicate, is_unchanged_snapshot}
use brand_sniper_monorepo.Zscore.{Floats, Thresholds}
use brand_sniper_monorepo.Detection.{Answers, read_size, unchanged_snapshot_enters_price_window}
use brand_sniper_monorepo.Intake.{
  StreamItem, market_tick, feed_event, Recorded, no_record, tick_record, event_record, Memory,
  names_listing, take, take_unchanged,
}

-- A tick that a duplicate is still recorded of: one of a listing, or a snapshot.
abbrev pub is_kept : MarketTick → Bool
is_kept tick = names_listing tick || is_rest_snapshot tick

-- The whole record of an item.
abbrev pub record_of : {P : Type 0} → StreamItem P → Recorded BatchRecord (FeedEvent P)
record_of (market_tick tick) = tick_record (to_batch_record tick)
record_of (feed_event event) = event_record event

-- The two ways in which a tick is left out.
abbrev pub Repeats : MarketTick → Memory → Type 0
Repeats tick m = (is_duplicate tick m.dedup ≡ true) × (is_kept tick ≡ false)

abbrev pub Unanswered : Answers → MarketTick → Memory → Type 0
Unanswered answers tick m =
    (is_duplicate tick m.dedup ≡ false)
    × (is_unchanged_snapshot tick m.dedup ≡ true)
    × (hourly_snapshot_due tick.timestamp (windowed_at (get tick m.dedup)) ≡ false)
    × (answers read_size ≡ false)

abbrev pub LeftOut : {P : Type 0} → Answers → StreamItem P → Memory → Type 0
LeftOut answers (feed_event event) m = ⊥
LeftOut answers (market_tick tick) m =
    (feeds_price_window tick ≡ true) × (Repeats tick m ⊎ Unanswered answers tick m)

module _ (fl : Floats) (t : Thresholds fl) (coefficient_of_variation : Baseline → Option fl.Float)
    (cfg : Settings) where
  abbrev pub RecordedOrLeftOut :
      {P : Type 0} → Answers → StreamItem P → Memory → Recorded BatchRecord (FeedEvent P) → Type 0
  RecordedOrLeftOut answers item m recorded =
      ((recorded ≡ record_of item) × (LeftOut answers item m → ⊥))
      ⊎ ((recorded ≡ no_record) × LeftOut answers item m)

  unchanged_recorded :
      (P : Type 0) (answers : Answers) (tick : MarketTick) (m : Memory)
      → feeds_price_window tick ≡ true
      → is_duplicate tick m.dedup ≡ false
      → is_unchanged_snapshot tick m.dedup ≡ true
      → RecordedOrLeftOut {P = P} answers
          (market_tick tick)
          m
          (take_unchanged fl t coefficient_of_variation {E = FeedEvent P} cfg answers tick m
            (unchanged_snapshot_enters_price_window cfg answers tick m.dedup m.windows)).recorded
  unfolding unchanged_snapshot_enters_price_window
  unchanged_recorded P answers tick m e d u =
      elim (Bool-cases (hourly_snapshot_due tick.timestamp (windowed_at (get tick m.dedup)))) [
        | inl due ↦ inl (rw due refl, λ l. not_left l due)
        | inr not_due ↦ elim (Bool-cases (answers read_size)) [
          | inl a ↦ inl (rw (not_due, a) refl, λ l. answered l a)
          | inr a ↦ inr (rw (not_due, a) refl, (e, inr (d, u, not_due, a)))
        ]
      ]
    where
      not_left :
          LeftOut {P = P} answers (market_tick tick) m
          → hourly_snapshot_due tick.timestamp (windowed_at (get tick m.dedup)) ≡ true
          → ⊥
      not_left (_, inl r) due = cc (r.0, d)
      not_left (_, inr r) due = cc (r.2, due)

      answered : LeftOut {P = P} answers (market_tick tick) m → answers read_size ≡ true → ⊥
      answered (_, inl r) a = cc (r.0, d)
      answered (_, inr r) a = cc (r.3, a)

  pub take_recorded :
      {P : Type 0}
      → (answers : Answers) (store : EdgeStore) (item : StreamItem P) (m : Memory)
      → RecordedOrLeftOut answers item m
          (take fl t coefficient_of_variation cfg answers store item m).recorded
  unfolding take
  take_recorded answers store (feed_event event) m = inl (refl, λ l. l)
  take_recorded {P = P} answers store (market_tick tick) m =
      elim (Bool-cases (feeds_price_window tick)) [
        | inr e ↦ inl (rw e refl, λ l. cc (e, l.0))
        | inl e ↦ elim (Bool-cases (is_duplicate tick m.dedup)) [
          | inl d ↦ elim (Bool-cases (is_kept tick)) [
            | inl k ↦
                inl (rw (e, d, k) refl, λ l. elim l.1 [ inl r ↦ cc (r.1, k) | inr r ↦ cc (r.0, d) ])
            | inr k ↦ inr (rw (e, d, k) refl, (e, inl (d, k)))
          ]
          | inr d ↦ elim (Bool-cases (is_unchanged_snapshot tick m.dedup)) [
            | inl u ↦
                subst (RecordedOrLeftOut {P = P} answers (market_tick tick) m) (rw (e, d, u) refl)
                  (unchanged_recorded P answers tick m e d u)
            | inr u ↦
                inl (rw (e, d, u) refl, λ l. elim l.1 [ inl r ↦ cc (r.0, d) | inr r ↦ cc (r.1, u) ])
          ]
        ]
      ]
