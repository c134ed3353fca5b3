-- ===== src/Consumer/Complete.antt =====
-- What the listener receives is what it stores.
use mathlib.Core.Path.{ap₂}
use mathlib.Core.List.{append-nil}
use brand_sniper_monorepo.Prelude.{
  ℕ, ◌≡◌, ◌≢◌, refl, sym, subst, ap, ◌∙◌, String, true, List, [], ◌∷◌, ◌++◌, Option, inl, inr, ◌⊎◌,
}
use brand_sniper_monorepo.Config.{Settings}
use brand_sniper_monorepo.Tick.{feeds_price_window}
use brand_sniper_monorepo.Tick.Records.{FeedEvent, BatchRecord}
use brand_sniper_monorepo.Edge.{Baseline, EdgeStore}
use brand_sniper_monorepo.Zscore.{Floats, Thresholds}
use brand_sniper_monorepo.Detection.{Answers, read_size}
use brand_sniper_monorepo.Intake.{StreamItem, market_tick, feed_event, Memory, take}
use brand_sniper_monorepo.Intake.Records.{is_kept, record_of, take_recorded}
use brand_sniper_monorepo.Buffers.{Flushed, scheduled, refused, Batch, Buffers, consume}
use brand_sniper_monorepo.Buffers.Kept.{
  Contents, no_contents, join, join_empty, held, kept, all_contents, all_contents-snoc, contents_of,
  contents_recorded, all_handled, EndsWith, none_held, not_stored, stored_once, stored_twice,
}
use brand_sniper_monorepo.Buffers.Conserved.{AllScheduled, consume-IsConserved}
use brand_sniper_monorepo.Consumer.{
  Arrival, item_at, silence, new_memory, new_buffers, events_of, tick_consumer,
}

-- The item and the calls for it are those of a listener that is well: the calls return, and a tick of
-- the price window names its listing or is a snapshot.
abbrev pub IsWell : {P : Type 0} → Arrival P → Type 0
IsWell (silence fresh flushed) = flushed ≡ scheduled
IsWell (item_at now fresh flushed answers store (feed_event event)) = flushed ≡ scheduled
IsWell (item_at now fresh flushed answers store (market_tick tick)) =
    (flushed ≡ scheduled)
    × (answers read_size ≡ true)
    × (feeds_price_window tick ≡ true → is_kept tick ≡ true)

abbrev pub AllWell : {P : Type 0} → List (Arrival P) → Type 0
AllWell [] = Unit
AllWell (a ∷ arrivals) = IsWell a × AllWell arrivals

-- The records of all ticks and all feed events that arrive.
abbrev pub arrived : {P : Type 0} → List (Arrival P) → Contents BatchRecord (FeedEvent P)
arrived [] = no_contents _ _
arrived (silence fresh flushed ∷ arrivals) = arrived arrivals
arrived (item_at now fresh flushed answers store item ∷ arrivals) =
    join _ _ (contents_recorded _ _ (record_of item)) (arrived arrivals)

module _ (fl : Floats) (t : Thresholds fl) (coefficient_of_variation : Baseline → Option fl.Float)
    (cfg : Settings) (P : Type 0) where
  take-well :
      (now : ℕ) (fresh : String) (flushed : Flushed) (answers : Answers) (store : EdgeStore)
      (item : StreamItem P) (m : Memory)
      → IsWell (item_at now fresh flushed answers store item)
      → (take fl t coefficient_of_variation cfg answers store item m).recorded ≡ record_of item
  take-well now fresh flushed answers store (feed_event event) m w =
      elim (take_recorded fl t coefficient_of_variation cfg {P = P} answers store (feed_event event)
        m) [ inl r ↦ r.0 | inr r ↦ absurd r.1 ]
  take-well now fresh flushed answers store (market_tick tick) m w =
      elim (take_recorded fl t coefficient_of_variation cfg {P = P} answers store (market_tick tick)
        m) [
          | inl r ↦ r.0
          | inr (r, (e, inl l)) ↦ cc (l.1, w.2 e)
          | inr (r, (e, inr l)) ↦ cc (l.3, w.1)
        ]

  events-arrived :
      (arrivals : List (Arrival P)) (m : Memory)
      → AllWell arrivals
      → (all_handled _ _ (events_of fl t coefficient_of_variation cfg arrivals m)
          ≡ arrived arrivals)
        × AllScheduled _ _ (events_of fl t coefficient_of_variation cfg arrivals m)
  events-arrived [] m w = (refl, tt)
  events-arrived (silence fresh flushed ∷ arrivals) m w =
      let (a, s) = events-arrived arrivals m w.1 in (a, (w.0, s))
  events-arrived (item_at now fresh flushed answers store item ∷ arrivals) m w =
      let taken = take fl t coefficient_of_variation cfg answers store item m in
      let (a, s) = events-arrived arrivals taken.memory w.1 in
      (
        ap₂ (λ r rest. join _ _ (contents_recorded _ _ r) rest)
            (take-well now fresh flushed answers store item m w.0) a,
        (flushed_well now fresh flushed answers store item w.0, s),
      )
    where
      flushed_well :
          (now : ℕ) (fresh : String) (flushed : Flushed) (answers : Answers) (store : EdgeStore)
          (item : StreamItem P)
          → IsWell (item_at now fresh flushed answers store item)
          → flushed ≡ scheduled
      flushed_well now fresh flushed answers store (feed_event event) w = w
      flushed_well now fresh flushed answers store (market_tick tick) w = w.0

  -- The batches hold the contents, once each and in order; the last may stand twice.
  pub record HasStored (contents : Contents BatchRecord (FeedEvent P))
      (stored : List (Batch BatchRecord (FeedEvent P))) : Type 0 where
    pub once : List (Batch BatchRecord (FeedEvent P))
    pub again : List (Batch BatchRecord (FeedEvent P))
    pub split : stored ≡ once ++ again
    pub contained : all_contents _ _ once ≡ contents
    pub repeats :
        (again ≡ [])
        ⊎ ((front : List (Batch BatchRecord (FeedEvent P))) × (last : Batch BatchRecord
              (FeedEvent P))
            × (once ≡ front ++ last ∷ [])
            × (again ≡ last ∷ []))

  added :
      (last : Buffers BatchRecord (FeedEvent P)) (batch : Batch BatchRecord (FeedEvent P))
      → contents_of _ _ batch ≡ held _ _ last
      → all_contents _ _ (last.stored ++ batch ∷ []) ≡ kept _ _ last
  added last batch h =
      all_contents-snoc _ _ last.stored batch ∙ ap (join _ _ (all_contents _ _ last.stored)) h

  ends-HasStored :
      (final : Flushed) (raised : Option Flushed) (last : Buffers BatchRecord (FeedEvent P))
      (stored : List (Batch BatchRecord (FeedEvent P)))
      → final ≢ refused
      → EndsWith _ _ final raised last stored
      → HasStored (kept _ _ last) stored
  ends-HasStored final raised last _ n (none_held h) = record {
    once = last.stored;
    again = [];
    split = sym (append-nil last.stored);
    contained = sym (
        ap (join _ _ (all_contents _ _ last.stored)) h
        ∙ join_empty _ _ (all_contents _ _ last.stored));
    repeats = inl refl;
  }
  ends-HasStored final raised last _ n (not_stored r) = absurd (n r)
  ends-HasStored final raised last _ n (stored_once batch h) = record {
    once = last.stored ++ batch ∷ [];
    again = [];
    split = sym (append-nil _);
    contained = added last batch h;
    repeats = inl refl;
  }
  ends-HasStored final raised last _ n (stored_twice batch r h) = record {
    once = last.stored ++ batch ∷ [];
    again = batch ∷ [];
    split = refl;
    contained = added last batch h;
    repeats = inr (last.stored, batch, refl, refl);
  }

  -- When every flush of the loop returns, the window's size can be read, every tick of the price window
  -- names its listing or is a snapshot, and the store does not refuse the final flush, then the batches
  -- in the store at the end hold the records of all ticks and all feed events that arrived, once each and
  -- in their order of arrival, but for the last batch, which may stand twice.
  pub tick_consumer-HasStored :
      (limit interval : ℕ) (fresh : String) (final : Flushed) (arrivals : List (Arrival P))
      → AllWell arrivals
      → final ≢ refused
      → HasStored
          (arrived arrivals)
          (tick_consumer fl t coefficient_of_variation cfg limit interval fresh final
            arrivals).stored
  unfolding tick_consumer
  tick_consumer-HasStored limit interval fresh final arrivals w n =
      let events = events_of fl t coefficient_of_variation cfg arrivals new_memory in
      let (handled_all, all_scheduled) = events-arrived arrivals new_memory w in
      let c = consume-IsConserved _ _ limit interval fresh final events new_buffers in
      subst (λ x. HasStored x (consume limit interval fresh final events new_buffers).stored)
        (c.balance ∙ ap (all_handled _ _) (c.complete all_scheduled) ∙ handled_all)
        (ends-HasStored final _ c.last _ n c.ends)
