-- ===== src/Recording/Batches.antt =====
-- `RawEventBatch` of apps/listener/scrapers/listing_filter.py: raw payloads grouped into one feed
-- event. A payload is carried and never read.
use mathlib.Core.List.{append-nil}
use brand_sniper_monorepo.Prelude.{
  ℕ, ◌+◌, ◌<◌, ◌≡◌, refl, inl, inr, String, Bool, false, ◌||◌, List, [], ◌∷◌, ◌++◌, Option, none,
  some, leb, length, if◌then◌else◌, arith, Bool-cases, sym, subst,
}

pub record RawEvent (P : Type 0) : Type 0 where
  pub event : String
  pub received_at_ms : ℕ
  pub payload : P

pub record RawEventBatch (P : Type 0) : Type 0 where
  pub venue : String
  pub max_events : ℕ
  pub max_age_ms : ℕ
  pub events : List (RawEvent P)

-- The feed event that groups the pending ones, received when the first of them was.
pub record GroupedEvent (P : Type 0) : Type 0 where
  pub received_at_ms : ℕ
  pub venue : String
  pub events : List (RawEvent P)

module _ {P : Type 0} where
  unfoldable pub add : String → P → ℕ → RawEventBatch P → RawEventBatch P
  add event payload received_at_ms batch = record batch {
    events =
        batch.events
        ++ record { event = event; received_at_ms = received_at_ms; payload = payload } ∷ [];
  }

  group : List (RawEvent P) → RawEventBatch P → RawEventBatch P × Option (GroupedEvent P)
  group [] batch = (batch, none)
  group (first ∷ rest) batch = (
    record batch { events = [] },
    some (record {
      received_at_ms = first.received_at_ms;
      venue = batch.venue;
      events = first ∷ rest;
    }),
  )

  -- `take`: the pending events as one feed event.
  unfoldable pub take_pending : RawEventBatch P → RawEventBatch P × Option (GroupedEvent P)
  unfolding group
  take_pending batch = group batch.events batch

  is_due : List (RawEvent P) → ℕ → RawEventBatch P → Bool
  is_due [] now_ms batch = false
  is_due (oldest ∷ rest) now_ms batch =
      leb batch.max_events (length (oldest ∷ rest))
      || leb (oldest.received_at_ms + batch.max_age_ms) now_ms

  unfoldable pub take_if_due : ℕ → RawEventBatch P → RawEventBatch P × Option (GroupedEvent P)
  unfolding is_due take_pending
  take_if_due now_ms batch =
      if is_due batch.events now_ms batch then take_pending batch else (batch, none)

  abbrev pub handed_on : Option (GroupedEvent P) → List (RawEvent P)
  handed_on none = []
  handed_on (some grouped) = grouped.events

  -- What is still pending is not due: the batch is not full and its oldest event not too old.
  abbrev pub NotDue : ℕ → RawEventBatch P → List (RawEvent P) → Type 0
  NotDue now_ms batch [] = Unit
  NotDue now_ms batch (oldest ∷ rest) =
      (length (oldest ∷ rest) < batch.max_events)
      × (now_ms < oldest.received_at_ms + batch.max_age_ms)

  group_lem :
      (events : List (RawEvent P)) (batch : RawEventBatch P)
      → events ≡ batch.events
      → (handed_on (group events batch).1 ++ (group events batch).0.events ≡ batch.events)
        × ((group events batch).0.events ≡ [])
  unfolding group
  group_lem [] batch e = (refl, sym e)
  group_lem (first ∷ rest) batch e = (rw append-nil e, refl)

  kept-NotDue :
      (events : List (RawEvent P)) (now_ms : ℕ) (batch : RawEventBatch P)
      → is_due events now_ms batch ≡ false
      → NotDue now_ms batch events
  unfolding is_due
  kept-NotDue [] now_ms batch h = tt
  kept-NotDue (oldest ∷ rest) now_ms batch h = ground arith

  -- Taking what is due hands on all pending events in their order or none, so none is lost or
  -- doubled, and what stays pending is neither full nor over age.
  pub take_if_due_lem :
      (now_ms : ℕ) (batch : RawEventBatch P)
      → (handed_on (take_if_due now_ms batch).1 ++ (take_if_due now_ms batch).0.events
          ≡ batch.events)
        × NotDue now_ms batch (take_if_due now_ms batch).0.events
  unfolding take_if_due
  take_if_due_lem now_ms batch = elim (Bool-cases (is_due batch.events now_ms batch)) [
    | inl due ↦
        let (all, empty) = group_lem batch.events batch refl in
        rw due (all, subst (NotDue now_ms batch) (sym empty) tt)
    | inr later ↦ rw later (refl, kept-NotDue batch.events now_ms batch later)
  ]
