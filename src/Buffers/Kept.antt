-- ===== src/Buffers/Kept.antt =====
-- No record is lost or stored out of order, whatever flushes fail.
use mathlib.Core.Path.{ap₂}
use mathlib.Core.List.{append_assoc, append-nil}
use brand_sniper_monorepo.Prelude.{
  ◌≡◌, refl, sym, ap, ◌∙◌, ◌≢◌, String, false, List, [], ◌∷◌, ◌++◌, Option, some, arith, Bool-cases,
  inl, inr,
}
use brand_sniper_monorepo.Intake.{Recorded, no_record, tick_record, event_record}
use brand_sniper_monorepo.Buffers.{
  Flushed, scheduled, refused, unanswered, unscheduled, Batch, Buffers, id_or, batch_to_store,
  flush, holds, append, Event, handled, quiet, close, store_batch,
}

module _ (R E : Type 0) where
  abbrev pub Contents : Type 0
  Contents = List R × List E

  abbrev pub no_contents : Contents
  no_contents = ([], [])

  abbrev pub join : Contents → Contents → Contents
  join c d = (c.0 ++ d.0, c.1 ++ d.1)

  pub join_assoc : (c d e : Contents) → join (join c d) e ≡ join c (join d e)
  join_assoc c d e = ap₂ (λ x y. (x, y)) (append_assoc c.0 d.0 e.0) (append_assoc c.1 d.1 e.1)

  pub join_empty : (c : Contents) → join c no_contents ≡ c
  join_empty c = ap₂ (λ x y. (x, y)) (append-nil c.0) (append-nil c.1)

  abbrev pub contents_of : Batch R E → Contents
  contents_of batch = (batch.ticks, batch.feed_events)

  abbrev pub held : Buffers R E → Contents
  held b = (b.ticks, b.feed_events)

  -- The records of batches, in order.
  abbrev pub all_contents : List (Batch R E) → Contents
  all_contents [] = no_contents
  all_contents (batch ∷ batches) = join (contents_of batch) (all_contents batches)

  pub all_contents-snoc :
      (batches : List (Batch R E)) (batch : Batch R E)
      → all_contents (batches ++ batch ∷ []) ≡ join (all_contents batches) (contents_of batch)
  all_contents-snoc [] batch = join_empty (contents_of batch)
  all_contents-snoc (b ∷ bs) batch =
      ap (join (contents_of b)) (all_contents-snoc bs batch)
      ∙ sym (join_assoc (contents_of b) (all_contents bs) (contents_of batch))

  -- What the store and the buffers hold together.
  abbrev pub kept : Buffers R E → Contents
  kept b = join (all_contents b.stored) (held b)

  abbrev pub contents_recorded : Recorded R E → Contents
  contents_recorded no_record = no_contents
  contents_recorded (tick_record r) = (r ∷ [], [])
  contents_recorded (event_record e) = ([], e ∷ [])

  abbrev pub contents_handled : Event R E → Contents
  contents_handled (handled now fresh flushed recorded) = contents_recorded recorded
  contents_handled (quiet fresh flushed) = no_contents

  abbrev pub all_handled : List (Event R E) → Contents
  all_handled [] = no_contents
  all_handled (e ∷ es) = join (contents_handled e) (all_handled es)

  held-append :
      (r : Recorded R E) (b : Buffers R E) → held (append r b) ≡ join (held b) (contents_recorded r)
  held-append no_record b = sym (join_empty (held b))
  held-append (tick_record r) b = ap (λ l. (b.ticks ++ r ∷ [], l)) (sym (append-nil b.feed_events))
  held-append (event_record e) b = ap (λ l. (l, b.feed_events ++ e ∷ [])) (sym (append-nil b.ticks))

  stored-append : (r : Recorded R E) (b : Buffers R E) → (append r b).stored ≡ b.stored
  stored-append no_record b = refl
  stored-append (tick_record r) b = refl
  stored-append (event_record e) b = refl

  pub kept-append :
      (r : Recorded R E) (b : Buffers R E) → kept (append r b) ≡ join (kept b) (contents_recorded r)
  kept-append r b =
      ap₂ (λ s h. join (all_contents s) h) (stored-append r b) (held-append r b)
      ∙ sym (join_assoc (all_contents b.stored) (held b) (contents_recorded r))

  pub kept-flush : (fresh : String) (b : Buffers R E) → kept (flush fresh scheduled b).0 ≡ kept b
  unfolding flush
  kept-flush fresh b =
      join_empty (all_contents (b.stored ++ batch_to_store fresh b ∷ []))
      ∙ all_contents-snoc b.stored (batch_to_store fresh b)

  -- The batches in the store at the end, where `last` are the buffers before the final flushes, of
  -- which `raised` may be one in the loop: nothing more, one batch of all that they held, or that batch
  -- twice, with one ID.
  pub data EndsWith (final : Flushed) (raised : Option Flushed) (last : Buffers R E)
      : List (Batch R E) → Type 0 where
    none_held : held last ≡ no_contents → EndsWith final raised last last.stored
    not_stored : final ≡ refused → EndsWith final raised last last.stored
    stored_once :
        (batch : Batch R E)
        → contents_of batch ≡ held last
        → EndsWith final raised last (last.stored ++ batch ∷ [])
    stored_twice :
        (batch : Batch R E)
        → raised ≡ some unanswered
        → contents_of batch ≡ held last
        → EndsWith final raised last ((last.stored ++ batch ∷ []) ++ batch ∷ [])

  empty-held : (b : Buffers R E) → holds b ≡ false → held b ≡ no_contents
  empty-held b h = ground (arith, h)

  flush-EndsWith :
      (fresh : String) (final : Flushed) (raised : Option Flushed) (b : Buffers R E)
      → EndsWith final raised b (flush fresh final b).0.stored
  unfolding flush
  flush-EndsWith fresh scheduled raised b = stored_once (batch_to_store fresh b) refl
  flush-EndsWith fresh refused raised b = not_stored refl
  flush-EndsWith fresh unanswered raised b = stored_once (batch_to_store fresh b) refl
  flush-EndsWith fresh unscheduled raised b = stored_once (batch_to_store fresh b) refl

  pub close-EndsWith :
      (fresh : String) (final : Flushed) (raised : Option Flushed) (b : Buffers R E)
      → EndsWith final raised b (close fresh final b).stored
  unfolding close
  close-EndsWith fresh final raised b = elim (Bool-cases (holds b)) [
    | inl e ↦ rw e (flush-EndsWith fresh final raised b)
    | inr e ↦ rw e (none_held (empty-held b e))
  ]

  -- After an `add` that took effect but raised, the second flush stores the same batch.
  twice-EndsWith :
      (fresh again : String) (final : Flushed) (b : Buffers R E)
      → EndsWith final (some unanswered) b (flush again final (store_batch fresh b)).0.stored
  unfolding flush
  twice-EndsWith fresh again scheduled b = stored_twice (batch_to_store fresh b) refl refl
  twice-EndsWith fresh again refused b = stored_once (batch_to_store fresh b) refl
  twice-EndsWith fresh again unanswered b = stored_twice (batch_to_store fresh b) refl refl
  twice-EndsWith fresh again unscheduled b = stored_twice (batch_to_store fresh b) refl refl

  unanswered-EndsWith :
      (fresh again : String) (final : Flushed) (b : Buffers R E)
      → EndsWith final (some unanswered) b (close again final (store_batch fresh b)).stored
  unfolding close
  unanswered-EndsWith fresh again final b = elim (Bool-cases (holds b)) [
    | inl e ↦ rw e (twice-EndsWith fresh again final b)
    | inr e ↦ rw e (stored_once (batch_to_store fresh b) refl)
  ]

  named-EndsWith :
      (again : String) (final : Flushed) (raised : Option Flushed) (b : Buffers R E)
      (id : Option String)
      → EndsWith final raised b (close again final (record b { batch_id = id })).stored
  unfolding close flush
  named-EndsWith again final raised b id = elim (Bool-cases (holds b)) [
    | inl e ↦ rw e (stores final)
    | inr e ↦ rw e (none_held (empty-held b e))
  ]
    where
      stores :
          (final : Flushed)
          → EndsWith final raised b (flush again final (record b { batch_id = id })).0.stored
      stores scheduled = stored_once (batch_to_store again (record b { batch_id = id })) refl
      stores refused = not_stored refl
      stores unanswered = stored_once (batch_to_store again (record b { batch_id = id })) refl
      stores unscheduled = stored_once (batch_to_store again (record b { batch_id = id })) refl

  pub raised-EndsWith :
      (fresh again : String) (flushed final : Flushed) (b : Buffers R E)
      → flushed ≢ scheduled
      → EndsWith final (some flushed) b (close again final (flush fresh flushed b).0).stored
  unfolding close flush
  raised-EndsWith fresh again scheduled final b h = absurd (h refl)
  raised-EndsWith fresh again unanswered final b h = unanswered-EndsWith fresh again final b
  raised-EndsWith fresh again unscheduled final b h = stored_once (batch_to_store fresh b) refl
  raised-EndsWith fresh again refused final b h =
      named-EndsWith again final (some refused) b (some (id_or b.batch_id fresh))
