-- ===== src/Buffers/Conserved.antt =====
-- The whole loop: where the records of its items are at the end.
use brand_sniper_monorepo.Prelude.{
  ℕ, ◌≡◌, refl, sym, ap, ◌∙◌, ◌≢◌, String, List, [], ◌∷◌, Option, none, some, Bool-cases, inl, inr,
  ◌⊎◌,
}
use brand_sniper_monorepo.Prelude.Result.{Result, ok, err, Error, connection_error, execution_error}
use brand_sniper_monorepo.Intake.{Recorded}
use brand_sniper_monorepo.Buffers.{
  Flushed, scheduled, refused, unanswered, unscheduled, Buffers, flush, holds, append, flush_if_due,
  due, time_or, Event, handled, quiet, turn, consume,
}
use brand_sniper_monorepo.Buffers.Kept.{
  join, join_assoc, join_empty, kept, kept-append, kept-flush, contents_handled, all_handled,
  EndsWith, close-EndsWith, raised-EndsWith,
}

module _ (R E : Type 0) where
  abbrev flushed_of : Event R E → Flushed
  flushed_of (handled now fresh flushed recorded) = flushed
  flushed_of (quiet fresh flushed) = flushed

  -- A turn of the loop: no flush, one that returns, or one that raises.
  pub data TurnView (limit interval : ℕ) (e : Event R E) (b : Buffers R E) : Type 0 where
    goes_on :
        (after : Buffers R E)
        → turn limit interval e b ≡ (after, ok tt)
        → kept R E after ≡ join R E (kept R E b) (contents_handled R E e)
        → TurnView limit interval e b
    raises :
        (fresh : String) (before : Buffers R E) (error : Error)
        → turn limit interval e b ≡ ((flush fresh (flushed_of e) before).0, err error)
        → kept R E before ≡ join R E (kept R E b) (contents_handled R E e)
        → flushed_of e ≢ scheduled
        → TurnView limit interval e b

  flush_view :
      (limit interval : ℕ) (e : Event R E) (b before : Buffers R E) (fresh : String)
      → turn limit interval e b ≡ flush fresh (flushed_of e) before
      → kept R E before ≡ join R E (kept R E b) (contents_handled R E e)
      → TurnView limit interval e b
  unfolding flush
  flush_view limit interval e b before fresh t k = elim (view (flushed_of e) refl) [
    | inl s ↦
        goes_on (flush fresh scheduled before).0 (t ∙ ap (λ f. flush fresh f before) s ∙ answered)
          (kept-flush R E fresh before ∙ k)
    | inr (error, r, n) ↦ raises fresh before error (t ∙ r) k n
  ]
    where
      answered : flush fresh scheduled before ≡ ((flush fresh scheduled before).0, ok tt)
      answered = refl

      view :
          (f : Flushed)
          → flushed_of e ≡ f
          → (flushed_of e ≡ scheduled)
            ⊎ ((error : Error) × (flush fresh (flushed_of e) before
                  ≡ ((flush fresh (flushed_of e) before).0, err error))
                × (flushed_of e ≢ scheduled))
      view scheduled e = inl e
      view refused e = inr (connection_error, rw e refl, λ s. cc (e, s))
      view unanswered e = inr (connection_error, rw e refl, λ s. cc (e, s))
      view unscheduled e = inr (execution_error, rw e refl, λ s. cc (e, s))

  turn-stays :
      (limit interval now : ℕ) (fresh : String) (flushed : Flushed) (r : Recorded R E)
      (b : Buffers R E)
      → TurnView limit interval (handled now fresh flushed r) b
  unfolding turn flush_if_due
  turn-stays limit interval now fresh flushed r b =
      let full = append r b in
      let dated = record full { oldest_at = some (time_or full.oldest_at now) } in
      elim (Bool-cases (holds full)) [
        | inr e ↦ goes_on full (rw e refl) (kept-append R E r b)
        | inl h ↦ elim (Bool-cases (due limit interval now full)) [
          | inr e ↦ goes_on dated (rw (h, e) refl) (kept-append R E r b)
          | inl e ↦
              flush_view limit interval (handled now fresh flushed r) b dated fresh (rw (h, e) refl)
                (kept-append R E r b)
        ]
      ]

  turn_view : (limit interval : ℕ) (e : Event R E) (b : Buffers R E) → TurnView limit interval e b
  unfolding turn
  turn_view limit interval (handled now fresh flushed r) b =
      turn-stays limit interval now fresh flushed r b
  turn_view limit interval (quiet fresh flushed) b = by_oldest b.oldest_at refl
    where
      by_oldest :
          (at : Option ℕ) → b.oldest_at ≡ at → TurnView limit interval (quiet fresh flushed) b
      by_oldest none e = goes_on b (rw e refl) (sym (join_empty R E (kept R E b)))
      by_oldest (some at) e =
          flush_view limit interval (quiet fresh flushed) b b fresh (rw e refl)
            (sym (join_empty R E (kept R E b)))

  -- Every flush in the loop returns.
  abbrev pub AllScheduled : List (Event R E) → Type 0
  AllScheduled [] = Unit
  AllScheduled (e ∷ es) = (flushed_of e ≡ scheduled) × AllScheduled es

  abbrev pub after_turn {ℓ} :
      {A : Type ℓ} → (Buffers R E → A) → A → Buffers R E × Result (Unit {0}) → A
  after_turn next stopped (b, ok _) = next b
  after_turn next stopped (b, err error) = stopped

  -- The events that the loop takes: those up to and with the first whose flush raises.
  abbrev pub taken : ℕ → ℕ → List (Event R E) → Buffers R E → List (Event R E)
  taken limit interval [] b = []
  taken limit interval (e ∷ es) b =
      e ∷ after_turn (taken limit interval es) [] (turn limit interval e b)

  -- The flush that raises in the loop, where one does.
  abbrev pub raised_in : ℕ → ℕ → List (Event R E) → Buffers R E → Option Flushed
  raised_in limit interval [] b = none
  raised_in limit interval (e ∷ es) b =
      after_turn (raised_in limit interval es) (some (flushed_of e)) (turn limit interval e b)

  -- `last` are the buffers before the flush that raised, or before the last one.
  pub record IsConserved (limit interval : ℕ) (final : Flushed) (es : List (Event R E))
      (b out : Buffers R E) : Type 0 where
    pub complete : AllScheduled es → taken limit interval es b ≡ es
    pub last : Buffers R E
    pub balance :
        kept R E last ≡ join R E (kept R E b) (all_handled R E (taken limit interval es b))
    pub ends : EndsWith R E final (raised_in limit interval es b) last out.stored

  add_turn :
      (limit interval : ℕ) (final : Flushed) (e : Event R E) (es : List (Event R E))
      (b after out : Buffers R E)
      → turn limit interval e b ≡ (after, ok tt)
      → kept R E after ≡ join R E (kept R E b) (contents_handled R E e)
      → IsConserved limit interval final es after out
      → IsConserved limit interval final (e ∷ es) b out
  add_turn limit interval final e es b after out t k c = record {
    complete = λ h. rw t (ap (λ l. e ∷ l) (c.complete h.1));
    last = c.last;
    balance =
        c.balance
        ∙ ap (λ x. join R E x (all_handled R E (taken limit interval es after))) k
        ∙ join_assoc R E (kept R E b) (contents_handled R E e)
            (all_handled R E (taken limit interval es after))
        ∙ ap
            (λ r.
              join R E (kept R E b)
                (all_handled R E (e ∷ after_turn (taken limit interval es) [] r)))
            (sym t);
    ends = rw t c.ends;
  }

  -- Whatever flushes fail, the records of the items up to and with the one whose flush raises, in their
  -- order, are those of the stored batches and of the buffers that the last flush had to store; these
  -- are in the store as one batch, or twice under one ID only where the `add` of the flush that raised
  -- took effect, and are lost only where the store refuses the final flush. Where every flush returns,
  -- these items are all.
  pub consume-IsConserved :
      (limit interval : ℕ) (fresh : String) (final : Flushed) (es : List (Event R E))
      (b : Buffers R E)
      → IsConserved limit interval final es b (consume limit interval fresh final es b)
  unfolding consume
  consume-IsConserved limit interval fresh final [] b = record {
    complete = λ h. refl;
    last = b;
    balance = sym (join_empty R E (kept R E b));
    ends = close-EndsWith R E fresh final none b;
  }
  consume-IsConserved limit interval fresh final (e ∷ es) b = elim (turn_view limit interval e b) [
    | raises drawn before error t k n ↦ record {
      complete = λ h. absurd (n h.0);
      last = before;
      balance =
          rw t (k ∙ ap (join R E (kept R E b)) (sym (join_empty R E (contents_handled R E e))));
      ends = rw t (raised-EndsWith R E drawn fresh (flushed_of e) final before n);
    }
    | goes_on after t k ↦ rw t (
        add_turn limit interval final e es b after (consume limit interval fresh final es after) t k
          (consume-IsConserved limit interval fresh final es after))
  ]
