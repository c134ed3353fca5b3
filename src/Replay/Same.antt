-- ===== src/Replay/Same.antt =====
-- The replay of a stream goes through the states and the verdicts of the listener.
use mathlib.Core.Path.{ap₂}
use brand_sniper_monorepo.Prelude.{
  ◌≡◌, refl, sym, subst, ap, Bool, true, false, ◌&&◌, ◌||◌, if◌then◌else◌, List, [], ◌∷◌, Option,
  none, some, arith, Bool-cases, inl, inr,
}
use brand_sniper_monorepo.Prelude.Result.{Result, ok, err, ◌>>=◌}
use brand_sniper_monorepo.Config.{Settings}
use brand_sniper_monorepo.Tick.{MarketTick, feeds_price_window}
use brand_sniper_monorepo.Tick.Records.{FeedEvent}
use brand_sniper_monorepo.Edge.{Baseline, EdgeStore}
use brand_sniper_monorepo.Dedup.{is_duplicate, is_unchanged_snapshot, update_dedup_cache}
use brand_sniper_monorepo.Zscore.{Floats, Thresholds}
use brand_sniper_monorepo.Detection.{
  Verdict, all_answer, push_to_window, unchanged_snapshot_enters_price_window,
  update_window_and_detect,
}
use brand_sniper_monorepo.Strategy.{Decision}
use brand_sniper_monorepo.Strategy.Live.{Scored, verdict_logged, run_job, decide_lem}
use brand_sniper_monorepo.Intake.{
  StreamItem, market_tick, feed_event, Memory, Taken, Job, job_of, names_listing, take, take_tick,
  take_changed, take_unchanged,
}
use brand_sniper_monorepo.Replay.{
  ReplaySummary, Replayed, replay_item, replay_tick, replay_unchanged, log_decision, should_log,
}

abbrev result_or {ℓ} : {A : Type ℓ} → A → Result A → A
result_or a (ok b) = b
result_or a (err e) = a

module _ (fl : Floats) (t : Thresholds fl) (coefficient_of_variation : Baseline → Option fl.Float)
    (cfg : Settings) where
  abbrev pub Found : Type 0
  Found = Bool × Option (Scored fl t coefficient_of_variation × Verdict)

  -- What the log tells of an item.
  abbrev pub found_in : Option (Decision fl t coefficient_of_variation) → Found
  found_in none = (false, none)
  found_in (some decision) = verdict_logged fl t coefficient_of_variation decision

  -- The verdict of the job that the listener submits on an item.
  abbrev pub verdict_on :
      {P : Type 0}
      → EdgeStore
      → StreamItem P
      → Option (Job fl t coefficient_of_variation)
      → Result Found
  verdict_on store (feed_event event) job = ok (false, none)
  verdict_on store (market_tick tick) job = run_job fl t coefficient_of_variation cfg tick store job

  job-of_run :
      (tick : MarketTick) (store : EdgeStore)
      (r : Result (Option (Job fl t coefficient_of_variation))) (v : Found)
      → (r >>= run_job fl t coefficient_of_variation cfg tick store) ≡ ok v
      → run_job fl t coefficient_of_variation cfg tick store
          (job_of fl t coefficient_of_variation r)
        ≡ ok v
  job-of_run tick store (ok job) v h = h
  job-of_run tick store (err e) v h = ground (arith, h)

  -- The item leaves the same memory, and the log tells the verdict.
  abbrev pub SameAs :
      {E : Type 0}
      → MarketTick
      → EdgeStore
      → Result (Replayed fl t coefficient_of_variation)
      → Taken fl t coefficient_of_variation E
      → Type 0
  SameAs tick store (err e) taken = Unit
  SameAs tick store (ok r) taken =
      (r.memory ≡ taken.memory)
      × (run_job fl t coefficient_of_variation cfg tick store taken.job ≡ ok (found_in r.decision))

  decided-SameAs :
      (E : Type 0) (is_logged_period : Bool) (tick : MarketTick) (store : EdgeStore) (m : Memory)
      (s : ReplaySummary) (r : Result (Decision fl t coefficient_of_variation))
      → (r >>= λ d. ok (verdict_logged fl t coefficient_of_variation d)) ≡ (
          (update_window_and_detect fl t coefficient_of_variation cfg all_answer tick store
            m.windows).1
          >>= run_job fl t coefficient_of_variation cfg tick store)
      → SameAs {E = E} tick store
          (r >>= λ d. ok (
            log_decision fl t coefficient_of_variation is_logged_period tick
              (record {
                dedup = update_dedup_cache cfg tick true m.dedup;
                windows = (push_to_window cfg all_answer tick m.windows).0;
              })
              s
              d))
          (take_changed fl t coefficient_of_variation cfg all_answer store tick m)
  unfolding update_window_and_detect
  decided-SameAs E is_logged_period tick store m s (err e) h = tt
  decided-SameAs E is_logged_period tick store m s (ok d) h = (
    refl,
    job-of_run tick store
        (update_window_and_detect fl t coefficient_of_variation cfg all_answer tick store
          m.windows).1
        _ (sym h),
  )

  unchanged-SameAs :
      (E : Type 0) (is_logged_period : Bool) (tick : MarketTick) (store : EdgeStore) (m : Memory)
      (s : ReplaySummary) (r : Result Bool)
      → SameAs {E = E} tick store
          (r >>= λ enters.
            ok
              (replay_unchanged fl t coefficient_of_variation cfg is_logged_period tick m s enters))
          (take_unchanged fl t coefficient_of_variation cfg all_answer tick m r)
  unchanged-SameAs E is_logged_period tick store m s (err e) = tt
  unchanged-SameAs E is_logged_period tick store m s (ok enters) = (refl, refl)

  tick-SameAs :
      (E : Type 0) (is_logged_period : Bool) (tick : MarketTick) (store : EdgeStore) (m : Memory)
      (s : ReplaySummary)
      → SameAs {E = E} tick store
          (replay_tick fl t coefficient_of_variation cfg false is_logged_period store tick m s)
          (take_tick fl t coefficient_of_variation cfg all_answer store tick m)
  tick-SameAs E is_logged_period tick store m s = elim (Bool-cases (feeds_price_window tick)) [
    | inr e ↦ rw e (refl, refl)
    | inl e ↦ elim (Bool-cases (is_duplicate tick m.dedup)) [
      | inl d ↦ rw (e, d) (refl, refl)
      | inr d ↦ elim (Bool-cases (is_unchanged_snapshot tick m.dedup)) [
        | inl u ↦
            rw (e, d, u)
              (unchanged-SameAs E is_logged_period tick store m s
                (unchanged_snapshot_enters_price_window cfg all_answer tick m.dedup m.windows))
        | inr u ↦
            rw (e, d, u)
              (decided-SameAs E is_logged_period tick store m _ _
                (decide_lem fl t coefficient_of_variation cfg tick store m.windows))
      ]
    ]
  ]

  item-SameAs :
      (P : Type 0) (is_logged_period : Bool) (store : EdgeStore) (item : StreamItem P) (m : Memory)
      (s : ReplaySummary)
      → (r : Replayed fl t coefficient_of_variation)
      → replay_item fl t coefficient_of_variation cfg false is_logged_period store item m s ≡ ok r
      → (r.memory ≡ (take fl t coefficient_of_variation cfg all_answer store item m).memory)
        × (verdict_on store item
              (take fl t coefficient_of_variation cfg all_answer store item m).job
            ≡ ok (found_in r.decision))
  unfolding replay_item take
  item-SameAs P is_logged_period store (feed_event event) m s r h =
      subst (λ r. (r.memory ≡ m) × (ok (false, none) ≡ ok (found_in r.decision)))
        (ap (result_or r) h) (refl, refl)
  item-SameAs P is_logged_period store (market_tick tick) m s r h =
      subst
        (λ r.
          SameAs {E = FeedEvent P} tick store r
            (take_tick fl t coefficient_of_variation cfg all_answer store tick m))
        h (tick-SameAs (FeedEvent P) is_logged_period tick store m _)

  -- The items of a stream, each with the store in effect and whether it is in the logged period.
  abbrev pub Stream : Type 0 → Type 0
  Stream P = List ((EdgeStore × Bool) × StreamItem P)

  -- Whether the log has a line of an item: of a tick in the logged period that is not of a sale, and that
  -- names a listing or was approved.
  abbrev pub is_logged : {P : Type 0} → Bool → StreamItem P → Found → Bool
  is_logged is_logged_period (feed_event event) found = false
  is_logged is_logged_period (market_tick tick) found =
      feeds_price_window tick && (is_logged_period && (names_listing tick || found.0))

  -- The verdicts on the items of which the log has a line.
  abbrev pub logged_of : {P : Type 0} → Stream P → List Found → List Found
  logged_of [] found = []
  logged_of (item ∷ rest) [] = []
  logged_of (((store, is_logged_period), item) ∷ rest) (f ∷ found) =
      if is_logged is_logged_period item f then f ∷ logged_of rest found else logged_of rest found

  abbrev IsWritten : Bool → MarketTick → Result (Replayed fl t coefficient_of_variation) → Type 0
  IsWritten is_logged_period tick (err e) = Unit
  IsWritten is_logged_period tick (ok r) =
      r.written ≡ is_logged {P = Unit {0}} is_logged_period (market_tick tick) (found_in r.decision)

  abbrev IsKept : Bool → MarketTick → Result (Replayed fl t coefficient_of_variation) → Type 0
  IsKept is_logged_period tick (err e) = Unit
  IsKept is_logged_period tick (ok r) =
      r.written ≡ (is_logged_period && (names_listing tick || (found_in r.decision).0))

  kept-IsWritten :
      (is_logged_period : Bool) (tick : MarketTick)
      (r : Result (Replayed fl t coefficient_of_variation))
      → feeds_price_window tick ≡ true
      → IsKept is_logged_period tick r
      → IsWritten is_logged_period tick r
  kept-IsWritten is_logged_period tick (err e) feeds h = tt
  kept-IsWritten is_logged_period tick (ok r) feeds h = rw feeds h

  decided-IsKept :
      (is_logged_period : Bool) (tick : MarketTick) (m : Memory) (s : ReplaySummary)
      (r : Result (Decision fl t coefficient_of_variation))
      → IsKept is_logged_period tick
          (r >>= λ d. ok (log_decision fl t coefficient_of_variation is_logged_period tick m s d))
  unfolding should_log
  decided-IsKept is_logged_period tick m s (err e) = tt
  decided-IsKept is_logged_period tick m s (ok d) = refl

  unchanged-IsKept :
      (is_logged_period : Bool) (tick : MarketTick) (m : Memory) (s : ReplaySummary)
      (r : Result Bool)
      → IsKept is_logged_period tick (
          r >>= λ enters.
          ok (replay_unchanged fl t coefficient_of_variation cfg is_logged_period tick m s enters))
  unfolding should_log
  unchanged-IsKept is_logged_period tick m s (err e) = tt
  unchanged-IsKept is_logged_period tick m s (ok enters) = refl

  tick-IsWritten :
      (is_logged_period : Bool) (tick : MarketTick) (store : EdgeStore) (m : Memory)
      (s : ReplaySummary)
      → IsWritten is_logged_period tick
          (replay_tick fl t coefficient_of_variation cfg false is_logged_period store tick m s)
  unfolding should_log
  tick-IsWritten is_logged_period tick store m s = elim (Bool-cases (feeds_price_window tick)) [
    | inr e ↦ rw e (rw e refl)
    | inl e ↦
        kept-IsWritten is_logged_period tick
          (replay_tick fl t coefficient_of_variation cfg false is_logged_period store tick m s) e
          (elim (Bool-cases (is_duplicate tick m.dedup)) [
            | inl d ↦ rw (e, d) refl
            | inr d ↦ elim (Bool-cases (is_unchanged_snapshot tick m.dedup)) [
              | inl u ↦
                  rw (e, d, u)
                    (unchanged-IsKept is_logged_period tick m s (
                      unchanged_snapshot_enters_price_window cfg all_answer tick m.dedup m.windows))
              | inr u ↦ rw (e, d, u) (decided-IsKept is_logged_period tick _ _ _)
            ]
          ])
  ]

  item-IsWritten :
      (P : Type 0) (is_logged_period : Bool) (store : EdgeStore) (item : StreamItem P) (m : Memory)
      (s : ReplaySummary) (r : Replayed fl t coefficient_of_variation)
      → replay_item fl t coefficient_of_variation cfg false is_logged_period store item m s ≡ ok r
      → r.written ≡ is_logged is_logged_period item (found_in r.decision)
  unfolding replay_item
  item-IsWritten P is_logged_period store (feed_event event) m s r h =
      subst (λ r. r.written ≡ false) (ap (result_or r) h) refl
  item-IsWritten P is_logged_period store (market_tick tick) m s r h =
      subst (IsWritten is_logged_period tick) h (tick-IsWritten is_logged_period tick store m _)

  -- A line for an item, where it is written.
  abbrev add_line : Bool → Found → List Found → List Found
  add_line written found log = if written then found ∷ log else log

  -- The replay of a stream: the memory and the summary at the end, and what the lines of the log tell.
  abbrev pub replay :
      {P : Type 0}
      → Stream P
      → Memory
      → ReplaySummary
      → Result ((Memory × ReplaySummary) × List Found)
  replay [] m s = ok ((m, s), [])
  replay (((store, is_logged_period), item) ∷ rest) m s = do
    r ← replay_item fl t coefficient_of_variation cfg false is_logged_period store item m s
    (last, log) ← replay rest r.memory r.summary
    ok (last, add_line r.written (found_in r.decision) log)

  -- The listener on the same stream, each job judged on the store it was submitted under.
  abbrev pub listen : {P : Type 0} → Stream P → Memory → Result (Memory × List Found)
  listen [] m = ok (m, [])
  listen (((store, is_logged_period), item) ∷ rest) m = do
    let taken = take fl t coefficient_of_variation cfg all_answer store item m
    found ← verdict_on store item taken.job
    (last, others) ← listen rest taken.memory
    ok (last, found ∷ others)

  abbrev pub ListensAs :
      {P : Type 0} → Stream P → Memory → List Found → Result (Memory × List Found) → Type 0
  ListensAs stream end log listened =
      (found : List Found) × (listened ≡ ok (end, found)) × (log ≡ logged_of stream found)

  abbrev TellsOf :
      {P : Type 0}
      → Stream P
      → Result ((Memory × ReplaySummary) × List Found)
      → Result (Memory × List Found)
      → Type 0
  TellsOf stream (err e) listened = Unit
  TellsOf stream (ok ((last, summary), log)) listened = ListensAs stream last log listened

  add_item-TellsOf :
      (P : Type 0) (store : EdgeStore) (is_logged_period : Bool) (item : StreamItem P)
      (rest : Stream P) (f : Found) (written : Bool)
      → written ≡ is_logged is_logged_period item f
      → (r : Result ((Memory × ReplaySummary) × List Found))
      → (listened : Result (Memory × List Found)) → TellsOf rest r listened
      → TellsOf
          (((store, is_logged_period), item) ∷ rest)
          (r >>= λ x. ok (x.0, add_line written f x.1))
          (listened >>= λ x. ok (x.0, f ∷ x.1))
  add_item-TellsOf P store is_logged_period item rest f written w (err e) listened h = tt
  add_item-TellsOf P store is_logged_period item rest f written w (ok ((last, summary), log))
        listened (found, listens, same) =
      (f ∷ found, rw listens refl, ap₂ (λ b l. if b then f ∷ l else l) w same)

  replay-TellsOf :
      (P : Type 0) (stream : Stream P) (m : Memory) (s : ReplaySummary)
      → TellsOf stream (replay stream m s) (listen stream m)
  replay-TellsOf P [] m s = ([], refl, refl)
  replay-TellsOf P (((store, is_logged_period), item) ∷ rest) m s =
      go (replay_item fl t coefficient_of_variation cfg false is_logged_period store item m s) refl
        (λ m s. replay-TellsOf P rest m s)
    where
      go :
          (r : Result (Replayed fl t coefficient_of_variation))
          → replay_item fl t coefficient_of_variation cfg false is_logged_period store item m s ≡ r
          → ((m : Memory) (s : ReplaySummary) → TellsOf rest (replay rest m s) (listen rest m))
          → TellsOf
              (((store, is_logged_period), item) ∷ rest)
              (r >>= λ r. replay rest r.memory r.summary >>= λ x.
                ok (x.0, add_line r.written (found_in r.decision) x.1))
              (listen (((store, is_logged_period), item) ∷ rest) m)
      go (err e) h others = tt
      go (ok r) h others =
          let (same, told) = item-SameAs P is_logged_period store item m s r h in
          let written = item-IsWritten P is_logged_period store item m s r h in
          rw (told, sym same)
            (add_item-TellsOf P store is_logged_period item rest (found_in r.decision) r.written
              written (replay rest r.memory r.summary) (listen rest r.memory)
              (others r.memory r.summary))

  -- Where the replay of a stream returns, the listener on the same stream ends with the same dedup cache
  -- and windows, and the lines of the replay's log tell, in order, the verdicts of the listener's jobs on
  -- the ticks in the logged period that are not of a sale and name a listing or were approved.
  pub replay-listen :
      (P : Type 0) (stream : Stream P) (m end : Memory) (s summary : ReplaySummary)
      (log : List Found)
      → replay stream m s ≡ ok ((end, summary), log)
      → ListensAs stream end log (listen stream m)
  replay-listen P stream m end s summary log h =
      subst (λ r. TellsOf stream r (listen stream m)) h (replay-TellsOf P stream m s)
