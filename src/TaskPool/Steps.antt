-- ===== src/TaskPool/Steps.antt =====
-- The pool's steps, in any order that the event loop may run them: no accepted job is lost, and the
-- bounds hold.
use brand_sniper_monorepo.Prelude.{
  ℕ, zero, suc, ◌+◌, ◌≤◌, ◌<◌, ◌≡◌, ◌≢◌, refl, ◌⊎◌, inl, inr, Bool, true, false, List, [], ◌∷◌,
  arith, length, length-append, leb, Bool-cases, leb→le, ap, subst,
}
use brand_sniper_monorepo.Prelude.Result.{Result, ok, err, queue_full, ◌>>=◌}
use brand_sniper_monorepo.TaskPool.{
  created, is_running, running, draining, closed, Pool, new_pool, start, put_job, is_full,
  try_submit, cancel_queued_work, put_stops, close_drained, close_timed_out,
}

-- What an answer of `try_submit` counts as accepted.
abbrev pub accepted : Bool → ℕ
accepted true = 1
accepted false = 0

-- A step, with the jobs that it accepts: by a `submit` that returns, or by a `try_submit` that answers
-- true. A waiting `submit` puts its job once there is room, even while the pool drains. An idle worker
-- takes a job; it waits again after the job returned or raised, and ends with a job that is cancelled.
pub data Step : Pool → ℕ → Pool → Type 0 where
  starts : (p q : Pool) → start p ≡ ok q → Step p 0 q
  submits : (p : Pool) (job : ℕ) → p.state ≢ created → is_full p ≡ false → Step p 1 (put_job job p)
  tries : (p : Pool) (job : ℕ) → Step p (accepted (try_submit job p).1) (try_submit job p).0
  takes :
      (p : Pool) (job : ℕ) (rest : List ℕ) (waiting : ℕ)
      → p.queue ≡ job ∷ rest
      → p.idle ≡ suc waiting
      → Step p 0 (record p { queue = rest; idle = waiting; active = suc p.active })
  finishes :
      (p : Pool) (n : ℕ)
      → p.active ≡ suc n
      → Step p 0 (record p { idle = suc p.idle; active = n; finished = suc p.finished })
  cancels :
      (p : Pool) (n : ℕ)
      → p.active ≡ suc n
      → Step p 0 (record p { active = n; cancelled = suc p.cancelled })
  closes_unused : (p : Pool) → p.state ≡ created → Step p 0 (record p { state = closed })
  drains : (p : Pool) → p.state ≡ running → Step p 0 (record p { state = draining })
  -- The workers return at their stop signals.
  closes :
      (p q : Pool)
      → p.state ≡ draining
      → p.queue ≡ []
      → p.active ≡ 0
      → close_drained p ≡ ok q
      → Step p 0 (record q { idle = 0 })
  times_out : (p : Pool) → p.state ≡ draining → Step p 0 (close_timed_out p)

-- The pools after any steps from `p`, with the number of jobs accepted.
pub data Reachable (p : Pool) : ℕ → Pool → Type 0 where
  here : Reachable p 0 p
  then_step : (q r : Pool) (n m : ℕ) → Reachable p n q → Step q m r → Reachable p (n + m) r

-- Each of the `n` jobs accepted is queued, running, finished or cancelled, and the bounds hold.
pub record IsAccounted (n : ℕ) (p : Pool) : Type 0 where
  pub jobs : n ≡ length p.queue + p.active + p.finished + p.cancelled
  pub queue_bound : length p.queue ≤ p.queue_size
  pub worker_bound : p.active + p.idle ≤ p.worker_count
  pub unstarted : p.state ≡ created → p.active + p.idle ≡ 0

put_job-IsAccounted :
    (n : ℕ) (p : Pool) (job : ℕ)
    → is_full p ≡ false
    → IsAccounted n p
    → IsAccounted (n + 1) (put_job job p)
put_job-IsAccounted n p job room h =
    let grown = length-append p.queue (job ∷ []) in
    record {
      jobs = omega (arith, grown, h.jobs);
      queue_bound = ground (arith, grown, room);
      worker_bound = h.worker_bound;
      unstarted = h.unstarted;
    }

add_none : (n : ℕ) → n ≡ n + 0
add_none n = omega arith

none_more : (n : ℕ) (p : Pool) → IsAccounted n p → IsAccounted (n + 0) p
none_more n p = subst (λ m. IsAccounted m p) (add_none n)

try_submit-IsAccounted :
    (n : ℕ) (p : Pool) (job : ℕ)
    → IsAccounted n p
    → IsAccounted (n + accepted (try_submit job p).1) (try_submit job p).0
unfolding try_submit
try_submit-IsAccounted n p job h = elim (Bool-cases (is_running p.state)) [
  | inr e ↦ rw e (none_more n p h)
  | inl e ↦ elim (Bool-cases (is_full p)) [
    | inl full ↦ rw (e, full) (none_more n p h)
    | inr room ↦ rw (e, room) (put_job-IsAccounted n p job room h)
  ]
]

new_pool_fields :
    (workers size timeout : ℕ) (p : Pool)
    → new_pool workers size timeout ≡ ok p
    → (p.queue ≡ []) × (p.active ≡ 0) × (p.idle ≡ 0) × (p.finished ≡ 0) × (p.cancelled ≡ 0)
unfolding new_pool
new_pool_fields workers size timeout p h = ground arith

new-IsAccounted :
    (workers size timeout : ℕ) (p : Pool) → new_pool workers size timeout ≡ ok p → IsAccounted 0 p
new-IsAccounted workers size timeout p h =
    let (queue, active, idle, finished, cancelled) = new_pool_fields workers size timeout p h in
    let n : length p.queue ≡ 0 = ap length queue in
    record {
      jobs = omega (arith, n, active, finished, cancelled);
      queue_bound = omega (arith, n);
      worker_bound = omega (arith, active, idle);
      unstarted = λ _. omega (arith, active, idle);
    }

started :
    (p q : Pool)
    → start p ≡ ok q
    → (p.state ≡ created) × (q ≡ record p { state = running; idle = p.worker_count })
unfolding start
started p q h = ground arith

close_with :
    (p q : Pool) (r : Result ℕ)
    → (r >>= λ _. ok (record p { state = closed })) ≡ ok q
    → q ≡ record p { state = closed }
close_with p q (ok n) h = ground arith
close_with p q (err e) h = absurd (ground arith)

Step-IsAccounted :
    (n : ℕ) (p : Pool) (m : ℕ) (q : Pool) → Step p m q → IsAccounted n p → IsAccounted (n + m) q
unfolding close_drained close_timed_out cancel_queued_work
Step-IsAccounted n _ _ _ (starts p q e) h =
    let (fresh, eq) = started p q e in
    let none_yet = h.unstarted fresh in
    rw eq (record {
      jobs = omega (arith, h.jobs);
      queue_bound = h.queue_bound;
      worker_bound = omega (arith, none_yet);
      unstarted = λ s. absurd (ground (arith, s));
    })
Step-IsAccounted n _ _ _ (submits p job open_ room) h = put_job-IsAccounted n p job room h
Step-IsAccounted n _ _ _ (tries p job) h = try_submit-IsAccounted n p job h
Step-IsAccounted n _ _ _ (takes p job rest waiting e i) h =
    let l : length p.queue ≡ suc (length rest) = ap length e in
    record {
      jobs = omega (arith, l, h.jobs);
      queue_bound = omega (arith, l, h.queue_bound);
      worker_bound = omega (arith, i, h.worker_bound);
      unstarted = λ s. absurd (idle_created s (h.unstarted s) i);
    }
  where
    idle_created : p.state ≡ created → p.active + p.idle ≡ 0 → p.idle ≡ suc waiting → ⊥
    idle_created s none_yet i = omega (arith, none_yet, i)
Step-IsAccounted n _ _ _ (finishes p k e) h = record {
  jobs = omega (arith, e, h.jobs);
  queue_bound = h.queue_bound;
  worker_bound = omega (arith, e, h.worker_bound);
  unstarted = λ s. (let none_yet = h.unstarted s in omega (arith, e, none_yet));
}
Step-IsAccounted n _ _ _ (cancels p k e) h = record {
  jobs = omega (arith, e, h.jobs);
  queue_bound = h.queue_bound;
  worker_bound = omega (arith, e, h.worker_bound);
  unstarted = λ s. (let none_yet = h.unstarted s in omega (arith, e, none_yet));
}
Step-IsAccounted n _ _ _ (closes_unused p e) h = record {
  jobs = omega (arith, h.jobs);
  queue_bound = h.queue_bound;
  worker_bound = h.worker_bound;
  unstarted = λ s. absurd (ground (arith, s));
}
Step-IsAccounted n _ _ _ (drains p e) h = record {
  jobs = omega (arith, h.jobs);
  queue_bound = h.queue_bound;
  worker_bound = h.worker_bound;
  unstarted = λ s. absurd (ground (arith, s));
}
Step-IsAccounted n _ _ _ (closes p q d none_queued none_active e) h =
    rw (close_with p q (put_stops p.worker_count p.queue_size (length p.queue)) e) (record {
      jobs = omega (arith, h.jobs);
      queue_bound = h.queue_bound;
      worker_bound = omega (arith, h.worker_bound);
      unstarted = λ s. absurd (ground (arith, s));
    })
Step-IsAccounted n _ _ _ (times_out p e) h = record {
  jobs = omega (arith, h.jobs);
  queue_bound = omega arith;
  worker_bound = omega arith;
  unstarted = λ s. absurd (ground (arith, s));
}

-- From a new pool on, whatever the order of submissions, workers and the shutdown: each job that was
-- accepted (its `submit` returned, or its `try_submit` answered true) is queued, running, finished or
-- cancelled, the queue never holds more than its size, and no more jobs run than there are workers.
pub Reachable-IsAccounted :
    (workers size timeout : ℕ) (p : Pool) (n : ℕ) (q : Pool)
    → new_pool workers size timeout ≡ ok p
    → Reachable p n q
    → IsAccounted n q
Reachable-IsAccounted workers size timeout p _ _ new here =
    new-IsAccounted workers size timeout p new
Reachable-IsAccounted workers size timeout p _ _ new (then_step m q n k before s) =
    Step-IsAccounted n m k q s (Reachable-IsAccounted workers size timeout p n m new before)

put_stops_fit :
    (workers size held : ℕ)
    → held + workers ≤ size
    → put_stops workers size held ≡ ok (held + workers)
unfolding put_stops
put_stops_fit zero size held h = ground arith
put_stops_fit (suc workers) size held h = ground (arith, put_stops_fit workers size (suc held))

put_stops_full :
    (workers size held : ℕ)
    → held ≤ size
    → size < held + workers
    → put_stops workers size held ≡ err queue_full
unfolding put_stops
put_stops_full zero size held h k = absurd (omega arith)
put_stops_full (suc workers) size held h k = ground (arith, put_stops_full workers size (suc held))

-- A pool whose queue was joined closes exactly when the queue has room for a stop signal of every
-- worker; with more workers than the queue's size, `close` raises QueueFull and does not end.
pub close_drained_lem :
    (p : Pool)
    → p.queue ≡ []
    → ((p.worker_count ≤ p.queue_size) × (close_drained p ≡ ok (record p { state = closed })))
      ⊎ ((p.queue_size < p.worker_count) × (close_drained p ≡ err queue_full))
unfolding close_drained
close_drained_lem p empty = elim (Bool-cases (leb p.worker_count p.queue_size)) [
  | inl fits ↦
      inl (
        leb→le _ _ fits,
        rw (empty, put_stops_fit p.worker_count p.queue_size 0 (ground arith)) refl,
      )
  | inr full ↦ inr (
    ground arith,
    rw (empty, put_stops_full p.worker_count p.queue_size 0 (omega arith) (ground arith)) refl,
  )
]
