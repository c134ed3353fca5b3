-- ===== src/TaskPool.antt =====
-- The bounded pool of background jobs (apps/listener/task_supervisor.py). Jobs are numbers; a job that
-- runs is counted, and its outcome is the environment's.
pub mod Steps
use brand_sniper_monorepo.Prelude.{
  ℕ, zero, suc, ◌+◌, ◌-◌, Bool, true, false, List, [], ◌∷◌, ◌++◌, if◌then◌else◌, ltb, leb, length,
}
use brand_sniper_monorepo.Prelude.Result.{
  Result, ok, err, value_error, runtime_error, queue_full, ◌>>=◌, ◌>>◌, raise_if,
}

pub data PoolState : Type 0 where
  created running draining closed : PoolState

pub record Pool : Type 0 where
  pub state : PoolState
  pub worker_count : ℕ
  pub queue_size : ℕ
  pub queue : List ℕ
  -- The worker tasks that wait for a job, and those that run one.
  pub idle : ℕ
  pub active : ℕ
  pub finished : ℕ
  pub cancelled : ℕ

-- `BoundedTaskPool.__init__`; the timeout in milliseconds is checked and belongs to the environment.
unfoldable pub new_pool : ℕ → ℕ → ℕ → Result Pool
new_pool workers queue_size shutdown_timeout = do
  raise_if (ltb workers 1) value_error
  raise_if (ltb queue_size 1) value_error
  raise_if (leb shutdown_timeout 0) value_error
  ok (record {
    state = created;
    worker_count = workers;
    queue_size = queue_size;
    queue = [];
    idle = 0;
    active = 0;
    finished = 0;
    cancelled = 0;
  })

abbrev pub is_running : PoolState → Bool
is_running running = true
is_running _ = false

-- `__aenter__` creates the worker tasks.
unfoldable pub start : Pool → Result Pool
start pool = elim pool.state [
  | created ↦ ok (record pool { state = running; idle = pool.worker_count })
  | running ↦ err runtime_error
  | draining ↦ err runtime_error
  | closed ↦ err runtime_error
]

-- The queue takes a job (`put_nowait`).
abbrev pub put_job : ℕ → Pool → Pool
put_job job pool = record pool { queue = pool.queue ++ job ∷ [] }

abbrev pub is_full : Pool → Bool
is_full pool = leb pool.queue_size (length pool.queue)

-- `try_submit`
unfoldable pub try_submit : ℕ → Pool → Pool × Bool
try_submit job pool =
    if is_running pool.state
    then if is_full pool then (pool, false) else (put_job job pool, true)
    else (pool, false)

-- `_cancel_queued_work`
unfoldable pub cancel_queued_work : Pool → Pool
cancel_queued_work pool = record pool { queue = []; cancelled = pool.cancelled + length pool.queue }

-- One stop signal for each worker, by `put_nowait` on a queue that holds `held` of them.
unfoldable pub put_stops : ℕ → ℕ → ℕ → Result ℕ
put_stops zero queue_size held = ok held
put_stops (suc workers) queue_size held =
    let rest = put_stops workers queue_size (suc held) in
    if leb queue_size held then err queue_full else rest

-- The end of `close` once the queue was joined in time, and after a timeout.
unfoldable pub close_drained : Pool → Result Pool
close_drained pool = do
  _ ← put_stops pool.worker_count pool.queue_size (length pool.queue)
  ok (record pool { state = closed })

unfoldable pub close_timed_out : Pool → Pool
unfolding cancel_queued_work
close_timed_out pool = record (cancel_queued_work pool) {
  state = closed;
  active = 0;
  cancelled = (cancel_queued_work pool).cancelled + pool.active;
}
