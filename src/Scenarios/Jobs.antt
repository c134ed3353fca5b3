-- ===== src/Scenarios/Jobs.antt =====
-- A pool of two workers that takes one job, and one with more workers than its queue holds.
use brand_sniper_monorepo.Prelude.{ℕ, ◌≤◌, ◌<◌, ◌≡◌, ◌⊎◌, ◌≢◌, refl, [], ◌∷◌, arith}
use brand_sniper_monorepo.Prelude.Result.{ok, err, queue_full}
use brand_sniper_monorepo.TaskPool.{
  Pool, running, draining, closed, created, new_pool, start, put_job, try_submit, close_drained,
}
use brand_sniper_monorepo.TaskPool.Steps.{
  starts, submits, tries, takes, Reachable, here, then_step, IsAccounted, Reachable-IsAccounted,
  close_drained_lem,
}

abbrev fresh : ℕ → Pool
fresh workers = record {
  state = created;
  worker_count = workers;
  queue_size = 2;
  queue = [];
  idle = 0;
  active = 0;
  finished = 0;
  cancelled = 0;
}

abbrev open_pool : Pool
open_pool = record (fresh 2) { state = running; idle = 2 }

made : new_pool 2 2 5000 ≡ ok (fresh 2)
unfolding new_pool
made = refl

opened : start (fresh 2) ≡ ok open_pool
unfolding start
opened = refl

running-created : running ≢ created
running-created h = ground (arith, h)

-- One job by `submit`, and one by `try_submit`, which is taken.
abbrev busy_pool : Pool
busy_pool = record open_pool { queue = 8 ∷ []; idle = 1; active = 1 }

run : Reachable (fresh 2) 2 busy_pool
unfolding try_submit
run =
    then_step (record open_pool { queue = 7 ∷ 8 ∷ [] }) _ 2 0
      (then_step (put_job 7 open_pool) _ 1 1
        (then_step open_pool _ 0 1
          (then_step (fresh 2) open_pool 0 0 here (starts (fresh 2) open_pool opened))
          (submits open_pool 7 running-created refl))
        (tries (put_job 7 open_pool) 8))
      (takes (record open_pool { queue = 7 ∷ 8 ∷ [] }) 7 (8 ∷ []) 1 refl refl)

Reachable-IsAccounted_example : IsAccounted 2 busy_pool
Reachable-IsAccounted_example = Reachable-IsAccounted 2 2 5000 (fresh 2) 2 busy_pool made run

abbrev crowded : Pool
crowded = record (fresh 3) { state = draining }

close_drained_example :
    ((3 ≤ crowded.queue_size) × (close_drained crowded ≡ ok (record crowded { state = closed })))
    ⊎ ((crowded.queue_size < 3) × (close_drained crowded ≡ err queue_full))
close_drained_example = close_drained_lem crowded refl
