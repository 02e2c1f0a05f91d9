-- ===== src/Engine/Pool/Tests.antt =====
-- A pool for two jobs, with one of them running.
use aceryx.Prelude.{◌≤◌, ◌≡◌, refl, some}
use aceryx.Prelude.Int.{pos}
use aceryx.Engine.Pool.{WorkerPool, acquire, add, begin_run, new_worker_pool, act}
use aceryx.Engine.Pool.Bounds.{unmoved, acted, pool_bounded}

abbrev two : WorkerPool
two = new_worker_pool (pos 2)

abbrev idle : WorkerPool
idle = record {
  capacity = 2;
  sem = 0;
  wg = 0;
  n = 0;
  entering = 0;
  starting = 0;
  running = 0;
  leaving = 0;
  closing = 0;
}

abbrev held : WorkerPool
held = record idle { sem = 1; entering = 1 }

abbrev awaited : WorkerPool
awaited = record idle { sem = 1; wg = 1; starting = 1 }

abbrev busy : WorkerPool
busy = record idle { sem = 1; wg = 1; n = 1; running = 1 }

act-acquire : act acquire two ≡ some held
unfolding act new_worker_pool
act-acquire = refl

act-add : act add held ≡ some awaited
unfolding act
act-add = refl

act-begin_run : act begin_run awaited ≡ some busy
unfolding act
act-begin_run = refl

pool_bounded_example : (busy.n ≡ busy.running) × (busy.running ≤ two.capacity)
pool_bounded_example =
    pool_bounded (pos 2) busy
      (acted (acted (acted unmoved acquire act-acquire) add act-add) begin_run act-begin_run)
