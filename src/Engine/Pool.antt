-- ===== src/Engine/Pool.antt =====
-- internal/engine/worker_pool.go: the bounded pool of goroutines that execute the steps. The state
-- counts the goroutines at each point of Submit's body, and an action is what one of them does
-- next; the scheduler picks the actions in any order.
pub mod Bounds
mod Tests
use aceryx.Prelude.{ℕ, zero, suc, ◌+◌, ◌-◌, Option, none, some, ltb, leb, if◌then◌else◌}
use aceryx.Prelude.Int.{ℤ, pos, negsuc}

pub record WorkerPool : Type 0 where
  -- what the pool holds: the length and the capacity of `sem`, and the counters `wg` and `n`
  pub capacity : ℕ
  pub sem : ℕ
  pub wg : ℕ
  pub n : ℕ
  -- where the goroutines are: after the send to `sem`, after wg.Add, in `fn`, after n.Add(-1), and
  -- after the receive from `sem`
  pub entering : ℕ
  pub starting : ℕ
  pub running : ℕ
  pub leaving : ℕ
  pub closing : ℕ

-- `wp.sem <- struct{}{}`, `wp.wg.Add(1)`, `wp.n.Add(1)`, `wp.n.Add(-1)`, `<-wp.sem`, `wp.wg.Done()`
pub data Action : Type 0 where
  acquire add begin_run end_run release finish : Action

unfoldable pub new_worker_pool : ℤ → WorkerPool
new_worker_pool max_concurrent = record {
  capacity = elim max_concurrent [ pos m ↦ if leb m 0 then 10 else m | negsuc m ↦ 10 ];
  sem = 0;
  wg = 0;
  n = 0;
  entering = 0;
  starting = 0;
  running = 0;
  leaving = 0;
  closing = 0;
}

-- An action with the point that the goroutine leaves; `none` where no goroutine is there, or where
-- it blocks.
unfoldable pub act : Action → WorkerPool → Option WorkerPool
act acquire p =
    if ltb p.sem p.capacity
    then some (record p { sem = p.sem + 1; entering = p.entering + 1 })
    else none
act add p = elim p.entering [
  | zero ↦ none
  | suc k ↦ some (record p { entering = k; wg = p.wg + 1; starting = p.starting + 1 })
]
act begin_run p = elim p.starting [
  | zero ↦ none
  | suc k ↦ some (record p { starting = k; n = p.n + 1; running = p.running + 1 })
]
act end_run p = elim p.running [
  | zero ↦ none
  | suc k ↦ some (record p { running = k; n = p.n - 1; leaving = p.leaving + 1 })
]
act release p = elim p.leaving [
  | zero ↦ none
  | suc k ↦ some (record p { leaving = k; sem = p.sem - 1; closing = p.closing + 1 })
]
act finish p = elim p.closing [
  | zero ↦ none
  | suc k ↦ some (record p { closing = k; wg = p.wg - 1 })
]
