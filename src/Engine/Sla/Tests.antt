-- ===== src/Engine/Sla/Tests.antt =====
-- Tables with one overdue task, and with a thousand.
use aceryx.Prelude.{
  ℕ, zero, suc, ◌≡◌, refl, ap, none, some, List, [], ◌∷◌, In, here, arith, length, filter,
}
use aceryx.Engine.Types.{active}
use aceryx.Engine.Sla.{
  TaskRow, is_overdue, take, sort_by_deadline, insert_by_deadline, find_row, record_sla_breach,
  record_each, check_overdue_tasks, monitor_tick, Callback,
}
use aceryx.Engine.Sla.Breaches.{Breached, check_overdue_tasks-Breached, monitor_tick_stuck}

abbrev late : TaskRow
late = record { id = 4; case_status = "open"; state = active; sla_deadline = some 10 }

abbrev ignore : Callback
ignore task table = table

abbrev copies : ℕ → List TaskRow
copies zero = []
copies (suc n) = late ∷ copies n

overdue_copies : (n : ℕ) → length (filter (is_overdue 20) (copies n)) ≡ n
overdue_copies zero = refl
overdue_copies (suc n) = ap suc (overdue_copies n)

late-recorded : In 4 (check_overdue_tasks 20 (some ignore) (late ∷ [])).1.1
unfolding check_overdue_tasks record_each record_sla_breach find_row take sort_by_deadline
    insert_by_deadline
late-recorded = here refl

check_overdue_tasks-Breached_example : Breached 20 4 (late ∷ [])
check_overdue_tasks-Breached_example =
    check_overdue_tasks-Breached 20 ignore (late ∷ []) 4 (λ task. refl) late-recorded

monitor_tick_stuck_example : monitor_tick 50 20 (some ignore) (copies 1000) ≡ none
monitor_tick_stuck_example =
    monitor_tick_stuck 50 20 ignore (copies 1000) (λ task. refl)
      (omega (arith, overdue_copies 1000))
