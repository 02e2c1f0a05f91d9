-- ===== src/Engine/Sla.antt =====
-- internal/engine/sla.go: the monitor of overdue tasks. A table is the list of the steps of all
-- cases, each with the status of its case; the callback for an overdue task may change it.
pub mod Breaches
mod Tests
use aceryx.Prelude.{
  ℕ, zero, suc, ◌+◌, String, Bool, true, false, not, ◌&&◌, Option, none, some, List, [], ◌∷◌, ◌++◌,
  length, filter, ltb, leb, nat_eq, ◌==◌, if◌then◌else◌,
}
use aceryx.Engine.Types.{State}
use aceryx.Engine.Store.{is_active}

pub record TaskRow : Type 0 where
  pub id : ℕ
  pub case_status : String
  pub state : State
  pub sla_deadline : Option ℕ

-- sla_deadline IS NOT NULL AND sla_deadline < now()
abbrev pub is_past : ℕ → Option ℕ → Bool
is_past now none = false
is_past now (some deadline) = ltb deadline now

abbrev pub is_overdue : ℕ → TaskRow → Bool
is_overdue now row = is_active row.state && is_past now row.sla_deadline

abbrev deadline_of : TaskRow → ℕ
deadline_of row = elim row.sla_deadline [ none ↦ 0 | some deadline ↦ deadline ]

unfoldable pub insert_by_deadline : TaskRow → List TaskRow → List TaskRow
insert_by_deadline row [] = row ∷ []
insert_by_deadline row (other ∷ rest) =
    let later = insert_by_deadline row rest in
    if leb (deadline_of row) (deadline_of other) then row ∷ other ∷ rest else other ∷ later

-- ORDER BY sla_deadline
unfoldable pub sort_by_deadline : List TaskRow → List TaskRow
sort_by_deadline [] = []
sort_by_deadline (row ∷ rest) = insert_by_deadline row (sort_by_deadline rest)

-- LIMIT
unfoldable pub take : ℕ → List TaskRow → List TaskRow
take zero rows = []
take (suc n) [] = []
take (suc n) (row ∷ rest) = row ∷ take n rest

unfoldable pub find_row : ℕ → List TaskRow → Option TaskRow
find_row id [] = none
find_row id (row ∷ rest) = if nat_eq row.id id then some row else find_row id rest

-- recordSLABreach: whether an audit event is recorded for the task, as it stands in the table now.
unfoldable pub record_sla_breach : ℕ → ℕ → List TaskRow → Bool
record_sla_breach now id table = elim (find_row id table) [
  | none ↦ false
  | some row ↦ not (row.case_status == "cancelled") && is_overdue now row
]

abbrev pub Callback : Type 0
Callback = TaskRow → List TaskRow → List TaskRow

-- The loop over the tasks: the table after it, and the ids of the recorded breaches.
unfoldable pub record_each : ℕ → Callback → List TaskRow → List TaskRow → List TaskRow × List ℕ
record_each now escalate [] table = (table, [])
record_each now escalate (task ∷ rest) table =
    let later = record_each now escalate rest (escalate task table) in
    let passed_over = record_each now escalate rest table in
    if record_sla_breach now task.id table then (later.0, task.id ∷ later.1) else passed_over

-- What checkOverdueTasks returns, with the table after it and the breaches that it recorded.
unfoldable pub check_overdue_tasks :
    ℕ → Option Callback → List TaskRow → ℕ × (List TaskRow × List ℕ)
check_overdue_tasks now none table = (0, (table, []))
check_overdue_tasks now (some escalate) table =
    let tasks = take 1000 (sort_by_deadline (filter (is_overdue now) table)) in
    (length tasks, record_each now escalate tasks table)

-- The inner loop of StartSLAMonitor at one tick, with the breaches of its passes; `none` where the
-- fuel does not suffice.
unfoldable pub monitor_tick :
    ℕ → ℕ → Option Callback → List TaskRow → Option (List TaskRow × List ℕ)
monitor_tick zero now escalate table = none
monitor_tick (suc fuel) now escalate table =
    let (count, (table', recorded)) = check_overdue_tasks now escalate table in
    elim (ltb count 1000) [
      | true ↦ some (table', recorded)
      | false ↦ elim (monitor_tick fuel now escalate table') [
        | none ↦ none
        | some (last, more) ↦ some (last, recorded ++ more)
      ]
    ]
