-- ===== src/Tasks/Lifecycle.antt =====
-- internal/tasks/task_lifecycle.go and task_escalation.go: the operations on the tasks of a case, of
-- which CompleteTask is in Tasks/Completion.antt. Each is one transaction: it gives the new rows, or
-- an error that leaves all as it was. A statement of the database does not fail here; what is told to
-- the notifier and the metrics is left out.
pub mod Rows
pub mod Open
pub mod Claims
pub mod Completed
use aceryx.Prelude.{
  ℕ, zero, suc, ◌+◌, String, Bool, true, false, not, ◌&&◌, ◌||◌, Option, none, some, List, [], ◌∷◌,
  ◌++◌, Result, ok, err, ◌>>=◌, any, contains, ltb, ◌==◌, if◌then◌else◌,
}
use aceryx.Json.{Json, str, obj, Fields, end, field, RawMessage, document, equal_fold}
use aceryx.Engine.Types.{State, active, completed}
use aceryx.Engine.Store.{is_active}
use aceryx.Engine.Cases.{Concat}
use aceryx.CaseData.{get}
use aceryx.Tasks.Forms.{
  FormSchema, ValidationError, validate_form_data, validate_action_requirements,
  build_decision_patch, extract_agent_original_output,
}

-- A row of case_steps, in the columns of a task; `role` is COALESCE(metadata->>'role', ''), and
-- `completions` are the events of the type completed.
pub record TaskRow : Type 0 where
  pub step_id : String
  pub state : State
  pub assigned_to : Option String
  pub role : String
  pub draft_data : Option Json
  pub result : RawMessage
  pub completed_at : Option ℕ
  pub completions : List (String × ℕ)

-- What RecordCaseEventTx is called with, its payload left out.
pub record TaskEvent : Type 0 where
  pub step_id : String
  pub actor : String
  pub actor_type : String
  pub action : String

pub record TaskCase : Type 0 where
  pub tenant_id : String
  pub case_data : Option Json
  pub version : ℕ
  pub updated_at : ℕ
  pub steps : List TaskRow
  pub audit : List TaskEvent

pub data TaskError : Type 0 where
  already_claimed already_completed forbidden invalid_outcome no_rows : TaskError
  validation_failed : ValidationError → TaskError
  -- not of the program: a loop that was given too little fuel
  out_of_fuel : TaskError

unfoldable pub update_rows : (TaskRow → Bool) → (TaskRow → TaskRow) → List TaskRow → List TaskRow
update_rows test change [] = []
update_rows test change (row ∷ rows) =
    let rest = update_rows test change rows in if test row then change row ∷ rest else row ∷ rest

unfoldable pub find_row : (TaskRow → Bool) → List TaskRow → Option TaskRow
find_row test [] = none
find_row test (row ∷ rows) = let rest = find_row test rows in if test row then some row else rest

abbrev pub is_unassigned : Option String → Bool
is_unassigned none = true
is_unassigned (some who) = false

abbrev pub is_assigned_to : String → Option String → Bool
is_assigned_to principal none = false
is_assigned_to principal (some who) = who == principal

-- case_id = $1 AND step_id = $2 AND c.tenant_id = $3 AND state = 'active'
abbrev pub is_open_task : String → String → TaskCase → TaskRow → Bool
is_open_task tenant id c row = row.step_id == id && c.tenant_id == tenant && is_active row.state

abbrev pub assign : String → TaskRow → TaskRow
assign who row = record row { assigned_to = some who }

abbrev pub with_event : ℕ → String → String → String → String → List TaskRow → TaskCase → TaskCase
with_event now id actor actor_type action rows c = record c {
  steps = rows;
  updated_at = now;
  audit =
      c.audit
      ++ record { step_id = id; actor = actor; actor_type = actor_type; action = action } ∷ [];
}

-- The tables principal_roles and roles: whether a principal has a role of a tenant.
abbrev pub Directory : Type 0
Directory = String → String → String → Bool

abbrev pub is_eligible : Directory → String → String → TaskRow → Bool
is_eligible has_role tenant principal row = row.role == "" || has_role tenant principal row.role

-- The condition of the UPDATE of ClaimTask.
abbrev pub is_claimable : Directory → String → String → String → TaskCase → TaskRow → Bool
is_claimable has_role tenant principal id c row =
    is_open_task tenant id c row
    && is_unassigned row.assigned_to
    && is_eligible has_role tenant principal row

-- Why nothing was claimed.
abbrev pub claim_error : Directory → String → String → Option TaskRow → TaskError
claim_error has_role tenant principal none = already_claimed
claim_error has_role tenant principal (some row) =
    if not (is_unassigned row.assigned_to)
    then already_claimed
    else if not (row.role == "") && not (has_role tenant principal row.role)
    then forbidden
    else already_claimed

unfoldable pub claim_task :
    Directory → ℕ → String → String → String → TaskCase → Result TaskError TaskCase
claim_task has_role now tenant principal id c =
    let test = is_claimable has_role tenant principal id c in
    if any test c.steps
    then ok (
        with_event now id principal "human" "claimed" (update_rows test (assign principal) c.steps)
          c)
    else err (claim_error has_role tenant principal (find_row (is_open_task tenant id c) c.steps))

-- The condition of the UPDATE of SaveDraft and of that of CompleteTask.
abbrev pub is_own_task : String → String → String → TaskCase → TaskRow → Bool
is_own_task tenant principal id c row =
    is_open_task tenant id c row && is_assigned_to principal row.assigned_to

abbrev pub keep_draft : Json → TaskRow → TaskRow
keep_draft draft row = record row { draft_data = some draft }

unfoldable pub save_draft : String → String → String → Json → TaskCase → Result TaskError TaskCase
save_draft tenant principal id draft c =
    let test = is_own_task tenant principal id c in
    if any test c.steps
    then ok (record c { steps = update_rows test (keep_draft draft) c.steps })
    else err forbidden

unfoldable pub reassign_task :
    ℕ → String → String → String → String → TaskCase → Result TaskError TaskCase
reassign_task now tenant actor id who c =
    if any (is_open_task tenant id c) c.steps
    then ok (
        with_event now id actor "human" "reassigned"
          (update_rows (λ row. row.step_id == id) (assign who) c.steps) c)
    else err no_rows

-- The user that EscalateTask assigns, where its action asks for one and pickLeastLoadedUserTx finds
-- one.
abbrev pub escalated_to : String → Option String → Option String
escalated_to action found = if action == "reassign" || action == "both" then found else none

abbrev pub assign_found : String → Option String → List TaskRow → List TaskRow
assign_found id none rows = rows
assign_found id (some who) rows = update_rows (λ row. row.step_id == id) (assign who) rows

unfoldable pub escalate_task :
    ℕ → String → String → String → String → Option String → TaskCase → Result TaskError TaskCase
escalate_task now tenant actor id action found c =
    elim (find_row (λ row. row.step_id == id && c.tenant_id == tenant) c.steps) [
      | none ↦ err no_rows
      | some row ↦
          if not (is_active row.state)
          then ok (record (with_event now id actor "system" "escalation_suppressed" c.steps c) {
            updated_at = c.updated_at;
          })
          else ok (
              with_event now id actor "system" "escalated"
                (assign_found id (escalated_to action found) c.steps) c)
    ]
