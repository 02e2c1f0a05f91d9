-- ===== src/Tasks/Completion.antt =====
-- internal/tasks/task_lifecycle.go: CompleteTask, with the loop in which it waits for its task.
pub mod Await
use aceryx.Prelude.{
  ℕ, zero, suc, ◌+◌, String, Bool, true, false, not, ◌&&◌, ◌||◌, Option, none, some, List, [], ◌∷◌,
  ◌++◌, Result, ok, err, ◌>>=◌, any, contains, ltb, ◌==◌, if◌then◌else◌,
}
use aceryx.Json.{Json, null, str, obj, Fields, end, field, RawMessage, document, equal_fold}
use aceryx.Engine.Types.{State, active, completed}
use aceryx.Engine.Store.{is_active}
use aceryx.Engine.Cases.{Concat}
use aceryx.CaseData.{get}
use aceryx.Tasks.Forms.{
  FormSchema, ValidationError, validate_form_data, validate_action_requirements,
  build_decision_patch, extract_agent_original_output,
}
use aceryx.Tasks.Lifecycle.{
  TaskRow, TaskCase, TaskError, update_rows, find_row, is_assigned_to, with_event, is_own_task,
  already_completed, forbidden, invalid_outcome, no_rows, validation_failed, out_of_fuel,
}

abbrev pub is_completed : State → Bool
is_completed completed = true
is_completed _ = false

-- What GetTask reads of a task.
pub record TaskDetail : Type 0 where
  pub step_type : String
  pub step_state : State
  pub assigned_to : Option String
  pub form : String
  pub form_schema : FormSchema
  pub outcomes : List String
  pub metadata : Fields

-- `waitForAgentInit`
abbrev pub waits : TaskDetail → Bool → Bool
waits detail in_time = detail.step_type == "agent" && is_active detail.step_state && in_time

-- One round of the loop of CompleteTask, on what GetTask reads; `later` is the rest of the loop.
abbrev pub await_round :
    String
    → String
    → Bool
    → Result TaskError TaskDetail
    → Option TaskDetail
    → Result TaskError TaskDetail
await_round principal outcome in_time later none = err no_rows
await_round principal outcome in_time later (some detail) =
    if is_completed detail.step_state
    then err already_completed
    else if is_assigned_to principal detail.assigned_to && contains detail.outcomes outcome
    then ok detail
    else if waits detail in_time
    then later
    else if not (is_assigned_to principal detail.assigned_to)
    then err forbidden
    else err invalid_outcome

-- The loop of CompleteTask. `reads` is what GetTask gives at each round, and `clock` the time in
-- nanoseconds at which the round asks for it.
unfoldable pub await_task :
    String → String → ℕ → (ℕ → Option TaskDetail) → (ℕ → ℕ) → ℕ → ℕ → Result TaskError TaskDetail
await_task principal outcome deadline reads clock zero round = err out_of_fuel
await_task principal outcome deadline reads clock (suc fuel) round =
    let later = await_task principal outcome deadline reads clock fuel (suc round) in
    await_round principal outcome (ltb (clock round) deadline) later (reads round)

-- A round sleeps 50 milliseconds and the deadline is 2 seconds after the start, so that 41 rounds
-- are enough fuel.
abbrev pub await_rounds : ℕ
await_rounds = 41

abbrev pub await_limit : ℕ
await_limit = 2000000000

abbrev pub await_pause : ℕ
await_pause = 50000000

abbrev pub no_members : Fields → Bool
no_members end = true
no_members (field name v rest) = false

-- The members of the data; nil has none.
abbrev pub members : Option Fields → Fields
members none = end
members (some given) = given

abbrev pub or_null : Option Fields → Json
or_null none = null
or_null (some given) = obj given

-- The payload: for an accepted review without data, the agent's own output.
unfoldable pub payload_of : TaskDetail → String → Option Fields → Option Fields
payload_of detail outcome given =
    if detail.form == "agent_review" && equal_fold outcome "accept" && no_members (members given)
    then some (extract_agent_original_output detail.metadata)
    else given

abbrev pub completion_result : String → Option Fields → Json
completion_result outcome payload =
    obj (field "outcome" (str outcome) (field "data" (or_null payload) end))

abbrev pub completed_row : ℕ → String → Option Fields → TaskRow → TaskRow
completed_row now outcome payload row = record row {
  state = completed;
  completed_at = some now;
  result = document (completion_result outcome payload);
  draft_data = none;
  completions = row.completions ++ (outcome, now) ∷ [];
}

-- data->'decision' where it is an object, and the empty object
abbrev pub decision_in : Option Json → Json
decision_in (some (obj fields)) = elim (get "decision" fields) [
  | some (obj inner) ↦ obj inner
  | _ ↦ obj end
]
decision_in _ = obj end

abbrev pub or_object : Option Json → Json
or_object none = obj end
or_object (some v) = v

-- The data and version of the case after a task with a patch.
abbrev pub patch_decision : Concat → Fields → TaskCase → TaskCase
patch_decision concat end c = c
patch_decision concat patch c = record c {
  case_data = some (
      concat (or_object c.case_data)
        (obj (field "decision" (concat (decision_in c.case_data) (obj patch)) end)));
  version = c.version + 1;
}

-- The state of the task that could not be completed.
abbrev pub complete_error : Option TaskRow → TaskError
complete_error none = forbidden
complete_error (some row) = if is_completed row.state then already_completed else forbidden

abbrev pub form_errors :
    (Json → Json → Bool)
    → (Json → Bool)
    → TaskDetail
    → String
    → Option Fields
    → List ValidationError
form_errors at_most is_integral detail outcome payload =
    validate_form_data at_most is_integral detail.form_schema (members payload)
    ++ validate_action_requirements detail.form_schema outcome (members payload)

-- What a completed task leaves of the case: the new rows, the patch and the event.
abbrev pub completed_case :
    Concat → ℕ → String → String → List TaskRow → Fields → TaskCase → TaskCase
completed_case concat now principal id rows patch c =
    with_event now id principal "human" "completed" rows (patch_decision concat patch c)

-- CompleteTask after its loop, on the task that the loop read.
unfoldable pub complete_read :
    (Json → Json → Bool)
    → (Json → Bool)
    → Concat
    → ℕ
    → String
    → String
    → String
    → String
    → Option Fields
    → TaskDetail
    → TaskCase
    → Result TaskError TaskCase
complete_read at_most is_integral concat now tenant principal id outcome given detail c =
    let payload = payload_of detail outcome given in
    let test = is_own_task tenant principal id c in
    elim (form_errors at_most is_integral detail outcome payload) [
      | first ∷ _ ↦ err (validation_failed first)
      | [] ↦
          if any test c.steps
          then ok (
              completed_case concat now principal id
                (update_rows test (completed_row now outcome payload) c.steps)
                (build_decision_patch detail.form_schema (members payload)) c)
          else err (complete_error (find_row (λ row. row.step_id == id) c.steps))
    ]

-- CompleteTask, which starts at `start` and whose transaction finds the case as `c`.
unfoldable pub complete_task :
    (Json → Json → Bool)
    → (Json → Bool)
    → Concat
    → ℕ
    → String
    → String
    → String
    → String
    → Option Fields
    → ℕ
    → (ℕ → Option TaskDetail)
    → (ℕ → ℕ)
    → TaskCase
    → Result TaskError TaskCase
complete_task at_most is_integral concat now tenant principal id outcome given start reads clock c =
    await_task principal outcome (start + await_limit) reads clock await_rounds 0 >>= λ detail.
    complete_read at_most is_integral concat now tenant principal id outcome given detail c
