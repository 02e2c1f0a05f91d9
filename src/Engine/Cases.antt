-- ===== src/Engine/Cases.antt =====
-- A case and the rows of its steps, as the statements of internal/engine read and write them. Each
-- operation is one transaction on one case: it commits the new rows, or fails and leaves all as it
-- was. `now` is the time of the database, and `concat` its operator `||` on jsonb.
pub mod Rows
pub mod Writes
pub mod History
pub mod Final
pub mod Completion
use aceryx.Prelude.{
  ℕ, zero, suc, ◌+◌, String, Bool, true, false, not, ◌&&◌, ◌||◌, Option, none, some, List, [], ◌∷◌,
  ◌++◌, map, Result, ok, err, ◌>>=◌, ◌>>◌, require, any, nat_eq, ◌==◌, if◌then◌else◌,
}
use aceryx.Prelude.Map.{Map}
use aceryx.Json.{
  Json, null, bool, num, str, obj, Fields, end, field, RawMessage, empty, malformed, document,
}
use aceryx.Engine.Store.{
  StepEvent, execution, completed_event, failed_event, skipped_on_exhausted, retry_attempt, StepRow,
  AuditEvent, CaseRow, Outcome, StoreError, bad_json, step_not_active, case_data_conflict,
  not_active_for_retry, is_active, update_where, is_active_step,
}
use aceryx.Engine.Results.{
  text_member, raw_member, audit_members, patch_members, write_members, marshal_result, split_once,
  both_parts, audit_names, zero_result, or_zero,
}
use aceryx.Engine.Types.{
  State, pending, ready, active, completed, failed, skipped, blank, to_ready, to_skipped, to_active,
  Transition, WorkflowStep, StepResult,
}
use aceryx.Engine.Compute.{is_pending, is_ready}
use Prim.Native.Char.{code}

-- The events that a completed step's row gets: the execution's own, if there is one, and the
-- completion. A text that is not JSON fails the cast to jsonb.
abbrev pub execution_events : RawMessage → List StepEvent
execution_events (document value) = execution value ∷ []
execution_events _ = []

abbrev pub completed_row : ℕ → StepResult → Json → StepRow → StepRow
completed_row now r marshalled row = record row {
  state = completed;
  completed_at = some now;
  result = document marshalled;
  error = none;
  events = row.events ++ execution_events r.execution_event ++ completed_event r.attempts now ∷ [];
}

abbrev pub is_live : CaseRow → Bool
is_live c = not (c.status == "cancelled")

-- The operator `||` of jsonb, which the database provides.
abbrev pub Concat : Type 0
Concat = Json → Json → Json

-- COALESCE(data, '{}') || patch
abbrev pub patched : Concat → Option Json → Json → Json
patched concat none patch = concat (obj end) patch
patched concat (some value) patch = concat value patch

-- The case row after a step: the patch is written where the step writes case data.
abbrev pub write_patch : Concat → ℕ → Bool → RawMessage → CaseRow → CaseRow
write_patch concat now true (document patch) c = record c {
  data_column = some (patched concat c.data_column patch);
  version = c.version + 1;
  updated_at = now;
}
write_patch concat now writes patch c = record c { updated_at = now }

unfoldable pub complete_step :
    Concat → ℕ → String → Option StepResult → CaseRow → Result StoreError Outcome
complete_step concat now id given c = do
  let r = or_zero given
  marshalled ← marshal_result r
  require (any (is_active_step id) c.steps) step_not_active
  let rows = update_where (is_active_step id) (completed_row now r marshalled) c.steps
  let names = audit_names r.audit_event_type
  let event : AuditEvent = record {
    step_id = id;
    event_type = names.0;
    actor_type = "system";
    action = names.1;
    payload = ("attempts", num r.attempts) ∷ ("outcome", str r.outcome) ∷ [];
  }
  let written = write_patch concat now r.writes_case_data r.case_data_patch c
  ok (record {
    case_row = record written { steps = rows; audit = c.audit ++ event ∷ [] };
    evaluate = is_live c;
  })

abbrev pub failed_row : ℕ → String → StepRow → StepRow
failed_row now message row = record row {
  state = failed;
  completed_at = some now;
  error = some message;
  events = row.events ++ failed_event message now ∷ [];
}

-- The audit event of an operation of the engine on a step.
abbrev pub step_event : String → String → Map Json → AuditEvent
step_event id action payload = record {
  step_id = id;
  event_type = "step";
  actor_type = "system";
  action = action;
  payload = payload;
}

unfoldable pub fail_step : ℕ → String → String → CaseRow → Outcome
fail_step now id message c = record {
  case_row = record c {
    steps = update_where (is_active_step id) (failed_row now message) c.steps;
    updated_at = now;
    audit = c.audit ++ step_event id "failed" (("error", str message) ∷ []) ∷ [];
  };
  evaluate = is_live c;
}

abbrev pub skipped_row : ℕ → ℕ → String → StepRow → StepRow
skipped_row now attempts message row = record row {
  state = skipped;
  completed_at = some now;
  error = some message;
  events = row.events ++ skipped_on_exhausted attempts message now ∷ [];
}

-- skipStepTerminal does not ask for an evaluation: its caller does.
unfoldable pub skip_step_terminal : ℕ → String → ℕ → String → CaseRow → CaseRow
skip_step_terminal now id attempts cause c = record c {
  steps = update_where (is_active_step id) (skipped_row now attempts cause) c.steps;
  updated_at = now;
  audit =
      c.audit
      ++ step_event id "skipped" (("attempts", num attempts) ∷ ("error", str cause) ∷ []) ∷ [];
}

-- UpdateCaseData: the version that was read must still be the row's.
unfoldable pub update_case_data : Concat → ℕ → ℕ → Json → CaseRow → Result StoreError CaseRow
update_case_data concat now expected_version patch c =
    if nat_eq c.version expected_version
    then ok (record c {
      data_column = some (patched concat c.data_column patch);
      version = c.version + 1;
      updated_at = now;
    })
    else err case_data_conflict

abbrev pub ready_row : StepRow → StepRow
ready_row row = record row { state = ready }

unfoldable pub activate_fallback_step : ℕ → String → CaseRow → CaseRow
activate_fallback_step now id c = record c {
  steps = update_where (λ row. row.step_id == id && is_pending row.state) ready_row c.steps;
  updated_at = now;
}

abbrev pub cancelled_row : ℕ → StepRow → StepRow
cancelled_row now row = record row { state = skipped; completed_at = some now }

abbrev pub cancelled_task_row : ℕ → StepRow → StepRow
cancelled_task_row now row = record row {
  state = skipped;
  completed_at = some now;
  cancelled_task = true;
}

-- The loop over ast.Steps.
unfoldable pub cancel_human_tasks : ℕ → List WorkflowStep → List StepRow → List StepRow
cancel_human_tasks now [] rows = rows
cancel_human_tasks now (step ∷ rest) rows = cancel_human_tasks now rest (
    if step.type == "human_task"
    then update_where (is_active_step step.id) (cancelled_task_row now) rows
    else rows)

unfoldable pub cancel_case : ℕ → List WorkflowStep → String → CaseRow → CaseRow
cancel_case now steps reason c =
    let stopped =
      update_where (λ row. is_pending row.state || is_ready row.state) (cancelled_row now)
        c.steps in
    let event : AuditEvent = record {
      step_id = "";
      event_type = "case";
      actor_type = "human";
      action = "cancelled";
      payload = ("reason", str reason) ∷ [];
    } in
    record c {
      status = "cancelled";
      version = c.version + 1;
      updated_at = now;
      steps = cancel_human_tasks now steps stopped;
      audit = c.audit ++ event ∷ [];
    }

-- incrementRetryCount gives the new count; it fails where no row of the step is active.
unfoldable pub find_active : String → List StepRow → Option StepRow
find_active id [] = none
find_active id (row ∷ rows) = if is_active_step id row then some row else find_active id rows

abbrev pub retried_row : ℕ → ℕ → String → StepRow → StepRow
retried_row now attempt message row = record row {
  retry_count = row.retry_count + 1;
  events = row.events ++ retry_attempt attempt message now ∷ [];
}

unfoldable pub increment_retry_count :
    ℕ → String → ℕ → String → CaseRow → Result StoreError (ℕ × CaseRow)
increment_retry_count now id attempt message c = elim (find_active id c.steps) [
  | none ↦ err not_active_for_retry
  | some row ↦ ok (
    row.retry_count + 1,
    record c {
      steps = update_where (is_active_step id) (retried_row now attempt message) c.steps;
      updated_at = now;
    },
  )
]

abbrev pub same_state : State → State → Bool
same_state pending pending = true
same_state ready ready = true
same_state active active = true
same_state completed completed = true
same_state failed failed = true
same_state skipped skipped = true
same_state blank blank = true
same_state _ _ = false

-- The WHERE clause of applyTransitionTx, and the row that it leaves.
abbrev pub applies : Transition → StepRow → Bool
applies t row = row.step_id == t.step_id && elim t.type [
  | to_ready ↦ same_state row.state t.from
  | to_skipped ↦ is_pending row.state || is_ready row.state
  | to_active ↦ is_ready row.state
]

-- COALESCE(column, value)
abbrev pub coalesce : {A : Type 0} → Option A → A → Option A
coalesce none value = some value
coalesce (some held) value = some held

-- `fresh` gives the request id that the database draws for a step.
abbrev pub applied_row : ℕ → (String → String) → Transition → StepRow → StepRow
applied_row now fresh t row = elim t.type [
  | to_ready ↦ record row { state = ready }
  | to_skipped ↦ record row { state = skipped; completed_at = some now }
  | to_active ↦ record row {
    state = active;
    started_at = coalesce row.started_at now;
    request_id = coalesce row.request_id (fresh row.step_id);
  }
]

unfoldable pub apply_transition : ℕ → (String → String) → Transition → List StepRow → List StepRow
apply_transition now fresh t rows = update_where (applies t) (applied_row now fresh t) rows
