-- ===== src/Engine/Evaluate.antt =====
-- internal/engine/engine.go: one evaluation of a case's graph. The states of the steps are loaded,
-- the transitions are computed and written to the rows one by one, and the steps that became
-- active are dispatched.
pub mod Agrees
use aceryx.Prelude.{
  ℕ, String, Bool, true, false, Option, none, some, List, [], ◌∷◌, ◌++◌, Result, ok, err, ◌>>=◌,
  ◌==◌, if◌then◌else◌,
}
use aceryx.Prelude.Map.{Map, lookup, insert}
use aceryx.Json.{Json, str, obj, null, end, field, empty}
use aceryx.Engine.Types.{
  State, pending, ready, active, completed, failed, skipped, blank, to_ready, to_skipped, to_active,
  TransitionReason, dependencies_satisfied, join_any_satisfied, guard_false, skip_propagation,
  outcome_routing, Transition, WorkflowStep, WorkflowAst, StepState, EngineError,
}
use aceryx.Engine.Ast.{step_map}
use aceryx.Engine.Compute.{Evaluator, compute_transitions}
use aceryx.Engine.Store.{StepRow, AuditEvent, CaseRow}
use aceryx.Engine.Cases.{step_event, apply_transition}

abbrev pub loaded : StepRow → StepState
loaded row = record {
  step_id = row.step_id;
  state = row.state;
  result = row.result;
  retry_count = row.retry_count;
  metadata = empty;
  completed_at = row.completed_at;
}

-- states[st.StepID] = st, for each row
unfoldable pub load_from : Map StepState → List StepRow → Map StepState
load_from states [] = states
load_from states (row ∷ rows) = load_from (insert row.step_id (loaded row) states) rows

unfoldable pub load_step_states : List StepRow → Map StepState
load_step_states rows = load_from [] rows

abbrev pub state_text : State → String
state_text pending = "pending"
state_text ready = "ready"
state_text active = "active"
state_text completed = "completed"
state_text failed = "failed"
state_text skipped = "skipped"
state_text blank = ""

abbrev pub reason_text : TransitionReason → String
reason_text dependencies_satisfied = "dependencies_satisfied"
reason_text join_any_satisfied = "join_any_satisfied"
reason_text guard_false = "guard_false"
reason_text skip_propagation = "skip_propagation"
reason_text outcome_routing = "outcome_routing"

abbrev pub transition_payload : Transition → Map Json
transition_payload t =
    ("from", str (state_text t.from))
    ∷ ("to", str (state_text t.to))
    ∷ ("reason", str (reason_text t.reason))
    ∷ ("outcome", str t.outcome)
    ∷ []

-- The audit event of a transition; one to ready has none.
abbrev pub transition_events : Transition → List AuditEvent
transition_events t = elim t.type [
  | to_active ↦ step_event t.step_id "activated" (transition_payload t) ∷ []
  | to_skipped ↦ step_event t.step_id "skipped" (transition_payload t) ∷ []
  | to_ready ↦ []
]

-- The step that a transition dispatches.
abbrev pub dispatched_by : Map WorkflowStep → Transition → List WorkflowStep
dispatched_by by_id t = elim t.type [
  | to_active ↦ elim (lookup t.step_id by_id) [ none ↦ [] | some step ↦ step ∷ [] ]
  | _ ↦ []
]

-- The loop over the transitions.
unfoldable pub apply_all :
    ℕ
    → (String → String)
    → Map WorkflowStep
    → List Transition
    → CaseRow × List WorkflowStep
    → CaseRow × List WorkflowStep
apply_all now fresh by_id [] s = s
apply_all now fresh by_id (t ∷ ts) (c, dispatch) = apply_all now fresh by_id ts (
  record c { steps = apply_transition now fresh t c.steps; audit = c.audit ++ transition_events t },
  dispatch ++ dispatched_by by_id t,
)

-- The context of the guards: the case data where they are an object.
abbrev pub eval_context : Option Json → Json
eval_context (some (obj fields)) = obj (field "case" (obj fields) end)
eval_context (some null) = obj (field "case" null end)
eval_context _ = obj (field "case" (obj end) end)

unfoldable pub evaluate_dag :
    ℕ
    → (String → String)
    → WorkflowAst
    → Option (Evaluator Json)
    → CaseRow
    → Result EngineError (CaseRow × List WorkflowStep)
evaluate_dag now fresh ast evaluator c =
    if c.status == "cancelled"
    then ok (c, [])
    else compute_transitions ast evaluator (eval_context c.data_column) (load_step_states c.steps)
      >>= λ ts.
          let (c', dispatch) = apply_all now fresh (step_map ast) ts (c, []) in
          ok (record c' { updated_at = now }, dispatch)
