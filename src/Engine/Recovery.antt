-- ===== src/Engine/Recovery.antt =====
-- internal/engine/recovery.go: what is done at a start with the steps that the last run of the
-- process left active. What the requested executions and evaluations do then is not part of it.
pub mod Deeds
pub mod Left
pub mod Loop
pub mod Recovered
use aceryx.Prelude.{
  ℕ, String, ◌≡◌, refl, sym, ap, subst, inl, inr, Bool, true, false, Option, none, some, List, [],
  ◌∷◌, ◌++◌, Result, ok, err, In, here, there, In-append, filter, fold, ◌==◌, if◌then◌else◌, eq_iff,
  Bool-cases, Option-cases,
}
use aceryx.Prelude.Map.{Map, lookup}
use aceryx.Json.{Json, bool, RawMessage, empty}
use aceryx.Engine.Types.{WorkflowStep, WorkflowAst}
use aceryx.Engine.Ast.{step_map}
use aceryx.Engine.Compute.{Evaluator}
use aceryx.Engine.Store.{StoreError, StepRow, CaseRow, Outcome, is_active}
use aceryx.Engine.Results.{zero_result}
use aceryx.Engine.Cases.{Concat, complete_step, fail_step}
use aceryx.Engine.Cases.History.{Reach, unmoved, then_step, completes, fails}

-- What a recovery starts in the pools of the engine: the execution of a step, or an evaluation of
-- the case.
pub data Request : Type 0 where
  dispatches : WorkflowStep → Request
  evaluates : Request

-- What a recovery leaves: the case, and the requests that it made, in order.
pub record Recovery : Type 0 where
  pub case_row : CaseRow
  pub requests : List Request

unfoldable pub idempotent_step : WorkflowStep → Bool
idempotent_step step = elim step.metadata [
  | none ↦ false
  | some metadata ↦ elim (lookup "idempotent" metadata) [ some (bool b) ↦ b | _ ↦ false ]
]

abbrev pub has_bytes : RawMessage → Bool
has_bytes empty = false
has_bytes _ = true

abbrev pub dispatch : WorkflowStep → Recovery → Recovery
dispatch step r = record r { requests = r.requests ++ dispatches step ∷ [] }

-- triggerEvaluation
abbrev pub trigger_evaluation : Recovery → Recovery
trigger_evaluation r = record r { requests = r.requests ++ evaluates ∷ [] }

-- The requests of an operation on a row of the case.
abbrev pub with_outcome : Outcome → Recovery → Recovery
with_outcome o r =
    if o.evaluate
    then trigger_evaluation (record r { case_row = o.case_row })
    else record r { case_row = o.case_row }

-- The completion of an agent's step with the result that its row holds; an error is dropped.
abbrev pub after_completion : Recovery → Result StoreError Outcome → Recovery
after_completion r (err e) = r
after_completion r (ok o) = with_outcome o r

abbrev pub complete_stored : Concat → ℕ → String → RawMessage → Recovery → Recovery
complete_stored concat now id result r =
    after_completion r
      (complete_step concat now id (some (record zero_result { output = result })) r.case_row)

abbrev pub recovery_message : String
recovery_message = "recovery failed non-idempotent integration step"

unfoldable pub recover_step : Concat → ℕ → WorkflowStep → RawMessage → Recovery → Recovery
recover_step concat now step result r =
    if step.type == "integration"
    then (if idempotent_step step
        then dispatch step r
        else with_outcome (fail_step now step.id recovery_message r.case_row) r)
    else if step.type == "agent"
    then (if has_bytes result then complete_stored concat now step.id result r else dispatch step r)
    else if step.type == "human_task"
    then r
    else dispatch step r

-- The body of the loop over the active rows, which were read before it.
unfoldable pub recover_row : Concat → ℕ → Map WorkflowStep → Recovery → StepRow → Recovery
recover_row concat now by_id r row = elim (lookup row.step_id by_id) [
  | none ↦ r
  | some step ↦ recover_step concat now step row.result r
]

unfoldable pub recover_case : Concat → ℕ → WorkflowAst → CaseRow → Recovery
recover_case concat now ast c = trigger_evaluation (
    fold (recover_row concat now (step_map ast)) (record { case_row = c; requests = [] })
      (filter (λ row. is_active row.state) c.steps))
