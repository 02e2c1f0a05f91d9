-- ===== src/Engine/Recovery/Recovered.antt =====
-- internal/engine/recovery.go: which steps a recovery executes again, and which it fails.
use aceryx.Prelude.{
  ℕ, ◌≡◌, refl, ◌↔◌, inl, inr, true, false, Option, some, List, [], ◌∷◌, ◌++◌, ok, All, In, here,
  there, In-append, In-append_left, In-filter_iff, filter, fold,
}
use aceryx.Prelude.Map.{lookup}
use aceryx.Json.{Json}
use aceryx.Engine.Types.{WorkflowStep, WorkflowAst}
use aceryx.Engine.Ast.{step_map}
use aceryx.Engine.Compute.{Evaluator, is_terminal}
use aceryx.Engine.Store.{StepRow, CaseRow, is_active}
use aceryx.Engine.Cases.{Concat, failed_row, completed_row}
use aceryx.Engine.Cases.History.{Reach}
use aceryx.Engine.Evaluate.Agrees.{DistinctRows}
use aceryx.Engine.Recovery.{
  Request, dispatches, evaluates, Recovery, idempotent_step, has_bytes, recovery_message,
  recover_row, recover_case,
}
use aceryx.Engine.Recovery.Deeds.{Repeats}
use aceryx.Engine.Recovery.Loop.{DistinctRows-filter, recover_rows-DoesAll}
use aceryx.Engine.Recovery.Left.{
  stored, recover_row-failed, recover_row-completed, recover_rows-final,
}
use aceryx.Engine.Results.{marshal_result}

before_last :
    (q : Request) (requests : List Request)
    → ¬ (q ≡ evaluates)
    → In q (requests ++ evaluates ∷ [])
    → In q requests
before_last q requests other i = elim (In-append requests i) [
  | inl before ↦ before
  | inr (here e) ↦ absurd (other e)
  | inr (there nothing) ↦ elim nothing [ ]
]

there_are :
    (rows all : List StepRow)
    → ((row : StepRow) → In row rows → In row all)
    → All (λ row. In row all) rows
there_are [] all f = tt
there_are (row ∷ rows) all f = (f row (here refl), there_are rows all (λ x i. f x (there i)))

module _ (concat : Concat) (ast : WorkflowAst) (evaluator : Option (Evaluator Json)) (now : ℕ) where
  pub record IsRecovered (c : CaseRow) (r : Recovery) : Type 0 where
    pub reached : Reach concat ast evaluator c r.case_row
    pub executed :
        (step : WorkflowStep)
        → In (dispatches step) r.requests ↔ (
            (row : StepRow) × In row c.steps
            × (is_active row.state ≡ true)
            × (lookup row.step_id (step_map ast) ≡ some step)
            × Repeats step row.result)
    pub evaluated : (earlier : List Request) × (r.requests ≡ earlier ++ evaluates ∷ [])
    pub fails_once :
        (row : StepRow) (step : WorkflowStep)
        → In row c.steps
        → is_active row.state ≡ true
        → lookup row.step_id (step_map ast) ≡ some step
        → step.type ≡ "integration"
        → idempotent_step step ≡ false
        → In (failed_row now recovery_message row) r.case_row.steps
    pub answers :
        (row : StepRow) (step : WorkflowStep) (j : Json)
        → In row c.steps
        → is_active row.state ≡ true
        → lookup row.step_id (step_map ast) ≡ some step
        → step.type ≡ "agent"
        → has_bytes row.result ≡ true
        → marshal_result (stored row) ≡ ok j
        → In (completed_row now (stored row) j row) r.case_row.steps

  -- A recovery executes again just the steps of the workflow with a row that was active, of which
  -- each is an integration that is marked as idempotent, an agent whose row has no result, or neither
  -- of these nor a human task. The active row of an integration that is not marked is failed, and
  -- that of an agent is completed with the result it holds, where that can be marshalled. The case changes by operations of the engine only, and in the end an evaluation of it is requested,
  -- whose own executions are not counted here. The rows are of different steps.
  pub recover_case-IsRecovered :
      (c : CaseRow) → DistinctRows c.steps → IsRecovered c (recover_case concat now ast c)
  unfolding recover_case is_terminal
  recover_case-IsRecovered c distinct =
      let on = λ (row : StepRow). is_active row.state in
      let rows = filter on c.steps in
      let start : Recovery = record { case_row = c; requests = [] } in
      let does = recover_rows-DoesAll concat ast evaluator now rows start in
      let final =
        λ (row left : StepRow) (at : In row c.steps) (active : is_active row.state ≡ true).
          recover_rows-final concat ast evaluator now rows start
            (DistinctRows-filter on c.steps distinct)
            (there_are rows c.steps (λ x i. ((In-filter_iff on x c.steps).0 i).0)) row left
            ((In-filter_iff on row c.steps).1 (at, active)) in
      let looped = fold (recover_row concat now (step_map ast)) start rows in
      record {
        reached = does.reached;
        executed = λ step. (
          λ i.
              elim ((does.requested step).0
                (before_last (dispatches step) looped.requests (λ e. cc e) i)) [
                  | inl nothing ↦ elim nothing [ ]
                  | inr (row, at, known, again) ↦
                      let (present, active) = (In-filter_iff on row c.steps).0 at in
                      (row, present, active, known, again)
                ],
          λ (row, present, active, known, again). In-append_left (evaluates ∷ []) (
              (does.requested step).1
                (inr (row, (In-filter_iff on row c.steps).1 (present, active), known, again))),
        );
        evaluated = (looped.requests, refl);
        fails_once = λ row step at active known remote once.
            final row (failed_row now recovery_message row) at active refl
              (λ q i. recover_row-failed concat ast now row step q i active known remote once);
        answers = λ row step j at active known agent kept made.
            final row (completed_row now (stored row) j row) at active refl (λ q i.
              recover_row-completed concat ast now row step j q i active known agent kept made);
      }
