-- ===== src/Engine/Recovery/Left.antt =====
-- internal/engine/recovery.go: how a recovery leaves the rows that it completes or fails.
use aceryx.Prelude.{
  ℕ, String, ◌≡◌, refl, sym, ap, subst, ◌∙◌, inl, inr, true, false, Option, some, List, [], ◌∷◌,
  All, In, here, there, fold, eq_iff, Bool-cases, Result-cases, ok, ok-injective, any, ◌==◌,
}
use aceryx.Prelude.Map.{lookup}
use aceryx.Json.{Json}
use aceryx.Engine.Types.{WorkflowStep, WorkflowAst, StepResult}
use aceryx.Engine.Ast.{step_map}
use aceryx.Engine.Compute.{Evaluator, is_terminal}
use aceryx.Engine.Store.{StepRow, is_active, is_active_step, update_where}
use aceryx.Engine.Results.{zero_result, marshal_result}
use aceryx.Engine.Cases.{Concat, fail_step, failed_row, complete_step, completed_row}
use aceryx.Engine.Cases.Rows.{update_where-In}
use aceryx.Engine.Cases.Writes.{complete_step_rows}
use aceryx.Engine.Cases.Completion.{complete_step_error}
use aceryx.Engine.Cases.Final.{terminal_row_stays}
use aceryx.Engine.Evaluate.Agrees.{DistinctRows}
use aceryx.Engine.Recovery.{
  Recovery, idempotent_step, has_bytes, recovery_message, recover_step, recover_row,
}
use aceryx.Engine.Recovery.Deeds.{with_outcome-case, step_map-id}
use aceryx.Engine.Recovery.Loop.{All-both, recover_row-DoesAll, recover_rows-DoesAll}

-- The result that the row of an agent holds.
abbrev pub stored : StepRow → StepResult
stored row = record zero_result { output = row.result }

own_row :
    (ast : WorkflowAst) (row : StepRow) (step : WorkflowStep)
    → is_active row.state ≡ true
    → lookup row.step_id (step_map ast) ≡ some step
    → is_active_step step.id row ≡ true
own_row ast row step on known =
    rw ((eq_iff row.step_id step.id).1 (sym (step_map-id ast row.step_id step known)), on) refl

any-In :
    (id : String) {row : StepRow} (rows : List StepRow)
    → is_active_step id row ≡ true
    → In row rows
    → any (is_active_step id) rows ≡ true
any-In id [] on i = elim i [ ]
any-In id (x ∷ rows) on (here e) = rw (ap (is_active_step id) (sym e) ∙ on) refl
any-In id (x ∷ rows) on (there i) = elim (Bool-cases (is_active_step id x)) [
  | inl e ↦ rw (e) refl
  | inr e ↦ rw (e) (any-In id rows on i)
]

module _ (concat : Concat) (ast : WorkflowAst) (now : ℕ) where
  -- The row of an integration that is not idempotent is failed when the loop gets to it.
  pub recover_row-failed :
      (row : StepRow) (step : WorkflowStep) (r : Recovery)
      → In row r.case_row.steps
      → is_active row.state ≡ true
      → lookup row.step_id (step_map ast) ≡ some step
      → step.type ≡ "integration"
      → idempotent_step step ≡ false
      → In
          (failed_row now recovery_message row)
          (recover_row concat now (step_map ast) r row).case_row.steps
  unfolding recover_row recover_step fail_step
  recover_row-failed row step r i on known remote once =
      let o = fail_step now step.id recovery_message r.case_row in
      let mine = own_row ast row step on known in
      rw (known, recover_row, (eq_iff step.type "integration").1 remote, once)
        (subst (λ x. In (failed_row now recovery_message row) x.steps) (sym (with_outcome-case o r))
          (update_where-In (is_active_step step.id) (failed_row now recovery_message)
            r.case_row.steps mine i))

  -- The row of an agent that holds a result is completed when the loop gets to it.
  pub recover_row-completed :
      (row : StepRow) (step : WorkflowStep) (j : Json) (r : Recovery)
      → In row r.case_row.steps
      → is_active row.state ≡ true
      → lookup row.step_id (step_map ast) ≡ some step
      → step.type ≡ "agent"
      → has_bytes row.result ≡ true
      → marshal_result (stored row) ≡ ok j
      → In
          (completed_row now (stored row) j row)
          (recover_row concat now (step_map ast) r row).case_row.steps
  unfolding recover_row recover_step
  recover_row-completed row step j r i on known agent kept made =
      let mine = own_row ast row step on known in
      let near : (step.type == "integration") ≡ false = ap (λ t. t == "integration") agent in
      elim (Result-cases (complete_step concat now step.id (some (stored row)) r.case_row)) [
        | inl (e, f) ↦
            elim ((complete_step_error concat now step.id (stored row) r.case_row e).0 f) [
              | inl bad ↦ cc (made, bad)
              | inr (_, none_active, _) ↦ cc (any-In step.id r.case_row.steps mine i, none_active)
            ]
        | inr (o, f) ↦
            let (j', made', _, rows, _, _) =
              complete_step_rows concat now step.id (some (stored row)) r.case_row o f in
            let same : j' ≡ j = ok-injective (sym made' ∙ made) in
            let change = completed_row now (stored row) j in
            let there_now : In (change row) o.case_row.steps =
              subst (In (change row))
                (ap
                    (λ k.
                      update_where (is_active_step step.id) (completed_row now (stored row) k)
                        r.case_row.steps)
                    (sym same)
                  ∙ sym rows)
                (update_where-In (is_active_step step.id) change r.case_row.steps mine i) in
            rw (known, recover_row, near, (eq_iff step.type "agent").1 agent, kept, f)
              (subst (λ x. In (change row) x.steps) (sym (with_outcome-case o r)) there_now)
      ]

module _ (concat : Concat) (ast : WorkflowAst) (evaluator : Option (Evaluator Json)) (now : ℕ) where
  -- A row that the loop leaves final when it gets to it is left so by the whole loop.
  pub recover_rows-final :
      (rows : List StepRow) (r : Recovery)
      → DistinctRows rows
      → All (λ x. In x r.case_row.steps) rows
      → (row left : StepRow) → In row rows
      → is_terminal left.state ≡ true
      → ((q : Recovery)
          → In row q.case_row.steps
          → In left (recover_row concat now (step_map ast) q row).case_row.steps)
      → In left (fold (recover_row concat now (step_map ast)) r rows).case_row.steps
  recover_rows-final [] r d there_are row left i final done = elim i [ ]
  recover_rows-final (x ∷ rows) r d there_are row left (here e) final done =
      let next = recover_row concat now (step_map ast) r x in
      terminal_row_stays concat ast evaluator next.case_row
        (fold (recover_row concat now (step_map ast)) next rows).case_row left
        (recover_rows-DoesAll concat ast evaluator now rows next).reached
        (subst (λ y. In left (recover_row concat now (step_map ast) r y).case_row.steps) e
          (done r (subst (λ y. In y r.case_row.steps) (sym e) there_are.0)))
        final
  recover_rows-final (x ∷ rows) r d there_are row left (there i) final done =
      recover_rows-final rows (recover_row concat now (step_map ast) r x) d.1
        (All-both
          (λ y ne at. (recover_row-DoesAll concat ast evaluator now x r).others y (ne, tt) at) rows
          d.0 there_are.1)
        row left i final done
