-- ===== src/Engine/Cases/History.antt =====
-- Histories of a case: the operations of internal/engine on its rows, in any order, each with any
-- arguments, and the evaluations between them.
use aceryx.Prelude.{
  ℕ, ◌≤◌, String, ◌≡◌, refl, sym, ap, ◌∙◌, subst, inl, inr, true, ◌&&◌, ◌||◌, Option, List, [], ◌∷◌,
  ok, >>=-eq-ok, ok-injective, arith, ◌==◌, Bool-cases, Option-cases,
}
use aceryx.Prelude.Map.{Map}
use aceryx.Json.{Json}
use aceryx.Engine.Types.{Transition, WorkflowStep, WorkflowAst, StepResult, StepState}
use aceryx.Engine.Ast.{step_map}
use aceryx.Engine.Compute.{Evaluator, is_pending, is_ready, compute_transitions}
use aceryx.Engine.Compute.Progress.{Trace, done, next}
use aceryx.Engine.Compute.Quiet.{compute_transitions_correct}
use aceryx.Engine.Store.{StepRow, CaseRow, Outcome, is_active_step, update_where}
use aceryx.Engine.Results.{or_zero}
use aceryx.Engine.Cases.{
  Concat, completed_row, failed_row, skipped_row, ready_row, retried_row, cancelled_row,
  applied_row, applies, complete_step, fail_step, skip_step_terminal, update_case_data,
  activate_fallback_step, cancel_case, find_active, increment_retry_count, apply_transition,
}
use aceryx.Engine.Cases.Rows.{
  Moves, Pairwise, Pairwise-refl, Pairwise-trans, update_where-Pairwise, Moves-refl, Moves-trans,
  completed_Moves, failed_Moves, skipped_Moves, cancelled_Moves, retried_Moves, fallback_Moves,
  applied_Moves, cancel_human_tasks-Moves,
}
use aceryx.Engine.Evaluate.{eval_context, load_step_states, evaluate_dag}
use aceryx.Engine.Evaluate.Agrees.{rows_after, rows_after_append}
use aceryx.Engine.Cases.Writes.{apply_all_kept, complete_step_rows, update_case_data_version}

module _ (concat : Concat) (ast : WorkflowAst) (evaluator : Option (Evaluator Json)) where
  -- One committed operation on a case.
  pub data Step (c : CaseRow) : CaseRow → Type 0 where
    completes :
        (now : ℕ) (id : String) (r : Option StepResult) (o : Outcome)
        → complete_step concat now id r c ≡ ok o
        → Step c o.case_row
    fails : (now : ℕ) (id message : String) → Step c (fail_step now id message c).case_row
    skips :
        (now : ℕ) (id : String) (attempts : ℕ) (cause : String)
        → Step c (skip_step_terminal now id attempts cause c)
    patches :
        (now version : ℕ) (patch : Json) (c' : CaseRow)
        → update_case_data concat now version patch c ≡ ok c'
        → Step c c'
    falls_back : (now : ℕ) (id : String) → Step c (activate_fallback_step now id c)
    retries :
        (now : ℕ) (id : String) (attempt : ℕ) (message : String) (count : ℕ) (c' : CaseRow)
        → increment_retry_count now id attempt message c ≡ ok (count, c')
        → Step c c'
    cancels : (now : ℕ) (reason : String) → Step c (cancel_case now ast.steps reason c)
    evaluates :
        (now : ℕ) (fresh : String → String) (c' : CaseRow) (dispatch : List WorkflowStep)
        → evaluate_dag now fresh ast evaluator c ≡ ok (c', dispatch)
        → Step c c'

  pub data Reach (c : CaseRow) : CaseRow → Type 0 where
    unmoved : Reach c c
    then_step : {d e : CaseRow} → Reach c d → Step d e → Reach c e

  active_rows :
      (id : String) (change : StepRow → StepRow)
      → ((row : StepRow) → is_active_step id row ≡ true → Moves row (change row))
      → (rows : List StepRow) → Pairwise Moves rows (update_where (is_active_step id) change rows)
  active_rows id change f rows =
      update_where-Pairwise Moves (is_active_step id) change f (λ row h. Moves-refl row) rows

  Trace-rows :
      {ctx : Json} (now : ℕ) (fresh : String → String) {v u : Map StepState} {ts : List Transition}
      → Trace ast evaluator ctx v u ts
      → (rows : List StepRow) → Pairwise Moves rows (rows_after now fresh ts rows)
  unfolding apply_transition
  Trace-rows now fresh done rows = Pairwise-refl Moves Moves-refl rows
  Trace-rows now fresh (next {ts} before t e) rows =
      subst (Pairwise Moves rows) (sym (rows_after_append now fresh ts (t ∷ []) rows)) (
        Pairwise-trans Moves Moves-trans rows (rows_after now fresh ts rows) _
          (Trace-rows now fresh before rows)
          (update_where-Pairwise Moves (applies t) (applied_row now fresh t)
            (λ row h. applied_Moves e.edge now fresh t row refl refl h) (λ row h. Moves-refl row)
            (rows_after now fresh ts rows)))

  -- What one operation does to a case.
  pub record Effect (c c' : CaseRow) : Type 0 where
    pub rows : Pairwise Moves c.steps c'.steps
    pub later : c.version ≤ c'.version
    pub stopped : c.status ≡ "cancelled" → c'.status ≡ "cancelled"

  evaluate_dag-Effect :
      (now : ℕ) (fresh : String → String) (c c' : CaseRow) (dispatch : List WorkflowStep)
      → evaluate_dag now fresh ast evaluator c ≡ ok (c', dispatch)
      → Effect c c'
  unfolding evaluate_dag
  evaluate_dag-Effect now fresh c c' dispatch h = elim (Bool-cases (c.status == "cancelled")) [
    | inl off ↦
        let e : c ≡ c' =
          ap (λ (p : CaseRow × List WorkflowStep). p.0) (ok-injective (rw off at h)) in
        subst (Effect c) e (record {
          rows = Pairwise-refl Moves Moves-refl c.steps;
          later = omega arith;
          stopped = λ s. s;
        })
    | inr live ↦
        let ctx = eval_context c.data_column in
        let (ts, run, last) =
          >>=-eq-ok (compute_transitions ast evaluator ctx (load_step_states c.steps)) _
            (rw (live, evaluate_dag) at h) in
        let (v, trace, _, _) =
          compute_transitions_correct ast evaluator ctx (load_step_states c.steps) ts run in
        let e = ap (λ (p : CaseRow × List WorkflowStep). p.0) (ok-injective last) in
        let (r, kept_version, kept_status) = apply_all_kept now fresh (step_map ast) ts c [] in
        record {
          rows =
              subst (Pairwise Moves c.steps) (sym r ∙ ap (λ (x : CaseRow). x.steps) e)
                (Trace-rows now fresh trace c.steps);
          later = omega (arith, kept_version, ap (λ (x : CaseRow). x.version) e);
          stopped = λ s. sym (ap (λ (x : CaseRow). x.status) e) ∙ kept_status ∙ s;
        }
  ]

  increment_retry_count-Effect :
      (now : ℕ) (id : String) (attempt : ℕ) (message : String) (count : ℕ) (c c' : CaseRow)
      → increment_retry_count now id attempt message c ≡ ok (count, c')
      → Effect c c'
  unfolding increment_retry_count
  increment_retry_count-Effect now id attempt message count c c' h =
      elim (Option-cases (find_active id c.steps)) [
        | inl e ↦ cc (rw (e, increment_retry_count) at h)
        | inr (row, e) ↦
            subst (Effect c)
              (ap (λ (p : ℕ × CaseRow). p.1) (ok-injective (rw (e, increment_retry_count) at h)))
              (record {
                rows =
                    active_rows id (retried_row now attempt message)
                      (λ x a. retried_Moves now attempt id message x a) c.steps;
                later = omega arith;
                stopped = λ s. s;
              })
      ]

  cancel_case_rows :
      (now : ℕ) (reason : String) (c : CaseRow)
      → Pairwise Moves c.steps (cancel_case now ast.steps reason c).steps
  unfolding cancel_case
  cancel_case_rows now reason c =
      let stopped =
        update_where (λ row. is_pending row.state || is_ready row.state) (cancelled_row now)
          c.steps in
      Pairwise-trans Moves Moves-trans c.steps stopped _
        (update_where-Pairwise Moves (λ row. is_pending row.state || is_ready row.state)
          (cancelled_row now) (λ row h. cancelled_Moves now row h) (λ row h. Moves-refl row)
          c.steps)
        (cancel_human_tasks-Moves now ast.steps stopped)

  Step-Effect : {c c' : CaseRow} → Step c c' → Effect c c'
  unfolding fail_step skip_step_terminal activate_fallback_step cancel_case
  Step-Effect {c} (completes now id r o h) =
      let (j, _, _, e, status, version) = complete_step_rows concat now id r c o h in
      record {
        rows = subst (Pairwise Moves c.steps) (sym e) (
            active_rows id (completed_row now (or_zero r) j)
              (λ row a. completed_Moves now id (or_zero r) j row a) c.steps);
        later = version;
        stopped = λ s. status ∙ s;
      }
  Step-Effect {c} (fails now id message) = record {
    rows =
        active_rows id (failed_row now message) (λ row a. failed_Moves now id message row a)
          c.steps;
    later = omega arith;
    stopped = λ s. s;
  }
  Step-Effect {c} (skips now id attempts cause) = record {
    rows =
        active_rows id (skipped_row now attempts cause)
          (λ row a. skipped_Moves now attempts id cause row a) c.steps;
    later = omega arith;
    stopped = λ s. s;
  }
  Step-Effect {c} (patches now version patch c' h) =
      let (v, w, rows, status) = update_case_data_version concat now version patch c c' h in
      record {
        rows = subst (Pairwise Moves c.steps) (sym rows) (Pairwise-refl Moves Moves-refl c.steps);
        later = omega (arith, v, w);
        stopped = λ s. status ∙ s;
      }
  Step-Effect {c} (falls_back now id) = record {
    rows =
        update_where-Pairwise Moves (λ row. row.step_id == id && is_pending row.state) ready_row
          (λ row a. fallback_Moves id row a) (λ row a. Moves-refl row) c.steps;
    later = omega arith;
    stopped = λ s. s;
  }
  Step-Effect {c} (retries now id attempt message count c' h) =
      increment_retry_count-Effect now id attempt message count c c' h
  Step-Effect {c} (cancels now reason) = record {
    rows = cancel_case_rows now reason c;
    later = omega arith;
    stopped = λ s. refl;
  }
  Step-Effect {c} (evaluates now fresh c' dispatch h) =
      evaluate_dag-Effect now fresh c c' dispatch h

  pub Reach-Effect : {c c' : CaseRow} → Reach c c' → Effect c c'
  Reach-Effect {c} unmoved = record {
    rows = Pairwise-refl Moves Moves-refl c.steps;
    later = omega arith;
    stopped = λ s. s;
  }
  Reach-Effect {c} {c'} (then_step {d} before s) =
      let p = Reach-Effect before in
      let q = Step-Effect s in
      record {
        rows = Pairwise-trans Moves Moves-trans c.steps d.steps c'.steps p.rows q.rows;
        later = omega (arith, p.later, q.later);
        stopped = λ e. q.stopped (p.stopped e);
      }

  pub Reach-trans : {c d e : CaseRow} → Reach c d → Reach d e → Reach c e
  Reach-trans a unmoved = a
  Reach-trans a (then_step b s) = then_step (Reach-trans a b) s
