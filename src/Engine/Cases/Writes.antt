-- ===== src/Engine/Cases/Writes.antt =====
-- internal/engine: what a completion and a write of the data leave of a case.
use aceryx.Prelude.{
  ℕ, ◌+◌, ◌≤◌, String, ◌≡◌, refl, sym, ap, ◌∙◌, subst, inl, inr, Bool, true, Option, List, [], ◌∷◌,
  ◌++◌, ok, >>=-eq-ok, ok-injective, any, nat_eq, arith, Bool-cases,
}
use aceryx.Prelude.Map.{Map}
use aceryx.Json.{Json, RawMessage}
use aceryx.Engine.Types.{Transition, WorkflowStep, StepResult}
use aceryx.Engine.Store.{CaseRow, Outcome, is_active_step, update_where}
use aceryx.Engine.Results.{marshal_result, or_zero}
use aceryx.Engine.Cases.{
  Concat, completed_row, complete_step, update_case_data, apply_transition, write_patch,
}
use aceryx.Engine.Evaluate.{apply_all, dispatched_by, transition_events}
use aceryx.Engine.Evaluate.Agrees.{rows_after}

-- The loop over the transitions writes rows and audit entries only.
pub apply_all_kept :
    (now : ℕ) (fresh : String → String) (by_id : Map WorkflowStep) (ts : List Transition)
    (c : CaseRow) (dispatch : List WorkflowStep)
    → ((apply_all now fresh by_id ts (c, dispatch)).0.steps ≡ rows_after now fresh ts c.steps)
      × ((apply_all now fresh by_id ts (c, dispatch)).0.version ≡ c.version)
      × ((apply_all now fresh by_id ts (c, dispatch)).0.status ≡ c.status)
unfolding apply_all
apply_all_kept now fresh by_id [] c dispatch = (refl, refl, refl)
apply_all_kept now fresh by_id (t ∷ ts) c dispatch =
    apply_all_kept now fresh by_id ts
      (record c {
        steps = apply_transition now fresh t c.steps;
        audit = c.audit ++ transition_events t;
      })
      (dispatch ++ dispatched_by by_id t)

module _ (concat : Concat) where
  pub complete_step_rows :
      (now : ℕ) (id : String) (r : Option StepResult) (c : CaseRow) (o : Outcome)
      → complete_step concat now id r c ≡ ok o
      → (j : Json) × (marshal_result (or_zero r) ≡ ok j)
        × (any (is_active_step id) c.steps ≡ true)
        × (o.case_row.steps
            ≡ update_where (is_active_step id) (completed_row now (or_zero r) j) c.steps)
        × (o.case_row.status ≡ c.status)
        × (c.version ≤ o.case_row.version)
  unfolding complete_step
  complete_step_rows now id r c o h =
      let (j, made, h1) = >>=-eq-ok (marshal_result (or_zero r)) _ h in
      elim (Bool-cases (any (is_active_step id) c.steps)) [
        | inr no_row ↦ cc (rw no_row at h1)
        | inl found ↦
            let e = ok-injective (rw found at h1) in
            (
              j,
              made,
              found,
              ap (λ (x : Outcome). x.case_row.steps) (sym e),
              ap (λ (x : Outcome). x.case_row.status) (sym e)
                  ∙ status_of (or_zero r).writes_case_data (or_zero r).case_data_patch,
              subst (λ (x : Outcome). c.version ≤ x.case_row.version) e
                  (version_of (or_zero r).writes_case_data (or_zero r).case_data_patch),
            )
      ]
    where
      status_of :
          (writes : Bool) (patch : RawMessage)
          → (write_patch concat now writes patch c).status ≡ c.status
      status_of writes patch = ground arith

      version_of :
          (writes : Bool) (patch : RawMessage)
          → c.version ≤ (write_patch concat now writes patch c).version
      version_of writes patch = ground arith

  pub update_case_data_version :
      (now version : ℕ) (patch : Json) (c c' : CaseRow)
      → update_case_data concat now version patch c ≡ ok c'
      → (c.version ≡ version)
        × (c'.version ≡ version + 1)
        × (c'.steps ≡ c.steps)
        × (c'.status ≡ c.status)
  unfolding update_case_data
  update_case_data_version now version patch c c' h = elim (Bool-cases (nat_eq c.version version)) [
    | inr other ↦ cc (rw other at h)
    | inl same ↦
        let e = ok-injective (rw same at h) in
        let v : c.version ≡ version = ground (arith, same) in
        (
          v,
          sym (ap (λ (x : CaseRow). x.version) e) ∙ ap (λ (n : ℕ). n + 1) v,
          ap (λ (x : CaseRow). x.steps) (sym e),
          ap (λ (x : CaseRow). x.status) (sym e),
        )
  ]
