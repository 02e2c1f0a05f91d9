-- ===== src/Engine/CaseTests.antt =====
-- A case of the small review workflow, on which the theorems about the rows of a case are applied.
use aceryx.Prelude.{
  String, ◌≡◌, refl, false, true, none, some, List, [], ◌∷◌, Result, ok, err, All, In, here, ◌==◌,
  eq_iff,
}
use aceryx.Prelude.Map.{lookup, insert}
use aceryx.Json.{obj, str, num, field, end, empty, document, string_field, equal_fold}
use aceryx.Engine.Types.{State, pending, active, completed, WorkflowStep, StepResult}
use aceryx.Engine.Ast.{
  normalized_join, check_steps, check_deps, check_all_deps, visit_each, visit, validate_ast,
  reverse_dependencies, reverse_from, add_dependents, step_map, step_map_from,
}
use aceryx.Engine.Compute.{
  compute_transitions, sweeps, sweep, each_step, join_step, start_step, evaluate_guard,
  route_outcomes, route_dependent, extract_outcome, emit, fire, all_terminal, completed_count,
  skipped_count, terminal_count, is_terminal,
}
use aceryx.Engine.Store.{
  StepRow, CaseRow, Outcome, case_data_conflict, is_active, is_active_step, update_where,
  completed_event,
}
use aceryx.Engine.Results.{marshal_result, zero_result, split_once, audit_names}
use aceryx.Engine.Cases.{
  Concat, complete_step, fail_step, update_case_data, cancel_case, apply_transition,
}
use aceryx.Engine.Cases.Rows.{IsStamped, is_waiting}
use aceryx.Engine.Cases.History.{unmoved, then_step, completes, fails, evaluates}
use aceryx.Engine.Cases.Final.{
  terminal_row_stays, stamps_stay, cancelled_case_halts, stale_write_conflicts,
}
use aceryx.Engine.Cases.Completion.{complete_step_outcome}
use aceryx.Engine.Evaluate.{load_from, load_step_states, apply_all, evaluate_dag}
use aceryx.Engine.Evaluate.Agrees.{IsEvaluated, DistinctRows, evaluate_dag-Agrees}
use aceryx.Engine.Tests.{claim}

abbrev pub row_of : String → State → StepRow
row_of id state = record {
  step_id = id;
  state = state;
  result = empty;
  error = none;
  retry_count = 0;
  events = [];
  cancelled_task = false;
  request_id = none;
  started_at = none;
  completed_at = none;
}

abbrev review_row : StepRow
review_row = record (row_of "review" active) { request_id = some "r1"; started_at = some 2 }

abbrev pub claim_case : CaseRow
claim_case = record {
  status = "open";
  version = 1;
  data_column = none;
  updated_at = 2;
  steps = review_row ∷ row_of "pay" pending ∷ row_of "inform" pending ∷ [];
  audit = [];
}

abbrev pub right_value : Concat
right_value left right = right

abbrev acceptance : StepResult
acceptance = record zero_result { outcome = "accept"; attempts = 1 }

abbrev none_done : Outcome
none_done = record { case_row = claim_case; evaluate = false }

abbrev pub ok_or : {E V : Type 0} → V → Result E V → V
ok_or other (err e) = other
ok_or other (ok v) = v

abbrev accepted : Outcome
accepted = ok_or none_done (complete_step right_value 5 "review" (some acceptance) claim_case)

complete_step-accepted :
    complete_step right_value 5 "review" (some acceptance) claim_case ≡ ok accepted
unfolding complete_step marshal_result update_where split_once audit_names
complete_step-accepted = refl

complete_step_outcome_example :
    (row' : StepRow) × In row' accepted.case_row.steps
    × (row'.step_id ≡ "review")
    × (row'.state ≡ completed)
    × (row'.completed_at ≡ some 5)
    × (row'.error ≡ none)
    × (extract_outcome row'.result ≡ "accept")
complete_step_outcome_example =
    complete_step_outcome right_value 5 "review" acceptance claim_case accepted review_row
      complete_step-accepted (here refl) refl

-- The case after the completion of the review.
abbrev done_row : StepRow
done_row = record review_row {
  state = completed;
  completed_at = some 5;
  result = document (obj (field "outcome" (str "accept") (field "attempts" (num 1) end)));
  events = completed_event 1 5 ∷ [];
}

abbrev claim_done : CaseRow
claim_done = record claim_case {
  steps = done_row ∷ row_of "pay" pending ∷ row_of "inform" pending ∷ [];
}

abbrev fresh_id : String → String
fresh_id id = id

abbrev evaluated : CaseRow × List WorkflowStep
evaluated = ok_or (claim_done, []) (evaluate_dag 9 fresh_id claim none claim_done)

evaluate_dag-claim : evaluate_dag 9 fresh_id claim none claim_done ≡ ok (evaluated.0, evaluated.1)
unfolding evaluate_dag apply_all load_step_states load_from apply_transition update_where
    compute_transitions validate_ast check_steps check_deps check_all_deps visit_each visit
    normalized_join lookup insert reverse_dependencies reverse_from add_dependents sweeps sweep
    each_step join_step start_step evaluate_guard route_outcomes route_dependent extract_outcome
    string_field equal_fold emit fire all_terminal completed_count skipped_count terminal_count
    is_terminal step_map step_map_from
evaluate_dag-claim = refl

claim_done-DistinctRows : DistinctRows claim_done.steps
claim_done-DistinctRows = (
  (λ p. cc ((eq_iff "pay" "review").1 p), (λ p. cc ((eq_iff "inform" "review").1 p), tt)),
  ((λ p. cc ((eq_iff "inform" "pay").1 p), tt), (tt, tt)),
)

evaluate_dag-Agrees_example : IsEvaluated claim none claim_done evaluated.0
evaluate_dag-Agrees_example =
    evaluate_dag-Agrees 9 fresh_id claim none claim_done evaluated.0 evaluated.1
      claim_done-DistinctRows refl evaluate_dag-claim

done_row-final : is_terminal done_row.state ≡ true
unfolding is_terminal
done_row-final = refl

terminal_row_stays_example : In done_row evaluated.0.steps
terminal_row_stays_example =
    terminal_row_stays right_value claim none claim_done evaluated.0 done_row
      (then_step unmoved (evaluates 9 fresh_id evaluated.0 evaluated.1 evaluate_dag-claim))
      (here refl) done_row-final

claim_case-IsStamped : All IsStamped claim_case.steps
unfolding is_terminal
claim_case-IsStamped = (
  record { ended = refl; started = λ h. refl; requested = λ h. refl },
  (
    record { ended = refl; started = λ h. cc h; requested = λ h. cc h },
    (record { ended = refl; started = λ h. cc h; requested = λ h. cc h }, tt),
  ),
)

stamps_stay_example : All IsStamped accepted.case_row.steps
stamps_stay_example =
    stamps_stay right_value claim none claim_case accepted.case_row
      (then_step unmoved (completes 5 "review" (some acceptance) accepted complete_step-accepted))
      claim_case-IsStamped

abbrev cancelled_claim : CaseRow
cancelled_claim = cancel_case 6 claim.steps "withdrawn" claim_case

cancelled_case_halts_example :
    ((fail_step 7 "review" "late" cancelled_claim).case_row.status ≡ "cancelled")
    × All
        (λ row. is_waiting row.state ≡ false)
        (fail_step 7 "review" "late" cancelled_claim).case_row.steps
    × ((s : WorkflowStep)
        → In s claim.steps
        → (s.type == "human_task") ≡ true
        → All
            (λ row. is_active_step s.id row ≡ false)
            (fail_step 7 "review" "late" cancelled_claim).case_row.steps)
    × ((row' : StepRow)
        → In row' (fail_step 7 "review" "late" cancelled_claim).case_row.steps
        → is_active row'.state ≡ true
        → (row : StepRow) × In row claim_case.steps
          × (row.step_id ≡ row'.step_id)
          × (is_active row.state ≡ true))
cancelled_case_halts_example =
    cancelled_case_halts right_value claim none 6 "withdrawn" claim_case
      (fail_step 7 "review" "late" cancelled_claim).case_row
      (then_step unmoved (fails 7 "review" "late"))

abbrev patched_claim : CaseRow
patched_claim = record claim_case { data_column = some (str "a"); version = 2; updated_at = 5 }

update_case_data-claim : update_case_data right_value 5 1 (str "a") claim_case ≡ ok patched_claim
unfolding update_case_data
update_case_data-claim = refl

stale_write_conflicts_example :
    update_case_data right_value 6 1 (str "b") (fail_step 5 "review" "late" patched_claim).case_row
    ≡ err case_data_conflict
stale_write_conflicts_example =
    stale_write_conflicts right_value claim none 5 6 1 (str "a") (str "b") claim_case patched_claim
      (fail_step 5 "review" "late" patched_claim).case_row update_case_data-claim
      (then_step unmoved (fails 5 "review" "late"))
