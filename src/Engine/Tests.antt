-- ===== src/Engine/Tests.antt =====
-- A small review workflow, on which the theorems about the engine are applied.
use aceryx.Prelude.{String, ◌≡◌, ◌≢◌, refl, ◌↔◌, false, none, some, List, [], ◌∷◌, ok, err, In}
use aceryx.Prelude.Map.{Map, lookup, insert}
use aceryx.Prelude.Int.{pos}
use aceryx.Json.{obj, str, field, end, empty, document, string_field, equal_fold}
use aceryx.Engine.Types.{
  State, ready, completed, Transition, WorkflowStep, WorkflowAst, ErrorPolicy, StepState,
  cycle_detected,
}
use aceryx.Engine.Ast.{
  normalized_join, check_steps, check_deps, check_all_deps, visit_each, visit, validate_ast,
  reverse_dependencies, reverse_from, add_dependents,
}
use aceryx.Engine.Ast.Valid.{validate_ast_iff}
use aceryx.Engine.Ast.Chains.{IsValid}
use aceryx.Engine.Compute.{
  Evaluator, compute_transitions, start, dep_state, transition_to_ready, transition_to_active,
  sweeps, sweep, each_step, join_step, start_step, evaluate_guard, route_outcomes, route_dependent,
  extract_outcome, emit, fire, all_terminal, completed_count, skipped_count, terminal_count,
  is_terminal,
}
use aceryx.Engine.Compute.Moves.{Enabled, transition_routed}
use aceryx.Engine.Compute.Progress.{Trace}
use aceryx.Engine.Compute.Quiet.{compute_transitions_correct}

abbrev pub no_policy : ErrorPolicy
no_policy = record {
  max_attempts = pos 0;
  backoff = "";
  initial_delay = pos 0;
  max_delay = pos 0;
  on_exhausted = "";
}

abbrev pub plain_step : String → List String → Map (List String) → WorkflowStep
plain_step id deps outcomes = record {
  id = id;
  type = "human_task";
  depends_on = deps;
  join = "";
  condition = "";
  outcomes = outcomes;
  config = empty;
  error_policy = no_policy;
  metadata = none;
}

abbrev review : WorkflowStep
review = plain_step "review" [] (("accept", "pay" ∷ []) ∷ ("reject", "inform" ∷ []) ∷ [])

abbrev pub claim : WorkflowAst
claim = record {
  steps =
      review ∷ plain_step "pay" ("review" ∷ []) [] ∷ plain_step "inform" ("review" ∷ []) [] ∷ [];
}

abbrev accepted : Map StepState
accepted =
    (
      "review",
      record {
        step_id = "review";
        state = completed;
        result = document (obj (field "outcome" (str "accept") end));
        retry_count = 0;
        metadata = empty;
        completed_at = some 7;
      },
    )
    ∷ []

claim-IsValid : validate_ast claim ≡ ok tt
unfolding validate_ast check_steps check_deps check_all_deps visit_each visit normalized_join lookup
    insert
claim-IsValid = refl

validate_ast_iff_example : (validate_ast claim ≡ ok tt) ↔ IsValid claim
validate_ast_iff_example = validate_ast_iff claim

abbrev loop : WorkflowAst
loop = record { steps = plain_step "a" ("b" ∷ []) [] ∷ plain_step "b" ("a" ∷ []) [] ∷ [] }

loop_fails : validate_ast loop ≡ err (cycle_detected "a")
unfolding validate_ast check_steps check_deps check_all_deps visit_each visit normalized_join lookup
    insert
loop_fails = refl

abbrev no_guards : Evaluator Unit
no_guards expr ctx = err expr

abbrev claim_transitions : List Transition
claim_transitions =
    transition_routed "accept" "inform" State.pending
    ∷ transition_to_ready "pay" false
    ∷ transition_to_active "pay"
    ∷ []

claim-accepted : compute_transitions claim (some no_guards) tt accepted ≡ ok claim_transitions
unfolding compute_transitions validate_ast check_steps check_deps check_all_deps visit_each visit
    normalized_join lookup insert reverse_dependencies reverse_from add_dependents sweeps sweep
    each_step join_step start_step evaluate_guard route_outcomes route_dependent extract_outcome
    string_field equal_fold emit fire all_terminal completed_count skipped_count terminal_count
    is_terminal
claim-accepted = refl

compute_transitions_correct_example :
    (v : Map StepState) × Trace claim
      (some no_guards)
      tt
      (start claim accepted).virtual
      v
      claim_transitions
    × ((t : Transition) → ¬ Enabled claim (some no_guards) tt v t)
    × ((s : WorkflowStep) → In s claim.steps → dep_state v s.id ≢ ready)
compute_transitions_correct_example =
    compute_transitions_correct claim (some no_guards) tt accepted claim_transitions claim-accepted
