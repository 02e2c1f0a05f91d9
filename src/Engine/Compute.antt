-- ===== src/Engine/Compute.antt =====
-- internal/engine/compute.go: the transitions that follow from the states of a case's steps. A
-- sweep has three loops over the steps, and sweeps are made until one changes nothing.
pub mod Moves
pub mod Sweeps
pub mod Progress
pub mod Settled
pub mod Flags
pub mod Quiet
use aceryx.Prelude.{
  ℕ, zero, suc, ◌+◌, ◌*◌, String, Bool, true, false, not, ◌&&◌, ◌||◌, Option, none, some, List, [],
  ◌∷◌, ◌++◌, Result, ok, err, ◌>>=◌, length, is_empty, any, count, fold, contains, ltb, nat_eq,
  ◌==◌, if◌then◌else◌,
}
use aceryx.Prelude.Map.{Map, lookup, insert, list_at}
use aceryx.Json.{Json, obj, null, RawMessage, empty, malformed, document, string_field}
use aceryx.Engine.Types.{
  State, pending, ready, active, completed, failed, skipped, blank, TransitionType, to_ready,
  to_active, to_skipped, dependencies_satisfied, join_any_satisfied, guard_false, skip_propagation,
  outcome_routing, Transition, WorkflowStep, WorkflowAst, StepState, EngineError, nil_evaluator,
  guard_failed, invalid_join_strategy, out_of_fuel,
}
use aceryx.Engine.Ast.{normalized_join, validate_ast, reverse_dependencies}

-- `state == StateX`
abbrev pub is_completed : State → Bool
is_completed completed = true
is_completed _ = false

abbrev pub is_skipped : State → Bool
is_skipped skipped = true
is_skipped _ = false

abbrev pub is_pending : State → Bool
is_pending pending = true
is_pending _ = false

abbrev pub is_ready : State → Bool
is_ready ready = true
is_ready _ = false

unfoldable pub is_terminal : State → Bool
is_terminal completed = true
is_terminal failed = true
is_terminal skipped = true
is_terminal _ = false

-- The member `outcome` of a result, and the empty text where it cannot be decoded.
unfoldable pub extract_outcome : RawMessage → String
extract_outcome (document (obj fields)) = elim (string_field "outcome" "" fields) [
  | none ↦ ""
  | some outcome ↦ outcome
]
extract_outcome _ = ""

-- The key `id + ":" + type` of the map `seen`. No type holds a colon, so a key stands for one pair.
pub record SeenKey : Type 0 where
  pub id : String
  pub type : TransitionType

abbrev pub same_type : TransitionType → TransitionType → Bool
same_type to_ready to_ready = true
same_type to_active to_active = true
same_type to_skipped to_skipped = true
same_type _ _ = false

abbrev pub is_seen : List SeenKey → String → TransitionType → Bool
is_seen seen id type = any (λ k. k.id == id && same_type k.type type) seen

-- The variables of the loops.
pub record Sweep : Type 0 where
  pub virtual : Map StepState
  pub transitions : List Transition
  pub seen : List SeenKey
  pub changed : Bool

abbrev pub blank_state : StepState
blank_state = record {
  step_id = "";
  state = blank;
  result = empty;
  retry_count = 0;
  metadata = empty;
  completed_at = none;
}

-- virtual[id]
abbrev pub state_at : Map StepState → String → StepState
state_at virtual id = elim (lookup id virtual) [ none ↦ blank_state | some s ↦ s ]

-- The transition is recorded and made.
unfoldable pub fire : Transition → StepState → Sweep → Sweep
fire t st w = record {
  virtual = insert t.step_id (record st { state = t.to }) w.virtual;
  transitions = w.transitions ++ t ∷ [];
  seen = record { id = t.step_id; type = t.type } ∷ w.seen;
  changed = true;
}

-- `if !seen[key] { seen[key] = true; append the transition; set the state; changed = true }`
unfoldable pub emit : Transition → StepState → Sweep → Sweep
unfolding fire
emit t st w = if is_seen w.seen t.step_id t.type then w else fire t st w

-- Whether an id is in one of all the lists of `source.Outcomes`.
abbrev pub is_any_target : Map (List String) → String → Bool
is_any_target outcomes id = any (λ entry. contains entry.1 id) outcomes

-- The body of the loop over reverse[source.ID].
unfoldable pub route_dependent : WorkflowStep → String → Sweep → String → Sweep
route_dependent source selected w dependent =
    if not (is_any_target source.outcomes dependent)
    then w
    else if contains (list_at source.outcomes selected) dependent
    then w
    else let st = state_at w.virtual dependent in
      if not (is_pending st.state) && not (is_ready st.state)
      then w
      else emit
          (record {
            step_id = dependent;
            from = st.state;
            to = skipped;
            type = to_skipped;
            reason = outcome_routing;
            outcome = selected;
          })
          st w

-- The body of the first loop.
unfoldable pub route_outcomes : Map (List String) → Sweep → WorkflowStep → Sweep
route_outcomes reverse w source =
    let st = state_at w.virtual source.id in
    if not (is_completed st.state)
    then w
    else if is_empty source.outcomes
    then w
    else fold (route_dependent source (extract_outcome st.result)) w (list_at reverse source.id)

abbrev pub transition_to_ready : String → Bool → Transition
transition_to_ready id joined_any = record {
  step_id = id;
  from = pending;
  to = ready;
  type = to_ready;
  reason = if joined_any then join_any_satisfied else dependencies_satisfied;
  outcome = "";
}

abbrev pub transition_to_skipped : String → Transition
transition_to_skipped id = record {
  step_id = id;
  from = pending;
  to = skipped;
  type = to_skipped;
  reason = skip_propagation;
  outcome = "";
}

abbrev pub dep_state : Map StepState → String → State
dep_state virtual dep = (state_at virtual dep).state

unfoldable pub terminal_count : Map StepState → List String → ℕ
terminal_count virtual deps = count (λ d. is_terminal (dep_state virtual d)) deps

unfoldable pub completed_count : Map StepState → List String → ℕ
completed_count virtual deps = count (λ d. is_completed (dep_state virtual d)) deps

unfoldable pub skipped_count : Map StepState → List String → ℕ
skipped_count virtual deps = count (λ d. is_skipped (dep_state virtual d)) deps

-- `allTerminal`: false as soon as one dependency is not terminal.
unfoldable pub all_terminal : Map StepState → List String → Bool
all_terminal virtual deps = not (any (λ d. not (is_terminal (dep_state virtual d))) deps)

-- The body of the second loop.
unfoldable pub join_step : Sweep → WorkflowStep → Result EngineError Sweep
join_step w step =
    let st = state_at w.virtual step.id in
    let deps = step.depends_on in
    if not (is_pending st.state)
    then ok w
    else if is_empty deps
    then ok (emit (transition_to_ready step.id false) st w)
    else if normalized_join step.join == "all"
    then ok (
        if all_terminal w.virtual deps && ltb 0 (completed_count w.virtual deps)
        then emit (transition_to_ready step.id false) st w
        else if all_terminal w.virtual deps && nat_eq (skipped_count w.virtual deps) (length deps)
        then emit (transition_to_skipped step.id) st w
        else w)
    else if normalized_join step.join == "any"
    then ok (
        if ltb 0 (terminal_count w.virtual deps)
        then emit (transition_to_ready step.id true) st w
        else w)
    else err (invalid_join_strategy step.id step.join)

abbrev pub transition_guard_false : String → Transition
transition_guard_false id = record {
  step_id = id;
  from = ready;
  to = skipped;
  type = to_skipped;
  reason = guard_false;
  outcome = "";
}

abbrev pub transition_to_active : String → Transition
transition_to_active id = record {
  step_id = id;
  from = ready;
  to = active;
  type = to_active;
  reason = dependencies_satisfied;
  outcome = "";
}

-- ExpressionEvaluator.EvaluateBool: a truth value, or the text of an error.
abbrev pub Evaluator : Type 0 → Type 0
Evaluator Ctx = String → Ctx → Result String Bool

module _ {Ctx : Type 0} where
  -- The guard of a step: `ok` says whether the step may start.
  unfoldable pub evaluate_guard :
      Option (Evaluator Ctx) → Ctx → WorkflowStep → Result EngineError Bool
  evaluate_guard evaluator ctx step = if step.condition == "" then ok true else elim evaluator [
    | none ↦ err (nil_evaluator step.id)
    | some evaluate_bool ↦ elim (evaluate_bool step.condition ctx) [
      | err e ↦ err (guard_failed step.id e)
      | ok b ↦ ok b
    ]
  ]

  -- The body of the third loop.
  unfoldable pub start_step :
      Option (Evaluator Ctx) → Ctx → Sweep → WorkflowStep → Result EngineError Sweep
  start_step evaluator ctx w step =
      let st = state_at w.virtual step.id in
      if not (is_ready st.state)
      then ok w
      else evaluate_guard evaluator ctx step >>= λ holds. ok (
          if holds
          then emit (transition_to_active step.id) st w
          else emit (transition_guard_false step.id) st w)

-- A loop over the steps that an error ends.
unfoldable pub each_step :
    (Sweep → WorkflowStep → Result EngineError Sweep)
    → Sweep
    → List WorkflowStep
    → Result EngineError Sweep
each_step body w [] = ok w
each_step body w (step ∷ rest) = body w step >>= λ w'. each_step body w' rest

-- The steps that have no state yet are pending.
abbrev pub add_pending : Map StepState → List WorkflowStep → Map StepState
add_pending virtual [] = virtual
add_pending virtual (step ∷ rest) = elim (lookup step.id virtual) [
  | some _ ↦ add_pending virtual rest
  | none ↦
      add_pending
        (insert step.id (record blank_state { step_id = step.id; state = pending }) virtual) rest
]

abbrev pub start : WorkflowAst → Map StepState → Sweep
start ast states = record {
  virtual = add_pending states ast.steps;
  transitions = [];
  seen = [];
  changed = false;
}

-- A step moves twice at most, so two sweeps for each step, and one that finds nothing, are enough.
abbrev pub enough : WorkflowAst → ℕ
enough ast = suc (2 * length ast.steps)

module _ {Ctx : Type 0} (ast : WorkflowAst) (evaluator : Option (Evaluator Ctx)) (ctx : Ctx) where
  unfoldable pub sweep : Sweep → Result EngineError Sweep
  sweep w =
      let w0 = record w { changed = false } in
      let routed = fold (route_outcomes (reverse_dependencies ast)) w0 ast.steps in
      each_step join_step routed ast.steps >>= λ joined.
      each_step (start_step evaluator ctx) joined ast.steps

  -- `for { ...; if !changed { break } }`
  unfoldable pub sweeps : ℕ → Sweep → Result EngineError Sweep
  sweeps zero w = err out_of_fuel
  sweeps (suc fuel) w = sweep w >>= λ w'. elim w'.changed [ true ↦ sweeps fuel w' | false ↦ ok w' ]

  unfoldable pub compute_transitions : Map StepState → Result EngineError (List Transition)
  compute_transitions states =
      validate_ast ast >>= λ _. sweeps (enough ast) (start ast states) >>= λ w. ok w.transitions
