-- ===== src/Engine/Ast.antt =====
-- internal/engine/ast.go: what a workflow must be before the engine evaluates it. A graph of steps
-- is accepted by `validate_ast`; the proofs stand in the modules below.
mod Checks
mod Search
pub mod Reverse
pub mod Chains
pub mod Valid
use aceryx.Prelude.{
  ℕ, zero, suc, String, Bool, true, false, not, ◌&&◌, Option, none, some, List, [], ◌∷◌, ◌++◌, map,
  Result, ok, err, ◌>>=◌, ◌>>◌, require, length, is_empty, ◌==◌, if◌then◌else◌,
}
use aceryx.Prelude.Map.{Map, lookup, insert, list_at}
use aceryx.Engine.Types.{
  WorkflowStep, WorkflowAst, EngineError, no_steps, empty_step_id, duplicate_step_id,
  invalid_join_strategy, unknown_dependency, cycle_detected, out_of_fuel,
}

unfoldable pub normalized_join : String → String
normalized_join join = if join == "" then "all" else join

-- The first loop: ids that are there and differ, joins that are known. It gives the map `byID`.
unfoldable pub check_steps :
    Map WorkflowStep → List WorkflowStep → Result EngineError (Map WorkflowStep)
check_steps by_id [] = ok by_id
check_steps by_id (step ∷ rest) =
    if step.id == "" then err empty_step_id else elim (lookup step.id by_id) [
      | some _ ↦ err (duplicate_step_id step.id)
      | none ↦
          let join = normalized_join step.join in
          if not (join == "all") && not (join == "any")
          then err (invalid_join_strategy step.id step.join)
          else check_steps (insert step.id step by_id) rest
    ]

-- The second loop, over the dependencies of one step and over the steps.
unfoldable pub check_deps : Map WorkflowStep → String → List String → Result EngineError Unit
check_deps by_id id [] = ok tt
check_deps by_id id (dep ∷ rest) = elim (lookup dep by_id) [
  | none ↦ err (unknown_dependency id dep)
  | some _ ↦ check_deps by_id id rest
]

unfoldable pub check_all_deps : Map WorkflowStep → List WorkflowStep → Result EngineError Unit
check_all_deps by_id [] = ok tt
check_all_deps by_id (step ∷ rest) =
    check_deps by_id step.id step.depends_on >>= λ _. check_all_deps by_id rest

-- The numbers 0, 1 and 2 of the map `state`.
pub data Mark : Type 0 where
  unseen entered done : Mark

abbrev pub mark_of : Map Mark → String → Mark
mark_of marks id = elim (lookup id marks) [ none ↦ unseen | some m ↦ m ]

-- byID[id].DependsOn: a step that is not there has none.
abbrev pub deps_of : Map WorkflowStep → String → List String
deps_of by_id id = elim (lookup id by_id) [ none ↦ [] | some step ↦ step.depends_on ]

-- `for ... { if err := visit(id); err != nil { return err } }`
unfoldable pub visit_each :
    (Map Mark → String → Result EngineError (Map Mark))
    → Map Mark
    → List String
    → Result EngineError (Map Mark)
visit_each visit marks [] = ok marks
visit_each visit marks (id ∷ rest) = visit marks id >>= λ m. visit_each visit m rest

-- The closure `visit`: a depth-first search, on fuel for the depth of its calls.
unfoldable pub visit : Map WorkflowStep → ℕ → Map Mark → String → Result EngineError (Map Mark)
visit by_id zero marks id = err out_of_fuel
visit by_id (suc fuel) marks id = elim (mark_of marks id) [
  | entered ↦ err (cycle_detected id)
  | done ↦ ok marks
  | unseen ↦ visit_each (visit by_id fuel) (insert id entered marks) (deps_of by_id id) >>= λ m.
      ok (insert id done m)
]

abbrev pub step_ids : WorkflowAst → List String
step_ids ast = map (λ s. s.id) ast.steps

-- Every call but the last of a path opens another step, so a call more than there are steps is
-- enough fuel.
unfoldable pub validate_ast : WorkflowAst → Result EngineError Unit
validate_ast ast = do
  require (not (is_empty ast.steps)) no_steps
  by_id ← check_steps [] ast.steps
  check_all_deps by_id ast.steps
  _ ← visit_each (visit by_id (suc (length ast.steps))) [] (step_ids ast)
  ok tt

unfoldable pub step_map_from : Map WorkflowStep → List WorkflowStep → Map WorkflowStep
step_map_from by_id [] = by_id
step_map_from by_id (step ∷ rest) = step_map_from (insert step.id step by_id) rest

unfoldable pub step_map : WorkflowAst → Map WorkflowStep
step_map ast = step_map_from [] ast.steps

-- rev[dep] = append(rev[dep], id)
abbrev pub add_dependent : Map (List String) → String → String → Map (List String)
add_dependent rev dep id = insert dep (list_at rev dep ++ id ∷ []) rev

unfoldable pub add_dependents : Map (List String) → String → List String → Map (List String)
add_dependents rev id [] = rev
add_dependents rev id (dep ∷ rest) = add_dependents (add_dependent rev dep id) id rest

unfoldable pub reverse_from : Map (List String) → List WorkflowStep → Map (List String)
reverse_from rev [] = rev
reverse_from rev (step ∷ rest) = reverse_from (add_dependents rev step.id step.depends_on) rest

unfoldable pub reverse_dependencies : WorkflowAst → Map (List String)
reverse_dependencies ast = reverse_from [] ast.steps
