-- ===== src/Engine/Ast/Valid.antt =====
-- What ValidateAST accepts: exactly the workflows whose steps are well formed, whose dependencies
-- are steps, and whose dependencies have no cycle.
use mathlib.Core.WellFounded.{Acc}
use aceryx.Prelude.{
  suc, String, ◌≡◌, refl, subst, ◌≢◌, ◌⊎◌, inl, inr, ◌↔◌, none, List, [], ◌∷◌, Result, ok, err,
  >>=-eq-ok, >>=-eq-err, All, all_in, All-map, All-of, require, not, length, is_empty, arith,
}
use aceryx.Prelude.Map.{Map, lookup, insert, lookup-empty}
use aceryx.Engine.Types.{
  WorkflowStep, WorkflowAst, EngineError, cycle_detected, out_of_fuel, no_steps,
}
use aceryx.Engine.Ast.{
  Mark, check_steps, check_deps, check_all_deps, visit_each, visit, step_ids, validate_ast,
}
use aceryx.Engine.Ast.Checks.{Checked, check_steps-Checked, check_steps_complete}
use aceryx.Engine.Ast.Search.{Needs, visit_each-Acc, not-Below_of_Acc}
use aceryx.Engine.Ast.Search.Cycles.{Ends}
use aceryx.Engine.Ast.Chains.{
  Chain, Chain-known, IsValid, check_all_deps_complete, search_of_known, Chain-Below, Below-Chain,
  known_step, search_start-Ends,
}

validate_ast_sound : (ast : WorkflowAst) → validate_ast ast ≡ ok tt → IsValid ast
unfolding validate_ast
validate_ast_sound ast h =
    let (_, some_steps, h1) = >>=-eq-ok (require (not (is_empty ast.steps)) no_steps) _ h in
    let (by_id, checked, h2) = >>=-eq-ok (check_steps [] ast.steps) _ h1 in
    let (_, deps, h3) = >>=-eq-ok (check_all_deps by_id ast.steps) _ h2 in
    let (marks, run, _) =
      >>=-eq-ok (visit_each (visit by_id (suc (length ast.steps))) [] (step_ids ast)) _ h3 in
    let c = check_steps-Checked [] ast.steps by_id checked in
    let accessible = visit_each-Acc by_id (suc (length ast.steps)) (step_ids ast) marks run in
    record {
      has_steps = ground arith;
      steps_ok = c.steps_ok;
      distinct = c.distinct;
      deps_known = search_of_known ast by_id c deps;
      acyclic = λ k loop.
          not-Below_of_Acc by_id (all_in (Acc (Needs by_id)) accessible (Chain-known ast loop))
            (Below-Chain ast by_id c loop);
    }

-- Where no cycle is there the search succeeds.
ok_of_Ends :
    (ast : WorkflowAst) (by_id : Map WorkflowStep)
    → Checked [] by_id ast.steps
    → ((k : String) → ¬ Chain ast k k)
    → (r : Result EngineError (Map Mark)) → Ends by_id r
    → (m : Map Mark) × (r ≡ ok m)
ok_of_Ends ast by_id c none_loop (ok m) h = (m, refl)
ok_of_Ends ast by_id c none_loop (err (cycle_detected k)) h =
    absurd (none_loop k (Chain-Below ast by_id c h))
ok_of_Ends ast by_id c none_loop (err _) h = absurd h

validate_ast_complete : (ast : WorkflowAst) → IsValid ast → validate_ast ast ≡ ok tt
unfolding validate_ast
validate_ast_complete ast v =
    let (by_id, checked) =
      check_steps_complete [] ast.steps v.steps_ok v.distinct (all_fresh ast.steps) in
    let c = check_steps-Checked [] ast.steps by_id checked in
    let deps = check_all_deps_complete by_id ast.steps (
      All-map (λ s known. All-map (known_step ast by_id c) s.depends_on known) ast.steps
        v.deps_known) in
    let (marks, run) =
      ok_of_Ends ast by_id c v.acyclic _ (search_start-Ends ast by_id c v.deps_known) in
    rw v.has_steps (rw checked (rw deps (rw run)))
  where
    all_fresh :
        (steps : List WorkflowStep) → All (λ s. lookup {V = WorkflowStep} s.id [] ≡ none) steps
    all_fresh steps =
        All-of (λ s. lookup {V = WorkflowStep} s.id [] ≡ none) (λ s. lookup-empty s.id) steps

-- ValidateAST accepts a workflow just when it has a step, all its steps have ids that are not
-- empty and differ and a join strategy that is known, each dependency is a step, and no chain of
-- dependencies leads from a step to itself.
pub validate_ast_iff : (ast : WorkflowAst) → (validate_ast ast ≡ ok tt) ↔ IsValid ast
validate_ast_iff ast = (validate_ast_sound ast, validate_ast_complete ast)

-- The first two loops report neither a cycle nor a lack of fuel.
abbrev IsEarly : EngineError → Type 0
IsEarly (cycle_detected k) = ⊥
IsEarly out_of_fuel = ⊥
IsEarly _ = Unit

check_steps-IsEarly :
    (m : Map WorkflowStep) (steps : List WorkflowStep) (e : EngineError)
    → check_steps m steps ≡ err e
    → IsEarly e
unfolding check_steps
check_steps-IsEarly m [] e h = cc
check_steps-IsEarly m (s ∷ rest) e h = ground (arith, check_steps-IsEarly (insert s.id s m) rest e)

check_deps-IsEarly :
    (by_id : Map WorkflowStep) (id : String) (deps : List String) (e : EngineError)
    → check_deps by_id id deps ≡ err e
    → IsEarly e
unfolding check_deps
check_deps-IsEarly by_id id [] e h = cc
check_deps-IsEarly by_id id (d ∷ deps) e h = ground (arith, check_deps-IsEarly by_id id deps e)

check_all_deps-IsEarly :
    (by_id : Map WorkflowStep) (steps : List WorkflowStep) (e : EngineError)
    → check_all_deps by_id steps ≡ err e
    → IsEarly e
unfolding check_all_deps
check_all_deps-IsEarly by_id [] e h = cc
check_all_deps-IsEarly by_id (t ∷ steps) e h =
    elim (>>=-eq-err (check_deps by_id t.id t.depends_on) _ h) [
      | inl p ↦ check_deps-IsEarly by_id t.id t.depends_on e p
      | inr (_, _, p) ↦ check_all_deps-IsEarly by_id steps e p
    ]

-- An error that is not an early one is the search's.
validate_ast-eq-err :
    (ast : WorkflowAst) (e : EngineError)
    → validate_ast ast ≡ err e
    → IsEarly e ⊎ ((by_id : Map WorkflowStep) × Checked [] by_id ast.steps × Ends by_id (err e))
unfolding validate_ast
validate_ast-eq-err ast e h = elim (>>=-eq-err (require (not (is_empty ast.steps)) no_steps) _ h) [
  | inl p ↦ inl (ground arith)
  | inr (_, _, h1) ↦ elim (>>=-eq-err (check_steps [] ast.steps) _ h1) [
    | inl p ↦ inl (check_steps-IsEarly [] ast.steps e p)
    | inr (by_id, checked, h2) ↦ elim (>>=-eq-err (check_all_deps by_id ast.steps) _ h2) [
      | inl p ↦ inl (check_all_deps-IsEarly by_id ast.steps e p)
      | inr (_, deps, h3) ↦
          let c = check_steps-Checked [] ast.steps by_id checked in
          let ends = search_start-Ends ast by_id c (search_of_known ast by_id c deps) in
          elim (>>=-eq-err (visit_each (visit by_id (suc (length ast.steps))) [] (step_ids ast)) _
            h3) [ inl p ↦ inr (by_id, c, subst (Ends by_id) p ends) | inr (_, _, p) ↦ cc p ]
    ]
  ]
]

-- A cycle that ValidateAST reports is there: a chain of dependencies leads from the step that it
-- names to itself.
pub validate_ast_cycle :
    (ast : WorkflowAst) (k : String) → validate_ast ast ≡ err (cycle_detected k) → Chain ast k k
validate_ast_cycle ast k h = elim (validate_ast-eq-err ast (cycle_detected k) h) [
  | inl early ↦ absurd early
  | inr (by_id, c, b) ↦ Chain-Below ast by_id c b
]

-- The search of ValidateAST ends on every workflow: its fuel does not run out.
pub validate_ast_ends : (ast : WorkflowAst) → validate_ast ast ≢ err out_of_fuel
validate_ast_ends ast h = elim (validate_ast-eq-err ast out_of_fuel h) [
  | inl early ↦ early
  | inr (by_id, c, b) ↦ b
]
