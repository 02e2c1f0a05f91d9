-- ===== src/Workflows/Publish/Published.antt =====
-- internal/workflows/publish_validation.go: what a workflow is that was published, and what a
-- rejection tells.
use aceryx.Prelude.{
  Result, String, Bool, true, Option, none, some, List, ◌++◌, ok, err, is_empty, All, All-map, In,
  ◌≡◌, ◌≢◌, ap, ◌∙◌, inl, inr, Bool-cases, arith,
}
use aceryx.Json.{Json}
use aceryx.Engine.Types.{WorkflowStep, WorkflowAst}
use aceryx.Engine.Ast.{step_map, validate_ast}
use aceryx.Engine.Ast.Valid.{validate_ast_iff}
use aceryx.Engine.Ast.Chains.{IsValid}
use aceryx.Workflows.Draft.{Evaluation, validate_step}
use aceryx.Workflows.Graph.{trimmed_id}
use aceryx.Workflows.Graph.Reach.{Reached}
use aceryx.Workflows.Publish.{
  PublishFailure, components_not_listed, invalid_ast, list_failed, step_errors, each_step,
  PublishValidationError, Catalog, listed, known_components, rejected, out_of_fuel,
  component_passes, validate_publish_workflow,
}
use aceryx.Workflows.Publish.Sound.{
  nil-append, is_empty-nil, each_step-nil, IsSound, step_errors-nil,
}
use aceryx.Workflows.Publish.Clean.{
  IsTerminal, graph_errors-nil, errors_of_ast-nil, as_failure-ok, refs-nil, drafted_steps,
}
use aceryx.Workflows.Publish.Ending.{not_out_of_fuel, ending_at}

module _ (evaluate : String → Evaluation) (sprint : Json → String)
    (at_most : Json → Json → Bool) where
  pub record IsPublished (ast : WorkflowAst) (catalog : Catalog) : Type 0 where
    pub valid : IsValid ast
    pub sound : All (IsSound ast.steps) ast.steps
    pub reached : All (λ s. Reached ast.steps (trimmed_id s)) ast.steps
    pub terminal : (s : WorkflowStep) × IsTerminal ast.steps s
    pub components :
        (items : List (Option String))
        → catalog ≡ listed items
        → All
            (λ s. component_passes evaluate sprint at_most (known_components items) s ≡ true)
            ast.steps
    pub drafted :
        All (λ s. validate_step evaluate sprint at_most (step_map ast) s ≡ ok tt) ast.steps

  -- A workflow that is published is valid for the engine; each step has a supported type, the
  -- configuration that its type needs, and dependencies and targets that are steps; arrows lead to
  -- it from a step without dependencies; some step is a last one; the components that are named are
  -- in the catalog's list, where there is one; and each step passes the checks of a draft.
  pub validate_publish_workflow_sound :
      (ast : WorkflowAst) (catalog : Catalog)
      → validate_publish_workflow evaluate sprint at_most (some ast) catalog ≡ ok tt
      → IsPublished ast catalog
  validate_publish_workflow_sound ast catalog h =
      let found = ending_at evaluate sprint at_most ast catalog (ok tt) (λ early. early) h in
      elim (Bool-cases (
        is_empty (
          each_step (step_errors ast.steps) ast.steps
          ++ found.graph
          ++ found.components
          ++ found.cycle))) [
            | inr some_error ↦ cc (rw (some_error) at found.ending)
            | inl no_error ↦
                let (most, cycle) = nil-append _ found.cycle (is_empty-nil _ no_error) in
                let (more, refs) = nil-append _ found.components most in
                let (of_steps, graph) =
                  nil-append (each_step (step_errors ast.steps) ast.steps) found.graph more in
                let valid =
                  (validate_ast_iff ast).0
                    (errors_of_ast-nil _ (found.cycle_found ∙ ap ok cycle)) in
                let (reached, terminal) =
                  graph_errors-nil ast.steps (ground (arith, valid.has_steps))
                    (found.graph_found ∙ ap some graph) in
                record {
                  valid = valid;
                  sound =
                      All-map (step_errors-nil ast.steps) ast.steps
                        (each_step-nil (step_errors ast.steps) ast.steps of_steps);
                  reached = reached;
                  terminal = terminal;
                  components =
                      refs-nil evaluate sprint at_most catalog ast.steps
                        (found.components_found ∙ ap ok refs);
                  drafted =
                      drafted_steps evaluate sprint at_most ast
                        (as_failure-ok _ (rw (no_error) at found.ending));
                }
          ]

  -- A publish that fails by its faults tells an error, or it failed before: the catalog could not be
  -- listed, or ValidateAST has an error that is no cycle.
  abbrev pub Tells :
      WorkflowAst → Catalog → PublishValidationError → Result PublishFailure Unit → Type 0
  Tells ast catalog e (err (rejected es)) = In e es
  Tells ast catalog e (err components_not_listed) = catalog ≡ list_failed
  Tells ast catalog e (err (invalid_ast x)) = validate_ast ast ≡ err x
  Tells ast catalog e _ = ⊥

  -- The searches of a publish have enough fuel.
  pub validate_publish_workflow_ends :
      (decoded : Option WorkflowAst) (catalog : Catalog)
      → validate_publish_workflow evaluate sprint at_most decoded catalog ≢ err out_of_fuel
  unfolding validate_publish_workflow
  validate_publish_workflow_ends none catalog h = cc h
  validate_publish_workflow_ends (some ast) catalog h =
      let found =
        ending_at evaluate sprint at_most ast catalog (err out_of_fuel) (λ early. early) h in
      not_out_of_fuel _ _ found.ending
