-- ===== src/Workflows/Publish/Ending.antt =====
-- internal/workflows/publish_validation.go: how a run of validatePublishWorkflow ends.
use aceryx.Prelude.{
  String, Bool, some, List, [], ◌∷◌, ◌++◌, Result, ok, err, is_empty, if◌then◌else◌, ◌≡◌, refl,
  subst, ◌⊎◌, inl, inr, Result-cases,
}
use aceryx.Json.{Json}
use aceryx.Engine.Types.{WorkflowStep, WorkflowAst, EngineError, cycle_detected}
use aceryx.Engine.Ast.{validate_ast}
use aceryx.Workflows.Draft.{DraftError, Evaluation, validate_workflow_ast}
use aceryx.Workflows.Publish.{
  PublishValidationError, step_errors, each_step, graph_errors, Catalog, unlisted, list_failed,
  listed, PublishFailure, components_not_listed, invalid_ast, rejected, out_of_fuel, errors_of_ast,
  validate_component_refs, as_failure, validate_publish_workflow,
}
use aceryx.Workflows.Publish.Sound.{graph_errors_ends}

pub not_out_of_fuel :
    (r : Result DraftError Unit) (all : List PublishValidationError)
    → ¬ ((if is_empty all then as_failure r else err (rejected all)) ≡ err out_of_fuel)
not_out_of_fuel (ok u) [] h = cc h
not_out_of_fuel (err e) [] h = cc h
not_out_of_fuel r (x ∷ all) h = cc h

module _ (evaluate : String → Evaluation) (sprint : Json → String)
    (at_most : Json → Json → Bool) where
  -- The errors that are put together at the end of a run.
  pub record Found (ast : WorkflowAst) (catalog : Catalog) (r : Result PublishFailure Unit)
      : Type 0 where
    pub graph : List PublishValidationError
    pub components : List PublishValidationError
    pub cycle : List PublishValidationError
    pub graph_found : graph_errors ast.steps ≡ some graph
    pub components_found :
        validate_component_refs evaluate sprint at_most catalog ast.steps ≡ ok components
    pub cycle_found : errors_of_ast (validate_ast ast) ≡ ok cycle
    pub ending :
        (if is_empty (each_step (step_errors ast.steps) ast.steps ++ graph ++ components ++ cycle)
          then as_failure (validate_workflow_ast evaluate sprint at_most (some ast))
          else err (
              rejected
                (each_step (step_errors ast.steps) ast.steps ++ graph ++ components ++ cycle)))
        ≡ r

  -- A run gets to that end, or fails before it: the catalog could not be listed, or ValidateAST has
  -- an error that is no cycle.
  abbrev pub IsEarlyFailure : WorkflowAst → Catalog → PublishFailure → Type 0
  IsEarlyFailure ast catalog components_not_listed = catalog ≡ list_failed
  IsEarlyFailure ast catalog (invalid_ast x) = validate_ast ast ≡ err x
  IsEarlyFailure ast catalog _ = ⊥

  abbrev pub IsEarly : WorkflowAst → Catalog → Result PublishFailure Unit → Type 0
  IsEarly ast catalog (err e) = IsEarlyFailure ast catalog e
  IsEarly ast catalog (ok nothing) = ⊥

  graph_errors-some :
      (steps : List WorkflowStep)
      → (es : List PublishValidationError) × (graph_errors steps ≡ some es)
  unfolding graph_errors
  graph_errors-some [] = ([], refl)
  graph_errors-some (first ∷ rest) = let (_, _, e, _) = graph_errors_ends first rest in (_, e)

  refs-IsEarly :
      (ast : WorkflowAst) (catalog : Catalog) (steps : List WorkflowStep) (e : PublishFailure)
      → validate_component_refs evaluate sprint at_most catalog steps ≡ err e
      → IsEarlyFailure ast catalog e
  unfolding validate_component_refs
  refs-IsEarly ast unlisted steps e h = cc h
  refs-IsEarly ast list_failed steps e h =
      let same : components_not_listed ≡ e = cc h in
      subst (IsEarlyFailure ast list_failed) same refl
  refs-IsEarly ast (listed items) steps e h = cc h

  errors_of_ast-IsEarly :
      (ast : WorkflowAst) (catalog : Catalog) (r : Result EngineError Unit) (e : PublishFailure)
      → validate_ast ast ≡ r
      → errors_of_ast r ≡ err e
      → IsEarlyFailure ast catalog e
  errors_of_ast-IsEarly ast catalog (ok nothing) e same h = cc h
  errors_of_ast-IsEarly ast catalog (err (cycle_detected id)) e same h = cc h
  errors_of_ast-IsEarly ast catalog (err x) e same h =
      let made : invalid_ast x ≡ e = cc h in subst (IsEarlyFailure ast catalog) made same

  pub ending_of :
      (ast : WorkflowAst) (catalog : Catalog)
      → Found ast catalog (validate_publish_workflow evaluate sprint at_most (some ast) catalog)
        ⊎ IsEarly ast catalog (validate_publish_workflow evaluate sprint at_most (some ast) catalog)
  unfolding validate_publish_workflow
  ending_of ast catalog =
      let (g, ge) = graph_errors-some ast.steps in
      elim (Result-cases (validate_component_refs evaluate sprint at_most catalog ast.steps)) [
        | inl (e, failed) ↦ inr (rw (ge, failed) (refs-IsEarly ast catalog ast.steps e failed))
        | inr (c, ce) ↦ elim (Result-cases (errors_of_ast (validate_ast ast))) [
          | inl (e, failed) ↦ inr (
              rw (ge, ce, failed)
                (errors_of_ast-IsEarly ast catalog (validate_ast ast) e refl failed))
          | inr (a, ae) ↦ inl (record {
            graph = g;
            components = c;
            cycle = a;
            graph_found = ge;
            components_found = ce;
            cycle_found = ae;
            ending = rw (ge, ce, ae) refl;
          })
        ]
      ]

  pub ending_at :
      (ast : WorkflowAst) (catalog : Catalog) (r : Result PublishFailure Unit)
      → ¬ IsEarly ast catalog r
      → validate_publish_workflow evaluate sprint at_most (some ast) catalog ≡ r
      → Found ast catalog r
  ending_at ast catalog r late h = elim (ending_of ast catalog) [
    | inl found ↦ subst (Found ast catalog) h found
    | inr early ↦ absurd (late (subst (IsEarly ast catalog) h early))
  ]
