-- ===== src/Workflows/Publish/Clean.antt =====
-- internal/workflows/publish_validation.go: what a workflow is whose checks find no error.
use aceryx.Prelude.{
  String, Bool, true, false, not, Option, none, some, List, [], ◌∷◌, ◌++◌, Result, ok, err,
  >>=-eq-ok, is_empty, contains, All, All-map, In, In-filter_iff, ◌≡◌, refl, subst, inl, inr,
  Result-cases, arith,
}
use aceryx.Prelude.Map.{Map}
use aceryx.Json.{Json}
use aceryx.Engine.Types.{WorkflowStep, WorkflowAst, EngineError, cycle_detected}
use aceryx.Engine.Ast.{validate_ast, step_map}
use aceryx.Workflows.Draft.{
  DraftError, Evaluation, validate_step, validate_steps, validate_workflow_ast,
}
use aceryx.Workflows.Graph.{trimmed_id, known, roots, has_terminal, next_known}
use aceryx.Workflows.Graph.Reach.{Arrow, Reached, next_known_iff}
use aceryx.Workflows.Publish.{
  PublishValidationError, error_of, unless, invalid_entrypoint, disconnected_graph, each_step,
  unreachable_error, graph_errors, search_errors, Catalog, unlisted, list_failed, listed,
  known_components, errors_of_ast, component_passes, component_error, validate_component_refs,
  found_in_graph, as_failure,
}
use aceryx.Workflows.Publish.Sound.{
  nil-append, nonempty, none_in, unless-nil, each_step-nil, graph_errors_ends,
}

-- A step from which no arrow leads to a step.
pub record IsTerminal (steps : List WorkflowStep) (s : WorkflowStep) : Type 0 where
  pub present : In s steps
  pub last : (v : String) → Arrow steps (trimmed_id s) v → ¬ (known steps v ≡ true)

has_terminal-IsTerminal :
    (steps : List WorkflowStep)
    → has_terminal steps ≡ true
    → (s : WorkflowStep) × IsTerminal steps s
unfolding has_terminal
has_terminal-IsTerminal steps h =
    let (s, i) = nonempty _ (ground arith) in
    let (at, ends) =
      (In-filter_iff (λ t. is_empty (next_known steps (trimmed_id t))) s steps).0 i in
    (
      s,
      record {
        present = at;
        last = λ v a k. none_in _ ends v ((next_known_iff steps (trimmed_id s) v).1 (a, k));
      },
    )

search_errors-nil :
    (steps : List WorkflowStep) (visited : List String) (apart : Bool)
    → search_errors steps visited apart ≡ []
    → All (λ s. contains visited (trimmed_id s) ≡ true) steps × (has_terminal steps ≡ true)
search_errors-nil steps visited apart h =
    let (most, terminal) =
      nil-append
        (unless (not (is_empty (roots steps))) (error_of "" "steps" invalid_entrypoint)
          ++ each_step (unreachable_error visited) steps
          ++ unless (not apart) (error_of "" "steps" disconnected_graph))
        _ h in
    let (more, _) =
      nil-append
        (unless (not (is_empty (roots steps))) (error_of "" "steps" invalid_entrypoint)
          ++ each_step (unreachable_error visited) steps)
        _ most in
    let (_, each) =
      nil-append (unless (not (is_empty (roots steps))) (error_of "" "steps" invalid_entrypoint)) _
        more in
    (
      All-map (λ s e. unless-nil _ _ e) steps
          (each_step-nil (unreachable_error visited) steps each),
      unless-nil _ _ terminal,
    )

-- No error of the graph: the steps are reached, and one is the last.
pub graph_errors-nil :
    (steps : List WorkflowStep)
    → is_empty steps ≡ false
    → graph_errors steps ≡ some []
    → All (λ s. Reached steps (trimmed_id s)) steps × ((s : WorkflowStep) × IsTerminal steps s)
graph_errors-nil [] some_steps h = cc some_steps
graph_errors-nil (first ∷ rest) some_steps h =
    let (visited, apart, e, reached) = graph_errors_ends first rest in
    let (all, last) = search_errors-nil (first ∷ rest) visited apart (cc (h, e)) in
    (
      All-map (λ s k. (reached (trimmed_id s)).0 k) (first ∷ rest) all,
      has_terminal-IsTerminal (first ∷ rest) last,
    )

pub errors_of_ast-nil : (r : Result EngineError Unit) → errors_of_ast r ≡ ok [] → r ≡ ok tt
errors_of_ast-nil (ok nothing) h = refl
errors_of_ast-nil (err (cycle_detected id)) h = cc h
errors_of_ast-nil (err _) h = cc h

pub as_failure-ok : (r : Result DraftError Unit) → as_failure r ≡ ok tt → r ≡ ok tt
as_failure-ok (ok nothing) h = refl
as_failure-ok (err e) h = cc h

found_in_graph-ok :
    (o : Option (List PublishValidationError)) (es : List PublishValidationError)
    → found_in_graph o ≡ ok es
    → o ≡ some es
found_in_graph-ok none es h = cc h
found_in_graph-ok (some gs) es h = cc h

pub validate_steps-ok :
    (evaluate : String → Evaluation) (sprint : Json → String) (at_most : Json → Json → Bool)
    (ids : Map WorkflowStep) (steps : List WorkflowStep)
    → validate_steps evaluate sprint at_most ids steps ≡ ok tt
    → All (λ s. validate_step evaluate sprint at_most ids s ≡ ok tt) steps
unfolding validate_steps
validate_steps-ok evaluate sprint at_most ids [] h = tt
validate_steps-ok evaluate sprint at_most ids (s ∷ rest) h =
    let (_, first, later) = >>=-eq-ok (validate_step evaluate sprint at_most ids s) _ h in
    (first, validate_steps-ok evaluate sprint at_most ids rest later)

module _ (evaluate : String → Evaluation) (sprint : Json → String)
    (at_most : Json → Json → Bool) where
  pub refs-nil :
      (catalog : Catalog) (steps : List WorkflowStep)
      → validate_component_refs evaluate sprint at_most catalog steps ≡ ok []
      → (items : List (Option String)) → catalog ≡ listed items
      → All (λ s. component_passes evaluate sprint at_most (known_components items) s ≡ true) steps
  unfolding validate_component_refs
  refs-nil unlisted steps h items e = cc e
  refs-nil list_failed steps h items e = cc e
  refs-nil (listed given) steps h items e =
      subst
        (λ xs.
          All (λ s. component_passes evaluate sprint at_most (known_components xs) s ≡ true) steps)
        (cc e)
        (All-map (λ s k. unless-nil _ _ k) steps
          (each_step-nil (component_error evaluate sprint at_most (known_components given)) steps
            (cc h)))

  pub drafted_steps :
      (ast : WorkflowAst)
      → validate_workflow_ast evaluate sprint at_most (some ast) ≡ ok tt
      → All (λ s. validate_step evaluate sprint at_most (step_map ast) s ≡ ok tt) ast.steps
  unfolding validate_workflow_ast
  drafted_steps ast h = elim (Result-cases (validate_ast ast)) [
    | inl (e, failed) ↦ cc (rw (failed, validate_workflow_ast) at h)
    | inr (u, passed) ↦
        validate_steps-ok evaluate sprint at_most (step_map ast) ast.steps
          (rw (passed, validate_workflow_ast) at h)
  ]
