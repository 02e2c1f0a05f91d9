-- ===== src/Workflows/Publish/Reported.antt =====
-- internal/workflows/publish_validation.go: the errors that the checks find.
use aceryx.Prelude.{
  String, true, false, not, some, List, [], ◌∷◌, ◌++◌, is_empty, contains, In, In-append_left,
  In-append_right, ◌≡◌, subst, inl, inr, Bool-cases, Option-cases,
}
use aceryx.Prelude.Text.{trim_space}
use aceryx.Engine.Types.{WorkflowStep}
use aceryx.Workflows.Config.{is_some, step_type_of, is_supported_step_type, decode_step_config}
use aceryx.Workflows.Graph.{trimmed_id, known, roots, has_terminal}
use aceryx.Workflows.Graph.Reach.{Reached}
use aceryx.Workflows.Publish.{
  PublishValidationError, error_of, unless, invalid_entrypoint, unknown_step_type, dangling_edge,
  unreachable_node, disconnected_graph, invalid_terminal, config_errors, step_errors,
  unreachable_error, graph_errors, typed_errors, dangling_errors,
}
use aceryx.Workflows.Publish.Sound.{In-unless, In-each_step, In-outcome_errors, graph_errors_ends}

pub unreached-In :
    (steps : List WorkflowStep) (es : List PublishValidationError)
    → graph_errors steps ≡ some es
    → {s : WorkflowStep} → In s steps
    → ¬ Reached steps (trimmed_id s)
    → In (error_of (trimmed_id s) "depends_on" unreachable_node) es
unreached-In [] es h at unreached = elim at [ ]
unreached-In (first ∷ rest) es h {s} at unreached =
    let (visited, apart, e, reached) = graph_errors_ends first rest in
    let unvisited : contains visited (trimmed_id s) ≡ false =
      elim (Bool-cases (contains visited (trimmed_id s))) [
        | inl k ↦ absurd (unreached ((reached (trimmed_id s)).0 k))
        | inr k ↦ k
      ] in
    subst (In _) (cc (h, e)) (
      In-append_left (unless (has_terminal (first ∷ rest)) (error_of "" "steps" invalid_terminal)) (
        In-append_left (unless (not apart) (error_of "" "steps" disconnected_graph)) (
          In-append_right
            (unless (not (is_empty (roots (first ∷ rest))))
              (error_of "" "steps" invalid_entrypoint))
            (In-each_step (unreachable_error visited) (first ∷ rest) at
              (In-unless _ _ unvisited)))))

pub unsupported-In :
    (steps : List WorkflowStep) (s : WorkflowStep)
    → is_supported_step_type (trim_space s.type) ≡ false
    → In (error_of (trimmed_id s) "type" unknown_step_type) (step_errors steps s)
unfolding step_errors
unsupported-In steps s h = In-append_left (config_errors steps s) (In-unless _ _ h)

-- A target of an outcome that is no step.
pub dangling-In :
    (steps : List WorkflowStep) (s : WorkflowStep) (entry : String × List String) (target : String)
    → In entry s.outcomes
    → In target entry.1
    → known steps target ≡ false
    → is_some (decode_step_config s.config) ≡ true
    → In (error_of (trimmed_id s) "outcomes" dangling_edge) (step_errors steps s)
unfolding step_errors config_errors
dangling-In steps s entry target at i gone readable =
    elim (Option-cases (decode_step_config s.config)) [
      | inl e ↦ cc (rw (e) at readable)
      | inr (cfg, e) ↦
          In-append_right
            (unless (is_supported_step_type (trim_space s.type))
              (error_of (trimmed_id s) "type" unknown_step_type))
            (rw (e, config_errors)
              (In-append_right
                (typed_errors (step_type_of (trim_space s.type)) s cfg
                  ++ dangling_errors steps (error_of (trimmed_id s) "depends_on" dangling_edge)
                      s.depends_on)
                (In-outcome_errors steps _ s.outcomes at i gone)))
    ]
