-- ===== src/Workflows/Accepted.antt =====
-- internal/workflows: what validation.go accepts, alone and as the last check of a publish.
use aceryx.Prelude.{
  String, Bool, true, false, not, some, List, [], ◌∷◌, map, ok, require, >>=-eq-ok, All, All-map,
  all_in, In, here, there, ◌≡◌, refl, sym, subst, ◌⊎◌, inl, inr, Result-cases, text_cases, arith,
  require-ok,
}
use aceryx.Prelude.Map.{Map, lookup, insert, lookup-insert, lookup-empty}
use aceryx.Prelude.Text.{trim_space}
use aceryx.Json.{Json, RawMessage, empty, malformed, document}
use aceryx.Engine.Types.{WorkflowStep, WorkflowAst}
use aceryx.Engine.Ast.{validate_ast, step_map_from, step_map, step_ids}
use aceryx.Engine.Ast.Valid.{validate_ast_iff}
use aceryx.Engine.Ast.Chains.{IsValid}
use aceryx.Workflows.Config.{
  StepType, agent, is_some, step_type_of, decode_step_config, has_key, has_string_value, has_object,
}
use aceryx.Workflows.Draft.{
  Evaluation, unknown_target, bad_field, check_targets, validate_outcome_targets,
  check_required_config, validate_step_required_config, validate_agent_step_config,
  validate_step_expressions, validate_typed_config, with_config, validate_step,
  validate_workflow_ast,
}
use aceryx.Workflows.Publish.{
  Catalog, missing_required_config_errors, typed_errors, validate_publish_workflow,
}
use aceryx.Workflows.Publish.Sound.{nil-append, unless-nil, IsSound}
use aceryx.Workflows.Publish.Clean.{validate_steps-ok}
use aceryx.Workflows.Publish.Published.{validate_publish_workflow_sound}

-- A key of the map of steps is the id of a step.
step_map_from-In :
    (m : Map WorkflowStep) (steps : List WorkflowStep) (k : String)
    → is_some (lookup k (step_map_from m steps)) ≡ true
    → (is_some (lookup k m) ≡ true) ⊎ In k (map (λ s. s.id) steps)
unfolding step_map_from
step_map_from-In m [] k h = inl h
step_map_from-In m (s ∷ rest) k h = elim (step_map_from-In (insert s.id s m) rest k h) [
  | inr i ↦ inr (there i)
  | inl old ↦ elim (text_cases s.id k) [
    | inl same ↦ inr (here (sym same))
    | inr (differ, _) ↦ inl (rw (lookup-insert, differ) at old)
  ]
]

step_map-In :
    (ast : WorkflowAst) (k : String)
    → is_some (lookup k (step_map ast)) ≡ true
    → In k (step_ids ast)
unfolding step_map
step_map-In ast k h = elim (step_map_from-In [] ast.steps k h) [
  | inl old ↦ cc (rw (lookup-empty k) at old)
  | inr i ↦ i
]

check_targets-ok :
    (ids : Map WorkflowStep) (id outcome : String) (targets : List String)
    → check_targets ids id outcome targets ≡ ok tt
    → All (λ t. is_some (lookup t ids) ≡ true) targets
unfolding check_targets
check_targets-ok ids id outcome [] h = tt
check_targets-ok ids id outcome (t ∷ rest) h =
    let (_, first, later) =
      >>=-eq-ok (require (is_some (lookup t ids)) (unknown_target id outcome t)) _ h in
    (require-ok _ _ first, check_targets-ok ids id outcome rest later)

validate_outcome_targets-ok :
    (ids : Map WorkflowStep) (id : String) (outcomes : Map (List String))
    → validate_outcome_targets ids id outcomes ≡ ok tt
    → All (λ entry. All (λ t. is_some (lookup t ids) ≡ true) entry.1) outcomes
unfolding validate_outcome_targets
validate_outcome_targets-ok ids id [] h = tt
validate_outcome_targets-ok ids id (entry ∷ rest) h =
    let (_, first, later) = >>=-eq-ok (check_targets ids id entry.0 entry.1) _ h in
    (check_targets-ok ids id entry.0 entry.1 first, validate_outcome_targets-ok ids id rest later)

module _ (evaluate : String → Evaluation) (sprint : Json → String)
    (at_most : Json → Json → Bool) where
  -- What one step's check has passed.
  record Passed (ids : Map WorkflowStep) (s : WorkflowStep) : Type 0 where
    targets : validate_outcome_targets ids s.id s.outcomes ≡ ok tt
    required : validate_step_required_config s ≡ ok tt
    typed :
        validate_typed_config evaluate sprint at_most (step_type_of (trim_space s.type)) s ≡ ok tt

  validate_step-Passed :
      (ids : Map WorkflowStep) (s : WorkflowStep)
      → validate_step evaluate sprint at_most ids s ≡ ok tt
      → Passed ids s
  unfolding validate_step
  validate_step-Passed ids s h =
      let (_, t, h1) = >>=-eq-ok (validate_outcome_targets ids s.id s.outcomes) _ h in
      let (_, r, h2) = >>=-eq-ok (validate_step_required_config s) _ h1 in
      let (_, x, h3) = >>=-eq-ok (validate_step_expressions evaluate sprint at_most s) _ h2 in
      record { targets = t; required = r; typed = h3 }

  required-ok :
      (s : WorkflowStep) (cfg : Map Json) (t : StepType)
      → decode_step_config s.config ≡ some cfg
      → step_type_of (trim_space s.type) ≡ some t
      → validate_step_required_config s ≡ ok tt
      → check_required_config t s cfg ≡ ok tt
  unfolding validate_step_required_config
  required-ok s cfg t decoded type h = rw (decoded, type, validate_step_required_config) at h

  agent_config-ok :
      (id : String) (raw : RawMessage) (cfg : Map Json)
      → decode_step_config raw ≡ some cfg
      → validate_agent_step_config evaluate sprint at_most id raw ≡ ok tt
      → has_key cfg "context_sources" ≡ false
  unfolding validate_agent_step_config
  agent_config-ok id empty cfg e h =
      unfold has_key decode_step_config lookup in
      let same : [] ≡ cfg = cc e in subst (λ m. has_key m "context_sources" ≡ false) same refl
  agent_config-ok id malformed cfg e h = unfold decode_step_config in cc e
  agent_config-ok id (document v) cfg e h =
      let (_, first, rest) =
        >>=-eq-ok (require (not (has_key cfg "context_sources")) (bad_field id "context_sources")) _
          (rw (e, validate_agent_step_config, with_config) at h) in
      ground (arith, require-ok _ _ first)

  -- A published agent step names its prompt by `prompt_template`, has an object as its output
  -- schema, and does not use the key `context_sources`.
  pub published_agent :
      (ast : WorkflowAst) (catalog : Catalog)
      → validate_publish_workflow evaluate sprint at_most (some ast) catalog ≡ ok tt
      → {s : WorkflowStep} → In s ast.steps
      → step_type_of (trim_space s.type) ≡ some agent
      → (cfg : Map Json) × (decode_step_config s.config ≡ some cfg)
        × (has_string_value cfg "prompt_template" ≡ true)
        × (has_object cfg "output_schema" ≡ true)
        × (has_key cfg "context_sources" ≡ false)
  unfolding check_required_config missing_required_config_errors validate_agent_step_config
  published_agent ast catalog h {s} at type =
      let published = validate_publish_workflow_sound evaluate sprint at_most ast catalog h in
      let sound = all_in (IsSound ast.steps) published.sound at in
      let passed = validate_step-Passed (step_map ast) s (all_in _ published.drafted at) in
      (
        sound.config,
        sound.decoded,
        require-ok _ _ (required-ok s sound.config agent sound.decoded type passed.required),
        unless-nil _ _ (nil-append _ _ (schema_checked sound.config sound.configured)).1,
        agent_config-ok s.id s.config sound.config sound.decoded (rw (type) at passed.typed),
      )
    where
      schema_checked :
          (cfg : Map Json)
          → typed_errors (step_type_of (trim_space s.type)) s cfg ≡ []
          → missing_required_config_errors agent s cfg ≡ []
      schema_checked cfg k = rw (type) at k

  -- An accepted draft is valid for the engine, and each target of an outcome is a step's id.
  pub validate_workflow_ast_targets :
      (ast : WorkflowAst)
      → validate_workflow_ast evaluate sprint at_most (some ast) ≡ ok tt
      → IsValid ast
        × All (λ s. All (λ entry. All (λ t. In t (step_ids ast)) entry.1) s.outcomes) ast.steps
  unfolding validate_workflow_ast
  validate_workflow_ast_targets ast h = elim (Result-cases (validate_ast ast)) [
    | inl (e, failed) ↦ cc (rw (failed, validate_workflow_ast) at h)
    | inr (u, passed) ↦ (
      (validate_ast_iff ast).0 passed,
      All-map
          (λ s ok_step.
            All-map (λ entry. All-map (step_map-In ast) entry.1) s.outcomes
              (validate_outcome_targets-ok (step_map ast) s.id s.outcomes
                (validate_step-Passed (step_map ast) s ok_step).targets))
          ast.steps
          (validate_steps-ok evaluate sprint at_most (step_map ast) ast.steps
            (rw (passed, validate_workflow_ast) at h)),
    )
  ]
