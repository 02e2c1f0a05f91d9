-- ===== src/Workflows/Tests.antt =====
-- internal/workflows, on workflows of a few steps.
use aceryx.Prelude.{
  Result, String, Bool, true, false, none, some, List, [], ◌∷◌, ok, In, here, ◌≡◌, ◌↔◌, contains,
  refl,
}
use aceryx.Prelude.Map.{Map, lookup, insert}
use aceryx.Prelude.Int.{pos}
use aceryx.Prelude.Text.{trim_space, trim_left, trim_right}
use aceryx.Json.{lower_codes, Json, RawMessage, empty, document, obj, str, end, field}
use aceryx.Engine.Types.{WorkflowStep, WorkflowAst, ErrorPolicy}
use aceryx.Engine.Ast.{
  check_all_deps, check_deps, check_steps, normalized_join, step_map, step_map_from, validate_ast,
  visit, visit_each,
}
use aceryx.Workflows.Config.{
  agent, is_some, step_type_of, is_supported_step_type, decode_step_config, has_key,
  has_string_value, has_object, object_from,
}
use aceryx.Workflows.Draft.{
  Evaluation, boolean, validate_workflow_ast, check_condition, check_field, check_listed_outcomes,
  check_mapped_outcomes, check_required_config, check_targets, contains_codes, should_ignore,
  starts_with, validate_agent_step_config, validate_ai_component_step_config,
  validate_boolean_expression, validate_extraction_step_config, validate_outcome_targets,
  validate_step, validate_step_expressions, validate_step_required_config, validate_steps,
}
use aceryx.Workflows.Graph.{
  known, outgoing, outcome_edges, outcome_edges_of, dependency_edges, by_trimmed_id, has_terminal,
  is_disconnected, linked_steps, links, links_to, neighbors, outcome_links, visited_steps, walk,
  roots, in_degree, edge_count,
}
use aceryx.Workflows.Graph.Reach.{Reached, visited_steps-Reached}
use aceryx.Workflows.Publish.{
  PublishFailure, PublishValidationError, error_of, unknown_step_type, dangling_edge,
  unreachable_node, graph_cycle, disconnected_graph, unlisted, validate_publish_workflow,
  config_errors, dangling_errors, each_step, known_components, missing_required_config_errors,
  outcome_errors, step_errors, validate_component_refs, graph_errors,
}
use aceryx.Workflows.Publish.Published.{IsPublished, validate_publish_workflow_sound, Tells}
use aceryx.Workflows.Accepted.{published_agent}

abbrev no_policy : ErrorPolicy
no_policy = record {
  max_attempts = pos 0;
  backoff = "";
  initial_delay = pos 0;
  max_delay = pos 0;
  on_exhausted = "";
}

abbrev step : String → String → List String → RawMessage → WorkflowStep
step id type deps config = record {
  id = id;
  type = type;
  depends_on = deps;
  join = "";
  condition = "";
  outcomes = [];
  config = config;
  error_policy = no_policy;
  metadata = none;
}

abbrev always : String → Evaluation
always text = boolean

abbrev blank : Json → String
blank v = ""

abbrev any_order : Json → Json → Bool
any_order v w = true

abbrev review : WorkflowStep
review =
    step "review" "agent" []
      (document (obj (field "prompt_template" (str "p") (field "output_schema" (obj end) end))))

abbrev tell : WorkflowStep
tell =
    step "tell" "notification" ("review" ∷ [])
      (document (obj (field "channel" (str "email") (field "message" (str "done") end))))

abbrev two_steps : WorkflowAst
two_steps = record { steps = review ∷ tell ∷ [] }

publish_two_steps :
    validate_publish_workflow always blank any_order (some two_steps) unlisted ≡ ok tt
unfolding lookup insert trim_space trim_left trim_right validate_publish_workflow
    validate_workflow_ast check_condition check_field check_listed_outcomes check_mapped_outcomes
    check_required_config check_targets contains_codes lower_codes should_ignore starts_with
    validate_agent_step_config validate_ai_component_step_config validate_boolean_expression
    validate_extraction_step_config validate_outcome_targets validate_step validate_step_expressions
    validate_step_required_config validate_steps has_key has_string_value is_supported_step_type
    object_from step_type_of decode_step_config outgoing outcome_edges outcome_edges_of
    dependency_edges by_trimmed_id has_terminal is_disconnected linked_steps links links_to
    neighbors outcome_links visited_steps walk roots in_degree edge_count config_errors
    dangling_errors each_step known_components missing_required_config_errors outcome_errors
    step_errors validate_component_refs graph_errors check_all_deps check_deps check_steps
    normalized_join step_map step_map_from validate_ast visit visit_each
publish_two_steps = refl

draft_two_steps : validate_workflow_ast always blank any_order (some two_steps) ≡ ok tt
unfolding lookup insert trim_space trim_left trim_right validate_workflow_ast check_condition
    check_field check_listed_outcomes check_mapped_outcomes check_required_config check_targets
    contains_codes lower_codes should_ignore starts_with validate_agent_step_config
    validate_ai_component_step_config validate_boolean_expression validate_extraction_step_config
    validate_outcome_targets validate_step validate_step_expressions validate_step_required_config
    validate_steps has_key has_string_value is_supported_step_type object_from step_type_of
    decode_step_config check_all_deps check_deps check_steps normalized_join step_map step_map_from
    validate_ast visit visit_each
draft_two_steps = refl

-- A step beside two that wait for each other.
abbrev apart : WorkflowAst
apart = record {
  steps =
      step "a" "wait" [] empty
      ∷ record (step "b" "timers" ("c" ∷ []) (document (obj (field "duration" (str "1h") end)))) {
        outcomes = ("done", "gone" ∷ []) ∷ [];
      }
      ∷ step "c" "timer" ("b" ∷ []) (document (obj (field "duration" (str "1h") end)))
      ∷ [];
}

abbrev apart_errors : List PublishValidationError
apart_errors =
    error_of "a" "type" unknown_step_type
    ∷ error_of "b" "type" unknown_step_type
    ∷ error_of "b" "outcomes" dangling_edge
    ∷ error_of "b" "depends_on" unreachable_node
    ∷ error_of "c" "depends_on" unreachable_node
    ∷ error_of "" "steps" disconnected_graph
    ∷ error_of "" "" graph_cycle
    ∷ []

validate_publish_workflow_sound_example : IsPublished always blank any_order two_steps unlisted
validate_publish_workflow_sound_example =
    validate_publish_workflow_sound always blank any_order two_steps unlisted publish_two_steps

published_agent_example :
    (cfg : Map Json) × (decode_step_config review.config ≡ some cfg)
    × (has_string_value cfg "prompt_template" ≡ true)
    × (has_object cfg "output_schema" ≡ true)
    × (has_key cfg "context_sources" ≡ false)
published_agent_example =
    published_agent always blank any_order two_steps unlisted publish_two_steps (here refl)
      review_is_agent
  where
    review_is_agent : step_type_of (trim_space review.type) ≡ some agent
    review_is_agent = unfold step_type_of trim_space trim_left trim_right in refl

abbrev Told : Result PublishFailure Unit → Type 0
Told r =
    (¬ Reached apart.steps "b"
      → Tells always blank any_order apart unlisted (error_of "b" "depends_on" unreachable_node) r)
    × (is_supported_step_type "timers" ≡ false
        → Tells always blank any_order apart unlisted (error_of "b" "type" unknown_step_type) r)
    × ((entry : String × List String) (target : String)
        → In entry (("done", "gone" ∷ []) ∷ [])
        → In target entry.1
        → known apart.steps target ≡ false
        → is_some (decode_step_config (document (obj (field "duration" (str "1h") end)))) ≡ true
        → Tells always blank any_order apart unlisted (error_of "b" "outcomes" dangling_edge) r)

visited_steps-Reached_example :
    (visited : List String) × (visited_steps apart.steps ≡ some visited)
    × ((v : String) → (contains visited v ≡ true) ↔ Reached apart.steps v)
visited_steps-Reached_example = visited_steps-Reached apart.steps
