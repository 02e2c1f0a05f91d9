-- ===== src/Workflows/Publish.antt =====
-- internal/workflows/publish_validation.go: validatePublishWorkflow. The texts and suggestions of
-- its errors are left out.
pub mod Sound
pub mod Clean
pub mod Reported
pub mod Ending
pub mod Published
use aceryx.Prelude.{
  String, Bool, true, false, not, ◌&&◌, ◌||◌, Option, none, some, List, [], ◌∷◌, ◌++◌, map, Result,
  ok, err, ◌>>=◌, is_empty, filter, contains, ◌==◌, if◌then◌else◌,
}
use aceryx.Prelude.Map.{Map, lookup}
use aceryx.Prelude.Text.{trim_space}
use aceryx.Json.{Json}
use aceryx.Engine.Types.{WorkflowStep, WorkflowAst, EngineError, cycle_detected}
use aceryx.Engine.Ast.{validate_ast}
use aceryx.Workflows.Config.{
  StepType, human_task, agent, ai_component, extraction, integration, rule, timer, notification,
  is_some, is_blank, step_type_of, is_supported_step_type, decode_step_config, has_key,
  has_string_value, has_object,
}
use aceryx.Workflows.Draft.{DraftError, Evaluation, printed, validate_workflow_ast}
use aceryx.Workflows.Graph.{trimmed_id, known, roots, visited_steps, is_disconnected, has_terminal}

pub data Code : Type 0 where
  unknown_step_type missing_required_config dangling_edge invalid_entrypoint : Code
  unreachable_node disconnected_graph invalid_terminal invalid_component_ref graph_cycle : Code

pub record PublishValidationError : Type 0 where
  pub step_id : String
  pub field : String
  pub code : Code

abbrev pub error_of : String → String → Code → PublishValidationError
error_of id name c = record { step_id = id; field = name; code = c }

-- `if !passed { validation.add(...) }`
abbrev pub unless : Bool → PublishValidationError → List PublishValidationError
unless passed e = if passed then [] else e ∷ []

abbrev pub lacks : String → String → PublishValidationError
lacks id name = error_of id name missing_required_config

-- The switch of addMissingRequiredConfigErrors.
unfoldable pub missing_required_config_errors :
    StepType → WorkflowStep → Map Json → List PublishValidationError
missing_required_config_errors human_task step cfg =
    unless
      (has_string_value cfg "assignee"
        || has_key cfg "candidate_roles"
        || has_string_value cfg "assign_to_role"
        || has_string_value cfg "assign_to_user")
      (lacks (trimmed_id step) "config.assignee")
    ++ unless (has_key cfg "form" || has_key cfg "form_schema")
        (lacks (trimmed_id step) "config.form")
missing_required_config_errors agent step cfg =
    unless (has_string_value cfg "prompt_template" || has_string_value cfg "prompt")
      (lacks (trimmed_id step) "config.prompt_template")
    ++ unless (has_object cfg "output_schema") (lacks (trimmed_id step) "config.output_schema")
missing_required_config_errors ai_component step cfg =
    unless (has_string_value cfg "component") (lacks (trimmed_id step) "config.component")
missing_required_config_errors extraction step cfg =
    unless
      (has_string_value cfg "schema_id"
        || has_string_value cfg "schema_name"
        || has_string_value cfg "schema")
      (lacks (trimmed_id step) "config.schema_name")
    ++ unless (has_string_value cfg "document_ref" || has_string_value cfg "document_path")
        (lacks (trimmed_id step) "config.document_ref")
    ++ unless (has_string_value cfg "output_path") (lacks (trimmed_id step) "config.output_path")
missing_required_config_errors integration step cfg =
    unless (has_string_value cfg "connector" && has_string_value cfg "action")
      (lacks (trimmed_id step) "config.connector")
missing_required_config_errors rule step cfg =
    unless (not (is_empty step.outcomes)) (lacks (trimmed_id step) "outcomes")
missing_required_config_errors timer step cfg =
    unless (has_string_value cfg "duration" || has_string_value cfg "schedule")
      (lacks (trimmed_id step) "config.duration")
missing_required_config_errors notification step cfg =
    unless (has_string_value cfg "channel") (lacks (trimmed_id step) "config.channel")
    ++ unless (has_string_value cfg "template" || has_string_value cfg "message")
        (lacks (trimmed_id step) "config.template")

unfoldable pub dangling_errors :
    List WorkflowStep → PublishValidationError → List String → List PublishValidationError
dangling_errors steps e [] = []
dangling_errors steps e (name ∷ rest) = unless (known steps name) e ++ dangling_errors steps e rest

unfoldable pub outcome_errors :
    List WorkflowStep → PublishValidationError → Map (List String) → List PublishValidationError
outcome_errors steps e [] = []
outcome_errors steps e (entry ∷ rest) =
    dangling_errors steps e entry.1 ++ outcome_errors steps e rest

-- The body of the second loop over the steps, its errors.
abbrev pub typed_errors : Option StepType → WorkflowStep → Map Json → List PublishValidationError
typed_errors none step cfg = []
typed_errors (some t) step cfg = missing_required_config_errors t step cfg

unfoldable pub config_errors : List WorkflowStep → WorkflowStep → List PublishValidationError
config_errors steps step = elim (decode_step_config step.config) [
  | none ↦ error_of (trimmed_id step) "config" missing_required_config ∷ []
  | some cfg ↦
      typed_errors (step_type_of (trim_space step.type)) step cfg
      ++ dangling_errors steps (error_of (trimmed_id step) "depends_on" dangling_edge)
          step.depends_on
      ++ outcome_errors steps (error_of (trimmed_id step) "outcomes" dangling_edge) step.outcomes
]

unfoldable pub step_errors : List WorkflowStep → WorkflowStep → List PublishValidationError
step_errors steps step =
    unless (is_supported_step_type (trim_space step.type))
      (error_of (trimmed_id step) "type" unknown_step_type)
    ++ config_errors steps step

-- The errors of a loop over the steps, in order.
unfoldable pub each_step :
    (WorkflowStep → List PublishValidationError) → List WorkflowStep → List PublishValidationError
each_step f [] = []
each_step f (step ∷ rest) = f step ++ each_step f rest

abbrev pub unreachable_error : List String → WorkflowStep → List PublishValidationError
unreachable_error visited step =
    unless (contains visited (trimmed_id step))
      (error_of (trimmed_id step) "depends_on" unreachable_node)

-- What addGraphErrors adds, given the outcomes of its two searches.
abbrev pub search_errors : List WorkflowStep → List String → Bool → List PublishValidationError
search_errors steps visited apart =
    unless (not (is_empty (roots steps))) (error_of "" "steps" invalid_entrypoint)
    ++ each_step (unreachable_error visited) steps
    ++ unless (not apart) (error_of "" "steps" disconnected_graph)
    ++ unless (has_terminal steps) (error_of "" "steps" invalid_terminal)

-- addGraphErrors; `none` is a search that was given too little fuel.
unfoldable pub graph_errors : List WorkflowStep → Option (List PublishValidationError)
graph_errors [] = some []
graph_errors (first ∷ rest) =
    let steps = first ∷ rest in
    elim (visited_steps steps) [
      | none ↦ none
      | some visited ↦ elim (is_disconnected steps) [
        | none ↦ none
        | some apart ↦ some (search_errors steps visited apart)
      ]
    ]

-- What the catalog's List gives: a nil item is `none`.
pub data Catalog : Type 0 where
  unlisted list_failed : Catalog
  listed : List (Option String) → Catalog

unfoldable pub known_components : List (Option String) → List String
known_components [] = []
known_components (none ∷ rest) = known_components rest
known_components (some id ∷ rest) =
    let later = known_components rest in if is_blank id then later else trim_space id ∷ later

pub data PublishFailure : Type 0 where
  undecodable components_not_listed : PublishFailure
  invalid_ast : EngineError → PublishFailure
  invalid_draft : DraftError → PublishFailure
  rejected : List PublishValidationError → PublishFailure
  -- not of the program: a search that was given too little fuel
  out_of_fuel : PublishFailure

-- GRAPH_CYCLE, or an error that ends the validation.
abbrev pub errors_of_ast :
    Result EngineError Unit → Result PublishFailure (List PublishValidationError)
errors_of_ast (ok nothing) = ok []
errors_of_ast (err (cycle_detected id)) = ok (error_of "" "" graph_cycle ∷ [])
errors_of_ast (err e) = err (invalid_ast e)

abbrev pub found_in_graph :
    Option (List PublishValidationError) → Result PublishFailure (List PublishValidationError)
found_in_graph none = err out_of_fuel
found_in_graph (some es) = ok es

abbrev pub as_failure : Result DraftError Unit → Result PublishFailure Unit
as_failure (ok nothing) = ok tt
as_failure (err e) = err (invalid_draft e)

module _ (evaluate : String → Evaluation) (sprint : Json → String)
    (at_most : Json → Json → Bool) where
  -- The id that a step's configuration names, as fmt.Sprint writes it.
  abbrev pub component_id : Map Json → String
  component_id cfg = trim_space (printed evaluate sprint at_most (lookup "component" cfg))

  abbrev pub component_passes : List String → WorkflowStep → Bool
  component_passes components step =
      if not (trim_space step.type == "ai_component")
      then true
      else elim (decode_step_config step.config) [
        | none ↦ true
        | some cfg ↦ component_id cfg == "" || contains components (component_id cfg)
      ]

  abbrev pub component_error : List String → WorkflowStep → List PublishValidationError
  component_error components step =
      unless (component_passes components step)
        (error_of (trimmed_id step) "config.component" invalid_component_ref)

  unfoldable pub validate_component_refs :
      Catalog → List WorkflowStep → Result PublishFailure (List PublishValidationError)
  validate_component_refs unlisted steps = ok []
  validate_component_refs list_failed steps = err components_not_listed
  validate_component_refs (listed items) steps =
      ok (each_step (component_error (known_components items)) steps)

  -- `decoded` is the outcome of json.Unmarshal.
  unfoldable pub validate_publish_workflow :
      Option WorkflowAst → Catalog → Result PublishFailure Unit
  validate_publish_workflow none catalog = err undecodable
  validate_publish_workflow (some ast) catalog = do
    let of_steps = each_step (step_errors ast.steps) ast.steps
    of_graph ← found_in_graph (graph_errors ast.steps)
    of_components ← validate_component_refs catalog ast.steps
    of_ast ← errors_of_ast (validate_ast ast)
    let errors = of_steps ++ of_graph ++ of_components ++ of_ast
    if is_empty errors
        then as_failure (validate_workflow_ast evaluate sprint at_most (some ast))
        else err (rejected errors)
