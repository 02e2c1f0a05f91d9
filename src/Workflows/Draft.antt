-- ===== src/Workflows/Draft.antt =====
-- internal/workflows/validation.go: validateWorkflowAST. A map is read in the order of its list:
-- which of two errors of one step's outcomes is reported first is left open by Go.
use aceryx.Prelude.{
  ℕ, String, Bool, true, false, not, ◌&&◌, ◌||◌, Option, none, some, List, [], ◌∷◌, Result, ok, err,
  ◌>>◌, require, is_empty, ◌==◌, if◌then◌else◌, nat_eq,
}
use aceryx.Prelude.Map.{Map, lookup}
use aceryx.Prelude.Text.{trim_space}
use aceryx.Json.{
  Json, Items, RawMessage, empty, null, num, decimal, str, arr, obj, nil, cons, lower_codes,
}
use aceryx.Engine.Types.{WorkflowStep, WorkflowAst, EngineError}
use aceryx.Engine.Ast.{validate_ast, step_map}
use aceryx.Workflows.Config.{
  StepType, human_task, agent, ai_component, extraction, integration, rule, timer, notification,
  is_some, step_type_of, decode_step_config, object_of, has_key, has_string_value, is_object,
  is_array,
}

-- What an error says of a step, its text left out.
pub data DraftError : Type 0 where
  not_decoded : DraftError
  invalid_graph : EngineError → DraftError
  unknown_target : String → String → String → DraftError
  config_not_object : String → DraftError
  requires : String → String → DraftError
  expression_invalid : String → String → DraftError
  not_boolean : String → DraftError
  bad_field : String → String → DraftError

-- What the evaluator (internal/expressions, over a JavaScript engine) makes of an expression: a
-- Boolean, another value, or an error with its text.
pub data Evaluation : Type 0 where
  boolean other_value : Evaluation
  failure : String → Evaluation

unfoldable pub check_targets :
    Map WorkflowStep → String → String → List String → Result DraftError Unit
check_targets ids id outcome [] = ok tt
check_targets ids id outcome (target ∷ rest) =
    require (is_some (lookup target ids)) (unknown_target id outcome target)
    >> check_targets ids id outcome rest

unfoldable pub validate_outcome_targets :
    Map WorkflowStep → String → Map (List String) → Result DraftError Unit
validate_outcome_targets ids id [] = ok tt
validate_outcome_targets ids id (entry ∷ rest) =
    check_targets ids id entry.0 entry.1 >> validate_outcome_targets ids id rest

abbrev pub is_nil : Items → Bool
is_nil nil = true
is_nil (cons v rest) = false

-- rawOutcomes of a rule: an array or an object that is not empty.
abbrev pub has_routes : Json → Bool
has_routes (arr items) = not (is_nil items)
has_routes (obj fields) = not (is_empty (object_of fields))
has_routes _ = false

abbrev pub has_legacy_rule_outcomes : Map Json → Bool
has_legacy_rule_outcomes cfg = elim (lookup "outcomes" cfg) [ none ↦ false | some v ↦ has_routes v ]

-- The switch of validateStepRequiredConfig, on the decoded configuration.
unfoldable pub check_required_config : StepType → WorkflowStep → Map Json → Result DraftError Unit
check_required_config human_task step cfg = do
  require (has_string_value cfg "assign_to_role" || has_string_value cfg "assign_to_user")
      (requires step.id "assign_to_role")
  require (has_key cfg "form" || has_key cfg "form_schema") (requires step.id "form_schema")
check_required_config agent step cfg =
    require (has_string_value cfg "prompt_template") (requires step.id "prompt_template")
check_required_config integration step cfg =
    require (has_string_value cfg "connector" && has_string_value cfg "action")
      (requires step.id "connector")
check_required_config rule step cfg =
    require (not (is_empty step.outcomes && not (has_legacy_rule_outcomes cfg)))
      (requires step.id "outcomes")
check_required_config timer step cfg =
    require (has_string_value cfg "duration") (requires step.id "duration")
check_required_config notification step cfg =
    require (has_string_value cfg "channel") (requires step.id "channel")
check_required_config ai_component step cfg =
    require (has_string_value cfg "component") (requires step.id "component")
check_required_config extraction step cfg = do
  require (has_string_value cfg "document_path" || has_string_value cfg "document_ref")
      (requires step.id "document_path")
  require
      (has_string_value cfg "schema"
        || has_string_value cfg "schema_name"
        || has_string_value cfg "schema_id")
      (requires step.id "schema")
  require (has_string_value cfg "output_path") (requires step.id "output_path")

unfoldable pub validate_step_required_config : WorkflowStep → Result DraftError Unit
validate_step_required_config step = elim (decode_step_config step.config) [
  | none ↦ err (config_not_object step.id)
  | some cfg ↦ elim (step_type_of (trim_space step.type)) [
    | none ↦ ok tt
    | some t ↦ check_required_config t step cfg
  ]
]

unfoldable pub starts_with : List ℕ → List ℕ → Bool
starts_with xs [] = true
starts_with [] (y ∷ ys) = false
starts_with (x ∷ xs) (y ∷ ys) = nat_eq x y && starts_with xs ys

-- strings.Contains
unfoldable pub contains_codes : List ℕ → List ℕ → Bool
contains_codes [] ys = starts_with [] ys
contains_codes (x ∷ xs) ys = starts_with (x ∷ xs) ys || contains_codes xs ys

-- shouldIgnoreExpressionEvaluationError, on the error's text
unfoldable pub should_ignore : String → Bool
should_ignore text =
    let msg = lower_codes text in
    contains_codes msg (lower_codes "cannot read property")
    || contains_codes msg (lower_codes "is undefined")
    || contains_codes msg (lower_codes "undefined at")

-- asFloat of a decoded value: encoding/json gives a float64 for a number.
abbrev pub is_number : Json → Bool
is_number (num n) = true
is_number (decimal text) = true
is_number _ = false

-- `evaluate` is the evaluator in the context of a case without data; `sprint` is fmt.Sprint on a
-- value that is neither a text nor null; `at_most` is the order of the float64 of two numbers.
module _ (evaluate : String → Evaluation) (sprint : Json → String)
    (at_most : Json → Json → Bool) where
  -- fmt.Sprint(m[key])
  abbrev pub printed : Option Json → String
  printed none = "<nil>"
  printed (some null) = "<nil>"
  printed (some (str s)) = s
  printed (some v) = sprint v

  unfoldable pub validate_boolean_expression : String → String → Result DraftError Unit
  validate_boolean_expression id expr =
      if trim_space expr == "" then ok tt else elim (evaluate (trim_space expr)) [
        | boolean ↦ ok tt
        | other_value ↦ err (not_boolean id)
        | failure text ↦ if should_ignore text then ok tt else err (expression_invalid id text)
      ]

  -- `condition == ""` is skipped, as validateBooleanExpression skips it.
  unfoldable pub check_condition : String → String → Result DraftError Unit
  check_condition id text =
      let condition = trim_space text in
      if condition == "" then ok tt else validate_boolean_expression id condition

  -- The outcomes of a rule in the array form; an item that is no object is passed over.
  unfoldable pub check_listed_outcomes : String → Items → Result DraftError Unit
  check_listed_outcomes id nil = ok tt
  check_listed_outcomes id (cons (obj fields) rest) =
      check_condition id (printed (lookup "condition" (object_of fields)))
      >> check_listed_outcomes id rest
  check_listed_outcomes id (cons _ rest) = check_listed_outcomes id rest

  abbrev pub mapped_condition : Json → String
  mapped_condition (obj fields) = printed (lookup "condition" (object_of fields))
  mapped_condition v = printed (some v)

  unfoldable pub check_mapped_outcomes : String → Map Json → Result DraftError Unit
  check_mapped_outcomes id [] = ok tt
  check_mapped_outcomes id (entry ∷ rest) =
      check_condition id (mapped_condition entry.1) >> check_mapped_outcomes id rest

  abbrev pub check_rule_outcomes : String → Option Json → Result DraftError Unit
  check_rule_outcomes id (some (arr items)) = check_listed_outcomes id items
  check_rule_outcomes id (some (obj fields)) = check_mapped_outcomes id (object_of fields)
  check_rule_outcomes id _ = ok tt

  unfoldable pub validate_step_expressions : WorkflowStep → Result DraftError Unit
  validate_step_expressions step =
      validate_boolean_expression step.id step.condition
      >> (if not (trim_space step.type == "rule")
          then ok tt
          else elim (decode_step_config step.config) [
            | none ↦ err (config_not_object step.id)
            | some cfg ↦ check_rule_outcomes step.id (lookup "outcomes" cfg)
          ])

  -- `if v, ok := cfg[key]; ok { if bad(v) { return err } }`
  unfoldable pub check_field : String → (Json → Bool) → Map Json → String → Result DraftError Unit
  check_field id good cfg key = elim (lookup key cfg) [
    | none ↦ ok tt
    | some v ↦ require (good v) (bad_field id key)
  ]

  -- The three checks below are of a configuration that is there: `len(raw) == 0` passes.
  abbrev pub with_config :
      String → RawMessage → (Map Json → Result DraftError Unit) → Result DraftError Unit
  with_config id empty check = ok tt
  with_config id raw check = elim (decode_step_config raw) [
    | none ↦ err (config_not_object id)
    | some cfg ↦ check cfg
  ]

  abbrev pub low_confidence_action : Json → Bool
  low_confidence_action (str s) =
      let action = trim_space s in action == "" || action == "escalate_to_human"
  low_confidence_action _ = false

  unfoldable pub validate_agent_step_config : String → RawMessage → Result DraftError Unit
  validate_agent_step_config id raw = with_config id raw λ cfg. do
    require (not (has_key cfg "context_sources")) (bad_field id "context_sources")
    check_field id is_array cfg "context"
    check_field id is_object cfg "output_schema"
    check_field id low_confidence_action cfg "on_low_confidence"

  unfoldable pub validate_ai_component_step_config : String → RawMessage → Result DraftError Unit
  validate_ai_component_step_config id raw = with_config id raw λ cfg. do
    check_field id is_object cfg "input_paths"
    check_field id is_object cfg "config_values"

  abbrev pub in_unit_range : Json → Bool
  in_unit_range v = is_number v && at_most (num 0) v && at_most v (num 1)

  -- `hasAuto && hasReview && review > autoAccept`
  abbrev pub exceeds : Option Json → Option Json → Bool
  exceeds (some review) (some accept) =
      is_number review && is_number accept && not (at_most review accept)
  exceeds _ _ = false

  abbrev pub on_review_ok : Json → Bool
  on_review_ok (obj fields) = elim (lookup "sla_hours" (object_of fields)) [
    | none ↦ true
    | some sla ↦ is_number sla && not (at_most sla (num 0))
  ]
  on_review_ok _ = false

  unfoldable pub validate_extraction_step_config : String → RawMessage → Result DraftError Unit
  validate_extraction_step_config id raw = with_config id raw λ cfg. do
    check_field id in_unit_range cfg "auto_accept_threshold"
    check_field id in_unit_range cfg "review_threshold"
    require (not (exceeds (lookup "review_threshold" cfg) (lookup "auto_accept_threshold" cfg)))
        (bad_field id "review_threshold")
    check_field id on_review_ok cfg "on_review"
    check_field id is_object cfg "on_reject"

  abbrev pub validate_typed_config : Option StepType → WorkflowStep → Result DraftError Unit
  validate_typed_config (some agent) step = validate_agent_step_config step.id step.config
  validate_typed_config (some ai_component) step =
      validate_ai_component_step_config step.id step.config
  validate_typed_config (some extraction) step = validate_extraction_step_config step.id step.config
  validate_typed_config _ step = ok tt

  -- The body of the loop over the steps.
  unfoldable pub validate_step : Map WorkflowStep → WorkflowStep → Result DraftError Unit
  validate_step ids step = do
    validate_outcome_targets ids step.id step.outcomes
    validate_step_required_config step
    validate_step_expressions step
    validate_typed_config (step_type_of (trim_space step.type)) step

  unfoldable pub validate_steps : Map WorkflowStep → List WorkflowStep → Result DraftError Unit
  validate_steps ids [] = ok tt
  validate_steps ids (step ∷ rest) = validate_step ids step >> validate_steps ids rest

  -- `decoded` is the outcome of json.Unmarshal.
  unfoldable pub validate_workflow_ast : Option WorkflowAst → Result DraftError Unit
  validate_workflow_ast none = err not_decoded
  validate_workflow_ast (some ast) = elim (validate_ast ast) [
    | err e ↦ err (invalid_graph e)
    | ok _ ↦ validate_steps (step_map ast) ast.steps
  ]
