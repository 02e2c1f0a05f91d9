-- ===== src/Workflows/Config.antt =====
-- internal/workflows: the configuration of a step, as validation.go decodes and reads it.
use aceryx.Prelude.{String, Bool, true, false, not, Option, none, some, [], ◌==◌, if◌then◌else◌}
use aceryx.Prelude.Map.{Map, lookup, insert}
use aceryx.Prelude.Text.{trim_space}
use aceryx.Json.{
  Json, Fields, RawMessage, empty, malformed, document, end, field, null, str, arr, obj,
}

-- A JSON object decoded into a map[string]any: of members with one name the last counts.
unfoldable pub object_from : Map Json → Fields → Map Json
object_from m end = m
object_from m (field name value rest) = object_from (insert name value m) rest

abbrev pub object_of : Fields → Map Json
object_of fields = object_from [] fields

-- The error is that of json.Unmarshal, but for a number that is beyond float64, which is an error there
-- and a value here.
unfoldable pub decode_step_config : RawMessage → Option (Map Json)
decode_step_config empty = some []
decode_step_config malformed = none
decode_step_config (document null) = some []
decode_step_config (document (obj fields)) = some (object_of fields)
decode_step_config (document _) = none

abbrev pub is_some {ℓ} : {A : Type ℓ} → Option A → Bool
is_some none = false
is_some (some a) = true

abbrev pub is_blank : String → Bool
is_blank s = trim_space s == ""

unfoldable pub has_key : Map Json → String → Bool
has_key cfg key = is_some (lookup key cfg)

-- strings.TrimSpace(fmt.Sprint(v)) != "": no value but a text is printed as blank, and null is
-- printed as "<nil>".
abbrev pub prints_text : Json → Bool
prints_text (str s) = not (is_blank s)
prints_text _ = true

unfoldable pub has_string_value : Map Json → String → Bool
has_string_value cfg key = elim (lookup key cfg) [ none ↦ false | some v ↦ prints_text v ]

-- v, ok := m[key].(map[string]any)
abbrev pub is_object : Json → Bool
is_object (obj fields) = true
is_object _ = false

abbrev pub is_array : Json → Bool
is_array (arr items) = true
is_array _ = false

abbrev pub has_object : Map Json → String → Bool
has_object cfg key = elim (lookup key cfg) [ none ↦ false | some v ↦ is_object v ]

-- The cases of the switches on a step's type, after strings.TrimSpace.
pub data StepType : Type 0 where
  human_task agent ai_component extraction integration rule timer notification : StepType

unfoldable pub step_type_of : String → Option StepType
step_type_of t =
    if t == "human_task"
    then some human_task
    else if t == "agent"
    then some agent
    else if t == "ai_component"
    then some ai_component
    else if t == "extraction"
    then some extraction
    else if t == "integration"
    then some integration
    else if t == "rule"
    then some rule
    else if t == "timer"
    then some timer
    else if t == "notification"
    then some notification
    else none

unfoldable pub is_supported_step_type : String → Bool
is_supported_step_type t = is_some (step_type_of (trim_space t))
