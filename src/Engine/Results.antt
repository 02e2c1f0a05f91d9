-- ===== src/Engine/Results.antt =====
-- The result of a step: the JSON document that completeStep stores of it (internal/engine/
-- step_terminal.go), and the names of its audit event.
use aceryx.Prelude.{
  ℕ, String, true, false, not, ◌&&◌, Option, none, some, Result, ok, err, ◌>>=◌, nat_eq, ◌==◌,
  if◌then◌else◌,
}
use aceryx.Json.{
  Json, bool, num, str, obj, Fields, end, field, RawMessage, empty, malformed, document,
}
use aceryx.Engine.Types.{StepResult}
use Prim.Native.Char.{code}
use aceryx.Engine.Store.{StoreError, bad_json}

-- A member that is left out when its value is empty (`omitempty`).
abbrev pub text_member : String → String → Fields → Fields
text_member name value rest = if value == "" then rest else field name (str value) rest

abbrev pub raw_member : String → RawMessage → Result StoreError Fields → Result StoreError Fields
raw_member name empty rest = rest
raw_member name malformed rest = err bad_json
raw_member name (document value) rest = rest >>= λ fields. ok (field name value fields)

-- The members of a StepResult from the last to the second.
abbrev pub audit_members : StepResult → Fields
audit_members r =
    text_member "audit_event_type" r.audit_event_type
      (if nat_eq r.attempts 0 then end else field "attempts" (num r.attempts) end)

abbrev pub patch_members : StepResult → Result StoreError Fields
patch_members r =
    raw_member "case_data_patch" r.case_data_patch
      (raw_member "execution_event" r.execution_event (ok (audit_members r)))

abbrev pub write_members : StepResult → Result StoreError Fields
write_members r = patch_members r >>= λ patch.
    ok (if r.writes_case_data then field "writes_case_data" (bool true) patch else patch)

-- json.Marshal of a StepResult: a message in it that is not JSON makes it fail.
unfoldable pub marshal_result : StepResult → Result StoreError Json
marshal_result r = do
  after_outcome ← raw_member "output" r.output (write_members r)
  ok (obj (text_member "outcome" r.outcome after_outcome))

-- strings.SplitN(s, sep, 2) at a separator of one byte, where it occurs.
unfoldable pub split_once : ℕ → String → Option (String × String)
split_once sep String.[] = none
split_once sep (String.◌∷◌ c rest) =
    if nat_eq (code c) sep then some ("", rest) else elim (split_once sep rest) [
      | none ↦ none
      | some (before, after) ↦ some (String.◌∷◌ c before, after)
    ]

-- The pair of eventType and action that one separator of AuditEventType gives, if it gives one.
abbrev pub both_parts : Option (String × String) → Option (String × String)
both_parts none = none
both_parts (some (before, after)) =
    if not (before == "") && not (after == "") then some (before, after) else none

unfoldable pub audit_names : String → String × String
audit_names audit_event_type =
    if audit_event_type == ""
    then ("step", "completed")
    else elim (both_parts (split_once b'.' audit_event_type)) [
      | some names ↦ names
      | none ↦ elim (both_parts (split_once b'/' audit_event_type)) [
        | some names ↦ names
        | none ↦ elim (split_once b'.' audit_event_type) [
          | some _ ↦ ("step", "completed")
          | none ↦ elim (split_once b'/' audit_event_type) [
            | some _ ↦ ("step", "completed")
            | none ↦ (audit_event_type, "completed")
          ]
        ]
      ]
    ]

abbrev pub zero_result : StepResult
zero_result = record {
  outcome = "";
  output = empty;
  writes_case_data = false;
  case_data_patch = empty;
  execution_event = empty;
  audit_event_type = "";
  attempts = 0;
}

abbrev pub or_zero : Option StepResult → StepResult
or_zero none = zero_result
or_zero (some r) = r
