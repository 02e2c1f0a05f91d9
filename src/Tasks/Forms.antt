-- ===== src/Tasks/Forms.antt =====
-- internal/tasks/task_forms.go: what is checked of the data of a form, and the patch of the case's
-- decision that is made of it. The texts of the errors are left out.

pub mod Checked
use aceryx.Prelude.{
  ℕ, suc, ◌+◌, String, Bool, true, false, not, ◌&&◌, ◌||◌, Option, none, some, List, [], ◌∷◌, ◌++◌,
  is_empty, length, contains, ltb, nat_eq, ◌==◌, if◌then◌else◌,
}
use aceryx.Prelude.Int.{ℤ, pos, ltb_ℤ}
use aceryx.Prelude.Text.{trim_space}
use aceryx.Json.{
  Json, null, bool, num, decimal, str, arr, obj, Items, nil, cons, Fields, end, lower_codes,
}
use aceryx.Workflows.Config.{is_blank, is_object, is_some}
use aceryx.Workflows.Draft.{is_number, is_nil, starts_with}
use aceryx.CaseData.{get}
use aceryx.Tasks.Paths.{get_at_path, set_at_path}
use Prim.Native.Char.{code}

-- Min and Max are numbers.
pub record FormField : Type 0 where
  pub id : String
  pub bind : String
  pub type : String
  pub required : Bool
  pub min_length : Option ℤ
  pub max_length : Option ℤ
  pub min : Option Json
  pub max : Option Json

pub record FormSection : Type 0 where
  pub section : String
  pub fields : List FormField

pub record FormAction : Type 0 where
  pub label : String
  pub value : String
  pub requires : List String

pub record FormSchema : Type 0 where
  pub title : String
  pub layout : List FormSection
  pub actions : List FormAction
  pub fields : List FormField

pub data FormCode : Type 0 where
  required_code min_length_code max_length_code type_code min_code max_code required_for_action :
      FormCode

pub record ValidationError : Type 0 where
  pub field : String
  pub code : FormCode

-- The rest of a text after a prefix that it has.
unfoldable pub after_prefix : String → String → Option String
after_prefix String.[] s = some s
after_prefix (String.◌∷◌ p prefix) String.[] = none
after_prefix (String.◌∷◌ p prefix) (String.◌∷◌ c s) =
    let rest = after_prefix prefix s in if nat_eq (code p) (code c) then rest else none

-- strings.TrimPrefix(s, "decision.")
abbrev pub trim_decision : String → String
trim_decision s = elim (after_prefix "decision." s) [ none ↦ s | some rest ↦ rest ]

abbrev pub has_form_schema_content : FormSchema → Bool
has_form_schema_content schema =
    not (is_blank schema.title)
    || not (is_empty schema.actions)
    || not (is_empty schema.layout)
    || not (is_empty schema.fields)

unfoldable pub layout_fields : List FormSection → List FormField
layout_fields [] = []
layout_fields (section ∷ rest) = section.fields ++ layout_fields rest

unfoldable pub flatten_form_fields : FormSchema → List FormField
flatten_form_fields schema = schema.fields ++ layout_fields schema.layout

unfoldable pub form_field_data_path : FormField → String
form_field_data_path field =
    if not (is_blank field.id) then trim_space field.id else trim_decision (trim_space field.bind)

-- isEmptyValue of a value that was decoded from JSON.
unfoldable pub is_empty_value : Json → Bool
is_empty_value null = true
is_empty_value (str s) = is_blank s
is_empty_value (arr items) = is_nil items
is_empty_value _ = false

-- The number of bytes that a character has in UTF-8, and len(s).
abbrev pub rune_len : ℕ → ℕ
rune_len c = if ltb c 0x80 then 1 else if ltb c 0x800 then 2 else if ltb c 0x10000 then 3 else 4

unfoldable pub byte_length : String → ℕ
byte_length String.[] = 0
byte_length (String.◌∷◌ c s) = rune_len (code c) + byte_length s

abbrev pub reports : Bool → String → FormCode → List ValidationError
reports holds key c = if holds then record { field = key; code = c } ∷ [] else []

-- `field.MinLength != nil && len(s) < *field.MinLength`, and the three tests like it
abbrev pub is_shorter : ℕ → Option ℤ → Bool
is_shorter n none = false
is_shorter n (some least) = ltb_ℤ (pos n) least

abbrev pub is_longer : ℕ → Option ℤ → Bool
is_longer n none = false
is_longer n (some most) = ltb_ℤ most (pos n)

unfoldable pub length_errors : FormField → String → Json → List ValidationError
length_errors field key (str s) =
    reports (is_shorter (byte_length s) field.min_length) key min_length_code
    ++ reports (is_longer (byte_length s) field.max_length) key max_length_code
length_errors field key _ = []

pub data FieldKind : Type 0 where
  string_kind number_kind integer_kind boolean_kind object_kind other_kind : FieldKind

unfoldable pub same_codes : List ℕ → List ℕ → Bool
same_codes [] [] = true
same_codes (x ∷ xs) (y ∷ ys) = nat_eq x y && same_codes xs ys
same_codes _ _ = false

abbrev pub is_type : String → String → Bool
is_type word type = same_codes (lower_codes type) (lower_codes word)

-- The cases of `switch strings.ToLower(field.Type)`.
unfoldable pub kind_of : String → FieldKind
kind_of type =
    if is_type "string" type
    then string_kind
    else if is_type "number" type
    then number_kind
    else if is_type "integer" type
    then integer_kind
    else if is_type "boolean" type
    then boolean_kind
    else if is_type "object" type
    then object_kind
    else other_kind

abbrev pub is_string : Json → Bool
is_string (str s) = true
is_string _ = false

abbrev pub is_boolean : Json → Bool
is_boolean (bool b) = true
is_boolean _ = false

-- `at_most` is the order of the float64 of two numbers; `is_integral` tells whether that of a number
-- is its own conversion to int64 and back.
module _ (at_most : Json → Json → Bool) (is_integral : Json → Bool) where
  abbrev pub is_below : Json → Option Json → Bool
  is_below v none = false
  is_below v (some least) = not (at_most least v)

  abbrev pub is_above : Json → Option Json → Bool
  is_above v none = false
  is_above v (some most) = not (at_most v most)

  -- The type that a value has to have, and its range where it is a number.
  abbrev pub range_errors : FormField → String → Json → List ValidationError
  range_errors field key v =
      reports (is_below v field.min) key min_code ++ reports (is_above v field.max) key max_code

  unfoldable pub type_errors : FieldKind → FormField → String → Json → List ValidationError
  type_errors string_kind field key v = reports (not (is_string v)) key type_code
  type_errors number_kind field key v =
      if not (is_number v) then reports true key type_code else range_errors field key v
  type_errors integer_kind field key v =
      if not (is_number v) || not (is_integral v)
      then reports true key type_code
      else range_errors field key v
  type_errors boolean_kind field key v = reports (not (is_boolean v)) key type_code
  type_errors object_kind field key v = reports (not (is_object v)) key type_code
  type_errors other_kind field key v = []

  -- The body of the loop of ValidateFormData, of a field with its key.
  abbrev pub value_errors : FormField → String → Option Json → List ValidationError
  value_errors field key none = reports field.required key required_code
  value_errors field key (some v) =
      if field.required && is_empty_value v
      then reports true key required_code
      else length_errors field key v ++ type_errors (kind_of field.type) field key v

  unfoldable pub field_errors : Fields → FormField → List ValidationError
  field_errors values field =
      let key = form_field_data_path field in
      if key == "" then [] else value_errors field key (get_at_path values key)

  unfoldable pub each_field : Fields → List FormField → List ValidationError
  each_field values [] = []
  each_field values (field ∷ rest) = field_errors values field ++ each_field values rest

  unfoldable pub validate_form_data : FormSchema → Fields → List ValidationError
  validate_form_data schema values = each_field values (flatten_form_fields schema)

abbrev pub lacks_value : Option Json → Bool
lacks_value none = true
lacks_value (some v) = is_empty_value v

unfoldable pub requirement_errors : Fields → List String → List ValidationError
requirement_errors values [] = []
requirement_errors values (required ∷ rest) =
    let path = trim_decision (trim_space required) in
    reports (not (path == "") && lacks_value (get_at_path values path)) path required_for_action
    ++ requirement_errors values rest

-- The first action whose value is the outcome.
unfoldable pub action_for : String → List FormAction → Option FormAction
action_for outcome [] = none
action_for outcome (action ∷ rest) =
    if action.value == outcome then some action else action_for outcome rest

unfoldable pub validate_action_requirements : FormSchema → String → Fields → List ValidationError
validate_action_requirements schema outcome values =
    if is_blank outcome then [] else elim (action_for outcome schema.actions) [
      | none ↦ []
      | some action ↦ requirement_errors values action.requires
    ]

-- One field of buildDecisionPatch: what it writes to the patch.
abbrev pub read_path : FormField → String → String
read_path field write_path =
    if form_field_data_path field == "" then write_path else form_field_data_path field

abbrev pub write_value : Fields → String → Option Json → Fields
write_value out path none = out
write_value out path (some v) = set_at_path out path v

abbrev pub patch_field : Fields → Fields → FormField → Fields
patch_field values out field = elim (after_prefix "decision." field.bind) [
  | none ↦ out
  | some write_path ↦
      if write_path == ""
      then out
      else write_value out write_path (get_at_path values (read_path field write_path))
]

unfoldable pub patch_fields : Fields → Fields → List FormField → Fields
patch_fields values out [] = out
patch_fields values out (field ∷ rest) = patch_fields values (patch_field values out field) rest

unfoldable pub build_decision_patch : FormSchema → Fields → Fields
build_decision_patch schema values = patch_fields values end (flatten_form_fields schema)

unfoldable pub texts_of : Items → List String
texts_of nil = []
texts_of (cons (str s) rest) = let later = texts_of rest in if is_blank s then later else s ∷ later
texts_of (cons _ rest) = texts_of rest

unfoldable pub configured_outcomes : Fields → List String
configured_outcomes metadata = elim (get "outcomes" metadata) [
  | some (arr items) ↦ texts_of items
  | _ ↦ []
]

abbrev pub object_at : String → Option Json → Option Fields
object_at key (some (obj fields)) = elim (get key fields) [
  | some (obj inner) ↦ some inner
  | _ ↦ none
]
object_at key _ = none

unfoldable pub extract_agent_original_output : Fields → Fields
extract_agent_original_output metadata =
    elim (object_at "original_output" (get "agent_review" metadata)) [ none ↦ end | some o ↦ o ]
