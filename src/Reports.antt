-- ===== src/Reports.antt =====
-- internal/reports/validator.go: the SQL of a report, which a language model wrote, is checked on
-- its parse tree before it is run.
pub mod Inspected
mod Tests
use aceryx.Prelude.{
  map, ℕ, String, Bool, true, false, not, ◌&&◌, ◌||◌, Option, none, some, List, [], ◌∷◌, Result, ok,
  err, ◌>>=◌, ◌>>◌, require, any, contains, length, nat_eq, ◌==◌, if◌then◌else◌,
}
use aceryx.Prelude.Text.{trim_space}
use aceryx.Json.{
  Json, null, str, arr, obj, Items, nil, cons, Fields, end, field, RawMessage, document,
  lower_codes, lower_rune,
}
use aceryx.Workflows.Draft.{starts_with}
use aceryx.Tasks.Forms.{same_codes}
use aceryx.CaseData.{get}
use Prim.Native.Char.{code}
use Prim.Native.String

pub data SqlError : Type 0 where
  sql_required unparseable not_one_statement no_statement not_select undecodable : SqlError
  disallowed_statement schema_qualified system_catalog : SqlError
  unapproved_view unapproved_function : String → SqlError

-- The functions are in lower case, and the views in ASCII and lower case.
pub record SqlInspector : Type 0 where
  pub views : List String
  pub functions : List String

abbrev pub new_sql_inspector : SqlInspector
new_sql_inspector = record {
  views = "mv_report_cases" ∷ "mv_report_steps" ∷ "mv_report_tasks" ∷ [];
  functions =
      "count" ∷ "sum" ∷ "avg" ∷ "min" ∷ "max" ∷ "extract" ∷ "date_trunc" ∷ "coalesce" ∷ "round"
      ∷ [];
}

abbrev pub blocked_statements : List String
blocked_statements =
    "InsertStmt" ∷ "UpdateStmt" ∷ "DeleteStmt" ∷ "MergeStmt" ∷ "CreateStmt" ∷ "CreateTableAsStmt"
    ∷ "CreateFunctionStmt" ∷ "CreateRoleStmt" ∷ "AlterTableStmt" ∷ "DropStmt" ∷ "GrantStmt"
    ∷ "GrantRoleStmt" ∷ "RevokeStmt" ∷ "TruncateStmt" ∷ "IndexStmt" ∷ "VacuumStmt" ∷ []

unfoldable pub is_blocked_statement_node : String → Bool
is_blocked_statement_node name = contains blocked_statements name

-- strings.EqualFold with an ASCII text: besides the capital letters, the long s folds to s.
abbrev pub fold_rune : ℕ → ℕ
fold_rune c = if nat_eq c 0x17F then b's' else if nat_eq c 0x130 then c else lower_rune c

unfoldable pub fold_codes : String → List ℕ
fold_codes String.[] = []
fold_codes (String.◌∷◌ c s) = fold_rune (code c) ∷ fold_codes s

-- containsString, on the code points of the value.
unfoldable pub contains_string : List String → List ℕ → Bool
contains_string [] value = false
contains_string (v ∷ rest) value =
    same_codes (fold_codes v) (map fold_rune value) || contains_string rest value

-- `s, _ := m[key].(string)`, trimmed; it is put in lower case where it is compared.
abbrev pub text_or_empty : Option Json → String
text_or_empty (some (str s)) = s
text_or_empty _ = ""

abbrev pub trimmed_text : String → Fields → String
trimmed_text key m = trim_space (text_or_empty (get key m))

-- The case of the key RangeVar: a table or view that is read.
unfoldable pub check_range : SqlInspector → Json → Result SqlError Unit
check_range i (obj mv) = do
  require (trimmed_text "schemaname" mv == "") schema_qualified
  require (not (starts_with (lower_codes (trimmed_text "relname" mv)) (lower_codes "pg_")))
      system_catalog
  require (contains_string i.views (lower_codes (trimmed_text "relname" mv)))
      (unapproved_view (trimmed_text "relname" mv))
check_range i _ = ok tt

unfoldable pub last_item : Items → Option Json
last_item nil = none
last_item (cons v nil) = some v
last_item (cons v (cons w rest)) = last_item (cons w rest)

abbrev pub name_in_string : Option Json → String
name_in_string (some (obj string_node)) = trimmed_text "sval" string_node
name_in_string _ = ""

abbrev pub name_in_node : Option Json → String
name_in_node (some (obj node)) = name_in_string (get "String" node)
name_in_node _ = ""

abbrev pub name_in_list : Option Json → String
name_in_list (some (arr raw)) = name_in_node (last_item raw)
name_in_list _ = ""

unfoldable pub extract_func_name : Fields → String
extract_func_name call = name_in_list (get "funcname" call)

-- A key of the map of functions, against a name in lower case.
unfoldable pub has_function : List String → String → Bool
has_function [] name = false
has_function (f ∷ rest) name =
    same_codes (lower_codes f) (lower_codes name) || has_function rest name

-- The case of the key FuncCall.
unfoldable pub check_call : SqlInspector → Json → Result SqlError Unit
check_call i (obj mv) =
    let name = extract_func_name mv in
    require (name == "" || has_function i.functions name) (unapproved_function name)
check_call i _ = ok tt

abbrev pub when_key : Bool → Result SqlError Unit → Result SqlError Unit
when_key holds check = if holds then check else ok tt

-- The checks of one member of an object.
unfoldable pub check_member : SqlInspector → String → Json → Result SqlError Unit
check_member i key child = do
  require (not (is_blocked_statement_node key)) disallowed_statement
  when_key (key == "RangeVar") (check_range i child)
  when_key (key == "FuncCall") (check_call i child)

-- The tree of the parser has each key of an object once. Which of two errors is reported first is
-- left open by Go.
unfoldable mutual
  pub validate_node : SqlInspector → Json → Result SqlError Unit
  validate_node i (obj fields) = validate_fields i fields
  validate_node i (arr items) = validate_items i items
  validate_node i _ = ok tt

  pub validate_fields : SqlInspector → Fields → Result SqlError Unit
  validate_fields i end = ok tt
  validate_fields i (field key child rest) =
      check_member i key child >> (validate_node i child >> validate_fields i rest)

  pub validate_items : SqlInspector → Items → Result SqlError Unit
  validate_items i nil = ok tt
  validate_items i (cons item rest) = validate_node i item >> validate_items i rest

-- The node of a statement that the parser gives.
pub data Statement : Type 0 where
  no_node select_node other_node : Statement

-- The parser, a library: `parse` gives the statements, and `parse_to_json` the tree.
module _ (parse : String → Option (List Statement))
    (parse_to_json : String → Option RawMessage) where
  abbrev pub check_statements : List Statement → Result SqlError Unit
  check_statements (no_node ∷ []) = err no_statement
  check_statements (select_node ∷ []) = ok tt
  check_statements (other_node ∷ []) = err not_select
  check_statements _ = err not_one_statement

  abbrev pub check_tree : SqlInspector → Option RawMessage → Result SqlError Unit
  check_tree i none = err unparseable
  check_tree i (some (document (obj fields))) = validate_node i (obj fields)
  check_tree i (some (document null)) = ok tt
  check_tree i (some _) = err undecodable

  abbrev pub check_parsed : Option (List Statement) → Result SqlError Unit
  check_parsed none = err unparseable
  check_parsed (some statements) = check_statements statements

  unfoldable pub validate : SqlInspector → String → Result SqlError Unit
  validate i sql_text = do
    let sql = trim_space sql_text
    require (not (sql == "")) sql_required
    check_parsed (parse sql)
    check_tree i (parse_to_json sql)

  -- `SELECT * FROM public.v WHERE tenant_id = $1` under the name of each view, and the report.
  unfoldable pub common_tables : List String → String → String
  common_tables [] sql_text = String.◌++◌ "__acx_report AS (" (String.◌++◌ sql_text ")")
  common_tables (given ∷ rest) sql_text =
      let view = trim_space given in
      String.◌++◌ view (
        String.◌++◌ " AS (SELECT * FROM public."
          (String.◌++◌ view (String.◌++◌ " WHERE tenant_id = $1), " (common_tables rest sql_text))))

  -- ScopeToTenant, which puts the text in as it was given.
  unfoldable pub scope_to_tenant : SqlInspector → String → Result SqlError String
  scope_to_tenant i sql_text = do
    validate i sql_text
    ok (
        String.◌++◌ "WITH "
          (String.◌++◌ (common_tables i.views sql_text) " SELECT * FROM __acx_report LIMIT $2"))
