-- ===== src/Reports/Tests.antt =====
-- internal/reports/validator.go, on the trees of two queries.
use aceryx.Prelude.{String, ok, err, ◌≡◌, refl, ◌↔◌}
use aceryx.Prelude.Text.{trim_space, trim_left, trim_right}
use aceryx.Json.{Json, str, obj, arr, nil, cons, end, field, lower_codes}
use aceryx.Workflows.Draft.{starts_with}
use aceryx.Tasks.Forms.{same_codes}
use aceryx.CaseData.{get}
use aceryx.Reports.{
  new_sql_inspector, is_blocked_statement_node, fold_codes, contains_string, check_range,
  check_call, check_member, extract_func_name, last_item, has_function, validate_node,
  validate_fields, validate_items, disallowed_statement,
}
use aceryx.Reports.Inspected.{InTree, IsAllowed, validate_node_iff}

-- SELECT count(...) FROM mv_report_cases, in the parts that are looked at.
abbrev query : Json
query = obj (
    field "SelectStmt"
      (obj (
        field "from"
          (arr (
            cons (obj (field "RangeVar" (obj (field "relname" (str "mv_report_cases") end)) end))
              nil))
          (field "FuncCall"
            (obj (
              field "funcname"
                (arr (cons (obj (field "String" (obj (field "sval" (str "count") end)) end)) nil))
                end))
            end)))
      end)

validate_node_iff_example :
    (validate_node new_sql_inspector query ≡ ok tt)
    ↔ ((k : String) (v : Json) → InTree k v query → IsAllowed new_sql_inspector k v)
validate_node_iff_example = validate_node_iff new_sql_inspector query

query_passes : validate_node new_sql_inspector query ≡ ok tt
unfolding validate_node validate_fields validate_items check_member check_range check_call
    extract_func_name last_item has_function is_blocked_statement_node contains_string fold_codes
    lower_codes starts_with same_codes get trim_space trim_left trim_right
query_passes = refl

deletion_fails :
    validate_node new_sql_inspector (obj (field "DeleteStmt" (obj end) end))
    ≡ err disallowed_statement
unfolding validate_node validate_fields check_member is_blocked_statement_node
deletion_fails = refl
