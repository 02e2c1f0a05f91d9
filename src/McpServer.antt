-- ===== src/McpServer.antt =====
-- internal/mcpserver: the tools that a connection sees and calls (visibility.go, ratelimit.go and
-- the method handleRPC of handler.go).
pub mod Visible
pub mod Calls
pub mod Keys
pub mod Serve
mod Tests
use aceryx.Prelude.{
  ℕ, String, Bool, true, false, not, ◌&&◌, ◌||◌, Option, none, some, List, [], ◌∷◌, any, is_empty,
  contains, filter, map, ◌==◌, if◌then◌else◌,
}
use aceryx.Prelude.Map.{Map, lookup}
use aceryx.Prelude.Int.{ℤ, not_positive}
use aceryx.Prelude.Text.{trim_space}
use aceryx.Engine.Results.{split_once}
use aceryx.Tasks.Sla.{text_less}
use Prim.Native.String

pub record Connection : Type 0 where
  pub tenant_id : String
  pub roles : List String

pub record Tool : Type 0 where
  pub name : String
  pub required_permission : String

-- `rag_enabled` is the checker of tenant features, where there is one.
pub record Handler : Type 0 where
  pub tools : Map Tool
  pub enabled_tools : List String
  pub disabled_tools : List String
  pub tool_limits : Map ℤ
  pub rag_enabled : Option (String → Bool)

-- toSet
unfoldable pub to_set : List String → List String
to_set [] = []
to_set (item ∷ rest) =
    let later = to_set rest in if trim_space item == "" then later else trim_space item ∷ later

unfoldable pub is_tool_disabled : Handler → String → Bool
is_tool_disabled h given =
    let name = trim_space given in
    if name == ""
    then true
    else if contains (to_set h.disabled_tools) name
    then true
    else if is_empty h.enabled_tools
    then false
    else not (contains (to_set h.enabled_tools) name)

abbrev pub checked_feature : Option (String → Bool) → String → Bool
checked_feature none tenant = true
checked_feature (some enabled) tenant = enabled tenant

unfoldable pub is_tenant_feature_enabled : Handler → Connection → String → Bool
is_tenant_feature_enabled h conn tool_name =
    if not (trim_space tool_name == "search_knowledge_base")
    then true
    else checked_feature h.rag_enabled conn.tenant_id

-- `idx > 0` and role == prefix + ":*"
abbrev pub grants_prefix : Option (String × String) → String → Bool
grants_prefix none role = false
grants_prefix (some (prefix, rest)) role = not (prefix == "") && role == String.◌++◌ prefix ":*"

unfoldable pub grants : String → String → Bool
grants permission given =
    let role = trim_space given in
    role == "*" || role == permission || grants_prefix (split_once b':' permission) role

unfoldable pub has_permission : Option Connection → String → Bool
has_permission none permission = false
has_permission (some conn) permission =
    let wanted = trim_space permission in
    if wanted == "" then true else any (grants wanted) conn.roles

abbrev pub sees : Handler → Option Connection → Tool → Bool
sees h none tool = false
sees h (some conn) tool =
    not (is_tool_disabled h tool.name)
    && has_permission (some conn) tool.required_permission
    && is_tenant_feature_enabled h conn tool.name

unfoldable pub insert_by_name : Tool → List Tool → List Tool
insert_by_name tool [] = tool ∷ []
insert_by_name tool (other ∷ rest) =
    let later = insert_by_name tool rest in
    if text_less other.name tool.name then other ∷ later else tool ∷ other ∷ rest

-- sort.Slice
unfoldable pub sort_by_name : List Tool → List Tool
sort_by_name [] = []
sort_by_name (tool ∷ rest) = insert_by_name tool (sort_by_name rest)

-- A tool whose name is disabled is passed over before the connection is looked at.
unfoldable pub visible_tools : Handler → Option Connection → List Tool
visible_tools h conn = sort_by_name (filter (sees h conn) (map (λ entry. entry.1) h.tools))

-- Allow, where `key_allows` and `tool_allows` are what the two limiters of the library answer.
unfoldable pub allow : Handler → Bool → Bool → String → Bool
allow h key_allows tool_allows name =
    if not key_allows then false else elim (lookup name h.tool_limits) [
      | none ↦ true
      | some limit ↦ if not_positive limit then true else tool_allows
    ]

pub data RpcCode : Type 0 where
  invalid_request method_not_found invalid_params internal_error rate_limited : RpcCode

pub data Response : Type 0 where
  listed : List Tool → Response
  called : Tool → Response
  rpc_error : RpcCode → Response

pub data Request : Type 0 where
  tools_list other_method : Request
  -- the name of the tool, where the parameters were decoded
  tools_call : Option String → Request

-- How the execution of a tool ended: with a result that is JSON, with one that is not, or failed.
pub data Execution : Type 0 where
  success unmarshalled failure : Execution

-- A response, and the statuses that the audit log gets, where there is one.
abbrev pub Answer : Type 0
Answer = Response × List String

abbrev pub executed : Execution → Tool → Answer
executed success tool = (called tool, "success" ∷ [])
executed unmarshalled tool = (rpc_error internal_error, "success" ∷ [])
executed failure tool = (rpc_error internal_error, "error" ∷ [])

-- logInvocation
abbrev pub invoked : Option Connection → Answer → Answer
invoked none answer = (answer.0, [])
invoked (some conn) answer = answer

unfoldable pub call_tool :
    Handler → Option Connection → Bool → Bool → (Tool → Execution) → String → Answer
call_tool h conn key_allows tool_allows execute name =
    if name == "" then (rpc_error invalid_params, []) else elim (lookup name h.tools) [
      | none ↦ (rpc_error method_not_found, [])
      | some tool ↦
          if is_tool_disabled h name
          then (rpc_error method_not_found, [])
          else if not (has_permission conn tool.required_permission)
          then invoked conn (rpc_error invalid_request, "permission_denied" ∷ [])
          else if not (allow h key_allows tool_allows name)
          then invoked conn (rpc_error rate_limited, "rate_limited" ∷ [])
          else invoked conn (executed (execute tool) tool)
    ]

unfoldable pub handle_rpc :
    Handler → Option Connection → Bool → Bool → (Tool → Execution) → Request → Answer
handle_rpc h conn key_allows tool_allows execute tools_list = (listed (visible_tools h conn), [])
handle_rpc h conn key_allows tool_allows execute (tools_call none) = (rpc_error invalid_params, [])
handle_rpc h conn key_allows tool_allows execute (tools_call (some name)) =
    call_tool h conn key_allows tool_allows execute name
handle_rpc h conn key_allows tool_allows execute other_method = (rpc_error method_not_found, [])
