-- ===== src/McpServer/Serve/Tests.antt =====
-- internal/mcpserver, on two keys and one tool.
use aceryx.Prelude.{
  ℕ, ◌≤◌, String, Bool, true, false, if◌then◌else◌, Option, none, some, List, [], ◌∷◌, fold, ◌==◌,
  ◌≡◌, refl, ◌⊎◌, arith,
}
use aceryx.Prelude.Map.{lookup}
use aceryx.Prelude.Int.{pos}
use aceryx.McpServer.{
  Tool, Handler, Execution, success, tools_call, called, Answer, handle_rpc, call_tool,
  is_tool_disabled, has_permission, grants, allow, to_set,
}
use aceryx.McpServer.Keys.{
  ApiKeyRecord, KeyTable, KeyOperation, creates, authenticates, operate, revoke, is_key_of,
  authenticate, presented_key, validate_key, create,
}
use aceryx.McpServer.Keys.Revoked.{revoked_stays}
use aceryx.McpServer.Serve.{
  valid, HttpRequest, ServerConfig, CallContext, answered, context_of, serve_http, apply_timeout,
}
use aceryx.McpServer.Serve.Guarded.{IsServed, NoTimeLeft, serve_http-IsServed, apply_timeout_bounds}

abbrev key_of : String → String → ApiKeyRecord
key_of id hash = record {
  id = id;
  tenant_id = "t";
  user_id = "u";
  name = id;
  key_hash = hash;
  roles = "*" ∷ [];
  enabled = true;
  last_used_at = none;
}

abbrev table : KeyTable
table = key_of "k1" "s1" ∷ key_of "k2" "s2" ∷ []

abbrev headers : String → String
headers name = if name == "X-API-Key" then "s2" else ""

abbrev matches : String → String → Bool
matches hash key = hash == key

abbrev operations : List KeyOperation
operations = authenticates 3 "" "X-API-Key" headers ∷ creates (key_of "k3" "s3") ∷ []

abbrev used : ApiKeyRecord
used = record (key_of "k2" "s2") { last_used_at = some 3 }

still_authentic :
    (authenticate matches 4 "" "X-API-Key" headers
      (fold (operate matches) (revoke "t" "k1" table).1 operations)).0
    ≡ some used
unfolding authenticate operate revoke presented_key validate_key create
    aceryx.Tasks.Forms.same_codes aceryx.Json.lower_codes aceryx.Prelude.Text.trim_space
    aceryx.Prelude.Text.trim_right aceryx.Prelude.Text.trim_left
still_authentic = refl

revoked_stays_example : is_key_of "t" "k1" used ≡ false
revoked_stays_example =
    revoked_stays matches "t" "k1" table operations 4 "" "X-API-Key" headers used (tt, (refl, tt))
      still_authentic

abbrev create_case : Tool
create_case = record { name = "create_case"; required_permission = "cases:create" }

abbrev handler : Handler
handler = record {
  tools = ("create_case", create_case) ∷ [];
  enabled_tools = [];
  disabled_tools = [];
  tool_limits = [];
  rag_enabled = none;
}

abbrev config : ServerConfig
config = record { auth_type = ""; auth_header = ""; max_depth = pos 0; max_request_timeout = pos 0 }

abbrev request : HttpRequest
request = record {
  is_post = true;
  header = headers;
  is_loopback = false;
  remaining = none;
  body = valid (tools_call (some "create_case"));
}

abbrev yes : ApiKeyRecord → Bool
yes row = true

abbrev succeeding : CallContext → ApiKeyRecord → Tool → Execution
succeeding context row tool = success

abbrev ran : Answer
ran = (called create_case, "success" ∷ [])

serves :
    (serve_http matches yes yes succeeding handler config 3 request table).0
    ≡ answered (context_of config request) (key_of "k2" "s2") ran
unfolding serve_http authenticate presented_key validate_key handle_rpc call_tool is_tool_disabled
    has_permission grants allow lookup to_set aceryx.Engine.Results.split_once
    aceryx.Tasks.Forms.same_codes aceryx.Json.lower_codes aceryx.Prelude.Text.trim_space
    aceryx.Prelude.Text.trim_right aceryx.Prelude.Text.trim_left aceryx.McpServer.Serve.within_depth
    aceryx.McpServer.Serve.read_depth aceryx.McpServer.Serve.atoi aceryx.McpServer.Serve.max_depth
serves = refl

serve_http-IsServed_example :
    IsServed matches yes yes succeeding handler config request table
      (context_of config request)
      (key_of "k2" "s2")
      "create_case"
      create_case
serve_http-IsServed_example =
    serve_http-IsServed matches yes yes succeeding handler config 3 request table
      (context_of config request) (key_of "k2" "s2") "create_case" create_case ran refl serves refl

apply_timeout_bounds_example :
    (n : ℕ) × (apply_timeout (some (pos 7)) (pos 5) (pos 9) ≡ pos n)
    × (1 ≤ n)
    × ((n ≤ 9) ⊎ ((n ≡ 1000000) × NoTimeLeft (some (pos 7))))
apply_timeout_bounds_example = apply_timeout_bounds (some (pos 7)) (pos 5) 9 (omega arith)
