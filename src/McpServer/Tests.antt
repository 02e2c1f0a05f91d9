-- ===== src/McpServer/Tests.antt =====
-- internal/mcpserver, on two tools.
use aceryx.Prelude.{
  String, Bool, true, false, Option, none, some, List, [], ◌∷◌, In, here, there, ◌≡◌, refl, ◌↔◌,
}
use aceryx.Prelude.Map.{lookup}
use aceryx.McpServer.{
  Connection, Tool, Handler, is_tool_disabled, is_tenant_feature_enabled, has_permission, grants,
  visible_tools, allow, success, called, handle_rpc, tools_call, to_set,
}
use aceryx.McpServer.Calls.{IsKeyed, CanCall, called_iff, listed_iff_called, feature_off_runs}

abbrev search : Tool
search = record { name = "search_knowledge_base"; required_permission = "rag:read" }

abbrev create : Tool
create = record { name = "create_case"; required_permission = "cases:create" }

abbrev handler : Handler
handler = record {
  tools = ("create_case", create) ∷ ("search_knowledge_base", search) ∷ [];
  enabled_tools = [];
  disabled_tools = [];
  tool_limits = [];
  rag_enabled = some (λ tenant. false);
}

abbrev conn : Connection
conn = record { tenant_id = "t"; roles = "rag:*" ∷ "cases:create" ∷ [] }

can_search : CanCall handler (some conn) true true "search_knowledge_base" search
unfolding is_tool_disabled has_permission grants allow lookup to_set aceryx.Prelude.Text.trim_space
    aceryx.Prelude.Text.trim_right aceryx.Prelude.Text.trim_left aceryx.Engine.Results.split_once
can_search = (refl, refl, refl, refl)

can_create : CanCall handler (some conn) true true "create_case" create
unfolding is_tool_disabled has_permission grants allow lookup to_set aceryx.Prelude.Text.trim_space
    aceryx.Prelude.Text.trim_right aceryx.Prelude.Text.trim_left aceryx.Engine.Results.split_once
can_create = (refl, refl, refl, refl)

keyed : IsKeyed handler.tools
unfolding lookup
keyed = ((refl, refl), ((refl, refl), tt))

has_feature : is_tenant_feature_enabled handler conn "create_case" ≡ true
unfolding is_tenant_feature_enabled aceryx.Prelude.Text.trim_space aceryx.Prelude.Text.trim_right
    aceryx.Prelude.Text.trim_left
has_feature = refl

called_iff_example :
    ((handle_rpc handler (some conn) true true (λ t. success) (tools_call (some "create_case"))).0
      ≡ called create)
    ↔ (CanCall handler (some conn) true true "create_case" create × (success ≡ success))
called_iff_example = called_iff handler (some conn) true true (λ t. success) "create_case" create

listed_iff_called_example : In create (visible_tools handler (some conn)) ↔ (
    (handle_rpc handler (some conn) true true (λ t. success) (tools_call (some "create_case"))).0
    ≡ called create)
listed_iff_called_example =
    listed_iff_called handler conn (λ t. success) create keyed has_feature can_create.3 refl

feature_off_runs_example :
    (¬ In search (visible_tools handler (some conn)))
    × ((handle_rpc handler
          (some conn)
          true
          true
          (λ t. success)
          (tools_call (some "search_knowledge_base"))).0
        ≡ called search)
feature_off_runs_example =
    feature_off_runs handler conn true true (λ t. success) (λ tenant. false) search refl refl refl
      can_search refl
