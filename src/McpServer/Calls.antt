-- ===== src/McpServer/Calls.antt =====
-- internal/mcpserver/handler.go and visibility.go: the tools that a call runs, and those that the
-- list shows.
use aceryx.Prelude.{
  String, Bool, true, false, not, Option, none, some, List, [], ◌∷◌, All, In, here, there, all_in,
  In-map_inv, filter, In-filter_iff, map, ◌==◌, eq_iff, if◌then◌else◌, ◌≡◌, refl, sym, ap, ◌∙◌, ◌↔◌,
  ◌⊎◌, inl, inr, Bool-cases, Option-cases, arith, some-injective,
}
use aceryx.Prelude.Map.{Map, lookup}
use aceryx.Prelude.Text.{trim_space}
use aceryx.McpServer.{
  Connection, Tool, Handler, is_tool_disabled, is_tenant_feature_enabled, has_permission, sees,
  visible_tools, allow, called, RpcCode, invalid_request, method_not_found, rate_limited, rpc_error,
  Execution, success, unmarshalled, failure, executed, invoked, call_tool, handle_rpc, tools_call,
}
use aceryx.McpServer.Visible.{lookup-In, visible_tools_iff}

-- Each tool stands under its own name, and no other does.
abbrev pub IsKeyed : Map Tool → Type 0
IsKeyed tools =
    All (λ entry. (entry.1.name ≡ entry.0) × (lookup entry.0 tools ≡ some (entry.1))) tools

-- A tool that is registered, enabled, permitted, and within the limits.
abbrev pub CanCall : Handler → Option Connection → Bool → Bool → String → Tool → Type 0
CanCall h conn key_allows tool_allows name tool =
    (lookup name h.tools ≡ some tool)
    × (is_tool_disabled h name ≡ false)
    × (has_permission conn tool.required_permission ≡ true)
    × (allow h key_allows tool_allows name ≡ true)

executed_iff :
    (conn : Option Connection) (execution : Execution) (tool other : Tool)
    → ((invoked conn (executed execution tool)).0 ≡ called other)
      ↔ ((tool ≡ other) × (execution ≡ success))
executed_iff none success tool other = (λ e. (cc e, refl), λ (e, _). ap called e)
executed_iff none unmarshalled tool other = (λ e. cc e, λ (_, e). cc e)
executed_iff none failure tool other = (λ e. cc e, λ (_, e). cc e)
executed_iff (some c) success tool other = (λ e. (cc e, refl), λ (e, _). ap called e)
executed_iff (some c) unmarshalled tool other = (λ e. cc e, λ (_, e). cc e)
executed_iff (some c) failure tool other = (λ e. cc e, λ (_, e). cc e)

refused :
    (conn : Option Connection) (code : RpcCode) (logged : List String) (tool : Tool)
    → ¬ ((invoked conn (rpc_error code, logged)).0 ≡ called tool)
refused none code logged tool e = cc e
refused (some c) code logged tool e = cc e

no_name : (h : Handler) → is_tool_disabled h "" ≡ true
unfolding is_tool_disabled trim_space aceryx.Prelude.Text.trim_right aceryx.Prelude.Text.trim_left
no_name h = refl

-- The tool that was found under the name runs after three checks.
found_iff :
    (h : Handler) (conn : Option Connection) (key_allows tool_allows : Bool)
    (execute : Tool → Execution) (name : String) (found tool : Tool)
    → ((if is_tool_disabled h name
          then (rpc_error method_not_found, [])
          else if not (has_permission conn found.required_permission)
          then invoked conn (rpc_error invalid_request, "permission_denied" ∷ [])
          else if not (allow h key_allows tool_allows name)
          then invoked conn (rpc_error rate_limited, "rate_limited" ∷ [])
          else invoked conn (executed (execute found) found)).0
        ≡ called tool)
      ↔ (((some found ≡ some tool)
            × (is_tool_disabled h name ≡ false)
            × (has_permission conn tool.required_permission ≡ true)
            × (allow h key_allows tool_allows name ≡ true))
          × (execute tool ≡ success))
found_iff h conn key_allows tool_allows execute name found tool =
    elim (Bool-cases (is_tool_disabled h name)) [
      | inl d ↦ rw (d) (λ g. cc g, λ ((_, g, _, _), _). cc g)
      | inr d ↦ rw (d) (elim (Bool-cases (has_permission conn found.required_permission)) [
        | inr p ↦ rw (p) (
          λ g. absurd (refused conn invalid_request _ tool g),
          λ ((e, _, g, _), _).
              cc (g, p, ap (λ t. has_permission conn t.required_permission) (some-injective e)),
        )
        | inl p ↦ rw (p) (elim (Bool-cases (allow h key_allows tool_allows name)) [
          | inr a ↦
              rw (a) (λ g. absurd (refused conn rate_limited _ tool g), λ ((_, _, _, g), _). cc g)
          | inl a ↦ rw (a) (
              let (into, out) = executed_iff conn (execute found) found tool in
              (
                λ g.
                    let (same, fine) = into g in
                    (
                      (
                        ap some same,
                        refl,
                        ap (λ t. has_permission conn t.required_permission) (sym same) ∙ p,
                        refl,
                      ),
                      ap execute (sym same) ∙ fine,
                    ),
                λ ((same, _, _, _), fine).
                    out (some-injective same, ap execute (some-injective same) ∙ fine),
              ))
        ])
      ])
    ]

-- A call returns a tool's result exactly when the name is that of the tool, which is enabled, needs a
-- permission that the connection has and is within the limits, and the execution succeeds with a
-- result that is JSON.
pub called_iff :
    (h : Handler) (conn : Option Connection) (key_allows tool_allows : Bool)
    (execute : Tool → Execution) (name : String) (tool : Tool)
    → ((handle_rpc h conn key_allows tool_allows execute (tools_call (some name))).0 ≡ called tool)
      ↔ (CanCall h conn key_allows tool_allows name tool × (execute tool ≡ success))
unfolding handle_rpc call_tool
called_iff h conn key_allows tool_allows execute name tool = elim (Bool-cases (name == "")) [
  | inl e ↦ rw (e) (
    λ f. cc f,
    λ ((_, enabled, _, _), _).
        cc (enabled, no_name h, ap (is_tool_disabled h) ((eq_iff name "").0 e)),
  )
  | inr e ↦ rw (e) (elim (Option-cases (lookup name h.tools)) [
    | inl f ↦ rw (f) (λ g. cc g, λ ((g, _, _, _), _). cc g)
    | inr (found, f) ↦ rw (f) (found_iff h conn key_allows tool_allows execute name found tool)
  ])
]

seen_parts :
    (h : Handler) (conn : Connection) (tool : Tool)
    → sees h (some conn) tool ≡ true
    → (is_tool_disabled h tool.name ≡ false)
      × (has_permission (some conn) tool.required_permission ≡ true)
      × (is_tenant_feature_enabled h conn tool.name ≡ true)
seen_parts h conn tool seen = (ground (arith, seen), ground (arith, seen), ground (arith, seen))

off_feature :
    (h : Handler) (conn : Connection) (enabled : String → Bool)
    → h.rag_enabled ≡ some enabled
    → enabled conn.tenant_id ≡ false
    → is_tenant_feature_enabled h conn "search_knowledge_base" ≡ false
unfolding is_tenant_feature_enabled trim_space aceryx.Prelude.Text.trim_right
    aceryx.Prelude.Text.trim_left
off_feature h conn enabled checker off = rw (checker) off

-- The list shows the tool exactly when a call by its name runs it, for a connection whose tenant has
-- the tool's feature, where the limits allow the call, the execution succeeds, and each tool is
-- registered under its own name, which no other has.
pub listed_iff_called :
    (h : Handler) (conn : Connection) (execute : Tool → Execution) (tool : Tool)
    → IsKeyed h.tools
    → is_tenant_feature_enabled h conn tool.name ≡ true
    → allow h true true tool.name ≡ true
    → execute tool ≡ success
    → In tool (visible_tools h (some conn))
      ↔ ((handle_rpc h (some conn) true true execute (tools_call (some tool.name))).0 ≡ called tool)
listed_iff_called h conn execute tool keyed feature within fine =
    let (shows, shown) = visible_tools_iff h (some conn) tool in
    let (runs, ran) = called_iff h (some conn) true true execute tool.name tool in
    (
      λ i.
          let (j, seen) = shows i in
          let (enabled, permitted, _) = seen_parts h conn tool seen in
          let (entry, k, same) = In-map_inv (λ e. e.1) h.tools j in
          let (name, found) = all_in _ keyed k in
          ran (
            (
              cc (name, found, same, ap (λ t. lookup t.name h.tools) same),
              enabled,
              permitted,
              within,
            ),
            fine,
          ),
      λ e.
          let ((found, enabled, permitted, _), _) = runs e in
          shown
            (lookup-In tool.name tool h.tools found, ground (arith, enabled, permitted, feature)),
    )

-- A tenant whose knowledge base is switched off is not shown the tool that searches it, and yet a
-- call of the tool runs it, where it is registered, enabled, permitted and within the limits.
pub feature_off_runs :
    (h : Handler) (conn : Connection) (key_allows tool_allows : Bool) (execute : Tool → Execution)
    (enabled : String → Bool) (tool : Tool)
    → h.rag_enabled ≡ some enabled
    → enabled conn.tenant_id ≡ false
    → tool.name ≡ "search_knowledge_base"
    → CanCall h (some conn) key_allows tool_allows tool.name tool
    → execute tool ≡ success
    → (¬ In tool (visible_tools h (some conn)))
      × ((handle_rpc h (some conn) key_allows tool_allows execute (tools_call (some tool.name))).0
          ≡ called tool)
feature_off_runs h conn key_allows tool_allows execute enabled tool checker off name can fine = (
  λ i.
      let (_, seen) = (visible_tools_iff h (some conn) tool).0 i in
      let (_, _, on) = seen_parts h conn tool seen in
      cc (on, off_feature h conn enabled checker off, ap (is_tenant_feature_enabled h conn) name),
  (called_iff h (some conn) key_allows tool_allows execute tool.name tool).1 (can, fine),
)
