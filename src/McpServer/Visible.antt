-- ===== src/McpServer/Visible.antt =====
-- internal/mcpserver/visibility.go: the tools that a connection sees.
use aceryx.Prelude.{
  String, true, Option, some, List, [], ◌∷◌, In, here, there, In-filter_iff, map, ◌==◌, ◌≡◌, ◌↔◌,
  ◌⊎◌, inl, inr, Bool-cases,
}
use aceryx.Prelude.Map.{Map, lookup}
use aceryx.Tasks.Sla.{text_less}
use aceryx.McpServer.{Connection, Tool, Handler, sees, insert_by_name, sort_by_name, visible_tools}

insert_by_name_iff :
    (a tool : Tool) (tools : List Tool)
    → In a (insert_by_name tool tools) ↔ ((a ≡ tool) ⊎ In a tools)
unfolding insert_by_name
insert_by_name_iff a tool [] = (
  λ i. elim i [ here e ↦ inl e | there j ↦ inr j ],
  λ c. elim c [ inl e ↦ here e | inr i ↦ elim i [ ] ],
)
insert_by_name_iff a tool (other ∷ rest) =
    let (into, out) = insert_by_name_iff a tool rest in
    elim (Bool-cases (text_less other.name tool.name)) [
      | inl e ↦ rw (e) (
        λ i. elim i [
          | here same ↦ inr (here same)
          | there j ↦ elim (into j) [ inl same ↦ inl same | inr k ↦ inr (there k) ]
        ],
        λ c. elim c [
          | inl same ↦ there (out (inl same))
          | inr i ↦ elim i [ here same ↦ here same | there j ↦ there (out (inr j)) ]
        ],
      )
      | inr e ↦ rw (e) (
        λ i. elim i [ here same ↦ inl same | there j ↦ inr j ],
        λ c. elim c [ inl same ↦ here same | inr i ↦ there i ],
      )
    ]

sort_by_name_iff : (a : Tool) (tools : List Tool) → In a (sort_by_name tools) ↔ In a tools
unfolding sort_by_name
sort_by_name_iff a [] = (λ i. i, λ i. i)
sort_by_name_iff a (tool ∷ rest) =
    let (into, out) = sort_by_name_iff a rest in
    let (split, join) = insert_by_name_iff a tool (sort_by_name rest) in
    (
      λ i. elim (split i) [ inl e ↦ here e | inr j ↦ there (into j) ],
      λ i. elim i [ here e ↦ join (inl e) | there j ↦ join (inr (out j)) ],
    )

pub lookup-In :
    (name : String) (tool : Tool) (tools : Map Tool)
    → lookup name tools ≡ some tool
    → In tool (map (λ entry. entry.1) tools)
unfolding lookup
lookup-In name tool [] = λ e. cc e
lookup-In name tool (entry ∷ rest) = elim (Bool-cases (entry.0 == name)) [
  | inl same ↦ rw (same) (λ e. here (cc e))
  | inr other ↦ rw (other) (λ e. there (lookup-In name tool rest e))
]

pub visible_tools_iff :
    (h : Handler) (conn : Option Connection) (tool : Tool)
    → In tool (visible_tools h conn)
      ↔ (In tool (map (λ entry. entry.1) h.tools) × (sees h conn tool ≡ true))
unfolding visible_tools
visible_tools_iff h conn tool =
    let (into, out) = sort_by_name_iff tool _ in
    let (keep, kept) = In-filter_iff (sees h conn) tool (map (λ entry. entry.1) h.tools) in
    (λ i. keep (into i), λ p. out (kept p))
