-- ===== src/Workflows/Graph.antt =====
-- internal/workflows/publish_validation.go: the graph that publishing checks, whose arrows are the
-- dependencies and the outcomes of the steps, and the breadth-first searches on it.

mod Walk
mod Edges
pub mod Reach
use aceryx.Prelude.{
  ℕ, zero, suc, ◌+◌, String, Bool, true, false, not, Option, none, some, List, [], ◌∷◌, ◌++◌, map,
  length, is_empty, filter, fold, contains, ◌==◌, nat_eq, if◌then◌else◌,
}
use aceryx.Prelude.Map.{Map, lookup, insert, list_at}
use aceryx.Prelude.Text.{trim_space}
use aceryx.Engine.Types.{WorkflowStep, WorkflowAst}
use aceryx.Workflows.Config.{is_some, is_blank, decode_step_config}

-- outgoing[from] = append(outgoing[from], to)
abbrev pub add_edge : Map (List String) → String × String → Map (List String)
add_edge m edge = insert edge.0 (list_at m edge.0 ++ edge.1 ∷ []) m

abbrev pub add_edges : Map (List String) → List (String × String) → Map (List String)
add_edges m edges = fold add_edge m edges

abbrev pub trimmed_id : WorkflowStep → String
trimmed_id step = trim_space step.id

-- The arrows that the first loop appends: from each dependency to the step.
unfoldable pub dependency_edges : List WorkflowStep → List (String × String)
dependency_edges [] = []
dependency_edges (step ∷ rest) =
    map (λ dep. (dep, trimmed_id step)) step.depends_on ++ dependency_edges rest

unfoldable pub outcome_edges_of : String → Map (List String) → List (String × String)
outcome_edges_of id [] = []
outcome_edges_of id (entry ∷ rest) = map (λ t. (id, t)) entry.1 ++ outcome_edges_of id rest

-- The arrows that the second loop appends: a step whose configuration is not an object is left
-- with `continue` before its outcomes are read.
unfoldable pub outcome_edges : List WorkflowStep → List (String × String)
outcome_edges [] = []
outcome_edges (step ∷ rest) =
    let later = outcome_edges rest in
    if is_some (decode_step_config step.config)
    then outcome_edges_of (trimmed_id step) step.outcomes ++ later
    else later

unfoldable pub outgoing : List WorkflowStep → Map (List String)
outgoing steps = add_edges (add_edges [] (dependency_edges steps)) (outcome_edges steps)

-- byID, whose keys are the trimmed ids.
unfoldable pub by_trimmed_id : Map WorkflowStep → List WorkflowStep → Map WorkflowStep
by_trimmed_id m [] = m
by_trimmed_id m (step ∷ rest) =
    by_trimmed_id (if trimmed_id step == "" then m else insert (trimmed_id step) step m) rest

abbrev pub known : List WorkflowStep → String → Bool
known steps id = is_some (lookup id (by_trimmed_id [] steps))

unfoldable pub in_degree : Map ℕ → List WorkflowStep → Map ℕ
in_degree m [] = m
in_degree m (step ∷ rest) = in_degree (insert (trimmed_id step) (length step.depends_on) m) rest

-- inDegree[id] == 0
abbrev pub has_no_dependency : List WorkflowStep → String → Bool
has_no_dependency steps id = elim (lookup id (in_degree [] steps)) [
  | none ↦ true
  | some n ↦ nat_eq n 0
]

unfoldable pub roots : List WorkflowStep → List String
roots steps = filter (has_no_dependency steps) (map trimmed_id steps)

-- One round of `for len(queue) > 0`, after `current` left the queue: what is visited and queued.
abbrev pub take_current :
    (String → List String) → List String → String → List String → List String × List String
take_current next visited current rest =
    if contains visited current then (visited, rest) else (current ∷ visited, rest ++ next current)

-- The loop, on fuel for its rounds; `next` gives what is queued after a node, and the result is
-- the set `visited`.
unfoldable pub walk : (String → List String) → ℕ → List String → List String → Option (List String)
walk next fuel visited [] = some visited
walk next zero visited (current ∷ rest) = none
walk next (suc fuel) visited (current ∷ rest) =
    let after = take_current next visited current rest in walk next fuel after.0 after.1

-- Each round takes an entry off the queue, and each visited node puts its arrows on it once, so
-- the entries of the first queue and all the arrows are enough fuel.
unfoldable pub edge_count : Map (List String) → ℕ
edge_count [] = 0
edge_count (entry ∷ rest) = length entry.1 + edge_count rest

-- `for _, target := range outgoing[current] { if _, ok := byID[target]; ok { ... } }`
abbrev pub next_known : List WorkflowStep → String → List String
next_known steps id = filter (known steps) (list_at (outgoing steps) id)

unfoldable pub visited_steps : List WorkflowStep → Option (List String)
visited_steps steps =
    walk (next_known steps) (length (roots steps) + edge_count (outgoing steps)) [] (roots steps)

-- Both directions of an arrow between two trimmed names, where the second is not blank.
abbrev pub both_ways : String → String → List (String × String)
both_ways id other =
    if is_blank other then [] else (id, trim_space other) ∷ (trim_space other, id) ∷ []

unfoldable pub links_to : String → List String → List (String × String)
links_to id [] = []
links_to id (other ∷ rest) = both_ways id other ++ links_to id rest

unfoldable pub outcome_links : String → Map (List String) → List (String × String)
outcome_links id [] = []
outcome_links id (entry ∷ rest) = links_to id entry.1 ++ outcome_links id rest

unfoldable pub links : List WorkflowStep → List (String × String)
links [] = []
links (step ∷ rest) =
    links_to (trimmed_id step) step.depends_on
    ++ outcome_links (trimmed_id step) step.outcomes
    ++ links rest

unfoldable pub neighbors : List WorkflowStep → Map (List String)
neighbors steps = add_edges [] (links steps)

unfoldable pub linked_steps : List WorkflowStep → Option (List String)
linked_steps [] = some []
linked_steps (first ∷ rest) =
    let m = neighbors (first ∷ rest) in
    walk (list_at m) (suc (edge_count m)) [] (trimmed_id first ∷ [])

unfoldable pub is_disconnected : List WorkflowStep → Option Bool
is_disconnected [] = some false
is_disconnected (first ∷ rest) = elim (linked_steps (first ∷ rest)) [
  | none ↦ none
  | some visited ↦ some (not (nat_eq (length visited) (length (first ∷ rest))))
]

-- terminalCount == 0
unfoldable pub has_terminal : List WorkflowStep → Bool
has_terminal steps = not (is_empty (filter (λ s. is_empty (next_known steps (trimmed_id s))) steps))
