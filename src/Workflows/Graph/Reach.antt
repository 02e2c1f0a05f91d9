-- ===== src/Workflows/Graph/Reach.antt =====
-- What the searches of internal/workflows/publish_validation.go find, said of the steps of the
-- workflow.
use aceryx.Prelude.{
  suc, ◌+◌, String, true, some, List, [], ◌∷◌, map, length, In-filter_iff, length-filter-le,
  contains, In, here, there, In-append, In-append_left, In-append_right, In-map, In-map_inv, ◌≡◌,
  refl, sym, ap, subst, ◌↔◌, ◌⊎◌, inl, inr, Bool-cases, arith,
}
use aceryx.Prelude.Map.{Map, list_at, lookup-empty}
use aceryx.Engine.Types.{WorkflowStep}
use aceryx.Workflows.Config.{is_some, decode_step_config}
use aceryx.Workflows.Graph.{
  add_edges, edge_count, trimmed_id, dependency_edges, outcome_edges_of, outcome_edges, outgoing,
  known, roots, has_no_dependency, next_known, visited_steps, neighbors, links, linked_steps,
}
use aceryx.Workflows.Graph.Walk.{Reachable, root, arrow, walk_ends, walk_visits}
use aceryx.Workflows.Graph.Edges.{keys, add_edges_iff, Distinct-add_edges, search_fits}

-- From a dependency to the step that has it, and from a step, where its configuration can be read,
-- to a target of one of its outcomes.
pub data Arrow (steps : List WorkflowStep) (u v : String) : Type 0 where
  after : {s : WorkflowStep} → In s steps → In u s.depends_on → v ≡ trimmed_id s → Arrow steps u v
  routed :
      {s : WorkflowStep} {entry : String × List String}
      → In s steps
      → is_some (decode_step_config s.config) ≡ true
      → In entry s.outcomes
      → In v entry.1
      → u ≡ trimmed_id s
      → Arrow steps u v

-- What arrows between steps lead to from a step without dependencies.
pub data Reached (steps : List WorkflowStep) : String → Type 0 where
  entrypoint :
      {s : WorkflowStep} {v : String}
      → In s steps
      → has_no_dependency steps (trimmed_id s) ≡ true
      → v ≡ trimmed_id s
      → Reached steps v
  along :
      {u v : String} → Reached steps u → Arrow steps u v → known steps v ≡ true → Reached steps v

dependency_edges_sound :
    (steps : List WorkflowStep) (u v : String)
    → In (u, v) (dependency_edges steps)
    → (s : WorkflowStep) × In s steps × In u s.depends_on × (v ≡ trimmed_id s)
unfolding dependency_edges
dependency_edges_sound [] u v i = elim i [ ]
dependency_edges_sound (s ∷ rest) u v i =
    elim (In-append (map (λ dep. (dep, trimmed_id s)) s.depends_on) i) [
      | inl j ↦
          let (d, k, e) = In-map_inv (λ dep. (dep, trimmed_id s)) s.depends_on j in
          (s, here refl, subst (λ x. In x s.depends_on) (ap (λ p. p.0) e) k, sym (ap (λ p. p.1) e))
      | inr j ↦ let (t, k, d, e) = dependency_edges_sound rest u v j in (t, there k, d, e)
    ]

dependency_edges_complete :
    (steps : List WorkflowStep) {s : WorkflowStep} {u : String}
    → In s steps
    → In u s.depends_on
    → In (u, trimmed_id s) (dependency_edges steps)
unfolding dependency_edges
dependency_edges_complete [] i d = elim i [ ]
dependency_edges_complete (t ∷ rest) {s} {u} (here e) d =
    subst (λ x. In (u, trimmed_id x) (dependency_edges (t ∷ rest))) (sym e)
      (In-append_left (dependency_edges rest)
        (In-map (λ dep. (dep, trimmed_id t)) (subst (λ x. In u x.depends_on) e d)))
dependency_edges_complete (t ∷ rest) (there i) d =
    In-append_right (map (λ dep. (dep, trimmed_id t)) t.depends_on)
      (dependency_edges_complete rest i d)

outcome_edges_of_iff :
    (id : String) (outcomes : Map (List String)) (u v : String)
    → In (u, v) (outcome_edges_of id outcomes)
      ↔ ((entry : String × List String) × In entry outcomes × In v entry.1 × (u ≡ id))
unfolding outcome_edges_of
outcome_edges_of_iff id [] u v = (λ i. elim i [ ], λ p. elim p.1 [ ])
outcome_edges_of_iff id (entry ∷ rest) u v =
    let (into, out) = outcome_edges_of_iff id rest u v in
    (
      λ i. elim (In-append (map (λ t. (id, t)) entry.1) i) [
        | inl j ↦
            let (t, k, e) = In-map_inv (λ t. (id, t)) entry.1 j in
            (entry, here refl, subst (λ x. In x entry.1) (ap (λ p. p.1) e) k, sym (ap (λ p. p.0) e))
        | inr j ↦ let (other, k, t, e) = into j in (other, there k, t, e)
      ],
      λ (other, i, j, e). elim i [
        | here same ↦ In-append_left (outcome_edges_of id rest) (
            subst (λ x. In {A = String × String} (x, v) (map (λ t. (id, t)) entry.1)) (sym e)
              (In-map (λ t. (id, t)) (subst (λ x. In v x.1) same j)))
        | there k ↦ In-append_right (map (λ t. (id, t)) entry.1) (out (other, k, j, e))
      ],
    )

-- The arrows that the second loop appends are those of the outcomes.
outcome_edges_iff :
    (steps : List WorkflowStep) (u v : String)
    → In (u, v) (outcome_edges steps) ↔ (
        (s : WorkflowStep) × In s steps
        × (is_some (decode_step_config s.config) ≡ true)
        × In (u, v) (outcome_edges_of (trimmed_id s) s.outcomes))
unfolding outcome_edges
outcome_edges_iff [] u v = (λ i. elim i [ ], λ p. elim p.1 [ ])
outcome_edges_iff (t ∷ rest) u v =
    let (into, out) = outcome_edges_iff rest u v in
    let first = outcome_edges_of (trimmed_id t) t.outcomes in
    elim (Bool-cases (is_some (decode_step_config t.config))) [
      | inl e ↦
          rw (e, outcome_edges)
            (
              λ i. elim (In-append first i) [
                | inl j ↦ (t, here refl, e, j)
                | inr j ↦ let (s, k, d, a) = into j in (s, there k, d, a)
              ],
              λ (s, i, d, j). elim i [
                | here same ↦
                    In-append_left (outcome_edges rest)
                      (subst (λ x. In (u, v) (outcome_edges_of (trimmed_id x) x.outcomes)) same j)
                | there k ↦ In-append_right first (out (s, k, d, j))
              ],
            )
      | inr e ↦
          rw (e, outcome_edges)
            (
              λ i. let (s, k, d, a) = into i in (s, there k, d, a),
              λ (s, i, d, j). elim i [
                | here same ↦ cc (ap (λ x. is_some (decode_step_config x.config)) same, d, e)
                | there k ↦ out (s, k, d, j)
              ],
            )
    ]

module _ (steps : List WorkflowStep) where
  -- outgoing[u] lists exactly what an arrow leads to from u.
  pub outgoing_iff : (u v : String) → In v (list_at (outgoing steps) u) ↔ Arrow steps u v
  unfolding outgoing
  outgoing_iff u v = (
    λ i. elim ((add_edges_iff _ (outcome_edges steps) u v).0 i) [
      | inl j ↦ elim ((add_edges_iff [] (dependency_edges steps) u v).0 j) [
        | inl k ↦ elim (rw (list_at, lookup-empty u) at k) [ ]
        | inr k ↦ let (s, at, d, e) = dependency_edges_sound steps u v k in after at d e
      ]
      | inr j ↦
          let (s, at, d, k) = (outcome_edges_iff steps u v).0 j in
          let (entry, in_map, target, e) =
            (outcome_edges_of_iff (trimmed_id s) s.outcomes u v).0 k in
          routed at d in_map target e
    ],
    λ a. (add_edges_iff _ (outcome_edges steps) u v).1 (back a),
  )
    where
      back :
          Arrow steps u v
          → In v (list_at (add_edges [] (dependency_edges steps)) u)
            ⊎ In (u, v) (outcome_edges steps)
      back (after at d e) = inl (
          (add_edges_iff [] (dependency_edges steps) u v).1 (
            inr (
              subst (λ x. In (u, x) (dependency_edges steps)) (sym e)
                (dependency_edges_complete steps at d))))
      back (routed {s} {entry} at d in_map target e) = inr (
          (outcome_edges_iff steps u v).1 (
            s,
            at,
            d,
            (outcome_edges_of_iff (trimmed_id s) s.outcomes u v).1 (entry, in_map, target, e),
          ))

  -- A round of the first search queues what an arrow leads to, where it is a step.
  pub next_known_iff :
      (u v : String) → In v (next_known steps u) ↔ (Arrow steps u v × (known steps v ≡ true))
  next_known_iff u v =
      let (into, out) = In-filter_iff (known steps) v (list_at (outgoing steps) u) in
      (
        λ i. let (j, k) = into i in ((outgoing_iff u v).0 j, k),
        λ (a, k). out ((outgoing_iff u v).1 a, k),
      )

  roots_iff :
      (v : String)
      → In v (roots steps) ↔ (
          (s : WorkflowStep) × In s steps
          × (has_no_dependency steps (trimmed_id s) ≡ true)
          × (v ≡ trimmed_id s))
  unfolding roots
  roots_iff v =
      let (into, out) = In-filter_iff (has_no_dependency steps) v (map trimmed_id steps) in
      (
        λ i.
            let (j, k) = into i in
            let (s, at, e) = In-map_inv trimmed_id steps j in
            (s, at, subst (λ x. has_no_dependency steps x ≡ true) (sym e) k, sym e),
        λ (s, at, k, e). out (
          subst (λ x. In x (map trimmed_id steps)) (sym e) (In-map trimmed_id at),
          subst (λ x. has_no_dependency steps x ≡ true) (sym e) k,
        ),
      )

  Reached-iff : (v : String) → Reachable (next_known steps) (roots steps) v ↔ Reached steps v
  Reached-iff v = (into, out)
    where
      into : {x : String} → Reachable (next_known steps) (roots steps) x → Reached steps x
      into (root {v = x} i) = let (s, at, k, e) = (roots_iff x).0 i in entrypoint at k e
      into (arrow {u} {v = x} r i) = let (a, k) = (next_known_iff u x).0 i in along (into r) a k

      out : {x : String} → Reached steps x → Reachable (next_known steps) (roots steps) x
      out (entrypoint {s} {v = x} at k e) = root ((roots_iff x).1 (s, at, k, e))
      out (along {u} {v = x} r a k) = arrow (out r) ((next_known_iff u x).1 (a, k))

  -- The first search ends, and visits the steps that are reached.
  pub visited_steps-Reached :
      (visited : List String) × (visited_steps steps ≡ some visited)
      × ((v : String) → (contains visited v ≡ true) ↔ Reached steps v)
  unfolding visited_steps outgoing
  visited_steps-Reached =
      let m = outgoing steps in
      let d =
        Distinct-add_edges _ (outcome_edges steps)
          (Distinct-add_edges [] (dependency_edges steps) tt) in
      let (covered, fits) =
        search_fits m (next_known steps) d (λ u. length-filter-le (known steps) (list_at m u)) in
      let fuel = length (roots steps) + edge_count m in
      let (t, ends) =
        walk_ends (next_known steps) (keys m) covered fuel [] (roots steps) (omega (arith, fits)) in
      let (_, visits) = walk_visits (next_known steps) (roots steps) fuel t ends in
      (
        t,
        ends,
        λ v. (λ h. (Reached-iff v).0 ((visits v).0 h), λ r. (visits v).1 ((Reached-iff v).1 r)),
      )

-- The second search ends.
pub linked_steps_ends :
    (steps : List WorkflowStep) → (visited : List String) × (linked_steps steps ≡ some visited)
unfolding linked_steps neighbors
linked_steps_ends [] = ([], refl)
linked_steps_ends (first ∷ rest) =
    let m = neighbors (first ∷ rest) in
    let (covered, fits) =
      search_fits m (list_at m) (Distinct-add_edges [] (links (first ∷ rest)) tt)
        (λ u. omega arith) in
    walk_ends (list_at m) (keys m) covered (suc (edge_count m)) [] (trimmed_id first ∷ [])
      (omega (arith, fits))
