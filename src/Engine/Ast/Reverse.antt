-- ===== src/Engine/Ast/Reverse.antt =====
-- reverseDependencies lists, for each step, the steps that depend on it.
use aceryx.Prelude.{
  String, ◌≡◌, refl, sym, ap, ◌∙◌, subst, ◌⊎◌, inl, inr, ◌↔◌, List, [], ◌∷◌, ◌++◌, In, here, there,
  In-append, In-append_left, In-append_right, text_cases,
}
use aceryx.Prelude.Map.{Map, insert, list_at, lookup-empty, lookup-insert_self, lookup-insert_ne}
use aceryx.Engine.Types.{WorkflowStep, WorkflowAst}
use aceryx.Engine.Ast.{add_dependent, add_dependents, reverse_from, reverse_dependencies}

list_at-insert_self :
    (k : String) (xs : List String) (m : Map (List String)) → list_at (insert k xs m) k ≡ xs
list_at-insert_self k xs m = rw (lookup-insert_self k xs m, list_at)

list_at-insert_ne :
    {k j : String} (xs : List String) (m : Map (List String))
    → ¬ (k ≡ j)
    → list_at (insert k xs m) j ≡ list_at m j
list_at-insert_ne xs m ne = rw (lookup-insert_ne xs m ne, list_at)

-- The list of `k` after the loop over the dependencies of `id`.
add_dependents-In :
    (rev : Map (List String)) (id : String) (deps : List String) (d k : String)
    → In d (list_at (add_dependents rev id deps) k)
    → In d (list_at rev k) ⊎ ((d ≡ id) × In k deps)
unfolding add_dependents
add_dependents-In rev id [] d k i = inl i
add_dependents-In rev id (dep ∷ deps) d k i =
    elim (add_dependents-In (add_dependent rev dep id) id deps d k i) [
      | inr (e, j) ↦ inr (e, there j)
      | inl j ↦ elim (text_cases dep k) [
        | inr q ↦ inl (subst (In d) (list_at-insert_ne (list_at rev dep ++ id ∷ []) rev q.1) j)
        | inl p ↦
            elim (In-append (list_at rev dep) (
              subst (In d)
                (ap (list_at (add_dependent rev dep id)) (sym p)
                  ∙ list_at-insert_self dep (list_at rev dep ++ id ∷ []) rev)
                j)) [
                  | inl old ↦ inl (subst (λ x. In d (list_at rev x)) p old)
                  | inr (here e) ↦ inr (e, here (sym p))
                  | inr (there none_left) ↦ elim none_left [ ]
                ]
      ]
    ]

reverse_from-In :
    (rev : Map (List String)) (steps : List WorkflowStep) (d k : String)
    → In d (list_at (reverse_from rev steps) k)
    → In d (list_at rev k) ⊎ ((s : WorkflowStep) × In s steps × (s.id ≡ d) × In k s.depends_on)
unfolding reverse_from
reverse_from-In rev [] d k i = inl i
reverse_from-In rev (s ∷ steps) d k i =
    elim (reverse_from-In (add_dependents rev s.id s.depends_on) steps d k i) [
      | inr (t, j, e, n) ↦ inr (t, there j, e, n)
      | inl j ↦ elim (add_dependents-In rev s.id s.depends_on d k j) [
        | inl old ↦ inl old
        | inr (e, n) ↦ inr (s, here refl, sym e, n)
      ]
    ]

pub reverse_dependencies-In :
    (ast : WorkflowAst) (d k : String)
    → In d (list_at (reverse_dependencies ast) k)
    → (s : WorkflowStep) × In s ast.steps × (s.id ≡ d) × In k s.depends_on
unfolding reverse_dependencies
reverse_dependencies-In ast d k i = elim (reverse_from-In [] ast.steps d k i) [
  | inr found ↦ found
  | inl j ↦ elim (rw (lookup-empty k, list_at) at j) [ ]
]

add_dependent-keeps :
    (rev : Map (List String)) (dep id d k : String)
    → In d (list_at rev k)
    → In d (list_at (add_dependent rev dep id) k)
add_dependent-keeps rev dep id d k i = elim (text_cases dep k) [
  | inl p ↦
      subst (λ x. In d (list_at (add_dependent rev dep id) x)) p
        (subst (In d) (sym (list_at-insert_self dep (list_at rev dep ++ id ∷ []) rev))
          (In-append_left (id ∷ []) (subst (λ x. In d (list_at rev x)) (sym p) i)))
  | inr q ↦ subst (In d) (sym (list_at-insert_ne (list_at rev dep ++ id ∷ []) rev q.1)) i
]

add_dependents-keeps :
    (rev : Map (List String)) (id : String) (deps : List String) (d k : String)
    → In d (list_at rev k)
    → In d (list_at (add_dependents rev id deps) k)
unfolding add_dependents
add_dependents-keeps rev id [] d k i = i
add_dependents-keeps rev id (dep ∷ deps) d k i =
    add_dependents-keeps (add_dependent rev dep id) id deps d k
      (add_dependent-keeps rev dep id d k i)

add_dependents-adds :
    (rev : Map (List String)) (id : String) (deps : List String) (k : String)
    → In k deps
    → In id (list_at (add_dependents rev id deps) k)
unfolding add_dependents
add_dependents-adds rev id [] k i = elim i [ ]
add_dependents-adds rev id (dep ∷ deps) k (there i) =
    add_dependents-adds (add_dependent rev dep id) id deps k i
add_dependents-adds rev id (dep ∷ deps) k (here e) =
    add_dependents-keeps (add_dependent rev dep id) id deps id k (
      subst (λ x. In id (list_at (add_dependent rev dep id) x)) (sym e)
        (subst (In id) (sym (list_at-insert_self dep (list_at rev dep ++ id ∷ []) rev))
          (In-append_right (list_at rev dep) (here refl))))

reverse_from-keeps :
    (rev : Map (List String)) (steps : List WorkflowStep) (d k : String)
    → In d (list_at rev k)
    → In d (list_at (reverse_from rev steps) k)
unfolding reverse_from
reverse_from-keeps rev [] d k i = i
reverse_from-keeps rev (s ∷ steps) d k i =
    reverse_from-keeps (add_dependents rev s.id s.depends_on) steps d k
      (add_dependents-keeps rev s.id s.depends_on d k i)

reverse_from-adds :
    (rev : Map (List String)) (steps : List WorkflowStep) (s : WorkflowStep) (k : String)
    → In s steps
    → In k s.depends_on
    → In s.id (list_at (reverse_from rev steps) k)
unfolding reverse_from
reverse_from-adds rev [] s k i n = elim i [ ]
reverse_from-adds rev (t ∷ steps) s k (there i) n =
    reverse_from-adds (add_dependents rev t.id t.depends_on) steps s k i n
reverse_from-adds rev (t ∷ steps) s k (here e) n =
    reverse_from-keeps (add_dependents rev t.id t.depends_on) steps s.id k (
      subst (λ x. In x.id (list_at (add_dependents rev t.id t.depends_on) k)) (sym e)
        (add_dependents-adds rev t.id t.depends_on k (subst (λ x. In k x.depends_on) e n)))

-- A step is listed under `k` in the reversed dependencies just when a step of its id lists `k`
-- among its dependencies.
pub reverse_dependencies_iff :
    (ast : WorkflowAst) (d k : String)
    → In d (list_at (reverse_dependencies ast) k)
      ↔ ((s : WorkflowStep) × In s ast.steps × (s.id ≡ d) × In k s.depends_on)
unfolding reverse_dependencies
reverse_dependencies_iff ast d k = (
  reverse_dependencies-In ast d k,
  λ found.
      let (s, i, e, n) = found in
      subst (λ x. In x (list_at (reverse_dependencies ast) k)) e
        (reverse_from-adds [] ast.steps s k i n),
)
