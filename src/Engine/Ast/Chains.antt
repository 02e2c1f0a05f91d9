-- ===== src/Engine/Ast/Chains.antt =====
-- internal/engine/ast.go: chains of dependencies, and what a valid workflow is.
use aceryx.Prelude.{
  suc, String, ◌≡◌, refl, sym, ap, ◌∙◌, subst, inl, inr, false, some, List, [], ◌∷◌, ok, >>=-eq-ok,
  All, In, all_in, All-map, In-map, In-map_inv, length, length-map, is_empty, Option-cases,
}
use aceryx.Prelude.Map.{Map, lookup}
use aceryx.Engine.Types.{WorkflowStep, WorkflowAst}
use aceryx.Engine.Ast.{check_deps, check_all_deps, deps_of, visit_each, visit, step_ids}
use aceryx.Engine.Ast.Checks.{IsStepOk, Distinct, Checked}
use aceryx.Engine.Ast.Search.{Needs, Below, direct, further}
use aceryx.Engine.Ast.Search.Cycles.{Ends, visit_each-Ends_start}

-- The step `k` of the workflow lists `d` among its dependencies.
abbrev pub DependsOn : WorkflowAst → String → String → Type 0
DependsOn ast d k = (s : WorkflowStep) × In s ast.steps × (s.id ≡ k) × In d s.depends_on

-- A chain of dependencies, of one link or more, leads from `k` to `d`.
pub data Chain (ast : WorkflowAst) (d : String) : String → Type 0 where
  last : {k : String} → DependsOn ast d k → Chain ast d k
  link : {j k : String} → DependsOn ast j k → Chain ast d j → Chain ast d k

pub Chain-known : (ast : WorkflowAst) {d k : String} → Chain ast d k → In k (step_ids ast)
Chain-known ast (last (s, i, e, _)) = subst (λ k. In k (step_ids ast)) e (In-map (λ t. t.id) i)
Chain-known ast (link (s, i, e, _) _) = subst (λ k. In k (step_ids ast)) e (In-map (λ t. t.id) i)

pub record IsValid (ast : WorkflowAst) : Type 0 where
  pub has_steps : is_empty ast.steps ≡ false
  pub steps_ok : All IsStepOk ast.steps
  pub distinct : Distinct ast.steps
  pub deps_known : All (λ s. All (λ d. In d (step_ids ast)) s.depends_on) ast.steps
  pub acyclic : (k : String) → ¬ Chain ast k k

length-step_ids : (ast : WorkflowAst) → length (step_ids ast) ≡ length ast.steps
length-step_ids ast = length-map (λ s. s.id) ast.steps

check_deps_sound :
    (by_id : Map WorkflowStep) (id : String) (deps : List String)
    → check_deps by_id id deps ≡ ok tt
    → All (λ d. (s : WorkflowStep) × (lookup d by_id ≡ some s)) deps
unfolding check_deps
check_deps_sound by_id id [] h = tt
check_deps_sound by_id id (d ∷ deps) h = elim (Option-cases (lookup d by_id)) [
  | inl e ↦ cc (rw (e, check_deps) at h)
  | inr (s, e) ↦ ((s, e), check_deps_sound by_id id deps (rw (e, check_deps) at h))
]

check_all_deps_sound :
    (by_id : Map WorkflowStep) (steps : List WorkflowStep)
    → check_all_deps by_id steps ≡ ok tt
    → All (λ t. All (λ d. (s : WorkflowStep) × (lookup d by_id ≡ some s)) t.depends_on) steps
unfolding check_all_deps
check_all_deps_sound by_id [] h = tt
check_all_deps_sound by_id (t ∷ steps) h =
    let (_, first, rest) = >>=-eq-ok (check_deps by_id t.id t.depends_on) _ h in
    (check_deps_sound by_id t.id t.depends_on first, check_all_deps_sound by_id steps rest)

check_deps_complete :
    (by_id : Map WorkflowStep) (id : String) (deps : List String)
    → All (λ d. (s : WorkflowStep) × (lookup d by_id ≡ some s)) deps
    → check_deps by_id id deps ≡ ok tt
unfolding check_deps
check_deps_complete by_id id [] h = refl
check_deps_complete by_id id (d ∷ deps) h =
    rw (h.0.1, check_deps) (check_deps_complete by_id id deps h.1)

pub check_all_deps_complete :
    (by_id : Map WorkflowStep) (steps : List WorkflowStep)
    → All (λ t. All (λ d. (s : WorkflowStep) × (lookup d by_id ≡ some s)) t.depends_on) steps
    → check_all_deps by_id steps ≡ ok tt
unfolding check_all_deps
check_all_deps_complete by_id [] h = refl
check_all_deps_complete by_id (t ∷ steps) h =
    rw (check_deps_complete by_id t.id t.depends_on h.0) (check_all_deps_complete by_id steps h.1)

-- The map `byID` of an accepted list of steps has the dependencies of the list.
module _ (ast : WorkflowAst) (by_id : Map WorkflowStep) (c : Checked [] by_id ast.steps) where
  step_of_lookup :
      (k : String) (s : WorkflowStep) → lookup k by_id ≡ some s → In s ast.steps × (s.id ≡ k)
  step_of_lookup k s e = elim (c.origin k s e) [
    | inl old ↦ unfold lookup in cc old
    | inr found ↦ found
  ]

  DependsOn-Needs : {d k : String} → Needs by_id d k → DependsOn ast d k
  DependsOn-Needs {d} {k} n = elim (Option-cases (lookup k by_id)) [
    | inl e ↦ elim (rw (e, deps_of) at n) [ ]
    | inr (s, e) ↦ let (i, same) = step_of_lookup k s e in (s, i, same, rw (e, deps_of) at n)
  ]

  Needs-DependsOn : {d k : String} → DependsOn ast d k → Needs by_id d k
  Needs-DependsOn {d} {k} (s, i, same, n) =
      let e : lookup k by_id ≡ some s =
        ap (λ j. lookup j by_id) (sym same) ∙ all_in (λ t. lookup t.id by_id ≡ some t) c.found i in
      rw (e, deps_of) n

  pub Chain-Below : {d k : String} → Below by_id d k → Chain ast d k
  Chain-Below (direct n) = last (DependsOn-Needs n)
  Chain-Below (further n b) = link (DependsOn-Needs n) (Chain-Below b)

  pub Below-Chain : {d k : String} → Chain ast d k → Below by_id d k
  Below-Chain (last n) = direct (Needs-DependsOn n)
  Below-Chain (link n b) = further (Needs-DependsOn n) (Below-Chain b)

  pub known_step :
      (d : String) → In d (step_ids ast) → (s : WorkflowStep) × (lookup d by_id ≡ some s)
  known_step d i =
      let (s, j, e) = In-map_inv (λ t. t.id) ast.steps i in
      (s, ap (λ k. lookup k by_id) (sym e) ∙ all_in (λ t. lookup t.id by_id ≡ some t) c.found j)

  step_known : (d : String) → (s : WorkflowStep) × (lookup d by_id ≡ some s) → In d (step_ids ast)
  step_known d (s, e) =
      let (i, same) = step_of_lookup d s e in
      subst (λ k. In k (step_ids ast)) same (In-map (λ t. t.id) i)

  -- What a known step needs is a known step.
  Needs-known :
      All (λ s. All (λ d. In d (step_ids ast)) s.depends_on) ast.steps
      → (k d : String) → In k (step_ids ast)
      → Needs by_id d k
      → In d (step_ids ast)
  Needs-known known k d i n =
      let (s, j, same, e) = DependsOn-Needs n in
      all_in (λ x. In x (step_ids ast)) (all_in _ known j) e

  pub search_start-Ends :
      All (λ s. All (λ d. In d (step_ids ast)) s.depends_on) ast.steps
      → Ends by_id (visit_each (visit by_id (suc (length ast.steps))) [] (step_ids ast))
  search_start-Ends known =
      rw (← length-step_ids ast)
        (visit_each-Ends_start by_id (step_ids ast) (Needs-known known) (step_ids ast) (λ d i. i))

pub search_of_known :
    (ast : WorkflowAst) (by_id : Map WorkflowStep)
    → Checked [] by_id ast.steps
    → check_all_deps by_id ast.steps ≡ ok tt
    → All (λ s. All (λ d. In d (step_ids ast)) s.depends_on) ast.steps
search_of_known ast by_id c h =
    All-map (λ s deps. All-map (λ d found. step_known ast by_id c d found) s.depends_on deps)
      ast.steps (check_all_deps_sound by_id ast.steps h)
