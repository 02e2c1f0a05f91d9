-- ===== src/Workflows/Publish/Sound.antt =====
-- internal/workflows/publish_validation.go: what is published has passed every check, and what is
-- rejected is told of every fault.
use aceryx.Prelude.{
  String, Bool, true, false, not, some, List, [], ◌∷◌, ◌++◌, is_empty, length, nat_eq, contains,
  All, In, here, there, In-append_left, In-append_right, ◌≡◌, refl, subst, ◌↔◌, inl, inr,
  Option-cases,
}
use aceryx.Prelude.Map.{Map}
use aceryx.Prelude.Text.{trim_space}
use aceryx.Json.{Json}
use aceryx.Engine.Types.{WorkflowStep}
use aceryx.Workflows.Config.{step_type_of, is_supported_step_type, decode_step_config}
use aceryx.Workflows.Graph.{trimmed_id, known, is_disconnected}
use aceryx.Workflows.Graph.Reach.{Reached, visited_steps-Reached, linked_steps_ends}
use aceryx.Workflows.Publish.{
  PublishValidationError, error_of, unless, dangling_edge, typed_errors, dangling_errors,
  outcome_errors, config_errors, step_errors, each_step, graph_errors, search_errors,
}

module _ {A : Type 0} where
  pub nil-append : (xs ys : List A) → xs ++ ys ≡ [] → (xs ≡ []) × (ys ≡ [])
  nil-append [] ys h = (refl, h)
  nil-append (x ∷ xs) ys h = cc h

  pub is_empty-nil : (xs : List A) → is_empty xs ≡ true → xs ≡ []
  is_empty-nil [] h = refl
  is_empty-nil (x ∷ xs) h = cc h

  pub nonempty : (xs : List A) → is_empty xs ≡ false → (a : A) × In a xs
  nonempty [] h = cc h
  nonempty (x ∷ xs) h = (x, here refl)

  pub none_in : (xs : List A) → is_empty xs ≡ true → (a : A) → ¬ In a xs
  none_in [] h a i = elim i [ ]
  none_in (x ∷ xs) h a i = cc h

pub unless-nil : (b : Bool) (e : PublishValidationError) → unless b e ≡ [] → b ≡ true
unless-nil true e h = refl
unless-nil false e h = cc h

pub In-unless : (b : Bool) (e : PublishValidationError) → b ≡ false → In e (unless b e)
In-unless true e h = cc h
In-unless false e h = here refl

pub each_step-nil :
    (f : WorkflowStep → List PublishValidationError) (steps : List WorkflowStep)
    → each_step f steps ≡ []
    → All (λ s. f s ≡ []) steps
unfolding each_step
each_step-nil f [] h = tt
each_step-nil f (s ∷ rest) h =
    let (first, later) = nil-append (f s) (each_step f rest) h in
    (first, each_step-nil f rest later)

pub In-each_step :
    (f : WorkflowStep → List PublishValidationError) (steps : List WorkflowStep) {s : WorkflowStep}
    {e : PublishValidationError}
    → In s steps
    → In e (f s)
    → In e (each_step f steps)
unfolding each_step
In-each_step f [] at i = elim at [ ]
In-each_step f (t ∷ rest) {e = e} (here same) i = In-append_left _ (subst (λ x. In e (f x)) same i)
In-each_step f (t ∷ rest) (there at) i = In-append_right (f t) (In-each_step f rest at i)

pub dangling_errors-nil :
    (steps : List WorkflowStep) (e : PublishValidationError) (names : List String)
    → dangling_errors steps e names ≡ []
    → All (λ n. known steps n ≡ true) names
unfolding dangling_errors
dangling_errors-nil steps e [] h = tt
dangling_errors-nil steps e (n ∷ rest) h =
    let (first, later) = nil-append (unless (known steps n) e) (dangling_errors steps e rest) h in
    (unless-nil (known steps n) e first, dangling_errors-nil steps e rest later)

pub In-dangling_errors :
    (steps : List WorkflowStep) (e : PublishValidationError) (names : List String) {n : String}
    → In n names
    → known steps n ≡ false
    → In e (dangling_errors steps e names)
unfolding dangling_errors
In-dangling_errors steps e [] at h = elim at [ ]
In-dangling_errors steps e (m ∷ rest) (here same) h =
    In-append_left _ (In-unless (known steps m) e (subst (λ x. known steps x ≡ false) same h))
In-dangling_errors steps e (m ∷ rest) (there at) h =
    In-append_right (unless (known steps m) e) (In-dangling_errors steps e rest at h)

pub In-outcome_errors :
    (steps : List WorkflowStep) (e : PublishValidationError) (outcomes : Map (List String))
    {entry : String × List String} {n : String}
    → In entry outcomes
    → In n entry.1
    → known steps n ≡ false
    → In e (outcome_errors steps e outcomes)
unfolding outcome_errors
In-outcome_errors steps e [] at i h = elim at [ ]
In-outcome_errors steps e (first ∷ rest) {n = n} (here same) i h =
    In-append_left _ (In-dangling_errors steps e first.1 (subst (λ x. In n x.1) same i) h)
In-outcome_errors steps e (first ∷ rest) (there at) i h =
    In-append_right (dangling_errors steps e first.1) (In-outcome_errors steps e rest at i h)

outcome_errors-nil :
    (steps : List WorkflowStep) (e : PublishValidationError) (outcomes : Map (List String))
    → outcome_errors steps e outcomes ≡ []
    → All (λ entry. All (λ n. known steps n ≡ true) entry.1) outcomes
unfolding outcome_errors
outcome_errors-nil steps e [] h = tt
outcome_errors-nil steps e (entry ∷ rest) h =
    let (first, later) =
      nil-append (dangling_errors steps e entry.1) (outcome_errors steps e rest) h in
    (dangling_errors-nil steps e entry.1 first, outcome_errors-nil steps e rest later)

-- A step in which no fault is found.
pub record IsSound (steps : List WorkflowStep) (s : WorkflowStep) : Type 0 where
  pub supported : is_supported_step_type (trim_space s.type) ≡ true
  pub config : Map Json
  pub decoded : decode_step_config s.config ≡ some config
  pub configured : typed_errors (step_type_of (trim_space s.type)) s config ≡ []
  pub dependencies : All (λ d. known steps d ≡ true) s.depends_on
  pub targets : All (λ entry. All (λ t. known steps t ≡ true) entry.1) s.outcomes

pub step_errors-nil :
    (steps : List WorkflowStep) (s : WorkflowStep) → step_errors steps s ≡ [] → IsSound steps s
unfolding step_errors config_errors
step_errors-nil steps s h =
    let (type_ok, rest) = nil-append (unless (is_supported_step_type (trim_space s.type)) _) _ h in
    elim (Option-cases (decode_step_config s.config)) [
      | inl e ↦ cc (rw (e, config_errors) at rest)
      | inr (cfg, e) ↦
          let (first, outs) =
            nil-append
              (typed_errors (step_type_of (trim_space s.type)) s cfg
                ++ dangling_errors steps (error_of (trimmed_id s) "depends_on" dangling_edge)
                    s.depends_on)
              (outcome_errors steps (error_of (trimmed_id s) "outcomes" dangling_edge) s.outcomes)
              (rw (e, config_errors) at rest) in
          let (typed, deps) =
            nil-append (typed_errors (step_type_of (trim_space s.type)) s cfg)
              (dangling_errors steps (error_of (trimmed_id s) "depends_on" dangling_edge)
                s.depends_on)
              first in
          record {
            supported = unless-nil _ _ type_ok;
            config = cfg;
            decoded = e;
            configured = typed;
            dependencies = dangling_errors-nil steps _ s.depends_on deps;
            targets = outcome_errors-nil steps _ s.outcomes outs;
          }
    ]

-- The two searches of addGraphErrors have enough fuel, and the first finds what is reached.
pub graph_errors_ends :
    (first : WorkflowStep) (rest : List WorkflowStep)
    → (visited : List String) × (apart : Bool) × (graph_errors (first ∷ rest)
        ≡ some (search_errors (first ∷ rest) visited apart))
      × ((v : String) → (contains visited v ≡ true) ↔ Reached (first ∷ rest) v)
unfolding graph_errors is_disconnected
graph_errors_ends first rest =
    let (visited, ends, reached) = visited_steps-Reached (first ∷ rest) in
    let (linked, also) = linked_steps_ends (first ∷ rest) in
    (
      visited,
      not (nat_eq (length linked) (length (first ∷ rest))),
      rw (graph_errors, ends, is_disconnected, also) refl,
      reached,
    )
