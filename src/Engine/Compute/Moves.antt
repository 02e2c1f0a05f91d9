-- ===== src/Engine/Compute/Moves.antt =====
-- The transitions of the engine as a relation: from which state of a step to which, and why.
-- Every sweep of computeTransitions makes such moves and no others.
use aceryx.Prelude.{
  ◌<◌, String, ◌≡◌, refl, sym, ap, ◌∙◌, subst, ◌⊎◌, inl, inr, Bool, true, false, not, ◌&&◌, Option,
  List, [], ◌∷◌, ok, In, here, there, In-map, contains, length, is_empty, fold, arith, Bool-cases,
  text_cases,
}
use aceryx.Prelude.Map.{Map, list_at, lookup-insert_self, lookup-insert_ne}
use aceryx.Engine.Types.{
  State, pending, ready, active, completed, skipped, TransitionType, to_ready, to_active,
  to_skipped, outcome_routing, Transition, WorkflowStep, WorkflowAst, StepState,
}
use aceryx.Engine.Ast.{normalized_join, step_ids, reverse_dependencies}
use aceryx.Engine.Ast.Reverse.{reverse_dependencies-In}
use aceryx.Engine.Compute.{
  is_completed, is_pending, is_ready, extract_outcome, is_seen, Sweep, state_at, dep_state, fire,
  emit, is_any_target, route_dependent, route_outcomes, transition_to_ready, transition_to_skipped,
  terminal_count, completed_count, skipped_count, all_terminal, transition_guard_false,
  transition_to_active, Evaluator, evaluate_guard,
}

-- The diagram of a step's states, as far as an evaluation moves a step.
pub data Edge : State → State → TransitionType → Type 0 where
  release : Edge pending ready to_ready
  skip_pending : Edge pending skipped to_skipped
  skip_ready : Edge ready skipped to_skipped
  activate : Edge ready active to_active

-- The transition by which a completed step rules a dependent out.
abbrev pub transition_routed : String → String → State → Transition
transition_routed selected dependent from = record {
  step_id = dependent;
  from = from;
  to = skipped;
  type = to_skipped;
  reason = outcome_routing;
  outcome = selected;
}

-- `d` depends on the completed step `s`, is a target of one of its outcomes, and not of the one
-- that `s` had.
pub record RuledOut (ast : WorkflowAst) (v : Map StepState) (s : WorkflowStep) (d : String)
    : Type 0 where
  pub source : In s ast.steps
  pub finished : dep_state v s.id ≡ completed
  pub dependent : In d (list_at (reverse_dependencies ast) s.id)
  pub target : is_any_target s.outcomes d ≡ true
  pub not_selected :
      contains (list_at s.outcomes (extract_outcome (state_at v s.id).result)) d ≡ false

pub is_pending→eq : (x : State) → is_pending x ≡ true → x ≡ pending
is_pending→eq x h = ground arith

pub is_ready→eq : (x : State) → is_ready x ≡ true → x ≡ ready
is_ready→eq x h = ground arith

pub is_completed→eq : (x : State) → is_completed x ≡ true → x ≡ completed
is_completed→eq x h = ground arith

-- A state that no edge leaves.
abbrev pub is_frozen : State → Bool
is_frozen x = not (is_pending x) && not (is_ready x)

pub frozen_cases : (x : State) → (is_frozen x ≡ true) ⊎ ((x ≡ pending) ⊎ (x ≡ ready))
frozen_cases pending = inr (inl refl)
frozen_cases ready = inr (inr refl)
frozen_cases _ = inl refl

-- An edge starts from a state that is not frozen.
pub Edge-not_frozen : {x y : State} {ty : TransitionType} → Edge x y ty → is_frozen x ≡ false
Edge-not_frozen release = refl
Edge-not_frozen skip_pending = refl
Edge-not_frozen skip_ready = refl
Edge-not_frozen activate = refl

pub state_at-fire_self :
    (t : Transition) (st : StepState) (w : Sweep)
    → state_at (fire t st w).virtual t.step_id ≡ record st { state = t.to }
unfolding fire
state_at-fire_self t st w =
    rw (lookup-insert_self t.step_id (record st { state = t.to }) w.virtual, state_at)

pub state_at-fire_ne :
    {k : String} (t : Transition) (st : StepState) (w : Sweep)
    → ¬ (t.step_id ≡ k)
    → state_at (fire t st w).virtual k ≡ state_at w.virtual k
unfolding fire
state_at-fire_ne t st w ne =
    rw (lookup-insert_ne (record st { state = t.to }) w.virtual ne, state_at)

module _ {Ctx : Type 0} (ast : WorkflowAst) (evaluator : Option (Evaluator Ctx)) (ctx : Ctx) where
  -- Why a transition is made when the steps are in the states `v`.
  pub data Because (v : Map StepState) (t : Transition) : Type 0 where
    no_dependencies :
        (s : WorkflowStep)
        → In s ast.steps
        → s.depends_on ≡ []
        → t ≡ transition_to_ready s.id false
        → Because v t
    all_joined :
        (s : WorkflowStep)
        → In s ast.steps
        → normalized_join s.join ≡ "all"
        → all_terminal v s.depends_on ≡ true
        → 0 < completed_count v s.depends_on
        → t ≡ transition_to_ready s.id false
        → Because v t
    any_joined :
        (s : WorkflowStep)
        → In s ast.steps
        → normalized_join s.join ≡ "any"
        → 0 < terminal_count v s.depends_on
        → t ≡ transition_to_ready s.id true
        → Because v t
    all_skipped :
        (s : WorkflowStep)
        → In s ast.steps
        → normalized_join s.join ≡ "all"
        → all_terminal v s.depends_on ≡ true
        → completed_count v s.depends_on ≡ 0
        → skipped_count v s.depends_on ≡ length s.depends_on
        → t ≡ transition_to_skipped s.id
        → Because v t
    guard_held :
        (s : WorkflowStep)
        → In s ast.steps
        → evaluate_guard evaluator ctx s ≡ ok true
        → t ≡ transition_to_active s.id
        → Because v t
    guard_failed :
        (s : WorkflowStep)
        → In s ast.steps
        → evaluate_guard evaluator ctx s ≡ ok false
        → t ≡ transition_guard_false s.id
        → Because v t
    routed :
        (s : WorkflowStep) {d : String}
        → RuledOut ast v s d
        → t ≡ transition_routed (extract_outcome (state_at v s.id).result) d (dep_state v d)
        → Because v t

  pub record Enabled (v : Map StepState) (t : Transition) : Type 0 where
    pub known : In t.step_id (step_ids ast)
    pub edge : Edge t.from t.to t.type
    pub from : dep_state v t.step_id ≡ t.from
    pub because : Because v t

  -- One transition after another: what each loop of a sweep does.
  pub data Runs (w : Sweep) : Sweep → Type 0 where
    same : Runs w w
    fired :
        {u : Sweep}
        → Runs w u
        → (t : Transition) → Enabled u.virtual t
        → is_seen u.seen t.step_id t.type ≡ false
        → Runs w (fire t (state_at u.virtual t.step_id) u)

  pub Runs-trans : {u v w : Sweep} → Runs u v → Runs v w → Runs u w
  Runs-trans a same = a
  Runs-trans a (fired b t e n) = fired (Runs-trans a b) t e n

  pub Runs-emit :
      (w : Sweep) (t : Transition)
      → Enabled w.virtual t
      → Runs w (emit t (state_at w.virtual t.step_id) w)
  unfolding emit
  Runs-emit w t e = elim (Bool-cases (is_seen w.seen t.step_id t.type)) [
    | inl old ↦ rw old same
    | inr new ↦ rw new (fired same t e new)
  ]

  -- A step in a frozen state keeps it, and its result.
  pub Runs-frozen :
      {w u : Sweep} (k : String)
      → Runs w u
      → is_frozen (dep_state w.virtual k) ≡ true
      → state_at u.virtual k ≡ state_at w.virtual k
  Runs-frozen k same f = refl
  Runs-frozen k (fired {u} r t e n) f =
      let before = Runs-frozen k r f in
      elim (text_cases t.step_id k) [
        | inr q ↦ state_at-fire_ne t (state_at u.virtual t.step_id) u q.1 ∙ before
        | inl p ↦ cc (f, Edge-not_frozen e.edge, e.from, before)
      ]

  pub routed-Enabled :
      (v : Map StepState) (s : WorkflowStep) (d : String)
      → RuledOut ast v s d
      → is_frozen (dep_state v d) ≡ false
      → Enabled v (transition_routed (extract_outcome (state_at v s.id).result) d (dep_state v d))
  routed-Enabled v s d r f = record {
    known =
        let (t, i, e, _) = reverse_dependencies-In ast d s.id r.dependent in
        subst (λ x. In x (step_ids ast)) e (In-map (λ x. x.id) i);
    edge = elim (frozen_cases (dep_state v d)) [
      | inl c ↦ cc (c, f)
      | inr (inl p) ↦ subst (λ x. Edge x skipped to_skipped) (sym p) skip_pending
      | inr (inr p) ↦ subst (λ x. Edge x skipped to_skipped) (sym p) skip_ready
    ];
    from = refl;
    because = routed s r refl;
  }

  pub route_dependent-Runs :
      (s : WorkflowStep) (d : String) (w : Sweep)
      → In s ast.steps
      → dep_state w.virtual s.id ≡ completed
      → In d (list_at (reverse_dependencies ast) s.id)
      → Runs w (route_dependent s (extract_outcome (state_at w.virtual s.id).result) w d)
  unfolding route_dependent
  route_dependent-Runs s d w i done n = elim (Bool-cases (is_any_target s.outcomes d)) [
    | inr off ↦ rw off same
    | inl on ↦
        elim (Bool-cases
          (contains (list_at s.outcomes (extract_outcome (state_at w.virtual s.id).result)) d)) [
            | inl chosen ↦ rw (on, chosen) same
            | inr other ↦ elim (Bool-cases (is_frozen (dep_state w.virtual d))) [
              | inl f ↦ rw (on, other, f) same
              | inr m ↦
                  rw (on, other, m)
                    (Runs-emit w _ (
                      routed-Enabled w.virtual s d
                        (record {
                          source = i;
                          finished = done;
                          dependent = n;
                          target = on;
                          not_selected = other;
                        })
                        m))
            ]
          ]
  ]

  pub route_each-Runs :
      (s : WorkflowStep) (ds : List String) (w w0 : Sweep)
      → In s ast.steps
      → dep_state w0.virtual s.id ≡ completed
      → Runs w0 w
      → ((d : String) → In d ds → In d (list_at (reverse_dependencies ast) s.id))
      → Runs w0 (fold (route_dependent s (extract_outcome (state_at w0.virtual s.id).result)) w ds)
  route_each-Runs s [] w w0 i done r known = r
  route_each-Runs s (d ∷ ds) w w0 i done r known =
      let kept = Runs-frozen s.id r (ap is_frozen done) in
      let once =
        route_dependent-Runs s d w i (ap (λ x. x.state) kept ∙ done) (known d (here refl)) in
      route_each-Runs s ds _ w0 i done
        (Runs-trans r (
          subst (λ (x : StepState). Runs w (route_dependent s (extract_outcome x.result) w d)) kept
            once))
        (λ e j. known e (there j))

  pub route_outcomes-Runs :
      (w : Sweep) (s : WorkflowStep)
      → In s ast.steps
      → Runs w (route_outcomes (reverse_dependencies ast) w s)
  unfolding route_outcomes
  route_outcomes-Runs w s i = elim (Bool-cases (is_completed (dep_state w.virtual s.id))) [
    | inr off ↦ rw off same
    | inl on ↦ elim (Bool-cases (is_empty s.outcomes)) [
      | inl none_there ↦ rw (on, none_there) same
      | inr routes ↦
          rw (on, routes)
            (route_each-Runs s (list_at (reverse_dependencies ast) s.id) w w i
              (is_completed→eq (dep_state w.virtual s.id) on) same (λ d j. j))
    ]
  ]
