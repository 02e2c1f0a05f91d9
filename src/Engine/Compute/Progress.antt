-- ===== src/Engine/Compute/Progress.antt =====
-- Each move brings a step nearer to its end, so the sweeps of computeTransitions stop within their
-- fuel; and the transitions that are returned are a trace of enabled moves.
use mathlib.Core.List.{append-nil, append_assoc}
use aceryx.Prelude.{
  ℕ, zero, suc, ◌+◌, ◌*◌, ◌<◌, ◌≤◌, String, ◌≡◌, ◌≢◌, refl, sym, ap, ◌∙◌, subst, subst₂, ◌⊎◌, inl,
  inr, Option, List, [], ◌∷◌, ◌++◌, Result, ok, err, >>=-eq-err, In, here, there, length,
  length-map, arith, Bool-cases, text_cases,
}
use aceryx.Prelude.Map.{Map, insert}
use aceryx.Engine.Types.{
  State, pending, ready, TransitionType, to_ready, to_active, to_skipped, Transition, WorkflowStep,
  WorkflowAst, StepState, EngineError, out_of_fuel,
}
use aceryx.Engine.Ast.{step_ids, validate_ast}
use aceryx.Engine.Ast.Valid.{validate_ast_ends}
use aceryx.Engine.Compute.{
  Sweep, state_at, dep_state, fire, join_step, Evaluator, evaluate_guard, start_step, each_step,
  sweep, sweeps, start, enough, compute_transitions,
}
use aceryx.Engine.Compute.Moves.{
  Edge, release, skip_pending, skip_ready, activate, Enabled, Runs, same, fired, state_at-fire_self,
  state_at-fire_ne,
}
use aceryx.Engine.Compute.Sweeps.{sweep-Runs}

-- How many moves a step in this state can still make.
abbrev pub weight : State → ℕ
weight pending = 2
weight ready = 1
weight _ = 0

-- How many moves are left after a transition of this type.
abbrev pub room : TransitionType → ℕ
room to_ready = 1
room to_active = 0
room to_skipped = 0

pub Edge-weight :
    {x y : State} {ty : TransitionType}
    → Edge x y ty
    → (weight y < weight x) × (weight y ≤ room ty) × (room ty < weight x)
Edge-weight release = omega arith
Edge-weight skip_pending = omega arith
Edge-weight skip_ready = omega arith
Edge-weight activate = omega arith

abbrev pub total : Map StepState → List String → ℕ
total v [] = 0
total v (id ∷ ids) = weight (dep_state v id) + total v ids

-- The states after a transition.
abbrev pub apply : Transition → Map StepState → Map StepState
apply t v = insert t.step_id (record (state_at v t.step_id) { state = t.to }) v

total-le : (v : Map StepState) (ids : List String) → total v ids ≤ 2 * length ids
total-le v [] = omega arith
total-le v (id ∷ ids) = omega (arith, weight-le (dep_state v id), total-le v ids)
  where
    weight-le : (x : State) → weight x ≤ 2
    weight-le pending = omega arith
    weight-le ready = omega arith
    weight-le _ = omega arith

module _ {Ctx : Type 0} (ast : WorkflowAst) (evaluator : Option (Evaluator Ctx)) (ctx : Ctx) where
  abbrev Run : Sweep → Sweep → Type 0
  Run w u = Runs ast evaluator ctx w u

  -- A list of transitions that are enabled one after another, from the states `v`.
  pub data Trace (v : Map StepState) : Map StepState → List Transition → Type 0 where
    done : Trace v v []
    next :
        {u : Map StepState} {ts : List Transition}
        → Trace v u ts
        → (t : Transition) → Enabled ast evaluator ctx u t
        → Trace v (apply t u) (ts ++ t ∷ [])

  Trace-append :
      {u v x : Map StepState} {ts us : List Transition}
      → Trace v u ts
      → Trace u x us
      → Trace v x (ts ++ us)
  Trace-append {u} {v} {ts} a done = subst (Trace v u) (sym (append-nil ts)) a
  Trace-append {v} {ts} a (next {ts = us} b t e) =
      subst (Trace v _) (append_assoc ts us (t ∷ [])) (next (Trace-append a b) t e)

  -- What a run adds to the transitions is a trace of its states.
  pub record Traced (w u : Sweep) : Type 0 where
    pub added : List Transition
    pub trace : Trace w.virtual u.virtual added
    pub appended : u.transitions ≡ w.transitions ++ added

  Runs-Traced : {w u : Sweep} → Run w u → Traced w u
  unfolding fire
  Runs-Traced {w} same = record {
    added = [];
    trace = done;
    appended = sym (append-nil w.transitions);
  }
  Runs-Traced {w} (fired {u} r t e n) =
      let before = Runs-Traced r in
      record {
        added = before.added ++ t ∷ [];
        trace = next before.trace t e;
        appended =
            ap (λ ts. ts ++ t ∷ []) before.appended
            ∙ append_assoc w.transitions before.added (t ∷ []);
      }

  pub Traced-trans : {w u x : Sweep} → Traced w u → Traced u x → Traced w x
  Traced-trans {w} a b = record {
    added = a.added ++ b.added;
    trace = Trace-append a.trace b.trace;
    appended =
        b.appended
        ∙ ap (λ ts. ts ++ b.added) a.appended
        ∙ append_assoc w.transitions a.added b.added;
  }

  pub sweep-Traced : (w u : Sweep) → sweep ast evaluator ctx w ≡ ok u → Traced w u
  sweep-Traced w u h =
      let r = Runs-Traced (sweep-Runs ast evaluator ctx w u h) in
      record { added = r.added; trace = r.trace; appended = r.appended }

  -- One move lowers the weight of its own step.
  weight-fire_self :
      (w : Sweep) (t : Transition)
      → Enabled ast evaluator ctx w.virtual t
      → weight (dep_state (fire t (state_at w.virtual t.step_id) w).virtual t.step_id)
        < weight (dep_state w.virtual t.step_id)
  weight-fire_self w t e =
      let after : dep_state (fire t (state_at w.virtual t.step_id) w).virtual t.step_id ≡ t.to =
        ap (λ x. x.state) (state_at-fire_self t (state_at w.virtual t.step_id) w) in
      subst₂ (λ x y. weight x < weight y) (sym after) (sym e.from) (Edge-weight e.edge).0

  pub weight-fire :
      (w : Sweep) (t : Transition)
      → Enabled ast evaluator ctx w.virtual t
      → (id : String)
      → weight (dep_state (fire t (state_at w.virtual t.step_id) w).virtual id)
        ≤ weight (dep_state w.virtual id)
  weight-fire w t e id = elim (text_cases t.step_id id) [
    | inl p ↦
        subst
          (λ x.
            weight (dep_state (fire t (state_at w.virtual t.step_id) w).virtual x)
            ≤ weight (dep_state w.virtual x))
          p (omega (arith, weight-fire_self w t e))
    | inr q ↦ omega (
      arith,
      ap (λ (x : StepState). weight x.state)
          (state_at-fire_ne t (state_at w.virtual t.step_id) w q.1),
    )
  ]

  total-fire_le :
      (w : Sweep) (t : Transition)
      → Enabled ast evaluator ctx w.virtual t
      → (ids : List String)
      → total (fire t (state_at w.virtual t.step_id) w).virtual ids ≤ total w.virtual ids
  total-fire_le w t e [] = omega arith
  total-fire_le w t e (id ∷ ids) = omega (arith, weight-fire w t e id, total-fire_le w t e ids)

  -- One move lowers the total of a list that its step is in.
  total-fire :
      (w : Sweep) (t : Transition)
      → Enabled ast evaluator ctx w.virtual t
      → {ids : List String} → In t.step_id ids
      → total (fire t (state_at w.virtual t.step_id) w).virtual ids < total w.virtual ids
  total-fire w t e (here {x} {xs} p) = omega (
    arith,
    total-fire_le w t e xs,
    subst
        (λ y.
          weight (dep_state (fire t (state_at w.virtual t.step_id) w).virtual y)
          < weight (dep_state w.virtual y))
        p (weight-fire_self w t e),
  )
  total-fire w t e (there {x} {xs} i) = omega (arith, weight-fire w t e x, total-fire w t e i)

  -- A run that changes something lowers the total of the steps.
  pub Runs-total :
      {w u : Sweep}
      → Run w u
      → (total u.virtual (step_ids ast) ≤ total w.virtual (step_ids ast))
        × ((u.changed ≡ w.changed)
            ⊎ (total u.virtual (step_ids ast) < total w.virtual (step_ids ast)))
  Runs-total same = (omega arith, inl refl)
  Runs-total (fired {u} r t e n) =
      let less = total-fire u t e e.known in
      let before = (Runs-total r).0 in (omega arith, inr (omega arith))

  -- The bodies of the loops do not run out of fuel, since they have none.
  join_step-fuel : (w : Sweep) (s : WorkflowStep) → join_step w s ≢ err out_of_fuel
  unfolding join_step
  join_step-fuel w s h = ground arith

  start_step-fuel : (w : Sweep) (s : WorkflowStep) → start_step evaluator ctx w s ≢ err out_of_fuel
  unfolding start_step evaluate_guard
  start_step-fuel w s h = ground arith

  each_step-fuel :
      (body : Sweep → WorkflowStep → Result EngineError Sweep)
      → ((w : Sweep) (s : WorkflowStep) → body w s ≢ err out_of_fuel)
      → (steps : List WorkflowStep) (w : Sweep) → each_step body w steps ≢ err out_of_fuel
  unfolding each_step
  each_step-fuel body fine [] w h = cc
  each_step-fuel body fine (s ∷ steps) w h = elim (>>=-eq-err (body w s) _ h) [
    | inl p ↦ fine w s p
    | inr (v, _, p) ↦ each_step-fuel body fine steps v p
  ]

  sweep-fuel : (w : Sweep) → sweep ast evaluator ctx w ≢ err out_of_fuel
  unfolding sweep
  sweep-fuel w h = elim (>>=-eq-err (each_step join_step _ ast.steps) _ h) [
    | inl p ↦ each_step-fuel join_step join_step-fuel ast.steps _ p
    | inr (v, _, p) ↦ each_step-fuel (start_step evaluator ctx) start_step-fuel ast.steps v p
  ]

  -- Sweeps that have more fuel than there are moves left do not run out of it.
  sweeps-fuel :
      (fuel : ℕ) (w : Sweep)
      → total w.virtual (step_ids ast) < fuel
      → sweeps ast evaluator ctx fuel w ≢ err out_of_fuel
  unfolding sweeps
  sweeps-fuel zero w few h = absurd (omega arith)
  sweeps-fuel (suc fuel) w few h = elim (>>=-eq-err (sweep ast evaluator ctx w) _ h) [
    | inl p ↦ sweep-fuel w p
    | inr (u, run, p) ↦ elim (Bool-cases u.changed) [
      | inr stopped ↦ cc (rw stopped at p)
      | inl again ↦ elim (Runs-total (sweep-Runs ast evaluator ctx w u run)).1 [
        | inl same_flag ↦ cc (again, same_flag)
        | inr less ↦ sweeps-fuel fuel u (omega arith) (rw again at p)
      ]
    ]
  ]

  -- computeTransitions ends on every workflow and from all states: the loop over the sweeps stops
  -- by itself within two sweeps for each step and one more.
  pub compute_transitions_ends :
      (states : Map StepState) → compute_transitions ast evaluator ctx states ≢ err out_of_fuel
  unfolding compute_transitions
  compute_transitions_ends states h = elim (>>=-eq-err (validate_ast ast) _ h) [
    | inl p ↦ validate_ast_ends ast p
    | inr (_, _, q) ↦
        elim (>>=-eq-err (sweeps ast evaluator ctx (enough ast) (start ast states)) _ q) [
          | inl p ↦
              sweeps-fuel (enough ast) (start ast states)
                (omega (
                  arith,
                  total-le (start ast states).virtual (step_ids ast),
                  length-map (λ (s : WorkflowStep). s.id) ast.steps,
                ))
                p
          | inr (w, _, p) ↦ cc p
        ]
  ]
