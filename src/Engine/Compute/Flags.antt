-- ===== src/Engine/Compute/Flags.antt =====
-- Each body of the loops of a sweep either does nothing or raises the flag `changed`; so a loop that
-- leaves the flag down has done nothing at all.
use aceryx.Prelude.{
  String, ◌≡◌, refl, sym, ap, ◌∙◌, subst, ◌⊎◌, inl, inr, true, false, Option, List, [], ◌∷◌, Result,
  ok, >>=-eq-ok, In, here, there, fold, arith, Bool-cases,
}
use aceryx.Prelude.Map.{Map, list_at}
use aceryx.Engine.Types.{Transition, WorkflowStep, StepState, EngineError}
use aceryx.Engine.Compute.{
  extract_outcome, Sweep, is_seen, fire, state_at, dep_state, emit, transition_to_ready,
  transition_to_skipped, route_dependent, route_outcomes, transition_to_active,
  transition_guard_false, join_step, Evaluator, start_step, each_step,
}
use aceryx.Engine.Compute.Moves.{transition_routed}

-- A body that either does nothing or raises the flag, and a loop over it.
module _ {A : Type 0} (f : Sweep → A → Sweep)
    (raises : (w : Sweep) (a : A) → (f w a ≡ w) ⊎ ((f w a).changed ≡ true)) where
  fold-raised : (xs : List A) (w : Sweep) → w.changed ≡ true → (fold f w xs).changed ≡ true
  fold-raised [] w h = h
  fold-raised (x ∷ xs) w h = elim (raises w x) [
    | inl e ↦ fold-raised xs (f w x) (ap (λ (u : Sweep). u.changed) e ∙ h)
    | inr up ↦ fold-raised xs (f w x) up
  ]

  pub fold-raises : (xs : List A) (w : Sweep) → (fold f w xs ≡ w) ⊎ ((fold f w xs).changed ≡ true)
  fold-raises [] w = inl refl
  fold-raises (x ∷ xs) w = elim (raises w x) [
    | inr up ↦ inr (fold-raised xs (f w x) up)
    | inl e ↦ elim (fold-raises xs (f w x)) [ inl e' ↦ inl (e' ∙ e) | inr up ↦ inr up ]
  ]

  pub fold-unchanged :
      (xs : List A) (w : Sweep) → (fold f w xs).changed ≡ false → (a : A) → In a xs → f w a ≡ w
  fold-unchanged [] w h a i = elim i [ ]
  fold-unchanged (x ∷ xs) w h a (here e) = elim (raises w x) [
    | inl e' ↦ ap (f w) e ∙ e'
    | inr up ↦ cc (h, fold-raised xs (f w x) up)
  ]
  fold-unchanged (x ∷ xs) w h a (there i) = elim (raises w x) [
    | inl e ↦ fold-unchanged xs w (subst (λ u. (fold f u xs).changed ≡ false) e h) a i
    | inr up ↦ cc (h, fold-raised xs (f w x) up)
  ]

module _ (body : Sweep → WorkflowStep → Result EngineError Sweep)
    (raises : (w : Sweep) (s : WorkflowStep) (u : Sweep)
      → body w s ≡ ok u
      → (u ≡ w) ⊎ (u.changed ≡ true)) where
  each_step-raised :
      (steps : List WorkflowStep) (w u : Sweep)
      → each_step body w steps ≡ ok u
      → w.changed ≡ true
      → u.changed ≡ true
  unfolding each_step
  each_step-raised [] w u h on = let e : w ≡ u = cc in ap (λ (x : Sweep). x.changed) (sym e) ∙ on
  each_step-raised (s ∷ steps) w u h on =
      let (v, first, rest) = >>=-eq-ok (body w s) _ h in
      elim (raises w s v first) [
        | inl e ↦ each_step-raised steps v u rest (ap (λ (x : Sweep). x.changed) e ∙ on)
        | inr up ↦ each_step-raised steps v u rest up
      ]

  pub each_step-unchanged :
      (steps : List WorkflowStep) (w u : Sweep)
      → each_step body w steps ≡ ok u
      → u.changed ≡ false
      → (u ≡ w) × ((s : WorkflowStep) → In s steps → body w s ≡ ok w)
  unfolding each_step
  each_step-unchanged [] w u h off = (cc h, λ s i. elim i [ ])
  each_step-unchanged (s ∷ steps) w u h off =
      let (v, first, rest) = >>=-eq-ok (body w s) _ h in
      elim (raises w s v first) [
        | inr up ↦ cc (off, each_step-raised steps v u rest up)
        | inl e ↦
            let (last, bodies) =
              each_step-unchanged steps w u (subst (λ x. each_step body x steps ≡ ok u) e rest)
                off in
            (last, λ t i. at_head (first ∙ ap ok e) bodies t i)
      ]
    where
      at_head :
          {w : Sweep}
          → body w s ≡ ok w
          → ((t : WorkflowStep) → In t steps → body w t ≡ ok w)
          → (t : WorkflowStep) → In t (s ∷ steps)
          → body w t ≡ ok w
      at_head {w} first bodies t (here e) = ap (body w) e ∙ first
      at_head first bodies t (there i) = bodies t i

pub emit-raises :
    (t : Transition) (st : StepState) (w : Sweep)
    → (emit t st w ≡ w) ⊎ ((emit t st w).changed ≡ true)
unfolding emit fire
emit-raises t st w = elim (Bool-cases (is_seen w.seen t.step_id t.type)) [
  | inl old ↦ inl (rw old)
  | inr new ↦ inr (rw new)
]

pub route_dependent-raises :
    (s : WorkflowStep) (selected : String) (w : Sweep) (d : String)
    → (route_dependent s selected w d ≡ w) ⊎ ((route_dependent s selected w d).changed ≡ true)
unfolding route_dependent
route_dependent-raises s selected w d =
    elim (emit-raises (transition_routed selected d (dep_state w.virtual d)) (state_at w.virtual d)
      w) [ inl e ↦ ground arith | inr up ↦ ground arith ]

pub route_outcomes-raises :
    (reverse : Map (List String)) (w : Sweep) (s : WorkflowStep)
    → (route_outcomes reverse w s ≡ w) ⊎ ((route_outcomes reverse w s).changed ≡ true)
unfolding route_outcomes
route_outcomes-raises reverse w s =
    let selected = extract_outcome (state_at w.virtual s.id).result in
    elim (fold-raises (route_dependent s selected) (route_dependent-raises s selected)
      (list_at reverse s.id) w) [ inl e ↦ ground arith | inr up ↦ ground arith ]

pub join_step-raises :
    (w : Sweep) (s : WorkflowStep) (u : Sweep) → join_step w s ≡ ok u → (u ≡ w) ⊎ (u.changed ≡ true)
unfolding join_step
join_step-raises w s u h = ground (
  arith,
  emit-raises (transition_to_ready s.id false) (state_at w.virtual s.id) w,
  emit-raises (transition_to_ready s.id true) (state_at w.virtual s.id) w,
  emit-raises (transition_to_skipped s.id) (state_at w.virtual s.id) w,
)

pub start_step-raises :
    {Ctx : Type 0} (evaluator : Option (Evaluator Ctx)) (ctx : Ctx) (w : Sweep) (s : WorkflowStep)
    (u : Sweep)
    → start_step evaluator ctx w s ≡ ok u
    → (u ≡ w) ⊎ (u.changed ≡ true)
unfolding start_step
start_step-raises evaluator ctx w s u h = ground (
  arith,
  emit-raises (transition_to_active s.id) (state_at w.virtual s.id) w,
  emit-raises (transition_guard_false s.id) (state_at w.virtual s.id) w,
)
