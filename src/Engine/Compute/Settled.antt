-- ===== src/Engine/Compute/Settled.antt =====
-- When a sweep of computeTransitions changes nothing, no move is enabled: the map `seen` never
-- holds a transition back that could be made.
use aceryx.Prelude.{
  ◌<◌, ◌≤◌, String, ◌≡◌, ◌≢◌, refl, sym, ap, ◌∙◌, subst, subst₂, inl, inr, true, false, ◌&&◌, ◌||◌,
  Option, ok, ok-injective, In, is_empty, length, nat_eq, lt→ltb, arith, ◌==◌, eq_iff, Bool-cases,
}
use aceryx.Engine.Types.{pending, TransitionType, Transition, WorkflowStep, WorkflowAst, StepState}
use aceryx.Engine.Ast.{normalized_join, reverse_dependencies}
use aceryx.Engine.Compute.{
  is_pending, is_ready, same_type, is_seen, Sweep, state_at, dep_state, fire, emit, route_outcomes,
  transition_to_ready, transition_to_skipped, transition_guard_false, transition_to_active,
  terminal_count, completed_count, skipped_count, all_terminal, join_step, Evaluator,
  evaluate_guard, start_step,
}
use aceryx.Engine.Compute.Moves.{
  release, no_dependencies, Enabled, Runs, same, fired, state_at-fire_self,
}
use aceryx.Engine.Compute.Sweeps.{own_Enabled, is_empty→eq}
use aceryx.Engine.Compute.Progress.{weight, room, Edge-weight, weight-fire}

-- A transition that was made has left its step with no move of the same type.
pub record SeenOk (w : Sweep) : Type 0 where
  pub spent :
      (k : String) (ty : TransitionType)
      → is_seen w.seen k ty ≡ true
      → weight (dep_state w.virtual k) ≤ room ty

same_type→eq : (a b : TransitionType) → same_type a b ≡ true → a ≡ b
same_type→eq a b h = ground arith

module _ {Ctx : Type 0} (ast : WorkflowAst) (evaluator : Option (Evaluator Ctx)) (ctx : Ctx) where
  abbrev Run : Sweep → Sweep → Type 0
  Run w u = Runs ast evaluator ctx w u

  is_seen-fire :
      (w : Sweep) (t : Transition) (k : String) (ty : TransitionType)
      → is_seen (fire t (state_at w.virtual t.step_id) w).seen k ty
        ≡ (t.step_id == k && same_type t.type ty || is_seen w.seen k ty)
  unfolding fire
  is_seen-fire w t k ty = refl

  spent_by_fire :
      (w : Sweep) (t : Transition)
      → Enabled ast evaluator ctx w.virtual t
      → weight (dep_state (fire t (state_at w.virtual t.step_id) w).virtual t.step_id) ≤ room t.type
  spent_by_fire w t e = omega (
    arith,
    ap (λ (x : StepState). weight x.state) (state_at-fire_self t (state_at w.virtual t.step_id) w),
    Edge-weight e.edge,
  )

  SeenOk-fire :
      (w : Sweep) (t : Transition)
      → Enabled ast evaluator ctx w.virtual t
      → SeenOk w
      → SeenOk (fire t (state_at w.virtual t.step_id) w)
  SeenOk-fire w t e s = record {
    spent = λ k ty h. elim (Bool-cases (t.step_id == k && same_type t.type ty)) [
      | inl own ↦
          let same_id : t.step_id ≡ k = (eq_iff t.step_id k).0 (ground arith) in
          let same_ty : t.type ≡ ty = same_type→eq t.type ty (ground arith) in
          subst₂
            (λ x y. weight (dep_state (fire t (state_at w.virtual t.step_id) w).virtual x) ≤ room y)
            same_id same_ty (spent_by_fire w t e)
      | inr other ↦ omega (
        arith,
        weight-fire ast evaluator ctx w t e k,
        s.spent k ty (rw (other) at (sym (is_seen-fire w t k ty) ∙ h)),
      )
    ];
  }

  pub Runs-SeenOk : {w u : Sweep} → Run w u → SeenOk w → SeenOk u
  Runs-SeenOk same s = s
  Runs-SeenOk (fired {u} r t e n) s = SeenOk-fire u t e (Runs-SeenOk r s)

  -- An enabled transition is not held back.
  pub emit-Enabled :
      (w : Sweep) (t : Transition)
      → SeenOk w
      → Enabled ast evaluator ctx w.virtual t
      → (emit t (state_at w.virtual t.step_id) w).changed ≡ true
  unfolding emit fire
  emit-Enabled w t s e = elim (Bool-cases (is_seen w.seen t.step_id t.type)) [
    | inl old ↦
        absurd (omega (arith, s.spent t.step_id t.type old, ap weight e.from, Edge-weight e.edge))
    | inr new ↦ rw new
  ]

  -- A run that leaves the flag down has done nothing.
  pub Runs-unchanged : {w u : Sweep} → Run w u → u.changed ≡ false → w ≡ u
  unfolding fire
  Runs-unchanged same h = refl
  Runs-unchanged (fired r t e n) h = cc

  -- The bodies of the loops leave `w` as it is.
  pub record Fixed (w : Sweep) : Type 0 where
    pub seen_ok : SeenOk w
    pub flag : w.changed ≡ false
    pub routes :
        (s : WorkflowStep) → In s ast.steps → route_outcomes (reverse_dependencies ast) w s ≡ w
    pub joins : (s : WorkflowStep) → In s ast.steps → join_step w s ≡ ok w
    pub starts : (s : WorkflowStep) → In s ast.steps → start_step evaluator ctx w s ≡ ok w

  -- An enabled transition of the step `s` itself is made by no body.
  pub not_made :
      (w : Sweep)
      → Fixed w
      → (t : Transition) (s : WorkflowStep) → t.step_id ≡ s.id
      → Enabled ast evaluator ctx w.virtual t
      → emit t (state_at w.virtual s.id) w ≢ w
  not_made w f t s same_id e h = cc (
    emit-Enabled w t f.seen_ok e,
    f.flag,
    ap (λ (x : Sweep). x.changed)
        (subst (λ x. emit t (state_at w.virtual x) w ≡ w) (sym same_id) h),
  )

  -- A pending step that no body moves waits for something.
  pub waits :
      (w : Sweep)
      → Fixed w
      → (s : WorkflowStep) → In s ast.steps
      → dep_state w.virtual s.id ≡ pending
      → is_empty s.depends_on ≡ false
  unfolding join_step
  waits w f s i p = elim (Bool-cases (is_empty s.depends_on)) [
    | inr deps ↦ deps
    | inl alone ↦ absurd (
        not_made w f (transition_to_ready s.id false) s refl
          (own_Enabled ast evaluator ctx w s (transition_to_ready s.id false) i refl release p
            (no_dependencies s i (is_empty→eq s.depends_on alone) refl))
          (ok-injective (rw (ap is_pending p, alone, join_step) at (f.joins s i))))
  ]

  pub not_all_joined :
      (w : Sweep)
      → Fixed w
      → (s : WorkflowStep) → In s ast.steps
      → Enabled ast evaluator ctx w.virtual (transition_to_ready s.id false)
      → normalized_join s.join ≡ "all"
      → all_terminal w.virtual s.depends_on ≡ true
      → ¬ (0 < completed_count w.virtual s.depends_on)
  unfolding join_step
  not_all_joined w f s i e join ended some_done =
      not_made w f (transition_to_ready s.id false) s refl e (
        ok-injective (
          rw
            (
              ap is_pending e.from,
              waits w f s i e.from,
              (eq_iff (normalized_join s.join) "all").1 join,
              ended,
              lt→ltb 0 (completed_count w.virtual s.depends_on) some_done,
              join_step,
            )
            at (f.joins s i)))

  pub not_any_joined :
      (w : Sweep)
      → Fixed w
      → (s : WorkflowStep) → In s ast.steps
      → Enabled ast evaluator ctx w.virtual (transition_to_ready s.id true)
      → normalized_join s.join ≡ "any"
      → ¬ (0 < terminal_count w.virtual s.depends_on)
  unfolding join_step
  not_any_joined w f s i e join some_done = not_made w f (transition_to_ready s.id true) s refl e (
      ok-injective (
        rw
          (
            ap is_pending e.from,
            waits w f s i e.from,
            join,
            lt→ltb 0 (terminal_count w.virtual s.depends_on) some_done,
            join_step,
          )
          at (f.joins s i)))

  pub not_all_skipped :
      (w : Sweep)
      → Fixed w
      → (s : WorkflowStep) → In s ast.steps
      → Enabled ast evaluator ctx w.virtual (transition_to_skipped s.id)
      → normalized_join s.join ≡ "all"
      → all_terminal w.virtual s.depends_on ≡ true
      → completed_count w.virtual s.depends_on ≡ 0
      → skipped_count w.virtual s.depends_on ≢ length s.depends_on
  unfolding join_step
  not_all_skipped w f s i e join ended none_done every =
      let counted : nat_eq (skipped_count w.virtual s.depends_on) (length s.depends_on) ≡ true =
        ground arith in
      not_made w f (transition_to_skipped s.id) s refl e (
        ok-injective (
          rw
            (
              ap is_pending e.from,
              waits w f s i e.from,
              (eq_iff (normalized_join s.join) "all").1 join,
              ended,
              none_done,
              counted,
              join_step,
            )
            at (f.joins s i)))

  pub not_started :
      (w : Sweep)
      → Fixed w
      → (s : WorkflowStep) → In s ast.steps
      → Enabled ast evaluator ctx w.virtual (transition_to_active s.id)
      → evaluate_guard evaluator ctx s ≢ ok true
  unfolding start_step
  not_started w f s i e guard =
      not_made w f (transition_to_active s.id) s refl e
        (ok-injective (rw (ap is_ready e.from, guard, start_step) at (f.starts s i)))

  pub not_refused :
      (w : Sweep)
      → Fixed w
      → (s : WorkflowStep) → In s ast.steps
      → Enabled ast evaluator ctx w.virtual (transition_guard_false s.id)
      → evaluate_guard evaluator ctx s ≢ ok false
  unfolding start_step
  not_refused w f s i e guard =
      not_made w f (transition_guard_false s.id) s refl e
        (ok-injective (rw (ap is_ready e.from, guard, start_step) at (f.starts s i)))
