-- ===== src/Engine/Compute/Quiet.antt =====
-- What computeTransitions returns: a trace of enabled moves to states in which no move is enabled.
use aceryx.Prelude.{
  ℕ, zero, suc, String, ◌≡◌, ◌≢◌, refl, sym, ap, ◌∙◌, subst, inl, inr, true, false, Option, List,
  [], ◌∷◌, ok, >>=-eq-ok, ok-injective, In, fold, is_empty, Bool-cases,
}
use aceryx.Prelude.Map.{Map, list_at}
use aceryx.Engine.Types.{ready, Transition, WorkflowStep, WorkflowAst, StepState}
use aceryx.Engine.Ast.{reverse_dependencies, validate_ast}
use aceryx.Engine.Compute.{
  extract_outcome, Sweep, state_at, dep_state, emit, is_completed, is_ready, is_any_target,
  route_dependent, route_outcomes, transition_to_active, transition_guard_false, join_step,
  Evaluator, evaluate_guard, start_step, each_step, sweep, sweeps, start, enough,
  compute_transitions,
}
use aceryx.Engine.Compute.Moves.{
  Because, no_dependencies, all_joined, any_joined, all_skipped, guard_held, guard_failed, routed,
  RuledOut, transition_routed, Enabled, Edge-not_frozen, is_frozen, routed-Enabled, skip_ready,
  activate,
}
use aceryx.Engine.Compute.Sweeps.{own_Enabled, sweep-Runs}
use aceryx.Engine.Compute.Progress.{Trace, Traced, Traced-trans, sweep-Traced}
use aceryx.Engine.Compute.Flags.{
  fold-raises, fold-unchanged, each_step-unchanged, route_dependent-raises, route_outcomes-raises,
  join_step-raises, start_step-raises,
}
use aceryx.Engine.Compute.Settled.{
  SeenOk, Runs-SeenOk, emit-Enabled, Fixed, waits, not_all_joined, not_any_joined, not_all_skipped,
  not_started, not_refused,
}

module _ {Ctx : Type 0} (ast : WorkflowAst) (evaluator : Option (Evaluator Ctx)) (ctx : Ctx) where
  not_emitted :
      (w : Sweep)
      → Fixed ast evaluator ctx w
      → (t : Transition) → Enabled ast evaluator ctx w.virtual t
      → emit t (state_at w.virtual t.step_id) w ≢ w
  not_emitted w f t e h =
      cc (emit-Enabled ast evaluator ctx w t f.seen_ok e, f.flag, ap (λ (x : Sweep). x.changed) h)

  not-RuledOut :
      (w : Sweep)
      → Fixed ast evaluator ctx w
      → (s : WorkflowStep) (d : String) → RuledOut ast w.virtual s d
      → is_frozen (dep_state w.virtual d) ≢ false
  unfolding route_dependent route_outcomes
  not-RuledOut w f s d r moving =
      let selected = extract_outcome (state_at w.virtual s.id).result in
      let whole : fold (route_dependent s selected) w (list_at (reverse_dependencies ast) s.id)
          ≡ w =
        rw (ap is_completed r.finished, some_outcome s.outcomes d r.target, route_outcomes) at
          (f.routes s r.source) in
      let one =
        fold-unchanged (route_dependent s selected) (route_dependent-raises s selected)
          (list_at (reverse_dependencies ast) s.id) w (ap (λ (x : Sweep). x.changed) whole ∙ f.flag)
          d r.dependent in
      not_emitted w f (transition_routed selected d (dep_state w.virtual d))
        (routed-Enabled ast evaluator ctx w.virtual s d r moving)
        (rw (r.target, r.not_selected, moving, route_dependent) at one)
    where
      some_outcome :
          (outcomes : Map (List String)) (id : String)
          → is_any_target outcomes id ≡ true
          → is_empty outcomes ≡ false
      some_outcome [] id h = cc
      some_outcome (x ∷ rest) id h = refl

  -- Where no body of a loop has anything to do, no move is enabled.
  quiet_of_Fixed :
      (w : Sweep)
      → Fixed ast evaluator ctx w
      → (t : Transition) → ¬ Enabled ast evaluator ctx w.virtual t
  quiet_of_Fixed w f t e = go e.because
    where
      at : {t' : Transition} → t ≡ t' → Enabled ast evaluator ctx w.virtual t'
      at p = subst (Enabled ast evaluator ctx w.virtual) p e

      go : Because ast evaluator ctx w.virtual t → ⊥
      go (no_dependencies s i deps p) =
          cc (waits ast evaluator ctx w f s i (at p).from, ap is_empty deps)
      go (all_joined s i join ended done p) =
          not_all_joined ast evaluator ctx w f s i (at p) join ended done
      go (any_joined s i join done p) = not_any_joined ast evaluator ctx w f s i (at p) join done
      go (all_skipped s i join ended undone every p) =
          not_all_skipped ast evaluator ctx w f s i (at p) join ended undone every
      go (guard_held s i guard p) = not_started ast evaluator ctx w f s i (at p) guard
      go (guard_failed s i guard p) = not_refused ast evaluator ctx w f s i (at p) guard
      go (routed s r p) = not-RuledOut w f s _ r (Edge-not_frozen (at p).edge)

  sweep-Fixed :
      (w u : Sweep)
      → SeenOk w
      → sweep ast evaluator ctx w ≡ ok u
      → u.changed ≡ false
      → Fixed ast evaluator ctx u
  unfolding sweep
  sweep-Fixed w u s h off =
      let reverse = reverse_dependencies ast in
      let w0 : Sweep = record w { changed = false } in
      let (joined, first, rest) = >>=-eq-ok (each_step join_step _ ast.steps) _ h in
      let (last, starts) =
        each_step-unchanged (start_step evaluator ctx) (start_step-raises evaluator ctx) ast.steps
          joined u rest off in
      let (middle, joins) =
        each_step-unchanged join_step join_step-raises ast.steps
          (fold (route_outcomes reverse) w0 ast.steps) joined first
          (ap (λ (x : Sweep). x.changed) (sym last) ∙ off) in
      let routed_off : (fold (route_outcomes reverse) w0 ast.steps).changed ≡ false =
        ap (λ (x : Sweep). x.changed) (sym middle ∙ sym last) ∙ off in
      let begin : fold (route_outcomes reverse) w0 ast.steps ≡ w0 =
        elim (fold-raises (route_outcomes reverse) (route_outcomes-raises reverse) ast.steps w0) [
          | inl e ↦ e
          | inr up ↦ cc (up, routed_off)
        ] in
      subst (Fixed ast evaluator ctx) (sym (last ∙ middle ∙ begin)) (record {
        seen_ok = record { spent = s.spent };
        flag = refl;
        routes = λ t i.
            fold-unchanged (route_outcomes reverse) (route_outcomes-raises reverse) ast.steps w0
              routed_off t i;
        joins = λ t i. subst (λ x. join_step x t ≡ ok x) begin (joins t i);
        starts =
            λ t i. subst (λ x. start_step evaluator ctx x t ≡ ok x) (middle ∙ begin) (starts t i);
      })

  sweeps-Fixed :
      (fuel : ℕ) (w u : Sweep)
      → SeenOk w
      → sweeps ast evaluator ctx fuel w ≡ ok u
      → Fixed ast evaluator ctx u × Traced ast evaluator ctx w u
  unfolding sweeps
  sweeps-Fixed zero w u s h = cc
  sweeps-Fixed (suc fuel) w u s h =
      let (v, run, rest) = >>=-eq-ok (sweep ast evaluator ctx w) _ h in
      elim (Bool-cases v.changed) [
        | inr stopped ↦
            let e : v ≡ u = ok-injective (rw stopped at rest) in
            subst (λ x. Fixed ast evaluator ctx x × Traced ast evaluator ctx w x) e
              (sweep-Fixed w v s run stopped, sweep-Traced ast evaluator ctx w v run)
        | inl again ↦
            let s' =
              Runs-SeenOk ast evaluator ctx (sweep-Runs ast evaluator ctx w v run)
                (record { spent = s.spent }) in
            let (f, t) = sweeps-Fixed fuel v u s' (rw again at rest) in
            (f, Traced-trans ast evaluator ctx (sweep-Traced ast evaluator ctx w v run) t)
      ]

  -- A step that may start, or that its guard holds off, does not stay ready.
  not_ready :
      (w : Sweep)
      → Fixed ast evaluator ctx w
      → (s : WorkflowStep) → In s ast.steps
      → dep_state w.virtual s.id ≢ ready
  unfolding start_step
  not_ready w f s i at_ready =
      let (holds, guard, _) =
        >>=-eq-ok (evaluate_guard evaluator ctx s) _
          (rw (ap is_ready at_ready, start_step) at (f.starts s i)) in
      elim (Bool-cases holds) [
        | inl on ↦
            not_started ast evaluator ctx w f s i
              (own_Enabled ast evaluator ctx w s (transition_to_active s.id) i refl activate
                at_ready (guard_held s i (guard ∙ ap ok on) refl))
              (guard ∙ ap ok on)
        | inr off ↦
            not_refused ast evaluator ctx w f s i
              (own_Enabled ast evaluator ctx w s (transition_guard_false s.id) i refl skip_ready
                at_ready (guard_failed s i (guard ∙ ap ok off) refl))
              (guard ∙ ap ok off)
      ]

  -- The transitions that computeTransitions returns can be made one after another, each from the
  -- state that its step is in then, along the diagram and for a reason that holds at that moment;
  -- and in the states to which they lead no further transition can be made, and no step is ready.
  pub compute_transitions_correct :
      (states : Map StepState) (ts : List Transition)
      → compute_transitions ast evaluator ctx states ≡ ok ts
      → (v : Map StepState) × Trace ast evaluator ctx (start ast states).virtual v ts
        × ((t : Transition) → ¬ Enabled ast evaluator ctx v t)
        × ((s : WorkflowStep) → In s ast.steps → dep_state v s.id ≢ ready)
  unfolding compute_transitions
  compute_transitions_correct states ts h =
      let (_, _, h1) = >>=-eq-ok (validate_ast ast) _ h in
      let (w, run, last) =
        >>=-eq-ok (sweeps ast evaluator ctx (enough ast) (start ast states)) _ h1 in
      let (f, t) =
        sweeps-Fixed (enough ast) (start ast states) w (record { spent = λ k ty e. cc e }) run in
      (
        w.virtual,
        subst (Trace ast evaluator ctx (start ast states).virtual w.virtual)
            (sym t.appended ∙ ok-injective last) t.trace,
        quiet_of_Fixed w f,
        not_ready w f,
      )
