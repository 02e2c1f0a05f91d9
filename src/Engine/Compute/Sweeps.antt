-- ===== src/Engine/Compute/Sweeps.antt =====
-- The loops of a sweep, and the sweeps one after another, make only moves that are enabled.
use aceryx.Prelude.{
  String, ◌≡◌, refl, sym, ap, ◌∙◌, subst, inl, inr, Bool, true, false, ◌&&◌, Option, List, [], ◌∷◌,
  Result, ok, >>=-eq-ok, In, here, there, In-map, length, is_empty, fold, ltb, nat_eq, arith, ◌==◌,
  if◌then◌else◌, eq_iff, Bool-cases, ltb→lt, ok-injective,
}
use aceryx.Engine.Types.{pending, Transition, WorkflowStep, WorkflowAst, EngineError}
use aceryx.Engine.Ast.{normalized_join, step_ids, reverse_dependencies}
use aceryx.Engine.Compute.{
  is_pending, is_ready, Sweep, state_at, dep_state, emit, route_outcomes, transition_to_ready,
  transition_to_skipped, terminal_count, completed_count, skipped_count, all_terminal, join_step,
  transition_guard_false, transition_to_active, Evaluator, evaluate_guard, start_step, each_step,
  sweep,
}
use aceryx.Engine.Compute.Moves.{
  Edge, release, skip_pending, skip_ready, activate, Because, no_dependencies, all_joined,
  any_joined, all_skipped, guard_held, guard_failed, Enabled, Runs, same, Runs-trans, Runs-emit,
  route_outcomes-Runs, is_pending→eq, is_ready→eq,
}

pub is_empty→eq : (ids : List String) → is_empty ids ≡ true → ids ≡ []
is_empty→eq [] h = refl
is_empty→eq (x ∷ ids) h = cc

module _ {Ctx : Type 0} (ast : WorkflowAst) (evaluator : Option (Evaluator Ctx)) (ctx : Ctx) where
  abbrev Run : Sweep → Sweep → Type 0
  Run w u = Runs ast evaluator ctx w u

  pub fold-Runs :
      (steps : List WorkflowStep) (w : Sweep)
      → ((s : WorkflowStep) → In s steps → In s ast.steps)
      → Run w (fold (route_outcomes (reverse_dependencies ast)) w steps)
  fold-Runs [] w known = same
  fold-Runs (s ∷ steps) w known =
      Runs-trans ast evaluator ctx (route_outcomes-Runs ast evaluator ctx w s (known s (here refl)))
        (fold-Runs steps _ (λ t i. known t (there i)))

  pub each_step-Runs :
      (body : Sweep → WorkflowStep → Result EngineError Sweep)
      → ((w : Sweep) (s : WorkflowStep) (u : Sweep) → In s ast.steps → body w s ≡ ok u → Run w u)
      → (steps : List WorkflowStep) (w u : Sweep)
      → ((s : WorkflowStep) → In s steps → In s ast.steps)
      → each_step body w steps ≡ ok u
      → Run w u
  unfolding each_step
  each_step-Runs body each [] w u known h = let e : w ≡ u = cc in subst (Run w) e same
  each_step-Runs body each (s ∷ steps) w u known h =
      let (v, first, rest) = >>=-eq-ok (body w s) _ h in
      Runs-trans ast evaluator ctx (each w s v (known s (here refl)) first)
        (each_step-Runs body each steps v u (λ t i. known t (there i)) rest)

  pub own_Enabled :
      (w : Sweep) (s : WorkflowStep) (t : Transition)
      → In s ast.steps
      → t.step_id ≡ s.id
      → Edge t.from t.to t.type
      → dep_state w.virtual s.id ≡ t.from
      → Because ast evaluator ctx w.virtual t
      → Enabled ast evaluator ctx w.virtual t
  own_Enabled w s t i same_id edge from because = record {
    known = subst (λ x. In x (step_ids ast)) (sym same_id) (In-map (λ x. x.id) i);
    edge = edge;
    from = ap (dep_state w.virtual) same_id ∙ from;
    because = because;
  }

  -- A move of the step `s` itself, from the state that it is in.
  own_move :
      (w : Sweep) (s : WorkflowStep) (t : Transition)
      → In s ast.steps
      → t.step_id ≡ s.id
      → Edge t.from t.to t.type
      → dep_state w.virtual s.id ≡ t.from
      → Because ast evaluator ctx w.virtual t
      → Run w (emit t (state_at w.virtual s.id) w)
  own_move w s t i same_id edge from because =
      subst (λ x. Run w (emit t (state_at w.virtual x) w)) same_id
        (Runs-emit ast evaluator ctx w t (own_Enabled w s t i same_id edge from because))

  pub start_step-Runs :
      (w : Sweep) (s : WorkflowStep) (u : Sweep)
      → In s ast.steps
      → start_step evaluator ctx w s ≡ ok u
      → Run w u
  unfolding start_step
  start_step-Runs w s u i h = elim (Bool-cases (is_ready (dep_state w.virtual s.id))) [
    | inr off ↦ let e : w ≡ u = cc (rw (off, start_step) at h) in subst (Run w) e same
    | inl on ↦
        let at_ready = is_ready→eq (dep_state w.virtual s.id) on in
        let (holds, guard, last) =
          >>=-eq-ok (evaluate_guard evaluator ctx s) _ (rw (on, start_step) at h) in
        elim (Bool-cases holds) [
          | inl held ↦
              let e : emit (transition_to_active s.id) (state_at w.virtual s.id) w ≡ u =
                cc (rw held at last) in
              subst (Run w) e (
                own_move w s (transition_to_active s.id) i refl activate at_ready
                  (guard_held s i (rw held at guard) refl))
          | inr failed ↦
              let e : emit (transition_guard_false s.id) (state_at w.virtual s.id) w ≡ u =
                cc (rw failed at last) in
              subst (Run w) e (
                own_move w s (transition_guard_false s.id) i refl skip_ready at_ready
                  (guard_failed s i (rw failed at guard) refl))
        ]
  ]

  abbrev Release : Sweep → WorkflowStep → Bool → Sweep
  Release w s joined_any = emit (transition_to_ready s.id joined_any) (state_at w.virtual s.id) w

  join_all-Runs :
      (w : Sweep) (s : WorkflowStep)
      → In s ast.steps
      → dep_state w.virtual s.id ≡ pending
      → normalized_join s.join ≡ "all"
      → Run w (
          if all_terminal w.virtual s.depends_on && ltb 0 (completed_count w.virtual s.depends_on)
          then Release w s false
          else if all_terminal w.virtual s.depends_on
              && nat_eq (skipped_count w.virtual s.depends_on) (length s.depends_on)
          then emit (transition_to_skipped s.id) (state_at w.virtual s.id) w
          else w)
  join_all-Runs w s i p join = elim (Bool-cases (all_terminal w.virtual s.depends_on)) [
    | inr off ↦ rw off same
    | inl ended ↦ elim (Bool-cases (ltb 0 (completed_count w.virtual s.depends_on))) [
      | inl some_done ↦
          rw (ended, some_done)
            (own_move w s (transition_to_ready s.id false) i refl release p
              (all_joined s i join ended (ltb→lt 0 _ some_done) refl))
      | inr none_done ↦
          elim (Bool-cases (nat_eq (skipped_count w.virtual s.depends_on) (length s.depends_on))) [
            | inr off ↦ rw (ended, none_done, off) same
            | inl every ↦
                rw (ended, none_done, every)
                  (own_move w s (transition_to_skipped s.id) i refl skip_pending p
                    (all_skipped s i join ended (ground arith) (ground arith) refl))
          ]
    ]
  ]

  join_any-Runs :
      (w : Sweep) (s : WorkflowStep)
      → In s ast.steps
      → dep_state w.virtual s.id ≡ pending
      → normalized_join s.join ≡ "any"
      → Run w (if ltb 0 (terminal_count w.virtual s.depends_on) then Release w s true else w)
  join_any-Runs w s i p join = elim (Bool-cases (ltb 0 (terminal_count w.virtual s.depends_on))) [
    | inr off ↦ rw off same
    | inl on ↦ rw on (
        own_move w s (transition_to_ready s.id true) i refl release p
          (any_joined s i join (ltb→lt 0 _ on) refl))
  ]

  pub join_step-Runs :
      (w : Sweep) (s : WorkflowStep) (u : Sweep) → In s ast.steps → join_step w s ≡ ok u → Run w u
  unfolding join_step
  join_step-Runs w s u i h = elim (Bool-cases (is_pending (dep_state w.virtual s.id))) [
    | inr off ↦ let e : w ≡ u = cc (rw (off, join_step) at h) in subst (Run w) e same
    | inl on ↦
        let p = is_pending→eq (dep_state w.virtual s.id) on in
        elim (Bool-cases (is_empty s.depends_on)) [
          | inl alone ↦
              let e : Release w s false ≡ u = cc (rw (on, alone, join_step) at h) in
              subst (Run w) e (
                own_move w s (transition_to_ready s.id false) i refl release p
                  (no_dependencies s i (is_empty→eq s.depends_on alone) refl))
          | inr deps ↦ elim (Bool-cases (normalized_join s.join == "all")) [
            | inl all ↦
                subst (Run w) (ok-injective (rw (on, deps, all, join_step) at h))
                  (join_all-Runs w s i p ((eq_iff (normalized_join s.join) "all").0 all))
            | inr not_all ↦ elim (Bool-cases (normalized_join s.join == "any")) [
              | inl any ↦
                  subst (Run w) (ok-injective (rw (on, deps, not_all, any, join_step) at h))
                    (join_any-Runs w s i p ((eq_iff (normalized_join s.join) "any").0 any))
              | inr not_any ↦ cc (rw (on, deps, not_all, not_any, join_step) at h)
            ]
          ]
        ]
  ]

  -- A sweep that ends makes enabled moves.
  pub sweep-Runs :
      (w u : Sweep) → sweep ast evaluator ctx w ≡ ok u → Run (record w { changed = false }) u
  unfolding sweep
  sweep-Runs w u h =
      let (joined, first, rest) = >>=-eq-ok (each_step join_step _ ast.steps) _ h in
      Runs-trans ast evaluator ctx
        (Runs-trans ast evaluator ctx
          (fold-Runs ast.steps (record w { changed = false }) (λ s i. i))
          (each_step-Runs join_step join_step-Runs ast.steps _ joined (λ s i. i) first))
        (each_step-Runs (start_step evaluator ctx) start_step-Runs ast.steps joined u (λ s i. i)
          rest)
