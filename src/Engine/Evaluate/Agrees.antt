-- ===== src/Engine/Evaluate/Agrees.antt =====
-- The rows of a case follow the states with which computeTransitions works: the WHERE clause of
-- each UPDATE holds for the row that the transition is about.
use aceryx.Prelude.{
  ℕ, String, ◌≡◌, ◌≢◌, refl, sym, ap, ◌∙◌, subst, inl, inr, true, false, Option, some, List, [],
  ◌∷◌, ◌++◌, map, ok, >>=-eq-ok, ok-injective, All, All-map, In, fold, arith, ◌==◌, eq_iff,
  text_cases, Option-cases, Bool-cases,
}
use aceryx.Prelude.Map.{Map, lookup, insert, lookup-insert_self, lookup-insert_ne}
use aceryx.Json.{Json}
use aceryx.Engine.Types.{
  State, pending, ready, TransitionType, Transition, WorkflowStep, WorkflowAst, StepState,
}
use aceryx.Engine.Ast.{step_map}
use aceryx.Engine.Compute.{
  state_at, dep_state, Evaluator, blank_state, start, add_pending, compute_transitions,
}
use aceryx.Engine.Compute.Moves.{Edge, release, skip_pending, skip_ready, activate, Enabled}
use aceryx.Engine.Compute.Progress.{Trace, done, next, apply}
use aceryx.Engine.Compute.Quiet.{compute_transitions_correct}
use aceryx.Engine.Store.{StepRow, CaseRow, update_where}
use aceryx.Engine.Cases.{applies, applied_row, apply_transition}
use aceryx.Engine.Evaluate.{
  loaded, load_from, transition_events, load_step_states, dispatched_by, apply_all, eval_context,
  evaluate_dag,
}

-- The unique index on (case_id, step_id).
abbrev pub DistinctRows : List StepRow → Type 0
DistinctRows [] = Unit
DistinctRows (row ∷ rows) = All (λ other. other.step_id ≢ row.step_id) rows × DistinctRows rows

-- Each row has the state that `v` has for its step.
abbrev pub Agrees : Map StepState → List StepRow → Type 0
Agrees v rows = All (λ row. dep_state v row.step_id ≡ row.state) rows

load_from-keeps :
    (m : Map StepState) (rows : List StepRow) (k : String)
    → All (λ row. row.step_id ≢ k) rows
    → lookup k (load_from m rows) ≡ lookup k m
unfolding load_from
load_from-keeps m [] k ne = refl
load_from-keeps m (row ∷ rows) k ne =
    load_from-keeps (insert row.step_id (loaded row) m) rows k ne.1
    ∙ lookup-insert_ne (loaded row) m ne.0

load_from-found :
    (m : Map StepState) (rows : List StepRow)
    → DistinctRows rows
    → All (λ row. lookup row.step_id (load_from m rows) ≡ some (loaded row)) rows
unfolding load_from
load_from-found m [] d = tt
load_from-found m (row ∷ rows) d = (
  load_from-keeps (insert row.step_id (loaded row) m) rows row.step_id d.0
      ∙ lookup-insert_self row.step_id (loaded row) m,
  load_from-found (insert row.step_id (loaded row) m) rows d.1,
)

add_pending-keeps :
    (m : Map StepState) (steps : List WorkflowStep) (k : String) (s : StepState)
    → lookup k m ≡ some s
    → lookup k (add_pending m steps) ≡ some s
add_pending-keeps m [] k s e = e
add_pending-keeps m (step ∷ steps) k s e = elim (Option-cases (lookup step.id m)) [
  | inr (old, there_is) ↦ rw (there_is, add_pending) (add_pending-keeps m steps k s e)
  | inl missing ↦
      rw (missing, add_pending)
        (add_pending-keeps
          (insert step.id (record blank_state { step_id = step.id; state = pending }) m) steps k s
          (elim (text_cases step.id k) [
            | inl p ↦ cc (missing, e, ap (λ x. lookup x m) p)
            | inr q ↦
                lookup-insert_ne (record blank_state { step_id = step.id; state = pending }) m q.1
                ∙ e
          ]))
]

found_state :
    (ast : WorkflowAst) (m : Map StepState) (row : StepRow)
    → lookup row.step_id m ≡ some (loaded row)
    → dep_state (start ast m).virtual row.step_id ≡ row.state
found_state ast m row found =
    rw (add_pending-keeps m ast.steps row.step_id (loaded row) found, dep_state, state_at)

-- At the start the states are those of the rows.
pub start-Agrees :
    (ast : WorkflowAst) (rows : List StepRow)
    → DistinctRows rows
    → Agrees (start ast (load_step_states rows)).virtual rows
unfolding load_step_states
start-Agrees ast rows d =
    All-map (λ row found. found_state ast (load_from [] rows) row found) rows
      (load_from-found [] rows d)

-- Along an edge the WHERE clause holds, and the row gets the state of the edge's end.
applied_along :
    {x y : State} {ty : TransitionType}
    → Edge x y ty
    → (now : ℕ) (fresh : String → String) (t : Transition) (row : StepRow) → t.from ≡ x
    → t.to ≡ y
    → t.type ≡ ty
    → row.state ≡ x
    → (row.step_id == t.step_id) ≡ true
    → (applies t row ≡ true) × ((applied_row now fresh t row).state ≡ t.to)
applied_along release now fresh t row f to ty st id = (ground arith, ground arith)
applied_along skip_pending now fresh t row f to ty st id = (ground arith, ground arith)
applied_along skip_ready now fresh t row f to ty st id = (ground arith, ground arith)
applied_along activate now fresh t row f to ty st id = (ground arith, ground arith)

applied_row_step_id :
    (now : ℕ) (fresh : String → String) (t : Transition) (row : StepRow)
    → (applied_row now fresh t row).step_id ≡ row.step_id
applied_row_step_id now fresh t row = ground arith

apply_self : (t : Transition) (v : Map StepState) → dep_state (apply t v) t.step_id ≡ t.to
apply_self t v = rw (
  lookup-insert_self t.step_id (record (state_at v t.step_id) { state = t.to }) v,
  dep_state,
  state_at,
)

apply_ne :
    (t : Transition) (v : Map StepState) {k : String}
    → ¬ (t.step_id ≡ k)
    → dep_state (apply t v) k ≡ dep_state v k
apply_ne t v ne =
    rw (lookup-insert_ne (record (state_at v t.step_id) { state = t.to }) v ne, dep_state, state_at)

-- The states after the transition, and those of the rows after its UPDATE.
apply_transition-Agrees :
    (v : Map StepState) (now : ℕ) (fresh : String → String) {x y : State} {ty : TransitionType}
    (t : Transition)
    → Edge x y ty
    → t.from ≡ x
    → t.to ≡ y
    → t.type ≡ ty
    → dep_state v t.step_id ≡ t.from
    → (rows : List StepRow) → Agrees v rows
    → Agrees (apply t v) (apply_transition now fresh t rows)
unfolding apply_transition update_where
apply_transition-Agrees v now fresh t e f to ty from [] a = tt
apply_transition-Agrees v now fresh t e f to ty from (row ∷ rows) a =
    let rest = apply_transition-Agrees v now fresh t e f to ty from rows a.1 in
    elim (text_cases row.step_id t.step_id) [
      | inl same ↦
          let (on, moved) =
            applied_along e now fresh t row f to ty (sym a.0 ∙ ap (dep_state v) same ∙ from ∙ f)
              ((eq_iff row.step_id t.step_id).1 same) in
          rw on (
            ap (dep_state (apply t v)) (applied_row_step_id now fresh t row ∙ same)
                ∙ apply_self t v
                ∙ sym moved,
            rest,
          )
      | inr other ↦ rw other.0 (apply_ne t v (λ p. other.1 (sym p)) ∙ a.0, rest)
    ]

-- The rows after the loop over the transitions.
abbrev pub rows_after : ℕ → (String → String) → List Transition → List StepRow → List StepRow
rows_after now fresh ts rows = fold (λ kept t. apply_transition now fresh t kept) rows ts

pub rows_after_append :
    (now : ℕ) (fresh : String → String) (ts us : List Transition) (rows : List StepRow)
    → rows_after now fresh (ts ++ us) rows ≡ rows_after now fresh us (rows_after now fresh ts rows)
rows_after_append now fresh [] us rows = refl
rows_after_append now fresh (t ∷ ts) us rows =
    rows_after_append now fresh ts us (apply_transition now fresh t rows)

pub apply_all_rows :
    (now : ℕ) (fresh : String → String) (by_id : Map WorkflowStep) (ts : List Transition)
    (c : CaseRow) (dispatch : List WorkflowStep)
    → (apply_all now fresh by_id ts (c, dispatch)).0.steps ≡ rows_after now fresh ts c.steps
unfolding apply_all
apply_all_rows now fresh by_id [] c dispatch = refl
apply_all_rows now fresh by_id (t ∷ ts) c dispatch =
    apply_all_rows now fresh by_id ts
      (record c {
        steps = apply_transition now fresh t c.steps;
        audit = c.audit ++ transition_events t;
      })
      (dispatch ++ dispatched_by by_id t)

pub Trace-Agrees :
    (ast : WorkflowAst) (evaluator : Option (Evaluator Json)) (ctx : Json) (now : ℕ)
    (fresh : String → String) {v u : Map StepState} {ts : List Transition}
    → Trace ast evaluator ctx v u ts
    → (rows : List StepRow) → Agrees v rows
    → Agrees u (rows_after now fresh ts rows)
Trace-Agrees ast evaluator ctx now fresh done rows a = a
Trace-Agrees ast evaluator ctx now fresh (next {u} {ts} before t e) rows a =
    subst (Agrees (apply t u)) (sym (rows_after_append now fresh ts (t ∷ []) rows)) (
      apply_transition-Agrees u now fresh t e.edge refl refl refl e.from
        (rows_after now fresh ts rows) (Trace-Agrees ast evaluator ctx now fresh before rows a))

step_ids_after :
    (now : ℕ) (fresh : String → String) (t : Transition) (rows : List StepRow)
    → map (λ row. row.step_id) (apply_transition now fresh t rows) ≡ map (λ row. row.step_id) rows
unfolding apply_transition update_where
step_ids_after now fresh t [] = refl
step_ids_after now fresh t (row ∷ rows) = elim (Bool-cases (applies t row)) [
  | inl e ↦
      rw (e, applied_row_step_id now fresh t row)
        (ap (λ ids. row.step_id ∷ ids) (step_ids_after now fresh t rows))
  | inr e ↦ rw (e) (ap (λ ids. row.step_id ∷ ids) (step_ids_after now fresh t rows))
]

step_ids_after_all :
    (now : ℕ) (fresh : String → String) (ts : List Transition) (rows : List StepRow)
    → map (λ row. row.step_id) (rows_after now fresh ts rows) ≡ map (λ row. row.step_id) rows
step_ids_after_all now fresh [] rows = refl
step_ids_after_all now fresh (t ∷ ts) rows =
    step_ids_after_all now fresh ts (apply_transition now fresh t rows)
    ∙ step_ids_after now fresh t rows

-- What an evaluation from `c` to `c'` does: the transitions `ts` are those that are computed from
-- the states of the rows of `c`, each of them was enabled when it was made, and `v` are the states
-- that they lead to from those of `c`. The rows of `c'` are the same steps in the states of `v`,
-- where no transition is left to make and no step of the workflow is ready.
pub record IsEvaluated (ast : WorkflowAst) (evaluator : Option (Evaluator Json)) (c c' : CaseRow)
    : Type 0 where
  pub ts : List Transition
  pub v : Map StepState
  pub computed :
      compute_transitions ast evaluator (eval_context c.data_column) (load_step_states c.steps)
      ≡ ok ts
  pub begins : Agrees (start ast (load_step_states c.steps)).virtual c.steps
  pub trace :
      Trace ast evaluator
        (eval_context c.data_column)
        (start ast (load_step_states c.steps)).virtual
        v
        ts
  pub same_steps : map (λ row. row.step_id) c'.steps ≡ map (λ row. row.step_id) c.steps
  pub agrees : Agrees v c'.steps
  pub quiet : (t : Transition) → ¬ Enabled ast evaluator (eval_context c.data_column) v t
  pub no_ready : (s : WorkflowStep) → In s ast.steps → dep_state v s.id ≢ ready

-- An evaluation that succeeds on a case that is not cancelled, and whose rows are of different
-- steps, computes transitions from the states of the rows, each of them enabled when it is made, and
-- leaves the same rows, every one in the state that these transitions lead to from there, where no
-- transition is left to make and no step of the workflow is ready.
pub evaluate_dag-Agrees :
    (now : ℕ) (fresh : String → String) (ast : WorkflowAst) (evaluator : Option (Evaluator Json))
    (c c' : CaseRow) (dispatch : List WorkflowStep)
    → DistinctRows c.steps
    → (c.status == "cancelled") ≡ false
    → evaluate_dag now fresh ast evaluator c ≡ ok (c', dispatch)
    → IsEvaluated ast evaluator c c'
unfolding evaluate_dag
evaluate_dag-Agrees now fresh ast evaluator c c' dispatch d live h =
    let ctx = eval_context c.data_column in
    let (ts, run, last) =
      >>=-eq-ok (compute_transitions ast evaluator ctx (load_step_states c.steps)) _
        (rw (live, evaluate_dag) at h) in
    let (v, trace, quiet, no_ready) =
      compute_transitions_correct ast evaluator ctx (load_step_states c.steps) ts run in
    let rows : rows_after now fresh ts c.steps ≡ c'.steps =
      sym (apply_all_rows now fresh (step_map ast) ts c [])
      ∙ ap (λ (p : CaseRow × List WorkflowStep). p.0.steps) (ok-injective last) in
    record {
      ts = ts;
      v = v;
      computed = run;
      begins = start-Agrees ast c.steps d;
      trace = trace;
      same_steps =
          ap (λ kept. map (λ row. row.step_id) kept) (sym rows)
          ∙ step_ids_after_all now fresh ts c.steps;
      agrees =
          subst (Agrees v) rows
            (Trace-Agrees ast evaluator ctx now fresh trace c.steps (start-Agrees ast c.steps d));
      quiet = quiet;
      no_ready = no_ready;
    }
