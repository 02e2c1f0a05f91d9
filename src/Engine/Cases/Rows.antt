-- ===== src/Engine/Cases/Rows.antt =====
-- What the operations of the engine do to each row of a case: which rows they leave as they are,
-- and the stamps that a row has in each state.
use aceryx.Prelude.{
  In, here, there, ℕ, String, ◌≡◌, refl, sym, ap, ◌∙◌, inl, inr, Bool, true, false, ◌&&◌, ◌||◌,
  Option, none, some, List, [], ◌∷◌, arith, Bool-cases, ◌==◌,
}
use aceryx.Json.{Json}
use aceryx.Engine.Types.{State, TransitionType, Transition, StepResult, WorkflowStep}
use aceryx.Engine.Compute.{is_terminal, is_pending, is_ready}
use aceryx.Engine.Compute.Moves.{Edge, release, skip_pending, skip_ready, activate}
use aceryx.Engine.Store.{StepRow, is_active, is_active_step, update_where}
use aceryx.Engine.Cases.{
  completed_row, failed_row, skipped_row, ready_row, cancelled_row, cancelled_task_row,
  cancel_human_tasks, retried_row, applies, applied_row,
}

abbrev pub is_set {ℓ} : {A : Type ℓ} → Option A → Bool
is_set none = false
is_set (some a) = true

-- A row has its end time just where its state is terminal, and an active one has its start time
-- and its request id.
pub record IsStamped (row : StepRow) : Type 0 where
  pub ended : is_set row.completed_at ≡ is_terminal row.state
  pub started : is_active row.state ≡ true → is_set row.started_at ≡ true
  pub requested : is_active row.state ≡ true → is_set row.request_id ≡ true

-- A step that has not begun.
abbrev pub is_waiting : State → Bool
is_waiting x = is_pending x || is_ready x

-- What may happen to a row: it keeps its step, a terminal one stays as it is, the stamps stay
-- right, and a step that is not waiting does not wait or begin again.
pub record Moves (row row' : StepRow) : Type 0 where
  pub same_step : row'.step_id ≡ row.step_id
  pub final : is_terminal row.state ≡ true → row' ≡ row
  pub stamped : IsStamped row → IsStamped row'
  pub halted :
      is_waiting row.state ≡ false
      → (is_waiting row'.state ≡ false) × (is_active row'.state ≡ true → is_active row.state ≡ true)

-- The rows of a list, each related to the one in its place.
abbrev pub Pairwise : (StepRow → StepRow → Type 0) → List StepRow → List StepRow → Type 0
Pairwise R [] [] = Unit
Pairwise R (row ∷ rows) (row' ∷ rows') = R row row' × Pairwise R rows rows'
Pairwise R _ _ = ⊥

pub Pairwise-refl :
    (R : StepRow → StepRow → Type 0)
    → ((row : StepRow) → R row row)
    → (rows : List StepRow) → Pairwise R rows rows
Pairwise-refl R r [] = tt
Pairwise-refl R r (row ∷ rows) = (r row, Pairwise-refl R r rows)

pub Pairwise-trans :
    (R : StepRow → StepRow → Type 0)
    → ((a b c : StepRow) → R a b → R b c → R a c)
    → (xs ys zs : List StepRow) → Pairwise R xs ys
    → Pairwise R ys zs
    → Pairwise R xs zs
Pairwise-trans R t [] [] zs p q = q
Pairwise-trans R t [] (b ∷ ys) zs p q = elim p [ ]
Pairwise-trans R t (a ∷ xs) [] zs p q = elim p [ ]
Pairwise-trans R t (a ∷ xs) (b ∷ ys) [] p q = elim q [ ]
Pairwise-trans R t (a ∷ xs) (b ∷ ys) (c ∷ zs) p q =
    (t a b c p.0 q.0, Pairwise-trans R t xs ys zs p.1 q.1)

pub update_where-Pairwise :
    (R : StepRow → StepRow → Type 0) (test : StepRow → Bool) (change : StepRow → StepRow)
    → ((row : StepRow) → test row ≡ true → R row (change row))
    → ((row : StepRow) → test row ≡ false → R row row)
    → (rows : List StepRow) → Pairwise R rows (update_where test change rows)
unfolding update_where
update_where-Pairwise R test change on off [] = tt
update_where-Pairwise R test change on off (row ∷ rows) =
    let rest = update_where-Pairwise R test change on off rows in
    elim (Bool-cases (test row)) [
      | inl chosen ↦ rw chosen (on row chosen, rest)
      | inr other ↦ rw other (off row other, rest)
    ]

pub Moves-refl : (row : StepRow) → Moves row row
Moves-refl row = record {
  same_step = refl;
  final = λ h. refl;
  stamped = λ s. s;
  halted = λ h. (h, λ a. a);
}

pub Moves-trans : (a b c : StepRow) → Moves a b → Moves b c → Moves a c
Moves-trans a b c p q = record {
  same_step = q.same_step ∙ p.same_step;
  final = λ h. let e = p.final h in q.final (ap (λ (x : StepRow). is_terminal x.state) e ∙ h) ∙ e;
  stamped = λ s. q.stamped (p.stamped s);
  halted = λ h. let (w, f) = p.halted h in let (w', g) = q.halted w in (w', λ a. f (g a));
}

-- A row that is not terminal may move to a terminal state, with its end time.
stop_Moves :
    (row row' : StepRow)
    → row'.step_id ≡ row.step_id
    → is_terminal row.state ≡ false
    → is_set row'.completed_at ≡ true
    → is_terminal row'.state ≡ true
    → Moves row row'
unfolding is_terminal
stop_Moves row row' e live ended done = record {
  same_step = e;
  final = λ h. cc (h, live);
  stamped =
      λ s. record { ended = ended ∙ sym done; started = ground arith; requested = ground arith };
  halted = λ h. (ground arith, ground arith);
}

active_not_terminal :
    (id : String) (row : StepRow) → is_active_step id row ≡ true → is_terminal row.state ≡ false
unfolding is_terminal
active_not_terminal id row h = ground arith

pub completed_Moves :
    (now : ℕ) (id : String) (r : StepResult) (j : Json) (row : StepRow)
    → is_active_step id row ≡ true
    → Moves row (completed_row now r j row)
unfolding is_terminal
completed_Moves now id r j row h =
    stop_Moves row (completed_row now r j row) refl (active_not_terminal id row h) refl refl

pub failed_Moves :
    (now : ℕ) (id message : String) (row : StepRow)
    → is_active_step id row ≡ true
    → Moves row (failed_row now message row)
unfolding is_terminal
failed_Moves now id message row h =
    stop_Moves row (failed_row now message row) refl (active_not_terminal id row h) refl refl

pub skipped_Moves :
    (now attempts : ℕ) (id message : String) (row : StepRow)
    → is_active_step id row ≡ true
    → Moves row (skipped_row now attempts message row)
unfolding is_terminal
skipped_Moves now attempts id message row h =
    stop_Moves row (skipped_row now attempts message row) refl (active_not_terminal id row h) refl
      refl

pub cancelled_Moves :
    (now : ℕ) (row : StepRow)
    → (is_pending row.state || is_ready row.state) ≡ true
    → Moves row (cancelled_row now row)
unfolding is_terminal
cancelled_Moves now row h = stop_Moves row (cancelled_row now row) refl (ground arith) refl refl

pub cancelled_task_Moves :
    (now : ℕ) (id : String) (row : StepRow)
    → is_active_step id row ≡ true
    → Moves row (cancelled_task_row now row)
unfolding is_terminal
cancelled_task_Moves now id row h =
    stop_Moves row (cancelled_task_row now row) refl (active_not_terminal id row h) refl refl

pub retried_Moves :
    (now attempt : ℕ) (id message : String) (row : StepRow)
    → is_active_step id row ≡ true
    → Moves row (retried_row now attempt message row)
unfolding is_terminal
retried_Moves now attempt id message row h = record {
  same_step = refl;
  final = λ f. cc (f, active_not_terminal id row h);
  stamped = λ s. record { ended = s.ended; started = s.started; requested = s.requested };
  halted = λ w. (w, λ a. a);
}

pub fallback_Moves :
    (id : String) (row : StepRow)
    → (row.step_id == id && is_pending row.state) ≡ true
    → Moves row (ready_row row)
unfolding is_terminal
fallback_Moves id row h = record {
  same_step = refl;
  final = ground arith;
  stamped = λ s. record {
    ended = ground (arith, s.ended);
    started = ground arith;
    requested = ground arith;
  };
  halted = λ w. (ground arith, ground arith);
}

pub applied_Moves :
    {x y : State} {ty : TransitionType}
    → Edge x y ty
    → (now : ℕ) (fresh : String → String) (t : Transition) (row : StepRow) → t.from ≡ x
    → t.type ≡ ty
    → applies t row ≡ true
    → Moves row (applied_row now fresh t row)
unfolding is_terminal
applied_Moves release now fresh t row f ty h = record {
  same_step = ground arith;
  final = ground arith;
  stamped = λ s. record {
    ended = ground (arith, s.ended);
    started = ground arith;
    requested = ground arith;
  };
  halted = λ w. (ground arith, ground arith);
}
applied_Moves skip_pending now fresh t row f ty h = record {
  same_step = ground arith;
  final = ground arith;
  stamped = λ s. record {
    ended = ground (arith, s.ended);
    started = ground arith;
    requested = ground arith;
  };
  halted = λ w. (ground arith, ground arith);
}
applied_Moves skip_ready now fresh t row f ty h = record {
  same_step = ground arith;
  final = ground arith;
  stamped = λ s. record {
    ended = ground (arith, s.ended);
    started = ground arith;
    requested = ground arith;
  };
  halted = λ w. (ground arith, ground arith);
}
applied_Moves activate now fresh t row f ty h = record {
  same_step = ground arith;
  final = ground arith;
  stamped = λ s. record {
    ended = ground (arith, s.ended);
    started = ground arith;
    requested = ground arith;
  };
  halted = λ w. (ground arith, ground arith);
}

pub cancel_human_tasks-Moves :
    (now : ℕ) (steps : List WorkflowStep) (rows : List StepRow)
    → Pairwise Moves rows (cancel_human_tasks now steps rows)
unfolding cancel_human_tasks
cancel_human_tasks-Moves now [] rows = Pairwise-refl Moves Moves-refl rows
cancel_human_tasks-Moves now (step ∷ steps) rows = elim (Bool-cases (step.type == "human_task")) [
  | inr other ↦ rw other (cancel_human_tasks-Moves now steps rows)
  | inl chosen ↦ rw chosen (
      Pairwise-trans Moves Moves-trans rows
        (update_where (is_active_step step.id) (cancelled_task_row now) rows) _
        (update_where-Pairwise Moves (is_active_step step.id) (cancelled_task_row now)
          (λ row h. cancelled_task_Moves now step.id row h) (λ row h. Moves-refl row) rows)
        (cancel_human_tasks-Moves now steps
          (update_where (is_active_step step.id) (cancelled_task_row now) rows)))
]

-- A row that an UPDATE changes is there as changed, and any other as it was.
pub update_where-In :
    (test : StepRow → Bool) (change : StepRow → StepRow) {row : StepRow} (rows : List StepRow)
    → test row ≡ true
    → In row rows
    → In (change row) (update_where test change rows)
unfolding update_where
update_where-In test change [] h i = elim i [ ]
update_where-In test change {row} (x ∷ rows) h (here e) =
    rw (ap test (sym e) ∙ h) (here (ap change e))
update_where-In test change (x ∷ rows) h (there i) = elim (Bool-cases (test x)) [
  | inl holds ↦ rw holds (there (update_where-In test change rows h i))
  | inr other ↦ rw other (there (update_where-In test change rows h i))
]

pub update_where-other :
    (test : StepRow → Bool) (change : StepRow → StepRow) {row : StepRow} (rows : List StepRow)
    → test row ≡ false
    → In row rows
    → In row (update_where test change rows)
unfolding update_where
update_where-other test change [] h i = elim i [ ]
update_where-other test change {row} (x ∷ rows) h (here e) = rw (ap test (sym e) ∙ h) (here e)
update_where-other test change (x ∷ rows) h (there i) = elim (Bool-cases (test x)) [
  | inl holds ↦ rw holds (there (update_where-other test change rows h i))
  | inr other ↦ rw other (there (update_where-other test change rows h i))
]
