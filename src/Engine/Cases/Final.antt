-- ===== src/Engine/Cases/Final.antt =====
-- What holds in every history of a case: rows that are final, rows of a cancelled case, and writes
-- of the case data that come too late. A history is made of the operations of internal/engine; other
-- packages write to the rows too, and their writes are no part of it: CreateTaskFromActivation and the
-- operations on tasks (internal/tasks), CloseCase (internal/cases) and the erasure of data
-- (internal/vault).
use aceryx.Prelude.{
  ℕ, String, ◌≡◌, refl, sym, ap, ◌∙◌, subst, inl, inr, Bool, true, false, Option, List, [], ◌∷◌, ok,
  err, All, All-map, All-of, In, here, there, all_in, nat_eq, arith, ◌==◌, Bool-cases,
}
use aceryx.Json.{Json}
use aceryx.Engine.Types.{WorkflowStep, WorkflowAst}
use aceryx.Engine.Compute.{Evaluator, is_terminal}
use aceryx.Engine.Store.{
  StepRow, CaseRow, is_active, is_active_step, update_where, case_data_conflict,
}
use aceryx.Engine.Cases.{
  Concat, cancelled_row, cancelled_task_row, cancel_human_tasks, cancel_case, update_case_data,
}
use aceryx.Engine.Cases.Rows.{
  Moves, Pairwise, update_where-Pairwise, IsStamped, is_waiting, cancel_human_tasks-Moves,
}
use aceryx.Engine.Cases.History.{Reach, Reach-Effect}
use aceryx.Engine.Cases.Writes.{update_case_data_version}

-- Every row has its successor in its place, and every row comes from one.
Pairwise-next :
    (R : StepRow → StepRow → Type 0) (rows rows' : List StepRow)
    → Pairwise R rows rows'
    → {row : StepRow} → In row rows
    → (row' : StepRow) × In row' rows' × R row row'
Pairwise-next R [] rows' p i = elim i [ ]
Pairwise-next R (x ∷ rows) [] p i = elim p [ ]
Pairwise-next R (x ∷ rows) (x' ∷ rows') p (here e) =
    (x', here refl, subst (λ r. R r x') (sym e) p.0)
Pairwise-next R (x ∷ rows) (x' ∷ rows') p (there i) =
    let (row', j, r) = Pairwise-next R rows rows' p.1 i in (row', there j, r)

Pairwise-previous :
    (R : StepRow → StepRow → Type 0) (rows rows' : List StepRow)
    → Pairwise R rows rows'
    → {row' : StepRow} → In row' rows'
    → (row : StepRow) × In row rows × R row row'
Pairwise-previous R [] [] p i = elim i [ ]
Pairwise-previous R [] (x' ∷ rows') p i = elim p [ ]
Pairwise-previous R (x ∷ rows) [] p i = elim p [ ]
Pairwise-previous R (x ∷ rows) (x' ∷ rows') p (here e) = (x, here refl, subst (R x) (sym e) p.0)
Pairwise-previous R (x ∷ rows) (x' ∷ rows') p (there i) =
    let (row, j, r) = Pairwise-previous R rows rows' p.1 i in (row, there j, r)

All-previous :
    (P : StepRow → Type 0) (rows rows' : List StepRow)
    → Pairwise Moves rows rows'
    → ((row row' : StepRow) → Moves row row' → P row → P row')
    → All P rows
    → All P rows'
All-previous P [] [] p f a = tt
All-previous P [] (x ∷ rows') p f a = elim p [ ]
All-previous P (x ∷ rows) [] p f a = elim p [ ]
All-previous P (x ∷ rows) (x' ∷ rows') p f a = (f x x' p.0 a.0, All-previous P rows rows' p.1 f a.1)

-- A row that is not of an active step of the id `id`.
abbrev Idle : String → StepRow → Type 0
Idle id row = is_active_step id row ≡ false

Idle-Moves :
    (id : String) (row row' : StepRow)
    → Moves row row'
    → (is_waiting row.state ≡ false) × Idle id row
    → (is_waiting row'.state ≡ false) × Idle id row'
Idle-Moves id row row' m h =
    let (w, f) = m.halted h.0 in
    (
      w,
      elim (Bool-cases (is_active row'.state)) [
        | inr off ↦ ground (arith, off)
        | inl on ↦ ground (arith, h.1, f on, ap (λ k. k == id) m.same_step)
      ],
    )

All-update_where :
    (P : StepRow → Type 0) (test : StepRow → Bool) (change : StepRow → StepRow)
    → ((row : StepRow) → test row ≡ true → P (change row))
    → (rows : List StepRow) → All (λ row. test row ≡ false → P row) rows
    → All P (update_where test change rows)
unfolding update_where
All-update_where P test change on [] a = tt
All-update_where P test change on (row ∷ rows) a =
    let rest = All-update_where P test change on rows a.1 in
    elim (Bool-cases (test row)) [
      | inl holds ↦ rw holds (on row holds, rest)
      | inr other ↦ rw other (a.0 other, rest)
    ]

abbrev WaitsNot : StepRow → Type 0
WaitsNot row = is_waiting row.state ≡ false

stopped_rows :
    (now : ℕ) (rows : List StepRow)
    → All WaitsNot (update_where (λ row. is_waiting row.state) (cancelled_row now) rows)
stopped_rows now rows =
    All-update_where WaitsNot (λ row. is_waiting row.state) (cancelled_row now) (λ row h. refl) rows
      (All-of (λ (row : StepRow). is_waiting row.state ≡ false → WaitsNot row) (λ row h. h) rows)

abbrev Resting : String → StepRow → Type 0
Resting id row = WaitsNot row × Idle id row

-- What the loop over ast.Steps leaves of one human task.
human_tasks_Resting :
    (now : ℕ) (steps : List WorkflowStep) (s : WorkflowStep)
    → In s steps
    → (s.type == "human_task") ≡ true
    → (rows : List StepRow) → All WaitsNot rows
    → All (Resting s.id) (cancel_human_tasks now steps rows)
unfolding cancel_human_tasks
human_tasks_Resting now [] s i h rows a = elim i [ ]
human_tasks_Resting now (x ∷ steps) s (here e) h rows a =
    let ended = update_where (is_active_step x.id) (cancelled_task_row now) rows in
    let rests : All (Resting x.id) ended =
      All-update_where (Resting x.id) (is_active_step x.id) (cancelled_task_row now)
        (λ row f. (refl, ground arith)) rows
        (All-map {Q = λ row. is_active_step x.id row ≡ false → Resting x.id row} (λ row w o. (w, o))
          rows a) in
    subst (λ (k : WorkflowStep). All (Resting k.id) (cancel_human_tasks now (x ∷ steps) rows))
      (sym e)
      (rw (ap (λ (k : WorkflowStep). k.type == "human_task") (sym e) ∙ h) (
        All-previous (Resting x.id) ended (cancel_human_tasks now steps ended)
          (cancel_human_tasks-Moves now steps ended) (λ row row' m r. Idle-Moves x.id row row' m r)
          rests))
human_tasks_Resting now (x ∷ steps) s (there i) h rows a =
    elim (Bool-cases (x.type == "human_task")) [
      | inr other ↦ rw other (human_tasks_Resting now steps s i h rows a)
      | inl task ↦ rw task (
          human_tasks_Resting now steps s i h
            (update_where (is_active_step x.id) (cancelled_task_row now) rows)
            (All-update_where WaitsNot (is_active_step x.id) (cancelled_task_row now)
              (λ row f. refl) rows
              (All-map {Q = λ row. is_active_step x.id row ≡ false → WaitsNot row} (λ row w o. w)
                rows a)))
    ]

-- The row has kept its step, and if it is active now it was active before.
abbrev OnBefore : StepRow → StepRow → Type 0
OnBefore row row' =
    (row'.step_id ≡ row.step_id) × (is_active row'.state ≡ true → is_active row.state ≡ true)

module _ (concat : Concat) (ast : WorkflowAst) (evaluator : Option (Evaluator Json)) where
  -- In every sequence of the operations of internal/engine - completions, failures, skips, fallbacks,
  -- counted retries, writes of the case data, cancellations and evaluations - a row in a terminal
  -- state stays among the rows of its case as it is. What other packages write to the rows, as the
  -- activation of a human task does, is no such operation.
  pub terminal_row_stays :
      (c c' : CaseRow) (row : StepRow)
      → Reach concat ast evaluator c c'
      → In row c.steps
      → is_terminal row.state ≡ true
      → In row c'.steps
  terminal_row_stays c c' row r i h =
      let e = Reach-Effect concat ast evaluator r in
      let (row', j, m) = Pairwise-next Moves c.steps c'.steps e.rows i in
      subst (λ x. In x c'.steps) (m.final h) j

  -- Whatever operations of internal/engine are done to a case whose rows are stamped right, they stay
  -- so: a row has its end time just in a terminal state, and an active one has its start time and its
  -- request id.
  pub stamps_stay :
      (c c' : CaseRow)
      → Reach concat ast evaluator c c'
      → All IsStamped c.steps
      → All IsStamped c'.steps
  stamps_stay c c' r a =
      let e = Reach-Effect concat ast evaluator r in
      All-previous IsStamped c.steps c'.steps e.rows (λ row row' m s. m.stamped s) a

  -- After a cancellation of a case, whatever sequence of completions, failures, skips, fallbacks,
  -- counted retries, writes of the case data, cancellations and evaluations by internal/engine follows:
  -- the case stays cancelled, none of its rows is pending or ready, no row of a human task of the
  -- workflow is active, and a row that is active was active before the cancellation. What other
  -- packages write, as the closing of a case and the activation of a human task do, is no part of it.
  pub cancelled_case_halts :
      (now : ℕ) (reason : String) (c c' : CaseRow)
      → Reach concat ast evaluator (cancel_case now ast.steps reason c) c'
      → (c'.status ≡ "cancelled")
        × All (λ row. is_waiting row.state ≡ false) c'.steps
        × ((s : WorkflowStep)
            → In s ast.steps
            → (s.type == "human_task") ≡ true
            → All (λ row. is_active_step s.id row ≡ false) c'.steps)
        × ((row' : StepRow)
            → In row' c'.steps
            → is_active row'.state ≡ true
            → (row : StepRow) × In row c.steps
              × (row.step_id ≡ row'.step_id)
              × (is_active row.state ≡ true))
  unfolding cancel_case
  cancelled_case_halts now reason c c' r =
      let e = Reach-Effect concat ast evaluator r in
      let stopped = update_where (λ row. is_waiting row.state) (cancelled_row now) c.steps in
      let ended = cancel_human_tasks now ast.steps stopped in
      let quiet : All WaitsNot ended =
        All-previous WaitsNot stopped ended (cancel_human_tasks-Moves now ast.steps stopped)
          (λ row row' m w. (m.halted w).0) (stopped_rows now c.steps) in
      (
        e.stopped refl,
        All-previous WaitsNot ended c'.steps e.rows (λ row row' m w. (m.halted w).0) quiet,
        λ s i h.
            All-map (λ row p. p.1) c'.steps
              (All-previous (Resting s.id) ended c'.steps e.rows
                (λ row row' m p. Idle-Moves s.id row row' m p)
                (human_tasks_Resting now ast.steps s i h stopped (stopped_rows now c.steps))),
        λ row' i on.
            let (x, j, m) = Pairwise-previous Moves ended c'.steps e.rows i in
            let x_on = (m.halted (all_in WaitsNot quiet j)).1 on in
            let (z, l, n) =
              Pairwise-previous Moves stopped ended (cancel_human_tasks-Moves now ast.steps stopped)
                j in
            let z_on = (n.halted (all_in WaitsNot (stopped_rows now c.steps) l)).1 x_on in
            let (y, k, o) =
              Pairwise-previous OnBefore c.steps stopped
                (update_where-Pairwise OnBefore (λ row. is_waiting row.state) (cancelled_row now)
                  (λ row h. (refl, λ a. cc a)) (λ row h. (refl, λ a. a)) c.steps)
                l in
            (y, k, sym (m.same_step ∙ n.same_step ∙ o.0), o.1 z_on),
      )

  -- Two writers have read the same version of a case. After the first has written its patch, the
  -- second is refused with a conflict, whatever operations of internal/engine are done to the case
  -- between the two.
  pub stale_write_conflicts :
      (now later version : ℕ) (first second : Json) (c d e : CaseRow)
      → update_case_data concat now version first c ≡ ok d
      → Reach concat ast evaluator d e
      → update_case_data concat later version second e ≡ err case_data_conflict
  unfolding update_case_data
  stale_write_conflicts now later version first second c d e h r =
      let (_, w, _, _) = update_case_data_version concat now version first c d h in
      let f = Reach-Effect concat ast evaluator r in
      let other : nat_eq e.version version ≡ false = ground (arith, w, f.later) in rw other refl
