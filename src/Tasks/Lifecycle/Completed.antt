-- ===== src/Tasks/Lifecycle/Completed.antt =====
-- internal/tasks: a completed task is final: no run of the operations changes its row.
use aceryx.Prelude.{
  ℕ, String, Bool, true, false, ◌&&◌, Option, none, some, ok, any, In, ◌==◌, eq_iff, ◌≡◌, refl, sym,
  ap, ◌∙◌, subst, inl, inr, Bool-cases, Option-cases, and_left,
}
use aceryx.Json.{Json, Fields}
use aceryx.Engine.Types.{State, completed}
use aceryx.Engine.Store.{is_active}
use aceryx.Engine.Cases.{Concat}
use aceryx.Tasks.Lifecycle.{
  TaskRow, TaskCase, update_rows, find_row, is_open_task, assign, with_event, Directory,
  is_claimable, claim_task, is_own_task, keep_draft, save_draft, reassign_task, escalated_to,
  assign_found, escalate_task,
}
use aceryx.Tasks.Completion.{TaskDetail, payload_of, completed_row, complete_read}
use aceryx.Tasks.Lifecycle.Rows.{
  updated, In-update_rows, updated-no, any-In, find_row-some, UniqueIds, UniqueIds-update_rows,
}
use aceryx.Tasks.Lifecycle.Claims.{claim_task-ok, own_open, complete_read-steps}
use aceryx.Tasks.Lifecycle.Open.{open_task, claimable_open}

-- One operation of the service that succeeded.
pub data TaskStep (c c' : TaskCase) : Type 0 where
  claims :
      (has_role : Directory) (now : ℕ) (tenant principal id : String)
      → claim_task has_role now tenant principal id c ≡ ok c'
      → TaskStep c c'
  drafts :
      (tenant principal id : String) (draft : Json)
      → save_draft tenant principal id draft c ≡ ok c'
      → TaskStep c c'
  completes :
      (at_most : Json → Json → Bool) (is_integral : Json → Bool) (concat : Concat) (now : ℕ)
      (tenant principal id outcome : String) (given : Option Fields) (detail : TaskDetail)
      → complete_read at_most is_integral concat now tenant principal id outcome given detail c
        ≡ ok c'
      → TaskStep c c'
  reassigns :
      (now : ℕ) (tenant actor id who : String)
      → reassign_task now tenant actor id who c ≡ ok c'
      → TaskStep c c'
  escalates :
      (now : ℕ) (tenant actor id action : String) (found : Option String)
      → escalate_task now tenant actor id action found c ≡ ok c'
      → TaskStep c c'

pub data TaskRun : TaskCase → TaskCase → Type 0 where
  still : {c : TaskCase} → TaskRun c c
  then_step : {a b c : TaskCase} → TaskRun a b → TaskStep b c → TaskRun a c

-- What an operation does to the rows: it leaves the ids and the completed rows.
record Leaves (c c' : TaskCase) : Type 0 where
  unique : UniqueIds c'.steps
  kept : (row : TaskRow) → In row c.steps → row.state ≡ completed → In row c'.steps

not_open : {s : State} → s ≡ completed → is_active s ≡ false
not_open h = ap is_active h

Leaves-update :
    (c c' : TaskCase) (test : TaskRow → Bool) (change : TaskRow → TaskRow)
    → ((row : TaskRow) → (change row).step_id ≡ row.step_id)
    → UniqueIds c.steps
    → ((row : TaskRow) → In row c.steps → row.state ≡ completed → test row ≡ false)
    → update_rows test change c.steps ≡ c'.steps
    → Leaves c c'
Leaves-update c c' test change same_id unique off e = record {
  unique = subst UniqueIds e (UniqueIds-update_rows test change ids c.steps unique);
  kept = λ row i done. subst (In row) e (
      subst (λ r. In r (update_rows test change c.steps))
        (updated-no test change row (off row i done)) (In-update_rows test change c.steps i));
}
  where
    ids : (row : TaskRow) → (updated test change row).step_id ≡ row.step_id
    ids row = elim (Bool-cases (test row)) [ inl t ↦ rw (t) (same_id row) | inr t ↦ rw (t) refl ]

Leaves-same : (c c' : TaskCase) → UniqueIds c.steps → c.steps ≡ c'.steps → Leaves c c'
Leaves-same c c' unique e = record {
  unique = subst UniqueIds e unique;
  kept = λ row i done. subst (In row) e i;
}

-- A completed row is not an open task, and has not the id of an open one.
closed :
    (tenant id : String) (c : TaskCase) (row : TaskRow)
    → row.state ≡ completed
    → ¬ (is_open_task tenant id c row ≡ true)
closed tenant id c row done h = let (_, _, live) = open_task tenant id c row h in cc (live, done)

other_id :
    (c : TaskCase) (id : String) (open_row row : TaskRow)
    → UniqueIds c.steps
    → In open_row c.steps
    → open_row.step_id ≡ id
    → is_active open_row.state ≡ true
    → In row c.steps
    → row.state ≡ completed
    → (row.step_id == id) ≡ false
other_id c id open_row row unique i same live j done = elim (Bool-cases (row.step_id == id)) [
  | inr e ↦ e
  | inl e ↦
      let one : open_row ≡ row =
        unique open_row row i j (same ∙ sym ((eq_iff row.step_id id).0 e)) in
      cc (ap (λ r. is_active r.state) one, live, not_open done)
]

off_of : (b : Bool) → ¬ (b ≡ true) → b ≡ false
off_of b h = elim (Bool-cases b) [ inl e ↦ absurd (h e) | inr e ↦ e ]

draft-Leaves :
    (c c' : TaskCase) (tenant principal id : String) (draft : Json)
    → UniqueIds c.steps
    → save_draft tenant principal id draft c ≡ ok c'
    → Leaves c c'
unfolding save_draft
draft-Leaves c c' tenant principal id draft unique h =
    let test = is_own_task tenant principal id c in
    elim (Bool-cases (any test c.steps)) [
      | inr e ↦ cc (rw (e, save_draft) at h)
      | inl e ↦
          let same : record c { steps = update_rows test (keep_draft draft) c.steps } ≡ c' =
            cc (rw (e, save_draft) at h) in
          Leaves-update c c' test (keep_draft draft) (λ row. refl) unique
            (λ row i done.
              off_of (test row)
                λ t. closed tenant id c row done (own_open tenant principal id c row t))
            (ap (λ x. x.steps) same)
    ]

reassign-Leaves :
    (c c' : TaskCase) (now : ℕ) (tenant actor id who : String)
    → UniqueIds c.steps
    → reassign_task now tenant actor id who c ≡ ok c'
    → Leaves c c'
unfolding reassign_task
reassign-Leaves c c' now tenant actor id who unique h =
    elim (Bool-cases (any (is_open_task tenant id c) c.steps)) [
      | inr e ↦ cc (rw (e, reassign_task) at h)
      | inl e ↦
          let (row, i, t) = any-In (is_open_task tenant id c) c.steps e in
          let (same, _, live) = open_task tenant id c row t in
          let after : with_event now id actor "human" "reassigned"
                (update_rows (λ r. r.step_id == id) (assign who) c.steps) c
              ≡ c' =
            cc (rw (e, reassign_task) at h) in
          Leaves-update c c' (λ r. r.step_id == id) (assign who) (λ r. refl) unique
            (λ r j done. other_id c id row r unique i same (ap is_active live) j done)
            (ap (λ x. x.steps) after)
    ]

assigned_Leaves :
    (c c' : TaskCase) (id : String) (o : Option String) (row : TaskRow)
    → UniqueIds c.steps
    → In row c.steps
    → is_active row.state ≡ true
    → row.step_id ≡ id
    → assign_found id o c.steps ≡ c'.steps
    → Leaves c c'
assigned_Leaves c c' id none row unique i live same e = Leaves-same c c' unique e
assigned_Leaves c c' id (some who) row unique i live same e =
    Leaves-update c c' (λ r. r.step_id == id) (assign who) (λ r. refl) unique
      (λ r j done. other_id c id row r unique i same live j done) e

escalate-Leaves :
    (c c' : TaskCase) (now : ℕ) (tenant actor id action : String) (found : Option String)
    → UniqueIds c.steps
    → escalate_task now tenant actor id action found c ≡ ok c'
    → Leaves c c'
unfolding escalate_task
escalate-Leaves c c' now tenant actor id action found unique h =
    elim (Option-cases (find_row (λ r. r.step_id == id && c.tenant_id == tenant) c.steps)) [
      | inl e ↦ cc (rw (e, escalate_task) at h)
      | inr (row, e) ↦ elim (Bool-cases (is_active row.state)) [
        | inr idle ↦
            let after : record (with_event now id actor "system" "escalation_suppressed" c.steps
                  c) { updated_at = c.updated_at }
                ≡ c' =
              cc (rw (e, idle, escalate_task) at h) in
            Leaves-same c c' unique (ap (λ x. x.steps) after)
        | inl live ↦
            let (i, t) = find_row-some (λ r. r.step_id == id && c.tenant_id == tenant) c.steps e in
            let after : with_event now id actor "system" "escalated"
                  (assign_found id (escalated_to action found) c.steps) c
                ≡ c' =
              cc (rw (e, live, escalate_task) at h) in
            assigned_Leaves c c' id (escalated_to action found) row unique i live
              ((eq_iff row.step_id id).0 (and_left (row.step_id == id) (c.tenant_id == tenant) t))
              (ap (λ x. x.steps) after)
      ]
    ]

step-Leaves : (c c' : TaskCase) → UniqueIds c.steps → TaskStep c c' → Leaves c c'
step-Leaves c c' unique (claims has_role now tenant principal id h) =
    let test = is_claimable has_role tenant principal id c in
    let (_, steps, _) = claim_task-ok has_role now tenant principal id c c' h in
    Leaves-update c c' test (assign principal) (λ row. refl) unique
      (λ row i done.
        off_of (test row)
          λ t. closed tenant id c row done (claimable_open has_role tenant principal id c row t))
      (sym steps)
step-Leaves c c' unique (drafts tenant principal id draft h) =
    draft-Leaves c c' tenant principal id draft unique h
step-Leaves c c' unique
      (completes at_most is_integral concat now tenant principal id outcome given detail h) =
    let test = is_own_task tenant principal id c in
    let payload = payload_of detail outcome given in
    Leaves-update c c' test (completed_row now outcome payload) (λ row. refl) unique
      (λ row i done.
        off_of (test row) λ t. closed tenant id c row done (own_open tenant principal id c row t))
      (complete_read-steps at_most is_integral concat now tenant principal id outcome given detail c
        c' h)
step-Leaves c c' unique (reassigns now tenant actor id who h) =
    reassign-Leaves c c' now tenant actor id who unique h
step-Leaves c c' unique (escalates now tenant actor id action found h) =
    escalate-Leaves c c' now tenant actor id action found unique h

run-Leaves : (c c' : TaskCase) → UniqueIds c.steps → TaskRun c c' → Leaves c c'
run-Leaves c c' unique (still {c = d}) = record { unique = unique; kept = λ row i done. i }
run-Leaves c c' unique (then_step {a} {b} {c = d} run step) =
    let first = run-Leaves a b unique run in
    let last = step-Leaves b d first.unique step in
    record { unique = last.unique; kept = λ row i done. last.kept row (first.kept row i done) done }

-- The row of a completed task stays as it is, through every run of claims, drafts, completions,
-- reassignments and escalations, where the ids of the steps differ.
pub completed_task_stays :
    (c c' : TaskCase) (row : TaskRow)
    → UniqueIds c.steps
    → TaskRun c c'
    → In row c.steps
    → row.state ≡ completed
    → In row c'.steps
completed_task_stays c c' row unique run i done = (run-Leaves c c' unique run).kept row i done
