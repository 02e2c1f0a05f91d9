-- ===== src/Tasks/Lifecycle/Claims.antt =====
-- internal/tasks/task_lifecycle.go: who holds a task, and who completes it.
use aceryx.Prelude.{
  ◌+◌, >>=-eq-ok, contains, ℕ, String, Bool, true, Option, none, some, List, [], ◌∷◌, ok, err, any,
  In, eq_iff, ◌≡◌, refl, sym, ap, ◌∙◌, subst, ◌⊎◌, inl, inr, Bool-cases, and_left, and_right,
}
use aceryx.Json.{Json, Fields}
use aceryx.Engine.Types.{active}
use aceryx.Engine.Cases.{Concat}
use aceryx.Tasks.Forms.{build_decision_patch}
use aceryx.Tasks.Lifecycle.{
  TaskRow, TaskCase, already_claimed, update_rows, find_row, is_unassigned, is_assigned_to,
  is_open_task, assign, with_event, Directory, is_claimable, claim_error, claim_task, is_own_task,
}
use aceryx.Tasks.Completion.{
  members, await_task, await_limit, await_rounds, complete_task, TaskDetail, payload_of,
  completed_row, completed_case, form_errors, complete_read,
}
use aceryx.Tasks.Completion.Await.{await_task_found}
use aceryx.Tasks.Lifecycle.Rows.{
  updated, In-update_rows, In-update_rows_inv, updated-yes, any-In, find_row-some, UniqueIds,
}
use aceryx.Tasks.Lifecycle.Open.{open_task, claimable_open, claimable_free}

module _ (has_role : Directory) (now : ℕ) (tenant : String) where
  pub claim_task-ok :
      (principal id : String) (c c' : TaskCase)
      → claim_task has_role now tenant principal id c ≡ ok c'
      → (any (is_claimable has_role tenant principal id c) c.steps ≡ true)
        × (c'.steps
            ≡ update_rows (is_claimable has_role tenant principal id c) (assign principal) c.steps)
        × (c'.tenant_id ≡ c.tenant_id)
  unfolding claim_task
  claim_task-ok principal id c c' h =
      elim (Bool-cases (any (is_claimable has_role tenant principal id c) c.steps)) [
        | inr e ↦ cc (rw (e, claim_task) at h)
        | inl e ↦
            let same : with_event now id principal "human" "claimed"
                  (update_rows (is_claimable has_role tenant principal id c) (assign principal)
                    c.steps)
                  c
                ≡ c' =
              cc (rw (e, claim_task) at h) in
            (e, ap (λ x. x.steps) (sym same), ap (λ x. x.tenant_id) (sym same))
      ]

  -- The rows that a claim leaves under the task's id are the claimant's.
  claimed_rows :
      (principal id : String) (c c' : TaskCase)
      → UniqueIds c.steps
      → claim_task has_role now tenant principal id c ≡ ok c'
      → (row : TaskRow) → In row c'.steps
      → row.step_id ≡ id
      → row.assigned_to ≡ some principal
  claimed_rows principal id c c' unique h row i same =
      let test = is_claimable has_role tenant principal id c in
      let (found, steps, _) = claim_task-ok principal id c c' h in
      let (held, at, t) = any-In test c.steps found in
      let (old, j, e) =
        In-update_rows_inv test (assign principal) c.steps (subst (In row) steps i) in
      let held_id =
        (open_task tenant id c held (claimable_open has_role tenant principal id c held t)).0 in
      let old_id : old.step_id ≡ id = sym (kept_id test old) ∙ ap (λ x. x.step_id) (sym e) ∙ same in
      let one : held ≡ old = unique held old at j (held_id ∙ sym old_id) in
      ap (λ x. x.assigned_to)
        (e ∙ updated-yes test (assign principal) old (subst (λ x. test x ≡ true) one t))
    where
      kept_id :
          (test : TaskRow → Bool) (r : TaskRow)
          → (updated test (assign principal) r).step_id ≡ r.step_id
      kept_id test r = elim (Bool-cases (test r)) [ inl e ↦ rw (e) refl | inr e ↦ rw (e) refl ]

  -- After a claim, a claim of the task by anyone fails as already claimed.
  pub claim_exclusive :
      (principal id : String) (c c' : TaskCase)
      → UniqueIds c.steps
      → claim_task has_role now tenant principal id c ≡ ok c'
      → (later : ℕ) (other : String)
      → claim_task has_role later tenant other id c' ≡ err already_claimed
  unfolding claim_task
  claim_exclusive principal id c c' unique h later other =
      let test = is_claimable has_role tenant other id c' in
      elim (Bool-cases (any test c'.steps)) [
        | inl e ↦
            let (row, i, t) = any-In test c'.steps e in
            let (same, _, _) =
              open_task tenant id c' row (claimable_open has_role tenant other id c' row t) in
            let taken = claimed_rows principal id c c' unique h row i same in
            cc (ap is_unassigned taken, claimable_free has_role tenant other id c' row t)
        | inr e ↦
            rw (e, claim_task)
              (ap err (reason (find_row (is_open_task tenant id c') c'.steps) refl))
      ]
    where
      reason :
          (o : Option TaskRow)
          → find_row (is_open_task tenant id c') c'.steps ≡ o
          → claim_error has_role tenant other o ≡ already_claimed
      reason none e = refl
      reason (some row) e =
          let (i, t) = find_row-some (is_open_task tenant id c') c'.steps e in
          let (same, _, _) = open_task tenant id c' row t in
          rw (claimed_rows principal id c c' unique h row i same) refl

pub own_open :
    (tenant principal id : String) (c : TaskCase) (row : TaskRow)
    → is_own_task tenant principal id c row ≡ true
    → is_open_task tenant id c row ≡ true
own_open tenant principal id c row h =
    and_left (is_open_task tenant id c row) (is_assigned_to principal row.assigned_to) h

pub List-cases :
    {A : Type 0} (xs : List A) → (xs ≡ []) ⊎ ((x : A) × (rest : List A) × (xs ≡ x ∷ rest))
List-cases [] = inl refl
List-cases (x ∷ xs) = inr (x, xs, refl)

assigned_of :
    (principal : String) (held : Option String)
    → is_assigned_to principal held ≡ true
    → held ≡ some principal
assigned_of principal none h = cc h
assigned_of principal (some who) h = ap some ((eq_iff who principal).0 h)

-- What a completion that succeeds leaves, and on what.
complete_read-case :
    (at_most : Json → Json → Bool) (is_integral : Json → Bool) (concat : Concat) (now : ℕ)
    (tenant principal id outcome : String) (given : Option Fields) (detail : TaskDetail)
    (c c' : TaskCase)
    → complete_read at_most is_integral concat now tenant principal id outcome given detail c
      ≡ ok c'
    → (form_errors at_most is_integral detail outcome (payload_of detail outcome given) ≡ [])
      × (any (is_own_task tenant principal id c) c.steps ≡ true)
      × (completed_case concat now principal id
            (update_rows
              (is_own_task tenant principal id c)
              (completed_row now outcome (payload_of detail outcome given))
              c.steps)
            (build_decision_patch detail.form_schema (members (payload_of detail outcome given)))
            c
          ≡ c')
unfolding complete_read
complete_read-case at_most is_integral concat now tenant principal id outcome given detail c c' h =
    let payload = payload_of detail outcome given in
    elim (List-cases (form_errors at_most is_integral detail outcome payload)) [
      | inr (first, rest, e) ↦ cc (rw (e, complete_read) at h)
      | inl e ↦ elim (Bool-cases (any (is_own_task tenant principal id c) c.steps)) [
        | inr t ↦ cc (rw (e, t, complete_read) at h)
        | inl t ↦ (e, t, cc (rw (e, t, complete_read) at h))
      ]
    ]

pub complete_read-steps :
    (at_most : Json → Json → Bool) (is_integral : Json → Bool) (concat : Concat) (now : ℕ)
    (tenant principal id outcome : String) (given : Option Fields) (detail : TaskDetail)
    (c c' : TaskCase)
    → complete_read at_most is_integral concat now tenant principal id outcome given detail c
      ≡ ok c'
    → update_rows
        (is_own_task tenant principal id c)
        (completed_row now outcome (payload_of detail outcome given))
        c.steps
      ≡ c'.steps
complete_read-steps at_most is_integral concat now tenant principal id outcome given detail c c' h =
    let (_, _, same) =
      complete_read-case at_most is_integral concat now tenant principal id outcome given detail c
        c' h in
    ap (λ x. x.steps) same

-- What a task that is completed was and is: an active one of the case's tenant, assigned to the
-- principal, whose data passed the checks of the form and the action, and which then holds the
-- outcome and the data.
pub complete_read-ok :
    (at_most : Json → Json → Bool) (is_integral : Json → Bool) (concat : Concat) (now : ℕ)
    (tenant principal id outcome : String) (given : Option Fields) (detail : TaskDetail)
    (c c' : TaskCase)
    → complete_read at_most is_integral concat now tenant principal id outcome given detail c
      ≡ ok c'
    → (form_errors at_most is_integral detail outcome (payload_of detail outcome given) ≡ [])
      × (c.tenant_id ≡ tenant)
      × ((row : TaskRow) × In row c.steps
          × (row.step_id ≡ id)
          × (row.state ≡ active)
          × (row.assigned_to ≡ some principal)
          × In (completed_row now outcome (payload_of detail outcome given) row) c'.steps)
complete_read-ok at_most is_integral concat now tenant principal id outcome given detail c c' h =
    let change = completed_row now outcome (payload_of detail outcome given) in
    let test = is_own_task tenant principal id c in
    let (passed, some_row, same_case) =
      complete_read-case at_most is_integral concat now tenant principal id outcome given detail c
        c' h in
    let (row, i, own) = any-In test c.steps some_row in
    let (same, tenants, live) =
      open_task tenant id c row (own_open tenant principal id c row own) in
    (
      passed,
      tenants,
      (
        row,
        i,
        same,
        live,
        assigned_of principal row.assigned_to (
            and_right (is_open_task tenant id c row) (is_assigned_to principal row.assigned_to)
              own),
        subst (In (change row)) (ap (λ x. x.steps) same_case) (
            subst (λ r. In r (update_rows test change c.steps)) (updated-yes test change row own)
              (In-update_rows test change c.steps i)),
      ),
    )

-- A completion that succeeds was of an active task of the case's tenant, assigned to the principal;
-- the outcome was one of the task's as a round of the loop read it, the data passed the checks of
-- its form and of the outcome's action, and the row is completed with the outcome and the data.
pub complete_task-ok :
    (at_most : Json → Json → Bool) (is_integral : Json → Bool) (concat : Concat) (now : ℕ)
    (tenant principal id outcome : String) (given : Option Fields) (start : ℕ)
    (reads : ℕ → Option TaskDetail) (clock : ℕ → ℕ) (c c' : TaskCase)
    → complete_task at_most is_integral concat now tenant principal id outcome given start reads
        clock c
      ≡ ok c'
    → (n : ℕ) × (detail : TaskDetail) × (reads n ≡ some detail)
      × (contains detail.outcomes outcome ≡ true)
      × (form_errors at_most is_integral detail outcome (payload_of detail outcome given) ≡ [])
      × (c.tenant_id ≡ tenant)
      × ((row : TaskRow) × In row c.steps
          × (row.step_id ≡ id)
          × (row.state ≡ active)
          × (row.assigned_to ≡ some principal)
          × In (completed_row now outcome (payload_of detail outcome given) row) c'.steps)
unfolding complete_task
complete_task-ok at_most is_integral concat now tenant principal id outcome given start reads clock
      c c' h =
    let (detail, read, done) =
      >>=-eq-ok (await_task principal outcome (start + await_limit) reads clock await_rounds 0) _
        h in
    let (n, at, _, allowed, _) =
      await_task_found principal outcome (start + await_limit) reads clock await_rounds 0 detail
        read in
    let (passed, tenants, row) =
      complete_read-ok at_most is_integral concat now tenant principal id outcome given detail c c'
        done in
    (n, detail, at, allowed, passed, tenants, row)
