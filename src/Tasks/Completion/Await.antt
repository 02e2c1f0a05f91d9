-- ===== src/Tasks/Completion/Await.antt =====
-- internal/tasks/task_lifecycle.go: the loop in which CompleteTask waits for an agent's review.
use aceryx.Prelude.{
  ℕ, zero, suc, ◌+◌, ◌*◌, ◌≤◌, String, Bool, true, false, Option, none, some, Result, ok, err,
  contains, ◌≡◌, ◌≢◌, refl, subst, ◌⊎◌, inl, inr, Bool-cases, arith,
}
use aceryx.Tasks.Lifecycle.{TaskError, out_of_fuel, is_assigned_to}
use aceryx.Tasks.Completion.{
  TaskDetail, is_completed, await_round, await_task, await_rounds, await_limit, await_pause,
}

module _ (principal outcome : String) where
  round_ends :
      (in_time : Bool) (later : Result TaskError TaskDetail) (read : Option TaskDetail)
      → (in_time ≡ true → later ≢ err out_of_fuel)
      → await_round principal outcome in_time later read ≢ err out_of_fuel
  round_ends in_time later none ends h = cc h
  round_ends true later (some detail) ends h = ground (arith, ends refl)
  round_ends false later (some detail) ends h = ground arith

  await_task_ends_from :
      (start : ℕ) (reads : ℕ → Option TaskDetail) (clock : ℕ → ℕ)
      → ((n : ℕ) → start + n * await_pause ≤ clock n)
      → (fuel round : ℕ) → suc fuel + round ≡ await_rounds
      → await_task principal outcome (start + await_limit) reads clock (suc fuel) round
        ≢ err out_of_fuel
  unfolding await_task
  await_task_ends_from start reads clock ticks zero round h =
      round_ends _ _ (reads round) (λ early. absurd (ground (arith, ticks round)))
  await_task_ends_from start reads clock ticks (suc fuel) round h =
      round_ends _ _ (reads round)
        (λ early. await_task_ends_from start reads clock ticks fuel (suc round) (omega arith))

  -- Where each round is 50 milliseconds or more after the one before, the loop of CompleteTask ends
  -- within 41 rounds.
  pub await_task_ends :
      (start : ℕ) (reads : ℕ → Option TaskDetail) (clock : ℕ → ℕ)
      → ((n : ℕ) → start + n * await_pause ≤ clock n)
      → await_task principal outcome (start + await_limit) reads clock await_rounds 0
        ≢ err out_of_fuel
  await_task_ends start reads clock ticks = await_task_ends_from start reads clock ticks 40 0 refl

  round_found :
      (in_time : Bool) (later : Result TaskError TaskDetail) (read : Option TaskDetail)
      (detail : TaskDetail)
      → await_round principal outcome in_time later read ≡ ok detail
      → (later ≡ ok detail)
        ⊎ ((read ≡ some detail)
            × (is_assigned_to principal detail.assigned_to ≡ true)
            × (contains detail.outcomes outcome ≡ true)
            × (is_completed detail.step_state ≡ false))
  round_found in_time later none detail h = cc h
  round_found in_time later (some d) detail h = elim (Bool-cases (is_completed d.step_state)) [
    | inl e ↦ cc (rw (e) at h)
    | inr live ↦ elim (Bool-cases (is_assigned_to principal d.assigned_to)) [
      | inl mine ↦ elim (Bool-cases (contains d.outcomes outcome)) [
        | inl allowed ↦
            let same : d ≡ detail = cc (rw (live, mine, allowed) at h) in
            inr (
              subst
                (λ x.
                  (some d ≡ some x)
                  × (is_assigned_to principal x.assigned_to ≡ true)
                  × (contains x.outcomes outcome ≡ true)
                  × (is_completed x.step_state ≡ false))
                same (refl, mine, allowed, live))
        | inr not_allowed ↦ inl (ground arith)
      ]
      | inr other ↦ inl (ground arith)
    ]
  ]

  -- What the loop gives was read at some round: a task of the principal, which is not completed and
  -- has the outcome.
  pub await_task_found :
      (deadline : ℕ) (reads : ℕ → Option TaskDetail) (clock : ℕ → ℕ) (fuel round : ℕ)
      (detail : TaskDetail)
      → await_task principal outcome deadline reads clock fuel round ≡ ok detail
      → (n : ℕ) × (reads n ≡ some detail)
        × (is_assigned_to principal detail.assigned_to ≡ true)
        × (contains detail.outcomes outcome ≡ true)
        × (is_completed detail.step_state ≡ false)
  unfolding await_task
  await_task_found deadline reads clock zero round detail h = cc h
  await_task_found deadline reads clock (suc fuel) round detail h =
      elim (round_found _ _ (reads round) detail h) [
        | inl later ↦ await_task_found deadline reads clock fuel (suc round) detail later
        | inr (read, mine, allowed, live) ↦ (round, read, mine, allowed, live)
      ]
