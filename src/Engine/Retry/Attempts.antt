-- ===== src/Engine/Retry/Attempts.antt =====
-- How often a step is executed, and that its runs are histories of the case.
use aceryx.Prelude.{
  ℕ, zero, suc, ◌+◌, ◌≤◌, String, ◌≡◌, ◌≢◌, refl, sym, ap, ◌∙◌, subst, ◌⊎◌, inl, inr, Bool, true,
  false, Option, none, some, List, [], ◌∷◌, ◌++◌, Result, ok, err, ◌>>=◌, ok-injective, arith,
  if◌then◌else◌, Bool-cases, Option-cases, Result-cases, some-injective,
}
use aceryx.Prelude.Int.{ℤ, pos, negsuc, ltb_ℤ, not_positive}
use aceryx.Engine.Types.{WorkflowStep, StepResult, ErrorPolicy}
use aceryx.Engine.Policy.{default_error_policy_for_step, calculate_backoff, is_remote_step}
use aceryx.Engine.Store.{StepRow, CaseRow, StoreError, is_active_step, update_where}
use aceryx.Engine.Results.{or_zero}
use aceryx.Engine.Cases.{Concat, retried_row, find_active, increment_retry_count, complete_step}
use aceryx.Engine.Retry.{
  Execution, finished, awaiting_review, execution_failed, RetryError, out_of_fuel, store, Run,
  attempts_from, allowed, execute_with_retry,
}

-- While a step is executed others do not lower its count of failures, and do not activate it again.
abbrev pub KeepsCount : String → (ℕ → CaseRow → CaseRow) → Type 0
KeepsCount id meanwhile =
    (n : ℕ) (c : CaseRow) (row' : StepRow)
    → find_active id (meanwhile n c).steps ≡ some row'
    → (row : StepRow) × (find_active id c.steps ≡ some row) × (row.retry_count ≤ row'.retry_count)

find_active-update_where :
    (id : String) (now attempt : ℕ) (message : String) (rows : List StepRow) (row : StepRow)
    → find_active id rows ≡ some row
    → find_active id (update_where (is_active_step id) (retried_row now attempt message) rows)
      ≡ some (retried_row now attempt message row)
unfolding find_active update_where
find_active-update_where id now attempt message [] row h = cc h
find_active-update_where id now attempt message (x ∷ rows) row h =
    elim (Bool-cases (is_active_step id x)) [
      | inl on ↦
          rw (on, find_active, on)
            (ap (λ r. some (retried_row now attempt message r))
              (some-injective (rw (on, find_active) at h)))
      | inr off ↦
          rw (off, find_active, off)
            (find_active-update_where id now attempt message rows row (rw (off, find_active) at h))
    ]

pub increment_retry_count-ok :
    (now : ℕ) (id : String) (attempt : ℕ) (message : String) (count : ℕ) (c c' : CaseRow)
    → increment_retry_count now id attempt message c ≡ ok (count, c')
    → (row : StepRow) × (find_active id c.steps ≡ some row)
      × (count ≡ row.retry_count + 1)
      × (find_active id c'.steps ≡ some (retried_row now attempt message row))
unfolding increment_retry_count
increment_retry_count-ok now id attempt message count c c' h =
    elim (Option-cases (find_active id c.steps)) [
      | inl e ↦ cc (rw (e, increment_retry_count) at h)
      | inr (row, e) ↦
          let same = ok-injective (rw (e, increment_retry_count) at h) in
          (
            row,
            e,
            ap (λ (p : ℕ × CaseRow). p.0) (sym same),
            ap (λ (p : ℕ × CaseRow). find_active id p.1.steps) (sym same)
                ∙ find_active-update_where id now attempt message c.steps row e,
          )
    ]

pub Execution-cases :
    (x : Execution)
    → (x ≡ awaiting_review)
      ⊎ (((r : Option StepResult) × (x ≡ finished r)) ⊎ ((e : String) × (x ≡ execution_failed e)))
Execution-cases awaiting_review = inl refl
Execution-cases (finished r) = inr (inl (r, refl))
Execution-cases (execution_failed e) = inr (inr (e, refl))

module _ (concat : Concat) (now : ℕ) (step : WorkflowStep) (execute : ℕ → Execution)
    (meanwhile : ℕ → CaseRow → CaseRow) where
  abbrev Loop : ℕ → ℕ → CaseRow → List (Option ℤ) → Result RetryError Run
  Loop fuel attempt c waits = attempts_from concat now step execute meanwhile fuel attempt c waits

  -- The loop stops, within the fuel.
  abbrev Stops : ℕ → Result RetryError Run → Type 0
  Stops most r = (r ≢ err out_of_fuel) × ((run : Run) → r ≡ ok run → run.attempts ≤ most)

  Stops-ok : (most : ℕ) (run : Run) → run.attempts ≤ most → Stops most (ok run)
  Stops-ok most run le =
      (λ e. cc e, λ r e. subst (λ (x : Run). x.attempts ≤ most) (ok-injective e) le)

  Stops-store : (most : ℕ) (x : StoreError) → Stops most (err (store x))
  Stops-store most x = (λ e. cc e, λ r e. cc e)

  abbrev policy : ErrorPolicy
  policy = default_error_policy_for_step step.type step.error_policy

  same_count :
      (n : ℕ) (message : String) (row' r : StepRow) (c' : CaseRow)
      → find_active step.id c'.steps ≡ some (retried_row now n message row')
      → find_active step.id c'.steps ≡ some r
      → r.retry_count ≡ row'.retry_count + 1
  same_count n message row' r c' f g =
      ap (λ (x : Option StepRow). elim x [ none ↦ 0 | some y ↦ y.retry_count ]) (sym g ∙ f)

  -- An attempt that ended with a result, and one that failed, where the attempts after it stop.
  completed-Stops :
      (fuel attempt : ℕ) (c : CaseRow) (waits : List (Option ℤ)) (r : Option StepResult)
      → execute (attempt + 1) ≡ finished r
      → Stops (attempt + suc fuel) (Loop (suc fuel) attempt c waits)
  unfolding attempts_from
  completed-Stops fuel attempt c waits r e =
      elim (Result-cases (
        complete_step concat now step.id (some (record (or_zero r) { attempts = attempt + 1 }))
          (meanwhile (attempt + 1) c))) [
            | inl (x, f) ↦ rw (e, attempts_from, f) (Stops-store (attempt + suc fuel) x)
            | inr (o, f) ↦ rw (e, attempts_from, f) (Stops-ok (attempt + suc fuel) _ (omega arith))
          ]

  failed-Stops :
      (fuel attempt : ℕ) (c : CaseRow) (waits : List (Option ℤ)) (m : ℕ) (message : String)
      → policy.max_attempts ≡ pos m
      → KeepsCount step.id meanwhile
      → ((row : StepRow) → find_active step.id c.steps ≡ some row → m ≤ suc fuel + row.retry_count)
      → execute (attempt + 1) ≡ execution_failed message
      → ((c' : CaseRow) (longer : List (Option ℤ))
          → 1 ≤ fuel
          → ((row : StepRow) → find_active step.id c'.steps ≡ some row → m ≤ fuel + row.retry_count)
          → Stops (attempt + 1 + fuel) (Loop fuel (attempt + 1) c' longer))
      → Stops (attempt + suc fuel) (Loop (suc fuel) attempt c waits)
  unfolding attempts_from
  failed-Stops fuel attempt c waits m message most keeps left e later =
      let n = attempt + 1 in
      let during = meanwhile n c in
      elim (Result-cases (increment_retry_count now step.id n message during)) [
        | inl (x, f) ↦ rw (e, attempts_from, f) (Stops-store (attempt + suc fuel) x)
        | inr ((count, c'), f) ↦ elim (Bool-cases (ltb_ℤ (pos count) policy.max_attempts)) [
          | inr last ↦
              rw (e, attempts_from, f, ◌>>=◌, last) (Stops-ok (attempt + suc fuel) _ (omega arith))
          | inl again ↦
              let (row', found', counted, found_next) =
                increment_retry_count-ok now step.id n message count during c' f in
              let (row, found, le) = keeps n c row' found' in
              let fuel_left : m ≤ suc fuel + row.retry_count = left row found in
              let count_below : count + 1 ≤ m = ground (arith, again, most) in
              let longer = waits ++ calculate_backoff policy count ∷ [] in
              rw (e, attempts_from, f, ◌>>=◌, again)
                (subst (λ k. Stops k (Loop fuel n c' longer)) (omega arith)
                  (later c' longer (omega (arith, fuel_left, count_below, counted, le)) (λ r g.
                    omega (arith, fuel_left, le, same_count n message row' r c' found_next g))))
        ]
      ]

  attempts_from-Stops :
      (fuel attempt : ℕ) (c : CaseRow) (waits : List (Option ℤ)) (m : ℕ)
      → policy.max_attempts ≡ pos m
      → KeepsCount step.id meanwhile
      → 1 ≤ fuel
      → ((row : StepRow) → find_active step.id c.steps ≡ some row → m ≤ fuel + row.retry_count)
      → Stops (attempt + fuel) (Loop fuel attempt c waits)
  unfolding attempts_from
  attempts_from-Stops zero attempt c waits m most keeps one left = absurd (ground arith)
  attempts_from-Stops (suc fuel) attempt c waits m most keeps one left =
      elim (Execution-cases (execute (attempt + 1))) [
        | inl e ↦ rw (e, attempts_from) (Stops-ok (attempt + suc fuel) _ (omega arith))
        | inr (inl (r, e)) ↦ completed-Stops fuel attempt c waits r e
        | inr (inr (message, e)) ↦
            failed-Stops fuel attempt c waits m message most keeps left e
              (λ c' longer. attempts_from-Stops fuel (attempt + 1) c' longer m most keeps)
      ]

allowed_positive :
    (step : WorkflowStep)
    → (m : ℕ) × ((default_error_policy_for_step step.type step.error_policy).max_attempts ≡ pos m)
      × (1 ≤ m)
unfolding default_error_policy_for_step
allowed_positive step = positive step.error_policy.max_attempts (is_remote_step step.type)
  where
    positive :
        (most : ℤ) (remote : Bool)
        → (m : ℕ) × ((if not_positive most then (if remote then pos 3 else pos 1) else most)
            ≡ pos m)
          × (1 ≤ m)
    positive (pos zero) true = (3, refl, omega arith)
    positive (pos zero) false = (1, refl, omega arith)
    positive (pos (suc m)) remote =
        let e : not_positive (pos (suc m)) ≡ false = ground arith in (suc m, rw e refl, omega arith)
    positive (negsuc m) true = (3, refl, omega arith)
    positive (negsuc m) false = (1, refl, omega arith)

-- Provided that others do not lower the count of failures of the step's active row meanwhile, the
-- loop of executeWithRetry ends, and it executes the step at most as often as the step's policy,
-- with its defaults, allows.
pub execute_with_retry_ends :
    (concat : Concat) (now : ℕ) (step : WorkflowStep) (execute : ℕ → Execution)
    (meanwhile : ℕ → CaseRow → CaseRow) (c : CaseRow)
    → KeepsCount step.id meanwhile
    → (execute_with_retry concat now step (some execute) meanwhile c ≢ err out_of_fuel)
      × ((run : Run)
          → execute_with_retry concat now step (some execute) meanwhile c ≡ ok run
          → run.attempts
            ≤ allowed (default_error_policy_for_step step.type step.error_policy).max_attempts)
unfolding execute_with_retry
execute_with_retry_ends concat now step execute meanwhile c keeps =
    let (m, most, one) = allowed_positive step in
    let e : 0 + m ≡ m = omega arith in
    rw (most, execute_with_retry)
      (subst
        (λ k.
          Stops concat now step execute meanwhile k
            (attempts_from concat now step execute meanwhile m 0 c []))
        e
        (attempts_from-Stops concat now step execute meanwhile m 0 c [] m most keeps one
          (λ row found. omega arith)))
