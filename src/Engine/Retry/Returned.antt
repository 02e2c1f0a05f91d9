-- ===== src/Engine/Retry/Returned.antt =====
-- internal/engine/execution_retry.go: what a run of the retry loop leaves.
use aceryx.Prelude.{
  ℕ, zero, suc, ◌+◌, String, ◌≡◌, refl, sym, subst, inl, inr, true, false, Option, some, List, [],
  ◌∷◌, ◌++◌, Result, ok, ◌>>=◌, ok-injective, In, here, there, some-injective, Bool-cases,
  Result-cases,
}
use aceryx.Prelude.Int.{ℤ, pos, ltb_ℤ}
use aceryx.Engine.Types.{WorkflowStep, StepResult, ErrorPolicy}
use aceryx.Engine.Policy.{default_error_policy_for_step, calculate_backoff}
use aceryx.Engine.Store.{StepRow, CaseRow, is_active_step}
use aceryx.Engine.Results.{or_zero}
use aceryx.Engine.Cases.{Concat, increment_retry_count, complete_step, find_active, retried_row}
use aceryx.Engine.Retry.{
  Execution, finished, awaiting_review, execution_failed, RetryError, Run, on_exhausted,
  attempts_from, allowed, execute_with_retry,
}
use aceryx.Engine.Retry.Attempts.{Execution-cases, increment_retry_count-ok}
use aceryx.Engine.Retry.Exhausted.{IsExhausted, on_exhausted-IsExhausted}

find_active-In :
    (id : String) (rows : List StepRow) (row : StepRow)
    → find_active id rows ≡ some row
    → In row rows × (is_active_step id row ≡ true)
unfolding find_active
find_active-In id [] row = λ h. cc h
find_active-In id (x ∷ rows) row = elim (Bool-cases (is_active_step id x)) [
  | inl on ↦ rw (on) (λ h.
      let same = some-injective h in
      (here (sym same), subst (λ r. is_active_step id r ≡ true) same on))
  | inr off ↦ rw (off) (λ h. let (i, on) = find_active-In id rows row h in (there i, on))
]

-- The row whose failures were counted is an active one of the step.
on_exhausted_at-IsExhausted :
    (now : ℕ) (step : WorkflowStep) (n : ℕ) (message : String) (count : ℕ) (c c' : CaseRow)
    → increment_retry_count now step.id n message c ≡ ok (count, c')
    → IsExhausted step message c' (on_exhausted now step n message c')
on_exhausted_at-IsExhausted now step n message count c c' h =
    let (row, _, _, found) = increment_retry_count-ok now step.id n message count c c' h in
    let (i, on) = find_active-In step.id c'.steps (retried_row now n message row) found in
    on_exhausted-IsExhausted now step n message c' (retried_row now n message row) i on

module _ (concat : Concat) (now : ℕ) (step : WorkflowStep) (execute : ℕ → Execution)
    (meanwhile : ℕ → CaseRow → CaseRow) where
  abbrev policy : ErrorPolicy
  policy = default_error_policy_for_step step.type step.error_policy

  -- The case after `n` attempts that failed and were counted, each with a count below what the policy
  -- allows, and the waits after them. Others write to the case while an attempt runs.
  pub data Counted (c : CaseRow) : ℕ → CaseRow → List (Option ℤ) → Type 0 where
    untried : Counted c 0 c []
    counted :
        {n : ℕ} {d : CaseRow} {waits : List (Option ℤ)}
        → Counted c n d waits
        → (message : String) (count : ℕ) (e : CaseRow) → execute (n + 1) ≡ execution_failed message
        → increment_retry_count now step.id (n + 1) message (meanwhile (n + 1) d) ≡ ok (count, e)
        → ltb_ℤ (pos count) policy.max_attempts ≡ true
        → Counted c (n + 1) e (waits ++ calculate_backoff policy count ∷ [])

  -- How the last attempt ends, on the case `d` that it finds: its step awaits a review, and nothing is
  -- written; or it is completed with the attempt's result; or the attempt failed, its count is all that
  -- the policy allows, and the step is exhausted.
  pub data Ends (n : ℕ) (d : CaseRow) (run : Run) : Type 0 where
    reviewed : execute n ≡ awaiting_review → run.case_row ≡ d → run.evaluate ≡ false → Ends n d run
    completed_at :
        (r : Option StepResult)
        → execute n ≡ finished r
        → complete_step concat now step.id (some (record (or_zero r) { attempts = n })) d
          ≡ ok (record { case_row = run.case_row; evaluate = run.evaluate })
        → Ends n d run
    given_up :
        (message : String) (count : ℕ) (e : CaseRow)
        → execute n ≡ execution_failed message
        → increment_retry_count now step.id n message d ≡ ok (count, e)
        → ltb_ℤ (pos count) policy.max_attempts ≡ false
        → IsExhausted step message e (record { case_row = run.case_row; evaluate = run.evaluate })
        → Ends n d run

  pub record Returned (c : CaseRow) (run : Run) : Type 0 where
    pub failures : ℕ
    pub d : CaseRow
    pub before : Counted c failures d run.waits
    pub last_one : run.attempts ≡ failures + 1
    pub ends : Ends run.attempts (meanwhile run.attempts d) run

  abbrev Fine : CaseRow → Result RetryError Run → Type 0
  Fine c r = (run : Run) → r ≡ ok run → Returned c run

  Fine-ok : (c : CaseRow) (run : Run) → Returned c run → Fine c (ok run)
  Fine-ok c run h other e = subst (Returned c) (ok-injective e) h

  attempts_from-Returned :
      (c : CaseRow) (fuel attempt : ℕ) (d : CaseRow) (waits : List (Option ℤ))
      → Counted c attempt d waits
      → Fine c (attempts_from concat now step execute meanwhile fuel attempt d waits)
  unfolding attempts_from
  attempts_from-Returned c zero attempt d waits before = λ run e. cc e
  attempts_from-Returned c (suc fuel) attempt d waits before =
      let n = attempt + 1 in
      let during = meanwhile n d in
      elim (Execution-cases (execute n)) [
        | inl e ↦
            rw (e, attempts_from)
              (Fine-ok c _ (record {
                failures = attempt;
                d = d;
                before = before;
                last_one = refl;
                ends = reviewed e refl refl;
              }))
        | inr (inl (r, e)) ↦
            elim (Result-cases (
              complete_step concat now step.id (some (record (or_zero r) { attempts = n }))
                during)) [
                  | inl (x, f) ↦ rw (e, attempts_from, f) (λ run g. cc g)
                  | inr (o, f) ↦
                      rw (e, attempts_from, f)
                        (Fine-ok c _ (record {
                          failures = attempt;
                          d = d;
                          before = before;
                          last_one = refl;
                          ends = completed_at r e f;
                        }))
                ]
        | inr (inr (message, e)) ↦
            elim (Result-cases (increment_retry_count now step.id n message during)) [
              | inl (x, f) ↦ rw (e, attempts_from, f) (λ run g. cc g)
              | inr ((count, kept), f) ↦ elim (Bool-cases (ltb_ℤ (pos count) policy.max_attempts)) [
                | inr last ↦
                    rw (e, attempts_from, f, ◌>>=◌, last)
                      (Fine-ok c _ (record {
                        failures = attempt;
                        d = d;
                        before = before;
                        last_one = refl;
                        ends =
                            given_up message count kept e f last
                              (on_exhausted_at-IsExhausted now step n message count during kept f);
                      }))
                | inl again ↦
                    rw (e, attempts_from, f, ◌>>=◌, again)
                      (attempts_from-Returned c fuel n kept
                        (waits ++ calculate_backoff policy count ∷ [])
                        (counted before message count kept e f again))
              ]
            ]
      ]

  -- Whatever others write to the case, a run of executeWithRetry that returns is this. Attempts fail
  -- and are counted, each with the wait of the backoff after it, as long as the count is below what
  -- the policy allows. The attempt after them is the last one, and its step awaits a review, and
  -- nothing is written; or it is completed with the attempt's result; or it fails with its count at
  -- what the policy allows. Then by `skip` the step is skipped and an evaluation asked for; by `goto:`
  -- and a step it is failed, the row of that step becomes ready where it is pending, and an
  -- evaluation is asked for; and by any other word it is failed.
  pub execute_with_retry-Returned :
      (c : CaseRow) (run : Run)
      → execute_with_retry concat now step (some execute) meanwhile c ≡ ok run
      → Returned c run
  unfolding execute_with_retry
  execute_with_retry-Returned c run h =
      attempts_from-Returned c (allowed policy.max_attempts) 0 c [] untried run h
