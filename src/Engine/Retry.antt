-- ===== src/Engine/Retry.antt =====
-- internal/engine/execution_retry.go: the execution of a step, again after each failure until its
-- policy is exhausted, and what is done then. The executor of a step's type is an argument.
pub mod Attempts
pub mod Exhausted
pub mod Returned
use aceryx.Prelude.{
  ℕ, zero, suc, ◌+◌, String, Bool, true, false, Option, none, some, List, [], ◌∷◌, ◌++◌, Result, ok,
  err, ◌>>=◌, nat_eq, ◌==◌, if◌then◌else◌,
}
use aceryx.Prelude.Int.{ℤ, pos, negsuc, ltb_ℤ}
use aceryx.Engine.Types.{ErrorPolicy, WorkflowStep, StepResult}
use aceryx.Engine.Policy.{default_error_policy_for_step, calculate_backoff}
use aceryx.Engine.Store.{CaseRow, Outcome, StoreError}
use aceryx.Engine.Results.{or_zero}
use aceryx.Engine.Cases.{
  Concat, is_live, complete_step, fail_step, skip_step_terminal, activate_fallback_step,
  increment_retry_count,
}
use Prim.Native.Char.{code}

-- What one call of Execute returns: a result, ErrStepAwaitingReview or another error.
pub data Execution : Type 0 where
  finished : Option StepResult → Execution
  awaiting_review : Execution
  execution_failed : String → Execution

pub data RetryError : Type 0 where
  no_executor : RetryError
  store : StoreError → RetryError
  -- not of the program: the loop was given too little fuel
  out_of_fuel : RetryError

-- What a run of the loop leaves: the case, whether an evaluation was asked for, the number of the
-- last attempt, and the waits between the attempts (`none` is a panic).
pub record Run : Type 0 where
  pub case_row : CaseRow
  pub evaluate : Bool
  pub attempts : ℕ
  pub waits : List (Option ℤ)

-- strings.TrimPrefix(s, prefix), where strings.HasPrefix(s, prefix).
unfoldable pub after_prefix : String → String → Option String
after_prefix String.[] s = some s
after_prefix (String.◌∷◌ p prefix) String.[] = none
after_prefix (String.◌∷◌ p prefix) (String.◌∷◌ c s) =
    let rest = after_prefix prefix s in if nat_eq (code p) (code c) then rest else none

unfoldable pub on_exhausted : ℕ → WorkflowStep → ℕ → String → CaseRow → Outcome
on_exhausted now step attempts message c =
    let action = (default_error_policy_for_step step.type step.error_policy).on_exhausted in
    if action == "skip"
    then record { case_row = skip_step_terminal now step.id attempts message c; evaluate = true }
    else elim (after_prefix "goto:" action) [
      | some target ↦ record {
        case_row = activate_fallback_step now target (fail_step now step.id message c).case_row;
        evaluate = true;
      }
      | none ↦ fail_step now step.id message c
    ]

abbrev pub stored : {V : Type 0} → Result StoreError V → Result RetryError V
stored (err e) = err (store e)
stored (ok v) = ok v

module _ (concat : Concat) (now : ℕ) (step : WorkflowStep) (execute : ℕ → Execution)
    (meanwhile : ℕ → CaseRow → CaseRow) where
  -- The loop, after `attempt` attempts. While attempt n runs, others may write to the case:
  -- `meanwhile n`.
  unfoldable pub attempts_from : ℕ → ℕ → CaseRow → List (Option ℤ) → Result RetryError Run
  attempts_from zero attempt c waits = err out_of_fuel
  attempts_from (suc fuel) attempt c waits =
      let n = attempt + 1 in
      let policy = default_error_policy_for_step step.type step.error_policy in
      let during = meanwhile n c in
      elim (execute n) [
        | awaiting_review ↦
            ok (record { case_row = during; evaluate = false; attempts = n; waits = waits })
        | finished result ↦
            stored (
              complete_step concat now step.id (some (record (or_zero result) { attempts = n }))
                during)
            >>= λ o. ok (record {
              case_row = o.case_row;
              evaluate = o.evaluate;
              attempts = n;
              waits = waits;
            })
        | execution_failed message ↦
            stored (increment_retry_count now step.id n message during) >>= λ counted.
            elim (ltb_ℤ (pos counted.0) policy.max_attempts) [
              | true ↦
                  attempts_from fuel n counted.1 (waits ++ calculate_backoff policy counted.0 ∷ [])
              | false ↦
                  let o = on_exhausted now step n message counted.1 in
                  ok (record {
                    case_row = o.case_row;
                    evaluate = o.evaluate;
                    attempts = n;
                    waits = waits;
                  })
            ]
      ]

-- The attempts that a policy allows.
abbrev pub allowed : ℤ → ℕ
allowed (pos m) = m
allowed (negsuc m) = 0

unfoldable pub execute_with_retry :
    Concat
    → ℕ
    → WorkflowStep
    → Option (ℕ → Execution)
    → (ℕ → CaseRow → CaseRow)
    → CaseRow
    → Result RetryError Run
execute_with_retry concat now step none meanwhile c = err no_executor
execute_with_retry concat now step (some execute) meanwhile c =
    attempts_from concat now step execute meanwhile
      (allowed (default_error_policy_for_step step.type step.error_policy).max_attempts) 0 c []
