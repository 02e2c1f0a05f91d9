-- ===== src/Engine/RetryTests.antt =====
-- A step of the small review workflow that is executed and fails, and the waits between.
use aceryx.Prelude.{
  ◌∷◌, eq_iff, ℕ, ◌≤◌, String, ◌≡◌, ◌≢◌, refl, false, none, some, [], ok, err, In, arith,
}
use aceryx.Prelude.Int.{pos, ◌≤ℤ◌}
use aceryx.Json.{str, document}
use aceryx.Engine.Results.{marshal_result}
use aceryx.Engine.Types.{WorkflowStep, WorkflowAst, ErrorPolicy, active}
use aceryx.Engine.Policy.{calculate_backoff, default_error_policy_for_step}
use aceryx.Engine.Policy.Backoff.{effective}
use aceryx.Engine.Store.{CaseRow, update_where}
use aceryx.Engine.Cases.{
  complete_step, fail_step, activate_fallback_step, increment_retry_count, find_active,
}
use aceryx.Engine.Retry.{
  Execution, execution_failed, Run, out_of_fuel, allowed, attempts_from, after_prefix, on_exhausted,
  execute_with_retry,
}
use aceryx.Engine.Retry.Attempts.{KeepsCount, execute_with_retry_ends}
use aceryx.Engine.Retry.Returned.{Returned, execute_with_retry-Returned}
use aceryx.Engine.Recovery.{
  dispatches, evaluates, recover_case, recover_row, recover_step, idempotent_step,
}
use aceryx.Engine.Recovery.Recovered.{IsRecovered, recover_case-IsRecovered}
use aceryx.Engine.Tests.{plain_step, no_policy}
use aceryx.Engine.CaseTests.{row_of, claim_case, right_value, ok_or}

abbrev fails_always : ℕ → Execution
fails_always n = execution_failed "no answer"

abbrev alone : ℕ → CaseRow → CaseRow
alone n c = c

alone-KeepsCount : KeepsCount "review" alone
alone-KeepsCount n c row found = (row, found, omega arith)

abbrev review_step : WorkflowStep
review_step = record (plain_step "review" [] []) {
  error_policy = record no_policy { max_attempts = pos 2 };
}

execute_with_retry_ends_example :
    (execute_with_retry right_value 5 review_step (some fails_always) alone claim_case
      ≢ err out_of_fuel)
    × ((run : Run)
        → execute_with_retry right_value 5 review_step (some fails_always) alone claim_case ≡ ok run
        → run.attempts
          ≤ allowed
              (default_error_policy_for_step "human_task" review_step.error_policy).max_attempts)
execute_with_retry_ends_example =
    execute_with_retry_ends right_value 5 review_step fails_always alone claim_case alone-KeepsCount

-- The payment takes the place of a review that failed twice.
abbrev diverted_step : WorkflowStep
diverted_step = record (plain_step "review" [] []) {
  error_policy = record no_policy { max_attempts = pos 2; on_exhausted = "goto:pay" };
}

abbrev exhausted : Run
exhausted =
    ok_or (record { case_row = claim_case; evaluate = false; attempts = 0; waits = [] })
      (execute_with_retry right_value 5 diverted_step (some fails_always) alone claim_case)

execute_with_retry-exhausted :
    execute_with_retry right_value 5 diverted_step (some fails_always) alone claim_case
    ≡ ok exhausted
unfolding execute_with_retry attempts_from default_error_policy_for_step increment_retry_count
    find_active update_where on_exhausted after_prefix fail_step activate_fallback_step
    calculate_backoff
execute_with_retry-exhausted = refl

execute_with_retry-Returned_example :
    Returned right_value 5 diverted_step fails_always alone claim_case exhausted
execute_with_retry-Returned_example =
    execute_with_retry-Returned right_value 5 diverted_step fails_always alone claim_case exhausted
      execute_with_retry-exhausted

-- An integration that is not idempotent, an agent that had answered and a timer were active when the
-- process stopped.
abbrev send : WorkflowStep
send = record (plain_step "send" [] []) { type = "integration" }

abbrev ask : WorkflowStep
ask = record (plain_step "ask" [] []) { type = "agent" }

abbrev wait : WorkflowStep
wait = record (plain_step "wait" [] []) { type = "timer" }

abbrev shipping : WorkflowAst
shipping = record { steps = send ∷ ask ∷ wait ∷ [] }

abbrev stopped_case : CaseRow
stopped_case = record claim_case {
  steps =
      row_of "send" active
      ∷ record (row_of "ask" active) { result = document (str "yes") }
      ∷ row_of "wait" active
      ∷ [];
}

recovery_requests :
    (recover_case right_value 8 shipping stopped_case).requests
    ≡ evaluates ∷ evaluates ∷ dispatches wait ∷ evaluates ∷ []
unfolding recover_case recover_row recover_step aceryx.Prelude.Map.lookup aceryx.Engine.Ast.step_map
    aceryx.Engine.Ast.step_map_from aceryx.Prelude.Map.insert idempotent_step fail_step
    complete_step update_where marshal_result
recovery_requests = refl

recover_case-IsRecovered_example :
    IsRecovered right_value shipping none 8 stopped_case
      (recover_case right_value 8 shipping stopped_case)
recover_case-IsRecovered_example =
    recover_case-IsRecovered right_value shipping none 8 stopped_case (
      (λ p. cc ((eq_iff "ask" "send").1 p), (λ p. cc ((eq_iff "wait" "send").1 p), tt)),
      ((λ p. cc ((eq_iff "wait" "ask").1 p), tt), (tt, tt)),
    )

-- A first wait of 3 and a longest of 100.
abbrev waiting : String → ErrorPolicy
waiting backoff = record no_policy { backoff = backoff; initial_delay = pos 3; max_delay = pos 100 }

calculate_backoff-waiting : calculate_backoff (waiting "linear") 4 ≡ some (pos 12)
unfolding calculate_backoff default_error_policy_for_step
calculate_backoff-waiting = refl

waiting_first : (backoff : String) → (effective (waiting backoff)).initial_delay ≡ pos 3
unfolding default_error_policy_for_step
waiting_first backoff = refl

waiting_longest : (backoff : String) → (effective (waiting backoff)).max_delay ≡ pos 100
unfolding default_error_policy_for_step
waiting_longest backoff = refl

waiting_fits :
    (effective (waiting "linear")).initial_delay ≤ℤ (effective (waiting "linear")).max_delay
unfolding default_error_policy_for_step
waiting_fits = omega arith
