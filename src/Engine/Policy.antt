-- ===== src/Engine/Policy.antt =====
-- The error policy of a step: the defaults of internal/engine/types.go, and calculateBackoff of
-- internal/engine/execution_retry.go. Durations are int64 numbers of nanoseconds, and wrap.
pub mod Backoff
use aceryx.Prelude.{
  ℕ, zero, suc, ◌*◌, ◌^◌, String, Bool, true, ◌||◌, Option, none, some, ◌==◌, if◌then◌else◌,
}
use aceryx.Prelude.Int.{ℤ, pos, ltb_ℤ, not_positive, mul64}
use aceryx.Engine.Types.{ErrorPolicy}

abbrev pub second : ℕ
second = 1_000_000_000

abbrev pub is_remote_step : String → Bool
is_remote_step step_type = step_type == "integration" || step_type == "agent"

unfoldable pub default_error_policy_for_step : String → ErrorPolicy → ErrorPolicy
default_error_policy_for_step step_type policy = record {
  max_attempts =
      if not_positive policy.max_attempts
      then (if is_remote_step step_type then pos 3 else pos 1)
      else policy.max_attempts;
  backoff = if policy.backoff == "" then "none" else policy.backoff;
  initial_delay =
      if not_positive policy.initial_delay then pos (5 * second) else policy.initial_delay;
  max_delay = if not_positive policy.max_delay then pos (60 * second) else policy.max_delay;
  on_exhausted = if policy.on_exhausted == "" then "fail" else policy.on_exhausted;
}

-- `policy.InitialDelay << (retryCount - 1)`. A shift by a negative count panics: `none`.
abbrev pub shifted : ℤ → ℕ → Option ℤ
shifted delay zero = none
shifted delay (suc n) = some (mul64 delay (2 ^ n))

abbrev pub raw_delay : ErrorPolicy → ℕ → Option ℤ
raw_delay policy retry_count =
    if policy.backoff == "none"
    then some (pos 0)
    else if policy.backoff == "linear"
    then some (mul64 policy.initial_delay retry_count)
    else if policy.backoff == "exponential"
    then shifted policy.initial_delay retry_count
    else some policy.initial_delay

abbrev pub clamp_delay : ErrorPolicy → ℤ → ℤ
clamp_delay policy delay =
    if ltb_ℤ policy.max_delay delay
    then policy.max_delay
    else if ltb_ℤ delay (pos 0)
    then policy.initial_delay
    else delay

unfoldable pub calculate_backoff : ErrorPolicy → ℕ → Option ℤ
calculate_backoff policy retry_count =
    let p = default_error_policy_for_step "" policy in
    elim (raw_delay p retry_count) [ none ↦ none | some delay ↦ some (clamp_delay p delay) ]
