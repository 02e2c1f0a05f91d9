-- ===== src/Engine/Policy/Backoff.antt =====
-- The delays between the attempts of a step.
use native.Mathlib.Nat.{zero-add, suc-add, pow-suc}
use aceryx.Prelude.{
  ℕ, zero, suc, ◌+◌, ◌*◌, ◌%◌, ◌^◌, ◌<◌, String, ◌≡◌, refl, sym, ap, subst, ◌∙◌, inl, inr, false,
  some, ltb, arith, ◌==◌, if◌then◌else◌, Option-cases,
}
use aceryx.Prelude.Int.{ℤ, pos, ◌≤ℤ◌, mul64, mul64_fits}
use aceryx.Engine.Types.{ErrorPolicy}
use aceryx.Engine.Policy.{default_error_policy_for_step, raw_delay, clamp_delay, calculate_backoff}

-- The policy that calculateBackoff works with.
abbrev pub effective : ErrorPolicy → ErrorPolicy
effective policy = default_error_policy_for_step "" policy

effective_positive :
    (policy : ErrorPolicy)
    → (pos 1 ≤ℤ (effective policy).initial_delay) × (pos 1 ≤ℤ (effective policy).max_delay)
unfolding default_error_policy_for_step
effective_positive policy = (ground arith, ground arith)

clamp_delay_bounds :
    (p : ErrorPolicy) (delay : ℤ)
    → pos 1 ≤ℤ p.initial_delay
    → p.initial_delay ≤ℤ p.max_delay
    → (pos 0 ≤ℤ clamp_delay p delay) × (clamp_delay p delay ≤ℤ p.max_delay)
clamp_delay_bounds p delay one fits = ground arith

calculate_backoff-eq :
    (policy : ErrorPolicy) (retry_count : ℕ) {delay : ℤ}
    → calculate_backoff policy retry_count ≡ some delay
    → (raw : ℤ) × (raw_delay (effective policy) retry_count ≡ some raw)
      × (delay ≡ clamp_delay (effective policy) raw)
unfolding calculate_backoff
calculate_backoff-eq policy retry_count h =
    elim (Option-cases (raw_delay (effective policy) retry_count)) [
      | inl e ↦ cc (rw (e, calculate_backoff) at h)
      | inr (raw, e) ↦ (raw, e, cc (rw (e, calculate_backoff) at h))
    ]

-- With a first delay that is the longest at most, a wait is never negative and is never longer
-- than the longest delay, also where the product or the shift wraps.
pub calculate_backoff_bounds :
    (policy : ErrorPolicy) (retry_count : ℕ) (delay : ℤ)
    → (effective policy).initial_delay ≤ℤ (effective policy).max_delay
    → calculate_backoff policy retry_count ≡ some delay
    → (pos 0 ≤ℤ delay) × (delay ≤ℤ (effective policy).max_delay)
calculate_backoff_bounds policy retry_count delay fits h =
    let (raw, _, e) = calculate_backoff-eq policy retry_count h in
    subst (λ d. (pos 0 ≤ℤ d) × (d ≤ℤ (effective policy).max_delay)) (sym e)
      (clamp_delay_bounds (effective policy) raw (effective_positive policy).0 fits)

-- Powers of two with a summed exponent.
pow_split : (k n : ℕ) → 2 ^ (k + n) ≡ 2 ^ n * 2 ^ k
pow_split zero n = rw zero-add (omega arith)
pow_split (suc k) n = rw (suc-add, pow-suc, pow-suc) (omega (arith, pow_split k n))

mul64_lost : (a n : ℕ) → mul64 (pos a) (2 ^ (64 + n)) ≡ pos 0
mul64_lost a n =
    let e : a * 2 ^ (64 + n) ≡ a * 2 ^ n * 2 ^ 64 =
      omega (arith, ap (λ (t : ℕ). a * t) (pow_split 64 n)) in
    let zero_left : a * 2 ^ (64 + n) % 2 ^ 64 ≡ 0 = omega (arith, e) in ground arith

clamp_pos :
    (p : ErrorPolicy) (m d : ℕ)
    → p.max_delay ≡ pos m
    → clamp_delay p (pos d) ≡ pos (if ltb m d then m else d)
clamp_pos p m d longest = ground arith

kept_backoff :
    (policy : ErrorPolicy) (b : String)
    → policy.backoff ≡ b
    → (b == "") ≡ false
    → (effective policy).backoff ≡ b
unfolding default_error_policy_for_step
kept_backoff policy b e named = rw (e, named)

backoff_of_raw :
    (policy : ErrorPolicy) (retry_count m d : ℕ)
    → (effective policy).max_delay ≡ pos m
    → raw_delay (effective policy) retry_count ≡ some (pos d)
    → calculate_backoff policy retry_count ≡ some (pos (if ltb m d then m else d))
unfolding calculate_backoff
backoff_of_raw policy r m d longest e =
    rw (e, calculate_backoff) (ap some (clamp_pos (effective policy) m d longest))

-- Under the linear policy the wait after a failure is the first delay times the count of failures,
-- and the longest delay at most, as long as the product is below 2^63.
pub linear_backoff :
    (policy : ErrorPolicy) (a m retry_count : ℕ)
    → policy.backoff ≡ "linear"
    → (effective policy).initial_delay ≡ pos a
    → (effective policy).max_delay ≡ pos m
    → a * retry_count < 2 ^ 63
    → calculate_backoff policy retry_count
      ≡ some (pos (if ltb m (a * retry_count) then m else a * retry_count))
linear_backoff policy a m r linear first longest fits =
    backoff_of_raw policy r m (a * r) longest
      (rw (kept_backoff policy "linear" linear refl, first) (ap some (mul64_fits a r fits)))

-- Under the exponential policy the wait is the first delay, doubled with each failure after the
-- first, and the longest delay at most, as long as the shifted delay is below 2^63.
pub exponential_backoff :
    (policy : ErrorPolicy) (a m failures : ℕ)
    → policy.backoff ≡ "exponential"
    → (effective policy).initial_delay ≡ pos a
    → (effective policy).max_delay ≡ pos m
    → a * 2 ^ failures < 2 ^ 63
    → calculate_backoff policy (suc failures)
      ≡ some (pos (if ltb m (a * 2 ^ failures) then m else a * 2 ^ failures))
exponential_backoff policy a m n exponential first longest fits =
    backoff_of_raw policy (suc n) m (a * 2 ^ n) longest (
      rw (kept_backoff policy "exponential" exponential refl, first)
        (ap some (mul64_fits a (2 ^ n) fits)))

-- Past 64 doublings the shift leaves nothing: the wait of the exponential policy is 0.
pub exponential_backoff_lost :
    (policy : ErrorPolicy) (a m failures : ℕ)
    → policy.backoff ≡ "exponential"
    → (effective policy).initial_delay ≡ pos a
    → (effective policy).max_delay ≡ pos m
    → calculate_backoff policy (suc (64 + failures)) ≡ some (pos 0)
exponential_backoff_lost policy a m n exponential first longest =
    backoff_of_raw policy (suc (64 + n)) m 0 longest
      (rw (kept_backoff policy "exponential" exponential refl, first) (ap some (mul64_lost a n)))
    ∙ ap (λ d. some (pos d)) (ground arith)
