-- ===== src/Circuit/Safety.antt =====
-- When the breaker opens, whom it lets through, and what holds of it in every history.
use aceryx.Prelude.{
  ℕ, ◌+◌, ◌≤◌, ◌<◌, ◌≡◌, refl, ap, ◌∙◌, ◌↔◌, ◌⊎◌, inl, inr, Bool, true, false, some, List, [], ◌∷◌,
  length, fold, leb, arith, if◌then◌else◌, Bool-cases,
}
use aceryx.Prelude.Int.{ℤ, pos, negsuc}
use aceryx.Circuit.{
  CircuitState, circuit_closed, circuit_open, circuit_half_open, CircuitBreaker, or_default,
  new_circuit_breaker, cooled_down, probe, allow, record_success, count_failure, record_failure,
}
use aceryx.Circuit.Counted.{Close, opened_at, failures-Counted}

-- An operation of the breaker, with the time of its call.
pub data Event : Type 0 where
  asked : ℕ → Event
  succeeded : Event
  failed_at : ℕ → Event

abbrev pub after : CircuitBreaker → Event → CircuitBreaker
after cb (asked now) = (allow now cb).1
after cb succeeded = record_success cb
after cb (failed_at now) = record_failure now cb

abbrev pub is_closed : CircuitState → Bool
is_closed circuit_closed = true
is_closed _ = false

abbrev pub is_open : CircuitState → Bool
is_open circuit_open = true
is_open _ = false

abbrev pub is_half_open : CircuitState → Bool
is_half_open circuit_half_open = true
is_half_open _ = false

-- A closed breaker is below its threshold, an open one knows when it failed last, and a half-open
-- one has let its probe through.
pub record IsValid (cb : CircuitBreaker) : Type 0 where
  pub positive : 1 ≤ cb.fail_threshold
  pub below : is_closed cb.state ≡ true → cb.failure_count < cb.fail_threshold
  pub dated : is_open cb.state ≡ true → (t : ℕ) × (cb.last_failure ≡ some t)
  pub probing : is_half_open cb.state ≡ true → cb.half_open_probe ≡ true

CircuitState-cases :
    (x : CircuitState) → (x ≡ circuit_closed) ⊎ ((x ≡ circuit_open) ⊎ (x ≡ circuit_half_open))
CircuitState-cases circuit_closed = inl refl
CircuitState-cases circuit_open = inr (inl refl)
CircuitState-cases circuit_half_open = inr (inr refl)

probe-IsValid :
    (now : ℕ) (cb : CircuitBreaker)
    → 1 ≤ cb.fail_threshold
    → is_half_open cb.state ≡ true
    → IsValid (probe now cb).1
probe-IsValid now cb one half = record {
  positive = ground (arith, one);
  below = ground (arith, half);
  dated = λ h. cc (h, probe_state, half);
  probing = ground (arith, half);
}
  where
    probe_state : is_open (probe now cb).1.state ≡ false
    probe_state = ground (arith, half)

allow-IsValid : (now : ℕ) (cb : CircuitBreaker) → IsValid cb → IsValid (allow now cb).1
unfolding allow
allow-IsValid now cb v = elim (CircuitState-cases cb.state) [
  | inl closed ↦
      rw (closed, allow)
        (record {
          positive = v.positive;
          below = ground (arith, v.below);
          dated = λ h. cc (h, closed);
          probing = λ h. cc (h, closed);
        })
  | inr (inl opened) ↦ elim (Bool-cases (cooled_down cb now)) [
    | inl cool ↦
        rw (opened, allow, cool)
          (probe-IsValid now (record cb { state = circuit_half_open; half_open_probe = false })
            v.positive refl)
    | inr hot ↦ rw (opened, allow, hot) v
  ]
  | inr (inr half) ↦ rw (half, allow) (probe-IsValid now cb v.positive (ap is_half_open half))
]

count_failure-IsValid :
    (now : ℕ) (cb : CircuitBreaker)
    → IsValid cb
    → is_half_open cb.state ≡ false
    → IsValid (count_failure now cb)
count_failure-IsValid now cb v other = record {
  positive = v.positive;
  below = ground arith;
  dated = λ h. (now, refl);
  probing = ground (arith, other);
}

record_failure-IsValid :
    (now : ℕ) (cb : CircuitBreaker) → IsValid cb → IsValid (record_failure now cb)
unfolding record_failure
record_failure-IsValid now cb v = elim (CircuitState-cases cb.state) [
  | inl closed ↦
      rw (closed, record_failure) (count_failure-IsValid now cb v (ap is_half_open closed))
  | inr (inl opened) ↦
      rw (opened, record_failure) (count_failure-IsValid now cb v (ap is_half_open opened))
  | inr (inr half) ↦
      rw (half, record_failure)
        (record {
          positive = v.positive;
          below = λ h. cc h;
          dated = λ h. (now, refl);
          probing = λ h. cc h;
        })
]

after-IsValid : (cb : CircuitBreaker) (e : Event) → IsValid cb → IsValid (after cb e)
unfolding record_success
after-IsValid cb (asked now) v = allow-IsValid now cb v
after-IsValid cb succeeded v = record {
  positive = v.positive;
  below = λ h. omega (arith, v.positive);
  dated = λ h. cc h;
  probing = λ h. cc h;
}
after-IsValid cb (failed_at now) v = record_failure-IsValid now cb v

events-IsValid : (cb : CircuitBreaker) (es : List Event) → IsValid cb → IsValid (fold after cb es)
events-IsValid cb [] v = v
events-IsValid cb (e ∷ es) v = events-IsValid (after cb e) es (after-IsValid cb e v)

-- In every history of a new breaker, with any settings: it is closed only below its threshold, it
-- knows its last failure when it is open, and it has let its probe through when it is half-open.
pub circuit_breaker-IsValid :
    (cool_down fail_threshold fail_window : ℤ) (es : List Event)
    → IsValid (fold after (new_circuit_breaker cool_down fail_threshold fail_window) es)
unfolding new_circuit_breaker
circuit_breaker-IsValid cool_down fail_threshold fail_window es =
    events-IsValid (new_circuit_breaker cool_down fail_threshold fail_window) es (record {
      positive = or_default_positive fail_threshold;
      below = λ h. omega (arith, or_default_positive fail_threshold);
      dated = λ h. cc h;
      probing = λ h. cc h;
    })
  where
    or_default_positive : (given : ℤ) → 1 ≤ or_default given 5
    or_default_positive (pos n) = ground arith
    or_default_positive (negsuc n) = omega arith

-- An open breaker that failed last at `t` lets a call through just when the cool-down is over.
pub open_allows_iff :
    (cb : CircuitBreaker) (t now : ℕ)
    → cb.state ≡ circuit_open
    → cb.last_failure ≡ some t
    → ((allow now cb).0 ≡ true) ↔ (t + cb.cool_down ≤ now)
unfolding allow
open_allows_iff cb t now opened last = rw (opened, allow, last) (ground arith, ground arith)

-- Half-open, with the probe under way.
abbrev Probing : CircuitBreaker → Type 0
Probing cb = (cb.state ≡ circuit_half_open) × (cb.half_open_probe ≡ true)

refused : (cb : CircuitBreaker) (now : ℕ) → Probing cb → (allow now cb).0 ≡ false
unfolding allow
refused cb now p = rw (p.0, allow, p.1) refl

kept-Probing : (cb : CircuitBreaker) (now : ℕ) → Probing cb → Probing (allow now cb).1
unfolding allow
kept-Probing cb now p = rw (p.0, allow, p.1) (p.0, refl)

let_through-Probing :
    (cb : CircuitBreaker) (now : ℕ)
    → cb.state ≡ circuit_open
    → (allow now cb).0 ≡ true
    → Probing (allow now cb).1
unfolding allow
let_through-Probing cb now opened let_through = elim (Bool-cases (cooled_down cb now)) [
  | inl cool ↦ rw (opened, allow, cool) (refl, refl)
  | inr hot ↦ cc (rw (opened, allow, hot) at let_through)
]

all_refused :
    (later : List ℕ) (cb : CircuitBreaker)
    → Probing cb
    → Probing (fold (λ b t. (allow t b).1) cb later)
all_refused [] cb p = p
all_refused (t ∷ later) cb p = all_refused later (allow t cb).1 (kept-Probing cb t p)

-- After an open breaker has let a call through, it lets none through, however often and whenever
-- it is asked, until the outcome of a call is recorded.
pub single_probe :
    (cb : CircuitBreaker) (now : ℕ) (later : List ℕ) (last : ℕ)
    → cb.state ≡ circuit_open
    → (allow now cb).0 ≡ true
    → (allow last (fold (λ b t. (allow t b).1) (allow now cb).1 later)).0 ≡ false
single_probe cb now later last opened let_through =
    refused (fold (λ b t. (allow t b).1) (allow now cb).1 later) last
      (all_refused later (allow now cb).1 (let_through-Probing cb now opened let_through))

-- A closed breaker that has counted no failure opens with the failure that reaches its threshold,
-- and not before, when each of the failures comes within the window of the one before it.
pub opens_at_threshold :
    (cb : CircuitBreaker) (first : ℕ) (later : List ℕ)
    → cb.state ≡ circuit_closed
    → cb.failure_count ≡ 0
    → Close cb.fail_window first later
    → (fold (λ b t. record_failure t b) cb (first ∷ later)).state
      ≡ (if leb cb.fail_threshold (length (first ∷ later)) then circuit_open else circuit_closed)
unfolding record_failure
opens_at_threshold cb first later closed none_yet close =
    failures-Counted later (record_failure first cb) cb.fail_threshold cb.fail_window 1 first
      (rw (closed, record_failure)
        (record {
          settings = (refl, refl);
          counted = ground (arith, none_yet);
          dated = refl;
          state_is = ground (arith, none_yet, closed);
        }))
      close
    ∙ ap (opened_at cb.fail_threshold) (omega arith)
