-- ===== src/Circuit.antt =====
-- internal/mcp/circuit.go: the circuit breaker before each server of tools. A time is a number on
-- the server's clock, and `none` is the zero time; each operation is given the time of its call.
pub mod Counted
pub mod Safety
mod Tests
use aceryx.Prelude.{
  ℕ, suc, ◌+◌, ◌-◌, ◌*◌, Bool, true, false, ◌||◌, Option, none, some, leb, ltb, if◌then◌else◌,
}
use aceryx.Prelude.Int.{ℤ, pos, negsuc, not_positive}

pub data CircuitState : Type 0 where
  circuit_closed circuit_open circuit_half_open : CircuitState

pub record CircuitBreaker : Type 0 where
  pub state : CircuitState
  pub failure_count : ℕ
  pub last_failure : Option ℕ
  pub last_attempt : Option ℕ
  pub cool_down : ℕ
  pub fail_threshold : ℕ
  pub fail_window : ℕ
  pub half_open_probe : Bool

abbrev second : ℕ
second = 1_000_000_000

-- The value, or the default where it is not positive.
abbrev or_default : ℤ → ℕ → ℕ
or_default (pos n) default_value = if leb n 0 then default_value else n
or_default (negsuc n) default_value = default_value

unfoldable pub new_circuit_breaker : ℤ → ℤ → ℤ → CircuitBreaker
new_circuit_breaker cool_down fail_threshold fail_window = record {
  state = circuit_closed;
  failure_count = 0;
  last_failure = none;
  last_attempt = none;
  cool_down = or_default cool_down (60 * second);
  fail_threshold = or_default fail_threshold 5;
  fail_window = or_default fail_window (300 * second);
  half_open_probe = false;
}

-- now.Sub(t): the time since `t`; since the zero time it is longer than any window. A clock that
-- went back gives a negative difference, which is below every bound, as 0 is.
abbrev pub cooled_down : CircuitBreaker → ℕ → Bool
cooled_down cb now = elim cb.last_failure [ none ↦ true | some t ↦ leb (t + cb.cool_down) now ]

abbrev pub window_over : CircuitBreaker → ℕ → Bool
window_over cb now = elim cb.last_failure [ none ↦ true | some t ↦ ltb (t + cb.fail_window) now ]

-- The part of Allow for the half-open state.
abbrev pub probe : ℕ → CircuitBreaker → Bool × CircuitBreaker
probe now cb =
    if cb.half_open_probe
    then (false, cb)
    else (true, record cb { half_open_probe = true; last_attempt = some now })

-- Whether the call is allowed, and the breaker after it.
unfoldable pub allow : ℕ → CircuitBreaker → Bool × CircuitBreaker
allow now cb = elim cb.state [
  | circuit_closed ↦ (true, record cb { last_attempt = some now })
  | circuit_open ↦
      if cooled_down cb now
      then probe now (record cb { state = circuit_half_open; half_open_probe = false })
      else (false, cb)
  | circuit_half_open ↦ probe now cb
]

unfoldable pub record_success : CircuitBreaker → CircuitBreaker
record_success cb = record cb {
  state = circuit_closed;
  failure_count = 0;
  last_failure = none;
  half_open_probe = false;
}

-- One more failure, in a state that is not half-open.
abbrev pub count_failure : ℕ → CircuitBreaker → CircuitBreaker
count_failure now cb =
    let count = (if window_over cb now then 0 else cb.failure_count) + 1 in
    record cb {
      failure_count = count;
      last_failure = some now;
      state = if leb cb.fail_threshold count then circuit_open else cb.state;
    }

unfoldable pub record_failure : ℕ → CircuitBreaker → CircuitBreaker
record_failure now cb = elim cb.state [
  | circuit_half_open ↦ record cb {
    state = circuit_open;
    last_failure = some now;
    half_open_probe = false;
  }
  | _ ↦ count_failure now cb
]
