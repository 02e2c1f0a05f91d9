-- ===== src/Circuit/Tests.antt =====
-- A breaker with a cool-down of 10, a threshold of 2 and a window of 5.
use aceryx.Prelude.{◌≡◌, refl, true, false, some, [], ◌∷◌, fold, arith}
use aceryx.Prelude.Int.{pos}
use aceryx.Circuit.{
  circuit_open, circuit_closed, CircuitBreaker, new_circuit_breaker, allow, record_failure,
}
use aceryx.Circuit.Safety.{single_probe, opens_at_threshold}

abbrev fresh : CircuitBreaker
fresh = new_circuit_breaker (pos 10) (pos 2) (pos 5)

abbrev opened : CircuitBreaker
opened = record {
  state = circuit_open;
  failure_count = 2;
  last_failure = some 7;
  last_attempt = some 3;
  cool_down = 10;
  fail_threshold = 2;
  fail_window = 5;
  half_open_probe = false;
}

abbrev closed : CircuitBreaker
closed = record opened { state = circuit_closed; failure_count = 0 }

allow-opened : (allow 17 opened).0 ≡ true
unfolding allow
allow-opened = refl

single_probe_example :
    (allow 40 (fold (λ b t. (allow t b).1) (allow 17 opened).1 (18 ∷ 30 ∷ []))).0 ≡ false
single_probe_example = single_probe opened 17 (18 ∷ 30 ∷ []) 40 refl allow-opened

opens_at_threshold_example :
    (fold (λ b t. record_failure t b) closed (7 ∷ 9 ∷ [])).state ≡ circuit_open
opens_at_threshold_example = opens_at_threshold closed 7 (9 ∷ []) refl refl (omega arith, tt)
