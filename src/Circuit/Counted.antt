-- ===== src/Circuit/Counted.antt =====
-- internal/mcp/circuit.go: a run of failures, each within the window of the one before it.
use aceryx.Prelude.{
  ℕ, ◌+◌, ◌≤◌, ◌≡◌, refl, ap, ◌∙◌, inl, inr, true, false, some, List, [], ◌∷◌, length, fold, leb,
  arith, if◌then◌else◌, Bool-cases,
}
use aceryx.Circuit.{
  CircuitState, circuit_closed, circuit_open, CircuitBreaker, window_over, count_failure,
  record_failure,
}

-- Each failure comes within the window of the one before.
abbrev pub Close : ℕ → ℕ → List ℕ → Type 0
Close window last [] = Unit
Close window last (t ∷ ts) = (t ≤ last + window) × Close window t ts

abbrev pub opened_at : ℕ → ℕ → CircuitState
opened_at threshold count = if leb threshold count then circuit_open else circuit_closed

opened_over :
    (threshold count : ℕ) → leb threshold count ≡ true → opened_at threshold count ≡ circuit_open
opened_over threshold count over = rw over refl

closed_under :
    (threshold count : ℕ) → leb threshold count ≡ false → opened_at threshold count ≡ circuit_closed
closed_under threshold count under = rw under refl

-- What the failures so far have left.
pub record Counted (cb : CircuitBreaker) (threshold window count last : ℕ) : Type 0 where
  pub settings : (cb.fail_threshold ≡ threshold) × (cb.fail_window ≡ window)
  pub counted : cb.failure_count ≡ count
  pub dated : cb.last_failure ≡ some last
  pub state_is : cb.state ≡ opened_at threshold count

record_failure-Counted :
    (cb : CircuitBreaker) (threshold window count last t : ℕ)
    → Counted cb threshold window count last
    → t ≤ last + window
    → Counted (record_failure t cb) threshold window (count + 1) t
unfolding record_failure
record_failure-Counted cb threshold window count last t c close =
    let same_window : window_over cb t ≡ false = rw c.dated (ground (arith, close, c.settings.1)) in
    let next : Counted (count_failure t cb) threshold window (count + 1) t = record {
      settings = c.settings;
      counted = rw same_window (omega (arith, c.counted));
      dated = refl;
      state_is = rw same_window (ground (arith, c.counted, c.settings.0, c.state_is));
    } in
    elim (Bool-cases (leb threshold count)) [
      | inl over ↦ rw (c.state_is ∙ opened_over threshold count over, record_failure) next
      | inr under ↦ rw (c.state_is ∙ closed_under threshold count under, record_failure) next
    ]

pub failures-Counted :
    (ts : List ℕ) (cb : CircuitBreaker) (threshold window count last : ℕ)
    → Counted cb threshold window count last
    → Close window last ts
    → (fold (λ b t. record_failure t b) cb ts).state ≡ opened_at threshold (count + length ts)
failures-Counted [] cb threshold window count last c close =
    c.state_is ∙ ap (opened_at threshold) (omega arith)
failures-Counted (t ∷ ts) cb threshold window count last c close =
    failures-Counted ts (record_failure t cb) threshold window (count + 1) t
      (record_failure-Counted cb threshold window count last t c close.0) close.1
    ∙ ap (opened_at threshold) (omega arith)
