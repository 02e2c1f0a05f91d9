-- ===== src/Triggers/Backoff.antt =====
-- internal/triggers/manager.go: the waits between the restarts of an instance.
use aceryx.Prelude.{ℕ, zero, suc, ◌*◌, ◌^◌, ◌≤◌, ◌<◌, ltb, ◌≡◌, inl, inr, Bool-cases, arith}
use aceryx.Prelude.Int.{pos, mul64, mul64_fits}
use aceryx.Triggers.{next_backoff}

-- The next wait is at least 1 and the last one, at most the limit, and twice the last one where that
-- is within the limit and the last one is not 0, for a limit of at least 1 and below 2 ^ 62, and a
-- last wait within it.
pub next_backoff_bounds :
    (limit last : ℕ)
    → 1 ≤ limit
    → limit < 2 ^ 62
    → last ≤ limit
    → (next : ℕ) × (next_backoff (pos limit) (pos last) ≡ pos next)
      × (1 ≤ next)
      × (next ≤ limit)
      × (last ≤ next)
      × (2 * last ≤ limit → 1 ≤ last → next ≡ 2 * last)
unfolding next_backoff
next_backoff_bounds limit zero h small le = elim (Bool-cases (ltb limit 1000000000)) [
  | inl e ↦ (limit, ground arith, h, omega arith, le, λ a b. absurd (omega arith))
  | inr e ↦ (
    1000000000,
    ground arith,
    omega arith,
    ground arith,
    omega arith,
    λ a b. absurd (omega arith),
  )
]
next_backoff_bounds limit (suc n) h small le =
    let double : mul64 (pos (suc n)) 2 ≡ pos (suc n * 2) = mul64_fits (suc n) 2 (omega arith) in
    elim (Bool-cases (ltb limit (suc n * 2))) [
      | inl e ↦ (limit, ground (arith, double), h, omega arith, le, λ a b. absurd (ground arith))
      | inr e ↦ (
        suc n * 2,
        ground (arith, double),
        omega arith,
        ground arith,
        omega arith,
        λ a b. omega arith,
      )
    ]
