-- ===== src/Engine/Pool/Bounds.antt =====
-- The bound of the pool, what Wait waits for, and that the pool empties.
use aceryx.Prelude.{
  ℕ, zero, suc, ◌+◌, ◌*◌, ◌≤◌, ◌<◌, ◌≡◌, refl, ◌∙◌, subst, ◌⊎◌, inl, inr, Bool, true, false, none,
  some, ltb, arith, Bool-cases, Option-cases, some-injective,
}
use aceryx.Prelude.Int.{ℤ}
use aceryx.Engine.Pool.{
  WorkerPool, Action, acquire, add, begin_run, end_run, release, finish, new_worker_pool, act,
}

-- The counters agree with the places of the goroutines.
pub record IsValid (p : WorkerPool) : Type 0 where
  pub fits : p.sem ≤ p.capacity
  pub held : p.sem ≡ p.entering + p.starting + p.running + p.leaving
  pub awaited : p.wg ≡ p.starting + p.running + p.leaving + p.closing
  pub counted : p.n ≡ p.running

-- The states that the pool gets into from `p`.
pub data Reach (p : WorkerPool) : WorkerPool → Type 0 where
  unmoved : Reach p p
  acted : {q r : WorkerPool} → Reach p q → (a : Action) → act a q ≡ some r → Reach p r

-- How much the goroutines of the pool have still to do.
abbrev pub left_to_do : WorkerPool → ℕ
left_to_do p = 5 * p.entering + 4 * p.starting + 3 * p.running + 2 * p.leaving + p.closing

abbrev pub is_acquire : Action → Bool
is_acquire acquire = true
is_acquire _ = false

-- What one action does.
record Effect (a : Action) (p q : WorkerPool) : Type 0 where
  valid : IsValid p → IsValid q
  same : q.capacity ≡ p.capacity
  less : is_acquire a ≡ false → left_to_do q < left_to_do p

ℕ-cases : (n : ℕ) → (n ≡ zero) ⊎ ((k : ℕ) × (n ≡ suc k))
ℕ-cases zero = inl refl
ℕ-cases (suc k) = inr (k, refl)

-- A goroutine that leaves a place, where `from` of them are: `to` is the pool after it.
moves-Effect :
    (a : Action) (p q : WorkerPool) (from : ℕ) (to : ℕ → WorkerPool)
    → elim from [ zero ↦ none | suc k ↦ some (to k) ] ≡ some q
    → ((k : ℕ) → from ≡ suc k → Effect a p (to k))
    → Effect a p q
moves-Effect a p q zero to h each = cc h
moves-Effect a p q (suc k) to h each = subst (Effect a p) (some-injective h) (each k refl)

act-Effect : (a : Action) (p q : WorkerPool) → act a p ≡ some q → Effect a p q
unfolding act
act-Effect acquire p q h = elim (Bool-cases (ltb p.sem p.capacity)) [
  | inr full ↦ cc (rw full at h)
  | inl free ↦ subst (Effect acquire p) (some-injective (rw free at h)) (record {
    valid = λ v. record {
      fits = ground (arith, free);
      held = omega (arith, v.held);
      awaited = v.awaited;
      counted = v.counted;
    };
    same = refl;
    less = λ e. cc e;
  })
]
act-Effect add p q h = moves-Effect add p q p.entering _ h (λ k e. record {
  valid = λ v. ground (arith, v.fits, v.held, v.awaited, v.counted, e);
  same = refl;
  less = λ f. omega (arith, e);
})
act-Effect begin_run p q h = moves-Effect begin_run p q p.starting _ h (λ k e. record {
  valid = λ v. ground (arith, v.fits, v.held, v.awaited, v.counted, e);
  same = refl;
  less = λ f. omega (arith, e);
})
act-Effect end_run p q h = moves-Effect end_run p q p.running _ h (λ k e. record {
  valid = λ v. ground (arith, v.fits, v.held, v.awaited, v.counted, e);
  same = refl;
  less = λ f. omega (arith, e);
})
act-Effect release p q h = moves-Effect release p q p.leaving _ h (λ k e. record {
  valid = λ v. ground (arith, v.fits, v.held, v.awaited, v.counted, e);
  same = refl;
  less = λ f. omega (arith, e);
})
act-Effect finish p q h = moves-Effect finish p q p.closing _ h (λ k e. record {
  valid = λ v. ground (arith, v.fits, v.held, v.awaited, v.counted, e);
  same = refl;
  less = λ f. omega (arith, e);
})

Reach-IsValid : (p q : WorkerPool) → Reach p q → IsValid p → IsValid q × (q.capacity ≡ p.capacity)
Reach-IsValid p q unmoved v = (v, refl)
Reach-IsValid p r (acted {q} before a h) v =
    let (w, same) = Reach-IsValid p q before v in
    let e = act-Effect a q r h in (e.valid w, e.same ∙ same)

new_worker_pool-IsValid : (max_concurrent : ℤ) → IsValid (new_worker_pool max_concurrent)
unfolding new_worker_pool
new_worker_pool-IsValid max_concurrent = record {
  fits = omega arith;
  held = omega arith;
  awaited = omega arith;
  counted = refl;
}

-- In every state of a new pool, however the goroutines are scheduled, at most as many jobs run as
-- the capacity says, and Active counts just those that run.
pub pool_bounded :
    (max_concurrent : ℤ) (p : WorkerPool)
    → Reach (new_worker_pool max_concurrent) p
    → (p.n ≡ p.running) × (p.running ≤ (new_worker_pool max_concurrent).capacity)
pool_bounded max_concurrent p r =
    let (v, same) =
      Reach-IsValid (new_worker_pool max_concurrent) p r (new_worker_pool-IsValid max_concurrent) in
    (v.counted, omega (arith, v.fits, v.held, same))

-- When the counter that Wait waits for is 0, every job whose Submit has returned is over: only
-- callers of Submit that have not come to wg.Add yet still hold a place.
pub pool_waits :
    (max_concurrent : ℤ) (p : WorkerPool)
    → Reach (new_worker_pool max_concurrent) p
    → p.wg ≡ 0
    → (p.starting ≡ 0) × (p.running ≡ 0) × (p.leaving ≡ 0) × (p.sem ≡ p.entering)
pool_waits max_concurrent p r none_awaited =
    let (v, _) =
      Reach-IsValid (new_worker_pool max_concurrent) p r (new_worker_pool-IsValid max_concurrent) in
    (
      omega (arith, v.awaited, none_awaited),
      omega (arith, v.awaited, none_awaited),
      omega (arith, v.awaited, none_awaited),
      omega (arith, v.awaited, v.held, none_awaited),
    )

-- The jobs of a pool block one another never: while a goroutine holds a place or is awaited, one of
-- them can go on; each of its actions leaves less to do, so the pool empties where no new job comes.
pub pool_progress :
    (p : WorkerPool)
    → 0 < left_to_do p
    → (a : Action) × (q : WorkerPool) × (act a p ≡ some q)
      × (is_acquire a ≡ false)
      × (left_to_do q < left_to_do p)
unfolding act
pool_progress p busy = elim (ℕ-cases p.entering) [
  | inr (k, e) ↦ enabled add refl (λ blocked. cc (rw e at blocked))
  | inl e1 ↦ elim (ℕ-cases p.starting) [
    | inr (k, e) ↦ enabled begin_run refl (λ blocked. cc (rw e at blocked))
    | inl e2 ↦ elim (ℕ-cases p.running) [
      | inr (k, e) ↦ enabled end_run refl (λ blocked. cc (rw e at blocked))
      | inl e3 ↦ elim (ℕ-cases p.leaving) [
        | inr (k, e) ↦ enabled release refl (λ blocked. cc (rw e at blocked))
        | inl e4 ↦ elim (ℕ-cases p.closing) [
          | inr (k, e) ↦ enabled finish refl (λ blocked. cc (rw e at blocked))
          | inl e5 ↦ elim (nothing_left (omega (arith, busy, e1, e2, e3, e4, e5))) [ ]
        ]
      ]
    ]
  ]
]
  where
    nothing_left : ⊥ → ⊥
    nothing_left x = x

    enabled :
        (a : Action)
        → is_acquire a ≡ false
        → (act a p ≡ none → ⊥)
        → (a : Action) × (q : WorkerPool) × (act a p ≡ some q)
          × (is_acquire a ≡ false)
          × (left_to_do q < left_to_do p)
    enabled a other able = elim (Option-cases (act a p)) [
      | inl blocked ↦ elim (able blocked) [ ]
      | inr (q, h) ↦ (a, q, h, other, (act-Effect a p q h).less other)
    ]
