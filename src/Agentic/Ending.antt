-- ===== src/Agentic/Ending.antt =====
-- What ends a reasoning run: the tokens it spends, and not the number of its iterations.
use aceryx.Prelude.{
  ℕ, zero, suc, ◌+◌, ◌*◌, ◌≤◌, ◌<◌, ◌⊎◌, inl, inr, ◌≡◌, refl, ◌∙◌, String, Bool, true, false, not,
  ◌&&◌, Option, none, some, List, [], ◌∷◌, is_empty, fold, leb, arith, Bool-cases, Option-cases,
}
use aceryx.Agentic.{
  ReasoningLimits, Limited, apply_defaults, reasoning, ResolvedTool, ToolCall, ChatResponse,
  validate_tool_call, Loop, RunResult, append_event, one_call, answered, iterate, at_goal, run,
}

module _ (limits : Limited) (tools : List ResolvedTool)
    (args_valid : ResolvedTool → String → Bool) where
  -- The calls of tools change neither the iteration nor the tokens.
  one_call_tokens :
      (s : Loop) (call : ToolCall)
      → ((one_call limits tools args_valid s call).tokens ≡ s.tokens)
        × ((one_call limits tools args_valid s call).iteration ≡ s.iteration)
  unfolding one_call
  one_call_tokens s call = elim (Bool-cases (leb limits.tool_calls s.tool_calls)) [
    | inl spent ↦ rw (one_call, spent) (refl, refl)
    | inr left ↦ elim (Option-cases (validate_tool_call call.name tools)) [
      | inl missing ↦ rw (one_call, left, missing) (refl, refl)
      | inr (tool, found) ↦ elim (Bool-cases (args_valid tool call.arguments)) [
        | inl good ↦ rw (one_call, left, found, good) (refl, refl)
        | inr bad ↦ rw (one_call, left, found, bad) (refl, refl)
      ]
    ]
  ]

  calls_tokens :
      (cs : List ToolCall) (s : Loop)
      → ((fold (one_call limits tools args_valid) s cs).tokens ≡ s.tokens)
        × ((fold (one_call limits tools args_valid) s cs).iteration ≡ s.iteration)
  calls_tokens [] s = (refl, refl)
  calls_tokens (c ∷ cs) s =
      let (t, i) = calls_tokens cs (one_call limits tools args_valid s c) in
      let (u, j) = one_call_tokens s c in (t ∙ u, i ∙ j)

  module _ {Conclusion : Type 0} (timed_out : ℕ → Bool) (chat : ℕ → Option ChatResponse)
      (parse_conclusion : String → Option Conclusion) where
    -- A run that goes on has spent the answer's tokens, and fewer than the limit.
    abbrev GoesOn : ChatResponse → Loop → RunResult Conclusion ⊎ Loop → Type 0
    GoesOn r s (inl result) = result.total_iterations ≡ s.iteration
    GoesOn r s (inr next) =
        (next.tokens ≡ s.tokens + r.total_tokens)
        × (next.tokens < limits.tokens)
        × (next.iteration ≡ s.iteration)

    answered-GoesOn :
        (r : ChatResponse) (s : Loop)
        → GoesOn r s (answered limits tools args_valid timed_out chat parse_conclusion r s)
    unfolding answered
    answered-GoesOn r s =
        let s1 =
          append_event 1 reasoning ""
            (record s { tokens = s.tokens + r.total_tokens; sequence = 1 }) in
        elim (Bool-cases (leb limits.tokens s1.tokens)) [
          | inl spent ↦ rw (answered, spent) refl
          | inr affordable ↦
              let below : s.tokens + r.total_tokens < limits.tokens = ground (arith, affordable) in
              elim (Bool-cases (r.wants_tools && not (is_empty r.tool_calls))) [
                | inl wants ↦
                    let (t, i) = calls_tokens r.tool_calls s1 in
                    rw (answered, affordable, wants) (t, omega (arith, t, below), i)
                | inr speaks ↦ elim (Option-cases (parse_conclusion r.content)) [
                  | inr (c, e) ↦ rw (answered, affordable, speaks, e) refl
                  | inl e ↦ elim (Bool-cases (leb 3 (s1.invalid + 1))) [
                    | inl often ↦ rw (answered, affordable, speaks, e, often) refl
                    | inr seldom ↦ rw (answered, affordable, speaks, e, seldom) (refl, below, refl)
                  ]
                ]
              ]
        ]

    -- A result there is, after so many iterations at most.
    abbrev Ended : ℕ → Option (RunResult Conclusion) → Type 0
    Ended most o = (r : RunResult Conclusion) × (o ≡ some r) × (r.total_iterations ≤ most)

    iterate-Ended :
        ((n : ℕ) (r : ChatResponse) → chat n ≡ some r → 1 ≤ r.total_tokens)
        → (fuel : ℕ) (s : Loop) → 1 ≤ fuel
        → limits.tokens ≤ fuel + s.tokens
        → Ended
            (s.iteration + fuel)
            (iterate limits tools args_valid timed_out chat parse_conclusion fuel s)
    unfolding iterate
    iterate-Ended costs zero s one enough = elim (impossible (omega (arith, one))) [ ]
      where
        impossible : ⊥ → ⊥
        impossible x = x
    iterate-Ended costs (suc fuel) s one enough = elim (Bool-cases (timed_out s.iteration)) [
      | inl late ↦ rw (iterate, late) (_, refl, omega arith)
      | inr early ↦
          let s1 = record s { iteration = s.iteration + 1; sequence = 0 } in
          elim (Option-cases (chat s1.iteration)) [
            | inl silent ↦ rw (iterate, early, silent) (_, refl, omega arith)
            | inr (answer, spoken) ↦
                rw (iterate, early, spoken)
                  (go answer (costs s1.iteration answer spoken)
                    (λ next one' enough'. iterate-Ended costs fuel next one' enough')
                    (answered limits tools args_valid timed_out chat parse_conclusion answer s1)
                    (answered-GoesOn answer s1))
          ]
    ]
      where
        go :
            (answer : ChatResponse)
            → 1 ≤ answer.total_tokens
            → ((next : Loop)
                → 1 ≤ fuel
                → limits.tokens ≤ fuel + next.tokens
                → Ended
                    (next.iteration + fuel)
                    (iterate limits tools args_valid timed_out chat parse_conclusion fuel next))
            → (x : RunResult Conclusion ⊎ Loop)
            → GoesOn answer (record s { iteration = s.iteration + 1; sequence = 0 }) x
            → Ended (s.iteration + suc fuel) (elim x [
              | inl result ↦ some result
              | inr next ↦ iterate limits tools args_valid timed_out chat parse_conclusion fuel next
            ])
        go answer cost again (inl result) g = (result, refl, omega (arith, g))
        go answer cost again (inr next) (t, below, i) =
            let (r, e, le) =
              again next (omega (arith, t, below, enough, cost)) (omega (arith, t, enough, cost)) in
            (r, e, omega (arith, le, i))

    -- An answer that asks for tools.
    pub record Asks (most : ℕ) (n : ℕ) : Type 0 where
      pub answer : ChatResponse
      pub given : chat n ≡ some answer
      pub cheap : answer.total_tokens ≤ most
      pub wants : (answer.wants_tools && not (is_empty answer.tool_calls)) ≡ true

    answered-Asks :
        (r : ChatResponse) (s : Loop)
        → (r.wants_tools && not (is_empty r.tool_calls)) ≡ true
        → s.tokens + r.total_tokens < limits.tokens
        → (next : Loop) × (answered limits tools args_valid timed_out chat parse_conclusion r s
            ≡ inr next)
          × (next.tokens ≡ s.tokens + r.total_tokens)
    unfolding answered
    answered-Asks r s wants below =
        let s1 =
          append_event 1 reasoning ""
            (record s { tokens = s.tokens + r.total_tokens; sequence = 1 }) in
        let affordable : leb limits.tokens (s.tokens + r.total_tokens) ≡ false =
          ground (arith, below) in
        (
          fold (one_call limits tools args_valid) s1 r.tool_calls,
          rw (answered, affordable, wants) refl,
          (calls_tokens r.tool_calls s1).0,
        )

    iterate-Asks :
        (most : ℕ)
        → ((n : ℕ) → timed_out n ≡ false)
        → ((n : ℕ) → Asks most n)
        → (fuel : ℕ) (s : Loop) → fuel * most + s.tokens < limits.tokens
        → iterate limits tools args_valid timed_out chat parse_conclusion fuel s ≡ none
    unfolding iterate
    iterate-Asks most early asks zero s below = refl
    iterate-Asks most early asks (suc fuel) s below =
        let s1 = record s { iteration = s.iteration + 1; sequence = 0 } in
        let a = asks s1.iteration in
        let grown : suc fuel * most ≡ fuel * most + most = omega arith in
        let (next, e, t) =
          answered-Asks a.answer s1 a.wants (omega (arith, below, grown, a.cheap)) in
        rw (iterate, early s.iteration, a.given, e)
          (iterate-Asks most early asks fuel next (omega (arith, below, grown, a.cheap, t)))

-- A run whose answers cost at least one token each ends, after as many iterations as its limit of
-- tokens says at most.
pub run_ends :
    {Conclusion : Type 0} (limits : ReasoningLimits) (tools : List ResolvedTool)
    (args_valid : ResolvedTool → String → Bool) (timed_out : ℕ → Bool)
    (chat : ℕ → Option ChatResponse) (parse_conclusion : String → Option Conclusion)
    → ((n : ℕ) (r : ChatResponse) → chat n ≡ some r → 1 ≤ r.total_tokens)
    → (r : RunResult Conclusion) × (run limits tools args_valid timed_out chat parse_conclusion
          (apply_defaults limits).tokens
        ≡ some r)
      × (r.total_iterations ≤ (apply_defaults limits).tokens)
unfolding run apply_defaults
run_ends limits tools args_valid timed_out chat parse_conclusion costs =
    let (r, e, le) =
      iterate-Ended (apply_defaults limits) tools args_valid timed_out chat parse_conclusion costs
        (apply_defaults limits).tokens at_goal (ground arith) (omega arith) in
    (r, e, omega (arith, le))

-- The limit of iterations ends no run: as long as the answers ask for tools, each for `most` tokens
-- or fewer, and no time is up, a run goes on past any number of iterations whose tokens stay below
-- the limit, whatever its limit of iterations is.
pub run_unlimited :
    {Conclusion : Type 0} (limits : ReasoningLimits) (tools : List ResolvedTool)
    (args_valid : ResolvedTool → String → Bool) (timed_out : ℕ → Bool)
    (chat : ℕ → Option ChatResponse) (parse_conclusion : String → Option Conclusion)
    (most iterations : ℕ)
    → ((n : ℕ) → timed_out n ≡ false)
    → ((n : ℕ)
        → Asks (apply_defaults limits) tools args_valid timed_out chat parse_conclusion most n)
    → iterations * most < (apply_defaults limits).tokens
    → run limits tools args_valid timed_out chat parse_conclusion iterations ≡ none
unfolding run
run_unlimited limits tools args_valid timed_out chat parse_conclusion most n early asks below =
    iterate-Asks (apply_defaults limits) tools args_valid timed_out chat parse_conclusion most early
      asks n at_goal (omega (arith, below))
