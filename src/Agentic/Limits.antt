-- ===== src/Agentic/Limits.antt =====
-- What the limits of a reasoning run do hold to: the calls of tools.
use aceryx.Prelude.{
  ℕ, zero, suc, ◌+◌, ◌≤◌, ◌<◌, ◌⊎◌, inl, inr, ◌≡◌, refl, sym, ◌∙◌, subst, String, Bool, true, false,
  not, ◌&&◌, Option, none, some, List, [], ◌∷◌, is_empty, fold, leb, arith, ◌==◌, count, All,
  All-append, count-append, In, here, there, Bool-cases, Option-cases, some-injective,
}
use aceryx.Prelude.Text.{trim_space}
use aceryx.Agentic.{
  ReasoningLimits, Limited, apply_defaults, EventType, reasoning, error_event, tool_call,
  tool_result, concluding, ReasoningEvent, ResolvedTool, ToolCall, ChatResponse, Status, concluded,
  timeout, failed, find_tool, validate_tool_call, Loop, RunResult, append_event, one_call, finish,
  answered, iterate, at_goal, run,
}

abbrev pub is_tool_call : EventType → Bool
is_tool_call tool_call = true
is_tool_call _ = false

-- The number of calls of tools that a trace records.
abbrev pub calls : List ReasoningEvent → ℕ
calls events = count (λ e. is_tool_call e.event_type) events

-- The event, if it is a call, is one of a tool of the manifest.
abbrev pub Known : List ResolvedTool → ReasoningEvent → Type 0
Known tools e =
    is_tool_call e.event_type ≡ true → (tool : ResolvedTool) × In tool tools × (tool.id ≡ e.tool_id)

find_tool-In :
    (name : String) (tools : List ResolvedTool) (tool : ResolvedTool)
    → find_tool name tools ≡ some tool
    → In tool tools
unfolding find_tool
find_tool-In name [] tool h = cc h
find_tool-In name (x ∷ tools) tool h = elim (Option-cases (find_tool name tools)) [
  | inr (later, e) ↦ there (find_tool-In name tools tool (e ∙ (rw (e, find_tool) at h)))
  | inl e ↦ elim (Bool-cases (x.name == name)) [
    | inl same ↦ here (some-injective (sym (rw (e, find_tool, same) at h)))
    | inr other ↦ cc (rw (e, find_tool, other) at h)
  ]
]

module _ (limits : Limited) (tools : List ResolvedTool)
    (args_valid : ResolvedTool → String → Bool) where
  pub record Kept (s : Loop) : Type 0 where
    pub within : s.tool_calls ≤ limits.tool_calls
    pub recorded : calls s.events ≤ s.tool_calls
    pub known : All (Known tools) s.events

  -- An event that is no call changes nothing that is kept.
  other_event-Kept :
      (sequence : ℕ) (kind : EventType) (id : String) (s : Loop)
      → is_tool_call kind ≡ false
      → Kept s
      → Kept (append_event sequence kind id s)
  other_event-Kept sequence kind id s other k = record {
    within = k.within;
    recorded =
        subst (λ n. n ≤ s.tool_calls)
          (sym (count-append (λ (e : ReasoningEvent). is_tool_call e.event_type) s.events _))
          (rw other (omega (arith, k.recorded)));
    known = All-append (Known tools) s.events _ k.known ((λ h. cc (h, other)), tt);
  }

  call_event-Kept :
      (sequence : ℕ) (tool : ResolvedTool) (s : Loop)
      → In tool tools
      → s.tool_calls < limits.tool_calls
      → Kept s
      → Kept (append_event sequence tool_call tool.id (record s { tool_calls = s.tool_calls + 1 }))
  call_event-Kept sequence tool s i below k = record {
    within = omega (arith, below);
    recorded =
        subst (λ n. n ≤ s.tool_calls + 1)
          (sym (count-append (λ (e : ReasoningEvent). is_tool_call e.event_type) s.events _))
          (omega (arith, k.recorded));
    known = All-append (Known tools) s.events _ k.known ((λ h. (tool, i, refl)), tt);
  }

  one_call-Kept :
      (s : Loop) (call : ToolCall) → Kept s → Kept (one_call limits tools args_valid s call)
  unfolding one_call validate_tool_call
  one_call-Kept s call k =
      let s1 = record s { sequence = s.sequence + 1 } in
      let k1 : Kept s1 = record { within = k.within; recorded = k.recorded; known = k.known } in
      elim (Bool-cases (leb limits.tool_calls s.tool_calls)) [
        | inl spent ↦ rw (one_call, spent) (other_event-Kept s1.sequence error_event "" s1 refl k1)
        | inr left ↦
            let below : s.tool_calls < limits.tool_calls = ground (arith, left) in
            let s2 = record s1 { tool_calls = s1.tool_calls + 1 } in
            let k2 : Kept s2 = record {
              within = omega (arith, below);
              recorded = omega (arith, k.recorded);
              known = k.known;
            } in
            elim (Option-cases (find_tool (trim_space call.name) tools)) [
              | inl missing ↦
                  rw (one_call, left, missing)
                    (other_event-Kept s2.sequence error_event "" s2 refl k2)
              | inr (tool, found) ↦ elim (Bool-cases (args_valid tool call.arguments)) [
                | inr bad ↦
                    rw (one_call, left, found, bad)
                      (other_event-Kept s2.sequence error_event "" s2 refl k2)
                | inl good ↦
                    rw (one_call, left, found, good)
                      (other_event-Kept (s2.sequence + 1) tool_result tool.id _ refl (
                        call_event-Kept s2.sequence tool s1
                          (find_tool-In (trim_space call.name) tools tool found) below k1))
              ]
            ]
      ]

  calls-Kept :
      (cs : List ToolCall) (s : Loop) → Kept s → Kept (fold (one_call limits tools args_valid) s cs)
  calls-Kept [] s k = k
  calls-Kept (c ∷ cs) s k =
      calls-Kept cs (one_call limits tools args_valid s c) (one_call-Kept s c k)

  module _ {Conclusion : Type 0} (timed_out : ℕ → Bool) (chat : ℕ → Option ChatResponse)
      (parse_conclusion : String → Option Conclusion) where
    -- What holds of the result of a run.
    pub record Within (r : RunResult Conclusion) : Type 0 where
      pub within : r.total_tool_calls ≤ limits.tool_calls
      pub recorded : calls r.trace ≤ r.total_tool_calls
      pub known : All (Known tools) r.trace
      pub affordable : r.status ≡ concluded → r.total_tokens < limits.tokens
      pub parsed : r.status ≡ concluded → (c : Conclusion) × (r.conclusion ≡ some c)

    abbrev Answer : Type 0
    Answer = RunResult Conclusion ⊎ Loop

    abbrev Fine : Answer → Type 0
    Fine (inl r) = Within r
    Fine (inr s) = Kept s

    unconcluded :
        (status : Status) (conclusion : Option Conclusion) (s : Loop)
        → (status ≡ concluded → ⊥)
        → Kept s
        → Within
            (finish limits tools args_valid timed_out chat parse_conclusion status conclusion s)
    unconcluded status conclusion s other k = record {
      within = k.within;
      recorded = k.recorded;
      known = k.known;
      affordable = λ h. elim (other h) [ ];
      parsed = λ h. elim (other h) [ ];
    }

    answered-Fine :
        (r : ChatResponse) (s : Loop)
        → Kept s
        → Fine (answered limits tools args_valid timed_out chat parse_conclusion r s)
    unfolding answered
    answered-Fine r s k =
        let s0 = record s { tokens = s.tokens + r.total_tokens; sequence = 1 } in
        let s1 = append_event 1 reasoning "" s0 in
        let k1 : Kept s1 =
          other_event-Kept 1 reasoning "" s0 refl
            (record { within = k.within; recorded = k.recorded; known = k.known }) in
        elim (Bool-cases (leb limits.tokens s1.tokens)) [
          | inl spent ↦
              rw (answered, spent)
                (unconcluded timeout (parse_conclusion r.content) s1 (λ h. cc h) k1)
          | inr affordable ↦ elim (Bool-cases (r.wants_tools && not (is_empty r.tool_calls))) [
            | inl wants ↦ rw (answered, affordable, wants) (calls-Kept r.tool_calls s1 k1)
            | inr speaks ↦ elim (Option-cases (parse_conclusion r.content)) [
              | inr (c, e) ↦
                  let k2 = other_event-Kept 3 concluding "" s1 refl k1 in
                  rw (answered, affordable, speaks, e)
                    (record {
                      within = k2.within;
                      recorded = k2.recorded;
                      known = k2.known;
                      affordable = λ h. ground (arith, affordable);
                      parsed = λ h. (c, refl);
                    })
              | inl e ↦
                  let s2 = record s1 { invalid = s1.invalid + 1 } in
                  let k2 =
                    other_event-Kept 2 error_event "" s2 refl
                      (record { within = k1.within; recorded = k1.recorded; known = k1.known }) in
                  elim (Bool-cases (leb 3 s2.invalid)) [
                    | inl often ↦
                        rw (answered, affordable, speaks, e, often)
                          (unconcluded failed none _ (λ h. cc h) k2)
                    | inr seldom ↦ rw (answered, affordable, speaks, e, seldom) k2
                  ]
            ]
          ]
        ]

    iterate-Within :
        (fuel : ℕ) (s : Loop)
        → Kept s
        → (r : RunResult Conclusion)
        → iterate limits tools args_valid timed_out chat parse_conclusion fuel s ≡ some r
        → Within r
    unfolding iterate
    iterate-Within zero s k r h = cc h
    iterate-Within (suc fuel) s k r h = elim (Bool-cases (timed_out s.iteration)) [
      | inl late ↦
          subst Within (result_injective (rw (iterate, late) at h))
            (unconcluded timeout none s (λ e. cc e) k)
      | inr early ↦
          let s1 = record s { iteration = s.iteration + 1; sequence = 0 } in
          let k1 : Kept s1 = record { within = k.within; recorded = k.recorded; known = k.known } in
          elim (Option-cases (chat s1.iteration)) [
            | inl silent ↦ subst Within (result_injective (rw (iterate, early, silent) at h)) (
                unconcluded failed none _ (λ e. cc e)
                  (other_event-Kept 1 error_event "" s1 refl k1))
            | inr (answer, spoken) ↦
                go (λ next f e. iterate-Within fuel next f r e)
                  (answered limits tools args_valid timed_out chat parse_conclusion answer s1)
                  (answered-Fine answer s1 k1) (rw (iterate, early, spoken) at h)
          ]
    ]
      where
        result_injective :
            {a b : RunResult Conclusion}
            → ◌≡◌ {A = Option (RunResult Conclusion)} (some a) (some b)
            → a ≡ b
        result_injective p = cc p

        go :
            ((next : Loop)
              → Kept next
              → iterate limits tools args_valid timed_out chat parse_conclusion fuel next ≡ some r
              → Within r)
            → (x : Answer) → Fine x
            → ◌≡◌ {A = Option (RunResult Conclusion)}
                (elim x [
                  | inl result ↦ some result
                  | inr next ↦
                      iterate limits tools args_valid timed_out chat parse_conclusion fuel next
                ])
                (some r)
            → Within r
        go again (inl result) f e = subst Within (result_injective e) f
        go again (inr next) f e = again next f e

-- However the model answers: a run that ends has made at most as many calls of tools as its limits
-- allow, each of a tool of its manifest; and if it concluded, it has spent fewer tokens than its
-- limit and has a conclusion that fits.
pub run-Within :
    {Conclusion : Type 0} (limits : ReasoningLimits) (tools : List ResolvedTool)
    (args_valid : ResolvedTool → String → Bool) (timed_out : ℕ → Bool)
    (chat : ℕ → Option ChatResponse) (parse_conclusion : String → Option Conclusion) (fuel : ℕ)
    (r : RunResult Conclusion)
    → run limits tools args_valid timed_out chat parse_conclusion fuel ≡ some r
    → Within (apply_defaults limits) tools args_valid timed_out chat parse_conclusion r
unfolding run
run-Within limits tools args_valid timed_out chat parse_conclusion fuel r h =
    iterate-Within (apply_defaults limits) tools args_valid timed_out chat parse_conclusion fuel
      at_goal (record { within = omega arith; recorded = omega arith; known = ((λ e. cc e), tt) }) r
      h
