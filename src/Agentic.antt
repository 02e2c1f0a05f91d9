-- ===== src/Agentic.antt =====
-- internal/agentic: the reasoning loop of an agent's step. The model is an argument that answers
-- each iteration, in any way; so are the clock, the check of arguments and conclusions against
-- their JSON schemas, and the tools themselves. The messages, which only the model reads, are left
-- out.
pub mod Limits
pub mod Ending
mod Tests
use aceryx.Prelude.{
  ℕ, zero, suc, ◌+◌, ◌⊎◌, inl, inr, String, Bool, true, false, not, ◌&&◌, Option, none, some, List,
  [], ◌∷◌, ◌++◌, is_empty, fold, leb, ◌==◌, if◌then◌else◌,
}
use aceryx.Prelude.Int.{ℤ, pos, negsuc}
use aceryx.Prelude.Text.{trim_space}

pub record ReasoningLimits : Type 0 where
  pub max_iterations : ℤ
  pub max_tool_calls : ℤ
  pub max_tokens : ℤ

-- The limits with their defaults.
pub record Limited : Type 0 where
  pub iterations : ℕ
  pub tool_calls : ℕ
  pub tokens : ℕ

abbrev or_default : ℤ → ℕ → ℕ
or_default (pos n) default_value = if leb n 0 then default_value else n
or_default (negsuc n) default_value = default_value

unfoldable pub apply_defaults : ReasoningLimits → Limited
apply_defaults l = record {
  iterations = or_default l.max_iterations 10;
  tool_calls = or_default l.max_tool_calls 20;
  tokens = or_default l.max_tokens 50_000;
}

pub data EventType : Type 0 where
  goal_set reasoning error_event tool_call tool_result concluding : EventType

pub record ReasoningEvent : Type 0 where
  pub iteration : ℕ
  pub sequence : ℕ
  pub event_type : EventType
  pub tool_id : String

pub record ResolvedTool : Type 0 where
  pub id : String
  pub name : String
  pub tool_safety : String

pub record ToolCall : Type 0 where
  pub name : String
  pub arguments : String

-- What the loop reads of an answer. `wants_tools`: FinishReason is "tool_calls".
pub record ChatResponse : Type 0 where
  pub content : String
  pub total_tokens : ℕ
  pub wants_tools : Bool
  pub tool_calls : List ToolCall

pub data Status : Type 0 where
  concluded timeout failed : Status

-- manifest.toolsByName[name]: of two tools of one name the later one counts.
unfoldable pub find_tool : String → List ResolvedTool → Option ResolvedTool
find_tool name [] = none
find_tool name (tool ∷ tools) = elim (find_tool name tools) [
  | some later ↦ some later
  | none ↦ if tool.name == name then some tool else none
]

unfoldable pub validate_tool_call : String → List ResolvedTool → Option ResolvedTool
validate_tool_call name tools = find_tool (trim_space name) tools

-- The variables of the loop.
pub record Loop : Type 0 where
  pub iteration : ℕ
  pub tool_calls : ℕ
  pub tokens : ℕ
  pub invalid : ℕ
  pub sequence : ℕ
  pub events : List ReasoningEvent

pub record RunResult (Conclusion : Type 0) : Type 0 where
  pub status : Status
  pub conclusion : Option Conclusion
  pub total_iterations : ℕ
  pub total_tool_calls : ℕ
  pub total_tokens : ℕ
  pub trace : List ReasoningEvent

abbrev pub append_event : ℕ → EventType → String → Loop → Loop
append_event sequence event_type tool_id s = record s {
  events =
      s.events
      ++ record {
        iteration = s.iteration;
        sequence = sequence;
        event_type = event_type;
        tool_id = tool_id;
      }
        ∷ [];
}

module _ (limits : Limited) (tools : List ResolvedTool)
    (args_valid : ResolvedTool → String → Bool) where
  -- The body of the loop over resp.ToolCalls.
  unfoldable pub one_call : Loop → ToolCall → Loop
  one_call s call =
      let s1 = record s { sequence = s.sequence + 1 } in
      if leb limits.tool_calls s1.tool_calls
      then append_event s1.sequence error_event "" s1
      else let s2 = record s1 { tool_calls = s1.tool_calls + 1 } in
        elim (validate_tool_call call.name tools) [
          | none ↦ append_event s2.sequence error_event "" s2
          | some tool ↦
              if args_valid tool call.arguments
              then append_event (s2.sequence + 1) tool_result tool.id
                  (append_event s2.sequence tool_call tool.id s2)
              else append_event s2.sequence error_event "" s2
        ]

  module _ {Conclusion : Type 0} (timed_out : ℕ → Bool) (chat : ℕ → Option ChatResponse)
      (parse_conclusion : String → Option Conclusion) where
    -- The conclusion of a run that did not conclude, its last response as it came, is `none`.
    abbrev pub finish : Status → Option Conclusion → Loop → RunResult Conclusion
    finish status conclusion s = record {
      status = status;
      conclusion = conclusion;
      total_iterations = s.iteration;
      total_tool_calls = s.tool_calls;
      total_tokens = s.tokens;
      trace = s.events;
    }

    -- The loop after the answer to an iteration: the run is over, or the loop goes on.
    unfoldable pub answered : ChatResponse → Loop → RunResult Conclusion ⊎ Loop
    answered r s =
        let s1 =
          append_event 1 reasoning ""
            (record s { tokens = s.tokens + r.total_tokens; sequence = 1 }) in
        if leb limits.tokens s1.tokens
        then inl (finish timeout (parse_conclusion r.content) s1)
        else if r.wants_tools && not (is_empty r.tool_calls)
        then inr (fold one_call s1 r.tool_calls)
        else elim (parse_conclusion r.content) [
          | some conclusion ↦
              inl (
                finish concluded (some conclusion)
                  (append_event (s1.sequence + 2) concluding "" s1))
          | none ↦
              let s2 =
                append_event (s1.sequence + 1) error_event ""
                  (record s1 { invalid = s1.invalid + 1 }) in
              if leb 3 s2.invalid then inl (finish failed none s2) else inr s2
        ]

    -- `none`: the fuel did not suffice.
    unfoldable pub iterate : ℕ → Loop → Option (RunResult Conclusion)
    iterate zero s = none
    iterate (suc fuel) s =
        if timed_out s.iteration
        then some (finish timeout none s)
        else let s1 = record s { iteration = s.iteration + 1; sequence = 0 } in
          elim (chat s1.iteration) [
            | none ↦ some (finish failed none (append_event 1 error_event "" s1))
            | some r ↦ elim (answered r s1) [
              | inl result ↦ some result
              | inr next ↦ iterate fuel next
            ]
          ]

abbrev pub at_goal : Loop
at_goal =
    append_event 1 goal_set ""
      (record { iteration = 0; tool_calls = 0; tokens = 0; invalid = 0; sequence = 0; events = [] })

unfoldable pub run :
    {Conclusion : Type 0}
    → ReasoningLimits
    → List ResolvedTool
    → (ResolvedTool → String → Bool)
    → (ℕ → Bool)
    → (ℕ → Option ChatResponse)
    → (String → Option Conclusion)
    → ℕ
    → Option (RunResult Conclusion)
run limits tools args_valid timed_out chat parse_conclusion fuel =
    iterate (apply_defaults limits) tools args_valid timed_out chat parse_conclusion fuel at_goal
