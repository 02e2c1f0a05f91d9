-- ===== src/Agentic/Tests.antt =====
-- A run with one tool, whose model calls it once and then concludes; and one whose model goes on
-- calling it.
use aceryx.Prelude.{
  ℕ, ◌*◌, ◌≤◌, ◌<◌, ◌≡◌, refl, String, Bool, true, false, Option, none, some, List, [], ◌∷◌, arith,
  if◌then◌else◌, nat_eq,
}
use aceryx.Prelude.Int.{pos}
use aceryx.Prelude.Text.{trim_space, trim_left, trim_right}
use aceryx.Agentic.{
  ReasoningLimits, apply_defaults, ResolvedTool, ChatResponse, RunResult, find_tool,
  validate_tool_call, one_call, answered, iterate, run, timeout,
}
use aceryx.Agentic.Limits.{Within, run-Within}
use aceryx.Agentic.Ending.{Asks}

abbrev search_tool : ResolvedTool
search_tool = record { id = "t1"; name = "search"; tool_safety = "read_only" }

abbrev tools : List ResolvedTool
tools = search_tool ∷ []

abbrev limits : ReasoningLimits
limits = record { max_iterations = pos 2; max_tool_calls = pos 1; max_tokens = pos 100 }

abbrev any_args : ResolvedTool → String → Bool
any_args tool args = true

abbrev no_timeout : ℕ → Bool
no_timeout n = false

abbrev calling : ChatResponse
calling = record {
  content = "";
  total_tokens = 9;
  wants_tools = true;
  tool_calls = record { name = "search"; arguments = "{}" } ∷ [];
}

abbrev speaking : ChatResponse
speaking = record { content = "done"; total_tokens = 9; wants_tools = false; tool_calls = [] }

abbrev call_then_speak : ℕ → Option ChatResponse
call_then_speak n = if nat_eq n 1 then some calling else some speaking

abbrev always_call : ℕ → Option ChatResponse
always_call n = some calling

abbrev as_it_is : String → Option String
as_it_is content = some content

abbrev no_result : RunResult String
no_result = record {
  status = timeout;
  conclusion = none;
  total_iterations = 0;
  total_tool_calls = 0;
  total_tokens = 0;
  trace = [];
}

abbrev some_or : {A : Type 0} → A → Option A → A
some_or other none = other
some_or other (some a) = a

abbrev short : RunResult String
short = some_or no_result (run limits tools any_args no_timeout call_then_speak as_it_is 5)

run-short : run limits tools any_args no_timeout call_then_speak as_it_is 5 ≡ some short
unfolding run apply_defaults iterate answered one_call validate_tool_call find_tool trim_space
    trim_left trim_right
run-short = refl

run-Within_example :
    Within (apply_defaults limits) tools any_args no_timeout call_then_speak as_it_is short
run-Within_example =
    run-Within limits tools any_args no_timeout call_then_speak as_it_is 5 short run-short

always_call-costs : (n : ℕ) (r : ChatResponse) → always_call n ≡ some r → 1 ≤ r.total_tokens
always_call-costs n r e = omega (arith, cost e)
  where
    cost : always_call n ≡ some r → r.total_tokens ≡ 9
    cost p = cc p

always_call-Asks :
    (n : ℕ) → Asks (apply_defaults limits) tools any_args no_timeout always_call as_it_is 9 n
always_call-Asks n = record { answer = calling; given = refl; cheap = omega arith; wants = refl }

below_limit : 7 * 9 < (apply_defaults limits).tokens
unfolding apply_defaults
below_limit = omega arith
