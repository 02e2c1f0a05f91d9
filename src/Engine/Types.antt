-- ===== src/Engine/Types.antt =====
-- internal/engine/types.go: the data of the workflow engine.
use aceryx.Prelude.{ℕ, String, Bool, Option, List}
use aceryx.Prelude.Map.{Map}
use aceryx.Prelude.Int.{ℤ}
use aceryx.Json.{Json, RawMessage}

-- The texts that the column case_steps.state may hold. `blank` is the empty text, which a
-- StepState has that a map does not hold.
pub data State : Type 0 where
  pending ready active completed failed skipped blank : State

pub data TransitionType : Type 0 where
  to_ready to_active to_skipped : TransitionType

pub data TransitionReason : Type 0 where
  dependencies_satisfied join_any_satisfied guard_false skip_propagation outcome_routing :
      TransitionReason

pub record Transition : Type 0 where
  pub step_id : String
  pub from : State
  pub to : State
  pub type : TransitionType
  pub reason : TransitionReason
  pub outcome : String

-- A time.Duration counts nanoseconds.
pub record ErrorPolicy : Type 0 where
  pub max_attempts : ℤ
  pub backoff : String
  pub initial_delay : ℤ
  pub max_delay : ℤ
  pub on_exhausted : String

pub record WorkflowStep : Type 0 where
  pub id : String
  pub type : String
  pub depends_on : List String
  pub join : String
  pub condition : String
  pub outcomes : Map (List String)
  pub config : RawMessage
  pub error_policy : ErrorPolicy
  pub metadata : Option (Map Json)

pub record WorkflowAst : Type 0 where
  pub steps : List WorkflowStep

pub record StepState : Type 0 where
  pub step_id : String
  pub state : State
  pub result : RawMessage
  pub retry_count : ℕ
  pub metadata : RawMessage
  pub completed_at : Option ℕ

pub record StepResult : Type 0 where
  pub outcome : String
  pub output : RawMessage
  pub writes_case_data : Bool
  pub case_data_patch : RawMessage
  pub execution_event : RawMessage
  pub audit_event_type : String
  pub attempts : ℕ

pub data EngineError : Type 0 where
  no_steps empty_step_id : EngineError
  duplicate_step_id : String → EngineError
  invalid_join_strategy : String → String → EngineError
  unknown_dependency : String → String → EngineError
  cycle_detected : String → EngineError
  nil_evaluator : String → EngineError
  guard_failed : String → String → EngineError
  -- not of the program: a loop that was given too little fuel
  out_of_fuel : EngineError
