-- ===== src/Engine/Store.antt =====
-- The rows of a case and of its steps, as the tables cases and case_steps hold them for
-- internal/engine.
use aceryx.Prelude.{ℕ, String, Bool, true, false, ◌&&◌, Option, List, [], ◌∷◌, ◌==◌, if◌then◌else◌}
use aceryx.Prelude.Map.{Map}
use aceryx.Json.{Json, RawMessage}
use aceryx.Engine.Types.{State, active}

-- An entry of the column case_steps.events.
pub data StepEvent : Type 0 where
  execution : Json → StepEvent
  completed_event : ℕ → ℕ → StepEvent
  failed_event : String → ℕ → StepEvent
  skipped_on_exhausted : ℕ → String → ℕ → StepEvent
  retry_attempt : ℕ → String → ℕ → StepEvent

-- A row of case_steps.
pub record StepRow : Type 0 where
  pub step_id : String
  pub state : State
  pub result : RawMessage
  pub error : Option String
  pub retry_count : ℕ
  pub events : List StepEvent
  -- the members that the engine sets in the column metadata
  pub cancelled_task : Bool
  pub request_id : Option String
  pub started_at : Option ℕ
  pub completed_at : Option ℕ

-- What RecordCaseEventTx is called with.
pub record AuditEvent : Type 0 where
  pub step_id : String
  pub event_type : String
  pub actor_type : String
  pub action : String
  pub payload : Map Json

-- A row of cases, with the rows of its steps and its audit trail.
pub record CaseRow : Type 0 where
  pub status : String
  pub version : ℕ
  pub data_column : Option Json
  pub updated_at : ℕ
  pub steps : List StepRow
  pub audit : List AuditEvent

-- What an operation leaves, and whether it asks for an evaluation of the case.
pub record Outcome : Type 0 where
  pub case_row : CaseRow
  pub evaluate : Bool

pub data StoreError : Type 0 where
  bad_json step_not_active case_data_conflict not_active_for_retry : StoreError

abbrev pub is_active : State → Bool
is_active active = true
is_active _ = false

-- UPDATE case_steps SET ... WHERE ...
unfoldable pub update_where : (StepRow → Bool) → (StepRow → StepRow) → List StepRow → List StepRow
update_where test change [] = []
update_where test change (row ∷ rows) =
    let rest = update_where test change rows in if test row then change row ∷ rest else row ∷ rest

-- step_id = $2 AND state = 'active'
abbrev pub is_active_step : String → StepRow → Bool
is_active_step id row = row.step_id == id && is_active row.state
