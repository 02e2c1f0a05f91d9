-- ===== src/Triggers/Delivery.antt =====
-- internal/triggers/delivery.go and concurrency.go: what becomes of a message of a queue, and
-- internal/channels/trigger_adapter.go, by which it comes to the pipeline of channels.
pub mod Handled
pub mod Lost
mod Tests
use aceryx.Prelude.{
  ℕ, suc, ◌+◌, String, Bool, true, false, Option, none, some, List, [], ◌∷◌, ◌++◌, fold,
}
use aceryx.Json.{Json, Fields, RawMessage}
use aceryx.Channels.Dedup.{ChannelError}
use aceryx.Channels.{
  PipelineRequest, CaseStore, ChannelStore, Outcome, finished, duplicate, failed, process,
}

pub data DeliveryMode : Type 0 where
  at_least_once exactly_once best_effort other_mode : DeliveryMode

-- `size` is the length of the message.
pub record MessageEnvelope : Type 0 where
  pub message : RawMessage
  pub size : ℕ
  pub message_id : String

-- The errors of a pipeline: ErrDeduped, or another.
pub data PipelineError : Type 0 where
  deduped : PipelineError
  not_processed : ChannelError → PipelineError

pub data DeliveryError : Type 0 where
  no_pipeline no_driver unsupported_mode : DeliveryError
  ack_failed : String → DeliveryError
  pipeline_failed : PipelineError → DeliveryError

-- The driver of a queue. What Nack answers is dropped.
pub record QueueDriver (Q : Type 0) : Type 0 where
  pub ack : String → Q → Option String × Q
  pub nack : String → Q → Q

-- A pipeline, which is told the time and works on a store.
abbrev pub ChannelPipeline : Type 0 → Type 0
ChannelPipeline S = ℕ → MessageEnvelope → S → Option PipelineError × S

-- The queue, the store of the pipeline, and the messages whose processing was started in the
-- background.
pub record Deliveries (Q S : Type 0) : Type 0 where
  pub queue : Q
  pub store : S
  pub background : List MessageEnvelope

module _ {Q S : Type 0} where
  abbrev pub acknowledged :
      Deliveries Q S → Option String × Q → Option DeliveryError × Deliveries Q S
  acknowledged st (none, queue) = (none, record st { queue = queue })
  acknowledged st (some text, queue) = (some (ack_failed text), record st { queue = queue })

  -- The message is acknowledged after its processing, or given back where that fails.
  unfoldable pub settle :
      QueueDriver Q
      → MessageEnvelope
      → Deliveries Q S
      → Option PipelineError × S
      → Option DeliveryError × Deliveries Q S
  settle driver env st (none, store) =
      acknowledged (record st { store = store }) (driver.ack env.message_id st.queue)
  settle driver env st (some e, store) = (
    some (pipeline_failed e),
    record st { queue = driver.nack env.message_id st.queue; store = store },
  )

  -- The message is acknowledged first, and its processing starts in the background.
  unfoldable pub start_background :
      MessageEnvelope → Deliveries Q S → Option String × Q → Option DeliveryError × Deliveries Q S
  start_background env st (none, queue) =
      (none, record st { queue = queue; background = st.background ++ env ∷ [] })
  start_background env st (some text, queue) = (some (ack_failed text), record st { queue = queue })

  unfoldable pub handle_with :
      DeliveryMode
      → QueueDriver Q
      → ChannelPipeline S
      → ℕ
      → MessageEnvelope
      → Deliveries Q S
      → Option DeliveryError × Deliveries Q S
  handle_with best_effort driver pipeline now env st =
      start_background env st (driver.ack env.message_id st.queue)
  handle_with exactly_once driver pipeline now env st =
      settle driver env st (pipeline now env st.store)
  handle_with at_least_once driver pipeline now env st =
      settle driver env st (pipeline now env st.store)
  handle_with other_mode driver pipeline now env st = (some unsupported_mode, st)

  unfoldable pub handle_message :
      DeliveryMode
      → Option (QueueDriver Q)
      → Option (ChannelPipeline S)
      → ℕ
      → MessageEnvelope
      → Deliveries Q S
      → Option DeliveryError × Deliveries Q S
  handle_message mode driver none now env st = (some no_pipeline, st)
  handle_message mode none (some pipeline) now env st = (some no_driver, st)
  handle_message mode (some driver) (some pipeline) now env st =
      handle_with mode driver pipeline now env st

-- The counters of an instance, far from the end of int64.
pub record TriggerMetrics : Type 0 where
  pub events_received : ℕ
  pub events_processed : ℕ
  pub events_failed : ℕ

abbrev pub record_received : TriggerMetrics → TriggerMetrics
record_received m = record m { events_received = suc m.events_received }

abbrev pub record_end : Option DeliveryError → TriggerMetrics → TriggerMetrics
record_end none m = record m { events_processed = suc m.events_processed }
record_end (some e) m = record m { events_failed = suc m.events_failed }

module _ {Q S : Type 0} (mode : DeliveryMode) (driver : Option (QueueDriver Q))
    (pipeline : Option (ChannelPipeline S)) where
  -- A round of the loop of a worker, at the time `now`.
  unfoldable pub work :
      TriggerMetrics × Deliveries Q S → ℕ × MessageEnvelope → TriggerMetrics × Deliveries Q S
  work (m, st) (now, env) =
      let answer = handle_message mode driver pipeline now env st in
      (record_end answer.0 (record_received m), answer.1)

  -- The messages that a worker takes from its buffer, one after the other.
  abbrev pub run :
      TriggerMetrics × Deliveries Q S → List (ℕ × MessageEnvelope) → TriggerMetrics × Deliveries Q S
  run start messages = fold work start messages

-- TriggerPipelineAdapter: the pipeline of channels for one tenant and one channel.
abbrev pub request_of : MessageEnvelope → PipelineRequest
request_of env = record {
  has_ids = true;
  payload = env.message;
  size = env.size;
  attachments = [];
  dedup_override = none;
}

abbrev pub error_of : Outcome → Option PipelineError
error_of (finished id) = none
error_of (duplicate matched) = some deduped
error_of (failed e) = some (not_processed e)

module _ {S : Type 0} (print : Json → String) (hash : String → String) (ops : CaseStore S)
    (marshalled : Fields → ℕ) where
  unfoldable pub adapted_pipeline : ChannelPipeline (ChannelStore S)
  adapted_pipeline now env st =
      let answer = process print hash ops marshalled now (request_of env) st in
      (error_of answer.0, answer.1)
