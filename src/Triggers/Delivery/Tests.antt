-- ===== src/Triggers/Delivery/Tests.antt =====
-- internal/triggers/delivery.go, on a message that the adapter of its channel cannot take.
use aceryx.Prelude.{
  ℕ, String, Bool, true, false, Option, none, some, List, [], ◌∷◌, Result, ok, err, ◌+◌, ◌==◌, ◌≡◌,
  refl, length,
}
use aceryx.Prelude.Int.{pos}
use aceryx.Json.{Json, num, str, Fields, end, field, RawMessage, document, obj}
use aceryx.Channels.Dedup.{
  DedupConfig, is_recent, window_of, ChannelError, other_error, check, check_by, strategy_of,
  dedup_key, pieces_of,
}
use aceryx.Channels.{
  Channel, PipelineRequest, CaseStore, ChannelStore, Outcome, duplicate, failed, failed_event,
  process, process_tx, committed, answered,
}
use aceryx.Channels.Outcomes.{Finishes}
use aceryx.Channels.Retried.{Comparable, compared}
use aceryx.Triggers.Delivery.{
  DeliveryMode, at_least_once, MessageEnvelope, QueueDriver, Deliveries, TriggerMetrics, run,
  handle_message, adapted_pipeline, request_of,
}
use aceryx.Triggers.Delivery.Handled.{handled-Finished}
use aceryx.Triggers.Delivery.Lost.{Gaps, IsLost, redelivered, message-IsLost}

abbrev config : DedupConfig
config = record { strategy = "Time_Window"; fields = "payload.id" ∷ []; window_mins = pos 10 }

abbrev channel : Channel
channel = record { workflow_id = none; dedup_config = config; enabled = true }

-- The adapter fails. The rows count the cases.
abbrev ops : CaseStore ℕ
ops = record {
  find_case = λ rows names raw. ok none;
  adapt = λ ch raw. err (other_error "expression");
  create_case = λ rows ch adapted. ok ("case-1", rows + 1);
  update_case_data = λ rows id patch. ok rows;
  store_attachment = none;
  attachments_patch = λ refs. end;
  evaluate_dag = none;
}

abbrev order : Json
order = obj (field "id" (str "7") end)

abbrev envelope : MessageEnvelope
envelope = record { message = document order; size = 10; message_id = "m-1" }

abbrev store : ChannelStore ℕ
store = record { channel = some channel; rows = 0; events = [] }

abbrev print : Json → String
print v = "value"

abbrev length_of : Fields → ℕ
length_of fields = 10

first_fails :
    (process print (λ s. s) ops length_of 5 (request_of envelope) store).0
    ≡ failed (other_error "expression")
unfolding process answered aceryx.Channels.truncate_raw_payload committed process_tx
    aceryx.Channels.open_channel check check_by aceryx.Channels.checked_event
    aceryx.Channels.handle_event strategy_of aceryx.Tasks.Forms.same_codes aceryx.Json.lower_codes
    aceryx.Prelude.Text.trim_space aceryx.Prelude.Text.trim_right aceryx.Prelude.Text.trim_left
    aceryx.Channels.Dedup.match_by dedup_key aceryx.Channels.Dedup.join_pieces aceryx.CaseData.get
    aceryx.Channels.Dedup.decode_map aceryx.Channels.Dedup.find_match
    aceryx.Channels.Dedup.lookup_path aceryx.Channels.Dedup.normalize_payload_path pieces_of
    aceryx.Channels.Dedup.trim_dots_left aceryx.Channels.Dedup.trim_dots_right
    aceryx.Tasks.Forms.after_prefix aceryx.Tasks.Paths.get_at_parts aceryx.Tasks.Paths.split_dots
first_fails = refl

has_key :
    (compared print (λ s. s) ops (strategy_of "Time_Window") ("payload.id" ∷ []) (document order)
      == "")
    ≡ false
unfolding strategy_of aceryx.Tasks.Forms.same_codes aceryx.Json.lower_codes
    aceryx.Prelude.Text.trim_space aceryx.Prelude.Text.trim_right aceryx.Prelude.Text.trim_left
    aceryx.Channels.Dedup.match_by dedup_key aceryx.Channels.Dedup.join_pieces aceryx.CaseData.get
    aceryx.Channels.Dedup.decode_map aceryx.Channels.Dedup.find_match
    aceryx.Channels.Dedup.lookup_path aceryx.Channels.Dedup.normalize_payload_path pieces_of
    aceryx.Channels.Dedup.trim_dots_left aceryx.Channels.Dedup.trim_dots_right
    aceryx.Tasks.Forms.after_prefix aceryx.Tasks.Paths.get_at_parts aceryx.Tasks.Paths.split_dots
has_key = refl

in_window :
    is_recent 9 (window_of config) (failed_event print (λ s. s) ops 5 (document order)) ≡ true
unfolding window_of
in_window = refl

abbrev driver : QueueDriver ℕ
driver = record { ack = λ id queue. (none, queue); nack = λ id queue. queue + 1 }

abbrev deliveries : Deliveries ℕ (ChannelStore ℕ)
deliveries = record { queue = 0; store = store; background = [] }

abbrev metrics : TriggerMetrics
metrics = record { events_received = 0; events_processed = 0; events_failed = 0 }

comparable : Comparable print (λ s. s) ops (request_of envelope) channel order
comparable = record { ids = refl; payload = refl; small = refl; enabled = refl; some_key = has_key }

gaps : Gaps print (λ s. s) ops length_of at_least_once driver envelope channel order 5 (9 ∷ 12 ∷ [])
unfolding window_of
gaps = (refl, (refl, tt))

message-IsLost_example :
    IsLost print
      (λ s. s)
      ops
      length_of
      at_least_once
      driver
      envelope
      channel
      order
      metrics
      deliveries
      3
      (redelivered print
        (λ s. s)
        ops
        length_of
        at_least_once
        driver
        envelope
        channel
        order
        (metrics, deliveries)
        (5 ∷ 9 ∷ 12 ∷ []))
message-IsLost_example =
    message-IsLost print (λ s. s) ops length_of at_least_once driver envelope channel order 5
      (9 ∷ 12 ∷ []) metrics deliveries (other_error "expression") tt comparable refl first_fails
      gaps

abbrev adapting : CaseStore ℕ
adapting = record ops { adapt = λ ch raw. ok end }

abbrev left : Deliveries ℕ (ChannelStore ℕ)
left =
    (handle_message at_least_once (some driver)
      (some (adapted_pipeline print (λ s. s) adapting length_of)) 5 envelope deliveries).1

handled :
    handle_message at_least_once
      (some driver)
      (some (adapted_pipeline print (λ s. s) adapting length_of))
      5
      envelope
      deliveries
    ≡ (none, left)
unfolding process answered aceryx.Channels.truncate_raw_payload committed process_tx
    aceryx.Channels.open_channel check check_by aceryx.Channels.checked_event
    aceryx.Channels.handle_event strategy_of aceryx.Tasks.Forms.same_codes aceryx.Json.lower_codes
    aceryx.Prelude.Text.trim_space aceryx.Prelude.Text.trim_right aceryx.Prelude.Text.trim_left
    aceryx.Channels.Dedup.match_by dedup_key aceryx.Channels.Dedup.join_pieces aceryx.CaseData.get
    aceryx.Channels.Dedup.decode_map aceryx.Channels.Dedup.find_match
    aceryx.Channels.Dedup.lookup_path aceryx.Channels.Dedup.normalize_payload_path pieces_of
    aceryx.Channels.Dedup.trim_dots_left aceryx.Channels.Dedup.trim_dots_right
    aceryx.Tasks.Forms.after_prefix aceryx.Tasks.Paths.get_at_parts aceryx.Tasks.Paths.split_dots
    handle_message aceryx.Triggers.Delivery.handle_with aceryx.Triggers.Delivery.settle
    adapted_pipeline aceryx.Channels.case_of aceryx.Channels.store_attachments
    aceryx.Channels.with_attachments aceryx.Channels.evaluated aceryx.Channels.record_event
    window_of
handled = refl

handled-Finished_example :
    (id : String) × Finishes print
      (λ s. s)
      adapting
      5
      (request_of envelope)
      deliveries.store
      id
      left.store
    × ((driver.ack envelope.message_id deliveries.queue).0 ≡ none)
handled-Finished_example =
    handled-Finished print (λ s. s) adapting length_of at_least_once driver 5 envelope deliveries
      left tt handled
