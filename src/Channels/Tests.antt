-- ===== src/Channels/Tests.antt =====
-- internal/channels, on one event.
use aceryx.Prelude.{ℕ, ◌+◌, String, true, none, some, [], ◌∷◌, ok, ◌≡◌, refl, subst}
use aceryx.Prelude.Int.{pos}
use aceryx.Json.{Json, str, Fields, end, field, document, obj}
use aceryx.Channels.Dedup.{
  DedupConfig, check, check_by, strategy_of, dedup_key, pieces_of, window_of,
}
use aceryx.Channels.{
  Channel, PipelineRequest, CaseStore, ChannelStore, finished, process, answered, committed,
  process_tx,
}
use aceryx.Channels.Outcomes.{Finishes, Ends, process-Ends}

abbrev config : DedupConfig
config = record { strategy = "Time_Window"; fields = "payload.id" ∷ []; window_mins = pos 10 }

abbrev channel : Channel
channel = record { workflow_id = none; dedup_config = config; enabled = true }

-- The adapter gives no data. The rows count the cases.
abbrev ops : CaseStore ℕ
ops = record {
  find_case = λ rows names raw. ok none;
  adapt = λ ch raw. ok end;
  create_case = λ rows ch adapted. ok ("case-1", rows + 1);
  update_case_data = λ rows id patch. ok rows;
  store_attachment = none;
  attachments_patch = λ refs. end;
  evaluate_dag = none;
}

abbrev order : Json
order = obj (field "id" (str "7") end)

abbrev request : PipelineRequest
request = record {
  has_ids = true;
  payload = document order;
  size = 10;
  attachments = [];
  dedup_override = none;
}

abbrev store : ChannelStore ℕ
store = record { channel = some channel; rows = 0; events = [] }

abbrev print : Json → String
print v = "value"

abbrev length_of : Fields → ℕ
length_of fields = 10

-- The request becomes the first case.
abbrev left : ChannelStore ℕ
left = (process print (λ s. s) ops length_of 5 request store).1

process-finished : process print (λ s. s) ops length_of 5 request store ≡ (finished "case-1", left)
unfolding process answered aceryx.Channels.truncate_raw_payload committed process_tx
    aceryx.Channels.open_channel check check_by aceryx.Channels.checked_event
    aceryx.Channels.handle_event strategy_of aceryx.Tasks.Forms.same_codes aceryx.Json.lower_codes
    aceryx.Prelude.Text.trim_space aceryx.Prelude.Text.trim_right aceryx.Prelude.Text.trim_left
    aceryx.Channels.Dedup.match_by dedup_key aceryx.Channels.Dedup.join_pieces aceryx.CaseData.get
    aceryx.Channels.Dedup.decode_map aceryx.Channels.Dedup.find_match
    aceryx.Channels.Dedup.lookup_path aceryx.Channels.Dedup.normalize_payload_path pieces_of
    aceryx.Channels.Dedup.trim_dots_left aceryx.Channels.Dedup.trim_dots_right
    aceryx.Tasks.Forms.after_prefix aceryx.Tasks.Paths.get_at_parts aceryx.Tasks.Paths.split_dots
    aceryx.Channels.case_of aceryx.Channels.store_attachments aceryx.Channels.with_attachments
    aceryx.Channels.evaluated aceryx.Channels.record_event window_of
process-finished = refl

left_rows : left.rows ≡ 1
unfolding process answered aceryx.Channels.truncate_raw_payload committed process_tx
    aceryx.Channels.open_channel check check_by aceryx.Channels.checked_event
    aceryx.Channels.handle_event strategy_of aceryx.Tasks.Forms.same_codes aceryx.Json.lower_codes
    aceryx.Prelude.Text.trim_space aceryx.Prelude.Text.trim_right aceryx.Prelude.Text.trim_left
    aceryx.Channels.Dedup.match_by dedup_key aceryx.Channels.Dedup.join_pieces aceryx.CaseData.get
    aceryx.Channels.Dedup.decode_map aceryx.Channels.Dedup.find_match
    aceryx.Channels.Dedup.lookup_path aceryx.Channels.Dedup.normalize_payload_path pieces_of
    aceryx.Channels.Dedup.trim_dots_left aceryx.Channels.Dedup.trim_dots_right
    aceryx.Tasks.Forms.after_prefix aceryx.Tasks.Paths.get_at_parts aceryx.Tasks.Paths.split_dots
    aceryx.Channels.case_of aceryx.Channels.store_attachments aceryx.Channels.with_attachments
    aceryx.Channels.evaluated aceryx.Channels.record_event window_of
left_rows = refl

process-Ends_example : Finishes print (λ s. s) ops 5 request store "case-1" left
process-Ends_example =
    subst (Ends print (λ s. s) ops 5 request store) process-finished
      (process-Ends print (λ s. s) ops length_of 5 request store)
