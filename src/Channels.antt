-- ===== src/Channels.antt =====
-- internal/channels/pipeline.go: how the event of a channel becomes a case, unless it is a duplicate
-- (Channels/Dedup.antt). The cases are kept by other code, a `CaseStore`.
pub mod Dedup
pub mod Outcomes
pub mod Retried
mod Tests
use aceryx.Prelude.{
  ℕ, String, Bool, true, false, not, Option, none, some, List, [], ◌∷◌, Result, ok, err, ◌>>=◌,
  is_empty, leb, if◌then◌else◌,
}
use aceryx.Json.{
  Json, bool, num, Fields, end, field, RawMessage, empty, malformed, document, null, obj,
}
use aceryx.CaseData.{set}
use aceryx.Workflows.Config.{is_some}
use aceryx.Channels.Dedup.{
  EventStatus, event_processed, event_deduped, event_failed, ChannelEvent, DedupConfig,
  ChannelError, ids_required, not_found, channel_disabled, invalid_payload, panicked, check,
}

pub record Channel : Type 0 where
  pub workflow_id : Option String
  pub dedup_config : DedupConfig
  pub enabled : Bool

-- `has_ids` says that the tenant and the channel are given, and `size` is the length of the data.
pub record PipelineRequest : Type 0 where
  pub has_ids : Bool
  pub payload : RawMessage
  pub size : ℕ
  pub attachments : List String
  pub dedup_override : Option DedupConfig

-- The other code that Process calls, on the rows of the cases: the adapter of the channel, the
-- operations of the transaction, the vault of the attachments and the engine, where they are there.
pub record CaseStore (S : Type 0) : Type 0 where
  pub find_case : S → List String → RawMessage → Result ChannelError (Option String)
  pub adapt : Channel → RawMessage → Result ChannelError Fields
  pub create_case : S → Channel → Fields → Result ChannelError (String × S)
  pub update_case_data : S → String → Fields → Result ChannelError S
  pub store_attachment : Option (String → String → Result ChannelError String)
  pub attachments_patch : List String → Fields
  pub evaluate_dag : Option (S → String → Result ChannelError S)

-- The row of the request's channel, the rows of the cases, and the events of the channel, the newest
-- first.
pub record ChannelStore (S : Type 0) : Type 0 where
  pub channel : Option Channel
  pub rows : S
  pub events : List ChannelEvent

pub data Outcome : Type 0 where
  finished : String → Outcome
  -- ErrDeduped
  duplicate : Option String → Outcome
  failed : ChannelError → Outcome

abbrev pub truncated_marker : RawMessage
truncated_marker = document (obj (field "_truncated" (bool true) end))

abbrev pub marked : ℕ → Fields → Fields
marked size payload = set "_original_size" (num size) (set "_truncated" (bool true) payload)

abbrev pub braces_if_empty : RawMessage → RawMessage
braces_if_empty empty = document (obj end)
braces_if_empty raw = raw

-- `marshalled` is the length of an object as JSON. A write to the map that a null leaves panics.
unfoldable pub truncate_raw_payload : (Fields → ℕ) → ℕ → RawMessage → Option RawMessage
truncate_raw_payload marshalled size raw =
    if leb size 1048576 then some (braces_if_empty raw) else elim raw [
      | empty ↦ some truncated_marker
      | malformed ↦ some truncated_marker
      | document v ↦ elim v [
        | null ↦ none
        | obj payload ↦
            if leb (marshalled (marked size payload)) 1048576
            then some (document (obj (marked size payload)))
            else some truncated_marker
        | _ ↦ some truncated_marker
      ]
    ]

-- The row of an event, whose payload is cast to jsonb.
abbrev pub is_document : RawMessage → Bool
is_document (document v) = true
is_document _ = false

unfoldable pub store_attachments :
    Option (String → String → Result ChannelError String)
    → String
    → List String
    → Result ChannelError (List String)
store_attachments none id inputs = ok []
store_attachments (some store) id [] = ok []
store_attachments (some store) id (input ∷ rest) =
    let later = store_attachments (some store) id rest in
    store id input >>= λ ref. later >>= λ refs. ok (ref ∷ refs)

abbrev pub processed_event : ℕ → RawMessage → List String → String → ChannelEvent
processed_event now raw refs id = record {
  raw_payload = raw;
  attachments = refs;
  case_id = some id;
  status = event_processed;
  created_at = now;
}

abbrev pub duplicate_event : ℕ → RawMessage → Option String → ChannelEvent
duplicate_event now raw matched = record {
  raw_payload = raw;
  attachments = [];
  case_id = matched;
  status = event_deduped;
  created_at = now;
}

module _ {S : Type 0} where
  unfoldable pub record_event : ChannelStore S → ChannelEvent → Result ChannelError (ChannelStore S)
  record_event st event =
      if is_document event.raw_payload
      then ok (record st { events = event ∷ st.events })
      else err invalid_payload

  -- The case of the event, which is updated where it was found, and whether it was created.
  unfoldable pub case_of :
      CaseStore S → Channel → Option String → Fields → S → Result ChannelError (String × S)
  case_of ops ch none adapted rows = ops.create_case rows ch adapted
  case_of ops ch (some id) adapted rows =
      ops.update_case_data rows id adapted >>= λ changed. ok (id, changed)

  unfoldable pub with_attachments : CaseStore S → String → List String → S → Result ChannelError S
  with_attachments ops id [] rows = ok rows
  with_attachments ops id (ref ∷ refs) rows =
      ops.update_case_data rows id (ops.attachments_patch (ref ∷ refs))

  abbrev pub run_engine :
      Option (S → String → Result ChannelError S) → String → S → Result ChannelError S
  run_engine none id rows = ok rows
  run_engine (some evaluate) id rows = evaluate rows id

  -- A case that was found is not evaluated again.
  unfoldable pub evaluated :
      CaseStore S → Channel → Option String → String → S → Result ChannelError S
  evaluated ops ch matched id rows =
      if is_some ch.workflow_id
      then elim matched [ none ↦ run_engine ops.evaluate_dag id rows | some found ↦ ok rows ]
      else ok rows

  -- The rest of the transaction, once the event is no duplicate.
  unfoldable pub handle_event :
      CaseStore S
      → ℕ
      → RawMessage
      → PipelineRequest
      → Channel
      → Option String
      → ChannelStore S
      → Result ChannelError (Outcome × ChannelStore S)
  handle_event ops now raw req ch matched st = do
    adapted ← ops.adapt ch req.payload
    place ← case_of ops ch matched adapted st.rows
    refs ← store_attachments ops.store_attachment place.0 req.attachments
    attached ← with_attachments ops place.0 refs place.1
    rows ← evaluated ops ch matched place.0 attached
    after ← record_event (record st { rows = rows }) (processed_event now raw refs place.0)
    ok (finished place.0, after)

  unfoldable pub checked_event :
      CaseStore S
      → ℕ
      → RawMessage
      → PipelineRequest
      → Channel
      → ChannelStore S
      → Bool × Option String
      → Result ChannelError (Outcome × ChannelStore S)
  checked_event ops now raw req ch st (true, matched) =
      record_event st (duplicate_event now raw matched) >>= λ after. ok (duplicate matched, after)
  checked_event ops now raw req ch st (false, matched) = handle_event ops now raw req ch matched st

-- GetChannel, and the guard after it.
abbrev pub enabled_channel : Channel → Result ChannelError Channel
enabled_channel ch = if ch.enabled then ok ch else err channel_disabled

unfoldable pub open_channel : Option Channel → Result ChannelError Channel
open_channel none = err not_found
open_channel (some ch) = enabled_channel ch

abbrev pub dedup_of : PipelineRequest → Channel → DedupConfig
dedup_of req ch = elim req.dedup_override [ none ↦ ch.dedup_config | some given ↦ given ]

module _ {S : Type 0} (print : Json → String) (hash : String → String) (ops : CaseStore S) where
  -- The transaction.
  unfoldable pub process_tx :
      ℕ
      → RawMessage
      → PipelineRequest
      → ChannelStore S
      → Result ChannelError (Outcome × ChannelStore S)
  process_tx now raw req st = do
    ch ← open_channel st.channel
    found ← check print hash (ops.find_case st.rows) now (dedup_of req ch) req.payload st.events
    checked_event ops now raw req ch st found

  abbrev pub failed_event : ℕ → RawMessage → ChannelEvent
  failed_event now raw = record {
    raw_payload = raw;
    attachments = [];
    case_id = none;
    status = event_failed;
    created_at = now;
  }

  -- The error of RecordFailedEvent is dropped.
  unfoldable pub record_failed_event : ℕ → RawMessage → ChannelStore S → ChannelStore S
  record_failed_event now raw st = elim (record_event st (failed_event now raw)) [
    | err e ↦ st
    | ok after ↦ after
  ]

  -- What was committed, or the failed event on what was there before.
  unfoldable pub committed :
      ℕ
      → RawMessage
      → ChannelStore S
      → Result ChannelError (Outcome × ChannelStore S)
      → Outcome × ChannelStore S
  committed now raw st (ok answer) = answer
  committed now raw st (err e) = (failed e, record_failed_event now raw st)

  -- Process, whose payload for the event is `none` where its truncation panics.
  unfoldable pub answered :
      Bool → Option RawMessage → ℕ → PipelineRequest → ChannelStore S → Outcome × ChannelStore S
  answered false truncated now req st = (failed ids_required, st)
  answered true none now req st = (failed panicked, st)
  answered true (some raw) now req st = committed now raw st (process_tx now raw req st)

  unfoldable pub process :
      (Fields → ℕ) → ℕ → PipelineRequest → ChannelStore S → Outcome × ChannelStore S
  process marshalled now req st =
      answered req.has_ids (truncate_raw_payload marshalled req.size req.payload) now req st
