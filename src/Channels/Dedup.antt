-- ===== src/Channels/Dedup.antt =====
-- internal/channels/dedup.go and paths.go: whether an event is a duplicate of a recent one. An object
-- has each key once here.
use aceryx.Prelude.{
  ℕ, ◌+◌, String, Bool, true, false, Option, none, some, List, [], ◌∷◌, Result, ok, err, ◌>>=◌,
  filter, nat_eq, leb, ltb, ◌==◌, if◌then◌else◌,
}
use aceryx.Prelude.Text.{trim_space}
use aceryx.Prelude.Int.{ℤ, pos, negsuc, not_positive, mul64}
use aceryx.Json.{Json, Fields, RawMessage, document, end, null, obj, lower_codes}
use aceryx.Tasks.Paths.{split_dots, get_at_parts}
use aceryx.Tasks.Forms.{after_prefix, same_codes}
use aceryx.Workflows.Config.{is_blank}
use Prim.Native.Char.{code}
use Prim.Native.String

pub data EventStatus : Type 0 where
  event_processed event_deduped event_failed : EventStatus

pub record ChannelEvent : Type 0 where
  pub raw_payload : RawMessage
  pub attachments : List String
  pub case_id : Option String
  pub status : EventStatus
  pub created_at : ℕ

pub record DedupConfig : Type 0 where
  pub strategy : String
  pub fields : List String
  pub window_mins : ℤ

pub data ChannelError : Type 0 where
  ids_required not_found channel_disabled unsupported_strategy invalid_payload panicked :
      ChannelError
  other_error : String → ChannelError

-- json.Unmarshal into a map[string]any
unfoldable pub decode_map : RawMessage → Option Fields
decode_map (document null) = some end
decode_map (document (obj fields)) = some fields
decode_map _ = none

-- strings.Trim(path, ".")
unfoldable pub trim_dots_left : String → String
trim_dots_left String.[] = ""
trim_dots_left (String.◌∷◌ c rest) =
    let trimmed = trim_dots_left rest in if nat_eq (code c) b'.' then trimmed else String.◌∷◌ c rest

unfoldable pub trim_dots_right : String → String
trim_dots_right String.[] = ""
trim_dots_right (String.◌∷◌ c rest) =
    let kept = trim_dots_right rest in
    if nat_eq (code c) b'.'
    then (if kept == "" then "" else String.◌∷◌ c kept)
    else String.◌∷◌ c kept

abbrev pub trim_payload : String → String
trim_payload path = elim (after_prefix "payload." path) [ none ↦ path | some rest ↦ rest ]

unfoldable pub normalize_payload_path : String → String
normalize_payload_path path = trim_dots_right (trim_dots_left (trim_payload (trim_space path)))

-- An empty object has no member on any path.
unfoldable pub lookup_path : Fields → String → Option Json
lookup_path fields path =
    if is_blank path then none else get_at_parts (split_dots path) (obj fields)

-- strings.Join
unfoldable pub join_pieces : List String → String
join_pieces [] = ""
join_pieces (piece ∷ []) = piece
join_pieces (piece ∷ next ∷ rest) = String.◌++◌ piece (String.◌++◌ "|" (join_pieces (next ∷ rest)))

pub data DedupStrategy : Type 0 where
  no_strategy field_hash time_window case_match other_strategy : DedupStrategy

unfoldable pub strategy_of : String → DedupStrategy
strategy_of text =
    let codes = lower_codes (trim_space text) in
    if same_codes codes []
    then no_strategy
    else if same_codes codes (lower_codes "field_hash")
    then field_hash
    else if same_codes codes (lower_codes "time_window")
    then time_window
    else if same_codes codes (lower_codes "case_match")
    then case_match
    else other_strategy

-- How far back an event counts, in nanoseconds.
unfoldable pub window_of : DedupConfig → ℤ
window_of config =
    if not_positive config.window_mins
    then pos 86400000000000
    else mul64 config.window_mins 60000000000

-- created_at >= now - window
abbrev pub is_recent : ℕ → ℤ → ChannelEvent → Bool
is_recent now (pos w) event = leb now (event.created_at + w)
is_recent now (negsuc n) event = ltb (now + n) event.created_at

-- The rows of FindRecentEvents, whatever their status; the newest row stands first.
abbrev pub find_recent_events : ℕ → ℤ → List ChannelEvent → List ChannelEvent
find_recent_events now window events = filter (is_recent now window) events

-- `print` is fmt.Sprint, and `hash` the hexadecimal text of sha256.Sum256.
module _ (print : Json → String) (hash : String → String) where
  unfoldable pub pieces_of : Fields → List String → List String
  pieces_of payload [] = []
  pieces_of payload (name ∷ rest) =
      let later = pieces_of payload rest in
      elim (lookup_path payload (normalize_payload_path name)) [
        | none ↦ later
        | some v ↦ print v ∷ later
      ]

  abbrev pub decoded_pieces : List String → Option Fields → List String
  decoded_pieces names none = []
  decoded_pieces names (some payload) = pieces_of payload names

  unfoldable pub dedup_key : List String → RawMessage → String
  dedup_key names raw = join_pieces (decoded_pieces names (decode_map raw))

  abbrev pub hash_pieces : List String → String
  hash_pieces [] = ""
  hash_pieces (piece ∷ rest) = hash (join_pieces (piece ∷ rest))

  unfoldable pub dedup_hash : List String → RawMessage → String
  dedup_hash names raw = hash_pieces (decoded_pieces names (decode_map raw))

-- The loop over the recent events.
unfoldable pub find_match :
    (RawMessage → String) → String → List ChannelEvent → Bool × Option String
find_match key target [] = (false, none)
find_match key target (event ∷ rest) =
    let later = find_match key target rest in
    if key event.raw_payload == target then (true, event.case_id) else later

unfoldable pub match_by :
    (RawMessage → String) → RawMessage → List ChannelEvent → Bool × Option String
match_by key payload recent =
    if key payload == "" then (false, none) else find_match key (key payload) recent

-- Check: whether the event is a duplicate, and the case that it belongs to, if any. `find_case` is
-- FindCaseByFields.
module _ (print : Json → String) (hash : String → String)
    (find_case : List String → RawMessage → Result ChannelError (Option String)) where
  unfoldable pub check_by :
      DedupStrategy
      → DedupConfig
      → RawMessage
      → List ChannelEvent
      → Result ChannelError (Bool × Option String)
  check_by no_strategy config payload recent = ok (false, none)
  check_by field_hash config payload recent =
      ok (match_by (dedup_hash print hash config.fields) payload recent)
  check_by time_window config payload recent =
      ok (match_by (dedup_key print hash config.fields) payload recent)
  check_by case_match config payload recent =
      find_case config.fields payload >>= λ found. ok (false, found)
  check_by other_strategy config payload recent = err unsupported_strategy

  unfoldable pub check :
      ℕ → DedupConfig → RawMessage → List ChannelEvent → Result ChannelError (Bool × Option String)
  check now config payload events =
      check_by (strategy_of config.strategy) config payload
        (find_recent_events now (window_of config) events)
