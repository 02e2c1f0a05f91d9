-- ===== src/Channels/Retried.antt =====
-- internal/channels/pipeline.go and dedup.go: an event that failed and is sent again.
use aceryx.Prelude.{
  ℕ, ◌+◌, ltb, String, true, false, Option, none, some, List, ◌∷◌, Result, ok, ◌>>=◌, leb, ◌==◌,
  ◌≡◌, refl, sym, ap, ◌∙◌, inl, inr, Result-cases, text_eq_self,
}
use aceryx.Prelude.Int.{ℤ, pos, negsuc}
use aceryx.Json.{Json, Fields, RawMessage, document}
use aceryx.Channels.Dedup.{
  ChannelEvent, ChannelError, DedupConfig, check, check_by, DedupStrategy, no_strategy, field_hash,
  time_window, case_match, other_strategy, strategy_of, dedup_key, dedup_hash, find_match, match_by,
  find_recent_events, is_recent, window_of,
}
use aceryx.Channels.{
  Channel, PipelineRequest, CaseStore, ChannelStore, duplicate, failed, record_event, checked_event,
  open_channel, duplicate_event, dedup_of, process_tx, failed_event, record_failed_event, committed,
  answered, process, truncate_raw_payload,
}
use aceryx.Channels.Outcomes.{process_tx-cases}

module _ {S : Type 0} (print : Json → String) (hash : String → String) (ops : CaseStore S) where
  -- What two events are compared by, where the strategy compares events.
  abbrev pub compared : DedupStrategy → List String → RawMessage → String
  compared field_hash names raw = dedup_hash print hash names raw
  compared time_window names raw = dedup_key print hash names raw
  compared _ names raw = ""

  match_by-first :
      (key : RawMessage → String) (raw : RawMessage) (event : ChannelEvent)
      (rest : List ChannelEvent)
      → event.raw_payload ≡ raw
      → (key raw == "") ≡ false
      → match_by key raw (event ∷ rest) ≡ (true, event.case_id)
  unfolding match_by find_match
  match_by-first key raw event rest same some_key = rw (some_key, same, text_eq_self) refl

  check_by-first :
      (find_case : List String → RawMessage → Result ChannelError (Option String))
      (config : DedupConfig) (raw : RawMessage) (event : ChannelEvent) (rest : List ChannelEvent)
      (strategy : DedupStrategy)
      → event.raw_payload ≡ raw
      → (compared strategy config.fields raw == "") ≡ false
      → check_by print hash find_case strategy config raw (event ∷ rest) ≡ ok (true, event.case_id)
  unfolding check_by
  check_by-first find_case config raw event rest field_hash same some_key =
      ap ok (match_by-first (dedup_hash print hash config.fields) raw event rest same some_key)
  check_by-first find_case config raw event rest time_window same some_key =
      ap ok (match_by-first (dedup_key print hash config.fields) raw event rest same some_key)
  check_by-first find_case config raw event rest no_strategy same some_key = cc some_key
  check_by-first find_case config raw event rest case_match same some_key = cc some_key
  check_by-first find_case config raw event rest other_strategy same some_key = cc some_key

  check-first :
      (find_case : List String → RawMessage → Result ChannelError (Option String)) (now : ℕ)
      (config : DedupConfig) (raw : RawMessage) (event : ChannelEvent) (rest : List ChannelEvent)
      → event.raw_payload ≡ raw
      → (compared (strategy_of config.strategy) config.fields raw == "") ≡ false
      → is_recent now (window_of config) event ≡ true
      → check print hash find_case now config raw (event ∷ rest) ≡ ok (true, event.case_id)
  unfolding check
  check-first find_case now config raw event rest same some_key recent = rw (recent) (
      check_by-first find_case config raw event (find_recent_events now (window_of config) rest)
        (strategy_of config.strategy) same some_key)

  truncate-small :
      (marshalled : Fields → ℕ) (size : ℕ) (doc : Json)
      → leb size 1048576 ≡ true
      → truncate_raw_payload marshalled size (document doc) ≡ some (document doc)
  unfolding truncate_raw_payload
  truncate-small marshalled size doc small = rw (small) refl

  process-small :
      (marshalled : Fields → ℕ) (now : ℕ) (req : PipelineRequest) (st : ChannelStore S) (doc : Json)
      → req.has_ids ≡ true
      → req.payload ≡ document doc
      → leb req.size 1048576 ≡ true
      → process print hash ops marshalled now req st
        ≡ committed print hash ops now
            (document doc)
            st
            (process_tx print hash ops now (document doc) req st)
  unfolding process answered
  process-small marshalled now req st doc ids from small =
      ap
        (λ b.
          answered print hash ops b (truncate_raw_payload marshalled req.size req.payload) now req
            st)
        ids
      ∙ ap (λ t. answered print hash ops true t now req st)
          (ap (truncate_raw_payload marshalled req.size) from
            ∙ truncate-small marshalled req.size doc small)

  -- A request that fails leaves its event as a failed one.
  failed-leaves :
      (now : ℕ) (doc : Json) (req : PipelineRequest) (st : ChannelStore S) (e : ChannelError)
      → (committed print hash ops now
          (document doc)
          st
          (process_tx print hash ops now (document doc) req st)).0
        ≡ failed e
      → (committed print hash ops now
          (document doc)
          st
          (process_tx print hash ops now (document doc) req st)).1
        ≡ record st { events = failed_event print hash ops now (document doc) ∷ st.events }
  unfolding committed record_failed_event record_event
  failed-leaves now doc req st e =
      elim (Result-cases (process_tx print hash ops now (document doc) req st)) [
        | inl (failure, g) ↦ rw (g) (λ h. refl)
        | inr ((answer, after), g) ↦ rw (g) (λ h.
            elim (process_tx-cases print hash ops now (document doc) req st answer after g) [
              | inl (id, same, _) ↦ cc (h, same)
              | inr (matched, same, _) ↦ cc (h, same)
            ])
      ]

  opened : (ch : Channel) → ch.enabled ≡ true → open_channel (some ch) ≡ ok ch
  unfolding open_channel
  opened ch enabled = rw (enabled) refl

  -- A request whose document equals that of the newest event is a duplicate.
  dropped :
      (now : ℕ) (doc : Json) (req : PipelineRequest) (st : ChannelStore S) (ch : Channel)
      (event : ChannelEvent) (rest : List ChannelEvent)
      → st.channel ≡ some ch
      → ch.enabled ≡ true
      → st.events ≡ event ∷ rest
      → req.payload ≡ document doc
      → event.raw_payload ≡ document doc
      → (compared (strategy_of (dedup_of req ch).strategy) (dedup_of req ch).fields (document doc)
          == "")
        ≡ false
      → is_recent now (window_of (dedup_of req ch)) event ≡ true
      → process_tx print hash ops now (document doc) req st
        ≡ ok (
          duplicate event.case_id,
          record st { events = duplicate_event now (document doc) event.case_id ∷ st.events },
        )
  unfolding process_tx checked_event record_event
  dropped now doc req st ch event rest from enabled events payload same some_key recent =
      let find_case = ops.find_case st.rows in
      let checked : check print hash find_case now (dedup_of req ch) req.payload st.events
          ≡ ok (true, event.case_id) =
        ap (λ p. check print hash find_case now (dedup_of req ch) p st.events) payload
        ∙ ap (λ l. check print hash find_case now (dedup_of req ch) (document doc) l) events
        ∙ check-first find_case now (dedup_of req ch) (document doc) event rest same some_key
            recent in
      ap
        (λ r. r >>= λ v.
          (check print hash find_case now (dedup_of req v) req.payload st.events >>= λ found.
          checked_event ops now (document doc) req v st found))
        (ap open_channel from ∙ opened ch enabled)
      ∙ ap (λ r. r >>= λ found. checked_event ops now (document doc) req ch st found) checked

  recent_same :
      (now : ℕ) (window : ℤ) (event other : ChannelEvent)
      → event.created_at ≡ other.created_at
      → is_recent now window event ≡ is_recent now window other
  recent_same now (pos w) event other same = ap (λ t. leb now (t + w)) same
  recent_same now (negsuc n) event other same = ap (λ t. ltb (now + n) t) same

  -- A request within the channel's reach, whose document has something to compare.
  pub record Comparable (req : PipelineRequest) (ch : Channel) (doc : Json) : Type 0 where
    pub ids : req.has_ids ≡ true
    pub payload : req.payload ≡ document doc
    pub small : leb req.size 1048576 ≡ true
    pub enabled : ch.enabled ≡ true
    pub some_key :
        (compared (strategy_of (dedup_of req ch).strategy) (dedup_of req ch).fields (document doc)
          == "")
        ≡ false

  -- A request with the document of the newest event is dropped, within the window.
  pub process-Newest :
      (marshalled : Fields → ℕ) (now : ℕ) (req : PipelineRequest) (st : ChannelStore S)
      (ch : Channel) (doc : Json) (event : ChannelEvent) (rest : List ChannelEvent)
      → Comparable req ch doc
      → st.channel ≡ some ch
      → st.events ≡ event ∷ rest
      → event.raw_payload ≡ document doc
      → is_recent now
          (window_of (dedup_of req ch))
          (failed_event print hash ops event.created_at (document doc))
        ≡ true
      → process print hash ops marshalled now req st ≡ (
        duplicate event.case_id,
        record st { events = duplicate_event now (document doc) event.case_id ∷ st.events },
      )
  unfolding committed
  process-Newest marshalled now req st ch doc event rest c channel first same recent =
      process-small marshalled now req st doc c.ids c.payload c.small
      ∙ ap (committed print hash ops now (document doc) st) (
          dropped now doc req st ch event rest channel c.enabled first c.payload same c.some_key (
            recent_same now (window_of (dedup_of req ch)) event
              (failed_event print hash ops event.created_at (document doc)) refl
            ∙ recent))

  -- A request that fails leaves the cases as they were, and its event as the newest.
  pub process-failed :
      (marshalled : Fields → ℕ) (now : ℕ) (req : PipelineRequest) (st : ChannelStore S)
      (ch : Channel) (doc : Json) (e : ChannelError)
      → Comparable req ch doc
      → (process print hash ops marshalled now req st).0 ≡ failed e
      → (process print hash ops marshalled now req st).1
        ≡ record st { events = failed_event print hash ops now (document doc) ∷ st.events }
  process-failed marshalled now req st ch doc e c fails =
      let step = process-small marshalled now req st doc c.ids c.payload c.small in
      ap (λ p. p.1) step ∙ failed-leaves now doc req st e (ap (λ p. p.0) (sym step) ∙ fails)

  -- A request that failed is dropped as a duplicate when it is sent again within the window: the
  -- answer names no case, and the cases are as they were. This holds for a request that names its tenant and channel, a document
  -- of at most a megabyte, an enabled channel, and a strategy that finds something to compare in the
  -- document.
  pub failed_retry_dropped :
      (marshalled : Fields → ℕ) (first again : ℕ) (req : PipelineRequest) (st : ChannelStore S)
      (ch : Channel) (doc : Json) (e : ChannelError)
      → Comparable req ch doc
      → st.channel ≡ some ch
      → is_recent again
          (window_of (dedup_of req ch))
          (failed_event print hash ops first (document doc))
        ≡ true
      → (process print hash ops marshalled first req st).0 ≡ failed e
      → ((process print hash ops marshalled again req
            (process print hash ops marshalled first req st).1).0
          ≡ duplicate none)
        × ((process print hash ops marshalled again req
              (process print hash ops marshalled first req st).1).1.rows
            ≡ st.rows)
  failed_retry_dropped marshalled first again req st ch doc e c channel recent fails =
      let event = failed_event print hash ops first (document doc) in
      let stored = process-failed marshalled first req st ch doc e c fails in
      let second =
        process-Newest marshalled again req (record st { events = event ∷ st.events }) ch doc event
          st.events c channel refl refl recent in
      let whole = ap (λ s. process print hash ops marshalled again req s) stored ∙ second in
      (ap (λ p. p.0) whole, ap (λ p. p.1.rows) whole)
