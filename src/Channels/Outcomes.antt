-- ===== src/Channels/Outcomes.antt =====
-- internal/channels/pipeline.go: what Process leaves behind.
use aceryx.Prelude.{
  ℕ, String, Bool, true, false, Option, none, some, List, ◌∷◌, ok, >>=-eq-ok, ok-injective, ◌≡◌,
  refl, sym, ap, ◌∙◌, subst, ◌⊎◌, inl, inr, Bool-cases, Result-cases,
}
use aceryx.Json.{Json, Fields, RawMessage}
use aceryx.Channels.Dedup.{
  EventStatus, event_processed, event_deduped, event_failed, ChannelEvent, check,
}
use aceryx.Channels.{
  Channel, PipelineRequest, CaseStore, ChannelStore, Outcome, finished, duplicate, failed,
  record_event, is_document, case_of, handle_event, store_attachments, with_attachments, evaluated,
  processed_event, checked_event, open_channel, duplicate_event, dedup_of, process_tx, failed_event,
  record_failed_event, committed, answered, process, truncate_raw_payload,
}

module _ {S : Type 0} where
  record_event-ok :
      (st : ChannelStore S) (event : ChannelEvent) {after : ChannelStore S}
      → record_event st event ≡ ok after
      → after ≡ record st { events = event ∷ st.events }
  unfolding record_event
  record_event-ok st event = elim (Bool-cases (is_document event.raw_payload)) [
    | inl e ↦ rw (e) (λ h. sym (ok-injective h))
    | inr e ↦ rw (e) (λ h. cc h)
  ]

open_channel-ok :
    (given : Option Channel) (ch : Channel)
    → open_channel given ≡ ok ch
    → (given ≡ some ch) × (ch.enabled ≡ true)
unfolding open_channel
open_channel-ok none ch = λ h. cc h
open_channel-ok (some given) ch = elim (Bool-cases given.enabled) [
  | inl e ↦
      rw (e) (λ h. let same = ok-injective h in (ap some same, ap (λ c. c.enabled) (sym same)))
  | inr e ↦ rw (e) (λ h. cc h)
]

module _ {S : Type 0} (print : Json → String) (hash : String → String) (ops : CaseStore S) where
  -- An event that became a case: the channel is enabled, the event is no duplicate, its adapted data
  -- are the case's, which was found or created, and the rows that are left are those that this
  -- makes, with the attachments and the evaluation after it; and it stands first as processed.
  pub record Finishes (now : ℕ) (req : PipelineRequest) (st : ChannelStore S) (id : String)
      (after : ChannelStore S) : Type 0 where
    pub ch : Channel
    pub matched : Option String
    pub adapted : Fields
    pub rows : S
    pub refs : List String
    pub attached : S
    pub event : ChannelEvent
    pub from_channel : st.channel ≡ some ch
    pub is_enabled : ch.enabled ≡ true
    pub unmatched :
        check print hash (ops.find_case st.rows) now (dedup_of req ch) req.payload st.events
        ≡ ok (false, matched)
    pub is_adapted : ops.adapt ch req.payload ≡ ok adapted
    pub has_case : case_of ops ch matched adapted st.rows ≡ ok (id, rows)
    pub are_stored : store_attachments ops.store_attachment id req.attachments ≡ ok refs
    pub has_attachments : with_attachments ops id refs rows ≡ ok attached
    pub leaves : evaluated ops ch matched id attached ≡ ok after.rows
    pub same_channel : after.channel ≡ st.channel
    pub is_recorded : after.events ≡ event ∷ st.events
    pub of_case : event.case_id ≡ some id
    pub of_attachments : event.attachments ≡ refs
    pub is_processed : event.status ≡ event_processed

  -- No case changed, and the events are the old ones, but for a new one in front.
  abbrev pub OnlyEvent : EventStatus → ChannelStore S → ChannelStore S → Type 0
  OnlyEvent status st after =
      (after.rows ≡ st.rows)
      × (after.channel ≡ st.channel)
      × ((after.events ≡ st.events)
          ⊎ ((event : ChannelEvent) × (after.events ≡ event ∷ st.events) × (event.status ≡ status)))

  abbrev pub Ends : ℕ → PipelineRequest → ChannelStore S → Outcome × ChannelStore S → Type 0
  Ends now req st (finished id, after) = Finishes now req st id after
  Ends now req st (duplicate matched, after) = OnlyEvent event_deduped st after
  Ends now req st (failed e, after) = OnlyEvent event_failed st after

  handle_event-ok :
      (now : ℕ) (raw : RawMessage) (req : PipelineRequest) (ch : Channel) (matched : Option String)
      (st : ChannelStore S) (answer : Outcome) (after : ChannelStore S)
      → st.channel ≡ some ch
      → ch.enabled ≡ true
      → check print hash (ops.find_case st.rows) now (dedup_of req ch) req.payload st.events
        ≡ ok (false, matched)
      → handle_event ops now raw req ch matched st ≡ ok (answer, after)
      → (id : String) × (answer ≡ finished id) × Finishes now req st id after
  unfolding handle_event
  handle_event-ok now raw req ch matched st answer after from enabled unmatched h =
      let (adapted, a, h1) = >>=-eq-ok (ops.adapt ch req.payload) _ h in
      let ((id, rows), c, h2) = >>=-eq-ok (case_of ops ch matched adapted st.rows) _ h1 in
      let (refs, f, h3) =
        >>=-eq-ok (store_attachments ops.store_attachment id req.attachments) _ h2 in
      let (attached, w, h4) = >>=-eq-ok (with_attachments ops id refs rows) _ h3 in
      let (last, v, h5) = >>=-eq-ok (evaluated ops ch matched id attached) _ h4 in
      let event = processed_event now raw refs id in
      let (stored, r, h6) = >>=-eq-ok (record_event (record st { rows = last }) event) _ h5 in
      let same = ok-injective h6 in
      let kept = record_event-ok (record st { rows = last }) event r in
      let whole : after ≡ record st { rows = last; events = event ∷ st.events } =
        sym (ap (λ p. p.1) same) ∙ kept in
      (
        id,
        sym (ap (λ p. p.0) same),
        record {
          ch = ch;
          matched = matched;
          adapted = adapted;
          rows = rows;
          refs = refs;
          attached = attached;
          event = event;
          from_channel = from;
          is_enabled = enabled;
          unmatched = unmatched;
          is_adapted = a;
          has_case = c;
          are_stored = f;
          has_attachments = w;
          leaves = v ∙ ap (λ s. ok s.rows) (sym whole);
          same_channel = ap (λ s. s.channel) whole;
          is_recorded = ap (λ s. s.events) whole;
          of_case = refl;
          of_attachments = refl;
          is_processed = refl;
        },
      )

  checked_event-ok :
      (now : ℕ) (raw : RawMessage) (req : PipelineRequest) (ch : Channel) (st : ChannelStore S)
      (found : Bool × Option String) (answer : Outcome) (after : ChannelStore S)
      → st.channel ≡ some ch
      → ch.enabled ≡ true
      → check print hash (ops.find_case st.rows) now (dedup_of req ch) req.payload st.events
        ≡ ok found
      → checked_event ops now raw req ch st found ≡ ok (answer, after)
      → ((id : String) × (answer ≡ finished id) × Finishes now req st id after)
        ⊎ ((matched : Option String) × (answer ≡ duplicate matched)
            × (after ≡ record st { events = duplicate_event now raw matched ∷ st.events }))
  unfolding checked_event
  checked_event-ok now raw req ch st (true, matched) answer after from enabled c h =
      let event = duplicate_event now raw matched in
      let (stored, r, h1) = >>=-eq-ok (record_event st event) _ h in
      let same = ok-injective h1 in
      inr (matched, sym (ap (λ p. p.0) same), ap (λ p. p.1) (sym same) ∙ record_event-ok st event r)
  checked_event-ok now raw req ch st (false, matched) answer after from enabled c h =
      inl (handle_event-ok now raw req ch matched st answer after from enabled c h)

  -- How a transaction ends that is committed.
  pub process_tx-cases :
      (now : ℕ) (raw : RawMessage) (req : PipelineRequest) (st : ChannelStore S) (answer : Outcome)
      (after : ChannelStore S)
      → process_tx print hash ops now raw req st ≡ ok (answer, after)
      → ((id : String) × (answer ≡ finished id) × Finishes now req st id after)
        ⊎ ((matched : Option String) × (answer ≡ duplicate matched)
            × (after ≡ record st { events = duplicate_event now raw matched ∷ st.events }))
  unfolding process_tx
  process_tx-cases now raw req st answer after h =
      let (ch, o, h1) = >>=-eq-ok (open_channel st.channel) _ h in
      let (from, enabled) = open_channel-ok st.channel ch o in
      let (found, c, h2) =
        >>=-eq-ok
          (check print hash (ops.find_case st.rows) now (dedup_of req ch) req.payload st.events) _
          h1 in
      checked_event-ok now raw req ch st found answer after from enabled c h2

  record_failed_event-OnlyEvent :
      (now : ℕ) (raw : RawMessage) (st : ChannelStore S)
      → OnlyEvent event_failed st (record_failed_event print hash ops now raw st)
  unfolding record_failed_event record_event
  record_failed_event-OnlyEvent now raw st = elim (Bool-cases (is_document raw)) [
    | inl e ↦ rw (e) (refl, refl, inr (failed_event print hash ops now raw, refl, refl))
    | inr e ↦ rw (e) (refl, refl, inl refl)
  ]

  committed-Ends :
      (now : ℕ) (raw : RawMessage) (req : PipelineRequest) (st : ChannelStore S)
      → Ends now req st
          (committed print hash ops now raw st (process_tx print hash ops now raw req st))
  unfolding committed
  committed-Ends now raw req st = elim (Result-cases (process_tx print hash ops now raw req st)) [
    | inl (failure, g) ↦ rw (g) (record_failed_event-OnlyEvent now raw st)
    | inr ((answer, after), g) ↦ rw (g) (elim (process_tx-cases now raw req st answer after g) [
      | inl (id, e, ends) ↦ subst (λ a. Ends now req st (a, after)) (sym e) ends
      | inr (matched, e, same) ↦
          subst (λ a. Ends now req st (a, after)) (sym e)
            (
              ap (λ s. s.rows) same,
              ap (λ s. s.channel) same,
              inr (duplicate_event now raw matched, ap (λ s. s.events) same, refl),
            )
    ])
  ]

  answered-Ends :
      (has_ids : Bool) (truncated : Option RawMessage) (now : ℕ) (req : PipelineRequest)
      (st : ChannelStore S)
      → Ends now req st (answered print hash ops has_ids truncated now req st)
  unfolding answered
  answered-Ends false truncated now req st = (refl, refl, inl refl)
  answered-Ends true none now req st = (refl, refl, inl refl)
  answered-Ends true (some raw) now req st = committed-Ends now raw req st

  -- What Process answers and leaves, for every request. Either the event has become a case: the
  -- channel is enabled, the event is no duplicate, the rows that are left are what the creation or
  -- the update with the adapted data, the attachments and the evaluation make of those before, and
  -- the event stands first as processed. Or the event is a duplicate, or an error, and then no case
  -- has changed, and at most one event stands first as new, a duplicate or failed.
  pub process-Ends :
      (marshalled : Fields → ℕ) (now : ℕ) (req : PipelineRequest) (st : ChannelStore S)
      → Ends now req st (process print hash ops marshalled now req st)
  unfolding process
  process-Ends marshalled now req st =
      answered-Ends req.has_ids (truncate_raw_payload marshalled req.size req.payload) now req st
