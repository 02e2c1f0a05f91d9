-- ===== src/Triggers/Delivery/Lost.antt =====
-- internal/triggers/delivery.go with internal/channels: a message whose processing failed, and that
-- the queue gives again.
use aceryx.Prelude.{
  ℕ, zero, suc, ◌+◌, String, true, some, List, [], ◌∷◌, length, map, ◌≡◌, refl, sym, ap, subst, ◌∙◌,
  arith,
}
use aceryx.Json.{Json, Fields, document}
use aceryx.Channels.Dedup.{ChannelEvent, ChannelError, is_recent, window_of}
use aceryx.Channels.{
  Channel, CaseStore, ChannelStore, duplicate_event, failed, failed_event, dedup_of, process,
}
use aceryx.Channels.Retried.{Comparable, process-Newest, process-failed}
use aceryx.Triggers.Delivery.{
  DeliveryMode, MessageEnvelope, deduped, not_processed, pipeline_failed, QueueDriver, Deliveries,
  TriggerMetrics, work, run, handle_message, settle, request_of, error_of, adapted_pipeline,
  record_end, record_received,
}
use aceryx.Triggers.Delivery.Handled.{Settles, handle_message-settle}

module _ {Q S : Type 0} (print : Json → String) (hash : String → String) (ops : CaseStore S)
    (marshalled : Fields → ℕ) (mode : DeliveryMode) (driver : QueueDriver Q) (env : MessageEnvelope)
    (ch : Channel) (doc : Json) where
  -- Each time is within the window of the time before it.
  abbrev pub Gaps : ℕ → List ℕ → Type 0
  Gaps at [] = Unit
  Gaps at (now ∷ rest) =
      (is_recent now (window_of (dedup_of (request_of env) ch))
          (failed_event print hash ops at (document doc))
        ≡ true)
      × Gaps now rest

  -- The queue after the message was given back some times.
  abbrev pub given_back : ℕ → Q → Q
  given_back zero queue = queue
  given_back (suc n) queue = given_back n (driver.nack env.message_id queue)

  abbrev pub redelivered :
      TriggerMetrics × Deliveries Q (ChannelStore S)
      → List ℕ
      → TriggerMetrics × Deliveries Q (ChannelStore S)
  redelivered start times =
      run mode (some driver) (some (adapted_pipeline print hash ops marshalled)) start
        (map (λ now. (now, env)) times)

  -- What the redeliveries of a message leave: the cases as they were, and the message given back to
  -- the queue each time.
  pub record IsLost (m : TriggerMetrics) (st : Deliveries Q (ChannelStore S)) (n : ℕ)
      (after : TriggerMetrics × Deliveries Q (ChannelStore S)) : Type 0 where
    pub no_case : after.1.store.rows ≡ st.store.rows
    pub back : after.1.queue ≡ given_back n st.queue
    pub none_processed : after.0.events_processed ≡ m.events_processed
    pub all_failed : after.0.events_failed ≡ m.events_failed + n

  settle-Newest :
      (now : ℕ) (st : Deliveries Q (ChannelStore S)) (event : ChannelEvent)
      (rest : List ChannelEvent)
      → Settles mode
      → Comparable print hash ops (request_of env) ch doc
      → st.store.channel ≡ some ch
      → st.store.events ≡ event ∷ rest
      → event.raw_payload ≡ document doc
      → is_recent now
          (window_of (dedup_of (request_of env) ch))
          (failed_event print hash ops event.created_at (document doc))
        ≡ true
      → handle_message mode
          (some driver)
          (some (adapted_pipeline print hash ops marshalled))
          now
          env
          st
        ≡ (
          some (pipeline_failed deduped),
          record st {
            queue = driver.nack env.message_id st.queue;
            store = record st.store {
              events = duplicate_event now (document doc) event.case_id ∷ st.store.events;
            };
          },
        )
  unfolding adapted_pipeline settle
  settle-Newest now st event rest settles c channel first same recent =
      let answer =
        process-Newest print hash ops marshalled now (request_of env) st.store ch doc event rest c
          channel first same recent in
      handle_message-settle mode driver (adapted_pipeline print hash ops marshalled) now env st
        settles
      ∙ ap (λ p. settle driver env st (error_of p.0, p.1)) answer

  redelivered-IsLost :
      (times : List ℕ) (m : TriggerMetrics) (st : Deliveries Q (ChannelStore S))
      (event : ChannelEvent) (rest : List ChannelEvent)
      → Settles mode
      → Comparable print hash ops (request_of env) ch doc
      → st.store.channel ≡ some ch
      → st.store.events ≡ event ∷ rest
      → event.raw_payload ≡ document doc
      → Gaps event.created_at times
      → IsLost m st (length times) (redelivered (m, st) times)
  unfolding work
  redelivered-IsLost [] m st event rest settles c channel first same gaps = record {
    no_case = refl;
    back = refl;
    none_processed = refl;
    all_failed = omega arith;
  }
  redelivered-IsLost (now ∷ times) m st event rest settles c channel first same (recent, gaps) =
      let step = settle-Newest now st event rest settles c channel first same recent in
      let next = record st {
        queue = driver.nack env.message_id st.queue;
        store = record st.store {
          events = duplicate_event now (document doc) event.case_id ∷ st.store.events;
        };
      } in
      let counted = record_end (some (pipeline_failed deduped)) (record_received m) in
      let begun : work mode (some driver) (some (adapted_pipeline print hash ops marshalled))
            (m, st) (now, env)
          ≡ (counted, next) =
        ap (λ p. (record_end p.0 (record_received m), p.1)) step in
      let later =
        redelivered-IsLost times counted next (duplicate_event now (document doc) event.case_id)
          st.store.events settles c channel refl refl gaps in
      subst (λ p. IsLost m st (suc (length times)) (redelivered p times)) (sym begun)
        (record {
          no_case = later.no_case;
          back = later.back;
          none_processed = later.none_processed;
          all_failed = omega (arith, later.all_failed);
        })

  -- A message whose processing failed is lost: whenever the queue gives it again within the window of
  -- the time before, it is given back to the queue as a duplicate, and no case ever comes of it. This
  -- holds in the modes that process before they acknowledge, for a document of at most a megabyte, an
  -- enabled channel, and a strategy of the channel that finds something to compare in the document.
  pub message-IsLost :
      (first : ℕ) (times : List ℕ) (m : TriggerMetrics) (st : Deliveries Q (ChannelStore S))
      (e : ChannelError)
      → Settles mode
      → Comparable print hash ops (request_of env) ch doc
      → st.store.channel ≡ some ch
      → (process print hash ops marshalled first (request_of env) st.store).0 ≡ failed e
      → Gaps first times
      → IsLost m st (suc (length times)) (redelivered (m, st) (first ∷ times))
  unfolding work adapted_pipeline settle
  message-IsLost first times m st e settles c channel fails gaps =
      let event = failed_event print hash ops first (document doc) in
      let next = record st {
        queue = driver.nack env.message_id st.queue;
        store = record st.store { events = event ∷ st.store.events };
      } in
      let counted = record_end (some (pipeline_failed (not_processed e))) (record_received m) in
      let left =
        process-failed print hash ops marshalled first (request_of env) st.store ch doc e c fails in
      let answer = process print hash ops marshalled first (request_of env) st.store in
      let begun : work mode (some driver) (some (adapted_pipeline print hash ops marshalled))
            (m, st) (first, env)
          ≡ (counted, next) =
        ap (λ p. (record_end p.0 (record_received m), p.1))
          (handle_message-settle mode driver (adapted_pipeline print hash ops marshalled) first env
              st settles
            ∙ ap (λ o. settle driver env st (error_of o, answer.1)) fails
            ∙ ap (λ s. settle driver env st (some (not_processed e), s)) left) in
      let later =
        redelivered-IsLost times counted next event st.store.events settles c channel refl refl
          gaps in
      subst (λ p. IsLost m st (suc (length times)) (redelivered p times)) (sym begun)
        (record {
          no_case = later.no_case;
          back = later.back;
          none_processed = later.none_processed;
          all_failed = omega (arith, later.all_failed);
        })
