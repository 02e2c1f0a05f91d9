-- ===== src/Triggers/Delivery/Handled.antt =====
-- internal/triggers/delivery.go with internal/channels: a message that was handled.
use aceryx.Prelude.{ℕ, String, Option, none, some, ◌≡◌, refl, sym, ap, subst, ◌∙◌}
use aceryx.Json.{Json, Fields}
use aceryx.Channels.{CaseStore, ChannelStore, Outcome, finished, duplicate, failed, process}
use aceryx.Channels.Outcomes.{Finishes, Ends, process-Ends}
use aceryx.Triggers.Delivery.{
  DeliveryMode, at_least_once, exactly_once, best_effort, other_mode, MessageEnvelope, QueueDriver,
  ChannelPipeline, Deliveries, handle_message, handle_with, settle, acknowledged, request_of,
  error_of, adapted_pipeline, PipelineError,
}

-- The modes in which a message is processed before it is acknowledged.
abbrev pub Settles : DeliveryMode → Type 0
Settles at_least_once = Unit
Settles exactly_once = Unit
Settles _ = ⊥

module _ {Q S : Type 0} where
  pub handle_message-settle :
      (mode : DeliveryMode) (driver : QueueDriver Q) (pipeline : ChannelPipeline S) (now : ℕ)
      (env : MessageEnvelope) (st : Deliveries Q S)
      → Settles mode
      → handle_message mode (some driver) (some pipeline) now env st
        ≡ settle driver env st (pipeline now env st.store)
  unfolding handle_message handle_with
  handle_message-settle at_least_once driver pipeline now env st h = refl
  handle_message-settle best_effort driver pipeline now env st h = elim h [ ]
  handle_message-settle other_mode driver pipeline now env st h = elim h [ ]
  handle_message-settle exactly_once driver pipeline now env st h = refl

  acknowledged-none :
      (st after : Deliveries Q S) (answer : Option String × Q)
      → acknowledged st answer ≡ (none, after)
      → (after.store ≡ st.store) × (answer.0 ≡ none)
  acknowledged-none st after (none, queue) h = (ap (λ p. p.1.store) (sym h), refl)
  acknowledged-none st after (some text, queue) h = cc (ap (λ p. p.0) h)

  settle-none :
      (driver : QueueDriver Q) (env : MessageEnvelope) (st after : Deliveries Q S)
      (answer : Option PipelineError × S)
      → settle driver env st answer ≡ (none, after)
      → (answer.0 ≡ none)
        × (after.store ≡ answer.1)
        × ((driver.ack env.message_id st.queue).0 ≡ none)
  unfolding settle
  settle-none driver env st after (some e, store) h = cc (ap (λ p. p.0) h)
  settle-none driver env st after (none, store) h =
      let (stored, acked) =
        acknowledged-none (record st { store = store }) after (driver.ack env.message_id st.queue)
          h in
      (refl, stored, acked)

error_of-none : (o : Outcome) → error_of o ≡ none → (id : String) × (o ≡ finished id)
error_of-none (finished id) h = (id, refl)
error_of-none (duplicate matched) h = cc h
error_of-none (failed e) h = cc h

module _ {Q S : Type 0} (print : Json → String) (hash : String → String) (ops : CaseStore S)
    (marshalled : Fields → ℕ) where
  -- A message that is handled without an error, in a mode that processes before it acknowledges, has
  -- become a case: the channel is enabled, the message is no duplicate, the rows of the cases that
  -- are left are what the creation or the update with its adapted data and the evaluation make of
  -- those before, its event stands first as processed, and the queue took the acknowledgement.
  pub handled-Finished :
      (mode : DeliveryMode) (driver : QueueDriver Q) (now : ℕ) (env : MessageEnvelope)
      (st after : Deliveries Q (ChannelStore S))
      → Settles mode
      → handle_message mode
          (some driver)
          (some (adapted_pipeline print hash ops marshalled))
          now
          env
          st
        ≡ (none, after)
      → (id : String) × Finishes print hash ops now (request_of env) st.store id after.store
        × ((driver.ack env.message_id st.queue).0 ≡ none)
  unfolding adapted_pipeline
  handled-Finished mode driver now env st after settles h =
      let pipeline = adapted_pipeline print hash ops marshalled in
      let (fine, stored, acked) =
        settle-none driver env st after (pipeline now env st.store)
          (sym (handle_message-settle mode driver pipeline now env st settles) ∙ h) in
      let answer = process print hash ops marshalled now (request_of env) st.store in
      let (id, same) = error_of-none answer.0 fine in
      let ends : Finishes print hash ops now (request_of env) st.store id answer.1 =
        subst (λ o. Ends print hash ops now (request_of env) st.store (o, answer.1)) same
          (process-Ends print hash ops marshalled now (request_of env) st.store) in
      (
        id,
        subst (Finishes print hash ops now (request_of env) st.store id) (sym stored) ends,
        acked,
      )
