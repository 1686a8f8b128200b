-- ===== src/Bus/Kafka/Handling.antt =====
-- core/event_bus.py, `_handle_message`: which calls of the broker a message leads to.
use ai_compute_intelligence.Prelude.{
  ℕ, ◌+◌, ◌≡◌, refl, sym, ap, ◌∙◌, ◌&&◌, ◌||◌, Bool-cases, inl, inr, any_of, append-nil,
  append_assoc, Bool, true, false, not, if◌then◌else◌, List, [], ◌∷◌, ◌++◌, String, Option, none,
  some,
}
use ai_compute_intelligence.Bus.{
  Schemas, DomainEvent, handlers_for, validate_domain_event, type_value,
}
use ai_compute_intelligence.Bus.Delivery.{calls}
use ai_compute_intelligence.Bus.Kafka.{
  Highwater, position, unknown, unavailable, Letter, taken, lost, no_producer, Answers, Sent,
  dead_letter, committed, KafkaEventBus, dispatch_event, commit_offset, publish_dlq, handle_failure,
  lagged, settle, handle_message,
}

module _ ⦃S : Schemas⦄ where
  -- Every handler is called, whichever raise; the raises are counted, and the broker is left alone.
  pub record EventDispatched (raises : String → Bool) (e : DomainEvent) (handlers : List String)
      (b : KafkaEventBus) (r : KafkaEventBus × Bool) : Type 0 where
    pub fine : r.1 ≡ not (any_of raises handlers)
    pub same_broker : r.0.broker ≡ b.broker
    pub called : r.0.kafka_delivered ≡ b.kafka_delivered ++ calls e handlers

  dispatch_event-EventDispatched :
      (raises : String → Bool) (e : DomainEvent) (handlers : List String) (b : KafkaEventBus)
      → EventDispatched raises e handlers b (dispatch_event raises e handlers b)
  unfolding dispatch_event
  dispatch_event-EventDispatched raises e [] b = record {
    fine = refl;
    same_broker = refl;
    called = sym (append-nil b.kafka_delivered);
  }
  dispatch_event-EventDispatched raises e (handler ∷ handlers) b =
      let called = record b { kafka_delivered = b.kafka_delivered ++ (handler, e.event_id) ∷ [] } in
      let failed = record called { kafka_dispatch_errors = b.kafka_dispatch_errors + 1 } in
      let more = append_assoc b.kafka_delivered ((handler, e.event_id) ∷ []) (calls e handlers) in
      elim (Bool-cases (raises handler)) [
        | inl bad ↦
            let d = dispatch_event-EventDispatched raises e handlers failed in
            rw (bad, dispatch_event)
              (record { fine = rw bad refl; same_broker = d.same_broker; called = d.called ∙ more })
        | inr good ↦
            let d = dispatch_event-EventDispatched raises e handlers called in
            rw (good, dispatch_event)
              (record {
                fine = rw good d.fine;
                same_broker = d.same_broker;
                called = d.called ∙ more;
              })
      ]

  -- a message that parses, is valid, and that no handler fails on
  abbrev pub processed : (String → Bool) → Option DomainEvent → KafkaEventBus → Bool
  processed raises none b = false
  processed raises (some e) b =
      validate_domain_event e
      && not (any_of raises (handlers_for (type_value e.event_type) b.kafka_handlers))

  abbrev pub commit_calls : Bool → ℕ → List Sent
  commit_calls through offset = if through then committed (offset + 1) ∷ [] else []

  abbrev pub letter_calls : Letter → ℕ → List Sent
  letter_calls taken offset = dead_letter offset ∷ []
  letter_calls lost offset = []
  letter_calls no_producer offset = []

  -- what a failure adds to the calls of the broker
  abbrev pub failure_calls : Answers → ℕ → List Sent
  failure_calls a offset = letter_calls a.letter offset ++ commit_calls a.commits_again offset

  abbrev pub is_available : Highwater → Bool
  is_available unavailable = false
  is_available _ = true

  -- What a message that has been processed, or has not, adds to the calls of the broker, and whether
  -- its handling completes.
  abbrev pub handling_calls : Answers → Bool → ℕ → List Sent
  handling_calls a done offset =
      if done && a.commits
      then committed (offset + 1)
        ∷ (if is_available a.highwater then [] else failure_calls a offset)
      else failure_calls a offset

  abbrev pub completes : Answers → Bool → Bool
  completes a done = (done && (a.commits && is_available a.highwater)) || a.commits_again

  abbrev Handled : Answers → Bool → ℕ → KafkaEventBus → KafkaEventBus × Bool → Type 0
  Handled a done offset b r =
      (r.0.broker ≡ b.broker ++ handling_calls a done offset) × (r.1 ≡ completes a done)

  publish_dlq-broker :
      (letter : Letter) (offset : ℕ) (b : KafkaEventBus)
      → (publish_dlq letter offset b).broker ≡ b.broker ++ letter_calls letter offset
  unfolding publish_dlq
  publish_dlq-broker taken offset b = refl
  publish_dlq-broker lost offset b = sym (append-nil b.broker)
  publish_dlq-broker no_producer offset b = sym (append-nil b.broker)

  handle_failure-Handled :
      (a : Answers) (offset : ℕ) (b : KafkaEventBus)
      → Handled a false offset b (handle_failure a offset b)
  unfolding handle_failure
  handle_failure-Handled a offset b =
      let counted = record b { kafka_dispatch_errors = b.kafka_dispatch_errors + 1 } in
      let sent_letter = publish_dlq-broker a.letter offset counted in
      let letters = letter_calls a.letter offset in
      elim (Bool-cases a.commits_again) [
        | inl through ↦
            rw (through, handle_failure)
              (
                ap (λ calls. calls ++ committed (offset + 1) ∷ []) sent_letter
                    ∙ append_assoc b.broker letters (committed (offset + 1) ∷ []),
                refl,
              )
        | inr failed ↦
            rw (failed, handle_failure)
              (sent_letter ∙ ap (λ calls. b.broker ++ calls) (sym (append-nil letters)), refl)
      ]

  lagged_calls :
      (highwater : Highwater) (a : Answers) (partition : String) (offset : ℕ) (b : KafkaEventBus)
      → ((lagged highwater a partition offset b).0.broker
          ≡ b.broker ++ (if is_available highwater then [] else failure_calls a offset))
        × ((lagged highwater a partition offset b).1 ≡ (is_available highwater || a.commits_again))
  unfolding lagged
  lagged_calls (position n) a partition offset b = (sym (append-nil b.broker), refl)
  lagged_calls unknown a partition offset b = (sym (append-nil b.broker), refl)
  lagged_calls unavailable a partition offset b = handle_failure-Handled a offset b

  settle-Handled :
      (a : Answers) (partition : String) (offset : ℕ) (b : KafkaEventBus)
      → Handled a true offset b (settle a partition offset b)
  unfolding settle
  settle-Handled a partition offset b = elim (Bool-cases a.commits) [
    | inr failed ↦ simp (failed, settle) (handle_failure-Handled a offset b)
    | inl through ↦
        let first = commit_offset offset b in
        let (calls, completed) = lagged_calls a.highwater a partition offset first in
        simp (through, settle)
          (
            calls
                ∙ append_assoc b.broker (committed (offset + 1) ∷ [])
                    (if is_available a.highwater then [] else failure_calls a offset),
            completed,
          )
  ]

  -- The offset of a message that is processed is committed first. If that commit or the reading of
  -- the lag after it raises, or the message is not processed, a dead letter follows if it gets
  -- through, and then a commit, if that gets through; these are all the calls of the broker. The
  -- handling raises exactly if it comes to this second commit and that fails.
  pub handle_message-commits :
      (raises : String → Bool) (a : Answers) (partition : String) (offset : ℕ)
      (payload : Option DomainEvent) (b : KafkaEventBus)
      → ((handle_message raises a partition offset payload b).0.broker
          ≡ b.broker ++ handling_calls a (processed raises payload b) offset)
        × ((handle_message raises a partition offset payload b).1
            ≡ completes a (processed raises payload b))
  unfolding handle_message
  handle_message-commits raises a partition offset none b = handle_failure-Handled a offset b
  handle_message-commits raises a partition offset (some e) b =
      let handlers = handlers_for (type_value e.event_type) b.kafka_handlers in
      let d = dispatch_event-EventDispatched raises e handlers b in
      let t = (dispatch_event raises e handlers b).0 in
      elim (Bool-cases (validate_domain_event e)) [
        | inr bad ↦ rw (bad, handle_message) (handle_failure-Handled a offset b)
        | inl good ↦ elim (Bool-cases (any_of raises handlers)) [
          | inl raised ↦
              let h = handle_failure-Handled a offset t in
              rw (good, d.fine ∙ ap not raised, raised, handle_message)
                (h.0 ∙ ap (λ calls. calls ++ failure_calls a offset) d.same_broker, h.1)
          | inr quiet ↦
              let h = settle-Handled a partition offset t in
              rw (good, d.fine ∙ ap not quiet, quiet, handle_message)
                (h.0 ∙ ap (λ calls. calls ++ handling_calls a true offset) d.same_broker, h.1)
        ]
      ]
