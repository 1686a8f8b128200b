-- ===== src/Bus/Kafka.antt =====
-- core/event_bus.py: `KafkaEventBus`: the producer's side and the handling of a message. Kafka is a
-- parameter of each call: whether a send reaches the broker, and what it answers while a message is
-- handled. JSON texts of events are not looked into.
pub mod Handling
use ai_compute_intelligence.Prelude.{
  ℕ, ◌+◌, ◌-◌, Bool, true, false, not, if◌then◌else◌, List, [], ◌∷◌, ◌++◌, String, Option, none,
  some,
}
use ai_compute_intelligence.Prelude.Dict.{Dict, insert}
use ai_compute_intelligence.Bus.{
  Schemas, DomainEvent, IdempotencyStore, handlers_for, seen_or_add, validate_domain_event,
  dedup_key, type_value,
}

-- what `highwater` answers: a position, `None`, or an exception
pub data Highwater : Type 0 where
  position : ℕ → Highwater
  unknown unavailable : Highwater

-- what becomes of a dead letter: the broker takes it, the send raises, or the bus has no producer
pub data Letter : Type 0 where
  taken lost no_producer : Letter

-- What Kafka does while a message is handled: whether the commit after the dispatch goes through, and
-- that of the handler of exceptions.
pub record Answers : Type 0 where
  pub commits : Bool
  pub highwater : Highwater
  pub letter : Letter
  pub commits_again : Bool

module _ ⦃S : Schemas⦄ where
  -- the calls of the broker that go through, in order
  pub data Sent : Type 0 where
    sent : DomainEvent → Sent
    dead_letter : ℕ → Sent
    committed : ℕ → Sent

  pub record KafkaEventBus : Type 0 where
    pub idempotency_store : IdempotencyStore
    pub kafka_handlers : Dict (List String)
    pub kafka_published : ℕ
    pub kafka_deduplicated : ℕ
    pub kafka_dispatch_errors : ℕ
    pub dlq_count : ℕ
    pub consumer_lag_by_partition : Dict ℕ
    pub broker : List Sent
    -- the calls of handlers: the handler and the event's id
    pub kafka_delivered : List (String × String)

  -- `none` is an exception: of the validation, or of the broker.
  unfoldable pub kafka_publish : Bool → DomainEvent → KafkaEventBus → KafkaEventBus × Option Bool
  unfolding seen_or_add
  kafka_publish reached e b =
      let (store, already_seen) = seen_or_add (dedup_key e) b.idempotency_store in
      if not (validate_domain_event e)
      then (b, none)
      else if already_seen
      then (
        record b { idempotency_store = store; kafka_deduplicated = b.kafka_deduplicated + 1 },
        some false,
      )
      else if reached
      then (
        record b {
          idempotency_store = store;
          broker = b.broker ++ sent e ∷ [];
          kafka_published = b.kafka_published + 1;
        },
        some true,
      )
      else (record b { idempotency_store = store }, none)

  -- `_dispatch_event`: every handler is called, and the exceptions are counted; true if none raised
  unfoldable pub dispatch_event :
      (String → Bool) → DomainEvent → List String → KafkaEventBus → KafkaEventBus × Bool
  dispatch_event raises e [] b = (b, true)
  dispatch_event raises e (handler ∷ handlers) b =
      let called = record b { kafka_delivered = b.kafka_delivered ++ (handler, e.event_id) ∷ [] } in
      let failed = record called { kafka_dispatch_errors = b.kafka_dispatch_errors + 1 } in
      let (t, _) = dispatch_event raises e handlers failed in
      let rest = dispatch_event raises e handlers called in
      if raises handler then (t, false) else rest

  unfoldable pub commit_offset : ℕ → KafkaEventBus → KafkaEventBus
  commit_offset offset b = record b { broker = b.broker ++ committed (offset + 1) ∷ [] }

  -- `_publish_dlq` in its `try`
  unfoldable pub publish_dlq : Letter → ℕ → KafkaEventBus → KafkaEventBus
  publish_dlq taken offset b = record b {
    broker = b.broker ++ dead_letter offset ∷ [];
    dlq_count = b.dlq_count + 1;
  }
  publish_dlq lost offset b = b
  publish_dlq no_producer offset b = b

  -- The `except` of `_handle_message`; false is an exception that leaves it.
  unfoldable pub handle_failure : Answers → ℕ → KafkaEventBus → KafkaEventBus × Bool
  unfolding commit_offset publish_dlq
  handle_failure a offset b =
      let counted = record b { kafka_dispatch_errors = b.kafka_dispatch_errors + 1 } in
      let lettered = publish_dlq a.letter offset counted in
      if a.commits_again then (commit_offset offset lettered, true) else (lettered, false)

  -- `none` is an exception
  unfoldable pub update_partition_lag :
      Highwater → String → ℕ → KafkaEventBus → Option KafkaEventBus
  update_partition_lag unavailable partition offset b = none
  update_partition_lag unknown partition offset b = some b
  update_partition_lag (position highwater) partition offset b = some (record b {
    consumer_lag_by_partition =
        insert partition (highwater - (offset + 1)) b.consumer_lag_by_partition;
  })

  -- the last line of the `try`
  unfoldable pub lagged : Highwater → Answers → String → ℕ → KafkaEventBus → KafkaEventBus × Bool
  unfolding update_partition_lag
  lagged highwater a partition offset b = elim (update_partition_lag highwater partition offset b) [
    | none ↦ handle_failure a offset b
    | some t ↦ (t, true)
  ]

  -- the rest of the `try` once the handlers have returned
  unfoldable pub settle : Answers → String → ℕ → KafkaEventBus → KafkaEventBus × Bool
  unfolding commit_offset
  settle a partition offset b =
      if a.commits
      then lagged a.highwater a partition offset (commit_offset offset b)
      else handle_failure a offset b

  -- `_handle_message` of a payload, `none` if it does not parse
  unfoldable pub handle_message :
      (String → Bool)
      → Answers
      → String
      → ℕ
      → Option DomainEvent
      → KafkaEventBus
      → KafkaEventBus × Bool
  unfolding settle
  handle_message raises a partition offset none b = handle_failure a offset b
  handle_message raises a partition offset (some e) b =
      let handlers = handlers_for (type_value e.event_type) b.kafka_handlers in
      let (t, fine) = dispatch_event raises e handlers b in
      if not (validate_domain_event e)
      then handle_failure a offset b
      else if fine
      then settle a partition offset t
      else handle_failure a offset t
