-- ===== src/Bus/Tests.antt =====
-- Runs of the buses, and their theorems at concrete inputs.
use ai_compute_intelligence.Prelude.{
  ◌+◌, ◌≡◌, refl, arith, Bool, true, false, [], ◌∷◌, ◌++◌, String, str_eq, mem, none, some,
}
use ai_compute_intelligence.Bus.{
  team_membership, Schemas, DomainEvent, InMemoryEventBus, new_bus, publish, publish_all, dedup_key,
  validate_domain_event, handlers_for,
}
use ai_compute_intelligence.Prelude.Dict.{get_or, lookup}
use ai_compute_intelligence.Bus.Delivery.{IsValid, calls, failures, subscribed, publish-calls}
use ai_compute_intelligence.Bus.Batch.{publish_all-IsValid}
use ai_compute_intelligence.Bus.Repeats.{
  publish_each, publish-again, kafka_publish_each, kafka_publish-lost,
}
use ai_compute_intelligence.Bus.Kafka.{
  unavailable, lost, Answers, KafkaEventBus, kafka_publish, handle_message,
}
use ai_compute_intelligence.Bus.Kafka.Handling.{
  processed, handling_calls, completes, handle_message-commits,
}

-- attributes that are always accepted
instance abbrev lenient : Schemas
lenient = record { Attributes = Unit {0}; accepts = λ type attributes. true }

abbrev event : DomainEvent
event = record {
  event_id = "e1";
  event_type = team_membership;
  subject_id = "s";
  attributes = tt;
  event_time = 5;
  ingest_time = 6;
  source = "hr";
  idempotency_key = "k1";
  tenant_id = "t";
  schema_version = 1;
}

abbrev other : DomainEvent
other = record event { event_id = "e2"; idempotency_key = "k2" }

-- a repetition of `event` with its own id
abbrev repeated : DomainEvent
repeated = record event { event_id = "e3" }

abbrev raises : String → Bool
raises handler = str_eq handler "broken"

abbrev bus : InMemoryEventBus
bus = record (new_bus 2) {
  handlers = ("org.team_membership", "broken" ∷ []) ∷ ("*", "audit" ∷ []) ∷ [];
}

bus-IsValid : IsValid bus
unfolding new_bus
bus-IsValid = record {
  tracked = record { same = refl; once = tt; bounded = omega arith };
  bounded = omega arith;
}

publish-calls_example :
    ((publish raises event bus).1 ≡ some true)
    × ((publish raises event bus).0.delivered ≡ bus.delivered ++ calls event (subscribed event bus))
    × ((publish raises event bus).0.dispatch_errors
        ≡ bus.dispatch_errors + failures raises (subscribed event bus))
    × ((publish raises event bus).0.published_count ≡ bus.published_count + 1)
unfolding validate_domain_event dedup_key new_bus mem
publish-calls_example = publish-calls raises event bus refl refl

-- Both handlers are called, and the raise of the first is counted.
calls_both : calls event (subscribed event bus) ≡ ("broken", "e1") ∷ ("audit", "e1") ∷ []
unfolding handlers_for get_or lookup
calls_both = refl

publish-again_example : publish raises repeated (publish_each raises (event ∷ other ∷ []) bus) ≡ (
  record (publish_each raises (event ∷ other ∷ []) bus) {
    deduplicated_count = (publish_each raises (event ∷ other ∷ []) bus).deduplicated_count + 1;
  },
  some false,
)
unfolding validate_domain_event dedup_key new_bus publish mem
publish-again_example =
    publish-again raises raises event repeated (other ∷ []) bus bus-IsValid (omega arith) refl refl
      refl

publish_all-IsValid_example :
    IsValid
      (publish_all raises
        (event ∷ other ∷ repeated ∷ [])
        bus
        (record { published = 0; deduplicated = 0 })).0
publish_all-IsValid_example =
    publish_all-IsValid raises (event ∷ other ∷ repeated ∷ []) bus
      (record { published = 0; deduplicated = 0 }) bus-IsValid

abbrev kafka_bus : KafkaEventBus
kafka_bus = record {
  idempotency_store = record { seen_keys = []; order = []; max_keys = 10; evictions = 0 };
  kafka_handlers = bus.handlers;
  kafka_published = 0;
  kafka_deduplicated = 0;
  kafka_dispatch_errors = 0;
  dlq_count = 0;
  consumer_lag_by_partition = [];
  broker = [];
  kafka_delivered = [];
}

abbrev answers : Answers
answers = record { commits = true; highwater = unavailable; letter = lost; commits_again = false }

handle_message-commits_example :
    ((handle_message raises answers "events:0" 7 (some event) kafka_bus).0.broker
      ≡ [] ++ handling_calls answers (processed raises (some event) kafka_bus) 7)
    × ((handle_message raises answers "events:0" 7 (some event) kafka_bus).1
        ≡ completes answers (processed raises (some event) kafka_bus))
handle_message-commits_example =
    handle_message-commits raises answers "events:0" 7 (some event) kafka_bus

kafka_publish-lost_example :
    ((kafka_publish false event kafka_bus).1 ≡ none)
    × ((kafka_publish false event kafka_bus).0.broker ≡ [])
    × ((kafka_publish true event
          (kafka_publish_each ((false, event) ∷ (true, other) ∷ []) kafka_bus)).1
        ≡ some false)
    × ((kafka_publish true event
          (kafka_publish_each ((false, event) ∷ (true, other) ∷ []) kafka_bus)).0.broker
        ≡ (kafka_publish_each ((false, event) ∷ (true, other) ∷ []) kafka_bus).broker)
unfolding validate_domain_event dedup_key mem
kafka_publish-lost_example =
    kafka_publish-lost true event ((true, other) ∷ []) kafka_bus
      (record { same = refl; once = tt; bounded = omega arith }) (omega arith) refl refl
