-- ===== src/Bus/Repeats.antt =====
-- core/event_bus.py: the repetitions of an event that the buses refuse, whatever is published between.
use ai_compute_intelligence.Prelude.{
  ℕ, suc, ◌+◌, ◌<◌, ◌≡◌, refl, sym, ap, subst, ◌∙◌, arith, Bool, true, false, List, [], ◌∷◌, String,
  mem, none, some, length, Bool-cases, inl, inr,
}
use ai_compute_intelligence.Bus.{
  IdempotencyStore, Schemas, DomainEvent, InMemoryEventBus, validate_domain_event, dedup_key,
  append_event, publish, remember,
}
use ai_compute_intelligence.Bus.Dedup.{IsTracked}
use ai_compute_intelligence.Bus.Recent.{
  learned, max_keys-learned, Keeps, Keeps-mem, Keeps-first, Keeps-learned,
}
use ai_compute_intelligence.Bus.Delivery.{
  IsValid, subscribed, publish_fresh, publish_seen, publish_invalid, dispatch-Dispatched,
}
use ai_compute_intelligence.Bus.Batch.{publish-accepted}
use ai_compute_intelligence.Bus.Kafka.{KafkaEventBus, kafka_publish}

module _ ⦃S : Schemas⦄ where
  publish-learned :
      (raises : String → Bool) (e : DomainEvent) (b : InMemoryEventBus)
      → (publish raises e b).0.keys ≡ learned (validate_domain_event e) (dedup_key e) b.keys
  unfolding append_event
  publish-learned raises e b = elim (Bool-cases (validate_domain_event e)) [
    | inr bad ↦ rw (publish_invalid raises e b bad, bad) refl
    | inl good ↦ elim (Bool-cases (mem (dedup_key e) b.keys.seen_keys)) [
      | inl seen ↦ rw (publish_seen raises e b good seen, good, seen) refl
      | inr new ↦
          rw (publish_fresh raises e b good new, good, new)
            (dispatch-Dispatched raises e (subscribed e b) (append_event e b)).keys
    ]
  ]

  -- publications one after the other; one that is refused or raises changes no other
  unfoldable pub publish_each :
      (String → Bool) → List DomainEvent → InMemoryEventBus → InMemoryEventBus
  publish_each raises [] b = b
  publish_each raises (e ∷ events) b = publish_each raises events (publish raises e b).0

  publish_each-knows :
      (raises : String → Bool) (k : String) (n : ℕ) (events : List DomainEvent)
      (b : InMemoryEventBus)
      → Keeps k n b.keys
      → n + length events < b.keys.max_keys
      → mem k (publish_each raises events b).keys.seen_keys ≡ true
  unfolding publish_each
  publish_each-knows raises k n [] b v l = Keeps-mem k n b.keys v
  publish_each-knows raises k n (e ∷ events) b v l =
      let fresh = validate_domain_event e in
      let after = publish-learned raises e b in
      let next = Keeps-learned k n fresh (dedup_key e) b.keys v (omega (arith, l)) in
      publish_each-knows raises k (suc n) events (publish raises e b).0
        (subst (Keeps k (suc n)) (sym after) next)
        (omega (
          arith,
          l,
          ap (λ (s : IdempotencyStore). s.max_keys) after,
          max_keys-learned fresh (dedup_key e) b.keys,
        ))

  -- An event has been accepted, and fewer publications than the keys that are kept have followed, of
  -- any events and with any outcome. Then an event with the same tenant, source and idempotency key
  -- is refused, and only counted: no handler is called and the log stays as it is. The state must be
  -- one that the code keeps, and the repetition valid.
  pub publish-again :
      (raises raises' : String → Bool) (e e' : DomainEvent) (events : List DomainEvent)
      (b : InMemoryEventBus)
      → IsValid b
      → length events < b.keys.max_keys
      → (publish raises e b).1 ≡ some true
      → dedup_key e' ≡ dedup_key e
      → validate_domain_event e' ≡ true
      → publish raises' e' (publish_each raises (e ∷ events) b) ≡ (
        record (publish_each raises (e ∷ events) b) {
          deduplicated_count = (publish_each raises (e ∷ events) b).deduplicated_count + 1;
        },
        some false,
      )
  unfolding publish_each
  publish-again raises raises' e e' events b v l h same v' =
      let (good, new) = publish-accepted raises e b h in
      let k = dedup_key e in
      let after : (publish raises e b).0.keys ≡ remember k b.keys =
        publish-learned raises e b ∙ (rw (good, new) refl) in
      let kept = Keeps-first k b.keys v.tracked new (omega (arith, l)) in
      let known =
        publish_each-knows raises k 0 events (publish raises e b).0
          (subst (Keeps k 0) (sym after) kept)
          (omega (
            arith,
            l,
            ap (λ (s : IdempotencyStore). s.max_keys) (publish-learned raises e b),
            max_keys-learned (validate_domain_event e) k b.keys,
          )) in
      publish_seen raises' e' (publish_each raises events (publish raises e b).0) v' (rw same known)

  kafka_publish-learned :
      (reached : Bool) (e : DomainEvent) (b : KafkaEventBus)
      → (kafka_publish reached e b).0.idempotency_store
        ≡ learned (validate_domain_event e) (dedup_key e) b.idempotency_store
  unfolding kafka_publish
  kafka_publish-learned reached e b = ground arith

  -- publications one after the other, each with whether its send reaches the broker
  unfoldable pub kafka_publish_each : List (Bool × DomainEvent) → KafkaEventBus → KafkaEventBus
  kafka_publish_each [] b = b
  kafka_publish_each ((reached, e) ∷ events) b =
      kafka_publish_each events (kafka_publish reached e b).0

  kafka_publish_each-knows :
      (k : String) (n : ℕ) (events : List (Bool × DomainEvent)) (b : KafkaEventBus)
      → Keeps k n b.idempotency_store
      → n + length events < b.idempotency_store.max_keys
      → mem k (kafka_publish_each events b).idempotency_store.seen_keys ≡ true
  unfolding kafka_publish_each
  kafka_publish_each-knows k n [] b v l = Keeps-mem k n b.idempotency_store v
  kafka_publish_each-knows k n ((reached, e) ∷ events) b v l =
      let fresh = validate_domain_event e in
      let after = kafka_publish-learned reached e b in
      let next = Keeps-learned k n fresh (dedup_key e) b.idempotency_store v (omega (arith, l)) in
      kafka_publish_each-knows k (suc n) events (kafka_publish reached e b).0
        (subst (Keeps k (suc n)) (sym after) next)
        (omega (
          arith,
          l,
          ap (λ (s : IdempotencyStore). s.max_keys) after,
          max_keys-learned fresh (dedup_key e) b.idempotency_store,
        ))

  kafka_publish_seen :
      (reached : Bool) (e : DomainEvent) (b : KafkaEventBus)
      → validate_domain_event e ≡ true
      → mem (dedup_key e) b.idempotency_store.seen_keys ≡ true
      → ((kafka_publish reached e b).1 ≡ some false)
        × ((kafka_publish reached e b).0.broker ≡ b.broker)
  unfolding kafka_publish
  kafka_publish_seen reached e b v h = rw (v, h, kafka_publish) (refl, refl)

  kafka_publish_lost :
      (e : DomainEvent) (b : KafkaEventBus)
      → validate_domain_event e ≡ true
      → mem (dedup_key e) b.idempotency_store.seen_keys ≡ false
      → ((kafka_publish false e b).1 ≡ none) × ((kafka_publish false e b).0.broker ≡ b.broker)
  unfolding kafka_publish
  kafka_publish_lost e b v h = rw (v, h, kafka_publish) (refl, refl)

  -- The send of a valid, new event fails: its publication raises and sends nothing. As long as fewer
  -- publications have followed than the keys that are kept in memory, of any events and with any
  -- outcome, a retry, whether the broker is back or not, is answered as a duplicate and sends nothing.
  pub kafka_publish-lost :
      (reached : Bool) (e : DomainEvent) (events : List (Bool × DomainEvent)) (b : KafkaEventBus)
      → IsTracked b.idempotency_store
      → length events < b.idempotency_store.max_keys
      → validate_domain_event e ≡ true
      → mem (dedup_key e) b.idempotency_store.seen_keys ≡ false
      → ((kafka_publish false e b).1 ≡ none)
        × ((kafka_publish false e b).0.broker ≡ b.broker)
        × ((kafka_publish reached e (kafka_publish_each ((false, e) ∷ events) b)).1 ≡ some false)
        × ((kafka_publish reached e (kafka_publish_each ((false, e) ∷ events) b)).0.broker
            ≡ (kafka_publish_each ((false, e) ∷ events) b).broker)
  unfolding kafka_publish_each
  kafka_publish-lost reached e events b t l v h =
      let k = dedup_key e in
      let lost = kafka_publish_lost e b v h in
      let after : (kafka_publish false e b).0.idempotency_store ≡ remember k b.idempotency_store =
        kafka_publish-learned false e b ∙ (rw (v, h) refl) in
      let kept = Keeps-first k b.idempotency_store t h (omega (arith, l)) in
      let known =
        kafka_publish_each-knows k 0 events (kafka_publish false e b).0
          (subst (Keeps k 0) (sym after) kept)
          (omega (
            arith,
            l,
            ap (λ (s : IdempotencyStore). s.max_keys) (kafka_publish-learned false e b),
            max_keys-learned (validate_domain_event e) k b.idempotency_store,
          )) in
      let seen =
        kafka_publish_seen reached e (kafka_publish_each events (kafka_publish false e b).0) v
          known in
      (lost.0, lost.1, seen.0, seen.1)
