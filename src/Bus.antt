-- ===== src/Bus.antt =====
-- core/event_bus.py, core/event_schema.py and models/events.py: the event types, the validation of
-- an event, the idempotency store and the in-memory bus. Times are numbers, the attributes and the
-- pydantic schemas that accept them a parameter, and a handler is a name; whether it raises is
-- given with each publication.
pub mod Dedup
pub mod Kafka
pub mod Recent
pub mod Repeats
pub mod Delivery
pub mod Batch
mod Tests
use ai_compute_intelligence.Prelude.{
  ℕ, zero, suc, ◌+◌, ◌-◌, ◌*◌, ltb, leb, ◌==◌, Bool, true, false, not, ◌&&◌, ◌||◌, if◌then◌else◌,
  List, [], ◌∷◌, ◌++◌, String, str_eq, mem, concat, Option, none, some, length, drop, keep,
  is_nonempty_list,
}
use ai_compute_intelligence.Prelude.Dict
use ai_compute_intelligence.Prelude.Dict.{Dict}

pub data EventType : Type 0 where
  inference_request inference_response billing_line_item : EventType
  resource_created resource_deleted : EventType
  deployment code_commit codeowner_change pr_merged : EventType
  identity_login identity_group_change org_change team_membership : EventType
  attribution_correction chargeback_decision finops_review : EventType
  attribution_computed index_materialized calibration_updated : EventType
  shadow_intercept_miss shadow_intercept_timeout policy_evaluated intervention_applied : EventType

abbrev pub type_value : EventType → String
type_value inference_request = "inference.request"
type_value inference_response = "inference.response"
type_value billing_line_item = "billing.line_item"
type_value resource_created = "resource.created"
type_value resource_deleted = "resource.deleted"
type_value deployment = "cicd.deployment"
type_value code_commit = "scm.commit"
type_value codeowner_change = "scm.codeowner_change"
type_value pr_merged = "scm.pr_merged"
type_value identity_login = "identity.login"
type_value identity_group_change = "identity.group_change"
type_value org_change = "org.hierarchy_change"
type_value team_membership = "org.team_membership"
type_value attribution_correction = "correction.attribution"
type_value chargeback_decision = "correction.chargeback"
type_value finops_review = "correction.finops_review"
type_value attribution_computed = "system.attribution_computed"
type_value index_materialized = "system.index_materialized"
type_value calibration_updated = "system.calibration_updated"
type_value shadow_intercept_miss = "interceptor.shadow.miss"
type_value shadow_intercept_timeout = "interceptor.shadow.timeout"
type_value policy_evaluated = "interceptor.policy.evaluated"
type_value intervention_applied = "interceptor.intervention.applied"

-- The payload schemas of core/event_schema.py, as pydantic checks them.
pub record Schemas : Type 1 where
  pub Attributes : Type 0
  pub accepts : EventType → Attributes → Bool

-- `set.discard`
unfoldable pub discard : String → List String → List String
discard k [] = []
discard k (x ∷ xs) = let rest = discard k xs in if str_eq x k then rest else x ∷ rest

-- `InMemoryIdempotencyStore`: the keys seen, as a set, and in the order of arrival.
pub record IdempotencyStore : Type 0 where
  pub seen_keys : List String
  pub order : List String
  pub max_keys : ℕ
  pub evictions : ℕ

-- `popleft` on the order of keys that has grown too long
unfoldable pub pop_left : List String → IdempotencyStore → IdempotencyStore
pop_left [] s = s
pop_left (oldest ∷ rest) s = record s {
  order = rest;
  seen_keys = discard oldest s.seen_keys;
  evictions = s.evictions + 1;
}

-- the bookkeeping of a new key; `publish` of the in-memory bus does the same with its own fields
unfoldable pub remember : String → IdempotencyStore → IdempotencyStore
unfolding pop_left
remember key s =
    let t = record s { seen_keys = s.seen_keys ++ key ∷ []; order = s.order ++ key ∷ [] } in
    if ltb t.max_keys (length t.order) then pop_left t.order t else t

unfoldable pub seen_or_add : String → IdempotencyStore → IdempotencyStore × Bool
seen_or_add key s = if mem key s.seen_keys then (s, true) else (remember key s, false)

module _ ⦃S : Schemas⦄ where
  pub record DomainEvent : Type 0 where
    pub event_id : String
    pub event_type : EventType
    pub subject_id : String
    pub attributes : S.Attributes
    pub event_time : ℕ
    pub ingest_time : ℕ
    pub source : String
    pub idempotency_key : String
    pub tenant_id : String
    pub schema_version : ℕ

  -- false is the `EventSchemaValidationError`
  unfoldable pub validate_domain_event : DomainEvent → Bool
  validate_domain_event e = e.schema_version == 1 && S.accepts e.event_type e.attributes

  unfoldable pub dedup_key : DomainEvent → String
  dedup_key e = concat (e.tenant_id ∷ ":" ∷ e.source ∷ ":" ∷ e.idempotency_key ∷ [])

  pub record InMemoryEventBus : Type 0 where
    pub log : List DomainEvent
    pub max_events : ℕ
    pub handlers : Dict (List String)
    pub keys : IdempotencyStore
    pub published_count : ℕ
    pub deduplicated_count : ℕ
    pub topic_counts : Dict ℕ
    pub dispatch_errors : ℕ
    -- the calls of handlers: the handler and the event's id
    pub delivered : List (String × String)

  unfoldable pub new_bus : ℕ → InMemoryEventBus
  new_bus max_events = record {
    log = [];
    max_events = max_events;
    handlers = [];
    keys = record { seen_keys = []; order = []; max_keys = max_events * 2; evictions = 0 };
    published_count = 0;
    deduplicated_count = 0;
    topic_counts = [];
    dispatch_errors = 0;
    delivered = [];
  }

  unfoldable pub subscribe : String → String → InMemoryEventBus → InMemoryEventBus
  subscribe topic handler b = record b {
    handlers = Dict.insert topic (Dict.get_or topic [] b.handlers ++ handler ∷ []) b.handlers;
  }

  -- the handlers of a topic, and those of "*"
  unfoldable pub handlers_for : String → Dict (List String) → List String
  handlers_for topic handlers = Dict.get_or topic [] handlers ++ Dict.get_or "*" [] handlers

  -- `asyncio.gather` over `_dispatch_handler`, in the order in which the handlers are started
  unfoldable pub dispatch :
      (String → Bool) → DomainEvent → List String → InMemoryEventBus → InMemoryEventBus
  dispatch raises e [] b = b
  dispatch raises e (handler ∷ handlers) b =
      let called = b.delivered ++ (handler, e.event_id) ∷ [] in
      let errors = if raises handler then b.dispatch_errors + 1 else b.dispatch_errors in
      dispatch raises e handlers (record b { delivered = called; dispatch_errors = errors })

  -- the critical section of `publish` behind the test for a seen key
  unfoldable pub append_event : DomainEvent → InMemoryEventBus → InMemoryEventBus
  append_event e b =
      let log = b.log ++ e ∷ [] in
      let topic = type_value e.event_type in
      record b {
        keys = remember (dedup_key e) b.keys;
        log = drop (length log - b.max_events) log;
        published_count = b.published_count + 1;
        topic_counts = Dict.insert topic (Dict.get_or topic 0 b.topic_counts + 1) b.topic_counts;
      }

  -- `none` is an `EventSchemaValidationError`
  unfoldable pub publish :
      (String → Bool) → DomainEvent → InMemoryEventBus → InMemoryEventBus × Option Bool
  publish raises e b =
      let accepted = append_event e b in
      if not (validate_domain_event e)
      then (b, none)
      else if mem (dedup_key e) b.keys.seen_keys
      then (record b { deduplicated_count = b.deduplicated_count + 1 }, some false)
      else (
        dispatch raises e (handlers_for (type_value e.event_type) accepted.handlers) accepted,
        some true,
      )

  pub record BatchCounts : Type 0 where
    pub published : ℕ
    pub deduplicated : ℕ

  unfoldable pub publish_all :
      (String → Bool)
      → List DomainEvent
      → InMemoryEventBus
      → BatchCounts
      → InMemoryEventBus × Option BatchCounts
  publish_all raises [] b counts = (b, some counts)
  publish_all raises (e ∷ events) b counts =
      let (b', accepted) = publish raises e b in
      let more =
        publish_all raises events b' (record counts { published = counts.published + 1 }) in
      let again =
        publish_all raises events b' (record counts { deduplicated = counts.deduplicated + 1 }) in
      elim accepted [ none ↦ (b', none) | some fresh ↦ elim fresh [ true ↦ more | false ↦ again ] ]

  unfoldable pub publish_batch :
      (String → Bool) → List DomainEvent → InMemoryEventBus → InMemoryEventBus × Option BatchCounts
  publish_batch raises events b =
      publish_all raises events b (record { published = 0; deduplicated = 0 })

  abbrev after_start : Option ℕ → ℕ → Bool
  after_start none time = true
  after_start (some from) time = leb from time

  abbrev before_end : Option ℕ → ℕ → Bool
  before_end none time = true
  before_end (some to) time = leb time to

  abbrev of_types : List String → String → Bool
  of_types types type = not (is_nonempty_list types) || mem type types

  unfoldable pub replay : Option ℕ → Option ℕ → List String → InMemoryEventBus → List DomainEvent
  replay from_time to_time event_types b =
      keep
        (λ e.
          after_start from_time e.event_time
          && (before_end to_time e.event_time && of_types event_types (type_value e.event_type)))
        b.log
