-- ===== src/Gateway.antt =====
-- interceptor/gateway.py and interceptor/shadow_warming.py: the types of the decision-time
-- interceptor. The methods and the proofs are in the modules below.
pub mod Warmer
pub mod Headers
pub mod Policies
pub mod Events
pub mod Routing
pub mod Intercept
pub mod HeaderBudget
pub mod Counting
pub mod Safety
pub mod Wedge
pub mod Restraint
mod Tests
use ai_compute_intelligence.Prelude.{ℕ, ◌≤◌, Bool, true, false, List, String, Option, is_some}
use ai_compute_intelligence.Prelude.Dict.{Dict}
use ai_compute_intelligence.Floats.{Floats, Float}
use ai_compute_intelligence.Breaker.{CircuitBreakerState, BreakerConfig}
use ai_compute_intelligence.Breaker.Store.{Mutator, Codec, Exchange, CircuitBreaker, safe_mutate}
use ai_compute_intelligence.Index.{AttributionIndexEntry}
use ai_compute_intelligence.Index.Store.{Redis, Tiers}
use ai_compute_intelligence.Policy.{PolicyEvaluationResult}

-- The methods of Python's `str` that the interceptor calls.
pub record PyText : Type 0 where
  pub strip : String → String
  pub lower : String → String
  pub upper : String → String
  -- `needle in s` and `s.startswith(p)`
  pub is_in : String → String → Bool
  pub starts_with : String → String → Bool
  -- `s[:n]`, `len(s)`, `str(n)`, `",".join(parts)`
  pub prefix : ℕ → String → String
  pub len : String → ℕ
  pub decimal : ℕ → String
  pub join : String → List String → String

pub data DeploymentMode : Type 0 where
  passive advisory active : DeploymentMode

pub data InterceptionOutcome : Type 0 where
  passthrough enriched redirected soft_stopped hard_stopped : InterceptionOutcome
  fail_open circuit_open timeout : InterceptionOutcome

pub data FailOpenReason : Type 0 where
  index_unavailable policy_timeout lookup_timeout dependency_unreachable : FailOpenReason
  config_invalid runtime_exception resource_exhaustion : FailOpenReason

abbrev pub reason_value : FailOpenReason → String
reason_value index_unavailable = "INDEX_UNAVAILABLE"
reason_value policy_timeout = "POLICY_TIMEOUT"
reason_value lookup_timeout = "LOOKUP_TIMEOUT"
reason_value dependency_unreachable = "DEPENDENCY_UNREACHABLE"
reason_value config_invalid = "CONFIG_INVALID"
reason_value runtime_exception = "RUNTIME_EXCEPTION"
reason_value resource_exhaustion = "RESOURCE_EXHAUSTION"

abbrev pub mode_value : DeploymentMode → String
mode_value passive = "passive"
mode_value advisory = "advisory"
mode_value active = "active"

-- the members of `EventType` that the interceptor emits
pub data EmittedType : Type 0 where
  shadow_intercept_miss shadow_intercept_timeout policy_evaluated : EmittedType
  intervention_applied : EmittedType

-- What the interceptor hands to the bus of a `DomainEvent`, with the attributes that name what was
-- decided.
pub record Emission : Type 0 where
  pub event_type : EmittedType
  pub subject_id : String
  pub request_id : String
  pub idempotency_key : String
  pub tenant_id : String
  -- `violated_policy_ids`, and `action_type` and `new_model` of an intervention
  pub violated_policy_ids : List String
  pub action_type : String
  pub new_model : String

-- The keys of `metadata` that the interceptor reads; an absent one is "", 0 or false.
pub record Metadata : Type 0 where
  pub max_tokens : ℕ
  pub price_snapshot_id : String
  pub environment : String
  pub response_format_type : String
  pub tools_present : Bool
  pub strict_json_schema : Bool
  pub workload_id : String
  pub tenant_id : String

module _ ⦃F : Floats⦄ where
  pub record InterceptorConfig : Type 0 where
    pub timeout_ms : ℕ
    pub policy_timeout_ms : ℕ
    pub shadow_warm_probability : Float
    pub shadow_warm_max_tracked_workloads : ℕ
    pub shadow_events_enabled : Bool
    pub max_enrichment_header_bytes : ℕ
    pub max_header_value_length : ℕ
    pub active_lite_min_confidence : Float
    pub active_lite_gate_min_confidence : Float

  pub record InterceptionRequest : Type 0 where
    pub request_id : String
    pub model : String
    pub provider : String
    pub service_name : String
    pub api_key_id : String
    pub input_tokens : ℕ
    pub estimated_cost_usd : Float
    pub headers : Dict String
    pub workload_id : String
    pub metadata : Metadata

  pub record InterceptionResult : Type 0 where
    pub outcome : InterceptionOutcome
    pub request_id : String
    pub enrichment_headers : Dict String
    pub redirect_model : Option String
    pub policy_results : List PolicyEvaluationResult
    pub attribution : Option AttributionIndexEntry
    pub elapsed_ms : Float
    pub shadow_event_logged : Bool

  -- `ShadowWarmer` with its `RefreshState`
  pub record ShadowWarmer : Type 0 where
    pub in_progress : List String
    pub last_refresh : Dict Float
    pub min_refresh_interval_s : Float
    pub refresh_count : ℕ
    pub suppressed_count : ℕ

  -- What `__init__` fixes.
  pub record Setup : Type 0 where
    pub config : InterceptorConfig
    pub mode : DeploymentMode
    pub breaker_config : BreakerConfig
    pub has_event_bus : Bool
    pub has_refresh_fn : Bool

  -- Where an exception is raised inside `_intercept_inner` behind the circuit breaker, if one is:
  -- by the index, or by a comparison of the policy evaluation.
  pub data Fault : Type 0 where
    no_fault lookup_raises policy_raises : Fault

  -- the store behind the breaker at one of its calls, and what Redis does during the call
  pub record CircuitAccess : Type 0 where
    pub codec : Codec
    pub exchange : Exchange
    pub breaker : CircuitBreaker

  -- Whether that call of the breaker returns: `_safe_mutate` catches `RedisError` only, so a stored
  -- text that is not a state raises. This does not depend on the mutator (Breaker.Store.Raising).
  unfoldable pub is_readable : CircuitAccess → Bool
  is_readable a =
      let keep : Mutator (Unit {0}) = λ s. (s, tt) in
      is_some (safe_mutate a.codec keep a.exchange a.breaker).1

  -- What the surroundings do during one call of `intercept`: the clock as the breaker reads it, the
  -- milliseconds since `start` at the end, before the policies and within them, the random number,
  -- which events the bus accepts, and what the circuit state store has and does when the circuit is
  -- polled and when a failure is recorded.
  pub record Moment : Type 0 where
    pub poll_now : Float
    pub outcome_now : Float
    pub failure_later : Float
    pub metrics_now : Float
    pub elapsed_ms : Float
    pub elapsed_lookup_ms : Float
    pub policy_elapsed_ms : Float
    pub refresh_now : Float
    pub random : Float
    pub publish_accepts : EmittedType → Bool
    pub circuit_poll : CircuitAccess
    pub circuit_outcome : CircuitAccess
    pub fault : Fault

module _ ⦃F : Floats⦄ ⦃R : Redis⦄ where
  pub record Interceptor : Type 0 where
    pub index : Tiers
    pub circuit_breaker : CircuitBreakerState
    pub shadow_warmer : ShadowWarmer
    pub total_requests : ℕ
    pub total_enriched : ℕ
    pub total_fail_open : ℕ
    pub total_redirected : ℕ
    pub total_cache_misses : ℕ
    -- workloads whose background refresh has been scheduled
    pub background_tasks : List String
    pub published : List Emission
