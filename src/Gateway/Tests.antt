-- ===== src/Gateway/Tests.antt =====
-- Runs of the interceptor, and its theorems at concrete inputs.
use ai_compute_intelligence.Prelude.{
  ℕ, zero, suc, ◌≡◌, refl, arith, true, false, List, [], ◌∷◌, String, str_eq, mem, none, some,
}
use ai_compute_intelligence.Prelude.Dict.{Dict, lookup, remove}
use ai_compute_intelligence.Floats.{micro, lit}
use ai_compute_intelligence.Breaker.{half_open, initial, is_open}
use ai_compute_intelligence.Index.{AttributionIndexEntry, new_store}
use ai_compute_intelligence.Index.Store.{Redis, Tiers, lookup_local}
use ai_compute_intelligence.Index.Store
use ai_compute_intelligence.Gateway.{
  PyText, active, redirected, InterceptorConfig, InterceptionRequest, InterceptionResult,
  ShadowWarmer, Setup, Moment, CircuitAccess, is_readable, no_fault, Interceptor,
}
use ai_compute_intelligence.Breaker.Store.{Codec, executes, local_store, redis_store, safe_mutate}
use ai_compute_intelligence.Gateway.Headers.{
  enforce_header_budget, resolve_workload_id, should_downgrade_active_to_advisory,
}
use ai_compute_intelligence.Gateway.HeaderBudget.{
  Clips, ShortValues, WithinBudget, enforce_header_budget-bounds,
}
use ai_compute_intelligence.Gateway.Warmer.{Warming, IsValid, begins, ends, run, run-IsValid, Step}
use ai_compute_intelligence.Gateway.Routing.{route, active_routing}
use ai_compute_intelligence.Gateway.Intercept.{
  intercept, sanitized, intercept_inner, enter, lookup_stage, hit, policy_stage,
}
use ai_compute_intelligence.Gateway.Events.{emit_policy_evaluation_event, emit_intervention_event}
use ai_compute_intelligence.Gateway.Policies.{
  evaluate_policies, outside_allowlist, check_budget_ceiling, check_token_budget,
  check_token_budget_input, check_cost_ceiling,
}
use ai_compute_intelligence.Gateway.Safety.{intercept-answers}
use ai_compute_intelligence.Gateway.Wedge.{
  outcome_of, AllRefused, Exhausted, serve, serve-Exhausted,
}
use ai_compute_intelligence.Gateway.Restraint.{Restraint, intercept-Restraint}

abbrev text_length : String → ℕ
text_length String.[] = 0
text_length (String.◌∷◌ c s) = suc (text_length s)

abbrev text_take : ℕ → String → String
text_take zero s = ""
text_take (suc n) String.[] = ""
text_take (suc n) (String.◌∷◌ c s) = String.◌∷◌ c (text_take n s)

-- ASCII text with no blanks and no capitals
instance abbrev plain : PyText
plain = record {
  strip = λ s. s;
  lower = λ s. s;
  upper = λ s. s;
  is_in = λ needle s. str_eq needle s;
  starts_with = λ s p. str_eq (text_take (text_length p) s) p;
  prefix = text_take;
  len = text_length;
  decimal = λ n. "n";
  join = λ separator parts. "parts";
}

plain_clips : Clips
plain_clips zero s = omega arith
plain_clips (suc n) String.[] = omega arith
plain_clips (suc n) (String.◌∷◌ c s) = omega (arith, plain_clips n s)

-- no durable tier
instance abbrev no_redis : Redis
no_redis = record {
  Server = Unit {0};
  reachable = λ r. false;
  hget_payload = λ r key. none;
  hget_version = λ r key. 0;
  get = λ r key. none;
  hset = λ r key payload version. r;
  pexpire = λ r key. r;
  ttl_ms = 0;
  delete = λ r key. r;
  delete_prefix = λ r prefix. r;
  dumps = λ e. "";
  loads = λ raw. none;
  redis_prefix = "aci:index";
}

abbrev config : InterceptorConfig
config = record {
  timeout_ms = 20;
  policy_timeout_ms = 15;
  shadow_warm_probability = lit 1 100;
  shadow_warm_max_tracked_workloads = 2;
  shadow_events_enabled = true;
  max_enrichment_header_bytes = 64;
  max_header_value_length = 16;
  active_lite_min_confidence = lit 9 10;
  active_lite_gate_min_confidence = lit 95 100;
}

abbrev setup : Setup
setup = record {
  config = config;
  mode = active;
  breaker_config = record {
    failure_threshold = 5;
    reset_timeout_s = lit 30 1;
    half_open_max_probes = 3;
  };
  has_event_bus = true;
  has_refresh_fn = true;
}

-- no state is ever written as a text
abbrev no_codec : Codec
no_codec = record { dumps = λ s. ""; loads = λ raw. none }

abbrev stored_here : CircuitAccess
stored_here = record {
  codec = no_codec;
  exchange = executes;
  breaker = record { state_store = local_store initial; fallback_state = initial };
}

abbrev garbage : CircuitAccess
garbage = record {
  codec = no_codec;
  exchange = executes;
  breaker = record { state_store = redis_store (some "?"); fallback_state = initial };
}

abbrev moment : Moment
moment = record {
  poll_now = lit 100 1;
  outcome_now = lit 100 1;
  failure_later = lit 100 1;
  metrics_now = lit 100 1;
  elapsed_ms = lit 3 1;
  elapsed_lookup_ms = lit 1 1;
  policy_elapsed_ms = lit 1 1;
  refresh_now = lit 100 1;
  random = lit 5 1000;
  publish_accepts = λ type. true;
  circuit_poll = stored_here;
  circuit_outcome = stored_here;
  fault = no_fault;
}

abbrev entry : AttributionIndexEntry
entry = record {
  workload_id = "api";
  team_id = "red";
  team_name = "red";
  cost_center_id = "";
  cost_center_name = "";
  person_id = "";
  person_name = "";
  repository = "";
  service_name = "";
  confidence = lit 95 100;
  confidence_tier = "chargeback_ready";
  method_used = "R1";
  budget_remaining_usd = none;
  budget_limit_usd = none;
  model_allowlist = [];
  cost_ceiling_per_request_usd = none;
  token_budget_output = none;
  token_budget_input = none;
  equivalence_class_id = none;
  approved_alternatives = "small" ∷ [];
  carbon_methodology_layer = 2;
  grid_region = "";
  version = 1;
  materialized_at = 0;
  source_event_ids = [];
  time_bucket = "";
}

abbrev request : InterceptionRequest
request = record {
  request_id = "r1";
  model = "large";
  provider = "p";
  service_name = "";
  api_key_id = "";
  input_tokens = 10;
  estimated_cost_usd = lit 1 100;
  headers = [];
  workload_id = "api";
  metadata = record {
    max_tokens = 0;
    price_snapshot_id = "";
    environment = "dev";
    response_format_type = "";
    tools_present = false;
    strict_json_schema = false;
    workload_id = "";
    tenant_id = "t";
  };
}

abbrev anonymous : InterceptionRequest
anonymous = record request { workload_id = "" }

abbrev warmer : ShadowWarmer
warmer = record {
  in_progress = [];
  last_refresh = [];
  min_refresh_interval_s = lit 5 1;
  refresh_count = 0;
  suppressed_count = 0;
}

abbrev started : Interceptor
started = record {
  index = record { store = record (new_store 10) { index = ("api", entry) ∷ [] }; redis = none };
  circuit_breaker = initial;
  shadow_warmer = warmer;
  total_requests = 0;
  total_enriched = 0;
  total_fail_open = 0;
  total_redirected = 0;
  total_cache_misses = 0;
  background_tasks = [];
  published = [];
}

abbrev probing : Interceptor
probing = record started {
  circuit_breaker = record initial { state = half_open; half_open_probe_count = 2 };
}

abbrev wedged : Interceptor
wedged = record started {
  circuit_breaker = record initial { state = half_open; half_open_probe_count = 3 };
}

abbrev broken : Moment
broken = record moment { circuit_poll = garbage; circuit_outcome = garbage }

abbrev later : Moment
later = record moment { poll_now = lit 99999 1; metrics_now = lit 99999 1 }

serve-Exhausted_example :
    AllRefused (serve setup ((moment, request) ∷ (later, anonymous) ∷ []) wedged).1
    × Exhausted setup.breaker_config
        (serve setup ((moment, request) ∷ (later, anonymous) ∷ []) wedged).0.circuit_breaker
unfolding is_readable safe_mutate
serve-Exhausted_example =
    serve-Exhausted setup ((moment, request) ∷ (later, anonymous) ∷ []) wedged (refl, (refl, tt))
      (record { probing = refl; used = omega arith })

abbrev long_headers : Dict String
long_headers =
    ("X-ACI-Est-Cost-USD", "0.000001")
    ∷ ("X-ACI-Advisory-Detail", "a detail that is too long to keep whole")
    ∷ []

enforce_header_budget-bounds_example :
    WithinBudget config long_headers (enforce_header_budget config long_headers)
    × ShortValues 16 (enforce_header_budget config long_headers)
enforce_header_budget-bounds_example =
    enforce_header_budget-bounds config long_headers plain_clips (omega arith)

abbrev refreshes : List Step
refreshes = begins "a" ∷ begins "a" ∷ begins "b" ∷ ends "a" (some (lit 1 1)) ∷ ends "b" none ∷ []

abbrev idle : Warming
idle = record { warmer = warmer; running = [] }

run-IsValid_example : IsValid config (run config refreshes idle)
run-IsValid_example =
    run-IsValid config refreshes idle (record { marked = refl; single = tt; tracked = omega arith })

-- In a development environment the approved alternative takes the model's place.
reroutes : outcome_of (intercept setup moment request started).1 ≡ some redirected
unfolding intercept intercept_inner enter lookup_stage hit policy_stage route evaluate_policies
    is_open resolve_workload_id Store.lookup lookup_local new_store lookup remove mem
    should_downgrade_active_to_advisory emit_policy_evaluation_event emit_intervention_event
    active_routing outside_allowlist check_budget_ceiling check_token_budget
    check_token_budget_input check_cost_ceiling is_readable safe_mutate
reroutes = refl

intercept-Restraint_example :
    (r : InterceptionResult) × ((intercept setup moment request started).1 ≡ some r)
    × Restraint setup moment (sanitized request) r
unfolding is_readable safe_mutate
intercept-Restraint_example =
    let (r, answered, _, _, _) = intercept-answers setup moment request started refl in
    (r, answered, intercept-Restraint setup moment request started r answered)
