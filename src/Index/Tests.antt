-- ===== src/Index/Tests.antt =====
-- Runs of the attribution index, and its theorems at concrete inputs.
use ai_compute_intelligence.Prelude.{
  ℕ, ◌+◌, ◌≡◌, refl, arith, List, [], ◌∷◌, String, str_eq, Option, none, some, true, false,
  if◌then◌else◌,
}
use ai_compute_intelligence.Prelude.Dict
use ai_compute_intelligence.Prelude.Dict.{remove, insert}
use ai_compute_intelligence.Floats.{micro, lit}
use ai_compute_intelligence.Index.{
  AttributionIndexEntry, AttributionIndexStore, AttributionResult, new_store, insert_local, popitem,
  shrink,
}
use ai_compute_intelligence.Index.Store.{renew, redis_key, Redis, materialize, materialize_local}
use ai_compute_intelligence.Index.Materializer.{ConfidenceConfig, full_rebuild}
use ai_compute_intelligence.Index.Trace.{
  Good, Call, look, mat, drop_entry, clear_all, server, run, run-Good, new_store-Good,
}
use ai_compute_intelligence.Index.Durable.{materialize-discarded}
use ai_compute_intelligence.Index.Rebuild.{team_of, latest, full_rebuild-latest}

abbrev api : AttributionIndexEntry
api = record {
  workload_id = "api";
  team_id = "red";
  team_name = "red";
  cost_center_id = "";
  cost_center_name = "";
  person_id = "";
  person_name = "";
  repository = "";
  service_name = "";
  confidence = lit 9 10;
  confidence_tier = "chargeback_ready";
  method_used = "R1";
  budget_remaining_usd = none;
  budget_limit_usd = none;
  model_allowlist = [];
  cost_ceiling_per_request_usd = none;
  token_budget_output = none;
  token_budget_input = none;
  equivalence_class_id = none;
  approved_alternatives = [];
  carbon_methodology_layer = 2;
  grid_region = "";
  version = 1;
  materialized_at = 0;
  source_event_ids = [];
  time_bucket = "";
}

abbrev job : AttributionIndexEntry
job = record api { workload_id = "job"; team_id = "blue"; team_name = "blue" }

-- A server that holds one hash, "aci:index:api", or is down. It knows the payload of one entry.
abbrev one_hash : Redis
one_hash = record {
  Server = Option (String × ℕ);
  reachable = λ r. elim r [ none ↦ false | some _ ↦ true ];
  hget_payload = λ r key. elim r [ none ↦ none | some (p, v) ↦ some p ];
  hget_version = λ r key. elim r [ none ↦ 0 | some (p, v) ↦ v ];
  get = λ r key. none;
  hset = λ r key payload version. some (payload, version);
  pexpire = λ r key. r;
  ttl_ms = 1800000;
  delete = λ r key. none;
  delete_prefix = λ r prefix. none;
  dumps = λ e. e.team_id;
  loads = λ raw. if str_eq raw "red" then some (record api { version = 7 }) else none;
  redis_prefix = "aci:index";
}

instance abbrev chosen : Redis
chosen = one_hash

abbrev remembered : Option (String × ℕ)
remembered = some ("red", 7)

abbrev limit_one : AttributionIndexStore
limit_one = new_store 1

-- With room for one entry the second insertion evicts the first.
evicts : (insert_local job (insert_local api limit_one)).index ≡ ("job", job) ∷ []
unfolding insert_local shrink popitem new_store remove insert
evicts = refl

abbrev calls : List Call
calls =
    mat 1 api
    ∷ look "api"
    ∷ mat 2 job
    ∷ server (some remembered)
    ∷ look "api"
    ∷ drop_entry "api"
    ∷ clear_all
    ∷ []

run-Good_example : Good 1 (run calls (record { store = limit_one; redis = none })).store
run-Good_example =
    run-Good calls (record { store = limit_one; redis = none }) (omega arith) (new_store-Good 1)

materialize-discarded_example :
    ((materialize_local 5 api limit_one).1.version ≡ 1)
    × ((materialize 5 api (record { store = limit_one; redis = some remembered })).redis
        ≡ some (renew (redis_key "api") remembered))
    × (chosen.hget_payload (renew (redis_key "api") remembered) (redis_key "api")
        ≡ chosen.hget_payload remembered (redis_key "api"))
    × ((materialize 5 api
          (record { store = limit_one; redis = some remembered })).store.durable_writes
        ≡ (materialize_local 5 api limit_one).0.durable_writes + 1)
unfolding new_store Dict.lookup
materialize-discarded_example =
    materialize-discarded (λ q k. refl) 5 api limit_one remembered (new_store-Good 1).coherent refl
      refl (omega arith)

abbrev thresholds : ConfidenceConfig
thresholds = record { chargeback_threshold = lit 8 10; provisional_threshold = lit 5 10 }

abbrev result : String → AttributionResult
result team = record {
  workload_id = "api";
  attribution_path = [];
  combined_confidence = lit 7 10;
  fractional_attributions = [];
  conflicts = [];
  explanation = some (record {
    attribution_id = "a";
    target_entity = team;
    confidence_score = lit 7 10;
    method_used = "R3";
    top_contributing_signals = [];
    feature_values = [];
    alternatives_considered = [];
  });
}

abbrev two_results : List (ℕ × AttributionResult)
two_results = (1, result "red") ∷ (2, result "blue") ∷ []

full_rebuild-latest_example :
    (team_of (
        Dict.lookup "api"
          (full_rebuild thresholds
            (λ now. "")
            two_results
            (record { store = new_store 5; redis = none })).0.store.index)
      ≡ latest "api" two_results)
    × ((full_rebuild thresholds
          (λ now. "")
          two_results
          (record { store = new_store 5; redis = none })).1
        ≡ some 2)
unfolding new_store
full_rebuild-latest_example =
    full_rebuild-latest thresholds (λ now. "") two_results
      (record { store = new_store 5; redis = none }) "api" (refl, (refl, tt)) (omega arith)
