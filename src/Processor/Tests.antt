-- ===== src/Processor/Tests.antt =====
-- Runs of the processor, and its theorems at concrete inputs.
use ai_compute_intelligence.Prelude.{
  ℕ, ◌≡◌, refl, arith, true, false, String, List, [], ◌∷◌, none, some, mem,
}
use ai_compute_intelligence.Prelude.Dict.{lookup, insert, get_or}
use ai_compute_intelligence.Floats.{micro, lit}
use ai_compute_intelligence.Samples.{python, combination, limits, round4, fitting, calibration}
use ai_compute_intelligence.Index.{new_store}
use ai_compute_intelligence.Index.Store.{Redis}
use ai_compute_intelligence.Index.Materializer.{ConfidenceConfig}
use ai_compute_intelligence.Index.Rebuild.{team_of as indexed_team}
use ai_compute_intelligence.Calibration.{
  new_engine, calibrate, interpolate, warm_start_of, run_max, last_first, reversed, between,
}
use ai_compute_intelligence.Hre.{ReconciliationContext}
use ai_compute_intelligence.Hre.Engine.{Readings, resolve, get_cached}
use ai_compute_intelligence.Graph.{
  GraphNode, team, owns_code, member_of, empty_store, same_key, upsert_node, add_edge, discard, add,
  active_get, active_set, supersede, index_append, get_node, get_edges_from, active_among,
  get_nodes_by_type, nodes_of,
}
use ai_compute_intelligence.Graph.Scan.{Change, upserts, adds, change, change_all}
use ai_compute_intelligence.Graph.Open.{OpenAt}
use ai_compute_intelligence.Processor.{
  DomainEvent, Texts, edge_of, handle_org_change, build_context, map_candidates, map_owners,
  naming_patterns_of, patterns_of, candidate_graph_node_ids,
}
use ai_compute_intelligence.Processor.Membership.{
  left_key, member_edge, IsClosed, handle_org_change-moves,
}
use ai_compute_intelligence.Processor.Context.{OwnedIn}
use ai_compute_intelligence.Processor.Owners.{resolve-owned}
use ai_compute_intelligence.Processor.Inference.{
  Parsing, AttributionProcessor, Moment, handle_inference,
}
use ai_compute_intelligence.Processor.Indexing.{handle_inference-indexes}

abbrev texts : Texts
texts = record { last_segment = λ s. s; first_method = λ s. s }

abbrev parsing : Parsing
parsing = record { float_of = λ s. 0; flag_of = λ s. true }

instance abbrev no_server : Redis
no_server = record {
  Server = Unit;
  reachable = λ r. false;
  hget_payload = λ r key. none;
  hget_version = λ r key. 0;
  get = λ r key. none;
  hset = λ r key payload version. r;
  pexpire = λ r key. r;
  ttl_ms = 0;
  delete = λ r key. r;
  delete_prefix = λ r prefix. r;
  dumps = λ e. e.team_id;
  loads = λ raw. none;
  redis_prefix = "aci:index";
}

abbrev team_node : GraphNode
team_node = record {
  node_id = "team:red";
  node_type = team;
  label = "Red";
  properties = [];
  tenant_id = "default";
  created_at = 1;
  updated_at = 1;
}

abbrev changes : List Change
changes =
    upserts 1 team_node
    ∷ adds 2 (edge_of 2 owns_code "svc" "team:red" 2 "scm")
    ∷ adds 3 (edge_of 3 member_of "person:ann" "team:red" 3 "hr")
    ∷ []

abbrev moves : DomainEvent
moves = record {
  event_id = "e1";
  subject_id = "ann";
  tenant_id = "default";
  event_time = 7;
  attributes = ("person_id", "ann") ∷ ("previous_team", "red") ∷ ("new_team", "blue") ∷ [];
}

handle_org_change-moves_example :
    IsClosed (left_key moves) (handle_org_change texts 8 moves (change_all changes empty_store))
    × ((i : ℕ) × OpenAt
          (handle_org_change texts 8 moves (change_all changes empty_store)).edges
          i
          (member_edge 8 moves))
unfolding get_or lookup
handle_org_change-moves_example = handle_org_change-moves texts changes 8 moves refl refl refl refl

abbrev clock : Readings
clock = record { started = 1; looked_up = 1; checked = λ n. 1; stored = 1 }

resolve-owned_example :
    (ctx : ReconciliationContext) × (build_context texts 8 "svc" 5 "default"
        (change_all changes empty_store)
      ≡ some ctx)
    × OwnedIn
        (change_all changes empty_store)
        "svc"
        (resolve python round4 combination limits clock "svc" "inference_endpoint" 5 ctx []).0
unfolding get_cached lookup
resolve-owned_example =
    resolve-owned texts python round4 combination limits (λ Q xs all. all) changes 8 5 "svc"
      "default" clock [] refl

abbrev inference : DomainEvent
inference = record {
  event_id = "e2";
  subject_id = "call";
  tenant_id = "default";
  event_time = 5;
  attributes = ("service_name", "svc") ∷ [];
}

abbrev thresholds : ConfidenceConfig
thresholds = record { chargeback_threshold = lit 8 10; provisional_threshold = lit 5 10 }

abbrev bucket : ℕ → String
bucket now = "2026-01-01T00:00"

abbrev processor :
    AttributionProcessor python texts fitting parsing round4 combination limits calibration
      thresholds bucket
processor = record {
  graph = change_all changes empty_store;
  cache = [];
  calibrator = new_engine fitting;
  index = record { store = new_store 10; redis = none };
  processed_count = 0;
}

abbrev moment :
    Moment python texts fitting parsing round4 combination limits calibration thresholds bucket
moment = record { now = 6; readings = clock }

abbrev context : ReconciliationContext
context = record {
  tenant_id = "default";
  identity_mappings = ("svc", "team:red") ∷ [];
  temporal_events = [];
  naming_patterns = [];
  historical_attributions = [];
  deployment_owners = [];
  code_owners = [];
  recent_users = [];
  proportional_users = [];
}

handle_inference-indexes_example :
    (indexed_team (
        lookup "svc"
          (handle_inference python texts fitting parsing round4 combination limits calibration
            thresholds bucket moment [] inference processor).0.index.store.index)
      ≡ some "team:red")
    × ((handle_inference python texts fitting parsing round4 combination limits calibration
          thresholds bucket moment [] inference processor).1
        ≡ true)
unfolding build_context map_candidates map_owners naming_patterns_of patterns_of
    candidate_graph_node_ids change_all change upsert_node add_edge same_key active_get active_set
    supersede index_append get_node get_edges_from active_among get_nodes_by_type nodes_of lookup
    insert get_or mem add discard calibrate interpolate warm_start_of run_max last_first reversed
    between new_store edge_of
handle_inference-indexes_example =
    handle_inference-indexes python texts fitting parsing round4 combination limits calibration
      thresholds bucket refl refl refl moment [] inference processor context "team:red" refl refl
      refl refl (omega arith)
