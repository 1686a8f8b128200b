-- ===== src/Graph/Tests.antt =====
-- Runs of the graph store, and its theorems at concrete inputs.
use ai_compute_intelligence.Prelude.{
  ℕ, ◌≡◌, refl, true, ◌&&◌, List, [], ◌∷◌, none, some, keep, length, arith, String, mem,
}
use ai_compute_intelligence.Prelude.Dict.{lookup, insert, get_or}
use ai_compute_intelligence.Floats.{micro}
use ai_compute_intelligence.Graph.{
  GraphNode, GraphEdge, EdgeType, NodeType, owns_code, attributed_to, cost_center, empty_store,
  get_nodes_by_type, get_edges_from, get_edges_to, is_active, same_key, InMemoryGraphStore,
  active_among, close_edge, active_get, add_edge, active_set, upsert_node, get_node,
}
use ai_compute_intelligence.Graph.Scan.{
  Change, upserts, adds, closes, change, change_all, leaves, enters, change_all-scan,
}
use ai_compute_intelligence.Prelude.Every.{Every}
use ai_compute_intelligence.Graph.Types.{IsStored, get_nodes_by_type-typed}
use ai_compute_intelligence.Graph.Open.{change_all-open_once}
use ai_compute_intelligence.Graph.Traversal.{at_time, dfs, traverse_attribution}
use ai_compute_intelligence.Graph.Traversal.Fuel.{traverse_attribution-terminates}
use ai_compute_intelligence.Graph.Traversal.Routes.{IsFound, traverse_attribution-paths}

abbrev node : String → NodeType → GraphNode
node k t = record {
  node_id = k;
  node_type = t;
  label = k;
  properties = [];
  tenant_id = "default";
  created_at = 0;
  updated_at = 0;
}

abbrev edge : String → String → EdgeType → ℕ → GraphEdge
edge a b t from = record {
  edge_type = t;
  from_id = a;
  to_id = b;
  confidence = 1000000;
  weight = 1000000;
  valid_from = from;
  valid_to = none;
  provenance = record { source = "hr"; method = "R1"; signals = []; created_at = from };
  explanation_ref = none;
}

abbrev changes : List Change
changes =
    upserts 1 (node "cc:1" cost_center)
    ∷ adds 2 (edge "svc" "team:a" owns_code 2)
    ∷ adds 3 (edge "team:a" "cc:1" attributed_to 3)
    ∷ adds 5 (edge "svc" "team:a" owns_code 5)
    ∷ closes ("team:a", "cc:1", attributed_to) 9
    ∷ []

abbrev graph : InMemoryGraphStore
graph = change_all changes empty_store

change_all-scan_example :
    (get_edges_from "svc" 4 graph ≡ keep (λ e. leaves "svc" e && is_active 4 e) graph.edges)
    × (get_edges_to "svc" 4 graph ≡ keep (λ e. enters "svc" e && is_active 4 e) graph.edges)
change_all-scan_example = change_all-scan changes "svc" 4

abbrev last : GraphEdge
last = edge "svc" "team:a" owns_code 5

change_all-open_once_example : ◌≡◌ {A = ℕ} 2 2
unfolding change_all change add_edge close_edge upsert_node active_get active_set same_key insert
    lookup
change_all-open_once_example =
    change_all-open_once changes 2 2 last last (record { there = refl; still = refl })
      (record { there = refl; still = refl }) refl

traverse_attribution-terminates_example :
    dfs 3 2 (at_time 6 graph) 9 [] "svc" [] [] ≡ traverse_attribution 3 2 (at_time 6 graph) "svc"
traverse_attribution-terminates_example =
    traverse_attribution-terminates 3 2 (at_time 6 graph) 9 "svc" (omega arith)

traverse_attribution-paths_example :
    IsFound (λ e. is_active 6 e ≡ true) 3 2 "svc" (traverse_attribution 3 2 (at_time 6 graph) "svc")
traverse_attribution-paths_example = traverse_attribution-paths changes 3 2 6 "svc"

-- The service is linked to its cost center by the second version of the first edge.
finds : length (traverse_attribution 3 2 (at_time 6 graph) "svc") ≡ 1
unfolding change_all change traverse_attribution at_time get_edges_from mem active_among get_or
    lookup close_edge active_get add_edge active_set upsert_node same_key insert get_node
finds = refl

get_nodes_by_type-typed_example :
    (found : List GraphNode) × (get_nodes_by_type cost_center graph ≡ some found)
    × Every (IsStored graph.nodes "cost_center") found
get_nodes_by_type-typed_example = get_nodes_by_type-typed changes cost_center
