-- ===== src/Graph/Traversal.antt =====
-- graph/store.py, `_GraphTraversalMixin`: the depth-first enumeration of attribution paths, over the
-- reads of a store at one time (`_TraversalGraph`). A node is marked as visited for the calls below
-- it and no longer after them, so the set is passed down.
pub mod Fuel
pub mod Routes
use ai_compute_intelligence.Prelude.{
  ℕ, zero, suc, ◌+◌, leb, Bool, true, false, if◌then◌else◌, List, [], ◌∷◌, ◌++◌, String, mem,
  Option, none, some, length,
}
use ai_compute_intelligence.Floats.{Floats}
use ai_compute_intelligence.Graph.{
  GraphNode, GraphEdge, NodeType, cost_center, budget, InMemoryGraphStore, get_edges_from, get_node,
}

module _ ⦃F : Floats⦄ where
  -- the reads of a graph at one time
  pub record TraversalGraph : Type 0 where
    pub edges_from : String → List GraphEdge
    pub node : String → Option GraphNode

  unfoldable pub at_time : ℕ → InMemoryGraphStore → TraversalGraph
  at_time at g = record {
    edges_from = λ node_id. get_edges_from node_id at g;
    node = λ node_id. get_node node_id g;
  }

  abbrev pub Route : Type 0
  Route = List GraphEdge

  abbrev pub is_sink_type : NodeType → Bool
  is_sink_type cost_center = true
  is_sink_type budget = true
  is_sink_type _ = false

  abbrev pub is_sink : Option GraphNode → Bool
  is_sink none = false
  is_sink (some n) = is_sink_type n.node_type

  module _ (max_depth max_paths : ℕ) (t : TraversalGraph) where
    -- the loop over the edges of a node; `rec` is `_dfs` of the target
    unfoldable pub each_edge :
        (String → Route → List Route → List Route)
        → Route
        → List GraphEdge
        → List Route
        → List Route
    each_edge rec path [] paths = paths
    each_edge rec path (e ∷ edges) paths =
        let longer = path ++ e ∷ [] in
        let found =
          if is_sink (t.node e.to_id) then paths ++ longer ∷ [] else rec e.to_id longer paths in
        let rest = each_edge rec path edges found in
        if leb max_paths (length paths) then paths else rest

    -- the end of a path: a node that no edge leaves
    abbrev pub dead_end : Route → List Route → List Route
    dead_end [] paths = paths
    dead_end (e ∷ path) paths = paths ++ (e ∷ path) ∷ []

    -- `_dfs`; one round of fuel for each edge of a path is enough (`Fuel`)
    unfoldable pub dfs : ℕ → List String → String → Route → List Route → List Route
    dfs zero visited node_id path paths = paths
    dfs (suc fuel) visited node_id path paths =
        let edges = t.edges_from node_id in
        let below = each_edge (dfs fuel (visited ++ node_id ∷ [])) path edges paths in
        if leb max_paths (length paths)
        then paths
        else if leb max_depth (length path)
        then paths
        else if mem node_id visited
        then paths
        else elim edges [ [] ↦ dead_end path paths | _ ∷ _ ↦ below ]

    unfoldable pub traverse_attribution : String → List Route
    unfolding dfs each_edge
    traverse_attribution start_node_id = dfs (suc max_depth) [] start_node_id [] []
