-- ===== src/Graph/Traversal/Fuel.antt =====
-- graph/store.py, `_dfs`: the recursion ends by itself, before any fuel that exceeds the depth.
use ai_compute_intelligence.Prelude.{
  ℕ, zero, suc, ◌+◌, ◌<◌, ◌≡◌, refl, arith, leb, if◌then◌else◌, List, [], ◌∷◌, ◌++◌, String, length,
  length-append, Bool-cases, inl, inr,
}
use ai_compute_intelligence.Floats.{Floats}
use ai_compute_intelligence.Graph.{GraphEdge}
use ai_compute_intelligence.Graph.Traversal.{
  TraversalGraph, Route, each_edge, dfs, is_sink, traverse_attribution,
}

module _ ⦃F : Floats⦄ (max_depth max_paths : ℕ) (t : TraversalGraph) where
  -- The loop makes its calls on paths that are one edge longer.
  each_edge-agree :
      (rec rec' : String → Route → List Route → List Route) (path : Route) (edges : List GraphEdge)
      (paths : List Route)
      → ((k : String) (e : GraphEdge) (found : List Route)
          → rec k (path ++ e ∷ []) found ≡ rec' k (path ++ e ∷ []) found)
      → each_edge max_depth max_paths t rec path edges paths
        ≡ each_edge max_depth max_paths t rec' path edges paths
  unfolding each_edge
  each_edge-agree rec rec' path [] paths h = refl
  each_edge-agree rec rec' path (e ∷ edges) paths h =
      let longer = path ++ e ∷ [] in
      let found =
        if is_sink (t.node e.to_id) then paths ++ longer ∷ [] else rec e.to_id longer paths in
      ground (arith, h e.to_id e paths, each_edge-agree rec rec' path edges found h)

  -- Any two amounts of fuel that exceed the depth that is left give the same paths.
  pub dfs-enough :
      (fuel fuel' : ℕ) (visited : List String) (k : String) (path : Route) (paths : List Route)
      → max_depth < fuel + length path
      → max_depth < fuel' + length path
      → dfs max_depth max_paths t fuel visited k path paths
        ≡ dfs max_depth max_paths t fuel' visited k path paths
  unfolding dfs
  dfs-enough zero zero visited k path paths h h' = refl
  dfs-enough zero (suc fuel') visited k path paths h h' = ground arith
  dfs-enough (suc fuel) zero visited k path paths h h' = ground arith
  dfs-enough (suc fuel) (suc fuel') visited k path paths h h' =
      elim (Bool-cases (leb max_depth (length path))) [
        | inl deep ↦ ground (arith, deep)
        | inr shallow ↦
            let below =
              each_edge-agree (dfs max_depth max_paths t fuel (visited ++ k ∷ []))
                (dfs max_depth max_paths t fuel' (visited ++ k ∷ [])) path (t.edges_from k) paths
                (λ j e found.
                  dfs-enough fuel fuel' (visited ++ k ∷ []) j (path ++ e ∷ []) found
                    (omega (arith, length-append path (e ∷ [])))
                    (omega (arith, length-append path (e ∷ [])))) in
            ground (arith, below)
      ]

  -- `_dfs` needs no bound but its own: with any amount of fuel above `max_depth` the traversal finds
  -- the same paths.
  pub traverse_attribution-terminates :
      (fuel : ℕ) (start : String)
      → max_depth < fuel
      → dfs max_depth max_paths t fuel [] start [] []
        ≡ traverse_attribution max_depth max_paths t start
  unfolding traverse_attribution
  traverse_attribution-terminates fuel start h =
      dfs-enough fuel (suc max_depth) [] start [] [] (omega arith) (omega arith)
