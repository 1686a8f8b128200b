-- ===== src/Graph/Traversal/Routes.antt =====
-- graph/store.py, `_GraphTraversalMixin`: what the traversal of a graph returns.
use ai_compute_intelligence.Prelude.{
  ℕ, zero, suc, ◌≤◌, ◌<◌, ◌≡◌, refl, sym, subst, ap, ◌∙◌, arith, leb, true, false, ◌&&◌, List, [],
  ◌∷◌, ◌++◌, map, String, mem, length, keep, length-append, List-cases, Bool-cases, inl, inr,
  eq_iff, str_eq,
}
use ai_compute_intelligence.Prelude.Unique.{Once, Once-append_last}
use ai_compute_intelligence.Floats.{Floats}
use ai_compute_intelligence.Graph.{GraphEdge, empty_store, is_active, get_edges_from}
use ai_compute_intelligence.Graph.Scan.{Change, change_all, leaves, change_all-scan}
use ai_compute_intelligence.Graph.Traversal.{
  TraversalGraph, Route, each_edge, dfs, is_sink, dead_end, at_time, traverse_attribution,
}

module _ ⦃F : Floats⦄ where
  abbrev pub AllEdges : (GraphEdge → Type 0) → List GraphEdge → Type 0
  AllEdges P [] = Unit
  AllEdges P (e ∷ edges) = P e × AllEdges P edges

  -- the edges lead from a node to a node, one after another
  abbrev pub Chain : String → Route → String → Type 0
  Chain k [] end = k ≡ end
  Chain k (e ∷ path) end = (e.from_id ≡ k) × Chain e.to_id path end

  abbrev pub sources : Route → List String
  sources path = map (λ e. e.from_id) path

  abbrev pub AllRoutes : (Route → Type 0) → List Route → Type 0
  AllRoutes P [] = Unit
  AllRoutes P (r ∷ routes) = P r × AllRoutes P routes

  AllRoutes-append :
      (P : Route → Type 0) (routes : List Route) (r : Route)
      → AllRoutes P routes
      → P r
      → AllRoutes P (routes ++ r ∷ [])
  AllRoutes-append P [] r a p = (p, tt)
  AllRoutes-append P (x ∷ routes) r a p = (a.0, AllRoutes-append P routes r a.1 p)

  AllEdges-append :
      (P : GraphEdge → Type 0) (path : Route) (e : GraphEdge)
      → AllEdges P path
      → P e
      → AllEdges P (path ++ e ∷ [])
  AllEdges-append P [] e a p = (p, tt)
  AllEdges-append P (x ∷ path) e a p = (a.0, AllEdges-append P path e a.1 p)

  Chain-append :
      (k : String) (path : Route) (end : String) (e : GraphEdge)
      → Chain k path end
      → e.from_id ≡ end
      → Chain k (path ++ e ∷ []) e.to_id
  Chain-append k [] end e c h = (h ∙ sym c, refl)
  Chain-append k (x ∷ path) end e c h = (c.0, Chain-append x.to_id path end e c.1 h)

  sources-append :
      (path : Route) (e : GraphEdge) → sources (path ++ e ∷ []) ≡ sources path ++ e.from_id ∷ []
  sources-append [] e = refl
  sources-append (x ∷ path) e = ap (λ l. x.from_id ∷ l) (sources-append path e)

  -- A path from a node along edges of a kind, that leaves no node twice.
  pub record IsPath (P : GraphEdge → Type 0) (max_depth : ℕ) (start end : String) (path : Route)
      : Type 0 where
    pub chain : Chain start path end
    pub simple : Once (sources path)
    pub kind : AllEdges P path
    pub short : length path ≤ max_depth

  abbrev pub Reaches : (GraphEdge → Type 0) → ℕ → String → Route → Type 0
  Reaches P max_depth start path =
      (end : String) × IsPath P max_depth start end path × (0 < length path)

  module _ (P : GraphEdge → Type 0) (max_depth max_paths : ℕ) (start : String) where
    pub record IsFound (paths : List Route) : Type 0 where
      pub routes : AllRoutes (Reaches P max_depth start) paths
      pub few : length paths ≤ max_paths

    abbrev Keeps : List String → (String → Route → List Route → List Route) → Type 0
    Keeps visited rec =
        (k : String) (path : Route) (found : List Route)
        → IsPath P max_depth start k path
        → sources path ≡ visited
        → IsFound found
        → IsFound (rec k path found)

    IsFound-append :
        (paths : List Route) (r : Route)
        → IsFound paths
        → length paths < max_paths
        → Reaches P max_depth start r
        → IsFound (paths ++ r ∷ [])
    IsFound-append paths r f l p = record {
      routes = AllRoutes-append (Reaches P max_depth start) paths r f.routes p;
      few = omega (arith, length-append paths (r ∷ []));
    }

    IsPath-append :
        (k : String) (path : Route) (e : GraphEdge)
        → IsPath P max_depth start k path
        → mem k (sources path) ≡ false
        → length path < max_depth
        → e.from_id ≡ k
        → P e
        → IsPath P max_depth start e.to_id (path ++ e ∷ [])
    IsPath-append k path e p new l from kind = record {
      chain = Chain-append start path k e p.chain from;
      simple = subst Once (sym (sources-append path e)) (
          Once-append_last e.from_id (sources path) (ap (λ j. mem j (sources path)) from ∙ new)
            p.simple);
      kind = AllEdges-append P path e p.kind kind;
      short = omega (arith, length-append path (e ∷ []));
    }

    module _ (t : TraversalGraph) where
      each_edge-IsFound :
          (rec : String → Route → List Route → List Route) (k : String) (path : Route)
          (edges : List GraphEdge) (paths : List Route)
          → Keeps (sources path ++ k ∷ []) rec
          → IsPath P max_depth start k path
          → mem k (sources path) ≡ false
          → length path < max_depth
          → AllEdges (λ e. (e.from_id ≡ k) × P e) edges
          → IsFound paths
          → IsFound (each_edge max_depth max_paths t rec path edges paths)
      unfolding each_edge
      each_edge-IsFound rec k path [] paths keeps p new l a f = f
      each_edge-IsFound rec k path (e ∷ edges) paths keeps p new l a f =
          let longer = path ++ e ∷ [] in
          let q = IsPath-append k path e p new l a.0.0 a.0.1 in
          let visited = sources-append path e ∙ ap (λ j. sources path ++ j ∷ []) a.0.0 in
          elim (Bool-cases (leb max_paths (length paths))) [
            | inl full ↦ rw (full, each_edge) f
            | inr room ↦ elim (Bool-cases (is_sink (t.node e.to_id))) [
              | inl sink ↦
                  rw (room, sink, each_edge)
                    (each_edge-IsFound rec k path edges _ keeps p new l a.1 (
                      IsFound-append paths longer f (ground arith)
                        (e.to_id, q, omega (arith, length-append path (e ∷ [])))))
              | inr inner ↦
                  rw (room, inner, each_edge)
                    (each_edge-IsFound rec k path edges _ keeps p new l a.1
                      (keeps e.to_id longer paths q visited f))
            ]
          ]

      dead_end-IsFound :
          (k : String) (path : Route) (paths : List Route)
          → IsPath P max_depth start k path
          → IsFound paths
          → length paths < max_paths
          → IsFound (dead_end max_depth max_paths t path paths)
      dead_end-IsFound k [] paths p f l = f
      dead_end-IsFound k (e ∷ path) paths p f l =
          IsFound-append paths (e ∷ path) f l (k, p, omega arith)

      dfs-IsFound :
          ((k : String) → AllEdges (λ e. (e.from_id ≡ k) × P e) (t.edges_from k))
          → (fuel : ℕ) → (visited : List String)
          → Keeps visited (dfs max_depth max_paths t fuel visited)
      unfolding dfs
      dfs-IsFound law zero visited k path paths p same f = f
      dfs-IsFound law (suc fuel) visited k path paths p same f =
          elim (Bool-cases (leb max_paths (length paths))) [
            | inl full ↦ rw (full, dfs) f
            | inr room ↦ elim (Bool-cases (leb max_depth (length path))) [
              | inl deep ↦ rw (room, deep, dfs) f
              | inr shallow ↦ elim (Bool-cases (mem k visited)) [
                | inl again ↦ rw (room, shallow, again, dfs) f
                | inr new ↦ elim (List-cases (t.edges_from k)) [
                  | inl none_left ↦
                      rw (room, shallow, new, none_left, dfs)
                        (dead_end-IsFound k path paths p f (ground arith))
                  | inr (e, edges, some_left) ↦
                      rw (room, shallow, new, some_left, dfs)
                        (each_edge-IsFound (dfs max_depth max_paths t fuel (visited ++ k ∷ [])) k
                          path (t.edges_from k) paths
                          (λ j r found q here g.
                            dfs-IsFound law fuel (visited ++ k ∷ []) j r found q
                              (here ∙ ap (λ v. v ++ k ∷ []) same) g)
                          p (ap (mem k) same ∙ new) (ground arith) (law k) f)
                ]
              ]
            ]
          ]

      traverse_attribution-IsFound :
          ((k : String) → AllEdges (λ e. (e.from_id ≡ k) × P e) (t.edges_from k))
          → IsFound (traverse_attribution max_depth max_paths t start)
      unfolding traverse_attribution
      traverse_attribution-IsFound law =
          dfs-IsFound law (suc max_depth) [] start [] []
            (record { chain = refl; simple = tt; kind = tt; short = omega arith }) refl
            (record { routes = tt; few = omega arith })

  -- what the edges that a scan keeps have in common
  AllEdges-keep :
      (k : String) (at : ℕ) (edges : List GraphEdge)
      → AllEdges
          (λ e. (e.from_id ≡ k) × (is_active at e ≡ true))
          (keep (λ e. leaves k e && is_active at e) edges)
  AllEdges-keep k at [] = tt
  AllEdges-keep k at (e ∷ edges) =
      let rest = AllEdges-keep k at edges in
      elim (Bool-cases (str_eq e.from_id k)) [
        | inl leaving ↦ elim (Bool-cases (is_active at e)) [
          | inl active ↦ rw (leaving, active) (((eq_iff e.from_id k).0 leaving, active), rest)
          | inr ended ↦ rw (leaving, ended) rest
        ]
        | inr other ↦ rw other rest
      ]

  -- Whatever calls a new store has seen, the traversal at a time returns at most `max_paths` paths,
  -- and each of them leads from the start node along edges that are valid at that time, one after
  -- another, leaves no node twice, and has between one and `max_depth` edges.
  pub traverse_attribution-paths :
      (changes : List Change) (max_depth max_paths at : ℕ) (start : String)
      → IsFound
          (λ e. is_active at e ≡ true)
          max_depth
          max_paths
          start
          (traverse_attribution max_depth max_paths
            (at_time at (change_all changes empty_store))
            start)
  unfolding at_time
  traverse_attribution-paths changes max_depth max_paths at start =
      let g = change_all changes empty_store in
      let law : (k : String)
          → AllEdges (λ e. (e.from_id ≡ k) × (is_active at e ≡ true)) (get_edges_from k at g) =
        λ k.
          subst (AllEdges (λ e. (e.from_id ≡ k) × (is_active at e ≡ true)))
            (sym (change_all-scan changes k at).0) (AllEdges-keep k at g.edges) in
      traverse_attribution-IsFound (λ e. is_active at e ≡ true) max_depth max_paths start
        (at_time at g) law
