-- ===== src/Processor/Context.antt =====
-- core/processor.py, `_build_context`: what the reconciliation engine is given, and so the owners that
-- an inference can be attributed to.
use ai_compute_intelligence.Prelude.{
  ℕ, ◌≡◌, ◌⊎◌, refl, sym, ap, subst, arith, true, List, [], ◌∷◌, String, str_eq, mem,
  is_nonempty_list, some, Bool-cases, Option-cases, inl, inr,
}
use ai_compute_intelligence.Prelude.Dict.{Dict, lookup, insert}
use ai_compute_intelligence.Prelude.Every.{Every, Every-insert_key, Every-insert_value, mem-Every}
use ai_compute_intelligence.Floats.{Floats, Float}
use ai_compute_intelligence.Combination.{CombinationConfig}
use ai_compute_intelligence.Index.{ExplanationArtifact, AttributionResult}
use ai_compute_intelligence.Graph.{
  NodeType, node_type_value, team, person, model, cloud_resource, deployment, repository,
  cost_center, service_account, api_key, inference_endpoint, equivalence_class, budget, GraphNode,
  GraphEdge, InMemoryGraphStore, empty_store, get_node, get_edges_from,
}
use ai_compute_intelligence.Graph.Scan.{Change, change_all}
use ai_compute_intelligence.Graph.Types.{IsStored, get_nodes_by_type-typed}
use ai_compute_intelligence.Hre.{Python, HreExecutionConfig, ReconciliationContext}
use ai_compute_intelligence.Hre.Engine.{Readings, reconcile, unresolved}
use ai_compute_intelligence.Hre.Provenance.{
  IsKnown, mapped, correlated, named, historical, deploys, owns, uses, shares, reconcile-Attributes,
}
use ai_compute_intelligence.Processor.{
  Texts, is_owner, map_owners, map_candidates, patterns_of, naming_patterns_of,
  candidate_graph_node_ids, build_context,
}

-- a team or a person
abbrev pub OwnerType : NodeType → Type 0
OwnerType t = (t ≡ team) ⊎ (t ≡ person)

is_owner-OwnerType : (t : NodeType) → is_owner t ≡ true → OwnerType t
is_owner-OwnerType team h = inl refl
is_owner-OwnerType person h = inr refl
is_owner-OwnerType model h = ground (arith, h)
is_owner-OwnerType cloud_resource h = ground (arith, h)
is_owner-OwnerType deployment h = ground (arith, h)
is_owner-OwnerType repository h = ground (arith, h)
is_owner-OwnerType cost_center h = ground (arith, h)
is_owner-OwnerType service_account h = ground (arith, h)
is_owner-OwnerType api_key h = ground (arith, h)
is_owner-OwnerType inference_endpoint h = ground (arith, h)
is_owner-OwnerType equivalence_class h = ground (arith, h)
is_owner-OwnerType budget h = ground (arith, h)

team_value-OwnerType : (t : NodeType) → node_type_value t ≡ "team" → OwnerType t
team_value-OwnerType team h = inl refl
team_value-OwnerType person h = inr refl
team_value-OwnerType model h = ground (arith, ap (λ s. str_eq s "team") h)
team_value-OwnerType cloud_resource h = ground (arith, ap (λ s. str_eq s "team") h)
team_value-OwnerType deployment h = ground (arith, ap (λ s. str_eq s "team") h)
team_value-OwnerType repository h = ground (arith, ap (λ s. str_eq s "team") h)
team_value-OwnerType cost_center h = ground (arith, ap (λ s. str_eq s "team") h)
team_value-OwnerType service_account h = ground (arith, ap (λ s. str_eq s "team") h)
team_value-OwnerType api_key h = ground (arith, ap (λ s. str_eq s "team") h)
team_value-OwnerType inference_endpoint h = ground (arith, ap (λ s. str_eq s "team") h)
team_value-OwnerType equivalence_class h = ground (arith, ap (λ s. str_eq s "team") h)
team_value-OwnerType budget h = ground (arith, ap (λ s. str_eq s "team") h)

module _ ⦃F : Floats⦄ where
  -- the id of a team or of a person that the graph stores
  abbrev pub IsOwner : InMemoryGraphStore → String → Type 0
  IsOwner g t =
      (k : String) × (n : GraphNode) × (lookup k g.nodes ≡ some n)
      × (n.node_id ≡ t)
      × OwnerType n.node_type

  module _ (T : Texts) (g : InMemoryGraphStore) where
    map_owners-Every :
        (w : String) (edges : List GraphEdge) (m : Dict String)
        → Every (λ e. IsOwner g e.1) m
        → Every (λ e. IsOwner g e.1) (map_owners T w g edges m)
    unfolding map_owners get_node
    map_owners-Every w [] m a = a
    map_owners-Every w (e ∷ edges) m a = elim (Option-cases (lookup e.to_id g.nodes)) [
      | inl missing ↦ rw (missing, map_owners) (map_owners-Every w edges m a)
      | inr (n, found) ↦ elim (Bool-cases (is_owner n.node_type)) [
        | inl owner ↦
            rw (found, owner, map_owners)
              (map_owners-Every w edges (insert w n.node_id m) (
                Every-insert_value (IsOwner g) w n.node_id m
                  (e.to_id, n, found, refl, is_owner-OwnerType n.node_type owner) a))
        | inr other ↦ rw (found, other, map_owners) (map_owners-Every w edges m a)
      ]
    ]

    map_candidates-Every :
        (w : String) (at : ℕ) (ids : List String) (m : Dict String)
        → Every (λ e. IsOwner g e.1) m
        → Every (λ e. IsOwner g e.1) (map_candidates T w at g ids m)
    unfolding map_candidates
    map_candidates-Every w at [] m a = a
    map_candidates-Every w at (k ∷ ids) m a =
        map_candidates-Every w at ids (map_owners T w g (get_edges_from k at g) m)
          (map_owners-Every w (get_edges_from k at g) m a)

    naming_patterns_of-Every :
        (now : ℕ) (teams : List GraphNode) (naming : Dict (List String))
        → Every (IsStored g.nodes "team") teams
        → Every (λ e. IsOwner g e.0) naming
        → Every (λ e. IsOwner g e.0) (naming_patterns_of T now g teams naming)
    unfolding naming_patterns_of
    naming_patterns_of-Every now [] naming a b = b
    naming_patterns_of-Every now (t ∷ teams) naming ((type, (k, at)), rest) b =
        let patterns = patterns_of T g (get_edges_from t.node_id now g) in
        elim (Bool-cases (is_nonempty_list patterns)) [
          | inl some_patterns ↦
              rw (some_patterns, naming_patterns_of)
                (naming_patterns_of-Every now teams (insert t.node_id patterns naming) rest (
                  Every-insert_key (IsOwner g) t.node_id patterns naming
                    (k, t, at, refl, team_value-OwnerType t.node_type type) b))
          | inr no_patterns ↦
              rw (no_patterns, naming_patterns_of)
                (naming_patterns_of-Every now teams naming rest b)
        ]

  -- the names of a context that has mappings and naming patterns only
  abbrev OnlyNames : ReconciliationContext → Type 0
  OnlyNames ctx =
      (ctx.temporal_events ≡ [])
      × (ctx.historical_attributions ≡ [])
      × (ctx.deployment_owners ≡ [])
      × (ctx.code_owners ≡ [])
      × (ctx.recent_users ≡ [])
      × (ctx.proportional_users ≡ [])

  known-owner :
      (Q : String → Type 0) (ctx : ReconciliationContext)
      → OnlyNames ctx
      → Every (λ e. Q e.1) ctx.identity_mappings
      → Every (λ e. Q e.0) ctx.naming_patterns
      → (t : String) → IsKnown ctx t
      → Q t
  unfolding mem
  known-owner Q ctx o a b t (mapped h) = mem-Every Q (λ e. e.1) t ctx.identity_mappings a h
  known-owner Q ctx o a b t (named h) = mem-Every Q (λ e. e.0) t ctx.naming_patterns b h
  known-owner Q ctx (e, _, _, _, _, _) a b t (correlated h) =
      mem-Every Q (λ x. x.1) t ctx.temporal_events (subst (Every (λ x. Q x.1)) (sym e) tt) h
  known-owner Q ctx (_, e, _, _, _, _) a b t (historical h) =
      mem-Every Q (λ x. x.0) t ctx.historical_attributions (subst (Every (λ x. Q x.0)) (sym e) tt) h
  known-owner Q ctx (_, _, e, _, _, _) a b t (deploys h) =
      mem-Every Q (λ x. x.0) t ctx.deployment_owners (subst (Every (λ x. Q x.0)) (sym e) tt) h
  known-owner Q ctx (_, _, _, e, _, _) a b t (owns h) =
      mem-Every Q (λ x. x) t ctx.code_owners (subst (Every (λ x. Q x)) (sym e) tt) h
  known-owner Q ctx (_, _, _, _, e, _) a b t (uses h) =
      mem-Every Q (λ x. x.0) t ctx.recent_users (subst (Every (λ x. Q x.0)) (sym e) tt) h
  known-owner Q ctx (_, _, _, _, _, e) a b t (shares h) =
      mem-Every Q (λ x. x.0) t ctx.proportional_users (subst (Every (λ x. Q x.0)) (sym e) tt) h

  -- The owner of a result: nobody, or a team or person of the graph.
  abbrev pub OwnedIn : InMemoryGraphStore → String → AttributionResult → Type 0
  OwnedIn g w r =
      (r ≡ unresolved w)
      ⊎ ((x : ExplanationArtifact) × (r.explanation ≡ some x) × IsOwner g x.target_entity)

  -- In the graph that a new store has become through any calls, the context of a workload is always
  -- built, and what the engine computes from it without its cache names nobody, or an owner that the
  -- graph stores.
  pub reconcile-owned :
      (T : Texts) (P : Python) (round4 : Float → Float) (config : CombinationConfig)
      (limits : HreExecutionConfig)
      → ((Q : String → Type 0) (xs : List String) → Every Q xs → Every Q (P.set_order xs))
      → (changes : List Change) (now event_time : ℕ) (w tenant_id : String) (clock : Readings)
      → (ctx : ReconciliationContext) × (build_context T now w event_time tenant_id
            (change_all changes empty_store)
          ≡ some ctx)
        × (ctx.tenant_id ≡ tenant_id)
        × OwnedIn
            (change_all changes empty_store)
            w
            (reconcile P round4 config limits clock w event_time ctx)
  unfolding build_context
  reconcile-owned T P round4 config limits order changes now event_time w tenant_id clock =
      let g = change_all changes empty_store in
      let (teams, found, stored) = get_nodes_by_type-typed changes team in
      let ids = candidate_graph_node_ids T w in
      let mappings = map_candidates T w event_time g ids [] in
      let naming = naming_patterns_of T now g teams [] in
      let owners = map_candidates-Every T g w event_time ids [] tt in
      let named_owners = naming_patterns_of-Every T g now teams [] stored tt in
      let ctx : ReconciliationContext = record {
        tenant_id = tenant_id;
        identity_mappings = mappings;
        temporal_events = [];
        naming_patterns = naming;
        historical_attributions = [];
        deployment_owners = [];
        code_owners = [];
        recent_users = [];
        proportional_users = [];
      } in
      let owner : (t : String) → IsKnown ctx t → IsOwner g t =
        known-owner (IsOwner g) ctx (refl, refl, refl, refl, refl, refl) owners named_owners in
      (
        ctx,
        rw (found, build_context) refl,
        refl,
        elim (reconcile-Attributes P round4 config limits w ctx (order (IsKnown ctx)) clock
            event_time) [
              | inl nobody ↦ inl nobody
              | inr (x, explained, known) ↦ inr (x, explained, owner x.target_entity known)
            ],
      )
