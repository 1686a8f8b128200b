-- ===== src/Processor.antt =====
-- core/processor.py: `AttributionProcessor`, which keeps the graph, the calibration, the cache of the
-- reconciliation engine and the index up to date with the events of the bus.
pub mod Context
pub mod Owners
pub mod Membership
pub mod Inference
pub mod Indexing
mod Tests
use ai_compute_intelligence.Prelude.{
  ℕ, ◌+◌, Bool, true, false, ◌&&◌, ◌||◌, not, if◌then◌else◌, List, [], ◌∷◌, ◌++◌, String, str_eq,
  concat, mem, is_nonempty, is_nonempty_list, text_or, Option, none, some,
}
use text.Mathlib.Text.{starts_with}
use ai_compute_intelligence.Prelude.Dict
use ai_compute_intelligence.Prelude.Dict.{Dict}
use ai_compute_intelligence.Floats.{Floats, Float, lit, flt}
use ai_compute_intelligence.Combination.{CombinationConfig}
use ai_compute_intelligence.Index.{AttributionResult, ExplanationArtifact}
use ai_compute_intelligence.Index.Store.{Redis, Tiers}
use ai_compute_intelligence.Index.Materializer.{
  ConfidenceConfig, PolicyContext, materialize_attribution,
}
use ai_compute_intelligence.Policy.{
  Policies, Budget, TokenBudgets, get_budget_context, get_model_allowlist, get_token_budgets,
  get_cost_ceiling,
}
use ai_compute_intelligence.Calibration.{
  CalibrationConfig, GroundTruthLabel, Fitting, CalibrationEngine, calibrate, add_ground_truth,
}
use ai_compute_intelligence.Hre.{Python, HreExecutionConfig, ReconciliationContext}
use ai_compute_intelligence.Hre.Engine.{Readings, Cache, resolve}
use ai_compute_intelligence.Graph.{
  NodeType, deployment, cloud_resource, team, person, repository, EdgeType, triggers, deployed_by,
  member_of, GraphNode, GraphEdge, EdgeProvenance, InMemoryGraphStore, upsert_node, add_edge,
  close_edge, get_node, get_edges_from, get_nodes_by_type,
}

-- A `DomainEvent`: what the handlers read, with the attributes as texts.
pub record DomainEvent : Type 0 where
  pub event_id : String
  pub subject_id : String
  pub tenant_id : String
  pub event_time : ℕ
  pub attributes : Dict String

-- `attrs.get(key, "")`
abbrev pub attr : String → DomainEvent → String
attr key event = Dict.get_or key "" event.attributes

-- What the handlers take from Python: the last part of a text between slashes, and the first part of
-- a text between plus signs.
pub record Texts : Type 0 where
  pub last_segment : String → String
  pub first_method : String → String

-- `target.node_type in (NodeType.TEAM, NodeType.PERSON)`
abbrev pub is_owner : NodeType → Bool
is_owner team = true
is_owner person = true
is_owner _ = false

module _ ⦃F : Floats⦄ where
  -- the nodes and edges that the handlers make, at the time `now` of the clock
  node_of : ℕ → String → NodeType → String → Dict String → GraphNode
  node_of now node_id node_type label properties = record {
    node_id = node_id;
    node_type = node_type;
    label = label;
    properties = properties;
    tenant_id = "default";
    created_at = now;
    updated_at = now;
  }

  unfoldable pub edge_of : ℕ → EdgeType → String → String → ℕ → String → GraphEdge
  edge_of now edge_type from_id to_id valid_from source = record {
    edge_type = edge_type;
    from_id = from_id;
    to_id = to_id;
    confidence = lit 1 1;
    weight = lit 1 1;
    valid_from = valid_from;
    valid_to = none;
    provenance = record { source = source; method = "R1"; signals = []; created_at = now };
    explanation_ref = none;
  }

  module _ (T : Texts) where
    -- the target of a deployment
    link_target : ℕ → String → String → DomainEvent → InMemoryGraphStore → InMemoryGraphStore
    unfolding node_of edge_of
    link_target now deploy_id target_arn event g =
        let resource_id = concat ("resource:" ∷ target_arn ∷ []) in
        if is_nonempty target_arn
        then add_edge now (edge_of now triggers deploy_id resource_id event.event_time "cicd") (
            upsert_node now (node_of now resource_id cloud_resource (T.last_segment target_arn) [])
              g)
        else g

    unfoldable pub handle_deployment : ℕ → DomainEvent → InMemoryGraphStore → InMemoryGraphStore
    unfolding link_target node_of edge_of
    handle_deployment now event g =
        let deployer = attr "deployer_identity" event in
        let deploy_id =
          concat ("deploy:" ∷ Dict.get_or "deploy_job_id" event.event_id event.attributes ∷ []) in
        let stored =
          upsert_node now
            (node_of now deploy_id deployment (attr "service_name" event) event.attributes) g in
        let linked = link_target now deploy_id (attr "target_resource_arn" event) event stored in
        if is_nonempty deployer
        then add_edge now
            (edge_of now deployed_by (concat ("person:" ∷ deployer ∷ [])) deploy_id event.event_time
              "cicd")
            linked
        else linked

    -- The node is changed in place and then stored; the default values are those of Python as texts.
    unfoldable pub handle_billing : ℕ → DomainEvent → InMemoryGraphStore → InMemoryGraphStore
    handle_billing now event g =
        let resource_arn = attr "resource_arn" event in
        let cost = Dict.get_or "cost_usd" "0.0" event.attributes in
        let tags = Dict.get_or "tags" "{}" event.attributes in
        if is_nonempty resource_arn
        then elim (get_node (concat ("resource:" ∷ resource_arn ∷ [])) g) [
          | none ↦ g
          | some node ↦
              let billed = record node {
                properties =
                    Dict.insert "billing_tags" tags
                      (Dict.insert "last_billed_cost_usd" cost node.properties);
              } in
              upsert_node now billed (record g { nodes = Dict.insert node.node_id billed g.nodes })
        ]
        else g

    unfoldable pub handle_org_change : ℕ → DomainEvent → InMemoryGraphStore → InMemoryGraphStore
    unfolding edge_of
    handle_org_change now event g =
        let person_id = concat ("person:" ∷ attr "person_id" event ∷ []) in
        let old_team = attr "previous_team" event in
        let new_team = attr "new_team" event in
        let closed =
          if is_nonempty old_team && not (str_eq old_team new_team)
          then (close_edge (person_id, concat ("team:" ∷ old_team ∷ []), member_of) event.event_time
              g).0
          else g in
        let moved =
          if is_nonempty new_team && not (str_eq old_team new_team)
          then add_edge now
              (edge_of now member_of person_id (concat ("team:" ∷ new_team ∷ [])) event.event_time
                "hr")
              closed
          else closed in
        if is_nonempty (attr "person_id" event) then moved else g

    -- `list(dict.fromkeys(...))` of the workload and its names with a prefix, which all differ
    unfoldable pub candidate_graph_node_ids : String → List String
    candidate_graph_node_ids workload_id =
        if starts_with workload_id "resource:" || starts_with workload_id "endpoint:"
        then workload_id ∷ []
        else workload_id
          ∷ concat ("resource:" ∷ workload_id ∷ [])
          ∷ concat ("endpoint:" ∷ workload_id ∷ [])
          ∷ []

    -- The loops over the edges of one id and over the ids. All write the same key, the workload.
    unfoldable pub map_owners :
        String → InMemoryGraphStore → List GraphEdge → Dict String → Dict String
    map_owners workload_id g [] mappings = mappings
    map_owners workload_id g (e ∷ edges) mappings =
        map_owners workload_id g edges (elim (get_node e.to_id g) [
          | none ↦ mappings
          | some target ↦
              if is_owner target.node_type
              then Dict.insert workload_id target.node_id mappings
              else mappings
        ])

    unfoldable pub map_candidates :
        String → ℕ → InMemoryGraphStore → List String → Dict String → Dict String
    unfolding map_owners
    map_candidates workload_id event_time g [] mappings = mappings
    map_candidates workload_id event_time g (k ∷ ids) mappings =
        map_candidates workload_id event_time g ids
          (map_owners workload_id g (get_edges_from k event_time g) mappings)

    unfoldable pub patterns_of : InMemoryGraphStore → List GraphEdge → List String
    patterns_of g [] = []
    patterns_of g (e ∷ edges) =
        let rest = patterns_of g edges in
        elim (get_node e.to_id g) [
          | none ↦ rest
          | some target ↦ elim target.node_type [ repository ↦ target.label ∷ rest | _ ↦ rest ]
        ]

    -- the loop over the teams; their edges are read at the present time
    unfoldable pub naming_patterns_of :
        ℕ → InMemoryGraphStore → List GraphNode → Dict (List String) → Dict (List String)
    unfolding patterns_of
    naming_patterns_of now g [] naming = naming
    naming_patterns_of now g (t ∷ teams) naming =
        let patterns = patterns_of g (get_edges_from t.node_id now g) in
        naming_patterns_of now g teams
          (if is_nonempty_list patterns then Dict.insert t.node_id patterns naming else naming)

    -- `none` is the `KeyError` of `get_nodes_by_type`.
    unfoldable pub build_context :
        ℕ → String → ℕ → String → InMemoryGraphStore → Option ReconciliationContext
    unfolding map_candidates naming_patterns_of candidate_graph_node_ids
    build_context now workload_id event_time tenant_id g = elim (get_nodes_by_type team g) [
      | none ↦ none
      | some teams ↦ some (record {
        tenant_id = tenant_id;
        identity_mappings =
            map_candidates workload_id event_time g (candidate_graph_node_ids workload_id) [];
        temporal_events = [];
        naming_patterns = naming_patterns_of now g teams [];
        historical_attributions = [];
        deployment_owners = [];
        code_owners = [];
        recent_users = [];
        proportional_users = [];
      })
    ]

    -- `str(attrs.get("service_name") or attrs.get("cloud_resource_arn") or event.subject_id)`
    abbrev pub workload_of : DomainEvent → String
    workload_of event =
        text_or (attr "service_name" event)
          (text_or (attr "cloud_resource_arn" event) event.subject_id)

  -- `policy_ctx`: the dictionary of the four getters, or the empty one when there is no team
  unfoldable pub policy_context : Policies → String → PolicyContext
  policy_context policies team_id =
      let budget = get_budget_context policies team_id in
      let tokens = get_token_budgets policies team_id in
      if is_nonempty team_id
      then record {
        model_allowlist = some (get_model_allowlist policies team_id);
        budget_remaining_usd = elim budget [
          | none ↦ none
          | some b ↦ some (some b.budget_remaining_usd)
        ];
        budget_limit_usd = elim budget [ none ↦ none | some b ↦ some (some b.budget_limit_usd) ];
        token_budget_output = elim tokens [ none ↦ none | some t ↦ some t.token_budget_output ];
        token_budget_input = elim tokens [ none ↦ none | some t ↦ some t.token_budget_input ];
        cost_ceiling_per_request_usd = elim (get_cost_ceiling policies team_id) [
          | none ↦ none
          | some c ↦ some (some c)
        ];
        equivalence_class_id = none;
        approved_alternatives = none;
      }
      else record {
        model_allowlist = none;
        budget_remaining_usd = none;
        budget_limit_usd = none;
        token_budget_output = none;
        token_budget_input = none;
        cost_ceiling_per_request_usd = none;
        equivalence_class_id = none;
        approved_alternatives = none;
      }

  abbrev pub method_of : AttributionResult → String
  method_of r = elim r.explanation [ none ↦ "unknown" | some x ↦ x.method_used ]

  abbrev pub team_of : AttributionResult → String
  team_of r = elim r.explanation [ none ↦ "" | some x ↦ x.target_entity ]
