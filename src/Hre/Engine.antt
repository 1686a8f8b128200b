-- ===== src/Hre/Engine.antt =====
-- hre/engine.py: `HeuristicReconciliationEngine`. The readings of the monotonic clock are an argument.
-- The logging is left out.
mod Results
unfoldable pub use Results.*
use ai_compute_intelligence.Prelude.{
  ℕ, zero, suc, ◌+◌, ◌-◌, ltb, Bool, if◌then◌else◌, List, [], ◌∷◌, ◌++◌, map, String, str_eq,
  concat, Option, none, some, length, drop,
}
use ai_compute_intelligence.Prelude.Dict
use ai_compute_intelligence.Prelude.Dict.{Dict}
use ai_compute_intelligence.Floats.{Floats, Float, lit, flt, fle, fsub, fmul}
use ai_compute_intelligence.Combination.{CombinationConfig, combine_evidence}
use ai_compute_intelligence.Index.{
  FractionalAttribution, FeatureValue, number, ContributingSignal, Alternative, AttributionResult,
}
use ai_compute_intelligence.Hre.{
  Python, ReconciliationSignal, HreExecutionConfig, ReconciliationContext,
}
use ai_compute_intelligence.Hre.Methods.{
  resolve_r1, resolve_r2, resolve_r3, resolve_r4, resolve_r5, resolve_r6,
}

module _ ⦃F : Floats⦄ where
  -- `historical_attributions[-n:]`, which is the whole list when n is 0
  abbrev pub latest : ℕ → List (String × Float) → List (String × Float)
  latest zero history = history
  latest (suc n) history = drop (length history - suc n) history

  abbrev pub optional {ℓ} : {A : Type ℓ} → Option A → List A
  optional none = []
  optional (some a) = a ∷ []

  -- The best cluster so far; `best_target` is `None` before the first.
  abbrev pub Best : Type 0
  Best = Float × Option (String × Cluster)

  -- The readings of `time.monotonic()` in one call: at the start, at the lookup of the cache, at the
  -- n-th check of the budget, and when the result is stored.
  pub record Readings : Type 0 where
    pub started : Float
    pub looked_up : Float
    pub checked : ℕ → Float
    pub stored : Float

  module _ (P : Python) (round4 : Float → Float) (config : CombinationConfig)
      (limits : HreExecutionConfig) where
    unfoldable pub exceeded_budget : Float → Float → Bool
    exceeded_budget started now = flt limits.max_resolve_ms (fmul (fsub now started) (lit 1000 1))

    unfoldable pub combined_confidence_of : Cluster → Float
    combined_confidence_of cluster =
        let signals = map (λ s. (s.method, s.confidence)) (members cluster) in
        (combine_evidence round4 config signals []).combined_confidence

    -- the loop over the clusters; the number is that of the next check of the budget
    unfoldable pub best_cluster : Readings → ℕ → Dict Cluster → Best → Best
    unfolding exceeded_budget combined_confidence_of
    best_cluster clock n [] best = best
    best_cluster clock n ((target, cluster) ∷ clusters) (confidence, best) =
        let c = combined_confidence_of cluster in
        let next = if flt confidence c then (c, some (target, cluster)) else (confidence, best) in
        let later = best_cluster clock (n + 1) clusters next in
        if exceeded_budget clock.started (clock.checked n) then (confidence, best) else later

    unfoldable pub probabilistic_signals :
        String → ℕ → ReconciliationContext → List ReconciliationSignal
    probabilistic_signals entity_id event_time ctx =
        optional (resolve_r1 P entity_id ctx.identity_mappings)
        ++ optional (resolve_r2 P event_time entity_id ctx.temporal_events)
        ++ optional (resolve_r3 P entity_id ctx.naming_patterns)
        ++ optional (
            resolve_r4 P entity_id
              (latest limits.max_historical_signals ctx.historical_attributions))
        ++ optional (
            resolve_r5 P entity_id ctx.deployment_owners ctx.code_owners ctx.recent_users
              event_time)

    fraction_of : ReconciliationSignal → FractionalAttribution
    fraction_of s = record {
      team_id = s.target_entity;
      team_name = s.target_entity;
      cost_center_id = "";
      weight = elim (Dict.lookup "allocation_weight" s.feature_values) [
        | some (number w) ↦ w
        | _ ↦ lit 0 1
      ];
      confidence = s.confidence;
    }

    -- steps 4 and 5
    unfoldable pub resolve_proportional : String → ReconciliationContext → AttributionResult
    unfolding best_signal build_result unresolved fraction_of
    resolve_proportional entity_id ctx = elim (resolve_r6 P entity_id ctx.proportional_users) [
      | [] ↦ unresolved entity_id
      | s ∷ signals ↦
          let best = best_signal s signals in
          build_result entity_id best (s ∷ signals) best.confidence []
            (map fraction_of (s ∷ signals))
    ]

    unfoldable pub limited : Dict Cluster → Dict Cluster
    unfolding rank take
    limited clusters =
        if ltb limits.max_cluster_targets (length clusters)
        then take limits.max_cluster_targets (rank (λ e. top e.1) [] clusters)
        else clusters

    -- step 3, on the signals found, and what follows it
    unfoldable pub resolve_signals :
        Readings → String → ReconciliationContext → List ReconciliationSignal → AttributionResult
    unfolding timeboxed_fallback cluster_by_target best_cluster limited build_result
        build_alternatives exceeded_budget resolve_proportional
    resolve_signals clock entity_id ctx [] = resolve_proportional entity_id ctx
    resolve_signals clock entity_id ctx (s ∷ signals) =
        let clusters = limited (cluster_by_target (s ∷ signals) []) in
        let (confidence, best) = best_cluster clock 1 clusters (lit 0 1, none) in
        if exceeded_budget clock.started (clock.checked 0)
        then timeboxed_fallback entity_id s signals
        else elim best [
          | none ↦ resolve_proportional entity_id ctx
          | some (target, (primary, others)) ↦
              if flt (lit 0 1) confidence
              then build_result entity_id primary (primary ∷ others) confidence
                  (build_alternatives clusters target) []
              else resolve_proportional entity_id ctx
        ]

    -- `resolve` after a miss of the cache
    unfoldable pub reconcile : Readings → String → ℕ → ReconciliationContext → AttributionResult
    unfolding resolve_signals probabilistic_signals build_result
    reconcile clock entity_id event_time ctx =
        let otherwise =
          resolve_signals clock entity_id ctx (probabilistic_signals entity_id event_time ctx) in
        elim (resolve_r1 P entity_id ctx.identity_mappings) [
          | none ↦ otherwise
          | some s ↦
              if fle (lit 98 100) s.confidence
              then build_result entity_id s (s ∷ []) s.confidence [] []
              else otherwise
        ]

    abbrev pub Cache : Type 0
    Cache = Dict (Float × AttributionResult)

    unfoldable pub get_cached : Float → String → Cache → Option AttributionResult × Cache
    get_cached now key cache = elim (Dict.lookup key cache) [
      | none ↦ (none, cache)
      | some (cached_at, result) ↦
          if flt limits.cache_ttl_seconds (fsub now cached_at)
          then (none, Dict.remove key cache)
          else (some result, Dict.remove key cache ++ (key, (cached_at, result)) ∷ [])
    ]

    -- the `while` loop with `popitem(last=False)`: the oldest entries over the limit go
    unfoldable pub cache_result : Float → String → AttributionResult → Cache → Cache
    cache_result now key result cache =
        let longer = Dict.remove key cache ++ (key, (now, result)) ∷ [] in
        drop (length longer - limits.cache_max_entries) longer

    abbrev pub cache_key : String → String → String → String
    cache_key tenant_id entity_type entity_id =
        concat (tenant_id ∷ ":" ∷ entity_type ∷ ":" ∷ entity_id ∷ [])

    unfoldable pub resolve :
        Readings → String → String → ℕ → ReconciliationContext → Cache → AttributionResult × Cache
    unfolding get_cached cache_result reconcile
    resolve clock entity_id entity_type event_time ctx cache =
        let key = cache_key ctx.tenant_id entity_type entity_id in
        let result = reconcile clock entity_id event_time ctx in
        let (hit, cache') = get_cached clock.looked_up key cache in
        elim hit [
          | some cached ↦ (cached, cache')
          | none ↦ (result, cache_result clock.stored key result cache')
        ]
