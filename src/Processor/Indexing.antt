-- ===== src/Processor/Indexing.antt =====
-- core/processor.py, `_handle_inference`: from an inference event to the entry of the index.
use ai_compute_intelligence.Prelude.{
  ℕ, ◌+◌, ◌<◌, ◌≡◌, refl, sym, ap, ◌∙◌, subst, arith, true, [], ◌∷◌, String, concat, none, some,
}
use ai_compute_intelligence.Prelude.Dict
use ai_compute_intelligence.Prelude.Dict.{Dict}
use ai_compute_intelligence.Floats.{Floats, Float, lit, flt, fle}
use ai_compute_intelligence.Combination.{CombinationConfig}
use ai_compute_intelligence.Index.{
  AttributionIndexEntry, AttributionResult, ExplanationArtifact, text,
}
use ai_compute_intelligence.Index.Lru.{insert_local-lookup}
use ai_compute_intelligence.Index.Rebuild.{team_of as indexed_team}
use ai_compute_intelligence.Index.Store.{
  Redis, Tiers, materialize, materialize_local, write_durable_entry,
}
use ai_compute_intelligence.Index.Materializer.{
  ConfidenceConfig, in_unit_range, entry_of, materialize_attribution, apply_policy_context,
}
use ai_compute_intelligence.Policy.{Policies}
use ai_compute_intelligence.Calibration.{CalibrationConfig, Fitting, calibrate}
use ai_compute_intelligence.Hre.{
  Python, HreExecutionConfig, ReconciliationContext, ReconciliationSignal,
}
use ai_compute_intelligence.Hre.Methods.{resolve_r1}
use ai_compute_intelligence.Hre.Engine.{build_result, join, resolve, cache_key}
use ai_compute_intelligence.Hre.Cache.{resolve-missed}
use ai_compute_intelligence.Hre.Priority.{reconcile-r1}
use ai_compute_intelligence.Processor.{
  DomainEvent, Texts, build_context, workload_of, policy_context, team_of,
}
use ai_compute_intelligence.Processor.Inference.{
  Parsing, AttributionProcessor, Moment, calibrated, publish_result, handle_inference,
}

module _ ⦃F : Floats⦄ ⦃R : Redis⦄ where
  materialize-lookup :
      (now : ℕ) (e : AttributionIndexEntry) (t : Tiers)
      → 0 < t.store.max_entries
      → indexed_team (Dict.lookup e.workload_id (materialize now e t).store.index) ≡ some e.team_id
  unfolding materialize materialize_local write_durable_entry
  materialize-lookup now e t h =
      let v = Dict.get_or e.workload_id 0 t.store.versions + 1 in
      let e' = record e { version = v; materialized_at = now } in
      ground (arith, insert_local-lookup e' t.store h)

  module _ (P : Python) (T : Texts) (L : Fitting) (N : Parsing) (round4 : Float → Float)
      (config : CombinationConfig) (limits : HreExecutionConfig) (calibration : CalibrationConfig)
      (tiers : ConfidenceConfig) (bucket : ℕ → String) where
    publish_result-indexes :
        (now : ℕ) (policies : Policies) (result : AttributionResult) (x : ExplanationArtifact)
        (s : AttributionProcessor P T L N round4 config limits calibration tiers bucket)
        → result.explanation ≡ some x
        → flt (lit 0 1) result.combined_confidence ≡ true
        → in_unit_range (
            calibrate L calibration
              (T.first_method x.method_used)
              result.combined_confidence
              s.calibrator)
          ≡ true
        → 0 < s.index.store.max_entries
        → (indexed_team (
              Dict.lookup result.workload_id
                (publish_result P T L N round4 config limits calibration tiers bucket now policies
                  result s).0.index.store.index)
            ≡ some x.target_entity)
          × ((publish_result P T L N round4 config limits calibration tiers bucket now policies
                result s).1
              ≡ true)
    unfolding publish_result materialize_attribution calibrated entry_of apply_policy_context
    publish_result-indexes now policies result x s explained positive range room =
        let r =
          calibrated P T L N round4 config limits calibration tiers bucket s.calibrator result in
        let e = entry_of tiers bucket now r (some (policy_context policies (team_of result))) in
        ground (arith, materialize-lookup now e s.index room)

    exact_signal :
        (w t : String) (ctx : ReconciliationContext)
        → Dict.lookup w ctx.identity_mappings ≡ some t
        → (sig : ReconciliationSignal) × (resolve_r1 P w ctx.identity_mappings ≡ some sig)
          × (sig.target_entity ≡ t)
          × (sig.confidence ≡ lit 1 1)
          × (sig.method ≡ "R1")
    unfolding resolve_r1
    exact_signal w t ctx h =
        let sig : ReconciliationSignal = record {
          method = "R1";
          source_entity = w;
          target_entity = t;
          confidence = lit 1 1;
          signals = concat ("direct_match:" ∷ w ∷ []) ∷ [];
          feature_values = ("match_type", text "exact_identifier") ∷ [];
        } in
        (sig, rw (h, resolve_r1) refl, refl, refl, refl)

    abbrev pub Processed : Type 1
    Processed = AttributionProcessor P T L N round4 config limits calibration tiers bucket

    -- An inference event of a workload that the graph maps to an owner ends in the index: if the engine
    -- has no cached result for the workload, the handler completes, and the index then answers a
    -- look-up of the workload with that owner as the team. The calibrated confidence must lie between
    -- 0 and 1, the index must have room for one entry, and the literals must compare as 0.98 <= 0.98,
    -- 0.98 <= 1 and 0 < 1.
    pub handle_inference-indexes :
        fle (lit 98 100) (lit 98 100) ≡ true
        → fle (lit 98 100) (lit 1 1) ≡ true
        → flt (lit 0 1) (lit 1 1) ≡ true
        → (m : Moment P T L N round4 config limits calibration tiers bucket) (policies : Policies)
          (event : DomainEvent) (s : Processed) (ctx : ReconciliationContext) (t : String)
        → build_context T m.now (workload_of T event) event.event_time event.tenant_id s.graph
          ≡ some ctx
        → Dict.lookup (workload_of T event) ctx.identity_mappings ≡ some t
        → Dict.lookup
            (cache_key P round4 config limits ctx.tenant_id "inference_endpoint"
              (workload_of T event))
            s.cache
          ≡ none
        → in_unit_range (calibrate L calibration (T.first_method "R1") (lit 1 1) s.calibrator)
          ≡ true
        → 0 < s.index.store.max_entries
        → (indexed_team (
              Dict.lookup
                (workload_of T event)
                (handle_inference P T L N round4 config limits calibration tiers bucket m policies
                  event s).0.index.store.index)
            ≡ some t)
          × ((handle_inference P T L N round4 config limits calibration tiers bucket m policies
                event s).1
              ≡ true)
    unfolding handle_inference build_result join
    handle_inference-indexes self_le one_le positive m policies event s ctx t context owner missing
          range room =
        let w = workload_of T event in
        let (sig, found, target, sure, method) = exact_signal w t ctx owner in
        let result = build_result w sig (sig ∷ []) sig.confidence [] [] in
        let computed =
          reconcile-r1 P round4 config limits self_le one_le m.readings w event.event_time ctx sig
            found in
        let resolved =
          resolve-missed P round4 config limits m.readings w "inference_endpoint" event.event_time
            ctx s.cache missing in
        let cache =
          (resolve P round4 config limits m.readings w "inference_endpoint" event.event_time ctx
            s.cache).1 in
        let indexed =
          publish_result-indexes m.now policies result _ (record s { cache = cache }) refl
            (rw sure positive) (rw (sure, method) range) room in
        rw (context, handle_inference)
          (subst
            (λ r.
              (indexed_team (
                  Dict.lookup w
                    (publish_result P T L N round4 config limits calibration tiers bucket m.now
                      policies r (record s { cache = cache })).0.index.store.index)
                ≡ some t)
              × ((publish_result P T L N round4 config limits calibration tiers bucket m.now
                    policies r (record s { cache = cache })).1
                  ≡ true))
            (sym computed ∙ sym (ap (λ p. p.0) resolved)) (indexed.0 ∙ ap some target, indexed.1))
