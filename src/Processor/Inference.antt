-- ===== src/Processor/Inference.antt =====
-- core/processor.py: the state of `AttributionProcessor`, `_handle_inference` and `_handle_correction`,
-- and the subscriptions to the bus.
use ai_compute_intelligence.Prelude.{
  ℕ, ◌+◌, Bool, true, false, if◌then◌else◌, String, str_eq, is_some, none, some,
}
use ai_compute_intelligence.Floats.{Floats, Float, lit, flt}
use ai_compute_intelligence.Combination.{CombinationConfig}
use ai_compute_intelligence.Index.{AttributionResult}
use ai_compute_intelligence.Index.Store.{Redis, Tiers}
use ai_compute_intelligence.Index.Materializer.{ConfidenceConfig, materialize_attribution}
use ai_compute_intelligence.Policy.{Policies}
use ai_compute_intelligence.Calibration.{
  CalibrationConfig, GroundTruthLabel, Fitting, CalibrationEngine, calibrate, add_ground_truth,
}
use ai_compute_intelligence.Hre.{Python, HreExecutionConfig}
use ai_compute_intelligence.Hre.Engine.{Readings, Cache, resolve}
use ai_compute_intelligence.Graph.{InMemoryGraphStore}
use ai_compute_intelligence.Processor.{
  DomainEvent, attr, Texts, handle_deployment, handle_billing, handle_org_change, build_context,
  workload_of, policy_context, method_of, team_of,
}

-- how a label reads its number and its flag from the attributes
pub record Parsing ⦃F : Floats⦄ : Type 0 where
  pub float_of : String → Float
  pub flag_of : String → Bool

module _ ⦃F : Floats⦄ ⦃R : Redis⦄ (P : Python) (T : Texts) (L : Fitting) (N : Parsing)
    (round4 : Float → Float) (config : CombinationConfig) (limits : HreExecutionConfig)
    (calibration : CalibrationConfig) (tiers : ConfidenceConfig)
    (compute_time_bucket : ℕ → String) where
  pub record AttributionProcessor : Type 1 where
    pub graph : InMemoryGraphStore
    pub cache : Cache P round4 config limits
    pub calibrator : CalibrationEngine L
    pub index : Tiers
    pub processed_count : ℕ

  -- the clocks while an event is processed
  pub record Moment : Type 0 where
    pub now : ℕ
    pub readings : Readings

  -- the result with its confidence calibrated
  unfoldable pub calibrated : CalibrationEngine L → AttributionResult → AttributionResult
  calibrated s result = record result {
    combined_confidence =
        calibrate L calibration (T.first_method (method_of result)) result.combined_confidence s;
  }

  -- what follows `hre.resolve`; `false` is a `ValidationError`
  unfoldable pub publish_result :
      ℕ → Policies → AttributionResult → AttributionProcessor → AttributionProcessor × Bool
  unfolding calibrated
  publish_result now policies result s =
      let r = calibrated s.calibrator result in
      let (index, made) =
        materialize_attribution tiers compute_time_bucket now r
          (some (policy_context policies (team_of result))) s.index in
      if flt (lit 0 1) result.combined_confidence
      then (if is_some made
          then (record s { index = index; processed_count = s.processed_count + 1 }, true)
          else (record s { index = index }, false))
      else (record s { processed_count = s.processed_count + 1 }, true)

  -- `false` is an exception, which the bus handles.
  unfoldable pub handle_inference :
      Moment → Policies → DomainEvent → AttributionProcessor → AttributionProcessor × Bool
  unfolding publish_result
  handle_inference m policies event s =
      let workload_id = workload_of T event in
      elim (build_context T m.now workload_id event.event_time event.tenant_id s.graph) [
        | none ↦ (s, false)
        | some ctx ↦
            let (result, cache) =
              resolve P round4 config limits m.readings workload_id "inference_endpoint"
                event.event_time ctx s.cache in
            publish_result m.now policies result (record s { cache = cache })
      ]

  label_of : DomainEvent → GroundTruthLabel
  label_of event = record {
    attribution_id = attr "attribution_id" event;
    true_team_id = attr "true_team_id" event;
    true_cost_center_id = attr "true_cost_center_id" event;
    source = "user_correction";
    predicted_team_id = attr "predicted_team_id" event;
    predicted_confidence = N.float_of (attr "predicted_confidence" event);
    method_used = attr "method_used" event;
    was_correct = N.flag_of (attr "was_correct" event);
  }

  unfoldable pub handle_correction : DomainEvent → AttributionProcessor → AttributionProcessor
  unfolding label_of
  handle_correction event s = record s {
    calibrator = add_ground_truth L calibration (label_of event) s.calibrator;
    processed_count = s.processed_count + 1;
  }

  -- a handler that changes the graph only
  unfoldable pub on_graph :
      (InMemoryGraphStore → InMemoryGraphStore) → AttributionProcessor → AttributionProcessor × Bool
  on_graph f s = (record s { graph = f s.graph; processed_count = s.processed_count + 1 }, true)

  -- the subscriptions, by the value of `EventType`
  unfoldable pub handle :
      String → Moment → Policies → DomainEvent → AttributionProcessor → AttributionProcessor × Bool
  unfolding handle_inference handle_correction on_graph
  handle event_type m policies event s =
      if str_eq event_type "inference.request"
      then handle_inference m policies event s
      else if str_eq event_type "cicd.deployment"
      then on_graph (handle_deployment T m.now event) s
      else if str_eq event_type "billing.line_item"
      then on_graph (handle_billing T m.now event) s
      else if str_eq event_type "correction.attribution"
      then (handle_correction event s, true)
      else if str_eq event_type "org.hierarchy_change"
      then on_graph (handle_org_change T m.now event) s
      else (s, true)
