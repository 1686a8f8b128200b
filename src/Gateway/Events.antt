-- ===== src/Gateway/Events.antt =====
-- interceptor/gateway.py: the audit and shadow events. `published` lists what has been handed to
-- the bus; what the bus does with it later is the bus's.
use ai_compute_intelligence.Prelude.{
  Bool, false, if◌then◌else◌, List, [], ◌∷◌, ◌++◌, String, concat, is_nonempty,
}
use ai_compute_intelligence.Floats.{Floats}
use ai_compute_intelligence.Policy.{PolicyEvaluationResult}
use ai_compute_intelligence.Index.Store.{Redis}
use ai_compute_intelligence.Gateway.{
  PyText, EmittedType, policy_evaluated, intervention_applied, Emission, InterceptionRequest, Setup,
  Moment, Interceptor, mode_value,
}
use ai_compute_intelligence.Gateway.Headers.{resolve_workload_id, resolve_tenant_id}

abbrev pub violated_ids : List PolicyEvaluationResult → List String
violated_ids [] = []
violated_ids (v ∷ violations) =
    let rest = violated_ids violations in if v.violated then v.policy_id ∷ rest else rest

module _ ⦃T : PyText⦄ ⦃F : Floats⦄ where
  abbrev pub shadow_event : EmittedType → String → InterceptionRequest → Emission
  shadow_event type workload_id request = record {
    event_type = type;
    subject_id = workload_id;
    request_id = request.request_id;
    idempotency_key = concat ("shadow:" ∷ request.request_id ∷ []);
    tenant_id = resolve_tenant_id request;
    violated_policy_ids = [];
    action_type = "";
    new_model = "";
  }

  abbrev pub policy_event :
      Setup → String → InterceptionRequest → List PolicyEvaluationResult → Emission
  policy_event setup workload_id request violations = record {
    event_type = policy_evaluated;
    subject_id = workload_id;
    request_id = request.request_id;
    idempotency_key =
        concat ("policy_eval:" ∷ request.request_id ∷ ":" ∷ mode_value setup.mode ∷ []);
    tenant_id = resolve_tenant_id request;
    violated_policy_ids = violated_ids violations;
    action_type = "";
    new_model = "";
  }

  abbrev pub intervention_event : String → InterceptionRequest → String → Emission
  intervention_event action_type request new_model = record {
    event_type = intervention_applied;
    subject_id = resolve_workload_id request;
    request_id = request.request_id;
    idempotency_key = concat ("intervention:" ∷ request.request_id ∷ ":" ∷ action_type ∷ []);
    tenant_id = resolve_tenant_id request;
    violated_policy_ids = [];
    action_type = action_type;
    new_model = new_model;
  }

module _ ⦃T : PyText⦄ ⦃F : Floats⦄ ⦃R : Redis⦄ where
  unfoldable pub publish_async_event : Setup → Moment → Emission → Interceptor → Interceptor × Bool
  publish_async_event setup m e s =
      if setup.has_event_bus
      then (record s { published = s.published ++ e ∷ [] }, m.publish_accepts e.event_type)
      else (s, false)

  unfoldable pub emit_shadow_event :
      Setup → Moment → EmittedType → String → InterceptionRequest → Interceptor → Interceptor × Bool
  unfolding publish_async_event
  emit_shadow_event setup m type workload_id request s =
      if setup.config.shadow_events_enabled
      then publish_async_event setup m (shadow_event type workload_id request) s
      else (s, false)

  unfoldable pub emit_policy_evaluation_event :
      Setup
      → Moment
      → String
      → InterceptionRequest
      → List PolicyEvaluationResult
      → Interceptor
      → Interceptor
  unfolding publish_async_event
  emit_policy_evaluation_event setup m workload_id request violations s =
      (publish_async_event setup m (policy_event setup workload_id request violations) s).0

  unfoldable pub emit_intervention_event :
      Setup → Moment → String → InterceptionRequest → String → Interceptor → Interceptor
  unfolding publish_async_event
  emit_intervention_event setup m action_type request new_model s =
      if is_nonempty (resolve_workload_id request)
      then (publish_async_event setup m (intervention_event action_type request new_model) s).0
      else s
