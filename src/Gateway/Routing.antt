-- ===== src/Gateway/Routing.antt =====
-- interceptor/gateway.py: step 5 of `_intercept_inner` and `_active_routing`.
use ai_compute_intelligence.Prelude.{
  ◌+◌, Bool, true, false, ◌&&◌, ◌||◌, if◌then◌else◌, List, [], ◌∷◌, String, concat, mem, any_of,
  Option, none, some,
}
use ai_compute_intelligence.Prelude.Dict
use ai_compute_intelligence.Prelude.Dict.{Dict}
use ai_compute_intelligence.Floats.{Floats, Float, flt, fle}
use ai_compute_intelligence.Breaker.{record_success}
use ai_compute_intelligence.Policy.{PolicyEvaluationResult, EnforcementAction, hard_stop}
use ai_compute_intelligence.Index.{AttributionIndexEntry}
use ai_compute_intelligence.Index.Store.{Redis}
use ai_compute_intelligence.Gateway.{
  PyText, DeploymentMode, passive, advisory, active, InterceptionOutcome, passthrough, enriched,
  redirected, soft_stopped, hard_stopped, InterceptionRequest, InterceptionResult, Setup, Moment,
  Interceptor,
}
use ai_compute_intelligence.Gateway.Headers.{
  build_enrichment_headers, should_downgrade_active_to_advisory,
}
use ai_compute_intelligence.Gateway.Events.{emit_intervention_event}

abbrev pub is_hard_stop : EnforcementAction → Bool
is_hard_stop hard_stop = true
is_hard_stop _ = false

module _ ⦃F : Floats⦄ where
  -- `InterceptionResult(...)` with the defaults for what is not given
  abbrev pub result_of : InterceptionOutcome → InterceptionRequest → Float → InterceptionResult
  result_of outcome request elapsed_ms = record {
    outcome = outcome;
    request_id = request.request_id;
    enrichment_headers = [];
    redirect_model = none;
    policy_results = [];
    attribution = none;
    elapsed_ms = elapsed_ms;
    shadow_event_logged = false;
  }

  abbrev pub has_violation : List PolicyEvaluationResult → Bool
  has_violation violations = any_of (λ v. v.violated) violations

  -- `v.action == HARD_STOP or v.policy_id in hard_stop_ids`
  abbrev pub stops_hard : PolicyEvaluationResult → Bool
  stops_hard v =
      is_hard_stop v.action
      || mem v.policy_id
          ("model_allowlist" ∷ "budget_ceiling" ∷ "token_budget_input" ∷ "cost_ceiling" ∷ [])

module _ ⦃T : PyText⦄ ⦃F : Floats⦄ ⦃R : Redis⦄ where
  module _ (setup : Setup) (m : Moment) (request : InterceptionRequest) where
    -- the outcome that ADVISORY, a downgraded ACTIVE and the end of `_active_routing` share
    abbrev pub advised : AttributionIndexEntry → List PolicyEvaluationResult → InterceptionResult
    advised a violations =
        record (result_of (if has_violation violations then soft_stopped else enriched) request
          m.elapsed_ms) {
            enrichment_headers = build_enrichment_headers setup.config request a violations;
            attribution = some a;
            policy_results = violations;
          }

    unfoldable pub reject :
        AttributionIndexEntry
        → List PolicyEvaluationResult
        → Interceptor
        → Interceptor × InterceptionResult
    reject a violations s = (
      emit_intervention_event setup m "GATE_REJECT" request "" s,
      record (advised a violations) { outcome = hard_stopped },
    )

    intervention_headers : String → Dict String → Dict String
    intervention_headers alt headers =
        Dict.insert "X-ACI-Intervention-Delta"
          (T.prefix 512 (concat ("{model:" ∷ request.model ∷ "->" ∷ alt ∷ "}" ∷ [])))
          (Dict.insert "X-ACI-Intervention-Type" "MODEL_ROUTE"
            (Dict.insert "X-ACI-Intervention-Applied" "true" headers))

    unfoldable pub reroute :
        String
        → AttributionIndexEntry
        → List PolicyEvaluationResult
        → Interceptor
        → Interceptor × InterceptionResult
    unfolding intervention_headers
    reroute alt a violations s = (
      emit_intervention_event setup m "MODEL_ROUTE" request alt
          (record s { total_redirected = s.total_redirected + 1 }),
      record (advised a violations) {
        outcome = redirected;
        redirect_model = some alt;
        enrichment_headers =
            intervention_headers alt (build_enrichment_headers setup.config request a violations);
      },
    )

    unfoldable pub let_pass :
        AttributionIndexEntry
        → List PolicyEvaluationResult
        → Interceptor
        → Interceptor × InterceptionResult
    let_pass a violations s =
        let t = record s { total_enriched = s.total_enriched + 1 } in
        (
          if has_violation violations
              then emit_intervention_event setup m "SOFT_STOP" request "" t
              else t,
          advised a violations,
        )

    -- the first approved alternative, if the requested model is none of them
    abbrev pub alternative : AttributionIndexEntry → Option String
    alternative a = elim a.approved_alternatives [
      | [] ↦ none
      | alt ∷ alternatives ↦ if mem request.model (alt ∷ alternatives) then none else some alt
    ]

    -- `hard_stops` and the confidence that they ask for
    abbrev pub gated : AttributionIndexEntry → List PolicyEvaluationResult → Bool
    gated a violations =
        any_of stops_hard violations
        && fle setup.config.active_lite_gate_min_confidence a.confidence

    unfoldable pub active_routing :
        AttributionIndexEntry
        → List PolicyEvaluationResult
        → Interceptor
        → Interceptor × InterceptionResult
    unfolding reject reroute let_pass
    active_routing a violations s =
        if gated a violations then reject a violations s else elim (alternative a) [
          | some alt ↦ reroute alt a violations s
          | none ↦ let_pass a violations s
        ]

    unfoldable pub succeeded : Interceptor → Interceptor
    succeeded s = record s {
      circuit_breaker = record_success setup.breaker_config m.outcome_now s.circuit_breaker;
    }

    abbrev pub counted : Interceptor → Interceptor
    counted s = record s { total_enriched = s.total_enriched + 1 }

    -- ACTIVE falls back to advice on low confidence and outside non-production environments.
    abbrev pub downgraded : AttributionIndexEntry → Bool
    downgraded a =
        flt a.confidence setup.config.active_lite_min_confidence
        || should_downgrade_active_to_advisory request

    -- Step 5
    unfoldable pub route_active :
        AttributionIndexEntry
        → List PolicyEvaluationResult
        → Interceptor
        → Interceptor × InterceptionResult
    unfolding succeeded
    route_active a violations s =
        let (t, result) = active_routing a violations s in (succeeded t, result)

    unfoldable pub route :
        DeploymentMode
        → AttributionIndexEntry
        → List PolicyEvaluationResult
        → Interceptor
        → Interceptor × InterceptionResult
    unfolding succeeded route_active
    route passive a violations s = (
      counted (succeeded s),
      record (result_of passthrough request m.elapsed_ms) {
        attribution = some a;
        policy_results = violations;
      },
    )
    route advisory a violations s = (counted (succeeded s), advised a violations)
    route active a violations s =
        if downgraded a then (counted s, advised a violations) else route_active a violations s
