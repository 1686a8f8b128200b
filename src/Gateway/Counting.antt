-- ===== src/Gateway/Counting.antt =====
-- interceptor/gateway.py: what each step of `intercept` does to the counters of requests and of
-- fail-open outcomes.
use ai_compute_intelligence.Prelude.{
  ◌+◌, ◌≡◌, arith, Bool, true, false, if◌then◌else◌, List, String, Option-cases, Bool-cases, inl,
  inr,
}
use ai_compute_intelligence.Floats.{Floats, Float, flt, lit}
use ai_compute_intelligence.Policy.{PolicyEvaluationResult}
use ai_compute_intelligence.Index.{AttributionIndexEntry}
use ai_compute_intelligence.Index.Store.{Redis}
use ai_compute_intelligence.Gateway.{
  PyText, DeploymentMode, passive, advisory, active, InterceptionOutcome, fail_open, circuit_open,
  timeout, EmittedType, shadow_intercept_timeout, shadow_intercept_miss, FailOpenReason,
  policy_timeout, InterceptionRequest, InterceptionResult, Setup, Moment, Interceptor,
}
use ai_compute_intelligence.Gateway.Policies.{evaluate_policies}
use ai_compute_intelligence.Gateway.Events.{
  emit_shadow_event, emit_policy_evaluation_event, emit_intervention_event,
}
use ai_compute_intelligence.Gateway.Routing.{
  reject, reroute, let_pass, has_violation, counted, gated, alternative, active_routing, route,
  advised, downgraded,
}
use ai_compute_intelligence.Gateway.Intercept.{
  timed, failed_open, policy_stage, consider_refresh, miss,
}

abbrev pub is_fail_open : InterceptionOutcome → Bool
is_fail_open fail_open = true
is_fail_open circuit_open = true
is_fail_open timeout = true
is_fail_open _ = false

module _ ⦃T : PyText⦄ ⦃F : Floats⦄ ⦃R : Redis⦄ (setup : Setup) (m : Moment)
    (request : InterceptionRequest) where
  -- What a step keeps, and how it counts its outcome.
  pub record Counts (s : Interceptor) (x : Interceptor × InterceptionResult) : Type 0 where
    pub same_request : x.1.request_id ≡ request.request_id
    pub requests : x.0.total_requests ≡ s.total_requests
    pub fail_opens :
        x.0.total_fail_open
        ≡ (if is_fail_open x.1.outcome then s.total_fail_open + 1 else s.total_fail_open)

  -- Events, refreshes and the breaker change no counter.
  pub record SameTotals (s t : Interceptor) : Type 0 where
    pub requests : t.total_requests ≡ s.total_requests
    pub fail_opens : t.total_fail_open ≡ s.total_fail_open

  pub emit_shadow_event-SameTotals :
      (type : EmittedType) (k : String) (s : Interceptor)
      → SameTotals s (emit_shadow_event setup m type k request s).0
  unfolding emit_shadow_event
  emit_shadow_event-SameTotals type k s = ground arith

  emit_policy_evaluation_event-SameTotals :
      (k : String) (vs : List PolicyEvaluationResult) (s : Interceptor)
      → SameTotals s (emit_policy_evaluation_event setup m k request vs s)
  unfolding emit_policy_evaluation_event
  emit_policy_evaluation_event-SameTotals k vs s = ground arith

  emit_intervention_event-SameTotals :
      (action : String) (model : String) (s : Interceptor)
      → SameTotals s (emit_intervention_event setup m action request model s)
  unfolding emit_intervention_event
  emit_intervention_event-SameTotals action model s = ground arith

  reject-Counts :
      (a : AttributionIndexEntry) (vs : List PolicyEvaluationResult) (s : Interceptor)
      → Counts s (reject setup m request a vs s)
  unfolding reject
  reject-Counts a vs s = ground (arith, emit_intervention_event-SameTotals "GATE_REJECT" "" s)

  reroute-Counts :
      (alt : String) (a : AttributionIndexEntry) (vs : List PolicyEvaluationResult)
      (s : Interceptor)
      → Counts s (reroute setup m request alt a vs s)
  unfolding reroute
  reroute-Counts alt a vs s = ground (
    arith,
    emit_intervention_event-SameTotals "MODEL_ROUTE" alt
        (record s { total_redirected = s.total_redirected + 1 }),
  )

  let_pass-Counts :
      (a : AttributionIndexEntry) (vs : List PolicyEvaluationResult) (s : Interceptor)
      → Counts s (let_pass setup m request a vs s)
  unfolding let_pass
  let_pass-Counts a vs s = elim (Bool-cases (has_violation vs)) [
    | inl bad ↦
        rw (bad, let_pass)
          (ground
            (arith, emit_intervention_event-SameTotals "SOFT_STOP" "" (counted setup m request s)))
    | inr good ↦ rw (good, let_pass) (ground arith)
  ]

  active_routing-Counts :
      (a : AttributionIndexEntry) (vs : List PolicyEvaluationResult) (s : Interceptor)
      → Counts s (active_routing setup m request a vs s)
  unfolding active_routing
  active_routing-Counts a vs s = elim (Bool-cases (gated setup m request a vs)) [
    | inl stop ↦ rw (stop, active_routing) (reject-Counts a vs s)
    | inr go ↦ elim (Option-cases (alternative setup m request a)) [
      | inl stay ↦ rw (go, stay, active_routing) (let_pass-Counts a vs s)
      | inr (alt, leave) ↦ rw (go, leave, active_routing) (reroute-Counts alt a vs s)
    ]
  ]

  advised-Counts :
      (a : AttributionIndexEntry) (vs : List PolicyEvaluationResult) (s : Interceptor)
      → Counts s (counted setup m request s, advised setup m request a vs)
  advised-Counts a vs s = elim (Bool-cases (has_violation vs)) [
    | inl bad ↦ rw bad (ground arith)
    | inr good ↦ rw good (ground arith)
  ]

  consider_refresh-SameTotals :
      (k : String) (s : Interceptor) → SameTotals s (consider_refresh setup m request k s)
  unfolding consider_refresh
  consider_refresh-SameTotals k s = ground arith

  route-Counts :
      (mode : DeploymentMode) (a : AttributionIndexEntry) (vs : List PolicyEvaluationResult)
      (s : Interceptor)
      → Counts s (route setup m request mode a vs s)
  unfolding route
  route-Counts passive a vs s = ground arith
  route-Counts advisory a vs s =
      let c = advised-Counts a vs s in
      record { same_request = c.same_request; requests = c.requests; fail_opens = c.fail_opens }
  route-Counts active a vs s = elim (Bool-cases (downgraded setup m request a)) [
    | inl down ↦ rw (down, route) (advised-Counts a vs s)
    | inr up ↦
        rw (up, route)
          (let c = active_routing-Counts a vs s in
            record {
              same_request = c.same_request;
              requests = c.requests;
              fail_opens = c.fail_opens;
            })
  ]

  pub timed-Counts :
      (reason : FailOpenReason) (ms : Float) (k : String) (a : AttributionIndexEntry)
      (s t : Interceptor)
      → SameTotals (failed_open setup m request s) t
      → Counts s (timed setup m request reason ms k a t)
  unfolding timed
  timed-Counts reason ms k a s t h =
      ground (arith, emit_shadow_event-SameTotals shadow_intercept_timeout k t)

  pub policy_stage-Counts :
      (k : String) (a : AttributionIndexEntry) (s : Interceptor)
      → Counts s (policy_stage setup m request k a s)
  unfolding policy_stage
  policy_stage-Counts k a s =
      let vs = evaluate_policies request a in
      elim (Bool-cases (flt (lit setup.config.policy_timeout_ms 1) m.policy_elapsed_ms)) [
        | inl late ↦
            rw (late, policy_stage)
              (timed-Counts policy_timeout m.elapsed_ms k a s _
                (emit_policy_evaluation_event-SameTotals k vs (failed_open setup m request s)))
        | inr ontime ↦
            rw (ontime, policy_stage)
              (ground (
                arith,
                emit_policy_evaluation_event-SameTotals k vs s,
                route-Counts setup.mode a vs (emit_policy_evaluation_event setup m k request vs s),
              ))
      ]

  pub miss-Counts : (k : String) (s : Interceptor) → Counts s (miss setup m request k s)
  unfolding miss
  miss-Counts k s =
      let missed = record (failed_open setup m request s) {
        total_cache_misses = s.total_cache_misses + 1;
      } in
      ground (
        arith,
        consider_refresh-SameTotals k missed,
        emit_shadow_event-SameTotals shadow_intercept_miss k
            (consider_refresh setup m request k missed),
      )
