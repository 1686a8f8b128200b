-- ===== src/Gateway/Wedge.antt =====
-- interceptor/gateway.py with interceptor/circuit_breaker.py: an interceptor whose half-open probes
-- have been used up without an outcome never serves a request again.
use ai_compute_intelligence.Prelude.{
  ◌+◌, ◌≤◌, ◌<◌, ◌≡◌, refl, ◌∙◌, arith, true, false, List, [], ◌∷◌, String, Option, none, some,
}
use ai_compute_intelligence.Prelude.Dict.{Dict}
use ai_compute_intelligence.Floats.{Floats, Float}
use ai_compute_intelligence.Breaker.{
  CircuitBreakerState, BreakerConfig, half_open, is_open, current_state,
}
use ai_compute_intelligence.Index.Store.{Redis}
use ai_compute_intelligence.Gateway.{
  PyText, InterceptionOutcome, circuit_open, passthrough, InterceptionRequest, InterceptionResult,
  Setup, Moment, is_readable, Interceptor,
}
use ai_compute_intelligence.Gateway.Headers.{resolve_workload_id, sanitize_request_headers}
use ai_compute_intelligence.Gateway.Routing.{result_of}
use ai_compute_intelligence.Gateway.Intercept.{
  intercept, intercept_inner, enter, lookup_stage, conclude, record_observability_metrics,
}

abbrev pub outcome_of : ⦃F : Floats⦄ → Option InterceptionResult → Option InterceptionOutcome
outcome_of none = none
outcome_of (some result) = some result.outcome

-- every request was answered by CIRCUIT_OPEN
abbrev pub AllRefused : List (Option InterceptionOutcome) → Type 0
AllRefused [] = Unit
AllRefused (o ∷ outcomes) = (o ≡ some circuit_open) × AllRefused outcomes

module _ ⦃F : Floats⦄ where
  -- the probes are used up
  pub record Exhausted (c : BreakerConfig) (b : CircuitBreakerState) : Type 0 where
    pub probing : b.state ≡ half_open
    pub used : c.half_open_max_probes ≤ b.half_open_probe_count

  abbrev pub AllReadable : List (Moment × InterceptionRequest) → Type 0
  AllReadable [] = Unit
  AllReadable ((m, _) ∷ calls) = (is_readable m.circuit_poll ≡ true) × AllReadable calls

  is_open-Exhausted :
      (c : BreakerConfig) (now : Float) (b : CircuitBreakerState)
      → Exhausted c b
      → is_open c now b ≡ (record b { total_fail_opens = b.total_fail_opens + 1 }, true)
  unfolding is_open
  is_open-Exhausted c now b h = ground arith

  is_open_admits :
      (c : BreakerConfig) (now : Float) (b : CircuitBreakerState)
      → b.state ≡ half_open
      → b.half_open_probe_count < c.half_open_max_probes
      → is_open c now b ≡ (record b { half_open_probe_count = b.half_open_probe_count + 1 }, false)
  unfolding is_open
  is_open_admits c now b h k = ground arith

  current_state_half_open :
      (c : BreakerConfig) (now : Float) (b : CircuitBreakerState)
      → b.state ≡ half_open
      → (current_state c now b).0 ≡ b
  unfolding current_state
  current_state_half_open c now b h = ground arith

module _ ⦃T : PyText⦄ ⦃F : Floats⦄ where
  resolve_workload_id-headers :
      (request : InterceptionRequest) (headers : Dict String)
      → resolve_workload_id (record request { headers = headers }) ≡ resolve_workload_id request
  unfolding resolve_workload_id
  resolve_workload_id-headers request headers = refl

module _ ⦃T : PyText⦄ ⦃F : Floats⦄ ⦃R : Redis⦄ (setup : Setup) where
  -- requests one after another
  unfoldable pub serve :
      List (Moment × InterceptionRequest)
      → Interceptor
      → Interceptor × List (Option InterceptionOutcome)
  serve [] s = (s, [])
  serve ((m, request) ∷ calls) s =
      let (t, result) = intercept setup m request s in
      let (u, outcomes) = serve calls t in (u, outcome_of result ∷ outcomes)

  intercept-Exhausted :
      (m : Moment) (request : InterceptionRequest) (s : Interceptor)
      → is_readable m.circuit_poll ≡ true
      → Exhausted setup.breaker_config s.circuit_breaker
      → (outcome_of (intercept setup m request s).1 ≡ some circuit_open)
        × Exhausted setup.breaker_config (intercept setup m request s).0.circuit_breaker
  unfolding intercept intercept_inner conclude record_observability_metrics
  intercept-Exhausted m request s h e =
      let b = s.circuit_breaker in
      ground (
        arith,
        h,
        is_open-Exhausted setup.breaker_config m.poll_now b e,
        current_state_half_open setup.breaker_config m.metrics_now
            (record b { total_fail_opens = b.total_fail_opens + 1 }),
      )

  -- With a half-open circuit whose probes are used up, every later request, at whatever times, is
  -- answered by CIRCUIT_OPEN, and the circuit stays as it is: half-open with no probe left. The
  -- circuit state must be readable when the circuit is polled.
  pub serve-Exhausted :
      (calls : List (Moment × InterceptionRequest)) (s : Interceptor)
      → AllReadable calls
      → Exhausted setup.breaker_config s.circuit_breaker
      → AllRefused (serve calls s).1
        × Exhausted setup.breaker_config (serve calls s).0.circuit_breaker
  unfolding serve
  serve-Exhausted [] s r e = (tt, e)
  serve-Exhausted ((m, request) ∷ calls) s r e =
      let (refused, after) = intercept-Exhausted m request s r.0 e in
      let (others, end) = serve-Exhausted calls (intercept setup m request s).0 r.1 after in
      ((refused, others), end)

  lookup_stage-unnamed :
      (m : Moment) (request : InterceptionRequest) (s : Interceptor)
      → resolve_workload_id request ≡ ""
      → lookup_stage setup m request s ≡ (s, some (result_of passthrough request m.elapsed_ms))
  unfolding lookup_stage
  lookup_stage-unnamed m request s k = rw (k, lookup_stage)

  -- A request that names no workload takes one of the half-open probes and gives no outcome back:
  -- it passes through, and the circuit stays half-open with one probe fewer.
  pub intercept-uses_probe :
      (m : Moment) (request : InterceptionRequest) (s : Interceptor)
      → is_readable m.circuit_poll ≡ true
      → resolve_workload_id request ≡ ""
      → s.circuit_breaker.state ≡ half_open
      → s.circuit_breaker.half_open_probe_count < setup.breaker_config.half_open_max_probes
      → (outcome_of (intercept setup m request s).1 ≡ some passthrough)
        × ((intercept setup m request s).0.circuit_breaker ≡ record (s.circuit_breaker) {
          half_open_probe_count = s.circuit_breaker.half_open_probe_count + 1;
        })
  unfolding intercept intercept_inner conclude record_observability_metrics enter
  intercept-uses_probe m request s h k p q =
      let b = s.circuit_breaker in
      let clean = record request { headers = sanitize_request_headers request.headers } in
      let unnamed : resolve_workload_id clean ≡ "" = resolve_workload_id-headers request _ ∙ k in
      ground (
        arith,
        h,
        is_open_admits setup.breaker_config m.poll_now b p q,
        lookup_stage-unnamed m clean
            (record s {
              total_requests = s.total_requests + 1;
              circuit_breaker = record b { half_open_probe_count = b.half_open_probe_count + 1 };
            })
            unnamed,
        current_state_half_open setup.breaker_config m.metrics_now
            (record b { half_open_probe_count = b.half_open_probe_count + 1 }),
      )
