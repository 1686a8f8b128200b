-- ===== src/Gateway/Intercept.antt =====
-- interceptor/gateway.py: `FailOpenInterceptor.intercept` and its steps, in the order of the code.
-- The circuit state is what the breaker's mutators make of it; a `CircuitAccess` has the store behind
-- it, and says whether a call of the breaker returns.
use ai_compute_intelligence.Prelude.{
  ◌+◌, Bool, true, false, not, if◌then◌else◌, [], ◌∷◌, ◌++◌, String, is_nonempty, Option, none,
  some,
}
use ai_compute_intelligence.Floats.{Floats, Float, lit, flt, fle, fsub}
use ai_compute_intelligence.Breaker.{is_open, record_failure, current_state}
use ai_compute_intelligence.Index.{AttributionIndexEntry}
use ai_compute_intelligence.Index.Store.{Redis, Tiers}
use ai_compute_intelligence.Index.Store
use ai_compute_intelligence.Gateway.{
  PyText, passthrough, fail_open, circuit_open, timeout, FailOpenReason, index_unavailable,
  policy_timeout, lookup_timeout, runtime_exception, resource_exhaustion, shadow_intercept_miss,
  shadow_intercept_timeout, InterceptionRequest, InterceptionResult, Setup, Moment, is_readable,
  lookup_raises, policy_raises, Fault, Interceptor,
}
use ai_compute_intelligence.Gateway.Headers.{
  build_fail_open_headers, build_basic_headers, sanitize_request_headers, resolve_workload_id,
}
use ai_compute_intelligence.Gateway.Policies.{evaluate_policies}
use ai_compute_intelligence.Gateway.Warmer.{should_trigger_refresh}
use ai_compute_intelligence.Gateway.Events.{emit_shadow_event, emit_policy_evaluation_event}
use ai_compute_intelligence.Gateway.Routing.{result_of, route}

module _ ⦃F : Floats⦄ where
  abbrev pub is_lookup_fault : Fault → Bool
  is_lookup_fault lookup_raises = true
  is_lookup_fault _ = false

  abbrev pub is_policy_fault : Fault → Bool
  is_policy_fault policy_raises = true
  is_policy_fault _ = false

module _ ⦃T : PyText⦄ ⦃F : Floats⦄ ⦃R : Redis⦄ where
  -- `none` is an exception
  abbrev pub Reply : Type 0
  Reply = Interceptor × Option InterceptionResult

  module _ (setup : Setup) (m : Moment) (request : InterceptionRequest) where
    -- a TIMEOUT result, with its shadow event
    unfoldable pub timed :
        FailOpenReason
        → Float
        → String
        → AttributionIndexEntry
        → Interceptor
        → Interceptor × InterceptionResult
    timed reason elapsed workload_id a s =
        let (t, logged) =
          emit_shadow_event setup m shadow_intercept_timeout workload_id request s in
        (
          t,
          record (result_of timeout request elapsed) {
            attribution = some a;
            enrichment_headers = build_basic_headers setup.config request a reason;
            shadow_event_logged = logged;
          },
        )

    abbrev pub failed_open : Interceptor → Interceptor
    failed_open s = record s { total_fail_open = s.total_fail_open + 1 }

    -- Step 4, and step 5 behind it
    unfoldable pub policy_stage :
        String → AttributionIndexEntry → Interceptor → Interceptor × InterceptionResult
    unfolding timed
    policy_stage workload_id a s =
        let violations = evaluate_policies request a in
        let audited = emit_policy_evaluation_event setup m workload_id request violations in
        if flt (lit setup.config.policy_timeout_ms 1) m.policy_elapsed_ms
        then timed policy_timeout m.elapsed_ms workload_id a (audited (failed_open s))
        else route setup m request setup.mode a violations (audited s)

    -- the background refresh of a miss
    unfoldable pub consider_refresh : String → Interceptor → Interceptor
    consider_refresh workload_id s =
        let (w, triggered) =
          should_trigger_refresh setup.config m.refresh_now m.random workload_id s.shadow_warmer in
        if setup.has_refresh_fn
        then record s {
          shadow_warmer = w;
          background_tasks =
              if triggered then s.background_tasks ++ workload_id ∷ [] else s.background_tasks;
        }
        else s

    unfoldable pub miss : String → Interceptor → Interceptor × InterceptionResult
    miss workload_id s =
        let missed = record (failed_open s) { total_cache_misses = s.total_cache_misses + 1 } in
        let (t, logged) =
          emit_shadow_event setup m shadow_intercept_miss workload_id request
            (consider_refresh workload_id missed) in
        (
          t,
          record (result_of fail_open request m.elapsed_ms) {
            shadow_event_logged = logged;
            enrichment_headers = build_fail_open_headers index_unavailable;
          },
        )

    abbrev pub answer : Interceptor × InterceptionResult → Reply
    answer (s, result) = (s, some result)

    -- `self.config.timeout_ms - elapsed_so_far <= 2.0`
    abbrev pub out_of_time : Bool
    out_of_time = fle (fsub (lit setup.config.timeout_ms 1) m.elapsed_lookup_ms) (lit 2 1)

    -- steps 3 to 5
    unfoldable pub hit : String → AttributionIndexEntry → Interceptor → Reply
    unfolding timed policy_stage
    hit workload_id a s =
        if out_of_time
        then answer (timed lookup_timeout m.elapsed_lookup_ms workload_id a (failed_open s))
        else if is_policy_fault m.fault
        then (s, none)
        else answer (policy_stage workload_id a s)

    -- steps 2 to 5
    unfoldable pub lookup_stage : Interceptor → Reply
    unfolding hit miss
    lookup_stage s =
        let workload_id = resolve_workload_id request in
        let (index, found) = Store.lookup workload_id s.index in
        let t = record s { index = index } in
        if not (is_nonempty workload_id)
        then (s, some (result_of passthrough request m.elapsed_ms))
        else if is_lookup_fault m.fault
        then (s, none)
        else elim found [ none ↦ answer (miss workload_id t) | some a ↦ hit workload_id a t ]

    -- step 1, with the verdict of the breaker and the state that it leaves
    unfoldable pub enter : Bool → Interceptor → Interceptor × Bool → Reply
    enter false s _ = (s, none)
    enter true s (t, true) = (
      failed_open t,
      some (record (result_of circuit_open request m.elapsed_ms) {
        enrichment_headers = build_fail_open_headers resource_exhaustion;
      }),
    )
    enter true s (t, false) = lookup_stage t

    unfoldable pub intercept_inner : Interceptor → Reply
    unfolding enter
    intercept_inner s =
        let (breaker, opened) = is_open setup.breaker_config m.poll_now s.circuit_breaker in
        enter (is_readable m.circuit_poll) s (record s { circuit_breaker = breaker }, opened)

    -- The gauges of `_record_observability_metrics` are not state of the program, but reading the
    -- circuit's state for them is a transition of it.
    unfoldable pub record_observability_metrics : Interceptor → Interceptor
    record_observability_metrics s = record s {
      circuit_breaker = (current_state setup.breaker_config m.metrics_now s.circuit_breaker).0;
    }

    -- the `except` branch of `intercept`
    unfoldable pub handle_exception : Interceptor → Interceptor × InterceptionResult
    handle_exception s =
        let workload_id = resolve_workload_id request in
        let failed = record (failed_open s) {
          circuit_breaker =
              record_failure setup.breaker_config m.outcome_now m.failure_later s.circuit_breaker;
        } in
        let (t, logged) =
          if is_nonempty workload_id
          then emit_shadow_event setup m shadow_intercept_timeout workload_id request failed
          else (failed, false) in
        (
          t,
          record (result_of fail_open request m.elapsed_ms) {
            shadow_event_logged = logged;
            enrichment_headers = build_fail_open_headers runtime_exception;
          },
        )

  abbrev pub finished :
      Setup → Moment → InterceptionRequest → Interceptor × InterceptionResult → Reply
  finished setup m request (s, result) =
      (record_observability_metrics setup m request s, some result)

  -- The handler calls the breaker too, and where the circuit state cannot be read it raises.
  unfoldable pub conclude : Setup → Moment → InterceptionRequest → Reply → Reply
  conclude setup m request (s, some result) = finished setup m request (s, result)
  conclude setup m request (s, none) =
      if is_readable m.circuit_outcome
      then finished setup m request (handle_exception setup m request s)
      else (s, none)

  -- `request.headers = self._sanitize_request_headers(request.headers)`
  abbrev pub sanitized : InterceptionRequest → InterceptionRequest
  sanitized request = record request { headers = sanitize_request_headers request.headers }

  unfoldable pub intercept : Setup → Moment → InterceptionRequest → Interceptor → Reply
  unfolding conclude
  intercept setup m request s = conclude setup m (sanitized request) (
      intercept_inner setup m (sanitized request)
        (record s { total_requests = s.total_requests + 1 }))
