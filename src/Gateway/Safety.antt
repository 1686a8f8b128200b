-- ===== src/Gateway/Safety.antt =====
-- interceptor/gateway.py: `intercept` answers every request, and counts what it fails open.
use ai_compute_intelligence.Prelude.{
  ◌+◌, ◌≡◌, refl, arith, Bool, true, false, if◌then◌else◌, String, str_eq, none, some, Option-cases,
  Bool-cases, inl, inr, is_nonempty,
}
use ai_compute_intelligence.Floats.{Floats}
use ai_compute_intelligence.Breaker.{is_open, record_failure}
use ai_compute_intelligence.Breaker.Store.{executes, redis_store}
use ai_compute_intelligence.Index.{AttributionIndexEntry}
use ai_compute_intelligence.Index.Store.{Redis, Tiers}
use ai_compute_intelligence.Index.Store
use ai_compute_intelligence.Gateway.{
  PyText, InterceptionRequest, InterceptionResult, Setup, Moment, CircuitAccess, is_readable,
  Interceptor, lookup_timeout, shadow_intercept_timeout,
}
use ai_compute_intelligence.Gateway.Headers.{resolve_workload_id, sanitize_request_headers}
use ai_compute_intelligence.Gateway.Intercept.{
  Reply, failed_open, hit, lookup_stage, enter, intercept_inner, out_of_time, is_policy_fault,
  is_lookup_fault, conclude, handle_exception, intercept, record_observability_metrics,
}
use ai_compute_intelligence.Gateway.Counting.{
  Counts, SameTotals, is_fail_open, timed-Counts, policy_stage-Counts, miss-Counts,
  emit_shadow_event-SameTotals,
}

module _ ⦃T : PyText⦄ ⦃F : Floats⦄ ⦃R : Redis⦄ (setup : Setup) (m : Moment)
    (request : InterceptionRequest) where
  -- a reply that counts its outcome, or an exception that leaves the counters
  abbrev CountsReply : Interceptor → Reply → Type 0
  CountsReply s (t, some result) = Counts setup m request s (t, result)
  CountsReply s (t, none) = SameTotals setup m request s t

  -- from a state with the same totals
  CountsReply-same :
      (s t : Interceptor) (r : Reply)
      → SameTotals setup m request s t
      → CountsReply t r
      → CountsReply s r
  CountsReply-same s t (u, some result) h c = ground arith
  CountsReply-same s t (u, none) h c = ground arith

  hit-Counts :
      (k : String) (a : AttributionIndexEntry) (s : Interceptor)
      → CountsReply s (hit setup m request k a s)
  unfolding hit
  hit-Counts k a s = elim (Bool-cases (out_of_time setup m request)) [
    | inl late ↦
        rw (late, hit)
          (timed-Counts setup m request lookup_timeout m.elapsed_lookup_ms k a s
            (failed_open setup m request s) (record { requests = refl; fail_opens = refl }))
    | inr ontime ↦ elim (Bool-cases (is_policy_fault m.fault)) [
      | inl raised ↦ rw (ontime, raised, hit) (record { requests = refl; fail_opens = refl })
      | inr fine ↦ rw (ontime, fine, hit) (policy_stage-Counts setup m request k a s)
    ]
  ]

  lookup_stage-Counts : (s : Interceptor) → CountsReply s (lookup_stage setup m request s)
  unfolding lookup_stage
  lookup_stage-Counts s =
      let k = resolve_workload_id request in
      let t = record s { index = (Store.lookup k s.index).0 } in
      elim (Bool-cases (is_nonempty k)) [
        | inr empty ↦ rw (empty, lookup_stage) (ground arith)
        | inl named ↦ elim (Bool-cases (is_lookup_fault m.fault)) [
          | inl raised ↦
              rw (named, raised, lookup_stage) (record { requests = refl; fail_opens = refl })
          | inr fine ↦ elim (Option-cases (Store.lookup k s.index).1) [
            | inl absent ↦
                rw (named, fine, absent, lookup_stage)
                  (let c = miss-Counts setup m request k t in
                    record {
                      same_request = c.same_request;
                      requests = c.requests;
                      fail_opens = c.fail_opens;
                    })
            | inr (a, found) ↦
                rw (named, fine, found, lookup_stage)
                  (CountsReply-same s t (hit setup m request k a t)
                    (record { requests = refl; fail_opens = refl }) (hit-Counts k a t))
          ]
        ]
      ]

  enter-Counts :
      (readable : Bool) (s t : Interceptor) (opened : Bool)
      → SameTotals setup m request s t
      → CountsReply s (enter setup m request readable s (t, opened))
  unfolding enter
  enter-Counts false s t opened h = record { requests = refl; fail_opens = refl }
  enter-Counts true s t true h = ground arith
  enter-Counts true s t false h =
      CountsReply-same s t (lookup_stage setup m request t) h (lookup_stage-Counts t)

  intercept_inner-Counts : (s : Interceptor) → CountsReply s (intercept_inner setup m request s)
  unfolding intercept_inner
  intercept_inner-Counts s =
      let polled = is_open setup.breaker_config m.poll_now s.circuit_breaker in
      enter-Counts (is_readable m.circuit_poll) s (record s { circuit_breaker = polled.0 }) polled.1
        (record { requests = refl; fail_opens = refl })

  handle_exception-Counts :
      (s : Interceptor) → Counts setup m request s (handle_exception setup m request s)
  unfolding handle_exception
  handle_exception-Counts s =
      let failed = record (failed_open setup m request s) {
        circuit_breaker =
            record_failure setup.breaker_config m.outcome_now m.failure_later s.circuit_breaker;
      } in
      ground (
        arith,
        emit_shadow_event-SameTotals setup m request shadow_intercept_timeout
            (resolve_workload_id request) failed,
      )

  -- the two halves of `intercept` together
  conclude-Counts :
      (s : Interceptor) (r : Reply)
      → is_readable m.circuit_outcome ≡ true
      → CountsReply s r
      → (result : InterceptionResult) × ((conclude setup m request r).1 ≡ some result)
        × Counts setup m request s ((conclude setup m request r).0, result)
  unfolding conclude record_observability_metrics
  conclude-Counts s (t, some result) h c = (
    result,
    refl,
    record { same_request = c.same_request; requests = c.requests; fail_opens = c.fail_opens },
  )
  conclude-Counts s (t, none) h c =
      let handled = handle_exception setup m request t in
      let d = handle_exception-Counts t in
      (handled.1, rw (h, conclude), rw (h, conclude) (ground (arith, d)))

module _ ⦃F : Floats⦄ where
  -- Redis is reached, and what it holds is not the text of a circuit state.
  abbrev pub HoldsGarbage : CircuitAccess → String → Type 0
  HoldsGarbage a raw =
      (a.breaker.state_store ≡ redis_store (some raw))
      × (a.exchange ≡ executes)
      × (str_eq raw "" ≡ false)
      × (a.codec.loads raw ≡ none)

module _ ⦃T : PyText⦄ ⦃F : Floats⦄ ⦃R : Redis⦄ where
  pub intercept-answers :
      (setup : Setup) (m : Moment) (request : InterceptionRequest) (s : Interceptor)
      → is_readable m.circuit_outcome ≡ true
      → (result : InterceptionResult) × ((intercept setup m request s).1 ≡ some result)
        × (result.request_id ≡ request.request_id)
        × ((intercept setup m request s).0.total_requests ≡ s.total_requests + 1)
        × ((intercept setup m request s).0.total_fail_open
            ≡ (if is_fail_open result.outcome then s.total_fail_open + 1 else s.total_fail_open))
  unfolding intercept
  intercept-answers setup m request s h =
      let clean = record request { headers = sanitize_request_headers request.headers } in
      let begun = record s { total_requests = s.total_requests + 1 } in
      let (result, answered, c) =
        conclude-Counts setup m clean begun (intercept_inner setup m clean begun) h
          (intercept_inner-Counts setup m clean begun) in
      (result, answered, c.same_request, c.requests, c.fail_opens)
