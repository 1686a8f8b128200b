-- ===== src/Breaker/Cycle.antt =====
-- How the circuit opens, stays open and closes again (interceptor/circuit_breaker.py).
use ai_compute_intelligence.Prelude.{
  suc, ◌+◌, ◌≤◌, ◌<◌, ◌≡◌, arith, List, [], ◌∷◌, true, false, length, ltb, leb, leb→le, ◌==◌,
  if◌then◌else◌, Bool-cases, inl, inr,
}
use ai_compute_intelligence.Floats.{Floats, Float}
use ai_compute_intelligence.Breaker.{
  CircuitBreakerState, BreakerConfig, closed, opened, half_open, timed_out, is_open, record_success,
  record_failure,
}

module _ ⦃F : Floats⦄ (c : BreakerConfig) where
  -- failures one after another, each with its two clock readings
  unfoldable pub failures : List (Float × Float) → CircuitBreakerState → CircuitBreakerState
  failures [] s = s
  failures ((now, later) ∷ rest) s = failures rest (record_failure c now later s)

  unfoldable pub successes : List Float → CircuitBreakerState → CircuitBreakerState
  successes [] s = s
  successes (now ∷ rest) s = successes rest (record_success c now s)

  failures-stay :
      (ts : List (Float × Float)) (s : CircuitBreakerState)
      → s.state ≡ opened
      → c.failure_threshold ≤ s.failure_count
      → (failures ts s).state ≡ opened
  unfolding failures record_failure
  failures-stay [] s h k = h
  failures-stay ((now, later) ∷ ts) s h k =
      failures-stay ts (record_failure c now later s) (ground arith) (ground arith)

  record_failure_below :
      (now later : Float) (s : CircuitBreakerState)
      → s.state ≡ closed
      → s.failure_count + 1 < c.failure_threshold
      → record_failure c now later s
        ≡ record s { failure_count = s.failure_count + 1; last_failure_time_epoch_s = later }
  unfolding record_failure
  record_failure_below now later s h k = ground arith

  record_failure_reached :
      (now later : Float) (s : CircuitBreakerState)
      → s.state ≡ closed
      → c.failure_threshold ≤ s.failure_count + 1
      → ((record_failure c now later s).state ≡ opened)
        × ((record_failure c now later s).failure_count ≡ s.failure_count + 1)
  unfolding record_failure
  record_failure_reached now later s h k = ground arith

  -- Failures alone, with no success between them, leave a closed circuit closed as long as their
  -- count, with those seen before, is below the threshold. From the failure that reaches the
  -- threshold on the circuit is open after each of them, whatever the clock says.
  pub failures-trip :
      (ts : List (Float × Float)) (s : CircuitBreakerState)
      → s.state ≡ closed
      → s.failure_count < c.failure_threshold
      → (failures ts s).state
        ≡ (if ltb (s.failure_count + length ts) c.failure_threshold then closed else opened)
  unfolding failures
  failures-trip [] s h k = ground arith
  failures-trip ((now, later) ∷ ts) s h k =
      elim (Bool-cases (leb c.failure_threshold (s.failure_count + 1))) [
        | inl reached ↦
            let r = record_failure_reached now later s h (leb→le _ _ reached) in
            ground (
              arith,
              failures-stay ts (record_failure c now later s) r.0
                  (omega (arith, leb→le _ _ reached)),
            )
        | inr below ↦ ground (
          arith,
          record_failure_below now later s h (ground arith),
          failures-trip ts
              (record s { failure_count = s.failure_count + 1; last_failure_time_epoch_s = later }),
        )
      ]

  -- While the reset timeout has not passed, every poll of an open circuit says to fail open.
  pub is_open_before_timeout :
      (now : Float) (s : CircuitBreakerState)
      → s.state ≡ opened
      → timed_out c now s ≡ false
      → is_open c now s ≡ (record s { total_fail_opens = s.total_fail_opens + 1 }, true)
  unfolding is_open
  is_open_before_timeout now s h k = ground arith

  record_success_more :
      (now : Float) (s : CircuitBreakerState)
      → s.state ≡ half_open
      → s.half_open_success_count + 1 < c.half_open_max_probes
      → record_success c now s
        ≡ record s { half_open_success_count = s.half_open_success_count + 1 }
  unfolding record_success
  record_success_more now s h k = ground arith

  record_success_last :
      (now : Float) (s : CircuitBreakerState)
      → s.state ≡ half_open
      → c.half_open_max_probes ≤ s.half_open_success_count + 1
      → record_success c now s ≡ record s {
        state = closed;
        failure_count = 0;
        half_open_success_count = 0;
        half_open_probe_count = 0;
      }
  unfolding record_success
  record_success_last now s h k = ground arith

  -- From a half-open circuit, exactly the successes that are still missing close it and clear the
  -- failure count; while fewer have been recorded it is half-open.
  pub successes-half_open :
      (ts : List Float) (s : CircuitBreakerState)
      → s.state ≡ half_open
      → s.half_open_success_count + length ts ≤ c.half_open_max_probes
      → s.half_open_success_count < c.half_open_max_probes
      → (successes ts s).state ≡ (
          if s.half_open_success_count + length ts == c.half_open_max_probes
          then closed
          else half_open)
  unfolding successes
  successes-half_open [] s h e k = ground arith
  successes-half_open (now ∷ []) s h e k =
      elim (Bool-cases (leb c.half_open_max_probes (s.half_open_success_count + 1))) [
        | inl last ↦ ground (arith, record_success_last now s h (leb→le _ _ last))
        | inr more ↦ ground (arith, record_success_more now s h (ground arith))
      ]
  successes-half_open (now ∷ t ∷ ts) s h e k = ground (
    arith,
    record_success_more now s h (omega arith),
    successes-half_open (t ∷ ts)
        (record s { half_open_success_count = s.half_open_success_count + 1 }),
  )

  record_success-timed_out :
      (now : Float) (s : CircuitBreakerState)
      → s.state ≡ opened
      → timed_out c now s ≡ true
      → record_success c now s
        ≡ record_success c now
            (record s { state = half_open; half_open_success_count = 0; half_open_probe_count = 0 })
  unfolding record_success
  record_success-timed_out now s h k = ground arith

  -- Successes that are recorded one after another on an open circuit whose reset timeout has passed
  -- leave it half-open while they are fewer than `half_open_max_probes`, and the one that makes up
  -- this number closes it.
  pub successes-recover :
      (now : Float) (ts : List Float) (s : CircuitBreakerState)
      → s.state ≡ opened
      → timed_out c now s ≡ true
      → suc (length ts) ≤ c.half_open_max_probes
      → (successes (now ∷ ts) s).state
        ≡ (if suc (length ts) == c.half_open_max_probes then closed else half_open)
  unfolding successes
  successes-recover now ts s h k e =
      let t = record s {
        state = half_open;
        half_open_success_count = 0;
        half_open_probe_count = 0;
      } in
      ground (arith, record_success-timed_out now s h k, successes-half_open (now ∷ ts) t)
