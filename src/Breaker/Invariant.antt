-- ===== src/Breaker/Invariant.antt =====
-- What holds of the circuit state after any calls of the breaker's methods
-- (interceptor/circuit_breaker.py).
use ai_compute_intelligence.Prelude.{◌≤◌, ◌<◌, ◌≡◌, ◌≢◌, arith, List, [], ◌∷◌}
use ai_compute_intelligence.Floats.{Floats, Float}
use ai_compute_intelligence.Breaker.{
  CircuitBreakerState, BreakerConfig, closed, half_open, initial, is_open, current_state,
  record_success, record_failure, force_open, force_close, get_metrics,
}

module _ ⦃F : Floats⦄ where
  -- A call of a method, with the clock readings that it makes.
  pub data Call : Type 0 where
    read_state : Float → Call
    poll : Float → Call
    success : Float → Call
    failure : Float → Float → Call
    maintenance : Float → Call
    recover : Call
    metrics : Float → Call

  unfoldable pub apply : BreakerConfig → Call → CircuitBreakerState → CircuitBreakerState
  unfolding current_state is_open record_success record_failure force_open force_close get_metrics
  apply c (read_state now) s = (current_state c now s).0
  apply c (poll now) s = (is_open c now s).0
  apply c (success now) s = record_success c now s
  apply c (failure now later) s = record_failure c now later s
  apply c (maintenance now) s = force_open now s
  apply c recover s = force_close s
  apply c (metrics now) s = (get_metrics c now s).0

  unfoldable pub apply_all : BreakerConfig → List Call → CircuitBreakerState → CircuitBreakerState
  apply_all c [] s = s
  apply_all c (call ∷ calls) s = apply_all c calls (apply c call s)

  pub record IsUsable (c : BreakerConfig) : Type 0 where
    pub some_failures : 0 < c.failure_threshold
    pub some_probes : 0 < c.half_open_max_probes

  pub record IsValid (c : BreakerConfig) (s : CircuitBreakerState) : Type 0 where
    pub probes_bounded : s.half_open_probe_count ≤ c.half_open_max_probes
    pub successes_bounded : s.half_open_success_count < c.half_open_max_probes
    pub closed_below : s.state ≡ closed → s.failure_count < c.failure_threshold
    pub idle_probes : s.state ≢ half_open → s.half_open_probe_count ≡ 0
    pub idle_successes : s.state ≢ half_open → s.half_open_success_count ≡ 0

  pub initial-IsValid : (c : BreakerConfig) → IsUsable c → IsValid c initial
  initial-IsValid c u = ground arith

  pub apply-IsValid :
      (c : BreakerConfig) (call : Call) (s : CircuitBreakerState)
      → IsUsable c
      → IsValid c s
      → IsValid c (apply c call s)
  unfolding apply
  apply-IsValid c (read_state now) s u h = ground arith
  apply-IsValid c (poll now) s u h = ground arith
  apply-IsValid c (success now) s u h = ground arith
  apply-IsValid c (failure now later) s u h = ground arith
  apply-IsValid c (maintenance now) s u h = ground arith
  apply-IsValid c recover s u h = ground arith
  apply-IsValid c (metrics now) s u h = ground arith

  -- Through every sequence of calls, at whatever times, a breaker that starts in a valid state
  -- stays in one, if its threshold and its number of probes are not 0: at most
  -- `half_open_max_probes` probes are out, fewer than that have succeeded, a closed circuit has
  -- seen fewer failures than the threshold, and outside HALF_OPEN both half-open counters are 0.
  pub apply_all-IsValid :
      (c : BreakerConfig) (calls : List Call) (s : CircuitBreakerState)
      → IsUsable c
      → IsValid c s
      → IsValid c (apply_all c calls s)
  unfolding apply_all
  apply_all-IsValid c [] s u h = h
  apply_all-IsValid c (call ∷ calls) s u h =
      apply_all-IsValid c calls (apply c call s) u (apply-IsValid c call s u h)
