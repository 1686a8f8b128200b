-- ===== src/Breaker/Probes.antt =====
-- The half-open probes (interceptor/circuit_breaker.py, `is_open`): how many requests are let
-- through, and what happens when none of them reports back.
use ai_compute_intelligence.Prelude.{
  ℕ, suc, ◌+◌, ◌-◌, ◌≤◌, ◌≡◌, arith, List, [], ◌∷◌, true, false, Bool, length, ltb, if◌then◌else◌,
}
use Prim.Native.Nat.{min}
use ai_compute_intelligence.Floats.{Floats, Float}
use ai_compute_intelligence.Breaker.{CircuitBreakerState, BreakerConfig, half_open, is_open}

-- how many verdicts of `is_open` let the request through
unfoldable pub admitted : List Bool → ℕ
admitted [] = 0
admitted (false ∷ verdicts) = suc (admitted verdicts)
admitted (true ∷ verdicts) = admitted verdicts

module _ ⦃F : Floats⦄ (c : BreakerConfig) where
  -- polls one after another, with no outcome recorded between them
  unfoldable pub polls : List Float → CircuitBreakerState → CircuitBreakerState × List Bool
  polls [] s = (s, [])
  polls (now ∷ rest) s =
      let (t, verdict) = is_open c now s in
      let (u, verdicts) = polls rest t in (u, verdict ∷ verdicts)

  is_open_half_open :
      (now : Float) (s : CircuitBreakerState)
      → s.state ≡ half_open
      → is_open c now s ≡ (
          if ltb s.half_open_probe_count c.half_open_max_probes
          then (record s { half_open_probe_count = s.half_open_probe_count + 1 }, false)
          else (record s { total_fail_opens = s.total_fail_opens + 1 }, true))
  unfolding is_open
  is_open_half_open now s h = ground arith

  -- From a half-open circuit any number of polls, at whatever times, lets through as many requests
  -- as there are probes left and no more, and leaves the circuit half-open.
  pub polls-half_open :
      (ts : List Float) (s : CircuitBreakerState)
      → s.state ≡ half_open
      → (admitted (polls ts s).1
          ≡ min (length ts) (c.half_open_max_probes - s.half_open_probe_count))
        × ((polls ts s).0.state ≡ half_open)
  unfolding polls admitted
  polls-half_open [] s h = (omega arith, h)
  polls-half_open (now ∷ ts) s h =
      let p = record s { half_open_probe_count = s.half_open_probe_count + 1 } in
      let t = record s { total_fail_opens = s.total_fail_opens + 1 } in
      ground (arith, is_open_half_open now s h, polls-half_open ts p, polls-half_open ts t)

  -- Once the probes of a half-open circuit are used up and none has recorded an outcome, the
  -- circuit never lets a request through again by itself: at whatever times it is polled, each
  -- verdict is to fail open, and only the counter of fail-opens changes.
  pub polls-exhausted :
      (ts : List Float) (s : CircuitBreakerState)
      → s.state ≡ half_open
      → c.half_open_max_probes ≤ s.half_open_probe_count
      → (admitted (polls ts s).1 ≡ 0)
        × ((polls ts s).0 ≡ record s { total_fail_opens = s.total_fail_opens + length ts })
  unfolding polls admitted
  polls-exhausted [] s h k = ground arith
  polls-exhausted (now ∷ ts) s h k =
      let t = record s { total_fail_opens = s.total_fail_opens + 1 } in
      ground (arith, is_open_half_open now s h, polls-exhausted ts t)
