-- ===== src/Breaker.antt =====
-- interceptor/circuit_breaker.py: the state and the mutators of `CircuitBreaker`. Each reading of
-- `time.time()` is an argument. The proofs are in the modules below.
pub mod Invariant
pub mod Cycle
pub mod Probes
pub mod Store
mod Tests
use ai_compute_intelligence.Prelude.{
  ℕ, ◌+◌, Bool, true, false, ltb, leb, if◌then◌else◌, ◌&&◌, List, [], ◌∷◌, String,
}
use ai_compute_intelligence.Floats.{Floats, Float, fsub, fle, lit}

pub data CircuitState : Type 0 where
  closed opened half_open : CircuitState

abbrev pub is_opened : CircuitState → Bool
is_opened opened = true
is_opened _ = false

abbrev pub is_half_open : CircuitState → Bool
is_half_open half_open = true
is_half_open _ = false

-- the values of `CircuitState`
abbrev pub state_value : CircuitState → String
state_value closed = "closed"
state_value opened = "open"
state_value half_open = "half_open"

module _ ⦃F : Floats⦄ where
  pub record CircuitBreakerState : Type 0 where
    pub state : CircuitState
    pub failure_count : ℕ
    pub last_failure_time_epoch_s : Float
    pub half_open_success_count : ℕ
    pub half_open_probe_count : ℕ
    pub total_opens : ℕ
    pub total_fail_opens : ℕ

  -- the constructor's arguments
  pub record BreakerConfig : Type 0 where
    pub failure_threshold : ℕ
    pub reset_timeout_s : Float
    pub half_open_max_probes : ℕ

  abbrev pub initial : CircuitBreakerState
  initial = record {
    state = closed;
    failure_count = 0;
    last_failure_time_epoch_s = lit 0 1;
    half_open_success_count = 0;
    half_open_probe_count = 0;
    total_opens = 0;
    total_fail_opens = 0;
  }

  abbrev pub timed_out : BreakerConfig → Float → CircuitBreakerState → Bool
  timed_out c now s = fle c.reset_timeout_s (fsub now s.last_failure_time_epoch_s)

  unfoldable pub transition_if_reset_timeout_elapsed :
      BreakerConfig → Float → CircuitBreakerState → CircuitBreakerState
  transition_if_reset_timeout_elapsed c now s =
      if is_opened s.state && timed_out c now s
      then record s { state = half_open; half_open_success_count = 0; half_open_probe_count = 0 }
      else s

  -- `is_open`, behind the transition
  admit : BreakerConfig → CircuitBreakerState → CircuitBreakerState × Bool
  admit c s =
      if is_opened s.state
      then (record s { total_fail_opens = s.total_fail_opens + 1 }, true)
      else if is_half_open s.state
      then if ltb s.half_open_probe_count c.half_open_max_probes
        then (record s { half_open_probe_count = s.half_open_probe_count + 1 }, false)
        else (record s { total_fail_opens = s.total_fail_opens + 1 }, true)
      else (s, false)

  unfoldable pub is_open : BreakerConfig → Float → CircuitBreakerState → CircuitBreakerState × Bool
  unfolding admit transition_if_reset_timeout_elapsed
  is_open c now s = admit c (transition_if_reset_timeout_elapsed c now s)

  -- the property `state`
  unfoldable pub current_state :
      BreakerConfig → Float → CircuitBreakerState → CircuitBreakerState × CircuitState
  unfolding transition_if_reset_timeout_elapsed
  current_state c now s = let t = transition_if_reset_timeout_elapsed c now s in (t, t.state)

  succeed : BreakerConfig → CircuitBreakerState → CircuitBreakerState
  succeed c s =
      if is_half_open s.state
      then if leb c.half_open_max_probes (s.half_open_success_count + 1)
        then record s {
          state = closed;
          failure_count = 0;
          half_open_success_count = 0;
          half_open_probe_count = 0;
        }
        else record s { half_open_success_count = s.half_open_success_count + 1 }
      else record s { failure_count = 0; state = closed }

  unfoldable pub record_success : BreakerConfig → Float → CircuitBreakerState → CircuitBreakerState
  unfolding succeed transition_if_reset_timeout_elapsed
  record_success c now s = succeed c (transition_if_reset_timeout_elapsed c now s)

  fail : BreakerConfig → Float → CircuitBreakerState → CircuitBreakerState
  fail c now s =
      if is_half_open s.state
      then record s {
        state = opened;
        half_open_success_count = 0;
        half_open_probe_count = 0;
        failure_count = c.failure_threshold;
        last_failure_time_epoch_s = now;
        total_opens = s.total_opens + 1;
      }
      else if leb c.failure_threshold (s.failure_count + 1)
      then record s {
        failure_count = s.failure_count + 1;
        last_failure_time_epoch_s = now;
        state = opened;
        half_open_success_count = 0;
        half_open_probe_count = 0;
        total_opens = s.total_opens + 1;
      }
      else record s { failure_count = s.failure_count + 1; last_failure_time_epoch_s = now }

  -- `now` is the reading of the transition, `later` that of the failure
  unfoldable pub record_failure :
      BreakerConfig → Float → Float → CircuitBreakerState → CircuitBreakerState
  unfolding fail transition_if_reset_timeout_elapsed
  record_failure c now later s = fail c later (transition_if_reset_timeout_elapsed c now s)

  unfoldable pub force_open : Float → CircuitBreakerState → CircuitBreakerState
  force_open now s = record s {
    state = opened;
    last_failure_time_epoch_s = now;
    half_open_success_count = 0;
    half_open_probe_count = 0;
    total_opens = s.total_opens + 1;
  }

  unfoldable pub force_close : CircuitBreakerState → CircuitBreakerState
  force_close s = record s {
    state = closed;
    failure_count = 0;
    half_open_success_count = 0;
    half_open_probe_count = 0;
  }

  pub record BreakerMetrics : Type 0 where
    pub state : CircuitState
    pub failure_count : ℕ
    pub failure_threshold : ℕ
    pub half_open_probe_count : ℕ
    pub total_opens : ℕ
    pub total_fail_opens : ℕ

  unfoldable pub get_metrics :
      BreakerConfig → Float → CircuitBreakerState → CircuitBreakerState × BreakerMetrics
  unfolding transition_if_reset_timeout_elapsed
  get_metrics c now s =
      let t = transition_if_reset_timeout_elapsed c now s in
      (
        t,
        record {
          state = t.state;
          failure_count = t.failure_count;
          failure_threshold = c.failure_threshold;
          half_open_probe_count = t.half_open_probe_count;
          total_opens = t.total_opens;
          total_fail_opens = t.total_fail_opens;
        },
      )
