-- ===== src/Breaker/Tests.antt =====
-- Runs of the circuit breaker, and its theorems at concrete inputs.
use ai_compute_intelligence.Prelude.{
  suc, ℕ, ◌+◌, ◌≡◌, refl, arith, List, [], ◌∷◌, false, length, none, some, ltb, if◌then◌else◌, ◌==◌,
  str_eq,
}
use ai_compute_intelligence.Floats.{Float, micro, lit}
use ai_compute_intelligence.Breaker.{
  CircuitBreakerState, BreakerConfig, closed, opened, half_open, initial, is_open, record_success,
  record_failure,
}
use ai_compute_intelligence.Breaker.Invariant.{
  poll, success, failure, recover, maintenance, apply_all, IsValid, initial-IsValid,
  apply_all-IsValid, Call,
}
use ai_compute_intelligence.Breaker.Cycle.{failures, successes, failures-trip, successes-recover}
use ai_compute_intelligence.Breaker.Store.{
  Mutator, Codec, executes, overwritten, redis_store, safe_mutate, parse_state,
}
use ai_compute_intelligence.Breaker.Store.Fallback.{safe_mutate-commits}

abbrev at : ℕ → Float
at n = lit n 1

abbrev config : BreakerConfig
config = record { failure_threshold = 2; reset_timeout_s = at 30; half_open_max_probes = 2 }

abbrev tripped : CircuitBreakerState
tripped = record initial {
  state = opened;
  failure_count = 2;
  last_failure_time_epoch_s = at 100;
  total_opens = 1;
}

abbrev probing : CircuitBreakerState
probing = record tripped { state = half_open }

abbrev exhausted : CircuitBreakerState
exhausted = record probing { half_open_probe_count = 2 }

two_failures : failures config ((at 99, at 99) ∷ (at 100, at 100) ∷ []) initial ≡ tripped
unfolding failures record_failure
two_failures = refl

poll_after_timeout :
    is_open config (at 131) tripped ≡ (record probing { half_open_probe_count = 1 }, false)
unfolding is_open
poll_after_timeout = refl

-- A success recorded while the circuit is open closes it before the timeout has passed.
late_success : (record_success config (at 101) tripped).state ≡ closed
unfolding record_success
late_success = refl

abbrev day : List Call
day =
    failure (at 1) (at 1)
    ∷ failure (at 2) (at 2)
    ∷ poll (at 40)
    ∷ success (at 41)
    ∷ maintenance (at 50)
    ∷ recover
    ∷ []

apply_all-IsValid_example : IsValid config (apply_all config day initial)
apply_all-IsValid_example =
    apply_all-IsValid config day initial
      (record { some_failures = omega arith; some_probes = omega arith })
      (initial-IsValid config (record { some_failures = omega arith; some_probes = omega arith }))

abbrev outage : List (Float × Float)
outage = (at 1, at 1) ∷ (at 2, at 2) ∷ (at 50, at 50) ∷ []

failures-trip_example :
    (failures config outage initial).state ≡ (if ltb (0 + length outage) 2 then closed else opened)
failures-trip_example = failures-trip config outage initial refl (omega arith)

successes-recover_example :
    (successes config (at 131 ∷ at 132 ∷ []) tripped).state
    ≡ (if suc (length (at 132 ∷ [])) == 2 then closed else half_open)
successes-recover_example =
    successes-recover config (at 131) (at 132 ∷ []) tripped refl refl (omega arith)

-- a codec that knows two states
abbrev json : Codec
json = record {
  dumps = λ s. if s.total_opens == 0 then "fresh" else "tripped";
  loads = λ raw.
      if str_eq raw "fresh"
      then some initial
      else if str_eq raw "tripped"
      then some tripped
      else none;
}

abbrev count_open : Mutator ℕ
count_open s = (record s { total_opens = s.total_opens + 1 }, s.total_opens)

safe_mutate-commits_example :
    safe_mutate json count_open
      (overwritten (some "tripped") executes)
      (record { state_store = redis_store (some "fresh"); fallback_state = initial })
    ≡ (
      record {
        state_store = redis_store (some "tripped");
        fallback_state = record tripped { total_opens = 2 };
      },
      some 1,
    )
unfolding parse_state
safe_mutate-commits_example =
    safe_mutate-commits json count_open (overwritten (some "tripped") executes) (some "fresh")
      initial tripped ((initial, refl), (tripped, refl)) refl refl
