-- ===== src/Breaker/Store/Fallback.antt =====
-- interceptor/circuit_breaker.py: a call of the breaker answers whatever Redis does, and the
-- watched transaction applies a mutator to the value that it replaces.
use ai_compute_intelligence.Prelude.{◌≡◌, refl, arith, String, Option, none, some}
use ai_compute_intelligence.Floats.{Floats}
use ai_compute_intelligence.Breaker.{CircuitBreakerState}
use ai_compute_intelligence.Breaker.Store.{
  Mutator, Codec, Exchange, executes, unreachable, overwritten, done, redis_error, redis_store,
  parse_state, redis_mutate, safe_mutate,
}

module _ ⦃F : Floats⦄ where
  -- Every value that the loop reads parses.
  abbrev pub Readable : Codec → Exchange → Option String → Type 0
  Readable j executes raw = (s : CircuitBreakerState) × (parse_state j raw ≡ some s)
  Readable j unreachable raw = Unit
  Readable j (overwritten raw' e) raw =
      ((s : CircuitBreakerState) × (parse_state j raw ≡ some s)) × Readable j e raw'

  -- The value of the key when EXEC goes through; `none` if it never does.
  abbrev pub committed_over : Exchange → Option String → Option (Option String)
  committed_over executes raw = some raw
  committed_over unreachable raw = none
  committed_over (overwritten raw' e) raw = committed_over e raw'

  module _ {ℓ} {A : Type ℓ} (j : Codec) (m : Mutator A) where
    redis_mutate-commits :
        (e : Exchange) (raw : Option String) {last : Option String} (s : CircuitBreakerState)
        → Readable j e raw
        → committed_over e raw ≡ some last
        → parse_state j last ≡ some s
        → redis_mutate j m e raw ≡ (some (j.dumps (m s).0), done (m s).0 (m s).1)
    unfolding redis_mutate
    redis_mutate-commits executes raw s r k p = ground arith
    redis_mutate-commits unreachable raw s r k p = cc
    redis_mutate-commits (overwritten raw' e) raw s r k p =
        ground (arith, redis_mutate-commits e raw' s r.1 k p)

    redis_mutate-unreachable :
        (e : Exchange) (raw : Option String)
        → Readable j e raw
        → committed_over e raw ≡ none
        → (redis_mutate j m e raw).1 ≡ redis_error
    unfolding redis_mutate
    redis_mutate-unreachable executes raw r k = cc
    redis_mutate-unreachable unreachable raw r k = refl
    redis_mutate-unreachable (overwritten raw' e) raw r k =
        ground (arith, redis_mutate-unreachable e raw' r.1 k)

    -- No update is lost: however often other clients write the key between WATCH and EXEC, a
    -- transaction that goes through applies the mutator to the value that the key holds at that
    -- moment, writes the result, keeps it as the fallback state and returns the mutator's answer.
    pub safe_mutate-commits :
        (e : Exchange) (raw : Option String) (fallback : CircuitBreakerState) {last : Option String}
        (s : CircuitBreakerState)
        → Readable j e raw
        → committed_over e raw ≡ some last
        → parse_state j last ≡ some s
        → safe_mutate j m e (record { state_store = redis_store raw; fallback_state = fallback })
          ≡ (
            record { state_store = redis_store (some (j.dumps (m s).0)); fallback_state = (m s).0 },
            some (m s).1,
          )
    unfolding safe_mutate
    safe_mutate-commits e raw fallback s r k p = ground (arith, redis_mutate-commits e raw s r k p)

    -- When Redis cannot be reached, the mutator runs on the fallback state, and its answer is
    -- returned: nothing is raised.
    pub safe_mutate-degrades :
        (e : Exchange) (raw : Option String) (fallback : CircuitBreakerState)
        → Readable j e raw
        → committed_over e raw ≡ none
        → ((safe_mutate j m e
              (record { state_store = redis_store raw; fallback_state = fallback })).1
            ≡ some (m fallback).1)
          × ((safe_mutate j m e (record {
            state_store = redis_store raw;
            fallback_state = fallback;
          })).0.fallback_state
              ≡ (m fallback).0)
    unfolding safe_mutate
    safe_mutate-degrades e raw fallback r k = ground (arith, redis_mutate-unreachable e raw r k)
