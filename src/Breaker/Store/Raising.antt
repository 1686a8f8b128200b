-- ===== src/Breaker/Store/Raising.antt =====
-- interceptor/circuit_breaker.py: which calls of the breaker raise: `_safe_mutate` lets through what
-- the parsing of a stored text raises.
use ai_compute_intelligence.Prelude.{◌≡◌, refl, arith, String, Option, is_some}
use ai_compute_intelligence.Floats.{Floats}
use ai_compute_intelligence.Breaker.{CircuitBreakerState}
use ai_compute_intelligence.Breaker.Store.{
  Mutator, Codec, Exchange, executes, unreachable, overwritten, CircuitBreaker, StateStore,
  local_store, redis_store, redis_mutate, mutate, safe_mutate,
}

module _ ⦃F : Floats⦄ where
  module _ {ℓ κ} {A : Type ℓ} {B : Type κ} (j : Codec) (m : Mutator A) (n : Mutator B)
      (fallback : CircuitBreakerState) where
    abbrev from_redis : Option String → CircuitBreaker
    from_redis raw = record { state_store = redis_store raw; fallback_state = fallback }

    redis_same :
        (e : Exchange) (raw : Option String)
        → is_some (safe_mutate j m e (from_redis raw)).1
          ≡ is_some (safe_mutate j n e (from_redis raw)).1
    unfolding safe_mutate redis_mutate mutate
    redis_same unreachable raw = refl
    redis_same executes raw = ground arith
    redis_same (overwritten raw' e) raw = ground (arith, redis_same e raw')

    from_store :
        (e : Exchange) (store : StateStore)
        → is_some (safe_mutate j m e (record { state_store = store; fallback_state = fallback })).1
          ≡ is_some
              (safe_mutate j n e (record { state_store = store; fallback_state = fallback })).1
    unfolding safe_mutate mutate
    from_store e (local_store s) = refl
    from_store e (redis_store raw) = redis_same e raw

  -- Whether a call of the breaker raises does not depend on what the call does to the state.
  pub is_some-safe_mutate {ℓ κ} :
      {A : Type ℓ} {B : Type κ} (j : Codec) (m : Mutator A) (n : Mutator B) (e : Exchange)
      (b : CircuitBreaker)
      → is_some (safe_mutate j m e b).1 ≡ is_some (safe_mutate j n e b).1
  unfolding safe_mutate mutate
  is_some-safe_mutate j m n e b = from_store j m n b.fallback_state e b.state_store
