-- ===== src/Breaker/Store.antt =====
-- interceptor/circuit_breaker.py: the two state stores, and `_safe_mutate`, which falls back to a
-- local copy of the state when Redis cannot be reached. Redis and the JSON codec are not the
-- program's: an `Exchange` says what the server does during one call, and a `Codec` stands for
-- `json.dumps(asdict(state))` and `CircuitBreakerState(**json.loads(raw))`.
pub mod Fallback
pub mod Raising
use ai_compute_intelligence.Prelude.{
  ℕ, ◌≡◌, refl, arith, String, Option, none, some, Bool, str_eq, if◌then◌else◌,
}
use ai_compute_intelligence.Floats.{Floats, Float}
use ai_compute_intelligence.Breaker.{CircuitBreakerState, initial}

module _ ⦃F : Floats⦄ where
  -- a state to a state, and what the closure's `nonlocal` variables hold afterwards
  abbrev pub Mutator {ℓ} : Type ℓ → Type ℓ
  Mutator A = CircuitBreakerState → CircuitBreakerState × A

  pub record Codec : Type 0 where
    pub dumps : CircuitBreakerState → String
    -- `none` if the text is not JSON, or not of a state
    pub loads : String → Option CircuitBreakerState

  -- What Redis does during one `mutate`: EXEC succeeds, the server cannot be reached, or another
  -- client writes the key between WATCH and EXEC, and the loop goes round again.
  pub data Exchange : Type 0 where
    executes : Exchange
    unreachable : Exchange
    overwritten : Option String → Exchange → Exchange

  pub data Reply {ℓ} (A : Type ℓ) : Type ℓ where
    done : CircuitBreakerState → A → Reply A
    redis_error : Reply A
    raised : Reply A

  pub data StateStore : Type 0 where
    local_store : CircuitBreakerState → StateStore
    redis_store : Option String → StateStore

  pub record CircuitBreaker : Type 0 where
    pub state_store : StateStore
    pub fallback_state : CircuitBreakerState

  module _ (j : Codec) where
    unfoldable pub parse_state : Option String → Option CircuitBreakerState
    parse_state none = some initial
    parse_state (some raw) = if str_eq raw "" then some initial else j.loads raw

    module _ {ℓ} {A : Type ℓ} (m : Mutator A) where
      commit : CircuitBreakerState × A → Option String × Reply A
      commit (t, a) = (some (j.dumps t), done t a)

      -- `RedisCircuitStateStore.mutate`: the key's value afterwards, and the outcome
      unfoldable pub redis_mutate : Exchange → Option String → Option String × Reply A
      unfolding commit
      redis_mutate executes raw = elim (parse_state raw) [
        | none ↦ (raw, raised)
        | some s ↦ commit (m s)
      ]
      redis_mutate unreachable raw = (raw, redis_error)
      redis_mutate (overwritten raw' e) raw = elim (parse_state raw) [
        | none ↦ (raw, raised)
        | some _ ↦ redis_mutate e raw'
      ]

      keep_local : CircuitBreakerState × A → StateStore × Reply A
      keep_local (t, a) = (local_store t, done t a)

      -- `mutate` of either store
      unfoldable pub mutate : Exchange → StateStore → StateStore × Reply A
      unfolding redis_mutate keep_local
      mutate e (local_store s) = keep_local (m s)
      mutate e (redis_store raw) =
          let (raw', reply) = redis_mutate e raw in (redis_store raw', reply)

      -- the `try` of `_safe_mutate`; `none` stands for an exception that it lets through
      finish : CircuitBreakerState → StateStore × Reply A → CircuitBreaker × Option A
      finish fallback (store, done t a) =
          (record { state_store = store; fallback_state = t }, some a)
      finish fallback (store, redis_error) =
          let (t, a) = m fallback in (record { state_store = store; fallback_state = t }, some a)
      finish fallback (store, raised) =
          (record { state_store = store; fallback_state = fallback }, none)

      unfoldable pub safe_mutate : Exchange → CircuitBreaker → CircuitBreaker × Option A
      unfolding mutate finish
      safe_mutate e b = finish b.fallback_state (mutate e b.state_store)
