-- ===== src/Hre.antt =====
-- hre/methods.py and hre/engine.py: the heuristic reconciliation engine. Times are numbers of
-- microseconds in UTC, which is what `_to_utc` makes of them.
pub mod Methods
pub mod Engine
pub mod Cache
pub mod Priority
pub mod Provenance
mod Tests
use ai_compute_intelligence.Prelude.{ℕ, Bool, List, String, Option}
use ai_compute_intelligence.Prelude.Dict.{Dict}
use ai_compute_intelligence.Floats.{Floats, Float}
use ai_compute_intelligence.Index.{FeatureValue}

module _ ⦃F : Floats⦄ where
  -- What the methods take from Python and its library.
  pub record Python : Type 0 where
    pub lower : String → String
    pub strip : String → String
    -- `s.split()`
    pub split : String → List String
    -- `re.sub(r"[^a-z0-9]", " ", s)`
    pub sub : String → String
    -- `a in b`
    pub contains : String → String → Bool
    -- `SequenceMatcher(None, a, b).ratio()`
    pub ratio : String → String → Float
    -- `str(n)` of an integer
    pub str : ℕ → String
    -- `round(x, 3)`
    pub round3 : Float → Float
    -- `sum` of floats
    pub sum : List Float → Float
    -- the order in which the loop over a set with these elements meets them
    pub set_order : List String → List String

  pub record ReconciliationSignal : Type 0 where
    pub method : String
    pub source_entity : String
    pub target_entity : String
    pub confidence : Float
    pub signals : List String
    pub feature_values : Dict FeatureValue

  pub record HreExecutionConfig : Type 0 where
    pub max_resolve_ms : Float
    pub max_cluster_targets : ℕ
    pub max_historical_signals : ℕ
    pub cache_ttl_seconds : Float
    pub cache_max_entries : ℕ

  pub record ReconciliationContext : Type 0 where
    pub tenant_id : String
    pub identity_mappings : Dict String
    pub temporal_events : List (ℕ × String × String)
    pub naming_patterns : Dict (List String)
    pub historical_attributions : List (String × Float)
    pub deployment_owners : List (String × ℕ)
    pub code_owners : List String
    pub recent_users : List (String × ℕ)
    pub proportional_users : Dict Float
