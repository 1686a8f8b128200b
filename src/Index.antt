-- ===== src/Index.antt =====
-- index/materializer.py with the models of models/attribution.py: `AttributionIndexStore`, an LRU
-- index with a durable copy in Redis, and `IndexMaterializer`. The proofs are in the modules below.
pub mod Store
pub mod Materializer
pub mod Lru
pub mod Coherence
pub mod Trace
pub mod Durable
pub mod Rebuild
mod Tests
use ai_compute_intelligence.Prelude.{
  ℕ, zero, suc, ◌+◌, ◌-◌, ◌*◌, ◌/◌, Bool, true, false, ltb, if◌then◌else◌, List, [], ◌∷◌, ◌++◌,
  String, Option, none, some, is_some, length, drop, concat,
}
use ai_compute_intelligence.Prelude.Dict
use ai_compute_intelligence.Prelude.Dict.{Dict}
use ai_compute_intelligence.Floats.{Floats, Float, lit, fle}

module _ ⦃F : Floats⦄ where
  -- What the index carries of `AttributionIndexEntry`, the stamp `materialized_at` included, as a
  -- number of the clock.
  pub record AttributionIndexEntry : Type 0 where
    pub workload_id : String
    pub team_id : String
    pub team_name : String
    pub cost_center_id : String
    pub cost_center_name : String
    pub person_id : String
    pub person_name : String
    pub repository : String
    pub service_name : String
    pub confidence : Float
    pub confidence_tier : String
    pub method_used : String
    pub budget_remaining_usd : Option Float
    pub budget_limit_usd : Option Float
    pub model_allowlist : List String
    pub cost_ceiling_per_request_usd : Option Float
    pub token_budget_output : Option ℕ
    pub token_budget_input : Option ℕ
    pub equivalence_class_id : Option String
    pub approved_alternatives : List String
    pub carbon_methodology_layer : ℕ
    pub grid_region : String
    pub version : ℕ
    pub materialized_at : ℕ
    pub source_event_ids : List String
    pub time_bucket : String

  pub record AttributionPathNode : Type 0 where
    pub layer : String
    pub node_id : String
    pub node_label : String
    pub confidence : Float
    pub method : String
    pub source : String

  pub record FractionalAttribution : Type 0 where
    pub team_id : String
    pub team_name : String
    pub cost_center_id : String
    pub weight : Float
    pub confidence : Float

  -- the values of the features of a signal
  pub data FeatureValue : Type 0 where
    text : String → FeatureValue
    number : Float → FeatureValue
    count : ℕ → FeatureValue
    flag : Bool → FeatureValue

  -- an element of `top_contributing_signals`
  pub record ContributingSignal : Type 0 where
    pub method : String
    pub confidence : Float
    pub signals : List String

  -- an element of `alternatives_considered`
  pub record Alternative : Type 0 where
    pub team_id : String
    pub confidence : Float
    pub methods : List String

  -- without the default stamp `generated_at` and the field `conflict_state`, which nothing sets
  pub record ExplanationArtifact : Type 0 where
    pub attribution_id : String
    pub target_entity : String
    pub confidence_score : Float
    pub method_used : String
    pub top_contributing_signals : List ContributingSignal
    pub feature_values : Dict (Dict FeatureValue)
    pub alternatives_considered : List Alternative

  pub record AttributionResult : Type 0 where
    pub workload_id : String
    pub attribution_path : List AttributionPathNode
    pub combined_confidence : Float
    pub explanation : Option ExplanationArtifact
    pub fractional_attributions : List FractionalAttribution
    pub conflicts : List String

  pub record AttributionIndexStore : Type 0 where
    pub index : Dict AttributionIndexEntry
    pub versions : Dict ℕ
    pub max_entries : ℕ
    pub hit_count : ℕ
    pub miss_count : ℕ
    pub materialization_count : ℕ
    pub eviction_count : ℕ
    pub durable_hits : ℕ
    pub durable_misses : ℕ
    pub durable_writes : ℕ
    pub durable_errors : ℕ

  unfoldable pub new_store : ℕ → AttributionIndexStore
  new_store max_entries = record {
    index = [];
    versions = [];
    max_entries = max_entries;
    hit_count = 0;
    miss_count = 0;
    materialization_count = 0;
    eviction_count = 0;
    durable_hits = 0;
    durable_misses = 0;
    durable_writes = 0;
    durable_errors = 0;
  }

  -- `OrderedDict.move_to_end`
  move_to_end :
      String → AttributionIndexEntry → Dict AttributionIndexEntry → Dict AttributionIndexEntry
  move_to_end k e index = Dict.remove k index ++ (k, e) ∷ []

  -- `popitem(last=False)`, and what the loop of `_insert_local_locked` does with it
  pop_first : Dict AttributionIndexEntry → AttributionIndexStore → AttributionIndexStore
  pop_first [] s = s
  pop_first ((k, _) ∷ rest) s = record s {
    index = rest;
    versions = Dict.remove k s.versions;
    eviction_count = s.eviction_count + 1;
  }

  unfoldable pub popitem : AttributionIndexStore → AttributionIndexStore
  unfolding pop_first
  popitem s = pop_first s.index s

  -- The `while` loop of `_insert_local_locked`. Each round takes one entry out, so as many rounds
  -- as there are entries over the limit are enough.
  unfoldable pub shrink : ℕ → AttributionIndexStore → AttributionIndexStore
  shrink zero s = s
  shrink (suc rounds) s =
      let shrunk = shrink rounds (popitem s) in
      if ltb s.max_entries (length s.index) then shrunk else s

  unfoldable pub insert_local :
      AttributionIndexEntry → AttributionIndexStore → AttributionIndexStore
  unfolding move_to_end
  insert_local e s =
      let t = record s {
        index = move_to_end e.workload_id e s.index;
        versions = Dict.insert e.workload_id e.version s.versions;
      } in
      shrink (length t.index - t.max_entries) t
