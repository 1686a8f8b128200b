-- ===== src/Index/Materializer.antt =====
-- index/materializer.py: `IndexMaterializer`. The clock is an argument; the text of the time
-- bucket is computed from it by `strftime`, which is a parameter.
use ai_compute_intelligence.Prelude.{
  ℕ, ◌+◌, Bool, if◌then◌else◌, List, [], ◌∷◌, String, Option, none, some, is_some, ◌&&◌,
}
use ai_compute_intelligence.Floats.{Floats, Float, fle, lit}
use ai_compute_intelligence.Index.{AttributionIndexEntry, AttributionResult, ExplanationArtifact}
use ai_compute_intelligence.Index.Store.{Redis, Tiers, materialize, clear}

module _ ⦃F : Floats⦄ where
  -- `config.confidence`
  pub record ConfidenceConfig : Type 0 where
    pub chargeback_threshold : Float
    pub provisional_threshold : Float

  unfoldable pub confidence_tier : ConfidenceConfig → Float → String
  confidence_tier config conf =
      if fle config.chargeback_threshold conf
      then "chargeback_ready"
      else if fle config.provisional_threshold conf
      then "provisional"
      else "estimated"

  -- The `policies` dictionary; the outer `none` is an absent key.
  pub record PolicyContext : Type 0 where
    pub model_allowlist : Option (List String)
    pub budget_remaining_usd : Option (Option Float)
    pub budget_limit_usd : Option (Option Float)
    pub token_budget_output : Option (Option ℕ)
    pub token_budget_input : Option (Option ℕ)
    pub cost_ceiling_per_request_usd : Option (Option Float)
    pub equivalence_class_id : Option (Option String)
    pub approved_alternatives : Option (List String)

  abbrev pub update {ℓ} : {A : Type ℓ} → Option A → A → A
  update none a = a
  update (some b) a = b

  unfoldable pub apply_policy_context :
      AttributionIndexEntry → PolicyContext → AttributionIndexEntry
  apply_policy_context e p = record e {
    model_allowlist = update p.model_allowlist e.model_allowlist;
    budget_remaining_usd = update p.budget_remaining_usd e.budget_remaining_usd;
    budget_limit_usd = update p.budget_limit_usd e.budget_limit_usd;
    token_budget_output = update p.token_budget_output e.token_budget_output;
    token_budget_input = update p.token_budget_input e.token_budget_input;
    cost_ceiling_per_request_usd =
        update p.cost_ceiling_per_request_usd e.cost_ceiling_per_request_usd;
    equivalence_class_id = update p.equivalence_class_id e.equivalence_class_id;
    approved_alternatives = elim p.equivalence_class_id [
      | none ↦ e.approved_alternatives
      | some _ ↦ update p.approved_alternatives []
    ];
  }

  -- the bounds of the field `confidence`
  abbrev pub in_unit_range : Float → Bool
  in_unit_range x = fle (lit 0 1) x && fle x (lit 1 1)

  unfoldable pub target_entity : Option ExplanationArtifact → String
  target_entity none = ""
  target_entity (some x) = x.target_entity

  method_used : Option ExplanationArtifact → String
  method_used none = "unknown"
  method_used (some x) = x.method_used

  with_policies : Option PolicyContext → AttributionIndexEntry → AttributionIndexEntry
  unfolding apply_policy_context
  with_policies none e = e
  with_policies (some p) e = apply_policy_context e p

  module _ (config : ConfidenceConfig) (compute_time_bucket : ℕ → String) where
    -- The entry of `materialize_attribution`, before the store stamps it.
    unfoldable pub entry_of : ℕ → AttributionResult → Option PolicyContext → AttributionIndexEntry
    unfolding with_policies target_entity method_used
    entry_of now result policies = with_policies policies (record {
      workload_id = result.workload_id;
      team_id = target_entity result.explanation;
      team_name = target_entity result.explanation;
      cost_center_id = "";
      cost_center_name = "";
      person_id = "";
      person_name = "";
      repository = "";
      service_name = "";
      confidence = result.combined_confidence;
      confidence_tier = confidence_tier config result.combined_confidence;
      method_used = method_used result.explanation;
      budget_remaining_usd = none;
      budget_limit_usd = none;
      model_allowlist = [];
      cost_ceiling_per_request_usd = none;
      token_budget_output = none;
      token_budget_input = none;
      equivalence_class_id = none;
      approved_alternatives = [];
      carbon_methodology_layer = 2;
      grid_region = "";
      version = 1;
      materialized_at = now;
      source_event_ids = [];
      time_bucket = compute_time_bucket now;
    })

    module _ ⦃R : Redis⦄ where
      -- `none` is the `ValidationError` of an entry whose confidence is not in [0, 1].
      unfoldable pub materialize_attribution :
          ℕ
          → AttributionResult
          → Option PolicyContext
          → Tiers
          → Tiers × Option AttributionIndexEntry
      materialize_attribution now result policies t =
          let e = entry_of now result policies in
          if in_unit_range result.combined_confidence
          then (materialize now e t, some e)
          else (t, none)

      -- The loop of `full_rebuild`; each result comes with the clock when it is reached. `none` is
      -- an exception, which leaves what has been written.
      unfoldable pub rebuild_from : List (ℕ × AttributionResult) → Tiers → ℕ → Tiers × Option ℕ
      rebuild_from [] t count = (t, some count)
      rebuild_from ((now, r) ∷ results) t count =
          let (t', made) = materialize_attribution now r none t in
          let rest = rebuild_from results t' (count + 1) in
          if is_some made then rest else (t', none)

      unfoldable pub full_rebuild : List (ℕ × AttributionResult) → Tiers → Tiers × Option ℕ
      unfolding rebuild_from
      full_rebuild results t = rebuild_from results (clear t) 0
