-- ===== src/Pricing/Simulator.antt =====
-- interventions/simulator.py: `CostSimulationEngine` on the pricing catalog.
pub mod Candidates
use ai_compute_intelligence.Prelude.{
  ℕ, zero, suc, ◌+◌, ◌*◌, ◌≡◌, ◌⊎◌, refl, sym, ap, ◌∙◌, arith, ltb, Bool, true, false, not,
  if◌then◌else◌, List, [], ◌∷◌, ◌++◌, String, str_eq, Option, none, some, length, keep,
  Option-cases, some-injective, subst, Bool-cases, inl, inr,
}
use ai_compute_intelligence.Prelude.Every.{Every}
use ai_compute_intelligence.Floats.{Floats, Float, lit, flt, fsub, fmul, fdiv}
use ai_compute_intelligence.Finops.{Trim}
use ai_compute_intelligence.Pricing.{
  ℤ, pos, negsuc, PricingRule, PricingUsage, CostEstimate, Estimated, estimated, bad_request_count,
  no_pricing_rule, negative_tokens, estimate, is_positive, to_nat,
}

module _ ⦃F : Floats⦄ where
  pub record CandidateSimulation : Type 0 where
    pub model : String
    pub projected_monthly_cost_usd : Float
    pub monthly_savings_usd : Float
    pub savings_pct : Float

  pub record CostSimulationResult : Type 0 where
    pub service_id : String
    pub provider : String
    pub current_model : String
    pub projected_monthly_cost_usd : Float
    pub candidates : List CandidateSimulation

  pub record Simulation : Type 0 where
    pub service_id : String
    pub provider : String
    pub current_model : String
    pub avg_input_tokens : ℤ
    pub avg_output_tokens : ℤ
    pub requests_per_day : ℤ
    pub candidate_models : List String

  unfoldable pub candidate_of : Float → String → Float → CandidateSimulation
  candidate_of baseline model cost =
      let savings = fsub baseline cost in
      record {
        model = model;
        projected_monthly_cost_usd = cost;
        monthly_savings_usd = savings;
        savings_pct =
            if flt (lit 0 1) baseline then fmul (fdiv savings baseline) (lit 100 1) else lit 0 1;
      }

  -- the stable sort by savings, highest first
  unfoldable pub insert_candidate :
      CandidateSimulation → List CandidateSimulation → List CandidateSimulation
  insert_candidate c [] = c ∷ []
  insert_candidate c (d ∷ sorted) =
      let rest = insert_candidate c sorted in
      if flt d.monthly_savings_usd c.monthly_savings_usd then c ∷ d ∷ sorted else d ∷ rest

  unfoldable pub sort_candidates :
      List CandidateSimulation → List CandidateSimulation → List CandidateSimulation
  unfolding insert_candidate
  sort_candidates sorted [] = sorted
  sort_candidates sorted (c ∷ candidates) = sort_candidates (insert_candidate c sorted) candidates

  module _ ⦃T : Trim⦄ (rules : List PricingRule) where
    -- the usage of a month
    abbrev pub usage_of : Simulation → String → PricingUsage
    usage_of s model = record {
      provider = s.provider;
      model = model;
      input_tokens = s.avg_input_tokens;
      output_tokens = s.avg_output_tokens;
      cache_read_input_tokens = pos 0;
      request_count = pos (to_nat s.requests_per_day * 30);
      effective_at = none;
    }

    -- `none` is the `ValueError` of an estimate, which reads the clock at `now`.
    unfoldable pub price_of : ℕ → Simulation → String → Option Float
    price_of now s model = elim (estimate now (usage_of s model) rules) [
      | estimated e ↦ some e.total_cost_usd
      | _ ↦ none
    ]

    -- The loop over the candidate models. Each estimate reads the clock itself: `clock n` is the
    -- reading of the estimate with the number `n` of the simulation.
    unfoldable pub candidates_of :
        (ℕ → ℕ) → ℕ → Simulation → Float → List String → Option (List CandidateSimulation)
    unfolding price_of candidate_of
    candidates_of clock n s baseline [] = some []
    candidates_of clock n s baseline (model ∷ models) =
        let skipped = candidates_of clock n s baseline models in
        let rest = candidates_of clock (n + 1) s baseline models in
        if str_eq model s.current_model then skipped else elim (price_of (clock n) s model) [
          | none ↦ none
          | some cost ↦ elim rest [
            | none ↦ none
            | some candidates ↦ some (candidate_of baseline model cost ∷ candidates)
          ]
        ]

    unfoldable pub simulate : (ℕ → ℕ) → Simulation → Option CostSimulationResult
    unfolding candidates_of price_of sort_candidates
    simulate clock s =
        if is_positive s.requests_per_day
        then elim (price_of (clock 0) s s.current_model) [
          | none ↦ none
          | some baseline ↦ elim (candidates_of clock 1 s baseline s.candidate_models) [
            | none ↦ none
            | some candidates ↦ some (record {
              service_id = s.service_id;
              provider = s.provider;
              current_model = s.current_model;
              projected_monthly_cost_usd = baseline;
              candidates = sort_candidates [] candidates;
            })
          ]
        ]
        else none
