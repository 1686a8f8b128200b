-- ===== src/Pricing/Tests.antt =====
-- Runs of the pricing catalog, and its theorem at concrete inputs.
use ai_compute_intelligence.Prelude.{ℕ, ◌+◌, ◌≡◌, refl, List, [], ◌∷◌, none, some, arith}
use ai_compute_intelligence.Floats.{micro, lit}
use ai_compute_intelligence.Finops.{Trim}
use ai_compute_intelligence.Pricing.{
  PricingRule, negative_tokens, pos, negsuc, register_rule, resolve_rule, sort_rules, insert_rule,
  rule_before, latest, latest_of, normalized, estimate,
}
use ai_compute_intelligence.Pricing.Simulator.{
  Simulation, CostSimulationResult, simulate, price_of, candidates_of, candidate_of,
  sort_candidates, insert_candidate,
}
use ai_compute_intelligence.Pricing.Simulator.Candidates.{IsSimulated, simulate-candidates}
use ai_compute_intelligence.Pricing.Resolution.{prefer, offer, register_rule-resolve_rule}

-- texts that need no trimming
instance abbrev plain : Trim
plain = record { strip = λ s. s; lower = λ s. s }

abbrev rule : ℕ → ℕ → PricingRule
rule from price = record {
  provider = "p";
  model = "m";
  effective_from = from;
  input_usd_per_1k_tokens = price;
  output_usd_per_1k_tokens = price;
  cached_input_usd_per_1k_tokens = none;
  request_base_usd = 0;
}

register_rule-resolve_rule_example :
    resolve_rule "p" "m" 9 (register_rule (rule 5 2) (rule 3 1 ∷ []))
    ≡ prefer (resolve_rule "p" "m" 9 (rule 3 1 ∷ [])) (offer "p" "m" 9 (normalized (rule 5 2)))
register_rule-resolve_rule_example = register_rule-resolve_rule "p" "m" 9 (rule 5 2) (rule 3 1 ∷ [])

-- A corrected price with the time of the old one is never used.
keeps_the_first :
    resolve_rule "p" "m" 9 (register_rule (rule 3 2) (rule 3 1 ∷ [])) ≡ some (rule 3 1)
unfolding resolve_rule register_rule sort_rules insert_rule rule_before latest latest_of
keeps_the_first = refl

-- Token counts are looked at after the rule has been found.
refuses :
    estimate 9
      (record {
        provider = "p";
        model = "m";
        input_tokens = negsuc 0;
        output_tokens = pos 1;
        cache_read_input_tokens = pos 0;
        request_count = pos 1;
        effective_at = none;
      })
      (rule 3 1 ∷ [])
    ≡ negative_tokens
unfolding estimate resolve_rule latest_of latest
refuses = refl

abbrev cheap : PricingRule
cheap = record {
  provider = "p";
  model = "small";
  effective_from = 1;
  input_usd_per_1k_tokens = lit 1 1;
  output_usd_per_1k_tokens = lit 1 1;
  cached_input_usd_per_1k_tokens = none;
  request_base_usd = 0;
}

abbrev rules : List PricingRule
rules = rule 3 (lit 2 1) ∷ cheap ∷ []

abbrev simulation : Simulation
simulation = record {
  service_id = "svc";
  provider = "p";
  current_model = "m";
  avg_input_tokens = pos 1000;
  avg_output_tokens = pos 0;
  requests_per_day = pos 1;
  candidate_models = "small" ∷ "m" ∷ [];
}

abbrev simulated : CostSimulationResult
simulated = record {
  service_id = "svc";
  provider = "p";
  current_model = "m";
  projected_monthly_cost_usd = lit 60 1;
  candidates =
      record {
        model = "small";
        projected_monthly_cost_usd = lit 30 1;
        monthly_savings_usd = lit 30 1;
        savings_pct = lit 50 1;
      }
      ∷ [];
}

-- each estimate one tick after the other
abbrev ticking : ℕ → ℕ
ticking n = 9 + n

simulate-candidates_example : IsSimulated rules ticking simulation "small" simulated
unfolding simulate price_of candidates_of candidate_of sort_candidates insert_candidate estimate
    resolve_rule latest_of latest
simulate-candidates_example =
    simulate-candidates rules ticking (λ x y less. ground arith) simulation "small" simulated refl
