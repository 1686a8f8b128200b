-- ===== src/Gateway/Policies.antt =====
-- interceptor/gateway.py, `_evaluate_policies`: the threshold checks of the hot path.
use ai_compute_intelligence.Prelude.{
  ℕ, ltb, Bool, true, false, not, ◌&&◌, if◌then◌else◌, List, [], ◌∷◌, ◌++◌, String, mem, concat,
  is_nonempty_list, Option, none, some,
}
use ai_compute_intelligence.Floats.{Floats, Float, lit, flt, show, fdiv, fsub}
use ai_compute_intelligence.Index.{AttributionIndexEntry}
use ai_compute_intelligence.Policy.{PolicyEvaluationResult, soft_stop}
use ai_compute_intelligence.Gateway.{PyText, InterceptionRequest}

-- Each result of the hot path asks for a soft stop and is a violation.
abbrev pub violation : String → String → String → PolicyEvaluationResult
violation id name details = record {
  policy_id = id;
  policy_name = name;
  action = soft_stop;
  violated = true;
  details = details;
}

abbrev pub append_if : Bool → PolicyEvaluationResult → List PolicyEvaluationResult
append_if test v = if test then v ∷ [] else []

module _ ⦃T : PyText⦄ ⦃F : Floats⦄ where
  unfoldable pub outside_allowlist : InterceptionRequest → AttributionIndexEntry → Bool
  outside_allowlist request a =
      is_nonempty_list a.model_allowlist && not (mem request.model a.model_allowlist)

  utilization : Float → Float → Float
  utilization remaining limit = fsub (lit 1 1) (fdiv remaining limit)

  unfoldable pub check_budget_ceiling : AttributionIndexEntry → List PolicyEvaluationResult
  unfolding utilization
  check_budget_ceiling a = elim a.budget_remaining_usd [
    | none ↦ []
    | some remaining ↦ elim a.budget_limit_usd [
      | none ↦ []
      | some limit ↦
          append_if (flt (lit 0 1) limit && flt (lit 9 10) (utilization remaining limit)) (
            violation "budget_ceiling" "Budget Ceiling"
              (concat ("Budget " ∷ show ".0%" (utilization remaining limit) ∷ " utilized" ∷ [])))
    ]
  ]

  -- a budget of 0 tokens counts as none
  abbrev over_budget : Option ℕ → ℕ → Bool
  over_budget none tokens = false
  over_budget (some budget) tokens = ltb 0 budget && ltb budget tokens

  abbrev amount : Option ℕ → String
  amount none = "None"
  amount (some n) = T.decimal n

  unfoldable pub check_token_budget :
      InterceptionRequest → AttributionIndexEntry → List PolicyEvaluationResult
  check_token_budget request a =
      append_if (over_budget a.token_budget_output request.metadata.max_tokens) (
        violation "token_budget" "Token Budget Per Request"
          (concat ("Requested tokens exceed budget of " ∷ amount a.token_budget_output ∷ [])))

  unfoldable pub check_token_budget_input :
      InterceptionRequest → AttributionIndexEntry → List PolicyEvaluationResult
  check_token_budget_input request a =
      append_if (over_budget a.token_budget_input request.input_tokens) (
        violation "token_budget_input" "Token Size Limit" (
          concat (
            "Input tokens "
            ∷ T.decimal request.input_tokens
            ∷ " exceed budget "
            ∷ amount a.token_budget_input
            ∷ [])))

  unfoldable pub check_cost_ceiling :
      InterceptionRequest → AttributionIndexEntry → List PolicyEvaluationResult
  check_cost_ceiling request a = elim a.cost_ceiling_per_request_usd [
    | none ↦ []
    | some ceiling ↦ append_if (flt ceiling request.estimated_cost_usd) (
        violation "cost_ceiling" "High-Cost Model Approval Gate" (
          concat (
            "Estimated request cost "
            ∷ show ".6f" request.estimated_cost_usd
            ∷ " exceeds cap "
            ∷ show ".6f" ceiling
            ∷ [])))
  ]

  unfoldable pub evaluate_policies :
      InterceptionRequest → AttributionIndexEntry → List PolicyEvaluationResult
  evaluate_policies request a =
      append_if (outside_allowlist request a) (
        violation "model_allowlist" "Production Model Allowlist"
          (concat ("Model '" ∷ request.model ∷ "' not in allowlist" ∷ [])))
      ++ (check_budget_ceiling a
          ++ (check_token_budget request a
              ++ (check_token_budget_input request a ++ check_cost_ceiling request a)))
