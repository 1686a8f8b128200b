-- ===== src/Policy/Tests.antt =====
-- Runs of the policy engine, and its theorems at concrete inputs.
use ai_compute_intelligence.Prelude.{
  ℕ, ◌≡◌, refl, arith, true, false, [], ◌∷◌, none, some, mem, ltb,
}
use ai_compute_intelligence.Prelude.Dict.{insert}
use ai_compute_intelligence.Floats.{micro, lit}
use ai_compute_intelligence.Policy.{
  PolicyDefinition, Policies, Context, Parameters, model_allowlist, budget_ceiling, hard_stop,
  soft_stop, register_policy, evaluate_single, get_model_allowlist, get_budget_context,
  get_token_budgets, get_cost_ceiling, resolve, allowlist_value, budget_value, token_value,
  cost_value, policy_matches_team,
}
use ai_compute_intelligence.Policy.Scope.{precedence, getters-precedence}

abbrev no_parameters : Parameters
no_parameters = record {
  team_id = none;
  limit_usd = none;
  remaining_usd = none;
  allowed_models = none;
  max_output_tokens = none;
  max_input_tokens = none;
  max_request_cost_usd = none;
  min_confidence = none;
  cost_threshold_daily_usd = none;
}

abbrev models_of_red : PolicyDefinition
models_of_red = record {
  policy_id = "models";
  policy_type = model_allowlist;
  name = "Models";
  scope = "red";
  enforcement = hard_stop;
  parameters = record no_parameters { allowed_models = some ("small" ∷ []) };
  enabled = true;
  requires_opt_in = false;
}

abbrev budget_of_all : PolicyDefinition
budget_of_all = record models_of_red {
  policy_id = "budget";
  policy_type = budget_ceiling;
  name = "Budget";
  scope = "global";
  enforcement = soft_stop;
  parameters = record no_parameters { limit_usd = some (lit 100 1) };
}

abbrev two_policies : Policies
two_policies = ("models", models_of_red) ∷ ("budget", budget_of_all) ∷ []

abbrev big_model : Context
big_model = record {
  current_spend_usd = some (lit 150 1);
  model = some "large";
  confidence = none;
  has_cicd_linkage = none;
  daily_cost_usd = none;
}

registered : register_policy budget_of_all (register_policy models_of_red []) ≡ two_policies
unfolding register_policy insert
registered = refl

red_is_stopped : (evaluate_single models_of_red big_model).action ≡ hard_stop
unfolding evaluate_single mem
red_is_stopped = refl

blue_has_no_allowlist : get_model_allowlist two_policies "blue" ≡ []
unfolding get_model_allowlist resolve policy_matches_team
blue_has_no_allowlist = refl

getters-precedence_example :
    (get_model_allowlist two_policies "red" ≡ precedence allowlist_value "red" [] two_policies)
    × (get_budget_context two_policies "red" ≡ precedence budget_value "red" none two_policies)
    × (get_token_budgets two_policies "red" ≡ precedence token_value "red" none two_policies)
    × (get_cost_ceiling two_policies "red" ≡ precedence cost_value "red" none two_policies)
getters-precedence_example = getters-precedence two_policies "red"

ltb_trans : (x y z : ℕ) → ltb x y ≡ true → ltb y z ≡ true → ltb x z ≡ true
ltb_trans x y z h k = ground arith
