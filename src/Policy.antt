-- ===== src/Policy.antt =====
-- policy/engine.py, with the policy models of models/carbon.py. The `parameters` and `context`
-- dictionaries are records of what the engine reads from them; `none` is an absent key. The time
-- stamp of a result, which nothing reads, is left out.
pub mod Scope
pub mod Evaluation
mod Tests
use ai_compute_intelligence.Prelude.{
  ℕ, Bool, true, false, not, ◌&&◌, ◌||◌, if◌then◌else◌, List, [], ◌∷◌, map, String, str_eq, mem,
  concat, is_nonempty, is_nonempty_list, Option, none, some, is_some,
}
use ai_compute_intelligence.Prelude.Dict
use ai_compute_intelligence.Prelude.Dict.{Dict}
use ai_compute_intelligence.Floats.{Floats, Float, lit, flt, show}

pub data PolicyType : Type 0 where
  model_allowlist budget_ceiling token_budget cost_ceiling : PolicyType
  approval_gate shadow_detection confidence_floor : PolicyType

pub data EnforcementAction : Type 0 where
  allow soft_stop hard_stop redirect : EnforcementAction

abbrev pub same_type : PolicyType → PolicyType → Bool
same_type model_allowlist model_allowlist = true
same_type budget_ceiling budget_ceiling = true
same_type token_budget token_budget = true
same_type cost_ceiling cost_ceiling = true
same_type approval_gate approval_gate = true
same_type shadow_detection shadow_detection = true
same_type confidence_floor confidence_floor = true
same_type _ _ = false

pub record PolicyEvaluationResult : Type 0 where
  pub policy_id : String
  pub policy_name : String
  pub action : EnforcementAction
  pub violated : Bool
  pub details : String

abbrev pub default {ℓ} : {A : Type ℓ} → A → Option A → A
default d none = d
default d (some a) = a

module _ ⦃F : Floats⦄ where
  pub record Parameters : Type 0 where
    pub team_id : Option String
    pub limit_usd : Option Float
    pub remaining_usd : Option Float
    pub allowed_models : Option (List String)
    pub max_output_tokens : Option ℕ
    pub max_input_tokens : Option ℕ
    pub max_request_cost_usd : Option Float
    pub min_confidence : Option Float
    pub cost_threshold_daily_usd : Option Float

  pub record PolicyDefinition : Type 0 where
    pub policy_id : String
    pub policy_type : PolicyType
    pub name : String
    pub scope : String
    pub enforcement : EnforcementAction
    pub parameters : Parameters
    pub enabled : Bool
    pub requires_opt_in : Bool

  pub record Context : Type 0 where
    pub current_spend_usd : Option Float
    pub model : Option String
    pub confidence : Option Float
    pub has_cicd_linkage : Option Bool
    pub daily_cost_usd : Option Float

  -- `self.policies`
  abbrev pub Policies : Type 0
  Policies = Dict PolicyDefinition

  unfoldable pub register_policy : PolicyDefinition → Policies → Policies
  register_policy p policies = Dict.insert p.policy_id p policies

  unfoldable pub remove_policy : String → Policies → Policies × Bool
  remove_policy id policies = (Dict.remove id policies, Dict.contains id policies)

  -- what a branch of `_evaluate_single` leaves in `violated` and `details`
  abbrev Finding : Type 0
  Finding = Bool × String

  abbrev no_finding : Finding
  no_finding = (false, "")

  check_budget : Parameters → Context → Finding
  check_budget p c =
      let limit = default (lit 0 1) p.limit_usd in
      let current = default (lit 0 1) c.current_spend_usd in
      if flt limit current
      then (
        true,
        concat ("Spend $" ∷ show ",.0f" current ∷ " exceeds limit $" ∷ show ",.0f" limit ∷ []),
      )
      else no_finding

  check_model : Parameters → Context → Finding
  check_model p c =
      let model = default "" c.model in
      let allowed = default [] p.allowed_models in
      if is_nonempty model && (is_nonempty_list allowed && not (mem model allowed))
      then (true, concat ("Model " ∷ model ∷ " not in allowlist" ∷ []))
      else no_finding

  check_confidence : Parameters → Context → Finding
  check_confidence p c =
      let confidence = default (lit 1 1) c.confidence in
      let floor = default (lit 8 10) p.min_confidence in
      if flt confidence floor
      then (
        true,
        concat ("Confidence " ∷ show ".2f" confidence ∷ " below floor " ∷ show ".2f" floor ∷ []),
      )
      else no_finding

  check_shadow : Parameters → Context → Finding
  check_shadow p c =
      let has_cicd = default true c.has_cicd_linkage in
      let daily_cost = default (lit 0 1) c.daily_cost_usd in
      let threshold = default (lit 500 1) p.cost_threshold_daily_usd in
      if not has_cicd && flt threshold daily_cost
      then (
        true,
        concat ("Unregistered service: $" ∷ show ".0f" daily_cost ∷ "/day, no CI/CD linkage" ∷ []),
      )
      else no_finding

  -- the `if`/`elif` chain of `_evaluate_single`
  check : PolicyType → Parameters → Context → Finding
  check budget_ceiling = check_budget
  check model_allowlist = check_model
  check confidence_floor = check_confidence
  check shadow_detection = check_shadow
  check _ = λ p c. no_finding

  unfoldable pub evaluate_single : PolicyDefinition → Context → PolicyEvaluationResult
  unfolding check check_budget check_model check_confidence check_shadow
  evaluate_single p c =
      let (violated, details) = check p.policy_type p.parameters c in
      record {
        policy_id = p.policy_id;
        policy_name = p.name;
        action = if violated then p.enforcement else allow;
        violated = violated;
        details = details;
      }

  -- the guards of the loop in `evaluate_all`
  abbrev pub applies : String → PolicyDefinition → Bool
  applies scope_filter p =
      if not p.enabled
      then false
      else not (
          not (str_eq scope_filter "global")
          && (not (str_eq p.scope scope_filter) && not (str_eq p.scope "global")))

  unfoldable pub evaluate_all : Policies → Context → String → List PolicyEvaluationResult
  evaluate_all [] c scope_filter = []
  evaluate_all ((_, p) ∷ policies) c scope_filter =
      let rest = evaluate_all policies c scope_filter in
      if applies scope_filter p then evaluate_single p c ∷ rest else rest

  unfoldable pub policy_matches_team : PolicyDefinition → String → Bool
  policy_matches_team p team_id =
      str_eq p.scope team_id || str_eq (default "" p.parameters.team_id) team_id

  -- The loop that `get_model_allowlist`, `get_budget_context`, `get_token_budgets` and
  -- `get_cost_ceiling` share. `value` is `none` where the loop goes on to the next policy.
  unfoldable pub resolve {ℓ} :
      {A : Type ℓ} → (PolicyDefinition → Option A) → String → A → Policies → A
  resolve value team_id found [] = found
  resolve value team_id found ((_, p) ∷ policies) = elim (value p) [
    | none ↦ resolve value team_id found policies
    | some v ↦
        let found' = if str_eq p.scope "global" then v else found in
        let rest = resolve value team_id found' policies in
        if policy_matches_team p team_id then v else rest
  ]

  -- the first guard of each of these loops
  abbrev pub of_type {ℓ} : {A : Type ℓ} → PolicyType → PolicyDefinition → Option A → Option A
  of_type t p v = if same_type p.policy_type t && p.enabled then v else none

  abbrev pub allowlist_value : PolicyDefinition → Option (List String)
  allowlist_value p = of_type model_allowlist p (some (default [] p.parameters.allowed_models))

  unfoldable pub get_model_allowlist : Policies → String → List String
  get_model_allowlist policies team_id = resolve allowlist_value team_id [] policies

  pub record Budget : Type 0 where
    pub budget_limit_usd : Float
    pub budget_remaining_usd : Float

  abbrev pub budget_value : PolicyDefinition → Option (Option Budget)
  budget_value p = of_type budget_ceiling p (
      some (
        some (record {
          budget_limit_usd = default (lit 0 1) p.parameters.limit_usd;
          budget_remaining_usd = default (lit 0 1) p.parameters.remaining_usd;
        })))

  -- `none` is the empty dictionary
  unfoldable pub get_budget_context : Policies → String → Option Budget
  get_budget_context policies team_id = resolve budget_value team_id none policies

  pub record TokenBudgets : Type 0 where
    pub token_budget_output : Option ℕ
    pub token_budget_input : Option ℕ

  abbrev pub token_value : PolicyDefinition → Option (Option TokenBudgets)
  token_value p = of_type token_budget p (
      some (
        some (record {
          token_budget_output = p.parameters.max_output_tokens;
          token_budget_input = p.parameters.max_input_tokens;
        })))

  unfoldable pub get_token_budgets : Policies → String → Option TokenBudgets
  get_token_budgets policies team_id = resolve token_value team_id none policies

  abbrev pub cost_value : PolicyDefinition → Option (Option Float)
  cost_value p =
      of_type cost_ceiling p
        (elim p.parameters.max_request_cost_usd [ none ↦ none | some c ↦ some (some c) ])

  unfoldable pub get_cost_ceiling : Policies → String → Option Float
  get_cost_ceiling policies team_id = resolve cost_value team_id none policies
