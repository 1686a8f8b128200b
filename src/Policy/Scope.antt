-- ===== src/Policy/Scope.antt =====
-- Which policy decides for a team: the getters of policy/engine.py.
use ai_compute_intelligence.Prelude.{
  ◌≡◌, refl, ap, arith, Bool, List, [], ◌∷◌, String, str_eq, Option, none, some, if◌then◌else◌,
  Option-cases, inl, inr,
}
use ai_compute_intelligence.Floats.{Floats}
use ai_compute_intelligence.Policy.{
  PolicyDefinition, Policies, policy_matches_team, resolve, allowlist_value, budget_value,
  token_value, cost_value, get_model_allowlist, get_budget_context, get_token_budgets,
  get_cost_ceiling, default,
}

module _ {ℓ} {A : Type ℓ} where
  unfoldable pub first_or : A → List A → A
  first_or d [] = d
  first_or d (x ∷ _) = x

  unfoldable pub last_or : A → List A → A
  last_or d [] = d
  last_or d (x ∷ xs) = last_or x xs

module _ ⦃F : Floats⦄ where
  -- the values of the policies that pass a test, in the order of registration
  unfoldable pub values_of {ℓ} :
      {A : Type ℓ} → (PolicyDefinition → Option A) → (PolicyDefinition → Bool) → Policies → List A
  values_of value test [] = []
  values_of value test ((_, p) ∷ policies) =
      let rest = values_of value test policies in
      elim (value p) [ none ↦ rest | some v ↦ if test p then v ∷ rest else rest ]

  abbrev pub is_global : PolicyDefinition → Bool
  is_global p = str_eq p.scope "global"

  abbrev pub for_team : String → PolicyDefinition → Bool
  for_team team_id p = policy_matches_team p team_id

  -- the first value for the team, or else the last global one, or else the default
  abbrev pub precedence {ℓ} :
      {A : Type ℓ} → (PolicyDefinition → Option A) → String → A → Policies → A
  precedence value team_id d policies =
      first_or (last_or d (values_of value is_global policies))
        (values_of value (for_team team_id) policies)

  resolve-precedence {ℓ} :
      {A : Type ℓ} (value : PolicyDefinition → Option A) (team_id : String) (d : A)
      (policies : Policies)
      → resolve value team_id d policies ≡ precedence value team_id d policies
  unfolding resolve values_of first_or last_or
  resolve-precedence value team_id d [] = refl
  resolve-precedence value team_id d ((_, p) ∷ policies) = elim (Option-cases (value p)) [
    | inl e ↦ rw (e, resolve, values_of) (resolve-precedence value team_id d policies)
    | inr (v, e) ↦ ground (
      arith,
      e,
      resolve-precedence value team_id v policies,
      resolve-precedence value team_id d policies,
    )
  ]

  -- Each of the four getters returns the value of the first policy that targets the team, or else
  -- that of the last global one, or else the empty value, among the enabled policies of its type;
  -- the getter of the cost ceiling passes over those that have no ceiling.
  pub getters-precedence :
      (policies : Policies) (team_id : String)
      → (get_model_allowlist policies team_id ≡ precedence allowlist_value team_id [] policies)
        × (get_budget_context policies team_id ≡ precedence budget_value team_id none policies)
        × (get_token_budgets policies team_id ≡ precedence token_value team_id none policies)
        × (get_cost_ceiling policies team_id ≡ precedence cost_value team_id none policies)
  unfolding get_model_allowlist get_budget_context get_token_budgets get_cost_ceiling
  getters-precedence policies team_id = (
    resolve-precedence allowlist_value team_id [] policies,
    resolve-precedence budget_value team_id none policies,
    resolve-precedence token_value team_id none policies,
    resolve-precedence cost_value team_id none policies,
  )

  -- For the empty team the first policy of a kind that names no team decides, whatever its scope:
  -- a policy that is scoped to one team is applied to workloads with no team.
  pub resolve-empty_team {ℓ} :
      {A : Type ℓ} (value : PolicyDefinition → Option A) (d v : A) (key : String)
      (p : PolicyDefinition) (policies : Policies)
      → value p ≡ some v
      → p.parameters.team_id ≡ none
      → resolve value "" d ((key, p) ∷ policies) ≡ v
  unfolding resolve policy_matches_team
  resolve-empty_team value d v key p policies h k =
      ground (arith, h, ap (λ (t : Option String). str_eq (default "" t) "") k)
