-- ===== src/Policy/Evaluation.antt =====
-- policy/engine.py: the registry's keys, and budget policies against growing spends.
use ai_compute_intelligence.Prelude.{◌≡◌, refl, arith, true, [], ◌∷◌, some, eq_iff}
use ai_compute_intelligence.Prelude.Dict.{insert}
use ai_compute_intelligence.Floats.{Floats, Float, flt}
use ai_compute_intelligence.Policy.{
  PolicyDefinition, Policies, Context, evaluate_single, register_policy, budget_ceiling,
}

module _ ⦃F : Floats⦄ where
  -- Every policy is registered under its own id.
  abbrev pub Keyed : Policies → Type 0
  Keyed [] = Unit
  Keyed ((k, p) ∷ policies) = (k ≡ p.policy_id) × Keyed policies

  pub register_policy-Keyed :
      (p : PolicyDefinition) (policies : Policies)
      → Keyed policies
      → Keyed (register_policy p policies)
  unfolding register_policy insert
  register_policy-Keyed p [] h = (refl, tt)
  register_policy-Keyed p ((k, q) ∷ policies) h =
      ground (arith, register_policy-Keyed p policies h.1, eq_iff k p.policy_id)

  -- A budget policy that a spend violates is violated by every higher spend, if the comparison of
  -- floats is transitive at the three amounts.
  pub evaluate_single-budget_mono :
      (p : PolicyDefinition) (c : Context) (limit spent more : Float)
      → ((x y z : Float) → flt x y ≡ true → flt y z ≡ true → flt x z ≡ true)
      → p.policy_type ≡ budget_ceiling
      → p.parameters.limit_usd ≡ some limit
      → flt spent more ≡ true
      → (evaluate_single p (record c { current_spend_usd = some spent })).violated ≡ true
      → (evaluate_single p (record c { current_spend_usd = some more })).violated ≡ true
  unfolding evaluate_single
  evaluate_single-budget_mono p c limit spent more trans t l lt v =
      ground (arith, trans limit spent more)
