-- ===== src/Pricing/Order.antt =====
-- pricing/catalog.py: the order in which the rules of a catalog are kept.
use Prim.Native.String
use Prim.Native.String.{[], ◌∷◌}
use Prim.Native.String.compare
use text.Mathlib.Text.{is_lt}
use text.Mathlib.TextPositions.{compare_refl}
use ai_compute_intelligence.Prelude.{◌≡◌, arith, true, false, String, eq_iff}
use ai_compute_intelligence.Floats.{Floats}
use ai_compute_intelligence.Pricing.{PricingRule, rule_before}

less_trans :
    (s t u : String)
    → is_lt (Prim.Native.String.compare s t) ≡ true
    → is_lt (Prim.Native.String.compare t u) ≡ true
    → is_lt (Prim.Native.String.compare s u) ≡ true
less_trans [] [] u p q = ground (arith, compare.nil-nil, p)
less_trans [] (d ∷ t) [] p q = ground (arith, compare.cons-nil d t, q)
less_trans [] (d ∷ t) (e ∷ u) p q = ground (arith, compare.nil-cons e u)
less_trans (c ∷ s) [] u p q = ground (arith, compare.cons-nil c s, p)
less_trans (c ∷ s) (d ∷ t) [] p q = ground (arith, compare.cons-nil d t, q)
less_trans (c ∷ s) (d ∷ t) (e ∷ u) p q = ground (
  arith,
  compare.cons-cons c d s t,
  compare.cons-cons d e t u,
  compare.cons-cons c e s u,
  less_trans s t u,
)

less_irrefl : (s : String) → is_lt (Prim.Native.String.compare s s) ≡ false
less_irrefl s = ground (arith, compare_refl s)

module _ ⦃F : Floats⦄ where
  pub rule_before_trans :
      (a b c : PricingRule)
      → rule_before a b ≡ true
      → rule_before b c ≡ true
      → rule_before a c ≡ true
  unfolding rule_before
  rule_before_trans a b c p q = ground (
    arith,
    eq_iff a.provider b.provider,
    eq_iff b.provider c.provider,
    eq_iff a.provider c.provider,
    eq_iff a.model b.model,
    eq_iff b.model c.model,
    eq_iff a.model c.model,
    less_trans a.provider b.provider c.provider,
    less_trans a.model b.model c.model,
    less_irrefl a.provider,
    less_irrefl a.model,
  )

  pub rule_before_irrefl : (a : PricingRule) → rule_before a a ≡ false
  unfolding rule_before
  rule_before_irrefl a = ground (arith, less_irrefl a.provider, less_irrefl a.model)
