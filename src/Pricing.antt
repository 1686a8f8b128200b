-- ===== src/Pricing.antt =====
-- pricing/catalog.py: `PricingCatalog`. Times are numbers in UTC, the integers of a usage may be
-- negative, and what Python does to texts is the parameter `Trim`. The text of the snapshot's hash and
-- the default rules are left out.
pub mod Order
pub mod Resolution
pub mod Simulator
mod Tests
use ai_compute_intelligence.Prelude.{
  ℕ, zero, suc, ◌+◌, ◌-◌, ltb, leb, Bool, true, false, ◌&&◌, ◌||◌, if◌then◌else◌, List, [], ◌∷◌,
  ◌++◌, String, str_eq, Option, none, some, keep,
}
use Prim.Native.String
use text.Mathlib.Text.{is_lt}
use ai_compute_intelligence.Floats.{Floats, Float, lit, fadd, fmul, fdiv}
use ai_compute_intelligence.Finops.{Trim}

-- Python's integers; `negsuc n` is -(n + 1)
pub data ℤ : Type 0 where
  pos : ℕ → ℤ
  negsuc : ℕ → ℤ

abbrev pub is_negative : ℤ → Bool
is_negative (pos n) = false
is_negative (negsuc n) = true

-- of a number that is not negative
abbrev pub to_nat : ℤ → ℕ
to_nat (pos n) = n
to_nat (negsuc n) = 0

module _ ⦃F : Floats⦄ where
  pub record PricingRule : Type 0 where
    pub provider : String
    pub model : String
    pub effective_from : ℕ
    pub input_usd_per_1k_tokens : Float
    pub output_usd_per_1k_tokens : Float
    pub cached_input_usd_per_1k_tokens : Option Float
    pub request_base_usd : Float

  pub record PricingUsage : Type 0 where
    pub provider : String
    pub model : String
    pub input_tokens : ℤ
    pub output_tokens : ℤ
    pub cache_read_input_tokens : ℤ
    pub request_count : ℤ
    pub effective_at : Option ℕ

  pub record CostEstimate : Type 0 where
    pub provider : String
    pub model : String
    pub rule_effective_from : ℕ
    pub request_count : ℕ
    pub input_cost_usd : Float
    pub output_cost_usd : Float
    pub cached_input_cost_usd : Float
    pub request_base_cost_usd : Float
    pub total_cost_usd : Float

  -- the `ValueError`s of `estimate`
  pub data Estimated : Type 0 where
    estimated : CostEstimate → Estimated
    bad_request_count no_pricing_rule negative_tokens : Estimated

  -- the order of the tuples (provider, model, effective_from)
  unfoldable pub rule_before : PricingRule → PricingRule → Bool
  rule_before a b =
      if str_eq a.provider b.provider
      then (if str_eq a.model b.model
          then ltb a.effective_from b.effective_from
          else is_lt (Prim.Native.String.compare a.model b.model))
      else is_lt (Prim.Native.String.compare a.provider b.provider)

  -- the stable sort of `list.sort`
  unfoldable pub insert_rule : PricingRule → List PricingRule → List PricingRule
  insert_rule r [] = r ∷ []
  insert_rule r (x ∷ sorted) =
      let rest = insert_rule r sorted in if rule_before r x then r ∷ x ∷ sorted else x ∷ rest

  unfoldable pub sort_rules : List PricingRule → List PricingRule → List PricingRule
  unfolding insert_rule
  sort_rules sorted [] = sorted
  sort_rules sorted (r ∷ rules) = sort_rules (insert_rule r sorted) rules

  -- `rule.provider == provider and rule.model == model and rule.effective_from <= effective_at`
  abbrev pub is_candidate : String → String → ℕ → PricingRule → Bool
  is_candidate provider model effective_at r =
      str_eq r.provider provider && (str_eq r.model model && leb r.effective_from effective_at)

  -- `max(candidates, key=...)`: the first of the latest
  unfoldable pub latest : PricingRule → List PricingRule → PricingRule
  latest r [] = r
  latest r (x ∷ rules) = latest (if ltb r.effective_from x.effective_from then x else r) rules

  unfoldable pub latest_of : List PricingRule → Option PricingRule
  unfolding latest
  latest_of [] = none
  latest_of (r ∷ rules) = some (latest r rules)

  unfoldable pub resolve_rule : String → String → ℕ → List PricingRule → Option PricingRule
  unfolding latest_of
  resolve_rule provider model effective_at rules =
      latest_of (keep (is_candidate provider model effective_at) rules)

  module _ ⦃T : Trim⦄ where
    abbrev pub normalized : PricingRule → PricingRule
    normalized r = record r { provider = T.lower (T.strip r.provider); model = T.strip r.model }

    unfoldable pub register_rule : PricingRule → List PricingRule → List PricingRule
    unfolding sort_rules
    register_rule rule rules = sort_rules [] (rules ++ normalized rule ∷ [])

    unfoldable pub list_rules : Option String → Option String → List PricingRule → List PricingRule
    list_rules provider model rules =
        keep
          (λ r.
            elim provider [
              | none ↦ true
              | some p ↦ if str_eq p "" then true else str_eq r.provider (T.lower (T.strip p))
            ]
            && elim model [
              | none ↦ true
              | some m ↦ if str_eq m "" then true else str_eq r.model (T.strip m)
            ])
          rules

    -- the cost of a number of tokens at a rate per thousand
    abbrev pub cost_of : ℕ → Float → Float → Float
    cost_of tokens rate requests = fmul (fmul (fdiv (lit tokens 1) (lit 1000 1)) rate) requests

    unfoldable pub cost_by : PricingRule → String → String → ℕ → ℕ → ℕ → ℕ → CostEstimate
    cost_by rule provider model requests input output cached =
        let cache_read = if ltb input cached then input else cached in
        let cache_rate : Float = elim rule.cached_input_usd_per_1k_tokens [
          | some rate ↦ rate
          | none ↦ rule.input_usd_per_1k_tokens
        ] in
        let count = lit requests 1 in
        let input_cost = cost_of (input - cache_read) rule.input_usd_per_1k_tokens count in
        let cached_input_cost = cost_of cache_read cache_rate count in
        let output_cost = cost_of output rule.output_usd_per_1k_tokens count in
        let base_cost = fmul rule.request_base_usd count in
        record {
          provider = provider;
          model = model;
          rule_effective_from = rule.effective_from;
          request_count = requests;
          input_cost_usd = input_cost;
          output_cost_usd = output_cost;
          cached_input_cost_usd = cached_input_cost;
          request_base_cost_usd = base_cost;
          total_cost_usd = fadd (fadd (fadd input_cost cached_input_cost) output_cost) base_cost;
        }

    abbrev pub is_positive : ℤ → Bool
    is_positive (pos zero) = false
    is_positive (pos (suc n)) = true
    is_positive (negsuc n) = false

    unfoldable pub estimate : ℕ → PricingUsage → List PricingRule → Estimated
    unfolding cost_by
    estimate now usage rules =
        let provider = T.lower (T.strip usage.provider) in
        let model = T.strip usage.model in
        let effective_at : ℕ = elim usage.effective_at [ none ↦ now | some at ↦ at ] in
        if is_positive usage.request_count
        then elim (resolve_rule provider model effective_at rules) [
          | none ↦ no_pricing_rule
          | some rule ↦
              if is_negative usage.input_tokens
                || (is_negative usage.output_tokens || is_negative usage.cache_read_input_tokens)
              then negative_tokens
              else estimated (
                  cost_by rule provider model (to_nat usage.request_count)
                    (to_nat usage.input_tokens) (to_nat usage.output_tokens)
                    (to_nat usage.cache_read_input_tokens))
        ]
        else bad_request_count
