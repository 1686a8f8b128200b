-- ===== src/Finops.antt =====
-- finops/reconciliation.py: the ledger of synthetic and reconciled costs. Times are numbers, and the
-- trimming and lowering of texts is a parameter. The ledger hands out its records, but nothing in the
-- program writes to one from outside.
pub mod Ledger
pub mod Drift
mod Tests
use ai_compute_intelligence.Prelude.{
  ℕ, ◌+◌, ◌-◌, Bool, true, false, ◌&&◌, if◌then◌else◌, List, [], ◌∷◌, ◌++◌, String, str_eq, Option,
  none, some, length, keep, map, is_some,
}
use ai_compute_intelligence.Prelude.Dict
use ai_compute_intelligence.Prelude.Dict.{Dict}
use ai_compute_intelligence.Floats.{Floats, Float, lit, flt, fle, fadd, fsub, fmul, fdiv}

-- `str.strip` and `str.lower`
pub record Trim : Type 0 where
  pub strip : String → String
  pub lower : String → String

module _ ⦃F : Floats⦄ where
  pub record CostRecord : Type 0 where
    pub request_id : String
    pub service_name : String
    pub provider : String
    pub model : String
    pub synthetic_cost_usd : Float
    pub synthetic_recorded_at : ℕ
    pub reconciled_cost_usd : Option Float
    pub reconciled_recorded_at : Option ℕ
    pub reconciliation_source : String

  abbrev pub is_reconciled : CostRecord → Bool
  is_reconciled r = is_some r.reconciled_cost_usd

  abbrev pub drift_usd : CostRecord → Option Float
  drift_usd r = elim r.reconciled_cost_usd [
    | none ↦ none
    | some cost ↦ some (fsub cost r.synthetic_cost_usd)
  ]

  -- `x == 0`
  abbrev pub is_zero : Float → Bool
  is_zero x = fle x (lit 0 1) && fle (lit 0 1) x

  unfoldable pub drift_pct : CostRecord → Option Float
  drift_pct r = elim (drift_usd r) [
    | none ↦ none
    | some drift ↦ some (
        if is_zero r.synthetic_cost_usd
        then if is_zero drift then lit 0 1 else lit 100 1
        else fmul (fdiv drift r.synthetic_cost_usd) (lit 100 1))
  ]

  abbrev pub Ledger : Type 0
  Ledger = Dict CostRecord

  -- the arguments of `upsert_synthetic`
  pub record Estimate : Type 0 where
    pub request_id : String
    pub service_name : String
    pub provider : String
    pub model : String
    pub synthetic_cost_usd : Float
    pub recorded_at : ℕ

  module _ ⦃T : Trim⦄ where
    -- the record of a request that the ledger does not know
    abbrev pub first_record : Estimate → CostRecord
    first_record e = record {
      request_id = e.request_id;
      service_name = T.strip e.service_name;
      provider = T.lower (T.strip e.provider);
      model = T.strip e.model;
      synthetic_cost_usd = e.synthetic_cost_usd;
      synthetic_recorded_at = e.recorded_at;
      reconciled_cost_usd = none;
      reconciled_recorded_at = none;
      reconciliation_source = "";
    }

    abbrev pub re_estimated : Estimate → CostRecord → CostRecord
    re_estimated e current = record current {
      service_name = T.strip e.service_name;
      provider = T.lower (T.strip e.provider);
      model = T.strip e.model;
      synthetic_cost_usd = e.synthetic_cost_usd;
      synthetic_recorded_at = e.recorded_at;
    }

    unfoldable pub upsert_synthetic : Estimate → Ledger → Ledger
    upsert_synthetic e ledger = elim (Dict.lookup e.request_id ledger) [
      | none ↦ Dict.insert e.request_id (first_record e) ledger
      | some current ↦ Dict.insert e.request_id (re_estimated e current) ledger
    ]

    abbrev pub settled : Float → String → ℕ → CostRecord → CostRecord
    settled cost source recorded_at r = record r {
      reconciled_cost_usd = some cost;
      reconciled_recorded_at = some recorded_at;
      reconciliation_source = T.strip source;
    }

    -- `none` is the `ValueError` for an unknown request
    unfoldable pub reconcile : String → Float → String → ℕ → Ledger → Ledger × Option CostRecord
    reconcile request_id cost source recorded_at ledger = elim (Dict.lookup request_id ledger) [
      | none ↦ (ledger, none)
      | some r ↦ (
        Dict.insert request_id (settled cost source recorded_at r) ledger,
        some (settled cost source recorded_at r),
      )
    ]

  -- `none` is the `ValueError` for an unknown grouping
  unfoldable pub group_key : String → Option (CostRecord → String)
  group_key group_by =
      if str_eq group_by "provider"
      then some (λ r. r.provider)
      else if str_eq group_by "service"
      then some (λ r. r.service_name)
      else none

  unfoldable pub buckets_from :
      (CostRecord → String) → Ledger → Dict (List CostRecord) → Dict (List CostRecord)
  buckets_from key [] buckets = buckets
  buckets_from key ((_, r) ∷ records) buckets =
      buckets_from key records
        (Dict.insert (key r) (Dict.get_or (key r) [] buckets ++ r ∷ []) buckets)

  pub record CostDriftSummary : Type 0 where
    pub group : String
    pub total_records : ℕ
    pub reconciled_records : ℕ
    pub unresolved_records : ℕ
    pub synthetic_cost_usd : Float
    pub reconciled_cost_usd : Float
    pub absolute_drift_usd : Float
    pub summary_drift_pct : Float

  -- `sum(...)`, from left to right
  unfoldable pub sum_from : Float → (CostRecord → Float) → List CostRecord → Float
  sum_from total cost [] = total
  sum_from total cost (r ∷ records) = sum_from (fadd total (cost r)) cost records

  abbrev pub reconciled_or_zero : CostRecord → Float
  reconciled_or_zero r = elim r.reconciled_cost_usd [ none ↦ lit 0 1 | some cost ↦ cost ]

  abbrev pub absolute : Float → Float
  absolute x = if flt x (lit 0 1) then fsub (lit 0 1) x else x

  unfoldable pub summary_of : String × List CostRecord → CostDriftSummary
  summary_of (group, items) =
      let reconciled = keep is_reconciled items in
      let synth_total = sum_from (lit 0 1) (λ r. r.synthetic_cost_usd) items in
      let reconciled_total = sum_from (lit 0 1) reconciled_or_zero reconciled in
      let drift = fsub reconciled_total synth_total in
      record {
        group = group;
        total_records = length items;
        reconciled_records = length reconciled;
        unresolved_records = length items - length reconciled;
        synthetic_cost_usd = synth_total;
        reconciled_cost_usd = reconciled_total;
        absolute_drift_usd = absolute drift;
        summary_drift_pct =
            if flt (lit 0 1) synth_total
            then fmul (fdiv drift synth_total) (lit 100 1)
            else lit 0 1;
      }

  -- the stable sort by absolute drift, largest first
  unfoldable pub place : CostDriftSummary → List CostDriftSummary → List CostDriftSummary
  place s [] = s ∷ []
  place s (t ∷ sorted) =
      let rest = place s sorted in
      if flt t.absolute_drift_usd s.absolute_drift_usd then s ∷ t ∷ sorted else t ∷ rest

  unfoldable pub sort_from : List CostDriftSummary → List CostDriftSummary → List CostDriftSummary
  sort_from sorted [] = sorted
  sort_from sorted (s ∷ summaries) = sort_from (place s sorted) summaries

  unfoldable pub summarize_drift : String → Ledger → Option (List CostDriftSummary)
  summarize_drift group_by ledger = elim (group_key group_by) [
    | none ↦ none
    | some key ↦ some (sort_from [] (map summary_of (buckets_from key ledger [])))
  ]
