-- ===== src/Finops/Tests.antt =====
-- Runs of the ledger, and its theorems at concrete inputs.
use ai_compute_intelligence.Prelude.{ℕ, ◌≡◌, refl, List, [], ◌∷◌, Option, none, some}
use ai_compute_intelligence.Prelude.Dict.{lookup, insert, get_or}
use ai_compute_intelligence.Floats.{micro, lit}
use ai_compute_intelligence.Finops.{
  Trim, CostRecord, Ledger, Estimate, CostDriftSummary, summarize_drift, group_key, buckets_from,
  summary_of, sum_from, place, sort_from,
}
use ai_compute_intelligence.Finops.Ledger.{
  Call, estimates, settles, account_of, account_after, apply_all, apply_all-account,
}

-- texts that need no trimming
instance abbrev plain : Trim
plain = record { strip = λ s. s; lower = λ s. s }

abbrev estimate : Estimate
estimate = record {
  request_id = "r1";
  service_name = "search";
  provider = "p";
  model = "large";
  synthetic_cost_usd = lit 2 1;
  recorded_at = 1;
}

abbrev other : Estimate
other = record estimate { request_id = "r2"; synthetic_cost_usd = lit 5 1 }

abbrev calls : List Call
calls =
    settles "r1" (lit 9 1) "early" 0
    ∷ estimates estimate
    ∷ estimates other
    ∷ settles "r1" (lit 3 1) "billing" 4
    ∷ estimates (record estimate { synthetic_cost_usd = lit 4 1 })
    ∷ []

apply_all-account_example :
    account_of (lookup "r1" (apply_all calls []))
    ≡ account_after "r1" calls (account_of (lookup "r1" []))
apply_all-account_example = apply_all-account calls "r1" []

-- The settlement before the first estimate is refused; the later one stays.
account_of_r1 : account_after "r1" calls none ≡ some (lit 4 1, some (lit 3 1))
account_of_r1 = refl

abbrev record_of : Estimate → Option ℕ → CostRecord
record_of e cost = record {
  request_id = e.request_id;
  service_name = e.service_name;
  provider = e.provider;
  model = e.model;
  synthetic_cost_usd = e.synthetic_cost_usd;
  synthetic_recorded_at = e.recorded_at;
  reconciled_cost_usd = cost;
  reconciled_recorded_at = none;
  reconciliation_source = "";
}

abbrev ledger : Ledger
ledger = ("r1", record_of estimate (some (lit 3 1))) ∷ ("r2", record_of other none) ∷ []

-- one group of two records, of which one is settled
abbrev summary : CostDriftSummary
summary = record {
  group = "p";
  total_records = 2;
  reconciled_records = 1;
  unresolved_records = 1;
  synthetic_cost_usd = lit 7 1;
  reconciled_cost_usd = lit 3 1;
  absolute_drift_usd = 0;
  summary_drift_pct = 0;
}

summarizes : summarize_drift "provider" ledger ≡ some (summary ∷ [])
unfolding summarize_drift group_key buckets_from summary_of sum_from place sort_from insert get_or
    lookup
summarizes = refl
