-- ===== src/Hre/Tests.antt =====
-- Runs of the reconciliation engine, and its theorems at concrete inputs.
use ai_compute_intelligence.Prelude.{ℕ, ◌≡◌, refl, String, List, [], ◌∷◌, some, arith}
use ai_compute_intelligence.Prelude.Dict.{lookup}
use ai_compute_intelligence.Floats.{micro, lit}
use ai_compute_intelligence.Samples.{python, combination, limits, round4}
use ai_compute_intelligence.Index.{text}
use ai_compute_intelligence.Hre.{ReconciliationSignal, ReconciliationContext}
use ai_compute_intelligence.Hre.Methods.{resolve_r1}
use ai_compute_intelligence.Hre.Engine.{Readings, reconcile, resolve}
use ai_compute_intelligence.Hre.Cache.{resolve-repeated}
use ai_compute_intelligence.Hre.Priority.{reconcile-identified}
use ai_compute_intelligence.Hre.Provenance.{Attributes, reconcile-Attributes}

abbrev context : List (String × String) → ReconciliationContext
context mappings = record {
  tenant_id = "default";
  identity_mappings = mappings;
  temporal_events = (7000000, "team:b", "cicd") ∷ [];
  naming_patterns = [];
  historical_attributions = [];
  deployment_owners = [];
  code_owners = "team:c" ∷ [];
  recent_users = [];
  proportional_users = [];
}

abbrev clock : ℕ → Readings
clock t = record { started = t; looked_up = t; checked = λ n. t; stored = t }

abbrev team_a : List (String × String)
team_a = ("svc", "team:a") ∷ []

abbrev direct : ReconciliationSignal
direct = record {
  method = "R1";
  source_entity = "svc";
  target_entity = "team:a";
  confidence = lit 1 1;
  signals = "direct_match:svc" ∷ [];
  feature_values = ("match_type", text "exact_identifier") ∷ [];
}

direct_match : resolve_r1 python "svc" team_a ≡ some direct
unfolding resolve_r1 lookup
direct_match = refl

reconcile-identified_example :
    reconcile python round4 combination limits (clock 1) "svc" 5 (context team_a)
    ≡ reconcile python round4 combination limits (clock 2) "svc" 9 (context team_a)
reconcile-identified_example =
    reconcile-identified python round4 combination limits refl refl (clock 1) (clock 2) "svc" 5 9
      (context team_a) (context team_a) direct direct_match refl

reconcile-Attributes_example :
    Attributes "svc"
      (context [])
      (reconcile python round4 combination limits (clock 1) "svc" 7000000 (context []))
reconcile-Attributes_example =
    reconcile-Attributes python round4 combination limits "svc" (context []) (λ xs all. all)
      (clock 1) 7000000

-- The mapping has changed between the calls; the second still returns the first owner.
resolve-repeated_example :
    (resolve python round4 combination limits
      (clock 20)
      "svc"
      "e"
      9
      (context [])
      (resolve python round4 combination limits (clock 1) "svc" "e" 5 (context team_a) []).1).0
    ≡ reconcile python round4 combination limits (clock 1) "svc" 5 (context team_a)
unfolding lookup
resolve-repeated_example =
    resolve-repeated python round4 combination limits (clock 1) (clock 20) "svc" "e" 5 9
      (context team_a) (context []) [] (record { distinct = tt; bounded = omega arith })
      (omega arith) refl refl refl
