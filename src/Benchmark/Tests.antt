-- ===== src/Benchmark/Tests.antt =====
-- Runs of the benchmark protocol, and its theorems at concrete inputs.
use ai_compute_intelligence.Prelude.{◌≡◌, refl, List, [], ◌∷◌, length, mem}
use ai_compute_intelligence.Prelude.Dict.{insert, get_or, lookup}
use ai_compute_intelligence.Floats.{micro, lit}
use ai_compute_intelligence.Benchmark.{
  FbpConfig, BenchmarkMetric, FederatedBenchmarkProtocol, new_protocol, Release, publish_benchmark,
  create_cohort, join_cohort, submit_metric, values_of,
}
use ai_compute_intelligence.Combination.{fmin, fmax}
use ai_compute_intelligence.Benchmark.Charges.{Charged, publish_benchmark-Charged}
use ai_compute_intelligence.Benchmark.Budget.{
  IsWithin, Call, creates, joins, submits, publishes, step, run, run-IsWithin,
}

abbrev config : FbpConfig
config = record {
  epsilon_total_quarterly = lit 1 1;
  epsilon_per_release = lit 1 1;
  min_cohort_size = 2;
  cost_per_token_clip = lit 1 10;
  carbon_per_inference_clip = lit 100 1;
}

abbrev quiet : Release
quiet = record {
  mean_noise = λ scale. 0;
  median_noise = λ scale. 0;
  mean = λ xs. length xs;
  median = λ xs. length xs;
  round6 = λ x. x;
}

abbrev waste : BenchmarkMetric
waste = record { org_id = "a"; metric_name = "waste_pct"; raw_value = lit 250 1; period = "q1" }

abbrev joined : List (Call config)
joined = creates "c" ∷ joins "a" "c" ∷ joins "b" "c" ∷ joins "a" "c" ∷ submits waste ∷ []

abbrev calls : List (Call config)
calls =
    creates "c"
    ∷ joins "a" "c"
    ∷ joins "b" "c"
    ∷ submits waste
    ∷ publishes quiet "c" "waste_pct" "q1"
    ∷ []

run-IsWithin_example : IsWithin config (run config calls new_protocol)
run-IsWithin_example = run-IsWithin config refl calls

abbrev ready : FederatedBenchmarkProtocol
ready = run config joined new_protocol

publish_benchmark-Charged_example :
    Charged config "b"
      (get_or "c" [] ready.cohorts)
      ready
      (publish_benchmark config quiet "c" "waste_pct" "q1" ready)
unfolding run step create_cohort join_cohort submit_metric mem insert get_or lookup
publish_benchmark-Charged_example =
    publish_benchmark-Charged config quiet "c" "waste_pct" "q1" "b" ready (refl, (refl, tt))

-- The second member has submitted nothing: what is released is computed from one value.
one_value :
    values_of config "waste_pct" "q1" ready.metrics (get_or "c" [] ready.cohorts) ≡ lit 100 1 ∷ []
unfolding run step create_cohort join_cohort submit_metric mem insert get_or lookup values_of fmin
    fmax
one_value = refl
