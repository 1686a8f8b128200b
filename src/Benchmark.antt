-- ===== src/Benchmark.antt =====
-- benchmark/federated.py: `FederatedBenchmarkProtocol`. The noise and numpy's mean and median are
-- arguments; the clock's stamps and the logging are left out.
pub mod Charges
pub mod Budget
mod Tests
use ai_compute_intelligence.Prelude.{
  ℕ, ◌+◌, ltb, Bool, true, false, if◌then◌else◌, List, [], ◌∷◌, ◌++◌, String, str_eq, concat,
  Option, none, some, length, mem, map,
}
use ai_compute_intelligence.Prelude.Dict
use ai_compute_intelligence.Prelude.Dict.{Dict}
use ai_compute_intelligence.Floats.{Floats, Float, lit, flt, fle, fadd, fsub, fdiv}
use ai_compute_intelligence.Combination.{fmin, fmax}

module _ ⦃F : Floats⦄ where
  pub record FbpConfig : Type 0 where
    pub epsilon_total_quarterly : Float
    pub epsilon_per_release : Float
    pub min_cohort_size : ℕ
    pub cost_per_token_clip : Float
    pub carbon_per_inference_clip : Float

  pub record BenchmarkMetric : Type 0 where
    pub org_id : String
    pub metric_name : String
    pub raw_value : Float
    pub period : String

  pub record CohortBenchmark : Type 0 where
    pub cohort_id : String
    pub metric_name : String
    pub noisy_mean : Float
    pub noisy_median : Float
    pub member_count : ℕ
    pub epsilon_consumed : Float
    pub period : String
    pub suppressed : Bool

  -- What a call draws and computes outside the program: the noise of the two statistics at a scale,
  -- `np.mean`, `np.median` and `round(x, 6)`.
  pub record Release : Type 0 where
    pub mean_noise : Float → Float
    pub median_noise : Float → Float
    pub mean : List Float → Float
    pub median : List Float → Float
    pub round6 : Float → Float

  -- The members of a cohort are kept by their organization.
  pub record FederatedBenchmarkProtocol : Type 0 where
    pub cohorts : Dict (List String)
    pub metrics : Dict (List BenchmarkMetric)
    pub budget_consumed : Dict Float

  abbrev pub new_protocol : FederatedBenchmarkProtocol
  new_protocol = record { cohorts = []; metrics = []; budget_consumed = [] }

  -- The outcome of a publication, with its exceptions.
  pub data Outcome : Type 0 where
    published : CohortBenchmark → Outcome
    budget_exhausted : String → Outcome
    value_error : Outcome

  module _ (config : FbpConfig) where
    abbrev pub sensitivity_bounds : Dict Float
    sensitivity_bounds =
        ("cost_per_token_usd", config.cost_per_token_clip)
        ∷ ("carbon_per_inference_gco2e", config.carbon_per_inference_clip)
        ∷ ("attribution_confidence", lit 1 1)
        ∷ ("waste_pct", lit 100 1)
        ∷ []

    abbrev pub bound_of : String → Float
    bound_of metric_name = Dict.get_or metric_name (lit 1000 1) sensitivity_bounds

    unfoldable pub create_cohort : String → FederatedBenchmarkProtocol → FederatedBenchmarkProtocol
    create_cohort cohort_id s = record s { cohorts = Dict.insert cohort_id [] s.cohorts }

    unfoldable pub join_cohort :
        String → String → FederatedBenchmarkProtocol → FederatedBenchmarkProtocol × Bool
    join_cohort org_id cohort_id s = elim (Dict.lookup cohort_id s.cohorts) [
      | none ↦ (s, false)
      | some members ↦ if mem org_id members then (s, false) else (
        record s { cohorts = Dict.insert cohort_id (members ++ org_id ∷ []) s.cohorts },
        true,
      )
    ]

    abbrev pub metric_key : String → String → String → String
    metric_key org_id metric_name period = concat (org_id ∷ ":" ∷ metric_name ∷ ":" ∷ period ∷ [])

    unfoldable pub submit_metric :
        BenchmarkMetric → FederatedBenchmarkProtocol → FederatedBenchmarkProtocol
    submit_metric metric s =
        let key = metric_key metric.org_id metric.metric_name metric.period in
        let clipped = fmax (lit 0 1) (fmin metric.raw_value (bound_of metric.metric_name)) in
        record s {
          metrics =
              Dict.insert key
                (Dict.get_or key [] s.metrics ++ record metric { raw_value = clipped } ∷ [])
                s.metrics;
        }

    unfoldable pub last_of : List BenchmarkMetric → Option BenchmarkMetric
    last_of [] = none
    last_of (m ∷ metrics) =
        let rest = last_of metrics in elim metrics [ [] ↦ some m | _ ∷ _ ↦ rest ]

    -- the last submission of each member
    unfoldable pub values_of :
        String → String → Dict (List BenchmarkMetric) → List String → List Float
    unfolding last_of
    values_of metric_name period metrics [] = []
    values_of metric_name period metrics (org_id ∷ members) =
        let rest = values_of metric_name period metrics members in
        elim (last_of (Dict.get_or (metric_key org_id metric_name period) [] metrics)) [
          | none ↦ rest
          | some m ↦ m.raw_value ∷ rest
        ]

    abbrev pub consumed : String → Dict Float → Float
    consumed org_id budgets = Dict.get_or org_id (lit 0 1) budgets

    -- the first member whose budget does not hold another release
    unfoldable pub exhausted : Float → Dict Float → List String → Option String
    exhausted epsilon budgets [] = none
    exhausted epsilon budgets (org_id ∷ members) =
        let rest = exhausted epsilon budgets members in
        if flt config.epsilon_total_quarterly (fadd (consumed org_id budgets) epsilon)
        then some org_id
        else rest

    unfoldable pub charge : Float → List String → Dict Float → Dict Float
    charge epsilon [] budgets = budgets
    charge epsilon (org_id ∷ members) budgets =
        charge epsilon members (Dict.insert org_id (fadd (consumed org_id budgets) epsilon) budgets)

    suppressed_benchmark : String → String → String → ℕ → CohortBenchmark
    suppressed_benchmark cohort_id metric_name period members = record {
      cohort_id = cohort_id;
      metric_name = metric_name;
      noisy_mean = lit 0 1;
      noisy_median = lit 0 1;
      member_count = members;
      epsilon_consumed = lit 0 1;
      period = period;
      suppressed = true;
    }

    unfoldable pub release_of :
        Release → String → String → String → List String → List Float → CohortBenchmark
    release_of r cohort_id metric_name period members values =
        let epsilon = fdiv config.epsilon_per_release (lit 2 1) in
        let bound = bound_of metric_name in
        let mean_scale = fdiv (fdiv bound (lit (length values) 1)) epsilon in
        let median_scale = fdiv bound epsilon in
        record {
          cohort_id = cohort_id;
          metric_name = metric_name;
          noisy_mean = r.round6 (fadd (r.mean values) (r.mean_noise mean_scale));
          noisy_median = r.round6 (fadd (r.median values) (r.median_noise median_scale));
          member_count = length members;
          epsilon_consumed = config.epsilon_per_release;
          period = period;
          suppressed = false;
        }

    -- what follows the checks that suppress a benchmark
    unfoldable pub release :
        Release
        → String
        → String
        → String
        → List String
        → List Float
        → FederatedBenchmarkProtocol
        → FederatedBenchmarkProtocol × Outcome
    unfolding release_of charge exhausted
    release r cohort_id metric_name period members values s =
        let epsilon = config.epsilon_per_release in
        let charged = record s { budget_consumed = charge epsilon members s.budget_consumed } in
        if fle (fdiv epsilon (lit 2 1)) (lit 0 1)
        then (s, value_error)
        else elim (exhausted epsilon s.budget_consumed members) [
          | some org_id ↦ (s, budget_exhausted org_id)
          | none ↦ (charged, published (release_of r cohort_id metric_name period members values))
        ]

    unfoldable pub publish_benchmark :
        Release
        → String
        → String
        → String
        → FederatedBenchmarkProtocol
        → FederatedBenchmarkProtocol × Outcome
    unfolding suppressed_benchmark release values_of
    publish_benchmark r cohort_id metric_name period s =
        let members = Dict.get_or cohort_id [] s.cohorts in
        let values = values_of metric_name period s.metrics members in
        let nothing =
          published (suppressed_benchmark cohort_id metric_name period (length members)) in
        let released = release r cohort_id metric_name period members values s in
        if ltb (length members) config.min_cohort_size
        then (s, nothing)
        else elim values [ [] ↦ (s, nothing) | _ ∷ _ ↦ released ]

    unfoldable pub get_remaining_budget : String → FederatedBenchmarkProtocol → Float
    get_remaining_budget org_id s =
        fmax (lit 0 1) (fsub config.epsilon_total_quarterly (consumed org_id s.budget_consumed))

    unfoldable pub reset_quarterly_budgets : FederatedBenchmarkProtocol → FederatedBenchmarkProtocol
    reset_quarterly_budgets s = record s { budget_consumed = [] }
