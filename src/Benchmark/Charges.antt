-- ===== src/Benchmark/Charges.antt =====
-- benchmark/federated.py: what a publication takes from the privacy budgets.
use ai_compute_intelligence.Prelude.{
  ◌≡◌, refl, arith, ltb, Bool, true, false, ◌&&◌, not, if◌then◌else◌, List, [], ◌∷◌, String, str_eq,
  mem, none, length, Bool-cases, Option-cases, List-cases, inl, inr, eq_iff,
}
use ai_compute_intelligence.Prelude.Unique.{Once}
use ai_compute_intelligence.Prelude.Dict.{Dict, insert, get_or, lookup-insert}
use ai_compute_intelligence.Floats.{Floats, Float, lit, flt, fle, fadd, fdiv}
use ai_compute_intelligence.Benchmark.{
  FbpConfig, FederatedBenchmarkProtocol, Release, Outcome, published, budget_exhausted, value_error,
  consumed, exhausted, charge, release, release_of, values_of, publish_benchmark,
}

module _ ⦃F : Floats⦄ (config : FbpConfig) where
  consumed-insert :
      (k org_id : String) (x : Float) (budgets : Dict Float)
      → consumed config k (insert org_id x budgets)
        ≡ (if str_eq org_id k then x else consumed config k budgets)
  unfolding get_or
  consumed-insert k org_id x budgets = ground (arith, lookup-insert org_id k x budgets)

  -- Every member is charged once.
  consumed-charge :
      (epsilon : Float) (members : List String) (budgets : Dict Float) (k : String)
      → Once members
      → consumed config k (charge config epsilon members budgets) ≡ (
          if mem k members
          then fadd (consumed config k budgets) epsilon
          else consumed config k budgets)
  unfolding charge mem
  consumed-charge epsilon [] budgets k once = refl
  consumed-charge epsilon (org_id ∷ members) budgets k once =
      let x = fadd (consumed config org_id budgets) epsilon in
      ground (
        arith,
        consumed-charge epsilon members (insert org_id x budgets) k once.1,
        consumed-insert k org_id x budgets,
        eq_iff org_id k,
        once.0,
      )

  pub exhausted-none :
      (epsilon : Float) (budgets : Dict Float) (members : List String) (k : String)
      → exhausted config epsilon budgets members ≡ none
      → mem k members ≡ true
      → flt config.epsilon_total_quarterly (fadd (consumed config k budgets) epsilon) ≡ false
  unfolding exhausted mem
  exhausted-none epsilon budgets [] k h m = ground arith
  exhausted-none epsilon budgets (org_id ∷ members) k h m =
      ground (arith, exhausted-none epsilon budgets members k, eq_iff org_id k)

  -- a benchmark that is not suppressed
  abbrev pub is_release : Outcome → Bool
  is_release (published b) = not b.suppressed
  is_release (budget_exhausted org_id) = false
  is_release value_error = false

  -- what a publication leaves of the state: the data, and what it has consumed of a budget
  pub record Charged (k : String) (members : List String) (s : FederatedBenchmarkProtocol)
      (after : FederatedBenchmarkProtocol × Outcome) : Type 0 where
    pub same_cohorts : after.0.cohorts ≡ s.cohorts
    pub same_metrics : after.0.metrics ≡ s.metrics
    pub spent : consumed config k after.0.budget_consumed ≡ (
        if is_release after.1 && mem k members
        then fadd (consumed config k s.budget_consumed) config.epsilon_per_release
        else consumed config k s.budget_consumed)
    pub affordable :
        (is_release after.1
          && (mem k members
              && flt config.epsilon_total_quarterly
                  (fadd (consumed config k s.budget_consumed) config.epsilon_per_release)))
        ≡ false

  unspent :
      (k : String) (members : List String) (s : FederatedBenchmarkProtocol) (o : Outcome)
      → is_release o ≡ false
      → Charged k members s (s, o)
  unspent k members s o h = record {
    same_cohorts = refl;
    same_metrics = refl;
    spent = ground arith;
    affordable = ground arith;
  }

  release-Charged :
      (r : Release) (cohort metric period k : String) (members : List String) (values : List Float)
      (s : FederatedBenchmarkProtocol)
      → Once members
      → Charged k members s (release config r cohort metric period members values s)
  unfolding release release_of
  release-Charged r cohort metric period k members values s once =
      let epsilon = config.epsilon_per_release in
      elim (Bool-cases (fle (fdiv epsilon (lit 2 1)) (lit 0 1))) [
        | inl zero_epsilon ↦ rw (zero_epsilon, release) (unspent k members s value_error refl)
        | inr positive ↦ elim (Option-cases (exhausted config epsilon s.budget_consumed members)) [
          | inr (org_id, out) ↦
              rw (positive, out, release) (unspent k members s (budget_exhausted org_id) refl)
          | inl enough ↦
              rw (positive, enough, release)
                (record {
                  same_cohorts = refl;
                  same_metrics = refl;
                  spent = consumed-charge epsilon members s.budget_consumed k once;
                  affordable =
                      ground (arith, exhausted-none epsilon s.budget_consumed members k enough);
                })
        ]
      ]

  -- The publication of a benchmark for a cohort in which no organization stands twice charges each
  -- member once with `epsilon_per_release`, if it releases statistics and only then, and every member
  -- could afford it; every other budget, the cohorts and the metrics stay as they were, also when the
  -- benchmark is suppressed or an exception is raised.
  pub publish_benchmark-Charged :
      (r : Release) (cohort metric period k : String) (s : FederatedBenchmarkProtocol)
      → Once (get_or cohort [] s.cohorts)
      → Charged k (get_or cohort [] s.cohorts) s (publish_benchmark config r cohort metric period s)
  unfolding publish_benchmark
  publish_benchmark-Charged r cohort metric period k s once =
      let members = get_or cohort [] s.cohorts in
      let values = values_of config metric period s.metrics members in
      let released = release-Charged r cohort metric period k members values s once in
      elim (Bool-cases (ltb (length members) config.min_cohort_size)) [
        | inl small ↦ rw (small, publish_benchmark) (unspent k members s _ refl)
        | inr enough ↦ elim (List-cases values) [
          | inl nothing ↦ rw (enough, nothing, publish_benchmark) (unspent k members s _ refl)
          | inr (v, rest, found) ↦ rw (enough, found, publish_benchmark) released
        ]
      ]
