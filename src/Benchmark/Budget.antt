-- ===== src/Benchmark/Budget.antt =====
-- benchmark/federated.py: the privacy budgets through any sequence of calls.
use ai_compute_intelligence.Prelude.{
  ◌≡◌, sym, subst, arith, false, List, [], ◌∷◌, ◌++◌, String, str_eq, mem, Bool-cases, Option-cases,
  inl, inr,
}
use ai_compute_intelligence.Prelude.Unique.{Once, Once-append_last}
use ai_compute_intelligence.Prelude.Dict.{Dict, insert, get_or, lookup, lookup-insert}
use ai_compute_intelligence.Floats.{Floats, lit, flt}
use ai_compute_intelligence.Benchmark.{
  FbpConfig, BenchmarkMetric, FederatedBenchmarkProtocol, new_protocol, Release, consumed,
  create_cohort, join_cohort, submit_metric, publish_benchmark, reset_quarterly_budgets,
}
use ai_compute_intelligence.Benchmark.Charges.{Charged, publish_benchmark-Charged}

module _ ⦃F : Floats⦄ (config : FbpConfig) where
  -- No organization stands in a cohort twice or has consumed more than the quarterly budget.
  pub record IsWithin (s : FederatedBenchmarkProtocol) : Type 0 where
    pub members_once : (cohort : String) → Once (get_or cohort [] s.cohorts)
    pub within :
        (k : String)
        → flt config.epsilon_total_quarterly (consumed config k s.budget_consumed) ≡ false

  -- the calls that change the state
  pub data Call : Type 0 where
    creates : String → Call
    joins : String → String → Call
    submits : BenchmarkMetric → Call
    publishes : Release → String → String → String → Call
    resets : Call

  unfoldable pub step : Call → FederatedBenchmarkProtocol → FederatedBenchmarkProtocol
  step (creates cohort) s = create_cohort config cohort s
  step (joins org_id cohort) s = (join_cohort config org_id cohort s).0
  step (submits metric) s = submit_metric config metric s
  step (publishes r cohort metric period) s = (publish_benchmark config r cohort metric period s).0
  step resets s = reset_quarterly_budgets config s

  unfoldable pub run : List Call → FederatedBenchmarkProtocol → FederatedBenchmarkProtocol
  unfolding step
  run [] s = s
  run (c ∷ calls) s = run calls (step c s)

  Once-insert :
      (cohort other : String) (members : List String) (cohorts : Dict (List String))
      → Once members
      → Once (get_or other [] cohorts)
      → Once (get_or other [] (insert cohort members cohorts))
  unfolding get_or
  Once-insert cohort other members cohorts once before = elim (Bool-cases (str_eq cohort other)) [
    | inl same ↦ rw (lookup-insert cohort other members cohorts, same, get_or) once
    | inr differs ↦ rw (lookup-insert cohort other members cohorts, differs, get_or) before
  ]

  create_cohort-IsWithin :
      (cohort : String) (s : FederatedBenchmarkProtocol)
      → IsWithin s
      → IsWithin (create_cohort config cohort s)
  unfolding create_cohort
  create_cohort-IsWithin cohort s v = record {
    members_once = λ other. Once-insert cohort other [] s.cohorts tt (v.members_once other);
    within = v.within;
  }

  join_cohort-IsWithin :
      (org_id cohort : String) (s : FederatedBenchmarkProtocol)
      → IsWithin s
      → IsWithin (join_cohort config org_id cohort s).0
  unfolding join_cohort get_or
  join_cohort-IsWithin org_id cohort s v =
      let own : Once (get_or cohort [] s.cohorts) = v.members_once cohort in
      elim (Option-cases (lookup cohort s.cohorts)) [
        | inl missing ↦ rw (missing, join_cohort) v
        | inr (members, found) ↦
            let once : Once members = rw (found, get_or) at own in
            elim (Bool-cases (mem org_id members)) [
              | inl member ↦ rw (found, member, join_cohort) v
              | inr new ↦
                  rw (found, new, join_cohort)
                    (record {
                      members_once = λ other.
                          Once-insert cohort other (members ++ org_id ∷ []) s.cohorts
                            (Once-append_last org_id members new once) (v.members_once other);
                      within = v.within;
                    })
            ]
      ]

  publish_benchmark-IsWithin :
      (r : Release) (cohort metric period : String) (s : FederatedBenchmarkProtocol)
      → IsWithin s
      → IsWithin (publish_benchmark config r cohort metric period s).0
  publish_benchmark-IsWithin r cohort metric period s v =
      let charged : (k : String)
          → Charged config k (get_or cohort [] s.cohorts) s
              (publish_benchmark config r cohort metric period s) =
        λ k. publish_benchmark-Charged config r cohort metric period k s (v.members_once cohort) in
      record {
        members_once = λ other.
            subst (λ cohorts. Once (get_or other [] cohorts)) (sym (charged cohort).same_cohorts)
              (v.members_once other);
        within = λ k.
            let spent = (charged k).spent in
            let affordable = (charged k).affordable in
            let before = v.within k in ground (arith, spent, affordable, before);
      }

  step-IsWithin :
      flt config.epsilon_total_quarterly (lit 0 1) ≡ false
      → (c : Call) (s : FederatedBenchmarkProtocol) → IsWithin s
      → IsWithin (step c s)
  unfolding step submit_metric reset_quarterly_budgets get_or lookup
  step-IsWithin h (creates cohort) s v = create_cohort-IsWithin cohort s v
  step-IsWithin h (joins org_id cohort) s v = join_cohort-IsWithin org_id cohort s v
  step-IsWithin h (submits metric) s v = record { members_once = v.members_once; within = v.within }
  step-IsWithin h (publishes r cohort metric period) s v =
      publish_benchmark-IsWithin r cohort metric period s v
  step-IsWithin h resets s v = record { members_once = v.members_once; within = λ k. h }

  run_from-IsWithin :
      flt config.epsilon_total_quarterly (lit 0 1) ≡ false
      → (calls : List Call) (s : FederatedBenchmarkProtocol) → IsWithin s
      → IsWithin (run calls s)
  unfolding run
  run_from-IsWithin h [] s v = v
  run_from-IsWithin h (c ∷ calls) s v = run_from-IsWithin h calls (step c s) (step-IsWithin h c s v)

  -- Whatever calls a new protocol has seen, no organization has consumed more than the quarterly
  -- privacy budget, and none stands in a cohort twice. The budget must not be below 0.
  pub run-IsWithin :
      flt config.epsilon_total_quarterly (lit 0 1) ≡ false
      → (calls : List Call) → IsWithin (run calls new_protocol)
  unfolding get_or lookup
  run-IsWithin h calls =
      run_from-IsWithin h calls new_protocol
        (record { members_once = λ cohort. tt; within = λ k. h })
