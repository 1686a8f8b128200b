-- ===== src/Finops/Drift.antt =====
-- finops/reconciliation.py: what `summarize_drift` counts.
use ai_compute_intelligence.Prelude.{
  ℕ, ◌+◌, ◌≡◌, refl, sym, subst, ◌∙◌, arith, false, List, [], ◌∷◌, ◌++◌, String, some, length, keep,
  map, length-append, length-keep-le, Option-cases, inl, inr, some-injective,
}
use ai_compute_intelligence.Prelude.Dict.{Dict, lookup, insert, get_or}
use ai_compute_intelligence.Floats.{Floats, lit, fsub}
use ai_compute_intelligence.Finops.{
  CostRecord, Ledger, is_reconciled, CostDriftSummary, buckets_from, summary_of, place, sort_from,
  summarize_drift, group_key, sum_from, absolute,
}

module _ ⦃F : Floats⦄ where
  -- a number for each summary, added up
  abbrev pub sum_of : (CostDriftSummary → ℕ) → List CostDriftSummary → ℕ
  sum_of count [] = 0
  sum_of count (s ∷ summaries) = count s + sum_of count summaries

  abbrev bucket_sizes : Dict (List CostRecord) → ℕ
  bucket_sizes [] = 0
  bucket_sizes ((_, items) ∷ buckets) = length items + bucket_sizes buckets

  sum_of-place :
      (count : CostDriftSummary → ℕ) (s : CostDriftSummary) (sorted : List CostDriftSummary)
      → sum_of count (place s sorted) ≡ count s + sum_of count sorted
  unfolding place
  sum_of-place count s [] = refl
  sum_of-place count s (t ∷ sorted) = ground (arith, sum_of-place count s sorted)

  sum_of-sort_from :
      (count : CostDriftSummary → ℕ) (sorted summaries : List CostDriftSummary)
      → sum_of count (sort_from sorted summaries) ≡ sum_of count sorted + sum_of count summaries
  unfolding sort_from
  sum_of-sort_from count sorted [] = omega arith
  sum_of-sort_from count sorted (s ∷ summaries) =
      omega (arith, sum_of-sort_from count (place s sorted) summaries, sum_of-place count s sorted)

  bucket_sizes-insert :
      (key : String) (r : CostRecord) (buckets : Dict (List CostRecord))
      → bucket_sizes (insert key (get_or key [] buckets ++ r ∷ []) buckets)
        ≡ bucket_sizes buckets + 1
  unfolding insert get_or lookup
  bucket_sizes-insert key r [] = omega arith
  bucket_sizes-insert key r ((name, items) ∷ buckets) =
      ground (arith, bucket_sizes-insert key r buckets, length-append items (r ∷ []))

  bucket_sizes-buckets_from :
      (key : CostRecord → String) (ledger : Ledger) (buckets : Dict (List CostRecord))
      → bucket_sizes (buckets_from key ledger buckets) ≡ bucket_sizes buckets + length ledger
  unfolding buckets_from
  bucket_sizes-buckets_from key [] buckets = omega arith
  bucket_sizes-buckets_from key ((_, r) ∷ ledger) buckets = omega (
    arith,
    bucket_sizes-insert (key r) r buckets,
    bucket_sizes-buckets_from key ledger
        (insert (key r) (get_or (key r) [] buckets ++ r ∷ []) buckets),
  )

  abbrev pub outcomes : CostDriftSummary → ℕ
  outcomes s = s.reconciled_records + s.unresolved_records

  sum_of-buckets :
      (buckets : Dict (List CostRecord))
      → (sum_of (λ s. s.total_records) (map summary_of buckets) ≡ bucket_sizes buckets)
        × (sum_of outcomes (map summary_of buckets) ≡ bucket_sizes buckets)
  unfolding summary_of
  sum_of-buckets [] = (refl, refl)
  sum_of-buckets ((_, items) ∷ buckets) =
      let (totals, both) = sum_of-buckets buckets in
      (omega (arith, totals), omega (arith, both, length-keep-le is_reconciled items))

  -- the two counts of a list of summaries of so many records
  abbrev pub Counts : ℕ → List CostDriftSummary → Type 0
  Counts n summaries =
      (sum_of (λ s. s.total_records) summaries ≡ n) × (sum_of outcomes summaries ≡ n)

  sorted-Counts :
      (key : CostRecord → String) (ledger : Ledger)
      → Counts (length ledger) (sort_from [] (map summary_of (buckets_from key ledger [])))
  sorted-Counts key ledger =
      let buckets = buckets_from key ledger [] in
      let (totals, both) = sum_of-buckets buckets in
      let all = bucket_sizes-buckets_from key ledger [] in
      (
        omega (
          arith,
          sum_of-sort_from (λ s. s.total_records) [] (map summary_of buckets),
          totals,
          all,
        ),
        omega (arith, sum_of-sort_from outcomes [] (map summary_of buckets), both, all),
      )

  -- A summary of the drift, by provider or by service, counts every record of the ledger in exactly
  -- one group, and in it as reconciled or as unresolved.
  pub summarize_drift-counts :
      (group_by : String) (ledger : Ledger) (summaries : List CostDriftSummary)
      → summarize_drift group_by ledger ≡ some summaries
      → (sum_of (λ s. s.total_records) summaries ≡ length ledger)
        × (sum_of outcomes summaries ≡ length ledger)
  unfolding summarize_drift
  summarize_drift-counts group_by ledger summaries h = elim (Option-cases (group_key group_by)) [
    | inl unknown ↦ ground (arith, unknown, h)
    | inr (key, known) ↦
        let sorted = sort_from [] (map summary_of (buckets_from key ledger [])) in
        let step : summarize_drift group_by ledger ≡ some sorted =
          rw (known, summarize_drift) refl in
        subst (Counts (length ledger)) (some-injective sorted summaries (sym step ∙ h))
          (sorted-Counts key ledger)
  ]

  abbrev pub AllUnresolved : List CostRecord → Type 0
  AllUnresolved [] = Unit
  AllUnresolved (r ∷ items) = (is_reconciled r ≡ false) × AllUnresolved items

  keep-unresolved : (items : List CostRecord) → AllUnresolved items → keep is_reconciled items ≡ []
  keep-unresolved [] u = refl
  keep-unresolved (r ∷ items) u = ground (arith, keep-unresolved items u.1, u.0)

  -- A group with no settled cost yet is not reported as without drift: its drift is the whole
  -- synthetic cost, as if every request had turned out to be free.
  pub summary_of-unresolved :
      (group : String) (items : List CostRecord)
      → AllUnresolved items
      → ((summary_of (group, items)).unresolved_records ≡ length items)
        × ((summary_of (group, items)).absolute_drift_usd
            ≡ absolute (fsub (lit 0 1) (summary_of (group, items)).synthetic_cost_usd))
  unfolding summary_of sum_from
  summary_of-unresolved group items u =
      (ground (arith, keep-unresolved items u), rw (keep-unresolved items u) refl)
