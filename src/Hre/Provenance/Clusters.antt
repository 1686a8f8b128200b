-- ===== src/Hre/Provenance/Clusters.antt =====
-- hre/engine.py: the targets of the clusters that the engine forms and chooses from.
use ai_compute_intelligence.Prelude.{
  ℕ, zero, suc, ◌+◌, ltb, List, [], ◌∷◌, ◌++◌, some, length, Bool-cases, Option-cases, inl, inr,
  subst,
}
use ai_compute_intelligence.Prelude.Dict.{Dict, lookup}
use ai_compute_intelligence.Prelude.Every.{
  Every, Ensures, Every-append_last, Every-insert_value, lookup-Ensures,
}
use ai_compute_intelligence.Floats.{Floats, Float, flt}
use ai_compute_intelligence.Combination.{CombinationConfig}
use ai_compute_intelligence.Hre.{Python, ReconciliationSignal, HreExecutionConfig}
use ai_compute_intelligence.Hre.Engine.{
  Readings, Cluster, Best, top, best_signal, add_to_clusters, cluster_by_target, insert_ranked,
  rank, take, limited, exceeded_budget, combined_confidence_of, best_cluster,
}

module _ {ℓ} ⦃F : Floats⦄ {A : Type ℓ} (R : A → Type 0) (key : A → Float) where
  insert_ranked-Every :
      (a : A) (sorted : List A) → R a → Every R sorted → Every R (insert_ranked key a sorted)
  unfolding insert_ranked
  insert_ranked-Every a [] r all = (r, tt)
  insert_ranked-Every a (b ∷ sorted) r all = elim (Bool-cases (flt (key b) (key a))) [
    | inl higher ↦ rw (higher, insert_ranked) (r, all)
    | inr lower ↦ rw (lower, insert_ranked) (all.0, insert_ranked-Every a sorted r all.1)
  ]

  rank-Every :
      (sorted rest : List A) → Every R sorted → Every R rest → Every R (rank key sorted rest)
  unfolding rank
  rank-Every sorted [] all more = all
  rank-Every sorted (a ∷ rest) all more =
      rank-Every (insert_ranked key a sorted) rest (insert_ranked-Every a sorted more.0 all) more.1

  take-Every : (n : ℕ) (xs : List A) → Every R xs → Every R (take n xs)
  unfolding take
  take-Every zero xs all = tt
  take-Every (suc n) [] all = tt
  take-Every (suc n) (x ∷ xs) all = (all.0, take-Every n xs all.1)

module _ ⦃F : Floats⦄ (Q : ReconciliationSignal → Type 0) where
  -- every signal of the cluster
  abbrev pub InCluster : Cluster → Type 0
  InCluster (s, rest) = Q s × Every Q rest

  pub best_signal-Has :
      (s : ReconciliationSignal) (signals : List ReconciliationSignal)
      → Q s
      → Every Q signals
      → Q (best_signal s signals)
  unfolding best_signal
  best_signal-Has s [] q all = q
  best_signal-Has s (t ∷ signals) q all = elim (Bool-cases (flt s.confidence t.confidence)) [
    | inl more ↦ rw (more, best_signal) (best_signal-Has t signals all.0 all.1)
    | inr less ↦ rw (less, best_signal) (best_signal-Has s signals q all.1)
  ]

  add_to_clusters-Every :
      (s : ReconciliationSignal) (clusters : Dict Cluster)
      → Q s
      → Every (λ e. InCluster e.1) clusters
      → Every (λ e. InCluster e.1) (add_to_clusters s clusters)
  unfolding add_to_clusters
  add_to_clusters-Every s clusters q all =
      let before = lookup-Ensures InCluster s.target_entity clusters all in
      elim (Option-cases (lookup s.target_entity clusters)) [
        | inl new ↦
            rw (new, add_to_clusters)
              (Every-insert_value InCluster s.target_entity (s, []) clusters (q, tt) all)
        | inr ((first, rest), found) ↦
            let (p, more) = subst (Ensures InCluster) found before in
            rw (found, add_to_clusters)
              (Every-insert_value InCluster s.target_entity (first, rest ++ s ∷ []) clusters
                (p, Every-append_last Q rest s more q) all)
      ]

  pub cluster_by_target-Every :
      (signals : List ReconciliationSignal) (clusters : Dict Cluster)
      → Every Q signals
      → Every (λ e. InCluster e.1) clusters
      → Every (λ e. InCluster e.1) (cluster_by_target signals clusters)
  unfolding cluster_by_target
  cluster_by_target-Every [] clusters a all = all
  cluster_by_target-Every (s ∷ signals) clusters a all =
      cluster_by_target-Every signals (add_to_clusters s clusters) a.1
        (add_to_clusters-Every s clusters a.0 all)

  module _ (P : Python) (round4 : Float → Float) (config : CombinationConfig)
      (limits : HreExecutionConfig) where
    pub limited-Every :
        (clusters : Dict Cluster)
        → Every (λ e. InCluster e.1) clusters
        → Every (λ e. InCluster e.1) (limited P round4 config limits clusters)
    unfolding limited
    limited-Every clusters all =
        elim (Bool-cases (ltb limits.max_cluster_targets (length clusters))) [
          | inl many ↦
              rw (many, limited)
                (take-Every (λ e. InCluster e.1) (λ e. top e.1) limits.max_cluster_targets _
                  (rank-Every (λ e. InCluster e.1) (λ e. top e.1) [] clusters tt all))
          | inr few ↦ rw (few, limited) all
        ]

    pub best_cluster-Ensures :
        (clock : Readings) (n : ℕ) (clusters : Dict Cluster) (best : Best)
        → Every (λ e. InCluster e.1) clusters
        → Ensures (λ b. InCluster b.1) best.1
        → Ensures (λ b. InCluster b.1) (best_cluster P round4 config limits clock n clusters best).1
    unfolding best_cluster
    best_cluster-Ensures clock n [] best all b = b
    best_cluster-Ensures clock n ((target, cluster) ∷ clusters) (confidence, best) all b =
        let c = combined_confidence_of P round4 config limits cluster in
        elim (Bool-cases (exceeded_budget P round4 config limits clock.started (clock.checked n))) [
          | inl late ↦ rw (late, best_cluster) b
          | inr early ↦ elim (Bool-cases (flt confidence c)) [
            | inl higher ↦
                rw (early, higher, best_cluster)
                  (best_cluster-Ensures clock (n + 1) clusters (c, some (target, cluster)) all.1
                    all.0)
            | inr lower ↦
                rw (early, lower, best_cluster)
                  (best_cluster-Ensures clock (n + 1) clusters (confidence, best) all.1 b)
          ]
        ]
