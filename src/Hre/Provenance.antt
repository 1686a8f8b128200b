-- ===== src/Hre/Provenance.antt =====
-- hre/engine.py and hre/methods.py: where the owner that a result names comes from.
pub mod Methods
pub mod Scores
pub mod Clusters
use ai_compute_intelligence.Prelude.{
  ℕ, zero, suc, ◌+◌, ◌-◌, ◌≡◌, ◌⊎◌, refl, arith, Bool, true, false, if◌then◌else◌, List, [], ◌∷◌,
  ◌++◌, map, String, mem, Option, none, some, length, Bool-cases, Option-cases, List-cases, inl,
  inr, subst,
}
use ai_compute_intelligence.Prelude.Every.{
  Every, Ensures, Every-append, Every-drop, Every-mem, Every-weaken,
}
use ai_compute_intelligence.Floats.{Floats, Float, lit, flt, fle}
use ai_compute_intelligence.Combination.{CombinationConfig}
use ai_compute_intelligence.Index.{AttributionResult, ExplanationArtifact}
use ai_compute_intelligence.Hre.{
  Python, ReconciliationSignal, HreExecutionConfig, ReconciliationContext,
}
use ai_compute_intelligence.Hre.Methods.{
  resolve_r1, resolve_r2, resolve_r3, resolve_r4, resolve_r5, resolve_r6,
}
use ai_compute_intelligence.Hre.Engine.{
  Readings, Cluster, Best, best_signal, build_result, unresolved, timeboxed_fallback,
  cluster_by_target, limited, best_cluster, exceeded_budget, optional, latest,
  probabilistic_signals, resolve_proportional, resolve_signals, reconcile,
}
use ai_compute_intelligence.Hre.Provenance.Methods.{
  resolve_r1-Ensures, resolve_r2-Ensures, resolve_r3-Ensures,
}
use ai_compute_intelligence.Hre.Provenance.Scores.{
  resolve_r4-Ensures, resolve_r5-Ensures, resolve_r6-Every,
}
use ai_compute_intelligence.Hre.Provenance.Clusters.{
  InCluster, best_signal-Has, cluster_by_target-Every, limited-Every, best_cluster-Ensures,
}

module _ ⦃F : Floats⦄ where
  -- the sources of an owner in the data that a reconciliation is given
  pub data IsKnown (ctx : ReconciliationContext) (t : String) : Type 0 where
    mapped : mem t (map (λ e. e.1) ctx.identity_mappings) ≡ true → IsKnown ctx t
    correlated : mem t (map (λ e. e.1) ctx.temporal_events) ≡ true → IsKnown ctx t
    named : mem t (map (λ e. e.0) ctx.naming_patterns) ≡ true → IsKnown ctx t
    historical : mem t (map (λ e. e.0) ctx.historical_attributions) ≡ true → IsKnown ctx t
    deploys : mem t (map (λ e. e.0) ctx.deployment_owners) ≡ true → IsKnown ctx t
    owns : mem t (map (λ e. e) ctx.code_owners) ≡ true → IsKnown ctx t
    uses : mem t (map (λ e. e.0) ctx.recent_users) ≡ true → IsKnown ctx t
    shares : mem t (map (λ e. e.0) ctx.proportional_users) ≡ true → IsKnown ctx t

  -- The result says that nothing was found, or names an owner of the data.
  abbrev pub Attributes : String → ReconciliationContext → AttributionResult → Type 0
  Attributes entity_id ctx r =
      (r ≡ unresolved entity_id)
      ⊎ ((x : ExplanationArtifact) × (r.explanation ≡ some x) × IsKnown ctx x.target_entity)

  module _ (P : Python) (round4 : Float → Float) (config : CombinationConfig)
      (limits : HreExecutionConfig) where
    optional-Every :
        {A : Type 0} → (R : A → Type 0) (o : Option A) → Ensures R o → Every R (optional o)
    optional-Every R none h = tt
    optional-Every R (some a) h = (h, tt)

    latest-Every :
        (R : String × Float → Type 0) (n : ℕ) (history : List (String × Float))
        → Every R history
        → Every R (latest n history)
    latest-Every R zero history a = a
    latest-Every R (suc n) history a = Every-drop R (length history - suc n) history a

    module _ (entity_id : String) (ctx : ReconciliationContext) where
      abbrev Known : ReconciliationSignal → Type 0
      Known s = IsKnown ctx s.target_entity

      names-IsKnown {ℓ} :
          {A : Type ℓ}
          → (f : A → String) (xs : List A)
          → ((x : A) → mem (f x) (map f xs) ≡ true → IsKnown ctx (f x))
          → Every (λ x. IsKnown ctx (f x)) xs
      names-IsKnown f xs known =
          Every-weaken (λ x. mem (f x) (map f xs) ≡ true) (λ x. IsKnown ctx (f x)) known xs
            (Every-mem f xs)

      resolve_proportional-Attributes :
          Attributes entity_id ctx (resolve_proportional P round4 config limits entity_id ctx)
      unfolding resolve_proportional build_result
      resolve_proportional-Attributes =
          let users = ctx.proportional_users in
          let all =
            resolve_r6-Every P (IsKnown ctx) entity_id users
              (names-IsKnown (λ e. e.0) users (λ e h. shares h)) in
          elim (List-cases (resolve_r6 P entity_id users)) [
            | inl nothing ↦ rw (nothing, resolve_proportional) (inl refl)
            | inr (s, signals, found) ↦
                let known = subst (Every Known) found all in
                rw (found, resolve_proportional)
                  (inr (_, refl, best_signal-Has Known s signals known.0 known.1))
          ]

      resolve_signals-Attributes :
          (clock : Readings) (signals : List ReconciliationSignal)
          → Every Known signals
          → Attributes entity_id ctx
              (resolve_signals P round4 config limits clock entity_id ctx signals)
      unfolding resolve_signals build_result timeboxed_fallback
      resolve_signals-Attributes clock [] all = resolve_proportional-Attributes
      resolve_signals-Attributes clock (s ∷ signals) all =
          let clusters = limited P round4 config limits (cluster_by_target (s ∷ signals) []) in
          let grouped =
            limited-Every Known P round4 config limits _
              (cluster_by_target-Every Known (s ∷ signals) [] all tt) in
          let best = best_cluster P round4 config limits clock 1 clusters (lit 0 1, none) in
          let found =
            best_cluster-Ensures Known P round4 config limits clock 1 clusters (lit 0 1, none)
              grouped tt in
          elim (Bool-cases
            (exceeded_budget P round4 config limits clock.started (clock.checked 0))) [
              | inl late ↦
                  rw (late, resolve_signals)
                    (inr (_, refl, best_signal-Has Known s signals all.0 all.1))
              | inr early ↦ elim (Option-cases best.1) [
                | inl nothing ↦ rw (early, nothing, resolve_signals) resolve_proportional-Attributes
                | inr ((target, (primary, others)), some_cluster) ↦
                    elim (Bool-cases (flt (lit 0 1) best.0)) [
                      | inl positive ↦
                          rw (early, some_cluster, positive, resolve_signals)
                            (inr (
                              _,
                              refl,
                              (subst (Ensures (λ b. InCluster Known b.1)) some_cluster found).0,
                            ))
                      | inr zero_confidence ↦
                          rw (early, some_cluster, zero_confidence, resolve_signals)
                            resolve_proportional-Attributes
                    ]
              ]
            ]

      probabilistic_signals-Every :
          ((xs : List String) → Every (IsKnown ctx) xs → Every (IsKnown ctx) (P.set_order xs))
          → (event_time : ℕ)
          → Every Known (probabilistic_signals P round4 config limits entity_id event_time ctx)
      unfolding probabilistic_signals
      probabilistic_signals-Every order event_time =
          let r1 = optional-Every Known _ (
            resolve_r1-Ensures P (IsKnown ctx) entity_id ctx.identity_mappings
              (names-IsKnown (λ e. e.1) ctx.identity_mappings (λ e h. mapped h))) in
          let r2 = optional-Every Known _ (
            resolve_r2-Ensures P (IsKnown ctx) event_time entity_id ctx.temporal_events
              (names-IsKnown (λ e. e.1) ctx.temporal_events (λ e h. correlated h))) in
          let r3 = optional-Every Known _ (
            resolve_r3-Ensures P (IsKnown ctx) entity_id ctx.naming_patterns
              (names-IsKnown (λ e. e.0) ctx.naming_patterns (λ e h. named h))) in
          let past =
            latest-Every (λ e. IsKnown ctx e.0) limits.max_historical_signals
              ctx.historical_attributions
              (names-IsKnown (λ e. e.0) ctx.historical_attributions (λ e h. historical h)) in
          let r4 = optional-Every Known _ (
            resolve_r4-Ensures P (IsKnown ctx) entity_id
              (latest limits.max_historical_signals ctx.historical_attributions) past) in
          let owners = names-IsKnown (λ e. e.0) ctx.deployment_owners (λ e h. deploys h) in
          let coders = names-IsKnown (λ e. e) ctx.code_owners (λ e h. owns h) in
          let users = names-IsKnown (λ e. e.0) ctx.recent_users (λ e h. uses h) in
          let r5 = optional-Every Known _ (
            resolve_r5-Ensures P (IsKnown ctx) order entity_id ctx.deployment_owners ctx.code_owners
              ctx.recent_users event_time owners coders users) in
          Every-append Known _ _
            (Every-append Known _ _ (Every-append Known _ _ (Every-append Known _ _ r1 r2) r3) r4)
            r5

      -- The engine makes no owner up: its result either is the unresolved one, with confidence 0, or
      -- names a target that stands in the data it was given: a mapped identity, a correlated event, a
      -- team with a naming pattern, a past attribution, a deployer, a code owner, a recent user, or a
      -- team with a share. The iteration over a set must meet elements of the set only.
      pub reconcile-Attributes :
          ((xs : List String) → Every (IsKnown ctx) xs → Every (IsKnown ctx) (P.set_order xs))
          → (clock : Readings) (event_time : ℕ)
          → Attributes entity_id ctx
              (reconcile P round4 config limits clock entity_id event_time ctx)
      unfolding reconcile build_result
      reconcile-Attributes order clock event_time =
          let direct =
            resolve_r1-Ensures P (IsKnown ctx) entity_id ctx.identity_mappings
              (names-IsKnown (λ e. e.1) ctx.identity_mappings (λ e h. mapped h)) in
          let otherwise =
            resolve_signals-Attributes clock _ (probabilistic_signals-Every order event_time) in
          elim (Option-cases (resolve_r1 P entity_id ctx.identity_mappings)) [
            | inl nothing ↦ rw (nothing, reconcile) otherwise
            | inr (s, found) ↦ elim (Bool-cases (fle (lit 98 100) s.confidence)) [
              | inl sure ↦
                  rw (found, sure, reconcile) (inr (_, refl, subst (Ensures Known) found direct))
              | inr unsure ↦ rw (found, unsure, reconcile) otherwise
            ]
          ]
