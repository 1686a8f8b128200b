-- ===== src/Hre/Engine/Results.antt =====
-- hre/engine.py: the clusters of signals and the results that are built from them.
use ai_compute_intelligence.Prelude.{
  ℕ, zero, suc, if◌then◌else◌, List, [], ◌∷◌, ◌++◌, map, String, str_eq, concat, none, some,
}
use ai_compute_intelligence.Prelude.Dict
use ai_compute_intelligence.Prelude.Dict.{Dict}
use ai_compute_intelligence.Floats.{Floats, Float, lit, flt, fmul}
use ai_compute_intelligence.Index.{
  FractionalAttribution, FeatureValue, ContributingSignal, Alternative, AttributionResult,
}
use ai_compute_intelligence.Hre.{ReconciliationSignal}

module _ ⦃F : Floats⦄ where
  -- the signals of one target, which are one at least
  abbrev pub Cluster : Type 0
  Cluster = ReconciliationSignal × List ReconciliationSignal

  abbrev pub members : Cluster → List ReconciliationSignal
  members (s, rest) = s ∷ rest

  -- `sep.join(parts)`
  unfoldable pub join : String → List String → String
  join sep [] = ""
  join sep (s ∷ parts) = elim parts [ [] ↦ s | _ ∷ _ ↦ concat (s ∷ sep ∷ join sep parts ∷ []) ]

  -- `max(signals, key=lambda s: s.confidence)`: the first of the greatest
  unfoldable pub best_signal :
      ReconciliationSignal → List ReconciliationSignal → ReconciliationSignal
  best_signal s [] = s
  best_signal s (t ∷ signals) = best_signal (if flt s.confidence t.confidence then t else s) signals

  -- the first source of a signal, or else its method
  abbrev source_of : ReconciliationSignal → String
  source_of s = elim s.signals [ [] ↦ s.method | x ∷ _ ↦ x ]

  features_of : List ReconciliationSignal → Dict (Dict FeatureValue) → Dict (Dict FeatureValue)
  features_of [] features = features
  features_of (s ∷ signals) features =
      features_of signals (Dict.insert s.method s.feature_values features)

  contribution : ReconciliationSignal → ContributingSignal
  contribution s = record { method = s.method; confidence = s.confidence; signals = s.signals }

  unfoldable pub build_result :
      String
      → ReconciliationSignal
      → List ReconciliationSignal
      → Float
      → List Alternative
      → List FractionalAttribution
      → AttributionResult
  unfolding join features_of contribution
  build_result entity_id primary all_signals combined alternatives fractional =
      let methods = join "+" (map (λ s. s.method) all_signals) in
      record {
        workload_id = entity_id;
        attribution_path =
            record {
              layer = "Identity";
              node_id = entity_id;
              node_label = entity_id;
              confidence = combined;
              method = methods;
              source = join ", " (map (λ s. source_of s) all_signals);
            }
            ∷ [];
        combined_confidence = combined;
        explanation = some (record {
          attribution_id = concat ("attr_" ∷ entity_id ∷ "_" ∷ primary.target_entity ∷ []);
          target_entity = primary.target_entity;
          confidence_score = combined;
          method_used = methods;
          top_contributing_signals = map contribution all_signals;
          feature_values = features_of all_signals [];
          alternatives_considered = alternatives;
        });
        fractional_attributions = fractional;
        conflicts = [];
      }

  -- step 5 of `resolve`
  unfoldable pub unresolved : String → AttributionResult
  unresolved entity_id = record {
    workload_id = entity_id;
    attribution_path = [];
    combined_confidence = lit 0 1;
    explanation = some (record {
      attribution_id = concat ("attr_" ∷ entity_id ∷ []);
      target_entity = "unresolved";
      confidence_score = lit 0 1;
      method_used = "none";
      top_contributing_signals = [];
      feature_values = [];
      alternatives_considered = [];
    });
    fractional_attributions = [];
    conflicts = [];
  }

  -- `_timeboxed_fallback`, on signals that are one at least
  unfoldable pub timeboxed_fallback :
      String → ReconciliationSignal → List ReconciliationSignal → AttributionResult
  unfolding build_result best_signal
  timeboxed_fallback entity_id s signals =
      let best = best_signal s signals in
      build_result entity_id best (best ∷ []) (fmul best.confidence (lit 9 10)) [] []

  unfoldable pub add_to_clusters : ReconciliationSignal → Dict Cluster → Dict Cluster
  add_to_clusters s clusters = elim (Dict.lookup s.target_entity clusters) [
    | none ↦ Dict.insert s.target_entity (s, []) clusters
    | some (first, rest) ↦ Dict.insert s.target_entity (first, rest ++ s ∷ []) clusters
  ]

  unfoldable pub cluster_by_target : List ReconciliationSignal → Dict Cluster → Dict Cluster
  unfolding add_to_clusters
  cluster_by_target [] clusters = clusters
  cluster_by_target (s ∷ signals) clusters = cluster_by_target signals (add_to_clusters s clusters)

  abbrev pub top : Cluster → Float
  top (s, rest) = (best_signal s rest).confidence

  -- the stable sorts by a number, highest first
  unfoldable pub insert_ranked {ℓ} : {A : Type ℓ} → (A → Float) → A → List A → List A
  insert_ranked key a [] = a ∷ []
  insert_ranked key a (b ∷ sorted) =
      let rest = insert_ranked key a sorted in
      if flt (key b) (key a) then a ∷ b ∷ sorted else b ∷ rest

  unfoldable pub rank {ℓ} : {A : Type ℓ} → (A → Float) → List A → List A → List A
  unfolding insert_ranked
  rank key sorted [] = sorted
  rank key sorted (a ∷ rest) = rank key (insert_ranked key a sorted) rest

  unfoldable pub take {ℓ} : {A : Type ℓ} → ℕ → List A → List A
  take zero xs = []
  take (suc n) [] = []
  take (suc n) (x ∷ xs) = x ∷ take n xs

  unfoldable pub alternatives_of : String → Dict Cluster → List Alternative
  unfolding best_signal
  alternatives_of best_target [] = []
  alternatives_of best_target ((target, cluster) ∷ clusters) =
      let rest = alternatives_of best_target clusters in
      if str_eq target best_target
      then rest
      else record {
        team_id = target;
        confidence = top cluster;
        methods = map (λ s. s.method) (members cluster);
      }
        ∷ rest

  unfoldable pub build_alternatives : Dict Cluster → String → List Alternative
  unfolding alternatives_of rank
  build_alternatives clusters best_target =
      rank (λ a. a.confidence) [] (alternatives_of best_target clusters)
