-- ===== src/Calibration.antt =====
-- confidence/calibration.py with models/confidence.py: `CalibrationEngine`. What numpy, scipy and
-- scikit-learn compute is the parameter `Fitting`; the logging is left out.
mod Curves
pub mod Refit
pub mod Tiers
mod Tests
unfoldable pub use Curves.*
use ai_compute_intelligence.Prelude.{
  ℕ, ◌+◌, leb, Bool, true, false, ◌&&◌, if◌then◌else◌, List, [], ◌∷◌, ◌++◌, map, String, Option,
  none, some, length,
}
use ai_compute_intelligence.Prelude.Dict
use ai_compute_intelligence.Prelude.Dict.{Dict}
use ai_compute_intelligence.Floats.{Floats, Float, lit, flt, fle, fadd, fsub, fmul, fdiv}
use ai_compute_intelligence.Combination.{fmin, fmax}

pub data ConfidenceTier : Type 0 where
  chargeback_ready provisional estimated : ConfidenceTier

abbrev pub tier_value : ConfidenceTier → String
tier_value chargeback_ready = "chargeback_ready"
tier_value provisional = "provisional"
tier_value estimated = "estimated"

module _ ⦃F : Floats⦄ where
  -- what the engine reads of `ConfidenceConfig`
  pub record CalibrationConfig : Type 0 where
    pub cap : Float
    pub chargeback_threshold : Float
    pub provisional_threshold : Float
    pub min_samples_full_calibration : ℕ
    pub min_samples_bootstrap : ℕ
    pub decay_window_days : ℕ
    pub decay_rate : Float

  pub record GroundTruthLabel : Type 0 where
    pub attribution_id : String
    pub true_team_id : String
    pub true_cost_center_id : String
    pub source : String
    pub predicted_team_id : String
    pub predicted_confidence : Float
    pub method_used : String
    pub was_correct : Bool

  -- a score, an outcome and a weight
  abbrev pub Sample : Type 0
  Sample = Float × Float × Float

  pub record Fitting : Type 1 where
    -- a fitted `IsotonicRegression`
    pub Model : Type 0
    -- `IsotonicRegression(y_min=0.0, y_max=cap, out_of_bounds="clip").fit(...)`
    pub fit : Float → List Sample → Model
    pub predict : Model → Float → Float
    -- the points of `np.linspace(0.0, 1.0, 50)` after the first, 0.0
    pub test_points : List Float
    -- `ks_2samp(a, b)`, its statistic
    pub ks_2samp : List Float → List Float → Float
    -- the medians of the resampled fits at 20 points, and the means of their percentiles
    pub bootstrap : Float → List Sample → (Point × List Point) × (Float × Float)
    pub exp_neg : Float → Float

  module _ (L : Fitting) where
    pub record CalibrationEngine : Type 0 where
      pub curves : Dict CalibrationCurve
      pub ground_truth : Dict (List GroundTruthLabel)
      pub iso_models : Dict L.Model

    abbrev pub new_engine : CalibrationEngine
    new_engine = record {
      curves = warm_start_of warm_start_curves;
      ground_truth = [];
      iso_models = [];
    }

    module _ (config : CalibrationConfig) where
      unfoldable pub calibrate : String → Float → CalibrationEngine → Float
      unfolding interpolate
      calibrate method raw_confidence s = elim (Dict.lookup method s.curves) [
        | none ↦ fmul raw_confidence (lit 7 10)
        | some curve ↦ elim (Dict.lookup method s.iso_models) [
          | some model ↦ fmin config.cap (fmax (lit 0 1) (L.predict model raw_confidence))
          | none ↦ interpolate curve.first_point curve.points raw_confidence
        ]
      ]

      -- the samples of the labels, and `_with_tail_anchors`
      unfoldable pub samples_of : List GroundTruthLabel → List Sample
      samples_of [] = (lit 0 1, lit 0 1, lit 5 100) ∷ (lit 1 1, lit 1 1, lit 5 100) ∷ []
      samples_of (l ∷ labels) =
          (l.predicted_confidence, (if l.was_correct then lit 1 1 else lit 0 1), lit 1 1)
          ∷ samples_of labels

      unfoldable pub ks_of : String → L.Model → Option Float
      unfolding interpolate
      ks_of method iso = elim (Dict.lookup method warm_start_curves) [
        | none ↦ none
        | some points ↦
            let at = lit 0 1 ∷ L.test_points in
            some (L.ks_2samp (map (L.predict iso) at) (map (interpolate origin points) at))
      ]

      unfoldable pub fit_isotonic : String → CalibrationEngine → CalibrationEngine
      unfolding samples_of ks_of
      fit_isotonic method s =
          let labels = Dict.get_or method [] s.ground_truth in
          let iso = L.fit config.cap (samples_of labels) in
          record s {
            iso_models = Dict.insert method iso s.iso_models;
            curves =
                Dict.insert method
                  (record {
                    method = method;
                    first_point = (lit 0 1, L.predict iso (lit 0 1));
                    points = map (λ x. (x, L.predict iso x)) L.test_points;
                    sample_count = length labels;
                    is_warm_start = false;
                    ks_statistic = ks_of method iso;
                    uncertainty_band = none;
                  })
                  s.curves;
          }

      unfoldable pub fit_bootstrap : String → CalibrationEngine → CalibrationEngine
      unfolding samples_of
      fit_bootstrap method s =
          let labels = Dict.get_or method [] s.ground_truth in
          let ((first, points), band) = L.bootstrap config.cap (samples_of labels) in
          record s {
            curves =
                Dict.insert method
                  (record {
                    method = method;
                    first_point = first;
                    points = points;
                    sample_count = length labels;
                    is_warm_start = true;
                    ks_statistic = none;
                    uncertainty_band = some band;
                  })
                  s.curves;
          }

      abbrev pub recorded : GroundTruthLabel → CalibrationEngine → CalibrationEngine
      recorded label s = record s {
        ground_truth =
            Dict.insert label.method_used
              (Dict.get_or label.method_used [] s.ground_truth ++ label ∷ []) s.ground_truth;
      }

      unfoldable pub add_ground_truth : GroundTruthLabel → CalibrationEngine → CalibrationEngine
      unfolding fit_isotonic fit_bootstrap
      add_ground_truth label s =
          let method = label.method_used in
          let t = recorded label s in
          let count = length (Dict.get_or method [] t.ground_truth) in
          if leb config.min_samples_full_calibration count
          then fit_isotonic method t
          else if leb config.min_samples_bootstrap count
          then fit_bootstrap method t
          else t

      unfoldable pub get_confidence_tier : Float → ConfidenceTier
      get_confidence_tier confidence =
          if fle config.chargeback_threshold confidence
          then chargeback_ready
          else if fle config.provisional_threshold confidence
          then provisional
          else estimated

      unfoldable pub apply_temporal_decay : Float → Float → Float
      apply_temporal_decay confidence signal_age_days =
          let window = lit config.decay_window_days 1 in
          let excess_days = fsub signal_age_days window in
          if fle signal_age_days window
          then confidence
          else fmul confidence (L.exp_neg (fmul config.decay_rate excess_days))
