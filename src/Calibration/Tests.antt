-- ===== src/Calibration/Tests.antt =====
-- Runs of the calibration engine, and its theorems at concrete inputs.
use ai_compute_intelligence.Prelude.{◌≡◌, refl, arith, true, String, List, [], ◌∷◌}
use ai_compute_intelligence.Prelude.Dict.{lookup}
use ai_compute_intelligence.Floats.{micro, lit}
use ai_compute_intelligence.Samples.{fitting, calibration}
use ai_compute_intelligence.Calibration.{
  GroundTruthLabel, new_engine, calibrate, interpolate, warm_start_of, last_first, reversed,
  run_max, between,
}
use ai_compute_intelligence.Calibration.Refit.{Reflects, add_all, add_all-refit}

abbrev label : String → GroundTruthLabel
label method = record {
  attribution_id = "a";
  true_team_id = "t";
  true_cost_center_id = "c";
  source = "user_correction";
  predicted_team_id = "t";
  predicted_confidence = lit 7 10;
  method_used = method;
  was_correct = true;
}

abbrev labels : List GroundTruthLabel
labels = label "R3" ∷ label "R1" ∷ label "R3" ∷ []

add_all-refit_example :
    Reflects fitting calibration labels (add_all fitting calibration labels (new_engine fitting))
add_all-refit_example = add_all-refit fitting calibration (omega arith) labels

-- 0.35 and 0.52 stand at 0.5 and 0.7.
interpolates : calibrate fitting calibration "R3" (lit 6 10) (new_engine fitting) ≡ lit 435 1000
unfolding calibrate lookup interpolate warm_start_of last_first reversed run_max between
interpolates = refl
