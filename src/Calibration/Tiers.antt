-- ===== src/Calibration/Tiers.antt =====
-- confidence/calibration.py and index/materializer.py: the two classifications of a confidence.
use ai_compute_intelligence.Prelude.{◌≡◌, arith}
use ai_compute_intelligence.Floats.{Floats, Float}
use ai_compute_intelligence.Index.Materializer.{ConfidenceConfig, confidence_tier}
use ai_compute_intelligence.Calibration.{
  CalibrationConfig, Fitting, get_confidence_tier, tier_value,
}

module _ ⦃F : Floats⦄ where
  -- the same settings, as the materializer reads them
  abbrev pub thresholds : CalibrationConfig → ConfidenceConfig
  thresholds config = record {
    chargeback_threshold = config.chargeback_threshold;
    provisional_threshold = config.provisional_threshold;
  }

  -- The calibration engine and the materializer put a confidence into the same tier.
  pub get_confidence_tier-confidence_tier :
      (L : Fitting) (config : CalibrationConfig) (confidence : Float)
      → tier_value (get_confidence_tier L config confidence)
        ≡ confidence_tier (thresholds config) confidence
  unfolding get_confidence_tier confidence_tier
  get_confidence_tier-confidence_tier L config confidence = ground arith
