-- ===== src/Samples.antt =====
-- The parameters that the tests of several components instantiate: what Python and the libraries do to
-- the texts and numbers of these tests, and the settings.
use ai_compute_intelligence.Prelude.{ℕ, false, [], ◌∷◌, length}
use ai_compute_intelligence.Floats.{micro, lit}
use ai_compute_intelligence.Combination.{CombinationConfig}
use ai_compute_intelligence.Hre.{Python, HreExecutionConfig}
use ai_compute_intelligence.Calibration.{CalibrationConfig, Fitting}

-- texts that need no normalization
abbrev pub python : Python
python = record {
  lower = λ s. s;
  strip = λ s. s;
  split = λ s. s ∷ [];
  sub = λ s. s;
  contains = λ a b. false;
  ratio = λ a b. lit 1 2;
  str = λ n. "n";
  round3 = λ x. x;
  sum = λ xs. lit 1 1;
  set_order = λ xs. xs;
}

abbrev pub combination : CombinationConfig
combination = record { cap = lit 95 100; diminishing_factor = lit 1 2; correlated_pairs = [] }

abbrev pub limits : HreExecutionConfig
limits = record {
  max_resolve_ms = lit 25 1;
  max_cluster_targets = 25;
  max_historical_signals = 500;
  cache_ttl_seconds = lit 30 1;
  cache_max_entries = 2;
}

abbrev pub round4 : ℕ → ℕ
round4 x = x

-- a model that predicts the number of its samples
abbrev pub fitting : Fitting
fitting = record {
  Model = ℕ;
  fit = λ cap samples. length samples;
  predict = λ model x. model;
  test_points = [];
  ks_2samp = λ a b. 0;
  bootstrap = λ cap samples. (((0, 0), []), (0, 0));
  exp_neg = λ x. x;
}

abbrev pub calibration : CalibrationConfig
calibration = record {
  cap = lit 95 100;
  chargeback_threshold = lit 8 10;
  provisional_threshold = lit 5 10;
  min_samples_full_calibration = 2;
  min_samples_bootstrap = 1;
  decay_window_days = 90;
  decay_rate = lit 1 100;
}
