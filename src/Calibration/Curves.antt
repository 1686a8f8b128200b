-- ===== src/Calibration/Curves.antt =====
-- confidence/calibration.py: the curves, the warm-start curves among them, and their interpolation.
use ai_compute_intelligence.Prelude.{
  ℕ, Bool, true, ◌&&◌, if◌then◌else◌, List, [], ◌∷◌, String, Option, none,
}
use ai_compute_intelligence.Prelude.Dict.{Dict}
use ai_compute_intelligence.Floats.{Floats, Float, lit, fle, fadd, fsub, fmul, fdiv}
use ai_compute_intelligence.Combination.{fmax}

module _ ⦃F : Floats⦄ where
  -- a raw score with its calibrated one
  abbrev pub Point : Type 0
  Point = Float × Float

  -- `raw_scores` and `calibrated_scores` are lists of the same length, of one point at least.
  pub record CalibrationCurve : Type 0 where
    pub method : String
    pub first_point : Point
    pub points : List Point
    pub sample_count : ℕ
    pub is_warm_start : Bool
    pub ks_statistic : Option Float
    pub uncertainty_band : Option (Float × Float)

  -- `WARM_START_CURVES`
  abbrev pub warm_start_curves : Dict (List Point)
  warm_start_curves =
      (
        "R1",
        (lit 5 10, lit 5 10)
            ∷ (lit 9 10, lit 92 100)
            ∷ (lit 98 100, lit 98 100)
            ∷ (lit 1 1, lit 1 1)
            ∷ [],
      )
      ∷ (
        "R2",
        (lit 3 10, lit 22 100)
            ∷ (lit 5 10, lit 40 100)
            ∷ (lit 7 10, lit 58 100)
            ∷ (lit 9 10, lit 82 100)
            ∷ (lit 1 1, lit 90 100)
            ∷ [],
      )
      ∷ (
        "R3",
        (lit 3 10, lit 18 100)
            ∷ (lit 5 10, lit 35 100)
            ∷ (lit 7 10, lit 52 100)
            ∷ (lit 9 10, lit 75 100)
            ∷ (lit 1 1, lit 85 100)
            ∷ [],
      )
      ∷ (
        "R4",
        (lit 3 10, lit 20 100)
            ∷ (lit 5 10, lit 38 100)
            ∷ (lit 7 10, lit 55 100)
            ∷ (lit 9 10, lit 78 100)
            ∷ (lit 1 1, lit 88 100)
            ∷ [],
      )
      ∷ (
        "R5",
        (lit 3 10, lit 15 100)
            ∷ (lit 5 10, lit 30 100)
            ∷ (lit 7 10, lit 48 100)
            ∷ (lit 9 10, lit 68 100)
            ∷ (lit 1 1, lit 75 100)
            ∷ [],
      )
      ∷ (
        "R6",
        (lit 3 10, lit 12 100)
            ∷ (lit 5 10, lit 25 100)
            ∷ (lit 7 10, lit 40 100)
            ∷ (lit 9 10, lit 58 100)
            ∷ (lit 1 1, lit 65 100)
            ∷ [],
      )
      ∷ []

  -- each of these curves starts at (0.0, 0.0)
  abbrev pub origin : Point
  origin = (lit 0 1, lit 0 1)

  unfoldable pub warm_start_of : Dict (List Point) → Dict CalibrationCurve
  warm_start_of [] = []
  warm_start_of ((method, points) ∷ curves) =
      (
        method,
        record {
          method = method;
          first_point = origin;
          points = points;
          sample_count = 0;
          is_warm_start = true;
          ks_statistic = none;
          uncertainty_band = none;
        },
      )
      ∷ warm_start_of curves

  unfoldable pub reversed : List Point → List Point → List Point
  reversed [] behind = behind
  reversed (p ∷ points) behind = reversed points (p ∷ behind)

  -- the greatest calibrated score of the points that follow with the same raw score
  unfoldable pub run_max : Float → Float → List Point → Float
  run_max raw best [] = best
  run_max raw best ((r, c) ∷ points) =
      let more = run_max raw (fmax best c) points in if fle r raw && fle raw r then more else best

  unfoldable pub between : Point → List Point → Float → Float
  between p [] value = value
  between (r, c) ((r', c') ∷ points) value =
      let later = between (r', c') points value in
      let t = fdiv (fsub value r) (fsub r' r) in
      if fle r value && fle value r'
      then (if fle (fsub r' r) (lit 0 1) then fmax c c' else fadd c (fmul t (fsub c' c)))
      else later

  -- the point at the end, and the others, last first
  unfoldable pub last_first : Point → List Point → Point × List Point
  unfolding reversed
  last_first p points = elim (reversed (p ∷ points) []) [ [] ↦ (p, []) | q ∷ behind ↦ (q, behind) ]

  unfoldable pub interpolate : Point → List Point → Float → Float
  unfolding run_max between last_first
  interpolate first points value =
      let (last, behind) = last_first first points in
      if fle value first.0
      then run_max first.0 first.1 points
      else if fle last.0 value
      then run_max last.0 last.1 behind
      else between first points value
