-- ===== src/Forecast.antt =====
-- forecast/engine.py: `SpendForecastEngine`. Python's `sum` and `sqrt` of floats are arguments.
pub mod Envelope
mod Tests
use ai_compute_intelligence.Prelude.{
  ℕ, zero, suc, ◌+◌, ltb, Bool, true, false, ◌&&◌, if◌then◌else◌, List, [], ◌∷◌, map, Option, none,
  some, length,
}
use ai_compute_intelligence.Floats.{Floats, Float, lit, fle, fadd, fsub, fmul, fdiv}
use ai_compute_intelligence.Combination.{fmax}

module _ ⦃F : Floats⦄ where
  pub record ForecastPoint : Type 0 where
    pub month_offset : ℕ
    pub predicted_spend_usd : Float
    pub lower_bound_usd : Float
    pub upper_bound_usd : Float

  pub record SpendForecast : Type 0 where
    pub trend_pct : Float
    pub residual_stddev_usd : Float
    pub points : List ForecastPoint

  -- the points (x, y) of the history, from an index on
  abbrev pub indexed : ℕ → List Float → List (Float × Float)
  indexed i [] = []
  indexed i (y ∷ ys) = (lit i 1, y) ∷ indexed (i + 1) ys

  abbrev pub last_of : Float → List Float → Float
  last_of y [] = y
  last_of y (z ∷ ys) = last_of z ys

  abbrev pub is_zero : Float → Bool
  is_zero x = fle x (lit 0 1) && fle (lit 0 1) x

  module _ (sum : List Float → Float) (sqrt : Float → Float) where
    -- one point of the loop: the prediction and its bounds
    unfoldable pub point_at : Float → Float → Float → ℕ → ℕ → ForecastPoint
    point_at intercept slope confidence_width start_idx offset =
        let prediction =
          fmax (fadd intercept (fmul slope (lit (start_idx + offset) 1))) (lit 0 1) in
        let lower = fmax (fsub prediction confidence_width) (lit 0 1) in
        record {
          month_offset = offset + 1;
          predicted_spend_usd = prediction;
          lower_bound_usd = lower;
          upper_bound_usd = fmax (fadd prediction confidence_width) lower;
        }

    -- the loop, with the number of months left
    unfoldable pub points_from : Float → Float → Float → ℕ → ℕ → ℕ → List ForecastPoint
    unfolding point_at
    points_from intercept slope width start_idx offset zero = []
    points_from intercept slope width start_idx offset (suc months) =
        point_at intercept slope width start_idx offset
        ∷ points_from intercept slope width start_idx (offset + 1) months

    unfoldable pub regression : List (Float × Float) → Float → Float × Float
    regression points n =
        let x_mean = fdiv (sum (map (λ p. p.0) points)) n in
        let y_mean = fdiv (sum (map (λ p. p.1) points)) n in
        let denom = sum (map (λ p. fmul (fsub p.0 x_mean) (fsub p.0 x_mean)) points) in
        let slope =
          if is_zero denom
          then lit 0 1
          else fdiv (sum (map (λ p. fmul (fsub p.0 x_mean) (fsub p.1 y_mean)) points)) denom in
        (slope, fsub y_mean (fmul slope x_mean))

    unfoldable pub stddev_of : Float × Float → List (Float × Float) → Float → Float
    stddev_of (slope, intercept) points n =
        let residuals = map (λ p. fsub p.1 (fadd intercept (fmul slope p.0))) points in
        sqrt (fdiv (sum (map (λ r. fmul r r) residuals)) n)

    -- `none` is a `ValueError`; a horizon below 1 is 0.
    unfoldable pub forecast : List Float → ℕ → Option SpendForecast
    unfolding regression stddev_of points_from
    forecast [] horizon_months = none
    forecast (baseline ∷ history) horizon_months =
        let monthly = baseline ∷ history in
        let points = indexed 0 monthly in
        let n = lit (length monthly) 1 in
        let (slope, intercept) = regression points n in
        let stddev = stddev_of (slope, intercept) points n in
        let latest = last_of baseline history in
        let result : SpendForecast = record {
          trend_pct =
              if is_zero baseline
              then lit 0 1
              else fmul (fdiv (fsub latest baseline) baseline) (lit 100 1);
          residual_stddev_usd = stddev;
          points =
              points_from intercept slope (fmul (lit 196 100) stddev) (length monthly) 0
                horizon_months;
        } in
        if ltb (length monthly) 2 then none else if ltb horizon_months 1 then none else some result
