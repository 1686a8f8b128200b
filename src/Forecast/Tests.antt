-- ===== src/Forecast/Tests.antt =====
-- Runs of the forecast, and its theorem at concrete inputs.
use ai_compute_intelligence.Prelude.{ℕ, ◌+◌, ◌≡◌, refl, arith, List, [], ◌∷◌, Option, length}
use ai_compute_intelligence.Prelude.Every.{Every}
use ai_compute_intelligence.Floats.{micro, lit}
use ai_compute_intelligence.Forecast.{
  SpendForecast, forecast, regression, stddev_of, points_from, point_at,
}
use ai_compute_intelligence.Combination.{fmax}
use ai_compute_intelligence.Forecast.Envelope.{IsSound, forecast-IsSound}

abbrev sum_all : List ℕ → ℕ
sum_all [] = 0
sum_all (x ∷ xs) = x + sum_all xs

abbrev sqrt_of : ℕ → ℕ
sqrt_of x = x

abbrev flat : Option SpendForecast
flat = forecast sum_all sqrt_of (lit 5 1 ∷ lit 5 1 ∷ []) 1

abbrev made : SpendForecast
made = record {
  trend_pct = 0;
  residual_stddev_usd = 0;
  points =
      record {
        month_offset = 1;
        predicted_spend_usd = lit 5 1;
        lower_bound_usd = lit 5 1;
        upper_bound_usd = lit 5 1;
      }
      ∷ [];
}

forecast-IsSound_example : Every IsSound made.points × (length made.points ≡ 1)
unfolding forecast regression stddev_of points_from point_at fmax
forecast-IsSound_example =
    forecast-IsSound sum_all sqrt_of refl (λ x y nx ny h. ground arith) (lit 5 1 ∷ lit 5 1 ∷ []) 1
      made refl
