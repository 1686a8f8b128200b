-- ===== src/Forecast/Envelope.antt =====
-- forecast/engine.py: the number of the points of a forecast and their bounds.
use ai_compute_intelligence.Prelude.{
  ℕ, zero, suc, ◌+◌, ◌≡◌, ◌⊎◌, refl, ap, subst, arith, ltb, true, false, List, [], ◌∷◌, some,
  some-injective, length, Bool-cases, inl, inr,
}
use ai_compute_intelligence.Prelude.Every.{Every}
use ai_compute_intelligence.Floats.{Floats, Float, lit, flt, fle}
use ai_compute_intelligence.Combination.{fmax}
use ai_compute_intelligence.Forecast.{ForecastPoint, SpendForecast, point_at, points_from, forecast}

module _ ⦃F : Floats⦄ where
  -- Of the floats only NaN is not at most itself.
  abbrev pub IsNan : Float → Type 0
  IsNan x = fle x x ≡ false

  -- What is not NaN is not negative, and bounds that are not NaN enclose something.
  pub record IsSound (p : ForecastPoint) : Type 0 where
    pub predicted_positive :
        IsNan p.predicted_spend_usd ⊎ (fle (lit 0 1) p.predicted_spend_usd ≡ true)
    pub lower_positive : IsNan p.lower_bound_usd ⊎ (fle (lit 0 1) p.lower_bound_usd ≡ true)
    pub ordered :
        (IsNan p.lower_bound_usd ⊎ IsNan p.upper_bound_usd)
        ⊎ (fle p.lower_bound_usd p.upper_bound_usd ≡ true)

  module _ (sum : List Float → Float) (sqrt : Float → Float)
      (zero_le : fle (lit 0 1) (lit 0 1) ≡ true)
      (total : (x y : Float)
        → fle x x ≡ true
        → fle y y ≡ true
        → flt x y ≡ false
        → fle y x ≡ true) where
    fmax-right : (x y : Float) → fle y y ≡ true → IsNan (fmax x y) ⊎ (fle y (fmax x y) ≡ true)
    unfolding fmax
    fmax-right x y ny = elim (Bool-cases (flt x y)) [
      | inl less ↦ rw (less, fmax) (inr ny)
      | inr more ↦
          rw (more, fmax)
            (elim (Bool-cases (fle x x)) [
              | inl nx ↦ inr (total x y nx ny more)
              | inr nan ↦ inl nan
            ])
    ]

    fmax-above : (x y : Float) → (IsNan y ⊎ IsNan (fmax x y)) ⊎ (fle y (fmax x y) ≡ true)
    fmax-above x y = elim (Bool-cases (fle y y)) [
      | inr nan ↦ inl (inl nan)
      | inl ny ↦ elim (fmax-right x y ny) [ inl nan ↦ inl (inr nan) | inr above ↦ inr above ]
    ]

    point_at-IsSound :
        (intercept slope width : Float) (start offset : ℕ)
        → IsSound (point_at sum sqrt intercept slope width start offset)
    unfolding point_at
    point_at-IsSound intercept slope width start offset = record {
      predicted_positive = fmax-right _ _ zero_le;
      lower_positive = fmax-right _ _ zero_le;
      ordered = fmax-above _ _;
    }

    points_from-IsSound :
        (intercept slope width : Float) (start offset months : ℕ)
        → Every IsSound (points_from sum sqrt intercept slope width start offset months)
          × (length (points_from sum sqrt intercept slope width start offset months) ≡ months)
    unfolding points_from
    points_from-IsSound intercept slope width start offset zero = (tt, refl)
    points_from-IsSound intercept slope width start offset (suc months) =
        let rest = points_from-IsSound intercept slope width start (offset + 1) months in
        ((point_at-IsSound intercept slope width start offset, rest.0), ap suc rest.1)

    -- A forecast that is made has one point for each month of the horizon. At each of them the
    -- prediction and the lower bound are NaN or not negative, and the lower bound is at most the
    -- upper one or one of the two is NaN, whatever the spends are. `0 <= 0` must hold, and `<=`
    -- between two floats that are not NaN where `<` fails the other way round.
    pub forecast-IsSound :
        (spends : List Float) (horizon : ℕ) (f : SpendForecast)
        → forecast sum sqrt spends horizon ≡ some f
        → Every IsSound f.points × (length f.points ≡ horizon)
    unfolding forecast
    forecast-IsSound [] horizon f h = absurd (ground (arith, h))
    forecast-IsSound (y ∷ ys) horizon f h =
        let n = length (y ∷ ys) in
        elim (Bool-cases (ltb n 2)) [
          | inl few ↦ absurd (ground (arith, h, few))
          | inr enough ↦ elim (Bool-cases (ltb horizon 1)) [
            | inl nothing ↦ absurd (ground (arith, h, enough, nothing))
            | inr months ↦
                let made = rw (enough, months, forecast) at h in
                subst (λ g. Every IsSound g.points × (length g.points ≡ horizon))
                  (some-injective _ f made) (points_from-IsSound _ _ _ n 0 horizon)
          ]
        ]
