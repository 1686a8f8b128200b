-- ===== src/Pricing/Simulator/Candidates.antt =====
-- interventions/simulator.py: what a simulation says of the candidates, and their ranking.
use ai_compute_intelligence.Prelude.{
  ℕ, suc, ◌+◌, ◌≡◌, refl, ap, arith, if◌then◌else◌, true, false, not, List, [], ◌∷◌, String, str_eq,
  Option, some, length, keep, Option-cases, some-injective, subst, Bool-cases, inl, inr,
}
use ai_compute_intelligence.Prelude.Every.{Every}
use ai_compute_intelligence.Floats.{Floats, Float, flt, fsub}
use ai_compute_intelligence.Finops.{Trim}
use ai_compute_intelligence.Pricing.{PricingRule, is_positive}
use ai_compute_intelligence.Pricing.Simulator.{
  CandidateSimulation, CostSimulationResult, Simulation, candidate_of, insert_candidate,
  sort_candidates, price_of, candidates_of, simulate,
}

module _ ⦃F : Floats⦄ where
  -- what a candidate must say, by the price of a model at one of the estimates
  abbrev pub IsPriced : (ℕ → String → Option Float) → Float → CandidateSimulation → Type 0
  IsPriced price baseline c =
      ((n : ℕ) × (price n c.model ≡ some c.projected_monthly_cost_usd))
      × (c.monthly_savings_usd ≡ fsub baseline c.projected_monthly_cost_usd)

  -- how many of the candidates are for a model
  abbrev pub candidates_for : String → List CandidateSimulation → ℕ
  candidates_for model [] = 0
  candidates_for model (c ∷ candidates) =
      (if str_eq c.model model then 1 else 0) + candidates_for model candidates

  -- how often a list names a model
  abbrev pub times : String → List String → ℕ
  times model [] = 0
  times model (m ∷ models) = (if str_eq m model then 1 else 0) + times model models

  abbrev pub Below : CandidateSimulation → List CandidateSimulation → Type 0
  Below c [] = Unit
  Below c (d ∷ candidates) = flt c.monthly_savings_usd d.monthly_savings_usd ≡ false

  -- no candidate saves less than the next one
  abbrev pub IsRanked : List CandidateSimulation → Type 0
  IsRanked [] = Unit
  IsRanked (c ∷ candidates) = Below c candidates × IsRanked candidates

  module _ (asymmetric : (x y : Float) → flt x y ≡ true → flt y x ≡ false) where
    insert_candidate-Below :
        (d c : CandidateSimulation) (sorted : List CandidateSimulation)
        → flt d.monthly_savings_usd c.monthly_savings_usd ≡ false
        → Below d sorted
        → Below d (insert_candidate c sorted)
    unfolding insert_candidate
    insert_candidate-Below d c [] h b = h
    insert_candidate-Below d c (e ∷ sorted) h b =
        elim (Bool-cases (flt e.monthly_savings_usd c.monthly_savings_usd)) [
          | inl more ↦ rw (more, insert_candidate) h
          | inr less ↦ rw (less, insert_candidate) b
        ]

    insert_candidate-IsRanked :
        (c : CandidateSimulation) (sorted : List CandidateSimulation)
        → IsRanked sorted
        → IsRanked (insert_candidate c sorted)
    unfolding insert_candidate
    insert_candidate-IsRanked c [] r = (tt, tt)
    insert_candidate-IsRanked c (d ∷ sorted) r =
        elim (Bool-cases (flt d.monthly_savings_usd c.monthly_savings_usd)) [
          | inl more ↦
              rw (more, insert_candidate)
                (asymmetric d.monthly_savings_usd c.monthly_savings_usd more, r)
          | inr less ↦
              rw (less, insert_candidate)
                (insert_candidate-Below d c sorted less r.0, insert_candidate-IsRanked c sorted r.1)
        ]

    sort_candidates-IsRanked :
        (sorted candidates : List CandidateSimulation)
        → IsRanked sorted
        → IsRanked (sort_candidates sorted candidates)
    unfolding sort_candidates
    sort_candidates-IsRanked sorted [] r = r
    sort_candidates-IsRanked sorted (c ∷ candidates) r =
        sort_candidates-IsRanked (insert_candidate c sorted) candidates
          (insert_candidate-IsRanked c sorted r)

  module _ (R : CandidateSimulation → Type 0) where
    insert_candidate-Every :
        (c : CandidateSimulation) (sorted : List CandidateSimulation)
        → R c
        → Every R sorted
        → Every R (insert_candidate c sorted)
          × (length (insert_candidate c sorted) ≡ suc (length sorted))
    unfolding insert_candidate
    insert_candidate-Every c [] p a = ((p, tt), refl)
    insert_candidate-Every c (d ∷ sorted) p a =
        elim (Bool-cases (flt d.monthly_savings_usd c.monthly_savings_usd)) [
          | inl more ↦ rw (more, insert_candidate) ((p, a), refl)
          | inr less ↦
              let rest = insert_candidate-Every c sorted p a.1 in
              rw (less, insert_candidate) ((a.0, rest.0), ap suc rest.1)
        ]

    sort_candidates-Every :
        (sorted candidates : List CandidateSimulation)
        → Every R sorted
        → Every R candidates
        → Every R (sort_candidates sorted candidates)
          × (length (sort_candidates sorted candidates) ≡ length sorted + length candidates)
    unfolding sort_candidates
    sort_candidates-Every sorted [] a b = (a, omega arith)
    sort_candidates-Every sorted (c ∷ candidates) a b =
        let (all, longer) = insert_candidate-Every c sorted b.0 a in
        let (rest, sum) = sort_candidates-Every (insert_candidate c sorted) candidates all b.1 in
        (rest, omega (arith, longer, sum))

  insert_candidate-candidates_for :
      (model : String) (c : CandidateSimulation) (sorted : List CandidateSimulation)
      → candidates_for model (insert_candidate c sorted) ≡ candidates_for model (c ∷ sorted)
  unfolding insert_candidate
  insert_candidate-candidates_for model c [] = refl
  insert_candidate-candidates_for model c (d ∷ sorted) =
      elim (Bool-cases (flt d.monthly_savings_usd c.monthly_savings_usd)) [
        | inl more ↦ rw (more, insert_candidate) refl
        | inr less ↦
            rw (less, insert_candidate)
              (omega (arith, insert_candidate-candidates_for model c sorted))
      ]

  sort_candidates-candidates_for :
      (model : String) (sorted candidates : List CandidateSimulation)
      → candidates_for model (sort_candidates sorted candidates)
        ≡ candidates_for model sorted + candidates_for model candidates
  unfolding sort_candidates
  sort_candidates-candidates_for model sorted [] = omega arith
  sort_candidates-candidates_for model sorted (c ∷ candidates) = omega (
    arith,
    sort_candidates-candidates_for model (insert_candidate c sorted) candidates,
    insert_candidate-candidates_for model c sorted,
  )

  module _ ⦃T : Trim⦄ (rules : List PricingRule) (clock : ℕ → ℕ) where
    abbrev pub except : Simulation → List String → List String
    except s models = keep (λ m. not (str_eq m s.current_model)) models

    abbrev pub others : Simulation → List String
    others s = except s s.candidate_models

    -- the price of a model at an estimate of the simulation
    abbrev pub price : Simulation → ℕ → String → Option Float
    price s n model = price_of rules (clock n) s model

    abbrev Covers : Simulation → String → Float → List String → List CandidateSimulation → Type 0
    Covers s model baseline models found =
        Every (IsPriced (price s) baseline) found
        × (length found ≡ length (except s models))
        × (candidates_for model found ≡ times model (except s models))

    candidates_of-Covers :
        (s : Simulation) (model : String) (baseline : Float) (n : ℕ) (models : List String)
        (found : List CandidateSimulation)
        → candidates_of rules clock n s baseline models ≡ some found
        → Covers s model baseline models found
    unfolding candidates_of candidate_of
    candidates_of-Covers s model baseline n [] found h =
        subst (Covers s model baseline []) (some-injective [] found h) (tt, refl, refl)
    candidates_of-Covers s model baseline n (m ∷ models) found h =
        elim (Bool-cases (str_eq m s.current_model)) [
          | inl current ↦
              let h' : candidates_of rules clock n s baseline models ≡ some found =
                rw (current, candidates_of) at h in
              rw current (candidates_of-Covers s model baseline n models found h')
          | inr other ↦ elim (Option-cases (price s n m)) [
            | inl unpriced ↦ absurd (ground (arith, h, other, unpriced))
            | inr (cost, priced) ↦
                elim (Option-cases (candidates_of rules clock (n + 1) s baseline models)) [
                  | inl failed ↦ absurd (ground (arith, h, other, priced, failed))
                  | inr (rest, more) ↦
                      let made : some (candidate_of baseline m cost ∷ rest) ≡ some found =
                        rw (other, priced, more, candidates_of) at h in
                      let (all, same, named) =
                        candidates_of-Covers s model baseline (n + 1) models rest more in
                      subst (Covers s model baseline (m ∷ models)) (some-injective _ found made) (
                        (((n, priced), refl), all),
                        rw other (ap suc same),
                        rw other (ap (λ k. (if str_eq m model then 1 else 0) + k) named),
                      )
                ]
          ]
        ]

    -- what a result says
    abbrev pub IsSimulated : Simulation → String → CostSimulationResult → Type 0
    IsSimulated s model r =
        Covers s model r.projected_monthly_cost_usd s.candidate_models r.candidates
        × (price s 0 s.current_model ≡ some r.projected_monthly_cost_usd)
        × IsRanked r.candidates

    -- A simulation that succeeds has as many candidates for a model as there are candidate models of
    -- this name, for every model but the current one, and no others; each costs what one of the
    -- catalog's estimates is for its model, its savings are the difference to the cost that the first
    -- estimate has for the current model, and no candidate saves less than the next. `<` must be
    -- asymmetric.
    pub simulate-candidates :
        ((x y : Float) → flt x y ≡ true → flt y x ≡ false)
        → (s : Simulation) (model : String) (r : CostSimulationResult)
        → simulate rules clock s ≡ some r
        → IsSimulated s model r
    unfolding simulate
    simulate-candidates asymmetric s model r h =
        elim (Bool-cases (is_positive s.requests_per_day)) [
          | inr refused ↦ absurd (ground (arith, h, refused))
          | inl accepted ↦ elim (Option-cases (price s 0 s.current_model)) [
            | inl unpriced ↦ absurd (ground (arith, h, accepted, unpriced))
            | inr (baseline, priced) ↦
                elim (Option-cases (candidates_of rules clock 1 s baseline s.candidate_models)) [
                  | inl failed ↦ absurd (ground (arith, h, accepted, priced, failed))
                  | inr (found, all) ↦
                      let made = rw (accepted, priced, all, simulate) at h in
                      let (each, number, named) =
                        candidates_of-Covers s model baseline 1 s.candidate_models found all in
                      let sorted =
                        sort_candidates-Every (IsPriced (price s) baseline) [] found tt each in
                      subst (IsSimulated s model) (some-injective _ r made) (
                        (
                          sorted.0,
                          omega (arith, sorted.1, number),
                          omega (arith, sort_candidates-candidates_for model [] found, named),
                        ),
                        priced,
                        sort_candidates-IsRanked asymmetric [] found tt,
                      )
                ]
          ]
        ]
