-- ===== src/Combination/Bounds.antt =====
-- hre/combination.py: how large a combined confidence can be.
use ai_compute_intelligence.Prelude.{◌≡◌, subst, true, List, [], ◌∷◌, Bool-cases, inl, inr}
use ai_compute_intelligence.Floats.{Floats, Float, lit, flt, fle}
use ai_compute_intelligence.Combination.{
  fmin, Signal, Correlations, CombinationConfig, bounded_signals, combine, combine_evidence,
}

module _ ⦃F : Floats⦄ where
  fmin-le :
      (cap x : Float)
      → fle cap cap ≡ true
      → ((y : Float) → flt y cap ≡ true → fle y cap ≡ true)
      → fle (fmin cap x) cap ≡ true
  unfolding fmin
  fmin-le cap x r h = elim (Bool-cases (flt x cap)) [
    | inl below ↦ rw (below, fmin) (h x below)
    | inr above ↦ rw (above, fmin) r
  ]

  round-fmin-le :
      (round4 : Float → Float) (cap x : Float)
      → fle cap cap ≡ true
      → ((y : Float) → flt y cap ≡ true → fle y cap ≡ true)
      → ((x y : Float) → fle x y ≡ true → fle (round4 x) (round4 y) ≡ true)
      → round4 cap ≡ cap
      → fle (round4 (fmin cap x)) cap ≡ true
  round-fmin-le round4 cap x r h mono fixed =
      subst (λ c. fle (round4 (fmin cap x)) c ≡ true) fixed
        (mono (fmin cap x) cap (fmin-le cap x r h))

  combine-le :
      (round4 : Float → Float) (config : CombinationConfig) (learned : Correlations)
      (signals : List Signal)
      → fle config.cap config.cap ≡ true
      → fle (lit 0 1) config.cap ≡ true
      → ((y : Float) → flt y config.cap ≡ true → fle y config.cap ≡ true)
      → ((x y : Float) → fle x y ≡ true → fle (round4 x) (round4 y) ≡ true)
      → round4 config.cap ≡ config.cap
      → fle (combine round4 config learned signals).combined_confidence config.cap ≡ true
  unfolding combine
  combine-le round4 config learned [] r z h mono fixed = z
  combine-le round4 config learned (s ∷ []) r z h mono fixed = fmin-le config.cap s.1 r h
  combine-le round4 config learned (s ∷ t ∷ signals) r z h mono fixed =
      round-fmin-le round4 config.cap _ r h mono fixed

  -- No combination of signals, whatever the weights, penalties and learned correlations, has a
  -- confidence above the cap, if the order of floats is one at the cap, the cap is not below 0,
  -- rounding keeps the order, and the cap is rounded already.
  pub combine_evidence-capped :
      (round4 : Float → Float) (config : CombinationConfig) (signals : List Signal)
      (learned : Correlations)
      → fle config.cap config.cap ≡ true
      → fle (lit 0 1) config.cap ≡ true
      → ((y : Float) → flt y config.cap ≡ true → fle y config.cap ≡ true)
      → ((x y : Float) → fle x y ≡ true → fle (round4 x) (round4 y) ≡ true)
      → round4 config.cap ≡ config.cap
      → fle (combine_evidence round4 config signals learned).combined_confidence config.cap ≡ true
  unfolding combine_evidence
  combine_evidence-capped round4 config signals learned r z h mono fixed =
      combine-le round4 config learned (bounded_signals signals) r z h mono fixed
