-- ===== src/Combination/Tests.antt =====
-- Runs of the combination, and its theorem at a concrete input.
use ai_compute_intelligence.Prelude.{ℕ, ◌≡◌, refl, arith, true, List, [], ◌∷◌, ltb, leb}
use ai_compute_intelligence.Prelude.Dict.{lookup, insert, get_or}
use ai_compute_intelligence.Floats.{micro, lit, fle}
use ai_compute_intelligence.Combination.{
  fmin, fmax, Signal, CombinationConfig, bounded_signals, combine, combine_evidence, correlation,
  discount_of, penalize, penalize_against, penalize_all, full_weights, insert_signal, sort_signals,
  noisy_or,
}
use ai_compute_intelligence.Combination.Bounds.{combine_evidence-capped}

abbrev config : CombinationConfig
config = record {
  cap = lit 95 100;
  diminishing_factor = lit 1 2;
  correlated_pairs = (("R3", "R4"), lit 1 2) ∷ [];
}

abbrev signals : List Signal
signals = ("R1", lit 6 10) ∷ ("R3", lit 8 10) ∷ ("R4", lit 5 10) ∷ []

-- 1 - 0.2 * 0.4 * (1 - 0.5 * 0.5 * 0.5)
combines : (combine_evidence (λ x. x) config signals []).combined_confidence ≡ lit 93 100
unfolding combine_evidence combine bounded_signals fmin fmax penalize_all penalize_against penalize
    discount_of correlation full_weights insert get_or lookup sort_signals insert_signal noisy_or
combines = refl

flt-fle : (y : ℕ) → ltb y (lit 95 100) ≡ true → leb y (lit 95 100) ≡ true
flt-fle y h = ground arith

combine_evidence-capped_example :
    fle (combine_evidence (λ x. x) config signals []).combined_confidence (lit 95 100) ≡ true
combine_evidence-capped_example =
    combine_evidence-capped (λ x. x) config signals [] refl refl flt-fle (λ x y h. h) refl
