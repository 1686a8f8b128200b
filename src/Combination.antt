-- ===== src/Combination.antt =====
-- hre/combination.py: the combination of the signals of the reconciliation methods. `round(x, 4)` of
-- floats is an argument.
pub mod Bounds
mod Tests
use ai_compute_intelligence.Prelude.{
  ℕ, suc, ◌+◌, ltb, Bool, true, false, ◌&&◌, if◌then◌else◌, List, [], ◌∷◌, ◌++◌, String, str_eq,
  Option, none, some, length, map,
}
use ai_compute_intelligence.Prelude.Dict
use ai_compute_intelligence.Prelude.Dict.{Dict}
use ai_compute_intelligence.Floats.{Floats, Float, lit, flt, fle, fsub, fmul}

module _ ⦃F : Floats⦄ where
  -- `min(a, b)` and `max(a, b)`: the first unless the second is strictly better
  unfoldable pub fmin : Float → Float → Float
  fmin a b = if flt b a then b else a

  unfoldable pub fmax : Float → Float → Float
  fmax a b = if flt a b then b else a

  -- a method's name and its calibrated confidence
  abbrev pub Signal : Type 0
  Signal = String × Float

  -- a dictionary whose keys are pairs of methods
  abbrev pub Correlations : Type 0
  Correlations = List ((String × String) × Float)

  pub record CombinationConfig : Type 0 where
    pub cap : Float
    pub diminishing_factor : Float
    pub correlated_pairs : Correlations

  pub record IndividualEvidence : Type 0 where
    pub method : String
    pub raw_confidence : Float
    pub calibrated_confidence : Float
    pub weight : Float

  pub record DependencyPenalty : Type 0 where
    pub method_a : String
    pub method_b : String
    pub discount_factor : Float

  pub record EvidenceCombinationResult : Type 0 where
    pub combined_confidence : Float
    pub individual_confidences : List IndividualEvidence
    pub dependency_penalties_applied : List DependencyPenalty
    pub capped : Bool
    pub diminishing_returns_applied : Bool

  abbrev pub clip : Float → Float
  clip x = fmax (lit 0 1) (fmin (lit 1 1) x)

  unfoldable pub bounded_signals : List Signal → List Signal
  bounded_signals [] = []
  bounded_signals ((method, confidence) ∷ signals) =
      (method, clip confidence) ∷ bounded_signals signals

  unfoldable pub correlation : String → String → Correlations → Option Float
  correlation a b [] = none
  correlation a b (((a', b'), d) ∷ pairs) =
      let rest = correlation a b pairs in if str_eq a' a && str_eq b' b then some d else rest

  -- `{**correlations, **learned_correlations}`, read as a dictionary: the learned ones come first
  abbrev pub merged : CombinationConfig → Correlations → Correlations
  merged config learned = learned ++ config.correlated_pairs

  -- `correlations.get(pair) or correlations.get(pair_rev)`, where a 0 counts as missing
  unfoldable pub discount_of : Correlations → String → String → Option Float
  discount_of correlations a b =
      let reversed = correlation b a correlations in
      elim (correlation a b correlations) [
        | none ↦ reversed
        | some d ↦ if fle d (lit 0 1) && fle (lit 0 1) d then reversed else some d
      ]

  -- the weights and the penalties of the loops of step 1
  abbrev pub Weighed : Type 0
  Weighed = Dict Float × List DependencyPenalty

  unfoldable pub penalize : Correlations → Signal → Signal → Weighed → Weighed
  penalize correlations (a, x) (b, y) (weights, penalties) =
      let weaker = if fle x y then a else b in
      elim (discount_of correlations a b) [
        | none ↦ (weights, penalties)
        | some d ↦ (
          Dict.insert weaker (fmin (Dict.get_or weaker (lit 1 1) weights) d) weights,
          penalties ++ record { method_a = a; method_b = b; discount_factor = d } ∷ [],
        )
      ]

  unfoldable pub penalize_against : Correlations → Signal → List Signal → Weighed → Weighed
  penalize_against correlations s [] w = w
  penalize_against correlations s (t ∷ signals) w =
      penalize_against correlations s signals (penalize correlations s t w)

  unfoldable pub penalize_all : Correlations → List Signal → Weighed → Weighed
  penalize_all correlations [] w = w
  penalize_all correlations (s ∷ signals) w =
      penalize_all correlations signals (penalize_against correlations s signals w)

  unfoldable pub full_weights : List Signal → Dict Float → Dict Float
  full_weights [] weights = weights
  full_weights ((method, _) ∷ signals) weights =
      full_weights signals (Dict.insert method (lit 1 1) weights)

  -- the stable sort by confidence, highest first
  unfoldable pub insert_signal : Signal → List Signal → List Signal
  insert_signal s [] = s ∷ []
  insert_signal (a, x) ((b, y) ∷ sorted) =
      let rest = insert_signal (a, x) sorted in
      if flt y x then (a, x) ∷ (b, y) ∷ sorted else (b, y) ∷ rest

  unfoldable pub sort_signals : List Signal → List Signal → List Signal
  sort_signals sorted [] = sorted
  sort_signals sorted (s ∷ signals) = sort_signals (insert_signal s sorted) signals

  module _ (round4 : Float → Float) (config : CombinationConfig) where
    -- Steps 2 and 3 on the sorted signals: the multiplier of the signal at an index follows from
    -- the one before; the product of what each signal leaves open, and the decomposition.
    unfoldable pub noisy_or :
        Dict Float
        → ℕ
        → Float
        → Float
        → List Signal
        → List IndividualEvidence
        → Float × List IndividualEvidence
    noisy_or weights index prev product_term [] individual = (product_term, individual)
    noisy_or weights index prev product_term ((method, confidence) ∷ signals) individual =
        let w = Dict.get_or method (lit 1 1) weights in
        let d = if ltb index 2 then lit 1 1 else fmul prev config.diminishing_factor in
        let effective = fmin (lit 1 1) (fmax (lit 0 1) (fmul (fmul confidence w) d)) in
        noisy_or weights (index + 1) d (fmul product_term (fsub (lit 1 1) effective)) signals (
          individual
          ++ record {
            method = method;
            raw_confidence = confidence;
            calibrated_confidence = confidence;
            weight = round4 (fmul w d);
          }
            ∷ [])

    -- the branches of `combine_evidence` on the bounded signals
    unfoldable pub combine : Correlations → List Signal → EvidenceCombinationResult
    combine learned [] = record {
      combined_confidence = lit 0 1;
      individual_confidences = [];
      dependency_penalties_applied = [];
      capped = false;
      diminishing_returns_applied = false;
    }
    combine learned ((method, confidence) ∷ []) = record {
      combined_confidence = fmin config.cap confidence;
      individual_confidences =
          record {
            method = method;
            raw_confidence = confidence;
            calibrated_confidence = confidence;
            weight = lit 1 1;
          }
          ∷ [];
      dependency_penalties_applied = [];
      capped = flt (fmin config.cap confidence) confidence;
      diminishing_returns_applied = false;
    }
    combine learned (s ∷ t ∷ signals) =
        let all = s ∷ t ∷ signals in
        let (weights, penalties) =
          penalize_all (merged config learned) all (full_weights all [], []) in
        let (open_part, individual) =
          noisy_or weights 0 (lit 1 1) (lit 1 1) (sort_signals [] all) [] in
        let combined = fsub (lit 1 1) open_part in
        record {
          combined_confidence = round4 (fmin config.cap combined);
          individual_confidences = individual;
          dependency_penalties_applied = penalties;
          capped = flt config.cap combined;
          diminishing_returns_applied = ltb 2 (length all);
        }

    unfoldable pub combine_evidence : List Signal → Correlations → EvidenceCombinationResult
    unfolding combine
    combine_evidence signals learned = combine learned (bounded_signals signals)
