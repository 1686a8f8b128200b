-- ===== src/Hre/Methods/Temporal.antt =====
-- hre/methods.py: R2, events close in time.
use ai_compute_intelligence.Prelude.{
  ℕ, ◌+◌, ◌-◌, ltb, Bool, true, if◌then◌else◌, List, [], ◌∷◌, String, concat, Option, none, some,
}
use ai_compute_intelligence.Floats.{Floats, Float, lit, flt, fle, fsub, fmul, fdiv, show}
use ai_compute_intelligence.Combination.{fmax}
use ai_compute_intelligence.Index.{text, number, count}
use ai_compute_intelligence.Hre.{Python, ReconciliationSignal}

module _ ⦃F : Floats⦄ where
  module _ (P : Python) where
    -- `abs((a - b).total_seconds())`
    abbrev pub seconds_between : ℕ → ℕ → Float
    seconds_between a b = lit ((a - b) + (b - a)) 1000000

    -- what the loop of R2 has found: the closest event so far, and how many are in the window
    abbrev pub Window : Type 0
    Window = Option (Float × String × String) × ℕ

    unfoldable pub closer : Float → Option (Float × String × String) → Bool
    closer delta none = true
    closer delta (some (best, _, _)) = flt delta best

    unfoldable pub scan_window : Float → ℕ → List (ℕ × String × String) → Window → Window
    scan_window max_window source_time [] w = w
    scan_window max_window source_time ((at, entity, source) ∷ events) (best, competing) =
        let delta = seconds_between source_time at in
        let next = if closer delta best then some (delta, entity, source) else best in
        scan_window max_window source_time events
          (if fle delta max_window then (next, competing + 1) else (best, competing))

    -- `max_window_seconds` is 300.
    unfoldable pub resolve_r2 :
        ℕ → String → List (ℕ × String × String) → Option ReconciliationSignal
    unfolding scan_window closer
    resolve_r2 event_time event_entity candidate_events =
        let max_window = lit 300 1 in
        let (found, competing) = scan_window max_window event_time candidate_events (none, 0) in
        elim found [
          | none ↦ none
          | some (delta, target, source) ↦
              let close = fmax (lit 4 10) (fsub (lit 1 1) (fdiv delta max_window)) in
              let penalty = fmul (lit 15 100) (lit (competing - 1) 1) in
              let base = if ltb 1 competing then fmax (lit 3 10) (fsub close penalty) else close in
              some (record {
                method = "R2";
                source_entity = event_entity;
                target_entity = target;
                confidence = P.round3 base;
                signals = concat ("temporal:" ∷ source ∷ ":" ∷ show ".0f" delta ∷ "s" ∷ []) ∷ [];
                feature_values =
                    ("time_delta_seconds", number delta)
                    ∷ ("competing_events", count competing)
                    ∷ ("source_system", text source)
                    ∷ [];
              })
        ]
