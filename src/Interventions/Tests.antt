-- ===== src/Interventions/Tests.antt =====
-- Runs of the registry, and its theorems at concrete inputs.
use ai_compute_intelligence.Prelude.{ℕ, ◌≡◌, refl, List, [], ◌∷◌, String, none, some, mem}
use ai_compute_intelligence.Floats.{micro, lit}
use ai_compute_intelligence.Interventions.{
  InterventionRecord, Registry, allowed_status, validate_status, rank, rank_all, list_records,
}
use ai_compute_intelligence.Interventions.Lifecycle.{Move, move_all, perform, transition-forgets}

abbrev entry : String → String → ℕ → InterventionRecord
entry id status savings = record {
  intervention_id = id;
  title = "";
  intervention_type = "";
  team = "";
  detail = "";
  savings_usd_month = lit savings 1;
  confidence_pct = lit 94 1;
  risk = "low";
  equivalence_mode = "";
  equivalence_status = "";
  category = "";
  threshold_condition = "";
  rule_condition = "";
  status = status;
  updated_at = 0;
  updated_by = "system";
  update_note = "";
}

abbrev registry : Registry
registry =
    ("INT-401", entry "INT-401" "recommended" 31200)
    ∷ ("INT-402", entry "INT-402" "review" 14800)
    ∷ ("INT-404", entry "INT-404" "recommended" 22800)
    ∷ []

-- the second is refused
abbrev moves : List Move
moves =
    (record {
      intervention_id = "INT-401";
      next_status = "approved";
      actor = "api";
      note = "";
      now = 1;
    })
    ∷ (record {
      intervention_id = "INT-402";
      next_status = "done";
      actor = "api";
      note = "";
      now = 2;
    })
    ∷ []

abbrev call : String → ℕ → Move
call status now = record {
  intervention_id = "INT-401";
  next_status = status;
  actor = "api";
  note = "";
  now = now;
}

-- A dismissed recommendation can be moved on to implemented.
transition-forgets_example :
    perform (call "implemented" 3) (move_all (call "dismissed" 1 ∷ call "done" 2 ∷ []) registry)
    ≡ perform (call "implemented" 3) registry
unfolding validate_status allowed_status mem
transition-forgets_example =
    transition-forgets (call "dismissed" 1 ∷ call "done" 2 ∷ []) (call "implemented" 3) registry
      (refl, (refl, tt)) refl

-- Records are listed by savings.
lists_all :
    list_records none registry
    ≡ some (
        entry "INT-401" "recommended" 31200
        ∷ entry "INT-404" "recommended" 22800
        ∷ entry "INT-402" "review" 14800
        ∷ [])
unfolding list_records rank_all rank
lists_all = refl
