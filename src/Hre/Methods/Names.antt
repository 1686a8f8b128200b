-- ===== src/Hre/Methods/Names.antt =====
-- hre/methods.py: R3, names like those of a team.
use ai_compute_intelligence.Prelude.{
  ltb, ◌||◌, if◌then◌else◌, List, [], ◌∷◌, String, concat, mem, Option, none, some, length, keep,
}
use ai_compute_intelligence.Prelude.Dict.{Dict}
use ai_compute_intelligence.Floats.{Floats, Float, lit, flt, fadd, fmul, fdiv, show}
use ai_compute_intelligence.Combination.{fmin}
use ai_compute_intelligence.Index.{text, number}
use ai_compute_intelligence.Hre.{Python, ReconciliationSignal}

module _ ⦃F : Floats⦄ where
  module _ (P : Python) where
    unfoldable pub normalize : String → String
    normalize name = P.strip (P.sub (P.lower name))

    -- `set(tokens)` as a list without repetitions
    unfoldable pub set_of : List String → List String
    set_of [] = []
    set_of (t ∷ tokens) = let rest = set_of tokens in if mem t tokens then rest else t ∷ rest

    unfoldable pub token_overlap : String → String → Float
    token_overlap a b =
        let tokens_a = set_of (P.split a) in
        let tokens_b = set_of (P.split b) in
        let common = keep (λ t. mem t tokens_b) tokens_a in
        let longer =
          if ltb (length tokens_a) (length tokens_b) then length tokens_b else length tokens_a in
        elim tokens_a [
          | [] ↦ lit 0 1
          | _ ∷ _ ↦ elim tokens_b [
            | [] ↦ lit 0 1
            | _ ∷ _ ↦ fdiv (lit (length common) 1) (lit longer 1)
          ]
        ]

    unfoldable pub similarity : String → String → Float
    unfolding normalize token_overlap
    similarity normalized pattern =
        let norm_pattern = normalize pattern in
        let plain = P.ratio normalized norm_pattern in
        let within =
          if P.contains norm_pattern normalized || P.contains normalized norm_pattern
          then fmin (lit 1 1) (fadd plain (lit 15 100))
          else plain in
        fmin (lit 1 1) (fadd within (fmul (token_overlap normalized norm_pattern) (lit 1 10)))

    -- the best match of R3 so far: the score, and the team with its pattern
    abbrev pub Naming : Type 0
    Naming = Float × Option (String × String)

    unfoldable pub scan_patterns : String → String → List String → Naming → Naming
    unfolding similarity
    scan_patterns normalized team_id [] best = best
    scan_patterns normalized team_id (pattern ∷ patterns) (best, match) =
        let s = similarity normalized pattern in
        let next = if flt best s then (s, some (team_id, pattern)) else (best, match) in
        scan_patterns normalized team_id patterns next

    unfoldable pub scan_teams : String → Dict (List String) → Naming → Naming
    unfolding scan_patterns
    scan_teams normalized [] best = best
    scan_teams normalized ((team_id, patterns) ∷ teams) best =
        scan_teams normalized teams (scan_patterns normalized team_id patterns best)

    -- `min_similarity` is 0.4.
    unfoldable pub resolve_r3 : String → Dict (List String) → Option ReconciliationSignal
    unfolding scan_teams normalize
    resolve_r3 entity_name candidate_patterns =
        let (best, match) = scan_teams (normalize entity_name) candidate_patterns (lit 0 1, none) in
        elim match [
          | none ↦ none
          | some (team_id, pattern) ↦
              if flt best (lit 4 10)
              then none
              else some (record {
                method = "R3";
                source_entity = entity_name;
                target_entity = team_id;
                confidence = P.round3 (fmin (lit 9 10) (fmul best (lit 9 10)));
                signals = concat ("naming:" ∷ pattern ∷ ":" ∷ show ".2f" best ∷ []) ∷ [];
                feature_values =
                    ("string_similarity", number (P.round3 best))
                    ∷ ("matched_pattern", text pattern)
                    ∷ [];
              })
        ]
