-- ===== src/Hre/Methods/Scores.antt =====
-- hre/methods.py: R4, R5 and R6, which give scores to teams and owners.
use ai_compute_intelligence.Prelude.{
  ℕ, ◌+◌, ltb, leb, Bool, true, if◌then◌else◌, List, [], ◌∷◌, map, String, concat, Option, none,
  some, length, keep,
}
use ai_compute_intelligence.Prelude.Dict
use ai_compute_intelligence.Prelude.Dict.{Dict}
use ai_compute_intelligence.Floats.{Floats, Float, lit, flt, fle, fadd, fmul, fdiv, show}
use ai_compute_intelligence.Combination.{fmin}
use ai_compute_intelligence.Index.{number, count, flag}
use ai_compute_intelligence.Hre.{Python, ReconciliationSignal}
use ai_compute_intelligence.Hre.Methods.Names.{set_of}

module _ ⦃F : Floats⦄ where
  unfoldable pub best_of : String × Float → Dict Float → String × Float
  best_of best [] = best
  best_of (k, x) ((j, y) ∷ scores) = best_of (if flt x y then (j, y) else (k, x)) scores

  -- `max(d, key=d.get)` and its value: the first of the greatest
  unfoldable pub best_entry : Dict Float → Option (String × Float)
  unfolding best_of
  best_entry [] = none
  best_entry (first ∷ others) = some (best_of first others)

  -- `d[k] = d.get(k, 0.0) + x`
  unfoldable pub score : String → Float → Dict Float → Dict Float
  score k x scores = Dict.insert k (fadd (Dict.get_or k (lit 0 1) scores) x) scores

  module _ (P : Python) where
    unfoldable pub team_scores : List (String × Float) → Dict Float → Dict Float
    unfolding score
    team_scores [] scores = scores
    team_scores ((team_id, conf) ∷ history) scores = team_scores history (score team_id conf scores)

    unfoldable pub team_counts : List (String × Float) → Dict ℕ → Dict ℕ
    team_counts [] counts = counts
    team_counts ((team_id, _) ∷ history) counts =
        team_counts history (Dict.insert team_id (Dict.get_or team_id 0 counts + 1) counts)

    values : Dict Float → List Float
    values scores = map (λ e. e.1) scores

    -- `min_history_count` is 3.
    unfoldable pub resolve_r4 : String → List (String × Float) → Option ReconciliationSignal
    unfolding team_scores team_counts best_entry values
    resolve_r4 entity_id history =
        let scores = team_scores history [] in
        elim (best_entry scores) [
          | none ↦ none
          | some (best_team, best_weight) ↦
              let total = P.sum (values scores) in
              let dominance = if flt (lit 0 1) total then fdiv best_weight total else lit 0 1 in
              let seen = Dict.get_or best_team 0 (team_counts history []) in
              let count_factor = fmin (lit 1 1) (fdiv (lit seen 1) (lit 10 1)) in
              let confidence =
                fmin (lit 85 100)
                  (fadd (fmul dominance (lit 7 10)) (fmul count_factor (lit 2 10))) in
              if ltb (length history) 3
              then none
              else some (record {
                method = "R4";
                source_entity = entity_id;
                target_entity = best_team;
                confidence = P.round3 confidence;
                signals = concat ("historical:" ∷ best_team ∷ ":" ∷ P.str seen ∷ []) ∷ [];
                feature_values =
                    ("prior_match_count", count seen)
                    ∷ ("dominance_ratio", number (P.round3 dominance))
                    ∷ ("total_history", count (length history))
                    ∷ [];
              })
        ]

    -- the stable sort by time, latest first
    unfoldable pub insert_latest : String × ℕ → List (String × ℕ) → List (String × ℕ)
    insert_latest e [] = e ∷ []
    insert_latest (o, at) ((o', at') ∷ sorted) =
        let rest = insert_latest (o, at) sorted in
        if ltb at' at then (o, at) ∷ (o', at') ∷ sorted else (o', at') ∷ rest

    unfoldable pub sort_latest : List (String × ℕ) → List (String × ℕ) → List (String × ℕ)
    unfolding insert_latest
    sort_latest sorted [] = sorted
    sort_latest sorted (e ∷ owners) = sort_latest (insert_latest e sorted) owners

    -- `now - at <= lookback`, 30 days
    abbrev pub recent : ℕ → ℕ → Bool
    recent now at = leb now (at + 2592000000000)

    -- signal 1: the most recent deployer inside the lookback
    unfoldable pub score_deployer : ℕ → List (String × ℕ) → Dict Float → Dict Float
    unfolding score
    score_deployer now [] scores = scores
    score_deployer now ((owner, at) ∷ owners) scores =
        let later = score_deployer now owners scores in
        if recent now at then score owner (lit 35 100) scores else later

    -- signals 2 and 3: the same addition for each owner
    unfoldable pub score_all : Float → List String → Dict Float → Dict Float
    unfolding score
    score_all x [] scores = scores
    score_all x (owner ∷ owners) scores = score_all x owners (score owner x scores)

    unfoldable pub recent_users_of : ℕ → List (String × ℕ) → List String
    recent_users_of now [] = []
    recent_users_of now ((user, at) ∷ users) =
        let rest = recent_users_of now users in if recent now at then user ∷ rest else rest

    -- `recent_set`, in the order of the loop over it
    abbrev pub recent_set : ℕ → List (String × ℕ) → List String
    recent_set now users = P.set_order (set_of P (recent_users_of now users))

    unfoldable pub owner_scores :
        ℕ → List (String × ℕ) → List String → List (String × ℕ) → Dict Float
    unfolding score_deployer score_all sort_latest
    owner_scores now deployment_owners code_owners recent_users =
        let users = recent_set now recent_users in
        let share = fdiv (lit 15 100) (lit (if ltb 1 (length users) then length users else 1) 1) in
        score_all share users (
          score_all (lit 25 100) code_owners
            (score_deployer now (sort_latest [] deployment_owners) []))

    unfoldable pub resolve_r5 :
        String
        → List (String × ℕ)
        → List String
        → List (String × ℕ)
        → ℕ
        → Option ReconciliationSignal
    unfolding owner_scores best_entry
    resolve_r5 service_account deployment_owners code_owners recent_users now =
        let scores = owner_scores now deployment_owners code_owners recent_users in
        elim (best_entry scores) [
          | none ↦ none
          | some (best_owner, best_score) ↦ some (record {
            method = "R5";
            source_entity = service_account;
            target_entity = best_owner;
            confidence = P.round3 (fmin (lit 75 100) best_score);
            signals =
                concat ("svc_account:" ∷ service_account ∷ [])
                ∷ concat ("deployer:" ∷ P.str (length deployment_owners) ∷ [])
                ∷ concat ("code_owners:" ∷ P.str (length code_owners) ∷ [])
                ∷ concat ("recent_users:" ∷ P.str (length (recent_set now recent_users)) ∷ [])
                ∷ [];
            feature_values =
                ("signal_count", count (length scores))
                ∷ ("best_score", number (P.round3 best_score))
                ∷ ("is_shared_account", flag true)
                ∷ [];
          })
        ]

    abbrev pub positive_users : Dict Float → Dict Float
    positive_users users = keep (λ e. flt (lit 0 1) e.1) users

    unfoldable pub allocation : String → Float → ℕ → String × Float → ReconciliationSignal
    allocation resource_id total teams (team_id, weight) =
        let proportion = fdiv weight total in
        record {
          method = "R6";
          source_entity = resource_id;
          target_entity = team_id;
          confidence = P.round3 (fmin (lit 65 100) (fadd (lit 3 10) (fmul proportion (lit 4 10))));
          signals = concat ("proportional:" ∷ team_id ∷ ":" ∷ show ".2f" proportion ∷ []) ∷ [];
          feature_values =
              ("allocation_weight", number (P.round3 proportion))
              ∷ ("team_count", count teams)
              ∷ [];
        }

    unfoldable pub resolve_r6 : String → Dict Float → List ReconciliationSignal
    unfolding values allocation
    resolve_r6 resource_id known_users =
        let users = positive_users known_users in
        let total = P.sum (values users) in
        if fle total (lit 0 1) then [] else map (allocation resource_id total (length users)) users
