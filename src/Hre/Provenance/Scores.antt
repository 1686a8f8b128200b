-- ===== src/Hre/Provenance/Scores.antt =====
-- hre/methods.py: the targets of R4, R5 and R6 are among the names that these methods are given.
use ai_compute_intelligence.Prelude.{
  ℕ, ltb, List, [], ◌∷◌, map, String, mem, length, Bool-cases, Option-cases, inl, inr, subst,
}
use ai_compute_intelligence.Prelude.Dict.{Dict}
use ai_compute_intelligence.Prelude.Every.{Every, Ensures, Every-keep, Every-map, Every-insert_key}
use ai_compute_intelligence.Floats.{Floats, Float, lit, flt, fle}
use ai_compute_intelligence.Hre.{Python}
use ai_compute_intelligence.Hre.Methods.{
  best_of, best_entry, score, team_scores, resolve_r4, insert_latest, sort_latest, recent,
  score_deployer, score_all, recent_users_of, set_of, owner_scores, resolve_r5, positive_users,
  allocation, resolve_r6,
}
use ai_compute_intelligence.Hre.Provenance.Methods.{Targets}

module _ ⦃F : Floats⦄ (P : Python) (Q : String → Type 0) where
  best_of-Has :
      (best : String × Float) (scores : Dict Float)
      → Q best.0
      → Every (λ e. Q e.0) scores
      → Q (best_of best scores).0
  unfolding best_of
  best_of-Has best [] q a = q
  best_of-Has (k, x) ((j, y) ∷ scores) q a = elim (Bool-cases (flt x y)) [
    | inl more ↦ rw (more, best_of) (best_of-Has (j, y) scores a.0 a.1)
    | inr less ↦ rw (less, best_of) (best_of-Has (k, x) scores q a.1)
  ]

  best_entry-Ensures :
      (scores : Dict Float) → Every (λ e. Q e.0) scores → Ensures (λ e. Q e.0) (best_entry scores)
  unfolding best_entry
  best_entry-Ensures [] a = tt
  best_entry-Ensures (e ∷ scores) a = best_of-Has e scores a.0 a.1

  score-Every :
      (k : String) (x : Float) (scores : Dict Float)
      → Q k
      → Every (λ e. Q e.0) scores
      → Every (λ e. Q e.0) (score k x scores)
  unfolding score
  score-Every k x scores q a = Every-insert_key Q k _ scores q a

  team_scores-Every :
      (history : List (String × Float)) (scores : Dict Float)
      → Every (λ e. Q e.0) history
      → Every (λ e. Q e.0) scores
      → Every (λ e. Q e.0) (team_scores P history scores)
  unfolding team_scores
  team_scores-Every [] scores a b = b
  team_scores-Every ((team_id, conf) ∷ history) scores a b =
      team_scores-Every history (score team_id conf scores) a.1
        (score-Every team_id conf scores a.0 b)

  pub resolve_r4-Ensures :
      (entity_id : String) (history : List (String × Float))
      → Every (λ e. Q e.0) history
      → Ensures (Targets P Q) (resolve_r4 P entity_id history)
  unfolding resolve_r4
  resolve_r4-Ensures entity_id history a =
      let scores = team_scores P history [] in
      let found = best_entry-Ensures scores (team_scores-Every history [] a tt) in
      elim (Option-cases (best_entry scores)) [
        | inl nothing ↦ rw (nothing, resolve_r4) tt
        | inr (e, some_team) ↦ elim (Bool-cases (ltb (length history) 3)) [
          | inl few ↦ rw (some_team, few, resolve_r4) tt
          | inr enough ↦
              rw (some_team, enough, resolve_r4) (subst (Ensures (λ e'. Q e'.0)) some_team found)
        ]
      ]

  insert_latest-Every :
      (e : String × ℕ) (sorted : List (String × ℕ))
      → Q e.0
      → Every (λ o. Q o.0) sorted
      → Every (λ o. Q o.0) (insert_latest P e sorted)
  unfolding insert_latest
  insert_latest-Every e [] q a = (q, tt)
  insert_latest-Every (o, at) ((o', at') ∷ sorted) q a = elim (Bool-cases (ltb at' at)) [
    | inl later ↦ rw (later, insert_latest) (q, a)
    | inr sooner ↦ rw (sooner, insert_latest) (a.0, insert_latest-Every (o, at) sorted q a.1)
  ]

  sort_latest-Every :
      (sorted owners : List (String × ℕ))
      → Every (λ o. Q o.0) sorted
      → Every (λ o. Q o.0) owners
      → Every (λ o. Q o.0) (sort_latest P sorted owners)
  unfolding sort_latest
  sort_latest-Every sorted [] a b = a
  sort_latest-Every sorted (e ∷ owners) a b =
      sort_latest-Every (insert_latest P e sorted) owners (insert_latest-Every e sorted b.0 a) b.1

  score_deployer-Every :
      (now : ℕ) (owners : List (String × ℕ)) (scores : Dict Float)
      → Every (λ o. Q o.0) owners
      → Every (λ e. Q e.0) scores
      → Every (λ e. Q e.0) (score_deployer P now owners scores)
  unfolding score_deployer
  score_deployer-Every now [] scores a b = b
  score_deployer-Every now ((owner, at) ∷ owners) scores a b = elim (Bool-cases (recent P now at)) [
    | inl within ↦ rw (within, score_deployer) (score-Every owner (lit 35 100) scores a.0 b)
    | inr old ↦ rw (old, score_deployer) (score_deployer-Every now owners scores a.1 b)
  ]

  score_all-Every :
      (x : Float) (owners : List String) (scores : Dict Float)
      → Every Q owners
      → Every (λ e. Q e.0) scores
      → Every (λ e. Q e.0) (score_all P x owners scores)
  unfolding score_all
  score_all-Every x [] scores a b = b
  score_all-Every x (owner ∷ owners) scores a b =
      score_all-Every x owners (score owner x scores) a.1 (score-Every owner x scores a.0 b)

  recent_users_of-Every :
      (now : ℕ) (users : List (String × ℕ))
      → Every (λ u. Q u.0) users
      → Every Q (recent_users_of P now users)
  unfolding recent_users_of
  recent_users_of-Every now [] a = tt
  recent_users_of-Every now ((user, at) ∷ users) a = elim (Bool-cases (recent P now at)) [
    | inl within ↦ rw (within, recent_users_of) (a.0, recent_users_of-Every now users a.1)
    | inr old ↦ rw (old, recent_users_of) (recent_users_of-Every now users a.1)
  ]

  set_of-Every : (xs : List String) → Every Q xs → Every Q (set_of P xs)
  unfolding set_of
  set_of-Every [] a = tt
  set_of-Every (t ∷ xs) a = elim (Bool-cases (mem t xs)) [
    | inl again ↦ rw (again, set_of) (set_of-Every xs a.1)
    | inr new ↦ rw (new, set_of) (a.0, set_of-Every xs a.1)
  ]

  pub resolve_r5-Ensures :
      ((xs : List String) → Every Q xs → Every Q (P.set_order xs))
      → (account : String) (owners : List (String × ℕ)) (code_owners : List String)
        (users : List (String × ℕ)) (now : ℕ)
      → Every (λ o. Q o.0) owners
      → Every Q code_owners
      → Every (λ u. Q u.0) users
      → Ensures (Targets P Q) (resolve_r5 P account owners code_owners users now)
  unfolding resolve_r5 owner_scores
  resolve_r5-Ensures order account owners code_owners users now a b c =
      let scores = owner_scores P now owners code_owners users in
      let deployer =
        score_deployer-Every now (sort_latest P [] owners) [] (sort_latest-Every [] owners tt a)
          tt in
      let recents = order _ (set_of-Every _ (recent_users_of-Every now users c)) in
      let found =
        best_entry-Ensures scores
          (score_all-Every _ _ _ recents (score_all-Every (lit 25 100) code_owners _ b deployer)) in
      elim (Option-cases (best_entry scores)) [
        | inl nothing ↦ rw (nothing, resolve_r5) tt
        | inr (e, some_owner) ↦
            rw (some_owner, resolve_r5) (subst (Ensures (λ e'. Q e'.0)) some_owner found)
      ]

  pub resolve_r6-Every :
      (resource_id : String) (users : Dict Float)
      → Every (λ e. Q e.0) users
      → Every (Targets P Q) (resolve_r6 P resource_id users)
  unfolding resolve_r6 allocation
  resolve_r6-Every resource_id users a =
      let positive = positive_users P users in
      let total = P.sum (map (λ e. e.1) positive) in
      let kept = Every-keep (λ e. Q e.0) (λ e. flt (lit 0 1) e.1) users a in
      elim (Bool-cases (fle total (lit 0 1))) [
        | inl nothing ↦ rw (nothing, resolve_r6) tt
        | inr something ↦
            rw (something, resolve_r6)
              (Every-map (Targets P Q) (allocation P resource_id total (length positive)) positive
                kept)
      ]
