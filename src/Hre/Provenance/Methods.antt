-- ===== src/Hre/Provenance/Methods.antt =====
-- hre/methods.py: the targets of R1, R2 and R3 are among the names that these methods are given.
use ai_compute_intelligence.Prelude.{
  ℕ, ◌+◌, List, [], ◌∷◌, String, str_eq, none, some, Bool-cases, Option-cases, inl, inr, subst,
}
use ai_compute_intelligence.Prelude.Dict.{Dict, lookup}
use ai_compute_intelligence.Prelude.Every.{Every, Ensures, lookup-Ensures}
use ai_compute_intelligence.Floats.{Floats, Float, lit, flt, fle}
use ai_compute_intelligence.Hre.{Python, ReconciliationSignal}
use ai_compute_intelligence.Hre.Methods.{
  normalized_match, resolve_r1, Window, scan_window, closer, seconds_between, resolve_r2, Naming,
  scan_patterns, scan_teams, similarity, normalize, resolve_r3,
}

module _ ⦃F : Floats⦄ (P : Python) (Q : String → Type 0) where
  abbrev pub Targets : ReconciliationSignal → Type 0
  Targets s = Q s.target_entity

  normalized_match-Ensures :
      (normalized : String) (m : Dict String)
      → Every (λ e. Q e.1) m
      → Ensures (λ e. Q e.1) (normalized_match P normalized m)
  unfolding normalized_match
  normalized_match-Ensures normalized [] a = tt
  normalized_match-Ensures normalized ((key, target) ∷ m) a =
      elim (Bool-cases (str_eq (P.strip (P.lower key)) normalized)) [
        | inl same ↦ rw (same, normalized_match) a.0
        | inr other ↦ rw (other, normalized_match) (normalized_match-Ensures normalized m a.1)
      ]

  pub resolve_r1-Ensures :
      (entity_id : String) (m : Dict String)
      → Every (λ e. Q e.1) m
      → Ensures Targets (resolve_r1 P entity_id m)
  unfolding resolve_r1
  resolve_r1-Ensures entity_id m a =
      let normalized = P.strip (P.lower entity_id) in
      let exact = lookup-Ensures Q entity_id m a in
      let near = normalized_match-Ensures normalized m a in
      elim (Option-cases (lookup entity_id m)) [
        | inr (target, found) ↦ rw (found, resolve_r1) (subst (Ensures Q) found exact)
        | inl missing ↦ elim (Option-cases (normalized_match P normalized m)) [
          | inl nothing ↦ rw (missing, nothing, resolve_r1) tt
          | inr (e, found) ↦
              rw (missing, found, resolve_r1) (subst (Ensures (λ e'. Q e'.1)) found near)
        ]
      ]

  scan_window-Ensures :
      (max_window : Float) (source_time : ℕ) (events : List (ℕ × String × String)) (w : Window P)
      → Every (λ e. Q e.1) events
      → Ensures (λ b. Q b.1) w.0
      → Ensures (λ b. Q b.1) (scan_window P max_window source_time events w).0
  unfolding scan_window
  scan_window-Ensures max_window source_time [] w a b = b
  scan_window-Ensures max_window source_time ((at, entity, source) ∷ events) (best, competing) a b =
      let delta = seconds_between P source_time at in
      elim (Bool-cases (fle delta max_window)) [
        | inr outside ↦
            rw (outside, scan_window)
              (scan_window-Ensures max_window source_time events (best, competing) a.1 b)
        | inl inside ↦ elim (Bool-cases (closer P delta best)) [
          | inl better ↦
              rw (inside, better, scan_window)
                (scan_window-Ensures max_window source_time events
                  (some (delta, entity, source), competing + 1) a.1 a.0)
          | inr worse ↦
              rw (inside, worse, scan_window)
                (scan_window-Ensures max_window source_time events (best, competing + 1) a.1 b)
        ]
      ]

  pub resolve_r2-Ensures :
      (event_time : ℕ) (event_entity : String) (events : List (ℕ × String × String))
      → Every (λ e. Q e.1) events
      → Ensures Targets (resolve_r2 P event_time event_entity events)
  unfolding resolve_r2
  resolve_r2-Ensures event_time event_entity events a =
      let found = scan_window-Ensures (lit 300 1) event_time events (none, 0) a tt in
      elim (Option-cases (scan_window P (lit 300 1) event_time events (none, 0)).0) [
        | inl nothing ↦ rw (nothing, resolve_r2) tt
        | inr (b, some_event) ↦
            rw (some_event, resolve_r2) (subst (Ensures (λ b'. Q b'.1)) some_event found)
      ]

  scan_patterns-Ensures :
      (normalized team_id : String) (patterns : List String) (best : Naming P)
      → Q team_id
      → Ensures (λ m. Q m.0) best.1
      → Ensures (λ m. Q m.0) (scan_patterns P normalized team_id patterns best).1
  unfolding scan_patterns
  scan_patterns-Ensures normalized team_id [] best q b = b
  scan_patterns-Ensures normalized team_id (pattern ∷ patterns) (best, match) q b =
      let s = similarity P normalized pattern in
      elim (Bool-cases (flt best s)) [
        | inl better ↦
            rw (better, scan_patterns)
              (scan_patterns-Ensures normalized team_id patterns (s, some (team_id, pattern)) q q)
        | inr worse ↦
            rw (worse, scan_patterns)
              (scan_patterns-Ensures normalized team_id patterns (best, match) q b)
      ]

  scan_teams-Ensures :
      (normalized : String) (teams : Dict (List String)) (best : Naming P)
      → Every (λ e. Q e.0) teams
      → Ensures (λ m. Q m.0) best.1
      → Ensures (λ m. Q m.0) (scan_teams P normalized teams best).1
  unfolding scan_teams
  scan_teams-Ensures normalized [] best a b = b
  scan_teams-Ensures normalized ((team_id, patterns) ∷ teams) best a b =
      scan_teams-Ensures normalized teams (scan_patterns P normalized team_id patterns best) a.1
        (scan_patterns-Ensures normalized team_id patterns best a.0 b)

  pub resolve_r3-Ensures :
      (entity_name : String) (teams : Dict (List String))
      → Every (λ e. Q e.0) teams
      → Ensures Targets (resolve_r3 P entity_name teams)
  unfolding resolve_r3
  resolve_r3-Ensures entity_name teams a =
      let result = scan_teams P (normalize P entity_name) teams (lit 0 1, none) in
      let found = scan_teams-Ensures (normalize P entity_name) teams (lit 0 1, none) a tt in
      elim (Option-cases result.1) [
        | inl nothing ↦ rw (nothing, resolve_r3) tt
        | inr (m, some_team) ↦ elim (Bool-cases (flt result.0 (lit 4 10))) [
          | inl low ↦ rw (some_team, low, resolve_r3) tt
          | inr high ↦
              rw (some_team, high, resolve_r3) (subst (Ensures (λ m'. Q m'.0)) some_team found)
        ]
      ]
