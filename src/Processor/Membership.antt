-- ===== src/Processor/Membership.antt =====
-- core/processor.py, `_handle_org_change`: the memberships of a person in the graph.
use ai_compute_intelligence.Prelude.{
  ℕ, ◌≡◌, refl, sym, ◌∙◌, subst, arith, suc, keep, Bool, true, false, ◌&&◌, List, [], ◌∷◌, ◌++◌,
  String, str_eq, concat, is_nonempty, none, some, length, Bool-cases, Option-cases, inl, inr,
  eq_iff,
}
use text.Mathlib.TextLemmas.{append_cancel_left, append_cancel_right}
use ai_compute_intelligence.Floats.{Floats}
use ai_compute_intelligence.Graph.{
  GraphEdge, EdgeKey, member_of, same_key, key_of, InMemoryGraphStore, empty_store, get_elem?,
  active_get, is_open_at, is_open, close_edge, add_edge, supersede,
}
use ai_compute_intelligence.Graph.Lists.{get_elem?-middle}
use ai_compute_intelligence.Graph.Active.{
  same_key_refl, active_get-same, active_get-active_set, active_get-active_pop,
}
use ai_compute_intelligence.Graph.Scan.{Change, change_all, length-supersede}
use ai_compute_intelligence.Graph.Open.{
  OpenAt, AllTracked, add_edge-AllTracked, close_edge-AllTracked, change_all-AllTracked,
  empty_store-AllTracked,
}
use ai_compute_intelligence.Processor.{DomainEvent, attr, Texts, handle_org_change, edge_of}

-- the membership that an event ends
abbrev pub left_key : DomainEvent → EdgeKey
left_key event = (
  concat ("person:" ∷ attr "person_id" event ∷ []),
  concat ("team:" ∷ attr "previous_team" event ∷ []),
  member_of,
)

module _ ⦃F : Floats⦄ where
  -- the membership that an event begins
  abbrev pub member_edge : ℕ → DomainEvent → GraphEdge
  member_edge now event =
      edge_of now member_of (concat ("person:" ∷ attr "person_id" event ∷ []))
        (concat ("team:" ∷ attr "new_team" event ∷ [])) event.event_time "hr"

  -- no edge of the key is open
  abbrev pub IsClosed : EdgeKey → InMemoryGraphStore → Type 0
  IsClosed key g = keep (λ e. same_key key (key_of e) && is_open e) g.edges ≡ []

  keep-none :
      (p : GraphEdge → Bool) (edges : List GraphEdge)
      → ((i : ℕ) (e : GraphEdge) → get_elem? edges i ≡ some e → p e ≡ false)
      → keep p edges ≡ []
  keep-none p [] h = refl
  keep-none p (e ∷ edges) h =
      ground (arith, h 0 e refl, keep-none p edges (λ i x there. h (suc i) x there))

  close_edge-untracked :
      (key : EdgeKey) (at : ℕ) (g : InMemoryGraphStore)
      → active_get key (close_edge key at g).0.active_edge_index ≡ none
  unfolding close_edge
  close_edge-untracked key at g =
      let popped = active_get-active_pop key key g.active_edge_index in
      elim (Option-cases (active_get key g.active_edge_index)) [
        | inl absent ↦ rw (absent, close_edge) absent
        | inr (i, found) ↦ elim (Bool-cases (is_open_at i g.edges)) [
          | inl still ↦ rw (found, still, close_edge) (ground (arith, popped, same_key_refl key))
          | inr ended ↦ rw (found, ended, close_edge) (ground (arith, popped, same_key_refl key))
        ]
      ]

  add_edge-untracked :
      (now : ℕ) (e : GraphEdge) (key : EdgeKey) (g : InMemoryGraphStore)
      → same_key (key_of e) key ≡ false
      → active_get key g.active_edge_index ≡ none
      → active_get key (add_edge now e g).active_edge_index ≡ none
  unfolding add_edge
  add_edge-untracked now e key g differs absent =
      ground (arith, active_get-active_set (key_of e) key (length g.edges) g.active_edge_index)

  add_edge-OpenAt :
      (now : ℕ) (e : GraphEdge) (g : InMemoryGraphStore)
      → e.valid_to ≡ none
      → OpenAt (add_edge now e g).edges (length g.edges) e
  unfolding add_edge
  add_edge-OpenAt now e g h =
      let previous = active_get (key_of e) g.active_edge_index in
      let before = supersede now previous g.edges in
      record {
        there =
            subst (λ n. get_elem? (before ++ e ∷ []) n ≡ some e)
              (length-supersede now previous g.edges) (get_elem?-middle before e []);
        still = h;
      }

  untracked-IsClosed :
      (key : EdgeKey) (g : InMemoryGraphStore)
      → AllTracked g
      → active_get key g.active_edge_index ≡ none
      → IsClosed key g
  untracked-IsClosed key g tracked absent =
      keep-none (λ e. same_key key (key_of e) && is_open e) g.edges
        (λ i e there. elim (Bool-cases (same_key key (key_of e))) [
          | inr other ↦ rw other refl
          | inl same ↦ elim (Option-cases e.valid_to) [
            | inr (at, ended) ↦ rw (same, ended) refl
            | inl open_edge ↦
                let here : none ≡ some i =
                  sym absent
                  ∙ (active_get-same key (key_of e) g.active_edge_index same
                      ∙ tracked i e (record { there = there; still = open_edge })) in
                absurd (ground (arith, here))
          ]
        ])

  team_differs :
      (old new person : String)
      → str_eq old new ≡ false
      → same_key
          (person, concat ("team:" ∷ new ∷ []), member_of)
          (person, concat ("team:" ∷ old ∷ []), member_of)
        ≡ false
  unfolding same_key
  team_differs old new person h =
      let teams = eq_iff (concat ("team:" ∷ new ∷ [])) (concat ("team:" ∷ old ∷ [])) in
      elim (Bool-cases (str_eq (concat ("team:" ∷ new ∷ [])) (concat ("team:" ∷ old ∷ [])))) [
        | inr differ ↦ ground (arith, differ)
        | inl same ↦
            let cancelled =
              append_cancel_left "team:" (concat (new ∷ [])) (concat (old ∷ [])) (teams.0 same) in
            let equal : new ≡ old = append_cancel_right new old "" cancelled in
            absurd (ground (arith, eq_iff old new, equal, h))
      ]

  module _ (T : Texts) where
    -- the two steps of a move between two teams
    handle_org_change-steps :
        (now : ℕ) (event : DomainEvent) (g : InMemoryGraphStore)
        → is_nonempty (attr "person_id" event) ≡ true
        → is_nonempty (attr "previous_team" event) ≡ true
        → is_nonempty (attr "new_team" event) ≡ true
        → str_eq (attr "previous_team" event) (attr "new_team" event) ≡ false
        → handle_org_change T now event g
          ≡ add_edge now (member_edge now event) (close_edge (left_key event) event.event_time g).0
    unfolding handle_org_change
    handle_org_change-steps now event g person old new differ =
        rw (person, old, new, differ, handle_org_change) refl

    -- A person who moves from one team to another: in the graph that a new store has become through
    -- any calls, no membership of the old team is left open, and one of the new team is, valid from
    -- the time of the event on. The person and both teams must be named and the teams differ.
    pub handle_org_change-moves :
        (changes : List Change) (now : ℕ) (event : DomainEvent)
        → is_nonempty (attr "person_id" event) ≡ true
        → is_nonempty (attr "previous_team" event) ≡ true
        → is_nonempty (attr "new_team" event) ≡ true
        → str_eq (attr "previous_team" event) (attr "new_team" event) ≡ false
        → IsClosed (left_key event) (handle_org_change T now event (change_all changes empty_store))
          × ((i : ℕ) × OpenAt
                (handle_org_change T now event (change_all changes empty_store)).edges
                i
                (member_edge now event))
    unfolding edge_of
    handle_org_change-moves changes now event person old new differ =
        let g = change_all changes empty_store in
        let key = left_key event in
        let edge = member_edge now event in
        let closed = (close_edge key event.event_time g).0 in
        let tracked = add_edge-AllTracked now edge closed (
          close_edge-AllTracked key event.event_time g
            (change_all-AllTracked changes empty_store empty_store-AllTracked)) in
        let absent =
          add_edge-untracked now edge key closed
            (team_differs (attr "previous_team" event) (attr "new_team" event) _ differ)
            (close_edge-untracked key event.event_time g) in
        subst (λ g'. IsClosed key g' × ((i : ℕ) × OpenAt g'.edges i edge))
          (sym (handle_org_change-steps now event g person old new differ))
          (
            untracked-IsClosed key (add_edge now edge closed) tracked absent,
            (length closed.edges, add_edge-OpenAt now edge closed refl),
          )
