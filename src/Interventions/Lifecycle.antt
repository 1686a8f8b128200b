-- ===== src/Interventions/Lifecycle.antt =====
-- interventions/registry.py: what transitions keep, and what a summary counts.
use ai_compute_intelligence.Prelude.{
  ℕ, ◌+◌, ◌≡◌, refl, sym, ap, ◌∙◌, arith, true, false, List, [], ◌∷◌, String, none, some, length,
  Option-cases, Bool-cases, inl, inr, eq_refl,
}
use ai_compute_intelligence.Prelude.Dict.{lookup, insert, lookup-insert_self}
use ai_compute_intelligence.Floats.{Floats}
use ai_compute_intelligence.Interventions.{
  InterventionRecord, Registry, validate_status, values, InterventionSummary, count_status, summary,
  Outcome, refused, unknown_intervention, moved, moved_record, transition,
}
use ai_compute_intelligence.Interventions.Counts.{
  AllAllowed, count_status-rank_all, length-rank_all, length-values, in_some_status-values,
}

module _ ⦃F : Floats⦄ where
  -- the arguments of a call of `transition`
  pub record Move : Type 0 where
    pub intervention_id : String
    pub next_status : String
    pub actor : String
    pub note : String
    pub now : ℕ

  unfoldable pub move_all : List Move → Registry → Registry
  move_all [] registry = registry
  move_all (m ∷ moves) registry =
      move_all moves (transition m.intervention_id m.next_status m.actor m.note m.now registry).0

  -- the counts of a summary, added up
  abbrev pub counted : InterventionSummary → ℕ
  counted s =
      s.recommended_count + s.review_count + s.approved_count + s.implemented_count
      + s.dismissed_count

  AllAllowed-insert :
      (k : String) (r : InterventionRecord) (registry : Registry)
      → validate_status r.status ≡ true
      → AllAllowed registry
      → AllAllowed (insert k r registry)
  unfolding insert
  AllAllowed-insert k r [] h a = (h, tt)
  AllAllowed-insert k r ((j, s) ∷ registry) h a =
      ground (arith, AllAllowed-insert k r registry h a.1)

  insert-present :
      (k : String) (r s : InterventionRecord) (registry : Registry)
      → lookup k registry ≡ some s
      → length (insert k r registry) ≡ length registry
  unfolding insert lookup
  insert-present k r s [] h = ground arith
  insert-present k r s ((j, t) ∷ registry) h = ground (arith, insert-present k r s registry)

  transition-kept :
      (m : Move) (registry : Registry)
      → AllAllowed registry
      → AllAllowed (transition m.intervention_id m.next_status m.actor m.note m.now registry).0
        × (length (transition m.intervention_id m.next_status m.actor m.note m.now registry).0
            ≡ length registry)
  unfolding transition
  transition-kept m registry a = elim (Bool-cases (validate_status m.next_status)) [
    | inr bad ↦ rw (bad, transition) (a, refl)
    | inl good ↦ elim (Option-cases (lookup m.intervention_id registry)) [
      | inl absent ↦ rw (good, absent, transition) (a, refl)
      | inr (r, found) ↦
          let r' = moved_record m.next_status m.actor m.note m.now r in
          rw (good, found, transition)
            (
              AllAllowed-insert m.intervention_id r' registry good a,
              insert-present m.intervention_id r' r registry found,
            )
    ]
  ]

  move_all-kept :
      (moves : List Move) (registry : Registry)
      → AllAllowed registry
      → AllAllowed (move_all moves registry) × (length (move_all moves registry) ≡ length registry)
  unfolding move_all
  move_all-kept [] registry a = (a, refl)
  move_all-kept (m ∷ moves) registry a =
      let (allowed, same) = transition-kept m registry a in
      let (allowed', same') = move_all-kept moves _ allowed in (allowed', same' ∙ same)

  -- After any transitions, refused ones included, of records in allowed states, the five counts of a
  -- summary add up to the number of records, which no transition changes.
  pub summary-move_all :
      (moves : List Move) (registry : Registry)
      → AllAllowed registry
      → (counted (summary (move_all moves registry)) ≡ length registry)
        × ((summary (move_all moves registry)).total_count ≡ length registry)
  unfolding summary count_status
  summary-move_all moves registry a =
      let after = move_all moves registry in
      let records = values after in
      let (allowed, same) = move_all-kept moves registry a in
      (
        omega (
          arith,
          same,
          in_some_status-values after allowed,
          count_status-rank_all "recommended" [] records,
          count_status-rank_all "review" [] records,
          count_status-rank_all "approved" [] records,
          count_status-rank_all "implemented" [] records,
          count_status-rank_all "dismissed" [] records,
        ),
        omega (arith, same, length-rank_all [] records, length-values after),
      )

  insert-insert :
      (k : String) (r s : InterventionRecord) (registry : Registry)
      → insert k r (insert k s registry) ≡ insert k r registry
  unfolding insert
  insert-insert k r s [] = ground (arith, eq_refl k)
  insert-insert k r s ((j, t) ∷ registry) = ground (arith, eq_refl k, insert-insert k r s registry)

  transition_unknown :
      (k s actor note : String) (now : ℕ) (registry : Registry)
      → validate_status s ≡ true
      → lookup k registry ≡ none
      → transition k s actor note now registry ≡ (registry, refused unknown_intervention)
  unfolding transition
  transition_unknown k s actor note now registry h absent = rw (h, absent, transition) refl

  transition_known :
      (k s actor note : String) (now : ℕ) (registry : Registry) (r : InterventionRecord)
      → validate_status s ≡ true
      → lookup k registry ≡ some r
      → transition k s actor note now registry ≡ (
        insert k (moved_record s actor note now r) registry,
        moved (moved_record s actor note now r),
      )
  unfolding transition
  transition_known k s actor note now registry r h found = rw (h, found, transition) refl

  transition_again :
      (k s s' actor actor' note note' : String) (now now' : ℕ) (registry : Registry)
      → validate_status s ≡ true
      → validate_status s' ≡ true
      → transition k s' actor' note' now' (transition k s actor note now registry).0
        ≡ transition k s' actor' note' now' registry
  transition_again k s s' actor actor' note note' now now' registry h h' =
      elim (Option-cases (lookup k registry)) [
        | inl absent ↦ rw (transition_unknown k s actor note now registry h absent) refl
        | inr (r, found) ↦
            let r1 = moved_record s actor note now r in
            let r2 = moved_record s' actor' note' now' r in
            let first = transition_known k s actor note now registry r h found in
            let second =
              transition_known k s' actor' note' now' (insert k r1 registry) r1 h'
                (lookup-insert_self k r1 registry) in
            let alone = transition_known k s' actor' note' now' registry r h' found in
            rw first (second ∙ ap (λ m. (m, moved r2)) (insert-insert k r2 r1 registry) ∙ sym alone)
      ]

  -- a call of `transition`
  abbrev pub perform : Move → Registry → Registry × Outcome
  perform m registry = transition m.intervention_id m.next_status m.actor m.note m.now registry

  -- calls for one record only
  abbrev pub AllOf : String → List Move → Type 0
  AllOf k [] = Unit
  AllOf k (m ∷ moves) = (m.intervention_id ≡ k) × AllOf k moves

  perform_refused :
      (p : Move) (registry : Registry)
      → validate_status p.next_status ≡ false
      → (perform p registry).0 ≡ registry
  unfolding transition
  perform_refused p registry h = rw (h, transition) refl

  perform_again :
      (p m : Move) (registry : Registry)
      → p.intervention_id ≡ m.intervention_id
      → validate_status m.next_status ≡ true
      → perform m (perform p registry).0 ≡ perform m registry
  perform_again p m registry same h = elim (Bool-cases (validate_status p.next_status)) [
    | inr refusal ↦ ap (perform m) (perform_refused p registry refusal)
    | inl good ↦
        ap (λ k. perform m (transition k p.next_status p.actor p.note p.now registry).0) same
        ∙ transition_again m.intervention_id p.next_status m.next_status p.actor m.actor p.note
            m.note p.now m.now registry good h
  ]

  -- A transition of a record to an allowed state has the outcome, and leaves the registry, that it
  -- would have had without the transitions of that record that came before it, however many, to
  -- whatever states, refused ones included.
  pub transition-forgets :
      (moves : List Move) (m : Move) (registry : Registry)
      → AllOf m.intervention_id moves
      → validate_status m.next_status ≡ true
      → perform m (move_all moves registry) ≡ perform m registry
  unfolding move_all
  transition-forgets [] m registry a h = refl
  transition-forgets (p ∷ moves) m registry a h =
      transition-forgets moves m (perform p registry).0 a.1 h ∙ perform_again p m registry a.0 h
