-- ===== src/Index/Rebuild.antt =====
-- index/materializer.py: what `full_rebuild` leaves in the index.
use ai_compute_intelligence.Prelude.{
  ℕ, ◌+◌, ◌-◌, ◌≤◌, ◌<◌, ◌≡◌, refl, arith, List, [], ◌∷◌, ◌++◌, String, str_eq, Option, none, some,
  true, if◌then◌else◌, length, length-append,
}
use ai_compute_intelligence.Prelude.Dict
use ai_compute_intelligence.Prelude.Dict.{remove, length-remove-le}
use ai_compute_intelligence.Prelude.Ordered.{lookup-move_to_end}
use ai_compute_intelligence.Floats.{Floats}
use ai_compute_intelligence.Index.{
  AttributionIndexEntry, AttributionIndexStore, AttributionResult, insert_local,
}
use ai_compute_intelligence.Index.Lru.{insert_local-index, insert_local-max_entries}
use ai_compute_intelligence.Index.Store.{
  Redis, Tiers, materialize, materialize_local, write_durable_entry, clear, drop_durable,
}
use ai_compute_intelligence.Index.Materializer.{
  ConfidenceConfig, in_unit_range, target_entity, entry_of, materialize_attribution, rebuild_from,
  full_rebuild,
}

module _ ⦃F : Floats⦄ where
  -- the team of an entry
  abbrev pub team_of : Option AttributionIndexEntry → Option String
  team_of none = none
  team_of (some e) = some e.team_id

  -- the team of the last result for a workload
  unfoldable pub latest : String → List (ℕ × AttributionResult) → Option String
  latest k [] = none
  latest k ((_, r) ∷ results) =
      let mine = if str_eq r.workload_id k then some (target_entity r.explanation) else none in
      elim (latest k results) [ some team ↦ some team | none ↦ mine ]

  -- every result has a confidence that the entry's model accepts
  abbrev pub Accepted : List (ℕ × AttributionResult) → Type 0
  Accepted [] = Unit
  Accepted ((_, r) ∷ results) = (in_unit_range r.combined_confidence ≡ true) × Accepted results

  insert_local-room :
      (e : AttributionIndexEntry) (s : AttributionIndexStore) (j : String)
      → length s.index < s.max_entries
      → (Dict.lookup j (insert_local e s).index
          ≡ (if str_eq e.workload_id j then some e else Dict.lookup j s.index))
        × (length (insert_local e s).index ≤ length s.index + 1)
  insert_local-room e s j h =
      let k = e.workload_id in
      let moved = remove k s.index ++ (k, e) ∷ [] in
      let few : length moved - s.max_entries ≡ 0 =
        omega (arith, length-append (remove k s.index) ((k, e) ∷ []), length-remove-le k s.index) in
      let whole : (insert_local e s).index ≡ moved = ground (arith, insert_local-index e s, few) in
      (
        rw (whole) (lookup-move_to_end k j e s.index),
        rw (whole) (
            omega
              (arith, length-append (remove k s.index) ((k, e) ∷ []), length-remove-le k s.index)),
      )

module _ ⦃F : Floats⦄ ⦃R : Redis⦄ where
  materialize-room :
      (now : ℕ) (e : AttributionIndexEntry) (t : Tiers) (j : String)
      → length t.store.index < t.store.max_entries
      → (team_of (Dict.lookup j (materialize now e t).store.index) ≡ (
          if str_eq e.workload_id j then some e.team_id else team_of (Dict.lookup j t.store.index)))
        × (length (materialize now e t).store.index ≤ length t.store.index + 1)
        × ((materialize now e t).store.max_entries ≡ t.store.max_entries)
  unfolding materialize materialize_local write_durable_entry
  materialize-room now e t j h =
      let v = Dict.get_or e.workload_id 0 t.store.versions + 1 in
      let e' = record e { version = v; materialized_at = now } in
      ground (arith, insert_local-room e' t.store j h, insert_local-max_entries e' t.store)

  clear-index :
      (t : Tiers)
      → ((clear t).store.index ≡ []) × ((clear t).store.max_entries ≡ t.store.max_entries)
  unfolding clear drop_durable
  clear-index t = ground arith

  module _ (config : ConfidenceConfig) (bucket : ℕ → String) where
    rebuild_from-latest :
        (results : List (ℕ × AttributionResult)) (t : Tiers) (count : ℕ) (k : String)
        → Accepted results
        → length t.store.index + length results ≤ t.store.max_entries
        → (team_of (Dict.lookup k (rebuild_from config bucket results t count).0.store.index)
            ≡ (elim (latest k results) [
              | some team ↦ some team
              | none ↦ team_of (Dict.lookup k t.store.index)
            ]))
          × ((rebuild_from config bucket results t count).1 ≡ some (count + length results))
    unfolding rebuild_from materialize_attribution latest entry_of
    rebuild_from-latest [] t count k a h = (refl, ground arith)
    rebuild_from-latest ((now, r) ∷ results) t count k a h =
        let e = entry_of config bucket now r none in
        let m = materialize-room now e t k (omega arith) in
        ground (arith, a.0, m, rebuild_from-latest results (materialize now e t) (count + 1) k a.1)

    -- A full rebuild from accepted results that fit into the index processes all of them, forgets
    -- what was there before, and leaves each workload with the team of its last result; a workload
    -- with no result is absent.
    pub full_rebuild-latest :
        (results : List (ℕ × AttributionResult)) (t : Tiers) (k : String)
        → Accepted results
        → length results ≤ t.store.max_entries
        → (team_of (Dict.lookup k (full_rebuild config bucket results t).0.store.index)
            ≡ latest k results)
          × ((full_rebuild config bucket results t).1 ≡ some (length results))
    unfolding full_rebuild Dict.lookup
    full_rebuild-latest results t k a h =
        ground (arith, clear-index t, rebuild_from-latest results (clear t) 0 k a)
