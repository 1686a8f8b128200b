-- ===== src/Index/Coherence.antt =====
-- index/materializer.py: every operation of `AttributionIndexStore` keeps the local index
-- coherent, whatever the Redis server answers.
use ai_compute_intelligence.Prelude.{
  ℕ, ◌+◌, ◌<◌, ◌≡◌, arith, [], ◌∷◌, String, length-append, Option-cases, inl, inr, eq_iff,
}
use ai_compute_intelligence.Prelude.Dict
use ai_compute_intelligence.Prelude.Dict.{
  lookup-insert, lookup-remove, length-remove-le, remove, insert, length-remove_present,
}
use ai_compute_intelligence.Prelude.Ordered.{Distinct-remove, lookup-move_to_end}
use ai_compute_intelligence.Floats.{Floats}
use ai_compute_intelligence.Index.{AttributionIndexEntry, AttributionIndexStore, insert_local}
use ai_compute_intelligence.Index.Store.{lookup_local, materialize_local}
use ai_compute_intelligence.Index.Lru.{
  IsCoherent, insert_local-IsCoherent, insert_local-lookup, moved-Distinct,
}

module _ ⦃F : Floats⦄ where
  -- Reading an entry moves it to the end, and no lookup tells the index before from that after.
  pub lookup_local-lookup :
      (k j : String) (s : AttributionIndexStore)
      → ((lookup_local k s).1 ≡ Dict.lookup k s.index)
        × (Dict.lookup j (lookup_local k s).0.index ≡ Dict.lookup j s.index)
  unfolding lookup_local
  lookup_local-lookup k j s = elim (Option-cases (Dict.lookup k s.index)) [
    | inl miss ↦ (rw (miss, lookup_local), rw (miss, lookup_local))
    | inr (e, hit) ↦ (
      rw (hit, lookup_local),
      rw (hit, lookup_local) (ground (arith, lookup-move_to_end k j e s.index, eq_iff k j)),
    )
  ]

  pub lookup_local-IsCoherent :
      (k : String) (s : AttributionIndexStore) → IsCoherent s → IsCoherent (lookup_local k s).0
  unfolding lookup_local
  lookup_local-IsCoherent k s c = elim (Option-cases (Dict.lookup k s.index)) [
    | inl miss ↦
        rw (miss, lookup_local)
          (record { distinct = c.distinct; bounded = c.bounded; agree = c.agree })
    | inr (e, hit) ↦
        rw (hit, lookup_local)
          (record {
            distinct = moved-Distinct k e s.index c.distinct;
            bounded = omega (
              arith,
              c.bounded,
              length-append (remove k s.index) ((k, e) ∷ []),
              length-remove_present k e s.index hit,
            );
            agree = λ j. ground (arith, c.agree j, lookup-move_to_end k j e s.index, eq_iff k j);
          })
  ]

  -- A materialisation puts the entry into the index with the next version of the one that was
  -- there (1 if none was) and the time, returns it, and keeps the index coherent, if the index may
  -- hold an entry.
  pub materialize_local-IsCoherent :
      (now : ℕ) (e : AttributionIndexEntry) (s : AttributionIndexStore)
      → 0 < s.max_entries
      → IsCoherent s
      → IsCoherent (materialize_local now e s).0
  unfolding materialize_local
  materialize_local-IsCoherent now e s h c =
      let v = Dict.get_or e.workload_id 0 s.versions + 1 in
      let e' = record e { version = v; materialized_at = now } in
      let i = insert_local-IsCoherent e' s c.distinct c.agree in
      record {
        distinct = i.distinct;
        bounded = i.bounded;
        agree = λ k. ground (
          arith,
          i.agree k,
          insert_local-lookup e' s h,
          eq_iff e.workload_id k,
          lookup-insert e.workload_id k v (insert_local e' s).versions,
        );
      }

  pub erased-IsCoherent :
      (k : String) (s : AttributionIndexStore)
      → IsCoherent s
      → IsCoherent (record s { index = remove k s.index; versions = remove k s.versions })
  erased-IsCoherent k s c = record {
    distinct = Distinct-remove k s.index c.distinct;
    bounded = omega (arith, length-remove-le k s.index);
    agree = λ j. ground (arith, c.agree j, lookup-remove k j s.index, lookup-remove k j s.versions);
  }
