-- ===== src/Index/Lru.antt =====
-- index/materializer.py: the local index is a bounded dictionary in the order of last use, and its
-- version table agrees with it.
use ai_compute_intelligence.Prelude.{
  ℕ, zero, suc, ◌-◌, ◌≤◌, ◌<◌, ◌≡◌, refl, arith, List, [], ◌∷◌, ◌++◌, String, Option, none, some,
  length, drop, length-drop, length-append, eq_iff, eq_refl,
}
use ai_compute_intelligence.Prelude.Dict
use ai_compute_intelligence.Prelude.Dict.{
  Dict, remove, insert, lookup-insert, lookup-remove, lookup-append,
}
use ai_compute_intelligence.Prelude.Ordered.{
  Distinct, drop-append, lookup-drop_absent, Distinct-drop, Distinct-remove, Distinct-append,
  lookup-move_to_end,
}
use ai_compute_intelligence.Floats.{Floats}
use ai_compute_intelligence.Index.{
  AttributionIndexEntry, AttributionIndexStore, popitem, shrink, insert_local,
}

module _ ⦃F : Floats⦄ where
  drop-drop {ℓ} : {A : Type ℓ} (n : ℕ) (xs : List A) → drop n (drop 1 xs) ≡ drop (suc n) xs
  drop-drop zero [] = refl
  drop-drop (suc n) [] = refl
  drop-drop n (x ∷ xs) = refl

  abbrev pub version_of : Option AttributionIndexEntry → Option ℕ
  version_of none = none
  version_of (some e) = some e.version

  pub record IsCoherent (s : AttributionIndexStore) : Type 0 where
    pub distinct : Distinct s.index
    pub bounded : length s.index ≤ s.max_entries
    pub agree : (k : String) → Dict.lookup k s.versions ≡ version_of (Dict.lookup k s.index)

  abbrev pub Agree : AttributionIndexStore → Type 0
  Agree s = (k : String) → Dict.lookup k s.versions ≡ version_of (Dict.lookup k s.index)

  -- one round, over the list that it takes apart
  popitem-cases :
      (m : Dict AttributionIndexEntry) (s : AttributionIndexStore)
      → s.index ≡ m
      → ((popitem s).index ≡ drop 1 m) × ((popitem s).max_entries ≡ s.max_entries)
  unfolding popitem
  popitem-cases [] s h = ground arith
  popitem-cases ((k, e) ∷ m) s h = ground arith

  popitem-Agree :
      (m : Dict AttributionIndexEntry) (s : AttributionIndexStore)
      → s.index ≡ m
      → Distinct m
      → Agree s
      → Agree (popitem s)
  unfolding popitem Dict.lookup
  popitem-Agree [] s h d a = λ k. ground (arith, a k)
  popitem-Agree ((j, e) ∷ m) s h d a =
      λ k. ground (arith, a k, lookup-remove j k s.versions, eq_iff j k, d.0)

  -- The loop of `_insert_local_locked` drops the oldest entries and no others.
  shrink-drop :
      (n : ℕ) (s : AttributionIndexStore)
      → n ≡ length s.index - s.max_entries
      → ((shrink n s).index ≡ drop n s.index) × ((shrink n s).max_entries ≡ s.max_entries)
  unfolding shrink
  shrink-drop zero s h = (refl, refl)
  shrink-drop (suc n) s h = ground (
    arith,
    popitem-cases s.index s refl,
    length-drop 1 s.index,
    drop-drop n s.index,
    shrink-drop n (popitem s),
  )

  shrink-Agree :
      (n : ℕ) (s : AttributionIndexStore) → Distinct s.index → Agree s → Agree (shrink n s)
  unfolding shrink
  shrink-Agree zero s d a = a
  shrink-Agree (suc n) s d a = λ k.
      let p = popitem-cases s.index s refl in
      let later =
        shrink-Agree n (popitem s) (rw (p.0) (Distinct-drop 1 s.index d))
          (popitem-Agree s.index s refl d a) in
      ground (arith, a k, later k)

  pub moved-Agree :
      (e : AttributionIndexEntry) (s : AttributionIndexStore)
      → Agree s
      → Agree (record s {
        index = remove e.workload_id s.index ++ (e.workload_id, e) ∷ [];
        versions = insert e.workload_id e.version s.versions;
      })
  moved-Agree e s a = λ k. ground (
    arith,
    a k,
    lookup-insert e.workload_id k e.version s.versions,
    lookup-move_to_end e.workload_id k e s.index,
  )

  pub moved-Distinct :
      (k : String) (e : AttributionIndexEntry) (m : Dict AttributionIndexEntry)
      → Distinct m
      → Distinct (remove k m ++ (k, e) ∷ [])
  moved-Distinct k e m d =
      Distinct-append k e (remove k m) (simp (lookup-remove, eq_refl)) (Distinct-remove k m d)

  -- After an insertion no key stands twice in the index, there are at most `max_entries` entries,
  -- and the version table holds exactly the versions of the entries, if no key stood twice and the
  -- table agreed before. The bound need not hold before.
  pub insert_local-IsCoherent :
      (e : AttributionIndexEntry) (s : AttributionIndexStore)
      → Distinct s.index
      → Agree s
      → IsCoherent (insert_local e s)
  unfolding insert_local
  insert_local-IsCoherent e s d a =
      let t = record s {
        index = remove e.workload_id s.index ++ (e.workload_id, e) ∷ [];
        versions = insert e.workload_id e.version s.versions;
      } in
      let n = length t.index - t.max_entries in
      let cut = shrink-drop n t refl in
      let dt = moved-Distinct e.workload_id e s.index d in
      record {
        distinct = rw (cut.0) (Distinct-drop n t.index dt);
        bounded = rw (cut.0, cut.1) (omega (arith, length-drop n t.index));
        agree = shrink-Agree n t dt (moved-Agree e s a);
      }

  -- An insertion keeps the new entry and drops the entries that were used longest ago: the index is
  -- the old one, with the entry at the end, less as many entries from the front as are too many.
  pub insert_local-index :
      (e : AttributionIndexEntry) (s : AttributionIndexStore)
      → (let moved = remove e.workload_id s.index ++ (e.workload_id, e) ∷ [] in
          (insert_local e s).index ≡ drop (length moved - s.max_entries) moved)
  unfolding insert_local
  insert_local-index e s =
      let t = record s {
        index = remove e.workload_id s.index ++ (e.workload_id, e) ∷ [];
        versions = insert e.workload_id e.version s.versions;
      } in
      (shrink-drop (length t.index - t.max_entries) t refl).0

  pub insert_local-max_entries :
      (e : AttributionIndexEntry) (s : AttributionIndexStore)
      → (insert_local e s).max_entries ≡ s.max_entries
  unfolding insert_local
  insert_local-max_entries e s =
      let t = record s {
        index = remove e.workload_id s.index ++ (e.workload_id, e) ∷ [];
        versions = insert e.workload_id e.version s.versions;
      } in
      (shrink-drop (length t.index - t.max_entries) t refl).1

  -- The entry just inserted is there, if the index may hold one.
  pub insert_local-lookup :
      (e : AttributionIndexEntry) (s : AttributionIndexStore)
      → 0 < s.max_entries
      → Dict.lookup e.workload_id (insert_local e s).index ≡ some e
  unfolding Dict.lookup
  insert_local-lookup e s h =
      let k = e.workload_id in
      let m = remove k s.index in
      let n = length (m ++ (k, e) ∷ []) - s.max_entries in
      let absent : Dict.lookup k m ≡ none = simp (lookup-remove, eq_refl) in
      let few : n ≤ length m = omega (arith, length-append m ((k, e) ∷ [])) in
      ground (
        arith,
        insert_local-index e s,
        drop-append n m ((k, e) ∷ []) few,
        lookup-append k (drop n m) ((k, e) ∷ []),
        lookup-drop_absent k n m absent,
        eq_refl k,
      )
