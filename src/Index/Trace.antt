-- ===== src/Index/Trace.antt =====
-- index/materializer.py: through any sequence of operations, and whatever the Redis server does
-- meanwhile, the local index stays coherent and within its limit.
use ai_compute_intelligence.Prelude.{
  ℕ, ◌+◌, ◌<◌, ◌≡◌, refl, arith, List, [], ◌∷◌, String, Option, none, some, inl, inr, Bool-cases,
}
use ai_compute_intelligence.Prelude.Dict
use ai_compute_intelligence.Prelude.Dict.{Dict}
use ai_compute_intelligence.Floats.{Floats}
use ai_compute_intelligence.Index.{
  AttributionIndexEntry, AttributionIndexStore, insert_local, new_store,
}
use ai_compute_intelligence.Index.Store.{
  Redis, Tiers, lookup, materialize, evict, clear, lookup_local, load_durable_entry,
  materialize_local, write_durable_entry, promote, fall_back, drop_durable,
}
use ai_compute_intelligence.Index.Lru.{
  IsCoherent, insert_local-IsCoherent, insert_local-max_entries,
}
use ai_compute_intelligence.Index.Coherence.{
  lookup_local-IsCoherent, materialize_local-IsCoherent, erased-IsCoherent,
}

module _ ⦃F : Floats⦄ where
  -- Two stores that differ in their counters only.
  record SameIndex (s t : AttributionIndexStore) : Type 0 where
    index : t.index ≡ s.index
    versions : t.versions ≡ s.versions
    max_entries : t.max_entries ≡ s.max_entries

  pub record Good (limit : ℕ) (s : AttributionIndexStore) : Type 0 where
    pub coherent : IsCoherent s
    pub limited : s.max_entries ≡ limit

  Good-same :
      {limit : ℕ} {s t : AttributionIndexStore} → SameIndex s t → Good limit s → Good limit t
  Good-same {s = s} {t = t} h g = record {
    coherent = record {
      distinct = rw (h.index) (g.coherent.distinct);
      bounded = rw (h.index, h.max_entries) (g.coherent.bounded);
      agree = λ k. rw (h.index, h.versions) (g.coherent.agree k);
    };
    limited = rw (h.max_entries) (g.limited);
  }

  lookup_local-max_entries :
      (k : String) (s : AttributionIndexStore) → (lookup_local k s).0.max_entries ≡ s.max_entries
  unfolding lookup_local
  lookup_local-max_entries k s = ground arith

  materialize_local-max_entries :
      (now : ℕ) (e : AttributionIndexEntry) (s : AttributionIndexStore)
      → (materialize_local now e s).0.max_entries ≡ s.max_entries
  unfolding materialize_local
  materialize_local-max_entries now e s =
      insert_local-max_entries
        (record e { version = Dict.get_or e.workload_id 0 s.versions + 1; materialized_at = now }) s

module _ ⦃F : Floats⦄ ⦃R : Redis⦄ where
  pub data Call : Type 0 where
    look : String → Call
    mat : ℕ → AttributionIndexEntry → Call
    drop_entry : String → Call
    clear_all : Call
    -- the server changes by itself: another replica, expiry, an outage
    server : Option R.Server → Call

  unfoldable pub step : Call → Tiers → Tiers
  step (look k) t = (lookup k t).0
  step (mat now e) t = materialize now e t
  step (drop_entry k) t = (evict k t).0
  step clear_all t = clear t
  step (server r) t = record t { redis = r }

  unfoldable pub run : List Call → Tiers → Tiers
  run [] t = t
  run (call ∷ calls) t = run calls (step call t)

  load_durable_entry-SameIndex :
      (k : String) (r : R.Server) (s : AttributionIndexStore)
      → SameIndex s (load_durable_entry k r s).0
  unfolding load_durable_entry
  load_durable_entry-SameIndex k r s = ground arith

  write_durable_entry-SameIndex :
      (e : AttributionIndexEntry) (t : Tiers) → SameIndex t.store (write_durable_entry e t).store
  unfolding write_durable_entry
  write_durable_entry-SameIndex e t = ground arith

  insert_local-Good :
      {limit : ℕ} (e : AttributionIndexEntry) (s : AttributionIndexStore)
      → Good limit s
      → Good limit (insert_local e s)
  insert_local-Good e s g = record {
    coherent = insert_local-IsCoherent e s g.coherent.distinct g.coherent.agree;
    limited = rw insert_local-max_entries g.limited;
  }

  lookup_local-Good :
      {limit : ℕ} (k : String) (s : AttributionIndexStore)
      → Good limit s
      → Good limit (lookup_local k s).0
  lookup_local-Good k s g = record {
    coherent = lookup_local-IsCoherent k s g.coherent;
    limited = rw lookup_local-max_entries g.limited;
  }

  materialize-Good :
      {limit : ℕ} (now : ℕ) (e : AttributionIndexEntry) (t : Tiers)
      → 0 < limit
      → Good limit t.store
      → Good limit (materialize now e t).store
  unfolding materialize
  materialize-Good now e t h g =
      let m = materialize_local now e t.store in
      Good-same (write_durable_entry-SameIndex m.1 (record t { store = m.0 })) (record {
        coherent = materialize_local-IsCoherent now e t.store (omega (arith, g.limited)) g.coherent;
        limited = rw materialize_local-max_entries g.limited;
      })

  promote-Good :
      {limit : ℕ} (found : AttributionIndexStore × Option AttributionIndexEntry)
      → Good limit found.0
      → Good limit (promote found).0
  unfolding promote
  promote-Good (s, none) g = g
  promote-Good (s, some e) g =
      insert_local-Good e (record s { durable_hits = s.durable_hits + 1 })
        (Good-same (record { index = refl; versions = refl; max_entries = refl }) g)

  fall_back-Good :
      {limit : ℕ} (k : String) (redis : Option R.Server)
      (found : AttributionIndexStore × Option AttributionIndexEntry)
      → Good limit found.0
      → Good limit (fall_back k redis found).0
  unfolding fall_back
  fall_back-Good k redis (s, some e) g = g
  fall_back-Good k none (s, none) g = g
  fall_back-Good k (some r) (s, none) g =
      promote-Good (load_durable_entry k r s) (Good-same (load_durable_entry-SameIndex k r s) g)

  drop_durable-SameIndex :
      (change : R.Server → R.Server) (t : Tiers) → SameIndex t.store (drop_durable change t).store
  unfolding drop_durable
  drop_durable-SameIndex change t = ground arith

  evict-Good :
      {limit : ℕ} (k : String) (t : Tiers) → Good limit t.store → Good limit (evict k t).0.store
  unfolding evict
  evict-Good k t g = elim (Bool-cases (Dict.contains k t.store.index)) [
    | inl there ↦
        rw (there, evict)
          (Good-same (drop_durable-SameIndex _ _)
            (record { coherent = erased-IsCoherent k t.store g.coherent; limited = g.limited }))
    | inr gone ↦ rw (gone, evict) (Good-same (drop_durable-SameIndex _ _) g)
  ]

  clear-Good : {limit : ℕ} (t : Tiers) → Good limit t.store → Good limit (clear t).store
  unfolding clear Dict.lookup
  clear-Good t g =
      let s = record (t.store) { index = []; versions = [] } in
      let empty : Good _ s = record {
        coherent = record { distinct = tt; bounded = omega arith; agree = λ k. refl };
        limited = g.limited;
      } in
      Good-same {s = s} (drop_durable-SameIndex _ _) empty

  step-Good :
      {limit : ℕ} (call : Call) (t : Tiers)
      → 0 < limit
      → Good limit t.store
      → Good limit (step call t).store
  unfolding step lookup
  step-Good (look k) t h g =
      fall_back-Good k t.redis (lookup_local k t.store) (lookup_local-Good k t.store g)
  step-Good (mat now e) t h g = materialize-Good now e t h g
  step-Good (drop_entry k) t h g = evict-Good k t g
  step-Good clear_all t h g = clear-Good t g
  step-Good (server r) t h g = g

  -- Through any lookups, materialisations, evictions and clears, and whatever a Redis server does
  -- between and during them, a coherent index of at most `limit` entries stays one, if `limit` is
  -- not 0: no key stands twice, the limit holds after every call, and the version table holds
  -- exactly the versions of the entries.
  pub run-Good :
      {limit : ℕ} (calls : List Call) (t : Tiers)
      → 0 < limit
      → Good limit t.store
      → Good limit (run calls t).store
  unfolding run
  run-Good [] t h g = g
  run-Good (call ∷ calls) t h g = run-Good calls (step call t) h (step-Good call t h g)

pub new_store-Good : ⦃F : Floats⦄ (limit : ℕ) → Good limit (new_store limit)
unfolding new_store Dict.lookup
new_store-Good limit = record {
  coherent = record { distinct = tt; bounded = omega arith; agree = λ k. refl };
  limited = refl;
}
